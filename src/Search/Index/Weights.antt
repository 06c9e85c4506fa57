-- ===== src/Search/Index/Weights.antt =====
-- The weights that the postings of backend/wiseway/search_index.py hold for each word and position.
use wise_way.Prelude.{
  ℕ, zero, suc, ◌+◌, ◌<◌, ◌≡◌, refl, sym, ap, ◌∙◌, Bool, true, false, ◌&&◌, Bool-cases, Option,
  none, some, inl, inr, List, [], ◌∷◌, Text, text_eq, text_eq_iff, if◌then◌else◌, ◌==◌, ==_iff,
  or_else, arith,
}
use wise_way.Search.Words.{Unicode}
use wise_way.Search.Items.{SearchItem}
use wise_way.Search.Match.{Stream, field_streams}
use wise_way.Search.Index.{
  Posting, lookup, update, heavier, post, add_words, add_streams, postings_from, search_index,
  posting_of,
}
use wise_way.Search.Index.Dicts.{lookup-update}

-- the weight of a word at a position
abbrev weight_at : Text → ℕ → List (Text × Posting) → Option ℕ
weight_at token position postings =
    lookup ◌==◌ position (or_else (lookup text_eq token postings) [])

-- the greatest weight of a stream that has the word, from one found before
abbrev pub in_words : Text → ℕ → List Text → Option ℕ → Option ℕ
in_words token weight [] found = found
in_words token weight (w ∷ words) found =
    in_words token weight words (if text_eq w token then some (heavier weight found) else found)

abbrev pub in_streams : Text → List Stream → Option ℕ → Option ℕ
in_streams token [] found = found
in_streams token ((weight, words) ∷ streams) found =
    in_streams token streams (in_words token weight words found)

one_word :
    (position weight : ℕ) (w token : Text) (p : ℕ) (postings : List (Text × Posting))
    → weight_at token p (update text_eq w (post position weight) postings) ≡ (
        if text_eq w token && position == p
        then some (heavier weight (weight_at token p postings))
        else weight_at token p postings)
one_word position weight w token p postings =
    let outer = lookup-update text_eq text_eq_iff w token (post position weight) postings in
    elim (Bool-cases (text_eq w token)) [
      | inr other ↦
          let o : lookup text_eq token (update text_eq w (post position weight) postings)
              ≡ lookup text_eq token postings =
            outer ∙ rw other refl in
          rw other (ap (λ (o : Option Posting). lookup ◌==◌ p (or_else o [])) o)
      | inl own ↦
          let e : w ≡ token = ground (arith, text_eq_iff w token, own) in
          let inner =
            lookup-update ◌==◌ ==_iff position p (heavier weight)
              (or_else (lookup text_eq w postings) []) in
          let o : lookup text_eq token (update text_eq w (post position weight) postings)
              ≡ some (post position weight (lookup text_eq w postings)) =
            outer ∙ rw own refl in
          rw own (
            ap (λ (o : Option Posting). lookup ◌==◌ p (or_else o [])) o
            ∙ (inner ∙ same_position position p weight w token postings e))
    ]
  where
    same_position :
        (position p weight : ℕ) (w token : Text) (postings : List (Text × Posting))
        → w ≡ token
        → (if position == p
            then some (heavier weight (weight_at w position postings))
            else weight_at w p postings)
          ≡ (if position == p
              then some (heavier weight (weight_at token p postings))
              else weight_at token p postings)
    same_position position p weight w token postings e = elim (Bool-cases (position == p)) [
      | inl h ↦ let q : position ≡ p = ground (arith, h) in rw (h, e, q) refl
      | inr h ↦ rw (h, e) refl
    ]

words_lem :
    (position weight : ℕ) (words : List Text) (token : Text) (p : ℕ)
    (postings : List (Text × Posting))
    → weight_at token p (add_words position weight words postings) ≡ (
        if position == p
        then in_words token weight words (weight_at token p postings)
        else weight_at token p postings)
unfolding add_words
words_lem position weight [] token p postings = ground arith
words_lem position weight (w ∷ words) token p postings =
    let rest =
      words_lem position weight words token p (update text_eq w (post position weight) postings) in
    let one = one_word position weight w token p postings in
    elim (Bool-cases (position == p)) [
      | inl h ↦
          rw h (
            rest
            ∙ rw (h, one, h) (here (text_eq w token) weight words (weight_at token p postings)))
      | inr h ↦ rw h (
          rest
          ∙ rw (h, one, h)
              (there (text_eq w token) (heavier weight (weight_at token p postings))
                (weight_at token p postings)))
    ]
  where
    here :
        (b : Bool) (weight : ℕ) (words : List Text) (found : Option ℕ)
        → in_words token weight words (if b && true then some (heavier weight found) else found)
          ≡ in_words token weight words (if b then some (heavier weight found) else found)
    here true weight words found = refl
    here false weight words found = refl

    there : (b : Bool) (n : ℕ) (found : Option ℕ) → (if b && false then some n else found) ≡ found
    there true n found = refl
    there false n found = refl

streams_lem :
    (position : ℕ) (streams : List Stream) (token : Text) (p : ℕ) (postings : List (Text × Posting))
    → weight_at token p (add_streams position streams postings) ≡ (
        if position == p
        then in_streams token streams (weight_at token p postings)
        else weight_at token p postings)
unfolding add_streams
streams_lem position [] token p postings = ground arith
streams_lem position ((weight, words) ∷ streams) token p postings =
    let rest = streams_lem position streams token p (add_words position weight words postings) in
    let one = words_lem position weight words token p postings in
    elim (Bool-cases (position == p)) [
      | inl h ↦ rw h (rest ∙ rw (h, one, h) refl)
      | inr h ↦ rw h (rest ∙ rw (h, one, h) refl)
    ]

-- the streams of the item at a place, none beyond the items
abbrev pub streams_at : Unicode → List SearchItem → ℕ → List Stream
streams_at unicode [] k = []
streams_at unicode (item ∷ items) zero = field_streams unicode item
streams_at unicode (item ∷ items) (suc k) = streams_at unicode items k

module _ (unicode : Unicode) (token : Text) where
  -- a position before those of the items
  before_lem :
      (position p : ℕ) (items : List SearchItem) (postings : List (Text × Posting))
      → p < position
      → weight_at token p (postings_from unicode position items postings)
        ≡ weight_at token p postings
  unfolding postings_from
  before_lem position p [] postings l = refl
  before_lem position p (item ∷ items) postings l =
      let other : (position == p) ≡ false = ground (arith, l) in
      before_lem (suc position) p items (add_streams position (field_streams unicode item) postings)
        (omega (arith, l))
      ∙ (streams_lem position (field_streams unicode item) token p postings ∙ rw other refl)

  from_lem :
      (k position : ℕ) (items : List SearchItem) (postings : List (Text × Posting))
      → weight_at token (position + k) (postings_from unicode position items postings)
        ≡ in_streams token (streams_at unicode items k) (weight_at token (position + k) postings)
  unfolding postings_from
  from_lem k position [] postings = refl
  from_lem zero position (item ∷ items) postings =
      let same : (position == position + 0) ≡ true = ground arith in
      before_lem (suc position) (position + 0) items
        (add_streams position (field_streams unicode item) postings) (omega arith)
      ∙ (streams_lem position (field_streams unicode item) token (position + 0) postings
          ∙ rw same refl)
  from_lem (suc k) position (item ∷ items) postings =
      let e : position + suc k ≡ suc position + k = omega arith in
      let other : (position == suc position + k) ≡ false = ground arith in
      let rest =
        from_lem k (suc position) items
          (add_streams position (field_streams unicode item) postings) in
      rw e (
        rest
        ∙ ap (in_streams token (streams_at unicode items k)) (
            streams_lem position (field_streams unicode item) token (suc position + k) postings
            ∙ rw other refl))

  -- The posting of a word holds a position exactly where a field of the item there has the word, with the
  -- greatest weight of such a field.
  pub posting_of_lem :
      (items : List SearchItem) (position : ℕ)
      → lookup ◌==◌ position (posting_of (search_index unicode items) token)
        ≡ in_streams token (streams_at unicode items position) none
  unfolding search_index lookup
  posting_of_lem items position =
      let e : 0 + position ≡ position = omega arith in
      ap (λ (p : ℕ). weight_at token p (postings_from unicode 0 items [])) (sym e)
      ∙ from_lem position 0 items []
