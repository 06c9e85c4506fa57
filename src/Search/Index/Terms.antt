-- ===== src/Search/Index/Terms.antt =====
-- A term's score from the postings (backend/wiseway/search_index.py) and from the fields of an item.
use wise_way.Prelude.{
  ℕ, ◌*◌, ◌≤◌, ◌≡◌, ◌⊎◌, refl, sym, ap, ◌∙◌, true, false, Bool-cases, Option, none, some, inl, inr,
  List, [], ◌∷◌, map, Text, text_eq, text_eq_iff, if◌then◌else◌, Member, arith,
}
use wise_way.Common.Texts.{is_prefix}
use wise_way.Search.Match.{Stream, weighed, stream_matches, term_matches, max_with, greatest}
use wise_way.Search.Match.Meaning.{Member-append}
use wise_way.Search.Index.{SearchIndex, heavier, posting_of}
use wise_way.Search.Index.Words.{found_word}
use wise_way.Search.Index.Scores.{at, raised, raised_all}
use wise_way.Search.Index.Weights.{in_words, in_streams}

-- a value is at least a number
abbrev pub Reaches : ℕ → Option ℕ → Type 0
Reaches n none = ⊥
Reaches n (some m) = n ≤ m

-- two values that reach the same numbers are equal
pub Reaches-eq :
    (a b : Option ℕ)
    → ((n : ℕ) → Reaches n a → Reaches n b)
    → ((n : ℕ) → Reaches n b → Reaches n a)
    → a ≡ b
Reaches-eq none none f g = refl
Reaches-eq none (some m) f g = absurd (g m (omega arith))
Reaches-eq (some n) none f g = absurd (f n (omega arith))
Reaches-eq (some n) (some m) f g = ap some (omega (arith, f n (omega arith), g m (omega arith)))

Reaches-heavier :
    (n w : ℕ) (found : Option ℕ) → Reaches n (some (heavier w found)) → (n ≤ w) ⊎ Reaches n found
Reaches-heavier n w none h = inl (omega (arith, h))
Reaches-heavier n w (some m) h = ground (arith, h)

heavier-Reaches :
    (n w : ℕ) (found : Option ℕ) → (n ≤ w) ⊎ Reaches n found → Reaches n (some (heavier w found))
heavier-Reaches n w none (inl h) = omega (arith, h)
heavier-Reaches n w (some m) (inl h) = omega (arith, h)
heavier-Reaches n w (some m) (inr h) = omega (arith, h)
heavier-Reaches n w none (inr h) = elim h [ ]

-- reaching the greatest of a list
pub greatest-Reaches :
    (n : ℕ) (l : List ℕ) → Reaches n (greatest l) → (m : ℕ) × Member m l × (n ≤ m)
greatest-Reaches n [] h = elim h [ ]
greatest-Reaches n (x ∷ l) h = elim (split (greatest l) refl h) [
  | inl a ↦ (x, inl refl, a)
  | inr a ↦ let (m, k, b) = greatest-Reaches n l a in (m, inr k, b)
]
  where
    split : (g : Option ℕ) → greatest l ≡ g → n ≤ max_with x g → (n ≤ x) ⊎ Reaches n (greatest l)
    split none e h = inl h
    split (some m) e h = rw e (ground (arith, h))

pub Member-Reaches : (n m : ℕ) (l : List ℕ) → Member m l → n ≤ m → Reaches n (greatest l)
Member-Reaches n m [] k h = elim k [ ]
Member-Reaches n m (x ∷ l) (inl e) h = first (greatest l)
  where
    first : (g : Option ℕ) → n ≤ max_with x g
    first none = omega (arith, e, h)
    first (some y) = omega (arith, e, h)
Member-Reaches n m (x ∷ l) (inr k) h = later (greatest l) (Member-Reaches n m l k h)
  where
    later : (g : Option ℕ) → Reaches n g → n ≤ max_with x g
    later none r = elim r [ ]
    later (some y) r = omega (arith, r)

-- the words of one stream
in_words-Reaches :
    (n : ℕ) (token : Text) (weight : ℕ) (words : List Text) (found : Option ℕ)
    → Reaches n (in_words token weight words found)
    → Reaches n found ⊎ (Member token words × (n ≤ weight))
in_words-Reaches n token weight [] found h = inl h
in_words-Reaches n token weight (w ∷ words) found h = elim (Bool-cases (text_eq w token)) [
  | inl own ↦
      let e : w ≡ token = ground (arith, text_eq_iff w token, own) in
      elim (in_words-Reaches n token weight words (some (heavier weight found)) (rw own at h)) [
        | inl r ↦ elim (Reaches-heavier n weight found r) [ inl a ↦ inr (inl e, a) | inr b ↦ inl b ]
        | inr r ↦ inr (inr r.0, r.1)
      ]
  | inr other ↦ elim (in_words-Reaches n token weight words found (rw other at h)) [
    | inl r ↦ inl r
    | inr r ↦ inr (inr r.0, r.1)
  ]
]

Reaches-in_words :
    (n : ℕ) (token : Text) (weight : ℕ) (words : List Text) (found : Option ℕ)
    → Reaches n found ⊎ (Member token words × (n ≤ weight))
    → Reaches n (in_words token weight words found)
Reaches-in_words n token weight [] found (inl h) = h
Reaches-in_words n token weight [] found (inr h) = elim h.0 [ ]
Reaches-in_words n token weight (w ∷ words) found h = elim (Bool-cases (text_eq w token)) [
  | inl own ↦ rw own (
      Reaches-in_words n token weight words (some (heavier weight found))
        (inl (heavier-Reaches n weight found (own_word h))))
  | inr other ↦ rw other (Reaches-in_words n token weight words found (other_word other h))
]
  where
    own_word :
        Reaches n found ⊎ (Member token (w ∷ words) × (n ≤ weight)) → (n ≤ weight) ⊎ Reaches n found
    own_word (inl r) = inr r
    own_word (inr r) = inl r.1

    other_word :
        text_eq w token ≡ false
        → Reaches n found ⊎ (Member token (w ∷ words) × (n ≤ weight))
        → Reaches n found ⊎ (Member token words × (n ≤ weight))
    other_word other (inl r) = inl r
    other_word other (inr (inl e, r)) = absurd (ground (arith, text_eq_iff w token, e, other))
    other_word other (inr (inr m, r)) = inr (m, r)

-- a stream that has the word and at least a weight
abbrev pub Weighs : ℕ → Text → List Stream → Type 0
Weighs n token streams =
    (weight : ℕ) × (words : List Text) × Member (weight, words) streams
    × Member token words
    × (n ≤ weight)

pub in_streams-Reaches :
    (n : ℕ) (token : Text) (streams : List Stream) (found : Option ℕ)
    → Reaches n (in_streams token streams found)
    → Reaches n found ⊎ Weighs n token streams
in_streams-Reaches n token [] found h = inl h
in_streams-Reaches n token ((weight, words) ∷ streams) found h =
    elim (in_streams-Reaches n token streams (in_words token weight words found) h) [
      | inl r ↦ elim (in_words-Reaches n token weight words found r) [
        | inl a ↦ inl a
        | inr b ↦ inr (weight, words, inl refl, b.0, b.1)
      ]
      | inr (w, l, s, t, k) ↦ inr (w, l, inr s, t, k)
    ]

pub Reaches-in_streams :
    (n : ℕ) (token : Text) (streams : List Stream) (found : Option ℕ)
    → Reaches n found ⊎ Weighs n token streams
    → Reaches n (in_streams token streams found)
Reaches-in_streams n token [] found (inl h) = h
Reaches-in_streams n token [] found (inr (w, l, s, t, k)) = elim s [ ]
Reaches-in_streams n token ((weight, words) ∷ streams) found (inl h) =
    Reaches-in_streams n token streams (in_words token weight words found)
      (inl (Reaches-in_words n token weight words found (inl h)))
Reaches-in_streams n token ((weight, words) ∷ streams) found (inr (w, l, inr s, t, k)) =
    Reaches-in_streams n token streams (in_words token weight words found) (inr (w, l, s, t, k))
Reaches-in_streams n token ((weight, words) ∷ streams) found (inr (w, l, inl e, t, k)) =
    let a : weight ≡ w = ap (λ (x : Stream). x.0) e in
    let b : words ≡ l = ap (λ (x : Stream). x.1) e in
    Reaches-in_streams n token streams (in_words token weight words found)
      (inl (Reaches-in_words n token weight words found (inr (rw b t, omega (arith, a, k)))))

abbrev pub factor : Text → Text → ℕ
factor term token = if text_eq token term then 2 else 1

module _ (index : SearchIndex) (term : Text) (p : ℕ) where
  -- a found word whose posting reaches a number
  abbrev pub Posts : ℕ → List Text → Type 0
  Posts n words =
      (token : Text) × (w : ℕ) × Member token words
      × (at p (posting_of index token) ≡ some w)
      × (n ≤ w * factor term token)

  pub raised_all-Reaches :
      (n : ℕ) (words : List Text) (found : Option ℕ)
      → Reaches n (raised_all p (map (found_word index term) words) found)
      → Reaches n found ⊎ Posts n words
  raised_all-Reaches n [] found h = inl h
  raised_all-Reaches n (token ∷ words) found h =
      elim (raised_all-Reaches n words
        (raised (factor term token) (at p (posting_of index token)) found) h) [
          | inl r ↦ here (at p (posting_of index token)) refl r
          | inr (t, w, m, e, k) ↦ inr (t, w, inr m, e, k)
        ]
    where
      here :
          (posted : Option ℕ)
          → at p (posting_of index token) ≡ posted
          → Reaches n (raised (factor term token) posted found)
          → Reaches n found ⊎ Posts n (token ∷ words)
      here none e r = inl r
      here (some w) e r = elim (Reaches-heavier n (w * factor term token) found r) [
        | inl a ↦ inr (token, w, inl refl, e, a)
        | inr b ↦ inl b
      ]

  pub Reaches-raised_all :
      (n : ℕ) (words : List Text) (found : Option ℕ)
      → Reaches n found ⊎ Posts n words
      → Reaches n (raised_all p (map (found_word index term) words) found)
  Reaches-raised_all n [] found (inl h) = h
  Reaches-raised_all n [] found (inr (t, w, m, e, k)) = elim m [ ]
  Reaches-raised_all n (token ∷ words) found (inl h) =
      Reaches-raised_all n words (raised (factor term token) (at p (posting_of index token)) found)
        (inl (kept (at p (posting_of index token))))
    where
      kept : (posted : Option ℕ) → Reaches n (raised (factor term token) posted found)
      kept none = h
      kept (some w) = heavier-Reaches n (w * factor term token) found (inr h)
  Reaches-raised_all n (token ∷ words) found (inr (t, w, inr m, e, k)) =
      Reaches-raised_all n words (raised (factor term token) (at p (posting_of index token)) found)
        (inr (t, w, m, e, k))
  Reaches-raised_all n (token ∷ words) found (inr (t, w, inl s, e, k)) =
      let own : at p (posting_of index token) ≡ some w =
        ap (λ (x : Text). at p (posting_of index x)) s ∙ e in
      let enough : n ≤ w * factor term token = rw s k in
      Reaches-raised_all n words (raised (factor term token) (at p (posting_of index token)) found)
        (inl (rw own (heavier-Reaches n (w * factor term token) found (inl enough))))

-- a number of the list comes from a word
stream_matches-Member :
    (term : Text) (weight m : ℕ) (words : List Text)
    → Member m (stream_matches term weight words)
    → (token : Text) × Member token words
      × (is_prefix term token ≡ true)
      × (m ≡ weighed term weight token)
unfolding stream_matches
stream_matches-Member term weight m [] h = elim h [ ]
stream_matches-Member term weight m (t ∷ words) h = elim (Bool-cases (is_prefix term t)) [
  | inl e ↦ elim (rw e at h) [
    | inl q ↦ (t, inl refl, e, sym q)
    | inr q ↦
        let (token, k, a, b) = stream_matches-Member term weight m words q in (token, inr k, a, b)
  ]
  | inr e ↦
      let (token, k, a, b) = stream_matches-Member term weight m words (rw e at h) in
      (token, inr k, a, b)
]

pub term_matches-Member :
    (term : Text) (m : ℕ) (streams : List Stream)
    → Member m (term_matches term streams)
    → (weight : ℕ) × (words : List Text) × (token : Text) × Member (weight, words) streams
      × Member token words
      × (is_prefix term token ≡ true)
      × (m ≡ weighed term weight token)
unfolding term_matches
term_matches-Member term m [] h = elim h [ ]
term_matches-Member term m ((weight, words) ∷ streams) h =
    elim (Member-append m (stream_matches term weight words) (term_matches term streams) h) [
      | inl own ↦
          let (token, k, a, b) = stream_matches-Member term weight m words own in
          (weight, words, token, inl refl, k, a, b)
      | inr other ↦
          let (w, l, token, s, k, a, b) = term_matches-Member term m streams other in
          (w, l, token, inr s, k, a, b)
    ]
