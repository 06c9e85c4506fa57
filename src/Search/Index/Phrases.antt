-- ===== src/Search/Index/Phrases.antt =====
-- The phrases in `SearchIndex.match` (backend/wiseway/search_index.py), position by position.
use wise_way.Prelude.{
  ℕ, ◌+◌, ◌*◌, ◌≡◌, ◌≢◌, refl, sym, ap, ◌∙◌, Bool, true, false, ◌&&◌, Bool-cases, Option, none,
  some, inl, inr, List, [], ◌∷◌, map, Text, if◌then◌else◌, ◌==◌, ==_iff, ltb, or_else, is_some,
  get_elem?, length, arith, All,
}
use wise_way.Search.Match.{Stream, add_score, greatest, phrase_weights}
use wise_way.Search.Index.{
  SearchIndex, Posting, lookup, eligible, candidates_of, score_at, phrase_score, match_phrase,
  match_phrases, smallest_from, smallest_posting, posting_of, has_position,
}
use wise_way.Search.Index.Dicts.{lookup-update}
use wise_way.Search.Index.Scores.{
  at, so_far, state_at, eligible-so_far, score_at-so_far, candidates_enough,
}

abbrev pub scaled : List Text → Option ℕ → Option ℕ
scaled phrase none = none
scaled phrase (some weight) = some (2 * length phrase * weight)

abbrev pub fields_at : List (List Stream) → ℕ → List Stream
fields_at fields p = or_else (get_elem? fields p) []

-- what a phrase adds to a position
abbrev pub added_by : List (List Stream) → List Text → Posting → ℕ → Option ℕ
added_by fields phrase smallest p =
    if is_some (at p smallest)
    then scaled phrase (greatest (phrase_weights phrase (fields_at fields p)))
    else none

module _ (allowed : List ℕ) (fields : List (List Stream)) where
  module _ (scores : Option Posting) (phrase : List Text) where
    -- the greatest weight of a field with the phrase, as a score
    abbrev with_weight : ℕ → Option ℕ → Option ℕ
    with_weight p none = none
    with_weight p (some weight) = some (score_at scores p + 2 * length phrase * weight)

    abbrev or_keep : Option ℕ → Option ℕ → Option ℕ
    or_keep none found = found
    or_keep (some n) found = some n

    phrase_score_lem :
        (q p : ℕ) (weight : Option ℕ) (matched : Posting)
        → at p (phrase_score allowed scores q phrase weight matched)
          ≡ (if q == p then or_keep (with_weight p weight) (at p matched) else at p matched)
    phrase_score_lem q p none matched = elim (Bool-cases (q == p)) [
      | inl h ↦ rw h refl
      | inr h ↦ rw h refl
    ]
    phrase_score_lem q p (some w) matched =
        lookup-update ◌==◌ ==_iff q p (λ found. score_at scores q + 2 * length phrase * w) matched
        ∙ elim (Bool-cases (q == p)) [
          | inl h ↦ let e : q ≡ p = ground (arith, h) in rw (h, e) refl
          | inr h ↦ rw h refl
        ]

    abbrev weight_in : ℕ → Option ℕ
    weight_in p = greatest (phrase_weights phrase (fields_at fields p))

    match_phrase_lem :
        (smallest : Posting) (p : ℕ) (candidates : List ℕ) (matched : Posting)
        → at p (match_phrase allowed scores fields phrase smallest candidates matched) ≡ (
            if has_position p candidates && (is_some (at p smallest) && eligible allowed scores p)
            then or_keep (with_weight p (weight_in p)) (at p matched)
            else at p matched)
    unfolding match_phrase
    match_phrase_lem smallest p [] matched = refl
    match_phrase_lem smallest p (q ∷ candidates) matched =
        let test = is_some (at q smallest) && eligible allowed scores q in
        let next =
          if test
          then phrase_score allowed scores q phrase
              (greatest (phrase_weights phrase (fields_at fields q))) matched
          else matched in
        let rest = match_phrase_lem smallest p candidates next in
        let one : at p next ≡ (
            if test && (q == p)
            then or_keep (with_weight p (weight_in q)) (at p matched)
            else at p matched) =
          one_step test q p matched in
        elim (Bool-cases (q == p)) [
          | inr h ↦ rw h (
              rest
              ∙ rw (one, h)
                  (idle test (at p matched) (or_keep (with_weight p (weight_in q)) (at p matched))
                    (has_position p candidates
                      && (is_some (at p smallest) && eligible allowed scores p))
                    (with_weight p (weight_in p))))
          | inl h ↦
              let e : q ≡ p = ground (arith, h) in
              rw h (
                rest
                ∙ rw (one, h, e)
                    (twice (has_position p candidates)
                      (is_some (at p smallest) && eligible allowed scores p)
                      (with_weight p (weight_in p)) (at p matched)))
        ]
      where
        one_step :
            (test : Bool) (q p : ℕ) (matched : Posting)
            → at p (
                if test
                then phrase_score allowed scores q phrase
                    (greatest (phrase_weights phrase (fields_at fields q)))
                    matched
                else matched)
              ≡ (if test && (q == p)
                  then or_keep (with_weight p (weight_in q)) (at p matched)
                  else at p matched)
        one_step true q p matched = phrase_score_lem q p (weight_in q) matched
        one_step false q p matched = refl

        idle :
            (test : Bool) (found other : Option ℕ) (b : Bool) (w : Option ℕ)
            → (if b
                then or_keep w (if test && false then other else found)
                else (if test && false then other else found))
              ≡ (if b then or_keep w found else found)
        idle true found other b w = refl
        idle false found other b w = refl

        twice :
            (b c : Bool) (w found : Option ℕ)
            → (if b && c
                then or_keep w (if c && true then or_keep w found else found)
                else (if c && true then or_keep w found else found))
              ≡ (if c then or_keep w found else found)
        twice true true none found = refl
        twice true true (some n) found = refl
        twice true false w found = refl
        twice false true w found = refl
        twice false false w found = refl

    with_weight-on :
        (p : ℕ) (w : Option ℕ) (s : Option ℕ)
        → so_far allowed scores p ≡ s
        → is_some s ≡ true
        → or_keep (with_weight p w) none ≡ add_score s (scaled phrase w)
    with_weight-on p none none e h = cc
    with_weight-on p none (some n) e h = refl
    with_weight-on p (some w) none e h = cc
    with_weight-on p (some w) (some n) e h =
        let score : score_at scores p ≡ n =
          score_at-so_far allowed scores p ∙ ap (λ (o : Option ℕ). or_else o 0) e in
        rw score refl

    add_score-none : (s : Option ℕ) → add_score s none ≡ none
    add_score-none none = refl
    add_score-none (some n) = refl

    phrase_lem :
        (smallest : Posting) (p : ℕ)
        → at p
            (match_phrase allowed scores fields phrase smallest (candidates_of scores smallest) [])
          ≡ add_score (so_far allowed scores p) (added_by fields phrase smallest p)
    unfolding lookup
    phrase_lem smallest p =
        match_phrase_lem smallest p (candidates_of scores smallest) []
        ∙ elim (Bool-cases (is_some (at p smallest))) [
          | inr h ↦ rw h (
              none_either (has_position p (candidates_of scores smallest))
              ∙ sym (add_score-none (so_far allowed scores p)))
          | inl h ↦ elim (Bool-cases (eligible allowed scores p)) [
            | inr e ↦
                let s =
                  gone (so_far allowed scores p) (sym (eligible-so_far allowed scores p) ∙ e) in
                rw (h, e, s) (none_either (has_position p (candidates_of scores smallest)))
            | inl e ↦
                rw (h, e, candidates_enough allowed scores smallest p h e)
                  (with_weight-on p (weight_in p) (so_far allowed scores p) refl
                    (sym (eligible-so_far allowed scores p) ∙ e))
          ]
        ]
      where
        none_either :
            (b : Bool)
            → ◌≡◌ {A = Option ℕ}
                (if b && false then or_keep (with_weight p (weight_in p)) none else none)
                none
        none_either true = refl
        none_either false = refl

        gone : (s : Option ℕ) → is_some s ≡ false → s ≡ none
        gone none h = refl
        gone (some n) h = cc

module _ (allowed : List ℕ) (index : SearchIndex) where
  abbrev pub small : List Text → Posting
  small phrase = smallest_posting (map (posting_of index) phrase)

  -- the scores of the phrases, one on top of the other
  abbrev pub all_phrases : ℕ → List (List Text) → Option ℕ → Option ℕ
  all_phrases p [] found = found
  all_phrases p (phrase ∷ rest) found =
      all_phrases p rest (add_score found (added_by index.fields phrase (small phrase) p))

  pub all_phrases-none : (p : ℕ) (rest : List (List Text)) → all_phrases p rest none ≡ none
  all_phrases-none p [] = refl
  all_phrases-none p (phrase ∷ rest) = all_phrases-none p rest

  next_state :
      (p : ℕ) (rest : List (List Text)) (found : Posting)
      → ((scores : Option Posting)
          → state_at allowed (match_phrases index allowed scores rest) p
            ≡ all_phrases p rest (so_far allowed scores p))
      → state_at allowed
          (elim found [
            | [] ↦ none
            | q ∷ others ↦ match_phrases index allowed (some (q ∷ others)) rest
          ])
          p
        ≡ all_phrases p rest (at p found)
  unfolding lookup
  next_state p rest [] follows = sym (all_phrases-none p rest)
  next_state p rest (q ∷ others) follows = follows (some (q ∷ others))

  pub match_phrases_lem :
      (p : ℕ) (phrases : List (List Text)) (scores : Option Posting)
      → state_at allowed (match_phrases index allowed scores phrases) p
        ≡ all_phrases p phrases (so_far allowed scores p)
  unfolding match_phrases
  match_phrases_lem p [] scores = refl
  match_phrases_lem p (phrase ∷ rest) scores =
      next_state p rest
        (match_phrase allowed scores index.fields phrase (small phrase)
          (candidates_of scores (small phrase)) [])
        (λ (s : Option Posting). match_phrases_lem p rest s)
      ∙ ap (all_phrases p rest) (phrase_lem allowed index.fields scores phrase (small phrase) p)

-- the shortest of some postings has a position that they all have
smallest_from-has :
    (p : ℕ) (posting : Posting) (rest : List Posting)
    → is_some (at p posting) ≡ true
    → All (λ d. is_some (at p d) ≡ true) rest
    → is_some (at p (smallest_from posting rest)) ≡ true
unfolding smallest_from
smallest_from-has p posting [] h a = h
smallest_from-has p posting (d ∷ rest) h a = elim (Bool-cases (ltb (length d) (length posting))) [
  | inl l ↦ rw l (smallest_from-has p d rest a.0 a.1)
  | inr l ↦ rw l (smallest_from-has p posting rest h a.1)
]

pub small-has :
    (index : SearchIndex) (p : ℕ) (phrase : List Text)
    → phrase ≢ []
    → All (λ token. is_some (at p (posting_of index token)) ≡ true) phrase
    → is_some (at p (smallest_posting (map (posting_of index) phrase))) ≡ true
small-has index p [] n a = absurd (n refl)
small-has index p (token ∷ phrase) n a =
    smallest_from-has p (posting_of index token) (map (posting_of index) phrase) a.0
      (mapped phrase a.1)
  where
    mapped :
        (l : List Text)
        → All (λ t. is_some (at p (posting_of index t)) ≡ true) l
        → All (λ d. is_some (at p d) ≡ true) (map (posting_of index) l)
    mapped [] a = tt
    mapped (t ∷ l) a = (a.0, mapped l a.1)
