-- ===== src/Search/Index/Rows.antt =====
-- The dictionaries of scores in `SearchIndex.match` (backend/wiseway/search_index.py) have each key once,
-- and their sorted keys are the positions with a score.
use wise_way.Prelude.{
  ℕ, ◌*◌, ◌≤◌, ◌<◌, ◌≡◌, refl, sym, ap, ◌∙◌, Bool, false, ◌&&◌, ◌||◌, Bool-cases, Option, none,
  some, inl, inr, List, [], ◌∷◌, Text, ◌==◌, ltb, is_some, or_else, All, get_elem?, arith,
}
use wise_way.Search.Match.{Stream, greatest, phrase_weights}
use wise_way.Search.Order.{insert_by, sort_by}
use wise_way.Search.Index.{
  SearchIndex, Posting, lookup, update, heavier, keys, has_position, eligible, candidates_of,
  match_at, match_posting, match_term, add_scores, match_terms, phrase_score, match_phrase,
  match_phrases, then_phrases,
}

abbrev pub IsDistinct : List ℕ → Type 0
IsDistinct [] = Unit
IsDistinct (x ∷ l) = (has_position x l ≡ false) × IsDistinct l

abbrev DistinctKeys : Posting → Type 0
DistinctKeys d = IsDistinct (keys d)

has_position-update :
    (j key : ℕ) (change : Option ℕ → ℕ) (d : Posting)
    → has_position j (keys (update ◌==◌ key change d)) ≡ (has_position j (keys d) || key == j)
unfolding update
has_position-update j key change [] = ground arith
has_position-update j key change ((k, n) ∷ d) = ground (arith, has_position-update j key change d)

update-Distinct :
    (key : ℕ) (change : Option ℕ → ℕ) (d : Posting)
    → DistinctKeys d
    → DistinctKeys (update ◌==◌ key change d)
unfolding update
update-Distinct key change [] h = (refl, tt)
update-Distinct key change ((k, n) ∷ d) h = elim (Bool-cases (k == key)) [
  | inl e ↦ rw e h
  | inr e ↦
      rw e (
        ground (arith, has_position-update k key change d, e, h.0),
        update-Distinct key change d h.1,
      )
]

module _ (allowed : List ℕ) (scores : Option Posting) where
  match_at-Distinct :
      (m : ℕ) (posting : Posting) (q : ℕ) (w : Option ℕ) (d : Posting)
      → DistinctKeys d
      → DistinctKeys (match_at allowed scores m posting q w d)
  match_at-Distinct m posting q none d h = h
  match_at-Distinct m posting q (some w) d h = elim (Bool-cases (eligible allowed scores q)) [
    | inl e ↦ rw e (update-Distinct q (heavier (w * m)) d h)
    | inr e ↦ rw e h
  ]

  match_posting-Distinct :
      (m : ℕ) (posting : Posting) (candidates : List ℕ) (d : Posting)
      → DistinctKeys d
      → DistinctKeys (match_posting allowed scores m posting candidates d)
  unfolding match_posting
  match_posting-Distinct m posting [] d h = h
  match_posting-Distinct m posting (q ∷ candidates) d h =
      match_posting-Distinct m posting candidates
        (match_at allowed scores m posting q (lookup ◌==◌ q posting) d)
        (match_at-Distinct m posting q (lookup ◌==◌ q posting) d h)

  match_term-Distinct :
      (matches : List (ℕ × Posting)) (d : Posting)
      → DistinctKeys d
      → DistinctKeys (match_term allowed scores matches d)
  unfolding match_term
  match_term-Distinct [] d h = h
  match_term-Distinct ((m, posting) ∷ matches) d h =
      match_term-Distinct matches
        (match_posting allowed scores m posting (candidates_of scores posting) d)
        (match_posting-Distinct m posting (candidates_of scores posting) d h)

  keys-add_scores : (d : Posting) → keys (add_scores allowed scores d) ≡ keys d
  unfolding add_scores
  keys-add_scores [] = refl
  keys-add_scores ((q, n) ∷ d) = ap (λ (l : List ℕ). q ∷ l) (keys-add_scores d)

  phrase_score-Distinct :
      (q : ℕ) (phrase : List Text) (w : Option ℕ) (d : Posting)
      → DistinctKeys d
      → DistinctKeys (phrase_score allowed scores q phrase w d)
  phrase_score-Distinct q phrase none d h = h
  phrase_score-Distinct q phrase (some w) d h = update-Distinct q _ d h

  match_phrase-Distinct :
      (fields : List (List Stream)) (phrase : List Text) (smallest : Posting) (candidates : List ℕ)
      (d : Posting)
      → DistinctKeys d
      → DistinctKeys (match_phrase allowed scores fields phrase smallest candidates d)
  unfolding match_phrase
  match_phrase-Distinct fields phrase smallest [] d h = h
  match_phrase-Distinct fields phrase smallest (q ∷ candidates) d h =
      elim (Bool-cases (is_some (lookup ◌==◌ q smallest) && eligible allowed scores q)) [
        | inl e ↦ rw e (
            match_phrase-Distinct fields phrase smallest candidates _ (
              phrase_score-Distinct q phrase
                (greatest (phrase_weights phrase (or_else (get_elem? fields q) []))) d h))
        | inr e ↦ rw e (match_phrase-Distinct fields phrase smallest candidates d h)
      ]

-- the state's dictionary, if there is one
abbrev pub DistinctState : Option (Option Posting) → Type 0
DistinctState none = Unit
DistinctState (some none) = Unit
DistinctState (some (some d)) = DistinctKeys d

module _ (allowed : List ℕ) where
  next_terms :
      (rest : List (List (ℕ × Posting))) (d : Posting)
      → DistinctKeys d
      → ((s : Posting) → DistinctKeys s → DistinctState (match_terms allowed (some s) rest))
      → DistinctState
          (elim d [ [] ↦ none | q ∷ others ↦ match_terms allowed (some (q ∷ others)) rest ])
  next_terms rest [] h f = tt
  next_terms rest (q ∷ others) h f = f (q ∷ others) h

  match_terms-Distinct :
      (terms : List (List (ℕ × Posting))) (scores : Option Posting)
      → DistinctState (some scores)
      → DistinctState (match_terms allowed scores terms)
  unfolding match_terms
  match_terms-Distinct [] scores h = h
  match_terms-Distinct (matches ∷ rest) scores h =
      let d = match_term allowed scores matches [] in
      next_terms rest (add_scores allowed scores d)
        (rw (keys-add_scores allowed scores d) (match_term-Distinct allowed scores matches [] tt))
        (λ (s : Posting) (k : DistinctKeys s). match_terms-Distinct rest (some s) k)

  module _ (index : SearchIndex) where
    next_phrases :
        (rest : List (List Text)) (d : Posting)
        → DistinctKeys d
        → ((s : Posting)
            → DistinctKeys s
            → DistinctState (match_phrases index allowed (some s) rest))
        → DistinctState (elim d [
          | [] ↦ none
          | q ∷ others ↦ match_phrases index allowed (some (q ∷ others)) rest
        ])
    next_phrases rest [] h f = tt
    next_phrases rest (q ∷ others) h f = f (q ∷ others) h

    match_phrases-Distinct :
        (phrases : List (List Text)) (scores : Option Posting)
        → DistinctState (some scores)
        → DistinctState (match_phrases index allowed scores phrases)
    unfolding match_phrases
    match_phrases-Distinct [] scores h = h
    match_phrases-Distinct (phrase ∷ rest) scores h =
        next_phrases rest _
          (match_phrase-Distinct allowed scores index.fields phrase _ (candidates_of scores _) []
            tt)
          (λ (s : Posting) (k : DistinctKeys s). match_phrases-Distinct rest (some s) k)

    pub state-Distinct :
        (phrases : List (List Text)) (terms : List (List (ℕ × Posting)))
        → DistinctState (then_phrases index allowed phrases (match_terms allowed none terms))
    state-Distinct phrases terms =
        after (match_terms allowed none terms) (match_terms-Distinct terms none tt)
      where
        after :
            (before : Option (Option Posting))
            → DistinctState before
            → DistinctState (then_phrases index allowed phrases before)
        after none h = tt
        after (some scores) h = match_phrases-Distinct phrases scores h

-- each number is greater than those before it
abbrev pub IsRising : List ℕ → Type 0
IsRising [] = Unit
IsRising (x ∷ l) = All (λ y. x < y) l × IsRising l

has_position-insert_by :
    (j x : ℕ) (l : List ℕ) → has_position j (insert_by ltb x l) ≡ (x == j || has_position j l)
unfolding insert_by
has_position-insert_by j x [] = refl
has_position-insert_by j x (y ∷ l) = ground (arith, has_position-insert_by j x l)

pub has_position-sort_by : (j : ℕ) (l : List ℕ) → has_position j (sort_by ltb l) ≡ has_position j l
unfolding sort_by
has_position-sort_by j [] = refl
has_position-sort_by j (x ∷ l) =
    has_position-insert_by j x (sort_by ltb l)
    ∙ ap (λ (b : Bool). x == j || b) (has_position-sort_by j l)

All-insert_lt :
    (bound x : ℕ) (l : List ℕ)
    → bound < x
    → All (λ y. bound < y) l
    → All (λ y. bound < y) (insert_by ltb x l)
unfolding insert_by
All-insert_lt bound x [] h a = (h, tt)
All-insert_lt bound x (y ∷ l) h a = elim (Bool-cases (ltb y x)) [
  | inl e ↦ rw e (a.0, All-insert_lt bound x l h a.1)
  | inr e ↦ rw e (h, a)
]

pub All-lt : (x y : ℕ) (l : List ℕ) → x < y → All (λ z. y < z) l → All (λ z. x < z) l
All-lt x y [] h a = tt
All-lt x y (z ∷ l) h a = (omega (arith, h, a.0), All-lt x y l h a.1)

insert_by-IsRising :
    (x : ℕ) (l : List ℕ) → has_position x l ≡ false → IsRising l → IsRising (insert_by ltb x l)
unfolding insert_by
insert_by-IsRising x [] n r = (tt, tt)
insert_by-IsRising x (y ∷ l) n r = elim (Bool-cases (ltb y x)) [
  | inl e ↦
      rw e (
        All-insert_lt y x l (ground (arith, e)) r.0,
        insert_by-IsRising x l (ground (arith, n)) r.1,
      )
  | inr e ↦ let h : x < y = ground (arith, e, n) in rw e ((h, All-lt x y l h r.0), r)
]

pub sort_by-IsRising : (l : List ℕ) → IsDistinct l → IsRising (sort_by ltb l)
unfolding sort_by
sort_by-IsRising [] d = tt
sort_by-IsRising (x ∷ l) d =
    insert_by-IsRising x (sort_by ltb l) (has_position-sort_by x l ∙ d.0) (sort_by-IsRising l d.1)

absent_le : (x y : ℕ) (l : List ℕ) → x ≤ y → All (λ z. y < z) l → has_position x l ≡ false
absent_le x y [] h a = refl
absent_le x y (z ∷ l) h a =
    let rest = absent_le x y l h a.1 in let less = a.0 in ground (arith, rest, less, h)

first_same :
    (x y : ℕ) (k l : List ℕ)
    → All (λ z. x < z) k
    → All (λ z. y < z) l
    → has_position x (x ∷ k) ≡ has_position x (y ∷ l)
    → has_position y (x ∷ k) ≡ has_position y (y ∷ l)
    → x ≡ y
first_same x y k l a b f g = elim (Bool-cases (ltb x y)) [
  | inl h ↦
      let less : x ≤ y = ground (arith, h) in
      let absent = absent_le x y l less b in absurd (ground (arith, h, f, absent))
  | inr h ↦ elim (Bool-cases (ltb y x)) [
    | inl e ↦
        let less : y ≤ x = ground (arith, e) in
        let absent = absent_le y x k less a in absurd (ground (arith, e, g, absent))
    | inr e ↦ ground (arith, h, e)
  ]
]

rest_same :
    (x y : ℕ) (k l : List ℕ)
    → All (λ z. x < z) k
    → All (λ z. y < z) l
    → x ≡ y
    → ((j : ℕ) → has_position j (x ∷ k) ≡ has_position j (y ∷ l))
    → (j : ℕ) → has_position j k ≡ has_position j l
rest_same x y k l a b e f j = elim (Bool-cases (x == j)) [
  | inl h ↦
      let g : x ≡ j = ground (arith, h) in
      rw (← g) (absent_le x x k (omega arith) a ∙ sym (absent_le x y l (omega (arith, e)) b))
  | inr h ↦ let at_j = f j in ground (arith, at_j, h, e)
]

-- two rising lists with the same numbers are one
pub IsRising-eq :
    (k l : List ℕ)
    → IsRising k
    → IsRising l
    → ((j : ℕ) → has_position j k ≡ has_position j l)
    → k ≡ l
IsRising-eq [] [] r s f = refl
IsRising-eq [] (y ∷ l) r s f = let g = f y in absurd (ground (arith, g))
IsRising-eq (x ∷ k) [] r s f = let g = f x in absurd (ground (arith, g))
IsRising-eq (x ∷ k) (y ∷ l) r s f =
    let e : x ≡ y = first_same x y k l r.0 s.0 (f x) (f y) in
    let same = IsRising-eq k l r.1 s.1 (rest_same x y k l r.0 s.0 e f) in rw (e, same) refl
