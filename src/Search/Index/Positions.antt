-- ===== src/Search/Index/Positions.antt =====
-- The positions of a chain in the index of backend/wiseway/search_index.py, in their order.
use wise_way.Prelude.{
  ℕ, zero, suc, ◌+◌, ◌<◌, ◌≡◌, refl, ap, ◌∙◌, Bool, true, ◌&&◌, Bool-cases, Option, none, some, inl,
  inr, List, [], ◌∷◌, map, Text, ◌==◌, is_some, keep, All, get_elem?, arith,
}
use wise_way.Search.Words.{Unicode}
use wise_way.Search.Items.{SearchItem}
use wise_way.Search.Match.{field_streams}
use wise_way.Search.Facets.{has_chain}
use wise_way.Search.Index.{Posting, has_position, score_at, scored_rows, with_score}
use wise_way.Search.Index.Weights.{streams_at}
use wise_way.Search.Index.Phrases.{fields_at}
use wise_way.Search.Index.Chains.{positions_of}
use wise_way.Search.Index.Rows.{IsRising}

pub has_position-keep :
    (test : ℕ → Bool) (j : ℕ) (l : List ℕ)
    → has_position j (keep test l) ≡ (has_position j l && test j)
has_position-keep test j [] = refl
has_position-keep test j (x ∷ l) =
    let rest = has_position-keep test j l in
    elim (Bool-cases (x == j)) [
      | inl h ↦
          let e : x ≡ j = ground (arith, h) in
          let t : test x ≡ test j = ap test e in
          elim (Bool-cases (test x)) [
            | inl k ↦ rw (k, keep) (ground (arith, h, k, t))
            | inr k ↦ rw (k, keep) (ground (arith, h, k, t, rest))
          ]
      | inr h ↦ elim (Bool-cases (test x)) [
        | inl k ↦ rw (k, keep) (ground (arith, h, rest))
        | inr k ↦ rw (k, keep) (ground (arith, h, rest))
      ]
    ]

pub All-keep :
    (test : ℕ → Bool) (x : ℕ) (l : List ℕ) → All (λ y. x < y) l → All (λ y. x < y) (keep test l)
All-keep test x [] a = tt
All-keep test x (y ∷ l) a = elim (Bool-cases (test y)) [
  | inl k ↦ rw (k, keep) (a.0, All-keep test x l a.1)
  | inr k ↦ rw (k, keep) (All-keep test x l a.1)
]

pub keep-IsRising : (test : ℕ → Bool) (l : List ℕ) → IsRising l → IsRising (keep test l)
keep-IsRising test [] r = tt
keep-IsRising test (x ∷ l) r = elim (Bool-cases (test x)) [
  | inl k ↦ rw (k, keep) (All-keep test x l r.0, keep-IsRising test l r.1)
  | inr k ↦ rw (k, keep) (keep-IsRising test l r.1)
]

pub All-positions_of :
    (selected : List Text) (bound position : ℕ) (items : List SearchItem)
    → bound < position
    → All (λ y. bound < y) (positions_of selected position items)
All-positions_of selected bound position [] h = tt
All-positions_of selected bound position (item ∷ items) h =
    let rest = All-positions_of selected bound (suc position) items (omega (arith, h)) in
    elim (Bool-cases (has_chain selected item)) [ inl c ↦ rw c (h, rest) | inr c ↦ rw c rest ]

pub positions_of-IsRising :
    (selected : List Text) (position : ℕ) (items : List SearchItem)
    → IsRising (positions_of selected position items)
positions_of-IsRising selected position [] = tt
positions_of-IsRising selected position (item ∷ items) =
    let rest = positions_of-IsRising selected (suc position) items in
    elim (Bool-cases (has_chain selected item)) [
      | inl c ↦ rw c (All-positions_of selected position (suc position) items (omega arith), rest)
      | inr c ↦ rw c rest
    ]

pub positions_of-has :
    (selected : List Text) (k position : ℕ) (items : List SearchItem) (item : SearchItem)
    → get_elem? items k ≡ some item
    → has_chain selected item ≡ true
    → has_position (position + k) (positions_of selected position items) ≡ true
positions_of-has selected k position [] item h c = cc
positions_of-has selected zero position (x ∷ items) item h c =
    let e : x ≡ item = cc in
    let d : has_chain selected x ≡ true = ap (has_chain selected) e ∙ c in rw d (ground arith)
positions_of-has selected (suc k) position (x ∷ items) item h c =
    let rest = positions_of-has selected k (suc position) items item h c in
    let e : position + suc k ≡ suc position + k = omega arith in
    elim (Bool-cases (has_chain selected x)) [
      | inl d ↦ rw (e, d) (ground (arith, rest))
      | inr d ↦ rw (e, d) rest
    ]

pub fields_at-streams :
    (unicode : Unicode) (items : List SearchItem) (p : ℕ) (item : SearchItem)
    → get_elem? items p ≡ some item
    → (fields_at (map (field_streams unicode) items) p ≡ field_streams unicode item)
      × (streams_at unicode items p ≡ field_streams unicode item)
fields_at-streams unicode [] p item h = cc
fields_at-streams unicode (x ∷ items) zero item h =
    let e : x ≡ item = cc in (ap (field_streams unicode) e, ap (field_streams unicode) e)
fields_at-streams unicode (x ∷ items) (suc p) item h = fields_at-streams unicode items p item h

pub keep-false : (l : List ℕ) → keep (λ p. is_some {A = ℕ} none) l ≡ []
keep-false [] = refl
keep-false (x ∷ l) = keep-false l

pub found_row :
    (all : List SearchItem) (scores : Option Posting) (position : ℕ) (item : SearchItem)
    (tail : List ℕ)
    → get_elem? all position ≡ some item
    → scored_rows all scores (position ∷ tail)
      ≡ with_score item (score_at scores position) ∷ scored_rows all scores tail
unfolding scored_rows
found_row all scores position item tail e = rw (e, scored_rows) refl
