-- ===== src/Search/Order/Ranks.antt =====
-- The order by relevance of `_sort_rows` (backend/wiseway/search.py).
use wise_way.Prelude.{
  ℕ, suc, ◌≤◌, ◌≡◌, ◌↔◌, refl, ap, ◌∙◌, Bool, true, false, Bool-cases, inl, inr, List, [], ◌∷◌,
  Text, length, All, Member, arith,
}
use wise_way.Common.{ok}
use wise_way.Search.Words.{Unicode}
use wise_way.Search.Order.{Scored, SortField, insert_by, sort_by, relevance_before, sort_field}
use wise_way.Search.Order.Members.{sort_by-Member, Member-sort_by}

length-insert_by :
    {A : Type 0} (before : A → A → Bool) (x : A) (l : List A)
    → length (insert_by before x l) ≡ suc (length l)
unfolding insert_by
length-insert_by before x [] = refl
length-insert_by before x (y ∷ l) = elim (Bool-cases (before y x)) [
  | inl e ↦ rw e (ap suc (length-insert_by before x l))
  | inr e ↦ rw e refl
]

length-sort_by :
    {A : Type 0} (before : A → A → Bool) (l : List A) → length (sort_by before l) ≡ length l
unfolding sort_by
length-sort_by before [] = refl
length-sort_by before (x ∷ l) =
    length-insert_by before x (sort_by before l) ∙ ap suc (length-sort_by before l)

-- no row has a smaller score than one after it
abbrev pub Descends : List Scored → Type 0
Descends [] = Unit
Descends (row ∷ rows) = All (λ (r : Scored). r.1 ≤ row.1) rows × Descends rows

module _ (unicode : Unicode) (is_calendar : Text → Bool) where
  before-le : (a b : Scored) → relevance_before unicode is_calendar a b ≡ true → b.1 ≤ a.1
  before-le a b h = ground (arith, h)

  not_before-le : (a b : Scored) → relevance_before unicode is_calendar a b ≡ false → a.1 ≤ b.1
  not_before-le a b h = ground (arith, h)

  All-insert_by :
      (bound : ℕ) (x : Scored) (rows : List Scored)
      → x.1 ≤ bound
      → All (λ (r : Scored). r.1 ≤ bound) rows
      → All (λ (r : Scored). r.1 ≤ bound) (insert_by (relevance_before unicode is_calendar) x rows)
  unfolding insert_by
  All-insert_by bound x [] h a = (h, tt)
  All-insert_by bound x (y ∷ rows) h a =
      elim (Bool-cases (relevance_before unicode is_calendar y x)) [
        | inl e ↦ rw e (a.0, All-insert_by bound x rows h a.1)
        | inr e ↦ rw e (h, a)
      ]

  All-le :
      (m n : ℕ) (rows : List Scored)
      → m ≤ n
      → All (λ (r : Scored). r.1 ≤ m) rows
      → All (λ (r : Scored). r.1 ≤ n) rows
  All-le m n [] h a = tt
  All-le m n (y ∷ rows) h a = (omega (arith, h, a.0), All-le m n rows h a.1)

  insert_by-Descends :
      (x : Scored) (rows : List Scored)
      → Descends rows
      → Descends (insert_by (relevance_before unicode is_calendar) x rows)
  unfolding insert_by
  insert_by-Descends x [] d = (tt, tt)
  insert_by-Descends x (y ∷ rows) d = elim (Bool-cases (relevance_before unicode is_calendar y x)) [
    | inl e ↦ rw e (All-insert_by y.1 x rows (before-le y x e) d.0, insert_by-Descends x rows d.1)
    | inr e ↦ let h = not_before-le y x e in rw e ((h, All-le y.1 x.1 rows h d.0), d)
  ]

  sort_by-Descends :
      (rows : List Scored) → Descends (sort_by (relevance_before unicode is_calendar) rows)
  unfolding sort_by
  sort_by-Descends [] = tt
  sort_by-Descends (x ∷ rows) =
      insert_by-Descends x (sort_by (relevance_before unicode is_calendar) rows)
        (sort_by-Descends rows)

  -- Sorting by relevance, downwards, gives the same rows, as many of them, and no row comes after one with
  -- a smaller score.
  pub sort_field-Descends :
      (rows : List Scored)
      → (sorted : List Scored) × (sort_field unicode is_calendar SortField.relevance true rows
          ≡ ok sorted)
        × Descends sorted
        × (length sorted ≡ length rows)
        × ((row : Scored) → Member row sorted ↔ Member row rows)
  unfolding sort_field
  sort_field-Descends rows =
      let before = relevance_before unicode is_calendar in
      (
        sort_by before rows,
        refl,
        sort_by-Descends rows,
        length-sort_by before rows,
        λ row. (sort_by-Member before row rows, Member-sort_by before row rows),
      )
