-- ===== src/Search/Order/Members.antt =====
-- Sorting keeps the elements of a list.
use wise_way.Prelude.{Bool, Bool-cases, inl, inr, List, [], ◌∷◌, Member}
use wise_way.Search.Order.{insert_by, sort_by}

pub insert_by-Member :
    {A : Type 0} (before : A → A → Bool) (a x : A) (l : List A)
    → Member a (insert_by before x l)
    → Member a (x ∷ l)
unfolding insert_by
insert_by-Member before a x [] m = m
insert_by-Member before a x (y ∷ l) m = elim (Bool-cases (before y x)) [
  | inl e ↦ elim (rw e at m) [
    | inl h ↦ inr (inl h)
    | inr h ↦ elim (insert_by-Member before a x l h) [ inl g ↦ inl g | inr g ↦ inr (inr g) ]
  ]
  | inr e ↦ rw e at m
]

pub sort_by-Member :
    {A : Type 0} (before : A → A → Bool) (a : A) (l : List A)
    → Member a (sort_by before l)
    → Member a l
unfolding sort_by
sort_by-Member before a [] m = m
sort_by-Member before a (x ∷ l) m = elim (insert_by-Member before a x (sort_by before l) m) [
  | inl h ↦ inl h
  | inr h ↦ inr (sort_by-Member before a l h)
]

moved :
    {A : Type 0} (a x y : A) (rest inserted : List A)
    → (Member a (x ∷ rest) → Member a inserted)
    → Member a (x ∷ y ∷ rest)
    → Member a (y ∷ inserted)
moved a x y rest inserted f (inl h) = inr (f (inl h))
moved a x y rest inserted f (inr (inl h)) = inl h
moved a x y rest inserted f (inr (inr h)) = inr (f (inr h))

pub Member-insert_by :
    {A : Type 0} (before : A → A → Bool) (a x : A) (l : List A)
    → Member a (x ∷ l)
    → Member a (insert_by before x l)
unfolding insert_by
Member-insert_by before a x [] m = m
Member-insert_by before a x (y ∷ l) m = elim (Bool-cases (before y x)) [
  | inl e ↦ rw e (
      moved a x y l (insert_by before x l)
        (λ (k : Member a (x ∷ l)). Member-insert_by before a x l k) m)
  | inr e ↦ rw e m
]

pub Member-sort_by :
    {A : Type 0} (before : A → A → Bool) (a : A) (l : List A)
    → Member a l
    → Member a (sort_by before l)
unfolding sort_by
Member-sort_by before a [] m = m
Member-sort_by before a (x ∷ l) (inl e) = Member-insert_by before a x (sort_by before l) (inl e)
Member-sort_by before a (x ∷ l) (inr m) =
    Member-insert_by before a x (sort_by before l) (inr (Member-sort_by before a l m))
