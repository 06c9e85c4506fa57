-- ===== src/Rules/Collisions/Groups.antt =====
-- The groups of `_apply_target_collisions` (backend/wiseway/rules.py): the rows that plan a key are
-- the members of that key's group, and no others are.
use mathlib.Core.Path.{subst}
use wise_way.Prelude.{
  ℕ, zero, suc, ◌+◌, ◌≡◌, inl, inr, refl, sym, ap, ◌∙◌, Bool, true, false, ◌&&◌, ◌||◌, List, [],
  ◌∷◌, ◌++◌, ◌==◌, arith, if◌then◌else◌, Bool-cases, Option-cases, holds, ◌<◌,
}
use wise_way.Records.{Row}
use wise_way.Rules.Names.{Key}
use wise_way.Rules.Plan.{key_eq}
use wise_way.Rules.Keys.{key_eq_iff}
use wise_way.Rules.Collisions.{append_to, planned_key, add_row, group_rows}
use wise_way.Rules.Collisions.Keys.{key_at, among, Listed}

-- the members of the group of a key
abbrev pub members : Key → List (Key × List ℕ) → List ℕ
members k [] = []
members k ((j, is) ∷ groups) = if key_eq j k then is else members k groups

among-append : (i j : ℕ) (is : List ℕ) → among j (is ++ i ∷ []) ≡ (among j is || i == j)
among-append i j [] = ground arith
among-append i j (k ∷ is) = ground (arith, among-append i j is)

among-append_to :
    (k k' : Key) (i j : ℕ) (groups : List (Key × List ℕ))
    → among j (members k' (append_to k i groups))
      ≡ (among j (members k' groups) || (key_eq k k' && i == j))
among-append_to k k' i j [] = ground arith
among-append_to k k' i j ((l, is) ∷ groups) = ground (
  arith,
  key_eq_iff l k,
  key_eq_iff l k',
  key_eq_iff k k',
  among-append i j is,
  among-append_to k k' i j groups,
)

pub Listed-members :
    (k : Key) (j : ℕ) (groups : List (Key × List ℕ))
    → among j (members k groups) ≡ true
    → Listed (members k groups) groups
Listed-members k j [] h = cc
Listed-members k j ((l, is) ∷ groups) h = elim (Bool-cases (key_eq l k)) [
  | inl e ↦ inl (rw e)
  | inr e ↦
      let skip : members k ((l, is) ∷ groups) ≡ members k groups = rw e in
      inr (subst (λ x. Listed x groups) (sym skip) (Listed-members k j groups (rw skip at h)))
]

-- the row plans the key `k`
abbrev plans : Key → Row → Bool
plans k row = holds (planned_key row) (λ l. key_eq l k)

-- the row with index `j` plans `k`, the first row having index `i`
abbrev plans_at : Key → ℕ → ℕ → List Row → Bool
plans_at k i j [] = false
plans_at k i j (row ∷ rows) = (plans k row && i == j) || plans_at k (suc i) j rows

among-add_row :
    (k : Key) (i j : ℕ) (row : Row) (groups : List (Key × List ℕ))
    → among j (members k (add_row i row groups))
      ≡ (among j (members k groups) || (plans k row && i == j))
among-add_row k i j row groups = elim (Option-cases (planned_key row)) [
  | inl e ↦ rw (e, add_row) (ground arith)
  | inr (l, e) ↦ rw (e, add_row) (among-append_to l k i j groups)
]

-- The group of `k` has the members that it had, and the rows that plan `k`.
group_rows-members :
    (k : Key) (i j : ℕ) (rows : List Row) (groups : List (Key × List ℕ))
    → among j (members k (group_rows i rows groups))
      ≡ (among j (members k groups) || plans_at k i j rows)
unfolding group_rows
group_rows-members k i j [] groups = ground arith
group_rows-members k i j (row ∷ rows) groups =
    rw (group_rows-members k (suc i) j rows (add_row i row groups), among-add_row k i j row groups)
      (ground arith)

plans_at-before : (k : Key) (i j : ℕ) (rows : List Row) → j < i → plans_at k i j rows ≡ false
plans_at-before k i j [] h = refl
plans_at-before k i j (row ∷ rows) h =
    rw (plans_at-before k (suc i) j rows (omega arith)) (ground arith)

plans_at-key_at :
    (k : Key) (i j : ℕ) (rows : List Row)
    → plans_at k i (i + j) rows ≡ holds (key_at rows j) (λ l. key_eq l k)
plans_at-key_at k i j [] = refl
plans_at-key_at k i zero (row ∷ rows) =
    rw (plans_at-before k (suc i) (i + zero) rows (omega arith)) (ground arith)
plans_at-key_at k i (suc j) (row ∷ rows) =
    let e : i + suc j ≡ suc i + j = omega arith in
    let n : (i == suc i + j) ≡ false = ground arith in
    rw (e, n, plans_at-key_at k (suc i) j rows) (ground arith)

-- The members of a key's group are exactly the rows that plan the key.
pub members-key_at :
    (k : Key) (j : ℕ) (rows : List Row)
    → among j (members k (group_rows 0 rows [])) ≡ holds (key_at rows j) (λ l. key_eq l k)
members-key_at k j rows =
    let e : zero + j ≡ j = omega arith in
    group_rows-members k 0 j rows []
    ∙ ap (λ m. plans_at k 0 m rows) (sym e)
    ∙ plans_at-key_at k 0 j rows
