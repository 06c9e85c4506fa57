-- ===== src/Rules/Collisions/Keys.antt =====
-- What blocking does to the targets of a plan (backend/wiseway/rules.py, `_block` and the loops over
-- a group): the blocked rows plan no target any more, and all other rows are as they were.
use wise_way.Prelude.{
  ℕ, zero, suc, ◌≡◌, ◌≢◌, refl, Bool, true, false, Option, none, some, List, [], ◌∷◌, Ident, ◌==◌,
  arith, if◌then◌else◌, Bool-cases, Option-cases, inl, inr, get_elem?, set, ◌⊎◌, ◌||◌,
}
use mathlib.Core.Path.{subst}
use wise_way.Common.{Result, ok, Location}
use wise_way.Common.Bind.{>>=-eq-ok}
use wise_way.Records.{Reason, PredictedState, CollisionKind, Row}
use wise_way.Rules.Names.{Key}
use wise_way.Rules.Plan.{Adapters}
use wise_way.Rules.Collisions.{
  planned_key, target_at, others_of, target_metadata, block, block_at, block_all, block_group,
  block_groups, first_target,
}

abbrev pub key_at : List Row → ℕ → Option Key
key_at rows i = elim (get_elem? rows i) [ none ↦ none | some row ↦ planned_key row ]

abbrev pub among : ℕ → List ℕ → Bool
among i [] = false
among i (j ∷ js) = j == i || among i js

-- the indices of one of the groups
abbrev pub Listed : List ℕ → List (Key × List ℕ) → Type 0
Listed is [] = ⊥
Listed is ((k, js) ∷ groups) = (js ≡ is) ⊎ Listed is groups

get_elem?-set {ℓ} :
    {A : Type ℓ} (xs : List A) (i j : ℕ) (v : A) {x : A}
    → get_elem? xs i ≡ some x
    → get_elem? (set xs i v) j ≡ (if i == j then some v else get_elem? xs j)
get_elem?-set [] i j v h = cc
get_elem?-set (x ∷ xs) zero zero v h = refl
get_elem?-set (x ∷ xs) zero (suc j) v h = ground arith
get_elem?-set (x ∷ xs) (suc i) zero v h = ground arith
get_elem?-set (x ∷ xs) (suc i) (suc j) v h = rw (get_elem?-set xs i j v h) (ground arith)

module _ (adapters : Adapters) where
  pub block_lem :
      (row : Row) (reason : Reason) (kind : CollisionKind) (target : Location) (others : List Ident)
      {row' : Row}
      → block adapters row reason kind target others ≡ ok row'
      → (row'.predicted_state ≡ PredictedState.requires_decision)
        × (row'.target ≡ row.target)
        × (row'.item_id ≡ row.item_id)
  unfolding block
  block_lem row reason kind target others h =
      let (e, _, q) = >>=-eq-ok (target_metadata adapters kind target) _ h in ground arith

  -- Blocking one row takes its key away and changes no other key, and no target.
  pub key_at-block_at :
      (rows : List Row) (i j : ℕ) (kind : CollisionKind) (target : Location) (others : List Ident)
      {rows' : List Row}
      → block_at adapters rows i kind target others ≡ ok rows'
      → (key_at rows' j ≡ (if i == j then none else key_at rows j))
        × (target_at rows' j ≡ target_at rows j)
  unfolding block_at
  key_at-block_at rows i j kind target others h = elim (Option-cases (get_elem? rows i)) [
    | inl e ↦
        let h' = rw (e, block_at) at h in
        let at_same = λ (p : i ≡ j). subst (λ k. get_elem? rows k ≡ none) p e in
        ground (arith, at_same)
    | inr (row, e) ↦
        let h' = rw (e, block_at) at h in
        let (blocked, b, q) =
          >>=-eq-ok (block adapters row Reason.target_occupied kind target others) _ h' in
        let (state, place, _) = block_lem row Reason.target_occupied kind target others b in
        let at_same = λ (p : i ≡ j). subst (λ k. get_elem? rows k ≡ some row) p e in
        ground (arith, get_elem?-set rows i j blocked e, at_same)
  ]

  -- The loop over a group takes the keys of its rows away, and no other.
  pub key_at-block_all :
      (members todo : List ℕ) (j : ℕ) (target : Location) (rows : List Row) {rows' : List Row}
      → block_all adapters members todo target rows ≡ ok rows'
      → (key_at rows' j ≡ (if among j todo then none else key_at rows j))
        × (target_at rows' j ≡ target_at rows j)
  unfolding block_all
  key_at-block_all members [] j target rows h = ground arith
  key_at-block_all members (i ∷ todo) j target rows h =
      let kind = CollisionKind.duplicate_plan_target in
      let (mid, first, rest) =
        >>=-eq-ok (block_at adapters rows i kind target (others_of rows members i))
          (block_all adapters members todo target) h in
      let one = key_at-block_at rows i j kind target (others_of rows members i) first in
      let more = key_at-block_all members todo j target mid rest in ground (arith, one, more)

  -- A group of several rows loses every key; a single row loses its key if its target is occupied.
  pub key_at-block_group :
      (is : List ℕ) (j : ℕ) (target : Location) (rows : List Row) {rows' : List Row}
      → block_group adapters is target rows ≡ ok rows'
      → ((key_at rows' j ≡ none) × (among j is ≡ true) ⊎ (key_at rows' j ≡ key_at rows j))
        × (target_at rows' j ≡ target_at rows j)
  unfolding block_group
  key_at-block_group [] j target rows h = ground arith
  key_at-block_group (i ∷ []) j target rows h =
      let (occupied, e, q) = >>=-eq-ok (adapters.exists target) _ h in
      elim (Bool-cases occupied) [
        | inl t ↦
            let one =
              key_at-block_at rows i j CollisionKind.existing_target target [] (rw t at q) in
            ground (arith, one)
        | inr f ↦ let same = rw f at q in ground arith
      ]
  key_at-block_group (i ∷ k ∷ more) j target rows h =
      ground (arith, key_at-block_all (i ∷ k ∷ more) (i ∷ k ∷ more) j target rows h)

  -- Several rows with one target: none of them keeps its key.
  pub block_group_several :
      (is : List ℕ) (i j : ℕ) (target : Location) (rows : List Row) {rows' : List Row}
      → among i is ≡ true
      → among j is ≡ true
      → i ≢ j
      → block_group adapters is target rows ≡ ok rows'
      → key_at rows' i ≡ none
  unfolding block_group
  block_group_several [] i j target rows p q n h = cc
  block_group_several (k ∷ []) i j target rows p q n h = absurd (n (ground arith))
  block_group_several (k ∷ l ∷ more) i j target rows p q n h =
      ground (arith, key_at-block_all (k ∷ l ∷ more) (k ∷ l ∷ more) i target rows h)

  -- A row that keeps its key has a free target.
  pub block_group_free :
      (is : List ℕ) (i : ℕ) (target : Location) (rows : List Row) {rows' : List Row}
      → among i is ≡ true
      → block_group adapters is target rows ≡ ok rows'
      → (key_at rows' i ≡ none) ⊎ (adapters.exists target ≡ ok false)
  unfolding block_group
  block_group_free [] i target rows p h = cc
  block_group_free (k ∷ []) i target rows p h =
      let (occupied, e, q) = >>=-eq-ok (adapters.exists target) _ h in
      elim (Bool-cases occupied) [
        | inl t ↦
            let one =
              key_at-block_at rows k i CollisionKind.existing_target target [] (rw t at q) in
            inl (ground (arith, one))
        | inr f ↦ inr (rw f at e)
      ]
  block_group_free (k ∷ l ∷ more) i target rows p h =
      inl (ground (arith, key_at-block_all (k ∷ l ∷ more) (k ∷ l ∷ more) i target rows h))

  -- a round of the second loop, with the target of the group's first row
  abbrev pub group_round : List ℕ → List Row → Result (List Row)
  group_round is rows = elim (first_target rows is) [
    | none ↦ ok rows
    | some target ↦ block_group adapters is target rows
  ]

  pub key_at-group_round :
      (is : List ℕ) (j : ℕ) (rows : List Row) {rows' : List Row}
      → group_round is rows ≡ ok rows'
      → ((key_at rows' j ≡ none) × (among j is ≡ true) ⊎ (key_at rows' j ≡ key_at rows j))
        × (target_at rows' j ≡ target_at rows j)
  key_at-group_round is j rows h = elim (Option-cases (first_target rows is)) [
    | inl e ↦ let same = rw (e, group_round) at h in ground arith
    | inr (target, e) ↦ key_at-block_group is j target rows (rw (e, group_round) at h)
  ]

  group_round-target :
      (js is : List ℕ) (rows : List Row) {mid : List Row} {target : Location}
      → group_round js rows ≡ ok mid
      → first_target rows is ≡ some target
      → first_target mid is ≡ some target
  group_round-target js [] rows h t = cc
  group_round-target js (i ∷ is) rows h t = cc ((key_at-group_round js i rows h).1)

  pub key_at-block_groups :
      (groups : List (Key × List ℕ)) (j : ℕ) (rows : List Row) {rows' : List Row}
      → block_groups adapters groups rows ≡ ok rows'
      → ((key_at rows' j ≡ none) ⊎ (key_at rows' j ≡ key_at rows j))
        × (target_at rows' j ≡ target_at rows j)
  unfolding block_groups
  key_at-block_groups [] j rows h = ground arith
  key_at-block_groups ((k, is) ∷ groups) j rows h =
      let (mid, first, rest) = >>=-eq-ok (group_round is rows) (block_groups adapters groups) h in
      ground (arith, key_at-group_round is j rows first, key_at-block_groups groups j mid rest)

  -- If two rows share a group, neither keeps its key.
  pub block_groups_several :
      (groups : List (Key × List ℕ)) (is : List ℕ) (i j : ℕ) (rows : List Row) {target : Location}
      {rows' : List Row}
      → Listed is groups
      → among i is ≡ true
      → among j is ≡ true
      → i ≢ j
      → first_target rows is ≡ some target
      → block_groups adapters groups rows ≡ ok rows'
      → key_at rows' i ≡ none
  unfolding block_groups
  block_groups_several [] is i j rows l p q n t h = absurd l
  block_groups_several ((k, js) ∷ groups) is i j rows {target = target} (inl same) p q n t h =
      let (mid, first, rest) = >>=-eq-ok (group_round js rows) (block_groups adapters groups) h in
      let shared = subst (λ x. group_round x rows ≡ ok mid) same first in
      let gone = block_group_several is i j target rows p q n (rw (t, group_round) at shared) in
      ground (arith, key_at-block_groups groups i mid rest, gone)
  block_groups_several ((k, js) ∷ groups) is i j rows (inr later) p q n t h =
      let (mid, first, rest) = >>=-eq-ok (group_round js rows) (block_groups adapters groups) h in
      block_groups_several groups is i j mid later p q n (group_round-target js is rows first t)
        rest

  -- A row that keeps its key to the end has a free target.
  pub block_groups_free :
      (groups : List (Key × List ℕ)) (is : List ℕ) (i : ℕ) (rows : List Row) {target : Location}
      {rows' : List Row}
      → Listed is groups
      → among i is ≡ true
      → first_target rows is ≡ some target
      → block_groups adapters groups rows ≡ ok rows'
      → (key_at rows' i ≡ none) ⊎ (adapters.exists target ≡ ok false)
  unfolding block_groups
  block_groups_free [] is i rows l p t h = absurd l
  block_groups_free ((k, js) ∷ groups) is i rows {target = target} (inl same) p t h =
      let (mid, first, rest) = >>=-eq-ok (group_round js rows) (block_groups adapters groups) h in
      let shared = subst (λ x. group_round x rows ≡ ok mid) same first in
      elim (block_group_free is i target rows p (rw (t, group_round) at shared)) [
        | inl gone ↦ inl (ground (arith, key_at-block_groups groups i mid rest, gone))
        | inr free ↦ inr free
      ]
  block_groups_free ((k, js) ∷ groups) is i rows (inr later) p t h =
      let (mid, first, rest) = >>=-eq-ok (group_round js rows) (block_groups adapters groups) h in
      block_groups_free groups is i mid later p (group_round-target js is rows first t) rest
