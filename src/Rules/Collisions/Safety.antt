-- ===== src/Rules/Collisions/Safety.antt =====
-- What a finished plan of backend/wiseway/rules.py promises about its targets.
use wise_way.Prelude.{
  ℕ, zero, suc, ◌≡◌, ◌≢◌, inl, inr, refl, sym, ap, ◌∙◌, true, false, some, List, [], ◌∷◌, map, Text,
  ◌==◌, arith, Bool-cases, Option-cases, get_elem?, holds,
}
use wise_way.Common.{ok, Location}
use wise_way.Common.Bind.{>>=-eq-ok}
use wise_way.Records.{QueueItem, TargetDirectory, Rule, Row}
use wise_way.Rules.Names.{Key}
use wise_way.Rules.Plan.{Adapters, key_eq, plan_one}
use wise_way.Rules.Keys.{key_eq_iff}
use wise_way.Rules.Collisions.{
  location_key, target_at, first_target, group_rows, block_groups, each, drop_metadata,
  apply_manual_review_collisions, apply_target_collisions, plan_rows,
}
use wise_way.Rules.Collisions.Keys.{
  key_at, among, key_at-block_groups, block_groups_several, block_groups_free,
}
use wise_way.Rules.Collisions.Groups.{members, Listed-members, members-key_at}

-- a row that plans a key has a target under that key
target_of_key :
    (rows : List Row) (i : ℕ) {k : Key}
    → key_at rows i ≡ some k
    → (target : Location) × (target_at rows i ≡ some target) × (location_key target ≡ k)
target_of_key rows i h = elim (Option-cases (get_elem? rows i)) [
  | inl e ↦ absurd (ground arith)
  | inr (row, e) ↦ elim (Option-cases row.target) [
    | inl t ↦ absurd (ground arith)
    | inr (target, t) ↦ (target, ground arith, ground arith)
  ]
]

-- a group that has members has a first one, with a target
first_of_members :
    (k : Key) (rows : List Row) (is : List ℕ)
    → ((j : ℕ) → among j is ≡ holds (key_at rows j) (λ l. key_eq l k))
    → (i : ℕ) → among i is ≡ true
    → (f : ℕ) × (target : Location) × (among f is ≡ true)
      × (first_target rows is ≡ target_at rows f)
      × (target_at rows f ≡ some target)
      × (location_key target ≡ k)
first_of_members k rows [] agree i h = cc
first_of_members k rows (j ∷ is) agree i h =
    let first : among j (j ∷ is) ≡ true = ground arith in
    elim (Option-cases (key_at rows j)) [
      | inl e ↦ absurd (ground (arith, agree j, e))
      | inr (l, e) ↦
          let same : l ≡ k = (key_eq_iff l k).0 (ground (arith, agree j, e)) in
          let (target, t, place) = target_of_key rows j e in
          (j, target, first, refl, t, place ∙ same)
    ]

is_member :
    (k : Key) (i : ℕ) (rows : List Row)
    → key_at rows i ≡ some k
    → among i (members k (group_rows 0 rows [])) ≡ true
is_member k i rows h =
    members-key_at k i rows ∙ ap (λ o. holds o (λ l. key_eq l k)) h ∙ (key_eq_iff k k).1 refl

module _ (adapters : Adapters) (rows : List Row) {rows' : List Row}
    (h : apply_target_collisions adapters rows ≡ ok rows') where
  grouped : block_groups adapters (group_rows 0 rows []) rows ≡ ok rows'
  unfolding apply_target_collisions
  grouped = h

  -- the second pass gives no row a key
  key_at_before : (i : ℕ) (k : Key) → key_at rows' i ≡ some k → key_at rows i ≡ some k
  key_at_before i k e =
      ground (arith, key_at-block_groups adapters (group_rows 0 rows []) i rows grouped)

  -- After the second pass no two rows plan one target.
  pub distinct_after :
      (i j : ℕ) (k : Key) → i ≢ j → key_at rows' i ≡ some k → key_at rows' j ≢ some k
  distinct_after i j k n ki kj =
      let groups = group_rows 0 rows [] in
      let mi = is_member k i rows (key_at_before i k ki) in
      let mj = is_member k j rows (key_at_before j k kj) in
      let (f, target, mf, first, t, _) =
        first_of_members k rows (members k groups) (λ m. members-key_at k m rows) i mi in
      let gone =
        block_groups_several adapters groups (members k groups) i j rows
          (Listed-members k i groups mi) mi mj n (first ∙ t) grouped in
      cc (gone, ki)

  -- After the second pass the target of a row that still moves is free.
  pub free_after :
      (i : ℕ) (k : Key)
      → key_at rows' i ≡ some k
      → (target : Location) × (target_at rows' i ≡ some target)
        × (adapters.exists target ≡ ok false)
  free_after i k ki =
      let groups = group_rows 0 rows [] in
      let mi = is_member k i rows (key_at_before i k ki) in
      let (f, target, mf, first, t, place) =
        first_of_members k rows (members k groups) (λ m. members-key_at k m rows) i mi in
      elim (Bool-cases (f == i)) [
        | inr other ↦
            let gone =
              block_groups_several adapters groups (members k groups) i f rows
                (Listed-members k i groups mi) mi mf (ground arith) (first ∙ t) grouped in
            cc (gone, ki)
        | inl self ↦
            let same : f ≡ i = ground arith in
            let kept = (key_at-block_groups adapters groups i rows grouped).1 in
            elim (block_groups_free adapters groups (members k groups) i rows
              (Listed-members k i groups mi) mi (first ∙ t) grouped) [
                | inl gone ↦ cc (gone, ki)
                | inr free ↦ (target, kept ∙ ap (target_at rows) (sym same) ∙ t, free)
              ]
      ]

key_at-drop_metadata : (rows : List Row) (i : ℕ) → key_at (map drop_metadata rows) i ≡ key_at rows i
key_at-drop_metadata [] i = refl
key_at-drop_metadata (row ∷ rows) zero = refl
key_at-drop_metadata (row ∷ rows) (suc i) = key_at-drop_metadata rows i

target_at-drop_metadata :
    (rows : List Row) (i : ℕ) → target_at (map drop_metadata rows) i ≡ target_at rows i
target_at-drop_metadata [] i = refl
target_at-drop_metadata (row ∷ rows) zero = refl
target_at-drop_metadata (row ∷ rows) (suc i) = target_at-drop_metadata rows i

module _ (casefold : Text → Text) (adapters : Adapters) (items : List QueueItem) (rules : List Rule)
    (manual_target : TargetDirectory) {rows : List Row}
    (planned : plan_rows casefold adapters items rules manual_target ≡ ok rows) where
  -- the rows between the two passes, and after the second
  second_pass :
      (before after : List Row) × (apply_target_collisions adapters before ≡ ok after)
      × (map drop_metadata after ≡ rows)
  unfolding plan_rows
  second_pass =
      let (first, _, p) = >>=-eq-ok (each (plan_one casefold adapters rules) items) _ planned in
      let (before, _, q) =
        >>=-eq-ok (apply_manual_review_collisions adapters manual_target first) _ p in
      let (after, pass, r) = >>=-eq-ok (apply_target_collisions adapters before) _ q in
      (before, after, pass, ground arith)

  -- The index of a moving row, and its key, in the rows after the second pass.
  key_after : (i : ℕ) (k : Key) → key_at rows i ≡ some k → key_at second_pass.1 i ≡ some k
  key_after i k e =
      sym (key_at-drop_metadata second_pass.1 i) ∙ ap (λ l. key_at l i) second_pass.3 ∙ e

  -- In a finished plan no two rows move to one target.
  pub plan_rows_distinct :
      (i j : ℕ) (k : Key) → i ≢ j → key_at rows i ≡ some k → key_at rows j ≢ some k
  plan_rows_distinct i j k n ki kj =
      distinct_after adapters second_pass.0 second_pass.2 i j k n (key_after i k ki)
        (key_after j k kj)

  -- In a finished plan the target of a row that moves was free when it was looked at.
  pub plan_rows_free :
      (i : ℕ) (k : Key)
      → key_at rows i ≡ some k
      → (target : Location) × (target_at rows i ≡ some target) × (adapters.exists target ≡ ok false)
  plan_rows_free i k ki =
      let (target, t, free) =
        free_after adapters second_pass.0 second_pass.2 i k (key_after i k ki) in
      (
        target,
        ap (λ l. target_at l i) (sym second_pass.3) ∙ target_at-drop_metadata second_pass.1 i ∙ t,
        free,
      )
