-- ===== src/Rules/Collisions/Totals.antt =====
-- A plan of backend/wiseway/rules.py has one row for each file, in the files' order, and its counts
-- account for every row.
use wise_way.Prelude.{
  ℕ, zero, suc, ◌+◌, ◌≡◌, inl, inr, refl, sym, ap, ◌∙◌, not, ◌||◌, Option, none, some, List, [],
  ◌∷◌, map, Text, Ident, arith, Bool-cases, Option-cases, length, get_elem?, set, keep,
}
use wise_way.Common.{Result, ok, Location}
use wise_way.Common.Bind.{>>=-eq-ok}
use wise_way.Records.{QueueItem, TargetDirectory, Rule, Reason, CollisionKind, Row}
use wise_way.Rules.Names.{Key, match_rule, join}
use wise_way.Rules.Plan.{Adapters, plannable, base_row, winners_of, decide_target, decide, plan_one}
use wise_way.Rules.Collisions.{
  is_manual, each, drop_metadata, block, block_manual, block_at, block_all, block_group,
  block_groups, first_target, others_of, apply_manual_review_collisions, apply_target_collisions,
  group_rows, plan_rows, PlanCounts, zero_counts, count_row, count_rows, plan_counts,
}
use wise_way.Rules.Collisions.Keys.{group_round, block_lem}

abbrev ids : List Row → List Ident
ids rows = map (λ (row : Row). row.item_id) rows

each-map :
    {A B : Type 0} (f : A → Result B) (g : B → Ident) (h : A → Ident)
    → ((x : A) (y : B) → f x ≡ ok y → g y ≡ h x)
    → (xs : List A) {ys : List B} → each f xs ≡ ok ys
    → map g ys ≡ map h xs
each-map f g h keeps [] e = ground arith
each-map f g h keeps (x ∷ xs) e =
    let (y, p, q) = >>=-eq-ok (f x) _ e in
    let (ys, r, s) = >>=-eq-ok (each f xs) _ q in
    ground (arith, keeps x y p, each-map f g h keeps xs r)

ids-set :
    (rows : List Row) (i : ℕ) (row row' : Row)
    → get_elem? rows i ≡ some row
    → row'.item_id ≡ row.item_id
    → ids (set rows i row') ≡ ids rows
ids-set [] i row row' e h = refl
ids-set (r ∷ rows) zero row row' e h = ground arith
ids-set (r ∷ rows) (suc i) row row' e h = ground (arith, ids-set rows i row row' e h)

module _ (adapters : Adapters) where
  decide_target_id :
      (base : Row) (w : Rule) (ws : List Rule) (keys : List Key) {row : Row}
      → decide_target adapters base w ws keys ≡ ok row
      → row.item_id ≡ base.item_id
  unfolding decide_target
  decide_target_id base w ws [] h = ground arith
  decide_target_id base w ws (t ∷ []) h =
      let (place, p, q) = >>=-eq-ok (adapters.location t.0 t.1) _ h in ground arith
  decide_target_id base w ws (t ∷ u ∷ keys) h = ground arith

  decide_id :
      (item : QueueItem) (found : Option (Rule × List Rule)) {row : Row}
      → decide adapters item found ≡ ok row
      → row.item_id ≡ item.item_id
  unfolding decide base_row
  decide_id item none h = ground arith
  decide_id item (some (w, ws)) h = decide_target_id (base_row item) w ws _ h

  plan_one_id :
      (casefold : Text → Text) (rules : List Rule) (item : QueueItem) {row : Row}
      → plan_one casefold adapters rules item ≡ ok row
      → row.item_id ≡ item.item_id
  unfolding plan_one base_row
  plan_one_id casefold rules item h =
      elim (Bool-cases (not (plannable item.status) || not item.selectable)) [
        | inl t ↦ let h' = rw t at h in ground arith
        | inr f ↦
            let fits = λ (rule : Rule). match_rule casefold rule item.source.relative_path in
            decide_id item (winners_of (keep fits rules)) (rw f at h)
      ]

  block_manual_id :
      (manual_target : TargetDirectory) (row : Row) {row' : Row}
      → block_manual adapters manual_target row ≡ ok row'
      → row'.item_id ≡ row.item_id
  unfolding block_manual
  block_manual_id manual_target row h = elim (Bool-cases (is_manual row.predicted_state)) [
    | inr f ↦ let h' = rw f at h in ground arith
    | inl t ↦
        let directory = join manual_target.relative_directory row.filename in
        let (target, p, q) =
          >>=-eq-ok (adapters.location manual_target.root_id directory) _ (rw t at h) in
        let (occupied, r, s) = >>=-eq-ok (adapters.exists target) _ q in
        elim (Bool-cases occupied) [
          | inr free ↦ let s' = rw free at s in ground arith
          | inl taken ↦
              (block_lem adapters row Reason.manual_review_name_occupied
                CollisionKind.manual_review_name target [] (rw taken at s)).2
        ]
  ]

  block_at-ids :
      (rows : List Row) (i : ℕ) (kind : CollisionKind) (target : Location) (others : List Ident)
      {rows' : List Row}
      → block_at adapters rows i kind target others ≡ ok rows'
      → ids rows' ≡ ids rows
  unfolding block_at
  block_at-ids rows i kind target others h = elim (Option-cases (get_elem? rows i)) [
    | inl e ↦ let h' = rw (e, block_at) at h in ground arith
    | inr (row, e) ↦
        let h' = rw (e, block_at) at h in
        let (blocked, b, q) =
          >>=-eq-ok (block adapters row Reason.target_occupied kind target others) _ h' in
        let (_, _, same) = block_lem adapters row Reason.target_occupied kind target others b in
        ground (arith, ids-set rows i row blocked e same)
  ]

  block_all-ids :
      (members todo : List ℕ) (target : Location) (rows : List Row) {rows' : List Row}
      → block_all adapters members todo target rows ≡ ok rows'
      → ids rows' ≡ ids rows
  unfolding block_all
  block_all-ids members [] target rows h = ground arith
  block_all-ids members (i ∷ todo) target rows h =
      let kind = CollisionKind.duplicate_plan_target in
      let (mid, first, rest) =
        >>=-eq-ok (block_at adapters rows i kind target (others_of rows members i))
          (block_all adapters members todo target) h in
      block_all-ids members todo target mid rest
      ∙ block_at-ids rows i kind target (others_of rows members i) first

  block_group-ids :
      (is : List ℕ) (target : Location) (rows : List Row) {rows' : List Row}
      → block_group adapters is target rows ≡ ok rows'
      → ids rows' ≡ ids rows
  unfolding block_group
  block_group-ids [] target rows h = ground arith
  block_group-ids (i ∷ []) target rows h =
      let (occupied, e, q) = >>=-eq-ok (adapters.exists target) _ h in
      elim (Bool-cases occupied) [
        | inl t ↦ block_at-ids rows i CollisionKind.existing_target target [] (rw t at q)
        | inr f ↦ let same = rw f at q in ground arith
      ]
  block_group-ids (i ∷ k ∷ more) target rows h =
      block_all-ids (i ∷ k ∷ more) (i ∷ k ∷ more) target rows h

  group_round-ids :
      (is : List ℕ) (rows : List Row) {rows' : List Row}
      → group_round adapters is rows ≡ ok rows'
      → ids rows' ≡ ids rows
  group_round-ids is rows h = elim (Option-cases (first_target rows is)) [
    | inl e ↦ let same = rw (e, group_round) at h in ground arith
    | inr (target, e) ↦ block_group-ids is target rows (rw (e, group_round) at h)
  ]

  block_groups-ids :
      (groups : List (Key × List ℕ)) (rows : List Row) {rows' : List Row}
      → block_groups adapters groups rows ≡ ok rows'
      → ids rows' ≡ ids rows
  unfolding block_groups
  block_groups-ids [] rows h = ground arith
  block_groups-ids ((k, is) ∷ groups) rows h =
      let (mid, first, rest) =
        >>=-eq-ok (group_round adapters is rows) (block_groups adapters groups) h in
      block_groups-ids groups mid rest ∙ group_round-ids is rows first

  apply_target_collisions-ids :
      (rows : List Row) {rows' : List Row}
      → apply_target_collisions adapters rows ≡ ok rows'
      → ids rows' ≡ ids rows
  unfolding apply_target_collisions
  apply_target_collisions-ids rows h = block_groups-ids (group_rows 0 rows []) rows h

ids-drop_metadata : (rows : List Row) → ids (map drop_metadata rows) ≡ ids rows
ids-drop_metadata [] = refl
ids-drop_metadata (row ∷ rows) = ap (λ l. row.item_id ∷ l) (ids-drop_metadata rows)

-- A plan has one row for each file, in the order of the files.
pub plan_rows_ids :
    (casefold : Text → Text) (adapters : Adapters) (items : List QueueItem) (rules : List Rule)
    (manual_target : TargetDirectory) {rows : List Row}
    → plan_rows casefold adapters items rules manual_target ≡ ok rows
    → map (λ (row : Row). row.item_id) rows ≡ map (λ (item : QueueItem). item.item_id) items
unfolding plan_rows apply_manual_review_collisions
plan_rows_ids casefold adapters items rules manual_target {rows = rows} planned =
    let id = λ (row : Row). row.item_id in
    let (first, a, p) = >>=-eq-ok (each (plan_one casefold adapters rules) items) _ planned in
    let (before, b, q) =
      >>=-eq-ok (apply_manual_review_collisions adapters manual_target first) _ p in
    let (after, c, r) = >>=-eq-ok (apply_target_collisions adapters before) _ q in
    let one =
      each-map (plan_one casefold adapters rules) id (λ (item : QueueItem). item.item_id)
        (λ x y e. plan_one_id adapters casefold rules x e) items a in
    let two =
      each-map (block_manual adapters manual_target) id id
        (λ x y e. block_manual_id adapters manual_target x e) first b in
    let three = apply_target_collisions-ids adapters before c in
    let r' : map drop_metadata after ≡ rows = ground arith in
    let last : ids rows ≡ ids after = ap ids (sym r') ∙ ids-drop_metadata after in
    last ∙ three ∙ two ∙ one

-- the rows that the four states of a plan account for
abbrev pub total : PlanCounts → ℕ
total c = c.will_move + c.will_manual_review + c.requires_decision + c.not_ready

total-count_row : (c : PlanCounts) (row : Row) → total (count_row c row) ≡ suc (total c)
unfolding count_row
total-count_row c row = ground arith

total-count_rows :
    (c : PlanCounts) (rows : List Row) → total (count_rows c rows) ≡ total c + length rows
unfolding count_rows
total-count_rows c [] = omega arith
total-count_rows c (row ∷ rows) =
    omega (arith, total-count_rows (count_row c row) rows, total-count_row c row)

-- The four counts of a plan add up to its rows.
pub total-plan_counts : (rows : List Row) → total (plan_counts rows) ≡ length rows
unfolding plan_counts
total-plan_counts rows = omega (arith, total-count_rows zero_counts rows)
