-- ===== src/Rules/Collisions.antt =====
-- The two passes of backend/wiseway/rules.py that block collisions, `plan_rows`, which joins them to
-- `_plan_one`, and `plan_counts`. A row that the source holds in two lists, the plan and a group of
-- equal targets, is here an index into the plan.
pub mod Keys
pub mod Groups
pub mod Safety
pub mod Totals
pub mod Counts
use wise_way.Prelude.{
  ℕ, suc, ◌+◌, Bool, true, false, not, ◌&&◌, Option, none, some, List, [], ◌∷◌, ◌++◌, map, Text,
  Ident, ◌==◌, leb, if◌then◌else◌, length, get_elem?, set,
}
use mathlib.Core.Option
use wise_way.Common.{Result, ok, ◌>>=◌, Location}
use wise_way.Records.{
  Reason, QueueItem, TargetDirectory, Rule, PredictedState, CollisionKind, Metadata, Row,
}
use wise_way.Rules.Names.{Key, join}
use wise_way.Rules.Plan.{Adapters, key_eq, plan_one}

-- `source_info(target) if source_info and kind != "DUPLICATE_PLAN_TARGET" else None`
pub target_metadata : Adapters → CollisionKind → Location → Result (Option Metadata)
target_metadata adapters CollisionKind.duplicate_plan_target target = ok none
target_metadata adapters kind target = elim adapters.source_info [
  | none ↦ ok none
  | some info ↦ info target
]

pub block : Adapters → Row → Reason → CollisionKind → Location → List Ident → Result Row
unfolding target_metadata
block adapters row reason kind target others = do
  existing ← target_metadata adapters kind target
  ok (record row {
    predicted_state = PredictedState.requires_decision;
    reason_code = some reason;
    collision = some (record {
      kind = kind;
      source_metadata = row.source_metadata;
      existing_target_metadata = existing;
      conflicting_item_ids = others;
    });
  })

abbrev pub is_manual : PredictedState → Bool
is_manual PredictedState.will_manual_review = true
is_manual _ = false

abbrev pub is_move : PredictedState → Bool
is_move PredictedState.will_move = true
is_move _ = false

-- one round of `_apply_manual_review_collisions`
pub block_manual : Adapters → TargetDirectory → Row → Result Row
unfolding block
block_manual adapters manual_target row =
    if is_manual row.predicted_state
    then (do
      target ←
          adapters.location manual_target.root_id
            (join manual_target.relative_directory row.filename)
      occupied ← adapters.exists target
      if occupied
          then block adapters row Reason.manual_review_name_occupied
              CollisionKind.manual_review_name target []
          else ok row)
    else ok row

-- a loop that treats each row by itself
abbrev pub each {ℓ κ} : {A : Type ℓ} {B : Type κ} → (A → Result B) → List A → Result (List B)
each f [] = ok []
each f (x ∷ xs) = do y ← f x; ys ← each f xs; ok (y ∷ ys)

pub apply_manual_review_collisions : Adapters → TargetDirectory → List Row → Result (List Row)
unfolding block_manual
apply_manual_review_collisions adapters manual_target rows =
    each (block_manual adapters manual_target) rows

-- `planned[key].append(row)` on a dict of lists in the order of insertion
abbrev pub append_to : Key → ℕ → List (Key × List ℕ) → List (Key × List ℕ)
append_to k i [] = (k, i ∷ []) ∷ []
append_to k i ((j, is) ∷ groups) =
    if key_eq j k then (j, is ++ i ∷ []) ∷ groups else (j, is) ∷ append_to k i groups

abbrev pub location_key : Location → Key
location_key target = (target.root_id, target.relative_path)

-- the key under which a row is planned, if it is
abbrev pub planned_key : Row → Option Key
planned_key row = if is_move row.predicted_state then Option.map location_key row.target else none

-- one round of the first loop of `_apply_target_collisions`, at the row with index `i`
abbrev pub add_row : ℕ → Row → List (Key × List ℕ) → List (Key × List ℕ)
add_row i row groups = elim (planned_key row) [ none ↦ groups | some k ↦ append_to k i groups ]

pub group_rows : ℕ → List Row → List (Key × List ℕ) → List (Key × List ℕ)
group_rows i [] groups = groups
group_rows i (row ∷ rows) groups = group_rows (suc i) rows (add_row i row groups)

abbrev pub target_at : List Row → ℕ → Option Location
target_at rows i = elim (get_elem? rows i) [ none ↦ none | some row ↦ row.target ]

-- `[other["item_id"] for other in matching_rows if other is not row]`
abbrev pub others_of : List Row → List ℕ → ℕ → List Ident
others_of rows [] i = []
others_of rows (j ∷ js) i =
    let rest = others_of rows js i in
    elim (get_elem? rows j) [ none ↦ rest | some row ↦ if j == i then rest else row.item_id ∷ rest ]

-- `_block` on the row with index `i`
pub block_at : Adapters → List Row → ℕ → CollisionKind → Location → List Ident → Result (List Row)
unfolding block
block_at adapters rows i kind target others = elim (get_elem? rows i) [
  | none ↦ ok rows
  | some row ↦ do
    blocked ← block adapters row Reason.target_occupied kind target others
    ok (set rows i blocked)
]

-- the inner loop over a group of several rows, of which `todo` are left
pub block_all : Adapters → List ℕ → List ℕ → Location → List Row → Result (List Row)
unfolding block_at
block_all adapters members [] target rows = ok rows
block_all adapters members (i ∷ todo) target rows = do
  rows' ←
      block_at adapters rows i CollisionKind.duplicate_plan_target target (others_of rows members i)
  block_all adapters members todo target rows'

-- one round of the second loop
pub block_group : Adapters → List ℕ → Location → List Row → Result (List Row)
unfolding block_all block_at
block_group adapters [] target rows = ok rows
block_group adapters (i ∷ []) target rows = do
  occupied ← adapters.exists target
  if occupied then block_at adapters rows i CollisionKind.existing_target target [] else ok rows
block_group adapters (i ∷ j ∷ more) target rows =
    block_all adapters (i ∷ j ∷ more) (i ∷ j ∷ more) target rows

-- `matching_rows[0]["target"]`
abbrev pub first_target : List Row → List ℕ → Option Location
first_target rows [] = none
first_target rows (i ∷ is) = target_at rows i

pub block_groups : Adapters → List (Key × List ℕ) → List Row → Result (List Row)
unfolding block_group
block_groups adapters [] rows = ok rows
block_groups adapters ((k, is) ∷ groups) rows = do
  rows' ← elim (first_target rows is) [
    | none ↦ ok rows
    | some target ↦ block_group adapters is target rows
  ]
  block_groups adapters groups rows'

pub apply_target_collisions : Adapters → List Row → Result (List Row)
unfolding group_rows block_groups
apply_target_collisions adapters rows = block_groups adapters (group_rows 0 rows []) rows

-- `row.pop("_source_metadata", None)`
abbrev pub drop_metadata : Row → Row
drop_metadata row = record row { source_metadata = none }

unfoldable pub plan_rows :
    (Text → Text) → Adapters → List QueueItem → List Rule → TargetDirectory → Result (List Row)
unfolding plan_one apply_manual_review_collisions apply_target_collisions
plan_rows casefold adapters items rules manual_target = do
  rows ← each (plan_one casefold adapters rules) items
  rows' ← apply_manual_review_collisions adapters manual_target rows
  rows'' ← apply_target_collisions adapters rows'
  ok (map drop_metadata rows'')

pub record PlanCounts : Type 0 where
  pub will_move : ℕ
  pub will_manual_review : ℕ
  pub requires_decision : ℕ
  pub not_ready : ℕ
  pub rule_conflicts : ℕ
  pub no_scenario : ℕ

abbrev pub zero_counts : PlanCounts
zero_counts = record {
  will_move = 0;
  will_manual_review = 0;
  requires_decision = 0;
  not_ready = 0;
  rule_conflicts = 0;
  no_scenario = 0;
}

-- `counts[state_keys[row["predicted_state"]]] += 1`
abbrev pub count_state : PredictedState → PlanCounts → PlanCounts
count_state PredictedState.will_move c = record c { will_move = c.will_move + 1 }
count_state PredictedState.will_manual_review c = record c {
  will_manual_review = c.will_manual_review + 1;
}
count_state PredictedState.requires_decision c = record c {
  requires_decision = c.requires_decision + 1;
}
count_state PredictedState.not_ready c = record c { not_ready = c.not_ready + 1 }

abbrev pub is_not_ready : PredictedState → Bool
is_not_ready PredictedState.not_ready = true
is_not_ready _ = false

abbrev pub is_manual_candidate : Row → Bool
is_manual_candidate row = elim row.selected_rule [
  | none ↦ not (is_not_ready row.predicted_state)
  | some r ↦ false
]

pub count_row : PlanCounts → Row → PlanCounts
count_row counts row =
    let c = count_state row.predicted_state counts in
    if is_manual_candidate row && leb 2 (length row.matched_rules)
    then record c { rule_conflicts = c.rule_conflicts + 1 }
    else if is_manual_candidate row && length row.matched_rules == 0
    then record c { no_scenario = c.no_scenario + 1 }
    else c

pub count_rows : PlanCounts → List Row → PlanCounts
unfolding count_row
count_rows counts [] = counts
count_rows counts (row ∷ rows) = count_rows (count_row counts row) rows

pub plan_counts : List Row → PlanCounts
unfolding count_rows
plan_counts rows = count_rows zero_counts rows
