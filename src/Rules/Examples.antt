-- ===== src/Rules/Examples.antt =====
-- Plans of backend/wiseway/rules.py on concrete files.
use wise_way.Prelude.{
  ◌≡◌, ◌≢◌, refl, Bool, true, false, none, some, List, [], ◌∷◌, map, length, Text, Ident, codes,
  holds, arith,
}
use wise_way.Common.{Result, ok, err, Location}
use wise_way.Records.{ItemStatus, QueueItem, MatchField, TargetDirectory, Rule, PredictedState, Row}
use wise_way.Rules.Glob.{glob_loop, rounds, match_glob, star}
use wise_way.Rules.Glob.Spec.{matches}
use wise_way.Rules.Glob.Match.{glob_loop-total, match_glob-eq-matches, star_misses_starred}
use wise_way.Rules.Names.{
  Key, match_rule, has_double_star, basename, replace, extension, target_tuple, join,
}
use wise_way.Rules.Plan.{Adapters, plan_one, base_row, key_eq}
use wise_way.Rules.Plan.Select.{Follows, plan_one-Follows}
use wise_way.Rules.Collisions.{plan_rows, plan_counts, target_at, group_rows}
use wise_way.Rules.Collisions.Keys.{key_at, among}
use wise_way.Rules.Collisions.Groups.{members, members-key_at}
use wise_way.Rules.Collisions.Safety.{plan_rows_distinct, plan_rows_free}
use wise_way.Rules.Collisions.Totals.{plan_rows_ids, total, total-plan_counts}
use wise_way.Rules.Collisions.Counts.{
  in_state, number_of, conflicting, unmatched, plan_counts_numbers,
}

abbrev mask : Text
mask = codes "a*.?"

abbrev name : Text
name = codes "abc.x"

glob_loop-total_example :
    (answer : Bool) × (glob_loop mask name (rounds mask name) 0 0 none 0 ≡ some answer)
glob_loop-total_example = glob_loop-total mask name

match_glob-eq-matches_example : match_glob mask name ≡ matches mask name
match_glob-eq-matches_example = match_glob-eq-matches mask name refl

star_misses_starred_example :
    (match_glob (star ∷ []) (star ∷ 97 ∷ 98 ∷ []) ≡ false)
    × (matches (star ∷ []) (star ∷ 97 ∷ 98 ∷ []) ≡ true)
star_misses_starred_example = star_misses_starred 97 (98 ∷ [])

abbrev place : Text → Location
place path = record { root_id = 7; relative_path = path; display_path = path }

abbrev file : Ident → Text → QueueItem
file id path = record {
  item_id = id;
  item_revision = 1;
  company_id = 3;
  filename = path;
  source = place path;
  status = ItemStatus.ready;
  selectable = true;
  active_attempt_id = none;
  reason_code = none;
  size_bytes = 10;
  modified_at = 20;
  fingerprint = record { dev = 1; ino = 2; size = 10; mtime_ns = 20000 };
  observed_at = 30;
  departed = false;
}

abbrev rule : Rule
rule = record {
  dictionary_id = 1;
  version_id = some 4;
  rule_id = 5;
  priority = 6;
  match_field = MatchField.basename;
  mask = codes "a";
  target = record { root_id = 8; relative_directory = codes "d" };
  target_stem = codes "s";
}

abbrev adapters : Adapters
adapters = record {
  exists = λ _. ok false;
  location =
      λ root_id path. ok (record { root_id = root_id; relative_path = path; display_path = path });
  source_info = none;
}

abbrev manual : TargetDirectory
manual = record { root_id = 0; relative_directory = codes "m" }

abbrev files : List QueueItem
files = file 11 (codes "a") ∷ file 12 (codes "b") ∷ []

abbrev rows_of : Result (List Row) → List Row
rows_of (ok rows) = rows
rows_of (err e) = []

abbrev row_of : Result Row → Row → Row
row_of (ok row) other = row
row_of (err e) other = other

abbrev rows : List Row
rows = rows_of (plan_rows (λ t. t) adapters files (rule ∷ []) manual)

rows-planned : plan_rows (λ t. t) adapters files (rule ∷ []) manual ≡ ok rows
unfolding plan_rows match_rule match_glob glob_loop has_double_star basename replace extension
    target_tuple
rows-planned = refl

abbrev moved : Key
moved = (8, codes "d/s")

first-moves : key_at rows 0 ≡ some moved
unfolding plan_rows match_rule match_glob glob_loop has_double_star basename replace extension
    target_tuple join
first-moves = refl

plan_rows_distinct_example : key_at rows 1 ≢ some moved
plan_rows_distinct_example =
    plan_rows_distinct (λ t. t) adapters files (rule ∷ []) manual rows-planned 0 1 moved
      (omega arith) first-moves

plan_rows_free_example :
    (target : Location) × (target_at rows 0 ≡ some target) × (adapters.exists target ≡ ok false)
plan_rows_free_example =
    plan_rows_free (λ t. t) adapters files (rule ∷ []) manual rows-planned 0 moved first-moves

plan_rows_ids_example :
    map (λ (row : Row). row.item_id) rows ≡ map (λ (item : QueueItem). item.item_id) files
plan_rows_ids_example = plan_rows_ids (λ t. t) adapters files (rule ∷ []) manual rows-planned

total-plan_counts_example : total (plan_counts rows) ≡ length rows
total-plan_counts_example = total-plan_counts rows

members-key_at_example :
    among 0 (members moved (group_rows 0 rows [])) ≡ holds (key_at rows 0) (λ l. key_eq l moved)
members-key_at_example = members-key_at moved 0 rows

abbrev first_row : Row
first_row =
    row_of (plan_one (λ t. t) adapters (rule ∷ []) (file 11 (codes "a"))) (base_row (file 11 []))

first_row-planned : plan_one (λ t. t) adapters (rule ∷ []) (file 11 (codes "a")) ≡ ok first_row
unfolding plan_one match_rule match_glob glob_loop has_double_star basename replace extension
    target_tuple
first_row-planned = refl

first_row-moves : first_row.predicted_state ≡ PredictedState.will_move
unfolding plan_one match_rule match_glob glob_loop has_double_star basename replace extension
    target_tuple
first_row-moves = refl

plan_one-Follows_example :
    (r : Rule) × Follows (λ t. t) adapters (rule ∷ []) (file 11 (codes "a")) first_row r
plan_one-Follows_example =
    plan_one-Follows (λ t. t) adapters (rule ∷ []) (file 11 (codes "a")) first_row-planned
      first_row-moves

plan_counts_numbers_example :
    ((plan_counts rows).will_move ≡ number_of (in_state PredictedState.will_move) rows)
    × ((plan_counts rows).will_manual_review
        ≡ number_of (in_state PredictedState.will_manual_review) rows)
    × ((plan_counts rows).requires_decision
        ≡ number_of (in_state PredictedState.requires_decision) rows)
    × ((plan_counts rows).not_ready ≡ number_of (in_state PredictedState.not_ready) rows)
    × ((plan_counts rows).rule_conflicts ≡ number_of conflicting rows)
    × ((plan_counts rows).no_scenario ≡ number_of unmatched rows)
plan_counts_numbers_example = plan_counts_numbers rows
