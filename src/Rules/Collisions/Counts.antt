-- ===== src/Rules/Collisions/Counts.antt =====
-- What `plan_counts` of backend/wiseway/rules.py counts, one number at a time.
use wise_way.Prelude.{
  ℕ, ◌+◌, ◌≡◌, refl, Bool, true, false, not, ◌&&◌, List, [], ◌∷◌, ◌==◌, leb, arith, if◌then◌else◌,
  length, keep, Bool-cases, inl, inr, is_some,
}
use wise_way.Records.{PredictedState, Row}
use wise_way.Rules.Collisions.{PlanCounts, zero_counts, count_row, count_rows, plan_counts}

-- The tests are written here from the meaning of the numbers, not with the tests of the code.
abbrev pub has_state : PredictedState → PredictedState → Bool
has_state PredictedState.will_move PredictedState.will_move = true
has_state PredictedState.will_manual_review PredictedState.will_manual_review = true
has_state PredictedState.requires_decision PredictedState.requires_decision = true
has_state PredictedState.not_ready PredictedState.not_ready = true
has_state _ _ = false

abbrev pub several {ℓ} : {A : Type ℓ} → List A → Bool
several (a ∷ b ∷ l) = true
several _ = false

abbrev pub is_empty {ℓ} : {A : Type ℓ} → List A → Bool
is_empty [] = true
is_empty _ = false

-- a file that is ready and for which no rule was selected
abbrev pub undecided : Row → Bool
undecided row =
    not (is_some row.selected_rule) && not (has_state PredictedState.not_ready row.predicted_state)

abbrev pub in_state : PredictedState → Row → Bool
in_state state row = has_state state row.predicted_state

-- an undecided file that two rules or more match
abbrev pub conflicting : Row → Bool
conflicting row = undecided row && several row.matched_rules

-- an undecided file that no rule matches
abbrev pub unmatched : Row → Bool
unmatched row = undecided row && is_empty row.matched_rules

abbrev pub number_of : (Row → Bool) → List Row → ℕ
number_of test rows = length (keep test rows)

number_of-cons :
    (test : Row → Bool) (row : Row) (rows : List Row)
    → number_of test (row ∷ rows) ≡ (if test row then 1 else 0) + number_of test rows
number_of-cons test row rows = elim (Bool-cases (test row)) [
  | inl t ↦ rw (t, keep) (omega arith)
  | inr f ↦ rw (f, keep) (omega arith)
]

several-length {ℓ} : {A : Type ℓ} (l : List A) → leb 2 (length l) ≡ several l
several-length [] = refl
several-length (a ∷ []) = refl
several-length (a ∷ b ∷ l) = ground arith

is_empty-length {ℓ} : {A : Type ℓ} (l : List A) → (length l == 0) ≡ is_empty l
is_empty-length [] = refl
is_empty-length (a ∷ l) = ground arith

-- one more row, by the field that counts it
module _ (c : PlanCounts) (row : Row) where
  count_row_moves :
      (count_row c row).will_move
      ≡ c.will_move + (if in_state PredictedState.will_move row then 1 else 0)
  unfolding count_row
  count_row_moves = ground arith

  count_row_manual :
      (count_row c row).will_manual_review
      ≡ c.will_manual_review + (if in_state PredictedState.will_manual_review row then 1 else 0)
  unfolding count_row
  count_row_manual = ground arith

  count_row_decisions :
      (count_row c row).requires_decision
      ≡ c.requires_decision + (if in_state PredictedState.requires_decision row then 1 else 0)
  unfolding count_row
  count_row_decisions = ground arith

  count_row_not_ready :
      (count_row c row).not_ready
      ≡ c.not_ready + (if in_state PredictedState.not_ready row then 1 else 0)
  unfolding count_row
  count_row_not_ready = ground arith

  count_row_conflicts :
      (count_row c row).rule_conflicts ≡ c.rule_conflicts + (if conflicting row then 1 else 0)
  unfolding count_row
  count_row_conflicts = ground (arith, several-length row.matched_rules)

  count_row-unmatched :
      (count_row c row).no_scenario ≡ c.no_scenario + (if unmatched row then 1 else 0)
  unfolding count_row
  count_row-unmatched =
      ground (arith, several-length row.matched_rules, is_empty-length row.matched_rules)

-- A number that each row adds to by a test counts the rows that pass the test.
count_rows_number :
    (get : PlanCounts → ℕ) (test : Row → Bool)
    → ((c : PlanCounts) (row : Row) → get (count_row c row) ≡ get c + (if test row then 1 else 0))
    → (c : PlanCounts) (rows : List Row) → get (count_rows c rows) ≡ get c + number_of test rows
unfolding count_rows
count_rows_number get test adds c [] = omega arith
count_rows_number get test adds c (row ∷ rows) = omega (
  arith,
  count_rows_number get test adds (count_row c row) rows,
  adds c row,
  number_of-cons test row rows,
)

counted :
    (get : PlanCounts → ℕ) (test : Row → Bool)
    → ((c : PlanCounts) (row : Row) → get (count_row c row) ≡ get c + (if test row then 1 else 0))
    → (rows : List Row) → get zero_counts ≡ 0
    → get (count_rows zero_counts rows) ≡ number_of test rows
counted get test adds rows none_yet =
    omega (arith, none_yet, count_rows_number get test adds zero_counts rows)

-- The counts of a plan: four of them are the numbers of its rows in the four states; of the ready
-- rows for which no rule was selected, `rule_conflicts` is the number of those that at least two
-- rules match, and `no_scenario` the number of those that no rule matches.
pub plan_counts_numbers :
    (rows : List Row)
    → ((plan_counts rows).will_move ≡ number_of (in_state PredictedState.will_move) rows)
      × ((plan_counts rows).will_manual_review
          ≡ number_of (in_state PredictedState.will_manual_review) rows)
      × ((plan_counts rows).requires_decision
          ≡ number_of (in_state PredictedState.requires_decision) rows)
      × ((plan_counts rows).not_ready ≡ number_of (in_state PredictedState.not_ready) rows)
      × ((plan_counts rows).rule_conflicts ≡ number_of conflicting rows)
      × ((plan_counts rows).no_scenario ≡ number_of unmatched rows)
unfolding plan_counts
plan_counts_numbers rows = (
  counted (λ c. c.will_move) (in_state PredictedState.will_move) count_row_moves rows refl,
  counted (λ c. c.will_manual_review) (in_state PredictedState.will_manual_review) count_row_manual
      rows refl,
  counted (λ c. c.requires_decision) (in_state PredictedState.requires_decision) count_row_decisions
      rows refl,
  counted (λ c. c.not_ready) (in_state PredictedState.not_ready) count_row_not_ready rows refl,
  counted (λ c. c.rule_conflicts) conflicting count_row_conflicts rows refl,
  counted (λ c. c.no_scenario) unmatched count_row-unmatched rows refl,
)
