-- ===== src/Worker/Queued/Methods.antt =====
-- The methods of the worker (backend/wiseway/worker.py) on an attempt, by whether it still waits to
-- be run where they return.
use wise_way.Prelude.{
  ℕ, ◌≡◌, refl, Bool, true, false, Option, none, some, Ident, Text, arith, Bool-cases, inl, inr,
}
use wise_way.Common.{
  Result, ok, err, Location, Fingerprint, api, integrity, type_error, recursion_error, value_error,
  index_error, invalid_path, not_regular_file, source_changed, post_rename_changed, target_exists,
  unsupported_filesystem, os_error,
}
use wise_way.Records.{Reason, PredictedState, OutcomeState, Attempt}
use wise_way.Storage.{require}
use wise_way.Storage.Laws.{require-eq-ok}
use wise_way.Host.{Host}
use wise_way.Exec.{Sys, Exec, continue, ◌>>=◌, write}
use wise_way.Exec.Keeps.{Keeps, Keeps-pure, Keeps-write, keeps_rules}
use wise_way.Exec.Ends.{Ends, Ends-write, ends_rules}
use wise_way.Worker.{
  current_source, require_attempt, finish, recovery_required, intent, after_quarantine,
  quarantine_or_recover, after_rename, execute_intent, recover_without_intent, recover_intent,
  recover_placed, follow_plan, run_observed, run_queued,
}
use wise_way.Worker.Transactions.{
  is_queued, is_done, is_recovery, intent_tx, finish_tx, recovery_tx, retry_tx,
  quarantine_intent_tx,
}
use wise_way.Worker.Queued.{
  Settled, found-Settled, finish_tx-Settled, recovery_tx-Settled, intent_tx-Settled,
  retry_tx-Settled, quarantine_intent_tx-Settled,
}

-- The same for each method. A method that returns after a write of these has settled the attempt,
-- and what keeps it settled may follow.
module _ (host : Host) (id_text : Ident → Text) (k : Ident) where
  finish_write :
      (state : OutcomeState) (reason : Option Reason) (actual : Option Location) (t : ℕ)
      (current : Option Fingerprint)
      → Keeps (Settled k) (write {host = host} (finish_tx k state reason actual t current))
  finish_write state reason actual t current =
      Keeps-write _ (λ db a db' h e. finish_tx-Settled k state reason actual t current db e)

  finish_tx-Ends :
      (state : OutcomeState) (reason : Option Reason) (actual : Option Location) (t : ℕ)
      (current : Option Fingerprint)
      → Ends (Settled k) (write {host = host} (finish_tx k state reason actual t current))
  finish_tx-Ends state reason actual t current =
      Ends-write _ (λ db a db' e. finish_tx-Settled k state reason actual t current db e)

  recovery_write :
      (actual : Option Location) (t : ℕ)
      → Keeps (Settled k) (write {host = host} (recovery_tx k actual t))
  recovery_write actual t = Keeps-write _ (λ db a db' h e. recovery_tx-Settled k actual t db e)

  recovery_tx-Ends :
      (actual : Option Location) (t : ℕ)
      → Ends (Settled k) (write {host = host} (recovery_tx k actual t))
  recovery_tx-Ends actual t = Ends-write _ (λ db a db' e. recovery_tx-Settled k actual t db e)

  intent_tx-Ends :
      (target : Location) (state : OutcomeState) (reason : Option Reason) (t : ℕ)
      → Ends (Settled k) (write {host = host} (intent_tx k target state reason t))
  intent_tx-Ends target state reason t =
      Ends-write _ (λ db a db' e. intent_tx-Settled k target state reason t db e)

  intent_write :
      (target : Location) (state : OutcomeState) (reason : Option Reason) (t : ℕ)
      → Keeps (Settled k) (write {host = host} (intent_tx k target state reason t))
  intent_write target state reason t =
      Keeps-write _ (λ db a db' h e. intent_tx-Settled k target state reason t db e)

  retry_tx-Ends : Ends (Settled k) (write {host = host} (retry_tx k))
  retry_tx-Ends = Ends-write _ (λ db a db' e. retry_tx-Settled k db e)

  quarantine_intent_write :
      (target : Location) → Keeps (Settled k) (write {host = host} (quarantine_intent_tx k target))
  quarantine_intent_write target =
      Keeps-write _ (λ db a db' h e. quarantine_intent_tx-Settled k target db h e)

  require_at :
      {A : Type 0} (rest : Attempt → Exec host A)
      → ((a : Attempt) → is_queued a.phase ≡ true → Ends (Settled k) (rest a))
      → ((a : Attempt) → Keeps (Settled k) (rest a))
      → (s : Sys host) (b : A) (found : Result Attempt) → require s.db.attempt k ≡ found
      → (continue found rest s).0 ≡ ok b
      → Settled k (continue found rest s).1.db
  require_at rest open_case keeps s b (err e) r h = absurd (cc h)
  require_at rest open_case keeps s b (ok a) r h = elim (Bool-cases (is_queued a.phase)) [
    | inl queued ↦ (open_case a queued).at s b h
    | inr settled ↦ (keeps a).at s (found-Settled k s.db a (require-eq-ok s.db.attempt k r) settled)
  ]

  -- a method that reads the attempt first: where it is settled already, nothing more is needed than
  -- to keep it so
  require-Ends :
      {A : Type 0} (rest : Attempt → Exec host A)
      → ((a : Attempt) → is_queued a.phase ≡ true → Ends (Settled k) (rest a))
      → ((a : Attempt) → Keeps (Settled k) (rest a))
      → Ends (Settled k) (require_attempt k >>= rest)
  unfolding ◌>>=◌
  require-Ends rest open_case keeps = record {
    at = λ s b h. require_at rest open_case keeps s b (require s.db.attempt k) refl h;
  }

  current_source-Keeps :
      (wanted : Bool) (a : Attempt) → Keeps (Settled k) (current_source {host = host} wanted a)
  unfolding current_source
  current_source-Keeps false a = search keeps_rules
  current_source-Keeps true a = search keeps_rules

  finish-Keeps :
      (state : OutcomeState) (reason : Option Reason) (actual : Option Location)
      → Keeps (Settled k) (finish {host = host} k state reason actual)
  unfolding finish
  finish-Keeps state reason actual = search (keeps_rules, current_source-Keeps, finish_write)

  recovery_required-Keeps :
      (actual : Option Location) → Keeps (Settled k) (recovery_required {host = host} k actual)
  unfolding recovery_required
  recovery_required-Keeps actual = search (keeps_rules, recovery_write)

  after_quarantine-Keeps :
      (a : Attempt) (target : Location) (moved : Result (Unit {0}))
      → Keeps (Settled k) (after_quarantine {host = host} k a target moved)
  unfolding after_quarantine
  after_quarantine-Keeps a target (ok u) =
      search (keeps_rules, finish-Keeps, recovery_required-Keeps) depth 8
  after_quarantine-Keeps a target (err e) = recovery_required-Keeps none

  quarantine_or_recover-Keeps : Keeps (Settled k) (quarantine_or_recover {host = host} id_text k)
  unfolding quarantine_or_recover
  quarantine_or_recover-Keeps =
      search (keeps_rules, quarantine_intent_write, after_quarantine-Keeps, recovery_required-Keeps)
        depth 16

  pub finish-Ends :
      (state : OutcomeState) (reason : Option Reason) (actual : Option Location)
      → Ends (Settled k) (finish {host = host} k state reason actual)
  unfolding finish
  finish-Ends state reason actual =
      require-Ends _
        (λ (a : Attempt) (q : is_queued a.phase ≡ true).
          let unfinished : is_done a.phase ≡ false = ground (arith, q) in
          rw unfinished (search (ends_rules, finish_tx-Ends) depth 8))
        (λ (a : Attempt). search (keeps_rules, current_source-Keeps, finish_write) depth 8)

  pub recovery_required-Ends :
      (actual : Option Location) → Ends (Settled k) (recovery_required {host = host} k actual)
  unfolding recovery_required
  recovery_required-Ends actual =
      require-Ends _
        (λ (a : Attempt) (q : is_queued a.phase ≡ true).
          let unfinished : is_done a.phase ≡ false = ground (arith, q) in
          let unknown : is_recovery a.phase ≡ false = ground (arith, q) in
          rw (unfinished, unknown) (search (ends_rules, recovery_tx-Ends) depth 8))
        (λ (a : Attempt). search (keeps_rules, recovery_write) depth 8)

  pub intent-Ends :
      (target : Location) (state : OutcomeState) (reason : Option Reason)
      → Ends (Settled k) (intent {host = host} k target state reason)
  unfolding intent
  intent-Ends target state reason =
      require-Ends _
        (λ (a : Attempt) (queued : is_queued a.phase ≡ true).
          rw queued (search (ends_rules, intent_tx-Ends) depth 8))
        (λ (a : Attempt). search (keeps_rules, intent_write) depth 8)

  after_rename-Keeps :
      (a : Attempt) (source target : Text) (moved : Result (Unit {0}))
      → Keeps (Settled k) (after_rename {host = host} id_text k a source target moved)
  unfolding after_rename
  after_rename-Keeps a source target (ok u) =
      search (keeps_rules, finish-Keeps, recovery_required-Keeps) depth 16
  after_rename-Keeps a source target (err target_exists) =
      search (keeps_rules, finish-Keeps) depth 16
  after_rename-Keeps a source target (err post_rename_changed) = recovery_required-Keeps none
  after_rename-Keeps a source target (err source_changed) =
      search (keeps_rules, finish-Keeps) depth 16
  after_rename-Keeps a source target (err (api code)) = quarantine_or_recover-Keeps
  after_rename-Keeps a source target (err integrity) = quarantine_or_recover-Keeps
  after_rename-Keeps a source target (err type_error) = quarantine_or_recover-Keeps
  after_rename-Keeps a source target (err recursion_error) = quarantine_or_recover-Keeps
  after_rename-Keeps a source target (err value_error) = quarantine_or_recover-Keeps
  after_rename-Keeps a source target (err index_error) = quarantine_or_recover-Keeps
  after_rename-Keeps a source target (err invalid_path) = quarantine_or_recover-Keeps
  after_rename-Keeps a source target (err not_regular_file) = quarantine_or_recover-Keeps
  after_rename-Keeps a source target (err unsupported_filesystem) = quarantine_or_recover-Keeps
  after_rename-Keeps a source target (err os_error) = quarantine_or_recover-Keeps

  execute_intent-Keeps : Keeps (Settled k) (execute_intent {host = host} id_text k)
  unfolding execute_intent
  execute_intent-Keeps = search (keeps_rules, after_rename-Keeps) depth 16

  recover_without_intent-Ends :
      (again : Ident → Exec host Bool) (a : Attempt)
      → Ends (Settled k) (again k)
      → Ends (Settled k) (recover_without_intent again k a)
  unfolding recover_without_intent
  recover_without_intent-Ends again a ends = search (ends_rules, recovery_required-Ends) depth 16

  recover_intent-Ends :
      (allow : Bool) (a : Attempt) (target : Location)
      → Ends (Settled k) (recover_intent {host = host} id_text allow k a target)
  unfolding recover_intent
  recover_intent-Ends allow a target =
      search
        (
          ends_rules, finish-Ends, Keeps-pure, retry_tx-Ends, execute_intent-Keeps,
          recovery_required-Ends,
        )
        depth 16

  pub recover_placed-Ends :
      (again : Ident → Exec host Bool) (allow : Bool) (a : Attempt) (target : Option Location)
      → Ends (Settled k) (again k)
      → Ends (Settled k) (recover_placed id_text again allow k a target)
  unfolding recover_placed
  recover_placed-Ends again allow a none ends = recover_without_intent-Ends again a ends
  recover_placed-Ends again allow a (some target) ends = recover_intent-Ends allow a target

  follow_plan-Ends :
      (a : Attempt) (state : PredictedState)
      → Ends (Settled k) (follow_plan {host = host} id_text k a state)
  unfolding follow_plan
  follow_plan-Ends a PredictedState.requires_decision =
      search (ends_rules, finish-Ends, Keeps-pure) depth 16
  follow_plan-Ends a PredictedState.will_move =
      search (ends_rules, intent-Ends, execute_intent-Keeps) depth 16
  follow_plan-Ends a PredictedState.will_manual_review =
      search (ends_rules, finish-Ends, Keeps-pure, intent-Ends, execute_intent-Keeps) depth 16
  follow_plan-Ends a PredictedState.not_ready =
      search (ends_rules, finish-Ends, Keeps-pure) depth 16

  run_observed-Ends :
      (a : Attempt) (seen : Result (Option Fingerprint))
      → Ends (Settled k) (run_observed {host = host} id_text k a seen)
  unfolding run_observed
  run_observed-Ends a (err e) = recovery_required-Ends none
  run_observed-Ends a (ok none) = search (ends_rules, finish-Ends, Keeps-pure) depth 16
  run_observed-Ends a (ok (some seen)) =
      search (ends_rules, finish-Ends, Keeps-pure, follow_plan-Ends) depth 16

  pub run_queued-Ends : (a : Attempt) → Ends (Settled k) (run_queued {host = host} id_text k a)
  unfolding run_queued
  run_queued-Ends a = search (ends_rules, run_observed-Ends) depth 16
