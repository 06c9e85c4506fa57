-- ===== src/Worker/Writes/Runs.antt =====
-- Properties of the rows through the runs, the recoveries and the rounds of the worker
-- (backend/wiseway/worker.py) on one attempt, by what its transactions keep.
use wise_way.Prelude.{ℕ, zero, suc, Option, none, some, Ident, Text, Bool, true, false}
use wise_way.Common.{
  Result, ok, err, Location, Fingerprint, api, integrity, type_error, recursion_error, value_error,
  index_error, invalid_path, not_regular_file, source_changed, post_rename_changed, target_exists,
  unsupported_filesystem, os_error,
}
use wise_way.Records.{PredictedState, Phase, Attempt}
use wise_way.Host.{Host}
use wise_way.Exec.{Exec}
use wise_way.Exec.Keeps.{Keeps, Keeps-if, Keeps-pure, Keeps-raise, keeps_rules}
use wise_way.Worker.{
  after_rename, execute_intent, recover_without_intent, recover_intent, recover_placed, run_phase,
  recover_attempt, recover_with, follow_plan, run_observed, run_queued, run_attempt, run_within,
  run, recover,
}
use wise_way.Database.{Db}
use wise_way.Exec.{write}
use wise_way.Worker.{settle, process}
use wise_way.Worker.Transactions.{requeue_tx, retry_tx}
use wise_way.Worker.Writes.{
  Writes, finish-Keeps, recovery_required-Keeps, intent-Keeps, quarantine_or_recover-Keeps,
}

module _ (host : Host) (id_text : Ident → Text) (k : Ident) (P : Db → Type 0)
    (w : Writes host k P) where
  after_rename-Keeps :
      (a : Attempt) (source target : Text) (moved : Result (Unit {0}))
      → Keeps P (after_rename {host = host} id_text k a source target moved)
  unfolding after_rename
  after_rename-Keeps a source target (ok u) =
      search (keeps_rules, finish-Keeps, recovery_required-Keeps) depth 16
  after_rename-Keeps a source target (err target_exists) =
      search (keeps_rules, finish-Keeps) depth 16
  after_rename-Keeps a source target (err post_rename_changed) =
      recovery_required-Keeps host id_text k P w none
  after_rename-Keeps a source target (err source_changed) =
      search (keeps_rules, finish-Keeps) depth 16
  after_rename-Keeps a source target (err (api code)) =
      quarantine_or_recover-Keeps host id_text k P w
  after_rename-Keeps a source target (err integrity) =
      quarantine_or_recover-Keeps host id_text k P w
  after_rename-Keeps a source target (err type_error) =
      quarantine_or_recover-Keeps host id_text k P w
  after_rename-Keeps a source target (err recursion_error) =
      quarantine_or_recover-Keeps host id_text k P w
  after_rename-Keeps a source target (err value_error) =
      quarantine_or_recover-Keeps host id_text k P w
  after_rename-Keeps a source target (err index_error) =
      quarantine_or_recover-Keeps host id_text k P w
  after_rename-Keeps a source target (err invalid_path) =
      quarantine_or_recover-Keeps host id_text k P w
  after_rename-Keeps a source target (err not_regular_file) =
      quarantine_or_recover-Keeps host id_text k P w
  after_rename-Keeps a source target (err unsupported_filesystem) =
      quarantine_or_recover-Keeps host id_text k P w
  after_rename-Keeps a source target (err os_error) = quarantine_or_recover-Keeps host id_text k P w

  requeue_write : Keeps P (write {host = host} (requeue_tx k))
  requeue_write = w.at_requeue

  retry_write : Keeps P (write {host = host} (retry_tx k))
  retry_write = w.at_retry

  execute_intent-Keeps : Keeps P (execute_intent {host = host} id_text k)
  unfolding execute_intent
  execute_intent-Keeps = search (keeps_rules, after_rename-Keeps) depth 16

  recover_without_intent-Keeps :
      (again : Ident → Exec host Bool) (a : Attempt)
      → Keeps P (again k)
      → Keeps P (recover_without_intent again k a)
  unfolding recover_without_intent
  recover_without_intent-Keeps again a same =
      search (keeps_rules, recovery_required-Keeps, requeue_write) depth 16

  recover_intent-Keeps :
      (allow : Bool) (a : Attempt) (target : Location)
      → Keeps P (recover_intent {host = host} id_text allow k a target)
  unfolding recover_intent
  recover_intent-Keeps allow a target =
      search (keeps_rules, finish-Keeps, retry_write, execute_intent-Keeps, recovery_required-Keeps)
        depth 16

  recover_placed-Keeps :
      (again : Ident → Exec host Bool) (allow : Bool) (a : Attempt) (target : Option Location)
      → Keeps P (again k)
      → Keeps P (recover_placed id_text again allow k a target)
  unfolding recover_placed
  recover_placed-Keeps again allow a none same = recover_without_intent-Keeps again a same
  recover_placed-Keeps again allow a (some target) same = recover_intent-Keeps allow a target

  recover_attempt-Keeps :
      (again : Ident → Exec host Bool) (allow : Bool) (found : Option Attempt)
      → Keeps P (again k)
      → Keeps P (recover_attempt id_text again allow k found)
  unfolding recover_attempt
  recover_attempt-Keeps again allow none same = Keeps-pure false
  recover_attempt-Keeps again allow (some a) same =
      Keeps-if _ _ _ (Keeps-pure false) (recover_placed-Keeps again allow a a.intent_target same)

  recover_with-Keeps :
      (again : Ident → Exec host Bool) (allow : Bool)
      → Keeps P (again k)
      → Keeps P (recover_with id_text again allow k)
  unfolding recover_with
  recover_with-Keeps again allow same = search (keeps_rules, recover_attempt-Keeps) depth 16

  follow_plan-Keeps :
      (a : Attempt) (state : PredictedState) → Keeps P (follow_plan {host = host} id_text k a state)
  unfolding follow_plan
  follow_plan-Keeps a PredictedState.requires_decision = search (keeps_rules, finish-Keeps) depth 16
  follow_plan-Keeps a PredictedState.will_move =
      search (keeps_rules, intent-Keeps, execute_intent-Keeps) depth 16
  follow_plan-Keeps a PredictedState.will_manual_review =
      search (keeps_rules, finish-Keeps, intent-Keeps, execute_intent-Keeps) depth 16
  follow_plan-Keeps a PredictedState.not_ready = search (keeps_rules, finish-Keeps) depth 16

  run_observed-Keeps :
      (a : Attempt) (seen : Result (Option Fingerprint))
      → Keeps P (run_observed {host = host} id_text k a seen)
  unfolding run_observed
  run_observed-Keeps a (err e) = recovery_required-Keeps host id_text k P w none
  run_observed-Keeps a (ok none) = search (keeps_rules, finish-Keeps) depth 16
  run_observed-Keeps a (ok (some seen)) =
      search (keeps_rules, finish-Keeps, follow_plan-Keeps) depth 16

  run_queued-Keeps : (a : Attempt) → Keeps P (run_queued {host = host} id_text k a)
  unfolding run_queued
  run_queued-Keeps a = search (keeps_rules, run_observed-Keeps) depth 16

  run_phase-Keeps :
      (recover_it : Ident → Exec host Bool) (a : Attempt) (phase : Phase)
      → Keeps P (recover_it k)
      → Keeps P (run_phase id_text recover_it k a phase)
  unfolding run_phase
  run_phase-Keeps recover_it a Phase.done same = Keeps-pure false
  run_phase-Keeps recover_it a Phase.intent same = same
  run_phase-Keeps recover_it a Phase.recovery_required same = same
  run_phase-Keeps recover_it a Phase.queued same = run_queued-Keeps a

  run_attempt-Keeps :
      (recover_it : Ident → Exec host Bool) (found : Option Attempt)
      → Keeps P (recover_it k)
      → Keeps P (run_attempt id_text recover_it k found)
  unfolding run_attempt
  run_attempt-Keeps recover_it none same = Keeps-pure false
  run_attempt-Keeps recover_it (some a) same = run_phase-Keeps recover_it a a.phase same

  run_within-Keeps : (depth : ℕ) → Keeps P (run_within {host = host} depth id_text k)
  unfolding run_within
  run_within-Keeps zero = Keeps-raise recursion_error
  run_within-Keeps (suc depth) =
      let again = run_within-Keeps depth in
      let recovers = recover_with-Keeps (run_within depth id_text) false again in
      search (keeps_rules, run_attempt-Keeps) depth 16

  pub run-Keeps : Keeps P (run {host = host} id_text k)
  unfolding run
  run-Keeps = run_within-Keeps 2

  pub recover-Keeps : (held : Bool) → Keeps P (recover {host = host} id_text held k)
  unfolding recover
  recover-Keeps held =
      let recovers = recover_with-Keeps (run id_text) true run-Keeps in search keeps_rules depth 16

  settle-Keeps : (result : Result Bool) → Keeps P (settle {host = host} k result)
  unfolding settle
  settle-Keeps (ok done) = search keeps_rules
  settle-Keeps (err e) = search (keeps_rules, recovery_required-Keeps)

  pub process-Keeps : Keeps P (process {host = host} id_text k)
  unfolding process
  process-Keeps = search (keeps_rules, run-Keeps, settle-Keeps) depth 16
