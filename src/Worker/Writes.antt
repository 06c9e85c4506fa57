-- ===== src/Worker/Writes.antt =====
-- Properties of the rows through the methods of the worker (backend/wiseway/worker.py) on one attempt,
-- by what its transactions keep.
pub mod Runs
use wise_way.Prelude.{ℕ, Bool, true, false, Option, none, Ident, Text}
use wise_way.Common.{Result, ok, err, Location, Fingerprint}
use wise_way.Records.{Reason, OutcomeState, Attempt}
use wise_way.Database.{Db}
use wise_way.Host.{Host}
use wise_way.Exec.{write}
use wise_way.Exec.Keeps.{Keeps, keeps_rules}
use wise_way.Worker.{
  current_source, finish, recovery_required, intent, after_quarantine, quarantine_or_recover,
}
use wise_way.Worker.Transactions.{
  intent_tx, finish_tx, recovery_tx, requeue_tx, retry_tx, quarantine_intent_tx,
}

-- The property is kept by the six transactions on the attempt `k`.
pub record Writes (host : Host) (k : Ident) (P : Db → Type 0) : Type 0 where
  pub at_finish :
      (state : OutcomeState) (reason : Option Reason) (actual : Option Location) (t : ℕ)
      (current : Option Fingerprint)
      → Keeps P (write {host = host} (finish_tx k state reason actual t current))
  pub at_recovery :
      (actual : Option Location) (t : ℕ) → Keeps P (write {host = host} (recovery_tx k actual t))
  pub at_intent :
      (target : Location) (state : OutcomeState) (reason : Option Reason) (t : ℕ)
      → Keeps P (write {host = host} (intent_tx k target state reason t))
  pub at_requeue : Keeps P (write {host = host} (requeue_tx k))
  pub at_retry : Keeps P (write {host = host} (retry_tx k))
  pub at_quarantine_intent :
      (target : Location) → Keeps P (write {host = host} (quarantine_intent_tx k target))

module _ (host : Host) (id_text : Ident → Text) (k : Ident) (P : Db → Type 0)
    (w : Writes host k P) where
  finish_write :
      (state : OutcomeState) (reason : Option Reason) (actual : Option Location) (t : ℕ)
      (current : Option Fingerprint)
      → Keeps P (write {host = host} (finish_tx k state reason actual t current))
  finish_write = w.at_finish

  recovery_write :
      (actual : Option Location) (t : ℕ) → Keeps P (write {host = host} (recovery_tx k actual t))
  recovery_write = w.at_recovery

  intent_write :
      (target : Location) (state : OutcomeState) (reason : Option Reason) (t : ℕ)
      → Keeps P (write {host = host} (intent_tx k target state reason t))
  intent_write = w.at_intent

  quarantine_intent_write :
      (target : Location) → Keeps P (write {host = host} (quarantine_intent_tx k target))
  quarantine_intent_write = w.at_quarantine_intent

  current_source-Keeps :
      (wanted : Bool) (a : Attempt) → Keeps P (current_source {host = host} wanted a)
  unfolding current_source
  current_source-Keeps false a = search keeps_rules
  current_source-Keeps true a = search keeps_rules

  pub finish-Keeps :
      (state : OutcomeState) (reason : Option Reason) (actual : Option Location)
      → Keeps P (finish {host = host} k state reason actual)
  unfolding finish
  finish-Keeps state reason actual = search (keeps_rules, current_source-Keeps, finish_write)

  pub recovery_required-Keeps :
      (actual : Option Location) → Keeps P (recovery_required {host = host} k actual)
  unfolding recovery_required
  recovery_required-Keeps actual = search (keeps_rules, recovery_write)

  pub intent-Keeps :
      (target : Location) (state : OutcomeState) (reason : Option Reason)
      → Keeps P (intent {host = host} k target state reason)
  unfolding intent
  intent-Keeps target state reason = search (keeps_rules, intent_write)

  after_quarantine-Keeps :
      (a : Attempt) (target : Location) (moved : Result (Unit {0}))
      → Keeps P (after_quarantine {host = host} k a target moved)
  unfolding after_quarantine
  after_quarantine-Keeps a target (ok u) =
      search (keeps_rules, finish-Keeps, recovery_required-Keeps) depth 8
  after_quarantine-Keeps a target (err e) = recovery_required-Keeps none

  pub quarantine_or_recover-Keeps : Keeps P (quarantine_or_recover {host = host} id_text k)
  unfolding quarantine_or_recover
  quarantine_or_recover-Keeps =
      search (keeps_rules, quarantine_intent_write, after_quarantine-Keeps, recovery_required-Keeps)
        depth 16
