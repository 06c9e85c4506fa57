-- ===== src/Worker.antt =====
-- `Worker` of backend/wiseway/worker.py: the durable executor of accepted attempts. The lock of a
-- second worker is an argument, `held`.
pub mod Transactions
pub mod Frames
pub mod Writes
pub mod Stands
pub mod Passes
pub mod Isolation
pub mod Done
pub mod Queued
mod Examples
use wise_way.Prelude.{
  ℕ, zero, suc, ◌+◌, Bool, true, false, not, ◌&&◌, ◌||◌, Option, none, some, List, [], ◌∷◌, ◌++◌,
  Text, Ident, ◌==◌, if◌then◌else◌, keep, map, is_some, holds,
}
use wise_way.Common.{
  Error, Result, ok, err, Location, Fingerprint, target_exists, post_rename_changed, source_changed,
  type_error, recursion_error,
}
use wise_way.Records.{Reason, PredictedState, OutcomeState, Phase, Attempt, Company}
use wise_way.Storage.{get, require, list}
use wise_way.Database.{Db}
use wise_way.Rules.Names.{slash}
use wise_way.Paths.{location, physical}
use wise_way.Host.{Host}
use wise_way.Exec.{
  Sys, Exec, pure, raise, lift, ◌>>=◌, ◌>>◌, attempt_to, read, write, now, stat, exists,
  rename_no_replace,
}
use wise_way.Worker.Transactions.{
  is_queued, is_intent, is_recovery, is_done, intent_tx, finish_tx, recovery_tx, requeue_tx,
  retry_tx, quarantine_intent_tx, manual_location, quarantine_location,
}

abbrev pub fingerprint_eq : Fingerprint → Fingerprint → Bool
fingerprint_eq a b =
    a.dev == b.dev && a.ino == b.ino && a.size == b.size && a.mtime_ns == b.mtime_ns

-- `observed == fingerprint` where nothing may have been observed
abbrev pub seen_as : Option Fingerprint → Fingerprint → Bool
seen_as none expected = false
seen_as (some seen) expected = fingerprint_eq seen expected

-- What is needed of an optional field that a Python expression subscripts.
abbrev pub present {ℓ} : {A : Type ℓ} → Option A → Result A
present none = err type_error
present (some a) = ok a

abbrev pub is_manual_review : Option OutcomeState → Bool
is_manual_review (some OutcomeState.manual_review) = true
is_manual_review _ = false

abbrev pub is_quarantined : Option OutcomeState → Bool
is_quarantined (some OutcomeState.quarantined) = true
is_quarantined _ = false

-- `_finish` asks for the source's identity only where the source has changed.
abbrev pub is_changed : OutcomeState → Option Reason → Bool
is_changed OutcomeState.skipped (some Reason.source_changed) = true
is_changed _ _ = false

abbrev pub occupied_reason : Option OutcomeState → Reason
occupied_reason state =
    if is_manual_review state then Reason.manual_review_name_occupied else Reason.target_occupied

-- how `_run` counts and how `unchanged` is set under `except Exception`
abbrev pub is_ok_true : Result Bool → Bool
is_ok_true (ok true) = true
is_ok_true _ = false

module _ {host : Host} where
  abbrev pub physical_of : Location → Exec host Text
  physical_of place = read (λ db. physical db place)

  abbrev pub get_attempt : Ident → Exec host (Option Attempt)
  get_attempt attempt_id = read (λ db. ok (get db.attempt attempt_id))

  abbrev pub require_attempt : Ident → Exec host Attempt
  require_attempt attempt_id = read (λ db. require db.attempt attempt_id)

  -- the identity of the source for `_finish`, where it is wanted
  pub current_source : Bool → Attempt → Exec host (Option Fingerprint)
  current_source false attempt = pure none
  current_source true attempt = do path ← physical_of attempt.item.source; stat path

  unfoldable pub finish :
      Ident → OutcomeState → Option Reason → Option Location → Exec host (Unit {0})
  unfolding current_source
  finish attempt_id state reason actual = do
    attempt ← require_attempt attempt_id
    if is_done attempt.phase then pure tt else do
      t ← now
      current ← current_source (is_changed state reason) attempt
      write (finish_tx attempt_id state reason actual t current)

  unfoldable pub recovery_required : Ident → Option Location → Exec host Bool
  recovery_required attempt_id actual = do
    attempt ← require_attempt attempt_id
    if is_done attempt.phase
        then pure false
        else if is_recovery attempt.phase
        then pure true
        else do t ← now; write (recovery_tx attempt_id actual t)

  unfoldable pub intent : Ident → Location → OutcomeState → Option Reason → Exec host (Unit {0})
  intent attempt_id target state reason = do
    attempt ← require_attempt attempt_id
    if not (is_queued attempt.phase)
        then pure tt
        else do t ← now; write (intent_tx attempt_id target state reason t)

  -- the end of `_quarantine_or_recover`, after the move was tried
  unfoldable pub after_quarantine : Ident → Attempt → Location → Result (Unit {0}) → Exec host Bool
  after_quarantine attempt_id attempt target (err e) = recovery_required attempt_id none
  after_quarantine attempt_id attempt target (ok _) = do
    path ← physical_of target
    seen ← stat path
    if not (seen_as seen attempt.item.fingerprint) then recovery_required attempt_id none else do
      finish attempt_id OutcomeState.quarantined (some Reason.technical_error) (some target)
      pure true

  unfoldable pub quarantine_or_recover : (Ident → Text) → Ident → Exec host Bool
  unfolding after_quarantine
  quarantine_or_recover id_text attempt_id = do
    attempt ← require_attempt attempt_id
    path ← physical_of attempt.item.source
    seen ← stat path
    if not (seen_as seen attempt.item.fingerprint) then recovery_required attempt_id none else do
      target ← read (λ db. quarantine_location (id_text attempt.attempt_id) db attempt)
      target_path ← physical_of target
      occupied ← exists target_path
      if occupied then recovery_required attempt_id (some attempt.item.source) else do
        write (quarantine_intent_tx attempt_id target)
        moved ← attempt_to (do
          from ← physical_of attempt.item.source
          to ← physical_of target
          rename_no_replace from to attempt.item.fingerprint)
        after_quarantine attempt_id attempt target moved

  -- the handlers of `_execute_intent` and what follows its move. An attempt with an intent has an
  -- intended state.
  unfoldable pub after_rename :
      (Ident → Text) → Ident → Attempt → Text → Text → Result (Unit {0}) → Exec host Bool
  after_rename id_text attempt_id attempt source target (ok _) = do
    seen ← stat target
    if not (seen_as seen attempt.item.fingerprint) then recovery_required attempt_id none else do
      fresh ← require_attempt attempt_id
      state ← lift (present fresh.intended_state)
      finish attempt_id state fresh.intended_reason fresh.intent_target
      pure true
  after_rename id_text attempt_id attempt source target (err target_exists) = do
    finish attempt_id OutcomeState.requires_decision (some (occupied_reason attempt.intended_state))
        (some attempt.item.source)
    pure true
  after_rename id_text attempt_id attempt source target (err post_rename_changed) =
      recovery_required attempt_id none
  after_rename id_text attempt_id attempt source target (err source_changed) = do
    current ← stat source
    finish attempt_id OutcomeState.skipped
        (some (if is_some current then Reason.source_changed else Reason.source_missing))
        (if is_some current then some attempt.item.source else none)
    pure true
  after_rename id_text attempt_id attempt source target (err e) =
      quarantine_or_recover id_text attempt_id

  unfoldable pub execute_intent : (Ident → Text) → Ident → Exec host Bool
  execute_intent id_text attempt_id = do
    attempt ← require_attempt attempt_id
    if not (is_intent attempt.phase) then pure false else do
      source ← physical_of attempt.item.source
      wanted ← lift (present attempt.intent_target)
      target ← physical_of wanted
      outcome ← attempt_to (rename_no_replace source target attempt.item.fingerprint)
      after_rename id_text attempt_id attempt source target outcome

  -- `_recover` without an intent: nothing was moved, so an unchanged source is planned again.
  unfoldable pub recover_without_intent :
      (Ident → Exec host Bool) → Ident → Attempt → Exec host Bool
  recover_without_intent run_again attempt_id attempt =
      if not (is_recovery attempt.phase) then recovery_required attempt_id none else do
        unchanged ← attempt_to (do
          path ← physical_of attempt.item.source
          seen ← stat path
          pure (seen_as seen attempt.item.fingerprint))
        if is_ok_true unchanged
            then (do write (requeue_tx attempt_id); run_again attempt_id)
            else recovery_required attempt_id none

  -- `_recover` with an intent: what the disk shows decides.
  unfoldable pub recover_intent :
      (Ident → Text) → Bool → Ident → Attempt → Location → Exec host Bool
  recover_intent id_text allow_quarantine_retry attempt_id attempt target = do
    source_path ← physical_of attempt.item.source
    target_path ← physical_of target
    at_source ← stat source_path
    at_target ← stat target_path
    target_occupied ← exists target_path
    let source_present = seen_as at_source attempt.item.fingerprint
    let target_present = seen_as at_target attempt.item.fingerprint
    let may_retry = not (is_quarantined attempt.intended_state) || allow_quarantine_retry
    if not source_present && target_present
        then (do
          state ← lift (present attempt.intended_state)
          finish attempt_id state attempt.intended_reason (some target)
          pure true)
        else if source_present && not target_occupied && may_retry
        then (do write (retry_tx attempt_id); execute_intent id_text attempt_id)
        else recovery_required attempt_id
            (if source_present then some attempt.item.source else none)

  unfoldable pub recover_placed :
      (Ident → Text)
      → (Ident → Exec host Bool)
      → Bool
      → Ident
      → Attempt
      → Option Location
      → Exec host Bool
  recover_placed id_text run_again allow attempt_id attempt none =
      recover_without_intent run_again attempt_id attempt
  recover_placed id_text run_again allow attempt_id attempt (some target) =
      recover_intent id_text allow attempt_id attempt target

  unfoldable pub recover_attempt :
      (Ident → Text) → (Ident → Exec host Bool) → Bool → Ident → Option Attempt → Exec host Bool
  recover_attempt id_text run_again allow attempt_id none = pure false
  recover_attempt id_text run_again allow attempt_id (some attempt) =
      if not (is_intent attempt.phase || is_recovery attempt.phase)
      then pure false
      else recover_placed id_text run_again allow attempt_id attempt attempt.intent_target

  -- `_recover`
  unfoldable pub recover_with :
      (Ident → Text) → (Ident → Exec host Bool) → Bool → Ident → Exec host Bool
  recover_with id_text run_again allow attempt_id = do
    found ← get_attempt attempt_id
    recover_attempt id_text run_again allow attempt_id found

  -- `_run` once the source is known to be unchanged: the plan decides.
  unfoldable pub follow_plan : (Ident → Text) → Ident → Attempt → PredictedState → Exec host Bool
  follow_plan id_text attempt_id attempt PredictedState.requires_decision = do
    finish attempt_id OutcomeState.requires_decision attempt.plan.reason_code
        (some attempt.item.source)
    pure true
  follow_plan id_text attempt_id attempt PredictedState.will_move = do
    target ← lift (present attempt.plan.target)
    intent attempt_id target OutcomeState.sorted none
    execute_intent id_text attempt_id
  follow_plan id_text attempt_id attempt PredictedState.will_manual_review = do
    target ← read (λ db. manual_location db attempt)
    path ← physical_of target
    occupied ← exists path
    if occupied
        then (do
          finish attempt_id OutcomeState.requires_decision (some Reason.manual_review_name_occupied)
              (some attempt.item.source)
          pure true)
        else (do
          intent attempt_id target OutcomeState.manual_review attempt.plan.reason_code
          execute_intent id_text attempt_id)
  follow_plan id_text attempt_id attempt PredictedState.not_ready = do
    finish attempt_id OutcomeState.skipped (some Reason.source_changed) (some attempt.item.source)
    pure true

  -- `_run` with what `stat` said of the source
  unfoldable pub run_observed :
      (Ident → Text) → Ident → Attempt → Result (Option Fingerprint) → Exec host Bool
  run_observed id_text attempt_id attempt (err e) = recovery_required attempt_id none
  run_observed id_text attempt_id attempt (ok none) = do
    finish attempt_id OutcomeState.skipped (some Reason.source_missing) none
    pure true
  run_observed id_text attempt_id attempt (ok (some observed)) =
      if not (fingerprint_eq observed attempt.item.fingerprint)
      then (do
        finish attempt_id OutcomeState.skipped (some Reason.source_changed)
            (some attempt.item.source)
        pure true)
      else follow_plan id_text attempt_id attempt attempt.plan.predicted_state

  unfoldable pub run_queued : (Ident → Text) → Ident → Attempt → Exec host Bool
  unfolding run_observed
  run_queued id_text attempt_id attempt = do
    source ← physical_of attempt.item.source
    observed ← attempt_to (stat source)
    run_observed id_text attempt_id attempt observed

  unfoldable pub run_phase :
      (Ident → Text) → (Ident → Exec host Bool) → Ident → Attempt → Phase → Exec host Bool
  run_phase id_text recover_it attempt_id attempt Phase.done = pure false
  run_phase id_text recover_it attempt_id attempt Phase.intent = recover_it attempt_id
  run_phase id_text recover_it attempt_id attempt Phase.recovery_required = recover_it attempt_id
  run_phase id_text recover_it attempt_id attempt Phase.queued =
      run_queued id_text attempt_id attempt

  unfoldable pub run_attempt :
      (Ident → Text) → (Ident → Exec host Bool) → Ident → Option Attempt → Exec host Bool
  run_attempt id_text recover_it attempt_id none = pure false
  run_attempt id_text recover_it attempt_id (some attempt) =
      run_phase id_text recover_it attempt_id attempt attempt.phase

  -- `_run`, which `_recover` may call again: the first argument bounds how deep the calls go.
  unfoldable pub run_within : ℕ → (Ident → Text) → Ident → Exec host Bool
  run_within zero id_text attempt_id = raise recursion_error
  run_within (suc depth) id_text attempt_id = do
    found ← get_attempt attempt_id
    run_attempt id_text (recover_with id_text (run_within depth id_text) false) attempt_id found

  -- `_recover` calls `_run` only on an attempt that it has queued, so a depth of two is enough.
  unfoldable pub run : (Ident → Text) → Ident → Exec host Bool
  run id_text attempt_id = run_within 2 id_text attempt_id

  -- `recover`: one attempt, at an operator's word
  unfoldable pub recover : (Ident → Text) → Bool → Ident → Exec host Bool
  recover id_text held attempt_id = if not held then pure false else do
    _ ← recover_with id_text (run id_text) true attempt_id
    found ← get_attempt attempt_id
    pure (holds found (λ attempt. is_done attempt.phase))

  -- the end of a round of the loop of `run_once`: what raises is left for an operator to recover
  unfoldable pub settle : Ident → Result Bool → Exec host ℕ
  settle attempt_id (ok done) = pure (if done then 1 else 0)
  settle attempt_id (err e) = do _ ← recovery_required attempt_id none; pure 1

  -- one round of the loop of `run_once`
  unfoldable pub process : (Ident → Text) → Ident → Exec host ℕ
  unfolding settle
  process id_text attempt_id = do
    result ← attempt_to (run id_text attempt_id)
    settle attempt_id result

  unfoldable pub process_all : (Ident → Text) → List Ident → Exec host ℕ
  process_all id_text [] = pure 0
  process_all id_text (attempt_id ∷ attempts) = do
    here ← process id_text attempt_id
    rest ← process_all id_text attempts
    pure (here + rest)

  unfoldable pub run_once : (Ident → Text) → Bool → Exec host ℕ
  run_once id_text held = if not held then pure 0 else do
    attempts ← read (λ db. ok (keep (λ (a : Attempt). not (is_done a.phase)) (list db.attempt)))
    process_all id_text (map (λ (a : Attempt). a.attempt_id) attempts)
