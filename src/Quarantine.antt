-- ===== src/Quarantine.antt =====
-- `QuarantineService` of backend/wiseway/quarantine.py: the return of a file from quarantine to the
-- place it came from. The lock of the worker is held throughout, so nothing else writes between the
-- steps of a transaction that asks the disk. `digest` and `uid` are parameters: their values are
-- arguments, `key` for the digest of the user, the card and the client's key, `hash` for that of the
-- body, `fresh` for the new operation's identifier.
pub mod Transactions
pub mod Moves
mod Examples
use wise_way.Prelude.{
  Bool, true, false, not, ◌&&◌, Option, none, some, List, [], ◌∷◌, Text, Ident, ◌==◌, if◌then◌else◌,
  keep,
}
use wise_way.Common.{
  Error, Result, ok, err, raise_if, or_raise, api, target_exists, Actor, Fingerprint, invalid_state,
  recovery_required, original_path_occupied, idempotency_key_reused, integrity, type_error,
  recursion_error, invalid_path, not_regular_file, source_changed, post_rename_changed,
  unsupported_filesystem, os_error,
}
use wise_way.Records.{QueueItem, QuarantineItem, ReturnPhase, ReturnBody, Return, ReturnKey}
use wise_way.Storage.{get, require, list}
use wise_way.Host.{Host}
use wise_way.Exec.{
  Exec, pure, raise, lift, ◌>>=◌, ◌>>◌, attempt_to, read, write, now, stat, exists,
  rename_no_replace,
}
use wise_way.Worker.{physical_of, present, fingerprint_eq}
use wise_way.Quarantine.Transactions.{
  returnable, is_other, opened, open_tx, reject_tx, recovery_tx, is_recovery, is_done, finish_tx,
}

-- `source is None and target == operation["fingerprint"]`, of what could be observed
abbrev pub arrived : Fingerprint → Result (Option Fingerprint × Option Fingerprint) → Bool
arrived expected (ok (none, some seen)) = fingerprint_eq seen expected
arrived expected _ = false

-- `o["phase"] in ("INTENT", "RECOVERY_REQUIRED")`
abbrev pub is_open : Return → Bool
is_open operation = elim operation.phase [
  | ReturnPhase.intent ↦ true
  | ReturnPhase.recovery_required ↦ true
  | _ ↦ false
]

module _ {host : Host} where
  -- `_finish`
  unfoldable pub finish : Return → Exec host QueueItem
  finish operation = do
    saved ← read (λ db. require db.returns operation.operation_id)
    if is_done saved.phase
        then lift (present saved.result)
        else do observed ← now; t ← now; write (finish_tx saved observed t)

  -- the second transaction of `_resolve`
  unfoldable pub leave_to_operator : Return → Exec host (Unit {0})
  leave_to_operator operation = do
    saved ← read (λ db. require db.returns operation.operation_id)
    if is_recovery saved.phase then pure tt else do t ← now; write (recovery_tx saved t)

  -- where the two places are seen to be
  unfoldable pub observe : Return → Exec host (Option Fingerprint × Option Fingerprint)
  observe operation = do
    source ← physical_of operation.source
    at_source ← stat source
    target ← physical_of operation.target
    at_target ← stat target
    pure (at_source, at_target)

  unfoldable pub resolve_open : Return → Exec host QueueItem
  resolve_open operation = do
    seen ← attempt_to (observe operation)
    if arrived operation.fingerprint seen
        then finish operation
        else do leave_to_operator operation; raise (api recovery_required)

  -- `_resolve`
  unfoldable pub resolve_phase : Return → ReturnPhase → Exec host QueueItem
  resolve_phase operation ReturnPhase.done = lift (present operation.result)
  resolve_phase operation ReturnPhase.rejected = raise (api original_path_occupied)
  resolve_phase operation ReturnPhase.intent = resolve_open operation
  resolve_phase operation ReturnPhase.recovery_required = resolve_open operation

  unfoldable pub resolve : Return → Exec host QueueItem
  resolve operation = resolve_phase operation operation.phase

  -- the transaction of `return_item` for a key that is not known yet
  unfoldable pub open_return :
      Ident → Ident → Ident → Actor → Ident → ReturnBody → Ident → Exec host Return
  open_return key hash fresh actor quarantine_id body request_id = do
    q ← read (λ db. require db.quarantine quarantine_id)
    lift (returnable q body)
    original ← physical_of q.original_location
    occupied ← exists original
    lift (raise_if occupied original_path_occupied)
    source ← physical_of q.location
    seen ← stat source
    expected ← lift (or_raise seen invalid_state)
    lift (raise_if (is_other q.fingerprint expected) invalid_state)
    write (open_tx key hash q (opened fresh actor request_id body expected q))

  -- what follows the move: only a taken place is known to have moved nothing
  unfoldable pub after_move : Return → Result (Unit {0}) → Exec host QueueItem
  after_move operation (err target_exists) = do
    write (reject_tx operation)
    raise (api original_path_occupied)
  after_move operation _ = resolve operation

  unfoldable pub move : Return → Exec host (Unit {0})
  move operation = do
    source ← physical_of operation.source
    target ← physical_of operation.target
    rename_no_replace source target operation.fingerprint

  -- `return_item` with what is saved under the client's key
  unfoldable pub return_saved :
      Ident
      → Ident
      → Ident
      → Actor
      → Ident
      → ReturnBody
      → Ident
      → Option ReturnKey
      → Exec host QueueItem
  return_saved key hash fresh actor quarantine_id body request_id none = do
    operation ← open_return key hash fresh actor quarantine_id body request_id
    moved ← attempt_to (move operation)
    after_move operation moved
  return_saved key hash fresh actor quarantine_id body request_id (some saved) = do
    lift (raise_if (not (saved.hash == hash)) idempotency_key_reused)
    operation ← read (λ db. require db.returns saved.operation_id)
    resolve operation

  unfoldable pub return_item :
      Ident → Ident → Ident → Actor → Ident → ReturnBody → Ident → Exec host QueueItem
  return_item key hash fresh actor quarantine_id body request_id = do
    saved ← read (λ db. ok (get db.return_key key))
    return_saved key hash fresh actor quarantine_id body request_id saved

  -- `except ApiError: pass`
  abbrev pub forget_api : Result QueueItem → Exec host (Unit {0})
  forget_api (ok item) = pure tt
  forget_api (err (api code)) = pure tt
  forget_api (err e) = raise e

  unfoldable pub reconcile_all : List Return → Exec host (Unit {0})
  reconcile_all [] = pure tt
  reconcile_all (operation ∷ operations) = do
    result ← attempt_to (resolve operation)
    forget_api result
    reconcile_all operations

  unfoldable pub reconcile : Exec host (Unit {0})
  reconcile = do
    operations ← read (λ db. ok (keep is_open (list db.returns)))
    reconcile_all operations

  -- whether the card is offered for return: the original place is looked at only if it may be
  unfoldable pub offered : QuarantineItem → Exec host QuarantineItem
  offered q = if not q.can_return then pure q else do
    original ← physical_of q.original_location
    occupied ← exists original
    pure (record q { can_return = not occupied })

  unfoldable pub offered_all : List QuarantineItem → Exec host (List QuarantineItem)
  offered_all [] = pure []
  offered_all (q ∷ cards) = do shown ← offered q; rest ← offered_all cards; pure (shown ∷ rest)
