-- ===== src/Quarantine/Transactions.antt =====
-- The transactions of `QuarantineService` (backend/wiseway/quarantine.py), each from the rows before
-- it to the rows after. What a transaction asks of the disk or of the clock in its middle is an
-- argument.
use wise_way.Prelude.{
  ℕ, ◌+◌, Bool, true, false, not, ◌||◌, Option, none, some, Ident, ◌==◌, is_some,
}
use wise_way.Common.{
  Result, ok, ◌>>=◌, ◌>>◌, raise_if, Actor, Fingerprint, invalid_state, quarantine_version_conflict,
  validation_error,
}
use wise_way.Common.Texts.{strip, is_empty}
use wise_way.Records.{
  ItemStatus, Reason, QueueItem, QuarantineItem, ReturnPhase, ReturnBody, Return,
}
use wise_way.Storage.{require, put, insert}
use wise_way.Database.{Db}
use wise_way.Audit.{Action, event, append_event, no_links, quarantine_returned, success, issue}
use wise_way.Rules.Names.{basename}
use wise_way.Worker.{fingerprint_eq}

-- the tests of a card and a request before the disk is asked
unfoldable pub returnable : QuarantineItem → ReturnBody → Result (Unit {0})
unfolding strip
returnable q body = do
  raise_if (q.returned || is_some q.recovery_operation_id || not q.can_return) invalid_state
  raise_if (not (q.revision == body.expected_revision)) quarantine_version_conflict
  raise_if (is_empty (strip body.comment)) validation_error

-- `q.get("_fingerprint") and q["_fingerprint"] != expected`
abbrev pub is_other : Option Fingerprint → Fingerprint → Bool
is_other none expected = false
is_other (some saved) expected = not (fingerprint_eq saved expected)

-- the operation that a request opens
abbrev pub opened : Ident → Actor → Ident → ReturnBody → Fingerprint → QuarantineItem → Return
opened operation_id actor request_id body expected q = record {
  operation_id = operation_id;
  quarantine_id = q.quarantine_id;
  actor = actor;
  request_id = request_id;
  body = body;
  phase = ReturnPhase.intent;
  fingerprint = expected;
  source = q.location;
  target = q.original_location;
  result = none;
}

abbrev pub claimed : QuarantineItem → Ident → QuarantineItem
claimed q operation_id = record q { can_return = false; recovery_operation_id = some operation_id }

-- the rows that the opening of a return writes
unfoldable pub open_tx : Ident → Ident → QuarantineItem → Return → Db → Result (Return × Db)
open_tx key hash q operation db = do
  operations ← insert db.returns operation.operation_id operation
  keys ← insert db.return_key key (record { hash = hash; operation_id = operation.operation_id })
  ok (
    operation,
    record db {
      returns = operations;
      return_key = keys;
      quarantine = put db.quarantine q.quarantine_id (claimed q operation.operation_id);
    },
  )

-- the transaction that gives the card back where the original place is taken
unfoldable pub reject_tx : Return → Db → Result (Unit {0} × Db)
reject_tx operation db = do
  q ← require db.quarantine operation.quarantine_id
  ok (
    tt,
    record db {
      quarantine =
          put db.quarantine q.quarantine_id
            (record q { can_return = true; recovery_operation_id = none });
      returns =
          put db.returns operation.operation_id (record operation { phase = ReturnPhase.rejected });
    },
  )

-- the rows that `_resolve` writes where it cannot tell where the file is
unfoldable pub recovery_rows : Return → QuarantineItem → ℕ → Db → Db
recovery_rows saved q t db = record db {
  returns =
      put db.returns saved.operation_id (record saved { phase = ReturnPhase.recovery_required });
  quarantine = put db.quarantine q.quarantine_id (record q { revision = q.revision + 1 });
  audit = append_event db.audit (
      event (some saved.actor) Action.recovery_required saved.request_id t issue (record no_links {
        operation_id = some saved.operation_id;
        source_attempt_id = some q.source_attempt_id;
        company_id = some q.company_id;
        item_id = some q.item_id;
        source = some saved.source;
        target = some saved.target;
        reason_code = some Reason.recovery_required;
        comment = some saved.body.comment;
      }));
}

unfoldable pub recovery_tx : Return → ℕ → Db → Result (Unit {0} × Db)
unfolding recovery_rows
recovery_tx saved t db = do
  q ← require db.quarantine saved.quarantine_id
  ok (tt, recovery_rows saved q t db)

abbrev pub is_recovery : ReturnPhase → Bool
is_recovery ReturnPhase.recovery_required = true
is_recovery _ = false

abbrev pub is_done : ReturnPhase → Bool
is_done ReturnPhase.done = true
is_done _ = false

-- the queue item of a file that is back
unfoldable pub returned_item : Return → QuarantineItem → QueueItem → ℕ → QueueItem
returned_item saved q item observed = record item {
  item_revision = item.item_revision + 1;
  status = ItemStatus.waiting_ready;
  selectable = false;
  reason_code = none;
  active_attempt_id = none;
  source = q.original_location;
  filename = basename q.original_location.relative_path;
  fingerprint = saved.fingerprint;
  departed = false;
  observed_at = observed;
}

-- the rows that `_finish` writes
unfoldable pub finish_rows : Return → QuarantineItem → QueueItem → ℕ → Db → Db
finish_rows saved q item t db = record db {
  queue = put db.queue item.item_id item;
  quarantine = put db.quarantine q.quarantine_id (record q {
    revision = q.revision + 1;
    can_return = false;
    recovery_operation_id = none;
    returned = true;
  });
  returns =
      put db.returns saved.operation_id
        (record saved { phase = ReturnPhase.done; result = some item });
  audit = append_event db.audit (
      event (some saved.actor) quarantine_returned saved.request_id t success (record no_links {
        operation_id = some saved.operation_id;
        source_attempt_id = some q.source_attempt_id;
        company_id = some q.company_id;
        item_id = some q.item_id;
        source = some saved.source;
        target = some saved.target;
        comment = some saved.body.comment;
      }));
}

unfoldable pub finish_tx : Return → ℕ → ℕ → Db → Result (QueueItem × Db)
unfolding returned_item finish_rows
finish_tx saved observed t db = do
  q ← require db.quarantine saved.quarantine_id
  item ← require db.queue q.item_id
  let item' = returned_item saved q item observed
  ok (item', finish_rows saved q item' t db)
