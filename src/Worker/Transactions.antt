-- ===== src/Worker/Transactions.antt =====
-- The transactions of backend/wiseway/worker.py, each from the rows before it to the rows after. A
-- moment or a file's identity that a transaction asks for in its middle is an argument here.
use wise_way.Prelude.{
  ℕ, ◌+◌, Bool, true, false, not, ◌||◌, Option, none, some, List, [], ◌∷◌, ◌++◌, Text, Ident, ◌==◌,
  if◌then◌else◌, is_some,
}
use wise_way.Common.{Result, ok, ◌>>=◌, Location, Fingerprint}
use wise_way.Records.{
  ItemStatus, Reason, QueueItem, OutcomeState, Phase, Attempt, Root, IndexStorage, OutboxRow,
}
use wise_way.Audit.{
  Event, EventResult, event, append_event, no_links, file_attempt_started, file_attempt_finished,
  recovery_required, success, issue,
}
use wise_way.Storage.{get, require, put, delete}
use wise_way.Database.{Db}
use wise_way.Rules.Names.{slash}
use wise_way.Paths.{location}

abbrev pub is_queued : Phase → Bool
is_queued Phase.queued = true
is_queued _ = false

abbrev pub is_intent : Phase → Bool
is_intent Phase.intent = true
is_intent _ = false

abbrev pub is_recovery : Phase → Bool
is_recovery Phase.recovery_required = true
is_recovery _ = false

abbrev pub is_done : Phase → Bool
is_done Phase.done = true
is_done _ = false

-- `_start_attempt`: the first start is recorded, once
unfoldable pub start_attempt : Db → Attempt → ℕ → Option Location → Attempt × Db
start_attempt db attempt now target =
    if is_some attempt.outcome.started_at then (attempt, db) else (
      record attempt { outcome = record attempt.outcome { started_at = some now } },
      record db {
        audit = append_event db.audit (
            event (some attempt.actor) file_attempt_started attempt.request_id now success
              (record no_links {
                company_id = some attempt.company_id;
                batch_id = some attempt.batch_id;
                attempt_id = some attempt.attempt_id;
                item_id = some attempt.item.item_id;
                source = some attempt.item.source;
                target = target;
              }));
      },
    )

abbrev pub intended : Attempt → Location → OutcomeState → Option Reason → Attempt
intended attempt target state reason = record attempt {
  phase = Phase.intent;
  intent_target = some target;
  intended_state = some state;
  intended_reason = reason;
  outcome = record attempt.outcome { state = OutcomeState.processing; reason_code = none };
}

-- `tx.put("attempt", attempt_id, attempt)` after `_start_attempt`
abbrev pub put_started : Ident → Attempt × Db → Db
put_started attempt_id (started, db) = record db { attempt = put db.attempt attempt_id started }

-- the transaction of `_intent`
unfoldable pub intent_tx :
    Ident → Location → OutcomeState → Option Reason → ℕ → Db → Result (Unit {0} × Db)
unfolding start_attempt
intent_tx attempt_id target state reason now db = do
  attempt ← require db.attempt attempt_id
  if not (is_queued attempt.phase)
      then ok (tt, db)
      else ok (
        tt,
        put_started attempt_id
            (start_attempt db (intended attempt target state reason) now (some target)),
      )

-- `_put_quarantine`; the key `quarantine-<attempt_id>` is the attempt's identifier
unfoldable pub put_quarantine : Db → Attempt → Location → ℕ → Db
put_quarantine db attempt target now =
    if is_some (get db.quarantine attempt.attempt_id) then db else record db {
      quarantine = put db.quarantine attempt.attempt_id (record {
        quarantine_id = attempt.attempt_id;
        revision = 1;
        item_id = attempt.item.item_id;
        company_id = attempt.company_id;
        filename = attempt.item.filename;
        location = target;
        original_location = attempt.item.source;
        quarantined_at = now;
        source_attempt_id = attempt.attempt_id;
        recovery_operation_id = none;
        can_return = true;
        fingerprint = some attempt.item.fingerprint;
        returned = false;
      });
    }

abbrev pub has_event_key : Ident → List OutboxRow → Bool
has_event_key k [] = false
has_event_key k (row ∷ rows) = row.event_key == k || has_event_key k rows

abbrev pub in_opensearch : Option Root → Bool
in_opensearch none = false
in_opensearch (some root) = elim root.index_storage [ IndexStorage.opensearch ↦ true | _ ↦ false ]

-- `enqueue_move` of backend/wiseway/search_outbox.py: one row for each event key
unfoldable pub enqueue_move : Db → Ident → Ident → Location → Fingerprint → Db
enqueue_move db event_key item_id place fingerprint =
    if not (in_opensearch (get db.root place.root_id)) || has_event_key event_key db.outbox
    then db
    else record db {
      outbox =
          db.outbox
          ++ (record {
            event_key = event_key;
            root_id = place.root_id;
            item_id = item_id;
            relative_path = place.relative_path;
            size_bytes = fingerprint.size;
            modified_at = fingerprint.mtime_ns;
          })
            ∷ [];
    }

-- What `_finish` makes of the queue item. `current` is the identity that the source has now, asked
-- for a changed source only.
unfoldable pub finish_item :
    QueueItem → OutcomeState → Option Reason → Option Fingerprint → ℕ → QueueItem
finish_item item OutcomeState.requires_decision reason current now = record item {
  status = ItemStatus.requires_decision;
  selectable = true;
  active_attempt_id = none;
  reason_code = reason;
}
finish_item item OutcomeState.skipped (some Reason.source_missing) current now = record item {
  status = ItemStatus.missing;
  selectable = false;
  active_attempt_id = none;
  reason_code = some Reason.source_missing;
}
finish_item item OutcomeState.skipped (some Reason.source_changed) none now = record item {
  status = ItemStatus.missing;
  selectable = false;
  active_attempt_id = none;
  reason_code = some Reason.source_missing;
}
finish_item item OutcomeState.skipped (some Reason.source_changed) (some seen) now = record item {
  item_revision = item.item_revision + 1;
  status = ItemStatus.waiting_ready;
  selectable = false;
  active_attempt_id = none;
  reason_code = some Reason.source_changed;
  fingerprint = seen;
  size_bytes = seen.size;
  modified_at = seen.mtime_ns;
  observed_at = now;
}
finish_item item state reason current now = record item {
  status = ItemStatus.missing;
  selectable = false;
  active_attempt_id = none;
  reason_code = reason;
  departed = true;
}

-- `if state == "QUARANTINED"`: the card of the file in quarantine. Each caller that ends in this
-- state names the place.
abbrev pub finish_quarantine : OutcomeState → Db → Attempt → Option Location → ℕ → Db
finish_quarantine OutcomeState.quarantined db attempt (some actual) now =
    put_quarantine db attempt actual now
finish_quarantine state db attempt actual now = db

-- `if state == "SORTED" and actual is not None`: the move is announced to the search index
abbrev pub finish_outbox : OutcomeState → Db → Ident → Ident → Attempt → Option Location → Db
finish_outbox OutcomeState.sorted db attempt_id item_id attempt (some actual) =
    enqueue_move db attempt_id item_id actual attempt.item.fingerprint
finish_outbox state db attempt_id item_id attempt actual = db

abbrev pub finish_result : OutcomeState → EventResult
finish_result OutcomeState.sorted = success
finish_result _ = issue

abbrev pub finished_event :
    Ident → Ident → Attempt → ℕ → OutcomeState → Option Reason → Option Location → Event
finished_event attempt_id item_id attempt now state reason actual =
    event (some attempt.actor) file_attempt_finished attempt.request_id now (finish_result state)
      (record no_links {
        company_id = some attempt.company_id;
        batch_id = some attempt.batch_id;
        attempt_id = some attempt_id;
        item_id = some item_id;
        source = some attempt.item.source;
        target = actual;
        reason_code = reason;
      })

abbrev pub finished_attempt : Attempt → ℕ → OutcomeState → Option Reason → Option Location → Attempt
finished_attempt attempt now state reason actual = record attempt {
  phase = Phase.done;
  outcome = record attempt.outcome {
    state = state;
    reason_code = reason;
    actual_location = actual;
    finished_at = some now;
  };
}

-- the rows that `_finish` writes, for a started attempt and its queue item
unfoldable pub finish_rows :
    Ident
    → OutcomeState
    → Option Reason
    → Option Location
    → ℕ
    → Option Fingerprint
    → Attempt
    → QueueItem
    → Db
    → Db
unfolding finish_item put_quarantine enqueue_move
finish_rows attempt_id state reason actual now current started item db =
    let finished = finished_attempt started now state reason actual in
    let item' = finish_item item state reason current now in
    let db2 = record db {
      attempt = put db.attempt attempt_id finished;
      queue = put db.queue item'.item_id item';
      claim = delete db.claim item'.item_id;
    } in
    let db3 =
      finish_outbox state (finish_quarantine state db2 finished actual now) attempt_id item'.item_id
        finished actual in
    record db3 {
      audit =
          append_event db3.audit
            (finished_event attempt_id item'.item_id finished now state reason actual);
    }

unfoldable pub finish_open :
    Ident
    → OutcomeState
    → Option Reason
    → Option Location
    → ℕ
    → Option Fingerprint
    → Attempt × Db
    → Result (Unit {0} × Db)
unfolding finish_rows
finish_open attempt_id state reason actual now current (started, db) = do
  item ← require db.queue started.item.item_id
  ok (tt, finish_rows attempt_id state reason actual now current started item db)

-- the transaction of `_finish`
unfoldable pub finish_tx :
    Ident
    → OutcomeState
    → Option Reason
    → Option Location
    → ℕ
    → Option Fingerprint
    → Db
    → Result (Unit {0} × Db)
unfolding start_attempt finish_open
finish_tx attempt_id state reason actual now current db = do
  attempt ← require db.attempt attempt_id
  if is_done attempt.phase
      then ok (tt, db)
      else finish_open attempt_id state reason actual now current
          (start_attempt db attempt now attempt.intent_target)

abbrev pub stopped_attempt : Attempt → Option Location → Attempt
stopped_attempt started actual = record started {
  phase = Phase.recovery_required;
  outcome = record started.outcome {
    state = OutcomeState.recovery_required;
    reason_code = some Reason.recovery_required;
    actual_location = actual;
    finished_at = none;
  };
}

abbrev pub stopped_item : QueueItem → QueueItem
stopped_item item = record item {
  status = ItemStatus.recovery_required;
  selectable = false;
  reason_code = some Reason.recovery_required;
}

-- the rows that `_recovery_required` writes, for a started attempt and its queue item
unfoldable pub recovery_rows : Ident → Option Location → ℕ → Attempt → QueueItem → Db → Db
recovery_rows attempt_id actual now started item db = record db {
  attempt = put db.attempt attempt_id (stopped_attempt started actual);
  queue = put db.queue (stopped_item item).item_id (stopped_item item);
  audit = append_event db.audit (
      event (some started.actor) recovery_required started.request_id now issue (record no_links {
        operation_id = some attempt_id;
        source_attempt_id = some attempt_id;
        company_id = some started.company_id;
        batch_id = some started.batch_id;
        attempt_id = some attempt_id;
        item_id = some (stopped_item item).item_id;
        source = some started.item.source;
        target = started.intent_target;
        reason_code = some Reason.recovery_required;
      }));
}

unfoldable pub recovery_open : Ident → Option Location → ℕ → Attempt × Db → Result (Bool × Db)
unfolding recovery_rows
recovery_open attempt_id actual now (started, db) = do
  item ← require db.queue started.item.item_id
  ok (true, recovery_rows attempt_id actual now started item db)

-- the transaction of `_recovery_required`: whether the attempt is left to an operator
unfoldable pub recovery_tx : Ident → Option Location → ℕ → Db → Result (Bool × Db)
unfolding start_attempt recovery_open
recovery_tx attempt_id actual now db = do
  attempt ← require db.attempt attempt_id
  if is_done attempt.phase
      then ok (false, db)
      else if is_recovery attempt.phase
      then ok (true, db)
      else recovery_open attempt_id actual now (start_attempt db attempt now attempt.intent_target)

-- the transaction of `_recover` that accepts the plan of an attempt which never had an intent again
unfoldable pub requeue_tx : Ident → Db → Result (Unit {0} × Db)
requeue_tx attempt_id db = do
  saved ← require db.attempt attempt_id
  ok (
    tt,
    record db {
      attempt = put db.attempt attempt_id (record saved {
        phase = Phase.queued;
        outcome = record saved.outcome {
          state = OutcomeState.pending;
          reason_code = none;
          actual_location = none;
          finished_at = none;
        };
      });
    },
  )

-- the transaction of `_recover` that takes the intent up again
unfoldable pub retry_tx : Ident → Db → Result (Unit {0} × Db)
retry_tx attempt_id db = do
  saved ← require db.attempt attempt_id
  ok (tt, record db { attempt = put db.attempt attempt_id (record saved { phase = Phase.intent }) })

-- the transaction of `_quarantine_or_recover` that makes the quarantine the intent
unfoldable pub quarantine_intent_tx : Ident → Location → Db → Result (Unit {0} × Db)
quarantine_intent_tx attempt_id target db = do
  saved ← require db.attempt attempt_id
  ok (
    tt,
    record db {
      attempt = put db.attempt attempt_id (record saved {
        intent_target = some target;
        intended_state = some OutcomeState.quarantined;
        intended_reason = some Reason.technical_error;
      });
    },
  )

-- the identifiers of the roots `manual-root` and `quarantine-root`
abbrev pub manual_root : Ident
manual_root = 0

abbrev pub quarantine_root : Ident
quarantine_root = 1

-- `_manual_target`
unfoldable pub manual_location : Db → Attempt → Result Location
manual_location db attempt = do
  company ← require db.company attempt.company_id
  location db manual_root (company.folder ++ slash ∷ attempt.item.filename)

-- `_quarantine_target`, with the text of the attempt's identifier
unfoldable pub quarantine_location : Text → Db → Attempt → Result Location
quarantine_location id_text db attempt = do
  company ← require db.company attempt.company_id
  location db quarantine_root (company.folder ++ slash ∷ (id_text ++ b'_' ∷ attempt.item.filename))
