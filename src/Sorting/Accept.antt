-- ===== src/Sorting/Accept.antt =====
-- `accept` of backend/wiseway/sorting.py: a selection becomes a batch of attempts.
use wise_way.Prelude.{
  ℕ, Bool, true, false, not, ◌||◌, Option, none, some, List, ◌∷◌, Text, Ident, ◌==◌, if◌then◌else◌,
  leb, length, is_some,
}
use wise_way.Common.{
  Actor, Result, ok, err, ◌>>=◌, ◌>>◌, raise_if, api, forbidden, selection_changed,
  selection_expired, stale_preview, invalid_state,
}
use wise_way.Records.{
  ItemStatus, Reason, QueueItem, Selection, Row, OutcomeState, Phase, Attempt, RuleSet,
}
use wise_way.Storage.{get, require, put, insert}
use wise_way.Database.{Db}
use wise_way.Host.{Host}
use wise_way.Audit.{
  event, append_event, no_links, success, issue, batch_accepted, file_attempt_started,
  file_attempt_finished,
}
use wise_way.Dictionaries.{rule_set, flattened_rules}
use wise_way.Dictionaries.Drafts.{rule_set_eq}
use wise_way.Services.{context_plan, batch_view, BatchView}
use wise_way.Sorting.{get_selection, check_selection}

-- a preview makes a changed selection stale
abbrev pub stale_if_previewed : Bool → Result (Unit {0}) → Result (Unit {0})
stale_if_previewed true (err (api selection_changed)) = err (api stale_preview)
stale_if_previewed true (err (api selection_expired)) = err (api stale_preview)
stale_if_previewed previewed checked = checked

-- the rows of the batch: those of the preview, where there is one and it is fresh
unfoldable pub accepted_rows :
    (List Row → Ident)
    → Db
    → Actor
    → ℕ
    → Selection
    → RuleSet
    → List Row
    → Option Ident
    → Result (List Row)
accepted_rows digest db actor now selection current rows none = ok rows
accepted_rows digest db actor now selection current rows (some preview_id) = do
  preview ← require db.preview preview_id
  raise_if (not (preview.owner == actor.user_id)) forbidden
  raise_if
      (not (preview.selection_id == selection.selection_id)
        || leb preview.expires_at now
        || not (rule_set_eq preview.rule_set current)
        || not (digest preview.rows == digest rows))
      stale_preview
  ok preview.rows

-- what the attempts of one batch have in common
pub record Accepting : Type 0 where
  pub batch_id : Ident
  pub company_id : Ident
  pub actor : Actor
  pub request_id : Ident
  pub now : ℕ

abbrev pub attempt_of : Accepting → Ident → QueueItem → Row → Bool → Attempt
attempt_of b attempt_id saved row occupied = record {
  attempt_id = attempt_id;
  batch_id = b.batch_id;
  company_id = b.company_id;
  actor = b.actor;
  request_id = b.request_id;
  item = saved;
  plan = row;
  outcome = record {
    attempt_id = attempt_id;
    item_id = saved.item_id;
    item_revision = saved.item_revision;
    state = if occupied then OutcomeState.skipped else OutcomeState.pending;
    reason_code = if occupied then some Reason.already_processing else none;
    source = saved.source;
    planned_target = row.target;
    actual_location = none;
    matched_rule = row.selected_rule;
    started_at = none;
    finished_at = if occupied then some b.now else none;
  };
  phase = if occupied then Phase.done else Phase.queued;
  intent_target = none;
  intended_state = none;
  intended_reason = none;
}

-- the two events of a file that another batch holds
unfoldable pub occupied_rows : Accepting → Ident → QueueItem → Db → Db
occupied_rows b attempt_id saved db =
    let links = record no_links {
      company_id = some b.company_id;
      batch_id = some b.batch_id;
      attempt_id = some attempt_id;
      item_id = some saved.item_id;
      source = some saved.source;
    } in
    record db {
      audit =
          append_event
            (append_event db.audit
              (event (some b.actor) file_attempt_started b.request_id b.now success links))
            (event (some b.actor) file_attempt_finished b.request_id b.now issue
              (record links { reason_code = some Reason.already_processing }));
    }

abbrev pub processing_item : QueueItem → Ident → QueueItem
processing_item item attempt_id = record item {
  status = ItemStatus.processing;
  selectable = false;
  active_attempt_id = some attempt_id;
  reason_code = none;
}

-- the claim of a file that is free
unfoldable pub claim_tx : Accepting → Ident → QueueItem → Db → Result Db
claim_tx b attempt_id saved db = do
  claims ← insert db.claim saved.item_id (record { attempt_id = attempt_id; batch_id = b.batch_id })
  item ← require db.queue saved.item_id
  ok (record db {
    claim = claims;
    queue = put db.queue item.item_id (processing_item item attempt_id);
  })

-- one round of the loop of `accept`
unfoldable pub accept_one : Accepting → Ident → QueueItem → Row → Db → Result Db
unfolding occupied_rows claim_tx
accept_one b attempt_id saved row db = do
  let occupied = is_some (get db.claim saved.item_id)
  attempts ← insert db.attempt attempt_id (attempt_of b attempt_id saved row occupied)
  let db' = record db { attempt = attempts }
  if occupied then ok (occupied_rows b attempt_id saved db') else claim_tx b attempt_id saved db'

-- the loop, over the files and their rows as far as both go; there is a fresh identifier for each
unfoldable pub accept_all : Accepting → List Ident → List QueueItem → List Row → Db → Result Db
unfolding accept_one
accept_all b (attempt_id ∷ fresh) (saved ∷ items) (row ∷ rows) db = do
  db' ← accept_one b attempt_id saved row db
  accept_all b fresh items rows db'
accept_all b fresh items rows db = ok db

-- the batch itself, with its event
unfoldable pub open_batch :
    Accepting → Selection → Option Ident → RuleSet → List Row → Db → Result Db
open_batch b selection preview_id current rows db = do
  batches ← insert db.batch b.batch_id (record {
    batch_id = b.batch_id;
    company_id = b.company_id;
    actor = b.actor;
    selection_id = selection.selection_id;
    preview_id = preview_id;
    rule_set = current;
    created_at = b.now;
    selected_count = length rows;
  })
  ok (record db {
    batch = batches;
    audit = append_event db.audit (
        event (some b.actor) batch_accepted b.request_id b.now success (record no_links {
          company_id = some b.company_id;
          batch_id = some b.batch_id;
          rule_set = some current;
        }));
  })

-- `accept`; `checked` and `compared` are the moments of the tests on the selection and the preview
unfoldable pub accept :
    (Text → Text)
    → (List Row → Ident)
    → (host : Host) → host.World
    → ℕ
    → ℕ
    → ℕ
    → Ident
    → List Ident
    → Actor
    → Ident
    → Ident
    → Option Ident
    → Db
    → Result (BatchView × Db)
unfolding get_selection check_selection context_plan flattened_rules rule_set accepted_rows
    open_batch accept_all
accept casefold digest host w checked compared now batch_id fresh actor request_id selection_id
      preview_id db =
    do
      selection ← get_selection db actor selection_id
      stale_if_previewed (is_some preview_id) (check_selection host w checked db selection)
      raise_if (is_some selection.batch_id) invalid_state
      let current = rule_set db selection.company_id
      rules ← flattened_rules db selection.company_id none
      planned ← context_plan casefold host w db selection.items rules selection.company_id
      rows ← accepted_rows digest db actor compared selection current planned preview_id
      let b : Accepting = record {
        batch_id = batch_id;
        company_id = selection.company_id;
        actor = actor;
        request_id = request_id;
        now = now;
      }
      db1 ← open_batch b selection preview_id current rows db
      db2 ← accept_all b fresh selection.items rows db1
      let db3 = record db2 {
        selection =
            put db2.selection selection.selection_id
              (record selection { batch_id = some batch_id });
      }
      view ← batch_view db3 batch_id
      ok (view, db3)
