-- ===== src/Sorting.antt =====
-- `SortingService` of backend/wiseway/sorting.py: selections, previews and the acceptance of a batch.
-- Fresh identifiers and moments are arguments, a list of identifiers for the attempts of a batch.
-- `str.casefold` and the digest of a plan's rows are parameters. While one transaction runs, the
-- disk's answers come from one state of the surroundings.
pub mod Accept
pub mod Claims
mod Examples
use wise_way.Prelude.{
  ℕ, ◌+◌, ◌≡◌, Bool, true, false, not, ◌&&◌, ◌||◌, Option, none, some, List, [], ◌∷◌, Text, Ident,
  ◌==◌, if◌then◌else◌, ltb, leb, keep, length, is_some, text_eq, min, holds,
}
use wise_way.Common.{
  Actor, Result, ok, err, ◌>>=◌, ◌>>◌, raise_if, or_raise, validation_error, forbidden,
  selection_changed, selection_expired, empty_selection, batch_limit_exceeded, Fingerprint,
}
use wise_way.Common.Texts.{is_empty, is_prefix, text_lt}
use wise_way.Records.{ItemStatus, QueueItem, Selection, Preview, Row}
use wise_way.Storage.{get, require, put, list}
use wise_way.Database.{Db}
use wise_way.Host.{Host}
use wise_way.Paths.{physical}
use wise_way.Worker.{seen_as}
use wise_way.Dictionaries.{rule_set, flattened_rules, has_id}
use wise_way.Services.{context_plan}

-- the order of the statuses in `QUEUE_STATES`
abbrev pub status_index : ItemStatus → ℕ
status_index ItemStatus.discovered = 0
status_index ItemStatus.waiting_ready = 1
status_index ItemStatus.ready = 2
status_index ItemStatus.processing = 3
status_index ItemStatus.requires_decision = 4
status_index ItemStatus.recovery_required = 5
status_index ItemStatus.missing = 6

abbrev pub status_eq : ItemStatus → ItemStatus → Bool
status_eq a b = status_index a == status_index b

abbrev pub has_status : ItemStatus → List ItemStatus → Bool
has_status status [] = false
has_status status (s ∷ statuses) = status_eq s status || has_status status statuses

-- `filters["statuses"] or [s for s in QUEUE_STATES if s != "MISSING"]`
abbrev pub wanted : List ItemStatus → ItemStatus → Bool
wanted [] status = not (status_eq status ItemStatus.missing)
wanted (s ∷ statuses) status = has_status status (s ∷ statuses)

-- `part in text`
abbrev pub within : Text → Text → Bool
within part [] = is_empty part
within part (d ∷ text) = is_prefix part (d ∷ text) || within part text

-- the order of the keys (folded path, path, identifier)
abbrev pub item_before : (Text → Text) → QueueItem → QueueItem → Bool
item_before casefold a b =
    let p = a.source.display_path in
    let q = b.source.display_path in
    text_lt (casefold p) (casefold q)
    || (text_eq (casefold p) (casefold q)
        && (text_lt p q || (text_eq p q && ltb a.item_id b.item_id)))

-- insertion in front of the items that are not smaller, which keeps equal items in their order
unfoldable pub insert_item : (Text → Text) → QueueItem → List QueueItem → List QueueItem
insert_item casefold item [] = item ∷ []
insert_item casefold item (first ∷ items) =
    let rest = insert_item casefold item items in
    if item_before casefold first item then first ∷ rest else item ∷ first ∷ items

unfoldable pub sort_items : (Text → Text) → List QueueItem → List QueueItem
unfolding insert_item
sort_items casefold [] = []
sort_items casefold (item ∷ items) = insert_item casefold item (sort_items casefold items)

-- the items that a query keeps
unfoldable pub kept_by : (Text → Text) → List ItemStatus → Text → QueueItem → Bool
kept_by casefold statuses text q =
    wanted statuses q.status
    && (is_empty text
        || within text (casefold q.filename)
        || within text (casefold q.source.display_path))

-- `queue_items_from_snapshot`
unfoldable pub queue_items_from_snapshot :
    (Text → Text) → List ItemStatus → Text → List QueueItem → List QueueItem
unfolding kept_by sort_items
queue_items_from_snapshot casefold statuses query_text items =
    sort_items casefold (keep (kept_by casefold statuses (casefold query_text)) items)

-- `queue_snapshot`
unfoldable pub queue_snapshot : Db → Ident → List QueueItem
queue_snapshot db company_id =
    keep (λ (q : QueueItem). q.company_id == company_id && not q.departed) (list db.queue)

-- the items that a request names, with their revisions
unfoldable pub explicit_items : Db → Ident → List Ident → List (Ident × ℕ) → Result (List QueueItem)
explicit_items db company_id seen [] = ok []
explicit_items db company_id seen ((item_id, revision) ∷ requested) = do
  item ← or_raise (get db.queue item_id) selection_changed
  raise_if
      (not (item.company_id == company_id)
        || has_id item.item_id seen
        || not (item.item_revision == revision)
        || not item.selectable)
      selection_changed
  rest ← explicit_items db company_id (item.item_id ∷ seen) requested
  ok (item ∷ rest)

-- what a request selects by: items that it names, or a query and the number that it expects
pub data Mode : Type 0 where
  explicit : List (Ident × ℕ) → Mode
  query : List ItemStatus → Text → ℕ → Mode

unfoldable pub selected_items : (Text → Text) → Db → Ident → Mode → Result (List QueueItem)
unfolding explicit_items queue_items_from_snapshot queue_snapshot
selected_items casefold db company_id (explicit requested) =
    explicit_items db company_id [] requested
selected_items casefold db company_id (query statuses text expected) = do
  let items =
      keep (λ (q : QueueItem). q.selectable)
        (queue_items_from_snapshot casefold statuses text (queue_snapshot db company_id))
  raise_if (not (length items == expected)) selection_changed
  ok items

abbrev pub is_nil : List QueueItem → Bool
is_nil [] = true
is_nil (q ∷ items) = false

-- `selection`
unfoldable pub create_selection :
    (Text → Text) → ℕ → ℕ → ℕ → Ident → Actor → Ident → Mode → Db → Result (Selection × Db)
unfolding selected_items
create_selection casefold max_batch_items ttl now fresh actor company_id mode db = do
  _ ← or_raise (get db.company company_id) validation_error
  items ← selected_items casefold db company_id mode
  raise_if (is_nil items) empty_selection
  raise_if (ltb max_batch_items (length items)) batch_limit_exceeded
  let selection : Selection = record {
    selection_id = fresh;
    company_id = company_id;
    selected_count = length items;
    created_at = now;
    expires_at = now + ttl;
    items = items;
    owner = actor.user_id;
    batch_id = none;
  }
  ok (selection, record db { selection = put db.selection fresh selection })

-- `get_selection`
unfoldable pub get_selection : Db → Actor → Ident → Result Selection
get_selection db actor key = do
  selection ← require db.selection key
  raise_if (not (selection.owner == actor.user_id)) forbidden
  ok selection

-- one item of `check_selection`: an item under a claim has its own result later
unfoldable pub check_item : (host : Host) → host.World → Db → QueueItem → Result (Unit {0})
check_item host w db saved = if is_some (get db.claim saved.item_id) then ok tt else do
  current ← or_raise (get db.queue saved.item_id) selection_changed
  raise_if (not (current.item_revision == saved.item_revision) || not current.selectable)
      selection_changed
  path ← physical db saved.source
  seen ← (host.stat path w).0
  raise_if (not (seen_as seen saved.fingerprint)) selection_changed

unfoldable pub check_items : (host : Host) → host.World → Db → List QueueItem → Result (Unit {0})
unfolding check_item
check_items host w db [] = ok tt
check_items host w db (saved ∷ items) = do check_item host w db saved; check_items host w db items

-- `check_selection`
unfoldable pub check_selection : (host : Host) → host.World → ℕ → Db → Selection → Result (Unit {0})
unfolding check_items
check_selection host w now db selection = do
  raise_if (leb selection.expires_at now) selection_expired
  check_items host w db selection.items

-- `createSortingPreview`, but for the page that it answers with
unfoldable pub create_preview :
    (Text → Text)
    → (host : Host) → host.World
    → ℕ
    → ℕ
    → ℕ
    → Ident
    → Actor
    → Ident
    → Db
    → Result (Preview × Db)
unfolding get_selection check_selection context_plan rule_set flattened_rules
create_preview casefold host w ttl checked now fresh actor selection_id db = do
  selection ← get_selection db actor selection_id
  check_selection host w checked db selection
  rules ← flattened_rules db selection.company_id none
  rows ← context_plan casefold host w db selection.items rules selection.company_id
  let preview : Preview = record {
    preview_id = fresh;
    selection_id = selection.selection_id;
    company_id = selection.company_id;
    rule_set = rule_set db selection.company_id;
    created_at = now;
    expires_at = min (now + ttl) selection.expires_at;
    rows = rows;
    owner = actor.user_id;
  }
  ok (preview, record db { preview = put db.preview fresh preview })
