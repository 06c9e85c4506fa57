-- ===== src/Pages.antt =====
-- Pages of backend/wiseway/services.py: `page` with its snapshots and cursors, the quota of a user,
-- and the two operations on the snapshots of the journal. Snapshots of lists and of the journal stand
-- in one table of the source, under identifiers with different prefixes; here they are two tables.
-- Digests and the size of an encoded payload are parameters. A cursor that a client sends is not
-- empty. Moments are in seconds.
pub mod Follow
pub mod Quota
pub mod Journal
mod Examples
use wise_way.Prelude.{
  ℕ, ◌+◌, Bool, true, false, not, ◌&&◌, ◌||◌, Option, none, some, List, [], ◌∷◌, Ident, ◌==◌,
  if◌then◌else◌, ltb, leb, length, take, drop,
}
use wise_way.Common.{
  Result, ok, err, ◌>>=◌, ◌>>◌, raise_if, or_raise, validation_error, rate_limited,
}
use wise_way.Storage.{Table, get, put, keep_rows}

abbrev pub page_cursor_seconds : ℕ
page_cursor_seconds = 86400

abbrev pub max_page_snapshots_per_user : ℕ
max_page_snapshots_per_user = 64

abbrev pub max_page_snapshot_bytes : ℕ
max_page_snapshot_bytes = 8388608

abbrev pub max_page_snapshot_total_bytes_per_user : ℕ
max_page_snapshot_total_bytes_per_user = 33554432

-- The list that is paged, and the other fields of the answer.
pub record Payload (A : Type 0) : Type 0 where
  pub fields : Ident
  pub items : List A

pub record Snapshot (A : Type 0) : Type 0 where
  pub snapshot_id : Ident
  pub scope : Ident
  pub owner : Ident
  pub query : Ident
  pub payload : Payload A
  pub payload_bytes : ℕ
  pub expires : ℕ

-- `legacy` is the payload of a cursor from before there were snapshots.
pub record Cursor (A : Type 0) : Type 0 where
  pub scope : Ident
  pub owner : Ident
  pub query : Ident
  pub snapshot_id : Ident
  pub legacy : Option (Payload A)
  pub offset : ℕ
  pub expires : ℕ

pub record AuditSnapshot : Type 0 where
  pub snapshot_id : Ident
  pub owner : Ident
  pub query : Ident
  pub cutoff_seq : ℕ
  pub newest_event_id : Ident
  pub payload_bytes : ℕ
  pub expires : ℕ

pub record AuditCursor : Type 0 where
  pub owner : Ident
  pub query : Ident
  pub snapshot_id : Ident
  pub expires : ℕ
  pub occurred_at : ℕ
  pub event_id : Ident

pub record PageDb (A : Type 0) : Type 0 where
  pub cursor : Table (Cursor A)
  pub page_snapshot : Table (Snapshot A)
  pub audit_cursor : Table AuditCursor
  pub audit_snapshot : Table AuditSnapshot

pub record Digests (A : Type 0) : Type 0 where
  -- of the scope, the owner, the query, the field and the payload
  pub snapshot_key : Ident → Ident → Ident → Ident → Payload A → Ident
  pub legacy_key : Ident → Ident
  -- of the scope, the owner, the query, the snapshot, the offset and the expiry
  pub cursor_key : Ident → Ident → Ident → Ident → ℕ → ℕ → Ident
  -- of the owner, the query, the cut-off and the expiry
  pub audit_key : Ident → Ident → ℕ → ℕ → Ident
  -- of the owner, the query, the snapshot, the moment and the event
  pub audit_cursor_key : Ident → Ident → Ident → ℕ → Ident → Ident
  -- `_snapshot_bytes`
  pub snapshot_bytes : Payload A → ℕ
  pub audit_bytes : Ident → Ident → Ident → ℕ → Ident → ℕ → ℕ

-- the rows of an owner, and the bytes that they take
unfoldable pub count_owned : {V : Type 0} → (V → Ident) → Ident → Table V → ℕ
count_owned owner_of owner [] = 0
count_owned owner_of owner ((k, v) ∷ rows) =
    (if owner_of v == owner then 1 else 0) + count_owned owner_of owner rows

unfoldable pub bytes_owned : {V : Type 0} → (V → Ident) → (V → ℕ) → Ident → Table V → ℕ
bytes_owned owner_of bytes_of owner [] = 0
bytes_owned owner_of bytes_of owner ((k, v) ∷ rows) =
    (if owner_of v == owner then bytes_of v else 0) + bytes_owned owner_of bytes_of owner rows

abbrev pub audit_owner : AuditSnapshot → Ident
audit_owner s = s.owner

abbrev pub audit_size : AuditSnapshot → ℕ
audit_size s = s.payload_bytes

module _ {A : Type 0} where
  abbrev pub page_owner : Snapshot A → Ident
  page_owner s = s.owner

  abbrev pub page_size : Snapshot A → ℕ
  page_size s = s.payload_bytes

  unfoldable pub owned_count : Ident → PageDb A → ℕ
  unfolding count_owned
  owned_count owner db =
      count_owned page_owner owner db.page_snapshot
      + count_owned audit_owner owner db.audit_snapshot

  unfoldable pub owned_bytes : Ident → PageDb A → ℕ
  unfolding bytes_owned
  owned_bytes owner db =
      bytes_owned page_owner page_size owner db.page_snapshot
      + bytes_owned audit_owner audit_size owner db.audit_snapshot

  -- `_check_page_quota`
  unfoldable pub check_page_quota : PageDb A → Ident → ℕ → Result (Unit {0})
  unfolding owned_count owned_bytes
  check_page_quota db owner payload_bytes =
      raise_if
        (ltb max_page_snapshot_bytes payload_bytes
          || leb max_page_snapshots_per_user (owned_count owner db)
          || ltb max_page_snapshot_total_bytes_per_user (owned_bytes owner db + payload_bytes))
        rate_limited

  -- `_delete_expired_pages`
  unfoldable pub delete_expired_pages : ℕ → PageDb A → PageDb A
  unfolding keep_rows
  delete_expired_pages now db = record {
    cursor = keep_rows (λ c. not (leb c.expires now)) db.cursor;
    page_snapshot = keep_rows (λ s. not (leb s.expires now)) db.page_snapshot;
    audit_cursor = keep_rows (λ c. not (leb c.expires now)) db.audit_cursor;
    audit_snapshot = keep_rows (λ s. not (leb s.expires now)) db.audit_snapshot;
  }

-- A page: the payload with a part of its items, and the cursor of the next page.
pub record Page (A : Type 0) : Type 0 where
  pub fields : Ident
  pub items : List A
  pub next_cursor : Option Ident

-- What is asked: the digest of the query's filters, and the field's name as an identifier.
pub record Asked : Type 0 where
  pub scope : Ident
  pub user_id : Ident
  pub signature : Ident
  pub field : Ident
  pub limit : ℕ

module _ {A : Type 0} (digests : Digests A) (asked : Asked) where
  abbrev pub cursor_of : Ident → ℕ → ℕ → Cursor A
  cursor_of snapshot_id offset expires = record {
    scope = asked.scope;
    owner = asked.user_id;
    query = asked.signature;
    snapshot_id = snapshot_id;
    legacy = none;
    offset = offset;
    expires = expires;
  }

  abbrev pub page_of : Payload A → ℕ → Option Ident → Page A
  page_of payload offset next_cursor = record {
    fields = payload.fields;
    items = take asked.limit (drop offset payload.items);
    next_cursor = next_cursor;
  }

  abbrev pub snapshot_of : Ident → Payload A → ℕ → Snapshot A
  snapshot_of snapshot_id payload expires = record {
    snapshot_id = snapshot_id;
    scope = asked.scope;
    owner = asked.user_id;
    query = asked.signature;
    payload = payload;
    payload_bytes = digests.snapshot_bytes payload;
    expires = expires;
  }

  -- the cursor of the page after this one, on a snapshot that is saved
  unfoldable pub put_cursor : Payload A → ℕ → ℕ → Ident → PageDb A → Page A × PageDb A
  put_cursor payload offset expires snapshot_id db =
      let next_offset = offset + asked.limit in
      let key =
        digests.cursor_key asked.scope asked.user_id asked.signature snapshot_id next_offset
          expires in
      (
        page_of payload offset (some key),
        record db { cursor = put db.cursor key (cursor_of snapshot_id next_offset expires) },
      )

  -- the snapshot, saved where there is none
  unfoldable pub with_snapshot :
      Payload A → ℕ → ℕ → Option (Snapshot A) → Ident → PageDb A → Result (Page A × PageDb A)
  unfolding put_cursor check_page_quota
  with_snapshot payload offset expires (some snapshot) snapshot_id db =
      ok (put_cursor payload offset expires snapshot.snapshot_id db)
  with_snapshot payload offset expires none snapshot_id db =
      check_page_quota db asked.user_id (digests.snapshot_bytes payload)
      >> ok (
          put_cursor payload offset expires snapshot_id (record db {
            page_snapshot =
                put db.page_snapshot snapshot_id (snapshot_of snapshot_id payload expires);
          }))

  -- the end of `page`, from its `result`
  unfoldable pub cut_page :
      Payload A → ℕ → ℕ → Option (Snapshot A) → Ident → PageDb A → Result (Page A × PageDb A)
  unfolding with_snapshot
  cut_page payload offset expires snapshot snapshot_id db =
      if ltb (offset + asked.limit) (length payload.items)
      then with_snapshot payload offset expires snapshot snapshot_id db
      else ok (page_of payload offset none, db)

  -- the two tests of a saved cursor and of its snapshot
  abbrev pub is_foreign : Ident → Ident → Ident → ℕ → ℕ → Bool
  is_foreign scope owner query expires now =
      not (scope == asked.scope)
      || not (owner == asked.user_id)
      || not (query == asked.signature)
      || leb expires now

  abbrev pub expiry : ℕ → Option (Snapshot A) → ℕ
  expiry now none = now + page_cursor_seconds
  expiry now (some snapshot) = snapshot.expires

  abbrev pub payload_or : Payload A → Option (Snapshot A) → Payload A
  payload_or payload none = payload
  payload_or payload (some snapshot) = snapshot.payload

  -- a page after a cursor that belongs to the request
  unfoldable pub page_after :
      ℕ → Ident → Cursor A → Option (Payload A) → PageDb A → Result (Page A × PageDb A)
  unfolding cut_page
  page_after now cursor saved (some payload) db =
      let snapshot_id = digests.legacy_key cursor in
      let snapshot = get db.page_snapshot snapshot_id in
      cut_page (payload_or payload snapshot) saved.offset saved.expires snapshot snapshot_id db
  page_after now cursor saved none db =
      or_raise (get db.page_snapshot saved.snapshot_id) validation_error >>= λ snapshot.
      raise_if (is_foreign snapshot.scope snapshot.owner snapshot.query snapshot.expires now)
        validation_error
      >> cut_page snapshot.payload saved.offset saved.expires (some snapshot) saved.snapshot_id db

  -- `page` in a transaction that writes
  unfoldable pub page_tx : ℕ → Payload A → Option Ident → PageDb A → Result (Page A × PageDb A)
  unfolding page_after cut_page delete_expired_pages
  page_tx now payload (some cursor) db =
      or_raise (get db.cursor cursor) validation_error >>= λ saved.
      raise_if (is_foreign saved.scope saved.owner saved.query saved.expires now) validation_error
      >> page_after now cursor saved saved.legacy db
  page_tx now payload none db =
      let kept = delete_expired_pages now db in
      let snapshot_id =
        digests.snapshot_key asked.scope asked.user_id asked.signature asked.field payload in
      let snapshot = get kept.page_snapshot snapshot_id in
      cut_page payload 0 (expiry now snapshot) snapshot snapshot_id kept

  abbrev pub is_first : Option Ident → Bool
  is_first none = true
  is_first (some cursor) = false

  -- `page`: a first page that is the whole list needs no rows
  unfoldable pub page : ℕ → Payload A → Option Ident → PageDb A → Result (Page A × PageDb A)
  unfolding page_tx
  page now payload cursor db =
      if is_first cursor && leb (length payload.items) asked.limit
      then ok (page_of payload 0 none, db)
      else page_tx now payload cursor db
