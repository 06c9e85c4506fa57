-- ===== src/Pages/Journal.antt =====
-- `reserve_audit_snapshot` and `create_audit_cursor` of backend/wiseway/services.py: the saved place of
-- a reader of the journal. Of several snapshots that fit, the first in the table is taken.
use wise_way.Prelude.{
  ℕ, ◌+◌, ◌≡◌, refl, ap, ◌∙◌, Bool, not, ◌&&◌, ◌||◌, Bool-cases, Option, none, some, inl, inr, [],
  ◌∷◌, Ident, ◌==◌, if◌then◌else◌, leb, arith,
}
use wise_way.Common.{Result, ok, err, ◌>>=◌, ◌>>◌, raise_if, or_raise, validation_error}
use wise_way.Storage.{Table, get, put}
use wise_way.Pages.{
  PageDb, Digests, AuditSnapshot, audit_owner, audit_size, owned_count, owned_bytes,
  check_page_quota, delete_expired_pages, page_cursor_seconds,
}
use wise_way.Pages.Quota.{IsWithin, delete_expired_pages-IsWithin, count_owned-put, bytes_owned-put}

module _ {A : Type 0} (digests : Digests A) (owner signature : Ident) where
  -- a snapshot that another page of the same question may use
  abbrev pub fits : ℕ → ℕ → AuditSnapshot → Bool
  fits now cutoff_seq s =
      s.owner == owner
      && s.query == signature
      && s.cutoff_seq == cutoff_seq
      && not (leb s.expires now)

  unfoldable pub find_audit : ℕ → ℕ → Table AuditSnapshot → Option AuditSnapshot
  find_audit now cutoff_seq [] = none
  find_audit now cutoff_seq ((k, s) ∷ rows) =
      if fits now cutoff_seq s then some s else find_audit now cutoff_seq rows

  abbrev pub audit_metadata : ℕ → ℕ → Ident → AuditSnapshot
  audit_metadata now cutoff_seq newest_event_id =
      let expires = now + page_cursor_seconds in
      let id = digests.audit_key owner signature cutoff_seq expires in
      record {
        snapshot_id = id;
        owner = owner;
        query = signature;
        cutoff_seq = cutoff_seq;
        newest_event_id = newest_event_id;
        payload_bytes = digests.audit_bytes id owner signature cutoff_seq newest_event_id expires;
        expires = expires;
      }

  -- the snapshot that was found, or a new one
  unfoldable pub reserve_found :
      AuditSnapshot → Option AuditSnapshot → PageDb A → Result (AuditSnapshot × PageDb A)
  unfolding check_page_quota
  reserve_found metadata (some saved) db = ok (saved, db)
  reserve_found metadata none db =
      check_page_quota db owner metadata.payload_bytes
      >> ok (
        metadata,
        record db { audit_snapshot = put db.audit_snapshot metadata.snapshot_id metadata },
      )

  -- `reserve_audit_snapshot`
  unfoldable pub reserve_audit_snapshot :
      ℕ → ℕ → Ident → PageDb A → Result (AuditSnapshot × PageDb A)
  unfolding reserve_found find_audit delete_expired_pages
  reserve_audit_snapshot now cutoff_seq newest_event_id db =
      let kept = delete_expired_pages now db in
      reserve_found (audit_metadata now cutoff_seq newest_event_id)
        (find_audit now cutoff_seq kept.audit_snapshot) kept

  -- `create_audit_cursor`
  unfoldable pub create_audit_cursor :
      ℕ → AuditSnapshot → ℕ → Ident → PageDb A → Result (Ident × PageDb A)
  unfolding get put
  create_audit_cursor now snapshot occurred_at event_id db =
      let key =
        digests.audit_cursor_key owner signature snapshot.snapshot_id occurred_at event_id in
      or_raise (get db.audit_snapshot snapshot.snapshot_id) validation_error >>= λ saved.
      raise_if
        (not (saved.owner == owner) || not (saved.query == signature) || leb saved.expires now)
        validation_error
      >> ok (
        key,
        record db {
          audit_cursor = put db.audit_cursor key (record {
            owner = owner;
            query = signature;
            snapshot_id = saved.snapshot_id;
            expires = saved.expires;
            occurred_at = occurred_at;
            event_id = event_id;
          });
        },
      )

  -- a snapshot of the journal that passed the test of the quota
  put_audit-IsWithin :
      (user key : Ident) (db : PageDb A) (s : AuditSnapshot)
      → check_page_quota db s.owner s.payload_bytes ≡ ok tt
      → IsWithin user db
      → IsWithin user (record db { audit_snapshot = put db.audit_snapshot key s })
  unfolding check_page_quota owned_count owned_bytes
  put_audit-IsWithin user key db s q h =
      let c = count_owned-put audit_owner audit_size user db.audit_snapshot key s in
      let b = bytes_owned-put audit_owner audit_size user db.audit_snapshot key s in
      let count = h.count_fits in
      let bytes = h.bytes_fit in
      elim (Bool-cases (s.owner == user)) [
        | inr other ↦ record {
          count_fits = ground (arith, c, count, other);
          bytes_fit = ground (arith, b, bytes, other);
        }
        | inl own ↦
            let e : s.owner ≡ user = ground (arith, own) in
            record {
              count_fits = ground (arith, c, rw e at q, own);
              bytes_fit = ground (arith, b, rw e at q, own);
            }
      ]

  passed :
      (db : PageDb A) (metadata : AuditSnapshot) (next : AuditSnapshot × PageDb A)
      (checked : Result (Unit {0})) {result : AuditSnapshot × PageDb A}
      → (checked >>= λ _. ok next) ≡ ok result
      → (checked ≡ ok tt) × (next ≡ result)
  passed db metadata next (err e) h = cc
  passed db metadata next (ok u) h = (refl, cc)

  found-IsWithin :
      (user : Ident) (metadata : AuditSnapshot) (found : Option AuditSnapshot) (db : PageDb A)
      {result : AuditSnapshot × PageDb A}
      → metadata.owner ≡ owner
      → reserve_found metadata found db ≡ ok result
      → IsWithin user db
      → IsWithin user result.1
  unfolding reserve_found
  found-IsWithin user metadata (some saved) db {result} o e h =
      let f : (saved, db) ≡ result = cc in rw (← f) h
  found-IsWithin user metadata none db o e h =
      let next = record db {
        audit_snapshot = put db.audit_snapshot metadata.snapshot_id metadata;
      } in
      let (q, f) =
        passed db metadata (metadata, next) (check_page_quota db owner metadata.payload_bytes) e in
      rw (← f) (
        put_audit-IsWithin user metadata.snapshot_id db metadata
          (ap (λ (o : Ident). check_page_quota db o metadata.payload_bytes) o ∙ q) h)

  -- A reader of the journal who is given a snapshot leaves every user within 64 snapshots and 32 MiB, if
  -- it was so before.
  pub reserve_audit_snapshot-IsWithin :
      (user : Ident) (now cutoff_seq : ℕ) (newest_event_id : Ident) (db : PageDb A)
      {result : AuditSnapshot × PageDb A}
      → reserve_audit_snapshot now cutoff_seq newest_event_id db ≡ ok result
      → IsWithin user db
      → IsWithin user result.1
  unfolding reserve_audit_snapshot
  reserve_audit_snapshot-IsWithin user now cutoff_seq newest_event_id db e h =
      let kept = delete_expired_pages now db in
      found-IsWithin user (audit_metadata now cutoff_seq newest_event_id)
        (find_audit now cutoff_seq kept.audit_snapshot) kept refl e
        (delete_expired_pages-IsWithin user now db h)
