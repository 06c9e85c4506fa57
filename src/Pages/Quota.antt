-- ===== src/Pages/Quota.antt =====
-- The quota of a user on saved pages (backend/wiseway/services.py).
use wise_way.Prelude.{
  ℕ, ◌+◌, ◌≤◌, ◌≡◌, refl, Bool, true, false, Bool-cases, not, Option, none, some, inl, inr, [], ◌∷◌,
  Ident, ◌==◌, length, arith, leb, ltb, if◌then◌else◌, ◌&&◌,
}
use wise_way.Common.{Result, ok, err, ◌>>=◌, raise_if, or_raise, validation_error}
use wise_way.Storage.{Table, get, put, keep_rows}
use wise_way.Pages.{
  Payload, Snapshot, Cursor, PageDb, Digests, Page, Asked, count_owned, bytes_owned, page_owner,
  page_size, owned_count, owned_bytes, check_page_quota, delete_expired_pages, snapshot_of,
  put_cursor, with_snapshot, cut_page, is_foreign, expiry, payload_or, page_after, page_tx,
  is_first, page, max_page_snapshots_per_user, max_page_snapshot_total_bytes_per_user, audit_owner,
  audit_size,
}

module _ {V : Type 0} (owner_of : V → Ident) (bytes_of : V → ℕ) (owner : Ident) where
  pub count_owned-put :
      (rows : Table V) (key : Ident) (v : V)
      → count_owned owner_of owner (put rows key v)
        ≤ (if owner_of v == owner then 1 else 0) + count_owned owner_of owner rows
  unfolding count_owned put
  count_owned-put [] key v = ground arith
  count_owned-put ((k, w) ∷ rows) key v = ground (arith, count_owned-put rows key v)

  pub bytes_owned-put :
      (rows : Table V) (key : Ident) (v : V)
      → bytes_owned owner_of bytes_of owner (put rows key v)
        ≤ (if owner_of v == owner then bytes_of v else 0) + bytes_owned owner_of bytes_of owner rows
  unfolding bytes_owned put
  bytes_owned-put [] key v = ground arith
  bytes_owned-put ((k, w) ∷ rows) key v = ground (arith, bytes_owned-put rows key v)

  count_owned-keep_rows :
      (test : V → Bool) (rows : Table V)
      → count_owned owner_of owner (keep_rows test rows) ≤ count_owned owner_of owner rows
  unfolding count_owned keep_rows
  count_owned-keep_rows test [] = omega arith
  count_owned-keep_rows test ((k, w) ∷ rows) = ground (arith, count_owned-keep_rows test rows)

  bytes_owned-keep_rows :
      (test : V → Bool) (rows : Table V)
      → bytes_owned owner_of bytes_of owner (keep_rows test rows)
        ≤ bytes_owned owner_of bytes_of owner rows
  unfolding bytes_owned keep_rows
  bytes_owned-keep_rows test [] = omega arith
  bytes_owned-keep_rows test ((k, w) ∷ rows) = ground (arith, bytes_owned-keep_rows test rows)

module _ {A : Type 0} (owner : Ident) where
  -- The user's snapshots keep both limits.
  pub record IsWithin (db : PageDb A) : Type 0 where
    pub count_fits : owned_count owner db ≤ max_page_snapshots_per_user
    pub bytes_fit : owned_bytes owner db ≤ max_page_snapshot_total_bytes_per_user

  pub delete_expired_pages-IsWithin :
      (now : ℕ) (db : PageDb A) → IsWithin db → IsWithin (delete_expired_pages now db)
  unfolding owned_count owned_bytes delete_expired_pages
  delete_expired_pages-IsWithin now db h =
      let fresh : Snapshot A → Bool = λ s. not (leb s.expires now) in
      let c = count_owned-keep_rows page_owner page_size owner fresh db.page_snapshot in
      let b = bytes_owned-keep_rows page_owner page_size owner fresh db.page_snapshot in
      let d =
        count_owned-keep_rows audit_owner audit_size owner (λ s. not (leb s.expires now))
          db.audit_snapshot in
      let a =
        bytes_owned-keep_rows audit_owner audit_size owner (λ s. not (leb s.expires now))
          db.audit_snapshot in
      record {
        count_fits = omega (arith, h.count_fits, c, d);
        bytes_fit = omega (arith, h.bytes_fit, a, b);
      }

  -- a snapshot that passed the test of the quota
  put_snapshot-IsWithin :
      (db : PageDb A) (key : Ident) (s : Snapshot A)
      → check_page_quota db s.owner s.payload_bytes ≡ ok tt
      → IsWithin db
      → IsWithin (record db { page_snapshot = put db.page_snapshot key s })
  unfolding check_page_quota owned_count owned_bytes
  put_snapshot-IsWithin db key s q h =
      let c = count_owned-put page_owner page_size owner db.page_snapshot key s in
      let b = bytes_owned-put page_owner page_size owner db.page_snapshot key s in
      let count = h.count_fits in
      let bytes = h.bytes_fit in
      elim (Bool-cases (s.owner == owner)) [
        | inr other ↦ record {
          count_fits = ground (arith, c, count, other);
          bytes_fit = ground (arith, b, bytes, other);
        }
        | inl own ↦
            let e : s.owner ≡ owner = ground (arith, own) in
            record {
              count_fits = ground (arith, c, rw e at q, own);
              bytes_fit = ground (arith, b, rw e at q, own);
            }
      ]

  module _ (digests : Digests A) (asked : Asked) where
    -- what a step leaves, if it returns
    abbrev Leaves : Result (Page A × PageDb A) → Type 0
    Leaves (err e) = Unit
    Leaves (ok (shown, db)) = IsWithin db

    put_cursor-IsWithin :
        (payload : Payload A) (offset expires : ℕ) (id : Ident) (db : PageDb A)
        → IsWithin db
        → IsWithin (put_cursor digests asked payload offset expires id db).1
    unfolding put_cursor owned_count owned_bytes
    put_cursor-IsWithin payload offset expires id db h = record {
      count_fits = h.count_fits;
      bytes_fit = h.bytes_fit;
    }

    after_quota :
        (db : PageDb A) (id : Ident) (s : Snapshot A) (shown : Page A) (db' : PageDb A)
        (checked : Result (Unit {0}))
        → check_page_quota db s.owner s.payload_bytes ≡ checked
        → (check_page_quota db s.owner s.payload_bytes ≡ ok tt → IsWithin db')
        → Leaves (checked >>= λ _. ok (shown, db'))
    after_quota db id s shown db' (err e) q k = tt
    after_quota db id s shown db' (ok u) q k = k q

    with_snapshot-Leaves :
        (payload : Payload A) (offset expires : ℕ) (found : Option (Snapshot A)) (id : Ident)
        (db : PageDb A)
        → IsWithin db
        → Leaves (with_snapshot digests asked payload offset expires found id db)
    unfolding with_snapshot
    with_snapshot-Leaves payload offset expires (some s) id db h =
        put_cursor-IsWithin payload offset expires s.snapshot_id db h
    with_snapshot-Leaves payload offset expires none id db h =
        let s = snapshot_of digests asked id payload expires in
        let db' = record db { page_snapshot = put db.page_snapshot id s } in
        let next = put_cursor digests asked payload offset expires id db' in
        after_quota db id s next.0 next.1 (check_page_quota db s.owner s.payload_bytes) refl
          (λ (q : check_page_quota db s.owner s.payload_bytes ≡ ok tt).
            put_cursor-IsWithin payload offset expires id db' (put_snapshot-IsWithin db id s q h))

    cut_page-Leaves :
        (payload : Payload A) (offset expires : ℕ) (found : Option (Snapshot A)) (id : Ident)
        (db : PageDb A)
        → IsWithin db
        → Leaves (cut_page digests asked payload offset expires found id db)
    unfolding cut_page
    cut_page-Leaves payload offset expires found id db h =
        elim (Bool-cases (ltb (offset + asked.limit) (length payload.items))) [
          | inl more ↦ rw more (with_snapshot-Leaves payload offset expires found id db h)
          | inr last ↦ rw last h
        ]

    guarded :
        (test : Bool) (next : Result (Page A × PageDb A))
        → Leaves next
        → Leaves (raise_if test validation_error >>= λ _. next)
    guarded true next h = tt
    guarded false next h = h

    on_snapshot-Leaves :
        (now : ℕ) (saved : Cursor A) (db : PageDb A) (found : Option (Snapshot A))
        → IsWithin db
        → Leaves (
            or_raise found validation_error >>= λ snapshot.
            raise_if
              (is_foreign digests asked snapshot.scope snapshot.owner snapshot.query
                snapshot.expires now)
              validation_error
            >>= λ _.
                cut_page digests asked snapshot.payload saved.offset saved.expires
                  (some snapshot)
                  saved.snapshot_id
                  db)
    on_snapshot-Leaves now saved db none h = tt
    on_snapshot-Leaves now saved db (some s) h =
        guarded (is_foreign digests asked s.scope s.owner s.query s.expires now) _
          (cut_page-Leaves s.payload saved.offset saved.expires (some s) saved.snapshot_id db h)

    page_after-Leaves :
        (now : ℕ) (cursor : Ident) (saved : Cursor A) (legacy : Option (Payload A)) (db : PageDb A)
        → IsWithin db
        → Leaves (page_after digests asked now cursor saved legacy db)
    unfolding page_after
    page_after-Leaves now cursor saved (some payload) db h =
        let id = digests.legacy_key cursor in
        let found = get db.page_snapshot id in
        cut_page-Leaves (payload_or digests asked payload found) saved.offset saved.expires found id
          db h
    page_after-Leaves now cursor saved none db h =
        on_snapshot-Leaves now saved db (get db.page_snapshot saved.snapshot_id) h

    on_cursor-Leaves :
        (now : ℕ) (cursor : Ident) (db : PageDb A) (found : Option (Cursor A))
        → IsWithin db
        → Leaves (
            or_raise found validation_error >>= λ saved.
            raise_if
              (is_foreign digests asked saved.scope saved.owner saved.query saved.expires now)
              validation_error
            >>= λ _. page_after digests asked now cursor saved saved.legacy db)
    on_cursor-Leaves now cursor db none h = tt
    on_cursor-Leaves now cursor db (some c) h =
        guarded (is_foreign digests asked c.scope c.owner c.query c.expires now) _
          (page_after-Leaves now cursor c c.legacy db h)

    page_tx-Leaves :
        (now : ℕ) (payload : Payload A) (cursor : Option Ident) (db : PageDb A)
        → IsWithin db
        → Leaves (page_tx digests asked now payload cursor db)
    unfolding page_tx
    page_tx-Leaves now payload (some cursor) db h =
        on_cursor-Leaves now cursor db (get db.cursor cursor) h
    page_tx-Leaves now payload none db h =
        let kept = delete_expired_pages now db in
        let id =
          digests.snapshot_key asked.scope asked.user_id asked.signature asked.field payload in
        let found = get kept.page_snapshot id in
        cut_page-Leaves payload 0 (expiry digests asked now found) found id kept
          (delete_expired_pages-IsWithin now db h)

    page-Leaves :
        (now : ℕ) (payload : Payload A) (cursor : Option Ident) (db : PageDb A)
        → IsWithin db
        → Leaves (page digests asked now payload cursor db)
    unfolding page
    page-Leaves now payload cursor db h =
        elim (Bool-cases
          (is_first digests asked cursor && leb (length payload.items) asked.limit)) [
            | inl small ↦ rw small h
            | inr large ↦ rw large (page_tx-Leaves now payload cursor db h)
          ]

    -- A page that is given leaves every user with no more than 64 snapshots and 32 MiB in them, if it was
    -- so before, whether it is the user's own page or another's.
    pub page-IsWithin :
        (now : ℕ) (payload : Payload A) (cursor : Option Ident) (db db' : PageDb A) (shown : Page A)
        → page digests asked now payload cursor db ≡ ok (shown, db')
        → IsWithin db
        → IsWithin db'
    page-IsWithin now payload cursor db db' shown e h =
        rw e at (page-Leaves now payload cursor db h)
