-- ===== src/Pages/Follow.antt =====
-- Following the cursors of `page` (backend/wiseway/services.py) from the first page to the last.
use wise_way.Prelude.{
  ℕ, zero, suc, ◌+◌, ◌≤◌, ◌<◌, ◌≡◌, refl, sym, ap, ◌∙◌, Bool, true, false, Bool-cases, Option, none,
  some, inl, inr, List, [], ◌∷◌, ◌++◌, Ident, ◌==◌, ==_refl, length, take, drop, take-append-drop,
  drop-drop, All, arith, leb, ltb, ltb→lt, not,
}
use mathlib.Core.List.{append-nil}
use wise_way.Common.{Result, ok, err, ◌>>=◌}
use wise_way.Storage.{Table, get, put, keep_rows}
use wise_way.Storage.Laws.{get-put}
use wise_way.Pages.{
  Payload, Snapshot, PageDb, Digests, Page, Asked, check_page_quota, delete_expired_pages,
  cursor_of, page_of, snapshot_of, put_cursor, with_snapshot, cut_page, is_foreign, expiry,
  page_after, page_tx, page,
}

get-keep_rows :
    {V : Type 0} (P : Ident × V → Type 0) (test : V → Bool) (rows : Table V) (key : Ident) (v : V)
    → All P rows
    → get (keep_rows test rows) key ≡ some v
    → P (key, v) × (test v ≡ true)
unfolding get keep_rows
get-keep_rows P test [] key v a h = cc
get-keep_rows P test ((k, w) ∷ rows) key v a h = elim (Bool-cases (test w)) [
  | inl t ↦ elim (Bool-cases (k == key)) [
    | inl own ↦
        let e : k ≡ key = ground (arith, own) in
        let g : some w ≡ some v = rw (t, get, own) at h in
        let d : w ≡ v = cc in (rw (← e, ← d) a.0, rw (← d) t)
    | inr other ↦ get-keep_rows P test rows key v a.1 (rw (t, get, other) at h)
  ]
  | inr t ↦ get-keep_rows P test rows key v a.1 (rw t at h)
]

drop-all : {A : Type 0} (n : ℕ) (l : List A) → length l ≤ n → drop n l ≡ []
drop-all zero [] h = refl
drop-all zero (x ∷ l) h = absurd (omega arith)
drop-all (suc n) [] h = refl
drop-all (suc n) (x ∷ l) h = drop-all n l (omega arith)

take-all : {A : Type 0} (n : ℕ) (l : List A) → length l ≤ n → take n l ≡ l
take-all zero [] h = refl
take-all zero (x ∷ l) h = absurd (omega arith)
take-all (suc n) [] h = refl
take-all (suc n) (x ∷ l) h = ap (λ (t : List _). x ∷ t) (take-all n l (omega arith))

module _ {A : Type 0} (digests : Digests A) (asked : Asked) where
  -- The snapshot is one of this request and of this payload.
  pub record IsSaved (payload : Payload A) (id : Ident) (snapshot : Snapshot A) : Type 0 where
    pub own_id : snapshot.snapshot_id ≡ id
    pub own_scope : snapshot.scope ≡ asked.scope
    pub own_owner : snapshot.owner ≡ asked.user_id
    pub own_query : snapshot.query ≡ asked.signature
    pub own_payload : snapshot.payload ≡ payload

  -- a cursor and its snapshot stand in the rows, until a moment
  record IsOpen (payload : Payload A) (offset expires : ℕ) (db : PageDb A) (c : Ident)
      : Type 0 where
    id : Ident
    snapshot : Snapshot A
    has_cursor : get db.cursor c ≡ some (cursor_of digests asked id offset expires)
    has_snapshot : get db.page_snapshot id ≡ some snapshot
    saved : IsSaved payload id snapshot
    ends : snapshot.expires ≡ expires

  -- what comes after a page: nothing more, or an open cursor
  abbrev NextOpen : Payload A → ℕ → ℕ → PageDb A → Option Ident → Type 0
  NextOpen payload offset expires db none = length payload.items ≤ offset
  NextOpen payload offset expires db (some c) =
      IsOpen payload offset expires db c × (offset < length payload.items)

  -- a page from an offset, and what comes after it
  abbrev Goes : Payload A → ℕ → ℕ → Page A × PageDb A → Type 0
  Goes payload offset expires (shown, db) =
      (shown.items ≡ take asked.limit (drop offset payload.items))
      × NextOpen payload (offset + asked.limit) expires db shown.next_cursor

  put_cursor-Goes :
      (payload : Payload A) (offset expires : ℕ) (id : Ident) (db : PageDb A)
      (snapshot : Snapshot A)
      → get db.page_snapshot id ≡ some snapshot
      → IsSaved payload id snapshot
      → snapshot.expires ≡ expires
      → offset + asked.limit < length payload.items
      → Goes payload offset expires (put_cursor digests asked payload offset expires id db)
  unfolding put_cursor
  put_cursor-Goes payload offset expires id db snapshot h s e l =
      let key =
        digests.cursor_key asked.scope asked.user_id asked.signature id (offset + asked.limit)
          expires in
      (
        refl,
        (
          record {
            id = id;
            snapshot = snapshot;
            has_cursor =
                get-put db.cursor key key
                  (cursor_of digests asked id (offset + asked.limit) expires)
                ∙ rw (==_refl key) refl;
            has_snapshot = h;
            saved = s;
            ends = e;
          },
          l,
        ),
      )

  -- the end of `page` on a snapshot that is saved
  cut_page-Goes :
      (payload : Payload A) (offset expires : ℕ) (id : Ident) (db : PageDb A)
      (snapshot : Snapshot A)
      → get db.page_snapshot id ≡ some snapshot
      → IsSaved payload id snapshot
      → snapshot.expires ≡ expires
      → (result : Page A × PageDb A) × (cut_page digests asked payload offset expires
            (some snapshot)
            id
            db
          ≡ ok result)
        × Goes payload offset expires result
  unfolding cut_page with_snapshot
  cut_page-Goes payload offset expires id db snapshot h s e =
      elim (Bool-cases (ltb (offset + asked.limit) (length payload.items))) [
        | inl more ↦ (
          put_cursor digests asked payload offset expires id db,
          rw (more, s.own_id) refl,
          put_cursor-Goes payload offset expires id db snapshot h s e
              (ltb→lt (offset + asked.limit) (length payload.items) more),
        )
        | inr last ↦ (
          (page_of digests asked payload offset none, db),
          rw last refl,
          (refl, ground (arith, last)),
        )
      ]

  own :
      (scope owner query expires now : ℕ)
      → scope ≡ asked.scope
      → owner ≡ asked.user_id
      → query ≡ asked.signature
      → now < expires
      → is_foreign digests asked scope owner query expires now ≡ false
  own scope owner query expires now a b c d = ground (arith, a, b, c, d)

  page-Goes :
      (payload changed : Payload A) (offset expires now : ℕ) (db : PageDb A) (c : Ident)
      → IsOpen payload offset expires db c
      → now < expires
      → (result : Page A × PageDb A) × (page digests asked now changed (some c) db ≡ ok result)
        × Goes payload offset expires result
  unfolding page page_tx page_after
  page-Goes payload changed offset expires now db c open_ late =
      let s = open_.saved in
      let (result, e, goes) =
        cut_page-Goes payload offset expires open_.id db open_.snapshot open_.has_snapshot s
          open_.ends in
      let mine = own asked.scope asked.user_id asked.signature expires now refl refl refl late in
      let its =
        own open_.snapshot.scope open_.snapshot.owner open_.snapshot.query open_.snapshot.expires
          now s.own_scope s.own_owner s.own_query (omega (arith, open_.ends, late)) in
      (result, rw (open_.has_cursor, mine, open_.has_snapshot, its, s.own_payload) e, goes)

  -- Following the cursors: each request has its moment, and the list as it is by then. `none` where a
  -- page is refused or the requests run out.
  abbrev pub after_page : Page A → Option (List A) → Option (List A)
  after_page shown none = none
  after_page shown (some rest) = some (shown.items ++ rest)

  unfoldable pub collect : List (ℕ × Payload A) → Option Ident → PageDb A → Option (List A)
  collect requests none db = some []
  collect [] (some c) db = none
  collect ((now, changed) ∷ requests) (some c) db =
      elim (page digests asked now changed (some c) db) [
        | err e ↦ none
        | ok (shown, db') ↦ after_page shown (collect requests shown.next_cursor db')
      ]

  collect_step :
      (now : ℕ) (changed : Payload A) (requests : List (ℕ × Payload A)) (c : Ident) (db : PageDb A)
      (result : Page A × PageDb A)
      → page digests asked now changed (some c) db ≡ ok result
      → collect ((now, changed) ∷ requests) (some c) db
        ≡ after_page result.0 (collect requests result.0.next_cursor result.1)
  unfolding collect
  collect_step now changed requests c db result e =
      ap
        (λ (r : Result (Page A × PageDb A)). elim r [
          | err e ↦ none
          | ok (shown, db') ↦ after_page shown (collect requests shown.next_cursor db')
        ])
        e

  collect_lem :
      (payload : Payload A) (expires : ℕ)
      → 1 ≤ asked.limit
      → (requests : List (ℕ × Payload A)) (offset : ℕ) (db : PageDb A) (next : Option Ident)
      → NextOpen payload offset expires db next
      → All (λ (r : ℕ × Payload A). r.0 < expires) requests
      → length payload.items ≤ offset + length requests
      → collect requests next db ≡ some (drop offset payload.items)
  unfolding collect
  collect_lem payload expires p [] offset db none open_ a n =
      ap some (sym (drop-all offset payload.items open_))
  collect_lem payload expires p (r ∷ requests) offset db none open_ a n =
      ap some (sym (drop-all offset payload.items open_))
  collect_lem payload expires p [] offset db (some c) open_ a n = absurd (omega (arith, open_.1))
  collect_lem payload expires p ((now, changed) ∷ requests) offset db (some c) open_ a n =
      let (result, e, goes) = page-Goes payload changed offset expires now db c open_.0 a.0 in
      let rest =
        collect_lem payload expires p requests (offset + asked.limit) result.1 result.0.next_cursor
          goes.1 a.1 (omega arith) in
      let joined : take asked.limit (drop offset payload.items)
            ++ drop (offset + asked.limit) payload.items
          ≡ drop offset payload.items =
        ap (λ (l : List A). take asked.limit (drop offset payload.items) ++ l)
          (sym (drop-drop asked.limit offset payload.items))
        ∙ take-append-drop asked.limit (drop offset payload.items) in
      collect_step now changed requests c db result e ∙ rw (rest, goes.0) (ap some joined)

  -- the snapshot of the first request's payload, if there is one that is not expired
  abbrev pub first_id : Payload A → Ident
  first_id payload =
      digests.snapshot_key asked.scope asked.user_id asked.signature asked.field payload

  -- until when the cursors of a first page stand
  abbrev pub until : ℕ → Payload A → PageDb A → ℕ
  until now payload db =
      expiry digests asked now (get (delete_expired_pages now db).page_snapshot (first_id payload))

  -- every row under the digest of the request is a snapshot of the request
  abbrev pub IsDigest : Payload A → PageDb A → Type 0
  IsDigest payload db =
      All
        (λ (row : Ident × Snapshot A).
          row.0 ≡ first_id payload → IsSaved payload (first_id payload) row.1)
        db.page_snapshot

  passed :
      (checked : Result (Unit {0})) {next result : Page A × PageDb A}
      → (checked >>= λ _. ok next) ≡ ok result
      → next ≡ result
  passed (err e) h = cc
  passed (ok u) h = cc

  first-Goes :
      (payload : Payload A) (now : ℕ) (kept : PageDb A) (found : Option (Snapshot A))
      {result : Page A × PageDb A}
      → get kept.page_snapshot (first_id payload) ≡ found
      → ((s : Snapshot A) → found ≡ some s → IsSaved payload (first_id payload) s)
      → cut_page digests asked payload 0
          (expiry digests asked now found)
          found
          (first_id payload)
          kept
        ≡ ok result
      → Goes payload 0 (expiry digests asked now found) result
  unfolding cut_page with_snapshot
  first-Goes payload now kept (some s) {result} h saved e =
      let (other, f, goes) =
        cut_page-Goes payload 0 s.expires (first_id payload) kept s h (saved s refl) refl in
      let same : other ≡ result = cc in rw (← same) goes
  first-Goes payload now kept none {result} h saved e =
      let expires = expiry digests asked now none in
      let id = first_id payload in
      let snapshot = snapshot_of digests asked id payload expires in
      elim (Bool-cases (ltb (0 + asked.limit) (length payload.items))) [
        | inl more ↦
            let f =
              passed (check_page_quota kept asked.user_id (digests.snapshot_bytes payload))
                (rw more at e) in
            let stored = get-put kept.page_snapshot id id snapshot ∙ rw (==_refl id) refl in
            let saved_now : IsSaved payload id snapshot = record {
              own_id = refl;
              own_scope = refl;
              own_owner = refl;
              own_query = refl;
              own_payload = refl;
            } in
            let goes =
              put_cursor-Goes payload 0 expires id
                (record kept { page_snapshot = put kept.page_snapshot id snapshot }) snapshot stored
                saved_now refl (ltb→lt (0 + asked.limit) (length payload.items) more) in
            rw (← f) goes
        | inr last ↦
            let g : ◌≡◌ {A = Result (Page A × PageDb A)}
                (ok (page_of digests asked payload 0 none, kept)) (ok result) =
              rw last at e in
            let f : (page_of digests asked payload 0 none, kept) ≡ result = cc in
            rw (← f) (refl, ground (arith, last))
      ]

  collect-none :
      (requests : List (ℕ × Payload A)) (db : PageDb A) → collect requests none db ≡ some []
  unfolding collect
  collect-none [] db = refl
  collect-none (r ∷ requests) db = refl

  zero_limit :
      (payload : Payload A)
      → take asked.limit payload.items ++ drop (0 + asked.limit) payload.items ≡ payload.items
  zero_limit payload =
      let e : 0 + asked.limit ≡ asked.limit = omega arith in
      rw e (take-append-drop asked.limit payload.items)

  page_tx-Goes :
      (payload : Payload A) (now : ℕ) (db : PageDb A) {result : Page A × PageDb A}
      → IsDigest payload db
      → page_tx digests asked now payload none db ≡ ok result
      → Goes payload 0 (until now payload db) result
  unfolding page_tx delete_expired_pages
  page_tx-Goes payload now db d e =
      let kept = delete_expired_pages now db in
      let found = get kept.page_snapshot (first_id payload) in
      first-Goes payload now kept found refl
        (λ (s : Snapshot A) (h : found ≡ some s).
          (get-keep_rows
              (λ (row : Ident × Snapshot A).
                row.0 ≡ first_id payload → IsSaved payload (first_id payload) row.1)
              (λ s. not (leb s.expires now)) db.page_snapshot (first_id payload) s d h).0
            refl)
        e

  -- A list that is asked for page by page is shown whole, each item once and in its order, as it was at
  -- the first request: if the first page is given, all requests with the cursors that follow are
  -- answered, and their pages together with the first are the list, whatever it has become meanwhile. It
  -- is asked that a page is not empty, that the requests come before the cursors expire and are as many
  -- as there are items, and that the rows under the digest of the first request are snapshots of it.
  pub page_collects :
      (payload : Payload A) (now : ℕ) (db db' : PageDb A) (first : Page A)
      (requests : List (ℕ × Payload A))
      → 1 ≤ asked.limit
      → IsDigest payload db
      → page digests asked now payload none db ≡ ok (first, db')
      → All (λ (r : ℕ × Payload A). r.0 < until now payload db) requests
      → length payload.items ≤ length requests
      → (rest : List A) × (collect requests first.next_cursor db' ≡ some rest)
        × (first.items ++ rest ≡ payload.items)
  unfolding page
  page_collects payload now db db' first requests p d e a n =
      elim (Bool-cases (leb (length payload.items) asked.limit)) [
        | inl small ↦
            let g : ◌≡◌ {A = Result (Page A × PageDb A)}
                (ok (page_of digests asked payload 0 none, db)) (ok (first, db')) =
              rw small at e in
            let f : page_of digests asked payload 0 none ≡ first = cc in
            rw (← f) (
              [],
              collect-none requests db',
              append-nil (take asked.limit payload.items)
                  ∙ take-all asked.limit payload.items (ground (arith, small)),
            )
        | inr large ↦
            let goes = page_tx-Goes payload now db d (rw large at e) in
            (
              drop (0 + asked.limit) payload.items,
              collect_lem payload (until now payload db) p requests (0 + asked.limit) db'
                  first.next_cursor goes.1 a (omega arith),
              rw (goes.0) (zero_limit payload),
            )
      ]
