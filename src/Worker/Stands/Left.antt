-- ===== src/Worker/Stands/Left.antt =====
-- `_recovery_required` of backend/wiseway/worker.py on an attempt whose queue item is stored.
use wise_way.Prelude.{
  ℕ, ◌≡◌, refl, ap, Bool, true, false, Option, Ident, arith, Bool-cases, Option-cases, inl, inr,
  is_some,
}
use wise_way.Common.{Result, ok, Location}
use wise_way.Records.{QueueItem, Attempt}
use wise_way.Storage.{get, require}
use wise_way.Database.{Db}
use wise_way.Host.{Host}
use wise_way.Exec.{Sys, ◌>>=◌, commit}
use wise_way.Worker.{recovery_required}
use wise_way.Worker.Transactions.{
  is_done, is_recovery, start_attempt, recovery_rows, recovery_open, recovery_tx,
}
use wise_way.Worker.Frames.{start_attempt-SameTables}
use wise_way.Worker.Stands.{Stands, start_attempt_item}

recovery_open_returns :
    (k : Ident) (actual : Option Location) (t : ℕ) (started : Attempt) (db : Db)
    → is_some (get db.queue started.item.item_id) ≡ true
    → (b : Bool) × (db' : Db) × (recovery_open k actual t (started, db) ≡ ok (b, db'))
unfolding recovery_open require
recovery_open_returns k actual t started db h =
    elim (Option-cases (get db.queue started.item.item_id)) [
      | inl e ↦ ground (arith, e, h)
      | inr (item, e) ↦ (true, recovery_rows k actual t started item db, rw e refl)
    ]

-- An attempt that stands can always be left to an operator.
recovery_tx_returns :
    (k : Ident) (actual : Option Location) (t : ℕ) (db : Db)
    → Stands k db
    → (b : Bool) × (db' : Db) × (recovery_tx k actual t db ≡ ok (b, db'))
unfolding recovery_tx require
recovery_tx_returns k actual t db (a, e, q) = elim (Bool-cases (is_done a.phase)) [
  | inl done ↦ (false, db, rw (e, done) refl)
  | inr unfinished ↦ elim (Bool-cases (is_recovery a.phase)) [
    | inl known ↦ (true, db, rw (e, unfinished, known) refl)
    | inr fresh ↦
        let (started, db1) = start_attempt db a t a.intent_target in
        let tables = start_attempt-SameTables db a t a.intent_target in
        let item : started.item ≡ a.item = start_attempt_item db a t a.intent_target in
        let q1 : is_some (get db1.queue started.item.item_id) ≡ true =
          rw (tables.queue, ap (λ (i : QueueItem). i.item_id) item) q in
        let (b, db', r) = recovery_open_returns k actual t started db1 q1 in
        (b, db', rw (e, unfinished, fresh) r)
  ]
]

commit_returns :
    {host : Host} {A : Type 0} (r : Result (A × Db)) (s : Sys host) (a : A) (db : Db)
    → r ≡ ok (a, db)
    → (commit r s).0 ≡ ok a
unfolding commit
commit_returns r s a db e = rw e refl

pub recovery_required_returns :
    (host : Host) (k : Ident) (actual : Option Location) (s : Sys host)
    → Stands k s.db
    → (b : Bool) × ((recovery_required k actual s).0 ≡ ok b)
unfolding recovery_required require ◌>>=◌
recovery_required_returns host k actual s (a, e, q) = elim (Bool-cases (is_done a.phase)) [
  | inl done ↦ (false, rw (e, done) refl)
  | inr unfinished ↦ elim (Bool-cases (is_recovery a.phase)) [
    | inl known ↦ (true, rw (e, unfinished, known) refl)
    | inr fresh ↦
        let (t, w) = host.clock s.world in
        let (b, db', r) = recovery_tx_returns k actual t s.db (a, e, q) in
        (b, rw (e, unfinished, fresh) (commit_returns _ (record s { world = w }) b db' r))
  ]
]
