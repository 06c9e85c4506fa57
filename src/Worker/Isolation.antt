-- ===== src/Worker/Isolation.antt =====
-- What the worker (backend/wiseway/worker.py) does to one attempt changes no other attempt.
pub mod Runs
use wise_way.Prelude.{ℕ, ◌≡◌, ◌≢◌, ap, ◌∙◌, Bool, Option, some, Ident, arith, Bool-cases, inl, inr}
use wise_way.Common.{ok, Location, Fingerprint}
use wise_way.Common.Bind.{>>=-eq-ok, ok-snd}
use wise_way.Records.{Reason, OutcomeState, Attempt}
use wise_way.Storage.{Table, get, require, put}
use wise_way.Storage.Laws.{get-put}
use wise_way.Database.{Db}
use wise_way.Host.{Host}
use wise_way.Exec.{write}
use wise_way.Exec.Keeps.{Keeps, Keeps-write}
use wise_way.Worker.Transactions.{
  is_queued, is_done, is_recovery, start_attempt, intended, finished_attempt, stopped_attempt,
  intent_tx, finish_open, finish_tx, recovery_rows, recovery_open, recovery_tx, requeue_tx,
  retry_tx, quarantine_intent_tx,
}
use wise_way.Worker.Writes.{Writes}
use wise_way.Worker.Frames.{start_attempt-SameTables, finish_rows-attempt}

get-put_ne :
    (rows : Table Attempt) (k j : Ident) (a : Attempt) → k ≢ j → get (put rows k a) j ≡ get rows j
get-put_ne rows k j a n = ground (arith, get-put rows k j a)

-- the transactions on the attempt `k`, seen from the attempt `j`
module _ (k j : Ident) (n : k ≢ j) where
  wrote_other :
      (db db' : Db) (a : Attempt)
      → db'.attempt ≡ put db.attempt k a
      → get db'.attempt j ≡ get db.attempt j
  wrote_other db db' a e = ap (λ rows. get rows j) e ∙ get-put_ne db.attempt k j a n

  finish_open_other :
      (state : OutcomeState) (reason : Option Reason) (actual : Option Location) (t : ℕ)
      (current : Option Fingerprint) (started : Attempt) (db : Db) {u : Unit {0}} {db' : Db}
      → finish_open k state reason actual t current (started, db) ≡ ok (u, db')
      → get db'.attempt j ≡ get db.attempt j
  unfolding finish_open
  finish_open_other state reason actual t current started db {db' = db'} h =
      let (item, _, e) = >>=-eq-ok (require db.queue started.item.item_id) _ h in
      wrote_other db db' (finished_attempt started t state reason actual) (
        ap (λ (d : Db). d.attempt) (ok-snd e)
        ∙ finish_rows-attempt k state reason actual t current started item db)

  finish_tx_other :
      (state : OutcomeState) (reason : Option Reason) (actual : Option Location) (t : ℕ)
      (current : Option Fingerprint) (db : Db) {u : Unit {0}} {db' : Db}
      → finish_tx k state reason actual t current db ≡ ok (u, db')
      → get db'.attempt j ≡ get db.attempt j
  unfolding finish_tx
  finish_tx_other state reason actual t current db h =
      let (a, _, e) = >>=-eq-ok (require db.attempt k) _ h in
      elim (Bool-cases (is_done a.phase)) [
        | inl done ↦ ap (λ (d : Db). get d.attempt j) (ok-snd (rw done at e))
        | inr unfinished ↦
            let (started, db1) = start_attempt db a t a.intent_target in
            finish_open_other state reason actual t current started db1 (rw unfinished at e)
            ∙ ap (λ rows. get rows j) (start_attempt-SameTables db a t a.intent_target).attempt
      ]

  recovery_open_other :
      (actual : Option Location) (t : ℕ) (started : Attempt) (db : Db) {b : Bool} {db' : Db}
      → recovery_open k actual t (started, db) ≡ ok (b, db')
      → get db'.attempt j ≡ get db.attempt j
  unfolding recovery_open recovery_rows
  recovery_open_other actual t started db {db' = db'} h =
      let (item, _, e) = >>=-eq-ok (require db.queue started.item.item_id) _ h in
      wrote_other db db' (stopped_attempt started actual) (ap (λ (d : Db). d.attempt) (ok-snd e))

  recovery_tx_other :
      (actual : Option Location) (t : ℕ) (db : Db) {b : Bool} {db' : Db}
      → recovery_tx k actual t db ≡ ok (b, db')
      → get db'.attempt j ≡ get db.attempt j
  unfolding recovery_tx
  recovery_tx_other actual t db h =
      let (a, _, e) = >>=-eq-ok (require db.attempt k) _ h in
      elim (Bool-cases (is_done a.phase)) [
        | inl done ↦ ap (λ (d : Db). get d.attempt j) (ok-snd (rw done at e))
        | inr unfinished ↦
            let e' = rw unfinished at e in
            elim (Bool-cases (is_recovery a.phase)) [
              | inl known ↦ ap (λ (d : Db). get d.attempt j) (ok-snd (rw known at e'))
              | inr fresh ↦
                  let (started, db1) = start_attempt db a t a.intent_target in
                  recovery_open_other actual t started db1 (rw fresh at e')
                  ∙ ap (λ rows. get rows j)
                      (start_attempt-SameTables db a t a.intent_target).attempt
            ]
      ]

  intent_tx_other :
      (target : Location) (state : OutcomeState) (reason : Option Reason) (t : ℕ) (db : Db)
      {u : Unit {0}} {db' : Db}
      → intent_tx k target state reason t db ≡ ok (u, db')
      → get db'.attempt j ≡ get db.attempt j
  unfolding intent_tx
  intent_tx_other target state reason t db {db' = db'} h =
      let (a, _, e) = >>=-eq-ok (require db.attempt k) _ h in
      elim (Bool-cases (is_queued a.phase)) [
        | inr other ↦ ap (λ (d : Db). get d.attempt j) (ok-snd (rw other at e))
        | inl queued ↦
            let planned = intended a target state reason in
            let (started, db1) = start_attempt db planned t (some target) in
            wrote_other db1 db' started (ap (λ (d : Db). d.attempt) (ok-snd (rw queued at e)))
            ∙ ap (λ rows. get rows j) (start_attempt-SameTables db planned t (some target)).attempt
      ]

  requeue_tx_other :
      (db : Db) {u : Unit {0}} {db' : Db}
      → requeue_tx k db ≡ ok (u, db')
      → get db'.attempt j ≡ get db.attempt j
  unfolding requeue_tx
  requeue_tx_other db {db' = db'} h =
      let (a, _, e) = >>=-eq-ok (require db.attempt k) _ h in
      wrote_other db db' _ (ap (λ (d : Db). d.attempt) (ok-snd e))

  retry_tx_other :
      (db : Db) {u : Unit {0}} {db' : Db}
      → retry_tx k db ≡ ok (u, db')
      → get db'.attempt j ≡ get db.attempt j
  unfolding retry_tx
  retry_tx_other db {db' = db'} h =
      let (a, _, e) = >>=-eq-ok (require db.attempt k) _ h in
      wrote_other db db' _ (ap (λ (d : Db). d.attempt) (ok-snd e))

  quarantine_intent_tx_other :
      (target : Location) (db : Db) {u : Unit {0}} {db' : Db}
      → quarantine_intent_tx k target db ≡ ok (u, db')
      → get db'.attempt j ≡ get db.attempt j
  unfolding quarantine_intent_tx
  quarantine_intent_tx_other target db {db' = db'} h =
      let (a, _, e) = >>=-eq-ok (require db.attempt k) _ h in
      wrote_other db db' _ (ap (λ (d : Db). d.attempt) (ok-snd e))

-- the row of the attempt `j`
abbrev pub RowIs : Ident → Option Attempt → Db → Type 0
RowIs j kept db = get db.attempt j ≡ kept

module _ (host : Host) (k j : Ident) (n : k ≢ j) (kept : Option Attempt) where
  finish_write :
      (state : OutcomeState) (reason : Option Reason) (actual : Option Location) (t : ℕ)
      (current : Option Fingerprint)
      → Keeps (RowIs j kept) (write {host = host} (finish_tx k state reason actual t current))
  finish_write state reason actual t current =
      Keeps-write _ (λ db a db' h e. finish_tx_other k j n state reason actual t current db e ∙ h)

  recovery_write :
      (actual : Option Location) (t : ℕ)
      → Keeps (RowIs j kept) (write {host = host} (recovery_tx k actual t))
  recovery_write actual t =
      Keeps-write _ (λ db a db' h e. recovery_tx_other k j n actual t db e ∙ h)

  intent_write :
      (target : Location) (state : OutcomeState) (reason : Option Reason) (t : ℕ)
      → Keeps (RowIs j kept) (write {host = host} (intent_tx k target state reason t))
  intent_write target state reason t =
      Keeps-write _ (λ db a db' h e. intent_tx_other k j n target state reason t db e ∙ h)

  requeue_write : Keeps (RowIs j kept) (write {host = host} (requeue_tx k))
  requeue_write = Keeps-write _ (λ db a db' h e. requeue_tx_other k j n db e ∙ h)

  retry_write : Keeps (RowIs j kept) (write {host = host} (retry_tx k))
  retry_write = Keeps-write _ (λ db a db' h e. retry_tx_other k j n db e ∙ h)

  quarantine_intent_write :
      (target : Location)
      → Keeps (RowIs j kept) (write {host = host} (quarantine_intent_tx k target))
  quarantine_intent_write target =
      Keeps-write _ (λ db a db' h e. quarantine_intent_tx_other k j n target db e ∙ h)

  pub isolated_writes : Writes host k (RowIs j kept)
  isolated_writes = record {
    at_finish = finish_write;
    at_recovery = recovery_write;
    at_intent = intent_write;
    at_requeue = requeue_write;
    at_retry = retry_write;
    at_quarantine_intent = quarantine_intent_write;
  }
