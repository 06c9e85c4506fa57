-- ===== src/Worker/Queued.antt =====
-- What the transactions of the worker (backend/wiseway/worker.py) on one attempt make of its phase.
pub mod Methods
pub mod Passes
use wise_way.Prelude.{
  ℕ, ◌≡◌, refl, sym, ap, ◌∙◌, Bool, false, Option, some, Ident, arith, if◌then◌else◌, Bool-cases,
  inl, inr,
}
use wise_way.Common.{ok, Location, Fingerprint}
use wise_way.Common.Bind.{>>=-eq-ok, ok-snd}
use wise_way.Records.{Reason, OutcomeState, Phase, Attempt}
use wise_way.Storage.{Table, get, require, put}
use wise_way.Storage.Laws.{get-put, require-eq-ok}
use wise_way.Database.{Db}
use wise_way.Exec.{◌>>=◌}
use wise_way.Worker.{intent}
use wise_way.Worker.Transactions.{
  is_queued, is_done, is_recovery, start_attempt, intended, finished_attempt, stopped_attempt,
  intent_tx, finish_open, finish_tx, recovery_rows, recovery_open, recovery_tx, retry_tx,
  quarantine_intent_tx,
}
use wise_way.Worker.Frames.{finish_rows-attempt}

-- the attempt `k`, if there is one, does not wait to be run
abbrev pub Settled : Ident → Db → Type 0
Settled k db = (a : Attempt) → get db.attempt k ≡ some a → is_queued a.phase ≡ false

-- the transactions on the attempt `k`
module _ (k : Ident) where
  wrote-Settled :
      (rows : Table Attempt) (a : Attempt) (db : Db)
      → db.attempt ≡ put rows k a
      → is_queued a.phase ≡ false
      → Settled k db
  wrote-Settled rows a db e q b h =
      let at_k = get-put rows k k a in
      let read : get (put rows k a) k ≡ some b = sym (ap (λ t. get t k) e) ∙ h in
      ground (arith, at_k, read, q)

  pub found-Settled :
      (db : Db) (a : Attempt) → get db.attempt k ≡ some a → is_queued a.phase ≡ false → Settled k db
  found-Settled db a e q b h = ground (arith, e, q, h)

  kept_row :
      (db : Db) (a : Attempt) (db' : Db)
      → require db.attempt k ≡ ok a
      → db' ≡ db
      → is_queued a.phase ≡ false
      → Settled k db'
  kept_row db a db' r same q =
      found-Settled db' a (ap (λ (d : Db). get d.attempt k) same ∙ require-eq-ok db.attempt k r) q

  finish_open-Settled :
      (state : OutcomeState) (reason : Option Reason) (actual : Option Location) (t : ℕ)
      (current : Option Fingerprint) (started : Attempt) (db : Db) {u : Unit {0}} {db' : Db}
      → finish_open k state reason actual t current (started, db) ≡ ok (u, db')
      → Settled k db'
  unfolding finish_open
  finish_open-Settled state reason actual t current started db {db' = db'} h =
      let (item, _, e) = >>=-eq-ok (require db.queue started.item.item_id) _ h in
      wrote-Settled db.attempt (finished_attempt started t state reason actual) db'
        (ap (λ (d : Db). d.attempt) (ok-snd e)
          ∙ finish_rows-attempt k state reason actual t current started item db)
        refl

  pub finish_tx-Settled :
      (state : OutcomeState) (reason : Option Reason) (actual : Option Location) (t : ℕ)
      (current : Option Fingerprint) (db : Db) {u : Unit {0}} {db' : Db}
      → finish_tx k state reason actual t current db ≡ ok (u, db')
      → Settled k db'
  unfolding finish_tx
  finish_tx-Settled state reason actual t current db {db' = db'} h =
      let (a, r, e) = >>=-eq-ok (require db.attempt k) _ h in
      elim (Bool-cases (is_done a.phase)) [
        | inl done ↦ kept_row db a db' r (ok-snd (rw done at e)) (ground (arith, done))
        | inr unfinished ↦
            let (started, db1) = start_attempt db a t a.intent_target in
            finish_open-Settled state reason actual t current started db1 (rw unfinished at e)
      ]

  pub recovery_tx-Settled :
      (actual : Option Location) (t : ℕ) (db : Db) {b : Bool} {db' : Db}
      → recovery_tx k actual t db ≡ ok (b, db')
      → Settled k db'
  unfolding recovery_tx recovery_open recovery_rows
  recovery_tx-Settled actual t db {db' = db'} h =
      let (a, r, e) = >>=-eq-ok (require db.attempt k) _ h in
      elim (Bool-cases (is_done a.phase)) [
        | inl done ↦ kept_row db a db' r (ok-snd (rw done at e)) (ground (arith, done))
        | inr unfinished ↦
            let e' = rw unfinished at e in
            elim (Bool-cases (is_recovery a.phase)) [
              | inl known ↦ kept_row db a db' r (ok-snd (rw known at e')) (ground (arith, known))
              | inr fresh ↦
                  let (started, db1) = start_attempt db a t a.intent_target in
                  let (item, _, q) =
                    >>=-eq-ok (require db1.queue started.item.item_id) _ (rw fresh at e') in
                  wrote-Settled db1.attempt (stopped_attempt started actual) db'
                    (ap (λ (d : Db). d.attempt) (ok-snd q)) refl
            ]
      ]

  pub intent_tx-Settled :
      (target : Location) (state : OutcomeState) (reason : Option Reason) (t : ℕ) (db : Db)
      {u : Unit {0}} {db' : Db}
      → intent_tx k target state reason t db ≡ ok (u, db')
      → Settled k db'
  unfolding intent_tx start_attempt
  intent_tx-Settled target state reason t db {db' = db'} h =
      let (a, r, e) = >>=-eq-ok (require db.attempt k) _ h in
      elim (Bool-cases (is_queued a.phase)) [
        | inr other ↦ kept_row db a db' r (ok-snd (rw other at e)) other
        | inl queued ↦
            let planned = intended a target state reason in
            let (started, db1) = start_attempt db planned t (some target) in
            wrote-Settled db1.attempt started db'
              (ap (λ (d : Db). d.attempt) (ok-snd (rw queued at e))) (ground arith)
      ]

  pub retry_tx-Settled :
      (db : Db) {u : Unit {0}} {db' : Db} → retry_tx k db ≡ ok (u, db') → Settled k db'
  unfolding retry_tx
  retry_tx-Settled db {db' = db'} h =
      let (a, _, e) = >>=-eq-ok (require db.attempt k) _ h in
      wrote-Settled db.attempt (record a { phase = Phase.intent }) db'
        (ap (λ (d : Db). d.attempt) (ok-snd e)) refl

  -- the intent of a quarantine leaves the phase
  pub quarantine_intent_tx-Settled :
      (target : Location) (db : Db) {u : Unit {0}} {db' : Db}
      → Settled k db
      → quarantine_intent_tx k target db ≡ ok (u, db')
      → Settled k db'
  unfolding quarantine_intent_tx
  quarantine_intent_tx-Settled target db {db' = db'} settled h =
      let (a, r, e) = >>=-eq-ok (require db.attempt k) _ h in
      wrote-Settled db.attempt _ db' (ap (λ (d : Db). d.attempt) (ok-snd e))
        (settled a (require-eq-ok db.attempt k r))
