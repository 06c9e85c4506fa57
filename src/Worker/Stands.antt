-- ===== src/Worker/Stands.antt =====
-- The attempts of the worker (backend/wiseway/worker.py) whose queue item is stored, and what its
-- transactions make of them.
pub mod Left
use wise_way.Prelude.{
  ℕ, ◌≡◌, refl, sym, ap, ◌∙◌, Bool, true, Option, some, Ident, ◌==◌, arith, Bool-cases, inl, inr,
  is_some,
}
use wise_way.Common.{ok, Location, Fingerprint}
use wise_way.Common.Bind.{>>=-eq-ok, ok-snd}
use wise_way.Records.{Reason, QueueItem, OutcomeState, Attempt}
use wise_way.Storage.{Table, get, require, put}
use wise_way.Storage.Laws.{get-put, require-eq-ok}
use wise_way.Database.{Db}
use wise_way.Host.{Host}
use wise_way.Exec.{◌>>=◌}
use wise_way.Exec.Keeps.{Keeps-write}
use wise_way.Worker.Transactions.{
  is_queued, is_done, is_recovery, start_attempt, intended, finish_item, finished_attempt,
  stopped_attempt, stopped_item, intent_tx, finish_open, finish_tx, recovery_rows, recovery_open,
  recovery_tx, requeue_tx, retry_tx, quarantine_intent_tx,
}
use wise_way.Worker.Writes.{Writes}
use wise_way.Worker.Frames.{start_attempt-SameTables, finish_rows-attempt, finish_rows-queue}

abbrev pub Stands : Ident → Db → Type 0
Stands x db =
    (a : Attempt) × (get db.attempt x ≡ some a) × (is_some (get db.queue a.item.item_id) ≡ true)

-- Every queue item of the rows before is there in the rows after.
abbrev Holds : Table QueueItem → Table QueueItem → Type 0
Holds rows rows' = (i : Ident) → is_some (get rows i) ≡ true → is_some (get rows' i) ≡ true

put-Holds : (rows : Table QueueItem) (i : Ident) (item : QueueItem) → Holds rows (put rows i item)
put-Holds rows i item j h = ground (arith, get-put rows i j item, h)

pub start_attempt_item :
    (db : Db) (a : Attempt) (t : ℕ) (l : Option Location) → (start_attempt db a t l).0.item ≡ a.item
unfolding start_attempt
start_attempt_item db a t l = ground arith

module _ (k x : Ident) where
  wrote-Stands :
      (db db' : Db) (a b : Attempt)
      → get db.attempt k ≡ some a
      → db'.attempt ≡ put db.attempt k b
      → b.item ≡ a.item
      → Holds db.queue db'.queue
      → Stands x db
      → Stands x db'
  wrote-Stands db db' a b found wrote same holds (c, e, q) =
      let after = ap (λ rows. get rows x) wrote ∙ get-put db.attempt k x b in
      elim (Bool-cases (k == x)) [
        | inl t ↦
            let here : k ≡ x = ground (arith, t) in
            let found_x : get db.attempt x ≡ some a = rw here at found in
            let c_is : c ≡ a = ground (arith, e, found_x) in
            let id_is : c.item.item_id ≡ b.item.item_id =
              ap (λ (d : Attempt). d.item.item_id) c_is
              ∙ sym (ap (λ (i : QueueItem). i.item_id) same) in
            (b, rw t at after, holds b.item.item_id (rw id_is at q))
        | inr f ↦ (c, (rw f at after) ∙ e, holds c.item.item_id q)
      ]

  finish_tx-Stands :
      (state : OutcomeState) (reason : Option Reason) (actual : Option Location) (t : ℕ)
      (current : Option Fingerprint) (db : Db) {u : Unit {0}} {db' : Db}
      → Stands x db
      → finish_tx k state reason actual t current db ≡ ok (u, db')
      → Stands x db'
  unfolding finish_tx finish_open
  finish_tx-Stands state reason actual t current db {db' = db'} stands h =
      let (a, r, e) = >>=-eq-ok (require db.attempt k) _ h in
      elim (Bool-cases (is_done a.phase)) [
        | inl done ↦ rw (ok-snd (rw done at e)) stands
        | inr unfinished ↦
            let (started, db1) = start_attempt db a t a.intent_target in
            let tables = start_attempt-SameTables db a t a.intent_target in
            let (item, _, q) =
              >>=-eq-ok (require db1.queue started.item.item_id) _ (rw unfinished at e) in
            let item' = finish_item item state reason current t in
            let queued : db'.queue ≡ put db.queue item'.item_id item' =
              ap (λ (d : Db). d.queue) (ok-snd q)
              ∙ finish_rows-queue k state reason actual t current started item db1
              ∙ ap (λ rows. put rows item'.item_id item') tables.queue in
            let wrote : db'.attempt
                ≡ put db.attempt k (finished_attempt started t state reason actual) =
              ap (λ (d : Db). d.attempt) (ok-snd q)
              ∙ finish_rows-attempt k state reason actual t current started item db1
              ∙ ap (λ rows. put rows k (finished_attempt started t state reason actual))
                  tables.attempt in
            wrote-Stands db db' a (finished_attempt started t state reason actual)
              (require-eq-ok db.attempt k r) wrote (start_attempt_item db a t a.intent_target)
              (rw queued (put-Holds db.queue item'.item_id item')) stands
      ]

  recovery_tx-Stands :
      (actual : Option Location) (t : ℕ) (db : Db) {b : Bool} {db' : Db}
      → Stands x db
      → recovery_tx k actual t db ≡ ok (b, db')
      → Stands x db'
  unfolding recovery_tx recovery_open recovery_rows
  recovery_tx-Stands actual t db {db' = db'} stands h =
      let (a, r, e) = >>=-eq-ok (require db.attempt k) _ h in
      elim (Bool-cases (is_done a.phase)) [
        | inl done ↦ rw (ok-snd (rw done at e)) stands
        | inr unfinished ↦
            let e' = rw unfinished at e in
            elim (Bool-cases (is_recovery a.phase)) [
              | inl known ↦ rw (ok-snd (rw known at e')) stands
              | inr fresh ↦
                  let (started, db1) = start_attempt db a t a.intent_target in
                  let tables = start_attempt-SameTables db a t a.intent_target in
                  let (item, _, q) =
                    >>=-eq-ok (require db1.queue started.item.item_id) _ (rw fresh at e') in
                  let queued : db'.queue ≡ put db.queue item.item_id (stopped_item item) =
                    ap (λ (d : Db). d.queue) (ok-snd q)
                    ∙ ap (λ rows. put rows item.item_id (stopped_item item)) tables.queue in
                  let wrote : db'.attempt ≡ put db.attempt k (stopped_attempt started actual) =
                    ap (λ (d : Db). d.attempt) (ok-snd q)
                    ∙ ap (λ rows. put rows k (stopped_attempt started actual)) tables.attempt in
                  wrote-Stands db db' a (stopped_attempt started actual)
                    (require-eq-ok db.attempt k r) wrote (start_attempt_item db a t a.intent_target)
                    (rw queued (put-Holds db.queue item.item_id (stopped_item item))) stands
            ]
      ]

  intent_tx-Stands :
      (target : Location) (state : OutcomeState) (reason : Option Reason) (t : ℕ) (db : Db)
      {u : Unit {0}} {db' : Db}
      → Stands x db
      → intent_tx k target state reason t db ≡ ok (u, db')
      → Stands x db'
  unfolding intent_tx
  intent_tx-Stands target state reason t db {db' = db'} stands h =
      let (a, r, e) = >>=-eq-ok (require db.attempt k) _ h in
      elim (Bool-cases (is_queued a.phase)) [
        | inr other ↦ rw (ok-snd (rw other at e)) stands
        | inl queued ↦
            let planned = intended a target state reason in
            let (started, db1) = start_attempt db planned t (some target) in
            let tables = start_attempt-SameTables db planned t (some target) in
            let wrote : db'.attempt ≡ put db.attempt k started =
              ap (λ (d : Db). d.attempt) (ok-snd (rw queued at e))
              ∙ ap (λ rows. put rows k started) tables.attempt in
            let kept : db'.queue ≡ db.queue =
              ap (λ (d : Db). d.queue) (ok-snd (rw queued at e)) ∙ tables.queue in
            wrote-Stands db db' a started (require-eq-ok db.attempt k r) wrote
              (start_attempt_item db planned t (some target)) (rw kept (λ i p. p)) stands
      ]

  -- a transaction that writes the attempt only
  rewrote-Stands :
      (db db' : Db) (a b : Attempt)
      → require db.attempt k ≡ ok a
      → db' ≡ record db { attempt = put db.attempt k b }
      → b.item ≡ a.item
      → Stands x db
      → Stands x db'
  rewrote-Stands db db' a b r same item stands =
      wrote-Stands db db' a b (require-eq-ok db.attempt k r) (ap (λ (d : Db). d.attempt) same) item
        (rw (ap (λ (d : Db). d.queue) same) (λ i p. p)) stands

  requeue_tx-Stands :
      (db : Db) {u : Unit {0}} {db' : Db}
      → Stands x db
      → requeue_tx k db ≡ ok (u, db')
      → Stands x db'
  unfolding requeue_tx
  requeue_tx-Stands db {db' = db'} stands h =
      let (a, r, e) = >>=-eq-ok (require db.attempt k) _ h in
      rewrote-Stands db db' a _ r (ok-snd e) refl stands

  retry_tx-Stands :
      (db : Db) {u : Unit {0}} {db' : Db} → Stands x db → retry_tx k db ≡ ok (u, db') → Stands x db'
  unfolding retry_tx
  retry_tx-Stands db {db' = db'} stands h =
      let (a, r, e) = >>=-eq-ok (require db.attempt k) _ h in
      rewrote-Stands db db' a _ r (ok-snd e) refl stands

  quarantine_intent_tx-Stands :
      (target : Location) (db : Db) {u : Unit {0}} {db' : Db}
      → Stands x db
      → quarantine_intent_tx k target db ≡ ok (u, db')
      → Stands x db'
  unfolding quarantine_intent_tx
  quarantine_intent_tx-Stands target db {db' = db'} stands h =
      let (a, r, e) = >>=-eq-ok (require db.attempt k) _ h in
      rewrote-Stands db db' a _ r (ok-snd e) refl stands

pub standing_writes : (host : Host) (k x : Ident) → Writes host k (Stands x)
standing_writes host k x = record {
  at_finish = λ state reason actual t current.
      Keeps-write _ (λ db a db' h e. finish_tx-Stands k x state reason actual t current db h e);
  at_recovery = λ actual t. Keeps-write _ (λ db a db' h e. recovery_tx-Stands k x actual t db h e);
  at_intent = λ target state reason t.
      Keeps-write _ (λ db a db' h e. intent_tx-Stands k x target state reason t db h e);
  at_requeue = Keeps-write _ (λ db a db' h e. requeue_tx-Stands k x db h e);
  at_retry = Keeps-write _ (λ db a db' h e. retry_tx-Stands k x db h e);
  at_quarantine_intent =
      λ target. Keeps-write _ (λ db a db' h e. quarantine_intent_tx-Stands k x target db h e);
}
