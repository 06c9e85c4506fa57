-- ===== src/Worker/Frames.antt =====
-- What the transactions of backend/wiseway/worker.py do to each table, row by row.
use wise_way.Prelude.{ℕ, ◌≡◌, refl, ◌∙◌, Option, some, Ident, arith}
use wise_way.Common.{Location, Fingerprint}
use wise_way.Records.{Reason, QueueItem, OutcomeState, Attempt}
use wise_way.Storage.{put, delete}
use wise_way.Database.{Db}
use wise_way.Worker.Transactions.{
  start_attempt, put_quarantine, enqueue_move, finish_item, finish_quarantine, finish_outbox,
  finished_attempt, finish_rows,
}

-- the three tables that say who works on what
pub record SameTables (db db' : Db) : Type 0 where
  pub attempt : db'.attempt ≡ db.attempt
  pub queue : db'.queue ≡ db.queue
  pub claim : db'.claim ≡ db.claim

pub start_attempt-SameTables :
    (db : Db) (a : Attempt) (t : ℕ) (l : Option Location) → SameTables db (start_attempt db a t l).1
unfolding start_attempt
start_attempt-SameTables db a t l = ground arith

put_quarantine-SameTables :
    (db : Db) (a : Attempt) (l : Location) (t : ℕ) → SameTables db (put_quarantine db a l t)
unfolding put_quarantine
put_quarantine-SameTables db a l t = ground arith

enqueue_move-SameTables :
    (db : Db) (k i : Ident) (l : Location) (f : Fingerprint)
    → SameTables db (enqueue_move db k i l f)
unfolding enqueue_move
enqueue_move-SameTables db k i l f = ground arith

finish_quarantine-SameTables :
    (state : OutcomeState) (db : Db) (a : Attempt) (l : Option Location) (t : ℕ)
    → SameTables db (finish_quarantine state db a l t)
finish_quarantine-SameTables OutcomeState.quarantined db a (some l) t =
    put_quarantine-SameTables db a l t
finish_quarantine-SameTables _ db a _ t = record { attempt = refl; queue = refl; claim = refl }

finish_outbox-SameTables :
    (state : OutcomeState) (db : Db) (k i : Ident) (a : Attempt) (l : Option Location)
    → SameTables db (finish_outbox state db k i a l)
finish_outbox-SameTables OutcomeState.sorted db k i a (some l) =
    enqueue_move-SameTables db k i l a.item.fingerprint
finish_outbox-SameTables _ db k i a _ = record { attempt = refl; queue = refl; claim = refl }

-- The three tables after a finish: the attempt is written, its item is written, its claim is gone.
pub finish_rows-attempt :
    (k : Ident) (state : OutcomeState) (reason : Option Reason) (actual : Option Location) (t : ℕ)
    (current : Option Fingerprint) (started : Attempt) (item : QueueItem) (db : Db)
    → (finish_rows k state reason actual t current started item db).attempt
      ≡ put db.attempt k (finished_attempt started t state reason actual)
unfolding finish_rows
finish_rows-attempt k state reason actual t current started item db =
    let finished = finished_attempt started t state reason actual in
    (finish_outbox-SameTables state _ k _ finished actual).attempt
    ∙ (finish_quarantine-SameTables state _ finished actual t).attempt

pub finish_rows-queue :
    (k : Ident) (state : OutcomeState) (reason : Option Reason) (actual : Option Location) (t : ℕ)
    (current : Option Fingerprint) (started : Attempt) (item : QueueItem) (db : Db)
    → (finish_rows k state reason actual t current started item db).queue
      ≡ put db.queue
          (finish_item item state reason current t).item_id
          (finish_item item state reason current t)
unfolding finish_rows
finish_rows-queue k state reason actual t current started item db =
    let finished = finished_attempt started t state reason actual in
    (finish_outbox-SameTables state _ k _ finished actual).queue
    ∙ (finish_quarantine-SameTables state _ finished actual t).queue

pub finish_rows-claim :
    (k : Ident) (state : OutcomeState) (reason : Option Reason) (actual : Option Location) (t : ℕ)
    (current : Option Fingerprint) (started : Attempt) (item : QueueItem) (db : Db)
    → (finish_rows k state reason actual t current started item db).claim
      ≡ delete db.claim (finish_item item state reason current t).item_id
unfolding finish_rows
finish_rows-claim k state reason actual t current started item db =
    let finished = finished_attempt started t state reason actual in
    (finish_outbox-SameTables state _ k _ finished actual).claim
    ∙ (finish_quarantine-SameTables state _ finished actual t).claim
