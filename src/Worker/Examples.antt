-- ===== src/Worker/Examples.antt =====
-- The worker of backend/wiseway/worker.py on two concrete attempts.
use wise_way.Prelude.{Ident, Member, ℕ, ◌≢◌, inl, inr, is_some, ◌≡◌, refl, true, some, arith}
use wise_way.Common.{ok}
use wise_way.Records.{Phase, Attempt}
use wise_way.Worker.Passes.{run_once_settles}
use wise_way.Storage.{get}
use wise_way.Worker.{run, recover, run_once}
use wise_way.Worker.Isolation.Runs.{run-recover_isolated}
use wise_way.Worker.Done.{run_once-recover_done}
use wise_way.Samples.{an_attempt, db, still, initial, text_of}

run-recover_isolated_example :
    (get (run text_of 21 initial).1.db.attempt 22 ≡ get db.attempt 22)
    × (get (recover text_of true 21 initial).1.db.attempt 22 ≡ get db.attempt 22)
run-recover_isolated_example = run-recover_isolated still text_of true 21 22 initial (omega arith)

found : get db.attempt 22 ≡ some (an_attempt 22 Phase.done)
unfolding get
found = refl

run_once-recover_done_example :
    (get (run_once text_of true initial).1.db.attempt 22 ≡ some (an_attempt 22 Phase.done))
    × (get (recover text_of true 22 initial).1.db.attempt 22 ≡ some (an_attempt 22 Phase.done))
run_once-recover_done_example =
    run_once-recover_done still text_of true 22 22 initial (an_attempt 22 Phase.done) found refl

-- the two attempts of the sample rows
rows_sound :
    (j : Ident) (a : Attempt)
    → Member (j, a) db.attempt
    → (a.attempt_id ≡ j) × (is_some (get db.queue a.item.item_id) ≡ true)
unfolding get
rows_sound j a (inl e) = ground arith
rows_sound j a (inr (inl e)) = ground arith
rows_sound j a (inr (inr m)) = elim m [ ]

run_once_settles_example :
    (n : ℕ) × ((run_once text_of true initial).0 ≡ ok n)
    × ((k : Ident) (a : Attempt)
        → get (run_once text_of true initial).1.db.attempt k ≡ some a
        → a.phase ≢ Phase.queued)
run_once_settles_example = run_once_settles still text_of initial rows_sound
