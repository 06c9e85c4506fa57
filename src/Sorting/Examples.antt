-- ===== src/Sorting/Examples.antt =====
-- The acceptance of a concrete file (backend/wiseway/sorting.py) that another batch holds.
use wise_way.Prelude.{◌≡◌, refl, some, [], ◌∷◌}
use wise_way.Common.{Result, ok, err}
use wise_way.Records.{Phase}
use wise_way.Storage.{get, put, insert}
use wise_way.Database.{Db}
use wise_way.Samples.{file, row, an_attempt, db}
use wise_way.Sorting.Accept.{Accepting, accept_all}
use wise_way.Sorting.Claims.{accept_all_keeps}

abbrev accepting : Accepting
accepting = record {
  batch_id = 32;
  company_id = 3;
  actor = (an_attempt 21 Phase.done).actor;
  request_id = 42;
  now = 6;
}

abbrev rows_of : Result Db → Db
rows_of (ok rows) = rows
rows_of (err e) = db

abbrev accepted : Db
accepted = rows_of (accept_all accepting (23 ∷ []) (file ∷ []) (row ∷ []) db)

is-accepted : accept_all accepting (23 ∷ []) (file ∷ []) (row ∷ []) db ≡ ok accepted
unfolding accept_all get put insert
is-accepted = refl

held : get db.claim 11 ≡ some (record { attempt_id = 21; batch_id = 31 })
unfolding get
held = refl

accept_all_keeps_example : get accepted.claim 11 ≡ some (record { attempt_id = 21; batch_id = 31 })
accept_all_keeps_example =
    accept_all_keeps accepting (23 ∷ []) (file ∷ []) (row ∷ []) db 11
      (record { attempt_id = 21; batch_id = 31 }) is-accepted held
