-- ===== src/Worker/Isolation/Runs.antt =====
-- The runs of the worker (backend/wiseway/worker.py) on one attempt, seen from another attempt.
use wise_way.Prelude.{◌≡◌, ◌≢◌, Ident, Text, Bool, refl}
use wise_way.Storage.{get}
use wise_way.Host.{Host}
use wise_way.Exec.{Sys}
use wise_way.Worker.{run, recover}
use wise_way.Worker.Writes.Runs.{run-Keeps, recover-Keeps}
use wise_way.Worker.Isolation.{RowIs, isolated_writes}

-- A run of the worker on the attempt `k`, and an operator's recovery of it, change no other
-- attempt `j`, whatever the surroundings answer and whether they return or raise.
pub run-recover_isolated :
    (host : Host) (id_text : Ident → Text) (held : Bool) (k j : Ident) (s : Sys host)
    → k ≢ j
    → (get (run id_text k s).1.db.attempt j ≡ get s.db.attempt j)
      × (get (recover id_text held k s).1.db.attempt j ≡ get s.db.attempt j)
run-recover_isolated host id_text held k j s n =
    let kept = get s.db.attempt j in
    (
      (run-Keeps host id_text k (RowIs j kept) (isolated_writes host k j n kept)).at s refl,
      (recover-Keeps host id_text k (RowIs j kept) (isolated_writes host k j n kept) held).at s
          refl,
    )
