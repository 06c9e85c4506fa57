-- ===== src/Worker/Done.antt =====
-- A pass of the worker (backend/wiseway/worker.py), seen from a finished attempt.
use wise_way.Prelude.{
  ◌≡◌, ◌≢◌, refl, ap, ◌∙◌, Bool, true, false, Option, some, List, [], ◌∷◌, Ident, Text, ◌==◌, arith,
  Bool-cases, inl, inr,
}
use wise_way.Common.{ok}
use wise_way.Records.{Phase, Attempt}
use wise_way.Storage.{get}
use wise_way.Host.{Host}
use wise_way.Exec.{Sys, ◌>>=◌}
use wise_way.Exec.Keeps.{Keeps, keeps_rules}
use wise_way.Worker.{
  run_attempt, run_phase, run_within, recover_with, recover_attempt, run, recover, settle, process,
  process_all, run_once,
}
use wise_way.Worker.Writes.Runs
use wise_way.Worker.Isolation.{RowIs, isolated_writes}

module _ (host : Host) (id_text : Ident → Text) where
  pub process_same :
      (k j : Ident) (n : k ≢ j) (kept : Option Attempt)
      → Keeps (RowIs j kept) (process {host = host} id_text k)
  process_same k j n kept =
      Runs.process-Keeps host id_text k (RowIs j kept) (isolated_writes host k j n kept)

  -- on the finished attempt itself nothing is done
  module _ (k : Ident) (a : Attempt) (finished : a.phase ≡ Phase.done) where
    run_done :
        (s : Sys host) → get s.db.attempt k ≡ some a → run {host = host} id_text k s ≡ (ok false, s)
    unfolding ◌>>=◌ run run_within run_attempt run_phase
    run_done s e = rw (e, finished) refl

    recover_done :
        (held : Bool) (s : Sys host)
        → get s.db.attempt k ≡ some a
        → (recover {host = host} id_text held k s).1 ≡ s
    unfolding ◌>>=◌ recover recover_with recover_attempt
    recover_done false s e = refl
    recover_done true s e = rw (e, finished) refl

    process_done :
        (s : Sys host) → get s.db.attempt k ≡ some a → (process {host = host} id_text k s).1 ≡ s
    unfolding ◌>>=◌ process settle
    process_done s e = rw (run_done s e) refl

  module _ (j : Ident) (a : Attempt) (finished : a.phase ≡ Phase.done) where
    process-Keeps : (k : Ident) → Keeps (RowIs j (some a)) (process {host = host} id_text k)
    process-Keeps k = elim (Bool-cases (k == j)) [
      | inl e ↦
          let same : k ≡ j = ground (arith, e) in
          record {
            at = λ s h.
                ap (λ (t : Sys host). get t.db.attempt j) (process_done k a finished s (rw same h))
                ∙ h;
          }
      | inr e ↦ process_same k j (λ same. ground (arith, same, e)) (some a)
    ]

    recover-Keeps :
        (held : Bool) (k : Ident) → Keeps (RowIs j (some a)) (recover {host = host} id_text held k)
    recover-Keeps held k = elim (Bool-cases (k == j)) [
      | inl e ↦
          let same : k ≡ j = ground (arith, e) in
          record {
            at = λ s h.
                ap (λ (t : Sys host). get t.db.attempt j)
                  (recover_done k a finished held s (rw same h))
                ∙ h;
          }
      | inr e ↦
          Runs.recover-Keeps host id_text k (RowIs j (some a))
            (isolated_writes host k j (λ same. ground (arith, same, e)) (some a)) held
    ]

    process_all-Keeps :
        (ks : List Ident) → Keeps (RowIs j (some a)) (process_all {host = host} id_text ks)
    unfolding process_all
    process_all-Keeps [] = search keeps_rules
    process_all-Keeps (k ∷ ks) =
        let rest = process_all-Keeps ks in search (keeps_rules, process-Keeps) depth 8

    run_once-Keeps : (held : Bool) → Keeps (RowIs j (some a)) (run_once {host = host} id_text held)
    unfolding run_once
    run_once-Keeps held = search (keeps_rules, process_all-Keeps) depth 8

-- A pass of the worker over all its attempts, and an operator's recovery of any attempt `k`, leave
-- the row of a finished attempt `j` as it is, whatever the surroundings answer and whether they
-- return or raise.
pub run_once-recover_done :
    (host : Host) (id_text : Ident → Text) (held : Bool) (k j : Ident) (s : Sys host) (a : Attempt)
    → get s.db.attempt j ≡ some a
    → a.phase ≡ Phase.done
    → (get (run_once id_text held s).1.db.attempt j ≡ some a)
      × (get (recover id_text held k s).1.db.attempt j ≡ some a)
run_once-recover_done host id_text held k j s a e finished = (
  (run_once-Keeps host id_text j a finished held).at s e,
  (recover-Keeps host id_text j a finished held k).at s e,
)
