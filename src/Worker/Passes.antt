-- ===== src/Worker/Passes.antt =====
-- A pass of the worker, `run_once` of backend/wiseway/worker.py, from its start to its end.
use wise_way.Prelude.{
  if◌then◌else◌, ℕ, ◌+◌, ◌≡◌, ◌≢◌, refl, sym, ap, ◌∙◌, Bool, true, not, none, some, List, [], ◌∷◌,
  map, keep, keep-Member, map-Member, Ident, Text, ◌==◌, arith, Bool-cases, inl, inr, is_some,
  Member,
}
use wise_way.Common.{Result, ok, err}
use wise_way.Records.{Phase, Attempt}
use wise_way.Storage.{Table, get, list}
use wise_way.Host.{Host}
use wise_way.Exec.{Sys, Exec, pure, ◌>>=◌}
use wise_way.Worker.{recovery_required, run, settle, process, process_all, run_once}
use wise_way.Worker.Transactions.{is_done}
use wise_way.Worker.Writes.Runs
use wise_way.Worker.Stands.{Stands, standing_writes}
use wise_way.Worker.Stands.Left.{recovery_required_returns}
use wise_way.Worker.Queued.Passes.{queued-Covered, process_all-Settled, get-Member}

-- A chain returns where both of its calls do.
chain_returning :
    {host : Host} {A B : Type 0} (m : Exec host A) (f : A → Exec host B) (s : Sys host) (a : A)
    (b : B)
    → (m s).0 ≡ ok a
    → (f a (m s).1).0 ≡ ok b
    → ((m >>= f) s).0 ≡ ok b
unfolding ◌>>=◌
chain_returning m f s a b e h = rw e h

module _ (host : Host) (id_text : Ident → Text) where
  settle_returns :
      (k : Ident) (r : Result Bool) (s : Sys host)
      → Stands k s.db
      → (n : ℕ) × ((settle k r s).0 ≡ ok n)
  unfolding settle pure
  settle_returns k (ok b) s stands = (if b then 1 else 0, refl)
  settle_returns k (err e) s stands =
      let (b, h) = recovery_required_returns host k none s stands in
      (1, chain_returning (recovery_required k none) (λ (_ : Bool). pure 1) s b 1 h refl)

  process_returns :
      (k : Ident) (s : Sys host) → Stands k s.db → (n : ℕ) × ((process id_text k s).0 ≡ ok n)
  unfolding process ◌>>=◌
  process_returns k s stands =
      let after =
        (Runs.run-Keeps host id_text k (Stands k) (standing_writes host k k)).at s stands in
      settle_returns k (run id_text k s).0 (run id_text k s).1 after

  process_all_returns :
      (ks : List Ident) (s : Sys host)
      → ((k : Ident) → Member k ks → Stands k s.db)
      → (n : ℕ) × ((process_all id_text ks s).0 ≡ ok n)
  unfolding process_all pure
  process_all_returns [] s stand = (0, refl)
  process_all_returns (x ∷ ks) s stand =
      let (here, h) = process_returns x s (stand x (inl refl)) in
      let s1 = (process id_text x s).1 in
      let still_stand = λ (k : Ident) (m : Member k ks).
        (Runs.process-Keeps host id_text x (Stands k) (standing_writes host x k)).at s
          (stand k (inr m)) in
      let (rest, h') = process_all_returns ks s1 still_stand in
      (
        here + rest,
        chain_returning (process id_text x) _ s here (here + rest) h
            (chain_returning (process_all id_text ks) _ s1 rest (here + rest) h' refl),
      )

Member-get :
    (rows : Table Attempt) (j : Ident) (a : Attempt)
    → Member (j, a) rows
    → (c : Attempt) × (get rows j ≡ some c)
unfolding get
Member-get [] j a m = elim m [ ]
Member-get ((i, b) ∷ rows) j a (inl e) =
    (b, rw (ap (λ (row : Ident × Attempt). row.0) e) (ground arith))
Member-get ((i, b) ∷ rows) j a (inr m) = elim (Bool-cases (i == j)) [
  | inl t ↦ (b, rw t refl)
  | inr f ↦ let (c, e) = Member-get rows j a m in (c, rw f e)
]

-- Each attempt that a pass lists stands.
listed-Stands :
    (host : Host) (s : Sys host)
    → ((j : Ident) (a : Attempt)
        → Member (j, a) s.db.attempt
        → (a.attempt_id ≡ j) × (is_some (get s.db.queue a.item.item_id) ≡ true))
    → (k : Ident)
    → Member k (
        map
          (λ (b : Attempt). b.attempt_id)
          (keep (λ (b : Attempt). not (is_done b.phase)) (list s.db.attempt)))
    → Stands k s.db
unfolding list
listed-Stands host s sound k m =
    let id_of = λ (b : Attempt). b.attempt_id in
    let open_before = λ (b : Attempt). not (is_done b.phase) in
    let (a, kept, id) = map-Member id_of k (keep open_before (list s.db.attempt)) m in
    let (listed, _) = keep-Member open_before a (list s.db.attempt) kept in
    let ((j, b), row, same) = map-Member (λ (row : Ident × Attempt). row.1) a s.db.attempt listed in
    let (c, found) = Member-get s.db.attempt j b row in
    let at_k : j ≡ k = sym (sound j b row).0 ∙ ap id_of same ∙ id in
    let found_k : get s.db.attempt k ≡ some c = rw at_k at found in
    (c, found_k, (sound j c (get-Member s.db.attempt j c found)).1)

-- A pass of the worker that holds the lock returns, and leaves no attempt queued: each that was
-- open before it is finished, has an intent, or is left to an operator. This is so whatever the
-- surroundings answer or raise, where the attempts stand under their own identifiers and their queue
-- items are stored.
pub run_once_settles :
    (host : Host) (id_text : Ident → Text) (s : Sys host)
    → ((j : Ident) (a : Attempt)
        → Member (j, a) s.db.attempt
        → (a.attempt_id ≡ j) × (is_some (get s.db.queue a.item.item_id) ≡ true))
    → (n : ℕ) × ((run_once id_text true s).0 ≡ ok n)
      × ((k : Ident) (a : Attempt)
          → get (run_once id_text true s).1.db.attempt k ≡ some a
          → a.phase ≢ Phase.queued)
unfolding run_once ◌>>=◌
run_once_settles host id_text s sound =
    let open_before = λ (b : Attempt). not (is_done b.phase) in
    let ids = map (λ (b : Attempt). b.attempt_id) (keep open_before (list s.db.attempt)) in
    let (n, returned) = process_all_returns host id_text ids s (listed-Stands host s sound) in
    let named = λ (j : Ident) (a : Attempt) (m : Member (j, a) s.db.attempt). (sound j a m).0 in
    (
      n,
      returned,
      λ k a e queued.
          let covered = queued-Covered host id_text k s named in
          let settled = process_all-Settled host id_text k ids s n covered returned a e in
          ground (arith, settled, queued),
    )
