-- ===== src/Worker/Queued/Passes.antt =====
-- The runs and the passes of the worker (backend/wiseway/worker.py), by the attempts that still wait
-- to be run where they return.
use wise_way.Prelude.{
  ℕ, zero, suc, ◌≡◌, ◌≢◌, refl, sym, ap, ◌∙◌, Bool, true, false, not, ◌||◌, Option, none, some,
  List, [], ◌∷◌, map, keep, Ident, Text, ◌==◌, arith, Bool-cases, Option-cases, ◌⊎◌, inl, inr,
  Member, Member-keep, Member-map,
}
use wise_way.Common.{Result, ok, err, recursion_error}
use wise_way.Records.{Phase, Attempt}
use wise_way.Storage.{Table, get, list}
use wise_way.Host.{Host}
use wise_way.Exec.{Sys, Exec, pure, continue, ◌>>=◌}
use wise_way.Exec.Keeps.{Keeps-pure}
use wise_way.Exec.Ends.{Ends, Ends-raise, Ends-first}
use wise_way.Worker.{
  recovery_required, recover_placed, recover_attempt, recover_with, run_phase, run_attempt,
  run_within, run, settle, process, process_all,
}
use wise_way.Worker.Transactions.{is_queued, is_intent, is_recovery, is_done}
use wise_way.Worker.Done.{process_same}
use wise_way.Worker.Queued.{Settled, found-Settled}
use wise_way.Worker.Queued.Methods.{recovery_required-Ends, recover_placed-Ends, run_queued-Ends}

-- A chain that returns has gone through its first call.
continue_returns :
    {host : Host} {A B : Type 0} (r : Result A) (f : A → Exec host B) (after : Sys host) (b : B)
    → (continue r f after).0 ≡ ok b
    → (a : A) × (r ≡ ok a) × (continue r f after ≡ f a after)
continue_returns (ok a) f after b h = (a, refl, refl)
continue_returns (err e) f after b h = absurd (cc h)

chain_returns :
    {host : Host} {A B : Type 0} (m : Exec host A) (f : A → Exec host B) (s : Sys host) (b : B)
    → ((m >>= f) s).0 ≡ ok b
    → (a : A) × ((m s).0 ≡ ok a) × ((m >>= f) s ≡ f a (m s).1)
unfolding ◌>>=◌
chain_returns m f s b h = continue_returns (m s).0 f (m s).1 b h

module _ (host : Host) (id_text : Ident → Text) (k : Ident) where
  recover_with_open :
      (again : Ident → Exec host Bool) (allow : Bool) (s : Sys host) (a : Attempt)
      → get s.db.attempt k ≡ some a
      → (is_intent a.phase || is_recovery a.phase) ≡ true
      → recover_with id_text again allow k s
        ≡ recover_placed id_text again allow k a a.intent_target s
  unfolding ◌>>=◌ recover_with recover_attempt
  recover_with_open again allow s a e unfinished = rw (e, unfinished) refl

  recover_with_at :
      (again : Ident → Exec host Bool) (allow : Bool) (s : Sys host) (a : Attempt) (b : Bool)
      → Ends (Settled k) (again k)
      → get s.db.attempt k ≡ some a
      → (is_intent a.phase || is_recovery a.phase) ≡ true
      → (recover_with id_text again allow k s).0 ≡ ok b
      → Settled k (recover_with id_text again allow k s).1.db
  recover_with_at again allow s a b ends e unfinished h =
      let same = recover_with_open again allow s a e unfinished in
      let placed = recover_placed-Ends host id_text k again allow a a.intent_target ends in
      rw same (placed.at s b (ap (λ r. r.0) (sym same) ∙ h))

  run_phase_at :
      (again : Ident → Exec host Bool) (s : Sys host) (a : Attempt) (phase : Phase) (b : Bool)
      → Ends (Settled k) (again k)
      → get s.db.attempt k ≡ some a
      → a.phase ≡ phase
      → (run_phase id_text (recover_with id_text again false) k a phase s).0 ≡ ok b
      → Settled k (run_phase id_text (recover_with id_text again false) k a phase s).1.db
  unfolding run_phase pure
  run_phase_at again s a Phase.done b ends e p h = found-Settled k s.db a e (rw p refl)
  run_phase_at again s a Phase.queued b ends e p h = (run_queued-Ends host id_text k a).at s b h
  run_phase_at again s a Phase.intent b ends e p h =
      recover_with_at again false s a b ends e (rw p refl) h
  run_phase_at again s a Phase.recovery_required b ends e p h =
      recover_with_at again false s a b ends e (rw p refl) h

  run_attempt_at :
      (again : Ident → Exec host Bool) (s : Sys host) (found : Option Attempt) (b : Bool)
      → Ends (Settled k) (again k)
      → get s.db.attempt k ≡ found
      → (run_attempt id_text (recover_with id_text again false) k found s).0 ≡ ok b
      → Settled k (run_attempt id_text (recover_with id_text again false) k found s).1.db
  unfolding run_attempt pure
  run_attempt_at again s none b ends e h = λ a f. ground (arith, e, f)
  run_attempt_at again s (some a) b ends e h = run_phase_at again s a a.phase b ends e refl h

  run_within-Ends : (depth : ℕ) → Ends (Settled k) (run_within {host = host} depth id_text k)
  unfolding run_within ◌>>=◌
  run_within-Ends zero = Ends-raise recursion_error
  run_within-Ends (suc depth) = record {
    at = λ s b h.
        run_attempt_at (run_within depth id_text) s (get s.db.attempt k) b (run_within-Ends depth)
          refl h;
  }

  run-Ends : Ends (Settled k) (run {host = host} id_text k)
  unfolding run
  run-Ends = run_within-Ends 2

  settle_at :
      (x : Ident) (r : Result Bool) (s : Sys host) (n : ℕ)
      → ((b : Bool) → r ≡ ok b → Settled x s.db)
      → (settle x r s).0 ≡ ok n
      → Settled x (settle x r s).1.db
  unfolding settle pure
  settle_at x (ok b) s n e h = e b refl
  settle_at x (err f) s n e h =
      (Ends-first (recovery_required x none) (λ (_ : Bool). pure 1)
          (recovery_required-Ends host id_text x none) (λ (_ : Bool). Keeps-pure 1)).at
        s n h

  process-Ends : Ends (Settled k) (process {host = host} id_text k)
  unfolding process ◌>>=◌
  process-Ends = record {
    at =
        λ s n h. settle_at k (run id_text k s).0 (run id_text k s).1 n (λ b e. run-Ends.at s b e) h;
  }

  -- whether the rounds to come see to the attempt
  abbrev pub Covered : List Ident → Sys host → Type 0
  Covered ks s = Settled k s.db ⊎ Member k ks

  process-Covered :
      (x : Ident) (ks : List Ident) (s : Sys host) (n : ℕ)
      → Covered (x ∷ ks) s
      → (process id_text x s).0 ≡ ok n
      → Covered ks (process id_text x s).1
  process-Covered x ks s n c h = elim (Bool-cases (x == k)) [
    | inl e ↦
        let same : x ≡ k = ground (arith, e) in inl (rw same (process-Ends.at s n (rw same at h)))
    | inr e ↦ elim c [
      | inr (inl same) ↦ ground (arith, e, same)
      | inr (inr m) ↦ inr m
      | inl settled ↦
          let apart : x ≢ k = λ same. ground (arith, e, same) in
          let kept = (process_same host id_text x k apart (get s.db.attempt k)).at s refl in
          inl (λ a f. settled a (sym kept ∙ f))
    ]
  ]

  pub process_all-Settled :
      (ks : List Ident) (s : Sys host) (n : ℕ)
      → Covered ks s
      → (process_all id_text ks s).0 ≡ ok n
      → Settled k (process_all id_text ks s).1.db
  unfolding process_all pure
  process_all-Settled [] s n (inl settled) h = settled
  process_all-Settled [] s n (inr m) h = elim m [ ]
  process_all-Settled (x ∷ ks) s n c h =
      let (here, p, q) = chain_returns (process id_text x) _ s n h in
      let s1 = (process id_text x s).1 in
      let (rest, p', q') =
        chain_returns (process_all id_text ks) _ s1 n (ap (λ r. r.0) (sym q) ∙ h) in
      let after = process_all-Settled ks s1 rest (process-Covered x ks s here c p) p' in
      rw (q, q') after

pub get-Member :
    (rows : Table Attempt) (k : Ident) (a : Attempt) → get rows k ≡ some a → Member (k, a) rows
unfolding get
get-Member [] k a e = ground (arith, e)
get-Member ((j, b) ∷ rows) k a e = elim (Bool-cases (j == k)) [
  | inl t ↦
      let same_key : j ≡ k = ground (arith, t) in
      let same_row : b ≡ a = ground (arith, t, e) in inl (λ i. (same_key i, same_row i))
  | inr f ↦ inr (get-Member rows k a (ground (arith, f, e)))
]

list-Member :
    (rows : Table Attempt) (k : Ident) (a : Attempt) → Member (k, a) rows → Member a (list rows)
unfolding list
list-Member rows k a m = Member-map (λ (row : Ident × Attempt). row.1) (k, a) rows m

-- Each attempt that waits to be run stands in the list of a pass.
module _ (host : Host) (id_text : Ident → Text) (k : Ident) where
  pub queued-Covered :
      (s : Sys host)
      → ((j : Ident) (a : Attempt) → Member (j, a) s.db.attempt → a.attempt_id ≡ j)
      → Covered host id_text k
          (map
            (λ (b : Attempt). b.attempt_id)
            (keep (λ (b : Attempt). not (is_done b.phase)) (list s.db.attempt)))
          s
  queued-Covered s named = elim (Option-cases (get s.db.attempt k)) [
    | inl e ↦ inl (λ a f. ground (arith, e, f))
    | inr (a, e) ↦ elim (Bool-cases (is_queued a.phase)) [
      | inr other ↦ inl (found-Settled k s.db a e other)
      | inl queued ↦
          let id_of = λ (b : Attempt). b.attempt_id in
          let open_before = λ (b : Attempt). not (is_done b.phase) in
          let row = get-Member s.db.attempt k a e in
          let listed = list-Member s.db.attempt k a row in
          let kept =
            Member-keep open_before a (list s.db.attempt) listed (ground (arith, queued)) in
          let named_k : a.attempt_id ≡ k = named k a row in
          let here = Member-map id_of a (keep open_before (list s.db.attempt)) kept in
          inr (rw named_k at here)
    ]
  ]
