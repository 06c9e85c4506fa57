-- ===== src/Quarantine/Moves.antt =====
-- The moves of files that backend/wiseway/quarantine.py asks for.
use wise_way.Prelude.{
  arith, ◌≡◌, refl, ◌∙◌, ap, ◌⊎◌, inl, inr, Option, none, some, List, [], ◌∷◌, Ident,
}
use wise_way.Common.{
  Result, ok, err, Actor, api, integrity, type_error, recursion_error, value_error, index_error,
  invalid_path, not_regular_file, source_changed, post_rename_changed, target_exists,
  unsupported_filesystem, os_error,
}
use wise_way.Records.{QueueItem, QuarantineItem, ReturnPhase, ReturnBody, Return, ReturnKey}
use wise_way.Storage.{get, insert}
use wise_way.Storage.Laws.{get-put, insert-eq-ok}
use wise_way.Database.{Db}
use wise_way.Common.Bind.{>>=-eq-ok}
use wise_way.Quarantine.Transactions.{open_tx}
use wise_way.Paths.{physical}
use wise_way.Exec.Gives.{Gives, Gives-bind, Gives-write, Result-cases}
use wise_way.Host.{Host}
use wise_way.Exec.{Sys, Exec, Move, continue, attempt_to, ◌>>=◌}
use wise_way.Exec.Still.{Still, Still-raise, Still-pure, still_rules}
use wise_way.Quarantine.{
  finish, leave_to_operator, observe, resolve_open, resolve_phase, resolve, open_return, after_move,
  move, return_saved, return_item, forget_api, reconcile_all, reconcile,
}

module _ (host : Host) where
  finish-Still : (operation : Return) → Still (finish {host = host} operation)
  unfolding finish
  finish-Still operation = search still_rules depth 16

  leave_to_operator-Still : (operation : Return) → Still (leave_to_operator {host = host} operation)
  unfolding leave_to_operator
  leave_to_operator-Still operation = search still_rules depth 16

  observe-Still : (operation : Return) → Still (observe {host = host} operation)
  unfolding observe
  observe-Still operation = search still_rules depth 16

  resolve_open-Still : (operation : Return) → Still (resolve_open {host = host} operation)
  unfolding resolve_open
  resolve_open-Still operation =
      search (still_rules, observe-Still, finish-Still, leave_to_operator-Still) depth 16

  resolve_phase-Still :
      (operation : Return) (phase : ReturnPhase)
      → Still (resolve_phase {host = host} operation phase)
  unfolding resolve_phase
  resolve_phase-Still operation ReturnPhase.done = search still_rules
  resolve_phase-Still operation ReturnPhase.rejected = search still_rules
  resolve_phase-Still operation ReturnPhase.intent = resolve_open-Still operation
  resolve_phase-Still operation ReturnPhase.recovery_required = resolve_open-Still operation

  resolve-Still : (operation : Return) → Still (resolve {host = host} operation)
  unfolding resolve
  resolve-Still operation = resolve_phase-Still operation operation.phase

  forget_api-Still : (r : Result QueueItem) → Still (forget_api {host = host} r)
  forget_api-Still (ok item) = Still-pure tt
  forget_api-Still (err (api code)) = Still-pure tt
  forget_api-Still (err integrity) = Still-raise integrity
  forget_api-Still (err type_error) = Still-raise type_error
  forget_api-Still (err recursion_error) = Still-raise recursion_error
  forget_api-Still (err value_error) = Still-raise value_error
  forget_api-Still (err index_error) = Still-raise index_error
  forget_api-Still (err invalid_path) = Still-raise invalid_path
  forget_api-Still (err not_regular_file) = Still-raise not_regular_file
  forget_api-Still (err source_changed) = Still-raise source_changed
  forget_api-Still (err post_rename_changed) = Still-raise post_rename_changed
  forget_api-Still (err target_exists) = Still-raise target_exists
  forget_api-Still (err unsupported_filesystem) = Still-raise unsupported_filesystem
  forget_api-Still (err os_error) = Still-raise os_error

  reconcile_all-Still : (operations : List Return) → Still (reconcile_all {host = host} operations)
  unfolding reconcile_all
  reconcile_all-Still [] = Still-pure tt
  reconcile_all-Still (operation ∷ operations) =
      let rest = reconcile_all-Still operations in
      search (still_rules, resolve-Still, forget_api-Still) depth 16

  reconcile-Still : Still (reconcile {host = host})
  unfolding reconcile
  reconcile-Still = search (still_rules, reconcile_all-Still) depth 16

  open_return-Still :
      (key hash fresh : Ident) (actor : Actor) (quarantine_id : Ident) (body : ReturnBody)
      (request_id : Ident)
      → Still (open_return {host = host} key hash fresh actor quarantine_id body request_id)
  unfolding open_return
  open_return-Still key hash fresh actor quarantine_id body request_id = search still_rules depth 24

-- The reconciliation of interrupted returns asks for no move.
pub reconcile_still : (host : Host) (s : Sys host) → (reconcile s).1.moves ≡ s.moves
reconcile_still host s = (reconcile-Still host).still s

-- the operation stands in the rows, as an intent
abbrev Intended : Return → Db → Type 0
Intended operation db =
    (get db.returns operation.operation_id ≡ some operation)
    × (operation.phase ≡ ReturnPhase.intent)

open_tx-Intended :
    (key hash : Ident) (q : QuarantineItem) (operation : Return) (db db' : Db) (a : Return)
    → operation.phase ≡ ReturnPhase.intent
    → open_tx key hash q operation db ≡ ok (a, db')
    → Intended a db'
unfolding open_tx
open_tx-Intended key hash q operation db db' a p h =
    let (operations, i, h1) = >>=-eq-ok (insert db.returns operation.operation_id operation) _ h in
    let (keys, _, h2) = >>=-eq-ok (insert db.return_key key _) _ h1 in
    let (_, e) = insert-eq-ok db.returns operation.operation_id operation i in
    let g = get-put db.returns operation.operation_id operation.operation_id operation in
    ground (arith, e, g, h2, p)

module _ (host : Host) where
  open_return-Intended :
      (key hash fresh : Ident) (actor : Actor) (quarantine_id : Ident) (body : ReturnBody)
      (request_id : Ident)
      → Gives Intended
          (open_return {host = host} key hash fresh actor quarantine_id body request_id)
  unfolding open_return
  open_return-Intended key hash fresh actor quarantine_id body request_id = Gives-bind _ _ (λ q.
      Gives-bind _ _ (λ _. Gives-bind _ _ (λ original. Gives-bind _ _ (λ occupied.
        Gives-bind _ _ (λ _. Gives-bind _ _ (λ source. Gives-bind _ _ (λ seen.
          Gives-bind _ _ (λ expected. Gives-bind _ _ (λ _.
            Gives-write _ (λ db db' a h. open_tx-Intended key hash q _ db db' a refl h))))))))))

-- A return that stood in the rows as an intent when the move was made, for the same file and the
-- same two paths.
abbrev pub Covered : Move → Type 0
Covered m =
    (operation : Return) × (get m.db.returns operation.operation_id ≡ some operation)
    × (operation.phase ≡ ReturnPhase.intent)
    × (operation.fingerprint ≡ m.expected)
    × (physical m.db operation.source ≡ ok m.source)
    × (physical m.db operation.target ≡ ok m.target)

-- no move was asked for, or one that is covered
abbrev pub AtMostOne : List Move → List Move → Type 0
AtMostOne before after = (after ≡ before) ⊎ ((m : Move) × (after ≡ m ∷ before) × Covered m)

module _ (host : Host) where
  move_covered :
      (operation : Return) (s : Sys host)
      → Intended operation s.db
      → AtMostOne s.moves (move operation s).1.moves
  unfolding move ◌>>=◌
  move_covered operation s i = elim (Result-cases (physical s.db operation.source)) [
    | inl (e, p) ↦ inl (rw p refl)
    | inr (from, p) ↦ elim (Result-cases (physical s.db operation.target)) [
      | inl (e, q) ↦ inl (rw (p, q) refl)
      | inr (to, q) ↦
          let m : Move = record {
            source = from;
            target = to;
            expected = operation.fingerprint;
            db = s.db;
          } in
          inr (m, rw (p, q) refl, (operation, i.0, i.1, refl, p, q))
    ]
  ]

  after_move-Still :
      (operation : Return) (moved : Result (Unit {0}))
      → Still (after_move {host = host} operation moved)
  unfolding after_move
  after_move-Still operation (err target_exists) = search still_rules depth 16
  after_move-Still operation (ok u) = resolve-Still host operation
  after_move-Still operation (err (api code)) = resolve-Still host operation
  after_move-Still operation (err integrity) = resolve-Still host operation
  after_move-Still operation (err type_error) = resolve-Still host operation
  after_move-Still operation (err recursion_error) = resolve-Still host operation
  after_move-Still operation (err value_error) = resolve-Still host operation
  after_move-Still operation (err index_error) = resolve-Still host operation
  after_move-Still operation (err invalid_path) = resolve-Still host operation
  after_move-Still operation (err not_regular_file) = resolve-Still host operation
  after_move-Still operation (err source_changed) = resolve-Still host operation
  after_move-Still operation (err post_rename_changed) = resolve-Still host operation
  after_move-Still operation (err unsupported_filesystem) = resolve-Still host operation
  after_move-Still operation (err os_error) = resolve-Still host operation

  -- what `return_item` does once the return is open
  carry_out : Return → Exec host QueueItem
  carry_out operation = attempt_to (move operation) >>= λ moved. after_move operation moved

  carry_out_covered :
      (operation : Return) (s : Sys host)
      → Intended operation s.db
      → AtMostOne s.moves (carry_out operation s).1.moves
  unfolding carry_out ◌>>=◌
  carry_out_covered operation s i =
      let (result, s') = move operation s in
      let after = (after_move-Still operation result).still s' in
      elim (move_covered operation s i) [
        | inl e ↦ inl (after ∙ e)
        | inr (m, e, c) ↦ inr (m, after ∙ e, c)
      ]

  opened_covered :
      (result : Result Return) (s : Sys host)
      → ((operation : Return) → result ≡ ok operation → Intended operation s.db)
      → AtMostOne s.moves (continue result carry_out s).1.moves
  opened_covered (ok operation) s i = carry_out_covered operation s (i operation refl)
  opened_covered (err e) s i = inl refl

  module _ (key hash fresh : Ident) (actor : Actor) (quarantine_id : Ident) (body : ReturnBody)
      (request_id : Ident) (s : Sys host) where
    opened_after :
        AtMostOne s.moves
          (return_saved key hash fresh actor quarantine_id body request_id none s).1.moves
    unfolding return_saved ◌>>=◌ carry_out
    opened_after =
        let opening =
          open_return {host = host} key hash fresh actor quarantine_id body request_id in
        let still =
          (open_return-Still host key hash fresh actor quarantine_id body request_id).still s in
        let gives = open_return-Intended host key hash fresh actor quarantine_id body request_id in
        let after =
          opened_covered (opening s).0 (opening s).1
            (λ operation e. gives.at s (opening s).1 operation (ap (λ r. (r, (opening s).1)) e)) in
        elim after [
          | inl e ↦ inl (e ∙ still)
          | inr (m, e, c) ↦ inr (m, e ∙ ap (λ moves. m ∷ moves) still, c)
        ]

    return_known :
        (saved : ReturnKey)
        → (return_saved key hash fresh actor quarantine_id body request_id (some saved) s).1.moves
          ≡ s.moves
    unfolding return_saved
    return_known saved =
        let known : Still (
            return_saved {host = host} key hash fresh actor quarantine_id body request_id
              (some saved)) =
          search (still_rules, resolve-Still) depth 16 in
        known.still s

    return_saved_covered :
        (saved : Option ReturnKey)
        → AtMostOne s.moves
            (return_saved key hash fresh actor quarantine_id body request_id saved s).1.moves
    return_saved_covered none = opened_after
    return_saved_covered (some saved) = inl (return_known saved)

-- A request to return a file asks for at most one move, and that move is covered: the return stood
-- in the rows as an intent for that file and those two paths when the move was made.
pub return_item_moves :
    (host : Host) (key hash fresh : Ident) (actor : Actor) (quarantine_id : Ident)
    (body : ReturnBody) (request_id : Ident) (s : Sys host)
    → AtMostOne s.moves (return_item key hash fresh actor quarantine_id body request_id s).1.moves
unfolding return_item ◌>>=◌
return_item_moves host key hash fresh actor quarantine_id body request_id s =
    return_saved_covered host key hash fresh actor quarantine_id body request_id s
      (get s.db.return_key key)

-- A request to return a file whose key is known asks for no move.
pub return_item_still :
    (host : Host) (key hash fresh : Ident) (actor : Actor) (quarantine_id : Ident)
    (body : ReturnBody) (request_id : Ident) (s : Sys host) (saved : ReturnKey)
    → get s.db.return_key key ≡ some saved
    → (return_item key hash fresh actor quarantine_id body request_id s).1.moves ≡ s.moves
unfolding return_item return_saved ◌>>=◌
return_item_still host key hash fresh actor quarantine_id body request_id s saved e =
    rw e (return_known host key hash fresh actor quarantine_id body request_id s saved)
