-- ===== src/Services/Replays.antt =====
-- A request that is repeated (`Context.idempotent` of backend/wiseway/services.py).
use wise_way.Prelude.{
  ◌≡◌, refl, ◌∙◌, not, Option, none, some, Ident, ◌==◌, arith, false, ==_refl, true,
}
use wise_way.Common.{Result, ok, err, api, idempotency_key_reused}
use wise_way.Common.Bind.{>>=-eq-ok, raise_if-eq-ok}
use wise_way.Storage.{Table, get, insert}
use wise_way.Storage.Laws.{get-put, insert-eq-ok}
use wise_way.Services.{Replay, idempotent, answer}

get-put_own :
    {A : Type 0} (rows rows' : Table A) (key : Ident) (value : A)
    → insert rows key value ≡ ok rows'
    → get rows' key ≡ some value
get-put_own rows rows' key value h =
    let (_, e) = insert-eq-ok rows key value h in ground (arith, e, get-put rows key key value)

module _ {S A : Type 0} (key body : Ident) (action : S → Result (A × S)) where
  answer_saved :
      (found : Option (Replay A)) (saved : Table (Replay A)) (s : S) {a : A}
      {saved' : Table (Replay A)} {s' : S}
      → get saved key ≡ found
      → answer key body action saved s found ≡ ok (a, saved', s')
      → (r : Replay A) × (get saved' key ≡ some r) × (r.body ≡ body) × (r.result ≡ ok a)
  unfolding answer
  answer_saved (some previous) saved s g h =
      let (same, e) = raise_if-eq-ok (not (previous.body == body)) idempotency_key_reused _ h in
      let (a, found, e1) = >>=-eq-ok previous.result _ e in
      (previous, ground (arith, g, e1), ground (arith, same), found ∙ ground (arith, e1))
  answer_saved none saved s g h =
      let (done, _, h1) = >>=-eq-ok (action s) _ h in
      let r : Replay A = record { body = body; result = ok done.0 } in
      let (rows, i, e) = >>=-eq-ok (insert saved key r) _ h1 in
      let own = get-put_own saved rows key r i in
      (r, ground (arith, own, e), refl, ground (arith, e))

-- A request that succeeded answers the same when it is repeated, and changes nothing then, whatever
-- the action would do; under its key a body with another digest is refused.
pub idempotent_replays :
    {S A : Type 0} (key body other : Ident) (action again : S → Result (A × S))
    (saved : Table (Replay A)) (s : S) {a : A} {saved' : Table (Replay A)} {s' : S}
    → idempotent key body action (saved, s) ≡ ok (a, saved', s')
    → (other == body) ≡ false
    → (idempotent key body again (saved', s') ≡ ok (a, saved', s'))
      × (idempotent key other again (saved', s') ≡ err (api idempotency_key_reused))
unfolding idempotent answer
idempotent_replays key body other action again saved s h n =
    let (r, found, b, e) = answer_saved key body action (get saved key) saved s refl h in
    let same : (r.body == body) ≡ true = rw b (==_refl body) in
    let differs : (r.body == other) ≡ false = rw b (ground (arith, n)) in
    (rw (found, same, e) refl, rw (found, differs) refl)
