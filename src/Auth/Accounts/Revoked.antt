-- ===== src/Auth/Accounts/Revoked.antt =====
-- A user who is blocked (backend/wiseway/accounts.py) has no session left.
use wise_way.Prelude.{
  ℕ, ◌≡◌, ◌≢◌, ap, some, [], ◌∷◌, Text, Ident, ◌==◌, arith, Bool-cases, inl, inr,
}
use wise_way.Common.{ok}
use wise_way.Common.Bind.{>>=-eq-ok, raise_if-eq-ok, or_raise-eq-ok, ok-snd}
use wise_way.Storage.{Table, get, list}
use wise_way.Auth.{User, Session, AccountDb, find_login}
use wise_way.Auth.Accounts.{revoke, require_admin, require_login, block_user}

revoke_other :
    (user_id k : Ident) (sessions : Table Session) {session : Session}
    → get (revoke user_id sessions) k ≡ some session
    → session.user_id ≢ user_id
unfolding revoke get
revoke_other user_id k [] h = cc
revoke_other user_id k ((j, row) ∷ sessions) h = elim (Bool-cases (row.user_id == user_id)) [
  | inl own ↦ revoke_other user_id k sessions (rw own at h)
  | inr other ↦ elim (Bool-cases (j == k)) [
    | inl here ↦ ground (arith, h)
    | inr there ↦ revoke_other user_id k sessions (rw (other, there) at h)
  ]
]

-- A session that is left after a user was blocked is not of that user.
pub block_user_revokes :
    (now : ℕ) (request_id : Ident) (actor_login login : Text) (db : AccountDb) (k : Ident)
    (session : Session) {u : Unit {0}} {db' : AccountDb}
    → block_user now request_id actor_login login db ≡ ok (u, db')
    → get db'.session k ≡ some session
    → (target : User) × (find_login login (list db.user) ≡ some target)
      × (session.user_id ≢ target.actor.user_id)
unfolding block_user require_login
block_user_revokes now request_id actor_login login db k session h g =
    let (_, h1) = raise_if-eq-ok _ _ _ h in
    let (acting, _, h2) = >>=-eq-ok (require_admin actor_login (list db.user)) _ h1 in
    let (target, t, h3) = or_raise-eq-ok (find_login login (list db.user)) _ _ h2 in
    let (_, e) = raise_if-eq-ok _ _ _ h3 in
    let rows = ap (λ (d : AccountDb). d.session) (ok-snd e) in
    (target, t, revoke_other target.actor.user_id k db.session (rw rows at g))
