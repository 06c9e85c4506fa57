-- ===== src/Auth/Examples.antt =====
-- Logins and accounts of backend/wiseway on concrete rows.
use wise_way.Prelude.{
  ◌≡◌, ◌≢◌, ◌≤◌, ◌<◌, ◌+◌, refl, Bool, true, false, Option, none, some, [], ◌∷◌, Text, Ident, codes,
  length, or_else,
}
use wise_way.Common.{Actor, Result, ok, err, admin, worker}
use wise_way.Storage.{get, list}
use wise_way.Auth.{User, Session, AccountDb, Lifetimes, login_tx, authenticate, find_login}
use wise_way.Auth.Limits.{login_tx_bounded, authenticate_alive}
use wise_way.Auth.Accounts.{block_user, revoke}
use wise_way.Auth.Accounts.Revoked.{block_user_revokes}

abbrev boss : User
boss = record {
  actor = record { user_id = 1; login = codes "boss"; role = admin };
  password_hash = 5;
  blocked = false;
}

abbrev clerk : User
clerk = record {
  actor = record { user_id = 2; login = codes "clerk"; role = worker };
  password_hash = 6;
  blocked = false;
}

abbrev session : Session
session = record { user_id = 2; csrf = 9; created = 100; touched = 200 }

abbrev accounts : AccountDb
accounts = record {
  user = (1, boss) ∷ (2, clerk) ∷ [];
  session = (70, session) ∷ (71, record session { user_id = 1 }) ∷ [];
  login_rate = [];
  cursor = [];
  page_snapshot = [];
  audit = [];
}

abbrev lives : Lifetimes
lives = record { absolute_session = 1000; idle_session = 500 }

abbrev verify : Ident → Text → Bool
verify hash password = true

abbrev after {ℓ} : {A : Type ℓ} → Result (A × AccountDb) → AccountDb
after (ok (a, db)) = db
after (err e) = accounts

abbrev answer_of {ℓ} : {A : Type ℓ} → A → Result (A × AccountDb) → A
answer_of other (ok (a, db)) = a
answer_of other (err e) = other

abbrev login_result : Result (Option (Session × Actor) × AccountDb)
login_result = login_tx verify 4 80 81 82 83 84 300 (codes "clerk") (codes "p") accounts

logged_in : login_result ≡ ok (answer_of none login_result, after login_result)
unfolding login_tx get list
logged_in = refl

login_tx_bounded_example : length (or_else (get (after login_result).login_rate 81) []) ≤ 10
login_tx_bounded_example =
    login_tx_bounded verify 4 80 81 82 83 84 300 (codes "clerk") (codes "p") accounts logged_in

is_alive : authenticate lives 300 accounts 70 ≡ ok (session, clerk.actor)
unfolding authenticate get
is_alive = refl

authenticate_alive_example :
    (get accounts.session 70 ≡ some session)
    × (300 < session.created + lives.absolute_session)
    × (300 < session.touched + lives.idle_session)
    × ((user : User) × (get accounts.user session.user_id ≡ some user)
        × (user.blocked ≡ false)
        × (user.actor ≡ clerk.actor))
authenticate_alive_example = authenticate_alive lives 300 accounts 70 is_alive

abbrev blocking : Result (Unit {0} × AccountDb)
blocking = block_user 300 84 (codes "boss") (codes "clerk") accounts

is_blocked : blocking ≡ ok (tt, after blocking)
unfolding block_user list find_login
is_blocked = refl

is_left : get (after blocking).session 71 ≡ some (record session { user_id = 1 })
unfolding block_user list find_login get revoke
is_left = refl

block_user_revokes_example :
    (target : User) × (find_login (codes "clerk") (list accounts.user) ≡ some target)
    × (1 ≢ target.actor.user_id)
block_user_revokes_example =
    block_user_revokes 300 84 (codes "boss") (codes "clerk") accounts 71
      (record session { user_id = 1 }) is_blocked is_left
