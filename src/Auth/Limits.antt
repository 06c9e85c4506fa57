-- ===== src/Auth/Limits.antt =====
-- What backend/wiseway/auth.py lets through: logins within their limits, sessions within their lives.
use wise_way.Prelude.{
  ◌∙◌, ℕ, ◌+◌, ◌≡◌, ◌≤◌, ◌<◌, refl, ap, Bool, false, Option, none, some, List, [], ◌∷◌, ◌++◌, Text,
  Ident, arith, length, or_else, leb, ◌||◌,
}
use wise_way.Common.{Actor, ok, rate_limited, unauthenticated}
use wise_way.Common.Bind.{raise_if-eq-ok, or_raise-eq-ok, ok-snd}
use wise_way.Storage.{get, put, list}
use wise_way.Storage.Laws.{get-put}
use wise_way.Auth.{
  User, Session, AccountDb, Lifetimes, attempts_of, login_rows, login_tx, counted, admitted,
  find_login, login_attempts_per_ip, login_attempts_per_ip_and_login, authenticate, end_of,
}

length-++ : {A : Type 0} (xs ys : List A) → length (xs ++ ys) ≡ length xs + length ys
length-++ [] ys = omega arith
length-++ (x ∷ xs) ys = omega (arith, length-++ xs ys)

login_rows_rate :
    (ip_bucket login_bucket token_key csrf request_id : Ident) (now : ℕ) (db : AccountDb)
    (found : Option User)
    → (login_rows ip_bucket login_bucket token_key csrf request_id now db found).1.login_rate
      ≡ db.login_rate
unfolding login_rows
login_rows_rate ip_bucket login_bucket token_key csrf request_id now db none = refl
login_rows_rate ip_bucket login_bucket token_key csrf request_id now db (some user) = refl

-- A login that is not refused for its rate, whether it succeeds or fails, leaves at most ten attempts
-- under its own bucket.
pub login_tx_bounded :
    (verify : Ident → Text → Bool)
    (dummy_hash ip_bucket login_bucket token_key csrf request_id : Ident) (now : ℕ)
    (login password : Text) (db : AccountDb) {answer : Option (Session × Actor)} {db' : AccountDb}
    → login_tx verify dummy_hash ip_bucket login_bucket token_key csrf request_id now login password
        db
      ≡ ok (answer, db')
    → length (or_else (get db'.login_rate login_bucket) []) ≤ 10
unfolding login_tx counted
login_tx_bounded verify dummy_hash ip_bucket login_bucket token_key csrf request_id now login
      password db {db' = db'} h =
    let own = attempts_of db.login_rate login_bucket now in
    let full =
      leb login_attempts_per_ip (length (attempts_of db.login_rate ip_bucket now))
      || leb login_attempts_per_ip_and_login (length own) in
    let found = admitted verify dummy_hash (find_login login (list db.user)) password in
    let counted_db = record db { login_rate = counted ip_bucket login_bucket now db.login_rate } in
    let (few, e) = raise_if-eq-ok full rate_limited _ h in
    let first = put db.login_rate ip_bucket (attempts_of db.login_rate ip_bucket now ++ now ∷ []) in
    let rates : db'.login_rate ≡ put first login_bucket (own ++ now ∷ []) =
      ap (λ (d : AccountDb). d.login_rate) (ok-snd e)
      ∙ login_rows_rate ip_bucket login_bucket token_key csrf request_id now counted_db found in
    let saved = get-put first login_bucket login_bucket (own ++ now ∷ []) in
    rw rates (ground (arith, few, saved, length-++ own (now ∷ [])))

-- A session that is accepted is saved under the digest of its token, its user is not blocked, and
-- neither of its two lifetimes is over.
pub authenticate_alive :
    (lifetimes : Lifetimes) (now : ℕ) (db : AccountDb) (token_key : Ident) {session : Session}
    {actor : Actor}
    → authenticate lifetimes now db token_key ≡ ok (session, actor)
    → (get db.session token_key ≡ some session)
      × (now < session.created + lifetimes.absolute_session)
      × (now < session.touched + lifetimes.idle_session)
      × ((user : User) × (get db.user session.user_id ≡ some user)
          × (user.blocked ≡ false)
          × (user.actor ≡ actor))
unfolding authenticate
authenticate_alive lifetimes now db token_key h =
    let (saved, s, h1) = or_raise-eq-ok (get db.session token_key) _ _ h in
    let (user, u, h2) = or_raise-eq-ok (get db.user saved.user_id) _ _ h1 in
    let over = user.blocked || leb (end_of lifetimes saved) now in
    let (alive, h3) = raise_if-eq-ok over unauthenticated (ok (saved, user.actor)) h2 in
    (ground arith, ground arith, ground arith, (user, ground arith, ground arith, ground arith))
