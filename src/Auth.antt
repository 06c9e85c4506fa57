-- ===== src/Auth.antt =====
-- backend/wiseway/auth.py: logins with their limits, sessions and their expiry. Hashes, tokens and
-- the check of a password are parameters; the digests of a token, of an address and of an address
-- with a login are arguments, and so is the moment. A moment and a length of time are in
-- microseconds.
pub mod Limits
pub mod Accounts
pub mod Maintenance
mod Examples
use wise_way.Prelude.{
  ℕ, ◌+◌, ◌-◌, Bool, true, false, not, ◌&&◌, ◌||◌, Option, none, some, List, [], ◌∷◌, ◌++◌, Text,
  Ident, if◌then◌else◌, ltb, leb, keep, length, text_eq, min, or_else, holds,
}
use wise_way.Common.{
  Actor, Result, ok, err, ◌>>=◌, ◌>>◌, raise_if, or_raise, api, rate_limited, login_failed,
  unauthenticated,
}
use wise_way.Storage.{Table, get, put, delete, list}
use wise_way.Audit.{Action, Event, event, append_event, no_links, success, failed, login_succeeded}

-- A row of kind `user`. The display name decides nothing and is left out.
pub record User : Type 0 where
  pub actor : Actor
  pub password_hash : Ident
  pub blocked : Bool

pub record Session : Type 0 where
  pub user_id : Ident
  pub csrf : Ident
  pub created : ℕ
  pub touched : ℕ

-- the rows that accounts and maintenance use; a cursor and a page snapshot are here their expiry
pub record AccountDb : Type 0 where
  pub user : Table User
  pub session : Table Session
  pub login_rate : Table (List ℕ)
  pub cursor : Table ℕ
  pub page_snapshot : Table ℕ
  pub audit : List Event

pub record Lifetimes : Type 0 where
  pub absolute_session : ℕ
  pub idle_session : ℕ

abbrev pub minute : ℕ
minute = 60000000

abbrev pub login_attempts_per_ip_and_login : ℕ
login_attempts_per_ip_and_login = 10

abbrev pub login_attempts_per_ip : ℕ
login_attempts_per_ip = 100

-- `[attempt for attempt in attempts if now - attempt < 60]`
unfoldable pub recent : ℕ → List ℕ → List ℕ
recent now attempts = keep (λ attempt. ltb (now - attempt) minute) attempts

-- the recent attempts under a bucket
abbrev pub attempts_of : Table (List ℕ) → Ident → ℕ → List ℕ
attempts_of rates bucket now = recent now (or_else (get rates bucket) [])

-- the first user with this login
unfoldable pub find_login : Text → List User → Option User
find_login login [] = none
find_login login (user ∷ users) =
    if text_eq user.actor.login login then some user else find_login login users

-- `HASHER.verify(...)` of the user's hash, or of one that is no one's
abbrev pub verified : (Ident → Text → Bool) → Ident → Option User → Text → Bool
verified verify dummy_hash none password = verify dummy_hash password
verified verify dummy_hash (some user) password = verify user.password_hash password

-- the user whom the password lets in
unfoldable pub admitted : (Ident → Text → Bool) → Ident → Option User → Text → Option User
admitted verify dummy_hash found password =
    if not (verified verify dummy_hash found password) || holds found (λ user. user.blocked)
    then none
    else found

unfoldable pub login_rows :
    Ident
    → Ident
    → Ident
    → Ident
    → Ident
    → ℕ
    → AccountDb
    → Option User
    → Option (Session × Actor) × AccountDb
login_rows ip_bucket login_bucket token_key csrf request_id now db none = (
  none,
  record db {
    audit = append_event db.audit (event none Action.login_failed request_id now failed no_links);
  },
)
login_rows ip_bucket login_bucket token_key csrf request_id now db (some user) =
    let session : Session = record {
      user_id = user.actor.user_id;
      csrf = csrf;
      created = now;
      touched = now;
    } in
    (
      some (session, user.actor),
      record db {
        session = put db.session token_key session;
        audit =
            append_event db.audit
              (event (some user.actor) login_succeeded request_id now success no_links);
      },
    )

-- both buckets with the attempt that is being made
unfoldable pub counted : Ident → Ident → ℕ → Table (List ℕ) → Table (List ℕ)
unfolding recent
counted ip_bucket login_bucket now rates =
    put (put rates ip_bucket (attempts_of rates ip_bucket now ++ now ∷ [])) login_bucket
      (attempts_of rates login_bucket now ++ now ∷ [])

-- the transaction of `login`: `none` for a login that fails, which commits all the same
unfoldable pub login_tx :
    (Ident → Text → Bool)
    → Ident
    → Ident
    → Ident
    → Ident
    → Ident
    → Ident
    → ℕ
    → Text
    → Text
    → AccountDb
    → Result (Option (Session × Actor) × AccountDb)
unfolding recent counted find_login admitted login_rows
login_tx verify dummy_hash ip_bucket login_bucket token_key csrf request_id now login password db =
    do
      raise_if
          (leb login_attempts_per_ip (length (attempts_of db.login_rate ip_bucket now))
            || leb login_attempts_per_ip_and_login
                (length (attempts_of db.login_rate login_bucket now)))
          rate_limited
      ok (
          login_rows ip_bucket login_bucket token_key csrf request_id now
            (record db { login_rate = counted ip_bucket login_bucket now db.login_rate })
            (admitted verify dummy_hash (find_login login (list db.user)) password))

-- the end of `login`: the error is raised after the transaction
abbrev pub settle :
    AccountDb → Result (Option (Session × Actor) × AccountDb) → Result (Session × Actor) × AccountDb
settle db (err e) = (err e, db)
settle db (ok (none, db')) = (err (api login_failed), db')
settle db (ok (some answer, db')) = (ok answer, db')

-- when a session ends
abbrev pub end_of : Lifetimes → Session → ℕ
end_of lifetimes session =
    min (session.created + lifetimes.absolute_session) (session.touched + lifetimes.idle_session)

unfoldable pub authenticate : Lifetimes → ℕ → AccountDb → Ident → Result (Session × Actor)
authenticate lifetimes now db token_key = do
  session ← or_raise (get db.session token_key) unauthenticated
  user ← or_raise (get db.user session.user_id) unauthenticated
  raise_if (user.blocked || leb (end_of lifetimes session) now) unauthenticated
  ok (session, user.actor)

unfoldable pub touch : ℕ → Ident → AccountDb → AccountDb
touch now token_key db = elim (get db.session token_key) [
  | none ↦ db
  | some session ↦ record db {
    session = put db.session token_key (record session { touched = now });
  }
]

unfoldable pub logout : ℕ → Ident → Actor → Ident → AccountDb → AccountDb
logout now token_key actor request_id db = record db {
  session = delete db.session token_key;
  audit = append_event db.audit (event (some actor) Action.logout request_id now success no_links);
}
