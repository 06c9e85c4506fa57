-- ===== src/Auth/Accounts.antt =====
-- `AccountService` of backend/wiseway/accounts.py. Each operation of the command line emits its event
-- with a fresh request identifier. `_validate` is modelled in full but for its tests of types.
pub mod Revoked
use wise_way.Prelude.{
  ℕ, ◌+◌, Bool, true, false, not, ◌&&◌, ◌||◌, Option, none, some, List, [], ◌∷◌, ◌++◌, Text, Ident,
  ◌==◌, if◌then◌else◌, ltb, leb, keep, length, text_eq, codes,
}
use wise_way.Common.{
  Role, Actor, Result, ok, ◌>>=◌, ◌>>◌, raise_if, or_raise, validation_error, forbidden, not_found,
  worker, admin,
}
use wise_way.Common.Texts.{is_between, strip, is_empty}
use wise_way.Storage.{Table, get, put, list}
use wise_way.Audit.{
  Action, event, append_event, no_links, success, account_created, account_blocked,
  account_unblocked, password_changed,
}
use wise_way.Auth.{User, Session, AccountDb, find_login}

-- `[A-Za-z0-9]`
abbrev pub is_alphanumeric : ℕ → Bool
is_alphanumeric c = is_between 65 c 90 || is_between 97 c 122 || is_between 48 c 57

-- `[A-Za-z0-9._-]`
abbrev pub is_login_char : ℕ → Bool
is_login_char c = is_alphanumeric c || c == b'.' || c == b'_' || c == b'-'

abbrev pub all_login_chars : Text → Bool
all_login_chars [] = true
all_login_chars (c ∷ text) = is_login_char c && all_login_chars text

-- `_LOGIN.fullmatch(login)`
abbrev pub is_login : Text → Bool
is_login [] = false
is_login (c ∷ text) = is_alphanumeric c && all_login_chars text && leb (length text) 63

-- how many bytes UTF-8 takes for a code point
abbrev pub utf8_width : ℕ → ℕ
utf8_width c = if ltb c 128 then 1 else if ltb c 2048 then 2 else if ltb c 65536 then 3 else 4

abbrev pub utf8_length : Text → ℕ
utf8_length [] = 0
utf8_length (c ∷ text) = utf8_width c + utf8_length text

abbrev pub bad_name : Text → Bool
bad_name name = is_empty (strip name) || ltb 200 (length name)

abbrev pub bad_password : Text → Bool
bad_password password = ltb (length password) 12 || ltb 1024 (utf8_length password)

abbrev pub is_active_admin : User → Bool
is_active_admin user = (elim user.actor.role [ admin ↦ true | worker ↦ false ]) && not user.blocked

-- the first active administrator with this login
unfoldable pub first_admin : Text → List User → Option User
first_admin login [] = none
first_admin login (user ∷ users) =
    if text_eq user.actor.login login && is_active_admin user
    then some user
    else first_admin login users

-- `_admin`
unfoldable pub require_admin : Text → List User → Result User
unfolding first_admin
require_admin login users = or_raise (first_admin login users) forbidden

-- `_target`
unfoldable pub require_login : Text → AccountDb → Result User
require_login login db = or_raise (find_login login (list db.user)) not_found

-- `_revoke`
unfoldable pub revoke : Ident → Table Session → Table Session
revoke user_id [] = []
revoke user_id ((k, session) ∷ sessions) =
    let rest = revoke user_id sessions in
    if session.user_id == user_id then rest else (k, session) ∷ rest

-- `any(u["actor"]["login"].casefold() == login.casefold() ...)`
abbrev pub login_taken : (Text → Text) → Text → List User → Bool
login_taken casefold login [] = false
login_taken casefold login (user ∷ users) =
    text_eq (casefold user.actor.login) (casefold login) || login_taken casefold login users

abbrev pub record_event : Actor → Action → Ident → ℕ → Text → AccountDb → AccountDb
record_event actor action request_id now comment db = record db {
  audit = append_event db.audit (
      event (some actor) action request_id now success
        (record no_links { comment = some comment }));
}

-- `create_user`, with the digest of the password
unfoldable pub create_user :
    (Text → Text)
    → ℕ
    → Ident
    → Ident
    → Text
    → Text
    → Text
    → Role
    → Text
    → Ident
    → AccountDb
    → Result (Actor × AccountDb)
unfolding require_admin strip
create_user casefold now fresh request_id actor_login login name role password hash db = do
  raise_if (not (is_login login)) validation_error
  raise_if (bad_name name) validation_error
  raise_if (bad_password password) validation_error
  acting ← require_admin actor_login (list db.user)
  raise_if (login_taken casefold login (list db.user)) validation_error
  let actor : Actor = record { user_id = fresh; login = login; role = role }
  let user : User = record { actor = actor; password_hash = hash; blocked = false }
  ok (
    actor,
    record_event acting.actor account_created request_id now (codes "Created account: " ++ login)
        (record db { user = put db.user fresh user }),
  )

unfoldable pub reset_password :
    ℕ → Ident → Text → Text → Text → Ident → AccountDb → Result (Unit {0} × AccountDb)
unfolding require_admin require_login revoke
reset_password now request_id actor_login login password hash db = do
  raise_if (not (is_login login)) validation_error
  raise_if (bad_password password) validation_error
  acting ← require_admin actor_login (list db.user)
  target ← require_login login db
  ok (
    tt,
    record_event acting.actor password_changed request_id now (codes "Password changed: " ++ login)
        (record db {
          user = put db.user target.actor.user_id (record target { password_hash = hash });
          session = revoke target.actor.user_id db.session;
        }),
  )

-- the number of active administrators
abbrev pub active_admins : List User → ℕ
active_admins users = length (keep is_active_admin users)

unfoldable pub block_user : ℕ → Ident → Text → Text → AccountDb → Result (Unit {0} × AccountDb)
unfolding require_admin require_login revoke
block_user now request_id actor_login login db = do
  raise_if (not (is_login login)) validation_error
  acting ← require_admin actor_login (list db.user)
  target ← require_login login db
  raise_if (is_active_admin target && leb (active_admins (list db.user)) 1) validation_error
  ok (
    tt,
    record_event acting.actor account_blocked request_id now (codes "Blocked account: " ++ login)
        (record db {
          user = put db.user target.actor.user_id (record target { blocked = true });
          session = revoke target.actor.user_id db.session;
        }),
  )

unfoldable pub unblock_user : ℕ → Ident → Text → Text → AccountDb → Result (Unit {0} × AccountDb)
unfolding require_admin require_login
unblock_user now request_id actor_login login db = do
  raise_if (not (is_login login)) validation_error
  acting ← require_admin actor_login (list db.user)
  target ← require_login login db
  ok (
    tt,
    record_event acting.actor account_unblocked request_id now
        (codes "Unblocked account: " ++ login)
        (record db { user = put db.user target.actor.user_id (record target { blocked = false }) }),
  )
