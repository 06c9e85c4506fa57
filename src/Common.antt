-- ===== src/Common.antt =====
-- backend/wiseway/common.py: the errors that a request ends with, and the identities of values that
-- every component passes around. A call that may raise returns a `Result`; an `ApiError` is its
-- code (the status and the Russian message go with the code), and `integrity` is the database's
-- refusal of a second row under one key. A moment is a whole number of microseconds, which is the
-- precision of `utc`, so `utc` and `timestamp` leave it as it is.
pub mod Bind
pub mod Texts
use wise_way.Prelude.{ℕ, Bool, true, false, Option, none, some, Text, Ident}

pub data Code : Type 0 where
  validation_error not_found forbidden selection_changed selection_expired : Code
  empty_selection batch_limit_exceeded stale_preview invalid_state invalid_target : Code
  path_outside_root idempotency_key_reused quarantine_version_conflict : Code
  original_path_occupied recovery_required draft_version_conflict : Code
  dictionary_name_conflict stale_simulation rule_conflict no_scenario_ack_required : Code
  rate_limited login_failed unauthenticated csrf_failed : Code
  invalid_query invalid_marker_selection schema_version_changed : Code

-- What may be raised: an `ApiError`, a clash of keys in the database, a use of `None` where a value
-- is needed, a value that the code does not take, an index out of range, too deep a recursion, or an
-- error of the filesystem adapter.
pub data Error : Type 0 where
  api : Code → Error
  integrity type_error recursion_error value_error index_error : Error
  invalid_path not_regular_file source_changed post_rename_changed target_exists : Error
  unsupported_filesystem os_error : Error

pub data Result {ℓ} (A : Type ℓ) : Type ℓ where
  err : Error → Result A
  ok : A → Result A

-- What follows a call runs only where the call did not raise.
abbrev pub ◌>>=◌ {ℓ κ} : {A : Type ℓ} {B : Type κ} → Result A → (A → Result B) → Result B
err raised >>= next = err raised
ok value >>= next = next value

abbrev pub ◌>>◌ {κ} : {B : Type κ} → Result (Unit {0}) → Result B → Result B
call >> rest = call >>= λ _. rest

infixl 5 ◌>>=◌ ◌>>◌
-- `if test: raise error`
abbrev pub raise_if : Bool → Code → Result (Unit {0})
raise_if true c = err (api c)
raise_if false c = ok tt

-- A value that must be there.
abbrev pub or_raise {ℓ} : {A : Type ℓ} → Option A → Code → Result A
or_raise none c = err (api c)
or_raise (some a) c = ok a

pub data Role : Type 0 where
  worker admin : Role

pub record Actor : Type 0 where
  pub user_id : Ident
  pub login : Text
  pub role : Role

-- The logical place of a file: a root and a path below it.
pub record Location : Type 0 where
  pub root_id : Ident
  pub relative_path : Text
  pub display_path : Text

-- `SafeFilesystem._identity`: what tells one file from another.
pub record Fingerprint : Type 0 where
  pub dev : ℕ
  pub ino : ℕ
  pub size : ℕ
  pub mtime_ns : ℕ
