-- ===== src/Exec/Keeps.antt =====
-- Properties of the durable rows that a method keeps, whether it returns or raises: one rule for
-- each way to build a method.
use wise_way.Prelude.{◌≡◌, refl, Bool, true, false, Text, if◌then◌else◌}
use wise_way.Common.{Error, Result, ok, err, Fingerprint}
use wise_way.Database.{Db}
use wise_way.Host.{Host}
use wise_way.Exec.{
  Sys, Exec, pure, raise, lift, continue, ◌>>=◌, attempt_to, read, write, commit, now, stat, exists,
  rename_no_replace,
}

pub record Keeps {host : Host} {A : Type 0} (P : Db → Type 0) (m : Exec host A) : Type 0 where
  pub at : (s : Sys host) → P s.db → P (m s).1.db

module _ {host : Host} {A : Type 0} {P : Db → Type 0} where
  pub Keeps-lift : (result : Result A) → Keeps P (lift {host = host} result)
  unfolding lift
  Keeps-lift result = record { at = λ before h. h }

  pub Keeps-raise : (error : Error) → Keeps P (raise {host = host} {A = A} error)
  unfolding raise
  Keeps-raise error = record { at = λ before h. h }

  pub Keeps-pure : (value : A) → Keeps P (pure {host = host} value)
  unfolding pure
  Keeps-pure value = record { at = λ before h. h }

  pub Keeps-read : (f : Db → Result A) → Keeps P (read {host = host} f)
  unfolding read
  Keeps-read f = record { at = λ s h. h }

  commit-Keeps :
      (r : Result (A × Db)) (s : Sys host)
      → P s.db
      → ((a : A) (db : Db) → r ≡ ok (a, db) → P db)
      → P (commit r s).1.db
  unfolding commit
  commit-Keeps (ok (a, db)) s h k = k a db refl
  commit-Keeps (err e) s h k = h

  -- a transaction, by what it makes of the rows when it commits
  pub Keeps-write :
      (f : Db → Result (A × Db))
      → ((db : Db) (a : A) (db' : Db) → P db → f db ≡ ok (a, db') → P db')
      → Keeps P (write {host = host} f)
  unfolding write
  Keeps-write f k = record { at = λ s h. commit-Keeps (f s.db) s h (λ a db e. k s.db a db h e) }

  pub Keeps-attempt_to : (m : Exec host A) → Keeps P m → Keeps P (attempt_to m)
  unfolding attempt_to
  Keeps-attempt_to m k = record { at = k.at }

  pub Keeps-if :
      (b : Bool) (m n : Exec host A) → Keeps P m → Keeps P n → Keeps P (if b then m else n)
  Keeps-if true m n km kn = km
  Keeps-if false m n km kn = kn

module _ {host : Host} {P : Db → Type 0} where
  pub Keeps-now : Keeps P (now {host = host})
  unfolding now
  Keeps-now = record { at = λ s h. h }

  pub Keeps-stat : (path : Text) → Keeps P (stat {host = host} path)
  unfolding stat
  Keeps-stat path = record { at = λ s h. h }

  pub Keeps-exists : (path : Text) → Keeps P (exists {host = host} path)
  unfolding exists
  Keeps-exists path = record { at = λ s h. h }

  pub Keeps-rename :
      (source target : Text) (e : Fingerprint)
      → Keeps P (rename_no_replace {host = host} source target e)
  unfolding rename_no_replace
  Keeps-rename source target e = record { at = λ s h. h }

-- what follows a result, where the call that gave it has kept the property
continue-Keeps :
    {host : Host} {A B : Type 0} {P : Db → Type 0} (result : Result A) (rest : A → Exec host B)
    (after : Sys host)
    → ((value : A) → Keeps P (rest value))
    → P after.db
    → P (continue result rest after).1.db
continue-Keeps (ok value) rest after kept h = (kept value).at after h
continue-Keeps (err error) rest after kept h = h

pub Keeps-bind :
    {host : Host} {A B : Type 0} {P : Db → Type 0} (call : Exec host A) (rest : A → Exec host B)
    → Keeps P call
    → ((value : A) → Keeps P (rest value))
    → Keeps P (call >>= rest)
unfolding ◌>>=◌
Keeps-bind call rest first others = record {
  at = λ before h. continue-Keeps (call before).0 rest (call before).1 others (first.at before h);
}

pub ruleset keeps_rules = (
  Keeps-pure, Keeps-raise, Keeps-lift, Keeps-read, Keeps-attempt_to, Keeps-if, Keeps-now,
  Keeps-stat, Keeps-exists, Keeps-rename, Keeps-bind,
)
