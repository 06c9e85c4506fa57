-- ===== src/Exec/Ends.antt =====
-- What holds of the durable rows where a method returns, whatever they were before it: one rule for
-- each way to build a method. A method that raises says nothing.
use wise_way.Prelude.{◌≡◌, refl, Bool, true, false, if◌then◌else◌}
use wise_way.Common.{Error, Result, ok, err}
use wise_way.Database.{Db}
use wise_way.Host.{Host}
use wise_way.Exec.{Sys, Exec, raise, continue, ◌>>=◌, write, commit}
use wise_way.Exec.Keeps.{Keeps}

pub record Ends {host : Host} {A : Type 0} (P : Db → Type 0) (m : Exec host A) : Type 0 where
  pub at : (s : Sys host) (a : A) → (m s).0 ≡ ok a → P (m s).1.db

module _ {host : Host} {A : Type 0} {P : Db → Type 0} where
  pub Ends-raise : (error : Error) → Ends P (raise {host = host} {A = A} error)
  unfolding raise
  Ends-raise error = record { at = λ s a h. absurd (cc h) }

  commit-Ends :
      (r : Result (A × Db)) (s : Sys host) (a : A)
      → ((b : A) (db : Db) → r ≡ ok (b, db) → P db)
      → (commit r s).0 ≡ ok a
      → P (commit r s).1.db
  unfolding commit
  commit-Ends (ok (b, db)) s a k h = k b db refl
  commit-Ends (err e) s a k h = absurd (cc h)

  -- a transaction, by what it makes of the rows when it commits
  pub Ends-write :
      (f : Db → Result (A × Db))
      → ((db : Db) (a : A) (db' : Db) → f db ≡ ok (a, db') → P db')
      → Ends P (write {host = host} f)
  unfolding write
  Ends-write f k = record { at = λ s a h. commit-Ends (f s.db) s a (λ b db e. k s.db b db e) h }

  pub Ends-if : (b : Bool) (m n : Exec host A) → Ends P m → Ends P n → Ends P (if b then m else n)
  Ends-if true m n em en = em
  Ends-if false m n em en = en

module _ {host : Host} {A B : Type 0} {P : Db → Type 0} where
  continue-last :
      (r : Result A) (rest : A → Exec host B) (after : Sys host) (b : B)
      → ((a : A) → Ends P (rest a))
      → (continue r rest after).0 ≡ ok b
      → P (continue r rest after).1.db
  continue-last (ok a) rest after b k h = (k a).at after b h
  continue-last (err e) rest after b k h = absurd (cc h)

  -- a chain, by its last call
  pub Ends-bind :
      (call : Exec host A) (rest : A → Exec host B)
      → ((a : A) → Ends P (rest a))
      → Ends P (call >>= rest)
  unfolding ◌>>=◌
  Ends-bind call rest k = record { at = λ s b h. continue-last (call s).0 rest (call s).1 b k h }

  continue-first :
      (r : Result A) (rest : A → Exec host B) (after : Sys host) (b : B)
      → ((a : A) → r ≡ ok a → P after.db)
      → ((a : A) → Keeps P (rest a))
      → (continue r rest after).0 ≡ ok b
      → P (continue r rest after).1.db
  continue-first (ok a) rest after b e k h = (k a).at after (e a refl)
  continue-first (err e) rest after b f k h = absurd (cc h)

  -- a chain, by its first call, where the rest keeps what that call has reached
  pub Ends-first :
      (call : Exec host A) (rest : A → Exec host B)
      → Ends P call
      → ((a : A) → Keeps P (rest a))
      → Ends P (call >>= rest)
  unfolding ◌>>=◌
  Ends-first call rest e k = record {
    at = λ s b h. continue-first (call s).0 rest (call s).1 b (λ a q. e.at s a q) k h;
  }

pub ruleset ends_rules = (Ends-raise, Ends-if, Ends-bind, Ends-first)
