-- ===== src/Exec/Still.antt =====
-- Methods that ask the filesystem for no move: one rule for each way to build such a method.
use wise_way.Prelude.{◌≡◌, refl, ◌∙◌, Bool, true, false, Text, if◌then◌else◌}
use wise_way.Common.{Error, Result, ok, err}
use wise_way.Database.{Db}
use wise_way.Host.{Host}
use wise_way.Exec.{
  Sys, Exec, pure, raise, lift, continue, ◌>>=◌, attempt_to, read, write, commit, now, stat, exists,
}

pub record Still {host : Host} {A : Type 0} (m : Exec host A) : Type 0 where
  pub still : (s : Sys host) → (m s).1.moves ≡ s.moves

module _ {host : Host} where
  pub Still-read : {A : Type 0} (f : Db → Result A) → Still (read {host = host} f)
  unfolding read
  Still-read f = record { still = λ s. refl }

  pub Still-now : Still (now {host = host})
  unfolding now
  Still-now = record { still = λ s. refl }

  pub Still-stat : (path : Text) → Still (stat {host = host} path)
  unfolding stat
  Still-stat path = record { still = λ s. refl }

  pub Still-exists : (path : Text) → Still (exists {host = host} path)
  unfolding exists
  Still-exists path = record { still = λ s. refl }

  pub Still-pure : {A : Type 0} (a : A) → Still (pure {host = host} a)
  unfolding pure
  Still-pure a = record { still = λ s. refl }

  pub Still-raise : {A : Type 0} (e : Error) → Still (raise {host = host} {A = A} e)
  unfolding raise
  Still-raise e = record { still = λ s. refl }

  pub Still-lift : {A : Type 0} (r : Result A) → Still (lift {host = host} r)
  unfolding lift
  Still-lift r = record { still = λ s. refl }

  commit_moves : {A : Type 0} (r : Result (A × Db)) (s : Sys host) → (commit r s).1.moves ≡ s.moves
  unfolding commit
  commit_moves (ok p) s = refl
  commit_moves (err e) s = refl

  pub Still-write : {A : Type 0} (f : Db → Result (A × Db)) → Still (write {host = host} f)
  unfolding write
  Still-write f = record { still = λ s. commit_moves (f s.db) s }

  pub Still-attempt_to : {A : Type 0} (m : Exec host A) → Still m → Still (attempt_to m)
  unfolding attempt_to
  Still-attempt_to m k = record { still = k.still }

  pub Still-if :
      {A : Type 0} (b : Bool) (m n : Exec host A) → Still m → Still n → Still (if b then m else n)
  Still-if true m n km kn = km
  Still-if false m n km kn = kn

  continue-Still :
      {A B : Type 0} (r : Result A) (f : A → Exec host B) (s : Sys host)
      → ((a : A) → Still (f a))
      → (continue r f s).1.moves ≡ s.moves
  continue-Still (ok a) f s k = (k a).still s
  continue-Still (err e) f s k = refl

  pub Still-bind :
      {A B : Type 0} (m : Exec host A) (f : A → Exec host B)
      → Still m
      → ((a : A) → Still (f a))
      → Still (m >>= f)
  unfolding ◌>>=◌
  Still-bind m f km kf = record { still = λ s. continue-Still (m s).0 f (m s).1 kf ∙ km.still s }

pub ruleset still_rules = (
  Still-read, Still-now, Still-stat, Still-exists, Still-pure, Still-raise, Still-lift, Still-write,
  Still-attempt_to, Still-if, Still-bind,
)
