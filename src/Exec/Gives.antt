-- ===== src/Exec/Gives.antt =====
-- What a method that returns has made sure of, by the last of its calls.
use mathlib.Core.Path.{subst}
use wise_way.Prelude.{◌≡◌, ◌⊎◌, inl, inr, refl, ap}
use wise_way.Common.{Error, Result, ok, err}
use wise_way.Database.{Db}
use wise_way.Host.{Host}
use wise_way.Exec.{Sys, Exec, ◌>>=◌, continue, write, commit}

-- every value that is returned stands with rows that satisfy `Q`
pub record Gives {host : Host} {A : Type 0} (Q : A → Db → Type 0) (m : Exec host A) : Type 0 where
  pub at : (s s' : Sys host) (a : A) → m s ≡ (ok a, s') → Q a s'.db

pub Result-cases :
    {A : Type 0} (r : Result A) → ((e : Error) × (r ≡ err e)) ⊎ ((a : A) × (r ≡ ok a))
Result-cases (ok a) = inr (a, refl)
Result-cases (err e) = inl (e, refl)

continue-Gives :
    {host : Host} {A B : Type 0} {Q : B → Db → Type 0} (r : Result A) (f : A → Exec host B)
    (s s' : Sys host) (b : B)
    → ((a : A) → Gives Q (f a))
    → continue r f s ≡ (ok b, s')
    → Q b s'.db
continue-Gives (ok a) f s s' b k h = (k a).at s s' b h
continue-Gives (err e) f s s' b k h = absurd (cc (ap (λ p. p.0) h))

pub Gives-bind :
    {host : Host} {A B : Type 0} {Q : B → Db → Type 0} (m : Exec host A) (f : A → Exec host B)
    → ((a : A) → Gives Q (f a))
    → Gives Q (m >>= f)
unfolding ◌>>=◌
Gives-bind m f k = record { at = λ s s' b h. continue-Gives (m s).0 f (m s).1 s' b k h }

commit-Gives :
    {host : Host} {A : Type 0} {Q : A → Db → Type 0} (r : Result (A × Db)) (s s' : Sys host) (a : A)
    → ((a : A) (db' : Db) → r ≡ ok (a, db') → Q a db')
    → commit r s ≡ (ok a, s')
    → Q a s'.db
unfolding commit
commit-Gives {Q = Q} (ok (a, db)) s s' b k h =
    let returned : ok a ≡ ok b = ap (λ p. p.0) h in
    let same : a ≡ b = cc returned in
    subst (λ d. Q b d) (ap (λ p. p.1.db) h) (subst (λ x. Q x db) same (k a db refl))
commit-Gives (err e) s s' b k h = absurd (cc (ap (λ p. p.0) h))

pub Gives-write :
    {host : Host} {A : Type 0} {Q : A → Db → Type 0} (f : Db → Result (A × Db))
    → ((db db' : Db) (a : A) → f db ≡ ok (a, db') → Q a db')
    → Gives Q (write {host = host} f)
unfolding write
Gives-write f k = record {
  at = λ s s' a h. commit-Gives (f s.db) s s' a (λ b db' e. k s.db db' b e) h;
}
