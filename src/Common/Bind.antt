-- ===== src/Common/Bind.antt =====
-- Taking apart a chain of calls that did not raise.
use wise_way.Prelude.{◌≡◌, refl, sym, ap, Bool, true, false, Option, none, some}
use wise_way.Common.{Code, Result, ok, err, ◌>>=◌, raise_if, or_raise}

-- A chain that returned `b` had a first call that returned.
pub >>=-eq-ok {ℓ κ} :
    {A : Type ℓ} {B : Type κ} (call : Result A) (next : A → Result B) {b : B}
    → (call >>= next) ≡ ok b
    → (value : A) × (call ≡ ok value) × (next value ≡ ok b)
>>=-eq-ok (err raised) next h = cc
>>=-eq-ok (ok value) next h = (value, refl, h)

-- A guard that let the call go on did not hold.
pub raise_if-eq-ok {ℓ} :
    {B : Type ℓ} (test : Bool) (c : Code) (k : Result B) {b : B}
    → (raise_if test c >>= λ _. k) ≡ ok b
    → (test ≡ false) × (k ≡ ok b)
raise_if-eq-ok true c k h = cc
raise_if-eq-ok false c k h = (refl, h)

pub or_raise-eq-ok {ℓ κ} :
    {A : Type ℓ} {B : Type κ} (o : Option A) (c : Code) (f : A → Result B) {b : B}
    → (or_raise o c >>= f) ≡ ok b
    → (a : A) × (o ≡ some a) × (f a ≡ ok b)
or_raise-eq-ok none c f h = cc
or_raise-eq-ok (some a) c f h = (a, refl, h)

-- The rows with which a transaction committed.
pub ok-snd :
    {A B : Type 0} {a a' : A} {b b' : B}
    → ◌≡◌ {A = Result (A × B)} (ok (a, b)) (ok (a', b'))
    → b' ≡ b
ok-snd {b = b} h = sym (ap (λ r. elim r [ ok p ↦ p.1 | err _ ↦ b ]) h)
