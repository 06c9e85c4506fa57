-- ===== src/Prelude/Lists.antt =====
-- Lists measured and indexed by the native numbers, under the library's names.
use Prim.Native.Nat.{ℕ, zero, suc, ◌+◌, ◌-◌, ◌<◌, ◌≤◌, min}
use mathlib.Core.Path.{◌≡◌, refl, ap, sym, subst, ◌∙◌}
use mathlib.Core.Logic.{◌⊎◌, inl, inr}
use mathlib.Core.Bool.{Bool, true}
use mathlib.Core.List.{List, [], ◌∷◌, ◌++◌, map}
use mathlib.Core.Option.{Option, none, some}
use native.Mathlib.Omega.{arith}
use wise_way.Prelude.Tests.{if◌then◌else◌, Bool-cases}

module _ {ℓ} {A : Type ℓ} where
  abbrev pub length : List A → ℕ
  length [] = 0
  length (x ∷ xs) = suc (length xs)

  abbrev pub get_elem? : List A → ℕ → Option A
  get_elem? [] i = none
  get_elem? (x ∷ xs) zero = some x
  get_elem? (x ∷ xs) (suc i) = get_elem? xs i

  -- A write out of bounds changes nothing.
  abbrev pub set : List A → ℕ → A → List A
  set [] i v = []
  set (x ∷ xs) zero v = v ∷ xs
  set (x ∷ xs) (suc i) v = x ∷ set xs i v

  abbrev pub take : ℕ → List A → List A
  take zero xs = []
  take (suc n) [] = []
  take (suc n) (x ∷ xs) = x ∷ take n xs

  abbrev pub drop : ℕ → List A → List A
  drop zero xs = xs
  drop (suc n) [] = []
  drop (suc n) (x ∷ xs) = drop n xs

  -- the comprehension `[x for x in xs if test(x)]`
  abbrev pub keep : (A → Bool) → List A → List A
  keep p [] = []
  keep p (x ∷ xs) = let rest = keep p xs in if p x then x ∷ rest else rest

  abbrev pub All {κ} : (A → Type κ) → List A → Type κ
  All P [] = Unit
  All P (x ∷ xs) = P x × All P xs

module _ {ℓ} {A : Type ℓ} where
  pub length-append : (xs ys : List A) → length (xs ++ ys) ≡ length xs + length ys
  length-append [] ys = omega arith
  length-append (x ∷ xs) ys = omega (arith, length-append xs ys)

  pub take-append-drop : (n : ℕ) (xs : List A) → take n xs ++ drop n xs ≡ xs
  take-append-drop zero xs = refl
  take-append-drop (suc n) [] = refl
  take-append-drop (suc n) (x ∷ xs) = rw (take-append-drop n xs)

  pub length-take : (n : ℕ) (xs : List A) → length (take n xs) ≡ min n (length xs)
  length-take zero xs = omega arith
  length-take (suc n) [] = omega arith
  length-take (suc n) (x ∷ xs) = omega (arith, length-take n xs)

  pub length-drop : (n : ℕ) (xs : List A) → length (drop n xs) ≡ length xs - n
  length-drop zero xs = omega arith
  length-drop (suc n) [] = omega arith
  length-drop (suc n) (x ∷ xs) = omega (arith, length-drop n xs)

  pub drop-nil : (n : ℕ) → drop {A = A} n [] ≡ []
  drop-nil zero = refl
  drop-nil (suc n) = refl

  pub drop-drop : (m n : ℕ) (xs : List A) → drop m (drop n xs) ≡ drop (n + m) xs
  drop-drop m zero xs = let e : zero + m ≡ m = omega arith in rw e
  drop-drop m (suc n) [] = rw (drop-nil m, drop-nil (suc n + m))
  drop-drop m (suc n) (x ∷ xs) =
      let e : suc n + m ≡ suc (n + m) = omega arith in rw e (drop-drop m n xs)

  pub length-map {κ} : {B : Type κ} (xs : List A) (f : A → B) → length (map f xs) ≡ length xs
  length-map [] f = refl
  length-map (x ∷ xs) f = ap suc (length-map xs f)

  pub drop-get :
      (i : ℕ) (xs : List A) {a : A} → get_elem? xs i ≡ some a → drop i xs ≡ a ∷ drop (suc i) xs
  drop-get zero [] h = cc
  drop-get zero (x ∷ xs) h = cc
  drop-get (suc i) [] h = cc
  drop-get (suc i) (x ∷ xs) h = drop-get i xs h

  pub drop-get_none : (i : ℕ) (xs : List A) → get_elem? xs i ≡ none → drop i xs ≡ []
  drop-get_none zero [] h = refl
  drop-get_none zero (x ∷ xs) h = cc
  drop-get_none (suc i) [] h = refl
  drop-get_none (suc i) (x ∷ xs) h = drop-get_none i xs h

  pub get_elem?-lt : (i : ℕ) (xs : List A) {a : A} → get_elem? xs i ≡ some a → i < length xs
  get_elem?-lt i [] h = cc
  get_elem?-lt zero (x ∷ xs) h = omega arith
  get_elem?-lt (suc i) (x ∷ xs) h = omega (arith, get_elem?-lt i xs h)

  pub get_elem?-ge : (i : ℕ) (xs : List A) → get_elem? xs i ≡ none → length xs ≤ i
  get_elem?-ge i [] h = omega arith
  get_elem?-ge zero (x ∷ xs) h = cc
  get_elem?-ge (suc i) (x ∷ xs) h = omega (arith, get_elem?-ge i xs h)

  pub drop-suc_nil : (i : ℕ) (xs : List A) → drop i xs ≡ [] → drop (suc i) xs ≡ []
  drop-suc_nil i [] h = refl
  drop-suc_nil zero (x ∷ xs) h = cc
  drop-suc_nil (suc i) (x ∷ xs) h = drop-suc_nil i xs h

module _ {A : Type 0} where
  -- membership by recursion, which the tactics read
  abbrev pub Member : A → List A → Type 0
  Member a [] = ⊥
  Member a (x ∷ xs) = (x ≡ a) ⊎ Member a xs

  pub Member-keep :
      (p : A → Bool) (a : A) (xs : List A) → Member a xs → p a ≡ true → Member a (keep p xs)
  Member-keep p a [] m h = m
  Member-keep p a (x ∷ xs) (inl e) h =
      let px : p x ≡ true = ap p e ∙ h in
      let here : keep p (x ∷ xs) ≡ x ∷ keep p xs = rw (px, keep) in
      subst (Member a) (sym here) (inl e)
  Member-keep p a (x ∷ xs) (inr m) h = elim (Bool-cases (p x)) [
    | inl t ↦
        let here : keep p (x ∷ xs) ≡ x ∷ keep p xs = rw (t, keep) in
        subst (Member a) (sym here) (inr (Member-keep p a xs m h))
    | inr f ↦
        let here : keep p (x ∷ xs) ≡ keep p xs = rw (f, keep) in
        subst (Member a) (sym here) (Member-keep p a xs m h)
  ]

  pub keep-Member :
      (p : A → Bool) (a : A) (xs : List A) → Member a (keep p xs) → Member a xs × (p a ≡ true)
  keep-Member p a [] m = absurd m
  keep-Member p a (x ∷ xs) m = elim (Bool-cases (p x)) [
    | inl t ↦
        let here : keep p (x ∷ xs) ≡ x ∷ keep p xs = rw (t, keep) in
        elim (subst (Member a) here m) [
          | inl e ↦ (inl e, ap p (sym e) ∙ t)
          | inr r ↦ let (q, h) = keep-Member p a xs r in (inr q, h)
        ]
    | inr f ↦
        let here : keep p (x ∷ xs) ≡ keep p xs = rw (f, keep) in
        let (q, h) = keep-Member p a xs (subst (Member a) here m) in (inr q, h)
  ]

pub Member-map :
    {A B : Type 0} (f : A → B) (a : A) (xs : List A) → Member a xs → Member (f a) (map f xs)
Member-map f a [] m = m
Member-map f a (x ∷ xs) (inl e) = inl (ap f e)
Member-map f a (x ∷ xs) (inr m) = inr (Member-map f a xs m)

pub map-Member :
    {A B : Type 0} (f : A → B) (b : B) (xs : List A)
    → Member b (map f xs)
    → (a : A) × Member a xs × (f a ≡ b)
map-Member f b [] m = elim m [ ]
map-Member f b (x ∷ xs) (inl e) = (x, inl refl, e)
map-Member f b (x ∷ xs) (inr m) = let (a, n, e) = map-Member f b xs m in (a, inr n, e)
