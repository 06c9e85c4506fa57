-- ===== src/Rules/Glob/Spec.antt =====
-- What a mask means, as `_match_glob` of backend/wiseway/rules.py intends it: `?` is any one
-- character, `*` any run of characters, and any other character is itself.
use wise_way.Prelude.{
  ℕ, zero, suc, ◌≡◌, refl, Bool, true, false, ◌&&◌, ◌||◌, [], ◌∷◌, Text, ◌==◌, arith, if◌then◌else◌,
  Bool-cases, inl, inr, drop, drop-drop, drop-get, get_elem?, some, ◌+◌,
}
use wise_way.Rules.Glob.{star, question, all_stars}

-- some suffix of the text, itself included, passes the test
unfoldable pub any_suffix : (Text → Bool) → Text → Bool
any_suffix f [] = f []
any_suffix f (c ∷ text) = f (c ∷ text) || any_suffix f text

-- the first character fits, and the rest passes the test
unfoldable pub one : ℕ → (Text → Bool) → Text → Bool
one m f [] = false
one m f (c ∷ text) = (m == question || m == c) && f text

unfoldable pub matches : Text → Text → Bool
unfolding any_suffix one
matches [] [] = true
matches [] (c ∷ text) = false
matches (m ∷ mask) text =
    let here = one m (matches mask) text in
    let far = any_suffix (matches mask) text in if m == star then far else here

pub all_stars-eq-matches : (mask : Text) → all_stars mask ≡ matches mask []
unfolding all_stars matches
all_stars-eq-matches [] = refl
all_stars-eq-matches (m ∷ mask) = ground (arith, all_stars-eq-matches mask)

-- A suffix of a suffix is a suffix.
pub any_suffix-drop :
    (f : Text → Bool) (k : ℕ) (text : Text) → f (drop k text) ≡ true → any_suffix f text ≡ true
unfolding any_suffix
any_suffix-drop f zero [] h = h
any_suffix-drop f (suc k) [] h = h
any_suffix-drop f zero (c ∷ text) h = ground arith
any_suffix-drop f (suc k) (c ∷ text) h = ground (arith, any_suffix-drop f k text h)

pub any_suffix-split :
    (f : Text → Bool) (text : Text) → any_suffix f text ≡ true → (k : ℕ) × (f (drop k text) ≡ true)
unfolding any_suffix
any_suffix-split f [] h = (0, h)
any_suffix-split f (c ∷ text) h = elim (Bool-cases (f (c ∷ text))) [
  | inl here ↦ (0, here)
  | inr later ↦ let (k, e) = any_suffix-split f text (ground arith) in (suc k, e)
]

pub any_suffix-any_suffix :
    (f : Text → Bool) (k : ℕ) (text : Text)
    → any_suffix f (drop k text) ≡ true
    → any_suffix f text ≡ true
any_suffix-any_suffix f k text h =
    let (j, e) = any_suffix-split f (drop k text) h in
    any_suffix-drop f (k + j) text (rw drop-drop at e)

pub any_suffix-get :
    (f : Text → Bool) (i : ℕ) (text : Text) {c : ℕ}
    → get_elem? text i ≡ some c
    → any_suffix f (drop i text) ≡ (f (drop i text) || any_suffix f (drop (suc i) text))
unfolding any_suffix
any_suffix-get f i text e = rw (drop-get i text e)
