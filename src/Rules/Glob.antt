-- ===== src/Rules/Glob.antt =====
-- `_match_glob` of backend/wiseway/rules.py: the loop over two indices with one remembered star.
pub mod Spec
pub mod Steps
pub mod Decides
pub mod Total
pub mod Match
use wise_way.Prelude.{
  ℕ, zero, suc, ◌+◌, ◌*◌, Bool, true, false, ◌&&◌, ◌||◌, Option, none, some, [], ◌∷◌, Text, ◌==◌,
  if◌then◌else◌, holds, or_else, length, get_elem?, drop,
}

abbrev pub star : ℕ
star = b'*'

abbrev pub question : ℕ
question = b'?'

-- `all(char == "*" for char in mask)`
pub all_stars : Text → Bool
all_stars [] = true
all_stars (m ∷ mask) = m == star && all_stars mask

-- `mask_index < len(mask) and mask[mask_index] == "*"`
pub at_star : Text → ℕ → Bool
at_star mask mask_index = holds (get_elem? mask mask_index) (λ m. m == star)

-- `mask_index < len(mask) and (mask[mask_index] == "?" or mask[mask_index] == value[value_index])`
pub accepts : Text → ℕ → ℕ → Bool
accepts mask mask_index c = holds (get_elem? mask mask_index) (λ m. m == question || m == c)

module _ (mask value : Text) where
  -- The `while` loop with fuel, `none` where it runs out. `last_star` is `none` for the source's -1.
  unfoldable pub glob_loop : ℕ → ℕ → ℕ → Option ℕ → ℕ → Option Bool
  unfolding all_stars at_star accepts
  glob_loop zero mask_index value_index last_star retry_value = none
  glob_loop (suc fuel) mask_index value_index last_star retry_value =
      elim (get_elem? value value_index) [
        | none ↦ some (all_stars (drop mask_index mask))
        | some c ↦
            let same = glob_loop fuel (suc mask_index) (suc value_index) last_star retry_value in
            let wild = glob_loop fuel (suc mask_index) value_index (some mask_index) value_index in
            let retry : Option Bool = elim last_star [
              | none ↦ some false
              | some s ↦ glob_loop fuel (suc s) (suc retry_value) (some s) (suc retry_value)
            ] in
            if accepts mask mask_index c
            then same
            else if at_star mask mask_index
            then wild
            else retry
      ]

-- Enough rounds for the loop: see `Glob.Total`.
abbrev pub rounds : Text → Text → ℕ
rounds mask value = (length value + 1) * (length mask + 1)

unfoldable pub match_glob : Text → Text → Bool
match_glob mask value = or_else (glob_loop mask value (rounds mask value) 0 0 none 0) false
