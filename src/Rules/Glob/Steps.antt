-- ===== src/Rules/Glob/Steps.antt =====
-- One round of the loop of `_match_glob` (backend/wiseway/rules.py), branch by branch.
use wise_way.Prelude.{ℕ, suc, ◌≡◌, true, arith, false, Option, none, some, Text, get_elem?, drop}
use wise_way.Rules.Glob.{all_stars, at_star, accepts, glob_loop}

module _ (mask value : Text) (fuel mi vi retry : ℕ) (last_star : Option ℕ) where
  pub loop_end :
      get_elem? value vi ≡ none
      → glob_loop mask value (suc fuel) mi vi last_star retry ≡ some (all_stars (drop mi mask))
  unfolding glob_loop
  loop_end e = ground arith

module _ (mask value : Text) (fuel mi vi retry : ℕ) (last_star : Option ℕ) {c : ℕ}
    (e : get_elem? value vi ≡ some c) where
  pub loop_same :
      accepts mask mi c ≡ true
      → glob_loop mask value (suc fuel) mi vi last_star retry
        ≡ glob_loop mask value fuel (suc mi) (suc vi) last_star retry
  unfolding glob_loop
  loop_same a = ground arith

  pub loop_star :
      accepts mask mi c ≡ false
      → at_star mask mi ≡ true
      → glob_loop mask value (suc fuel) mi vi last_star retry
        ≡ glob_loop mask value fuel (suc mi) vi (some mi) vi
  unfolding glob_loop
  loop_star a s = ground arith

  pub loop_fail :
      accepts mask mi c ≡ false
      → at_star mask mi ≡ false
      → last_star ≡ none
      → glob_loop mask value (suc fuel) mi vi last_star retry ≡ some false
  unfolding glob_loop
  loop_fail a s l = ground arith

  pub loop_retry :
      {s : ℕ}
      → accepts mask mi c ≡ false
      → at_star mask mi ≡ false
      → last_star ≡ some s
      → glob_loop mask value (suc fuel) mi vi last_star retry
        ≡ glob_loop mask value fuel (suc s) (suc retry) (some s) (suc retry)
  unfolding glob_loop
  loop_retry a t l = ground arith
