-- ===== src/Rules/Glob/Match.antt =====
-- `_match_glob` of backend/wiseway/rules.py as a whole.
use wise_way.Prelude.{
  ℕ, suc, ◌+◌, ◌-◌, ◌<◌, ◌≡◌, refl, Bool, true, false, none, some, [], ◌∷◌, Text, arith, length,
}
use wise_way.Rules.Glob.{star, glob_loop, rounds, match_glob}
use wise_way.Rules.Glob.Spec.{any_suffix, matches}
use wise_way.Rules.Glob.Decides.{starless, loop_sound}
use wise_way.Rules.Glob.Total.{left, loop_total}

left-lt-rounds : (mask value : Text) → left mask value 0 0 < rounds mask value
left-lt-rounds mask value =
    let e : length value - 0 ≡ length value = omega arith in rw e (omega arith)

-- The loop ends within its rounds, for every mask and every value.
pub glob_loop-total :
    (mask value : Text)
    → (answer : Bool) × (glob_loop mask value (rounds mask value) 0 0 none 0 ≡ some answer)
glob_loop-total mask value =
    loop_total mask value (rounds mask value) 0 0 0 none (omega arith) (left-lt-rounds mask value)

-- On a value with no star of its own, the loop answers exactly what the mask means.
pub match_glob-eq-matches :
    (mask value : Text) → starless value ≡ true → match_glob mask value ≡ matches mask value
unfolding match_glob
match_glob-eq-matches mask value clean =
    let (answer, e) = glob_loop-total mask value in
    let sound = loop_sound mask value (rounds mask value) 0 0 0 none clean tt e in
    rw e (ground (arith, sound))

any_suffix-empty : (text : Text) → any_suffix (matches []) text ≡ true
unfolding any_suffix matches
any_suffix-empty [] = refl
any_suffix-empty (c ∷ text) = ground (arith, any_suffix-empty text)

-- A value that begins with a star and has more characters is not matched by the mask `*`, which
-- means every text: the loop takes the mask's star for the value's character.
pub star_misses_starred :
    (c : ℕ) (value : Text)
    → (match_glob (star ∷ []) (star ∷ c ∷ value) ≡ false)
      × (matches (star ∷ []) (star ∷ c ∷ value) ≡ true)
unfolding match_glob glob_loop matches
star_misses_starred c value =
    let n = length value + length value + 4 in
    let e : rounds (star ∷ []) (star ∷ c ∷ value) ≡ suc (suc n) = omega arith in
    (rw e, any_suffix-empty (star ∷ c ∷ value))
