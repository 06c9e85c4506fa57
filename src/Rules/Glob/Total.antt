-- ===== src/Rules/Glob/Total.antt =====
-- The loop of `_match_glob` (backend/wiseway/rules.py) ends: each round either moves the mask's
-- index, or starts again one character later in the value.
use wise_way.Prelude.{
  ℕ, zero, suc, ◌+◌, ◌-◌, ◌*◌, ◌≤◌, ◌<◌, ◌≡◌, ◌∙◌, Bool, true, false, Option, none, some, Text,
  arith, Option-cases, Bool-cases, inl, inr, length, get_elem?, get_elem?-lt, drop,
}
use wise_way.Rules.Glob.{all_stars, at_star, accepts, glob_loop}
use wise_way.Rules.Glob.Steps.{loop_end, loop_same, loop_star, loop_fail, loop_retry}

module _ (mask value : Text) where
  -- the rounds that may still come
  abbrev pub left : ℕ → ℕ → ℕ
  left mi retry = (length value - retry) * (length mask + 1) + (length mask - mi)

  abbrev pub InBounds : Option ℕ → ℕ → ℕ → Type 0
  InBounds none vi retry = retry ≤ vi
  InBounds (some s) vi retry = (retry ≤ vi) × (s < length mask)

  accepts-lt : (mi c : ℕ) → accepts mask mi c ≡ true → mi < length mask
  unfolding accepts
  accepts-lt mi c a = elim (Option-cases (get_elem? mask mi)) [
    | inl e ↦ let a' = rw e at a in cc
    | inr (m, e) ↦ get_elem?-lt mi mask e
  ]

  at_star-lt : (mi : ℕ) → at_star mask mi ≡ true → mi < length mask
  unfolding at_star
  at_star-lt mi a = elim (Option-cases (get_elem? mask mi)) [
    | inl e ↦ let a' = rw e at a in cc
    | inr (m, e) ↦ get_elem?-lt mi mask e
  ]

  InBounds-later :
      (last_star : Option ℕ) (vi retry : ℕ)
      → InBounds last_star vi retry
      → InBounds last_star (suc vi) retry
  InBounds-later none vi retry h = omega arith
  InBounds-later (some s) vi retry h = (omega arith, h.1)

  InBounds-le : (last_star : Option ℕ) (vi retry : ℕ) → InBounds last_star vi retry → retry ≤ vi
  InBounds-le none vi retry h = h
  InBounds-le (some s) vi retry h = h.0

  InBounds-star :
      (last_star : Option ℕ) {s : ℕ} (vi retry : ℕ)
      → InBounds last_star vi retry
      → last_star ≡ some s
      → s < length mask
  InBounds-star none vi retry h l = cc
  InBounds-star (some t) vi retry h l = ground arith

  left-star : (mi vi retry : ℕ) → mi < length mask → retry ≤ vi → left (suc mi) vi < left mi retry
  left-star mi vi retry h k = grind arith

  left-retry :
      (mi s vi retry : ℕ)
      → retry ≤ vi
      → vi < length value
      → s < length mask
      → left (suc s) (suc retry) < left mi retry
  left-retry mi s vi retry a b h =
      let e : length value - retry ≡ suc (length value - suc retry) = omega arith in
      rw e (omega arith)

  -- From every state that the loop reaches, more rounds than are left give an answer.
  pub loop_total :
      (fuel mi vi retry : ℕ) (last_star : Option ℕ)
      → InBounds last_star vi retry
      → left mi retry < fuel
      → (answer : Bool) × (glob_loop mask value fuel mi vi last_star retry ≡ some answer)
  loop_total zero mi vi retry last_star h l = absurd (omega arith)
  loop_total (suc fuel) mi vi retry last_star h l = elim (Option-cases (get_elem? value vi)) [
    | inl g ↦ (all_stars (drop mi mask), loop_end mask value fuel mi vi retry last_star g)
    | inr (c, g) ↦ elim (Bool-cases (accepts mask mi c)) [
      | inl a ↦
          let m = accepts-lt mi c a in
          let (answer, e) =
            loop_total fuel (suc mi) (suc vi) retry last_star (InBounds-later last_star vi retry h)
              (omega arith) in
          (answer, loop_same mask value fuel mi vi retry last_star g a ∙ e)
      | inr a ↦ elim (Bool-cases (at_star mask mi)) [
        | inl t ↦
            let m = at_star-lt mi t in
            let fewer = left-star mi vi retry m (InBounds-le last_star vi retry h) in
            let (answer, e) =
              loop_total fuel (suc mi) vi vi (some mi) (omega arith, m) (omega arith) in
            (answer, loop_star mask value fuel mi vi retry last_star g a t ∙ e)
        | inr t ↦ elim (Option-cases last_star) [
          | inl o ↦ (false, loop_fail mask value fuel mi vi retry last_star g a t o)
          | inr (s, o) ↦
              let m = InBounds-star last_star vi retry h o in
              let fewer =
                left-retry mi s vi retry (InBounds-le last_star vi retry h)
                  (get_elem?-lt vi value g) m in
              let (answer, e) =
                loop_total fuel (suc s) (suc retry) (suc retry) (some s) (omega arith, m)
                  (omega arith) in
              (answer, loop_retry mask value fuel mi vi retry last_star g a t o ∙ e)
        ]
      ]
    ]
  ]
