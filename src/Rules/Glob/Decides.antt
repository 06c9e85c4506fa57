-- ===== src/Rules/Glob/Decides.antt =====
-- The loop of `_match_glob` (backend/wiseway/rules.py) against the meaning of masks. One remembered
-- star is enough: what an older star could still reach, the newest one reaches too.
use wise_way.Prelude.{
  ℕ, zero, suc, ◌+◌, ◌≡◌, refl, sym, ap, ◌∙◌, Bool, true, false, not, ◌&&◌, ◌||◌, Option, none,
  some, [], ◌∷◌, Text, ◌==◌, arith, Bool-cases, Option-cases, inl, inr, drop, get_elem?, drop-drop,
  drop-get, drop-get_none, drop-suc_nil,
}
use wise_way.Rules.Glob.{star, question, all_stars, at_star, accepts, glob_loop}
use wise_way.Rules.Glob.Steps.{loop_end, loop_same, loop_star, loop_fail, loop_retry}
use wise_way.Rules.Glob.Spec.{
  any_suffix, one, matches, all_stars-eq-matches, any_suffix-split, any_suffix-any_suffix,
  any_suffix-get,
}

-- the first `d` characters are there, and none is a star
abbrev pub plain : ℕ → Text → Bool
plain zero mask = true
plain (suc d) [] = false
plain (suc d) (m ∷ mask) = not (m == star) && plain d mask

-- no character is a star
abbrev pub starless : Text → Bool
starless [] = true
starless (c ∷ text) = not (c == star) && starless text

slide :
    (d : ℕ) (mask text : Text)
    → plain d mask ≡ true
    → matches mask text ≡ true
    → matches (drop d mask) (drop d text) ≡ true
unfolding matches one
slide zero mask text p h = h
slide (suc d) [] text p h = cc
slide (suc d) (m ∷ mask) [] p h = ground arith
slide (suc d) (m ∷ mask) (c ∷ text) p h = slide d mask text (ground arith) (ground arith)

plain-snoc :
    (d : ℕ) (mask : Text) (m : ℕ)
    → plain d mask ≡ true
    → get_elem? mask d ≡ some m
    → (m == star) ≡ false
    → plain (suc d) mask ≡ true
plain-snoc zero [] m p e n = cc
plain-snoc zero (x ∷ mask) m p e n = ground arith
plain-snoc (suc d) [] m p e n = cc
plain-snoc (suc d) (x ∷ mask) m p e n = ground (arith, plain-snoc d mask m)

starless-get :
    (i : ℕ) (text : Text) {c : ℕ}
    → starless text ≡ true
    → get_elem? text i ≡ some c
    → (c == star) ≡ false
starless-get i [] h e = cc
starless-get zero (x ∷ text) h e = ground arith
starless-get (suc i) (x ∷ text) h e = starless-get i text (ground arith) e

get_elem?-drop : (i j : ℕ) (text : Text) → get_elem? (drop i text) j ≡ get_elem? text (i + j)
get_elem?-drop zero j text = let e : zero + j ≡ j = omega arith in rw e
get_elem?-drop (suc i) j [] = refl
get_elem?-drop (suc i) j (c ∷ text) =
    let e : suc i + j ≡ suc (i + j) = omega arith in rw e (get_elem?-drop i j text)

-- What each kind of first mask character means for a text that begins with `c`.
matches-star :
    (m : ℕ) (mask text : Text)
    → (m == star) ≡ true
    → matches (m ∷ mask) text ≡ any_suffix (matches mask) text
unfolding matches
matches-star m mask text h = rw h

matches-one :
    (m c : ℕ) (mask text : Text)
    → (m == star) ≡ false
    → matches (m ∷ mask) (c ∷ text) ≡ ((m == question || m == c) && matches mask text)
unfolding matches one
matches-one m c mask text h = rw h

module _ (mask value : Text) where
  -- what the remembered star can still reach: it takes at least one more character
  abbrev pub alt : Option ℕ → ℕ → Bool
  alt none retry = false
  alt (some s) retry = any_suffix (matches (drop (suc s) mask)) (drop (suc retry) value)

  -- Since the remembered star the loop has consumed `d` characters of both, and no star of the mask.
  abbrev pub Since : Option ℕ → ℕ → ℕ → ℕ → Type 0
  Since none mi vi retry = Unit
  Since (some s) mi vi retry =
      (d : ℕ) × (mi ≡ suc s + d) × (vi ≡ retry + d) × (plain d (drop (suc s) mask) ≡ true)

  -- What the remembered star reaches, the mask from here reaches too, at a later place.
  alt-later :
      (last_star : Option ℕ) (mi vi retry : ℕ)
      → Since last_star mi vi retry
      → alt last_star retry ≡ true
      → (k : ℕ) × (matches (drop mi mask) (drop (suc k) (drop vi value)) ≡ true)
  alt-later none mi vi retry h e = cc
  alt-later (some s) mi vi retry (d, p, q, w) e =
      let (k, found) = any_suffix-split (matches (drop (suc s) mask)) (drop (suc retry) value) e in
      let moved = slide d (drop (suc s) mask) (drop k (drop (suc retry) value)) w found in
      let place : suc retry + k + d ≡ vi + suc k = omega arith in
      (k, rw (p, drop-drop, ← place) (simp drop-drop at moved))

  -- The value of the whole search from a state of the loop.
  abbrev pub search_value : ℕ → ℕ → Option ℕ → ℕ → Bool
  search_value mi vi last_star retry = matches (drop mi mask) (drop vi value) || alt last_star retry

  -- With no text left, the remembered star has nothing to add.
  at_end :
      (mi vi retry : ℕ) (last_star : Option ℕ)
      → Since last_star mi vi retry
      → get_elem? value vi ≡ none
      → search_value mi vi last_star retry ≡ all_stars (drop mi mask)
  at_end mi vi retry last_star since e = elim (Bool-cases (alt last_star retry)) [
    | inl t ↦
        let (k, found) = alt-later last_star mi vi retry since t in
        let found' = rw (drop-get_none vi value e) at found in
        rw (t, drop-get_none vi value e, all_stars-eq-matches, found') refl
    | inr f ↦ rw (f, drop-get_none vi value e, all_stars-eq-matches) (ground arith)
  ]

  -- At a star of the mask, whatever the older star reaches is reached from here.
  at_new_star :
      (mi vi retry m c : ℕ) (last_star : Option ℕ)
      → Since last_star mi vi retry
      → get_elem? mask mi ≡ some m
      → (m == star) ≡ true
      → get_elem? value vi ≡ some c
      → search_value mi vi last_star retry ≡ search_value (suc mi) vi (some mi) vi
  at_new_star mi vi retry m c last_star since em es ec =
      let rest = matches (drop (suc mi) mask) in
      let meaning = λ (text : Text).
        ap (λ x. matches x text) (drop-get mi mask em)
        ∙ matches-star m (drop (suc mi) mask) text es in
      elim (Bool-cases (alt last_star retry)) [
        | inl t ↦
            let (k, found) = alt-later last_star mi vi retry since t in
            let reached =
              any_suffix-any_suffix rest (suc k) (drop vi value)
                (sym (meaning (drop (suc k) (drop vi value))) ∙ found) in
            ground (arith, any_suffix-get rest vi value ec, meaning (drop vi value), reached)
        | inr f ↦ ground (arith, any_suffix-get rest vi value ec, meaning (drop vi value))
      ]

  -- What the character under the mask's index says about the two sides.
  not_star_of_accepts :
      (m c : ℕ) → (c == star) ≡ false → (m == question || m == c) ≡ true → (m == star) ≡ false
  not_star_of_accepts m c n a = ground arith

  at_match :
      (mi vi retry c : ℕ) (last_star : Option ℕ)
      → (c == star) ≡ false
      → get_elem? value vi ≡ some c
      → accepts mask mi c ≡ true
      → search_value mi vi last_star retry ≡ search_value (suc mi) (suc vi) last_star retry
  unfolding accepts
  at_match mi vi retry c last_star n ec a = elim (Option-cases (get_elem? mask mi)) [
    | inl e ↦ let a' = rw e at a in cc
    | inr (m, e) ↦
        let a' = rw e at a in
        ground (
          arith,
          drop-get mi mask e,
          drop-get vi value ec,
          not_star_of_accepts m c n a',
          matches-one m c (drop (suc mi) mask) (drop (suc vi) value),
        )
  ]

  Since-match :
      (mi vi retry c : ℕ) (last_star : Option ℕ)
      → (c == star) ≡ false
      → accepts mask mi c ≡ true
      → Since last_star mi vi retry
      → Since last_star (suc mi) (suc vi) retry
  unfolding accepts
  Since-match mi vi retry c none n a since = tt
  Since-match mi vi retry c (some s) n a (d, p, q, w) = elim (Option-cases (get_elem? mask mi)) [
    | inl e ↦ let a' = rw e at a in cc
    | inr (m, e) ↦
        let a' = rw e at a in
        (
          suc d,
          omega arith,
          omega arith,
          plain-snoc d (drop (suc s) mask) m w (rw (get_elem?-drop, ← p) e)
              (not_star_of_accepts m c n a'),
        )
  ]

  at_mismatch :
      (mi vi retry c : ℕ) (last_star : Option ℕ)
      → get_elem? value vi ≡ some c
      → accepts mask mi c ≡ false
      → at_star mask mi ≡ false
      → search_value mi vi last_star retry ≡ alt last_star retry
  unfolding accepts at_star matches
  at_mismatch mi vi retry c last_star ec a t = elim (Option-cases (get_elem? mask mi)) [
    | inl e ↦ rw (drop-get_none mi mask e, drop-get vi value ec) refl
    | inr (m, e) ↦
        let a' = rw e at a in
        let t' = rw e at t in
        rw
          (
            drop-get mi mask e,
            drop-get vi value ec,
            matches-one m c (drop (suc mi) mask) (drop (suc vi) value) t',
            a',
          )
          refl
  ]

  at_retry :
      (s retry : ℕ) → alt (some s) retry ≡ search_value (suc s) (suc retry) (some s) (suc retry)
  unfolding any_suffix
  at_retry s retry = elim (Option-cases (get_elem? value (suc retry))) [
    | inl e ↦
        let past = drop-get_none (suc retry) value e in
        ground (arith, past, drop-suc_nil (suc retry) value past)
    | inr (c, e) ↦ any_suffix-get (matches (drop (suc s) mask)) (suc retry) value e
  ]

  star_under :
      (mi : ℕ)
      → at_star mask mi ≡ true
      → (m : ℕ) × (get_elem? mask mi ≡ some m) × ((m == star) ≡ true)
  unfolding at_star
  star_under mi t = elim (Option-cases (get_elem? mask mi)) [
    | inl e ↦ let t' = rw e at t in cc
    | inr (m, e) ↦ (m, e, rw e at t)
  ]

  -- The round that follows a character which the mask does not accept.
  retry_value :
      (mi vi retry c s : ℕ) (last_star : Option ℕ)
      → get_elem? value vi ≡ some c
      → accepts mask mi c ≡ false
      → at_star mask mi ≡ false
      → last_star ≡ some s
      → search_value mi vi last_star retry ≡ search_value (suc s) (suc retry) (some s) (suc retry)
  retry_value mi vi retry c s last_star g a t l =
      at_mismatch mi vi retry c last_star g a t ∙ ap (λ o. alt o retry) l ∙ at_retry s retry

  -- Whatever the loop answers is the value of the search, at each state that it reaches.
  pub loop_sound :
      (fuel mi vi retry : ℕ) (last_star : Option ℕ) {answer : Bool}
      → starless value ≡ true
      → Since last_star mi vi retry
      → glob_loop mask value fuel mi vi last_star retry ≡ some answer
      → answer ≡ search_value mi vi last_star retry
  unfolding glob_loop
  loop_sound zero mi vi retry last_star clean since e = cc
  loop_sound (suc fuel) mi vi retry last_star clean since e =
      elim (Option-cases (get_elem? value vi)) [
        | inl g ↦
            cc (
              loop_end mask value fuel mi vi retry last_star g,
              at_end mi vi retry last_star since g,
            )
        | inr (c, g) ↦ elim (Bool-cases (accepts mask mi c)) [
          | inl a ↦
              let n = starless-get vi value clean g in
              loop_sound fuel (suc mi) (suc vi) retry last_star clean
                (Since-match mi vi retry c last_star n a since)
                (sym (loop_same mask value fuel mi vi retry last_star g a) ∙ e)
              ∙ sym (at_match mi vi retry c last_star n g a)
          | inr a ↦ elim (Bool-cases (at_star mask mi)) [
            | inl t ↦
                let (m, em, es) = star_under mi t in
                loop_sound fuel (suc mi) vi vi (some mi) clean (0, omega arith, omega arith, refl)
                  (sym (loop_star mask value fuel mi vi retry last_star g a t) ∙ e)
                ∙ sym (at_new_star mi vi retry m c last_star since em es g)
            | inr t ↦ elim (Option-cases last_star) [
              | inl l ↦ cc (
                loop_fail mask value fuel mi vi retry last_star g a t l,
                at_mismatch mi vi retry c last_star g a t,
                ap (λ o. alt o retry) l,
              )
              | inr (s, l) ↦
                  loop_sound fuel (suc s) (suc retry) (suc retry) (some s) clean
                    (0, omega arith, omega arith, refl)
                    (sym (loop_retry mask value fuel mi vi retry last_star g a t l) ∙ e)
                  ∙ sym (retry_value mi vi retry c s last_star g a t l)
            ]
          ]
        ]
      ]
