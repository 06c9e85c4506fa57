-- ===== src/Search/Index/Dicts.antt =====
-- Dictionaries as lists of pairs, for backend/wiseway/search_index.py.
use wise_way.Prelude.{
  ◌≡◌, ◌↔◌, refl, Bool, true, false, Option, some, List, [], ◌∷◌, ◌++◌, Text, text_eq, text_eq_iff,
  if◌then◌else◌, ◌&&◌, arith,
}
use wise_way.Search.Query.{texts_eq}
use wise_way.Search.Query.Terms.{texts_eq→eq, texts_eq_refl}
use wise_way.Search.Index.{lookup, update}

module _ {K V : Type 0} (same : K → K → Bool) where
  pub lookup-update :
      ((a b : K) → (same a b ≡ true) ↔ (a ≡ b))
      → (key j : K) (change : Option V → V) (d : List (K × V))
      → lookup same j (update same key change d)
        ≡ (if same key j then some (change (lookup same key d)) else lookup same j d)
  unfolding lookup update
  lookup-update is_eq key j change [] = refl
  lookup-update is_eq key j change ((k, v) ∷ d) =
      let rest = lookup-update is_eq key j change d in
      ground (arith, rest, is_eq k key, is_eq key j, is_eq k j)

pub texts_eq_iff : (k l : List Text) → (texts_eq k l ≡ true) ↔ (k ≡ l)
texts_eq_iff k l = (texts_eq→eq k l, λ e. rw e (texts_eq_refl l))

-- the first texts of a list
abbrev pub texts_prefix : List Text → List Text → Bool
texts_prefix [] l = true
texts_prefix (s ∷ k) [] = false
texts_prefix (s ∷ k) (t ∷ l) = text_eq s t && texts_prefix k l

pub texts_prefix-append :
    (k l : List Text) (t : Text) → texts_prefix k l ≡ false → texts_prefix (k ++ t ∷ []) l ≡ false
texts_prefix-append [] l t h = cc
texts_prefix-append (s ∷ k) [] t h = refl
texts_prefix-append (s ∷ k) (u ∷ l) t h = ground (arith, texts_prefix-append k l t)

pub texts_prefix-eq : (k l : List Text) → texts_prefix k l ≡ false → texts_eq k l ≡ false
texts_prefix-eq [] l h = cc
texts_prefix-eq (s ∷ k) [] h = refl
texts_prefix-eq (s ∷ k) (u ∷ l) h = ground (arith, texts_prefix-eq k l)

-- one text more is beyond the list
pub texts_prefix-longer : (k : List Text) (t : Text) → texts_prefix (k ++ t ∷ []) k ≡ false
texts_prefix-longer [] t = refl
texts_prefix-longer (s ∷ k) t = ground (arith, texts_prefix-longer k t)

pub texts_prefix-other :
    (k l : List Text) (s t : Text)
    → text_eq s t ≡ false
    → texts_prefix (k ++ s ∷ []) (k ++ t ∷ l) ≡ false
texts_prefix-other [] l s t h = rw h refl
texts_prefix-other (u ∷ k) l s t h = ground (arith, texts_prefix-other k l s t)

pub texts_eq-longer : (k l : List Text) (t : Text) → texts_eq k (k ++ t ∷ l) ≡ false
texts_eq-longer [] l t = refl
texts_eq-longer (s ∷ k) l t = ground (arith, texts_eq-longer k l t)

pub texts_eq-nil : (k : List Text) → texts_eq k (k ++ []) ≡ true
texts_eq-nil [] = refl
texts_eq-nil (s ∷ k) = ground (arith, text_eq_iff s s, texts_eq-nil k)
