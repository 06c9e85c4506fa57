-- ===== src/Search/Index/Words.antt =====
-- `_term_postings` of backend/wiseway/search_index.py: what is found by halving in the sorted words.
use wise_way.Prelude.{
  ℕ, ◌≡◌, refl, sym, ap, true, false, Bool-cases, inl, inr, List, [], ◌∷◌, map, Text, text_eq,
  if◌then◌else◌, keep, All, arith,
}
use wise_way.Common.Texts.{is_prefix, text_lt}
use wise_way.Search.Order.{insert_by, sort_by}
use wise_way.Search.Index.{
  SearchIndex, Posting, posting_of, vocabulary, from_word, prefix_run, term_postings,
}

text_lt_trans : (x y z : Text) → text_lt y x ≡ false → text_lt z y ≡ false → text_lt z x ≡ false
text_lt_trans [] [] [] h g = refl
text_lt_trans [] [] (c ∷ z) h g = refl
text_lt_trans [] (b ∷ y) [] h g = refl
text_lt_trans [] (b ∷ y) (c ∷ z) h g = refl
text_lt_trans (a ∷ x) [] z h g = cc
text_lt_trans (a ∷ x) (b ∷ y) [] h g = cc
text_lt_trans (a ∷ x) (b ∷ y) (c ∷ z) h g = ground (arith, text_lt_trans x y z)

text_lt_asym : (x y : Text) → text_lt y x ≡ true → text_lt x y ≡ false
text_lt_asym [] [] h = refl
text_lt_asym [] (b ∷ y) h = cc
text_lt_asym (a ∷ x) [] h = refl
text_lt_asym (a ∷ x) (b ∷ y) h = ground (arith, text_lt_asym x y)

less_unprefixed : (term token : Text) → text_lt token term ≡ true → is_prefix term token ≡ false
less_unprefixed [] [] h = cc
less_unprefixed [] (c ∷ token) h = cc
less_unprefixed (a ∷ term) [] h = refl
less_unprefixed (a ∷ term) (c ∷ token) h = ground (arith, less_unprefixed term token)

-- beyond a word that is not less and does not begin with the term, none does
beyond_unprefixed :
    (term token u : Text)
    → text_lt token term ≡ false
    → is_prefix term token ≡ false
    → text_lt u token ≡ false
    → is_prefix term u ≡ false
beyond_unprefixed [] token u a b c = cc
beyond_unprefixed (t ∷ term) [] u a b c = cc
beyond_unprefixed (t ∷ term) (x ∷ token) [] a b c = refl
beyond_unprefixed (t ∷ term) (x ∷ token) (y ∷ u) a b c =
    ground (arith, beyond_unprefixed term token u)

-- no word is less than one before it
abbrev pub IsSorted : List Text → Type 0
IsSorted [] = Unit
IsSorted (x ∷ l) = All (λ y. text_lt y x ≡ false) l × IsSorted l

All-insert_by :
    (bound x : Text) (l : List Text)
    → text_lt x bound ≡ false
    → All (λ y. text_lt y bound ≡ false) l
    → All (λ y. text_lt y bound ≡ false) (insert_by text_lt x l)
unfolding insert_by
All-insert_by bound x [] h a = (h, tt)
All-insert_by bound x (y ∷ l) h a = elim (Bool-cases (text_lt y x)) [
  | inl e ↦ rw e (a.0, All-insert_by bound x l h a.1)
  | inr e ↦ rw e (h, a)
]

All-beyond :
    (x y : Text) (l : List Text)
    → text_lt y x ≡ false
    → All (λ z. text_lt z y ≡ false) l
    → All (λ z. text_lt z x ≡ false) l
All-beyond x y [] h a = tt
All-beyond x y (z ∷ l) h a = (text_lt_trans x y z h a.0, All-beyond x y l h a.1)

insert_by-IsSorted : (x : Text) (l : List Text) → IsSorted l → IsSorted (insert_by text_lt x l)
unfolding insert_by
insert_by-IsSorted x [] s = (tt, tt)
insert_by-IsSorted x (y ∷ l) s = elim (Bool-cases (text_lt y x)) [
  | inl e ↦ rw e (All-insert_by y x l (text_lt_asym x y e) s.0, insert_by-IsSorted x l s.1)
  | inr e ↦ rw e ((e, All-beyond x y l e s.0), s)
]

pub sort_by-IsSorted : (l : List Text) → IsSorted (sort_by text_lt l)
unfolding sort_by
sort_by-IsSorted [] = tt
sort_by-IsSorted (x ∷ l) = insert_by-IsSorted x (sort_by text_lt l) (sort_by-IsSorted l)

-- a word's factor and its posting
abbrev pub found_word : SearchIndex → Text → Text → ℕ × Posting
found_word index term token = ((if text_eq token term then 2 else 1), posting_of index token)

keep-none :
    (term : Text) (l : List Text)
    → All (λ y. is_prefix term y ≡ false) l
    → keep (is_prefix term) l ≡ []
keep-none term [] a = refl
keep-none term (y ∷ l) a = rw (a.0, keep) (keep-none term l a.1)

All-unprefixed :
    (term token : Text) (l : List Text)
    → text_lt token term ≡ false
    → is_prefix term token ≡ false
    → All (λ y. text_lt y token ≡ false) l
    → All (λ y. is_prefix term y ≡ false) l
All-unprefixed term token [] h g a = tt
All-unprefixed term token (y ∷ l) h g a =
    (beyond_unprefixed term token y h g a.0, All-unprefixed term token l h g a.1)

module _ (index : SearchIndex) (term : Text) where
  run_lem :
      (l : List Text)
      → IsSorted l
      → All (λ y. text_lt y term ≡ false) l
      → prefix_run index term l ≡ map (found_word index term) (keep (is_prefix term) l)
  unfolding prefix_run
  run_lem [] s a = refl
  run_lem (y ∷ l) s a = elim (Bool-cases (is_prefix term y)) [
    | inl e ↦
        rw (e, keep)
          (ap (λ (r : List (ℕ × Posting)). found_word index term y ∷ r) (run_lem l s.1 a.1))
    | inr e ↦
        rw (e, keep)
          (ap (map (found_word index term))
            (sym (keep-none term l (All-unprefixed term y l a.0 e s.0))))
  ]

  All-from :
      (x : Text) (l : List Text)
      → text_lt x term ≡ false
      → All (λ y. text_lt y x ≡ false) l
      → All (λ y. text_lt y term ≡ false) l
  All-from x l h a = All-beyond term x l h a

  from_lem :
      (l : List Text)
      → IsSorted l
      → prefix_run index term (from_word term l)
        ≡ map (found_word index term) (keep (is_prefix term) l)
  unfolding from_word
  from_lem [] s = run_lem [] tt tt
  from_lem (y ∷ l) s = elim (Bool-cases (text_lt y term)) [
    | inl e ↦ rw (e, less_unprefixed term y e, keep) (from_lem l s.1)
    | inr e ↦ rw e (run_lem (y ∷ l) s (e, All-from y l e s.0))
  ]

  -- The postings that are found for a term, by halving in the sorted words and going on from there while
  -- they begin with the term, are those of all words of the index that begin with it, and the word that
  -- is the term counts double.
  pub term_postings_lem :
      term_postings index term
      ≡ map (found_word index term) (keep (is_prefix term) (vocabulary index))
  unfolding term_postings vocabulary
  term_postings_lem =
      from_lem (vocabulary index)
        (sort_by-IsSorted (map (λ (p : Text × Posting). p.0) index.postings))
