-- ===== src/Search/Index/Scores.antt =====
-- The scores that `SearchIndex.match` (backend/wiseway/search_index.py) keeps, position by position.
use wise_way.Prelude.{
  ℕ, ◌+◌, ◌*◌, ◌≡◌, refl, sym, ap, ◌∙◌, Bool, true, false, ◌&&◌, Bool-cases, Option, none, some,
  inl, inr, List, [], ◌∷◌, if◌then◌else◌, ◌==◌, ==_iff, ltb, or_else, is_some, length, arith,
}
use wise_way.Search.Match.{add_score}
use wise_way.Search.Index.{
  Posting, lookup, heavier, keys, has_position, eligible, candidates_of, score_at, match_at,
  match_posting, match_term, add_scores, match_terms,
}
use wise_way.Search.Index.Dicts.{lookup-update}

abbrev pub at : ℕ → Posting → Option ℕ
at p d = lookup ◌==◌ p d

-- a score found before, made as great as a weight times a factor
abbrev pub raised : ℕ → Option ℕ → Option ℕ → Option ℕ
raised multiplier none found = found
raised multiplier (some weight) found = some (heavier (weight * multiplier) found)

abbrev pub raised_all : ℕ → List (ℕ × Posting) → Option ℕ → Option ℕ
raised_all p [] found = found
raised_all p ((multiplier, posting) ∷ matches) found =
    raised_all p matches (raised multiplier (at p posting) found)

pub has_position-keys : (p : ℕ) (d : Posting) → has_position p (keys d) ≡ is_some (at p d)
unfolding lookup
has_position-keys p [] = refl
has_position-keys p ((q, n) ∷ d) = ground (arith, has_position-keys p d)

raised_twice : (m : ℕ) (w found : Option ℕ) → raised m w (raised m w found) ≡ raised m w found
raised_twice m none found = refl
raised_twice m (some w) none = ap some (omega arith)
raised_twice m (some w) (some n) = ap some (omega arith)

module _ (allowed : List ℕ) where
  -- the score of a position so far, `none` where it cannot match any more
  abbrev pub so_far : Option Posting → ℕ → Option ℕ
  so_far none p = if has_position p allowed then some 0 else none
  so_far (some scores) p = at p scores

  pub eligible-so_far :
      (scores : Option Posting) (p : ℕ) → eligible allowed scores p ≡ is_some (so_far scores p)
  eligible-so_far none p = elim (Bool-cases (has_position p allowed)) [
    | inl e ↦ rw e refl
    | inr e ↦ rw e refl
  ]
  eligible-so_far (some scores) p = refl

  pub score_at-so_far :
      (scores : Option Posting) (p : ℕ) → score_at scores p ≡ or_else (so_far scores p) 0
  score_at-so_far none p = elim (Bool-cases (has_position p allowed)) [
    | inl e ↦ rw e refl
    | inr e ↦ rw e refl
  ]
  score_at-so_far (some scores) p = refl

  module _ (scores : Option Posting) where
    match_at_lem :
        (m : ℕ) (posting : Posting) (q p : ℕ) (weight : Option ℕ) (matched : Posting)
        → at p (match_at allowed scores m posting q weight matched) ≡ (
            if (q == p) && eligible allowed scores q
            then raised m weight (at p matched)
            else at p matched)
    match_at_lem m posting q p none matched =
        elim (Bool-cases ((q == p) && eligible allowed scores q)) [
          | inl e ↦ rw e refl
          | inr e ↦ rw e refl
        ]
    match_at_lem m posting q p (some w) matched =
        let law = lookup-update ◌==◌ ==_iff q p (heavier (w * m)) matched in
        elim (Bool-cases (eligible allowed scores q)) [
          | inl e ↦ rw e (law ∙ same_place w m q p matched)
          | inr e ↦ elim (Bool-cases (q == p)) [ inl h ↦ rw (e, h) refl | inr h ↦ rw (e, h) refl ]
        ]
      where
        same_place :
            (w m q p : ℕ) (matched : Posting)
            → (if q == p then some (heavier (w * m) (at q matched)) else at p matched)
              ≡ (if (q == p) && true then some (heavier (w * m) (at p matched)) else at p matched)
        same_place w m q p matched = elim (Bool-cases (q == p)) [
          | inl h ↦ let e : q ≡ p = ground (arith, h) in rw (h, e) refl
          | inr h ↦ rw h refl
        ]

    match_posting_lem :
        (m : ℕ) (posting : Posting) (p : ℕ) (candidates : List ℕ) (matched : Posting)
        → at p (match_posting allowed scores m posting candidates matched) ≡ (
            if has_position p candidates && eligible allowed scores p
            then raised m (at p posting) (at p matched)
            else at p matched)
    unfolding match_posting
    match_posting_lem m posting p [] matched = refl
    match_posting_lem m posting p (q ∷ candidates) matched =
        let next = match_at allowed scores m posting q (at q posting) matched in
        let rest = match_posting_lem m posting p candidates next in
        let one = match_at_lem m posting q p (at q posting) matched in
        elim (Bool-cases (q == p)) [
          | inr h ↦ rw h (rest ∙ rw (one, h) refl)
          | inl h ↦
              let e : q ≡ p = ground (arith, h) in
              let w : at q posting ≡ at p posting = ap (λ (x : ℕ). at x posting) e in
              let el : eligible allowed scores q ≡ eligible allowed scores p =
                ap (eligible allowed scores) e in
              rw h (
                rest
                ∙ rw (one, h, el, w)
                    (twice (has_position p candidates) (eligible allowed scores p) (at p posting)
                      (at p matched)))
        ]
      where
        twice :
            (b c : Bool) (w found : Option ℕ)
            → (if b && c
                then raised m w (if c then raised m w found else found)
                else (if c then raised m w found else found))
              ≡ (if c then raised m w found else found)
        twice true true w found = raised_twice m w found
        twice true false w found = refl
        twice false true w found = refl
        twice false false w found = refl

    -- the candidates leave out no position that the posting has and that may match
    pub candidates_enough :
        (posting : Posting) (p : ℕ)
        → is_some (at p posting) ≡ true
        → eligible allowed scores p ≡ true
        → has_position p (candidates_of scores posting) ≡ true
    candidates_enough posting p h e = by_scores scores e
      where
        by_scores :
            (s : Option Posting)
            → eligible allowed s p ≡ true
            → has_position p (candidates_of s posting) ≡ true
        by_scores none e = has_position-keys p posting ∙ h
        by_scores (some d) e = elim (Bool-cases (ltb (length d) (length posting))) [
          | inl l ↦ rw l (has_position-keys p d ∙ e)
          | inr l ↦ rw l (has_position-keys p posting ∙ h)
        ]

    one_posting :
        (m : ℕ) (posting : Posting) (p : ℕ) (matched : Posting)
        → at p (match_posting allowed scores m posting (candidates_of scores posting) matched) ≡ (
            if eligible allowed scores p
            then raised m (at p posting) (at p matched)
            else at p matched)
    one_posting m posting p matched =
        match_posting_lem m posting p (candidates_of scores posting) matched
        ∙ any_candidate (at p posting) refl
      where
        any_candidate :
            (w : Option ℕ)
            → at p posting ≡ w
            → (if has_position p (candidates_of scores posting) && eligible allowed scores p
                then raised m (at p posting) (at p matched)
                else at p matched)
              ≡ (if eligible allowed scores p
                  then raised m (at p posting) (at p matched)
                  else at p matched)
        any_candidate none h = rw h (
            unchanged (has_position p (candidates_of scores posting) && eligible allowed scores p)
              (eligible allowed scores p) (at p matched))
          where
            unchanged :
                (b c : Bool) (found : Option ℕ)
                → (if b then found else found) ≡ (if c then found else found)
            unchanged true true found = refl
            unchanged true false found = refl
            unchanged false true found = refl
            unchanged false false found = refl
        any_candidate (some w) h = elim (Bool-cases (eligible allowed scores p)) [
          | inl e ↦ rw (e, candidates_enough posting p (ap is_some h) e) refl
          | inr e ↦ elim (Bool-cases (has_position p (candidates_of scores posting))) [
            | inl c ↦ rw (e, c) refl
            | inr c ↦ rw (e, c) refl
          ]
        ]

    match_term_lem :
        (p : ℕ) (matches : List (ℕ × Posting)) (matched : Posting)
        → at p (match_term allowed scores matches matched) ≡ (
            if eligible allowed scores p then raised_all p matches (at p matched) else at p matched)
    unfolding match_term
    match_term_lem p [] matched = elim (Bool-cases (eligible allowed scores p)) [
      | inl e ↦ rw e refl
      | inr e ↦ rw e refl
    ]
    match_term_lem p ((m, posting) ∷ matches) matched =
        let next = match_posting allowed scores m posting (candidates_of scores posting) matched in
        let rest = match_term_lem p matches next in
        let one = one_posting m posting p matched in
        elim (Bool-cases (eligible allowed scores p)) [
          | inl e ↦ rw e (rest ∙ rw (e, one, e) refl)
          | inr e ↦ rw e (rest ∙ rw (e, one, e) refl)
        ]

    -- a score on top of another
    abbrev on_top : ℕ → Option ℕ → Option ℕ
    on_top n none = none
    on_top n (some m) = some (n + m)

    add_scores_lem :
        (p : ℕ) (matched : Posting)
        → at p (add_scores allowed scores matched) ≡ on_top (score_at scores p) (at p matched)
    unfolding add_scores lookup
    add_scores_lem p [] = refl
    add_scores_lem p ((q, n) ∷ matched) = elim (Bool-cases (q == p)) [
      | inl h ↦ let e : q ≡ p = ground (arith, h) in rw (h, e) refl
      | inr h ↦ rw h (add_scores_lem p matched)
    ]

    -- one term
    pub term_lem :
        (p : ℕ) (matches : List (ℕ × Posting))
        → at p (add_scores allowed scores (match_term allowed scores matches []))
          ≡ add_score (so_far scores p) (raised_all p matches none)
    unfolding lookup
    term_lem p matches =
        add_scores_lem p (match_term allowed scores matches [])
        ∙ (ap (on_top (score_at scores p)) (match_term_lem p matches [])
            ∙ rw (eligible-so_far scores p, score_at-so_far scores p)
                (combined (so_far scores p) (raised_all p matches none)))
      where
        combined :
            (s r : Option ℕ) → on_top (or_else s 0) (if is_some s then r else none) ≡ add_score s r
        combined none r = refl
        combined (some n) none = refl
        combined (some n) (some m) = refl

  -- the state of a search: `none` where nothing can match any more
  abbrev pub state_at : Option (Option Posting) → ℕ → Option ℕ
  state_at none p = none
  state_at (some scores) p = so_far scores p

  -- the scores of the terms, one on top of the other
  abbrev pub all_terms : ℕ → List (List (ℕ × Posting)) → Option ℕ → Option ℕ
  all_terms p [] found = found
  all_terms p (matches ∷ rest) found =
      all_terms p rest (add_score found (raised_all p matches none))

  pub all_terms-none : (p : ℕ) (rest : List (List (ℕ × Posting))) → all_terms p rest none ≡ none
  all_terms-none p [] = refl
  all_terms-none p (matches ∷ rest) = all_terms-none p rest

  next_state :
      (p : ℕ) (rest : List (List (ℕ × Posting))) (found : Posting)
      → ((scores : Option Posting)
          → state_at (match_terms allowed scores rest) p ≡ all_terms p rest (so_far scores p))
      → state_at
          (elim found [ [] ↦ none | q ∷ others ↦ match_terms allowed (some (q ∷ others)) rest ])
          p
        ≡ all_terms p rest (at p found)
  unfolding lookup
  next_state p rest [] follows = sym (all_terms-none p rest)
  next_state p rest (q ∷ others) follows = follows (some (q ∷ others))

  pub match_terms_lem :
      (p : ℕ) (terms : List (List (ℕ × Posting))) (scores : Option Posting)
      → state_at (match_terms allowed scores terms) p ≡ all_terms p terms (so_far scores p)
  unfolding match_terms
  match_terms_lem p [] scores = refl
  match_terms_lem p (matches ∷ rest) scores =
      next_state p rest (add_scores allowed scores (match_term allowed scores matches []))
        (λ (s : Option Posting). match_terms_lem p rest s)
      ∙ ap (all_terms p rest) (term_lem scores p matches)
