-- ===== src/Search/Index/Sums.antt =====
-- The score of a position from the index (backend/wiseway/search_index.py) and of the item there from
-- its fields (backend/wiseway/search.py).
use wise_way.Prelude.{
  ℕ, ◌*◌, ◌≤◌, ◌≡◌, refl, sym, ap, ◌∙◌, true, Bool-cases, Option, none, some, inl, inr, List, [],
  ◌∷◌, ◌++◌, map, Text, text_eq, text_eq_iff, keep-Member, Member-keep, or_else, is_some, keep, All,
  Member, arith,
}
use wise_way.Common.Texts.{is_prefix, text_lt}
use wise_way.Search.Match.{Stream, weighed, term_matches, greatest, add_score, terms_score}
use wise_way.Search.Match.Meaning.{Finds-term_matches}
use wise_way.Search.Order.{insert_by, sort_by}
use wise_way.Search.Order.Members.{Member-sort_by}
use wise_way.Search.Index.{
  SearchIndex, Posting, lookup, vocabulary, posting_of, term_postings, shorter,
}
use wise_way.Search.Index.Words.{term_postings_lem}
use wise_way.Search.Index.Weights.{in_streams}
use wise_way.Search.Index.Scores.{at, raised_all, all_terms}
use wise_way.Search.Index.Terms.{
  Reaches, Reaches-eq, greatest-Reaches, Member-Reaches, in_streams-Reaches, Reaches-in_streams,
  raised_all-Reaches, Reaches-raised_all, term_matches-Member, factor,
}

posted_key :
    (token : Text) (p w : ℕ) (postings : List (Text × Posting))
    → at p (or_else (lookup text_eq token postings) []) ≡ some w
    → Member token (map (λ (q : Text × Posting). q.0) postings)
unfolding lookup
posted_key token p w [] h = cc
posted_key token p w ((k, d) ∷ postings) h = elim (Bool-cases (text_eq k token)) [
  | inl own ↦ inl (ground (arith, text_eq_iff k token, own))
  | inr other ↦ inr (posted_key token p w postings (rw other at h))
]

-- a word with a posting is one of the sorted words
posted_word :
    (index : SearchIndex) (token : Text) (p w : ℕ)
    → at p (posting_of index token) ≡ some w
    → Member token (vocabulary index)
unfolding vocabulary
posted_word index token p w h =
    Member-sort_by text_lt token (map (λ (q : Text × Posting). q.0) index.postings)
      (posted_key token p w index.postings h)

module _ (index : SearchIndex) (p : ℕ) (streams : List Stream)
    (posts : (token : Text) → at p (posting_of index token) ≡ in_streams token streams none) where
  scaled_le : (n w v f : ℕ) → n ≤ w * f → w ≤ v → n ≤ v * f
  scaled_le n w v f a b = grind arith

  from_index :
      (term : Text) (n : ℕ)
      → Reaches n (raised_all p (term_postings index term) none)
      → Reaches n (greatest (term_matches term streams))
  from_index term n h =
      let words = keep (is_prefix term) (vocabulary index) in
      elim (raised_all-Reaches index term p n words none (rw (term_postings_lem index term) at h)) [
        | inl r ↦ elim r [ ]
        | inr (token, w, m, e, k) ↦
            let (m', prefixed) = keep-Member (is_prefix term) token (vocabulary index) m in
            let reach : Reaches w (in_streams token streams none) =
              rw (← posts token, e) (omega arith) in
            elim (in_streams-Reaches w token streams none reach) [
              | inl r ↦ elim r [ ]
              | inr (v, l, s, t, b) ↦
                  Member-Reaches n (weighed term v token) (term_matches term streams)
                    (Finds-term_matches term streams v l token s t prefixed)
                    (scaled_le n w v (factor term token) k b)
            ]
      ]

  posted :
      (token : Text) (v : ℕ) (found : Option ℕ)
      → Reaches v found
      → (w : ℕ) × (found ≡ some w) × (v ≤ w)
  posted token v none r = elim r [ ]
  posted token v (some w) r = (w, refl, r)

  from_fields :
      (term : Text) (n : ℕ)
      → Reaches n (greatest (term_matches term streams))
      → Reaches n (raised_all p (term_postings index term) none)
  from_fields term n h =
      let (m, k, a) = greatest-Reaches n (term_matches term streams) h in
      let (v, l, token, s, t, prefixed, e) = term_matches-Member term m streams k in
      let (w, q, b) =
        posted token v (in_streams token streams none)
          (Reaches-in_streams v token streams none (inr (v, l, s, t, omega arith))) in
      let own : at p (posting_of index token) ≡ some w = posts token ∙ q in
      let member =
        Member-keep (is_prefix term) token (vocabulary index) (posted_word index token p w own)
          prefixed in
      rw (term_postings_lem index term) (
        Reaches-raised_all index term p n (keep (is_prefix term) (vocabulary index)) none
          (inr (token, w, member, own, scaled_le n v w (factor term token) (rw e at a) b)))

  -- a term's score is the same from the index and from the fields
  pub term_score :
      (term : Text)
      → raised_all p (term_postings index term) none ≡ greatest (term_matches term streams)
  term_score term =
      Reaches-eq (raised_all p (term_postings index term) none)
        (greatest (term_matches term streams)) (from_index term) (from_fields term)

  pub add_score_assoc :
      (a b c : Option ℕ) → add_score (add_score a b) c ≡ add_score a (add_score b c)
  add_score_assoc none b c = refl
  add_score_assoc (some a) none c = refl
  add_score_assoc (some a) (some b) none = refl
  add_score_assoc (some a) (some b) (some c) = ap some (omega arith)

  pub add_score_zero : (a : Option ℕ) → add_score a (some 0) ≡ a
  add_score_zero none = refl
  add_score_zero (some a) = ap some (omega arith)

  add_score_swap : (a b c : Option ℕ) → add_score (add_score a b) c ≡ add_score (add_score a c) b
  add_score_swap none b c = refl
  add_score_swap (some a) none none = refl
  add_score_swap (some a) none (some c) = refl
  add_score_swap (some a) (some b) none = refl
  add_score_swap (some a) (some b) (some c) = ap some (omega arith)

  terms_sum :
      (allowed : List ℕ) (terms : List Text) (found : Option ℕ)
      → all_terms allowed p (map (term_postings index) terms) found
        ≡ add_score found (terms_score streams terms)
  unfolding terms_score
  terms_sum allowed [] found = sym (add_score_zero found)
  terms_sum allowed (term ∷ terms) found =
      terms_sum allowed terms (add_score found (raised_all p (term_postings index term) none))
      ∙ (ap (λ (o : Option ℕ). add_score (add_score found o) (terms_score streams terms))
            (term_score term)
          ∙ add_score_assoc found (greatest (term_matches term streams))
              (terms_score streams terms))

  all_terms-insert_by :
      (allowed : List ℕ) (x : List (ℕ × Posting)) (l : List (List (ℕ × Posting))) (found : Option ℕ)
      → all_terms allowed p (insert_by shorter x l) found ≡ all_terms allowed p (x ∷ l) found
  unfolding insert_by
  all_terms-insert_by allowed x [] found = refl
  all_terms-insert_by allowed x (y ∷ l) found = elim (Bool-cases (shorter y x)) [
    | inr e ↦ rw e refl
    | inl e ↦ rw e (
        all_terms-insert_by allowed x l (add_score found (raised_all p y none))
        ∙ ap (all_terms allowed p l)
            (add_score_swap found (raised_all p y none) (raised_all p x none)))
  ]

  all_terms-sort_by :
      (allowed : List ℕ) (l : List (List (ℕ × Posting))) (found : Option ℕ)
      → all_terms allowed p (sort_by shorter l) found ≡ all_terms allowed p l found
  unfolding sort_by
  all_terms-sort_by allowed [] found = refl
  all_terms-sort_by allowed (x ∷ l) found =
      all_terms-insert_by allowed x (sort_by shorter l) found
      ∙ all_terms-sort_by allowed l (add_score found (raised_all p x none))

  -- the terms of a query, in the order of their postings
  pub terms_agree :
      (allowed : List ℕ) (terms : List Text) (found : Option ℕ)
      → all_terms allowed p (sort_by shorter (map (term_postings index) terms)) found
        ≡ add_score found (terms_score streams terms)
  terms_agree allowed terms found =
      all_terms-sort_by allowed (map (term_postings index) terms) found
      ∙ terms_sum allowed terms found

  -- a phrase that a field holds has the words of that field
  All-append_left : (P : Text → Type 0) (k l : List Text) → All P (k ++ l) → All P k
  All-append_left P [] l a = tt
  All-append_left P (x ∷ k) l a = (a.0, All-append_left P k l a.1)

  All-append_right : (P : Text → Type 0) (k l : List Text) → All P (k ++ l) → All P l
  All-append_right P [] l a = a
  All-append_right P (x ∷ k) l a = All-append_right P k l a.1

  All-Member : (l k : List Text) → ((t : Text) → Member t l → Member t k) → All (λ t. Member t k) l
  All-Member [] k f = tt
  All-Member (x ∷ l) k f =
      (f x (inl refl), All-Member l k (λ (t : Text) (m : Member t l). f t (inr m)))

  is_some-posted :
      (token : Text) (v : ℕ) (l : List Text)
      → Member (v, l) streams
      → Member token l
      → is_some (at p (posting_of index token)) ≡ true
  is_some-posted token v l s t =
      let (w, q, b) =
        posted token 0 (in_streams token streams none)
          (Reaches-in_streams 0 token streams none (inr (v, l, s, t, omega arith))) in
      rw (posts token, q) refl

  All-posted :
      (v : ℕ) (l phrase : List Text)
      → Member (v, l) streams
      → All (λ t. Member t l) phrase
      → All (λ t. is_some (at p (posting_of index t)) ≡ true) phrase
  All-posted v l [] s a = tt
  All-posted v l (t ∷ phrase) s a = (is_some-posted t v l s a.0, All-posted v l phrase s a.1)

  -- the words of a phrase in a field are posted
  pub phrase_posted :
      (v : ℕ) (l phrase before after : List Text)
      → Member (v, l) streams
      → l ≡ before ++ (phrase ++ after)
      → All (λ t. is_some (at p (posting_of index t)) ≡ true) phrase
  phrase_posted v l phrase before after s e =
      let all : All (λ t. Member t l) (before ++ (phrase ++ after)) =
        rw (← e) (All-Member l l (λ (t : Text) (m : Member t l). m)) in
      All-posted v l phrase s (
        All-append_left (λ t. Member t l) phrase after
          (All-append_right (λ t. Member t l) before (phrase ++ after) all))
