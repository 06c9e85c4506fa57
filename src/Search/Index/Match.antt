-- ===== src/Search/Index/Match.antt =====
-- `SearchIndex.match` (backend/wiseway/search_index.py) against the scan of `search`
-- (backend/wiseway/search.py).
use wise_way.Prelude.{
  ℕ, suc, ◌+◌, ◌≡◌, refl, sym, ap, ◌∙◌, Bool, true, false, ◌&&◌, Bool-cases, Option, none, some,
  inl, inr, List, [], ◌∷◌, map, Text, if◌then◌else◌, is_some, or_else, keep, drop, get_elem?, arith,
}
use wise_way.Common.{Result, ok, err, ◌>>=◌}
use wise_way.Search.Words.{Unicode}
use wise_way.Search.Items.{SearchItem}
use wise_way.Search.Query.{Query}
use wise_way.Search.Query.Terms.{IsWellFormed}
use wise_way.Search.Match.{Stream, add_score, matches_and_score}
use wise_way.Search.Order.{Scored, sort_by}
use wise_way.Search.Facets.{has_chain, selected_chain}
use wise_way.Search.Results.{match_items, scored}
use wise_way.Search.Results.Offers.{selected_chain-eq-ok}
use wise_way.Search.Index.{
  SearchIndex, Posting, search_index, keys, has_position, score_at, scored_rows, final_positions,
  final_rows, then_phrases, match_terms, match_index, term_postings, shorter,
}
use wise_way.Search.Index.Weights.{posting_of_lem, in_streams}
use wise_way.Search.Index.Scores.{
  at, so_far, state_at, score_at-so_far, all_terms-none, match_terms_lem, has_position-keys,
}
use wise_way.Search.Index.Phrases.{all_phrases-none, match_phrases_lem}
use wise_way.Search.Index.Agreement.{state_agrees}
use wise_way.Search.Index.Chains.{positions_of, get_elem?-drop}
use wise_way.Search.Index.Facets.{positions_lem, bind_twice, items_lem}
use wise_way.Search.Index.Rows.{
  IsRising, IsRising-eq, DistinctState, state-Distinct, sort_by-IsRising, has_position-sort_by,
}
use wise_way.Search.Index.Positions.{
  has_position-keep, keep-IsRising, positions_of-IsRising, positions_of-has, fields_at-streams,
  keep-false, found_row,
}

module _ (unicode : Unicode) (query : Query) where
  -- the rows of the positions that have a score, below a chain
  rows_lem :
      (selected : List Text) (state : ℕ → Option ℕ) (position : ℕ) (all items : List SearchItem)
      → drop position all ≡ items
      → ((p : ℕ) (item : SearchItem)
          → get_elem? all p ≡ some item
          → has_chain selected item ≡ true
          → state p ≡ matches_and_score unicode item query)
      → (scores : Option Posting) → ((p : ℕ) → score_at scores p ≡ or_else (state p) 0)
      → scored_rows all scores
          (keep (λ p. is_some (state p)) (positions_of selected position items))
        ≡ match_items unicode query (keep (has_chain selected) items)
  unfolding scored_rows match_items
  rows_lem selected state position all [] h agrees scores score = refl
  rows_lem selected state position all (item ∷ items) h agrees scores score =
      let (here, after) = get_elem?-drop position all item items h in
      let rest = rows_lem selected state (suc position) all items after agrees scores score in
      elim (Bool-cases (has_chain selected item)) [
        | inr c ↦ rw (c, keep) rest
        | inl c ↦
            rw (c, keep)
              (one_row position item (positions_of selected (suc position) items)
                (keep (has_chain selected) items) here (state position) refl
                (agrees position item here c) rest)
      ]
    where
      one_row :
          (position : ℕ) (item : SearchItem) (tail : List ℕ) (kept : List SearchItem)
          → get_elem? all position ≡ some item
          → (found : Option ℕ) → state position ≡ found
          → state position ≡ matches_and_score unicode item query
          → scored_rows all scores (keep (λ p. is_some (state p)) tail)
            ≡ match_items unicode query kept
          → scored_rows all scores (keep (λ p. is_some (state p)) (position ∷ tail))
            ≡ scored item (matches_and_score unicode item query) (match_items unicode query kept)
      one_row position item tail kept here none e agree rest =
          let m : matches_and_score unicode item query ≡ none = sym agree ∙ e in
          rw (e, keep, m) rest
      one_row position item tail kept here (some n) e agree rest =
          let m : matches_and_score unicode item query ≡ some n = sym agree ∙ e in
          let s : score_at scores position ≡ n =
            score position ∙ ap (λ (o : Option ℕ). or_else o 0) e in
          rw (e, keep, m)
            (found_row all scores position item (keep (λ p. is_some (state p)) tail) here
              ∙ rw s (ap (λ (l : List Scored). (item, n) ∷ l) rest))

  -- nothing outside the chain has a score
  outside_lem :
      (index : SearchIndex) (allowed : List ℕ) (phrases : List (List Text))
      (terms : List (List (ℕ × Posting))) (p : ℕ)
      → has_position p allowed ≡ false
      → state_at allowed (then_phrases index allowed phrases (match_terms allowed none terms)) p
        ≡ none
  outside_lem index allowed phrases terms p h =
      let start : state_at allowed (match_terms allowed none terms) p ≡ none =
        match_terms_lem allowed p terms none ∙ rw h (all_terms-none allowed p terms) in
      after (match_terms allowed none terms) start
    where
      after :
          (before : Option (Option Posting))
          → state_at allowed before p ≡ none
          → state_at allowed (then_phrases index allowed phrases before) p ≡ none
      after none e = refl
      after (some scores) e =
          match_phrases_lem allowed index p phrases scores
          ∙ rw e (all_phrases-none allowed index p phrases)

  -- the rows of a final state
  final_lem :
      (index : SearchIndex) (items : List SearchItem) (selected : List Text)
      (final : Option (Option Posting))
      → index.items ≡ items
      → DistinctState final
      → ((p : ℕ)
          → has_position p (positions_of selected 0 items) ≡ false
          → state_at (positions_of selected 0 items) final p ≡ none)
      → ((p : ℕ) (item : SearchItem)
          → get_elem? items p ≡ some item
          → has_chain selected item ≡ true
          → state_at (positions_of selected 0 items) final p ≡ matches_and_score unicode item query)
      → final_rows index (positions_of selected 0 items) final
        ≡ match_items unicode query (keep (has_chain selected) items)
  unfolding scored_rows
  final_lem index items selected none e d out agrees =
      let allowed = positions_of selected 0 items in
      let rows = rows_lem selected (λ p. none) 0 items items refl agrees none (λ (p : ℕ). refl) in
      sym (ap (scored_rows items none) (keep-false allowed)) ∙ rows
  final_lem index items selected (some scores) e d out agrees =
      let allowed = positions_of selected 0 items in
      let state = so_far allowed scores in
      let same : final_positions allowed scores ≡ keep (λ p. is_some (state p)) allowed =
        IsRising-eq (final_positions allowed scores) (keep (λ p. is_some (state p)) allowed)
          (rising scores d)
          (keep-IsRising (λ p. is_some (state p)) allowed (positions_of-IsRising selected 0 items))
          (λ (j : ℕ). members scores j (out j)) in
      ap (λ (l : List SearchItem). scored_rows l scores (final_positions allowed scores)) e
      ∙ (ap (scored_rows items scores) same
          ∙ rows_lem selected state 0 items items refl agrees scores
              (score_at-so_far allowed scores))
    where
      rising :
          (s : Option Posting)
          → DistinctState (some s)
          → IsRising (final_positions (positions_of selected 0 items) s)
      rising none k = positions_of-IsRising selected 0 items
      rising (some found) k = sort_by-IsRising (keys found) k

      only : (a b : Bool) → (a ≡ false → b ≡ false) → b ≡ (a && b)
      only true b f = refl
      only false b f = f refl

      members :
          (s : Option Posting) (j : ℕ)
          → (has_position j (positions_of selected 0 items) ≡ false
              → so_far (positions_of selected 0 items) s j ≡ none)
          → has_position j (final_positions (positions_of selected 0 items) s)
            ≡ has_position j (
                keep
                  (λ p. is_some (so_far (positions_of selected 0 items) s p))
                  (positions_of selected 0 items))
      members none j f =
          let allowed = positions_of selected 0 items in
          sym (
            has_position-keep (λ p. is_some (so_far allowed none p)) j allowed
            ∙ idle (has_position j allowed))
        where
          idle : (b : Bool) → (b && is_some {A = ℕ} (if b then some 0 else none)) ≡ b
          idle true = refl
          idle false = refl
      members (some found) j f =
          let allowed = positions_of selected 0 items in
          has_position-sort_by j (keys found)
          ∙ (has_position-keys j found
              ∙ (only (has_position j allowed) (is_some (at j found))
                    (λ (h : has_position j allowed ≡ false). ap (λ (o : Option ℕ). is_some o) (f h))
                  ∙ sym (has_position-keep (λ p. is_some (at p found)) j allowed)))

  index_agrees :
      (items : List SearchItem) (selected : List Text) (p : ℕ) (item : SearchItem)
      → IsWellFormed query
      → get_elem? items p ≡ some item
      → has_chain selected item ≡ true
      → state_at
          (positions_of selected 0 items)
          (then_phrases (search_index unicode items) (positions_of selected 0 items) query.phrases (
            match_terms
              (positions_of selected 0 items)
              none
              (sort_by shorter (map (term_postings (search_index unicode items)) query.terms))))
          p
        ≡ matches_and_score unicode item query
  unfolding search_index
  index_agrees items selected p item well h c =
      let index = search_index unicode items in
      let allowed = positions_of selected 0 items in
      let (fields, streams) = fields_at-streams unicode items p item h in
      let inside : has_position p allowed ≡ true =
        let e : 0 + p ≡ p = omega arith in
        ap (λ (q : ℕ). has_position q allowed) (sym e)
        ∙ positions_of-has selected p 0 items item h c in
      state_agrees unicode item index p fields
        (λ (token : Text).
          posting_of_lem unicode token items p
          ∙ ap (λ (s : List Stream). in_streams token s none) streams)
        allowed query well.no_empty_phrase
      ∙ rw inside (from_zero (matches_and_score unicode item query))
    where
      from_zero : (score : Option ℕ) → add_score (some 0) score ≡ score
      from_zero none = refl
      from_zero (some n) = ap some (omega arith)

  chain_rows :
      (items : List SearchItem) (selected : List Text) (chained : Result (List SearchItem))
      (rows : List Scored)
      → selected_chain items selected ≡ chained
      → rows ≡ match_items unicode query (keep (has_chain selected) items)
      → (chained >>= λ candidates. ok rows)
        ≡ (chained >>= λ candidates. ok (match_items unicode query candidates))
  chain_rows items selected (err e) rows h r = refl
  chain_rows items selected (ok candidates) rows h r =
      let (c, n) = selected_chain-eq-ok items selected h in
      ap ok (r ∙ ap (match_items unicode query) (sym c))

  -- For a well formed query and every chain, matching by the index gives the rows that a scan of all
  -- items gives: the same items in the same order with the same scores, and the same errors.
  pub match_index_scans :
      (items : List SearchItem) (selected : List Text)
      → IsWellFormed query
      → match_index (search_index unicode items) query selected ≡ (
          selected_chain items selected >>= λ candidates. ok (match_items unicode query candidates))
  unfolding match_index
  match_index_scans items selected well =
      let index = search_index unicode items in
      let allowed = positions_of selected 0 items in
      let terms = sort_by shorter (map (term_postings index) query.terms) in
      let final = then_phrases index allowed query.phrases (match_terms allowed none terms) in
      let rows =
        final_lem index items selected final (items_lem unicode items)
          (state-Distinct allowed index query.phrases terms)
          (outside_lem index allowed query.phrases terms)
          (λ (p : ℕ) (item : SearchItem) (h : get_elem? items p ≡ some item)
              (c : has_chain selected item ≡ true).
            index_agrees items selected p item well h c) in
      ap
        (λ (r : Result (List ℕ)). r >>= λ found. ok (
          final_rows index found (
            then_phrases index found query.phrases
              (match_terms found none (sort_by shorter (map (term_postings index) query.terms))))))
        (positions_lem unicode items selected)
      ∙ (bind_twice unicode items (selected_chain items selected) allowed (λ found. ok (
            final_rows index found (
              then_phrases index found query.phrases (
                match_terms found none (sort_by shorter (map (term_postings index) query.terms))))))
          ∙ chain_rows items selected (selected_chain items selected)
              (final_rows index allowed final) refl rows)
