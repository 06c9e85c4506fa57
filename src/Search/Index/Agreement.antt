-- ===== src/Search/Index/Agreement.antt =====
-- The state of `SearchIndex.match` (backend/wiseway/search_index.py) at a position and the score of the
-- item there (backend/wiseway/search.py).
use wise_way.Prelude.{
  ℕ, ◌≡◌, ◌≢◌, refl, sym, ap, ◌∙◌, Bool, true, false, Bool-cases, Option, none, some, inl, inr,
  List, [], ◌∷◌, map, Text, if◌then◌else◌, is_some, All, Member, Member-keep,
}
use wise_way.Search.Words.{Unicode, tokens}
use wise_way.Search.Items.{SearchItem, Marker, MarkerKind}
use wise_way.Search.Query.{Query}
use wise_way.Search.Query.Terms.{texts_eq→eq}
use wise_way.Search.Match.{
  Stream, has_words, marker_streams, field_streams, path_stream, greatest, add_score, terms_score,
  phrase_weights, phrase_added, phrases_score, contains_phrase, matches_and_score, marker_stream,
}
use wise_way.Search.Match.Meaning.{
  phrase_weights-Stands, Stands-phrase_weights, contains_phrase→Stands, greatest-Holds,
  Holds-greatest,
}
use wise_way.Search.Index.{
  SearchIndex, Posting, posting_of, match_terms, then_phrases, shorter, term_postings, has_position,
}
use wise_way.Search.Order.{sort_by}
use wise_way.Search.Index.Weights.{in_streams}
use wise_way.Search.Index.Scores.{at, state_at, match_terms_lem}
use wise_way.Search.Index.Phrases.{
  scaled, fields_at, added_by, small, all_phrases, match_phrases_lem, small-has, all_phrases-none,
}
use wise_way.Search.Index.Sums.{phrase_posted, terms_agree, add_score_assoc, add_score_zero}

module _ (unicode : Unicode) (item : SearchItem) where
  path_in_markers :
      (markers : List Marker) (s : Stream) → Member s (marker_streams unicode markers (s ∷ []))
  unfolding marker_streams
  path_in_markers [] s = inl refl
  path_in_markers (m ∷ markers) s = by_kind m.kind (path_in_markers markers s)
    where
      by_kind :
          (k : MarkerKind)
          → Member s (marker_streams unicode markers (s ∷ []))
          → Member s (marker_stream unicode k m (marker_streams unicode markers (s ∷ [])))
      by_kind MarkerKind.value h = inr h
      by_kind MarkerKind.unrecognized h = h

  -- a path with words is a field
  path_in_fields :
      has_words (1, path_stream unicode item) ≡ true
      → Member (1, path_stream unicode item) (field_streams unicode item)
  unfolding field_streams
  path_in_fields h =
      Member-keep has_words (1, path_stream unicode item)
        ((5, tokens unicode item.filename)
          ∷ marker_streams unicode item.markers ((1, path_stream unicode item) ∷ []))
        (inr (path_in_markers item.markers (1, path_stream unicode item))) h

  path_words :
      (path phrase : List Text)
      → phrase ≢ []
      → contains_phrase path phrase ≡ true
      → has_words (1, path) ≡ true
  unfolding contains_phrase
  path_words [] phrase n h = absurd (n (sym (texts_eq→eq [] phrase h)))
  path_words (w ∷ path) phrase n h = refl

  module _ (index : SearchIndex) (p : ℕ)
      (here : fields_at index.fields p ≡ field_streams unicode item)
      (posts : (token : Text)
        → at p (posting_of index token) ≡ in_streams token (field_streams unicode item) none) where
    phrase_by :
        (phrase : List Text) (found : Option ℕ)
        → phrase ≢ []
        → greatest (phrase_weights phrase (field_streams unicode item)) ≡ found
        → (if is_some (at p (small [] index phrase)) then scaled phrase found else none)
          ≡ phrase_added (path_stream unicode item) phrase found
    phrase_by phrase (some w) n e =
        let (v, l, m, (before, after, q)) =
          phrase_weights-Stands phrase (field_streams unicode item)
            (greatest-Holds (phrase_weights phrase (field_streams unicode item)) (w, e)) in
        rw
          (small-has index p phrase n
            (phrase_posted index p (field_streams unicode item) posts v l phrase before after m q))
          refl
    phrase_by phrase none n e =
        elim (Bool-cases (contains_phrase (path_stream unicode item) phrase)) [
          | inl c ↦
              let m =
                Stands-phrase_weights phrase (field_streams unicode item) 1
                  (path_stream unicode item)
                  (path_in_fields (path_words (path_stream unicode item) phrase n c))
                  (contains_phrase→Stands (path_stream unicode item) phrase c) in
              let (k, g) =
                Holds-greatest (phrase_weights phrase (field_streams unicode item)) (1, m) in
              let bad = sym e ∙ g in cc
          | inr c ↦ rw c (same (is_some (at p (small [] index phrase))))
        ]
      where
        same : (b : Bool) → ◌≡◌ {A = Option ℕ} (if b then none else none) none
        same true = refl
        same false = refl

    one_phrase :
        (phrase : List Text)
        → phrase ≢ []
        → added_by index.fields phrase (small [] index phrase) p
          ≡ phrase_added
              (path_stream unicode item)
              phrase
              (greatest (phrase_weights phrase (field_streams unicode item)))
    one_phrase phrase n =
        ap
          (λ (s : List Stream).
            if is_some (at p (small [] index phrase))
            then scaled phrase (greatest (phrase_weights phrase s))
            else none)
          here
        ∙ phrase_by phrase (greatest (phrase_weights phrase (field_streams unicode item))) n refl

    phrases_sum :
        (allowed : List ℕ) (phrases : List (List Text)) (found : Option ℕ)
        → All (λ phrase. phrase ≢ []) phrases
        → all_phrases allowed index p phrases found
          ≡ add_score found
              (phrases_score (field_streams unicode item) (path_stream unicode item) phrases)
    unfolding phrases_score
    phrases_sum allowed [] found n =
        sym (add_score_zero index p (field_streams unicode item) posts found)
    phrases_sum allowed (phrase ∷ phrases) found n =
        let streams = field_streams unicode item in
        let path = path_stream unicode item in
        phrases_sum allowed phrases
          (add_score found (added_by index.fields phrase (small [] index phrase) p)) n.1
        ∙ (ap (λ (o : Option ℕ). add_score (add_score found o) (phrases_score streams path phrases))
              (one_phrase phrase n.0)
            ∙ add_score_assoc index p streams posts found
                (phrase_added path phrase (greatest (phrase_weights phrase streams)))
                (phrases_score streams path phrases))

    state_phrases :
        (allowed : List ℕ) (phrases : List (List Text)) (before : Option (Option Posting))
        → state_at allowed (then_phrases index allowed phrases before) p
          ≡ all_phrases allowed index p phrases (state_at allowed before p)
    state_phrases allowed phrases none = sym (all_phrases-none allowed index p phrases)
    state_phrases allowed phrases (some scores) = match_phrases_lem allowed index p phrases scores

    -- the whole search at a position: nothing outside the chain, and the item's score in it
    pub state_agrees :
        (allowed : List ℕ) (query : Query)
        → All (λ phrase. phrase ≢ []) query.phrases
        → state_at allowed
            (then_phrases index allowed query.phrases
              (match_terms allowed none (sort_by shorter (map (term_postings index) query.terms))))
            p
          ≡ add_score
              (if has_position p allowed then some 0 else none)
              (matches_and_score unicode item query)
    unfolding matches_and_score
    state_agrees allowed query n =
        let streams = field_streams unicode item in
        let path = path_stream unicode item in
        let start : Option ℕ = if has_position p allowed then some 0 else none in
        let sorted = sort_by shorter (map (term_postings index) query.terms) in
        state_phrases allowed query.phrases (match_terms allowed none sorted)
        ∙ (ap (all_phrases allowed index p query.phrases) (
              match_terms_lem allowed p sorted none
              ∙ terms_agree index p streams posts allowed query.terms start)
            ∙ (phrases_sum allowed query.phrases (add_score start (terms_score streams query.terms))
                  n
                ∙ add_score_assoc index p streams posts start (terms_score streams query.terms)
                    (phrases_score streams path query.phrases)))
