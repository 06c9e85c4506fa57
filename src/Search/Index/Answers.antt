-- ===== src/Search/Index/Answers.antt =====
-- `facet` of backend/wiseway/search.py with a prepared index of the items.
use wise_way.Prelude.{
  ◌≡◌, refl, sym, ap, ◌∙◌, true, Bool-cases, ◌&&◌, Option, some, inl, inr, List, [], ◌∷◌, Text,
  if◌then◌else◌, length,
}
use wise_way.Common.{Result, ok, err, ◌>>=◌, ◌>>◌}
use wise_way.Search.Words.{Unicode}
use wise_way.Search.Items.{SearchItem}
use wise_way.Search.Query.{Query, parse_query}
use wise_way.Search.Query.Terms.{IsWellFormed, parse_query-IsWellFormed}
use wise_way.Search.Match.{
  matches_and_score, terms_score, phrases_score, add_score, field_streams, path_stream,
}
use wise_way.Search.Order.{Scored}
use wise_way.Search.Facets.{Facet, facet_of, selected_chain}
use wise_way.Search.Results.{
  Root, Request, FacetResponse, validate_context, asks_nothing, nothing, match_items, items_of,
  facet,
}
use wise_way.Search.Index.{SearchIndex, search_index, next_facet, match_index}
use wise_way.Search.Index.Facets.{index_scans}
use wise_way.Search.Index.Match.{match_index_scans}

abbrev pub facet_response : Root → Request → Option Facet → FacetResponse
facet_response root request found = record {
  request_state_id = request.request_state_id;
  root_id = root.root_id;
  schema_set_version = root.schema_set_version;
  index_generation = root.index_generation;
  facet = found;
}

module _ (unicode : Unicode) where
  -- the two branches of a prepared index
  unfoldable pub prepared_facet : SearchIndex → Request → Query → Result (Option Facet)
  prepared_facet index request query =
      if asks_nothing query
      then next_facet unicode index request.selected_marker_ids request.facet_prefix
      else match_index index query request.selected_marker_ids >>= λ matching. ok (
          facet_of unicode (items_of matching) (length request.selected_marker_ids)
            request.facet_prefix)

  -- `facet(root, items, request, prepared=SearchIndex(items))`
  unfoldable pub facet_prepared : Root → SearchIndex → Request → Result FacetResponse
  unfolding prepared_facet
  facet_prepared root index request =
      validate_context root request
      >> (parse_query unicode request.query_text >>= λ query.
          prepared_facet index request query >>= λ found. ok (facet_response root request found))

  every_item :
      (query : Query) (item : SearchItem)
      → asks_nothing query ≡ true
      → matches_and_score unicode item query ≡ some 0
  unfolding matches_and_score terms_score phrases_score
  every_item query item h = by_parts query.terms query.phrases h
    where
      by_parts :
          (terms : List Text) (phrases : List (List Text))
          → (nothing terms && nothing phrases) ≡ true
          → add_score
              (terms_score (field_streams unicode item) terms)
              (phrases_score (field_streams unicode item) (path_stream unicode item) phrases)
            ≡ some 0
      by_parts [] [] h = refl
      by_parts [] (p ∷ phrases) h = cc
      by_parts (t ∷ terms) phrases h = cc

  all_items :
      (query : Query) (items : List SearchItem)
      → asks_nothing query ≡ true
      → items_of (match_items unicode query items) ≡ items
  unfolding match_items
  all_items query [] h = refl
  all_items query (item ∷ items) h =
      let rest = all_items query items h in
      rw (every_item query item h) (ap (λ (l : List SearchItem). item ∷ l) rest)

  branch :
      (items : List SearchItem) (request : Request) (query : Query)
      → IsWellFormed query
      → prepared_facet (search_index unicode items) request query ≡ (
          selected_chain items request.selected_marker_ids >>= λ candidates. ok (
            facet_of unicode
              (items_of (match_items unicode query candidates))
              (length request.selected_marker_ids)
              request.facet_prefix))
  unfolding prepared_facet
  branch items request query well =
      let selected = request.selected_marker_ids in
      let shown : List SearchItem → Option Facet =
        λ l. facet_of unicode l (length selected) request.facet_prefix in
      elim (Bool-cases (asks_nothing query)) [
        | inl e ↦ rw e (
            (index_scans unicode items selected request.facet_prefix).1
            ∙ same (selected_chain items selected)
                (λ (c : List SearchItem). ap shown (sym (all_items query c e))))
        | inr e ↦ rw e (
            ap (λ (r : Result (List Scored)). r >>= λ matching. ok (shown (items_of matching)))
              (match_index_scans unicode query items selected well)
            ∙ twice (selected_chain items selected))
      ]
    where
      same :
          {A : Type 0} {f g : List SearchItem → A} (chained : Result (List SearchItem))
          → ((c : List SearchItem) → f c ≡ g c)
          → (chained >>= λ c. ok (f c)) ≡ (chained >>= λ c. ok (g c))
      same (err e) h = refl
      same (ok c) h = ap ok (h c)

      twice :
          (chained : Result (List SearchItem))
          → ((chained >>= λ c. ok (match_items unicode query c)) >>= λ matching. ok (
              facet_of unicode
                (items_of matching)
                (length request.selected_marker_ids)
                request.facet_prefix))
            ≡ (chained >>= λ c. ok (
                facet_of unicode
                  (items_of (match_items unicode query c))
                  (length request.selected_marker_ids)
                  request.facet_prefix))
      twice (err e) = refl
      twice (ok c) = refl

  with_response :
      (root : Root) (request : Request) (query : Query) (chained : Result (List SearchItem))
      → ((chained >>= λ candidates. ok (
            facet_of unicode
              (items_of (match_items unicode query candidates))
              (length request.selected_marker_ids)
              request.facet_prefix))
          >>= λ found. ok (facet_response root request found))
        ≡ (chained >>= λ candidates. ok (
            facet_response root request (
              facet_of unicode
                (items_of (match_items unicode query candidates))
                (length request.selected_marker_ids)
                request.facet_prefix)))
  with_response root request query (err e) = refl
  with_response root request query (ok c) = refl

  after_parse :
      (root : Root) (items : List SearchItem) (request : Request) (parsed : Result Query)
      → parse_query unicode request.query_text ≡ parsed
      → (parsed >>= λ query. prepared_facet (search_index unicode items) request query >>= λ found.
          ok (facet_response root request found))
        ≡ (parsed >>= λ query. selected_chain items request.selected_marker_ids >>= λ candidates.
            ok (
              facet_response root request (
                facet_of unicode
                  (items_of (match_items unicode query candidates))
                  (length request.selected_marker_ids)
                  request.facet_prefix)))
  after_parse root items request (err e) h = refl
  after_parse root items request (ok query) h =
      ap (λ (r : Result (Option Facet)). r >>= λ found. ok (facet_response root request found))
        (branch items request query (parse_query-IsWellFormed unicode request.query_text h))
      ∙ with_response root request query (selected_chain items request.selected_marker_ids)

  -- A facet request is answered the same with a prepared index of the items and without one, whatever its
  -- text, its chain and its prefix are, and it raises the same.
  pub facet_prepared-eq-facet :
      (root : Root) (items : List SearchItem) (request : Request)
      → facet_prepared root (search_index unicode items) request ≡ facet unicode root items request
  unfolding facet_prepared facet
  facet_prepared-eq-facet root items request =
      ap (λ (r : Result FacetResponse). validate_context root request >> r)
        (after_parse root items request (parse_query unicode request.query_text) refl)
