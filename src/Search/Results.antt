-- ===== src/Search/Results.antt =====
-- `search` and `facet` of backend/wiseway/search.py on the items of one published generation, without
-- a prepared index. The ranking profile is a constant of the source and is left out of the answers.
pub mod Offers
mod Examples
use wise_way.Prelude.{
  ℕ, Bool, true, false, ◌&&◌, ◌||◌, not, Option, none, some, List, [], ◌∷◌, Text, Ident,
  if◌then◌else◌, ltb, text_eq, length, take, ◌==◌,
}
use wise_way.Common.{
  Result, ok, err, ◌>>=◌, ◌>>◌, raise_if, invalid_marker_selection, schema_version_changed,
  invalid_query, value_error,
}
use wise_way.Search.Words.{Unicode}
use wise_way.Search.Items.{SearchItem, Marker}
use wise_way.Search.Query.{Query, parse_query}
use wise_way.Search.Match.{matches_and_score}
use wise_way.Search.Order.{Scored, SortField, Direction, sort_rows}
use wise_way.Search.Facets.{Facet, selected_chain, facet_of}

pub record Root : Type 0 where
  pub root_id : Text
  pub schema_set_version : Text
  pub index_generation : Text
  pub indexed_at : Text

pub record Request : Type 0 where
  pub request_state_id : Ident
  pub root_id : Text
  pub schema_set_version : Text
  pub query_text : Text
  pub selected_marker_ids : List Text
  pub field : SortField
  pub direction : Direction
  pub facet_prefix : Text

-- `_validate_context`
unfoldable pub validate_context : Root → Request → Result (Unit {0})
validate_context root request =
    raise_if (not (text_eq request.root_id root.root_id)) invalid_marker_selection
    >> raise_if (not (text_eq request.schema_set_version root.schema_set_version))
        schema_version_changed

abbrev pub is_relevance : SortField → Bool
is_relevance SortField.relevance = true
is_relevance SortField.path = false
is_relevance SortField.name = false
is_relevance SortField.modified_at = false
is_relevance SortField.size = false
is_relevance SortField.unknown = false

abbrev pub nothing {ℓ} : {A : Type ℓ} → List A → Bool
nothing [] = true
nothing (x ∷ l) = false

-- `not query.terms and not query.phrases`
abbrev pub asks_nothing : Query → Bool
asks_nothing query = nothing query.terms && nothing query.phrases

-- the pair of an item and its score, in front of others
abbrev pub scored : SearchItem → Option ℕ → List Scored → List Scored
scored item none rest = rest
scored item (some score) rest = (item, score) ∷ rest

-- the loop over the candidates
unfoldable pub match_items : Unicode → Query → List SearchItem → List Scored
unfolding matches_and_score
match_items unicode query [] = []
match_items unicode query (item ∷ items) =
    scored item (matches_and_score unicode item query) (match_items unicode query items)

abbrev pub items_of : List Scored → List SearchItem
items_of [] = []
items_of ((item, score) ∷ rows) = item ∷ items_of rows

-- `candidates[0]["markers"][: len(selected)] if selected and candidates else []`
abbrev pub markers_of : List Text → List SearchItem → List Marker
markers_of [] candidates = []
markers_of (id ∷ selected) [] = []
markers_of (id ∷ selected) (item ∷ candidates) = take (length (id ∷ selected)) item.markers

pub data Mode : Type 0 where
  idle results : Mode

pub record Response : Type 0 where
  pub request_state_id : Ident
  pub mode : Mode
  pub root_id : Text
  pub schema_set_version : Text
  pub index_generation : Text
  pub applied_query_text : Text
  pub selected_markers : List Marker
  pub total : Option ℕ
  pub returned_count : ℕ
  pub result_limit : ℕ
  pub limited : Bool
  pub items : List SearchItem
  pub next_facet : Option Facet
  -- the two moments of `_freshness`
  pub indexed_at : Text

abbrev pub idle_response : Root → Request → ℕ → Option Facet → Response
idle_response root request limit next_facet = record {
  request_state_id = request.request_state_id;
  mode = idle;
  root_id = root.root_id;
  schema_set_version = root.schema_set_version;
  index_generation = root.index_generation;
  applied_query_text = [];
  selected_markers = [];
  total = none;
  returned_count = 0;
  result_limit = limit;
  limited = false;
  items = [];
  next_facet = next_facet;
  indexed_at = root.indexed_at;
}

abbrev pub results_response :
    Root → Request → ℕ → Query → List Marker → ℕ → List SearchItem → Option Facet → Response
results_response root request limit query selected_markers total returned next_facet = record {
  request_state_id = request.request_state_id;
  mode = results;
  root_id = root.root_id;
  schema_set_version = root.schema_set_version;
  index_generation = root.index_generation;
  applied_query_text = query.applied_text;
  selected_markers = selected_markers;
  total = some total;
  returned_count = length returned;
  result_limit = limit;
  limited = ltb limit total;
  items = returned;
  next_facet = next_facet;
  indexed_at = root.indexed_at;
}

module _ (unicode : Unicode) (is_calendar : Text → Bool) where
  -- the answer to a query that is not idle, from the candidates of its chain
  unfoldable pub answer_results : Root → Request → ℕ → Query → List SearchItem → Result Response
  unfolding match_items facet_of
  answer_results root request limit query candidates =
      let matching = match_items unicode query candidates in
      let next_facet =
        facet_of unicode (items_of matching) (length request.selected_marker_ids)
          request.facet_prefix in
      sort_rows unicode is_calendar request.field request.direction matching >>= λ sorted. ok (
        results_response root request limit query
          (markers_of request.selected_marker_ids candidates) (length matching) (take limit sorted)
          next_facet)

  -- what `search` does once the chain is read
  unfoldable pub answer_search : Root → Request → ℕ → Query → List SearchItem → Result Response
  unfolding answer_results facet_of
  answer_search root request limit query candidates =
      raise_if (is_relevance request.field && asks_nothing query) invalid_query
      >> (if nothing request.selected_marker_ids && asks_nothing query
          then ok (
              idle_response root request limit (
                facet_of unicode candidates (length request.selected_marker_ids)
                  request.facet_prefix))
          else answer_results root request limit query candidates)

  -- `search`
  unfoldable pub search : Root → List SearchItem → Request → ℕ → Result Response
  unfolding validate_context parse_query selected_chain answer_search
  search root items request limit =
      validate_context root request
      >> ((if ltb limit 1 then err value_error else ok tt)
          >> (parse_query unicode request.query_text >>= λ query.
              selected_chain items request.selected_marker_ids >>= λ candidates.
              answer_search root request limit query candidates))

-- the answer of `facet`; the identifiers of the root are those of `search`
pub record FacetResponse : Type 0 where
  pub request_state_id : Ident
  pub root_id : Text
  pub schema_set_version : Text
  pub index_generation : Text
  pub facet : Option Facet

-- `facet`
unfoldable pub facet : Unicode → Root → List SearchItem → Request → Result FacetResponse
unfolding validate_context parse_query selected_chain match_items facet_of
facet unicode root items request =
    validate_context root request
    >> (parse_query unicode request.query_text >>= λ query.
        selected_chain items request.selected_marker_ids >>= λ candidates. ok (record {
          request_state_id = request.request_state_id;
          root_id = root.root_id;
          schema_set_version = root.schema_set_version;
          index_generation = root.index_generation;
          facet =
              facet_of unicode (items_of (match_items unicode query candidates))
                (length request.selected_marker_ids) request.facet_prefix;
        }))
