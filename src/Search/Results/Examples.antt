-- ===== src/Search/Results/Examples.antt =====
-- A search of backend/wiseway/search.py over two items, in ASCII.
use wise_way.Prelude.{
  Member, ℕ, ◌≡◌, ◌↔◌, refl, inl, true, false, none, some, List, [], ◌∷◌, ◌++◌, Text, codes, length,
  All, map,
}
use wise_way.Common.{Result, ok, err}
use wise_way.Search.Samples.{ascii}
use wise_way.Search.Words.{tokens}
use wise_way.Search.Match.{contains_phrase}
use wise_way.Search.Query.{Query, has_term, to_space, scan, query_of}
use wise_way.Search.Items.{SearchItem, Marker, MarkerKind}
use wise_way.Search.Match.{field_streams, path_stream, matches_and_score}
use wise_way.Search.Match.Meaning.{Finds, StandsIn, matches_and_score_iff}
use wise_way.Search.Order.Ranks.{Descends, sort_field-Descends}
use wise_way.Search.Order.{Scored, sort_field, SortField, Direction, sort_rows}
use wise_way.Search.Facets.{Facet, facet_of, selected_chain}
use wise_way.Search.Results.{Root, Request, Response, match_items, items_of, search}
use wise_way.Search.Results.Offers.{offer_refines}

abbrev project : Marker
project = record {
  marker_id = codes "m";
  level_id = codes "level-project";
  level_name = codes "P";
  raw_value = some (codes "orion");
  display_value = codes "orion";
  kind = MarkerKind.value;
}

abbrev item : Text → Text → List Marker → SearchItem
item name path markers = record {
  item_id = name;
  root_id = codes "r";
  relative_path = path;
  display_path = path;
  filename = name;
  markers = markers;
  extension = [];
  size_bytes = 1;
  modified_at = codes "2031-01-01T00:00:00Z";
  structure_issue = none;
}

abbrev marked : SearchItem
marked = item (codes "ab") (codes "orion/ab") (project ∷ [])

abbrev items : List SearchItem
items = marked ∷ item (codes "b2") (codes "b2") [] ∷ []

abbrev query : Query
query = record { terms = codes "a" ∷ []; phrases = []; applied_text = codes "a" }

-- a word of the name begins with the term
is_scored : matches_and_score ascii marked query ≡ some 5
unfolding matches_and_score tokens
is_scored = refl

abbrev shown : Facet
shown = record {
  level_id = codes "level-project";
  level_name = codes "P";
  options = (project, 1) ∷ [];
}

offered : facet_of ascii (items_of (match_items ascii query items)) 0 [] ≡ some shown
unfolding facet_of match_items tokens
offered = refl

matches_and_score_iff_example :
    ((score : ℕ) × (matches_and_score ascii marked query ≡ some score)) ↔ (
      All (λ t. Finds t (field_streams ascii marked)) query.terms
      × All (λ p. StandsIn p (field_streams ascii marked) (path_stream ascii marked)) query.phrases)
matches_and_score_iff_example = matches_and_score_iff ascii marked query

chosen : selected_chain items [] ≡ ok items
unfolding selected_chain
chosen = refl

fresh : has_term project.marker_id [] ≡ false
unfolding has_term
fresh = refl

offer_refines_example :
    (refined : List SearchItem) × (selected_chain items ([] ++ project.marker_id ∷ []) ≡ ok refined)
    × (length (match_items ascii query refined) ≡ 1)
offer_refines_example =
    offer_refines ascii query items [] [] (project, 1) chosen offered (inl refl) fresh

abbrev root : Root
root = record {
  root_id = codes "r";
  schema_set_version = codes "1";
  index_generation = codes "g";
  indexed_at = codes "now";
}

abbrev request : Text → SortField → Request
request text field = record {
  request_state_id = 1;
  root_id = codes "r";
  schema_set_version = codes "1";
  query_text = text;
  selected_marker_ids = [];
  field = field;
  direction = Direction.desc;
  facet_prefix = [];
}

abbrev names : Result Response → List Text
names (err e) = []
names (ok response) = map (λ (i : SearchItem). i.filename) response.items

-- sorting by name, backwards; both names begin with a letter that the other path has
by_name :
    names (search ascii (λ t. true) root items (request (codes "b") SortField.name) 9)
    ≡ codes "b2" ∷ []
unfolding search to_space scan tokens query_of field_streams contains_phrase sort_rows
by_name = refl

by_time :
    names (search ascii (λ t. true) root items (request (codes "a") SortField.modified_at) 9)
    ≡ codes "ab" ∷ []
unfolding search to_space scan tokens query_of field_streams contains_phrase sort_rows
by_time = refl

sort_field-Descends_example :
    (sorted : List Scored) × (sort_field ascii
        (λ t. true)
        SortField.relevance
        true
        ((marked, 1) ∷ (marked, 5) ∷ [])
      ≡ ok sorted)
    × Descends sorted
    × (length sorted ≡ 2)
    × ((row : Scored) → Member row sorted ↔ Member row ((marked, 1) ∷ (marked, 5) ∷ []))
sort_field-Descends_example = sort_field-Descends ascii (λ t. true) ((marked, 1) ∷ (marked, 5) ∷ [])
