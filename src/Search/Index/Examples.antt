-- ===== src/Search/Index/Examples.antt =====
-- The index of two items in ASCII, and its answers.
use wise_way.Prelude.{keep, map, arith, ◌≡◌, refl, none, some, List, [], ◌∷◌, Text, codes}
use wise_way.Common.{ok, ◌>>=◌}
use wise_way.Search.Words.{tokens}
use wise_way.Search.Samples.{ascii}
use wise_way.Search.Items.{SearchItem, Marker, MarkerKind}
use wise_way.Search.Query.{Query}
use wise_way.Search.Facets.{selected_chain, facet_of}
use wise_way.Search.Order.{SortField, Direction}
use wise_way.Search.Results.{Root, Request, match_items, facet}
use wise_way.Search.Index.Answers.{facet_prepared, facet_prepared-eq-facet}
use wise_way.Search.Index.{search_index, selected_items, next_facet, match_index}
use wise_way.Search.Query.{has_term, has_phrase}
use wise_way.Search.Query.Terms.{IsWellFormed}
use wise_way.Common.Texts.{is_prefix}
use wise_way.Search.Index.{term_postings, vocabulary}
use wise_way.Search.Index.Words.{found_word, term_postings_lem}
use wise_way.Search.Index.Match.{match_index_scans}
use wise_way.Search.Index.Facets.{index_scans}

abbrev project : Marker
project = record {
  marker_id = codes "m";
  level_id = codes "level-project";
  level_name = codes "P";
  raw_value = some (codes "orion");
  display_value = codes "orion";
  kind = MarkerKind.value;
}

abbrev item : Text → Text → List Marker → SearchItem
item name path markers = record {
  item_id = name;
  root_id = codes "r";
  relative_path = path;
  display_path = path;
  filename = name;
  markers = markers;
  extension = [];
  size_bytes = 1;
  modified_at = codes "2031-01-01T00:00:00Z";
  structure_issue = none;
}

abbrev items : List SearchItem
items =
    item (codes "ab") (codes "orion/ab") (project ∷ []) ∷ item (codes "a c") (codes "a c") [] ∷ []

abbrev words : Query
words = record { terms = codes "a" ∷ []; phrases = []; applied_text = codes "a" }

abbrev phrase : Query
phrase = record {
  terms = codes "a" ∷ [];
  phrases = (codes "a" ∷ codes "c" ∷ []) ∷ [];
  applied_text = codes "a";
}

same_words : match_index (search_index ascii items) words [] ≡ ok (match_items ascii words items)
unfolding match_index search_index match_items tokens
same_words = refl

same_phrase : match_index (search_index ascii items) phrase [] ≡ ok (match_items ascii phrase items)
unfolding match_index search_index match_items tokens
same_phrase = refl

index_scans_example :
    (selected_items (search_index ascii items) (codes "m" ∷ [])
      ≡ selected_chain items (codes "m" ∷ []))
    × (next_facet ascii (search_index ascii items) (codes "m" ∷ []) [] ≡ (
        selected_chain items (codes "m" ∷ []) >>= λ candidates.
        ok (facet_of ascii candidates 1 [])))
index_scans_example = index_scans ascii items (codes "m" ∷ []) []

words-IsWellFormed : IsWellFormed phrase
unfolding has_term has_phrase
words-IsWellFormed = record {
  distinct_terms = (refl, tt);
  distinct_phrases = (refl, tt);
  no_empty_phrase = ((λ e. ground (arith, e)), tt);
}

match_index_scans_example : match_index (search_index ascii items) phrase (codes "m" ∷ []) ≡ (
    selected_chain items (codes "m" ∷ []) >>= λ candidates.
    ok (match_items ascii phrase candidates))
match_index_scans_example = match_index_scans ascii phrase items (codes "m" ∷ []) words-IsWellFormed

term_postings_lem_example :
    term_postings (search_index ascii items) (codes "a")
    ≡ map
        (found_word (search_index ascii items) (codes "a"))
        (keep (is_prefix (codes "a")) (vocabulary (search_index ascii items)))
term_postings_lem_example = term_postings_lem (search_index ascii items) (codes "a")

abbrev root : Root
root = record {
  root_id = codes "r";
  schema_set_version = codes "1";
  index_generation = codes "g";
  indexed_at = codes "now";
}

abbrev request : Request
request = record {
  request_state_id = 1;
  root_id = codes "r";
  schema_set_version = codes "1";
  query_text = codes "a \"a c\"";
  selected_marker_ids = [];
  field = SortField.path;
  direction = Direction.asc;
  facet_prefix = [];
}

facet_prepared-eq-facet_example :
    facet_prepared ascii root (search_index ascii items) request ≡ facet ascii root items request
facet_prepared-eq-facet_example = facet_prepared-eq-facet ascii root items request
