-- ===== src/Search/Index.antt =====
-- `SearchIndex` of backend/wiseway/search_index.py: postings of words, chains of markers and facets of
-- one generation. A dictionary is the list of its pairs in the order in which their keys came; a
-- position is the place of an item among the items. `bisect_left` on sorted words is modelled by what
-- it is documented to find. The ranks that `sort_rows` keeps for long lists are left out.
pub mod Dicts
pub mod Chains
pub mod Facets
pub mod Words
pub mod Weights
pub mod Scores
pub mod Terms
pub mod Phrases
pub mod Sums
pub mod Agreement
pub mod Rows
pub mod Match
pub mod Positions
pub mod Answers
mod Examples
use wise_way.Prelude.{
  ℕ, suc, ◌+◌, ◌*◌, Bool, true, false, ◌&&◌, ◌||◌, not, Option, none, some, List, [], ◌∷◌, ◌++◌,
  map, Text, ◌==◌, if◌then◌else◌, ltb, text_eq, length, take, max, or_else, is_some, get_elem?,
}
use wise_way.Common.{Result, ok, err, ◌>>=◌, ◌>>◌, raise_if, invalid_marker_selection}
use wise_way.Common.Texts.{is_prefix, text_lt}
use wise_way.Search.Words.{Unicode}
use wise_way.Search.Items.{SearchItem, Marker}
use wise_way.Search.Query.{Query, texts_eq}
use wise_way.Search.Match.{Stream, field_streams, contains_phrase, phrase_weights, greatest}
use wise_way.Search.Order.{Scored, sort_by, insert_by}
use wise_way.Search.Facets.{Group, Facet, add_marker, repeats, facet_from_groups}

module _ {K V : Type 0} (same : K → K → Bool) where
  -- `d.get(key)`
  unfoldable pub lookup : K → List (K × V) → Option V
  lookup key [] = none
  lookup key ((k, v) ∷ d) = if same k key then some v else lookup key d

  -- `d[key] = change(d.get(key))`: in the key's place, or at the end
  unfoldable pub update : K → (Option V → V) → List (K × V) → List (K × V)
  update key change [] = (key, change none) ∷ []
  update key change ((k, v) ∷ d) =
      let rest = update key change d in
      if same k key then (k, change (some v)) ∷ d else (k, v) ∷ rest

-- A posting: the greatest weight of a word at each position.
abbrev pub Posting : Type 0
Posting = List (ℕ × ℕ)

pub record SearchIndex : Type 0 where
  pub items : List SearchItem
  pub chains : List (List Text × List ℕ)
  pub postings : List (Text × Posting)
  pub fields : List (List Stream)
  pub facets : List (List Text × List Group)

-- `self._vocabulary`
unfoldable pub vocabulary : SearchIndex → List Text
unfolding sort_by
vocabulary index = sort_by text_lt (map (λ (p : Text × Posting). p.0) index.postings)

abbrev pub append_position : ℕ → Option (List ℕ) → List ℕ
append_position position found = or_else found [] ++ position ∷ []

abbrev pub count_marker : Marker → Option (List Group) → List Group
count_marker marker found = add_marker marker (or_else found [])

-- the loop over the markers of an item: the facets of each chain, and the positions of the longer one
unfoldable pub add_facets :
    List Text → List Marker → List (List Text × List Group) → List (List Text × List Group)
unfolding update
add_facets chain [] facets = facets
add_facets chain (marker ∷ markers) facets =
    add_facets (chain ++ marker.marker_id ∷ []) markers
      (update texts_eq chain (count_marker marker) facets)

unfoldable pub add_chains :
    ℕ → List Text → List Marker → List (List Text × List ℕ) → List (List Text × List ℕ)
unfolding update
add_chains position chain [] chains = chains
add_chains position chain (marker ∷ markers) chains =
    add_chains position (chain ++ marker.marker_id ∷ []) markers
      (update texts_eq (chain ++ marker.marker_id ∷ []) (append_position position) chains)

-- `max(weight, postings.lookup(position, 0))`
abbrev pub heavier : ℕ → Option ℕ → ℕ
heavier weight found = max weight (or_else found 0)

abbrev pub post : ℕ → ℕ → Option Posting → Posting
post position weight found = update ◌==◌ position (heavier weight) (or_else found [])

unfoldable pub add_words : ℕ → ℕ → List Text → List (Text × Posting) → List (Text × Posting)
unfolding update
add_words position weight [] postings = postings
add_words position weight (token ∷ words) postings =
    add_words position weight words (update text_eq token (post position weight) postings)

unfoldable pub add_streams : ℕ → List Stream → List (Text × Posting) → List (Text × Posting)
unfolding add_words
add_streams position [] postings = postings
add_streams position ((weight, words) ∷ streams) postings =
    add_streams position streams (add_words position weight words postings)

-- The loop of the constructor from a position. The three dictionaries do not read one another.
unfoldable pub chains_from :
    ℕ → List SearchItem → List (List Text × List ℕ) → List (List Text × List ℕ)
unfolding add_chains update
chains_from position [] chains = chains
chains_from position (item ∷ items) chains =
    chains_from (suc position) items
      (add_chains position [] item.markers (update texts_eq [] (append_position position) chains))

unfoldable pub facets_from :
    List SearchItem → List (List Text × List Group) → List (List Text × List Group)
unfolding add_facets
facets_from [] facets = facets
facets_from (item ∷ items) facets = facets_from items (add_facets [] item.markers facets)

unfoldable pub postings_from :
    Unicode → ℕ → List SearchItem → List (Text × Posting) → List (Text × Posting)
unfolding add_streams field_streams
postings_from unicode position [] postings = postings
postings_from unicode position (item ∷ items) postings =
    postings_from unicode (suc position) items
      (add_streams position (field_streams unicode item) postings)

-- `SearchIndex(items)`
unfoldable pub search_index : Unicode → List SearchItem → SearchIndex
unfolding chains_from facets_from postings_from field_streams
search_index unicode items = record {
  items = items;
  chains = chains_from 0 items [];
  postings = postings_from unicode 0 items [];
  fields = map (field_streams unicode) items;
  facets = facets_from items [];
}

abbrev pub is_nil : List ℕ → Bool
is_nil [] = true
is_nil (p ∷ positions) = false

abbrev pub is_chain : List Text → Bool
is_chain [] = false
is_chain (id ∷ selected) = true

-- `_positions`
unfoldable pub positions : SearchIndex → List Text → Result (List ℕ)
unfolding lookup repeats
positions index selected =
    raise_if (repeats selected) invalid_marker_selection
    >> (raise_if (is_chain selected && is_nil (or_else (lookup texts_eq selected index.chains) []))
          invalid_marker_selection
        >> ok (or_else (lookup texts_eq selected index.chains) []))

-- `self.items[position]` of each position; a position of the index is in range
unfoldable pub at_positions : {A : Type 0} → List A → List ℕ → List A
at_positions items [] = []
at_positions items (position ∷ rest) = elim (get_elem? items position) [
  | none ↦ at_positions items rest
  | some item ↦ item ∷ at_positions items rest
]

-- `selected`
unfoldable pub selected_items : SearchIndex → List Text → Result (List SearchItem)
unfolding positions at_positions
selected_items index selected =
    positions index selected >>= λ found. ok (at_positions index.items found)

-- `next_facet`
unfoldable pub next_facet : Unicode → SearchIndex → List Text → Text → Result (Option Facet)
unfolding positions facet_from_groups lookup
next_facet unicode index selected prefix = positions index selected >>= λ found.
    ok (facet_from_groups unicode (or_else (lookup texts_eq selected index.facets) []) prefix)

-- `bisect_left` and the slice from there: the words that are not less
unfoldable pub from_word : Text → List Text → List Text
from_word term [] = []
from_word term (token ∷ words) = if text_lt token term then from_word term words else token ∷ words

unfoldable pub prefix_run : SearchIndex → Text → List Text → List (ℕ × Posting)
unfolding lookup
prefix_run index term [] = []
prefix_run index term (token ∷ words) =
    let rest = prefix_run index term words in
    if is_prefix term token
    then ((if text_eq token term then 2 else 1), or_else (lookup text_eq token index.postings) [])
      ∷ rest
    else []

-- `_term_postings`
unfoldable pub term_postings : SearchIndex → Text → List (ℕ × Posting)
unfolding vocabulary from_word prefix_run
term_postings index term = prefix_run index term (from_word term (vocabulary index))

-- `sum(len(postings) for _, postings in matches)`
abbrev pub total_length : List (ℕ × Posting) → ℕ
total_length [] = 0
total_length ((multiplier, posting) ∷ matches) = length posting + total_length matches

abbrev pub shorter : List (ℕ × Posting) → List (ℕ × Posting) → Bool
shorter a b = ltb (total_length a) (total_length b)

-- the keys of a dictionary of positions
abbrev pub keys : Posting → List ℕ
keys [] = []
keys ((position, n) ∷ d) = position ∷ keys d

abbrev pub has_position : ℕ → List ℕ → Bool
has_position position [] = false
has_position position (p ∷ rest) = p == position || has_position position rest

-- a position that may match: one of the scores so far, or of the chain
abbrev pub eligible : List ℕ → Option Posting → ℕ → Bool
eligible allowed none position = has_position position allowed
eligible allowed (some scores) position = is_some (lookup ◌==◌ position scores)

-- the shorter of two sets of candidates
abbrev pub candidates_of : Option Posting → Posting → List ℕ
candidates_of none posting = keys posting
candidates_of (some scores) posting =
    if ltb (length scores) (length posting) then keys scores else keys posting

abbrev pub score_at : Option Posting → ℕ → ℕ
score_at none position = 0
score_at (some scores) position = or_else (lookup ◌==◌ position scores) 0

module _ (allowed : List ℕ) (scores : Option Posting) where
  abbrev pub match_at : ℕ → Posting → ℕ → Option ℕ → Posting → Posting
  match_at multiplier posting position none matched = matched
  match_at multiplier posting position (some weight) matched =
      if eligible allowed scores position
      then update ◌==◌ position (heavier (weight * multiplier)) matched
      else matched

  -- the loop over the candidates of one posting
  unfoldable pub match_posting : ℕ → Posting → List ℕ → Posting → Posting
  unfolding lookup update
  match_posting multiplier posting [] matched = matched
  match_posting multiplier posting (position ∷ rest) matched =
      match_posting multiplier posting rest
        (match_at multiplier posting position (lookup ◌==◌ position posting) matched)

  unfoldable pub match_term : List (ℕ × Posting) → Posting → Posting
  unfolding match_posting
  match_term [] matched = matched
  match_term ((multiplier, posting) ∷ matches) matched =
      match_term matches (match_posting multiplier posting (candidates_of scores posting) matched)

  -- `{position: scores[position] + score for position, score in matched.items()}`
  unfoldable pub add_scores : Posting → Posting
  unfolding lookup
  add_scores [] = []
  add_scores ((position, score) ∷ matched) =
      (position, score_at scores position + score) ∷ add_scores matched

  abbrev pub phrase_score : ℕ → List Text → Option ℕ → Posting → Posting
  phrase_score position phrase none matched = matched
  phrase_score position phrase (some weight) matched =
      update ◌==◌ position (λ found. score_at scores position + 2 * length phrase * weight) matched

  -- the loop over the candidates of a phrase
  unfoldable pub match_phrase :
      List (List Stream) → List Text → Posting → List ℕ → Posting → Posting
  unfolding lookup update phrase_weights
  match_phrase fields phrase smallest [] matched = matched
  match_phrase fields phrase smallest (position ∷ rest) matched =
      match_phrase fields phrase smallest rest (
        if is_some (lookup ◌==◌ position smallest) && eligible allowed scores position
        then phrase_score position phrase
            (greatest (phrase_weights phrase (or_else (get_elem? fields position) []))) matched
        else matched)

-- `min(..., key=len)` of the postings of the words; the phrases of a query have words
unfoldable pub smallest_from : Posting → List Posting → Posting
smallest_from posting [] = posting
smallest_from posting (p ∷ rest) =
    smallest_from (if ltb (length p) (length posting) then p else posting) rest

abbrev pub smallest_posting : List Posting → Posting
smallest_posting [] = []
smallest_posting (p ∷ rest) = smallest_from p rest

abbrev pub posting_of : SearchIndex → Text → Posting
posting_of index token = or_else (lookup text_eq token index.postings) []

-- the loop over the terms; an empty result ends it, as `none`
unfoldable pub match_terms :
    List ℕ → Option Posting → List (List (ℕ × Posting)) → Option (Option Posting)
unfolding match_term add_scores
match_terms allowed scores [] = some scores
match_terms allowed scores (matches ∷ rest) =
    elim (add_scores allowed scores (match_term allowed scores matches [])) [
      | [] ↦ none
      | p ∷ found ↦ match_terms allowed (some (p ∷ found)) rest
    ]

unfoldable pub match_phrases :
    SearchIndex → List ℕ → Option Posting → List (List Text) → Option (Option Posting)
unfolding match_phrase smallest_from lookup
match_phrases index allowed scores [] = some scores
match_phrases index allowed scores (phrase ∷ rest) =
    let smallest = smallest_posting (map (posting_of index) phrase) in
    elim (match_phrase allowed scores index.fields phrase smallest (candidates_of scores smallest)
      []) [ [] ↦ none | p ∷ found ↦ match_phrases index allowed (some (p ∷ found)) rest ]

abbrev pub with_score : SearchItem → ℕ → Scored
with_score item score = (item, score)

-- `[(self.items[position], scores[position]) for position in sorted(scores)]`
unfoldable pub scored_rows : List SearchItem → Option Posting → List ℕ → List Scored
unfolding lookup
scored_rows items scores [] = []
scored_rows items scores (position ∷ rest) = elim (get_elem? items position) [
  | none ↦ scored_rows items scores rest
  | some item ↦ with_score item (score_at scores position) ∷ scored_rows items scores rest
]

abbrev pub final_positions : List ℕ → Option Posting → List ℕ
final_positions allowed none = allowed
final_positions allowed (some scores) = sort_by ltb (keys scores)

abbrev pub final_rows : SearchIndex → List ℕ → Option (Option Posting) → List Scored
final_rows index allowed none = []
final_rows index allowed (some scores) =
    scored_rows index.items scores (final_positions allowed scores)

abbrev pub then_phrases :
    SearchIndex → List ℕ → List (List Text) → Option (Option Posting) → Option (Option Posting)
then_phrases index allowed phrases none = none
then_phrases index allowed phrases (some scores) = match_phrases index allowed scores phrases

-- `match`
unfoldable pub match_index : SearchIndex → Query → List Text → Result (List Scored)
unfolding positions match_terms match_phrases term_postings sort_by scored_rows
match_index index query selected = positions index selected >>= λ allowed. ok (
    final_rows index allowed (
      then_phrases index allowed query.phrases
        (match_terms allowed none (sort_by shorter (map (term_postings index) query.terms)))))
