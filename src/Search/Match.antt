-- ===== src/Search/Match.antt =====
-- Matching and ranking of backend/wiseway/search.py: `_field_streams`, `_path_stream`,
-- `_contains_phrase` and `_matches_and_score`.
pub mod Meaning
use wise_way.Prelude.{
  ℕ, ◌+◌, ◌*◌, Bool, true, false, ◌||◌, Option, none, some, List, [], ◌∷◌, ◌++◌, Text,
  if◌then◌else◌, text_eq, length, take, max, keep, not, codes, map, or_else,
}
use wise_way.Common.Texts.{is_prefix}
use wise_way.Search.Words.{Unicode, tokens}
use wise_way.Search.Items.{SearchItem, Marker, MarkerKind}
use wise_way.Search.Query.{Query, texts_eq}

-- The words of a field, with its weight.
abbrev pub Stream : Type 0
Stream = ℕ × List Text

abbrev pub weight_of : Text → ℕ
weight_of level_id =
    if text_eq level_id (codes "level-project")
    then 4
    else if text_eq level_id (codes "level-company")
    then 3
    else 1

abbrev pub has_words : Stream → Bool
has_words (weight, []) = false
has_words (weight, w ∷ words) = true

module _ (unicode : Unicode) where
  -- `_path_stream`
  unfoldable pub path_stream : SearchItem → List Text
  path_stream item = tokens unicode item.relative_path

  -- the stream of a marker in front of others; only values have one
  abbrev pub marker_stream : MarkerKind → Marker → List Stream → List Stream
  marker_stream MarkerKind.value marker rest =
      (weight_of marker.level_id, tokens unicode (or_else marker.raw_value [])) ∷ rest
  marker_stream MarkerKind.unrecognized marker rest = rest

  unfoldable pub marker_streams : List Marker → List Stream → List Stream
  marker_streams [] rest = rest
  marker_streams (marker ∷ markers) rest =
      marker_stream marker.kind marker (marker_streams markers rest)

  -- `_field_streams`
  unfoldable pub field_streams : SearchItem → List Stream
  unfolding marker_streams path_stream
  field_streams item =
      keep has_words (
        (5, tokens unicode item.filename)
        ∷ marker_streams item.markers ((1, path_stream item) ∷ []))

-- `_contains_phrase`: at some offset the next words are those of the phrase
unfoldable pub contains_phrase : List Text → List Text → Bool
contains_phrase [] phrase = texts_eq [] phrase
contains_phrase (w ∷ stream) phrase =
    texts_eq (take (length phrase) (w ∷ stream)) phrase || contains_phrase stream phrase

abbrev pub weighed : Text → ℕ → Text → ℕ
weighed term weight token = weight * (if text_eq token term then 2 else 1)

-- the list `matching` of a term, for one stream and for all
unfoldable pub stream_matches : Text → ℕ → List Text → List ℕ
stream_matches term weight [] = []
stream_matches term weight (token ∷ words) =
    let rest = stream_matches term weight words in
    if is_prefix term token then weighed term weight token ∷ rest else rest

unfoldable pub term_matches : Text → List Stream → List ℕ
unfolding stream_matches
term_matches term [] = []
term_matches term ((weight, words) ∷ streams) =
    stream_matches term weight words ++ term_matches term streams

-- the greatest of a list, `none` where it is empty
abbrev pub max_with : ℕ → Option ℕ → ℕ
max_with n none = n
max_with n (some m) = max n m

abbrev pub greatest : List ℕ → Option ℕ
greatest [] = none
greatest (n ∷ numbers) = some (max_with n (greatest numbers))

-- two parts of a score: no match where one has none
abbrev pub add_score : Option ℕ → Option ℕ → Option ℕ
add_score none other = none
add_score (some n) none = none
add_score (some n) (some m) = some (n + m)

unfoldable pub terms_score : List Stream → List Text → Option ℕ
unfolding term_matches
terms_score streams [] = some 0
terms_score streams (term ∷ terms) =
    add_score (greatest (term_matches term streams)) (terms_score streams terms)

-- `same_field`
unfoldable pub phrase_weights : List Text → List Stream → List ℕ
unfolding contains_phrase
phrase_weights phrase [] = []
phrase_weights phrase ((weight, words) ∷ streams) =
    let rest = phrase_weights phrase streams in
    if contains_phrase words phrase then weight ∷ rest else rest

-- what a phrase adds, from the greatest weight of a field that holds it, or from the path
abbrev pub phrase_added : List Text → List Text → Option ℕ → Option ℕ
phrase_added path phrase (some weight) = some (2 * length phrase * weight)
phrase_added path phrase none =
    if contains_phrase path phrase then some (2 * length phrase * 1) else none

unfoldable pub phrases_score : List Stream → List Text → List (List Text) → Option ℕ
unfolding phrase_weights contains_phrase
phrases_score streams path [] = some 0
phrases_score streams path (phrase ∷ phrases) =
    add_score (phrase_added path phrase (greatest (phrase_weights phrase streams)))
      (phrases_score streams path phrases)

-- `_matches_and_score`
unfoldable pub matches_and_score : Unicode → SearchItem → Query → Option ℕ
unfolding terms_score phrases_score field_streams path_stream
matches_and_score unicode item query =
    add_score (terms_score (field_streams unicode item) query.terms)
      (phrases_score (field_streams unicode item) (path_stream unicode item) query.phrases)
