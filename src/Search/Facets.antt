-- ===== src/Search/Facets.antt =====
-- Chains of markers and facets of backend/wiseway/search.py: `_selected_chain`, `_facet` and
-- `_facet_from_groups`. A dictionary from the identifiers of markers is its groups in the order in
-- which they came.
pub mod Counts
use wise_way.Prelude.{
  ℕ, suc, ◌+◌, Bool, true, false, ◌&&◌, ◌||◌, not, Option, none, some, List, [], ◌∷◌, map, Text,
  if◌then◌else◌, text_eq, length, take, keep, get_elem?, leb, or_else,
}
use wise_way.Common.{Result, ok, err, api, ◌>>=◌, ◌>>◌, raise_if, invalid_marker_selection}
use wise_way.Common.Texts.{is_prefix, text_lt}
use wise_way.Search.Words.{Unicode, key_lt, key_eq, natural_key}
use wise_way.Search.Items.{SearchItem, Marker, MarkerKind}
use wise_way.Search.Query.{texts_eq, has_term}
use wise_way.Search.Order.{sort_by}

abbrev pub id_of : Marker → Text
id_of marker = marker.marker_id

-- the item's markers begin with the chain
unfoldable pub has_chain : List Text → SearchItem → Bool
has_chain selected item =
    leb (length selected) (length item.markers)
    && texts_eq (map id_of (take (length selected) item.markers)) selected

-- `len(selected) != len(set(selected))`
unfoldable pub repeats : List Text → Bool
unfolding has_term
repeats [] = false
repeats (id ∷ selected) = has_term id selected || repeats selected

abbrev pub none_left : List SearchItem → Bool
none_left [] = true
none_left (item ∷ items) = false

-- the last test of `_selected_chain`: the last marker is one of some item
abbrev pub last_id : Text → List Text → Text
last_id first [] = first
last_id first (id ∷ rest) = last_id id rest

unfoldable pub is_known : Text → List SearchItem → Bool
unfolding has_term
is_known id [] = false
is_known id (item ∷ items) = has_term id (map id_of item.markers) || is_known id items

-- `_selected_chain`
unfoldable pub selected_chain : List SearchItem → List Text → Result (List SearchItem)
unfolding has_chain repeats is_known
selected_chain items [] = ok items
selected_chain items (id ∷ rest) =
    raise_if (repeats (id ∷ rest)) invalid_marker_selection
    >> (raise_if (none_left (keep (has_chain (id ∷ rest)) items)) invalid_marker_selection
        >> (raise_if (not (is_known (last_id id rest) items)) invalid_marker_selection
            >> ok (keep (has_chain (id ∷ rest)) items)))

-- A marker as it was first seen, and the number of items that have it.
abbrev pub Group : Type 0
Group = Marker × ℕ

-- `known, count = grouped.get(marker_id, (marker, 0)); grouped[marker_id] = (known, count + 1)`
unfoldable pub add_marker : Marker → List Group → List Group
add_marker marker [] = (marker, 1) ∷ []
add_marker marker ((known, count) ∷ groups) =
    let rest = add_marker marker groups in
    if text_eq known.marker_id marker.marker_id
    then (known, suc count) ∷ groups
    else (known, count) ∷ rest

-- an item without a marker at that depth adds nothing
abbrev pub add_option : Option Marker → List Group → List Group
add_option none groups = groups
add_option (some marker) groups = add_marker marker groups

-- the loop of `_facet`
unfoldable pub group_markers : ℕ → List Group → List SearchItem → List Group
unfolding add_marker
group_markers depth groups [] = groups
group_markers depth groups (item ∷ items) =
    group_markers depth (add_option (get_elem? item.markers depth) groups) items

pub record Facet : Type 0 where
  pub level_id : Text
  pub level_name : Text
  pub options : List Group

abbrev pub is_unrecognized : Marker → Bool
is_unrecognized marker = elim marker.kind [
  | MarkerKind.value ↦ false
  | MarkerKind.unrecognized ↦ true
]

module _ (unicode : Unicode) where
  -- the order of the keys (unrecognised, natural key, raw value, identifier)
  unfoldable pub choice_before : Group → Group → Bool
  unfolding key_lt key_eq natural_key
  choice_before (a, m) (b, n) =
      let k = natural_key unicode a.display_value in
      let l = natural_key unicode b.display_value in
      let u = or_else a.raw_value [] in
      let v = or_else b.raw_value [] in
      (not (is_unrecognized a) && is_unrecognized b)
      || ((is_unrecognized a || not (is_unrecognized b))
          && (not (is_unrecognized a) || is_unrecognized b)
          && (key_lt k l
              || (key_eq k l && (text_lt u v || (text_eq u v && text_lt a.marker_id b.marker_id)))))

  -- `marker["display_value"].casefold().startswith(prefix.casefold())`
  abbrev pub begins_with : Text → Group → Bool
  begins_with prefix group =
      is_prefix (unicode.casefold prefix) (unicode.casefold group.0.display_value)

  -- `_facet_from_groups`
  unfoldable pub facet_from_groups : List Group → Text → Option Facet
  unfolding sort_by choice_before
  facet_from_groups [] prefix = none
  facet_from_groups (first ∷ groups) prefix = some (record {
    level_id = first.0.level_id;
    level_name = first.0.level_name;
    options = sort_by choice_before (keep (begins_with prefix) (first ∷ groups));
  })

  -- `_facet`
  unfoldable pub facet_of : List SearchItem → ℕ → Text → Option Facet
  unfolding facet_from_groups group_markers
  facet_of candidates depth prefix = facet_from_groups (group_markers depth [] candidates) prefix
