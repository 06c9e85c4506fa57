-- ===== src/Search/Order.antt =====
-- The orders of backend/wiseway/search.py: `_path_tie`, `_sort_rows`, and `instant_sort_key` of
-- backend/wiseway/common.py. `list.sort` is stable: equal rows keep their order, also where it is
-- reversed. Whether a moment is one of the calendar is a parameter, which is `datetime.strptime`.
pub mod Members
pub mod Ranks
use wise_way.Prelude.{
  ℕ, suc, Bool, true, false, ◌&&◌, ◌||◌, not, Option, none, some, List, [], ◌∷◌, ◌++◌, map, Text,
  ◌==◌, if◌then◌else◌, ltb, text_eq, take, drop,
}
use wise_way.Common.{Result, ok, err, api, ◌>>=◌, ◌>>◌, raise_if, invalid_query, value_error}
use wise_way.Common.Texts.{text_lt}
use wise_way.Rules.Names.{dot}
use wise_way.Search.Words.{Unicode, key_lt, key_eq, natural_key}
use wise_way.Search.Items.{SearchItem}

-- insertion in front of the elements that are not smaller
unfoldable pub insert_by : {A : Type 0} → (A → A → Bool) → A → List A → List A
insert_by before x [] = x ∷ []
insert_by before x (y ∷ l) =
    let rest = insert_by before x l in if before y x then y ∷ rest else x ∷ y ∷ l

unfoldable pub sort_by : {A : Type 0} → (A → A → Bool) → List A → List A
unfolding insert_by
sort_by before [] = []
sort_by before (x ∷ l) = insert_by before x (sort_by before l)

-- `list.sort(key=..., reverse=...)` by a test on the keys
abbrev pub directed : {A : Type 0} → Bool → (A → A → Bool) → A → A → Bool
directed false before a b = before a b
directed true before a b = before b a

module _ (unicode : Unicode) where
  -- `_UTC_INSTANT`: the first 19 characters
  abbrev pub shape_at : ℕ → ℕ → Bool
  shape_at i c =
      if i == 4 || i == 7
      then c == b'-'
      else if i == 10
      then c == b'T'
      else if i == 13 || i == 16
      then c == b':'
      else unicode.is_digit c

  unfoldable pub has_shape : ℕ → Text → Bool
  has_shape i [] = i == 19
  has_shape i (c ∷ text) = shape_at i c && has_shape (suc i) text

  abbrev pub all_digits : Text → Bool
  all_digits [] = true
  all_digits (c ∷ text) = unicode.is_digit c && all_digits text

  -- the text before a last `Z`
  unfoldable pub before_z : Text → Option Text
  before_z [] = none
  before_z (c ∷ []) = if c == b'Z' then some [] else none
  before_z (c ∷ d ∷ text) = elim (before_z (d ∷ text)) [ none ↦ none | some rest ↦ some (c ∷ rest) ]

  -- the fraction, from what stands behind the seconds and before the `Z`
  abbrev pub fraction : Option Text → Option Text
  fraction none = none
  fraction (some []) = some []
  fraction (some (c ∷ [])) = none
  fraction (some (c ∷ d ∷ digits)) =
      if c == dot && all_digits (d ∷ digits) then some (d ∷ digits) else none

  -- `fraction.rstrip("0")`
  unfoldable pub rstrip_zeros : Text → Text
  rstrip_zeros [] = []
  rstrip_zeros (c ∷ text) = elim (rstrip_zeros text) [
    | [] ↦ if c == b'0' then [] else c ∷ []
    | d ∷ rest ↦ c ∷ d ∷ rest
  ]

  abbrev pub key_of : (Text → Bool) → Text → Option Text → Result Text
  key_of is_calendar seconds none = err value_error
  key_of is_calendar seconds (some digits) =
      if is_calendar seconds then ok (seconds ++ dot ∷ rstrip_zeros digits) else err value_error

  -- `instant_sort_key`
  unfoldable pub instant_sort_key : (Text → Bool) → Text → Result Text
  unfolding has_shape before_z rstrip_zeros
  instant_sort_key is_calendar value =
      if has_shape 0 (take 19 value)
      then key_of is_calendar (take 19 value) (fraction (before_z (drop 19 value)))
      else err value_error

-- an item and its score
abbrev pub Scored : Type 0
Scored = SearchItem × ℕ

pub data SortField : Type 0 where
  relevance path name modified_at size unknown : SortField

pub data Direction : Type 0 where
  asc desc unknown : Direction

-- a row with the key of its moment
abbrev pub Timed : Type 0
Timed = Text × Scored

module _ (unicode : Unicode) (is_calendar : Text → Bool) where
  -- `_path_tie` of `a` is less than that of `b`
  unfoldable pub tie_lt : SearchItem → SearchItem → Bool
  unfolding key_lt key_eq natural_key
  tie_lt a b =
      let k = natural_key unicode a.relative_path in
      let l = natural_key unicode b.relative_path in
      key_lt k l
      || (key_eq k l
          && (text_lt a.relative_path b.relative_path
              || (text_eq a.relative_path b.relative_path && text_lt a.item_id b.item_id)))

  abbrev pub path_before : Scored → Scored → Bool
  path_before a b = tie_lt a.0 b.0

  -- the key (-score, *_path_tie)
  abbrev pub relevance_before : Scored → Scored → Bool
  relevance_before a b = ltb b.1 a.1 || (a.1 == b.1 && tie_lt a.0 b.0)

  abbrev pub name_before : Scored → Scored → Bool
  name_before a b = key_lt (natural_key unicode a.0.filename) (natural_key unicode b.0.filename)

  abbrev pub size_before : Scored → Scored → Bool
  size_before a b = ltb a.0.size_bytes b.0.size_bytes

  abbrev pub time_before : Timed → Timed → Bool
  time_before a b = text_lt a.0 b.0

  -- the keys of all rows, or the error of the first that has none
  unfoldable pub timed : List Scored → Result (List Timed)
  unfolding instant_sort_key
  timed [] = ok []
  timed (row ∷ rows) = instant_sort_key unicode is_calendar row.0.modified_at >>= λ key.
      timed rows >>= λ rest. ok ((key, row) ∷ rest)

  -- the branches of `_sort_rows`; `reverse` is `direction == "DESC"`
  unfoldable pub sort_field : SortField → Bool → List Scored → Result (List Scored)
  unfolding sort_by timed tie_lt
  sort_field SortField.relevance reverse rows =
      raise_if (not reverse) invalid_query >> ok (sort_by relevance_before rows)
  sort_field SortField.path reverse rows = ok (sort_by (directed reverse path_before) rows)
  sort_field SortField.name reverse rows =
      ok (sort_by (directed reverse name_before) (sort_by path_before rows))
  sort_field SortField.modified_at reverse rows = timed (sort_by path_before rows) >>= λ keyed.
      ok (map (λ (r : Timed). r.1) (sort_by (directed reverse time_before) keyed))
  sort_field SortField.size reverse rows =
      ok (sort_by (directed reverse size_before) (sort_by path_before rows))
  sort_field SortField.unknown reverse rows = err (api invalid_query)

  -- `_sort_rows`
  unfoldable pub sort_rows : SortField → Direction → List Scored → Result (List SearchItem)
  unfolding sort_field
  sort_rows field Direction.unknown rows = err (api invalid_query)
  sort_rows field Direction.asc rows =
      sort_field field false rows >>= λ sorted. ok (map (λ (r : Scored). r.0) sorted)
  sort_rows field Direction.desc rows =
      sort_field field true rows >>= λ sorted. ok (map (λ (r : Scored). r.0) sorted)
