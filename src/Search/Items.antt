-- ===== src/Search/Items.antt =====
-- `build_item` of backend/wiseway/search.py: the public item of one file of an index. The digest
-- `stable_id` of the parts of a marker's identity is a parameter.
pub mod Compiled
pub mod Shape
mod Examples
use wise_way.Prelude.{
  ℕ, suc, ◌+◌, Bool, true, false, not, Option, none, some, List, [], ◌∷◌, ◌++◌, map, Text, ◌==◌,
  if◌then◌else◌, text_eq, length, get_elem?, or_else, ◌||◌, codes,
}
use wise_way.Common.{Result, ok, err, ◌>>=◌, value_error, index_error}
use wise_way.Common.Texts.{is_empty}
use wise_way.Rules.Names.{replace, rstrip_slashes, slash, backslash}
use wise_way.Search.Words.{split_at, non_empty, file_extension}
use wise_way.Search.Schemas.{Level, CompiledLevel, Schema, CompiledSchema, levels, compiled_levels}

pub data MarkerKind : Type 0 where
  value unrecognized : MarkerKind

pub record Marker : Type 0 where
  pub marker_id : Text
  pub level_id : Text
  pub level_name : Text
  pub raw_value : Option Text
  pub display_value : Text
  pub kind : MarkerKind

pub data IssueCode : Type 0 where
  unexpected_depth missing_required_level invalid_level_value : IssueCode

pub record Issue : Type 0 where
  pub level_id : Option Text
  pub level_name : Text
  pub code : IssueCode

pub record SearchItem : Type 0 where
  pub item_id : Text
  pub root_id : Text
  pub relative_path : Text
  pub display_path : Text
  pub filename : Text
  pub markers : List Marker
  pub extension : Text
  pub size_bytes : ℕ
  pub modified_at : Text
  pub structure_issue : Option Issue

-- `"structure_status"`
abbrev pub is_valid : SearchItem → Bool
is_valid item = elim item.structure_issue [ none ↦ true | some issue ↦ false ]

-- what the loop reads of a level
pub record Shown : Type 0 where
  pub level_id : Text
  pub level_name : Text
  pub folded_values : List Text
  pub optional : Bool

abbrev pub shown_level : (Text → Text) → Level → Shown
shown_level casefold level = record {
  level_id = level.level_id;
  level_name = level.level_name;
  folded_values = map casefold level.values;
  optional = level.optional;
}

abbrev pub shown_compiled : CompiledLevel → Shown
shown_compiled level = record {
  level_id = level.level_id;
  level_name = level.level_name;
  folded_values = level.folded_values;
  optional = level.optional;
}

-- `value.casefold() not in allowed`
abbrev pub among : Text → List Text → Bool
among text [] = false
among text (t ∷ texts) = text_eq t text || among text texts

-- `"\x1e".join(parents)`
abbrev pub join_parents : List Text → Text
join_parents [] = []
join_parents (p ∷ []) = p
join_parents (p ∷ q ∷ parents) = p ++ 30 ∷ join_parents (q ∷ parents)

-- the level that stands for a directory beyond the schema
abbrev pub extra_level : Shown
extra_level = record {
  level_id = codes "level-extra-depth";
  level_name = codes "Дополнительный уровень";
  folded_values = [];
  optional = false;
}

abbrev pub issue_at : Shown → IssueCode → Issue
issue_at level code = record {
  level_id = some level.level_id;
  level_name = level.level_name;
  code = code;
}

abbrev pub unexpected : Issue
unexpected = record {
  level_id = none;
  level_name = codes "Дополнительный уровень";
  code = unexpected_depth;
}

module _ (casefold : Text → Text) (stable_id : List Text → Text)
    (root_id schema_version : Text) where
  -- `_marker` of a value
  unfoldable pub value_marker : Shown → Text → List Text → Marker
  value_marker level raw parents = record {
    marker_id = stable_id (
        root_id
        ∷ schema_version
        ∷ level.level_id
        ∷ join_parents parents
        ∷ raw
        ∷ codes "value"
        ∷ []);
    level_id = level.level_id;
    level_name = level.level_name;
    raw_value = some raw;
    display_value = raw;
    kind = value;
  }

  -- `_marker` of what was not recognised
  unfoldable pub unrecognized_marker : Shown → List Text → Marker
  unrecognized_marker level parents = record {
    marker_id = stable_id (
        root_id
        ∷ schema_version
        ∷ level.level_id
        ∷ join_parents parents
        ∷ codes "unrecognized"
        ∷ []);
    level_id = level.level_id;
    level_name = level.level_name;
    raw_value = none;
    display_value = codes "Не распознано";
    kind = unrecognized;
  }

  abbrev pub stop : Shown → List Text → IssueCode → Result (List Marker × Option Issue)
  stop level parsed code = ok (unrecognized_marker level parsed ∷ [], some (issue_at level code))

  -- a round at the end of the directories, with the level expected there
  abbrev pub at_end : Shown → List Text → Result (List Marker × Option Issue)
  at_end level parsed =
      if level.optional then ok ([], none) else stop level parsed missing_required_level

  -- The loop from a position: `expected` gives the levels after the values parsed, and `directories`
  -- are those that are left. The answer is the markers still to come, and the issue. An index out of
  -- range is an `IndexError`.
  unfoldable pub read_levels :
      (List Text → List Shown) → ℕ → List Text → List Text → Result (List Marker × Option Issue)
  unfolding value_marker unrecognized_marker
  read_levels expected position parsed [] =
      if position == length (expected parsed)
      then ok ([], none)
      else elim (get_elem? (expected parsed) position) [
        | none ↦ err index_error
        | some level ↦ at_end level parsed
      ]
  read_levels expected position parsed (directory ∷ directories) =
      let rest = read_levels expected (suc position) (parsed ++ directory ∷ []) directories in
      if position == length (expected parsed)
      then ok (unrecognized_marker extra_level parsed ∷ [], some unexpected)
      else elim (get_elem? (expected parsed) position) [
        | none ↦ err index_error
        | some level ↦
            if among (casefold directory) level.folded_values
            then rest >>= (λ r. ok (value_marker level directory parsed ∷ r.0, r.1))
            else stop level parsed invalid_level_value
      ]

-- `text.strip("/")`
abbrev pub lstrip_slashes : Text → Text
lstrip_slashes [] = []
lstrip_slashes (c ∷ text) = let rest = lstrip_slashes text in if c == slash then rest else c ∷ text

-- the separators made slashes, none at either end
unfoldable pub clean_path : Text → Text
unfolding replace rstrip_slashes
clean_path relative_path = rstrip_slashes (lstrip_slashes (replace backslash slash relative_path))

unfoldable pub path_parts : Text → List Text
unfolding split_at
path_parts clean = non_empty (split_at (λ c. c == slash) clean)

-- `parts[:-1]` and `parts[-1]`
abbrev pub split_last : Text → List Text → List Text × Text
split_last first [] = ([], first)
split_last first (p ∷ parts) = let rest = split_last p parts in (first ∷ rest.0, rest.1)

abbrev pub shown_path : Text → Text → Text
shown_path [] clean = clean
shown_path (c ∷ prefix) clean = rstrip_slashes (c ∷ prefix) ++ slash ∷ clean

-- the levels to expect after some values, of a schema or of its compiled form
unfoldable pub expected_levels :
    (Text → Text) → Schema → Option CompiledSchema → List Text → List Shown
unfolding levels compiled_levels
expected_levels casefold schema none parsed =
    map (shown_level casefold) (levels casefold schema parsed)
expected_levels casefold schema (some compiled) parsed =
    map shown_compiled (compiled_levels casefold compiled parsed)

abbrev pub version_of : Schema → Option CompiledSchema → Text
version_of schema none = schema.schema_set_version
version_of schema (some compiled) = compiled.schema_set_version

-- what is given of a file
pub record IndexedFile : Type 0 where
  pub root_id : Text
  pub display_prefix : Text
  pub relative_path : Text
  pub size_bytes : ℕ
  pub modified_at : Text
  pub identity : Text

module _ (casefold : Text → Text) (stable_id : List Text → Text) where
  unfoldable pub build_parts :
      IndexedFile → Schema → Option CompiledSchema → List Text → Result SearchItem
  unfolding read_levels expected_levels file_extension
  build_parts file schema compiled [] = err value_error
  build_parts file schema compiled (first ∷ parts) =
      let split = split_last first parts in
      let clean = clean_path file.relative_path in
      read_levels casefold stable_id file.root_id (version_of schema compiled)
        (expected_levels casefold schema compiled) 0 [] split.0
      >>= λ r. ok (record {
        item_id = file.identity;
        root_id = file.root_id;
        relative_path = clean;
        display_path = shown_path file.display_prefix clean;
        filename = split.1;
        markers = r.0;
        extension = file_extension split.1;
        size_bytes = file.size_bytes;
        modified_at = file.modified_at;
        structure_issue = r.1;
      })

  -- `build_item`
  unfoldable pub build_item : IndexedFile → Schema → Option CompiledSchema → Result SearchItem
  unfolding build_parts path_parts clean_path
  build_item file schema compiled =
      build_parts file schema compiled (path_parts (clean_path file.relative_path))
