-- ===== src/Search/Schemas.antt =====
-- Schemas of backend/wiseway/search.py: `_levels`, and the compiled form of `compile_schema`. A
-- schema is typed here, so that the errors of an ill-formed one do not arise. A dictionary written
-- as pairs keeps the last value of a key.
use wise_way.Prelude.{
  Option, none, some, Bool, List, [], ◌∷◌, ◌++◌, map, Text, if◌then◌else◌, text_eq, or_else,
  get_elem?, codes,
}

-- `_Level`
pub record Level : Type 0 where
  pub level_id : Text
  pub level_name : Text
  pub values : List Text
  pub optional : Bool

-- `_CompiledLevel`
pub record CompiledLevel : Type 0 where
  pub level_id : Text
  pub level_name : Text
  pub folded_values : List Text
  pub optional : Bool

pub record Schema : Type 0 where
  pub schema_set_version : Text
  pub root_levels : List Level
  pub tail_by_company : List (Text × List Level)

-- `CompiledSchema`
pub record CompiledSchema : Type 0 where
  pub schema_set_version : Text
  pub root_levels : List CompiledLevel
  pub tail_by_company : List (Text × List CompiledLevel)

abbrev pub later_or : {A : Type 0} → Option A → Option A → Option A
later_or (some later) earlier = some later
later_or none earlier = earlier

-- `mapping.get(key)`
unfoldable pub get_last : {A : Type 0} → Text → List (Text × A) → Option A
get_last key [] = none
get_last key ((k, value) ∷ pairs) =
    later_or (get_last key pairs) (if text_eq k key then some value else none)

-- `str(company).casefold()` of the second value read, or of the word `None`
abbrev pub company_of : (Text → Text) → List Text → Text
company_of casefold parsed_values = casefold (or_else (get_elem? parsed_values 1) (codes "None"))

abbrev pub fold_key : {A : Type 0} → (Text → Text) → Text × A → Text × A
fold_key casefold (key, value) = (casefold key, value)

-- `_levels`
unfoldable pub levels : (Text → Text) → Schema → List Text → List Level
unfolding get_last
levels casefold schema parsed_values =
    schema.root_levels
    ++ or_else
        (get_last (company_of casefold parsed_values)
          (map (fold_key casefold) schema.tail_by_company))
        []

-- `CompiledSchema.levels`
unfoldable pub compiled_levels : (Text → Text) → CompiledSchema → List Text → List CompiledLevel
unfolding get_last
compiled_levels casefold schema parsed_values =
    schema.root_levels
    ++ or_else (get_last (company_of casefold parsed_values) schema.tail_by_company) []

unfoldable pub compile_level : (Text → Text) → Level → CompiledLevel
compile_level casefold level = record {
  level_id = level.level_id;
  level_name = level.level_name;
  folded_values = map casefold level.values;
  optional = level.optional;
}

abbrev pub compile_tail : (Text → Text) → Text × List Level → Text × List CompiledLevel
compile_tail casefold (company, entries) = (casefold company, map (compile_level casefold) entries)

-- `compile_schema`
unfoldable pub compile_schema : (Text → Text) → Schema → CompiledSchema
unfolding compile_level
compile_schema casefold schema = record {
  schema_set_version = schema.schema_set_version;
  root_levels = map (compile_level casefold) schema.root_levels;
  tail_by_company = map (compile_tail casefold) schema.tail_by_company;
}
