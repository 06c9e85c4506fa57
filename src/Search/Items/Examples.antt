-- ===== src/Search/Items/Examples.antt =====
-- Items as backend/wiseway/search.py builds them.
use wise_way.Prelude.{◌≡◌, refl, true, false, Bool, none, some, List, [], ◌∷◌, ◌++◌, Text, codes}
use wise_way.Common.{Result, ok, err}
use wise_way.Search.Schemas.{Level, Schema, compile_schema}
use wise_way.Search.Items.{IndexedFile, SearchItem, is_valid, path_parts, clean_path, build_item}
use wise_way.Search.Items.Shape.{values_of, build_item-Retraces}
use wise_way.Search.Items.Compiled.{build_item-compiled}

abbrev plain : Text → Text
plain t = t

-- a digest that keeps the parts
abbrev pub joined : List Text → Text
joined [] = []
joined (t ∷ parts) = t ++ 31 ∷ joined parts

abbrev section : Level
section = record {
  level_id = codes "s";
  level_name = codes "S";
  values = codes "A" ∷ [];
  optional = false;
}

abbrev company : Level
company = record {
  level_id = codes "c";
  level_name = codes "C";
  values = codes "B" ∷ codes "D" ∷ [];
  optional = false;
}

abbrev schema : Schema
schema = record {
  schema_set_version = codes "1";
  root_levels = section ∷ company ∷ [];
  tail_by_company = (codes "B", section ∷ []) ∷ [];
}

abbrev file : Text → IndexedFile
file path = record {
  root_id = codes "r";
  display_prefix = codes "/x/";
  relative_path = path;
  size_bytes = 1;
  modified_at = codes "2031-01-01T00:00:00Z";
  identity = codes "i";
}

abbrev seen : Result SearchItem → List Text × Bool
seen built = elim built [
  | err e ↦ ([], false)
  | ok item ↦ (item.display_path ∷ item.filename ∷ item.extension ∷ [], is_valid item)
]

whole :
    seen (build_item plain joined (file (codes "A\\B/A/f.txt")) schema none)
    ≡ (codes "/x/A/B/A/f.txt" ∷ codes "f.txt" ∷ codes ".txt" ∷ [], true)
unfolding build_item
whole = refl

missing :
    seen (build_item plain joined (file (codes "A/f")) schema none)
    ≡ (codes "/x/A/f" ∷ codes "f" ∷ [] ∷ [], false)
unfolding build_item
missing = refl

build_item-compiled_example :
    build_item plain joined (file (codes "A/B/f")) schema (some (compile_schema plain schema))
    ≡ build_item plain joined (file (codes "A/B/f")) schema none
build_item-compiled_example = build_item-compiled plain joined (file (codes "A/B/f")) schema

abbrev item_of : Result SearchItem → SearchItem
item_of (err e) = record {
  item_id = [];
  root_id = [];
  relative_path = [];
  display_path = [];
  filename = [];
  markers = [];
  extension = [];
  size_bytes = 0;
  modified_at = [];
  structure_issue = none;
}
item_of (ok item) = item

abbrev built : SearchItem
built = item_of (build_item plain joined (file (codes "A/B/Q/f")) schema none)

is_built : build_item plain joined (file (codes "A/B/Q/f")) schema none ≡ ok built
unfolding build_item
is_built = refl

build_item-Retraces_example :
    (rest : List Text) × (path_parts (clean_path (codes "A/B/Q/f"))
      ≡ values_of built.markers ++ (rest ++ built.filename ∷ []))
    × (built.structure_issue ≡ none → rest ≡ [])
build_item-Retraces_example =
    build_item-Retraces plain joined (file (codes "A/B/Q/f")) schema none is_built
