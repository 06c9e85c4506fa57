-- ===== src/Search/Items/Compiled.antt =====
-- A compiled schema in `build_item` (backend/wiseway/search.py) against the schema itself.
use mathlib.Core.Path.{fun_ext}
use wise_way.Prelude.{
  ◌≡◌, refl, sym, ap, Option, none, some, List, [], ◌∷◌, ◌++◌, map, Text, text_eq, or_else,
  Bool-cases, inl, inr,
}
use wise_way.Search.Schemas.{
  Level, CompiledLevel, Schema, later_or, get_last, company_of, fold_key, levels, compiled_levels,
  compile_level, compile_tail, compile_schema,
}
use wise_way.Search.Items.{
  Shown, IndexedFile, shown_level, shown_compiled, expected_levels, version_of, build_parts,
  build_item, path_parts, clean_path,
}

module _ (casefold : Text → Text) where
  abbrev compile_some : Option (List Level) → Option (List CompiledLevel)
  compile_some none = none
  compile_some (some levels) = some (map (compile_level casefold) levels)

  compile_some-later_or :
      (a b : Option (List Level))
      → compile_some (later_or a b) ≡ later_or (compile_some a) (compile_some b)
  compile_some-later_or none b = refl
  compile_some-later_or (some l) b = refl

  get_last-compiled :
      (key : Text) (pairs : List (Text × List Level))
      → get_last key (map (compile_tail casefold) pairs)
        ≡ compile_some (get_last key (map (fold_key casefold) pairs))
  unfolding get_last
  get_last-compiled key [] = refl
  get_last-compiled key ((company, entries) ∷ pairs) =
      elim (Bool-cases (text_eq (casefold company) key)) [
        | inl own ↦
            rw (own, get_last-compiled key pairs)
              (sym (
                compile_some-later_or (get_last key (map (fold_key casefold) pairs))
                  (some entries)))
        | inr other ↦
            rw (other, get_last-compiled key pairs)
              (sym (compile_some-later_or (get_last key (map (fold_key casefold) pairs)) none))
      ]

  shown-compiled :
      (l : List Level)
      → map shown_compiled (map (compile_level casefold) l) ≡ map (shown_level casefold) l
  unfolding compile_level
  shown-compiled [] = refl
  shown-compiled (level ∷ l) =
      ap (λ (t : List Shown). shown_level casefold level ∷ t) (shown-compiled l)

  map-append : {A B : Type 0} (f : A → B) (l r : List A) → map f (l ++ r) ≡ map f l ++ map f r
  map-append f [] r = refl
  map-append f (x ∷ l) r = ap (λ (t : List _). f x ∷ t) (map-append f l r)

  shown-tail :
      (tail : Option (List Level))
      → map shown_compiled (or_else (compile_some tail) [])
        ≡ map (shown_level casefold) (or_else tail [])
  shown-tail none = refl
  shown-tail (some l) = shown-compiled l

  -- the levels that the loop sees
  shown_levels-eq :
      (schema : Schema) (parsed : List Text)
      → expected_levels casefold schema (some (compile_schema casefold schema)) parsed
        ≡ expected_levels casefold schema none parsed
  unfolding expected_levels compiled_levels levels compile_schema
  shown_levels-eq schema parsed =
      let key = company_of casefold parsed in
      let tail = get_last key (map (fold_key casefold) schema.tail_by_company) in
      rw (get_last-compiled key schema.tail_by_company) (
        rw
          (
            map-append shown_compiled (map (compile_level casefold) schema.root_levels)
                (or_else (compile_some tail) []),
            map-append (shown_level casefold) schema.root_levels (or_else tail []),
            shown-compiled schema.root_levels,
            shown-tail tail,
          )
          refl)

  version-eq :
      (schema : Schema)
      → version_of schema (some (compile_schema casefold schema)) ≡ version_of schema none
  unfolding compile_schema
  version-eq schema = refl

  parts-eq :
      (stable_id : List Text → Text) (file : IndexedFile) (schema : Schema) (parts : List Text)
      → build_parts casefold stable_id file schema (some (compile_schema casefold schema)) parts
        ≡ build_parts casefold stable_id file schema none parts
  unfolding build_parts
  parts-eq stable_id file schema [] = refl
  parts-eq stable_id file schema (first ∷ parts) =
      rw (version-eq schema, fun_ext (shown_levels-eq schema)) refl

  -- For every file, the item built with the compiled form of a schema is the one built with the schema
  -- itself, and where the one raises, the other raises the same.
  pub build_item-compiled :
      (stable_id : List Text → Text) (file : IndexedFile) (schema : Schema)
      → build_item casefold stable_id file schema (some (compile_schema casefold schema))
        ≡ build_item casefold stable_id file schema none
  unfolding build_item
  build_item-compiled stable_id file schema =
      parts-eq stable_id file schema (path_parts (clean_path file.relative_path))
