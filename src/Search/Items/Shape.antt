-- ===== src/Search/Items/Shape.antt =====
-- What the markers of an item (backend/wiseway/search.py) say of its path.
use wise_way.Prelude.{
  ℕ, suc, ◌≡◌, refl, sym, ap, ◌∙◌, Bool-cases, Option, none, some, inl, inr, List, [], ◌∷◌, ◌++◌,
  Text, ◌==◌, length, get_elem?, or_else, if◌then◌else◌,
}
use mathlib.Core.List.{append_assoc}
use wise_way.Common.{Result, ok, err, ◌>>=◌, index_error}
use wise_way.Common.Bind.{>>=-eq-ok}
use wise_way.Search.Schemas.{Schema, CompiledSchema}
use wise_way.Search.Items.{
  Marker, MarkerKind, Issue, SearchItem, Shown, IndexedFile, among, at_end, stop, value_marker,
  unrecognized_marker, read_levels, issue_at, missing_required_level, invalid_level_value,
  extra_level, unexpected, split_last, path_parts, clean_path, expected_levels, version_of,
  build_parts, build_item,
}

abbrev pub value_in : MarkerKind → Marker → List Text → List Text
value_in MarkerKind.value marker rest = or_else marker.raw_value [] ∷ rest
value_in MarkerKind.unrecognized marker rest = rest

-- the values of the markers that have one, in their order
abbrev pub values_of : List Marker → List Text
values_of [] = []
values_of (marker ∷ markers) = value_in marker.kind marker (values_of markers)

-- the values are the first directories, and all of them where there is no issue
abbrev Retraces : List Text → List Marker × Option Issue → Type 0
Retraces directories (markers, issue) =
    (rest : List Text) × (directories ≡ values_of markers ++ rest) × (issue ≡ none → rest ≡ [])

Retraces-unmarked :
    (directories : List Text) (marker : Marker) (issue : Issue) {read : List Marker × Option Issue}
    → marker.kind ≡ MarkerKind.unrecognized
    → ◌≡◌ {A = Result (List Marker × Option Issue)} (ok (marker ∷ [], some issue)) (ok read)
    → Retraces directories read
Retraces-unmarked directories marker issue {read} k h =
    let e : (marker ∷ [], some issue) ≡ read = cc in
    let v : values_of (marker ∷ []) ≡ [] = rw k refl in
    rw (← e) (directories, ap (λ (l : List Text). l ++ directories) (sym v), λ n. cc)

Retraces-next :
    (directory : Text) (directories : List Text) (marker : Marker)
    (read : List Marker × Option Issue)
    → marker.kind ≡ MarkerKind.value
    → marker.raw_value ≡ some directory
    → Retraces directories read
    → Retraces (directory ∷ directories) (marker ∷ read.0, read.1)
Retraces-next directory directories marker (markers, issue) k r (rest, e, none_left) =
    let v : values_of (marker ∷ markers) ≡ directory ∷ values_of markers = rw (k, r) refl in
    (
      rest,
      ap (λ (l : List Text). directory ∷ l) e ∙ ap (λ (l : List Text). l ++ rest) (sym v),
      none_left,
    )

pub split_last-append :
    (first : Text) (parts : List Text)
    → first ∷ parts ≡ (split_last first parts).0 ++ (split_last first parts).1 ∷ []
split_last-append first [] = refl
split_last-append first (p ∷ parts) = ap (λ (l : List Text). first ∷ l) (split_last-append p parts)

module _ (casefold : Text → Text) (stable_id : List Text → Text) where
  module _ (root_id version : Text) where
    at_end-Retraces :
        (level : Shown) (parsed : List Text) {read : List Marker × Option Issue}
        → at_end casefold stable_id root_id version level parsed ≡ ok read
        → Retraces [] read
    unfolding unrecognized_marker
    at_end-Retraces level parsed {read} h = elim (Bool-cases level.optional) [
      | inl o ↦
          let g : ◌≡◌ {A = Result (List Marker × Option Issue)} (ok ([], none)) (ok read) =
            rw o at h in
          let e : ([], none) ≡ read = cc in rw (← e) ([], refl, λ n. refl)
      | inr o ↦
          Retraces-unmarked [] (unrecognized_marker casefold stable_id root_id version level parsed)
            (issue_at level missing_required_level) refl (rw o at h)
    ]

    at_level-Retraces :
        (found : Option Shown) (parsed : List Text) {read : List Marker × Option Issue}
        → elim found [
          | none ↦ err index_error
          | some level ↦ at_end casefold stable_id root_id version level parsed
        ]
          ≡ ok read
        → Retraces [] read
    at_level-Retraces none parsed h = cc
    at_level-Retraces (some level) parsed h = at_end-Retraces level parsed h

    directory-Retraces :
        (found : Option Shown) (directory : Text) (parsed directories : List Text)
        (rest : Result (List Marker × Option Issue)) {read : List Marker × Option Issue}
        → elim found [
          | none ↦ err index_error
          | some level ↦
              if among (casefold directory) level.folded_values
              then rest >>= (λ r.
                ok (
                  value_marker casefold stable_id root_id version level directory parsed ∷ r.0,
                  r.1,
                ))
              else stop casefold stable_id root_id version level parsed invalid_level_value
        ]
          ≡ ok read
        → ((r : List Marker × Option Issue) → rest ≡ ok r → Retraces directories r)
        → Retraces (directory ∷ directories) read
    unfolding value_marker unrecognized_marker
    directory-Retraces none directory parsed directories rest h follows = cc
    directory-Retraces (some level) directory parsed directories rest {read} h follows =
        elim (Bool-cases (among (casefold directory) level.folded_values)) [
          | inl a ↦
              let marker = value_marker casefold stable_id root_id version level directory parsed in
              let (r, e, q) = >>=-eq-ok rest (λ r. ok (marker ∷ r.0, r.1)) (rw a at h) in
              let same : (marker ∷ r.0, r.1) ≡ read = cc in
              rw (← same) (Retraces-next directory directories marker r refl refl (follows r e))
          | inr a ↦
              Retraces-unmarked (directory ∷ directories)
                (unrecognized_marker casefold stable_id root_id version level parsed)
                (issue_at level invalid_level_value) refl (rw a at h)
        ]

    read_levels-Retraces :
        (expected : List Text → List Shown) (position : ℕ) (parsed directories : List Text)
        {read : List Marker × Option Issue}
        → read_levels casefold stable_id root_id version expected position parsed directories
          ≡ ok read
        → Retraces directories read
    unfolding read_levels unrecognized_marker
    read_levels-Retraces expected position parsed [] {read} h =
        elim (Bool-cases (position == length (expected parsed))) [
          | inl p ↦
              let g : ◌≡◌ {A = Result (List Marker × Option Issue)} (ok ([], none)) (ok read) =
                rw p at h in
              let e : ([], none) ≡ read = cc in rw (← e) ([], refl, λ n. refl)
          | inr p ↦ at_level-Retraces (get_elem? (expected parsed) position) parsed (rw p at h)
        ]
    read_levels-Retraces expected position parsed (directory ∷ directories) h =
        let rest =
          read_levels casefold stable_id root_id version expected (suc position)
            (parsed ++ directory ∷ []) directories in
        elim (Bool-cases (position == length (expected parsed))) [
          | inl p ↦
              Retraces-unmarked (directory ∷ directories)
                (unrecognized_marker casefold stable_id root_id version extra_level parsed)
                unexpected refl (rw p at h)
          | inr p ↦
              directory-Retraces (get_elem? (expected parsed) position) directory parsed directories
                rest (rw p at h)
                (λ (r : List Marker × Option Issue) (e : rest ≡ ok r).
                  read_levels-Retraces expected (suc position) (parsed ++ directory ∷ [])
                    directories e)
        ]

  build_parts-Retraces :
      (file : IndexedFile) (schema : Schema) (compiled : Option CompiledSchema) (parts : List Text)
      {item : SearchItem}
      → build_parts casefold stable_id file schema compiled parts ≡ ok item
      → (rest : List Text) × (parts ≡ values_of item.markers ++ (rest ++ item.filename ∷ []))
        × (item.structure_issue ≡ none → rest ≡ [])
  unfolding build_parts
  build_parts-Retraces file schema compiled [] h = cc
  build_parts-Retraces file schema compiled (first ∷ parts) {item} h =
      let split = split_last first parts in
      let read =
        read_levels casefold stable_id file.root_id (version_of schema compiled)
          (expected_levels casefold schema compiled) 0 [] split.0 in
      let (r, e, q) = >>=-eq-ok read _ h in
      let (rest, path, empty) =
        read_levels-Retraces file.root_id (version_of schema compiled)
          (expected_levels casefold schema compiled) 0 [] split.0 e in
      let markers : r.0 ≡ item.markers = cc in
      let issue : r.1 ≡ item.structure_issue = cc in
      let name : split.1 ≡ item.filename = cc in
      (
        rest,
        split_last-append first parts
            ∙ (ap (λ (l : List Text). l ++ split.1 ∷ []) path
                ∙ (append_assoc (values_of r.0) rest (split.1 ∷ []) ∙ rw (markers, name) refl)),
        λ n. empty (issue ∙ n),
      )

  -- The values of an item's markers, some directories that were not recognised and the file's name are
  -- the parts of the path, in that order, for a schema and for a compiled one; where the item is valid
  -- no directory was left unrecognised.
  pub build_item-Retraces :
      (file : IndexedFile) (schema : Schema) (compiled : Option CompiledSchema) {item : SearchItem}
      → build_item casefold stable_id file schema compiled ≡ ok item
      → (rest : List Text) × (path_parts (clean_path file.relative_path)
          ≡ values_of item.markers ++ (rest ++ item.filename ∷ []))
        × (item.structure_issue ≡ none → rest ≡ [])
  unfolding build_item
  build_item-Retraces file schema compiled h =
      build_parts-Retraces file schema compiled (path_parts (clean_path file.relative_path)) h
