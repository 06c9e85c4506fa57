-- ===== src/Search/Index/Chains.antt =====
-- The chains and facets that `SearchIndex` (backend/wiseway/search_index.py) builds, chain by chain.
use mathlib.Core.List.{append_assoc, append-nil}
use wise_way.Prelude.{
  ℕ, zero, suc, ◌≡◌, refl, sym, ap, ◌∙◌, Bool, true, false, ◌&&◌, ◌||◌, Bool-cases, Option, none,
  some, inl, inr, List, [], ◌∷◌, ◌++◌, Text, text_eq, text_eq_iff, if◌then◌else◌, length, drop,
  keep, get_elem?, or_else, arith,
}
use wise_way.Search.Items.{SearchItem, Marker}
use wise_way.Search.Query.{texts_eq}
use wise_way.Search.Query.Terms.{texts_eq→eq}
use wise_way.Search.Facets.{Group, has_chain, add_option, group_markers}
use wise_way.Search.Results.Offers.{starts, chain-starts}
use wise_way.Search.Index.{
  lookup, update, append_position, count_marker, add_facets, add_chains, chains_from, facets_from,
  at_positions,
}
use wise_way.Search.Index.Dicts.{
  lookup-update, texts_eq_iff, texts_prefix, texts_prefix-append, texts_prefix-eq,
  texts_prefix-longer, texts_prefix-other, texts_eq-longer, texts_eq-nil,
}

-- the marker that an item adds to the facet of a chain
abbrev next_marker : List Text → List Marker → List Text → Option Marker
next_marker chain [] selected = none
next_marker chain (m ∷ markers) selected =
    let rest = next_marker (chain ++ m.marker_id ∷ []) markers selected in
    if texts_eq chain selected then some m else rest

-- the item's markers reach a chain beyond this one
abbrev reaches : List Text → List Marker → List Text → Bool
reaches chain [] selected = false
reaches chain (m ∷ markers) selected =
    texts_eq (chain ++ m.marker_id ∷ []) selected
    || reaches (chain ++ m.marker_id ∷ []) markers selected

next_marker-apart :
    (chain : List Text) (markers : List Marker) (selected : List Text)
    → texts_prefix chain selected ≡ false
    → next_marker chain markers selected ≡ none
next_marker-apart chain [] selected h = refl
next_marker-apart chain (m ∷ markers) selected h = rw (texts_prefix-eq chain selected h) (
    next_marker-apart (chain ++ m.marker_id ∷ []) markers selected
      (texts_prefix-append chain selected m.marker_id h))

reaches-apart :
    (chain : List Text) (markers : List Marker) (selected : List Text)
    → texts_prefix chain selected ≡ false
    → reaches chain markers selected ≡ false
reaches-apart chain [] selected h = refl
reaches-apart chain (m ∷ markers) selected h =
    let g = texts_prefix-append chain selected m.marker_id h in
    rw (texts_prefix-eq (chain ++ m.marker_id ∷ []) selected g)
      (reaches-apart (chain ++ m.marker_id ∷ []) markers selected g)

-- what an item adds, by its markers alone
abbrev added : List Text → List Marker → Option Marker
added selected markers =
    if starts selected markers then get_elem? markers (length selected) else none

snoc :
    (chain l : List Text) (s t : Text)
    → text_eq s t ≡ true
    → chain ++ t ∷ l ≡ (chain ++ s ∷ []) ++ l
snoc chain l s t h =
    let e : s ≡ t = ground (arith, text_eq_iff s t, h) in rw e (sym (append_assoc chain (t ∷ []) l))

next_marker-added :
    (chain selected : List Text) (markers : List Marker)
    → next_marker chain markers (chain ++ selected) ≡ added selected markers
next_marker-added chain [] [] = refl
next_marker-added chain [] (m ∷ markers) = rw (texts_eq-nil chain) refl
next_marker-added chain (t ∷ selected) [] = refl
next_marker-added chain (t ∷ selected) (m ∷ markers) = elim (Bool-cases (text_eq m.marker_id t)) [
  | inl own ↦
      rw (texts_eq-longer chain selected t, own)
        (ap (next_marker (chain ++ m.marker_id ∷ []) markers)
            (snoc chain selected m.marker_id t own)
          ∙ next_marker-added (chain ++ m.marker_id ∷ []) selected markers)
  | inr other ↦
      rw (texts_eq-longer chain selected t, other)
        (next_marker-apart (chain ++ m.marker_id ∷ []) markers (chain ++ t ∷ selected)
          (texts_prefix-other chain selected m.marker_id t other))
]

-- a chain that is not empty
abbrev longer : List Text → Bool
longer [] = false
longer (t ∷ selected) = true

reaches-starts :
    (chain selected : List Text) (markers : List Marker)
    → reaches chain markers (chain ++ selected) ≡ (longer selected && starts selected markers)
reaches-starts chain [] [] = refl
reaches-starts chain [] (m ∷ markers) = rw (append-nil chain) (reaches-apart-own chain m markers)
  where
    reaches-apart-own :
        (chain : List Text) (m : Marker) (markers : List Marker)
        → reaches chain (m ∷ markers) chain ≡ false
    reaches-apart-own chain m markers =
        let g = texts_prefix-longer chain m.marker_id in
        rw (texts_prefix-eq (chain ++ m.marker_id ∷ []) chain g)
          (reaches-apart (chain ++ m.marker_id ∷ []) markers chain g)
reaches-starts chain (t ∷ selected) [] = refl
reaches-starts chain (t ∷ selected) (m ∷ markers) = elim (Bool-cases (text_eq m.marker_id t)) [
  | inl own ↦
      let c = chain ++ m.marker_id ∷ [] in
      rw (own, snoc chain selected m.marker_id t own)
        (here c selected markers (reaches-starts c selected markers))
  | inr other ↦
      let g = texts_prefix-other chain selected m.marker_id t other in
      rw (other, texts_prefix-eq (chain ++ m.marker_id ∷ []) (chain ++ t ∷ selected) g)
        (reaches-apart (chain ++ m.marker_id ∷ []) markers (chain ++ t ∷ selected) g)
]
  where
    here :
        (c selected : List Text) (markers : List Marker)
        → reaches c markers (c ++ selected) ≡ (longer selected && starts selected markers)
        → (texts_eq c (c ++ selected) || reaches c markers (c ++ selected))
          ≡ starts selected markers
    here c [] markers h = rw (texts_eq-nil c) refl
    here c (u ∷ selected) markers h = rw (texts_eq-longer c selected u) h

-- a marker counted, if there is one
abbrev counted_by : Option Marker → Option (List Group) → Option (List Group)
counted_by none found = found
counted_by (some m) found = some (count_marker m found)

lookup-add_facets :
    (chain : List Text) (markers : List Marker) (selected : List Text)
    (facets : List (List Text × List Group))
    → lookup texts_eq selected (add_facets chain markers facets)
      ≡ counted_by (next_marker chain markers selected) (lookup texts_eq selected facets)
unfolding add_facets
lookup-add_facets chain [] selected facets = refl
lookup-add_facets chain (m ∷ markers) selected facets =
    let longer_chain = chain ++ m.marker_id ∷ [] in
    let rest =
      lookup-add_facets longer_chain markers selected
        (update texts_eq chain (count_marker m) facets) in
    let law = lookup-update texts_eq texts_eq_iff chain selected (count_marker m) facets in
    elim (Bool-cases (texts_eq chain selected)) [
      | inl own ↦
          let e : chain ≡ selected = texts_eq→eq chain selected own in
          let apart : next_marker longer_chain markers selected ≡ none =
            next_marker-apart longer_chain markers selected
              (ap (texts_prefix longer_chain) (sym e) ∙ texts_prefix-longer chain m.marker_id) in
          let g : lookup texts_eq selected
                (add_facets longer_chain markers (update texts_eq chain (count_marker m) facets))
              ≡ some (count_marker m (lookup texts_eq chain facets)) =
            rest
            ∙ (ap
                  (λ (o : Option Marker).
                    counted_by o
                      (lookup texts_eq selected (update texts_eq chain (count_marker m) facets)))
                  apart
                ∙ (law ∙ rw own refl)) in
          rw own (g ∙ ap (λ (k : List Text). some (count_marker m (lookup texts_eq k facets))) e)
      | inr other ↦
          let l : lookup texts_eq selected (update texts_eq chain (count_marker m) facets)
              ≡ lookup texts_eq selected facets =
            law ∙ rw other refl in
          rw other (rest ∙ ap (counted_by (next_marker longer_chain markers selected)) l)
    ]

lookup-add_chains :
    (position : ℕ) (chain : List Text) (markers : List Marker) (selected : List Text)
    (chains : List (List Text × List ℕ))
    → lookup texts_eq selected (add_chains position chain markers chains) ≡ (
        if reaches chain markers selected
        then some (append_position position (lookup texts_eq selected chains))
        else lookup texts_eq selected chains)
unfolding add_chains
lookup-add_chains position chain [] selected chains = refl
lookup-add_chains position chain (m ∷ markers) selected chains =
    let c = chain ++ m.marker_id ∷ [] in
    let rest =
      lookup-add_chains position c markers selected
        (update texts_eq c (append_position position) chains) in
    let law = lookup-update texts_eq texts_eq_iff c selected (append_position position) chains in
    elim (Bool-cases (texts_eq c selected)) [
      | inl own ↦
          let e : c ≡ selected = texts_eq→eq c selected own in
          let apart : reaches c markers selected ≡ false =
            ap (reaches c markers) (sym e) ∙ reaches-self c markers in
          let g : lookup texts_eq selected (
                add_chains position c markers (update texts_eq c (append_position position) chains))
              ≡ some (append_position position (lookup texts_eq c chains)) =
            rest ∙ rw apart (law ∙ rw own refl) in
          rw own (
            g
            ∙ ap (λ (k : List Text). some (append_position position (lookup texts_eq k chains))) e)
      | inr other ↦
          let l : lookup texts_eq selected (update texts_eq c (append_position position) chains)
              ≡ lookup texts_eq selected chains =
            law ∙ rw other refl in
          rw other (
            rest
            ∙ ap
                (λ (o : Option (List ℕ)).
                  if reaches c markers selected then some (append_position position o) else o)
                l)
    ]
  where
    reaches-self : (c : List Text) (markers : List Marker) → reaches c markers c ≡ false
    reaches-self c markers =
        ap (reaches c markers) (sym (append-nil c)) ∙ reaches-starts c [] markers

-- the facets of a chain are those of the items below it
or_else-counted_by :
    (o : Option Marker) (found : Option (List Group))
    → or_else (counted_by o found) [] ≡ add_option o (or_else found [])
or_else-counted_by none found = refl
or_else-counted_by (some m) found = refl

has_chain-starts :
    (selected : List Text) (item : SearchItem)
    → has_chain selected item ≡ starts selected item.markers
unfolding has_chain
has_chain-starts selected item = chain-starts selected item.markers

pub facets_from-groups :
    (selected : List Text) (items : List SearchItem) (facets : List (List Text × List Group))
    → or_else (lookup texts_eq selected (facets_from items facets)) []
      ≡ group_markers
          (length selected)
          (or_else (lookup texts_eq selected facets) [])
          (keep (has_chain selected) items)
unfolding facets_from group_markers
facets_from-groups selected [] facets = refl
facets_from-groups selected (item ∷ items) facets =
    let next = add_facets [] item.markers facets in
    let rest = facets_from-groups selected items next in
    let one : or_else (lookup texts_eq selected next) []
        ≡ add_option (added selected item.markers) (or_else (lookup texts_eq selected facets) []) =
      ap (λ (o : Option (List Group)). or_else o [])
        (lookup-add_facets [] item.markers selected facets
          ∙ ap (λ (o : Option Marker). counted_by o (lookup texts_eq selected facets))
              (next_marker-added [] selected item.markers))
      ∙ or_else-counted_by (added selected item.markers) (lookup texts_eq selected facets) in
    let both =
      rest
      ∙ ap (λ (g : List Group). group_markers (length selected) g (keep (has_chain selected) items))
          one in
    elim (Bool-cases (has_chain selected item)) [
      | inl h ↦
          let s : starts selected item.markers ≡ true = sym (has_chain-starts selected item) ∙ h in
          rw (h, keep) (both ∙ rw s refl)
      | inr h ↦
          let s : starts selected item.markers ≡ false = sym (has_chain-starts selected item) ∙ h in
          rw (h, keep) (both ∙ rw s refl)
    ]

-- the positions of the items that have a chain
abbrev pub positions_of : List Text → ℕ → List SearchItem → List ℕ
positions_of selected position [] = []
positions_of selected position (item ∷ items) =
    let rest = positions_of selected (suc position) items in
    if has_chain selected item then position ∷ rest else rest

or_else-append_position :
    (test : Bool) (position : ℕ) (found : Option (List ℕ))
    → or_else (if test then some (append_position position found) else found) []
      ≡ or_else found [] ++ (if test then position ∷ [] else [])
or_else-append_position true position found = refl
or_else-append_position false position found = sym (append-nil (or_else found []))

-- one item
lookup-item :
    (selected : List Text) (position : ℕ) (markers : List Marker)
    (chains : List (List Text × List ℕ))
    → lookup texts_eq selected
        (add_chains position [] markers (update texts_eq [] (append_position position) chains))
      ≡ (if starts selected markers
          then some (append_position position (lookup texts_eq selected chains))
          else lookup texts_eq selected chains)
lookup-item [] position markers chains =
    let start = update texts_eq [] (append_position position) chains in
    lookup-add_chains position [] markers [] start
    ∙ (ap
          (λ (b : Bool).
            if b
            then some (append_position position (lookup texts_eq [] start))
            else lookup texts_eq [] start)
          (reaches-starts [] [] markers)
        ∙ lookup-update texts_eq texts_eq_iff [] [] (append_position position) chains)
lookup-item (t ∷ selected) position markers chains =
    let start = update texts_eq [] (append_position position) chains in
    lookup-add_chains position [] markers (t ∷ selected) start
    ∙ (ap
          (λ (b : Bool).
            if b
            then some (append_position position (lookup texts_eq (t ∷ selected) start))
            else lookup texts_eq (t ∷ selected) start)
          (reaches-starts [] (t ∷ selected) markers)
        ∙ ap
            (λ (o : Option (List ℕ)).
              if starts (t ∷ selected) markers then some (append_position position o) else o)
            (lookup-update texts_eq texts_eq_iff [] (t ∷ selected) (append_position position)
              chains))

pub chains_from-positions :
    (selected : List Text) (position : ℕ) (items : List SearchItem)
    (chains : List (List Text × List ℕ))
    → or_else (lookup texts_eq selected (chains_from position items chains)) []
      ≡ or_else (lookup texts_eq selected chains) [] ++ positions_of selected position items
unfolding chains_from
chains_from-positions selected position [] chains =
    sym (append-nil (or_else (lookup texts_eq selected chains) []))
chains_from-positions selected position (item ∷ items) chains =
    let next =
      add_chains position [] item.markers (update texts_eq [] (append_position position) chains) in
    let rest = chains_from-positions selected (suc position) items next in
    let tail = positions_of selected (suc position) items in
    let found = lookup texts_eq selected chains in
    let one : or_else (lookup texts_eq selected next) []
        ≡ or_else found [] ++ (if has_chain selected item then position ∷ [] else []) =
      ap (λ (o : Option (List ℕ)). or_else o []) (lookup-item selected position item.markers chains)
      ∙ (or_else-append_position (starts selected item.markers) position found
          ∙ ap (λ (b : Bool). or_else found [] ++ (if b then position ∷ [] else []))
              (sym (has_chain-starts selected item))) in
    rest
    ∙ (ap (λ (l : List ℕ). l ++ tail) one
        ∙ (append_assoc (or_else found []) (if has_chain selected item then position ∷ [] else [])
              tail
            ∙ ap (λ (l : List ℕ). or_else found [] ++ l)
                (joined (has_chain selected item) position tail)))
  where
    joined :
        (b : Bool) (position : ℕ) (tail : List ℕ)
        → (if b then position ∷ [] else []) ++ tail ≡ (if b then position ∷ tail else tail)
    joined true position tail = refl
    joined false position tail = refl

pub get_elem?-drop :
    (n : ℕ) (all : List SearchItem) (item : SearchItem) (items : List SearchItem)
    → drop n all ≡ item ∷ items
    → (get_elem? all n ≡ some item) × (drop (suc n) all ≡ items)
get_elem?-drop zero [] item items h = cc
get_elem?-drop zero (x ∷ all) item items h = (cc, cc)
get_elem?-drop (suc n) [] item items h = cc
get_elem?-drop (suc n) (x ∷ all) item items h = get_elem?-drop n all item items h

-- the items at those positions
pub at_positions-keep :
    (selected : List Text) (position : ℕ) (all items : List SearchItem)
    → drop position all ≡ items
    → at_positions all (positions_of selected position items) ≡ keep (has_chain selected) items
unfolding at_positions
at_positions-keep selected position all [] h = refl
at_positions-keep selected position all (item ∷ items) h =
    let (here, after) = get_elem?-drop position all item items h in
    let rest = at_positions-keep selected (suc position) all items after in
    elim (Bool-cases (has_chain selected item)) [
      | inl c ↦
          rw (c, keep)
            (found_one position all item _ here ∙ ap (λ (l : List SearchItem). item ∷ l) rest)
      | inr c ↦ rw (c, keep) rest
    ]
  where
    found_one :
        (position : ℕ) (all : List SearchItem) (item : SearchItem) (tail : List ℕ)
        → get_elem? all position ≡ some item
        → at_positions all (position ∷ tail) ≡ item ∷ at_positions all tail
    found_one position all item tail e = rw (e, at_positions) refl
