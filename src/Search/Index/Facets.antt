-- ===== src/Search/Index/Facets.antt =====
-- Chains and facets from the index (backend/wiseway/search_index.py) against the scan of all items.
use wise_way.Prelude.{
  ℕ, suc, ◌≡◌, refl, sym, ap, ◌∙◌, true, false, Bool-cases, inl, inr, List, [], ◌∷◌, Text, length,
  keep, or_else,
}
use wise_way.Common.{Result, ok, err, ◌>>=◌}
use wise_way.Search.Words.{Unicode}
use wise_way.Search.Items.{SearchItem, split_last}
use wise_way.Search.Items.Shape.{split_last-append}
use wise_way.Search.Query.{texts_eq}
use wise_way.Search.Facets.{
  Group, has_chain, repeats, none_left, last_id, is_known, selected_chain, group_markers,
  facet_from_groups, facet_of,
}
use wise_way.Search.Results.Offers.{selected_chain-eq-ok, is_known-keep}
use wise_way.Search.Index.{
  lookup, search_index, is_nil, positions, selected_items, next_facet, at_positions,
}
use wise_way.Search.Index.Chains.{
  positions_of, facets_from-groups, chains_from-positions, at_positions-keep,
}

last_id-split : (first : Text) (rest : List Text) → last_id first rest ≡ (split_last first rest).1
last_id-split first [] = refl
last_id-split first (id ∷ rest) = last_id-split id rest

-- the third guard of `_selected_chain` raises nothing
is_known-last :
    (id : Text) (rest : List Text) (items : List SearchItem)
    → none_left (keep (has_chain (id ∷ rest)) items) ≡ false
    → is_known (last_id id rest) items ≡ true
is_known-last id rest items h =
    let split = split_last id rest in
    let e = split_last-append id rest in
    ap (λ (t : Text). is_known t items) (last_id-split id rest)
    ∙ is_known-keep split.0 split.1 items
        (ap (λ (l : List Text). none_left (keep (has_chain l) items)) (sym e) ∙ h)

is_nil-positions_of :
    (selected : List Text) (position : ℕ) (items : List SearchItem)
    → is_nil (positions_of selected position items) ≡ none_left (keep (has_chain selected) items)
is_nil-positions_of selected position [] = refl
is_nil-positions_of selected position (item ∷ items) =
    let rest = is_nil-positions_of selected (suc position) items in
    elim (Bool-cases (has_chain selected item)) [
      | inl h ↦ rw (h, keep) refl
      | inr h ↦ rw (h, keep) rest
    ]

module _ (unicode : Unicode) (items : List SearchItem) where
  pub index_positions :
      (selected : List Text)
      → or_else (lookup texts_eq selected (search_index unicode items).chains) []
        ≡ positions_of selected 0 items
  unfolding search_index lookup
  index_positions selected = chains_from-positions selected 0 items []

  pub positions_lem :
      (selected : List Text)
      → positions (search_index unicode items) selected
        ≡ (selected_chain items selected >>= λ candidates. ok (positions_of selected 0 items))
  unfolding positions selected_chain repeats
  positions_lem [] = rw (index_positions []) refl
  positions_lem (id ∷ rest) =
      let found = index_positions (id ∷ rest) in
      let nil = is_nil-positions_of (id ∷ rest) 0 items in
      elim (Bool-cases (repeats (id ∷ rest))) [
        | inl r ↦ rw r refl
        | inr r ↦ elim (Bool-cases (none_left (keep (has_chain (id ∷ rest)) items))) [
          | inl n ↦ rw (r, found, nil, n) refl
          | inr n ↦ rw (r, found, nil, n, is_known-last id rest items n) refl
        ]
      ]

  chain_items :
      (selected : List Text) (chained : Result (List SearchItem))
      → selected_chain items selected ≡ chained
      → (chained >>= λ candidates. ok (at_positions items (positions_of selected 0 items)))
        ≡ chained
  chain_items selected (err e) h = refl
  chain_items selected (ok candidates) h =
      let (e, r) = selected_chain-eq-ok items selected h in
      ap ok (at_positions-keep selected 0 items items refl ∙ sym e)

  pub bind_twice :
      {A B : Type 0} (chained : Result (List SearchItem)) (a : A) (f : A → Result B)
      → ((chained >>= λ candidates. ok a) >>= f) ≡ (chained >>= λ candidates. f a)
  bind_twice (err e) a f = refl
  bind_twice (ok candidates) a f = refl

  chain_facet :
      (selected : List Text) (prefix : Text) (chained : Result (List SearchItem))
      → selected_chain items selected ≡ chained
      → (chained >>= λ candidates. ok (
          facet_from_groups unicode
            (group_markers (length selected) [] (keep (has_chain selected) items))
            prefix))
        ≡ (chained >>= λ candidates. ok (facet_of unicode candidates (length selected) prefix))
  unfolding facet_of
  chain_facet selected prefix (err e) h = refl
  chain_facet selected prefix (ok candidates) h =
      let (e, r) = selected_chain-eq-ok items selected h in
      ap
        (λ (l : List SearchItem).
          ok (facet_from_groups unicode (group_markers (length selected) [] l) prefix))
        (sym e)

  index_groups :
      (selected : List Text)
      → or_else (lookup texts_eq selected (search_index unicode items).facets) []
        ≡ group_markers (length selected) [] (keep (has_chain selected) items)
  unfolding search_index lookup
  index_groups selected = facets_from-groups selected items []

  pub items_lem : (search_index unicode items).items ≡ items
  unfolding search_index
  items_lem = refl

  -- The index of some items gives for every chain the items that a scan of all of them gives, and the
  -- next facet that the scan counts from those, with the same errors.
  pub index_scans :
      (selected : List Text) (prefix : Text)
      → (selected_items (search_index unicode items) selected ≡ selected_chain items selected)
        × (next_facet unicode (search_index unicode items) selected prefix ≡ (
            selected_chain items selected >>= λ candidates.
            ok (facet_of unicode candidates (length selected) prefix)))
  unfolding selected_items next_facet
  index_scans selected prefix =
      let chained = selected_chain items selected in
      let index = search_index unicode items in
      (
        ap (λ (r : Result (List ℕ)). r >>= λ found. ok (at_positions index.items found))
              (positions_lem selected)
            ∙ (bind_twice chained (positions_of selected 0 items)
                  (λ found. ok (at_positions index.items found))
                ∙ (ap
                      (λ (l : List SearchItem). chained >>= λ candidates.
                        ok (at_positions l (positions_of selected 0 items)))
                      items_lem
                    ∙ chain_items selected chained refl)),
        ap
              (λ (r : Result (List ℕ)). r >>= λ found. ok (
                facet_from_groups unicode (or_else (lookup texts_eq selected index.facets) [])
                  prefix))
              (positions_lem selected)
            ∙ (bind_twice chained (positions_of selected 0 items) (λ found. ok (
                  facet_from_groups unicode (or_else (lookup texts_eq selected index.facets) [])
                    prefix))
                ∙ (ap
                      (λ (g : List Group).
                        chained >>= λ candidates. ok (facet_from_groups unicode g prefix))
                      (index_groups selected)
                    ∙ chain_facet selected prefix chained refl)),
      )
