-- ===== src/Search/Results/Offers.antt =====
-- What the options of a facet (backend/wiseway/search.py) promise.
use wise_way.Prelude.{
  ℕ, zero, suc, ◌≤◌, ◌≡◌, refl, sym, ap, ◌∙◌, Bool, true, false, ◌&&◌, ◌||◌, not, Bool-cases,
  Option, none, some, inl, inr, List, [], ◌∷◌, ◌++◌, map, Text, text_eq, text_eq_iff, length, take,
  keep, get_elem?, leb, Member, arith, if◌then◌else◌, holds, is_some,
}
use wise_way.Common.{ok}
use wise_way.Common.Bind.{raise_if-eq-ok}
use wise_way.Search.Words.{Unicode}
use wise_way.Search.Items.{SearchItem, Marker}
use wise_way.Search.Query.{Query, texts_eq, has_term}
use wise_way.Search.Match.{matches_and_score}
use wise_way.Search.Order.{Scored}
use wise_way.Search.Facets.{
  id_of, has_chain, repeats, none_left, last_id, is_known, selected_chain, Group, Facet, facet_of,
}
use wise_way.Search.Facets.Counts.{has_at, facet_of_counts}
use wise_way.Search.Results.{match_items, scored, items_of}

-- the chain read along the markers
abbrev pub starts : List Text → List Marker → Bool
starts [] markers = true
starts (id ∷ selected) [] = false
starts (id ∷ selected) (m ∷ markers) = text_eq m.marker_id id && starts selected markers

pub chain-starts :
    (selected : List Text) (markers : List Marker)
    → (leb (length selected) (length markers)
        && texts_eq (map id_of (take (length selected) markers)) selected)
      ≡ starts selected markers
chain-starts [] markers = ground arith
chain-starts (id ∷ selected) [] = ground arith
chain-starts (id ∷ selected) (m ∷ markers) = ground (arith, chain-starts selected markers)

starts-append :
    (selected : List Text) (id : Text) (markers : List Marker)
    → starts (selected ++ id ∷ []) markers ≡ (
        starts selected markers
        && holds (get_elem? markers (length selected)) (λ m. text_eq m.marker_id id))
starts-append [] id [] = refl
starts-append [] id (m ∷ markers) = ground arith
starts-append (x ∷ selected) id [] = refl
starts-append (x ∷ selected) id (m ∷ markers) = ground (arith, starts-append selected id markers)

-- one marker more
has_chain-append :
    (selected : List Text) (id : Text) (item : SearchItem)
    → has_chain (selected ++ id ∷ []) item
      ≡ (has_chain selected item && has_at (length selected) id item)
unfolding has_chain
has_chain-append selected id item =
    rw (chain-starts (selected ++ id ∷ []) item.markers, chain-starts selected item.markers)
      (starts-append selected id item.markers)

pub keep-true : (items : List SearchItem) → keep (has_chain []) items ≡ items
unfolding has_chain
keep-true [] = refl
keep-true (item ∷ items) = ground (arith, keep-true items)

pub selected_chain-eq-ok :
    (items : List SearchItem) (selected : List Text) {candidates : List SearchItem}
    → selected_chain items selected ≡ ok candidates
    → (candidates ≡ keep (has_chain selected) items) × (repeats selected ≡ false)
unfolding selected_chain repeats
selected_chain-eq-ok items [] {candidates} h =
    let e : candidates ≡ items = cc in (e ∙ sym (keep-true items), refl)
selected_chain-eq-ok items (id ∷ rest) h =
    let (r, h1) = raise_if-eq-ok (repeats (id ∷ rest)) _ _ h in
    let (n, h2) = raise_if-eq-ok (none_left (keep (has_chain (id ∷ rest)) items)) _ _ h1 in
    let (k, h3) = raise_if-eq-ok (not (is_known (last_id id rest) items)) _ _ h2 in (cc, r)

selected_chain_accepts :
    (items : List SearchItem) (id : Text) (rest : List Text)
    → repeats (id ∷ rest) ≡ false
    → none_left (keep (has_chain (id ∷ rest)) items) ≡ false
    → is_known (last_id id rest) items ≡ true
    → selected_chain items (id ∷ rest) ≡ ok (keep (has_chain (id ∷ rest)) items)
unfolding selected_chain
selected_chain_accepts items id rest r n k = rw (r, n, k) refl

-- the loop of matching as a filter
abbrev has_score : Unicode → Query → SearchItem → Bool
has_score unicode query item = is_some (matches_and_score unicode item query)

scored-items :
    (item : SearchItem) (found : Option ℕ) (rows : List Scored)
    → items_of (scored item found rows)
      ≡ (if is_some found then item ∷ items_of rows else items_of rows)
scored-items item none rows = refl
scored-items item (some n) rows = refl

match_items-keep :
    (unicode : Unicode) (query : Query) (items : List SearchItem)
    → items_of (match_items unicode query items) ≡ keep (has_score unicode query) items
unfolding match_items
match_items-keep unicode query [] = refl
match_items-keep unicode query (item ∷ items) =
    let rest = match_items-keep unicode query items in
    scored-items item (matches_and_score unicode item query) (match_items unicode query items)
    ∙ ap (λ (l : List SearchItem). if has_score unicode query item then item ∷ l else l) rest

length-items_of : (rows : List Scored) → length (items_of rows) ≡ length rows
length-items_of [] = refl
length-items_of ((item, score) ∷ rows) = ap suc (length-items_of rows)

-- three filters in two orders
keep-refined :
    (p c d e : SearchItem → Bool) (items : List SearchItem)
    → ((item : SearchItem) → d item ≡ (c item && e item))
    → keep e (keep p (keep c items)) ≡ keep p (keep d items)
keep-refined p c d e [] same = refl
keep-refined p c d e (item ∷ items) same =
    let rest = keep-refined p c d e items same in let here = same item in ground (arith, rest, here)

none_left-keep :
    (p c : SearchItem → Bool) (items : List SearchItem)
    → 1 ≤ length (keep p (keep c items))
    → none_left (keep c items) ≡ false
none_left-keep p c items h = filled (keep c items) h
  where
    filled : (kept : List SearchItem) → 1 ≤ length (keep p kept) → none_left kept ≡ false
    filled [] h = absurd (omega arith)
    filled (item ∷ kept) h = refl

-- an identifier at some depth is one of the identifiers
has_term-at :
    (markers : List Marker) (depth : ℕ) (id : Text)
    → holds (get_elem? markers depth) (λ m. text_eq m.marker_id id) ≡ true
    → has_term id (map id_of markers) ≡ true
unfolding has_term
has_term-at [] depth id h = cc
has_term-at (m ∷ markers) zero id h = ground arith
has_term-at (m ∷ markers) (suc depth) id h = ground (arith, has_term-at markers depth id h)

pub is_known-keep :
    (selected : List Text) (id : Text) (items : List SearchItem)
    → none_left (keep (has_chain (selected ++ id ∷ [])) items) ≡ false
    → is_known id items ≡ true
unfolding is_known
is_known-keep selected id [] h = cc
is_known-keep selected id (item ∷ items) h =
    elim (Bool-cases (has_chain (selected ++ id ∷ []) item)) [
      | inl e ↦
          let at : has_at (length selected) id item ≡ true =
            ground (arith, has_chain-append selected id item, e) in
          rw (has_term-at item.markers (length selected) id at) refl
      | inr e ↦
          let rest = is_known-keep selected id items (rw (e, keep) at h) in ground (arith, rest)
    ]

has_term-append_one :
    (term id : Text) (l : List Text)
    → has_term term (l ++ id ∷ []) ≡ (has_term term l || text_eq id term)
unfolding has_term
has_term-append_one term id [] = ground arith
has_term-append_one term id (x ∷ l) = ground (arith, has_term-append_one term id l)

repeats-append :
    (selected : List Text) (id : Text)
    → repeats selected ≡ false
    → has_term id selected ≡ false
    → repeats (selected ++ id ∷ []) ≡ false
unfolding repeats has_term
repeats-append [] id r h = refl
repeats-append (x ∷ selected) id r h = ground (
  arith,
  repeats-append selected id,
  has_term-append_one x id selected,
  text_eq_iff id x,
  text_eq_iff x id,
)

last_id-append : (first id : Text) (rest : List Text) → last_id first (rest ++ id ∷ []) ≡ id
last_id-append first id [] = refl
last_id-append first id (x ∷ rest) = last_id-append x id rest

accept_append :
    (items : List SearchItem) (selected : List Text) (id : Text)
    → repeats (selected ++ id ∷ []) ≡ false
    → none_left (keep (has_chain (selected ++ id ∷ [])) items) ≡ false
    → is_known id items ≡ true
    → selected_chain items (selected ++ id ∷ []) ≡ ok (keep (has_chain (selected ++ id ∷ [])) items)
accept_append items [] id r n k = selected_chain_accepts items id [] r n k
accept_append items (x ∷ selected) id r n k =
    selected_chain_accepts items x (selected ++ id ∷ []) r n (rw (last_id-append x id selected) k)

module _ (unicode : Unicode) (query : Query) where
  -- An option that a facet shows for the matches below a chain can be chosen, where its marker is not in
  -- the chain already: the chain with it is accepted, and has exactly as many matches as the option
  -- shows.
  pub offer_refines :
      (items : List SearchItem) (selected : List Text) (prefix : Text)
      {candidates : List SearchItem} {shown : Facet} (option : Group)
      → selected_chain items selected ≡ ok candidates
      → facet_of unicode (items_of (match_items unicode query candidates)) (length selected) prefix
        ≡ some shown
      → Member option shown.options
      → has_term option.0.marker_id selected ≡ false
      → (refined : List SearchItem) × (selected_chain items (selected ++ option.0.marker_id ∷ [])
          ≡ ok refined)
        × (length (match_items unicode query refined) ≡ option.1)
  offer_refines items selected prefix {candidates} {shown} option h f m fresh =
      let id = option.0.marker_id in
      let chain = has_chain (selected ++ id ∷ []) in
      let (c, r) = selected_chain-eq-ok items selected h in
      let (n, positive) =
        facet_of_counts unicode (items_of (match_items unicode query candidates)) (length selected)
          prefix shown option f m in
      let kept : keep (has_at (length selected) id)
            (items_of (match_items unicode query candidates))
          ≡ keep (has_score unicode query) (keep chain items) =
        ap (keep (has_at (length selected) id))
          (match_items-keep unicode query candidates ∙ ap (keep (has_score unicode query)) c)
        ∙ keep-refined (has_score unicode query) (has_chain selected) chain
            (has_at (length selected) id) items (has_chain-append selected id) in
      let size : option.1 ≡ length (keep (has_score unicode query) (keep chain items)) =
        n ∙ ap (λ (l : List SearchItem). length l) kept in
      let left =
        none_left-keep (has_score unicode query) chain items (omega (arith, size, positive)) in
      (
        keep chain items,
        accept_append items selected id (repeats-append selected id r fresh) left
            (is_known-keep selected id items left),
        sym (length-items_of (match_items unicode query (keep chain items)))
            ∙ (ap (λ (l : List SearchItem). length l)
                  (match_items-keep unicode query (keep chain items))
                ∙ sym size),
      )
