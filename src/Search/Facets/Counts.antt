-- ===== src/Search/Facets/Counts.antt =====
-- What a facet of backend/wiseway/search.py counts: the files that are left once a marker is chosen.
use wise_way.Prelude.{
  ℕ, ◌+◌, ◌≤◌, ◌≡◌, refl, sym, ap, ◌∙◌, Bool, true, false, Bool-cases, Option, none, some, inl, inr,
  List, [], ◌∷◌, Text, text_eq, text_eq_iff, text_eq_refl, length, keep, get_elem?, All, Member,
  keep-Member, arith, if◌then◌else◌, holds,
}
use wise_way.Search.Words.{Unicode}
use wise_way.Search.Items.{SearchItem, Marker}
use wise_way.Search.Order.{sort_by}
use wise_way.Search.Order.Members.{sort_by-Member}
use wise_way.Search.Facets.{
  Group, add_marker, add_option, group_markers, Facet, facet_from_groups, facet_of, begins_with,
  choice_before,
}

-- the item has the marker at a depth
abbrev pub has_at : ℕ → Text → SearchItem → Bool
has_at depth id item = holds (get_elem? item.markers depth) (λ m. text_eq m.marker_id id)

-- the count of an identifier in the groups
unfoldable pub counted : Text → List Group → ℕ
counted id [] = 0
counted id ((known, count) ∷ groups) =
    (if text_eq known.marker_id id then count else 0) + counted id groups

-- no two groups have one identifier
abbrev pub DistinctGroups : List Group → Type 0
DistinctGroups [] = Unit
DistinctGroups ((known, count) ∷ groups) =
    All (λ (g : Group). text_eq g.0.marker_id known.marker_id ≡ false) groups
    × DistinctGroups groups

text_eq-false : (a b c : Text) → text_eq a b ≡ true → text_eq a c ≡ false → text_eq b c ≡ false
text_eq-false a b c h g = let e : a ≡ b = ground (arith, text_eq_iff a b) in rw (← e) g

counted-add_marker :
    (marker : Marker) (id : Text) (groups : List Group)
    → counted id (add_marker marker groups)
      ≡ counted id groups + (if text_eq marker.marker_id id then 1 else 0)
unfolding counted add_marker
counted-add_marker marker id [] = ground arith
counted-add_marker marker id ((known, count) ∷ groups) =
    ground
      (arith, counted-add_marker marker id groups, text_eq_iff known.marker_id marker.marker_id)

absent-add_marker :
    (marker : Marker) (id : Text) (groups : List Group)
    → text_eq marker.marker_id id ≡ false
    → All (λ (g : Group). text_eq g.0.marker_id id ≡ false) groups
    → All (λ (g : Group). text_eq g.0.marker_id id ≡ false) (add_marker marker groups)
unfolding add_marker
absent-add_marker marker id [] h a = (h, tt)
absent-add_marker marker id ((known, count) ∷ groups) h a =
    elim (Bool-cases (text_eq known.marker_id marker.marker_id)) [
      | inl e ↦ rw e a
      | inr e ↦ rw e (a.0, absent-add_marker marker id groups h a.1)
    ]

text_eq_flip : (s t : Text) → text_eq s t ≡ false → text_eq t s ≡ false
text_eq_flip s t h = ground (arith, text_eq_iff s t, text_eq_iff t s)

DistinctGroups-add_marker :
    (marker : Marker) (groups : List Group)
    → DistinctGroups groups
    → DistinctGroups (add_marker marker groups)
unfolding add_marker
DistinctGroups-add_marker marker [] d = (tt, tt)
DistinctGroups-add_marker marker ((known, count) ∷ groups) (a, d) =
    elim (Bool-cases (text_eq known.marker_id marker.marker_id)) [
      | inl e ↦ rw e (a, d)
      | inr e ↦ rw e (
        absent-add_marker marker known.marker_id groups
            (text_eq_flip known.marker_id marker.marker_id e) a,
        DistinctGroups-add_marker marker groups d,
      )
    ]

-- how many items have the marker
abbrev pub number_at : ℕ → Text → List SearchItem → ℕ
number_at depth id items = length (keep (has_at depth id) items)

counted-add_option :
    (id : Text) (found : Option Marker) (groups : List Group)
    → counted id (add_option found groups)
      ≡ counted id groups + (if holds found (λ m. text_eq m.marker_id id) then 1 else 0)
counted-add_option id none groups = omega arith
counted-add_option id (some marker) groups = counted-add_marker marker id groups

DistinctGroups-add_option :
    (found : Option Marker) (groups : List Group)
    → DistinctGroups groups
    → DistinctGroups (add_option found groups)
DistinctGroups-add_option none groups d = d
DistinctGroups-add_option (some marker) groups d = DistinctGroups-add_marker marker groups d

length-keep :
    (p : SearchItem → Bool) (item : SearchItem) (items : List SearchItem)
    → length (keep p (item ∷ items)) ≡ (if p item then 1 else 0) + length (keep p items)
length-keep p item items = elim (Bool-cases (p item)) [
  | inl e ↦ rw (e, keep) (omega arith)
  | inr e ↦ rw (e, keep) (omega arith)
]

-- the groups count the items
pub group_markers_counts :
    (depth : ℕ) (id : Text) (groups : List Group) (items : List SearchItem)
    → counted id (group_markers depth groups items) ≡ counted id groups + number_at depth id items
unfolding group_markers
group_markers_counts depth id groups [] = omega arith
group_markers_counts depth id groups (item ∷ items) =
    let next =
      group_markers_counts depth id (add_option (get_elem? item.markers depth) groups) items in
    let one = counted-add_option id (get_elem? item.markers depth) groups in
    let kept = length-keep (has_at depth id) item items in omega (arith, next, one, kept)

DistinctGroups-group_markers :
    (depth : ℕ) (groups : List Group) (items : List SearchItem)
    → DistinctGroups groups
    → DistinctGroups (group_markers depth groups items)
unfolding group_markers
DistinctGroups-group_markers depth groups [] d = d
DistinctGroups-group_markers depth groups (item ∷ items) d =
    DistinctGroups-group_markers depth (add_option (get_elem? item.markers depth) groups) items
      (DistinctGroups-add_option (get_elem? item.markers depth) groups d)

counted-absent :
    (id : Text) (groups : List Group)
    → All (λ (g : Group). text_eq g.0.marker_id id ≡ false) groups
    → counted id groups ≡ 0
unfolding counted
counted-absent id [] a = refl
counted-absent id ((known, count) ∷ groups) (h, a) =
    let rest = counted-absent id groups a in rw h (omega (arith, rest))

absent_Member :
    (id : Text) (g : Group) (groups : List Group)
    → All (λ (h : Group). text_eq h.0.marker_id id ≡ false) groups
    → Member g groups
    → text_eq g.0.marker_id id ≡ false
absent_Member id g [] a m = elim m [ ]
absent_Member id g (x ∷ groups) a (inl e) =
    ap (λ (h : Group). text_eq h.0.marker_id id) (sym e) ∙ a.0
absent_Member id g (x ∷ groups) a (inr m) = absent_Member id g groups a.1 m

-- the count of a group is the count of its identifier
counted-Member :
    (group : Group) (groups : List Group)
    → DistinctGroups groups
    → Member group groups
    → counted group.0.marker_id groups ≡ group.1
unfolding counted
counted-Member group [] d m = elim m [ ]
counted-Member group ((known, count) ∷ groups) (a, d) (inl e) =
    let id : known ≡ group.0 = ap (λ (g : Group). g.0) e in
    let n : count ≡ group.1 = ap (λ (g : Group). g.1) e in
    let zero_left : counted group.0.marker_id groups ≡ 0 =
      counted-absent group.0.marker_id groups (rw (← id) a) in
    rw (id, text_eq_refl group.0.marker_id, zero_left, n) (omega arith)
counted-Member group ((known, count) ∷ groups) (a, d) (inr m) =
    let other : text_eq known.marker_id group.0.marker_id ≡ false =
      text_eq_flip group.0.marker_id known.marker_id
        (absent_Member known.marker_id group groups a m) in
    let rest = counted-Member group groups d m in rw other (omega (arith, rest))

from_groups-Member :
    (unicode : Unicode) (groups : List Group) (prefix : Text) (shown : Facet) (option : Group)
    → facet_from_groups unicode groups prefix ≡ some shown
    → Member option shown.options
    → Member option groups
unfolding facet_from_groups
from_groups-Member unicode [] prefix shown option h m = cc
from_groups-Member unicode (first ∷ groups) prefix shown option h m =
    let kept = keep (begins_with unicode prefix) (first ∷ groups) in
    let e : shown.options ≡ sort_by (choice_before unicode) kept = cc in
    let in_kept = sort_by-Member (choice_before unicode) option kept (rw (← e) m) in
    (keep-Member (begins_with unicode prefix) option (first ∷ groups) in_kept).0

-- a group stands for some item
abbrev AllPositive : List Group → Type 0
AllPositive [] = Unit
AllPositive ((known, count) ∷ groups) = (1 ≤ count) × AllPositive groups

AllPositive-add_option :
    (found : Option Marker) (groups : List Group)
    → AllPositive groups
    → AllPositive (add_option found groups)
unfolding add_marker
AllPositive-add_option none groups p = p
AllPositive-add_option (some marker) [] p = (omega arith, tt)
AllPositive-add_option (some marker) ((known, count) ∷ groups) (a, p) =
    let rest = AllPositive-add_option (some marker) groups p in
    elim (Bool-cases (text_eq known.marker_id marker.marker_id)) [
      | inl e ↦ rw e (omega arith, p)
      | inr e ↦ rw e (a, rest)
    ]

AllPositive-group_markers :
    (depth : ℕ) (groups : List Group) (items : List SearchItem)
    → AllPositive groups
    → AllPositive (group_markers depth groups items)
unfolding group_markers
AllPositive-group_markers depth groups [] p = p
AllPositive-group_markers depth groups (item ∷ items) p =
    AllPositive-group_markers depth (add_option (get_elem? item.markers depth) groups) items
      (AllPositive-add_option (get_elem? item.markers depth) groups p)

AllPositive-Member :
    (group : Group) (groups : List Group) → AllPositive groups → Member group groups → 1 ≤ group.1
AllPositive-Member group [] p m = elim m [ ]
AllPositive-Member group ((known, count) ∷ groups) (a, p) (inl e) =
    let n : count ≡ group.1 = ap (λ (g : Group). g.1) e in omega arith
AllPositive-Member group ((known, count) ∷ groups) (a, p) (inr m) =
    AllPositive-Member group groups p m

-- the count that an option shows, which is not 0
pub facet_of_counts :
    (unicode : Unicode) (candidates : List SearchItem) (depth : ℕ) (prefix : Text) (shown : Facet)
    (option : Group)
    → facet_of unicode candidates depth prefix ≡ some shown
    → Member option shown.options
    → (option.1 ≡ number_at depth option.0.marker_id candidates) × (1 ≤ option.1)
unfolding facet_of counted
facet_of_counts unicode candidates depth prefix shown option h m =
    let groups = group_markers depth [] candidates in
    let known = from_groups-Member unicode groups prefix shown option h m in
    let own =
      counted-Member option groups (DistinctGroups-group_markers depth [] candidates tt) known in
    let all = group_markers_counts depth option.0.marker_id [] candidates in
    (
      omega (arith, own, all),
      AllPositive-Member option groups (AllPositive-group_markers depth [] candidates tt) known,
    )
