-- ===== src/Rules/Plan/Select.antt =====
-- Which rule `_plan_one` of backend/wiseway/rules.py follows: one of least priority among those
-- that match, and only where all of these agree on the target.
use mathlib.Core.Path.{subst}
use wise_way.Prelude.{
  ℕ, ◌≤◌, ◌≡◌, inl, inr, refl, sym, ap, ◌∙◌, true, not, ◌||◌, Option, none, some, List, [], ◌∷◌,
  map, Text, ◌==◌, ltb, arith, if◌then◌else◌, Bool-cases, Member, Member-keep, Member-map,
  keep-Member, keep,
}
use wise_way.Common.{ok, Location}
use wise_way.Common.Bind.{>>=-eq-ok}
use wise_way.Records.{QueueItem, Rule, PredictedState, Row}
use wise_way.Rules.Names.{Key, match_rule, target_tuple}
use wise_way.Rules.Plan.{
  Adapters, reference, minimum_priority, before, least_rule, has_key, distinct, plannable, base_row,
  uncons, winners_of, decide_target, decide, plan_one,
}
use wise_way.Rules.Keys.{key_eq_iff}

minimum_priority-le : (least : ℕ) (rules : List Rule) → minimum_priority least rules ≤ least
minimum_priority-le least [] = omega arith
minimum_priority-le least (rule ∷ rules) =
    ground (arith, minimum_priority-le rule.priority rules, minimum_priority-le least rules)

minimum_priority-le-Member :
    (least : ℕ) (rules : List Rule) (rule : Rule)
    → Member rule rules
    → minimum_priority least rules ≤ rule.priority
minimum_priority-le-Member least [] rule m = absurd m
minimum_priority-le-Member least (r ∷ rules) rule (inl e) = ground (
  arith,
  minimum_priority-le r.priority rules,
  minimum_priority-le least rules,
  ap (λ (x : Rule). x.priority) e,
)
minimum_priority-le-Member least (r ∷ rules) rule (inr m) =
    minimum_priority-le-Member (if ltb r.priority least then r.priority else least) rules rule m

least_rule-Member :
    (best : Rule) (rules : List Rule) → Member (least_rule best rules) (best ∷ rules)
least_rule-Member best [] = inl refl
least_rule-Member best (rule ∷ rules) =
    elim (least_rule-Member (if before rule best then rule else best) rules) [
      | inr m ↦ inr (inr m)
      | inl e ↦ elim (Bool-cases (before rule best)) [
        | inl t ↦ inr (inl (ap (λ b. if b then rule else best) (sym t) ∙ e))
        | inr f ↦ inl (ap (λ b. if b then rule else best) (sym f) ∙ e)
      ]
    ]

uncons-eq : (l : List Rule) {w : Rule} {ws : List Rule} → uncons l ≡ some (w, ws) → l ≡ w ∷ ws
uncons-eq [] h = cc
uncons-eq (x ∷ xs) h = ground arith

least_of_all :
    (first : Rule) (rest : List Rule) (other : Rule)
    → Member other (first ∷ rest)
    → minimum_priority first.priority rest ≤ other.priority
least_of_all first rest other (inl e) =
    omega (arith, minimum_priority-le first.priority rest, ap (λ (x : Rule). x.priority) e)
least_of_all first rest other (inr m) = minimum_priority-le-Member first.priority rest other m

-- The winners are the rules of least priority.
winners_of-least :
    (rules : List Rule) (w : Rule) (ws : List Rule) (rule : Rule)
    → winners_of rules ≡ some (w, ws)
    → Member rule (w ∷ ws)
    → Member rule rules × ((other : Rule) → Member other rules → rule.priority ≤ other.priority)
unfolding winners_of
winners_of-least [] w ws rule e m = cc
winners_of-least (first ∷ rest) w ws rule e m =
    let least = minimum_priority first.priority rest in
    let kept = uncons-eq (keep (λ r. r.priority == least) (first ∷ rest)) e in
    let (among, p) =
      keep-Member (λ r. r.priority == least) rule (first ∷ rest)
        (subst (Member rule) (sym kept) m) in
    (among, λ other q. ground (arith, p, least_of_all first rest other q))

-- Every rule of least priority is a winner.
winners_of-all :
    (rules : List Rule) (w : Rule) (ws : List Rule) (rule other : Rule)
    → winners_of rules ≡ some (w, ws)
    → Member rule (w ∷ ws)
    → Member other rules
    → other.priority ≡ rule.priority
    → Member other (w ∷ ws)
unfolding winners_of
winners_of-all [] w ws rule other e m o p = cc
winners_of-all (first ∷ rest) w ws rule other e m o p =
    let least = minimum_priority first.priority rest in
    let kept = uncons-eq (keep (λ r. r.priority == least) (first ∷ rest)) e in
    let (_, q) =
      keep-Member (λ r. r.priority == least) rule (first ∷ rest)
        (subst (Member rule) (sym kept) m) in
    subst (Member other) kept
      (Member-keep (λ r. r.priority == least) other (first ∷ rest) o (ground (arith, p, q)))

has_key-distinct : (k : Key) (ks : List Key) → Member k ks → has_key k (distinct ks) ≡ true
has_key-distinct k [] m = absurd m
has_key-distinct k (j ∷ ks) (inl e) = ground (arith, key_eq_iff j k)
has_key-distinct k (j ∷ ks) (inr m) = ground (arith, has_key-distinct k ks m)

-- A set of one element holds nothing else.
distinct_single : (ks : List Key) (t k : Key) → distinct ks ≡ t ∷ [] → Member k ks → k ≡ t
distinct_single ks t k e m =
    let h = ap (has_key k) e in ground (arith, h, has_key-distinct k ks m, key_eq_iff t k)

module _ (casefold : Text → Text) (adapters : Adapters) (rules : List Rule) (item : QueueItem) where
  -- the rule matches the file
  abbrev pub Fits : Rule → Type 0
  Fits rule = Member rule rules × (match_rule casefold rule item.source.relative_path ≡ true)

  abbrev pub target_of : Rule → Key
  target_of rule = target_tuple rule.target rule.target_stem item.filename

  -- The row follows this rule: it matches, none that matches has a smaller priority, those with the
  -- same priority have the same target, and the row's target is the place of that target.
  pub record Follows (row : Row) (rule : Rule) : Type 0 where
    pub fits : Fits rule
    pub selected : row.selected_rule ≡ some (reference rule)
    pub least : (other : Rule) → Fits other → rule.priority ≤ other.priority
    pub agreed :
        (other : Rule)
        → Fits other
        → other.priority ≡ rule.priority
        → target_of other ≡ target_of rule
    pub place : Location
    pub placed : adapters.location (target_of rule).0 (target_of rule).1 ≡ ok place
    pub target : row.target ≡ some place

  abbrev fitting : List Rule
  fitting = keep (λ rule. match_rule casefold rule item.source.relative_path) rules

  decide_target_move :
      (base : Row) (w : Rule) (ws : List Rule) (keys : List Key) {row : Row}
      → decide_target adapters base w ws keys ≡ ok row
      → row.predicted_state ≡ PredictedState.will_move
      → (t : Key) × (place : Location) × (keys ≡ t ∷ [])
        × (adapters.location t.0 t.1 ≡ ok place)
        × (row.target ≡ some place)
        × (row.selected_rule ≡ some (reference (least_rule w ws)))
  unfolding decide_target
  decide_target_move base w ws [] h s = absurd (ground arith)
  decide_target_move base w ws (t ∷ []) h s =
      let (place, p, q) = >>=-eq-ok (adapters.location t.0 t.1) _ h in
      (t, place, refl, p, ground arith, ground arith)
  decide_target_move base w ws (t ∷ u ∷ keys) h s = absurd (ground arith)

  decide_move :
      (found : Option (Rule × List Rule)) {row : Row}
      → winners_of fitting ≡ found
      → decide adapters item found ≡ ok row
      → row.predicted_state ≡ PredictedState.will_move
      → (rule : Rule) × Follows row rule
  unfolding decide
  decide_move none e h s = absurd (ground arith)
  decide_move (some (w, ws)) e h s =
      let rule = least_rule w ws in
      let chosen = least_rule-Member w ws in
      let (t, place, one, p, target, selected) =
        decide_target_move (base_row item) w ws (distinct (map target_of (w ∷ ws))) h s in
      let (among, least) = winners_of-least fitting w ws rule e chosen in
      let same = λ (other : Rule) (m : Member other (w ∷ ws)).
        distinct_single (map target_of (w ∷ ws)) t (target_of other) one
          (Member-map target_of other (w ∷ ws) m) in
      let fit = λ (r : Rule). match_rule casefold r item.source.relative_path in
      (
        rule,
        record {
          fits = keep-Member fit rule rules among;
          selected = selected;
          least = λ other f. least other (Member-keep fit other rules f.0 f.1);
          agreed = λ other f q.
              same other (
                winners_of-all fitting w ws rule other e chosen
                  (Member-keep fit other rules f.0 f.1) q)
              ∙ sym (same rule chosen);
          place = place;
          placed = subst (λ k. adapters.location k.0 k.1 ≡ ok place) (sym (same rule chosen)) p;
          target = target;
        },
      )

  -- A file that the plan moves follows one of its rules.
  pub plan_one-Follows :
      {row : Row}
      → plan_one casefold adapters rules item ≡ ok row
      → row.predicted_state ≡ PredictedState.will_move
      → (rule : Rule) × Follows row rule
  unfolding plan_one
  plan_one-Follows h s = elim (Bool-cases (not (plannable item.status) || not item.selectable)) [
    | inl t ↦ absurd (ground arith)
    | inr f ↦ decide_move (winners_of fitting) refl (rw f at h) s
  ]
