-- ===== src/Rules/Plan.antt =====
-- `_plan_one` of backend/wiseway/rules.py: the row of one file. What the caller binds to a storage
-- (`exists`, `location`, `source_info`) may raise.
pub mod Select
use wise_way.Prelude.{
  Bool, true, false, not, ◌&&◌, ◌||◌, Option, none, some, List, [], ◌∷◌, map, ℕ, Text, Ident, ◌==◌,
  ltb, if◌then◌else◌, text_eq, keep,
}
use wise_way.Common.{Result, ok, ◌>>=◌, Location}
use wise_way.Records.{ItemStatus, Reason, QueueItem, Rule, Reference, PredictedState, Metadata, Row}
use wise_way.Rules.Names.{Key, match_rule, target_tuple}

-- the adapters that `Context.plan` passes in
pub record Adapters : Type 0 where
  pub exists : Location → Result Bool
  pub location : Ident → Text → Result Location
  pub source_info : Option (Location → Result (Option Metadata))

abbrev pub reference : Rule → Reference
reference rule = record {
  dictionary_id = rule.dictionary_id;
  version_id = rule.version_id;
  rule_id = rule.rule_id;
}

abbrev pub with_state : Row → PredictedState → Reason → Row
with_state row state reason = record row { predicted_state = state; reason_code = some reason }

-- `min(candidate["priority"] for candidate in ...)` of a first rule and others
abbrev pub minimum_priority : ℕ → List Rule → ℕ
minimum_priority least [] = least
minimum_priority least (rule ∷ rules) =
    minimum_priority (if ltb rule.priority least then rule.priority else least) rules

-- the order of the pairs (dictionary_id, rule_id)
abbrev pub before : Rule → Rule → Bool
before a b =
    ltb a.dictionary_id b.dictionary_id
    || (a.dictionary_id == b.dictionary_id && ltb a.rule_id b.rule_id)

-- `min(winners, key=...)`: the first of the least
abbrev pub least_rule : Rule → List Rule → Rule
least_rule best [] = best
least_rule best (rule ∷ rules) = least_rule (if before rule best then rule else best) rules

abbrev pub key_eq : Key → Key → Bool
key_eq (a, s) (b, t) = a == b && text_eq s t

abbrev pub has_key : Key → List Key → Bool
has_key k [] = false
has_key k (j ∷ ks) = key_eq j k || has_key k ks

-- the elements of a `set` of pairs
abbrev pub distinct : List Key → List Key
distinct [] = []
distinct (k ∷ ks) = let rest = distinct ks in if has_key k rest then rest else k ∷ rest

-- `item["status"] in {"READY", "REQUIRES_DECISION"}`
abbrev pub plannable : ItemStatus → Bool
plannable ItemStatus.ready = true
plannable ItemStatus.requires_decision = true
plannable _ = false

unfoldable pub base_row : QueueItem → Row
base_row item = record {
  item_id = item.item_id;
  item_revision = item.item_revision;
  source = item.source;
  filename = item.filename;
  company_id = item.company_id;
  predicted_state = PredictedState.not_ready;
  reason_code = some Reason.not_ready;
  target = none;
  matched_rules = [];
  selected_rule = none;
  collision = none;
  source_metadata = some (record {
    filename = item.filename;
    location = item.source;
    size_bytes = item.size_bytes;
    modified_at = item.modified_at;
  });
}

abbrev pub uncons : List Rule → Option (Rule × List Rule)
uncons [] = none
uncons (w ∷ ws) = some (w, ws)

-- The rules of least priority among those that match, `none` where none matches.
unfoldable pub winners_of : List Rule → Option (Rule × List Rule)
winners_of [] = none
winners_of (first ∷ rest) =
    let least = minimum_priority first.priority rest in
    uncons (keep (λ rule. rule.priority == least) (first ∷ rest))

-- the row once the targets of the winners are known
unfoldable pub decide_target : Adapters → Row → Rule → List Rule → List Key → Result Row
decide_target adapters base w ws (target ∷ []) = do
  place ← adapters.location target.0 target.1
  ok (record base {
    matched_rules = map reference (w ∷ ws);
    predicted_state = PredictedState.will_move;
    reason_code = none;
    target = some place;
    selected_rule = some (reference (least_rule w ws));
  })
decide_target adapters base w ws _ = ok (
    with_state (record base { matched_rules = map reference (w ∷ ws) })
      PredictedState.will_manual_review Reason.rule_conflict)

-- the row once the winners are known
unfoldable pub decide : Adapters → QueueItem → Option (Rule × List Rule) → Result Row
unfolding decide_target base_row
decide adapters item none =
    ok (with_state (base_row item) PredictedState.will_manual_review Reason.no_scenario)
decide adapters item (some (w, ws)) =
    decide_target adapters (base_row item) w ws
      (distinct (map (λ rule. target_tuple rule.target rule.target_stem item.filename) (w ∷ ws)))

unfoldable pub plan_one : (Text → Text) → Adapters → List Rule → QueueItem → Result Row
unfolding base_row winners_of decide
plan_one casefold adapters rules item =
    if not (plannable item.status) || not item.selectable
    then ok (base_row item)
    else decide adapters item
        (winners_of (keep (λ rule. match_rule casefold rule item.source.relative_path) rules))
