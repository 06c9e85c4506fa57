-- ===== src/Dictionaries.antt =====
-- `rule_set`, `flattened_rules` and the reads and guards of backend/wiseway/dictionaries.py.
-- `str.casefold` is a parameter, and so are the target directories that a company may use, which
-- `Context.targets` reads from the disk.
pub mod Drafts
mod Examples
use wise_way.Prelude.{
  ℕ, ◌+◌, Bool, true, false, not, ◌&&◌, ◌||◌, Option, none, some, List, [], ◌∷◌, ◌++◌, map, Text,
  Ident, ◌==◌, if◌then◌else◌, ltb, length, text_eq, keep, is_some, holds,
}
use wise_way.Common.{
  Actor, Result, ok, err, ◌>>=◌, ◌>>◌, raise_if, validation_error, draft_version_conflict,
  dictionary_name_conflict, invalid_target, not_found,
}
use wise_way.Common.Texts.{strip, is_empty}
use wise_way.Records.{
  Rule, RuleSet, DraftRule, Draft, Dictionary, Version, TargetDirectory, QueueItem, ItemStatus,
}
use wise_way.Storage.{require, list}
use wise_way.Database.{Db}
use wise_way.Auth.Accounts.{utf8_length}
use wise_way.Rules.Names.{Key, slash, backslash, dot}
use wise_way.Rules.Plan.{has_key}
use wise_way.Paths.{has}

-- the active dictionaries of a company; tables are kept in the order of the identifiers
unfoldable pub active_members : Ident → List Dictionary → List (Ident × Ident)
active_members company_id [] = []
active_members company_id (d ∷ dictionaries) =
    let rest = active_members company_id dictionaries in
    if d.company_id == company_id
    then (elim d.active_version_id [ none ↦ rest | some v ↦ (d.dictionary_id, v) ∷ rest ])
    else rest

unfoldable pub rule_set : Db → Ident → RuleSet
unfolding active_members
rule_set db company_id = record {
  company_id = company_id;
  members = active_members company_id (list db.dictionary);
}

-- `{**rule, "dictionary_id": ..., "version_id": ...}`
abbrev pub flat : Ident → Option Ident → DraftRule → Rule
flat dictionary_id version_id rule = record {
  dictionary_id = dictionary_id;
  version_id = version_id;
  rule_id = rule.rule_id;
  priority = rule.priority;
  match_field = rule.match_field;
  mask = rule.mask;
  target = rule.target;
  target_stem = rule.target_stem;
}

-- the rules of a dictionary of the company: the candidate's draft, or the version in force
unfoldable pub rules_of : Db → Option Dictionary → Dictionary → Result (List Rule)
rules_of db candidate d =
    if holds candidate (λ c. d.dictionary_id == c.dictionary_id)
    then ok (elim candidate [ none ↦ [] | some c ↦ map (flat d.dictionary_id none) c.draft.rules ])
    else elim d.active_version_id [
      | none ↦ ok []
      | some v ↦ do
        version ← require db.version v
        ok (map (flat d.dictionary_id (some version.version_id)) version.rules)
    ]

unfoldable pub flatten : Db → Ident → Option Dictionary → List Dictionary → Result (List Rule)
unfolding rules_of
flatten db company_id candidate [] = ok []
flatten db company_id candidate (d ∷ dictionaries) = do
  here ← if d.company_id == company_id then rules_of db candidate d else ok []
  rest ← flatten db company_id candidate dictionaries
  ok (here ++ rest)

unfoldable pub flattened_rules : Db → Ident → Option Dictionary → Result (List Rule)
unfolding flatten
flattened_rules db company_id candidate = flatten db company_id candidate (list db.dictionary)

-- `_revision`
abbrev pub check_revision : Dictionary → ℕ → Result (Unit {0})
check_revision d expected =
    raise_if (not (d.draft.draft_revision == expected)) draft_version_conflict

-- `dictionary["dictionary_id"] != excluded` and the clash of names
abbrev pub clashes : (Text → Text) → Ident → Text → Option Ident → Dictionary → Bool
clashes casefold company_id name excluded d =
    d.company_id == company_id
    && not (holds excluded (λ e. d.dictionary_id == e))
    && text_eq (casefold (strip d.name)) (casefold name)

abbrev pub any_clash : (Text → Text) → Ident → Text → Option Ident → List Dictionary → Bool
any_clash casefold company_id name excluded [] = false
any_clash casefold company_id name excluded (d ∷ dictionaries) =
    clashes casefold company_id name excluded d
    || any_clash casefold company_id name excluded dictionaries

-- `_unique_name`
unfoldable pub unique_name : (Text → Text) → Db → Ident → Text → Option Ident → Result (Unit {0})
unique_name casefold db company_id name excluded = do
  raise_if (is_empty name) validation_error
  raise_if (any_clash casefold company_id name excluded (list db.dictionary))
      dictionary_name_conflict

abbrev pub any_control : Text → Bool
any_control [] = false
any_control (c ∷ text) = ltb c 32 || c == 127 || any_control text

-- the tests on the stem of a target's name
unfoldable pub bad_stem : Text → Bool
bad_stem stem =
    is_empty stem
    || ltb 200 (length stem)
    || ltb 255 (utf8_length stem)
    || text_eq stem (dot ∷ [])
    || text_eq stem (dot ∷ dot ∷ [])
    || has slash stem
    || has backslash stem
    || has 0 stem
    || any_control stem

abbrev pub has_id : Ident → List Ident → Bool
has_id k [] = false
has_id k (j ∷ ids) = j == k || has_id k ids

abbrev pub target_key : TargetDirectory → Key
target_key target = (target.root_id, target.relative_directory)

-- `_validate_rules`, with the identifiers that were seen
unfoldable pub validate_rules :
    List TargetDirectory → List Ident → List DraftRule → Result (Unit {0})
unfolding bad_stem
validate_rules targets seen [] = ok tt
validate_rules targets seen (rule ∷ rules) = do
  raise_if (has_id rule.rule_id seen) validation_error
  raise_if (not (has_key (target_key rule.target) (map target_key targets))) invalid_target
  raise_if (bad_stem rule.target_stem) validation_error
  validate_rules targets (rule.rule_id ∷ seen) rules

abbrev pub is_ready : ItemStatus → Bool
is_ready ItemStatus.ready = true
is_ready _ = false

-- `Context.ready_items` of backend/wiseway/services.py
unfoldable pub ready_items : Db → Ident → List QueueItem
ready_items db company_id =
    keep (λ (q : QueueItem). q.company_id == company_id && is_ready q.status && q.selectable)
      (list db.queue)

-- `_get_version`
unfoldable pub get_version : Ident → Ident → Db → Result Version
get_version dictionary_id version_id db = do
  version ← require db.version version_id
  raise_if (not (version.dictionary_id == dictionary_id)) not_found
  ok version
