-- ===== src/Dictionaries/Drafts.antt =====
-- The operations of backend/wiseway/dictionaries.py that write: create, replace and restore a draft,
-- simulate and publish. Fresh identifiers and the moment are arguments, and so are the rows that
-- `Context.plan` gives, which reads the disk. `digest` is a parameter, one for rules and one for the
-- public part of queue items. The page of rows that a simulation answers with is left out.
pub mod Locking
use wise_way.Prelude.{
  ℕ, ◌+◌, ◌*◌, Bool, true, false, not, ◌&&◌, ◌||◌, Option, none, some, List, [], ◌∷◌, ◌++◌, Text,
  Ident, ◌==◌, if◌then◌else◌, ltb, leb, length,
}
use wise_way.Common.{
  Actor, Result, ok, err, ◌>>=◌, ◌>>◌, raise_if, validation_error, not_found, stale_simulation,
  rule_conflict, no_scenario_ack_required,
}
use wise_way.Common.Texts.{strip, is_empty}
use wise_way.Records.{
  Rule, RuleSet, DraftRule, Draft, Dictionary, Version, TargetDirectory, QueueItem, Row,
}
use wise_way.Storage.{Table, get, require, put, insert, list}
use wise_way.Database.{Db}
use wise_way.Audit.{
  Action, event, append_event, no_links, success, dictionary_created, draft_saved,
  dictionary_restored, dictionary_simulated, dictionary_published,
}
use wise_way.Rules.Collisions.{PlanCounts, plan_counts}
use wise_way.Dictionaries.{
  rule_set, flattened_rules, check_revision, unique_name, validate_rules, ready_items,
}

-- A row of kind `simulation`.
pub record Simulation : Type 0 where
  pub simulation_id : Ident
  pub dictionary_id : Ident
  pub draft_revision : ℕ
  pub base_rule_set : RuleSet
  pub counts : PlanCounts
  pub rows : List Row
  pub ready_digest : Ident
  pub rules_digest : Ident
  pub owner : Ident
  pub expires : ℕ

-- the digests of rules and of files
pub record Digests : Type 0 where
  pub of_rules : List Rule → Ident
  pub of_ready : List QueueItem → Ident

abbrev pub members_eq : List (Ident × Ident) → List (Ident × Ident) → Bool
members_eq [] [] = true
members_eq ((a, v) ∷ ms) ((b, w) ∷ ns) = a == b && v == w && members_eq ms ns
members_eq _ _ = false

abbrev pub rule_set_eq : RuleSet → RuleSet → Bool
rule_set_eq a b = a.company_id == b.company_id && members_eq a.members b.members

-- `_fresh_simulation`
unfoldable pub fresh_simulation : Digests → ℕ → Simulation → Db → Result (Unit {0})
unfolding rule_set
fresh_simulation digests now simulation db = do
  d ← require db.dictionary simulation.dictionary_id
  rules ← flattened_rules db d.company_id (some d)
  raise_if
      (leb simulation.expires now
        || not (d.draft.draft_revision == simulation.draft_revision)
        || not (rule_set_eq (rule_set db d.company_id) simulation.base_rule_set)
        || not (digests.of_rules rules == simulation.rules_digest)
        || not (digests.of_ready (ready_items db d.company_id) == simulation.ready_digest))
      stale_simulation

-- one event about a dictionary
abbrev pub told :
    Actor
    → Action
    → Ident
    → ℕ
    → Ident
    → Ident
    → Option Ident
    → Option RuleSet
    → Option Text
    → Db
    → Db
told actor action request_id now company_id dictionary_id version_id rules comment db = record db {
  audit = append_event db.audit (
      event (some actor) action request_id now success (record no_links {
        company_id = some company_id;
        dictionary_id = some dictionary_id;
        version_id = version_id;
        rule_set = rules;
        comment = comment;
      }));
}

unfoldable pub create :
    (Text → Text) → ℕ → Ident → Actor → Ident → Ident → Text → Text → Db → Result (Dictionary × Db)
unfolding unique_name
create casefold now fresh actor request_id company_id name description db = do
  _ ← require db.company company_id
  unique_name casefold db company_id (strip name) none
  let dictionary : Dictionary = record {
    dictionary_id = fresh;
    company_id = company_id;
    name = strip name;
    description = description;
    draft = record { draft_revision = 1; rules = []; based_on_version_id = none };
    active_version_id = none;
    versions_count = 0;
    updated_at = now;
    updated_by = actor;
  }
  dictionaries ← insert db.dictionary fresh dictionary
  ok (
    dictionary,
    told actor dictionary_created request_id now company_id fresh none none none
        (record db { dictionary = dictionaries }),
  )

-- a dictionary with another name and the next draft
abbrev pub with_draft :
    Dictionary → Text → Text → List DraftRule → Option Ident → ℕ → Actor → Dictionary
with_draft d name description rules based_on now actor = record d {
  name = name;
  description = description;
  draft = record {
    draft_revision = d.draft.draft_revision + 1;
    rules = rules;
    based_on_version_id = based_on;
  };
  updated_at = now;
  updated_by = actor;
}

unfoldable pub replace_draft :
    (Text → Text)
    → List TargetDirectory
    → ℕ
    → Actor
    → Ident
    → Ident
    → ℕ
    → Text
    → Text
    → List DraftRule
    → Db
    → Result (Dictionary × Db)
unfolding unique_name validate_rules
replace_draft casefold targets now actor request_id dictionary_id expected name description rules
      db =
    do
      d ← require db.dictionary dictionary_id
      check_revision d expected
      unique_name casefold db d.company_id (strip name) (some d.dictionary_id)
      validate_rules targets [] rules
      let saved = with_draft d (strip name) description rules none now actor
      ok (
        saved,
        told actor draft_saved request_id now d.company_id d.dictionary_id none none none
            (record db { dictionary = put db.dictionary d.dictionary_id saved }),
      )

unfoldable pub restore_draft :
    (Text → Text) → ℕ → Actor → Ident → Ident → ℕ → Ident → Db → Result (Dictionary × Db)
unfolding unique_name
restore_draft casefold now actor request_id dictionary_id expected version_id db = do
  d ← require db.dictionary dictionary_id
  check_revision d expected
  version ← require db.version version_id
  raise_if (not (version.dictionary_id == d.dictionary_id)) not_found
  unique_name casefold db d.company_id version.name (some d.dictionary_id)
  let saved =
      with_draft d version.name version.description version.rules (some version.version_id) now
        actor
  ok (
    saved,
    told actor dictionary_restored request_id now d.company_id d.dictionary_id
        (some version.version_id) none none
        (record db { dictionary = put db.dictionary d.dictionary_id saved }),
  )

-- The version that a publication adds.
abbrev pub next_version : Ident → ℕ → Actor → Text → Dictionary → Version
next_version fresh now actor comment d = record {
  version_id = fresh;
  dictionary_id = d.dictionary_id;
  version_number = d.versions_count + 1;
  name = d.name;
  description = d.description;
  rules = d.draft.rules;
  published_at = now;
  published_by = actor;
  comment = comment;
  restored_from_version_id = d.draft.based_on_version_id;
}

abbrev pub in_force : Dictionary → Version → ℕ → Actor → Dictionary
in_force d version now actor = record d {
  active_version_id = some version.version_id;
  versions_count = version.version_number;
  updated_at = now;
  updated_by = actor;
}

-- the end of `_publish`, after its guards
unfoldable pub publish_rows :
    Ident → ℕ → Actor → Ident → Text → Dictionary → Db → Result ((Dictionary × Version) × Db)
unfolding rule_set
publish_rows fresh now actor request_id comment d db = do
  let version = next_version fresh now actor comment d
  versions ← insert db.version fresh version
  let saved = in_force d version now actor
  let db' : Db = record db {
    version = versions;
    dictionary = put db.dictionary d.dictionary_id saved;
  }
  ok (
    (saved, version),
    told actor dictionary_published request_id now d.company_id d.dictionary_id (some fresh)
        (some (rule_set db' d.company_id)) (some comment) db',
  )

-- the guards of `_publish` on the counts
unfoldable pub publishable : PlanCounts → Bool → Result (Unit {0})
publishable counts acknowledged = do
  raise_if (ltb 0 counts.rule_conflicts) rule_conflict
  raise_if (ltb 0 counts.no_scenario && not acknowledged) no_scenario_ack_required

-- `_simulate`; the simulations are a table of their own
unfoldable pub simulate :
    Digests
    → ℕ
    → (List QueueItem → List Rule → Ident → Result (List Row))
    → ℕ
    → Ident
    → Actor
    → Ident
    → Ident
    → ℕ
    → Table Simulation
    → Db
    → Result (Simulation × Table Simulation × Db)
unfolding rule_set
simulate digests ttl plan now fresh actor request_id dictionary_id expected simulations db = do
  d ← require db.dictionary dictionary_id
  check_revision d expected
  rules ← flattened_rules db d.company_id (some d)
  rows ← plan (ready_items db d.company_id) rules d.company_id
  let simulation : Simulation = record {
    simulation_id = fresh;
    dictionary_id = d.dictionary_id;
    draft_revision = d.draft.draft_revision;
    base_rule_set = rule_set db d.company_id;
    counts = plan_counts rows;
    rows = rows;
    ready_digest = digests.of_ready (ready_items db d.company_id);
    rules_digest = digests.of_rules rules;
    owner = actor.user_id;
    expires = now + ttl;
  }
  simulations' ← insert simulations fresh simulation
  ok (
    simulation,
    simulations',
    told actor dictionary_simulated request_id now d.company_id d.dictionary_id none
        (some simulation.base_rule_set) none db,
  )

-- `_publish`; the clock is asked once for the test of the simulation, `checked`, and once more after
unfoldable pub publish :
    Digests
    → List TargetDirectory
    → ℕ
    → ℕ
    → Ident
    → Actor
    → Ident
    → Ident
    → ℕ
    → Ident
    → Bool
    → Text
    → Table Simulation
    → Db
    → Result ((Dictionary × Version) × Db)
unfolding fresh_simulation publishable validate_rules publish_rows
publish digests targets checked now fresh actor request_id dictionary_id expected simulation_id
      acknowledged comment simulations db =
    do
      d ← require db.dictionary dictionary_id
      check_revision d expected
      simulation ← require simulations simulation_id
      raise_if (not (simulation.dictionary_id == d.dictionary_id)) stale_simulation
      fresh_simulation digests checked simulation db
      publishable simulation.counts acknowledged
      validate_rules targets [] d.draft.rules
      raise_if (is_empty (strip comment)) validation_error
      publish_rows fresh now actor request_id comment d db
