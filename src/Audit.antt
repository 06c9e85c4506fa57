-- ===== src/Audit.antt =====
-- `emit` of backend/wiseway/audit.py. The random `event_id` is left out; the journal's order is the
-- order of the list, oldest first.
use wise_way.Prelude.{ℕ, Bool, true, false, Option, none, List, [], ◌∷◌, ◌++◌, Text, Ident}
use wise_way.Common.{Actor, Location}
use wise_way.Records.{Reason, RuleSet}

pub data Action : Type 0 where
  login_succeeded login_failed logout account_blocked account_created account_unblocked : Action
  password_changed : Action
  batch_accepted file_attempt_started file_attempt_finished recovery_required : Action
  quarantine_returned dictionary_created draft_saved dictionary_restored : Action
  dictionary_simulated dictionary_published : Action

pub data Category : Type 0 where
  system business : Category

pub data EventResult : Type 0 where
  success issue failed : EventResult

-- the optional links of an event. `rule_set` is what the digest `rule_set_id` is made of.
pub record Links : Type 0 where
  pub operation_id : Option Ident
  pub source_attempt_id : Option Ident
  pub company_id : Option Ident
  pub dictionary_id : Option Ident
  pub version_id : Option Ident
  pub rule_set : Option RuleSet
  pub batch_id : Option Ident
  pub attempt_id : Option Ident
  pub item_id : Option Ident
  pub source : Option Location
  pub target : Option Location
  pub reason_code : Option Reason
  pub comment : Option Text

abbrev pub no_links : Links
no_links = record {
  operation_id = none;
  source_attempt_id = none;
  company_id = none;
  dictionary_id = none;
  version_id = none;
  rule_set = none;
  batch_id = none;
  attempt_id = none;
  item_id = none;
  source = none;
  target = none;
  reason_code = none;
  comment = none;
}

pub record Event : Type 0 where
  pub occurred_at : ℕ
  pub actor : Option Actor
  pub category : Category
  pub action : Action
  pub result : EventResult
  pub request_id : Ident
  pub links : Links

-- membership in `SYSTEM_ACTIONS`
abbrev pub is_system : Action → Bool
is_system login_succeeded = true
is_system login_failed = true
is_system logout = true
is_system account_blocked = true
is_system account_created = true
is_system account_unblocked = true
is_system password_changed = true
is_system _ = false

abbrev pub category_of : Bool → Category
category_of true = system
category_of false = business

abbrev pub event : Option Actor → Action → Ident → ℕ → EventResult → Links → Event
event actor action request_id now result links = record {
  occurred_at = now;
  actor = actor;
  category = category_of (is_system action);
  action = action;
  result = result;
  request_id = request_id;
  links = links;
}

-- `tx.append_event`
abbrev pub append_event : List Event → Event → List Event
append_event journal e = journal ++ e ∷ []
