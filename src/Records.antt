-- ===== src/Records.antt =====
-- The documents that the components of backend/wiseway exchange, as the code builds them: queue
-- items, rules, rows of a plan. A field of the JSON that is only copied to the client and decides
-- nothing is left out, and so are the texts of messages.
use wise_way.Prelude.{ℕ, Bool, Option, List, Text, Ident}
use wise_way.Common.{Actor, Location, Fingerprint}

-- `QUEUE_STATES` of sorting.py
pub data ItemStatus : Type 0 where
  discovered waiting_ready ready processing requires_decision recovery_required missing : ItemStatus

pub data Reason : Type 0 where
  not_ready no_scenario rule_conflict manual_review_name_occupied target_occupied : Reason
  already_processing source_missing source_changed technical_error recovery_required : Reason

-- A row of kind `queue`; a selection keeps such rows as they were.
pub record QueueItem : Type 0 where
  pub item_id : Ident
  pub item_revision : ℕ
  pub company_id : Ident
  pub filename : Text
  pub source : Location
  pub status : ItemStatus
  pub selectable : Bool
  pub active_attempt_id : Option Ident
  pub reason_code : Option Reason
  pub size_bytes : ℕ
  -- the nanoseconds `n` that are written as `utc(n / 1e9)`
  pub modified_at : ℕ
  pub fingerprint : Fingerprint
  pub observed_at : ℕ
  pub departed : Bool

pub data MatchField : Type 0 where
  basename relative_path : MatchField

pub record TargetDirectory : Type 0 where
  pub root_id : Ident
  pub relative_directory : Text

-- A rule as `flattened_rules` gives it; a draft's rule has no version yet.
pub record Rule : Type 0 where
  pub dictionary_id : Ident
  pub version_id : Option Ident
  pub rule_id : Ident
  pub priority : ℕ
  pub match_field : MatchField
  pub mask : Text
  pub target : TargetDirectory
  pub target_stem : Text

pub record Reference : Type 0 where
  pub dictionary_id : Ident
  pub version_id : Option Ident
  pub rule_id : Ident

pub data PredictedState : Type 0 where
  will_move will_manual_review requires_decision not_ready : PredictedState

pub data CollisionKind : Type 0 where
  manual_review_name duplicate_plan_target existing_target : CollisionKind

pub record Metadata : Type 0 where
  pub filename : Text
  pub location : Location
  pub size_bytes : ℕ
  -- the nanoseconds `n` that are written as `utc(n / 1e9)`
  pub modified_at : ℕ

pub record Collision : Type 0 where
  pub kind : CollisionKind
  pub source_metadata : Option Metadata
  pub existing_target_metadata : Option Metadata
  pub conflicting_item_ids : List Ident

-- A row of a plan; `source_metadata` is the working field that `plan_rows` takes off at its end.
pub record Row : Type 0 where
  pub item_id : Ident
  pub item_revision : ℕ
  pub source : Location
  pub filename : Text
  pub company_id : Ident
  pub predicted_state : PredictedState
  pub reason_code : Option Reason
  pub target : Option Location
  pub matched_rules : List Reference
  pub selected_rule : Option Reference
  pub collision : Option Collision
  pub source_metadata : Option Metadata

-- `attempt["outcome"]["state"]`
pub data OutcomeState : Type 0 where
  pending processing sorted manual_review requires_decision quarantined skipped recovery_required :
      OutcomeState

pub record Outcome : Type 0 where
  pub attempt_id : Ident
  pub item_id : Ident
  pub item_revision : ℕ
  pub state : OutcomeState
  pub reason_code : Option Reason
  pub source : Location
  pub planned_target : Option Location
  pub actual_location : Option Location
  pub matched_rule : Option Reference
  pub started_at : Option ℕ
  pub finished_at : Option ℕ

pub data Phase : Type 0 where
  queued intent recovery_required done : Phase

pub record Attempt : Type 0 where
  pub attempt_id : Ident
  pub batch_id : Ident
  pub company_id : Ident
  pub actor : Actor
  pub request_id : Ident
  pub item : QueueItem
  pub plan : Row
  pub outcome : Outcome
  pub phase : Phase
  pub intent_target : Option Location
  pub intended_state : Option OutcomeState
  pub intended_reason : Option Reason

pub record Claim : Type 0 where
  pub attempt_id : Ident
  pub batch_id : Ident

pub record QuarantineItem : Type 0 where
  pub quarantine_id : Ident
  pub revision : ℕ
  pub item_id : Ident
  pub company_id : Ident
  pub filename : Text
  pub location : Location
  pub original_location : Location
  pub quarantined_at : ℕ
  pub source_attempt_id : Ident
  pub recovery_operation_id : Option Ident
  pub can_return : Bool
  pub fingerprint : Option Fingerprint
  pub returned : Bool

pub data ReturnPhase : Type 0 where
  intent recovery_required rejected done : ReturnPhase

-- the body of a request to return a file from quarantine
pub record ReturnBody : Type 0 where
  pub expected_revision : ℕ
  pub comment : Text

-- A row of kind `return`; `result` is the queue item that a finished return answered with.
pub record Return : Type 0 where
  pub operation_id : Ident
  pub quarantine_id : Ident
  pub actor : Actor
  pub request_id : Ident
  pub body : ReturnBody
  pub phase : ReturnPhase
  pub fingerprint : Fingerprint
  pub source : Location
  pub target : Location
  pub result : Option QueueItem

pub record ReturnKey : Type 0 where
  pub hash : Ident
  pub operation_id : Ident

pub record Company : Type 0 where
  pub company_id : Ident
  pub folder : Text
  pub targets : List TargetDirectory

-- `_index_storage` of a root: where its index lives
pub data IndexStorage : Type 0 where
  json sqlite opensearch : IndexStorage

pub record Root : Type 0 where
  pub root_id : Ident
  pub display_prefix : Text
  pub base : Text
  pub index_storage : IndexStorage

-- The dictionaries in force in a company. `rule_set_id` is a digest of the other two fields.
pub record RuleSet : Type 0 where
  pub company_id : Ident
  pub members : List (Ident × Ident)

pub record Selection : Type 0 where
  pub selection_id : Ident
  pub company_id : Ident
  pub selected_count : ℕ
  pub created_at : ℕ
  pub expires_at : ℕ
  pub items : List QueueItem
  pub owner : Ident
  pub batch_id : Option Ident

pub record Preview : Type 0 where
  pub preview_id : Ident
  pub selection_id : Ident
  pub company_id : Ident
  pub rule_set : RuleSet
  pub created_at : ℕ
  pub expires_at : ℕ
  pub rows : List Row
  pub owner : Ident

pub record Batch : Type 0 where
  pub batch_id : Ident
  pub company_id : Ident
  pub actor : Actor
  pub selection_id : Ident
  pub preview_id : Option Ident
  pub rule_set : RuleSet
  pub created_at : ℕ
  pub selected_count : ℕ

-- a rule as a dictionary's draft or version holds it
pub record DraftRule : Type 0 where
  pub rule_id : Ident
  pub priority : ℕ
  pub match_field : MatchField
  pub mask : Text
  pub target : TargetDirectory
  pub target_stem : Text

pub record Draft : Type 0 where
  pub draft_revision : ℕ
  pub rules : List DraftRule
  pub based_on_version_id : Option Ident

pub record Dictionary : Type 0 where
  pub dictionary_id : Ident
  pub company_id : Ident
  pub name : Text
  pub description : Text
  pub draft : Draft
  pub active_version_id : Option Ident
  pub versions_count : ℕ
  pub updated_at : ℕ
  pub updated_by : Actor

pub record Version : Type 0 where
  pub version_id : Ident
  pub dictionary_id : Ident
  pub version_number : ℕ
  pub name : Text
  pub description : Text
  pub rules : List DraftRule
  pub published_at : ℕ
  pub published_by : Actor
  pub comment : Text
  pub restored_from_version_id : Option Ident

-- a row of the table `search_outbox`
pub record OutboxRow : Type 0 where
  pub event_key : Ident
  pub root_id : Ident
  pub item_id : Ident
  pub relative_path : Text
  pub size_bytes : ℕ
  -- the nanoseconds `n` that are written as `utc(n / 1e9)`
  pub modified_at : ℕ
