-- ===== src/Services.antt =====
-- `Context` of backend/wiseway/services.py: plans over the storage and the disk, batches as the API
-- shows them, and idempotent requests. While one plan is made, the disk's answers come from one state
-- of the surroundings.
pub mod Batches
pub mod Replays
mod Examples
use wise_way.Prelude.{
  ℕ, ◌+◌, ◌/◌, ◌≡◌, Bool, true, false, not, ◌&&◌, ◌||◌, Option, none, some, List, [], ◌∷◌, map,
  Text, Ident, ◌==◌, if◌then◌else◌, ltb, keep, min, max,
}
use wise_way.Common.{
  Result, ok, err, ◌>>=◌, ◌>>◌, raise_if, Location, Fingerprint, idempotency_key_reused,
}
use wise_way.Records.{QueueItem, Rule, Metadata, Row, OutcomeState, Outcome, Attempt, Batch}
use wise_way.Storage.{Table, get, require, put, insert, list}
use wise_way.Database.{Db}
use wise_way.Host.{Host}
use wise_way.Paths.{location, physical}
use wise_way.Rules.Names.{basename}
use wise_way.Rules.Plan.{Adapters}
use wise_way.Rules.Collisions.{plan_rows}
use wise_way.Worker.Transactions.{manual_root}

abbrev pub metadata_of : Location → Option Fingerprint → Option Metadata
metadata_of place none = none
metadata_of place (some seen) = some (record {
  filename = basename place.relative_path;
  location = place;
  size_bytes = seen.size;
  modified_at = seen.mtime_ns;
})

abbrev pub occupied : (host : Host) → host.World → Db → Location → Result Bool
occupied host w db place = do path ← physical db place; (host.exists path w).0

abbrev pub source_info : (host : Host) → host.World → Db → Location → Result (Option Metadata)
source_info host w db place = do
  path ← physical db place
  seen ← (host.stat path w).0
  ok (metadata_of place seen)

-- what `Context.plan` binds a plan to
unfoldable pub adapters_of : (host : Host) → host.World → Db → Adapters
adapters_of host w db = record {
  exists = occupied host w db;
  location = location db;
  source_info = some (source_info host w db);
}

-- `Context.plan`
unfoldable pub context_plan :
    (Text → Text)
    → (host : Host) → host.World
    → Db
    → List QueueItem
    → List Rule
    → Ident
    → Result (List Row)
unfolding adapters_of
context_plan casefold host w db items rules company_id = do
  company ← require db.company company_id
  plan_rows casefold (adapters_of host w db) items rules
      (record { root_id = manual_root; relative_directory = company.folder })

pub record BatchCounts : Type 0 where
  pub sorted : ℕ
  pub manual_review : ℕ
  pub requires_decision : ℕ
  pub quarantined : ℕ
  pub skipped : ℕ
  pub recovery_required : ℕ

abbrev pub no_counts : BatchCounts
no_counts = record {
  sorted = 0;
  manual_review = 0;
  requires_decision = 0;
  quarantined = 0;
  skipped = 0;
  recovery_required = 0;
}

-- `counts[outcome["state"].lower()] += 1` for a state that is counted
abbrev pub count_outcome : OutcomeState → BatchCounts → BatchCounts
count_outcome OutcomeState.sorted c = record c { sorted = c.sorted + 1 }
count_outcome OutcomeState.manual_review c = record c { manual_review = c.manual_review + 1 }
count_outcome OutcomeState.requires_decision c = record c {
  requires_decision = c.requires_decision + 1;
}
count_outcome OutcomeState.quarantined c = record c { quarantined = c.quarantined + 1 }
count_outcome OutcomeState.skipped c = record c { skipped = c.skipped + 1 }
count_outcome OutcomeState.recovery_required c = record c {
  recovery_required = c.recovery_required + 1;
}
count_outcome OutcomeState.pending c = c
count_outcome OutcomeState.processing c = c

unfoldable pub count_outcomes : List Outcome → BatchCounts
count_outcomes [] = no_counts
count_outcomes (outcome ∷ outcomes) = count_outcome outcome.state (count_outcomes outcomes)

abbrev pub completed_of : BatchCounts → ℕ
completed_of c = c.sorted + c.manual_review + c.requires_decision + c.quarantined + c.skipped

pub data BatchStatus : Type 0 where
  accepted running recovery_required completed completed_with_issues : BatchStatus

-- the moments that are there
abbrev pub moments : List (Option ℕ) → List ℕ
moments [] = []
moments (none ∷ rest) = moments rest
moments (some t ∷ rest) = t ∷ moments rest

abbrev pub least_of : ℕ → List ℕ → ℕ
least_of t [] = t
least_of t (u ∷ rest) = least_of (min t u) rest

abbrev pub greatest_of : ℕ → List ℕ → ℕ
greatest_of t [] = t
greatest_of t (u ∷ rest) = greatest_of (max t u) rest

abbrev pub earliest : List ℕ → Option ℕ
earliest [] = none
earliest (t ∷ rest) = some (least_of t rest)

abbrev pub latest : List ℕ → Option ℕ
latest [] = none
latest (t ∷ rest) = some (greatest_of t rest)

abbrev pub any_moment : List ℕ → Bool
any_moment [] = false
any_moment (t ∷ rest) = true

unfoldable pub batch_status : ℕ → BatchCounts → List ℕ → BatchStatus
batch_status selected c started =
    if completed_of c == selected
    then (if c.sorted == completed_of c then completed else completed_with_issues)
    else if ltb 0 c.recovery_required
    then BatchStatus.recovery_required
    else if any_moment started
    then running
    else accepted

pub record BatchView : Type 0 where
  pub batch : Batch
  pub outcomes : List Outcome
  pub counts : BatchCounts
  pub completed_count : ℕ
  pub started_at : Option ℕ
  pub finished_at : Option ℕ
  pub status : BatchStatus

-- `batch_attempts` of one batch: the rows stand in the order of the attempts' identifiers
unfoldable pub batch_attempts : Db → Ident → List Attempt
batch_attempts db batch_id = keep (λ (a : Attempt). a.batch_id == batch_id) (list db.attempt)

unfoldable pub view_of : Batch → List Outcome → BatchView
unfolding count_outcomes batch_status
view_of batch outcomes =
    let counts = count_outcomes outcomes in
    let started = moments (map (λ (o : Outcome). o.started_at) outcomes) in
    let finished = moments (map (λ (o : Outcome). o.finished_at) outcomes) in
    record {
      batch = batch;
      outcomes = outcomes;
      counts = counts;
      completed_count = completed_of counts;
      started_at = earliest started;
      finished_at = if completed_of counts == batch.selected_count then latest finished else none;
      status = batch_status batch.selected_count counts started;
    }

-- `Context.batch`
unfoldable pub batch_view : Db → Ident → Result BatchView
unfolding batch_attempts view_of
batch_view db batch_id = do
  batch ← require db.batch batch_id
  ok (view_of batch (map (λ (a : Attempt). a.outcome) (batch_attempts db batch_id)))

-- A saved answer to a request, `err` where the row has an `error`; nothing in the code saves one.
pub record Replay (A : Type 0) : Type 0 where
  pub body : Ident
  pub result : Result A

-- `Context.idempotent` with what is saved under the key
unfoldable pub answer :
    {S A : Type 0}
    → Ident
    → Ident
    → (S → Result (A × S))
    → Table (Replay A)
    → S
    → Option (Replay A)
    → Result (A × Table (Replay A) × S)
answer key body action saved s (some previous) = do
  raise_if (not (previous.body == body)) idempotency_key_reused
  result ← previous.result
  ok (result, saved, s)
answer key body action saved s none = do
  done ← action s
  saved' ← insert saved key (record { body = body; result = ok done.0 })
  ok (done.0, saved', done.1)

-- `Context.idempotent`: `key` is the digest of the user, the operation and the client's key, and
-- `body` that of the request. The action sees and changes the state `S`.
unfoldable pub idempotent :
    {S A : Type 0}
    → Ident
    → Ident
    → (S → Result (A × S))
    → Table (Replay A) × S
    → Result (A × Table (Replay A) × S)
unfolding answer
idempotent key body action (saved, s) = answer key body action saved s (get saved key)
