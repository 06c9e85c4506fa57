-- ===== src/Services/Examples.antt =====
-- The view of a batch (backend/wiseway/services.py) on concrete outcomes.
use wise_way.Prelude.{ℕ, ◌+◌, ◌≡◌, refl, none, some, [], ◌∷◌, All}
use wise_way.Records.{OutcomeState, Outcome, Batch, Phase}
use wise_way.Samples.{an_attempt}
use wise_way.Services.{view_of, completed}
use wise_way.Common.{Result, ok, err, api, idempotency_key_reused}
use wise_way.Services.{Replay, idempotent}
use wise_way.Storage.{Table, get, put, insert}
use wise_way.Services.Replays.{idempotent_replays}
use wise_way.Services.Batches.{completed-All}

abbrev outcome : Outcome
outcome = record (an_attempt 21 Phase.done).outcome {
  state = OutcomeState.sorted;
  finished_at = some 9;
}

abbrev batch : Batch
batch = record {
  batch_id = 31;
  company_id = 3;
  actor = (an_attempt 21 Phase.done).actor;
  selection_id = 51;
  preview_id = none;
  rule_set = record { company_id = 3; members = [] };
  created_at = 8;
  selected_count = 1;
}

is-completed : (view_of batch (outcome ∷ [])).status ≡ completed
unfolding view_of
is-completed = refl

completed-All_example : All (λ (o : Outcome). o.state ≡ OutcomeState.sorted) (outcome ∷ [])
completed-All_example = completed-All batch (outcome ∷ []) refl is-completed

abbrev next_number : ℕ → Result (ℕ × ℕ)
next_number s = ok (s, s + 1)

abbrev answered : Table (Replay ℕ)
answered = (7, record { body = 8; result = ok 3 }) ∷ []

is-answered : idempotent 7 8 next_number ([], 3) ≡ ok (3, answered, 4)
unfolding idempotent get insert put
is-answered = refl

idempotent_replays_example :
    (idempotent 7 8 next_number (answered, 4) ≡ ok (3, answered, 4))
    × (idempotent 7 9 next_number (answered, 4) ≡ err (api idempotency_key_reused))
idempotent_replays_example = idempotent_replays 7 8 9 next_number next_number [] 3 is-answered refl
