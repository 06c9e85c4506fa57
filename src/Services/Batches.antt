-- ===== src/Services/Batches.antt =====
-- What the state of a batch (`Context.batch` of backend/wiseway/services.py) says of its outcomes.
use wise_way.Prelude.{◌≡◌, ◌≤◌, List, [], ◌∷◌, length, arith, All}
use wise_way.Records.{OutcomeState, Outcome, Batch}
use wise_way.Services.{count_outcomes, completed, batch_status, view_of}

sorted-le : (outcomes : List Outcome) → (count_outcomes outcomes).sorted ≤ length outcomes
unfolding count_outcomes
sorted-le [] = omega arith
sorted-le (outcome ∷ outcomes) = ground (arith, sorted-le outcomes)

All-sorted :
    (outcomes : List Outcome)
    → (count_outcomes outcomes).sorted ≡ length outcomes
    → All (λ (o : Outcome). o.state ≡ OutcomeState.sorted) outcomes
unfolding count_outcomes
All-sorted [] h = tt
All-sorted (outcome ∷ outcomes) h =
    (ground (arith, sorted-le outcomes), All-sorted outcomes (ground (arith, sorted-le outcomes)))

-- A batch that is shown as completed, where it selected as many files as it has outcomes, has sorted
-- every one of them.
pub completed-All :
    (batch : Batch) (outcomes : List Outcome)
    → batch.selected_count ≡ length outcomes
    → (view_of batch outcomes).status ≡ completed
    → All (λ (o : Outcome). o.state ≡ OutcomeState.sorted) outcomes
unfolding view_of batch_status
completed-All batch outcomes n h = All-sorted outcomes (ground (arith, n, h))
