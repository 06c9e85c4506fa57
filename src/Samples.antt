-- ===== src/Samples.antt =====
-- Concrete rows of the backend and a disk on which every move succeeds, for tests of the components.
use wise_way.Prelude.{false, none, some, [], ◌∷◌, Text, Ident, codes}
use wise_way.Common.{ok, Location, worker}
use wise_way.Records.{ItemStatus, QueueItem, PredictedState, Row, OutcomeState, Phase, Attempt}
use wise_way.Database.{Db}
use wise_way.Host.{Host}
use wise_way.Exec.{Sys}

abbrev pub source : Location
source = record { root_id = 7; relative_path = codes "a"; display_path = codes "/a" }

abbrev pub file : QueueItem
file = record {
  item_id = 11;
  item_revision = 1;
  company_id = 3;
  filename = codes "a";
  source = source;
  status = ItemStatus.processing;
  selectable = false;
  active_attempt_id = some 21;
  reason_code = none;
  size_bytes = 10;
  modified_at = 20;
  fingerprint = record { dev = 1; ino = 2; size = 10; mtime_ns = 20000 };
  observed_at = 30;
  departed = false;
}

abbrev pub row : Row
row = record {
  item_id = 11;
  item_revision = 1;
  source = source;
  filename = codes "a";
  company_id = 3;
  predicted_state = PredictedState.will_move;
  reason_code = none;
  target = some source;
  matched_rules = [];
  selected_rule = none;
  collision = none;
  source_metadata = none;
}

abbrev pub an_attempt : Ident → Phase → Attempt
an_attempt id phase = record {
  attempt_id = id;
  batch_id = 31;
  company_id = 3;
  actor = record { user_id = 1; login = codes "w"; role = worker };
  request_id = 41;
  item = file;
  plan = row;
  outcome = record {
    attempt_id = id;
    item_id = 11;
    item_revision = 1;
    state = OutcomeState.pending;
    reason_code = none;
    source = source;
    planned_target = some source;
    actual_location = none;
    matched_rule = none;
    started_at = none;
    finished_at = none;
  };
  phase = phase;
  intent_target = none;
  intended_state = none;
  intended_reason = none;
}

abbrev pub db : Db
db = record {
  queue = (11, file) ∷ [];
  attempt = (21, an_attempt 21 Phase.queued) ∷ (22, an_attempt 22 Phase.done) ∷ [];
  claim = (11, record { attempt_id = 21; batch_id = 31 }) ∷ [];
  batch = [];
  selection = [];
  preview = [];
  quarantine = [];
  returns = [];
  return_key = [];
  company = (3, record { company_id = 3; folder = codes "c"; targets = [] }) ∷ [];
  root = [];
  dictionary = [];
  version = [];
  audit = [];
  outbox = [];
}

-- a disk on which nothing changes and every move succeeds
abbrev pub still : Host
still = record {
  World = Unit {0};
  clock = λ w. (5, w);
  stat = λ path w. (ok (some file.fingerprint), w);
  exists = λ path w. (ok false, w);
  rename_no_replace = λ source target expected w. (ok tt, w);
}

abbrev pub initial : Sys still
initial = record { db = db; world = tt; moves = [] }

abbrev pub text_of : Ident → Text
text_of id = id ∷ []
