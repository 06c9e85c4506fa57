-- ===== src/Quarantine/Examples.antt =====
-- The return of a file of backend/wiseway/quarantine.py on concrete rows.
use wise_way.Prelude.{refl, ◌≡◌, true, false, none, some, [], ◌∷◌, codes}
use wise_way.Common.{ok, Location, Actor, worker, Fingerprint}
use wise_way.Records.{ItemStatus, QueueItem, QuarantineItem, ReturnBody, IndexStorage}
use wise_way.Storage.{get}
use wise_way.Database.{Db}
use wise_way.Host.{Host}
use wise_way.Exec.{Sys}
use wise_way.Quarantine.{return_item, reconcile}
use wise_way.Quarantine.Moves.{AtMostOne, return_item_moves, return_item_still, reconcile_still}

abbrev original : Location
original = record { root_id = 7; relative_path = codes "a"; display_path = codes "/a" }

abbrev kept_at : Location
kept_at = record { root_id = 1; relative_path = codes "q"; display_path = codes "/q" }

abbrev identity : Fingerprint
identity = record { dev = 1; ino = 2; size = 10; mtime_ns = 20000 }

abbrev card : QuarantineItem
card = record {
  quarantine_id = 21;
  revision = 1;
  item_id = 11;
  company_id = 3;
  filename = codes "a";
  location = kept_at;
  original_location = original;
  quarantined_at = 4;
  source_attempt_id = 21;
  recovery_operation_id = none;
  can_return = true;
  fingerprint = some identity;
  returned = false;
}

abbrev file : QueueItem
file = record {
  item_id = 11;
  item_revision = 1;
  company_id = 3;
  filename = codes "a";
  source = original;
  status = ItemStatus.missing;
  selectable = false;
  active_attempt_id = none;
  reason_code = none;
  size_bytes = 10;
  modified_at = 20;
  fingerprint = identity;
  observed_at = 30;
  departed = true;
}

abbrev db : Db
db = record {
  queue = (11, file) ∷ [];
  attempt = [];
  claim = [];
  batch = [];
  selection = [];
  preview = [];
  quarantine = (21, card) ∷ [];
  returns = [];
  return_key = [];
  company = [];
  root =
      (
        1,
        record {
          root_id = 1;
          display_prefix = codes "/";
          base = codes "b";
          index_storage = IndexStorage.json;
        },
      )
      ∷ (
        7,
        record {
          root_id = 7;
          display_prefix = codes "/";
          base = codes "c";
          index_storage = IndexStorage.json;
        },
      )
      ∷ [];
  dictionary = [];
  version = [];
  audit = [];
  outbox = [];
}

-- a disk on which the original place is free and every move succeeds
abbrev disk : Host
disk = record {
  World = Unit {0};
  clock = λ w. (5, w);
  stat = λ path w. (ok (some identity), w);
  exists = λ path w. (ok false, w);
  rename_no_replace = λ source target expected w. (ok tt, w);
}

abbrev state : Sys disk
state = record { db = db; world = tt; moves = [] }

abbrev operator : Actor
operator = record { user_id = 1; login = codes "w"; role = worker }

abbrev request : ReturnBody
request = record { expected_revision = 1; comment = codes "back" }

return_item_moves_example : AtMostOne [] (return_item 51 61 71 operator 21 request 81 state).1.moves
return_item_moves_example = return_item_moves disk 51 61 71 operator 21 request 81 state

-- the same rows with the key of the request
abbrev known : Sys disk
known = record state {
  db = record db { return_key = (51, record { hash = 61; operation_id = 71 }) ∷ [] };
}

is-known : get known.db.return_key 51 ≡ some (record { hash = 61; operation_id = 71 })
unfolding get
is-known = refl

return_item_still_example : (return_item 51 61 71 operator 21 request 81 known).1.moves ≡ []
return_item_still_example =
    return_item_still disk 51 61 71 operator 21 request 81 known
      (record { hash = 61; operation_id = 71 }) is-known

reconcile_still_example : (reconcile state).1.moves ≡ []
reconcile_still_example = reconcile_still disk state
