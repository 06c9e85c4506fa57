-- ===== src/Dictionaries/Examples.antt =====
-- Two requests on a concrete draft (backend/wiseway/dictionaries.py).
use wise_way.Prelude.{◌≡◌, refl, none, some, [], ◌∷◌, codes, Text, true, arith}
use wise_way.Common.{Actor, Result, ok, err, api, draft_version_conflict}
use wise_way.Common.Texts.{strip}
use wise_way.Records.{Dictionary, Phase}
use wise_way.Storage.{get, require, list}
use wise_way.Database.{Db}
use wise_way.Samples.{an_attempt, db}
use wise_way.Dictionaries.Drafts.{replace_draft, restore_draft, publish, Digests}
use wise_way.Dictionaries.Drafts.Locking.{replace_draft_locks}

abbrev user : Actor
user = (an_attempt 21 Phase.done).actor

abbrev dictionary : Dictionary
dictionary = record {
  dictionary_id = 61;
  company_id = 3;
  name = codes "n";
  description = [];
  draft = record { draft_revision = 4; rules = []; based_on_version_id = none };
  active_version_id = none;
  versions_count = 0;
  updated_at = 1;
  updated_by = user;
}

abbrev start : Db
start = record db { dictionary = (61, dictionary) ∷ [] }

abbrev fold : Text → Text
fold text = text

abbrev first : Result (Dictionary × Db)
first = replace_draft fold [] 7 user 41 61 4 (codes "m") [] [] start

abbrev saved : Dictionary
saved = elim first [ ok p ↦ p.0 | err e ↦ dictionary ]

abbrev next : Db
next = elim first [ ok p ↦ p.1 | err e ↦ start ]

first-saved : first ≡ ok (saved, next)
unfolding replace_draft strip require get list
first-saved = refl

own_name : (d : Dictionary) → get start.dictionary 61 ≡ some d → d.dictionary_id ≡ 61
unfolding get
own_name d h = ground arith

abbrev digests : Digests
digests = record { of_rules = λ rules. 0; of_ready = λ items. 0 }

replace_draft_locks_example :
    (replace_draft fold [] 8 user 41 61 4 (codes "o") [] [] next ≡ err (api draft_version_conflict))
    × (restore_draft fold 8 user 41 61 4 62 next ≡ err (api draft_version_conflict))
    × (publish digests [] 8 8 63 user 41 61 4 64 true (codes "o") [] next
        ≡ err (api draft_version_conflict))
replace_draft_locks_example =
    replace_draft_locks fold [] user user 41 61 62 63 64 7 8 4 (codes "m") [] (codes "o") [] [] []
      digests [] true start own_name first-saved
