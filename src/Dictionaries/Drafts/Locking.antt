-- ===== src/Dictionaries/Drafts/Locking.antt =====
-- The optimistic lock of a draft (backend/wiseway/dictionaries.py): a request names the draft's
-- revision that it expects. A replacement and a restoration raise the revision; a simulation and a
-- publication leave it.
use wise_way.Prelude.{
  ℕ, ◌+◌, ◌≡◌, refl, ap, ◌∙◌, Bool, false, none, some, List, [], Text, Ident, ◌==◌, not, arith,
}
use wise_way.Common.{Actor, Result, ok, err, api, ◌>>=◌, ◌>>◌, draft_version_conflict}
use wise_way.Common.Bind.{>>=-eq-ok, raise_if-eq-ok, ok-snd}
use wise_way.Common.Texts.{strip}
use wise_way.Records.{Dictionary, DraftRule, TargetDirectory}
use wise_way.Storage.{Table, get, put, require}
use wise_way.Storage.Laws.{get-put, require-eq-ok}
use wise_way.Database.{Db}
use wise_way.Dictionaries.{check_revision, unique_name, validate_rules}
use wise_way.Dictionaries.Drafts.{
  with_draft, replace_draft, restore_draft, publish, Simulation, Digests,
}

-- The row of the dictionary has a revision that is not the expected one.
abbrev pub Moved : Ident → ℕ → Db → Type 0
Moved dictionary_id expected db =
    (d : Dictionary) × (get db.dictionary dictionary_id ≡ some d)
    × ((d.draft.draft_revision == expected) ≡ false)

next_revision : (r e : ℕ) → not (r == e) ≡ false → (r + 1 == e) ≡ false
next_revision r e h = ground arith

get-put_same :
    (rows : Table Dictionary) (k j : Ident) (d : Dictionary) → k ≡ j → get (put rows k d) j ≡ some d
get-put_same rows k j d e = ground (arith, get-put rows k j d)

module _ (casefold : Text → Text) (targets : List TargetDirectory) (actor : Actor)
    (request_id dictionary_id : Ident) where
  replace_draft-Moved :
      (now expected : ℕ) (name description : Text) (rules : List DraftRule) (db : Db)
      {saved : Dictionary} {db' : Db}
      → ((d : Dictionary)
          → get db.dictionary dictionary_id ≡ some d
          → d.dictionary_id ≡ dictionary_id)
      → replace_draft casefold targets now actor request_id dictionary_id expected name description
          rules db
        ≡ ok (saved, db')
      → Moved dictionary_id expected db'
  unfolding replace_draft
  replace_draft-Moved now expected name description rules db named h =
      let (d, found, h1) = >>=-eq-ok (require db.dictionary dictionary_id) _ h in
      let (revision, h2) =
        raise_if-eq-ok (not (d.draft.draft_revision == expected)) draft_version_conflict _ h1 in
      let (_, _, h3) =
        >>=-eq-ok (unique_name casefold db d.company_id (strip name) (some d.dictionary_id)) _ h2 in
      let (_, _, e) = >>=-eq-ok (validate_rules targets [] rules) _ h3 in
      let same = named d (require-eq-ok db.dictionary dictionary_id found) in
      let rows = ap (λ (x : Db). x.dictionary) (ok-snd e) in
      let next = with_draft d (strip name) description rules none now actor in
      let here = get-put_same db.dictionary d.dictionary_id dictionary_id next same in
      (
        next,
        ap (λ t. get t dictionary_id) rows ∙ here,
        next_revision d.draft.draft_revision expected revision,
      )

  refused :
      (expected : ℕ) (db : Db) {A : Type 0} (rest : Dictionary → Result A)
      → Moved dictionary_id expected db
      → (require db.dictionary dictionary_id >>= λ d. check_revision d expected >> rest d)
        ≡ err (api draft_version_conflict)
  unfolding require
  refused expected db rest (d, found, stale) = rw (found, stale) refl

-- After a draft was replaced, a replacement, a restoration and a publication that expect the
-- revision from before it are refused, each with the conflict of versions, where the dictionary
-- stands under its own identifier.
pub replace_draft_locks :
    (casefold : Text → Text) (targets : List TargetDirectory) (actor other : Actor)
    (request_id dictionary_id version_id fresh simulation_id : Ident) (now later expected : ℕ)
    (name description name' description' : Text) (rules rules' : List DraftRule) (digests : Digests)
    (simulations : Table Simulation) (acknowledged : Bool) (db : Db) {saved : Dictionary} {db' : Db}
    → ((d : Dictionary)
        → get db.dictionary dictionary_id ≡ some d
        → d.dictionary_id ≡ dictionary_id)
    → replace_draft casefold targets now actor request_id dictionary_id expected name description
        rules db
      ≡ ok (saved, db')
    → (replace_draft casefold targets later other request_id dictionary_id expected name'
          description' rules' db'
        ≡ err (api draft_version_conflict))
      × (restore_draft casefold later other request_id dictionary_id expected version_id db'
          ≡ err (api draft_version_conflict))
      × (publish digests targets later later fresh other request_id dictionary_id expected
            simulation_id acknowledged name' simulations db'
          ≡ err (api draft_version_conflict))
unfolding replace_draft restore_draft publish
replace_draft_locks casefold targets actor other request_id dictionary_id version_id fresh
      simulation_id now later expected name description name' description' rules rules' digests
      simulations acknowledged db {db' = db'} named h =
    let moved =
      replace_draft-Moved casefold targets actor request_id dictionary_id now expected name
        description rules db named h in
    (
      refused casefold targets actor request_id dictionary_id expected db' _ moved,
      refused casefold targets actor request_id dictionary_id expected db' _ moved,
      refused casefold targets actor request_id dictionary_id expected db' _ moved,
    )
