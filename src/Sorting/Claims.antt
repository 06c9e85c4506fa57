-- ===== src/Sorting/Claims.antt =====
-- The claims of files under acceptance (backend/wiseway/sorting.py): one batch never takes the file
-- that another holds.
use wise_way.Prelude.{
  ◌≡◌, ap, sym, ◌∙◌, some, List, [], ◌∷◌, Ident, arith, Bool-cases, inl, inr, is_some,
}
use wise_way.Common.{ok}
use wise_way.Common.Bind.{>>=-eq-ok}
use wise_way.Records.{QueueItem, Row, Claim}
use wise_way.Storage.{Table, get, insert, require}
use wise_way.Storage.Laws.{get-put, insert-eq-ok}
use wise_way.Database.{Db}
use wise_way.Sorting.Accept.{Accepting, attempt_of, occupied_rows, claim_tx, accept_one, accept_all}

insert_keeps :
    (rows : Table Claim) (key k : Ident) (value c : Claim) {rows' : Table Claim}
    → insert rows key value ≡ ok rows'
    → get rows k ≡ some c
    → get rows' k ≡ some c
insert_keeps rows key k value c h g =
    let (free, e) = insert-eq-ok rows key value h in
    ground (arith, free, e, g, get-put rows key k value)

ok-inj : {A : Type 0} {a b : A} → ok a ≡ ok b → a ≡ b
ok-inj h = cc h

claim_tx_keeps :
    (b : Accepting) (attempt_id : Ident) (saved : QueueItem) (db : Db) (k : Ident) (c : Claim)
    {db' : Db}
    → claim_tx b attempt_id saved db ≡ ok db'
    → get db.claim k ≡ some c
    → get db'.claim k ≡ some c
unfolding claim_tx
claim_tx_keeps b attempt_id saved db k c {db' = db'} h g =
    let own : Claim = record { attempt_id = attempt_id; batch_id = b.batch_id } in
    let (claims, i, h1) = >>=-eq-ok (insert db.claim saved.item_id own) _ h in
    let (item, _, e) = >>=-eq-ok (require db.queue saved.item_id) _ h1 in
    ap (λ (d : Db). get d.claim k) (sym (ok-inj e))
    ∙ insert_keeps db.claim saved.item_id k own c i g

accept_one_keeps :
    (b : Accepting) (attempt_id : Ident) (saved : QueueItem) (row : Row) (db : Db) (k : Ident)
    (c : Claim) {db' : Db}
    → accept_one b attempt_id saved row db ≡ ok db'
    → get db.claim k ≡ some c
    → get db'.claim k ≡ some c
unfolding accept_one occupied_rows
accept_one_keeps b attempt_id saved row db k c h g =
    let attempt = attempt_of b attempt_id saved row (is_some (get db.claim saved.item_id)) in
    let (attempts, _, h1) = >>=-eq-ok (insert db.attempt attempt_id attempt) _ h in
    elim (Bool-cases (is_some (get db.claim saved.item_id))) [
      | inl held ↦ ap (λ (d : Db). get d.claim k) (sym (ok-inj (rw held at h1))) ∙ g
      | inr free ↦
          claim_tx_keeps b attempt_id saved (record db { attempt = attempts }) k c (rw free at h1) g
    ]

-- A claim that stands when the loop of an acceptance begins stands unchanged when it has ended.
pub accept_all_keeps :
    (b : Accepting) (fresh : List Ident) (items : List QueueItem) (rows : List Row) (db : Db)
    (k : Ident) (c : Claim) {db' : Db}
    → accept_all b fresh items rows db ≡ ok db'
    → get db.claim k ≡ some c
    → get db'.claim k ≡ some c
unfolding accept_all
accept_all_keeps b [] items rows db k c h g = ap (λ (d : Db). get d.claim k) (sym (ok-inj h)) ∙ g
accept_all_keeps b (a ∷ fresh) [] rows db k c h g =
    ap (λ (d : Db). get d.claim k) (sym (ok-inj h)) ∙ g
accept_all_keeps b (a ∷ fresh) (saved ∷ items) [] db k c h g =
    ap (λ (d : Db). get d.claim k) (sym (ok-inj h)) ∙ g
accept_all_keeps b (a ∷ fresh) (saved ∷ items) (row ∷ rows) db k c h g =
    let (db1, one, rest) = >>=-eq-ok (accept_one b a saved row db) _ h in
    accept_all_keeps b fresh items rows db1 k c rest (accept_one_keeps b a saved row db k c one g)
