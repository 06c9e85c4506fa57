-- ===== src/Pages/Examples.antt =====
-- A list of three items in pages of two, with digests that are small numbers.
use wise_way.Prelude.{ℕ, ◌+◌, ◌≡◌, refl, none, some, List, [], ◌∷◌, ◌++◌, length, arith}
use wise_way.Common.{ok}
use wise_way.Pages.Journal.{audit_metadata, reserve_audit_snapshot, reserve_audit_snapshot-IsWithin}
use wise_way.Pages.{
  AuditSnapshot, Payload, PageDb, Digests, Page, Asked, cursor_of, snapshot_of, page,
  delete_expired_pages, owned_count, owned_bytes,
}
use wise_way.Storage.{get, put}
use wise_way.Pages.Follow.{collect, page_collects}
use wise_way.Pages.Quota.{IsWithin, page-IsWithin}

abbrev digests : Digests ℕ
digests = record {
  snapshot_key = λ scope owner query field payload. 100 + field;
  legacy_key = λ cursor. 200 + cursor;
  cursor_key = λ scope owner query id offset expires. 300 + offset;
  audit_key = λ owner query cutoff expires. 400;
  audit_cursor_key = λ owner query id at event. 500;
  snapshot_bytes = λ payload. length payload.items;
  audit_bytes = λ id owner query cutoff newest expires. 1;
}

abbrev asked : Asked
asked = record { scope = 1; user_id = 2; signature = 3; field = 4; limit = 2 }

abbrev listed : Payload ℕ
listed = record { fields = 5; items = 11 ∷ 12 ∷ 13 ∷ [] }

abbrev changed : Payload ℕ
changed = record { fields = 5; items = 14 ∷ [] }

abbrev empty : PageDb ℕ
empty = record { cursor = []; page_snapshot = []; audit_cursor = []; audit_snapshot = [] }

abbrev first : Page ℕ
first = record { fields = 5; items = 11 ∷ 12 ∷ []; next_cursor = some 302 }

abbrev saved : PageDb ℕ
saved = record {
  cursor = (302, cursor_of digests asked 104 2 86409) ∷ [];
  page_snapshot = (104, snapshot_of digests asked 104 listed 86409) ∷ [];
  audit_cursor = [];
  audit_snapshot = [];
}

given : page digests asked 9 listed none empty ≡ ok (first, saved)
unfolding page get put
given = refl

followed : collect digests asked ((10, changed) ∷ []) (some 302) saved ≡ some (13 ∷ [])
unfolding collect page get
followed = refl

page_collects_example :
    (rest : List ℕ) × (collect digests asked
        ((10, changed) ∷ (11, changed) ∷ (12, changed) ∷ [])
        first.next_cursor
        saved
      ≡ some rest)
    × (first.items ++ rest ≡ listed.items)
unfolding get delete_expired_pages
page_collects_example =
    page_collects digests asked listed 9 empty saved first
      ((10, changed) ∷ (11, changed) ∷ (12, changed) ∷ []) (omega arith) tt given (omega arith)
      (omega arith)

empty-IsWithin : IsWithin {A = ℕ} 2 empty
unfolding owned_count owned_bytes
empty-IsWithin = record { count_fits = omega arith; bytes_fit = omega arith }

page-IsWithin_example : IsWithin 2 saved
page-IsWithin_example =
    page-IsWithin 2 digests asked 9 listed none empty saved first given empty-IsWithin

abbrev reader : AuditSnapshot
reader = audit_metadata digests 2 3 9 7 1

abbrev reserved : PageDb ℕ
reserved = record {
  cursor = [];
  page_snapshot = [];
  audit_cursor = [];
  audit_snapshot = (400, reader) ∷ [];
}

is_reserved : reserve_audit_snapshot digests 2 3 9 7 1 empty ≡ ok (reader, reserved)
unfolding reserve_audit_snapshot put
is_reserved = refl

reserve_audit_snapshot-IsWithin_example : IsWithin 2 reserved
reserve_audit_snapshot-IsWithin_example =
    reserve_audit_snapshot-IsWithin digests 2 3 2 9 7 1 empty is_reserved empty-IsWithin
