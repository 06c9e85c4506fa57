-- ===== src/Search/Cache/Bounds.antt =====
-- What the two critical sections of `SearchCache` (backend/wiseway/search_cache.py) keep: the count of
-- bytes is right, and both limits hold.
use wise_way.Prelude.{
  ℕ, ◌+◌, ◌-◌, ◌≡◌, ◌≤◌, ◌<◌, refl, Bool-cases, Option, none, some, inl, inr, List, [], ◌∷◌, ◌++◌,
  Text, Ident, ltb, leb, length, length-append, arith,
}
use wise_way.Search.Cache.{
  Entry, SearchCache, Limits, find, without, look_up_found, look_up, evict, append, store,
}
use wise_way.Search.Cache.Keys.{set_entry-absent, evict-absent}

-- the bytes of all payloads
unfoldable pub total : List Entry → ℕ
total [] = 0
total (e ∷ values) = length e.payload + total values

-- The count of bytes is the bytes of the payloads, and both limits hold.
pub record IsBounded (limits : Limits) (cache : SearchCache) : Type 0 where
  pub counted : cache.bytes ≡ total cache.values
  pub bytes_fit : cache.bytes ≤ limits.max_bytes
  pub entries_fit : length cache.values ≤ limits.max_entries

total-append : (xs ys : List Entry) → total (xs ++ ys) ≡ total xs + total ys
unfolding total
total-append [] ys = omega arith
total-append (x ∷ xs) ys = omega (arith, total-append xs ys)

without-total :
    (key : Ident) (values : List Entry) (e : Entry)
    → find key values ≡ some e
    → (total (without key values) + length e.payload ≡ total values)
      × (length (without key values) + 1 ≡ length values)
unfolding total without find
without-total key [] e h = cc
without-total key (x ∷ values) e h = ground (arith, without-total key values e)

look_up_found-IsBounded :
    (limits : Limits) (now : ℕ) (key : Ident) (cache : SearchCache) (found : Option Entry)
    → find key cache.values ≡ found
    → IsBounded limits cache
    → IsBounded limits (look_up_found now key cache found).1
unfolding look_up_found total
look_up_found-IsBounded limits now key cache none e b = b
look_up_found-IsBounded limits now key cache (some saved) e b =
    let (t, l) = without-total key cache.values saved e in
    let rest = without key cache.values in
    elim (Bool-cases (ltb now saved.deadline)) [
      | inl fresh ↦
          rw fresh
            (ground (arith, t, l, total-append rest (saved ∷ []), length-append rest (saved ∷ [])))
      | inr expired ↦ rw expired (ground (arith, t, l))
    ]

pub look_up-IsBounded :
    (limits : Limits) (now : ℕ) (key : Ident) (cache : SearchCache)
    → IsBounded limits cache
    → IsBounded limits (look_up now key cache).1
unfolding look_up
look_up-IsBounded limits now key cache b =
    look_up_found-IsBounded limits now key cache (find key cache.values) refl b

-- there is room for `size` more bytes and one more entry
pub record HasRoom (limits : Limits) (size : ℕ) (cache : SearchCache) : Type 0 where
  pub counted : cache.bytes ≡ total cache.values
  pub bytes_fit : cache.bytes + size ≤ limits.max_bytes
  pub entries_fit : length cache.values < limits.max_entries

evict-HasRoom :
    (limits : Limits) (size : ℕ) (values : List Entry) (bytes : ℕ)
    → size ≤ limits.max_bytes
    → 0 < limits.max_entries
    → bytes ≡ total values
    → HasRoom limits size (evict limits size values bytes)
unfolding evict total
evict-HasRoom limits size [] bytes s p e = ground arith
evict-HasRoom limits size (x ∷ values) bytes s p e =
    ground (arith, evict-HasRoom limits size values (bytes - length x.payload))

pub store-IsBounded :
    (limits : Limits) (now : ℕ) (key : Ident) (payload : Text) (cache : SearchCache)
    → 0 < limits.max_entries
    → find key cache.values ≡ none
    → IsBounded limits cache
    → IsBounded limits (store limits now key payload cache)
unfolding store append total
store-IsBounded limits now key payload cache p absent b =
    elim (Bool-cases (leb (length payload) limits.max_bytes)) [
      | inr large ↦ rw large b
      | inl fits ↦
          let left = evict limits (length payload) cache.values cache.bytes in
          let room =
            evict-HasRoom limits (length payload) cache.values cache.bytes (ground arith) p
              b.counted in
          let last : List Entry =
            (record { key = key; deadline = now + limits.ttl; payload = payload }) ∷ [] in
          let new =
            set_entry-absent (record { key = key; deadline = now + limits.ttl; payload = payload })
              left.values
              (evict-absent limits (length payload) key cache.values cache.bytes absent) in
          rw fits (
            ground
              (arith, new, room, total-append left.values last, length-append left.values last))
    ]
