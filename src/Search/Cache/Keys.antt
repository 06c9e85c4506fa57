-- ===== src/Search/Cache/Keys.antt =====
-- Which keys a `SearchCache` (backend/wiseway/search_cache.py) holds before and after its operations.
use wise_way.Prelude.{
  ℕ, ◌+◌, ◌-◌, ◌≡◌, ◌≢◌, refl, Bool-cases, Option, none, some, inl, inr, List, [], ◌∷◌, ◌++◌, Text,
  Ident, ltb, leb, length, arith,
}
use wise_way.Search.Cache.{
  Entry, SearchCache, Limits, find, without, look_up_found, look_up, set_entry, evict, append,
  store,
}

-- No key stands twice.
abbrev pub HasDistinctKeys : List Entry → Type 0
HasDistinctKeys [] = Unit
HasDistinctKeys (e ∷ values) = (find e.key values ≡ none) × HasDistinctKeys values

pub set_entry-absent :
    (entry : Entry) (values : List Entry)
    → find entry.key values ≡ none
    → set_entry entry values ≡ values ++ entry ∷ []
unfolding set_entry find
set_entry-absent entry [] h = refl
set_entry-absent entry (e ∷ values) h = ground (arith, set_entry-absent entry values)

pub evict-absent :
    (limits : Limits) (size : ℕ) (key : Ident) (values : List Entry) (bytes : ℕ)
    → find key values ≡ none
    → find key (evict limits size values bytes).values ≡ none
unfolding evict find
evict-absent limits size key [] bytes h = h
evict-absent limits size key (e ∷ values) bytes h =
    ground (arith, evict-absent limits size key values (bytes - length e.payload))

evict-HasDistinctKeys :
    (limits : Limits) (size : ℕ) (values : List Entry) (bytes : ℕ)
    → HasDistinctKeys values
    → HasDistinctKeys (evict limits size values bytes).values
unfolding evict
evict-HasDistinctKeys limits size [] bytes d = tt
evict-HasDistinctKeys limits size (e ∷ values) bytes d =
    ground (arith, d, evict-HasDistinctKeys limits size values (bytes - length e.payload))

-- one entry more at the end
find-append :
    (key : Ident) (values : List Entry) (entry : Entry)
    → find key values ≡ none
    → entry.key ≢ key
    → find key (values ++ entry ∷ []) ≡ none
unfolding find
find-append key [] entry h n = ground arith
find-append key (e ∷ values) entry h n = ground (arith, find-append key values entry)

append-HasDistinctKeys :
    (values : List Entry) (entry : Entry)
    → HasDistinctKeys values
    → find entry.key values ≡ none
    → HasDistinctKeys (values ++ entry ∷ [])
unfolding find
append-HasDistinctKeys [] entry d h = (refl, tt)
append-HasDistinctKeys (e ∷ values) entry d h =
    let differ : entry.key ≢ e.key = ground arith in
    (
      find-append e.key values entry d.0 differ,
      append-HasDistinctKeys values entry d.1 (ground arith),
    )

without-absent :
    (key k : Ident) (values : List Entry)
    → find k values ≡ none
    → find k (without key values) ≡ none
unfolding find without
without-absent key k [] h = h
without-absent key k (e ∷ values) h = ground (arith, without-absent key k values)

without_self :
    (key : Ident) (values : List Entry)
    → HasDistinctKeys values
    → find key (without key values) ≡ none
unfolding find without
without_self key [] d = refl
without_self key (e ∷ values) d = ground (arith, d, without_self key values d.1)

without-HasDistinctKeys :
    (key : Ident) (values : List Entry)
    → HasDistinctKeys values
    → HasDistinctKeys (without key values)
unfolding without
without-HasDistinctKeys key [] d = tt
without-HasDistinctKeys key (e ∷ values) d =
    ground (arith, d, without-HasDistinctKeys key values d.1, without-absent key e.key values d.0)

find-key : (key : Ident) (values : List Entry) (e : Entry) → find key values ≡ some e → e.key ≡ key
unfolding find
find-key key [] e h = cc
find-key key (x ∷ values) e h = ground (arith, find-key key values e)

-- the two critical sections
module _ (now : ℕ) (key : Ident) where
  look_up_found-HasDistinctKeys :
      (cache : SearchCache) (found : Option Entry)
      → find key cache.values ≡ found
      → HasDistinctKeys cache.values
      → HasDistinctKeys (look_up_found now key cache found).1.values
  unfolding look_up_found
  look_up_found-HasDistinctKeys cache none h d = d
  look_up_found-HasDistinctKeys cache (some e) h d =
      let rest = without-HasDistinctKeys key cache.values d in
      let gone : find e.key (without key cache.values) ≡ none =
        rw (find-key key cache.values e h) (without_self key cache.values d) in
      elim (Bool-cases (ltb now e.deadline)) [
        | inl fresh ↦ rw fresh (append-HasDistinctKeys (without key cache.values) e rest gone)
        | inr expired ↦ rw expired rest
      ]

  pub look_up-HasDistinctKeys :
      (cache : SearchCache)
      → HasDistinctKeys cache.values
      → HasDistinctKeys (look_up now key cache).1.values
  unfolding look_up
  look_up-HasDistinctKeys cache d =
      look_up_found-HasDistinctKeys cache (find key cache.values) refl d

  look_up_found-absent :
      (k : Ident) (cache : SearchCache) (found : Option Entry)
      → key ≢ k
      → find key cache.values ≡ found
      → find k cache.values ≡ none
      → find k (look_up_found now key cache found).1.values ≡ none
  unfolding look_up_found
  look_up_found-absent k cache none n h a = a
  look_up_found-absent k cache (some e) n h a =
      let rest = without-absent key k cache.values a in
      let differ : e.key ≢ k = rw (find-key key cache.values e h) n in
      elim (Bool-cases (ltb now e.deadline)) [
        | inl fresh ↦ rw fresh (find-append k (without key cache.values) e rest differ)
        | inr expired ↦ rw expired rest
      ]

  pub look_up-absent :
      (k : Ident) (cache : SearchCache)
      → key ≢ k
      → find k cache.values ≡ none
      → find k (look_up now key cache).1.values ≡ none
  unfolding look_up
  look_up-absent k cache n a = look_up_found-absent k cache (find key cache.values) n refl a

  look_up_found-miss :
      (cache : SearchCache) (found : Option Entry)
      → find key cache.values ≡ found
      → HasDistinctKeys cache.values
      → (look_up_found now key cache found).0 ≡ none
      → find key (look_up_found now key cache found).1.values ≡ none
  unfolding look_up_found
  look_up_found-miss cache none h d m = h
  look_up_found-miss cache (some e) h d m = elim (Bool-cases (ltb now e.deadline)) [
    | inl fresh ↦ ground (arith, fresh, m)
    | inr expired ↦ rw expired (without_self key cache.values d)
  ]

  -- After a look that found nothing the key has no entry.
  pub look_up-miss :
      (cache : SearchCache)
      → HasDistinctKeys cache.values
      → (look_up now key cache).0 ≡ none
      → find key (look_up now key cache).1.values ≡ none
  unfolding look_up
  look_up-miss cache d m = look_up_found-miss cache (find key cache.values) refl d m

module _ (limits : Limits) (now : ℕ) (key : Ident) (payload : Text) where
  entry : Entry
  entry = record { key = key; deadline = now + limits.ttl; payload = payload }

  pub store-HasDistinctKeys :
      (cache : SearchCache)
      → find key cache.values ≡ none
      → HasDistinctKeys cache.values
      → HasDistinctKeys (store limits now key payload cache).values
  unfolding store append entry
  store-HasDistinctKeys cache a d = elim (Bool-cases (leb (length payload) limits.max_bytes)) [
    | inr large ↦ rw large d
    | inl fits ↦
        let left = evict limits (length payload) cache.values cache.bytes in
        let gone = evict-absent limits (length payload) key cache.values cache.bytes a in
        let distinct = evict-HasDistinctKeys limits (length payload) cache.values cache.bytes d in
        rw (fits, set_entry-absent entry left.values gone)
          (append-HasDistinctKeys left.values entry distinct gone)
  ]

  pub store-absent :
      (k : Ident) (cache : SearchCache)
      → key ≢ k
      → find key cache.values ≡ none
      → find k cache.values ≡ none
      → find k (store limits now key payload cache).values ≡ none
  unfolding store append entry
  store-absent k cache n own a = elim (Bool-cases (leb (length payload) limits.max_bytes)) [
    | inr large ↦ rw large a
    | inl fits ↦
        let left = evict limits (length payload) cache.values cache.bytes in
        let gone = evict-absent limits (length payload) key cache.values cache.bytes own in
        let other = evict-absent limits (length payload) k cache.values cache.bytes a in
        rw (fits, set_entry-absent entry left.values gone) (find-append k left.values entry other n)
  ]
