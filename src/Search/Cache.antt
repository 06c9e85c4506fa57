-- ===== src/Search/Cache.antt =====
-- `SearchCache` of backend/wiseway/search_cache.py. A key is the digest of a request without its
-- identifier; the encoding of an answer, its decoding and the answer with a request's identifier are
-- parameters. The values of the ordered dictionary stand oldest first. `get` holds the lock of the
-- key's stripe throughout and the lock of the cache twice: `look_up` and `store` are its two
-- critical sections. Time is in seconds.
pub mod Keys
pub mod Bounds
pub mod Threads
pub mod Answers
mod Examples
use wise_way.Prelude.{
  ℕ, ◌+◌, ◌-◌, Bool, true, false, ◌&&◌, ◌||◌, Option, none, some, List, [], ◌∷◌, ◌++◌, Text, Ident,
  ◌==◌, if◌then◌else◌, ltb, leb, length,
}
use wise_way.Common.{Error, Result, ok, err}

pub record Entry : Type 0 where
  pub key : Ident
  pub deadline : ℕ
  pub payload : Text

pub record SearchCache : Type 0 where
  pub values : List Entry
  pub bytes : ℕ

pub record Limits : Type 0 where
  pub max_bytes : ℕ
  pub max_entries : ℕ
  pub ttl : ℕ

-- `self.values.get(key)`
unfoldable pub find : Ident → List Entry → Option Entry
find key [] = none
find key (e ∷ values) = if e.key == key then some e else find key values

-- `self.values` after `pop(key, None)`
unfoldable pub without : Ident → List Entry → List Entry
without key [] = []
without key (e ∷ values) =
    let rest = without key values in if e.key == key then values else e ∷ rest

-- what `pop` found: a fresh entry goes to the end again, since its key is not in the dictionary any
-- more, and an expired one is gone
unfoldable pub look_up_found : ℕ → Ident → SearchCache → Option Entry → Option Text × SearchCache
look_up_found now key cache none = (none, cache)
look_up_found now key cache (some saved) =
    let rest = without key cache.values in
    let bytes = cache.bytes - length saved.payload in
    if ltb now saved.deadline
    then (
      some saved.payload,
      record { values = rest ++ saved ∷ []; bytes = bytes + length saved.payload },
    )
    else (none, record { values = rest; bytes = bytes })

-- the first critical section of `get`
unfoldable pub look_up : ℕ → Ident → SearchCache → Option Text × SearchCache
look_up now key cache = look_up_found now key cache (find key cache.values)

-- the loop that makes room for `size` more bytes
unfoldable pub evict : Limits → ℕ → List Entry → ℕ → SearchCache
evict limits size [] bytes = record { values = []; bytes = bytes }
evict limits size (e ∷ values) bytes =
    let next = evict limits size values (bytes - length e.payload) in
    if ltb limits.max_bytes (bytes + size) || leb limits.max_entries (length (e ∷ values))
    then next
    else record { values = e ∷ values; bytes = bytes }

-- `self.values[key] = entry`: in the place of the key's entry, or at the end
unfoldable pub set_entry : Entry → List Entry → List Entry
set_entry entry [] = entry ∷ []
set_entry entry (e ∷ values) =
    let rest = set_entry entry values in if e.key == entry.key then entry ∷ values else e ∷ rest

-- the last two lines of the second critical section
unfoldable pub append : Limits → ℕ → Ident → Text → SearchCache → SearchCache
unfolding set_entry
append limits now key payload cache = record {
  values =
      set_entry (record { key = key; deadline = now + limits.ttl; payload = payload }) cache.values;
  bytes = cache.bytes + length payload;
}

-- the second critical section of `get`
unfoldable pub store : Limits → ℕ → Ident → Text → SearchCache → SearchCache
unfolding evict append
store limits now key payload cache =
    if leb (length payload) limits.max_bytes
    then append limits now key payload (evict limits (length payload) cache.values cache.bytes)
    else cache

-- How an answer is kept as bytes, and given to another request.
pub record Codec (A : Type 0) : Type 0 where
  pub encode : A → Text
  pub decode : Text → A
  pub for_request : Ident → A → A

module _ {A : Type 0} (codec : Codec A) (limits : Limits) where
  -- what `get` does with a computed answer
  unfoldable pub keep_answer : ℕ → Ident → SearchCache → Result A → Result A × SearchCache
  keep_answer now key cache (err e) = (err e, cache)
  keep_answer now key cache (ok answer) =
      (ok answer, store limits now key (codec.encode answer) cache)

  -- what `get` does once it has looked
  unfoldable pub answer_with :
      ℕ → Ident → Ident → Result A → Option Text × SearchCache → Result A × SearchCache
  unfolding keep_answer
  answer_with now key request_state_id computed (some payload, cache) =
      (ok (codec.for_request request_state_id (codec.decode payload)), cache)
  answer_with now key request_state_id computed (none, cache) = keep_answer now key cache computed

  -- `get`, with the moments of its two looks at the clock
  unfoldable pub get : ℕ → ℕ → Ident → Ident → Result A → SearchCache → Result A × SearchCache
  unfolding look_up answer_with
  get now later key request_state_id computed cache =
      if limits.max_bytes == 0
      then (computed, cache)
      else answer_with later key request_state_id computed (look_up now key cache)
