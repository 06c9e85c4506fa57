-- ===== src/Search/Cache/Answers.antt =====
-- What `SearchCache.get` (backend/wiseway/search_cache.py) answers.
use wise_way.Prelude.{
  ℕ, ◌+◌, ◌-◌, ◌≡◌, refl, sym, ap, ◌∙◌, Bool-cases, Option, none, some, inl, inr, List, [], ◌∷◌,
  ◌++◌, Text, Ident, ◌==◌, ltb, leb, ◌||◌, length, All, arith,
}
use wise_way.Common.{ok}
use wise_way.Search.Cache.{
  Entry, SearchCache, Limits, Codec, find, without, look_up_found, look_up, set_entry, evict,
  append, store, keep_answer, answer_with, get,
}

module _ {A : Type 0} (codec : Codec A) (limits : Limits) (answer : Ident → A) where
  -- The payload of an entry is the answer to its key, as it was given to some request.
  abbrev pub IsKept : Entry → Type 0
  IsKept e = (id : Ident) × (e.payload ≡ codec.encode (codec.for_request id (answer e.key)))

  abbrev pub AllKept : SearchCache → Type 0
  AllKept cache = All IsKept cache.values

  find-IsKept :
      (key : Ident) (values : List Entry) (e : Entry)
      → All IsKept values
      → find key values ≡ some e
      → IsKept e × (e.key ≡ key)
  unfolding find
  find-IsKept key [] e a h = cc
  find-IsKept key (x ∷ values) e a h = elim (Bool-cases (x.key == key)) [
    | inl own ↦
        let same : x ≡ e = ground (arith, own, h) in
        let k : x.key ≡ key = ground (arith, own) in
        (rw (← same) a.0, ap (λ (y : Entry). y.key) (sym same) ∙ k)
    | inr other ↦ find-IsKept key values e a.1 (rw other at h)
  ]

  All-append_one :
      (values : List Entry) (e : Entry)
      → All IsKept values
      → IsKept e
      → All IsKept (values ++ e ∷ [])
  All-append_one [] e a k = (k, tt)
  All-append_one (x ∷ values) e a k = (a.0, All-append_one values e a.1 k)

  All-without :
      (key : Ident) (values : List Entry) → All IsKept values → All IsKept (without key values)
  unfolding without
  All-without key [] a = tt
  All-without key (x ∷ values) a = elim (Bool-cases (x.key == key)) [
    | inl own ↦ rw own a.1
    | inr other ↦ rw other (a.0, All-without key values a.1)
  ]

  All-set_entry :
      (e : Entry) (values : List Entry)
      → All IsKept values
      → IsKept e
      → All IsKept (set_entry e values)
  unfolding set_entry
  All-set_entry e [] a k = (k, tt)
  All-set_entry e (x ∷ values) a k = elim (Bool-cases (x.key == e.key)) [
    | inl own ↦ rw own (k, a.1)
    | inr other ↦ rw other (a.0, All-set_entry e values a.1 k)
  ]

  All-evict :
      (size : ℕ) (values : List Entry) (bytes : ℕ)
      → All IsKept values
      → AllKept (evict limits size values bytes)
  unfolding evict
  All-evict size [] bytes a = tt
  All-evict size (x ∷ values) bytes a =
      elim (Bool-cases
        (ltb limits.max_bytes (bytes + size) || leb limits.max_entries (length (x ∷ values)))) [
          | inl full ↦ rw full (All-evict size values (bytes - length x.payload) a.1)
          | inr fits ↦ rw fits a
        ]

  AllKept-store :
      (now : ℕ) (key id : Ident) (cache : SearchCache)
      → AllKept cache
      → AllKept (store limits now key (codec.encode (codec.for_request id (answer key))) cache)
  unfolding store append
  AllKept-store now key id cache a =
      let payload = codec.encode (codec.for_request id (answer key)) in
      let entry : Entry = record { key = key; deadline = now + limits.ttl; payload = payload } in
      elim (Bool-cases (leb (length payload) limits.max_bytes)) [
        | inr large ↦ rw large a
        | inl fits ↦ rw fits (
            All-set_entry entry _ (All-evict (length payload) cache.values cache.bytes a)
              (id, refl))
      ]

  -- what a look finds is the answer to the key
  LooksRight : Ident → Option Text → Type 0
  LooksRight key none = Unit
  LooksRight key (some payload) =
      (id : Ident) × (payload ≡ codec.encode (codec.for_request id (answer key)))

  look_up_found-Kept :
      (now : ℕ) (key : Ident) (cache : SearchCache) (found : Option Entry)
      → find key cache.values ≡ found
      → AllKept cache
      → AllKept (look_up_found now key cache found).1
        × LooksRight key (look_up_found now key cache found).0
  unfolding look_up_found LooksRight
  look_up_found-Kept now key cache none h a = (a, tt)
  look_up_found-Kept now key cache (some e) h a =
      let (k, own) = find-IsKept key cache.values e a h in
      let rest = All-without key cache.values a in
      elim (Bool-cases (ltb now e.deadline)) [
        | inl fresh ↦
            rw fresh (All-append_one (without key cache.values) e rest k, (k.0, rw (← own) k.1))
        | inr expired ↦ rw expired (rest, tt)
      ]

  -- the part of `get` after the look
  answer_with-right :
      (now : ℕ) (key id : Ident) (looked : Option Text × SearchCache)
      → ((a : A) → codec.decode (codec.encode a) ≡ a)
      → ((i j : Ident) (a : A)
          → codec.for_request i (codec.for_request j a) ≡ codec.for_request i a)
      → LooksRight key looked.0
      → AllKept looked.1
      → ((answer_with codec limits now key id (ok (codec.for_request id (answer key))) looked).0
          ≡ ok (codec.for_request id (answer key)))
        × AllKept
            (answer_with codec limits now key id (ok (codec.for_request id (answer key))) looked).1
  unfolding answer_with keep_answer LooksRight
  answer_with-right now key id (none, cache) decodes again right a =
      (refl, AllKept-store now key id cache a)
  answer_with-right now key id (some payload, cache) decodes again (j, e) a =
      (rw (e, decodes (codec.for_request j (answer key)), again id j (answer key)) refl, a)

  -- A request is answered with the answer to its key and with its own identifier, from the cache or
  -- not, and the cache goes on to hold nothing but such answers. It is asked that decoding undoes
  -- encoding, that the last identifier given to an answer counts, and that the computation gives the
  -- answer to the key.
  pub get_right :
      (now later : ℕ) (key id : Ident) (cache : SearchCache)
      → ((a : A) → codec.decode (codec.encode a) ≡ a)
      → ((i j : Ident) (a : A)
          → codec.for_request i (codec.for_request j a) ≡ codec.for_request i a)
      → AllKept cache
      → ((get codec limits now later key id (ok (codec.for_request id (answer key))) cache).0
          ≡ ok (codec.for_request id (answer key)))
        × AllKept
            (get codec limits now later key id (ok (codec.for_request id (answer key))) cache).1
  unfolding get look_up
  get_right now later key id cache decodes again a = elim (Bool-cases (limits.max_bytes == 0)) [
    | inl off ↦ rw off (refl, a)
    | inr on ↦
        let (kept, right) = look_up_found-Kept now key cache (find key cache.values) refl a in
        rw on (answer_with-right later key id (look_up now key cache) decodes again right kept)
  ]
