-- ===== src/Search/Cache/Threads.antt =====
-- Several threads in `SearchCache.get` (backend/wiseway/search_cache.py) at once. A thread holds the
-- lock of its key's stripe while it computes an answer, so the keys that are being computed lie in
-- different stripes. `Step` is one critical section of one thread, in any order that the locks allow.
use wise_way.Prelude.{
  ℕ, ◌≡◌, ◌≢◌, ◌<◌, sym, ap, not, none, some, List, [], ◌∷◌, Text, Ident, ◌==◌, keep, All, Member,
  inl, inr, arith, Bool-cases,
}
use wise_way.Search.Cache.{Entry, SearchCache, Limits, find, look_up, store}
use wise_way.Search.Cache.Keys.{
  HasDistinctKeys, look_up-HasDistinctKeys, look_up-absent, look_up-miss, store-HasDistinctKeys,
  store-absent,
}
use wise_way.Search.Cache.Bounds.{IsBounded, look_up-IsBounded, store-IsBounded}

-- the cache, and the keys whose answers are being computed
pub record Shared : Type 0 where
  pub cache : SearchCache
  pub computing : List Ident

abbrev pub released : Ident → List Ident → List Ident
released key computing = keep (λ k. not (k == key)) computing

module _ (stripe : Ident → ℕ) (limits : Limits) where
  -- the lock of a key's stripe is free
  abbrev pub IsFree : Ident → List Ident → Type 0
  IsFree key computing = All (λ k. stripe k ≢ stripe key) computing

  -- One critical section: a hit, a miss that begins to compute, the storing of an answer, and a
  -- computation that raised.
  pub data Step (s t : Shared) : Type 0 where
    hit :
        (now : ℕ) (key : Ident) (payload : Text)
        → IsFree key s.computing
        → (look_up now key s.cache).0 ≡ some payload
        → t ≡ record s { cache = (look_up now key s.cache).1 }
        → Step s t
    miss :
        (now : ℕ) (key : Ident)
        → IsFree key s.computing
        → (look_up now key s.cache).0 ≡ none
        → t ≡ record { cache = (look_up now key s.cache).1; computing = key ∷ s.computing }
        → Step s t
    answer :
        (now : ℕ) (key : Ident) (payload : Text)
        → Member key s.computing
        → t ≡ record {
          cache = store limits now key payload s.cache;
          computing = released key s.computing;
        }
        → Step s t
    fail :
        (key : Ident)
        → Member key s.computing
        → t ≡ record s { computing = released key s.computing }
        → Step s t

  pub data Reach (s : Shared) : Shared → Type 0 where
    here : Reach s s
    next : {t u : Shared} → Reach s t → Step t u → Reach s u

  -- The cache is bounded, and no key that is being computed has an entry.
  pub record IsSafe (s : Shared) : Type 0 where
    pub bounded : IsBounded limits s.cache
    pub distinct : HasDistinctKeys s.cache.values
    pub absent : All (λ k. find k s.cache.values ≡ none) s.computing

  absent-Member :
      (values : List Entry) (key : Ident) (computing : List Ident)
      → All (λ k. find k values ≡ none) computing
      → Member key computing
      → find key values ≡ none
  absent-Member values key [] a m = elim m [ ]
  absent-Member values key (k ∷ computing) a (inl e) = rw (← e) a.0
  absent-Member values key (k ∷ computing) a (inr m) = absent-Member values key computing a.1 m

  absent_looked :
      (now : ℕ) (key : Ident) (cache : SearchCache) (computing : List Ident)
      → IsFree key computing
      → All (λ k. find k cache.values ≡ none) computing
      → All (λ k. find k (look_up now key cache).1.values ≡ none) computing
  absent_looked now key cache [] f a = tt
  absent_looked now key cache (k ∷ computing) f a = (
    look_up-absent now key k cache (λ e. f.0 (ap stripe (sym e))) a.0,
    absent_looked now key cache computing f.1 a.1,
  )

  absent_stored :
      (now : ℕ) (key : Ident) (payload : Text) (cache : SearchCache) (computing : List Ident)
      → find key cache.values ≡ none
      → All (λ k. find k cache.values ≡ none) computing
      → All
          (λ k. find k (store limits now key payload cache).values ≡ none)
          (released key computing)
  absent_stored now key payload cache [] own a = tt
  absent_stored now key payload cache (k ∷ computing) own a =
      let rest = absent_stored now key payload cache computing own a.1 in
      elim (Bool-cases (k == key)) [
        | inl same ↦ rw (same, keep) rest
        | inr other ↦
            rw (other, keep)
              (
                store-absent limits now key payload k cache (λ e. ground (arith, e, other)) own a.0,
                rest,
              )
      ]

  absent_released :
      (key : Ident) (values : List Entry) (computing : List Ident)
      → All (λ k. find k values ≡ none) computing
      → All (λ k. find k values ≡ none) (released key computing)
  absent_released key values [] a = tt
  absent_released key values (k ∷ computing) a =
      let rest = absent_released key values computing a.1 in
      elim (Bool-cases (k == key)) [
        | inl same ↦ rw (same, keep) rest
        | inr other ↦ rw (other, keep) (a.0, rest)
      ]

  Step-IsSafe : {s t : Shared} → 0 < limits.max_entries → Step s t → IsSafe s → IsSafe t
  Step-IsSafe {s = s} p (hit now key payload free found e) h = rw e (record {
    bounded = look_up-IsBounded limits now key s.cache h.bounded;
    distinct = look_up-HasDistinctKeys now key s.cache h.distinct;
    absent = absent_looked now key s.cache s.computing free h.absent;
  })
  Step-IsSafe {s = s} p (miss now key free found e) h = rw e (record {
    bounded = look_up-IsBounded limits now key s.cache h.bounded;
    distinct = look_up-HasDistinctKeys now key s.cache h.distinct;
    absent = (
      look_up-miss now key s.cache h.distinct found,
      absent_looked now key s.cache s.computing free h.absent,
    );
  })
  Step-IsSafe {s = s} p (answer now key payload m e) h =
      let own = absent-Member s.cache.values key s.computing h.absent m in
      rw e (record {
        bounded = store-IsBounded limits now key payload s.cache p own h.bounded;
        distinct = store-HasDistinctKeys limits now key payload s.cache own h.distinct;
        absent = absent_stored now key payload s.cache s.computing own h.absent;
      })
  Step-IsSafe {s = s} p (fail key m e) h = rw e (record {
    bounded = h.bounded;
    distinct = h.distinct;
    absent = absent_released key s.cache.values s.computing h.absent;
  })

  -- In every state that threads reach together from a safe one, the cache counts its bytes rightly
  -- and keeps both limits, no key stands in it twice, and none that is being computed stands in it.
  -- The limit on the entries is not 0.
  pub Reach-IsSafe : {s t : Shared} → 0 < limits.max_entries → IsSafe s → Reach s t → IsSafe t
  Reach-IsSafe p h here = h
  Reach-IsSafe p h (next r step) = Step-IsSafe p step (Reach-IsSafe p h r)
