-- ===== src/Search/Query/Terms.antt =====
-- The words and phrases that `_parse_query` (backend/wiseway/search.py) keeps.
use wise_way.Prelude.{
  ℕ, zero, suc, ◌≡◌, ◌≢◌, refl, Bool, true, false, Bool-cases, Option, none, some, inl, inr, List,
  [], ◌∷◌, ◌++◌, Text, length, arith, or_else, ◌==◌, text_eq, text_eq_iff, All, ◌||◌,
}
use wise_way.Common.{Result, ok, err, ◌>>=◌, recursion_error}
use wise_way.Common.Texts.{is_space}
use wise_way.Search.Words.{Unicode, tokens}
use wise_way.Search.Query.{
  Chunk, Query, chunk_of, take_chunk, quoted_part, to_quote, to_space, goes_on, read_part,
  add_chunk, scan, has_term, has_phrase, texts_eq, add_term, add_terms, add_phrase, gather,
  query_of, parse_query, quote,
}

pub texts_eq→eq : (k l : List Text) → texts_eq k l ≡ true → k ≡ l
texts_eq→eq [] [] h = refl
texts_eq→eq [] (t ∷ l) h = cc
texts_eq→eq (s ∷ k) [] h = cc
texts_eq→eq (s ∷ k) (t ∷ l) h = ground (arith, text_eq_iff s t, texts_eq→eq k l)

pub texts_eq_refl : (k : List Text) → texts_eq k k ≡ true
texts_eq_refl [] = refl
texts_eq_refl (s ∷ k) = ground (arith, text_eq_iff s s, texts_eq_refl k)

-- No word stands twice: none stands in what comes after it.
abbrev pub DistinctTerms : List Text → Type 0
DistinctTerms [] = Unit
DistinctTerms (t ∷ terms) = (has_term t terms ≡ false) × DistinctTerms terms

abbrev pub DistinctPhrases : List (List Text) → Type 0
DistinctPhrases [] = Unit
DistinctPhrases (p ∷ phrases) = (has_phrase p phrases ≡ false) × DistinctPhrases phrases

-- A query as the index relies on it.
pub record IsWellFormed (query : Query) : Type 0 where
  pub distinct_terms : DistinctTerms query.terms
  pub distinct_phrases : DistinctPhrases query.phrases
  pub no_empty_phrase : All (λ phrase. phrase ≢ []) query.phrases

has_term-append :
    (term added : Text) (terms : List Text)
    → has_term term (terms ++ added ∷ []) ≡ (has_term term terms || text_eq added term)
unfolding has_term
has_term-append term added [] = ground (arith)
has_term-append term added (t ∷ terms) = ground (arith, has_term-append term added terms)

text_eq_sym : (s t : Text) → text_eq s t ≡ true → text_eq t s ≡ true
text_eq_sym s t h = ground (arith, text_eq_iff s t, text_eq_iff t s)

DistinctTerms-append :
    (added : Text) (terms : List Text)
    → has_term added terms ≡ false
    → DistinctTerms terms
    → DistinctTerms (terms ++ added ∷ [])
unfolding has_term
DistinctTerms-append added [] h d = (refl, tt)
DistinctTerms-append added (t ∷ terms) h d = (
  ground (arith, has_term-append t added terms, text_eq_iff added t, text_eq_iff t added),
  DistinctTerms-append added terms (ground arith) d.1,
)

add_term-Distinct :
    (terms : List Text) (term : Text) → DistinctTerms terms → DistinctTerms (add_term terms term)
add_term-Distinct terms term d = elim (Bool-cases (has_term term terms)) [
  | inl e ↦ rw (e, add_term) d
  | inr e ↦ rw (e, add_term) (DistinctTerms-append term terms e d)
]

add_terms-Distinct :
    (terms group : List Text) → DistinctTerms terms → DistinctTerms (add_terms terms group)
unfolding add_terms
add_terms-Distinct terms [] d = d
add_terms-Distinct terms (t ∷ group) d =
    add_terms-Distinct (add_term terms t) group (add_term-Distinct terms t d)

has_phrase-append :
    (phrase added : List Text) (phrases : List (List Text))
    → has_phrase phrase (phrases ++ added ∷ [])
      ≡ (has_phrase phrase phrases || texts_eq added phrase)
unfolding has_phrase
has_phrase-append phrase added [] = ground arith
has_phrase-append phrase added (p ∷ phrases) =
    ground (arith, has_phrase-append phrase added phrases)

texts_eq_sym : (k l : List Text) → texts_eq k l ≡ true → texts_eq l k ≡ true
texts_eq_sym k l h = let e = texts_eq→eq k l h in rw e (texts_eq_refl l)

DistinctPhrases-append :
    (added : List Text) (phrases : List (List Text))
    → has_phrase added phrases ≡ false
    → DistinctPhrases phrases
    → DistinctPhrases (phrases ++ added ∷ [])
unfolding has_phrase
DistinctPhrases-append added [] h d = (refl, tt)
DistinctPhrases-append added (p ∷ phrases) h d = (
  ground (arith, has_phrase-append p added phrases, texts_eq_sym added p),
  DistinctPhrases-append added phrases (ground arith) d.1,
)

All-append_one :
    (phrases : List (List Text)) (added : List Text)
    → added ≢ []
    → All (λ p. p ≢ []) phrases
    → All (λ p. p ≢ []) (phrases ++ added ∷ [])
All-append_one [] added n a = (n, tt)
All-append_one (p ∷ phrases) added n a = (a.0, All-append_one phrases added n a.1)

add_phrase-Distinct :
    (phrases : List (List Text)) (group : List Text)
    → DistinctPhrases phrases
    → DistinctPhrases (add_phrase phrases group)
add_phrase-Distinct phrases group d = elim (Bool-cases (has_phrase group phrases)) [
  | inl e ↦ rw (e, add_phrase) d
  | inr e ↦ rw (e, add_phrase) (DistinctPhrases-append group phrases e d)
]

add_phrase-words :
    (phrases : List (List Text)) (group : List Text)
    → group ≢ []
    → All (λ p. p ≢ []) phrases
    → All (λ p. p ≢ []) (add_phrase phrases group)
add_phrase-words phrases group w n = elim (Bool-cases (has_phrase group phrases)) [
  | inl e ↦ rw (e, add_phrase) n
  | inr e ↦ rw (e, add_phrase) (All-append_one phrases group w n)
]

-- a chunk has a word
abbrev HasWord : Chunk → Type 0
HasWord chunk = chunk.1 ≢ []

gather_lem :
    (terms : List Text) (phrases : List (List Text)) (chunks : List Chunk)
    → DistinctTerms terms
    → DistinctPhrases phrases
    → All (λ p. p ≢ []) phrases
    → All HasWord chunks
    → DistinctTerms (gather terms phrases chunks).0
      × DistinctPhrases (gather terms phrases chunks).1
      × All (λ p. p ≢ []) (gather terms phrases chunks).1
unfolding gather
gather_lem terms phrases [] d e n w = (d, e, n)
gather_lem terms phrases ((false, group) ∷ chunks) d e n w =
    gather_lem (add_terms terms group) phrases chunks (add_terms-Distinct terms group d) e n w.1
gather_lem terms phrases ((true, group) ∷ chunks) d e n w =
    gather_lem terms (add_phrase phrases group) chunks d (add_phrase-Distinct phrases group e)
      (add_phrase-words phrases group w.0 n) w.1

chunk_of-HasWord :
    (quoted : Bool) (words : List Text) (rest : Text) {read : Chunk × Text}
    → chunk_of quoted words rest ≡ ok read
    → HasWord read.0
chunk_of-HasWord quoted [] rest h = cc
chunk_of-HasWord quoted (w ∷ words) rest {read} h =
    let e : read ≡ ((quoted, w ∷ words), rest) = cc in rw e (λ n. ground (arith, n))

module _ (unicode : Unicode) where
  quoted_part-HasWord :
      (found : Option (Text × Text)) {read : Chunk × Text}
      → quoted_part unicode found ≡ ok read
      → HasWord read.0
  unfolding quoted_part take_chunk
  quoted_part-HasWord none h = cc
  quoted_part-HasWord (some (content, rest)) h = elim (Bool-cases (goes_on rest)) [
    | inl e ↦ let bad = rw e at h in cc
    | inr e ↦ chunk_of-HasWord true (tokens unicode content) rest (rw e at h)
  ]

  bare_part-HasWord :
      (found : Result (Text × Text)) {read : Chunk × Text}
      → (found >>= take_chunk unicode false) ≡ ok read
      → HasWord read.0
  unfolding take_chunk
  bare_part-HasWord (err e) h = cc
  bare_part-HasWord (ok (content, rest)) h = chunk_of-HasWord false (tokens unicode content) rest h

  read_part-HasWord :
      (c : ℕ) (text : Text) {read : Chunk × Text}
      → read_part unicode c text ≡ ok read
      → HasWord read.0
  unfolding read_part
  read_part-HasWord c text h = elim (Bool-cases (c == quote)) [
    | inl q ↦ quoted_part-HasWord (to_quote text) (rw q at h)
    | inr q ↦ bare_part-HasWord (to_space (c ∷ text)) (rw q at h)
  ]

  -- what the loop answers, if it is chunks
  abbrev AllWords : Option (Result (List Chunk)) → Type 0
  AllWords none = Unit
  AllWords (some (err e)) = Unit
  AllWords (some (ok chunks)) = All HasWord chunks

  add_chunk-AllWords :
      (chunk : Chunk) (found : Option (Result (List Chunk)))
      → HasWord chunk
      → AllWords found
      → AllWords (add_chunk unicode chunk found)
  add_chunk-AllWords chunk none w a = tt
  add_chunk-AllWords chunk (some (err e)) w a = tt
  add_chunk-AllWords chunk (some (ok chunks)) w a = (w, a)

  after_read-AllWords :
      (fuel : ℕ) (read : Result (Chunk × Text))
      → ((r : Chunk × Text) → read ≡ ok r → HasWord r.0)
      → ((rest : Text) → AllWords (scan unicode fuel rest))
      → AllWords (elim read [
        | err e ↦ some (err e)
        | ok (chunk, rest) ↦ add_chunk unicode chunk (scan unicode fuel rest)
      ])
  after_read-AllWords fuel (err e) words scans = tt
  after_read-AllWords fuel (ok (chunk, rest)) words scans =
      add_chunk-AllWords chunk (scan unicode fuel rest) (words (chunk, rest) refl) (scans rest)

  scan-AllWords : (fuel : ℕ) (text : Text) → AllWords (scan unicode fuel text)
  unfolding scan
  scan-AllWords zero text = tt
  scan-AllWords (suc fuel) [] = tt
  scan-AllWords (suc fuel) (c ∷ text) = elim (Bool-cases (is_space c)) [
    | inl e ↦ rw e (scan-AllWords fuel text)
    | inr e ↦ rw e (
        after_read-AllWords fuel (read_part unicode c text)
          (λ (r : Chunk × Text) (h : read_part unicode c text ≡ ok r). read_part-HasWord c text h)
          (λ (rest : Text). scan-AllWords fuel rest))
  ]

  query_of-IsWellFormed :
      (chunks : List Chunk) → All HasWord chunks → IsWellFormed (query_of chunks)
  unfolding query_of
  query_of-IsWellFormed chunks w =
      let (d, e, n) = gather_lem [] [] chunks tt tt tt w in
      record { distinct_terms = d; distinct_phrases = e; no_empty_phrase = n }

  from_chunks :
      (found : Option (Result (List Chunk))) {query : Query}
      → AllWords found
      → (or_else found (err recursion_error) >>= λ chunks. ok (query_of chunks)) ≡ ok query
      → IsWellFormed query
  from_chunks none a h = cc
  from_chunks (some (err e)) a h = cc
  from_chunks (some (ok chunks)) {query} a h =
      let e : query_of chunks ≡ query = cc in rw (← e) (query_of-IsWellFormed chunks a)

  -- A query that is parsed has each word once and each phrase once, and no phrase without a word.
  pub parse_query-IsWellFormed :
      (value : Text) {query : Query} → parse_query unicode value ≡ ok query → IsWellFormed query
  unfolding parse_query
  parse_query-IsWellFormed value h =
      from_chunks (scan unicode (suc (length value)) value)
        (scan-AllWords (suc (length value)) value) h
