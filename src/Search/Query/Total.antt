-- ===== src/Search/Query/Total.antt =====
-- The loop of `_parse_query` (backend/wiseway/search.py) ends.
use wise_way.Prelude.{
  ℕ, zero, suc, ◌≡◌, ◌≤◌, ◌<◌, refl, Bool, true, false, Bool-cases, Option, none, some, inl, inr,
  List, [], ◌∷◌, Text, length, arith, ◌==◌,
}
use wise_way.Common.{Result, ok, err, ◌>>=◌}
use wise_way.Common.Texts.{is_space}
use wise_way.Search.Words.{Unicode, tokens}
use wise_way.Search.Query.{
  Chunk, after_char, to_quote, after_letter, to_space, goes_on, chunk_of, take_chunk, quoted_part,
  read_part, add_chunk, scan, parse_query, quote, query_of,
}

-- what is left of a text is not longer than a bound
abbrev LeftOption : ℕ → Option (Text × Text) → Type 0
LeftOption n none = Unit
LeftOption n (some (content, rest)) = length rest ≤ n

abbrev LeftResult : ℕ → Result (Text × Text) → Type 0
LeftResult n (err e) = Unit
LeftResult n (ok (content, rest)) = length rest ≤ n

abbrev LeftChunk : ℕ → Result (Chunk × Text) → Type 0
LeftChunk n (err e) = Unit
LeftChunk n (ok (chunk, rest)) = length rest ≤ n

after_char-left :
    (c n : ℕ) (found : Option (Text × Text))
    → LeftOption n found
    → LeftOption (suc n) (after_char c found)
after_char-left c n none h = tt
after_char-left c n (some (content, rest)) h = omega arith

to_quote-left : (text : Text) → LeftOption (length text) (to_quote text)
unfolding to_quote
to_quote-left [] = tt
to_quote-left (c ∷ text) = elim (Bool-cases (c == quote)) [
  | inl e ↦ rw e (omega arith)
  | inr e ↦ rw e (after_char-left c (length text) (to_quote text) (to_quote-left text))
]

after_letter-left :
    (c n : ℕ) (found : Result (Text × Text))
    → LeftResult n found
    → LeftResult n (after_letter c found)
after_letter-left c n (err e) h = tt
after_letter-left c n (ok (content, rest)) h = h

LeftResult-suc :
    (n : ℕ) (found : Result (Text × Text)) → LeftResult n found → LeftResult (suc n) found
LeftResult-suc n (err e) h = tt
LeftResult-suc n (ok (content, rest)) h = omega arith

to_space-left : (text : Text) → LeftResult (length text) (to_space text)
unfolding to_space
to_space-left [] = omega arith
to_space-left (c ∷ text) = elim (Bool-cases (is_space c)) [
  | inl e ↦ rw e (omega arith)
  | inr e ↦ elim (Bool-cases (c == quote)) [
    | inl q ↦ rw (e, q) tt
    | inr q ↦
        rw (e, q)
          (LeftResult-suc (length text) (after_letter c (to_space text))
            (after_letter-left c (length text) (to_space text) (to_space-left text)))
  ]
]

-- a part that begins at a character takes at least that character
to_space-first :
    (c : ℕ) (text : Text) → is_space c ≡ false → LeftResult (length text) (to_space (c ∷ text))
unfolding to_space
to_space-first c text e = elim (Bool-cases (c == quote)) [
  | inl q ↦ rw (e, q) tt
  | inr q ↦ rw (e, q) (after_letter-left c (length text) (to_space text) (to_space-left text))
]

chunk_of-left :
    (n : ℕ) (quoted : Bool) (words : List Text) (rest : Text)
    → length rest ≤ n
    → LeftChunk n (chunk_of quoted words rest)
chunk_of-left n quoted [] rest h = tt
chunk_of-left n quoted (w ∷ words) rest h = h

module _ (unicode : Unicode) where
  quoted_part-left :
      (n : ℕ) (found : Option (Text × Text))
      → LeftOption n found
      → LeftChunk n (quoted_part unicode found)
  unfolding quoted_part take_chunk
  quoted_part-left n none h = tt
  quoted_part-left n (some (content, rest)) h = elim (Bool-cases (goes_on rest)) [
    | inl e ↦ rw e tt
    | inr e ↦ rw e (chunk_of-left n true (tokens unicode content) rest h)
  ]

  bare_part-left :
      (n : ℕ) (found : Result (Text × Text))
      → LeftResult n found
      → LeftChunk n (found >>= take_chunk unicode false)
  unfolding take_chunk
  bare_part-left n (err e) h = tt
  bare_part-left n (ok (content, rest)) h = chunk_of-left n false (tokens unicode content) rest h

  read_part-left :
      (c : ℕ) (text : Text)
      → is_space c ≡ false
      → LeftChunk (length text) (read_part unicode c text)
  unfolding read_part
  read_part-left c text e = elim (Bool-cases (c == quote)) [
    | inl q ↦ rw q (quoted_part-left (length text) (to_quote text) (to_quote-left text))
    | inr q ↦ rw q (bare_part-left (length text) (to_space (c ∷ text)) (to_space-first c text e))
  ]

  abbrev Answers : Option (Result (List Chunk)) → Type 0
  Answers found = (answer : Result (List Chunk)) × (found ≡ some answer)

  add_chunk-Answers :
      (chunk : Chunk) (found : Option (Result (List Chunk)))
      → Answers found
      → Answers (add_chunk unicode chunk found)
  add_chunk-Answers chunk none (a, e) = cc
  add_chunk-Answers chunk (some (err e)) h = (err e, refl)
  add_chunk-Answers chunk (some (ok chunks)) h = (ok (chunk ∷ chunks), refl)

  after_read :
      (fuel n : ℕ) (read : Result (Chunk × Text))
      → LeftChunk n read
      → n < fuel
      → ((rest : Text) → length rest < fuel → Answers (scan unicode fuel rest))
      → Answers (elim read [
        | err e ↦ some (err e)
        | ok (chunk, rest) ↦ add_chunk unicode chunk (scan unicode fuel rest)
      ])
  after_read fuel n (err e) l h scans = (err e, refl)
  after_read fuel n (ok (chunk, rest)) l h scans =
      add_chunk-Answers chunk (scan unicode fuel rest) (scans rest (omega arith))

  scan-Answers : (fuel : ℕ) (text : Text) → length text < fuel → Answers (scan unicode fuel text)
  unfolding scan
  scan-Answers zero text h = absurd (omega arith)
  scan-Answers (suc fuel) [] h = (ok [], refl)
  scan-Answers (suc fuel) (c ∷ text) h = elim (Bool-cases (is_space c)) [
    | inl e ↦ rw e (scan-Answers fuel text (omega arith))
    | inr e ↦ rw e (
        after_read fuel (length text) (read_part unicode c text) (read_part-left c text e)
          (omega arith) (λ (rest : Text) (l : length rest < fuel). scan-Answers fuel rest l))
  ]

  -- The loop of the parser ends: it needs at most one round more than the query has characters, so
  -- that the query is parsed by what the loop answers, and never by running out of rounds.
  pub parse_query_total :
      (value : Text)
      → (chunks : Result (List Chunk)) × (scan unicode (suc (length value)) value ≡ some chunks)
        × (parse_query unicode value ≡ (chunks >>= λ found. ok (query_of found)))
  unfolding parse_query
  parse_query_total value =
      let (chunks, e) = scan-Answers (suc (length value)) value (omega arith) in
      (chunks, e, rw e refl)
