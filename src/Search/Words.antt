-- ===== src/Search/Words.antt =====
-- Words and natural keys of backend/wiseway/search.py: `_tokens`, `_natural_key` and `_extension`.
-- What Unicode knows of a code point, and `str.casefold`, are parameters. Python's `\s` is
-- `str.isspace`. Splitting at each separator is splitting at runs of them, since empty parts go.
use wise_way.Prelude.{
  ℕ, suc, ◌+◌, ◌*◌, Bool, true, false, not, ◌&&◌, ◌||◌, Option, none, some, List, [], ◌∷◌, map,
  Text, ◌==◌, if◌then◌else◌, ltb, text_eq, take, drop, keep,
}
use wise_way.Common.Texts.{is_space, is_empty, text_lt}
use wise_way.Paths.{on_first, starts_with}
use wise_way.Rules.Names.{rfind, dot, slash, backslash}

pub record Unicode : Type 0 where
  -- `\d`, and the value that `int` gives it
  pub is_digit : ℕ → Bool
  pub digit_value : ℕ → ℕ
  -- `\w`
  pub is_word : ℕ → Bool
  pub casefold : Text → Text

abbrev pub underscore : ℕ
underscore = b'_'

abbrev pub is_separator : ℕ → Bool
is_separator c =
    is_space c || c == b'-' || c == underscore || c == dot || c == backslash || c == slash

-- the pieces between the code points that pass a test, empty ones too
unfoldable pub split_at : (ℕ → Bool) → Text → List Text
split_at test [] = [] ∷ []
split_at test (c ∷ text) =
    let rest = split_at test text in if test c then [] ∷ rest else on_first c rest

-- `part for part in parts if part`
abbrev pub non_empty : List Text → List Text
non_empty parts = keep (λ part. not (is_empty part)) parts

module _ (unicode : Unicode) where
  -- `[^\W\d_]`
  abbrev pub is_letter : ℕ → Bool
  is_letter c = unicode.is_word c && not (unicode.is_digit c) && not (c == underscore)

  abbrev pub is_boundary : ℕ → ℕ → Bool
  is_boundary c d = (is_letter c && unicode.is_digit d) || (unicode.is_digit c && is_letter d)

  -- `_LETTER_DIGIT_BOUNDARY.sub(" ", text)`
  unfoldable pub separate : Text → Text
  separate [] = []
  separate (c ∷ []) = c ∷ []
  separate (c ∷ d ∷ text) =
      let rest = separate (d ∷ text) in if is_boundary c d then c ∷ 32 ∷ rest else c ∷ rest

  -- `_tokens`
  unfoldable pub tokens : Text → List Text
  unfolding separate split_at
  tokens text = map unicode.casefold (non_empty (split_at is_separator (separate text)))

  -- `_NATURAL_CHUNKS.split(value)` without its empty chunks: the runs of digits and of the rest
  abbrev pub on_run : Bool → ℕ → List (Bool × Text) → List (Bool × Text)
  on_run digit c [] = (digit, c ∷ []) ∷ []
  on_run true c ((true, run) ∷ runs) = (true, c ∷ run) ∷ runs
  on_run true c ((false, run) ∷ runs) = (true, c ∷ []) ∷ (false, run) ∷ runs
  on_run false c ((true, run) ∷ runs) = (false, c ∷ []) ∷ (true, run) ∷ runs
  on_run false c ((false, run) ∷ runs) = (false, c ∷ run) ∷ runs

  unfoldable pub natural_chunks : Text → List (Bool × Text)
  natural_chunks [] = []
  natural_chunks (c ∷ text) = on_run (unicode.is_digit c) c (natural_chunks text)

  -- `int(chunk)`, from the digits read so far
  unfoldable pub int_from : ℕ → Text → ℕ
  int_from n [] = n
  int_from n (c ∷ chunk) = int_from (10 * n + unicode.digit_value c) chunk

-- a part of a key: a number, which is less than any word, or a word
pub data Part : Type 0 where
  number : ℕ → Part
  word : Text → Part

abbrev pub part_lt : Part → Part → Bool
part_lt (number m) (number n) = ltb m n
part_lt (number m) (word t) = true
part_lt (word s) (number n) = false
part_lt (word s) (word t) = text_lt s t

abbrev pub part_eq : Part → Part → Bool
part_eq (number m) (number n) = m == n
part_eq (number m) (word t) = false
part_eq (word s) (number n) = false
part_eq (word s) (word t) = text_eq s t

unfoldable pub key_lt : List Part → List Part → Bool
key_lt [] [] = false
key_lt [] (q ∷ l) = true
key_lt (p ∷ k) [] = false
key_lt (p ∷ k) (q ∷ l) = part_lt p q || (part_eq p q && key_lt k l)

unfoldable pub key_eq : List Part → List Part → Bool
key_eq [] [] = true
key_eq [] (q ∷ l) = false
key_eq (p ∷ k) [] = false
key_eq (p ∷ k) (q ∷ l) = part_eq p q && key_eq k l

module _ (unicode : Unicode) where
  abbrev pub part_of : Bool × Text → Part
  part_of (true, run) = number (int_from unicode 0 run)
  part_of (false, run) = word (unicode.casefold run)

  -- `_natural_key`
  unfoldable pub natural_key : Text → List Part
  unfolding natural_chunks int_from
  natural_key value = map part_of (natural_chunks unicode value)

-- `filename.count(".")`
abbrev pub count_dots : Text → ℕ
count_dots [] = 0
count_dots (c ∷ text) = (if c == dot then 1 else 0) + count_dots text

-- `f".{suffix}" if dot and stem and suffix else ""`, with the place of the last dot
abbrev pub suffix_at : Text → Option ℕ → Text
suffix_at filename none = []
suffix_at filename (some i) =
    if is_empty (take i filename) || is_empty (drop (suc i) filename)
    then []
    else dot ∷ drop (suc i) filename

-- `_extension`
unfoldable pub file_extension : Text → Text
unfolding rfind
file_extension filename =
    if starts_with dot filename && count_dots filename == 1
    then []
    else suffix_at filename (rfind dot filename)
