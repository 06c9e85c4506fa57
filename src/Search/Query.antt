-- ===== src/Search/Query.antt =====
-- `_parse_query` of backend/wiseway/search.py: the parts of a query, words and quoted phrases. The
-- loop over an index is a loop over the text that is left, with fuel; the search for the end of a
-- part is by recursion on that text.
pub mod Total
pub mod Terms
mod Examples
use wise_way.Prelude.{
  ℕ, zero, suc, Bool, true, false, ◌&&◌, ◌||◌, not, Option, none, some, List, [], ◌∷◌, ◌++◌, Text,
  ◌==◌, if◌then◌else◌, text_eq, length, or_else,
}
use wise_way.Common.{Result, ok, err, api, ◌>>=◌, invalid_query, recursion_error}
use wise_way.Common.Texts.{is_space}
use wise_way.Search.Words.{Unicode, tokens}

abbrev pub quote : ℕ
quote = b'"'

-- A part of a query: whether it is quoted, and its words.
abbrev pub Chunk : Type 0
Chunk = Bool × List Text

abbrev pub after_char : ℕ → Option (Text × Text) → Option (Text × Text)
after_char c none = none
after_char c (some (content, rest)) = some (c ∷ content, rest)

-- `value.find('"', index + 1)`: the content before the quote and what follows it
unfoldable pub to_quote : Text → Option (Text × Text)
to_quote [] = none
to_quote (c ∷ text) =
    let rest = to_quote text in if c == quote then some ([], text) else after_char c rest

abbrev pub after_letter : ℕ → Result (Text × Text) → Result (Text × Text)
after_letter c (err e) = err e
after_letter c (ok (content, rest)) = ok (c ∷ content, rest)

-- the content up to a space or the end, with no quote in it
unfoldable pub to_space : Text → Result (Text × Text)
to_space [] = ok ([], [])
to_space (c ∷ text) =
    let rest = to_space text in
    if is_space c
    then ok ([], c ∷ text)
    else if c == quote
    then err (api invalid_query)
    else after_letter c rest

-- `index < len(value) and not value[index].isspace()`
abbrev pub goes_on : Text → Bool
goes_on [] = false
goes_on (c ∷ text) = not (is_space c)

abbrev pub chunk_of : Bool → List Text → Text → Result (Chunk × Text)
chunk_of quoted [] rest = err (api invalid_query)
chunk_of quoted (word ∷ words) rest = ok ((quoted, word ∷ words), rest)

module _ (unicode : Unicode) where
  -- a part whose content was found, and the text behind it
  unfoldable pub take_chunk : Bool → Text × Text → Result (Chunk × Text)
  take_chunk quoted (content, rest) = chunk_of quoted (tokens unicode content) rest

  unfoldable pub quoted_part : Option (Text × Text) → Result (Chunk × Text)
  unfolding take_chunk
  quoted_part none = err (api invalid_query)
  quoted_part (some (content, rest)) =
      if goes_on rest then err (api invalid_query) else take_chunk true (content, rest)

  -- the part that begins at a character which is no space
  unfoldable pub read_part : ℕ → Text → Result (Chunk × Text)
  unfolding quoted_part take_chunk to_quote
  read_part c text =
      if c == quote then quoted_part (to_quote text) else to_space (c ∷ text) >>= take_chunk false

  abbrev pub add_chunk : Chunk → Option (Result (List Chunk)) → Option (Result (List Chunk))
  add_chunk chunk none = none
  add_chunk chunk (some (err e)) = some (err e)
  add_chunk chunk (some (ok chunks)) = some (ok (chunk ∷ chunks))

  -- The `while` loop with fuel, `none` where it runs out.
  unfoldable pub scan : ℕ → Text → Option (Result (List Chunk))
  unfolding read_part
  scan zero text = none
  scan (suc fuel) [] = some (ok [])
  scan (suc fuel) (c ∷ text) =
      let blank = scan fuel text in
      let part : Option (Result (List Chunk)) = elim (read_part c text) [
        | err e ↦ some (err e)
        | ok (chunk, rest) ↦ add_chunk chunk (scan fuel rest)
      ] in
      if is_space c then blank else part

-- `if x not in target: target.append(x)`
abbrev pub texts_eq : List Text → List Text → Bool
texts_eq [] [] = true
texts_eq [] (t ∷ l) = false
texts_eq (s ∷ k) [] = false
texts_eq (s ∷ k) (t ∷ l) = text_eq s t && texts_eq k l

unfoldable pub has_term : Text → List Text → Bool
has_term term [] = false
has_term term (t ∷ terms) = text_eq t term || has_term term terms

unfoldable pub has_phrase : List Text → List (List Text) → Bool
has_phrase phrase [] = false
has_phrase phrase (p ∷ phrases) = texts_eq p phrase || has_phrase phrase phrases

abbrev pub add_term : List Text → Text → List Text
add_term terms term = if has_term term terms then terms else terms ++ term ∷ []

unfoldable pub add_terms : List Text → List Text → List Text
unfolding has_term
add_terms terms [] = terms
add_terms terms (term ∷ group) = add_terms (add_term terms term) group

abbrev pub add_phrase : List (List Text) → List Text → List (List Text)
add_phrase phrases group = if has_phrase group phrases then phrases else phrases ++ group ∷ []

-- the words and the phrases of the chunks, each once
unfoldable pub gather : List Text → List (List Text) → List Chunk → List Text × List (List Text)
unfolding add_terms has_phrase
gather terms phrases [] = (terms, phrases)
gather terms phrases ((true, group) ∷ chunks) = gather terms (add_phrase phrases group) chunks
gather terms phrases ((false, group) ∷ chunks) = gather (add_terms terms group) phrases chunks

-- `" ".join(group)`
abbrev pub join_words : List Text → Text
join_words [] = []
join_words (w ∷ []) = w
join_words (w ∷ v ∷ words) = w ++ 32 ∷ join_words (v ∷ words)

abbrev pub applied_chunk : Chunk → Text
applied_chunk (true, group) = quote ∷ join_words group ++ quote ∷ []
applied_chunk (false, group) = join_words group

abbrev pub applied : List Chunk → List Text
applied [] = []
applied (chunk ∷ chunks) = applied_chunk chunk ∷ applied chunks

-- `_Query`: a term is its one word
pub record Query : Type 0 where
  pub terms : List Text
  pub phrases : List (List Text)
  pub applied_text : Text

unfoldable pub query_of : List Chunk → Query
unfolding gather
query_of chunks =
    let found = gather [] [] chunks in
    record { terms = found.0; phrases = found.1; applied_text = join_words (applied chunks) }

-- `_parse_query`; the fuel is enough, see `Query.Total`
unfoldable pub parse_query : Unicode → Text → Result Query
unfolding scan query_of
parse_query unicode value =
    or_else (scan unicode (suc (length value)) value) (err recursion_error)
    >>= (λ chunks. ok (query_of chunks))
