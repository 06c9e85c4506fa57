-- ===== src/Search/Query/Examples.antt =====
-- Queries as backend/wiseway/search.py reads them, in ASCII.
use wise_way.Prelude.{suc, List, some, ◌≡◌, refl, [], ◌∷◌, Text, codes, length}
use wise_way.Common.{Result, ok, err, api, invalid_query, ◌>>=◌}
use wise_way.Search.Words.{tokens, natural_key, number, word, file_extension}
use wise_way.Search.Samples.{ascii}
use wise_way.Search.Query.{Chunk, Query, scan, to_space, parse_query, query_of}
use wise_way.Search.Query.Total.{parse_query_total}
use wise_way.Search.Query.Terms.{IsWellFormed, parse_query-IsWellFormed}

words : tokens ascii (codes "map2_v.txt") ≡ codes "map" ∷ codes "2" ∷ codes "v" ∷ codes "txt" ∷ []
unfolding tokens
words = refl

key : natural_key ascii (codes "a10b") ≡ word (codes "a") ∷ number 10 ∷ word (codes "b") ∷ []
unfolding natural_key
key = refl

dotfile : file_extension (codes ".env") ≡ []
unfolding file_extension
dotfile = refl

suffix : file_extension (codes "a.tar.gz") ≡ codes ".gz"
unfolding file_extension
suffix = refl

abbrev asked : Text
asked = codes " ab \"c d\" ab"

abbrev answered : Query
answered = record {
  terms = codes "ab" ∷ [];
  phrases = (codes "c" ∷ codes "d" ∷ []) ∷ [];
  applied_text = codes "ab \"c d\" ab";
}

parsed : parse_query ascii asked ≡ ok answered
unfolding parse_query to_space tokens
parsed = refl

open_quote : parse_query ascii (codes "a \"b") ≡ err (api invalid_query)
unfolding parse_query to_space tokens
open_quote = refl

parse_query-IsWellFormed_example : IsWellFormed answered
parse_query-IsWellFormed_example = parse_query-IsWellFormed ascii asked parsed

parse_query_total_example :
    (chunks : Result (List Chunk)) × (scan ascii (suc (length asked)) asked ≡ some chunks)
    × (parse_query ascii asked ≡ (chunks >>= λ found. ok (query_of found)))
parse_query_total_example = parse_query_total ascii asked
