-- ===== src/Search/Cache/Examples.antt =====
-- A cache of backend/wiseway/search_cache.py with room for two small answers.
use wise_way.Prelude.{ℕ, ◌≡◌, refl, [], ◌∷◌, Ident, Text, inl, arith}
use wise_way.Common.{ok}
use wise_way.Search.Cache.{SearchCache, Limits, Codec, look_up, look_up_found, find, store, get}
use wise_way.Search.Cache.Bounds.{total}
use wise_way.Search.Cache.Threads.{Shared, Step, Reach, IsSafe, Reach-IsSafe}
use wise_way.Search.Cache.Answers.{AllKept, get_right}

abbrev limits : Limits
limits = record { max_bytes = 4; max_entries = 2; ttl = 30 }

abbrev empty : SearchCache
empty = record { values = []; bytes = 0 }

abbrev stripe : Ident → ℕ
stripe key = key

abbrev before : Shared
before = record { cache = empty; computing = [] }

abbrev asked : Shared
asked = record { cache = empty; computing = 7 ∷ [] }

abbrev after : Shared
after = record { cache = store limits 1 7 (9 ∷ []) empty; computing = [] }

missed : Step stripe limits before asked
unfolding look_up look_up_found find
missed = Step.miss 0 7 tt refl refl

answered : Step stripe limits asked after
answered = Step.answer 1 7 (9 ∷ []) (inl refl) refl

reached : Reach stripe limits before after
reached = Reach.next (Reach.next Reach.here missed) answered

before-IsSafe : IsSafe stripe limits before
unfolding total
before-IsSafe = record {
  bounded = record { counted = refl; bytes_fit = omega arith; entries_fit = omega arith };
  distinct = tt;
  absent = tt;
}

Reach-IsSafe_example : IsSafe stripe limits after
Reach-IsSafe_example = Reach-IsSafe stripe limits (omega arith) before-IsSafe reached

-- an answer is a text, and it carries no identifier
abbrev plain : Codec Text
plain = record { encode = λ t. t; decode = λ t. t; for_request = λ id t. t }

abbrev double : Ident → Text
double key = key ∷ key ∷ []

get_right_example :
    ((get plain limits 0 1 7 3 (ok (7 ∷ 7 ∷ [])) empty).0 ≡ ok (7 ∷ 7 ∷ []))
    × AllKept plain limits double (get plain limits 0 1 7 3 (ok (7 ∷ 7 ∷ [])) empty).1
get_right_example = get_right plain limits double 0 1 7 3 empty (λ a. refl) (λ i j a. refl) tt
