-- ===== src/Search/Match/Meaning.antt =====
-- What `_matches_and_score` (backend/wiseway/search.py) finds and how it ranks, without its loops.
use wise_way.Prelude.{
  ℕ, ◌+◌, ◌*◌, ◌≡◌, ◌↔◌, ◌⊎◌, refl, sym, ap, ◌∙◌, true, Bool-cases, Option, none, some, inl, inr,
  List, [], ◌∷◌, ◌++◌, Text, length, take, drop, All, Member, arith, take-append-drop,
}
use wise_way.Common.Texts.{is_prefix}
use wise_way.Search.Words.{Unicode}
use wise_way.Search.Items.{SearchItem}
use wise_way.Search.Query.{Query, texts_eq}
use wise_way.Search.Query.Terms.{texts_eq→eq, texts_eq_refl}
use wise_way.Search.Match.{
  Stream, path_stream, field_streams, contains_phrase, weighed, stream_matches, term_matches,
  max_with, greatest, add_score, terms_score, phrase_weights, phrase_added, phrases_score,
  matches_and_score,
}

-- some word of some field begins with the term
abbrev pub Finds : Text → List Stream → Type 0
Finds term streams =
    (weight : ℕ) × (words : List Text) × (token : Text) × Member (weight, words) streams
    × Member token words
    × (is_prefix term token ≡ true)

-- the words of the phrase stand one after the other
abbrev pub Stands : List Text → List Text → Type 0
Stands phrase words =
    (before : List Text) × (after : List Text) × (words ≡ before ++ (phrase ++ after))

-- in some field, or in the path
abbrev pub StandsIn : List Text → List Stream → List Text → Type 0
StandsIn phrase streams path =
    ((weight : ℕ) × (words : List Text) × Member (weight, words) streams × Stands phrase words)
    ⊎ Stands phrase path

pub contains_phrase→Stands :
    (stream phrase : List Text) → contains_phrase stream phrase ≡ true → Stands phrase stream
unfolding contains_phrase
contains_phrase→Stands [] phrase h = let e = texts_eq→eq [] phrase h in ([], [], rw (← e) refl)
contains_phrase→Stands (w ∷ stream) phrase h =
    elim (Bool-cases (texts_eq (take (length phrase) (w ∷ stream)) phrase)) [
      | inl e ↦
          let p = texts_eq→eq (take (length phrase) (w ∷ stream)) phrase e in
          (
            [],
            drop (length phrase) (w ∷ stream),
            sym (take-append-drop (length phrase) (w ∷ stream))
                ∙ ap (λ (k : List Text). k ++ drop (length phrase) (w ∷ stream)) p,
          )
      | inr e ↦
          let (before, after, q) = contains_phrase→Stands stream phrase (rw e at h) in
          (w ∷ before, after, ap (λ (k : List Text). w ∷ k) q)
    ]

take-append : (k l : List Text) → take (length k) (k ++ l) ≡ k
take-append [] l = refl
take-append (x ∷ k) l = ap (λ (t : List Text). x ∷ t) (take-append k l)

contains_phrase-here : (phrase after : List Text) → contains_phrase (phrase ++ after) phrase ≡ true
unfolding contains_phrase
contains_phrase-here [] [] = refl
contains_phrase-here [] (a ∷ after) = refl
contains_phrase-here (w ∷ phrase) after =
    rw (take-append phrase after, texts_eq_refl (w ∷ phrase)) refl

contains_phrase-there :
    (before phrase after : List Text) → contains_phrase (before ++ (phrase ++ after)) phrase ≡ true
unfolding contains_phrase
contains_phrase-there [] phrase after = contains_phrase-here phrase after
contains_phrase-there (w ∷ before) phrase after =
    ground (arith, contains_phrase-there before phrase after)

Stands→contains_phrase :
    (stream phrase : List Text) → Stands phrase stream → contains_phrase stream phrase ≡ true
Stands→contains_phrase stream phrase (before, after, e) =
    rw e (contains_phrase-there before phrase after)

-- a value that is there
abbrev pub IsSome : Option ℕ → Type 0
IsSome found = (n : ℕ) × (found ≡ some n)

add_score-left : (a b : Option ℕ) → IsSome (add_score a b) → IsSome a × IsSome b
add_score-left none b (n, e) = cc
add_score-left (some m) none (n, e) = cc
add_score-left (some m) (some k) h = ((m, refl), (k, refl))

add_score-right : (a b : Option ℕ) → IsSome a → IsSome b → IsSome (add_score a b)
add_score-right none b (n, e) h = cc
add_score-right (some m) none h (n, e) = cc
add_score-right (some m) (some k) h g = (m + k, refl)

-- a number that a list holds
abbrev pub Holds : List ℕ → Type 0
Holds numbers = (n : ℕ) × Member n numbers

pub greatest-Holds : (numbers : List ℕ) → IsSome (greatest numbers) → Holds numbers
greatest-Holds [] (n, e) = cc
greatest-Holds (m ∷ numbers) h = (m, inl refl)

pub Holds-greatest : (numbers : List ℕ) → Holds numbers → IsSome (greatest numbers)
Holds-greatest [] (n, m) = elim m [ ]
Holds-greatest (k ∷ numbers) h = (max_with k (greatest numbers), refl)

pub Member-append : (n : ℕ) (k l : List ℕ) → Member n (k ++ l) → Member n k ⊎ Member n l
Member-append n [] l m = inr m
Member-append n (x ∷ k) l (inl e) = inl (inl e)
Member-append n (x ∷ k) l (inr m) = elim (Member-append n k l m) [
  | inl a ↦ inl (inr a)
  | inr b ↦ inr b
]

append-Member : (n : ℕ) (k l : List ℕ) → Member n k ⊎ Member n l → Member n (k ++ l)
append-Member n [] l (inl m) = elim m [ ]
append-Member n [] l (inr m) = m
append-Member n (x ∷ k) l (inl (inl e)) = inl e
append-Member n (x ∷ k) l (inl (inr m)) = inr (append-Member n k l (inl m))
append-Member n (x ∷ k) l (inr m) = inr (append-Member n k l (inr m))

-- one stream
stream_matches-Finds :
    (term : Text) (weight : ℕ) (words : List Text)
    → Holds (stream_matches term weight words)
    → (token : Text) × Member token words × (is_prefix term token ≡ true)
unfolding stream_matches
stream_matches-Finds term weight [] (n, m) = elim m [ ]
stream_matches-Finds term weight (t ∷ words) h = elim (Bool-cases (is_prefix term t)) [
  | inl e ↦ (t, inl refl, e)
  | inr e ↦
      let (token, m, p) = stream_matches-Finds term weight words (rw e at h) in (token, inr m, p)
]

Finds-stream_matches :
    (term : Text) (weight : ℕ) (words : List Text) (token : Text)
    → Member token words
    → is_prefix term token ≡ true
    → Member (weighed term weight token) (stream_matches term weight words)
unfolding stream_matches
Finds-stream_matches term weight [] token m p = elim m [ ]
Finds-stream_matches term weight (t ∷ words) token (inl e) p =
    let q : is_prefix term t ≡ true = ap (is_prefix term) e ∙ p in
    rw q (inl (ap (weighed term weight) e))
Finds-stream_matches term weight (t ∷ words) token (inr m) p =
    let rest = Finds-stream_matches term weight words token m p in
    elim (Bool-cases (is_prefix term t)) [ inl e ↦ rw e (inr rest) | inr e ↦ rw e rest ]

term_matches-Finds :
    (term : Text) (streams : List Stream) → Holds (term_matches term streams) → Finds term streams
unfolding term_matches
term_matches-Finds term [] (n, m) = elim m [ ]
term_matches-Finds term ((weight, words) ∷ streams) (n, m) =
    elim (Member-append n (stream_matches term weight words) (term_matches term streams) m) [
      | inl own ↦
          let (token, t, p) = stream_matches-Finds term weight words (n, own) in
          (weight, words, token, inl refl, t, p)
      | inr other ↦
          let (w, l, token, s, t, p) = term_matches-Finds term streams (n, other) in
          (w, l, token, inr s, t, p)
    ]

-- a word that begins with the term gives its weight to the list
pub Finds-term_matches :
    (term : Text) (streams : List Stream) (weight : ℕ) (words : List Text) (token : Text)
    → Member (weight, words) streams
    → Member token words
    → is_prefix term token ≡ true
    → Member (weighed term weight token) (term_matches term streams)
unfolding term_matches
Finds-term_matches term [] weight words token s t p = elim s [ ]
Finds-term_matches term ((w, l) ∷ streams) weight words token (inl e) t p =
    let a : w ≡ weight = ap (λ (x : Stream). x.0) e in
    let b : l ≡ words = ap (λ (x : Stream). x.1) e in
    append-Member (weighed term weight token) (stream_matches term w l) (term_matches term streams)
      (inl (rw (a, b) (Finds-stream_matches term weight words token t p)))
Finds-term_matches term ((w, l) ∷ streams) weight words token (inr s) t p =
    append-Member (weighed term weight token) (stream_matches term w l) (term_matches term streams)
      (inr (Finds-term_matches term streams weight words token s t p))

terms_score-Finds :
    (streams : List Stream) (terms : List Text)
    → IsSome (terms_score streams terms)
    → All (λ t. Finds t streams) terms
unfolding terms_score
terms_score-Finds streams [] h = tt
terms_score-Finds streams (term ∷ terms) h =
    let (a, b) =
      add_score-left (greatest (term_matches term streams)) (terms_score streams terms) h in
    (
      term_matches-Finds term streams (greatest-Holds (term_matches term streams) a),
      terms_score-Finds streams terms b,
    )

Finds-terms_score :
    (streams : List Stream) (terms : List Text)
    → All (λ t. Finds t streams) terms
    → IsSome (terms_score streams terms)
unfolding terms_score
Finds-terms_score streams [] a = (0, refl)
Finds-terms_score streams (term ∷ terms) ((w, l, token, s, t, p), a) =
    let found =
      Holds-greatest (term_matches term streams)
        (weighed term w token, Finds-term_matches term streams w l token s t p) in
    add_score-right (greatest (term_matches term streams)) (terms_score streams terms) found
      (Finds-terms_score streams terms a)

pub phrase_weights-Stands :
    (phrase : List Text) (streams : List Stream)
    → Holds (phrase_weights phrase streams)
    → (weight : ℕ) × (words : List Text) × Member (weight, words) streams × Stands phrase words
unfolding phrase_weights
phrase_weights-Stands phrase [] (n, m) = elim m [ ]
phrase_weights-Stands phrase ((w, l) ∷ streams) h = elim (Bool-cases (contains_phrase l phrase)) [
  | inl e ↦ (w, l, inl refl, contains_phrase→Stands l phrase e)
  | inr e ↦
      let (weight, words, m, s) = phrase_weights-Stands phrase streams (rw e at h) in
      (weight, words, inr m, s)
]

pub Stands-phrase_weights :
    (phrase : List Text) (streams : List Stream) (weight : ℕ) (words : List Text)
    → Member (weight, words) streams
    → Stands phrase words
    → Member weight (phrase_weights phrase streams)
unfolding phrase_weights
Stands-phrase_weights phrase [] weight words m s = elim m [ ]
Stands-phrase_weights phrase ((w, l) ∷ streams) weight words (inl e) s =
    let a : w ≡ weight = ap (λ (x : Stream). x.0) e in
    let b : l ≡ words = ap (λ (x : Stream). x.1) e in
    let c : contains_phrase l phrase ≡ true = rw b (Stands→contains_phrase words phrase s) in
    rw c (inl a)
Stands-phrase_weights phrase ((w, l) ∷ streams) weight words (inr m) s =
    let rest = Stands-phrase_weights phrase streams weight words m s in
    elim (Bool-cases (contains_phrase l phrase)) [ inl e ↦ rw e (inr rest) | inr e ↦ rw e rest ]

phrase_added-StandsIn :
    (phrase : List Text) (streams : List Stream) (path : List Text) (found : Option ℕ)
    → greatest (phrase_weights phrase streams) ≡ found
    → IsSome (phrase_added path phrase found)
    → StandsIn phrase streams path
phrase_added-StandsIn phrase streams path (some w) e h =
    inl
      (phrase_weights-Stands phrase streams (greatest-Holds (phrase_weights phrase streams) (w, e)))
phrase_added-StandsIn phrase streams path none e (n, h) =
    elim (Bool-cases (contains_phrase path phrase)) [
      | inl c ↦ inr (contains_phrase→Stands path phrase c)
      | inr c ↦ let bad = rw c at h in cc
    ]

path-phrase_added :
    (path phrase : List Text) (found : Option ℕ)
    → Stands phrase path
    → IsSome (phrase_added path phrase found)
path-phrase_added path phrase (some w) s = (2 * length phrase * w, refl)
path-phrase_added path phrase none s =
    (2 * length phrase * 1, rw (Stands→contains_phrase path phrase s) refl)

StandsIn-phrase_added :
    (phrase : List Text) (streams : List Stream) (path : List Text)
    → StandsIn phrase streams path
    → IsSome (phrase_added path phrase (greatest (phrase_weights phrase streams)))
StandsIn-phrase_added phrase streams path (inl (w, l, m, s)) =
    let (n, e) =
      Holds-greatest (phrase_weights phrase streams)
        (w, Stands-phrase_weights phrase streams w l m s) in
    rw e (2 * length phrase * n, refl)
StandsIn-phrase_added phrase streams path (inr s) =
    path-phrase_added path phrase (greatest (phrase_weights phrase streams)) s

phrases_score-StandsIn :
    (streams : List Stream) (path : List Text) (phrases : List (List Text))
    → IsSome (phrases_score streams path phrases)
    → All (λ p. StandsIn p streams path) phrases
unfolding phrases_score
phrases_score-StandsIn streams path [] h = tt
phrases_score-StandsIn streams path (p ∷ phrases) h =
    let (a, b) =
      add_score-left (phrase_added path p (greatest (phrase_weights p streams)))
        (phrases_score streams path phrases) h in
    (
      phrase_added-StandsIn p streams path (greatest (phrase_weights p streams)) refl a,
      phrases_score-StandsIn streams path phrases b,
    )

StandsIn-phrases_score :
    (streams : List Stream) (path : List Text) (phrases : List (List Text))
    → All (λ p. StandsIn p streams path) phrases
    → IsSome (phrases_score streams path phrases)
unfolding phrases_score
StandsIn-phrases_score streams path [] a = (0, refl)
StandsIn-phrases_score streams path (p ∷ phrases) (s, a) =
    add_score-right (phrase_added path p (greatest (phrase_weights p streams)))
      (phrases_score streams path phrases) (StandsIn-phrase_added p streams path s)
      (StandsIn-phrases_score streams path phrases a)

-- An item has a score exactly when each word of the query begins some word of a field of the item, and
-- each phrase stands, word after word, in a field or in the path.
pub matches_and_score_iff :
    (unicode : Unicode) (item : SearchItem) (query : Query)
    → ((score : ℕ) × (matches_and_score unicode item query ≡ some score)) ↔ (
        All (λ t. Finds t (field_streams unicode item)) query.terms
        × All
            (λ p. StandsIn p (field_streams unicode item) (path_stream unicode item))
            query.phrases)
unfolding matches_and_score
matches_and_score_iff unicode item query =
    let streams = field_streams unicode item in
    let path = path_stream unicode item in
    (
      λ h.
          let (a, b) =
            add_score-left (terms_score streams query.terms)
              (phrases_score streams path query.phrases) h in
          (
            terms_score-Finds streams query.terms a,
            phrases_score-StandsIn streams path query.phrases b,
          ),
      λ h.
          add_score-right (terms_score streams query.terms)
            (phrases_score streams path query.phrases) (Finds-terms_score streams query.terms h.0)
            (StandsIn-phrases_score streams path query.phrases h.1),
    )
