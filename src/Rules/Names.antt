-- ===== src/Rules/Names.antt =====
-- The functions on names and paths of backend/wiseway/rules.py: `extension`, `match_rule`,
-- `_normalise_match_path`, `_join` and `_target_tuple`. `str.casefold` is a parameter.
use wise_way.Prelude.{
  ℕ, suc, ◌+◌, Bool, false, ◌&&◌, ◌||◌, Option, none, some, [], ◌∷◌, ◌++◌, Text, Ident, ◌==◌,
  if◌then◌else◌, length, drop,
}
use wise_way.Records.{MatchField, TargetDirectory, Rule}
use wise_way.Rules.Glob.{star, match_glob}

abbrev pub slash : ℕ
slash = b'/'

abbrev pub backslash : ℕ
backslash = 92

abbrev pub dot : ℕ
dot = b'.'

-- `text.rfind(c)`, `none` for -1
unfoldable pub rfind : ℕ → Text → Option ℕ
rfind c [] = none
rfind c (x ∷ text) = elim (rfind c text) [
  | some i ↦ some (suc i)
  | none ↦ if x == c then some 0 else none
]

unfoldable pub extension : Text → Text
unfolding rfind
extension filename = elim (rfind dot filename) [
  | none ↦ []
  | some last_dot ↦
      if last_dot == 0 || last_dot + 1 == length filename then [] else drop last_dot filename
]

-- `text.replace(from, to)` for one character
unfoldable pub replace : ℕ → ℕ → Text → Text
replace from to [] = []
replace from to (x ∷ text) = (if x == from then to else x) ∷ replace from to text

unfoldable pub normalise_match_path : Text → Text
unfolding replace
normalise_match_path value = replace slash backslash value

-- `text.rsplit("/", 1)[-1]`: what follows the last slash
unfoldable pub basename : Text → Text
unfolding rfind
basename text = elim (rfind slash text) [ none ↦ text | some i ↦ drop (suc i) text ]

-- `"**" in mask`
unfoldable pub has_double_star : Text → Bool
has_double_star [] = false
has_double_star (x ∷ []) = false
has_double_star (x ∷ y ∷ mask) = (x == star && y == star) || has_double_star (y ∷ mask)

-- the text that a mask is held against, and the mask, by the rule's field
abbrev pub match_value : MatchField → Text → Text
match_value MatchField.basename relative_path = basename (replace backslash slash relative_path)
match_value MatchField.relative_path relative_path = normalise_match_path relative_path

abbrev pub match_mask : MatchField → Text → Text
match_mask MatchField.basename mask = mask
match_mask MatchField.relative_path mask = normalise_match_path mask

unfoldable pub match_rule : (Text → Text) → Rule → Text → Bool
match_rule casefold rule relative_path =
    if has_double_star rule.mask
    then false
    else match_glob (casefold (match_mask rule.match_field rule.mask))
        (casefold (match_value rule.match_field relative_path))

-- `directory.rstrip("/")`
unfoldable pub rstrip_slashes : Text → Text
rstrip_slashes [] = []
rstrip_slashes (x ∷ text) = elim (rstrip_slashes text) [
  | [] ↦ if x == slash then [] else x ∷ []
  | y ∷ rest ↦ x ∷ y ∷ rest
]

unfoldable pub join : Text → Text → Text
unfolding rstrip_slashes
join [] filename = filename
join (x ∷ directory) filename = rstrip_slashes (x ∷ directory) ++ slash ∷ filename

abbrev pub Key : Type 0
Key = Ident × Text

unfoldable pub target_tuple : TargetDirectory → Text → Text → Key
target_tuple target target_stem filename =
    (target.root_id, join target.relative_directory (target_stem ++ extension filename))
