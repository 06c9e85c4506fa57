-- ===== src/Paths.antt =====
-- `Context.location` and `Context.physical` of backend/wiseway/services.py. `str(PurePosixPath(p))`
-- is `p` for a path that has passed the tests here: it has no empty part and no `.`.
use wise_way.Prelude.{
  ℕ, Bool, true, false, ◌||◌, List, [], ◌∷◌, ◌++◌, Text, Ident, ◌==◌, if◌then◌else◌, text_eq,
}
use wise_way.Common.{
  Result, ok, ◌>>=◌, ◌>>◌, raise_if, or_raise, invalid_target, path_outside_root, Location,
}
use wise_way.Storage.{get, require}
use wise_way.Database.{Db}
use wise_way.Rules.Names.{slash, backslash, dot, rstrip_slashes}

-- a part put in front of the first of the others
abbrev pub on_first : ℕ → List Text → List Text
on_first c [] = (c ∷ []) ∷ []
on_first c (part ∷ parts) = (c ∷ part) ∷ parts

-- `text.split("/")`
unfoldable pub split_slash : Text → List Text
split_slash [] = [] ∷ []
split_slash (c ∷ text) =
    let rest = split_slash text in if c == slash then [] ∷ rest else on_first c rest

-- `part in ("", ".", "..")`
abbrev pub bad_part : Text → Bool
bad_part [] = true
bad_part (c ∷ part) = text_eq (c ∷ part) (dot ∷ []) || text_eq (c ∷ part) (dot ∷ dot ∷ [])

abbrev pub any_bad : List Text → Bool
any_bad [] = false
any_bad (part ∷ parts) = bad_part part || any_bad parts

abbrev pub has : ℕ → Text → Bool
has c [] = false
has c (x ∷ text) = x == c || has c text

abbrev pub starts_with : ℕ → Text → Bool
starts_with c [] = false
starts_with c (x ∷ text) = x == c

unfoldable pub outside : Text → Bool
unfolding split_slash
outside relative =
    text_eq relative []
    || has backslash relative
    || starts_with slash relative
    || any_bad (split_slash relative)

unfoldable pub location : Db → Ident → Text → Result Location
unfolding outside get rstrip_slashes
location db root_id relative = do
  root ← or_raise (get db.root root_id) invalid_target
  raise_if (outside relative) path_outside_root
  ok (record {
    root_id = root_id;
    relative_path = relative;
    display_path = rstrip_slashes root.display_prefix ++ slash ∷ relative;
  })

-- `"/".join(p for p in (base, relative) if p)` of a relative path that is not empty
abbrev pub join_base : Text → Text → Text
join_base [] relative = relative
join_base (c ∷ base) relative = (c ∷ base) ++ slash ∷ relative

unfoldable pub physical : Db → Location → Result Text
unfolding location require
physical db place = do
  checked ← location db place.root_id place.relative_path
  root ← require db.root checked.root_id
  ok (join_base root.base checked.relative_path)
