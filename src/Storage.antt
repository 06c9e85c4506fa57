-- ===== src/Storage.antt =====
-- `UnitOfWork` of backend/wiseway/storage.py on the rows of one kind: a table from identifiers to
-- documents, kept in the order of the identifiers, which is the order of `list`. JSON encoding is
-- left out: a document is stored as it is.
pub mod Laws
use wise_way.Prelude.{
  ℕ, Bool, true, false, Option, none, some, List, [], ◌∷◌, map, Ident, ◌==◌, ltb, if◌then◌else◌,
  is_some,
}
use wise_way.Common.{Result, ok, err, or_raise, not_found, integrity}

abbrev pub Table : Type 0 → Type 0
Table V = List (Ident × V)

module _ {V : Type 0} where
  unfoldable pub get : Table V → Ident → Option V
  get [] key = none
  get ((k, v) ∷ rows) key = if k == key then some v else get rows key

  unfoldable pub require : Table V → Ident → Result V
  require rows key = or_raise (get rows key) not_found

  unfoldable pub put : Table V → Ident → V → Table V
  put [] key value = (key, value) ∷ []
  put ((k, v) ∷ rows) key value =
      if k == key
      then (key, value) ∷ rows
      else if ltb key k
      then (key, value) ∷ (k, v) ∷ rows
      else (k, v) ∷ put rows key value

  -- a second row under one key breaks the primary key
  unfoldable pub insert : Table V → Ident → V → Result (Table V)
  insert rows key value = if is_some (get rows key) then err integrity else ok (put rows key value)

  unfoldable pub delete : Table V → Ident → Table V
  delete [] key = []
  delete ((k, v) ∷ rows) key =
      let rest = delete rows key in if k == key then rest else (k, v) ∷ rest

  unfoldable pub list : Table V → List V
  list rows = map (λ row. row.1) rows

  -- a `DELETE` of the rows that fail a test
  unfoldable pub keep_rows : (V → Bool) → Table V → Table V
  keep_rows test [] = []
  keep_rows test ((k, v) ∷ rows) =
      let rest = keep_rows test rows in if test v then (k, v) ∷ rest else rest
