-- ===== src/Storage/Laws.antt =====
-- What the operations of `UnitOfWork` (backend/wiseway/storage.py) do to each key.
use wise_way.Prelude.{◌≡◌, refl, none, some, [], ◌∷◌, Ident, ◌==◌, arith, if◌then◌else◌}
use wise_way.Common.{ok}
use wise_way.Storage.{Table, get, require, put, insert, delete}

module _ {V : Type 0} where
  pub get-put :
      (rows : Table V) (key j : Ident) (value : V)
      → get (put rows key value) j ≡ (if key == j then some value else get rows j)
  unfolding get put
  get-put [] key j value = refl
  get-put ((k, v) ∷ rows) key j value = ground (arith, get-put rows key j value)

  pub get-delete :
      (rows : Table V) (key j : Ident)
      → get (delete rows key) j ≡ (if key == j then none else get rows j)
  unfolding get delete
  get-delete [] key j = ground arith
  get-delete ((k, v) ∷ rows) key j = ground (arith, get-delete rows key j)

  pub require-eq-ok :
      (rows : Table V) (key : Ident) {v : V} → require rows key ≡ ok v → get rows key ≡ some v
  unfolding require
  require-eq-ok rows key h = ground arith

  pub insert-eq-ok :
      (rows : Table V) (key : Ident) (value : V) {rows' : Table V}
      → insert rows key value ≡ ok rows'
      → (get rows key ≡ none) × (rows' ≡ put rows key value)
  unfolding insert
  insert-eq-ok rows key value h = ground arith

pub ruleset table_laws = (get-put, get-delete)
