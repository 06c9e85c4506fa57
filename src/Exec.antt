-- ===== src/Exec.antt =====
-- Methods of a service: the durable rows, the surroundings, and a record of the moves that were
-- asked of the filesystem. What a transaction wrote before a later call raised stays written.
pub mod Keeps
pub mod Ends
pub mod Still
pub mod Gives
use wise_way.Prelude.{ℕ, Bool, Option, List, ◌∷◌, Text}
use wise_way.Common.{Error, Result, ok, err, Fingerprint}
use wise_way.Database.{Db}
use wise_way.Host.{Host}

-- One call of `rename_no_replace`, with the rows that were durable when it was made.
pub record Move : Type 0 where
  pub source : Text
  pub target : Text
  pub expected : Fingerprint
  pub db : Db

pub record Sys (host : Host) : Type 0 where
  pub db : Db
  pub world : host.World
  pub moves : List Move

abbrev pub Exec : Host → Type 0 → Type 0
Exec host A = Sys host → Result A × Sys host

module _ {host : Host} where
  unfoldable pub pure : {A : Type 0} → A → Exec host A
  pure a s = (ok a, s)

  unfoldable pub raise : {A : Type 0} → Error → Exec host A
  raise e s = (err e, s)

  unfoldable pub lift : {A : Type 0} → Result A → Exec host A
  lift r s = (r, s)

  -- `try`: the error is a value
  unfoldable pub attempt_to : {A : Type 0} → Exec host A → Exec host (Result A)
  attempt_to m s = let (r, s') = m s in (ok r, s')

  -- a read-only transaction
  unfoldable pub read : {A : Type 0} → (Db → Result A) → Exec host A
  read f s = (f s.db, s)

  unfoldable pub commit : {A : Type 0} → Result (A × Db) → Exec host A
  commit (ok (a, db)) s = (ok a, record s { db = db })
  commit (err e) s = (err e, s)

  -- a transaction: it commits as a whole, or raises and changes nothing
  unfoldable pub write : {A : Type 0} → (Db → Result (A × Db)) → Exec host A
  unfolding commit
  write f s = commit (f s.db) s

  unfoldable pub now : Exec host ℕ
  now s = let (t, w) = host.clock s.world in (ok t, record s { world = w })

  unfoldable pub stat : Text → Exec host (Option Fingerprint)
  stat path s = let (r, w) = host.stat path s.world in (r, record s { world = w })

  unfoldable pub exists : Text → Exec host Bool
  exists path s = let (r, w) = host.exists path s.world in (r, record s { world = w })

  unfoldable pub rename_no_replace : Text → Text → Fingerprint → Exec host (Unit {0})
  rename_no_replace source target expected s =
      let (r, w) = host.rename_no_replace source target expected s.world in
      (
        r,
        record s {
          world = w;
          moves =
              record { source = source; target = target; expected = expected; db = s.db } ∷ s.moves;
        },
      )

  abbrev pub continue : {A B : Type 0} → Result A → (A → Exec host B) → Exec host B
  continue (ok a) f s = f a s
  continue (err e) f s = (err e, s)

  infixl 5 ◌>>=◌ ◌>>◌
  -- opening this opens all of the above too
  unfoldable pub ◌>>=◌ : {A B : Type 0} → Exec host A → (A → Exec host B) → Exec host B
  unfolding pure raise lift attempt_to read write now stat exists rename_no_replace
  ◌>>=◌ m f s = let (r, s') = m s in continue r f s'

  abbrev pub ◌>>◌ : {B : Type 0} → Exec host (Unit {0}) → Exec host B → Exec host B
  m >> n = m >>= λ _. n
