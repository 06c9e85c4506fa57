-- ===== src/Auth/Maintenance.antt =====
-- `Maintenance.run_once` of backend/wiseway/maintenance.py: what has expired is deleted, and the
-- number of rows that went is answered for each kind.
use wise_way.Prelude.{ℕ, ◌-◌, not, List, [], ◌∷◌, Ident, leb, length}
use wise_way.Storage.{Table, keep_rows}
use wise_way.Auth.{AccountDb, Lifetimes, recent, end_of}

abbrev pub keep_attempts : Ident → List ℕ → Table (List ℕ) → Table (List ℕ)
keep_attempts k [] rest = rest
keep_attempts k (attempt ∷ attempts) rest = (k, attempt ∷ attempts) ∷ rest

-- each bucket with its recent attempts, and no bucket without any
unfoldable pub keep_rates : ℕ → Table (List ℕ) → Table (List ℕ)
unfolding recent
keep_rates now [] = []
keep_rates now ((k, attempts) ∷ rows) = keep_attempts k (recent now attempts) (keep_rates now rows)

pub record Deleted : Type 0 where
  pub cursor : ℕ
  pub page_snapshot : ℕ
  pub session : ℕ
  pub login_rate : ℕ

unfoldable pub run_once : Lifetimes → ℕ → AccountDb → Deleted × AccountDb
unfolding keep_rows keep_rates
run_once lifetimes now db =
    let cursors = keep_rows (λ expires. not (leb expires now)) db.cursor in
    let snapshots = keep_rows (λ expires. not (leb expires now)) db.page_snapshot in
    let sessions = keep_rows (λ session. not (leb (end_of lifetimes session) now)) db.session in
    let rates = keep_rates now db.login_rate in
    (
      record {
        cursor = length db.cursor - length cursors;
        page_snapshot = length db.page_snapshot - length snapshots;
        session = length db.session - length sessions;
        login_rate = length db.login_rate - length rates;
      },
      record db {
        cursor = cursors;
        page_snapshot = snapshots;
        session = sessions;
        login_rate = rates;
      },
    )
