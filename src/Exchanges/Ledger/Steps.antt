-- ===== src/Exchanges/Ledger/Steps.antt =====
-- src/database/exchange_reconciliation.rs: the statements of all the tasks of the servers, one after
-- the other, as steps of the table.
use blockchain_api.Prelude.{ℕ, ◌≤◌, Bool, String, []}
use blockchain_api.Exchanges.Ledger.{
  Ledger, NewExchangeTransaction, UpdateExchangeStatus, Sqlx, insert_new, update_status,
  touch_non_terminal, claim_due_batch, expire_old_pending, candidates,
}
use blockchain_api.Exchanges.Ledger.Valid.{
  IsValid, IsValid-map, IsValid-burn, insert_new-IsValid, update_row-Keeps, touch_row-Keeps,
  claim_row-Keeps, expire_row-Keeps,
}

pub data Statement : Type 0 where
  insert : NewExchangeTransaction → Statement
  update : UpdateExchangeStatus → Statement
  touch : String → Statement
  claim : (ℕ → Bool) → ℕ → Statement
  expire : ℕ → Statement

-- What a statement makes of the table at a time.
abbrev pub execute : Sqlx → Statement → ℕ → Ledger → Ledger
execute sqlx (insert tx) now l = (insert_new sqlx tx now l).1
execute sqlx (update tx) now l = (update_status sqlx tx now l).1
execute sqlx (touch session_id) now l = touch_non_terminal session_id now l
execute sqlx (claim held max_claim) now l = (claim_due_batch held max_claim now l).1
execute sqlx (expire max_age_hours) now l = (expire_old_pending max_age_hours now l).1

-- A table and the time of its last statement.
pub record Moment : Type 0 where
  pub ledger : Ledger
  pub time : ℕ

-- A statement at a time that is not earlier, or a transaction that is rolled back, which may have
-- used up values of the sequence.
pub data Step (sqlx : Sqlx) (m : Moment) : Moment → Type 0 where
  run :
      (s : Statement) (now : ℕ)
      → m.time ≤ now
      → Step sqlx m (record { ledger = execute sqlx s now m.ledger; time = now })
  roll_back :
      (n : ℕ)
      → m.ledger.next_id ≤ n
      → Step sqlx m
          (record { ledger = record { rows = m.ledger.rows; next_id = n }; time = m.time })

pub data Steps (sqlx : Sqlx) (m : Moment) : Moment → Type 0 where
  start : Steps sqlx m m
  later : {n o : Moment} → Steps sqlx m n → Step sqlx n o → Steps sqlx m o

-- The table that the migration makes.
abbrev pub created : ℕ → Moment
created now = record { ledger = record { rows = []; next_id = 1 }; time = now }

module _ (sqlx : Sqlx) where
  pub execute-IsValid :
      (s : Statement) (before now : ℕ) (l : Ledger)
      → before ≤ now
      → IsValid before l
      → IsValid now (execute sqlx s now l)
  unfolding update_status touch_non_terminal claim_due_batch expire_old_pending
  execute-IsValid (Statement.insert tx) before now l le v =
      insert_new-IsValid sqlx tx before now l le v
  execute-IsValid (Statement.update tx) before now l le v =
      IsValid-map (update_row-Keeps tx now) before l.rows l.next_id le v
  execute-IsValid (Statement.touch session_id) before now l le v =
      IsValid-map (touch_row-Keeps session_id now) before l.rows l.next_id le v
  execute-IsValid (Statement.claim held max_claim) before now l le v =
      IsValid-map (claim_row-Keeps (candidates held max_claim now l.rows) now) before l.rows
        l.next_id le v
  execute-IsValid (Statement.expire max_age_hours) before now l le v =
      IsValid-map (expire_row-Keeps max_age_hours now) before l.rows l.next_id le v

  pub Step-IsValid :
      {m n : Moment} → Step sqlx m n → IsValid m.time m.ledger → IsValid n.time n.ledger
  Step-IsValid {m} (Step.run s now le) v = execute-IsValid s m.time now m.ledger le v
  Step-IsValid {m} (Step.roll_back n le) v = IsValid-burn m.ledger n le v

  Steps-IsValid :
      {m n : Moment} → Steps sqlx m n → IsValid m.time m.ledger → IsValid n.time n.ledger
  Steps-IsValid Steps.start v = v
  Steps-IsValid (Steps.later r st) v = Step-IsValid st (Steps-IsValid r v)

  -- After any statements of any tasks on the new table, at times that do not go back: no two rows
  -- have the same session or id, each row has a date of completion exactly when its status is a
  -- final one, and no date of a row is after its last update.
  pub Steps-created-IsValid :
      {now : ℕ} {m : Moment} → Steps sqlx (created now) m → IsValid m.time m.ledger
  Steps-created-IsValid r = Steps-IsValid r (record { sound = tt; apart = tt; numbered = tt })
