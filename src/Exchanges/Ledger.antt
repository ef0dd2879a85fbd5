-- ===== src/Exchanges/Ledger.antt =====
-- src/database/exchange_reconciliation.rs and the table of its migration: the rows of exchange
-- transactions and the SQL statements on them. A time is a number of microseconds, a 64-bit
-- floating-point number its bits, and the order of the rows stands for the order that the
-- database leaves open. A statement runs at one time, the start of its transaction.
pub mod Batches
pub mod Claims
pub mod Refinement
pub mod Steps
pub mod Updates
pub mod Valid
use blockchain_api.Prelude.{
  ℕ, suc, ◌+◌, ◌*◌, Bool, true, false, not, ◌&&◌, ◌||◌, String, List, [], ◌∷◌, map, Option, none,
  some, ◌⊎◌, inl, inr, ltb, leb, ◌==◌, nat_eq, string_eq, take, filter, any, length, if◌then◌else◌,
}
use blockchain_api.Errors.{Foreign}

pub data DatabaseError : Type 0 where
  sqlx_error : Foreign → DatabaseError
  bad_argument address_required : String → DatabaseError
  serde_json : Foreign → DatabaseError

pub data TxStatus : Type 0 where
  pending succeeded failed : TxStatus

pub record ExchangeTransaction : Type 0 where
  pub id : ℕ
  pub session_id : String
  pub exchange_id : String
  pub project_id : Option String
  pub asset : Option String
  pub amount : Option ℕ
  pub recipient : Option String
  pub pay_url : Option String
  pub status : TxStatus
  pub failure_reason : Option String
  pub tx_hash : Option String
  pub created_at : ℕ
  pub updated_at : ℕ
  pub last_checked_at : Option ℕ
  pub completed_at : Option ℕ
  pub locked_at : Option ℕ

pub record NewExchangeTransaction : Type 0 where
  pub session_id : String
  pub exchange_id : String
  pub project_id : Option String
  pub asset : Option String
  pub amount : Option ℕ
  pub recipient : Option String
  pub pay_url : Option String

pub record UpdateExchangeStatus : Type 0 where
  pub session_id : String
  pub status : TxStatus
  pub tx_hash : Option String
  pub failure_reason : Option String

-- The table, with the next value of the sequence behind `id`.
pub record Ledger : Type 0 where
  pub rows : List ExchangeTransaction
  pub next_id : ℕ

-- `make_interval(mins => …)` and `make_interval(hours => …)`.
abbrev pub minutes : ℕ → ℕ
minutes n = n * 60000000

abbrev pub hours : ℕ → ℕ
hours n = n * 3600000000

abbrev pub lock_expiration_minutes : ℕ
lock_expiration_minutes = 15

abbrev pub check_backoff_minutes : ℕ
check_backoff_minutes = 5

abbrev pub min_claim_age_hours : ℕ
min_claim_age_hours = 3

abbrev pub is_pending : TxStatus → Bool
is_pending pending = true
is_pending _ = false

-- The row that an INSERT of these columns makes: the others have their defaults.
abbrev pub new_row : NewExchangeTransaction → ℕ → ℕ → ExchangeTransaction
new_row tx id now = record {
  id = id;
  session_id = tx.session_id;
  exchange_id = tx.exchange_id;
  project_id = tx.project_id;
  asset = tx.asset;
  amount = tx.amount;
  recipient = tx.recipient;
  pay_url = tx.pay_url;
  status = pending;
  failure_reason = none;
  tx_hash = none;
  created_at = now;
  updated_at = now;
  last_checked_at = none;
  completed_at = none;
  locked_at = none;
}

abbrev pub has_session : String → ExchangeTransaction → Bool
has_session session_id row = row.session_id == session_id

-- The errors of the driver for a key that exists already, and for a query without a row.
pub record Sqlx : Type 0 where
  pub duplicate_key : Foreign
  pub row_not_found : Foreign

-- A refused INSERT has used up a value of the sequence.
unfoldable pub insert_new :
    Sqlx → NewExchangeTransaction → ℕ → Ledger → (DatabaseError ⊎ ExchangeTransaction) × Ledger
insert_new sqlx tx now l =
    if any (has_session tx.session_id) l.rows
    then (
      inl (DatabaseError.sqlx_error sqlx.duplicate_key),
      record { rows = l.rows; next_id = suc l.next_id },
    )
    else (
      inr (new_row tx l.next_id now),
      record { rows = new_row tx l.next_id now ∷ l.rows; next_id = suc l.next_id },
    )

-- `CASE WHEN $2 IN ('succeeded','failed') THEN NOW() ELSE NULL END`.
abbrev pub completion : TxStatus → ℕ → Option ℕ
completion pending now = none
completion _ now = some now

abbrev pub update_row : UpdateExchangeStatus → ℕ → ExchangeTransaction → ExchangeTransaction
update_row tx now row =
    if has_session tx.session_id row
    then record row {
      status = tx.status;
      tx_hash = tx.tx_hash;
      failure_reason = tx.failure_reason;
      last_checked_at = some now;
      completed_at = completion tx.status now;
      updated_at = now;
      locked_at = none;
    }
    else row

-- `fetch_one`: the first row that comes back.
first_row : Sqlx → List ExchangeTransaction → DatabaseError ⊎ ExchangeTransaction
first_row sqlx [] = inl (DatabaseError.sqlx_error sqlx.row_not_found)
first_row sqlx (row ∷ rows) = inr row

unfoldable pub update_status :
    Sqlx → UpdateExchangeStatus → ℕ → Ledger → (DatabaseError ⊎ ExchangeTransaction) × Ledger
unfolding first_row
update_status sqlx tx now l =
    let rows = map (update_row tx now) l.rows in
    (
      first_row sqlx (filter (has_session tx.session_id) rows),
      record { rows = rows; next_id = l.next_id },
    )

abbrev pub touch_row : String → ℕ → ExchangeTransaction → ExchangeTransaction
touch_row session_id now row =
    if has_session session_id row
    then record row { last_checked_at = some now; updated_at = now; locked_at = none }
    else row

unfoldable pub touch_non_terminal : String → ℕ → Ledger → Ledger
touch_non_terminal session_id now l = record {
  rows = map (touch_row session_id now) l.rows;
  next_id = l.next_id;
}

-- `t IS NULL OR t < NOW() - span`.
abbrev pub is_older : Option ℕ → ℕ → ℕ → Bool
is_older none span now = true
is_older (some t) span now = ltb (t + span) now

unfoldable pub is_due : ℕ → ExchangeTransaction → Bool
is_due now row =
    is_pending row.status
    && is_older row.locked_at (minutes lock_expiration_minutes) now
    && is_older row.last_checked_at (minutes check_backoff_minutes) now
    && ltb (row.created_at + hours min_claim_age_hours) now

-- `ORDER BY last_checked_at NULLS FIRST, created_at ASC`: whether a row may stand before another.
abbrev pub may_precede : ExchangeTransaction → ExchangeTransaction → Bool
may_precede a b = by_check a.last_checked_at b.last_checked_at
  where
    by_check : Option ℕ → Option ℕ → Bool
    by_check none none = leb a.created_at b.created_at
    by_check none (some u) = true
    by_check (some t) none = false
    by_check (some t) (some u) = ltb t u || (t == u && leb a.created_at b.created_at)

insert_ordered : ExchangeTransaction → List ExchangeTransaction → List ExchangeTransaction
insert_ordered row [] = row ∷ []
insert_ordered row (r ∷ rows) =
    let rest = insert_ordered row rows in if may_precede row r then row ∷ r ∷ rows else r ∷ rest

unfoldable pub order_by : List ExchangeTransaction → List ExchangeTransaction
unfolding insert_ordered
order_by [] = []
order_by (row ∷ rows) = insert_ordered row (order_by rows)

-- The candidates: `held` are the ids of the rows that other transactions hold locked.
unfoldable pub candidates : (ℕ → Bool) → ℕ → ℕ → List ExchangeTransaction → List ExchangeTransaction
candidates held max_claim now rows =
    take max_claim (order_by (filter (λ row. is_due now row && not (held row.id)) rows))

abbrev pub is_among : List ExchangeTransaction → ExchangeTransaction → Bool
is_among chosen row = any (λ c. c.id == row.id) chosen

abbrev pub claim_row : List ExchangeTransaction → ℕ → ExchangeTransaction → ExchangeTransaction
claim_row chosen now row =
    if is_among chosen row then record row { locked_at = some now; updated_at = now } else row

-- The claimed rows, as updated, and the table.
unfoldable pub claim_due_batch : (ℕ → Bool) → ℕ → ℕ → Ledger → List ExchangeTransaction × Ledger
claim_due_batch held max_claim now l =
    let chosen = candidates held max_claim now l.rows in
    let rows = map (claim_row chosen now) l.rows in
    (filter (is_among chosen) rows, record { rows = rows; next_id = l.next_id })

abbrev pub coalesce : Option String → String → Option String
coalesce none s = some s
coalesce (some r) s = some r

unfoldable pub is_expired : ℕ → ℕ → ExchangeTransaction → Bool
is_expired max_age_hours now row =
    is_pending row.status
    && ltb (row.created_at + hours max_age_hours) now
    && is_older row.locked_at (minutes 20) now

abbrev pub expire_row : ℕ → ℕ → ExchangeTransaction → ExchangeTransaction
expire_row max_age_hours now row =
    if is_expired max_age_hours now row
    then record row {
      status = failed;
      failure_reason = coalesce row.failure_reason "expired";
      completed_at = some now;
      updated_at = now;
    }
    else row

-- The number of rows affected, and the table.
unfoldable pub expire_old_pending : ℕ → ℕ → Ledger → ℕ × Ledger
expire_old_pending max_age_hours now l = (
  length (filter (is_expired max_age_hours now) l.rows),
  record { rows = map (expire_row max_age_hours now) l.rows; next_id = l.next_id },
)
