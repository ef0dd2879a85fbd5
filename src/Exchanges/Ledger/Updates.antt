-- ===== src/Exchanges/Ledger/Updates.antt =====
-- src/database/exchange_reconciliation.rs: which updates find a row.
use blockchain_api.Prelude.{
  ℕ, Bool, true, false, List, [], ◌∷◌, map, filter, any, inl, inr, ◌≡◌, refl, ◌∙◌, arith,
  Bool-cases, string_eq,
}
use blockchain_api.Exchanges.Ledger.{
  DatabaseError, ExchangeTransaction, Ledger, Sqlx, UpdateExchangeStatus, has_session, update_row,
  update_status, first_row,
}
use blockchain_api.Exchanges.Ledger.Valid.{update_row-Keeps}

pub update-absent :
    (tx : UpdateExchangeStatus) (now : ℕ) (rows : List ExchangeTransaction)
    → any (has_session tx.session_id) rows ≡ false
    → map (update_row tx now) rows ≡ rows
update-absent tx now [] h = refl
update-absent tx now (row ∷ rows) h = elim (Bool-cases (has_session tx.session_id row)) [
  | inl e ↦ ground arith
  | inr e ↦ rw (e, update-absent tx now rows (rw e at h)) refl
]

filter-absent :
    (p : ExchangeTransaction → Bool) (rows : List ExchangeTransaction)
    → any p rows ≡ false
    → filter p rows ≡ []
filter-absent p [] h = refl
filter-absent p (row ∷ rows) h = ground (arith, filter-absent p rows)

filter-present :
    (sqlx : Sqlx) (p : ExchangeTransaction → Bool) (rows : List ExchangeTransaction)
    → any p rows ≡ true
    → (row : ExchangeTransaction) × (first_row sqlx (filter p rows) ≡ inr row)
unfolding first_row
filter-present sqlx p [] h = cc
filter-present sqlx p (row ∷ rows) h = elim (Bool-cases (p row)) [
  | inl e ↦ (row, rw e refl)
  | inr e ↦ rw e (filter-present sqlx p rows (rw e at h))
]

any-update :
    (tx : UpdateExchangeStatus) (now : ℕ) (rows : List ExchangeTransaction)
    → any (has_session tx.session_id) (map (update_row tx now) rows)
      ≡ any (has_session tx.session_id) rows
any-update tx now [] = refl
any-update tx now (row ∷ rows) =
    rw ((update_row-Keeps tx now).session_id row, any-update tx now rows) refl

pub update_status-absent :
    (sqlx : Sqlx) (tx : UpdateExchangeStatus) (now : ℕ) (l : Ledger)
    → any (has_session tx.session_id) l.rows ≡ false
    → update_status sqlx tx now l ≡ (inl (DatabaseError.sqlx_error sqlx.row_not_found), l)
unfolding update_status first_row
update_status-absent sqlx tx now l h =
    rw (update-absent tx now l.rows h, filter-absent (has_session tx.session_id) l.rows h) refl

pub update_status-present :
    (sqlx : Sqlx) (tx : UpdateExchangeStatus) (now : ℕ) (l : Ledger)
    → any (has_session tx.session_id) l.rows ≡ true
    → (row : ExchangeTransaction) × ((update_status sqlx tx now l).0 ≡ inr row)
unfolding update_status
update_status-present sqlx tx now l h =
    filter-present sqlx (has_session tx.session_id) (map (update_row tx now) l.rows)
      (any-update tx now l.rows ∙ h)
