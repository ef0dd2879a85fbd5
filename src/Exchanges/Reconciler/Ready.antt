-- ===== src/Exchanges/Reconciler/Ready.antt =====
-- src/handlers/json_rpc/exchanges/reconciler.rs: which rows expiry will settle.
use blockchain_api.Prelude.{
  ℕ, ◌+◌, ◌≤◌, Bool, true, not, ◌&&◌, ◌||◌, String, List, [], ◌∷◌, map, any, All, All-map,
  All-of_map, Option, ◌≡◌, refl, sym, arith, ltb, nat_eq, string_eq, subst,
}
use blockchain_api.Exchanges.Ledger.{
  TxStatus, ExchangeTransaction, UpdateExchangeStatus, has_session, is_pending, is_older,
  is_expired, minutes, hours, update_row, touch_row, expire_row,
}
use blockchain_api.Exchanges.Ledger.Valid.{Keeps, update_row-Keeps, touch_row-Keeps}
use blockchain_api.Exchanges.Transactions.Reliable.{Treated, updated, touched}
use blockchain_api.Exchanges.Reconciler.{expire_pending_after_hours}

-- Of a session's rows: twelve hours old at a time, and to be failed by then if still pending.
abbrev pub is_old : String → ℕ → ExchangeTransaction → Bool
is_old s t row =
    not (has_session s row) || ltb (row.created_at + hours expire_pending_after_hours) t

abbrev pub is_ready : String → ℕ → ExchangeTransaction → Bool
is_ready s t row =
    not (has_session s row)
    || (ltb (row.created_at + hours expire_pending_after_hours) t
        && (not (is_pending row.status) || is_older row.locked_at (minutes 20) t))

abbrev pub is_settled : String → ExchangeTransaction → Bool
is_settled s row = not (has_session s row) || not (is_pending row.status)

Treated-All :
    (P : ExchangeTransaction → Type 0) {s : String} {u : Option TxStatus}
    {rows rows' : List ExchangeTransaction}
    → ((tx : UpdateExchangeStatus) (now : ℕ) (row : ExchangeTransaction)
        → P row
        → P (update_row tx now row))
    → ((session_id : String) (now : ℕ) (row : ExchangeTransaction)
        → P row
        → P (touch_row session_id now row))
    → Treated s u rows rows'
    → All P rows
    → All P rows'
Treated-All P {rows = rows} f g (updated tx now e _ same) h =
    subst (All P) (sym same) (All-of_map P (update_row tx now) rows (All-map (f tx now) rows h))
Treated-All P {s} {rows = rows} f g (touched now _ same) h =
    subst (All P) (sym same) (All-of_map P (touch_row s now) rows (All-map (g s now) rows h))

pub any-map :
    (s : String) {now : ℕ} {f : ExchangeTransaction → ExchangeTransaction} (k : Keeps now f)
    (rows : List ExchangeTransaction)
    → any (has_session s) (map f rows) ≡ any (has_session s) rows
any-map s k [] = refl
any-map s k (row ∷ rows) = rw (k.session_id row, any-map s k rows) refl

pub Treated-any :
    (s : String) {x : String} {u : Option TxStatus} {rows rows' : List ExchangeTransaction}
    → Treated x u rows rows'
    → any (has_session s) rows' ≡ any (has_session s) rows
Treated-any s {rows = rows} (updated tx now e _ same) =
    rw same (any-map s (update_row-Keeps tx now) rows)
Treated-any s {x} {rows = rows} (touched now _ same) =
    rw same (any-map s (touch_row-Keeps x now) rows)

module _ (s : String) (t : ℕ) where
  pub Treated-old :
      {x : String} {u : Option TxStatus} {rows rows' : List ExchangeTransaction}
      → Treated x u rows rows'
      → All (λ r. is_old s t r ≡ true) rows
      → All (λ r. is_old s t r ≡ true) rows'
  Treated-old =
      Treated-All (λ r. is_old s t r ≡ true) (λ tx now row h. ground arith)
        (λ session_id now row h. ground arith)

  pub Treated-ready :
      {x : String} {u : Option TxStatus} {rows rows' : List ExchangeTransaction}
      → Treated x u rows rows'
      → All (λ r. is_ready s t r ≡ true) rows
      → All (λ r. is_ready s t r ≡ true) rows'
  Treated-ready =
      Treated-All (λ r. is_ready s t r ≡ true) (λ tx now row h. ground arith)
        (λ session_id now row h. ground arith)

  -- Treating the session's own rows releases them.
  pub Treated-released :
      {u : Option TxStatus} {rows rows' : List ExchangeTransaction}
      → Treated s u rows rows'
      → All (λ r. is_old s t r ≡ true) rows
      → All (λ r. is_ready s t r ≡ true) rows'
  Treated-released {rows = rows} (updated tx now e _ same) h =
      subst (All (λ r. is_ready s t r ≡ true)) (sym same) (
        All-of_map (λ r. is_ready s t r ≡ true) (update_row tx now) rows
          (All-map {Q = λ r. is_ready s t (update_row tx now r) ≡ true}
            (λ r o.
              subst
                (λ x.
                  (not (has_session x r) || ltb (r.created_at + hours expire_pending_after_hours) t)
                    ≡ true
                  → is_ready x t (update_row tx now r) ≡ true)
                e (λ q. ground arith) o)
            rows h))
  Treated-released {rows = rows} (touched now _ same) h =
      subst (All (λ r. is_ready s t r ≡ true)) (sym same) (
        All-of_map (λ r. is_ready s t r ≡ true) (touch_row s now) rows
          (All-map {Q = λ r. is_ready s t (touch_row s now r) ≡ true} (λ r o. ground arith) rows h))

  pub expire-settled :
      (now : ℕ) (rows : List ExchangeTransaction)
      → t ≤ now
      → All (λ r. is_ready s t r ≡ true) rows
      → All (λ r. is_settled s r ≡ true) (map (expire_row expire_pending_after_hours now) rows)
  unfolding is_expired
  expire-settled now rows le h =
      All-of_map (λ r. is_settled s r ≡ true) (expire_row expire_pending_after_hours now) rows
        (All-map {Q = λ r. is_settled s (expire_row expire_pending_after_hours now r) ≡ true}
          (λ r o. ground arith) rows h)
