-- ===== src/Exchanges/Reconciler.antt =====
-- src/handlers/json_rpc/exchanges/reconciler.rs: the polls of the table for transactions whose
-- outcome is to be asked of the exchange. Waiting and log output are left out.
mod Batch
mod Effects
pub mod Overdue
mod Ready
pub mod Settles
pub mod Unknown
use blockchain_api.Prelude.{
  ℕ, suc, Bool, true, false, String, List, [], ◌∷◌, Option, none, some, ◌⊎◌, inl, inr, is_empty,
  if◌then◌else◌,
}
use blockchain_api.Errors.{Foreign}
use blockchain_api.Exchanges.{
  ExchangeType, ExchangeError, binance, coinbase, reown_test, BuyTransactionStatus, unknown,
  in_progress, success, failed, GetBuyStatusResponse, from_id,
}
use blockchain_api.Exchanges.Ledger.{
  ExchangeTransaction, Ledger, claim_due_batch, expire_old_pending,
}
use blockchain_api.Exchanges.Transactions.{World, Run, mark_failed, mark_succeeded, touch_pending}

abbrev pub claim_batch_size : ℕ
claim_batch_size = 200

abbrev pub expire_pending_after_hours : ℕ
expire_pending_after_hours = 12

module _ (W : World) where
  -- With the answer of the exchange about a row; an error of the database is only logged.
  apply_status :
      ExchangeTransaction → (ExchangeError ⊎ GetBuyStatusResponse) → Run W.Net → Run W.Net
  apply_status row (inl e) run = (touch_pending W row.exchange_id row.session_id run).1
  apply_status row (inr response) run = elim response.status [
    | success ↦ (mark_succeeded W row.session_id row.exchange_id response.tx_hash run).1
    | failed ↦
        (mark_failed W row.session_id row.exchange_id (some "provider_failed") response.tx_hash
          run).1
    | in_progress ↦ (touch_pending W row.exchange_id row.session_id run).1
    | unknown ↦ (touch_pending W row.exchange_id row.session_id run).1
  ]

  -- A row without a project, or of an exchange that is not asked.
  give_up : ExchangeTransaction → Run W.Net → Run W.Net
  give_up row run =
      (mark_failed W row.session_id row.exchange_id (some "provider_failed") none run).1

  ask : ExchangeTransaction → String → ExchangeType → Run W.Net → Run W.Net
  unfolding apply_status
  ask row project_id exchange run =
      let answer =
        W.get_buy_status exchange (record { project_id = project_id; session_id = row.session_id })
          run.net in
      apply_status row answer.0 (record { ledger = run.ledger; net = answer.1 })

  with_project : ExchangeTransaction → String → Option ExchangeType → Run W.Net → Run W.Net
  unfolding ask give_up
  with_project row project_id (some coinbase) run = ask row project_id coinbase run
  with_project row project_id (some binance) run = ask row project_id binance run
  with_project row project_id (some reown_test) run = give_up row run
  with_project row project_id none run = give_up row run

  unfoldable pub process_row : ExchangeTransaction → Run W.Net → Run W.Net
  unfolding with_project give_up
  process_row row run = elim row.project_id [
    | none ↦ give_up row run
    | some project_id ↦ with_project row project_id (from_id row.exchange_id) run
  ]

  abbrev pub process_rows : List ExchangeTransaction → Run W.Net → Run W.Net
  process_rows [] run = run
  process_rows (row ∷ rows) run = process_rows rows (process_row row run)

  -- The result of `expire_old_pending` is not looked at.
  expire : Run W.Net → Option Foreign × W.Net → Run W.Net
  expire run (some e, net) = record { ledger = run.ledger; net = net }
  expire run (none, net) = record {
    ledger = (expire_old_pending expire_pending_after_hours (W.now net) run.ledger).1;
    net = net;
  }

  -- With a batch that was claimed.
  pub process_batch : List ExchangeTransaction → Run W.Net → Run W.Net
  unfolding expire
  process_batch [] run = run
  process_batch (row ∷ rows) run =
      let processed = process_rows (row ∷ rows) run in expire processed (W.fault processed.net)

  poll_with : Ledger → Option Foreign × W.Net → Run W.Net
  unfolding process_batch
  poll_with l (some e, net) = record { ledger = l; net = net }
  poll_with l (none, net) =
      let claimed = claim_due_batch (W.held net) claim_batch_size (W.now net) l in
      process_batch claimed.0 (record { ledger = claimed.1; net = net })

  -- A turn of the loop of `run`.
  unfoldable pub poll : Run W.Net → Run W.Net
  unfolding poll_with
  poll run = poll_with run.ledger (W.fault run.net)
