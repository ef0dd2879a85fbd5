-- ===== src/Exchanges/Reconciler/Effects.antt =====
-- src/handlers/json_rpc/exchanges/reconciler.rs: what processing a row does to the table when the
-- database works.
use blockchain_api.Prelude.{
  ◌≤◌, String, Option, none, some, ◌⊎◌, inl, inr, ◌≡◌, refl, arith, Option-cases,
}
use blockchain_api.Exchanges.{
  ExchangeType, ExchangeError, binance, coinbase, reown_test, GetBuyStatusParams,
  GetBuyStatusResponse, from_id, BuyTransactionStatus, unknown, in_progress, success, failed,
}
use blockchain_api.Exchanges.Ledger.{TxStatus, ExchangeTransaction}
use blockchain_api.Exchanges.Transactions.{World, Run}
use blockchain_api.Exchanges.Transactions.Reliable.{
  IsReliable, Effect, mark_failed-Effect, mark_succeeded-Effect, touch_pending-Effect,
}
use blockchain_api.Exchanges.Reconciler.{apply_status, give_up, ask, with_project, process_row}

module _ (W : World) (reliable : IsReliable W) where
  Effect-later :
      (exchange : Option ExchangeType) (s : String) (u : Option TxStatus) (run run' : Run W.Net)
      (net : W.Net)
      → W.now net ≤ W.now run.net
      → Effect W reliable exchange s u run run'
      → Effect W reliable exchange s u (record { ledger = run.ledger; net = net }) run'
  Effect-later exchange s u run run' net le (inl h) =
      inl (record { later = omega (arith, le, h.later); treated = h.treated })
  Effect-later exchange s u run run' net le (inr (later, same, e)) =
      inr (omega (arith, le, later), same, e)

  -- The status that a session gets from an answer of the exchange, if any.
  abbrev pub recorded : BuyTransactionStatus → Option TxStatus
  recorded success = some TxStatus.succeeded
  recorded failed = some TxStatus.failed
  recorded in_progress = none
  recorded unknown = none

  abbrev answered : ExchangeError ⊎ GetBuyStatusResponse → Option TxStatus
  answered (inl e) = none
  answered (inr response) = recorded response.status

  apply_status-Effect :
      (row : ExchangeTransaction) (answer : ExchangeError ⊎ GetBuyStatusResponse) (run : Run W.Net)
      → Effect W reliable
          (from_id row.exchange_id)
          row.session_id
          (answered answer)
          run
          (apply_status W row answer run)
  unfolding apply_status
  apply_status-Effect row (inl e) run =
      touch_pending-Effect W reliable row.session_id row.exchange_id run
  apply_status-Effect row (inr response) run = by_status response.status refl
    where
      by_status :
          (status : _)
          → response.status ≡ status
          → Effect W reliable
              (from_id row.exchange_id)
              row.session_id
              (recorded response.status)
              run
              (apply_status W row (inr response) run)
      by_status success e =
          rw e
            (mark_succeeded-Effect W reliable row.session_id row.exchange_id response.tx_hash run)
      by_status failed e = rw e (
          mark_failed-Effect W reliable row.session_id row.exchange_id (some "provider_failed")
            response.tx_hash run)
      by_status in_progress e =
          rw e (touch_pending-Effect W reliable row.session_id row.exchange_id run)
      by_status unknown e =
          rw e (touch_pending-Effect W reliable row.session_id row.exchange_id run)

  ask-Effect :
      (row : ExchangeTransaction) (project_id : String) (exchange : ExchangeType) (run : Run W.Net)
      → (u : Option TxStatus) × Effect W reliable
          (from_id row.exchange_id)
          row.session_id
          u
          run
          (ask W row project_id exchange run)
  unfolding ask
  ask-Effect row project_id exchange run =
      let params : GetBuyStatusParams = record {
        project_id = project_id;
        session_id = row.session_id;
      } in
      let answer = W.get_buy_status exchange params run.net in
      (
        answered answer.0,
        Effect-later (from_id row.exchange_id) row.session_id (answered answer.0)
            (record { ledger = run.ledger; net = answer.1 }) _ run.net
            (reliable.after_answer exchange params run.net)
            (apply_status-Effect row answer.0 (record { ledger = run.ledger; net = answer.1 })),
      )

  give_up-Effect :
      (row : ExchangeTransaction) (run : Run W.Net)
      → (u : Option TxStatus) × Effect W reliable
          (from_id row.exchange_id)
          row.session_id
          u
          run
          (give_up W row run)
  unfolding give_up
  give_up-Effect row run = (
    some TxStatus.failed,
    mark_failed-Effect W reliable row.session_id row.exchange_id (some "provider_failed") none run,
  )

  with_project-Effect :
      (row : ExchangeTransaction) (project_id : String) (exchange : Option ExchangeType)
      (run : Run W.Net)
      → (u : Option TxStatus) × Effect W reliable
          (from_id row.exchange_id)
          row.session_id
          u
          run
          (with_project W row project_id exchange run)
  unfolding with_project
  with_project-Effect row project_id (some coinbase) run = ask-Effect row project_id coinbase run
  with_project-Effect row project_id (some binance) run = ask-Effect row project_id binance run
  with_project-Effect row project_id (some reown_test) run = give_up-Effect row run
  with_project-Effect row project_id none run = give_up-Effect row run

  -- Processing a row treats it, or changes no row at all when the transactions of its exchange are
  -- not stored.
  pub process_row-Effect :
      (row : ExchangeTransaction) (run : Run W.Net)
      → (u : Option TxStatus) × Effect W reliable
          (from_id row.exchange_id)
          row.session_id
          u
          run
          (process_row W row run)
  unfolding process_row
  process_row-Effect row run = elim (Option-cases row.project_id) [
    | inl e ↦ rw e (give_up-Effect row run)
    | inr (project_id, e) ↦ rw e (with_project-Effect row project_id (from_id row.exchange_id) run)
  ]
