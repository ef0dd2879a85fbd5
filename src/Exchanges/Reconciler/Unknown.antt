-- ===== src/Exchanges/Reconciler/Unknown.antt =====
-- src/handlers/json_rpc/exchanges/reconciler.rs: a row of an exchange that there is no more.
use blockchain_api.Prelude.{none, some, inl, inr, ◌≡◌, ap, Option-cases}
use blockchain_api.Exchanges.{from_id}
use blockchain_api.Exchanges.Ledger.{ExchangeTransaction}
use blockchain_api.Exchanges.Transactions.{World, Run}
use blockchain_api.Exchanges.Transactions.Unknown.{mark_failed-unknown}
use blockchain_api.Exchanges.Reconciler.{give_up, with_project, process_row}

give_up-unknown :
    (W : World) (row : ExchangeTransaction) (run : Run W.Net)
    → from_id row.exchange_id ≡ none
    → give_up W row run ≡ run
unfolding give_up
give_up-unknown W row run e =
    ap (λ (a : _ × Run W.Net). a.1)
      (mark_failed-unknown W row.session_id row.exchange_id (some "provider_failed") none run e)

-- Processing a row whose exchange id no exchange has changes nothing, whatever the world is: the row
-- is not marked as failed, since `mark_failed` refuses the id, and it stays locked.
pub process_row-unknown :
    (W : World) (row : ExchangeTransaction) (run : Run W.Net)
    → from_id row.exchange_id ≡ none
    → process_row W row run ≡ run
unfolding process_row with_project
process_row-unknown W row run e = elim (Option-cases row.project_id) [
  | inl p ↦ rw p (give_up-unknown W row run e)
  | inr (project_id, p) ↦ rw (p, e, with_project) (give_up-unknown W row run e)
]
