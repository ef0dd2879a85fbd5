-- ===== src/Exchanges/Transactions.antt =====
-- src/handlers/json_rpc/exchanges/transactions.rs: the statements on the table of exchange
-- transactions in database transactions, each with its analytics event.
pub mod Created
pub mod Reliable
pub mod Unknown
use blockchain_api.Prelude.{
  ℕ, suc, Bool, true, false, String, List, ◌∷◌, Option, none, some, ◌⊎◌, inl, inr, if◌then◌else◌,
}
use blockchain_api.Errors.{Foreign}
use blockchain_api.Exchanges.{
  ExchangeType, ExchangeError, GetBuyStatusParams, GetBuyStatusResponse, from_id,
  is_transaction_storage_enabled,
}
use blockchain_api.Exchanges.Ledger.{
  DatabaseError, TxStatus, ExchangeTransaction, NewExchangeTransaction, UpdateExchangeStatus,
  Ledger, Sqlx, insert_new, update_status, touch_non_terminal,
}

pub data ExchangeEventType : Type 0 where
  started completed failed : ExchangeEventType

-- The time of the event is left out.
pub record ExchangeEventInfo : Type 0 where
  pub event : ExchangeEventType
  pub id : String
  pub exchange_id : String
  pub project_id : String
  pub asset : String
  pub amount : ℕ
  pub recipient : String
  pub pay_url : String
  pub tx_hash : Option String
  pub failure_reason : Option String

-- What the end of a transaction gives: a commit that fails may have been kept or not.
pub data Commit : Type 0 where
  committed : Commit
  lost : Bool → Foreign → Commit

-- The database server, the analytics collector, the exchanges and the clock. `Net` is all that
-- they may read or change.
pub record World : Type 1 where
  pub Net : Type 0
  -- Microseconds; `NOW()` of a transaction that starts.
  pub now : Net → ℕ
  pub sqlx : Sqlx
  -- The rows that other transactions hold locked.
  pub held : Net → ℕ → Bool
  pub begin : Net → Option Foreign × Net
  -- What keeps a statement from being run.
  pub fault : Net → Option Foreign × Net
  pub commit : Net → Commit × Net
  pub exchange_transaction_event : ExchangeEventInfo → Net → Option Foreign × Net
  -- Of the client of the exchange.
  pub get_buy_status :
      ExchangeType → GetBuyStatusParams → Net → (ExchangeError ⊎ GetBuyStatusResponse) × Net

pub record Run (Net : Type 0) : Type 0 where
  pub ledger : Ledger
  pub net : Net

-- `Result<(), DatabaseError>`: the error, if there is one.
abbrev pub Outcome : Type 0
Outcome = Option DatabaseError

abbrev unwrap_or_default : Option String → String
unwrap_or_default none = ""
unwrap_or_default (some s) = s

-- The bits of 0.0 are 0.
abbrev amount_or_default : Option ℕ → ℕ
amount_or_default none = 0
amount_or_default (some a) = a

-- `ExchangeEventInfo::new` on the columns of a row.
abbrev pub event_info :
    ExchangeEventType → ExchangeTransaction → Option String → Option String → ExchangeEventInfo
event_info event row tx_hash failure_reason = record {
  event = event;
  id = row.session_id;
  exchange_id = row.exchange_id;
  project_id = unwrap_or_default row.project_id;
  asset = unwrap_or_default row.asset;
  amount = amount_or_default row.amount;
  recipient = unwrap_or_default row.recipient;
  pay_url = unwrap_or_default row.pay_url;
  tx_hash = tx_hash;
  failure_reason = failure_reason;
}

-- The table after a transaction that is rolled back: only the sequence has moved.
abbrev pub rolled_back : Ledger → Ledger → Ledger
rolled_back before after = record { rows = before.rows; next_id = after.next_id }

module _ (W : World) where
  -- The end of a transaction on a table that it has changed.
  finish : Ledger → Ledger → Commit × W.Net → Outcome × Run W.Net
  finish before after (committed, net) = (none, record { ledger = after; net = net })
  finish before after (lost true e, net) =
      (some (DatabaseError.sqlx_error e), record { ledger = after; net = net })
  finish before after (lost false e, net) =
      (some (DatabaseError.sqlx_error e), record { ledger = rolled_back before after; net = net })

  -- After the event of a transaction, an error of which rolls it back.
  report : Ledger → Ledger → Option Foreign × W.Net → Outcome × Run W.Net
  unfolding finish
  report before after (none, net) = finish before after (W.commit net)
  report before after (some e, net) =
      (some (DatabaseError.bad_argument e), record { ledger = rolled_back before after; net = net })

  -- After a statement that returns a row.
  returned :
      (ExchangeTransaction → ExchangeEventInfo)
      → Ledger
      → (DatabaseError ⊎ ExchangeTransaction) × Ledger
      → W.Net
      → Outcome × Run W.Net
  unfolding report
  returned info before (inl e, after) net =
      (some e, record { ledger = rolled_back before after; net = net })
  returned info before (inr row, after) net =
      report before after (W.exchange_transaction_event (info row) net)

  -- A statement in the transaction that started at a time, if nothing keeps it from being run.
  guarded : (W.Net → Outcome × Run W.Net) → Ledger → Option Foreign × W.Net → Outcome × Run W.Net
  guarded next before (none, net) = next net
  guarded next before (some e, net) =
      (some (DatabaseError.sqlx_error e), record { ledger = before; net = net })

  -- `begin` and a statement, which gets the time of the start.
  in_transaction : (ℕ → Ledger → W.Net → Outcome × Run W.Net) → Run W.Net → Outcome × Run W.Net
  unfolding guarded
  in_transaction statement run =
      guarded (λ net. guarded (statement (W.now net) run.ledger) run.ledger (W.fault net))
        run.ledger (W.begin run.net)

  -- The check of the exchange in front of each of the four functions.
  stored :
      Option ExchangeType
      → (ℕ → Ledger → W.Net → Outcome × Run W.Net)
      → Run W.Net
      → Outcome × Run W.Net
  unfolding in_transaction
  stored none statement run = (some (DatabaseError.bad_argument "Invalid exchange id"), run)
  stored (some e) statement run =
      if is_transaction_storage_enabled e then in_transaction statement run else (none, run)

  unfoldable pub create : NewExchangeTransaction → Run W.Net → Outcome × Run W.Net
  unfolding stored returned
  create args run =
      stored (from_id args.exchange_id)
        (λ now l net.
          returned (λ row. event_info started row none none) l (insert_new W.sqlx args now l) net)
        run

  unfoldable pub mark_succeeded : String → String → Option String → Run W.Net → Outcome × Run W.Net
  unfolding stored returned
  mark_succeeded session_id exchange_id tx_hash run =
      stored (from_id exchange_id)
        (λ now l net.
          returned (λ row. event_info completed row tx_hash none) l
            (update_status W.sqlx
              (record {
                session_id = session_id;
                status = TxStatus.succeeded;
                tx_hash = tx_hash;
                failure_reason = none;
              })
              now l)
            net)
        run

  unfoldable pub mark_failed :
      String → String → Option String → Option String → Run W.Net → Outcome × Run W.Net
  unfolding stored returned
  mark_failed session_id exchange_id failure_reason tx_hash run =
      stored (from_id exchange_id)
        (λ now l net.
          returned (λ row. event_info failed row tx_hash row.failure_reason) l
            (update_status W.sqlx
              (record {
                session_id = session_id;
                status = TxStatus.failed;
                tx_hash = tx_hash;
                failure_reason = failure_reason;
              })
              now l)
            net)
        run

  unfoldable pub touch_pending : String → String → Run W.Net → Outcome × Run W.Net
  unfolding stored finish
  touch_pending exchange_id session_id run =
      stored (from_id exchange_id)
        (λ now l net. finish l (touch_non_terminal session_id now l) (W.commit net)) run
