-- ===== src/Exchanges/Tests.antt =====
-- Runs of src/handlers/json_rpc/exchanges and src/database/exchange_reconciliation.rs.
pub mod Urls
use blockchain_api.Prelude.{
  ℕ, ◌+◌, ◌≤◌, ◌<◌, Bool, true, false, String, List, [], ◌∷◌, Option, none, some, ◌⊎◌, inl, inr,
  ◌≡◌, refl, arith, any,
}
use blockchain_api.Errors.{Foreign}
use blockchain_api.Exchanges.{
  BuyTransactionStatus, success, unknown, binance, coinbase, FeatureType, Feature, from_id,
  get_exchange_by_id, is_enabled, GetBuyStatusResponse,
}
use blockchain_api.Exchanges.Ledger.{
  DatabaseError, TxStatus, ExchangeTransaction, NewExchangeTransaction, Ledger, Sqlx, insert_new,
  claim_due_batch, touch_non_terminal, expire_old_pending, update_status, hours, minutes,
  candidates, order_by, is_due, is_expired, has_session, is_pending, check_backoff_minutes,
}
use blockchain_api.Exchanges.Ledger.Claims.{takes, claim_due_batch-apart}
use blockchain_api.Exchanges.Ledger.Refinement.{Change, view, Step-Change}
use blockchain_api.Exchanges.Ledger.Steps.{
  Statement, Step, Steps, Moment, created, execute, Steps-created-IsValid, run, start, later,
}
use blockchain_api.Exchanges.Ledger.Valid.{IsValid, IsValid-later}
use blockchain_api.Exchanges.Transactions.{World, Run, Commit, committed, create, Outcome}
use blockchain_api.Exchanges.Transactions.Reliable.{IsReliable}
use blockchain_api.Exchanges.Reconciler.{poll, process_row}
use blockchain_api.Exchanges.Reconciler.Overdue.{is_overdue}
use blockchain_api.Exchanges.Reconciler.Settles.{poll-settles}
use blockchain_api.Exchanges.Reconciler.Unknown.{process_row-unknown}
use blockchain_api.Exchanges.BuyStatus.{
  GetExchangeBuyStatusRequest, Settings, handler_internal, len,
}
use blockchain_api.Exchanges.BuyStatus.Recorded.{status_after, handler_internal-records}

abbrev pub driver : Sqlx
driver = record { duplicate_key = "duplicate key"; row_not_found = "no rows" }

abbrev order : String → String → NewExchangeTransaction
order session_id exchange_id = record {
  session_id = session_id;
  exchange_id = exchange_id;
  project_id = some "p";
  asset = none;
  amount = none;
  recipient = none;
  pay_url = none;
}

-- Two sessions of a table made at time 0.
abbrev pub inserted : Moment
inserted = record {
  ledger =
      execute driver (Statement.insert (order "b" "coinbase")) 2
        (execute driver (Statement.insert (order "a" "binance")) 1 (created 0).ledger);
  time = 2;
}

insertions : Steps driver (created 0) inserted
insertions =
    later (later start (run (Statement.insert (order "a" "binance")) 1 (omega arith)))
      (run (Statement.insert (order "b" "coinbase")) 2 (omega arith))

Steps-created-IsValid_example : IsValid 2 inserted.ledger
Steps-created-IsValid_example = Steps-created-IsValid driver {m = inserted} insertions

Step-Change_example :
    Change
      (view inserted.ledger)
      (view (execute driver (Statement.expire 12) (hours 13) inserted.ledger))
Step-Change_example =
    Step-Change driver {m = inserted} (run (Statement.expire 12) (hours 13) (omega arith))

duplicates :
    (insert_new driver (order "a" "coinbase") 3 inserted.ledger).0
    ≡ inl (DatabaseError.sqlx_error "duplicate key")
unfolding insert_new
duplicates = refl

abbrev none_held : ℕ → Bool
none_held id = false

-- Claimed at four hours, touched, and claimed again six minutes later.
abbrev claimed : Moment
claimed = record {
  ledger = (claim_due_batch none_held 200 (hours 4) inserted.ledger).1;
  time = hours 4;
}

touches :
    Steps driver claimed
      (record { ledger = touch_non_terminal "a" (hours 4 + 1) claimed.ledger; time = hours 4 + 1 })
touches = later start (run (Statement.touch "a") (hours 4 + 1) (omega arith))

claim_due_batch-apart_example : hours 4 + minutes check_backoff_minutes < hours 4 + minutes 6
unfolding claim_due_batch candidates order_by is_due insert_new touch_non_terminal
claim_due_batch-apart_example =
    claim_due_batch-apart driver none_held 200 (hours 4) inserted.ledger 1
      (IsValid-later inserted.ledger (omega arith) Steps-created-IsValid_example) refl touches
      none_held 200 (hours 4 + minutes 6) (omega arith) refl

-- A database that works, whose clock is `Net`; the exchange answers that all is well.
abbrev pub fine : World
fine = record {
  Net = ℕ;
  now = λ net. net;
  sqlx = driver;
  held = λ net id. false;
  begin = λ net. (none, net);
  fault = λ net. (none, net);
  commit = λ net. (committed, net);
  exchange_transaction_event = λ info net. (none, net);
  get_buy_status =
      λ e params net. (inr (record { status = success; tx_hash = some "0xabc" }), net + 1);
}

fine-IsReliable : IsReliable fine
fine-IsReliable = record {
  begun = λ net. refl;
  sound = λ net. refl;
  kept = λ net. refl;
  collected = λ info net. refl;
  after_begin = λ net. omega arith;
  after_fault = λ net. omega arith;
  after_commit = λ net. omega arith;
  after_event = λ info net. omega arith;
  after_answer = λ e params net. omega arith;
}

abbrev pub late : Run ℕ
late = record { ledger = inserted.ledger; net = hours 13 }

poll-settles_example :
    (t : TxStatus) × (view (poll fine late).ledger "a" ≡ some t) × (is_pending t ≡ false)
unfolding insert_new is_overdue is_due is_expired from_id
poll-settles_example = poll-settles fine fine-IsReliable "a" late refl (λ e. refl, (λ e. refl, tt))

abbrev settings : Settings ℕ
settings = record {
  testing_project_id = none;
  allowed_project_ids = none;
  in_config = λ f. true;
  debug = λ e. "";
  project_data_request = λ project_id net. (inr none, net);
}

abbrev request : GetExchangeBuyStatusRequest
request = record { exchange_id = "binance"; session_id = "a" }

handler_internal-records_example :
    ((handler_internal fine settings "q" request [] FeatureType.payments late).0
      ≡ inr (record { status = success; tx_hash = some "0xabc" }))
    × (view (handler_internal fine settings "q" request [] FeatureType.payments late).1.ledger "a"
        ≡ some TxStatus.succeeded)
unfolding insert_new view get_exchange_by_id len from_id is_enabled
handler_internal-records_example =
    handler_internal-records fine fine-IsReliable settings "q" request [] FeatureType.payments late
      (record { status = success; tx_hash = some "0xabc" })
      (record {
        exchange = binance;
        found = refl;
        storing = refl;
        named = refl;
        short = omega arith;
        answer = refl;
      })
      TxStatus.pending refl "a"

-- A row whose exchange was removed.
abbrev orphan : ExchangeTransaction
orphan = record {
  id = 7;
  session_id = "c";
  exchange_id = "kraken";
  project_id = some "p";
  asset = none;
  amount = none;
  recipient = none;
  pay_url = none;
  status = TxStatus.pending;
  failure_reason = none;
  tx_hash = none;
  created_at = 0;
  updated_at = hours 13;
  last_checked_at = none;
  completed_at = none;
  locked_at = some (hours 13);
}

process_row-unknown_example :
    process_row fine orphan
      (record { ledger = record { rows = orphan ∷ []; next_id = 8 }; net = hours 13 })
    ≡ record { ledger = record { rows = orphan ∷ []; next_id = 8 }; net = hours 13 }
unfolding from_id
process_row-unknown_example = process_row-unknown fine orphan _ refl
