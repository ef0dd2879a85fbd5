-- ===== src/Exchanges/Transactions/Reliable.antt =====
-- src/handlers/json_rpc/exchanges/transactions.rs: the table after a transaction of a database that
-- works.
use blockchain_api.Prelude.{
  ℕ, ◌≤◌, Bool, false, String, List, map, Option, none, some, ◌⊎◌, inl, inr, ◌≡◌, refl, sym, arith,
  Bool-cases, any,
}
use blockchain_api.Exchanges.{
  ExchangeType, binance, coinbase, reown_test, from_id, is_transaction_storage_enabled,
}
use blockchain_api.Exchanges.Ledger.{
  has_session, TxStatus, ExchangeTransaction, Ledger, UpdateExchangeStatus, update_row,
  update_status, touch_row, touch_non_terminal,
}
use blockchain_api.Exchanges.Ledger.Updates.{
  update-absent, update_status-absent, update_status-present,
}
use blockchain_api.Exchanges.Transactions.{
  World, Run, committed, ExchangeEventInfo, finish, report, returned, guarded, in_transaction,
  stored, mark_failed, mark_succeeded, touch_pending, Outcome, event_info, failed, completed,
}

-- A database and an analytics collector that answer, and a clock that does not go back.
pub record IsReliable (W : World) : Type 0 where
  pub begun : (net : W.Net) → (W.begin net).0 ≡ none
  pub sound : (net : W.Net) → (W.fault net).0 ≡ none
  pub kept : (net : W.Net) → (W.commit net).0 ≡ committed
  pub collected :
      (info : ExchangeEventInfo) (net : W.Net) → (W.exchange_transaction_event info net).0 ≡ none
  pub after_begin : (net : W.Net) → W.now net ≤ W.now (W.begin net).1
  pub after_fault : (net : W.Net) → W.now net ≤ W.now (W.fault net).1
  pub after_commit : (net : W.Net) → W.now net ≤ W.now (W.commit net).1
  pub after_event :
      (info : ExchangeEventInfo) (net : W.Net)
      → W.now net ≤ W.now (W.exchange_transaction_event info net).1
  pub after_answer :
      (e : ExchangeType) (params : _) (net : W.Net)
      → W.now net ≤ W.now (W.get_buy_status e params net).1

abbrev pub is_stored : Option ExchangeType → Bool
is_stored none = false
is_stored (some e) = is_transaction_storage_enabled e

-- The rows of a session get a status, or are only released.
pub data Treated (s : String) (u : Option TxStatus) (rows rows' : List ExchangeTransaction)
    : Type 0 where
  updated :
      (tx : UpdateExchangeStatus) (now : ℕ)
      → tx.session_id ≡ s
      → u ≡ some tx.status
      → rows' ≡ map (update_row tx now) rows
      → Treated s u rows rows'
  touched : (now : ℕ) → u ≡ none → rows' ≡ map (touch_row s now) rows → Treated s u rows rows'

module _ (W : World) (reliable : IsReliable W) where
  pub record Treats (s : String) (u : Option TxStatus) (run run' : Run W.Net) : Type 0 where
    pub later : W.now run.net ≤ W.now run'.net
    pub treated : Treated s u run.ledger.rows run'.ledger.rows

  finish-reliable :
      (before after : Ledger) (net : W.Net)
      → (finish W before after (W.commit net)).1 ≡ record { ledger = after; net = (W.commit net).1 }
  unfolding finish
  finish-reliable before after net = rw (reliable.kept net, finish) refl

  report-reliable :
      (before after : Ledger) (info : ExchangeEventInfo) (net : W.Net)
      → (report W before after (W.exchange_transaction_event info net)).1
        ≡ record { ledger = after; net = (W.commit (W.exchange_transaction_event info net).1).1 }
  unfolding report
  report-reliable before after info net =
      rw (reliable.collected info net, report)
        (finish-reliable before after (W.exchange_transaction_event info net).1)

  in_transaction-reliable :
      (statement : ℕ → Ledger → W.Net → Outcome × Run W.Net) (run : Run W.Net)
      → in_transaction W statement run
        ≡ statement (W.now (W.begin run.net).1) run.ledger (W.fault (W.begin run.net).1).1
  unfolding in_transaction guarded
  in_transaction-reliable statement run =
      rw (reliable.begun run.net, guarded) (rw (reliable.sound (W.begin run.net).1, guarded) refl)

  update-found :
      (info : ExchangeTransaction → ExchangeEventInfo) (tx : UpdateExchangeStatus) (run : Run W.Net)
      (now : ℕ) (net : W.Net)
      → W.now run.net ≤ W.now net
      → (row : ExchangeTransaction) × ((update_status W.sqlx tx now run.ledger).0 ≡ inr row)
      → Treats tx.session_id
          (some tx.status)
          run
          (returned W info run.ledger (update_status W.sqlx tx now run.ledger) net).1
  unfolding returned update_status
  update-found info tx run now net started (row, e) =
      rw (e, returned)
        (rw (report-reliable run.ledger (update_status W.sqlx tx now run.ledger).1 (info row) net)
          (record {
            later = omega (
              arith,
              started,
              reliable.after_event (info row) net,
              reliable.after_commit (W.exchange_transaction_event (info row) net).1,
            );
            treated = Treated.updated tx now refl refl refl;
          }))

  update-Treats :
      (info : ExchangeTransaction → ExchangeEventInfo) (tx : UpdateExchangeStatus) (run : Run W.Net)
      → Treats tx.session_id
          (some tx.status)
          run
          (in_transaction W
            (λ now l net. returned W info l (update_status W.sqlx tx now l) net)
            run).1
  unfolding returned
  update-Treats info tx run =
      let net = (W.fault (W.begin run.net).1).1 in
      let now = W.now (W.begin run.net).1 in
      let started : W.now run.net ≤ W.now net =
        omega (arith, reliable.after_begin run.net, reliable.after_fault (W.begin run.net).1) in
      rw
        (in_transaction-reliable
          (λ now l net. returned W info l (update_status W.sqlx tx now l) net) run)
        (elim (Bool-cases (any (has_session tx.session_id) run.ledger.rows)) [
          | inl h ↦
              update-found info tx run now net started
                (update_status-present W.sqlx tx now run.ledger h)
          | inr h ↦ rw (update_status-absent W.sqlx tx now run.ledger h) (record {
            later = started;
            treated =
                Treated.updated tx now refl refl (sym (update-absent tx now run.ledger.rows h));
          })
        ])

  touch-Treats :
      (session_id : String) (run : Run W.Net)
      → Treats session_id none run
          (in_transaction W
            (λ now l net. finish W l (touch_non_terminal session_id now l) (W.commit net))
            run).1
  unfolding touch_non_terminal
  touch-Treats session_id run =
      let net = (W.fault (W.begin run.net).1).1 in
      let now = W.now (W.begin run.net).1 in
      rw
        (in_transaction-reliable
          (λ now l net. finish W l (touch_non_terminal session_id now l) (W.commit net)) run)
        (rw (finish-reliable run.ledger (touch_non_terminal session_id now run.ledger) net)
          (record {
            later = omega (
              arith,
              reliable.after_begin run.net,
              reliable.after_fault (W.begin run.net).1,
              reliable.after_commit net,
            );
            treated = Treated.touched now refl refl;
          }))

  -- A row is treated, or its exchange is one whose transactions are not stored.
  abbrev pub Effect :
      Option ExchangeType → String → Option TxStatus → Run W.Net → Run W.Net → Type 0
  Effect exchange s u run run' =
      Treats s u run run'
      ⊎ ((W.now run.net ≤ W.now run'.net)
          × (run'.ledger ≡ run.ledger)
          × (is_stored exchange ≡ false))

  stored-Effect :
      (exchange : Option ExchangeType) (s : String) (u : Option TxStatus)
      (statement : ℕ → Ledger → W.Net → Outcome × Run W.Net) (run : Run W.Net)
      → Treats s u run (in_transaction W statement run).1
      → Effect exchange s u run (stored W exchange statement run).1
  unfolding stored
  stored-Effect none s u statement run h = inr (omega arith, refl, refl)
  stored-Effect (some binance) s u statement run h = inl h
  stored-Effect (some coinbase) s u statement run h = inl h
  stored-Effect (some reown_test) s u statement run h = inr (omega arith, refl, refl)

  pub mark_failed-Effect :
      (s exchange_id : String) (reason tx_hash : Option String) (run : Run W.Net)
      → Effect
          (from_id exchange_id)
          s
          (some TxStatus.failed)
          run
          (mark_failed W s exchange_id reason tx_hash run).1
  unfolding mark_failed
  mark_failed-Effect s exchange_id reason tx_hash run =
      stored-Effect (from_id exchange_id) s (some TxStatus.failed) _ run (
        update-Treats (λ row. event_info failed row tx_hash row.failure_reason)
          (record {
            session_id = s;
            status = TxStatus.failed;
            tx_hash = tx_hash;
            failure_reason = reason;
          })
          run)

  pub mark_succeeded-Effect :
      (s exchange_id : String) (tx_hash : Option String) (run : Run W.Net)
      → Effect
          (from_id exchange_id)
          s
          (some TxStatus.succeeded)
          run
          (mark_succeeded W s exchange_id tx_hash run).1
  unfolding mark_succeeded
  mark_succeeded-Effect s exchange_id tx_hash run =
      stored-Effect (from_id exchange_id) s (some TxStatus.succeeded) _ run (
        update-Treats (λ row. event_info completed row tx_hash none)
          (record {
            session_id = s;
            status = TxStatus.succeeded;
            tx_hash = tx_hash;
            failure_reason = none;
          })
          run)

  pub touch_pending-Effect :
      (s exchange_id : String) (run : Run W.Net)
      → Effect (from_id exchange_id) s none run (touch_pending W exchange_id s run).1
  unfolding touch_pending
  touch_pending-Effect s exchange_id run =
      stored-Effect (from_id exchange_id) s none _ run (touch-Treats s run)
