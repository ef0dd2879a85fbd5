-- ===== src/Exchanges/Transactions/Created.antt =====
-- src/handlers/json_rpc/exchanges/transactions.rs: what is in the table once `create` succeeds.
use blockchain_api.Prelude.{
  ℕ, true, false, Option, none, some, ◌⊎◌, inl, inr, ◌≡◌, refl, ap, sym, ◌∙◌, string_eq,
}
use blockchain_api.Errors.{Foreign}
use blockchain_api.Exchanges.{ExchangeType, binance, coinbase, reown_test, from_id}
use blockchain_api.Exchanges.Ledger.{
  DatabaseError, TxStatus, ExchangeTransaction, NewExchangeTransaction, Ledger, insert_new,
}
use blockchain_api.Exchanges.Ledger.Refinement.{view, view-insert}
use blockchain_api.Exchanges.Transactions.{
  World, Run, Commit, committed, lost, Outcome, ExchangeEventInfo, started, event_info, finish,
  report, returned, guarded, in_transaction, stored, create,
}
use blockchain_api.Exchanges.Transactions.Reliable.{is_stored}

module _ (W : World) where
  finish-none :
      (before after : Ledger) (c : Commit × W.Net)
      → (finish W before after c).0 ≡ none
      → (finish W before after c).1.ledger ≡ after
  unfolding finish
  finish-none before after (committed, net) h = refl
  finish-none before after (lost true e, net) h = cc
  finish-none before after (lost false e, net) h = cc

  report-none :
      (before after : Ledger) (x : Option Foreign × W.Net)
      → (report W before after x).0 ≡ none
      → (report W before after x).1.ledger ≡ after
  unfolding report
  report-none before after (none, net) h = finish-none before after (W.commit net) h
  report-none before after (some e, net) h = cc

  returned-none :
      (info : ExchangeTransaction → ExchangeEventInfo) (before : Ledger)
      (r : (DatabaseError ⊎ ExchangeTransaction) × Ledger) (net : W.Net)
      → (returned W info before r net).0 ≡ none
      → ((returned W info before r net).1.ledger ≡ r.1)
        × (row : ExchangeTransaction) × (r.0 ≡ inr row)
  unfolding returned
  returned-none info before (inl e, after) net h = cc
  returned-none info before (inr row, after) net h =
      (report-none before after (W.exchange_transaction_event (info row) net) h, row, refl)

  guarded-none :
      (next : W.Net → Outcome × Run W.Net) (before : Ledger) (x : Option Foreign × W.Net)
      → (guarded W next before x).0 ≡ none
      → (net : W.Net) × (guarded W next before x ≡ next net)
  unfolding guarded
  guarded-none next before (none, net) h = (net, refl)
  guarded-none next before (some e, net) h = cc

  in_transaction-none :
      (statement : ℕ → Ledger → W.Net → Outcome × Run W.Net) (run : Run W.Net)
      → (in_transaction W statement run).0 ≡ none
      → (now : ℕ) × (net : W.Net) × (in_transaction W statement run ≡ statement now run.ledger net)
  unfolding in_transaction
  in_transaction-none statement run h =
      let begun =
        guarded-none (λ net. guarded W (statement (W.now net) run.ledger) run.ledger (W.fault net))
          run.ledger (W.begin run.net) h in
      let sound =
        guarded-none (statement (W.now begun.0) run.ledger) run.ledger (W.fault begun.0)
          (ap (λ (a : Outcome × Run W.Net). a.0) (sym begun.1) ∙ h) in
      (W.now begun.0, sound.0, begun.1 ∙ sound.1)

  -- The statement of `create` on a table.
  abbrev insertion : NewExchangeTransaction → ℕ → Ledger → W.Net → Outcome × Run W.Net
  insertion args now l net =
      returned W (λ row. event_info started row none none) l (insert_new W.sqlx args now l) net

  insertion-pending :
      (args : NewExchangeTransaction) (run : Run W.Net)
      → (in_transaction W (insertion args) run).0 ≡ none
      → view (in_transaction W (insertion args) run).1.ledger args.session_id
        ≡ some TxStatus.pending
  insertion-pending args run h =
      let ran = in_transaction-none (insertion args) run h in
      let inserted = insert_new W.sqlx args ran.0 run.ledger in
      let got =
        returned-none (λ row. event_info started row none none) run.ledger inserted ran.1
          (ap (λ (a : Outcome × Run W.Net). a.0) (sym ran.2) ∙ h) in
      rw (ran.2, got.0) (view-insert W.sqlx args ran.0 run.ledger got.1 got.2)

  stored-pending :
      (args : NewExchangeTransaction) (run : Run W.Net) (exchange : Option ExchangeType)
      → is_stored exchange ≡ true
      → (stored W exchange (insertion args) run).0 ≡ none
      → view (stored W exchange (insertion args) run).1.ledger args.session_id
        ≡ some TxStatus.pending
  unfolding stored
  stored-pending args run none on h = cc
  stored-pending args run (some binance) on h = insertion-pending args run h
  stored-pending args run (some coinbase) on h = insertion-pending args run h
  stored-pending args run (some reown_test) on h = cc

  -- When `create` succeeds for an exchange whose transactions are stored, the session is pending.
  pub create-pending :
      (args : NewExchangeTransaction) (run : Run W.Net)
      → is_stored (from_id args.exchange_id) ≡ true
      → (create W args run).0 ≡ none
      → view (create W args run).1.ledger args.session_id ≡ some TxStatus.pending
  unfolding create
  create-pending args run on h = stored-pending args run (from_id args.exchange_id) on h
