-- ===== src/Exchanges/Reconciler/Settles.antt =====
-- src/handlers/json_rpc/exchanges/reconciler.rs: no transaction stays pending for ever.
use blockchain_api.Prelude.{
  true, false, String, map, filter, any, All-filter, some, inl, inr, ◌≡◌, ◌∙◌, arith, nat_eq,
  string_eq, Bool-cases,
}
use blockchain_api.Exchanges.{from_id}
use blockchain_api.Exchanges.Ledger.{
  TxStatus, Ledger, has_session, is_pending, is_among, claim_row, claim_due_batch, candidates,
}
use blockchain_api.Exchanges.Ledger.Valid.{claim_row-Keeps}
use blockchain_api.Exchanges.Ledger.Batches.{claim_due_batch-nonempty}
use blockchain_api.Exchanges.Ledger.Refinement.{view}
use blockchain_api.Exchanges.Transactions.{World, Run}
use blockchain_api.Exchanges.Transactions.Reliable.{IsReliable, is_stored}
use blockchain_api.Exchanges.Reconciler.{poll, poll_with, claim_batch_size}
use blockchain_api.Exchanges.Reconciler.Ready.{any-map}
use blockchain_api.Exchanges.Reconciler.Batch.{Waits, process_batch-Done}
use blockchain_api.Exchanges.Reconciler.Overdue.{
  Overdue, filter-left_out, claimed-old, claimed-stored, left_out-ready, Overdue-due,
}

module _ (W : World) (reliable : IsReliable W) (s : String) (net : W.Net) where
  claimed-Waits :
      (l : Ledger)
      → Overdue W s net l.rows
      → Waits W reliable s
          (W.now net)
          (claim_due_batch (W.held net) claim_batch_size (W.now net) l).0
          (record {
            ledger = (claim_due_batch (W.held net) claim_batch_size (W.now net) l).1;
            net = net;
          })
  unfolding claim_due_batch
  claimed-Waits l h =
      let chosen = candidates (W.held net) claim_batch_size (W.now net) l.rows in
      let rows = map (claim_row chosen (W.now net)) l.rows in
      (
        claimed-old W reliable s net chosen l.rows h,
        All-filter (λ b. (has_session s b ≡ true) → is_stored (from_id b.exchange_id) ≡ true)
            (is_among chosen) rows (claimed-stored W reliable s net chosen l.rows h),
        elim (Bool-cases (any (has_session s) (filter (is_among chosen) rows))) [
          | inl e ↦ inr e
          | inr e ↦ inl (
              left_out-ready W reliable s net chosen l.rows h
                (filter-left_out (has_session s) (is_among chosen) rows e))
        ],
      )

-- With a database and analytics that work and a clock that does not go back: a poll settles each
-- session whose transactions are overdue, which is due for a claim, more than twelve hours old, not
-- locked in the last twenty minutes nor held, of an exchange that is asked; whatever the exchanges
-- answer, and also when the batch is too small to claim it, its status is a final one afterwards.
pub poll-settles :
    (W : World) (reliable : IsReliable W) (s : String) (run : Run W.Net)
    → any (has_session s) run.ledger.rows ≡ true
    → Overdue W s (W.fault run.net).1 run.ledger.rows
    → (t : TxStatus) × (view (poll W run).ledger s ≡ some t) × (is_pending t ≡ false)
unfolding poll poll_with claim_due_batch
poll-settles W reliable s run there h =
    let net = (W.fault run.net).1 in
    let claimed = claim_due_batch (W.held net) claim_batch_size (W.now net) run.ledger in
    rw (reliable.sound run.net, poll_with)
      (process_batch-Done W reliable s (W.now net) claimed.0
        (record { ledger = claimed.1; net = net })
        (claim_due_batch-nonempty (W.held net) 199 (W.now net) run.ledger
          (Overdue-due W reliable s net run.ledger.rows there h))
        (omega arith) (claimed-any net) (claimed-Waits W reliable s net run.ledger h))
  where
    claimed-any :
        (net : W.Net)
        → any
            (has_session s)
            (claim_due_batch (W.held net) claim_batch_size (W.now net) run.ledger).1.rows
          ≡ true
    claimed-any net = any-map s (claim_row-Keeps _ (W.now net)) run.ledger.rows ∙ there
