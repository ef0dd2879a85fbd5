-- ===== src/Exchanges/Reconciler/Batch.antt =====
-- src/handlers/json_rpc/exchanges/reconciler.rs: the rows of a batch, and the expiry after them.
use blockchain_api.Prelude.{
  ℕ, ◌≤◌, Bool, true, false, not, String, List, [], ◌∷◌, map, any, All, Option, some, ◌⊎◌, inl, inr,
  ◌≡◌, ◌≢◌, refl, ◌∙◌, arith, ==_iff, nat_eq, string_eq, Bool-cases, subst,
}
use blockchain_api.Exchanges.{from_id}
use blockchain_api.Exchanges.Ledger.{
  TxStatus, ExchangeTransaction, has_session, is_pending, expire_row, expire_old_pending,
}
use blockchain_api.Exchanges.Ledger.Valid.{expire_row-Keeps}
use blockchain_api.Exchanges.Ledger.Refinement.{view}
use blockchain_api.Exchanges.Transactions.{World, Run}
use blockchain_api.Exchanges.Transactions.Reliable.{IsReliable, Treated, Effect, is_stored}
use blockchain_api.Exchanges.Reconciler.Effects.{process_row-Effect}
use blockchain_api.Exchanges.Reconciler.{
  process_row, process_rows, process_batch, expire, expire_pending_after_hours,
}
use blockchain_api.Exchanges.Reconciler.Ready.{
  is_old, is_ready, is_settled, any-map, Treated-any, Treated-old, Treated-ready, Treated-released,
  expire-settled,
}

module _ (W : World) (reliable : IsReliable W) (s : String) (t : ℕ) where
  -- What processing a batch needs and gives.
  abbrev pub Waits : List ExchangeTransaction → Run W.Net → Type 0
  Waits batch run =
      (All (λ r. is_old s t r ≡ true) run.ledger.rows)
      × (All (λ b. (has_session s b ≡ true) → is_stored (from_id b.exchange_id) ≡ true) batch)
      × ((All (λ r. is_ready s t r ≡ true) run.ledger.rows) ⊎ (any (has_session s) batch ≡ true))

  abbrev pub Done : Run W.Net → Run W.Net → Type 0
  Done run run' =
      (W.now run.net ≤ W.now run'.net)
      × (any (has_session s) run'.ledger.rows ≡ any (has_session s) run.ledger.rows)
      × All (λ r. is_ready s t r ≡ true) run'.ledger.rows

  process_row-Waits :
      (row : ExchangeTransaction) (batch : List ExchangeTransaction) (u : Option TxStatus)
      (run run' : Run W.Net)
      → Effect W reliable (from_id row.exchange_id) row.session_id u run run'
      → Waits (row ∷ batch) run
      → (W.now run.net ≤ W.now run'.net)
        × (any (has_session s) run'.ledger.rows ≡ any (has_session s) run.ledger.rows)
        × Waits batch run'
  process_row-Waits row batch u run run' (inl e) (old, stored, aim) = (
    e.later,
    Treated-any s e.treated,
    (
      Treated-old s t e.treated old,
      stored.1,
      elim aim [
        | inl ready ↦ inl (Treated-ready s t e.treated ready)
        | inr there ↦ elim (Bool-cases (has_session s row)) [
          | inl h ↦ inl (
              Treated-released s t
                (subst (λ x. Treated x u run.ledger.rows run'.ledger.rows)
                  ((==_iff row.session_id s).0 h) e.treated)
                old)
          | inr h ↦ inr (rw h at there)
        ]
      ],
    ),
  )
  process_row-Waits row batch u run run' (inr (later, same, off)) (old, stored, aim) = (
    later,
    rw same refl,
    rw same (
      old,
      stored.1,
      elim aim [
        | inl ready ↦ inl ready
        | inr there ↦ elim (Bool-cases (has_session s row)) [
          | inl h ↦ absurd (clash (stored.0 h) off)
          | inr h ↦ inr (rw h at there)
        ]
      ],
    ),
  )
    where
      clash : {b : Bool} → b ≡ true → b ≡ false → ⊥
      clash p q = cc

  process_rows-Done :
      (batch : List ExchangeTransaction) (run : Run W.Net)
      → Waits batch run
      → Done run (process_rows W batch run)
  process_rows-Done [] run (old, stored, inl ready) = (omega arith, refl, ready)
  process_rows-Done [] run (old, stored, inr there) = cc
  process_rows-Done (row ∷ batch) run waits =
      let step =
        process_row-Waits row batch _ run (process_row W row run)
          (process_row-Effect W reliable row run).1 waits in
      let rest = process_rows-Done batch (process_row W row run) step.2 in
      (omega (arith, step.0, rest.0), rest.1 ∙ step.1, rest.2)

-- What the rows of a session show of its status.
settled-view :
    (s : String) (rows : List ExchangeTransaction) (n : ℕ)
    → any (has_session s) rows ≡ true
    → All (λ r. is_settled s r ≡ true) rows
    → (t : TxStatus) × (view (record { rows = rows; next_id = n }) s ≡ some t)
      × (is_pending t ≡ false)
unfolding view
settled-view s [] n h k = cc
settled-view s (row ∷ rows) n h (p, k) = elim (Bool-cases (has_session s row)) [
  | inl e ↦ (row.status, rw e refl, not-true (is_pending row.status) (rw e at p))
  | inr e ↦ rw e (settled-view s rows n (rw e at h) k)
]
  where
    not-true : (b : Bool) → not b ≡ true → b ≡ false
    not-true b e = ground arith

module _ (W : World) (reliable : IsReliable W) (s : String) (t : ℕ) where
  expire-Done :
      (run : Run W.Net)
      → t ≤ W.now run.net
      → any (has_session s) run.ledger.rows ≡ true
      → All (λ r. is_ready s t r ≡ true) run.ledger.rows
      → (u : TxStatus) × (view (expire W run (W.fault run.net)).ledger s ≡ some u)
        × (is_pending u ≡ false)
  unfolding expire expire_old_pending
  expire-Done run le there ready =
      let now = W.now (W.fault run.net).1 in
      rw (reliable.sound run.net, expire)
        (settled-view s (map (expire_row expire_pending_after_hours now) run.ledger.rows)
          run.ledger.next_id
          (any-map s (expire_row-Keeps expire_pending_after_hours now) run.ledger.rows ∙ there)
          (expire-settled s t now run.ledger.rows (omega (arith, le, reliable.after_fault run.net))
            ready))

  pub process_batch-Done :
      (batch : List ExchangeTransaction) (run : Run W.Net)
      → batch ≢ []
      → t ≤ W.now run.net
      → any (has_session s) run.ledger.rows ≡ true
      → Waits W reliable s t batch run
      → (u : TxStatus) × (view (process_batch W batch run).ledger s ≡ some u)
        × (is_pending u ≡ false)
  unfolding process_batch
  process_batch-Done [] run h le there waits = absurd (h refl)
  process_batch-Done (row ∷ batch) run h le there waits =
      let done = process_rows-Done W reliable s t (row ∷ batch) run waits in
      expire-Done (process_rows W (row ∷ batch) run) (omega (arith, le, done.0)) (done.1 ∙ there)
        done.2
