-- ===== src/Exchanges/Reconciler/Overdue.antt =====
-- src/handlers/json_rpc/exchanges/reconciler.rs: the rows that a poll has to settle, once claimed.
use blockchain_api.Prelude.{
  Bool, true, false, not, ◌&&◌, ◌||◌, String, List, [], ◌∷◌, map, filter, any, All, All-map,
  All-of_map, inl, inr, ◌≡◌, refl, arith, ==_iff, nat_eq, string_eq, Bool-cases,
}
use blockchain_api.Exchanges.{from_id}
use blockchain_api.Exchanges.Ledger.{
  ExchangeTransaction, has_session, is_due, is_expired, is_among, claim_row,
}
use blockchain_api.Exchanges.Transactions.{World}
use blockchain_api.Exchanges.Transactions.Reliable.{IsReliable, is_stored}
use blockchain_api.Exchanges.Reconciler.{expire_pending_after_hours}
use blockchain_api.Exchanges.Reconciler.Ready.{is_old, is_ready}

-- A pending transaction that a poll has to settle: due for a claim, twelve hours old, not locked in
-- the last twenty minutes nor held by another transaction, of an exchange that is asked.
unfoldable pub is_overdue : (W : World) → W.Net → ExchangeTransaction → Bool
is_overdue W net row =
    is_due (W.now net) row
    && is_expired expire_pending_after_hours (W.now net) row
    && not (W.held net row.id)
    && is_stored (from_id row.exchange_id)

pub filter-left_out :
    (p q : ExchangeTransaction → Bool) (rows : List ExchangeTransaction)
    → any p (filter q rows) ≡ false
    → All (λ r. p r ≡ true → q r ≡ false) rows
filter-left_out p q [] h = tt
filter-left_out p q (row ∷ rows) h = elim (Bool-cases (q row)) [
  | inl e ↦ (
    λ there. absurd (clash (p row) _ there (rw e at h)),
    filter-left_out p q rows (rest (p row) _ (rw e at h)),
  )
  | inr e ↦ (λ _. e, filter-left_out p q rows (rw e at h))
]
  where
    clash : (b c : Bool) → b ≡ true → (b || c) ≡ false → ⊥
    clash b c e f = ground arith

    rest : (b c : Bool) → (b || c) ≡ false → c ≡ false
    rest b c e = ground arith

-- All transactions of a session are overdue.
abbrev pub Overdue : (W : World) → String → W.Net → List ExchangeTransaction → Type 0
Overdue W s net = All (λ r. r.session_id ≡ s → is_overdue W net r ≡ true)

module _ (W : World) (reliable : IsReliable W) (s : String) (net : W.Net) where
  overdue-row :
      (r : ExchangeTransaction)
      → (r.session_id ≡ s → is_overdue W net r ≡ true)
      → has_session s r ≡ true
      → is_overdue W net r ≡ true
  overdue-row r f h = f ((==_iff r.session_id s).0 h)

  pub claimed-old :
      (chosen rows : List ExchangeTransaction)
      → Overdue W s net rows
      → All (λ r. is_old s (W.now net) r ≡ true) (map (claim_row chosen (W.now net)) rows)
  unfolding is_overdue is_expired
  claimed-old chosen rows h =
      All-of_map (λ r. is_old s (W.now net) r ≡ true) (claim_row chosen (W.now net)) rows
        (All-map {Q = λ r. is_old s (W.now net) (claim_row chosen (W.now net) r) ≡ true}
          (λ r f. ground (arith, overdue-row r f)) rows h)

  stored-claimed :
      (chosen : List ExchangeTransaction) (r : ExchangeTransaction)
      → (r.session_id ≡ s → is_overdue W net r ≡ true)
      → has_session s (claim_row chosen (W.now net) r) ≡ true
      → is_stored (from_id (claim_row chosen (W.now net) r).exchange_id) ≡ true
  unfolding is_overdue
  stored-claimed chosen r f there = elim (Bool-cases (is_among chosen r)) [
    | inl e ↦ rw (e, claim_row) (last (overdue-row r f (rw (e, claim_row) at there)))
    | inr e ↦ rw (e, claim_row) (last (overdue-row r f (rw (e, claim_row) at there)))
  ]
    where
      last : is_overdue W net r ≡ true → is_stored (from_id r.exchange_id) ≡ true
      last h = ground arith

  ready-claimed :
      (chosen : List ExchangeTransaction) (r : ExchangeTransaction)
      → (r.session_id ≡ s → is_overdue W net r ≡ true)
      → (has_session s (claim_row chosen (W.now net) r) ≡ true
          → is_among chosen (claim_row chosen (W.now net) r) ≡ false)
      → is_ready s (W.now net) (claim_row chosen (W.now net) r) ≡ true
  unfolding is_overdue is_expired
  ready-claimed chosen r f g = elim (Bool-cases (is_among chosen r)) [
    | inl e ↦
        rw (e, claim_row)
          (elim (Bool-cases (has_session s r)) [
            | inl h ↦ absurd (clash e ((rw (e, claim_row) at g) h))
            | inr h ↦ rw h refl
          ])
    | inr e ↦ rw (e, claim_row) (ground (arith, overdue-row r f))
  ]
    where
      clash : {b : Bool} → b ≡ true → b ≡ false → ⊥
      clash p q = cc

  pub claimed-stored :
      (chosen rows : List ExchangeTransaction)
      → Overdue W s net rows
      → All
          (λ b. (has_session s b ≡ true) → is_stored (from_id b.exchange_id) ≡ true)
          (map (claim_row chosen (W.now net)) rows)
  claimed-stored chosen rows h =
      All-of_map (λ b. (has_session s b ≡ true) → is_stored (from_id b.exchange_id) ≡ true)
        (claim_row chosen (W.now net)) rows
        (All-map
          {Q = λ r.
            (has_session s (claim_row chosen (W.now net) r) ≡ true)
            → is_stored (from_id (claim_row chosen (W.now net) r).exchange_id) ≡ true}
          (stored-claimed chosen) rows h)

  pub left_out-ready :
      (chosen rows : List ExchangeTransaction)
      → Overdue W s net rows
      → All
          (λ r. has_session s r ≡ true → is_among chosen r ≡ false)
          (map (claim_row chosen (W.now net)) rows)
      → All (λ r. is_ready s (W.now net) r ≡ true) (map (claim_row chosen (W.now net)) rows)
  left_out-ready chosen [] h k = tt
  left_out-ready chosen (row ∷ rows) (f, h) (g, k) =
      (ready-claimed chosen row f g, left_out-ready chosen rows h k)

  pub Overdue-due :
      (rows : List ExchangeTransaction)
      → any (has_session s) rows ≡ true
      → Overdue W s net rows
      → any (λ row. is_due (W.now net) row && not (W.held net row.id)) rows ≡ true
  unfolding is_overdue
  Overdue-due [] h k = cc
  Overdue-due (row ∷ rows) h (f, k) = elim (Bool-cases (has_session s row)) [
    | inl e ↦ first (overdue-row row f e)
    | inr e ↦ or-right _ _ (Overdue-due rows (rw e at h) k)
  ]
    where
      first :
          is_overdue W net row ≡ true
          → any (λ row. is_due (W.now net) row && not (W.held net row.id)) (row ∷ rows) ≡ true
      first h = ground arith

      or-right : (b c : Bool) → c ≡ true → (b || c) ≡ true
      or-right b c e = ground arith
