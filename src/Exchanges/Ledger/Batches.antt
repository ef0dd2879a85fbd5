-- ===== src/Exchanges/Ledger/Batches.antt =====
-- src/database/exchange_reconciliation.rs: the batch of a claim, and the rows left out of it.
use blockchain_api.Prelude.{
  ℕ, suc, Bool, true, false, not, ◌&&◌, ◌||◌, List, [], ◌∷◌, map, take, filter, any, All,
  All-filter, ◌≡◌, ◌≢◌, inl, inr, refl, sym, arith, Bool-cases, ◌==◌, ==_refl, nat_eq,
}
use blockchain_api.Exchanges.Ledger.{
  ExchangeTransaction, Ledger, is_due, is_among, claim_row, claim_due_batch, candidates, order_by,
  insert_ordered,
}
use blockchain_api.Exchanges.Ledger.Valid.{claim_row-Keeps}
use blockchain_api.Exchanges.Ledger.Claims.{All-candidates}

insert_ordered-nonempty :
    (row : ExchangeTransaction) (rows : List ExchangeTransaction) → insert_ordered row rows ≢ []
unfolding insert_ordered
insert_ordered-nonempty row [] e = cc
insert_ordered-nonempty row (r ∷ rows) e = ground arith

candidates-nonempty :
    (held : ℕ → Bool) (n now : ℕ) (rows : List ExchangeTransaction)
    → any (λ row. is_due now row && not (held row.id)) rows ≡ true
    → candidates held (suc n) now rows ≢ []
unfolding candidates order_by
candidates-nonempty held n now rows h e =
    let due = filter (λ row. is_due now row && not (held row.id)) rows in
    taken n (order_by due) (ordered due (filtered rows h)) e
  where
    filtered :
        (rows : List ExchangeTransaction)
        → any (λ row. is_due now row && not (held row.id)) rows ≡ true
        → filter (λ row. is_due now row && not (held row.id)) rows ≢ []
    filtered [] h e = cc
    filtered (row ∷ rows) h e = ground (arith, filtered rows)

    ordered : (rows : List ExchangeTransaction) → rows ≢ [] → order_by rows ≢ []
    ordered [] h e = h refl
    ordered (row ∷ rows) h e = insert_ordered-nonempty row (order_by rows) e

    taken : (n : ℕ) (rows : List ExchangeTransaction) → rows ≢ [] → take (suc n) rows ≢ []
    taken n [] h e = h refl
    taken n (row ∷ rows) h e = cc

filter-nil :
    (p : ExchangeTransaction → Bool) (rows : List ExchangeTransaction)
    → filter p rows ≡ []
    → All (λ r. p r ≡ false) rows
filter-nil p [] e = tt
filter-nil p (row ∷ rows) e = elim (Bool-cases (p row)) [
  | inl h ↦ absurd (cons-nil (rw h at e))
  | inr h ↦ (h, filter-nil p rows (rw h at e))
]
  where
    cons-nil : {r : ExchangeTransaction} {rs : List ExchangeTransaction} → r ∷ rs ≢ []
    cons-nil e = cc

All-unmap :
    (chosen : List ExchangeTransaction) (now : ℕ) (among rows : List ExchangeTransaction)
    → All (λ r. is_among among r ≡ false) (map (claim_row chosen now) rows)
    → All (λ r. is_among among r ≡ false) rows
All-unmap chosen now among [] h = tt
All-unmap chosen now among (row ∷ rows) (p, h) =
    (rw (sym ((claim_row-Keeps chosen now).id row)) p, All-unmap chosen now among rows h)

not-among_itself :
    (chosen : List ExchangeTransaction) → All (λ c. is_among chosen c ≡ false) chosen → chosen ≡ []
not-among_itself [] h = refl
not-among_itself (c ∷ cs) h = absurd (clash (==_refl c.id) h.0)
  where
    clash : (c.id == c.id) ≡ true → (c.id == c.id || is_among cs c) ≡ false → ⊥
    clash t f = ground arith

-- A claim of at least one row takes some as soon as one is due that no other transaction holds.
pub claim_due_batch-nonempty :
    (held : ℕ → Bool) (n now : ℕ) (l : Ledger)
    → any (λ row. is_due now row && not (held row.id)) l.rows ≡ true
    → (claim_due_batch held (suc n) now l).0 ≢ []
unfolding claim_due_batch
claim_due_batch-nonempty held n now l h e =
    let chosen = candidates held (suc n) now l.rows in
    candidates-nonempty held n now l.rows h (
      not-among_itself chosen (
        All-candidates (λ c. is_among chosen c ≡ false) held (suc n) now l.rows
          (All-filter (λ c. is_among chosen c ≡ false) _ l.rows
            (All-unmap chosen now chosen l.rows
              (filter-nil (is_among chosen) (map (claim_row chosen now) l.rows) e)))))
