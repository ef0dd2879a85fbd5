-- ===== src/Exchanges/Ledger/Claims.antt =====
-- src/database/exchange_reconciliation.rs: how long a claimed row is left alone.
use blockchain_api.Prelude.{
  ℕ, ◌+◌, ◌≤◌, ◌<◌, Bool, true, false, not, ◌&&◌, ◌||◌, List, [], ◌∷◌, map, Option, none, some, inl,
  inr, ◌≡◌, arith, ◌==◌, ==_iff, nat_eq, string_eq, leb, All, All-of_map, All-map, All-of_each,
  All-filter, All-take, All-both, any-found, sym, subst, ◌∙◌, filter, filter-All, any, Bool-cases,
}
use blockchain_api.Exchanges.Ledger.{
  ExchangeTransaction, Ledger, Sqlx, NewExchangeTransaction, has_session, insert_new, update_row,
  update_status, touch_row, touch_non_terminal, is_among, claim_row, claim_due_batch, expire_row,
  expire_old_pending, candidates, order_by, insert_ordered, may_precede, is_due, minutes,
  check_backoff_minutes,
}
use blockchain_api.Exchanges.Ledger.Valid.{
  IsValid, update_row-Keeps, touch_row-Keeps, claim_row-Keeps, expire_row-Keeps,
}
use blockchain_api.Exchanges.Ledger.Steps.{Statement, Step, Steps, Moment, execute}

-- Whether a claim takes the row with this id.
abbrev pub takes : (ℕ → Bool) → ℕ → ℕ → Ledger → ℕ → Bool
takes held max_claim now l i = any (λ row. row.id == i) (claim_due_batch held max_claim now l).0

-- What holds of all rows holds of the candidates, and they are due.
module _ (P : ExchangeTransaction → Type 0) where
  All-insert_ordered :
      (row : ExchangeTransaction) (rows : List ExchangeTransaction)
      → P row
      → All P rows
      → All P (insert_ordered row rows)
  unfolding insert_ordered
  All-insert_ordered row [] p h = (p, tt)
  All-insert_ordered row (r ∷ rows) p (q, h) = elim (Bool-cases (may_precede row r)) [
    | inl e ↦ rw e (p, (q, h))
    | inr e ↦ rw e (q, All-insert_ordered row rows p h)
  ]

  All-order_by : (rows : List ExchangeTransaction) → All P rows → All P (order_by rows)
  unfolding order_by
  All-order_by [] h = tt
  All-order_by (row ∷ rows) (p, h) = All-insert_ordered row (order_by rows) p (All-order_by rows h)

  pub All-candidates :
      (held : ℕ → Bool) (max_claim now : ℕ) (rows : List ExchangeTransaction)
      → All P (filter (λ row. is_due now row && not (held row.id)) rows)
      → All P (candidates held max_claim now rows)
  unfolding candidates
  All-candidates held max_claim now rows h = All-take P max_claim _ (All-order_by _ h)

pub candidates-Due :
    (P : ExchangeTransaction → Type 0) (held : ℕ → Bool) (max_claim now : ℕ)
    (rows : List ExchangeTransaction)
    → All P rows
    → All (λ row. P row × (is_due now row ≡ true)) (candidates held max_claim now rows)
candidates-Due P held max_claim now rows h =
    All-candidates (λ row. P row × (is_due now row ≡ true)) held max_claim now rows
      (All-both (λ row p q. (p, ground arith)) _ (All-filter P _ rows h)
        (filter-All (λ row. is_due now row && not (held row.id)) rows))

-- A claim takes an id only as the id of a candidate.
pub takes-chosen :
    (held : ℕ → Bool) (max_claim now : ℕ) (l : Ledger) (i : ℕ)
    → takes held max_claim now l i ≡ true
    → any (λ c. c.id == i) (candidates held max_claim now l.rows) ≡ true
unfolding claim_due_batch
takes-chosen held max_claim now l i e =
    let chosen = candidates held max_claim now l.rows in
    let found =
      any-found (λ row. row.id == i) _ e
        (filter-All (is_among chosen) (map (claim_row chosen now) l.rows)) in
    rw (sym ((==_iff found.0.id i).0 found.1)) found.2

-- A date that is there and not before another.
abbrev pub is_since : ℕ → Option ℕ → Bool
is_since t none = false
is_since t (some u) = leb t u

-- A row that was locked or checked since a time.
abbrev pub is_attended : ℕ → ExchangeTransaction → Bool
is_attended t row = is_since t row.locked_at || is_since t row.last_checked_at

-- The row of an id was locked or checked since a time.
abbrev pub Attended : ℕ → ℕ → Ledger → Type 0
Attended t i l = (i < l.next_id) × All (λ row. row.id ≡ i → is_attended t row ≡ true) l.rows

module _ (t i : ℕ) where
  Attended-map :
      (f : ExchangeTransaction → ExchangeTransaction) (rows : List ExchangeTransaction) (n : ℕ)
      → ((row : ExchangeTransaction) → (f row).id ≡ row.id)
      → ((row : ExchangeTransaction) → is_attended t row ≡ true → is_attended t (f row) ≡ true)
      → Attended t i (record { rows = rows; next_id = n })
      → Attended t i (record { rows = map f rows; next_id = n })
  Attended-map f rows n same keep (lt, h) = (
    lt,
    All-of_map (λ row. row.id ≡ i → is_attended t row ≡ true) f rows
        (All-map {Q = λ r. (f r).id ≡ i → is_attended t (f r) ≡ true}
          (λ r k e. keep r (k (sym (same r) ∙ e))) rows h),
  )

  insert_new-Attended :
      (sqlx : Sqlx) (tx : NewExchangeTransaction) (now : ℕ) (l : Ledger)
      → Attended t i l
      → Attended t i (insert_new sqlx tx now l).1
  unfolding insert_new
  insert_new-Attended sqlx tx now l (lt, h) =
      elim (Bool-cases (any (has_session tx.session_id) l.rows)) [
        | inl e ↦ rw e (omega arith, h)
        | inr e ↦ rw e (omega arith, (λ q. absurd (omega (arith, q, lt)), h))
      ]

  execute-Attended :
      (sqlx : Sqlx) (s : Statement) (now : ℕ) (l : Ledger)
      → t ≤ now
      → Attended t i l
      → Attended t i (execute sqlx s now l)
  unfolding update_status touch_non_terminal claim_due_batch expire_old_pending
  execute-Attended sqlx (Statement.insert tx) now l le h = insert_new-Attended sqlx tx now l h
  execute-Attended sqlx (Statement.update tx) now l le h =
      Attended-map (update_row tx now) l.rows l.next_id (λ row. (update_row-Keeps tx now).id row)
        (λ row a. ground arith) h
  execute-Attended sqlx (Statement.touch session_id) now l le h =
      Attended-map (touch_row session_id now) l.rows l.next_id
        (λ row. (touch_row-Keeps session_id now).id row) (λ row a. ground arith) h
  execute-Attended sqlx (Statement.claim held max_claim) now l le h =
      Attended-map (claim_row (candidates held max_claim now l.rows) now) l.rows l.next_id
        (λ row. (claim_row-Keeps (candidates held max_claim now l.rows) now).id row)
        (λ row a. ground arith) h
  execute-Attended sqlx (Statement.expire max_age_hours) now l le h =
      Attended-map (expire_row max_age_hours now) l.rows l.next_id
        (λ row. (expire_row-Keeps max_age_hours now).id row) (λ row a. ground arith) h

  Steps-Attended :
      (sqlx : Sqlx) {m n : Moment}
      → Steps sqlx m n
      → t ≤ m.time
      → Attended t i m.ledger
      → (t ≤ n.time) × Attended t i n.ledger
  Steps-Attended sqlx Steps.start le h = (le, h)
  Steps-Attended sqlx {m} (Steps.later r (Step.run s now k)) le h =
      let before = Steps-Attended sqlx r le h in
      (
        omega (arith, before.0, k),
        execute-Attended sqlx s now _ (omega (arith, before.0, k)) before.1,
      )
  Steps-Attended sqlx (Steps.later r (Step.roll_back n k)) le h =
      let before = Steps-Attended sqlx r le h in
      (before.0, (omega (arith, before.1.0, k), before.1.1))

-- The rows that a claim takes are locked from then on.
takes-Attended :
    (held : ℕ → Bool) (max_claim now : ℕ) (l : Ledger) (i : ℕ)
    → IsValid now l
    → takes held max_claim now l i ≡ true
    → Attended now i (claim_due_batch held max_claim now l).1
unfolding claim_due_batch
takes-Attended held max_claim now l i v e =
    let chosen = candidates held max_claim now l.rows in
    let found =
      any-found (λ row. row.id == i) chosen (takes-chosen held max_claim now l i e)
        (All-candidates (λ row. row.id < l.next_id) held max_claim now l.rows
          (All-filter (λ row. row.id < l.next_id) _ l.rows v.numbered)) in
    (
      subst (λ j. j < l.next_id) ((==_iff found.0.id i).0 found.1) found.2,
      All-of_map (λ row. row.id ≡ i → is_attended now row ≡ true) (claim_row chosen now) l.rows
          (All-of_each
            (λ row q. locked chosen row (
              rw (sym ((claim_row-Keeps chosen now).id row) ∙ q)
                (takes-chosen held max_claim now l i e)))
            l.rows),
    )
  where
    locked :
        (chosen : List ExchangeTransaction) (row : ExchangeTransaction)
        → is_among chosen row ≡ true
        → is_attended now (claim_row chosen now row) ≡ true
    locked chosen row h = rw h (ground arith)

is_attended-is_due :
    (now now' : ℕ) (row : ExchangeTransaction)
    → is_attended now row ≡ true
    → is_due now' row ≡ true
    → now + minutes check_backoff_minutes < now'
unfolding is_due
is_attended-is_due now now' row a d = ground arith

-- Once a claim has taken a row, whatever statements follow, of any tasks at times that do not go
-- back, a claim that takes the row again is more than five minutes later.
pub claim_due_batch-apart :
    (sqlx : Sqlx) (held : ℕ → Bool) (max_claim now : ℕ) (l : Ledger) (i : ℕ)
    → IsValid now l
    → takes held max_claim now l i ≡ true
    → {m : Moment}
    → Steps sqlx (record { ledger = (claim_due_batch held max_claim now l).1; time = now }) m
    → (held' : ℕ → Bool) (max_claim' now' : ℕ) → m.time ≤ now'
    → takes held' max_claim' now' m.ledger i ≡ true
    → now + minutes check_backoff_minutes < now'
claim_due_batch-apart sqlx held max_claim now l i v e {m} r held' max_claim' now' le e' =
    let attended =
      Steps-Attended now i sqlx r (omega arith) (takes-Attended held max_claim now l i v e) in
    let again =
      any-found (λ row. row.id == i) (candidates held' max_claim' now' m.ledger.rows)
        (takes-chosen held' max_claim' now' m.ledger i e')
        (candidates-Due (λ row. row.id ≡ i → is_attended now row ≡ true) held' max_claim' now'
          m.ledger.rows attended.1.1) in
    is_attended-is_due now now' again.0 (again.2.0 ((==_iff again.0.id i).0 again.1)) again.2.1
