-- ===== src/Exchanges/Ledger/Refinement.antt =====
-- src/database/exchange_reconciliation.rs: the table as a map of sessions to statuses.
use blockchain_api.Prelude.{
  ℕ, true, false, String, List, [], ◌∷◌, map, Option, none, some, ◌⊎◌, inl, inr, ◌≡◌, refl, ap, sym,
  arith, ◌==◌, ==_iff, ==_refl, string_eq, any, Bool-cases, if◌then◌else◌,
}
use blockchain_api.Exchanges.Ledger.{
  DatabaseError, TxStatus, pending, failed, ExchangeTransaction, Ledger, Sqlx,
  NewExchangeTransaction, UpdateExchangeStatus, has_session, insert_new, update_row, update_status,
  touch_row, touch_non_terminal, claim_row, claim_due_batch, is_expired, expire_row,
  expire_old_pending, candidates, is_pending,
}
use blockchain_api.Exchanges.Ledger.Valid.{expire_row-Keeps}
use blockchain_api.Exchanges.Ledger.Updates.{update-absent}
use blockchain_api.Exchanges.Ledger.Steps.{Statement, Step, Moment, execute}

-- What the table promises: a status for each session that was inserted.
abbrev pub View : Type 0
View = String → Option TxStatus

status_in : String → List ExchangeTransaction → Option TxStatus
status_in session_id [] = none
status_in session_id (row ∷ rows) =
    if has_session session_id row then some row.status else status_in session_id rows

unfoldable pub view : Ledger → View
unfolding status_in
view l session_id = status_in session_id l.rows

-- What may become of the statuses: a session is added as pending, a session that is there gets a
-- status, pending sessions fail, or all stay.
pub data Change (v w : View) : Type 0 where
  stay : ((s : String) → w s ≡ v s) → Change v w
  add :
      (session_id : String)
      → v session_id ≡ none
      → ((s : String) → w s ≡ (if session_id == s then some pending else v s))
      → Change v w
  assign :
      (session_id : String) (before after : TxStatus)
      → v session_id ≡ some before
      → ((s : String) → w s ≡ (if session_id == s then some after else v s))
      → Change v w
  give_up : ((s : String) → (w s ≡ v s) ⊎ ((v s ≡ some pending) × (w s ≡ some failed))) → Change v w

status_in-map :
    (f : ExchangeTransaction → ExchangeTransaction)
    → ((row : ExchangeTransaction)
        → ((f row).session_id ≡ row.session_id) × ((f row).status ≡ row.status))
    → (s : String) (rows : List ExchangeTransaction) → status_in s (map f rows) ≡ status_in s rows
unfolding status_in
status_in-map f same s [] = refl
status_in-map f same s (row ∷ rows) =
    rw ((same row).0, (same row).1, status_in-map f same s rows) refl

status_in-none :
    (s : String) (rows : List ExchangeTransaction)
    → any (has_session s) rows ≡ false
    → status_in s rows ≡ none
unfolding status_in
status_in-none s [] h = refl
status_in-none s (row ∷ rows) h = ground (arith, status_in-none s rows)

status_in-some :
    (s : String) (rows : List ExchangeTransaction)
    → any (has_session s) rows ≡ true
    → (t : TxStatus) × (status_in s rows ≡ some t)
unfolding status_in
status_in-some s [] h = cc
status_in-some s (row ∷ rows) h = elim (Bool-cases (has_session s row)) [
  | inl e ↦ (row.status, rw e refl)
  | inr e ↦ rw e (status_in-some s rows (rw e at h))
]

-- A row of another session, and one of the session.
status_in-update_ne :
    (tx : UpdateExchangeStatus) (now : ℕ) (s : String) (rows : List ExchangeTransaction)
    → (tx.session_id == s) ≡ false
    → status_in s (map (update_row tx now) rows) ≡ status_in s rows
unfolding status_in
status_in-update_ne tx now s [] h = refl
status_in-update_ne tx now s (row ∷ rows) h = elim (Bool-cases (has_session tx.session_id row)) [
  | inl e ↦
      let other : (row.session_id == s) ≡ false =
        rw ((==_iff row.session_id tx.session_id).0 e) h in
      rw (e, other) (status_in-update_ne tx now s rows h)
  | inr e ↦ rw (e, status_in-update_ne tx now s rows h) refl
]

status_in-update_self :
    (tx : UpdateExchangeStatus) (now : ℕ) (rows : List ExchangeTransaction)
    → any (has_session tx.session_id) rows ≡ true
    → status_in tx.session_id (map (update_row tx now) rows) ≡ some tx.status
unfolding status_in
status_in-update_self tx now [] h = cc
status_in-update_self tx now (row ∷ rows) h = elim (Bool-cases (has_session tx.session_id row)) [
  | inl e ↦ rw (e, e) refl
  | inr e ↦ rw (e, e) (status_in-update_self tx now rows (rw e at h))
]

expire_row-status :
    (max_age_hours now : ℕ) (row : ExchangeTransaction)
    → ((expire_row max_age_hours now row).status ≡ row.status)
      ⊎ ((row.status ≡ pending) × ((expire_row max_age_hours now row).status ≡ failed))
unfolding is_expired
expire_row-status max_age_hours now row = elim (Bool-cases (is_expired max_age_hours now row)) [
  | inl e ↦ inr (pending-of_is_pending row.status (ground arith), rw (e, expire_row) refl)
  | inr e ↦ inl (rw (e, expire_row) refl)
]
  where
    pending-of_is_pending : (t : TxStatus) → is_pending t ≡ true → t ≡ pending
    pending-of_is_pending pending h = refl
    pending-of_is_pending TxStatus.succeeded h = cc
    pending-of_is_pending failed h = cc

status_in-expire :
    (max_age_hours now : ℕ) (s : String) (rows : List ExchangeTransaction)
    → (status_in s (map (expire_row max_age_hours now) rows) ≡ status_in s rows)
      ⊎ ((status_in s rows ≡ some pending)
          × (status_in s (map (expire_row max_age_hours now) rows) ≡ some failed))
unfolding status_in
status_in-expire max_age_hours now s [] = inl refl
status_in-expire max_age_hours now s (row ∷ rows) =
    rw ((expire_row-Keeps max_age_hours now).session_id row)
      (elim (Bool-cases (has_session s row)) [
        | inl h ↦ rw h (elim (expire_row-status max_age_hours now row) [
          | inl e ↦ inl (ap some e)
          | inr (p, e) ↦ inr (ap some p, ap some e)
        ])
        | inr h ↦ rw h (status_in-expire max_age_hours now s rows)
      ])

-- A session that has a status is that of a row.
view-present :
    (l : Ledger) (s : String) {t : TxStatus} → view l s ≡ some t → any (has_session s) l.rows ≡ true
unfolding view
view-present l s h = elim (Bool-cases (any (has_session s) l.rows)) [
  | inl e ↦ e
  | inr e ↦ absurd (clash (status_in-none s l.rows e) h)
]
  where
    clash : {o : Option TxStatus} {t : TxStatus} → o ≡ none → o ≡ some t → ⊥
    clash p q = cc

-- An update gives its session its status, and no other; the touch of a session gives none.
pub view-update_self :
    (tx : UpdateExchangeStatus) (now : ℕ) (l l' : Ledger) {t : TxStatus}
    → l'.rows ≡ map (update_row tx now) l.rows
    → view l tx.session_id ≡ some t
    → view l' tx.session_id ≡ some tx.status
unfolding view
view-update_self tx now l l' same h =
    rw same (status_in-update_self tx now l.rows (view-present l tx.session_id h))

pub view-update_ne :
    (tx : UpdateExchangeStatus) (now : ℕ) (l l' : Ledger) (s : String)
    → l'.rows ≡ map (update_row tx now) l.rows
    → (tx.session_id == s) ≡ false
    → view l' s ≡ view l s
unfolding view
view-update_ne tx now l l' s same h = rw same (status_in-update_ne tx now s l.rows h)

pub view-touch :
    (session_id : String) (now : ℕ) (l l' : Ledger) (s : String)
    → l'.rows ≡ map (touch_row session_id now) l.rows
    → view l' s ≡ view l s
unfolding view
view-touch session_id now l l' s same =
    rw same (status_in-map (touch_row session_id now) (λ row. ground arith) s l.rows)

-- A session that was inserted is pending.
pub view-insert :
    (sqlx : Sqlx) (tx : NewExchangeTransaction) (now : ℕ) (l : Ledger) (row : ExchangeTransaction)
    → (insert_new sqlx tx now l).0 ≡ inr row
    → view (insert_new sqlx tx now l).1 tx.session_id ≡ some pending
unfolding view insert_new
view-insert sqlx tx now l row h = elim (Bool-cases (any (has_session tx.session_id) l.rows)) [
  | inl e ↦ absurd (left (rw (e, insert_new) at h))
  | inr e ↦ rw (e, ==_refl tx.session_id) refl
]
  where
    Is : DatabaseError ⊎ ExchangeTransaction → Type 0
    Is x = x ≡ inr row

    left : {x : DatabaseError} → Is (inl x) → ⊥
    left p = cc

module _ (sqlx : Sqlx) where
  insert-Change :
      (tx : NewExchangeTransaction) (now : ℕ) (l : Ledger)
      → Change (view l) (view (insert_new sqlx tx now l).1)
  unfolding view insert_new
  insert-Change tx now l = elim (Bool-cases (any (has_session tx.session_id) l.rows)) [
    | inl h ↦ Change.stay (λ s. rw h refl)
    | inr h ↦ Change.add tx.session_id (status_in-none tx.session_id l.rows h) (λ s. rw h refl)
  ]

  update-Change :
      (tx : UpdateExchangeStatus) (now : ℕ) (l : Ledger)
      → Change (view l) (view (update_status sqlx tx now l).1)
  unfolding view update_status
  update-Change tx now l = elim (Bool-cases (any (has_session tx.session_id) l.rows)) [
    | inl h ↦
        let found = status_in-some tx.session_id l.rows h in
        Change.assign tx.session_id found.0 tx.status found.1 (λ s.
          elim (Bool-cases (tx.session_id == s)) [
            | inl e ↦
                rw (e, sym ((==_iff tx.session_id s).0 e)) (status_in-update_self tx now l.rows h)
            | inr e ↦ rw e (status_in-update_ne tx now s l.rows e)
          ])
    | inr h ↦ Change.stay (λ s. ap (status_in s) (update-absent tx now l.rows h))
  ]

  execute-Change :
      (s : Statement) (now : ℕ) (l : Ledger) → Change (view l) (view (execute sqlx s now l))
  unfolding view touch_non_terminal claim_due_batch expire_old_pending
  execute-Change (Statement.insert tx) now l = insert-Change tx now l
  execute-Change (Statement.update tx) now l = update-Change tx now l
  execute-Change (Statement.touch session_id) now l =
      Change.stay (λ s. status_in-map (touch_row session_id now) (λ row. ground arith) s l.rows)
  execute-Change (Statement.claim held max_claim) now l = Change.stay (λ s.
      status_in-map (claim_row (candidates held max_claim now l.rows) now) (λ row. ground arith) s
        l.rows)
  execute-Change (Statement.expire max_age_hours) now l =
      Change.give_up (λ s. status_in-expire max_age_hours now s l.rows)

  -- Each step of the table, a statement or a transaction that is rolled back, is a change of the
  -- statuses of its sessions of one of four kinds: all stay, a session that has none gets the
  -- pending one, a session that has one gets another, or pending sessions fail.
  pub Step-Change : {m n : Moment} → Step sqlx m n → Change (view m.ledger) (view n.ledger)
  unfolding view
  Step-Change {m} (Step.run s now le) = execute-Change s now m.ledger
  Step-Change (Step.roll_back n le) = Change.stay (λ s. refl)
