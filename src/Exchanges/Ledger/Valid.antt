-- ===== src/Exchanges/Ledger/Valid.antt =====
-- src/database/exchange_reconciliation.rs: what holds of the table after every statement.
use blockchain_api.Prelude.{
  ℕ, suc, ◌≤◌, ◌<◌, false, String, List, [], ◌∷◌, map, Option, none, some, inl, inr, ◌≡◌, ◌≢◌, ◌↔◌,
  refl, arith, ==_iff, nat_eq, string_eq, All, All-of_map, All-map, All-both, any, Bool-cases,
}
use blockchain_api.Exchanges.Ledger.{
  TxStatus, pending, succeeded, failed, ExchangeTransaction, Ledger, NewExchangeTransaction,
  UpdateExchangeStatus, Sqlx, has_session, insert_new, update_row, touch_row, is_among, claim_row,
  is_expired, expire_row, completion,
}

-- A date that is absent or not after another.
abbrev pub AtMost : Option ℕ → ℕ → Type 0
AtMost none now = Unit
AtMost (some t) now = t ≤ now

-- The dates that a row has are not after its last update, which is not in the future, and it has a
-- date of completion exactly when its status is a final one.
pub record IsSound (now : ℕ) (row : ExchangeTransaction) : Type 0 where
  pub created : row.created_at ≤ row.updated_at
  pub updated : row.updated_at ≤ now
  pub checked : AtMost row.last_checked_at row.updated_at
  pub completed : AtMost row.completed_at row.updated_at
  pub locked : AtMost row.locked_at row.updated_at
  pub final : (row.status ≡ pending) ↔ (row.completed_at ≡ none)

-- No two rows have the same session, nor the same id.
abbrev pub Apart : List ExchangeTransaction → Type 0
Apart [] = Unit
Apart (row ∷ rows) = All (λ r. (row.session_id ≢ r.session_id) × (row.id ≢ r.id)) rows × Apart rows

pub record IsValid (now : ℕ) (l : Ledger) : Type 0 where
  pub sound : All (IsSound now) l.rows
  pub apart : Apart l.rows
  pub numbered : All (λ r. r.id < l.next_id) l.rows

-- What a statement makes of a row: its identity stays, and it is sound later if it was before.
pub record Keeps (now : ℕ) (f : ExchangeTransaction → ExchangeTransaction) : Type 0 where
  pub id : (row : ExchangeTransaction) → (f row).id ≡ row.id
  pub session_id : (row : ExchangeTransaction) → (f row).session_id ≡ row.session_id
  pub sound :
      (before : ℕ) (row : ExchangeTransaction)
      → before ≤ now
      → IsSound before row
      → IsSound now (f row)

module _ {now : ℕ} {f : ExchangeTransaction → ExchangeTransaction} (k : Keeps now f) where
  Apart-map : (rows : List ExchangeTransaction) → Apart rows → Apart (map f rows)
  Apart-map [] h = tt
  Apart-map (row ∷ rows) (h, hs) = (
    All-of_map (λ r. ((f row).session_id ≢ r.session_id) × ((f row).id ≢ r.id)) f rows
        (All-map (λ r (p, q). rw (k.session_id row, k.session_id r, k.id row, k.id r) (p, q)) rows
          h),
    Apart-map rows hs,
  )

  pub IsValid-map :
      (before : ℕ) (rows : List ExchangeTransaction) (n : ℕ)
      → before ≤ now
      → IsValid before (record { rows = rows; next_id = n })
      → IsValid now (record { rows = map f rows; next_id = n })
  IsValid-map before rows n le v = record {
    sound = All-of_map (IsSound now) f rows (All-map (λ r. k.sound before r le) rows v.sound);
    apart = Apart-map rows v.apart;
    numbered =
        All-of_map (λ r. r.id < n) f rows
          (All-map {Q = λ r. (f r).id < n} (λ r h. rw (k.id r) h) rows v.numbered);
  }

AtMost-trans : (o : Option ℕ) {a b : ℕ} → a ≤ b → AtMost o a → AtMost o b
AtMost-trans none le h = tt
AtMost-trans (some t) le h = omega arith

IsSound-later :
    {before now : ℕ} {row : ExchangeTransaction}
    → before ≤ now
    → IsSound before row
    → IsSound now row
IsSound-later {row = row} le s = record {
  created = s.created;
  updated = omega (arith, s.updated);
  checked = s.checked;
  completed = s.completed;
  locked = s.locked;
  final = s.final;
}

completion-AtMost : (s : TxStatus) (now : ℕ) → AtMost (completion s now) now
completion-AtMost pending now = tt
completion-AtMost succeeded now = omega arith
completion-AtMost failed now = omega arith

completion-final : (s : TxStatus) (now : ℕ) → (s ≡ pending) ↔ (completion s now ≡ none)
completion-final pending now = (λ _. refl, λ _. refl)
completion-final succeeded now = (λ e. cc, λ e. cc)
completion-final failed now = (λ e. cc, λ e. cc)

pub update_row-Keeps : (tx : UpdateExchangeStatus) (now : ℕ) → Keeps now (update_row tx now)
update_row-Keeps tx now = record {
  id = λ row. ground arith;
  session_id = λ row. ground arith;
  sound = λ before row le s. elim (Bool-cases (has_session tx.session_id row)) [
    | inl h ↦ rw h (record {
      created = omega (arith, s.created, s.updated);
      updated = omega arith;
      checked = omega arith;
      completed = completion-AtMost tx.status now;
      locked = tt;
      final = completion-final tx.status now;
    })
    | inr h ↦ rw h (IsSound-later le s)
  ];
}

pub touch_row-Keeps : (session_id : String) (now : ℕ) → Keeps now (touch_row session_id now)
touch_row-Keeps session_id now = record {
  id = λ row. ground arith;
  session_id = λ row. ground arith;
  sound = λ before row le s. elim (Bool-cases (has_session session_id row)) [
    | inl h ↦ rw h (record {
      created = omega (arith, s.created, s.updated);
      updated = omega arith;
      checked = omega arith;
      completed = AtMost-trans row.completed_at (omega (arith, s.updated)) s.completed;
      locked = tt;
      final = s.final;
    })
    | inr h ↦ rw h (IsSound-later le s)
  ];
}

pub claim_row-Keeps :
    (chosen : List ExchangeTransaction) (now : ℕ) → Keeps now (claim_row chosen now)
claim_row-Keeps chosen now = record {
  id = λ row. ground arith;
  session_id = λ row. ground arith;
  sound = λ before row le s. elim (Bool-cases (is_among chosen row)) [
    | inl h ↦ rw h (record {
      created = omega (arith, s.created, s.updated);
      updated = omega arith;
      checked = AtMost-trans row.last_checked_at (omega (arith, s.updated)) s.checked;
      completed = AtMost-trans row.completed_at (omega (arith, s.updated)) s.completed;
      locked = omega arith;
      final = s.final;
    })
    | inr h ↦ rw h (IsSound-later le s)
  ];
}

pub expire_row-Keeps : (max_age_hours now : ℕ) → Keeps now (expire_row max_age_hours now)
expire_row-Keeps max_age_hours now = record {
  id = λ row. ground arith;
  session_id = λ row. ground arith;
  sound = λ before row le s. elim (Bool-cases (is_expired max_age_hours now row)) [
    | inl h ↦ rw h (record {
      created = omega (arith, s.created, s.updated);
      updated = omega arith;
      checked = AtMost-trans row.last_checked_at (omega (arith, s.updated)) s.checked;
      completed = omega arith;
      locked = AtMost-trans row.locked_at (omega (arith, s.updated)) s.locked;
      final = (λ e. cc, λ e. cc);
    })
    | inr h ↦ rw h (IsSound-later le s)
  ];
}

pub IsValid-later : {before now : ℕ} (l : Ledger) → before ≤ now → IsValid before l → IsValid now l
IsValid-later l le v = record {
  sound = All-map (λ r. IsSound-later le) l.rows v.sound;
  apart = v.apart;
  numbered = v.numbered;
}

pub IsValid-burn :
    {now : ℕ} (l : Ledger) (n : ℕ)
    → l.next_id ≤ n
    → IsValid now l
    → IsValid now (record { rows = l.rows; next_id = n })
IsValid-burn l n le v = record {
  sound = v.sound;
  apart = v.apart;
  numbered = All-map {Q = λ r. r.id < n} (λ r h. omega (arith, h, le)) l.rows v.numbered;
}

-- A session that no row has.
pub any-Absent :
    (session_id : String) (rows : List ExchangeTransaction)
    → any (has_session session_id) rows ≡ false
    → All (λ r. session_id ≢ r.session_id) rows
any-Absent session_id [] h = tt
any-Absent session_id (row ∷ rows) h = (
  λ e. ground (arith, ==_iff row.session_id session_id),
  any-Absent session_id rows (ground arith),
)

pub insert_new-IsValid :
    (sqlx : Sqlx) (tx : NewExchangeTransaction) (before now : ℕ) (l : Ledger)
    → before ≤ now
    → IsValid before l
    → IsValid now (insert_new sqlx tx now l).1
unfolding insert_new
insert_new-IsValid sqlx tx before now l le v =
    elim (Bool-cases (any (has_session tx.session_id) l.rows)) [
      | inl h ↦ rw h (IsValid-burn l (suc l.next_id) (omega arith) (IsValid-later l le v))
      | inr h ↦ rw h (record {
        sound = (
          record {
            created = omega arith;
            updated = omega arith;
            checked = tt;
            completed = tt;
            locked = tt;
            final = (λ _. refl, λ _. refl);
          },
          All-map (λ r. IsSound-later le) l.rows v.sound,
        );
        apart = (
          All-both (λ r p q. (p, λ e. omega (arith, e, q))) l.rows
              (any-Absent tx.session_id l.rows h) v.numbered,
          v.apart,
        );
        numbered = (
          omega arith,
          All-map {Q = λ r. r.id < suc l.next_id} (λ r q. omega (arith, q)) l.rows v.numbered,
        );
      })
    ]
