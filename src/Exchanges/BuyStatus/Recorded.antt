-- ===== src/Exchanges/BuyStatus/Recorded.antt =====
-- src/handlers/json_rpc/exchanges/get_exchange_buy_status.rs: what a reply says of the table.
use blockchain_api.Prelude.{
  ℕ, ◌≤◌, Bool, true, false, String, List, Option, none, some, ◌⊎◌, inl, inr, ltb, ◌≡◌, refl, ap,
  sym, ◌∙◌, arith, ◌==◌, ==_iff, string_eq, Bool-cases, Option-cases, subst, if◌then◌else◌,
}
use blockchain_api.Exchanges.{
  Feature, FeatureType, ExchangeType, ExchangeError, BuyTransactionStatus, unknown, in_progress,
  success, failed, GetBuyStatusResponse, GetBuyStatusParams, get_exchange_by_id, from_id,
  is_enabled, is_transaction_storage_enabled,
}
use blockchain_api.Exchanges.Ledger.{TxStatus, Ledger}
use blockchain_api.Exchanges.Ledger.Refinement.{view, view-update_self, view-update_ne, view-touch}
use blockchain_api.Exchanges.Transactions.{World, Run}
use blockchain_api.Exchanges.Transactions.Reliable.{
  IsReliable, Treated, updated, touched, Effect, is_stored, mark_failed-Effect,
  mark_succeeded-Effect, touch_pending-Effect,
}
use blockchain_api.Exchanges.BuyStatus.{
  GetExchangeBuyStatusRequest, Settings, len, handler_internal, with_exchange, respond,
  record_status,
}

-- The status that an answer of the exchange gives a session that has one.
abbrev pub status_after : BuyTransactionStatus → TxStatus → TxStatus
status_after success before = TxStatus.succeeded
status_after failed before = TxStatus.failed
status_after in_progress before = before
status_after unknown before = before

abbrev asked : BuyTransactionStatus → Option TxStatus
asked success = some TxStatus.succeeded
asked failed = some TxStatus.failed
asked in_progress = none
asked unknown = none

abbrev override : Option TxStatus → TxStatus → TxStatus
override none before = before
override (some t) before = t

Treated-view :
    {s : String} {u : Option TxStatus} (l l' : Ledger) {before : TxStatus}
    → Treated s u l.rows l'.rows
    → view l s ≡ some before
    → view l' s ≡ some (override u before)
Treated-view {s} l l' {before} (updated tx now e q same) h = rw q (
    subst (λ x. view l' x ≡ some tx.status) e
      (view-update_self tx now l l' {t = before} same (rw e h)))
Treated-view {s} l l' (touched now q same) h = rw (q, view-touch s now l l' s same) h

Treated-view_ne :
    {s : String} {u : Option TxStatus} (l l' : Ledger) (other : String)
    → Treated s u l.rows l'.rows
    → (s == other) ≡ false
    → view l' other ≡ view l other
Treated-view_ne {s} l l' other (updated tx now e q same) ne =
    view-update_ne tx now l l' other same (rw e ne)
Treated-view_ne {s} l l' other (touched now q same) ne = view-touch s now l l' other same

Treated-view_all :
    {s : String} {u : Option TxStatus} (l l' : Ledger) (other : String) {before : TxStatus}
    → Treated s u l.rows l'.rows
    → view l s ≡ some before
    → view l' other ≡ (if s == other then some (override u before) else view l other)
Treated-view_all {s} {u} l l' other {before} treated h = elim (Bool-cases (s == other)) [
  | inl e ↦ rw (e, sym ((==_iff s other).0 e)) (Treated-view l l' treated h)
  | inr e ↦ rw e (Treated-view_ne l l' other treated e)
]

from_id-of_get :
    (in_config : Feature → Bool) (id : String) (t : FeatureType) (features : List Feature)
    (exchange : ExchangeType)
    → get_exchange_by_id in_config id t features ≡ inr exchange
    → from_id id ≡ some exchange
unfolding get_exchange_by_id
from_id-of_get in_config id t features exchange h = elim (Option-cases (from_id id)) [
  | inl e ↦ absurd (left (rw (e, get_exchange_by_id) at h))
  | inr (found, e) ↦ elim (Bool-cases (is_enabled in_config found t features)) [
    | inl on ↦ e ∙ ap some (right (rw (e, on, get_exchange_by_id) at h))
    | inr off ↦ absurd (left (rw (e, off, get_exchange_by_id) at h))
  ]
]
  where
    Got : ExchangeError ⊎ ExchangeType → Type 0
    Got answer = answer ≡ inr exchange

    left : {x : ExchangeError} → Got (inl x) → ⊥
    left p = cc

    right : {x : ExchangeType} → Got (inr x) → x ≡ exchange
    right p = cc

module _ (W : World) (reliable : IsReliable W) (settings : Settings W.Net) where
  record_status-Effect :
      (request : GetExchangeBuyStatusRequest) (response : GetBuyStatusResponse) (run : Run W.Net)
      → Effect W reliable
          (from_id request.exchange_id)
          request.session_id
          (asked response.status)
          run
          (record_status W settings request response run)
  unfolding record_status
  record_status-Effect request response run = by_status response.status refl
    where
      by_status :
          (status : _)
          → response.status ≡ status
          → Effect W reliable
              (from_id request.exchange_id)
              request.session_id
              (asked response.status)
              run
              (record_status W settings request response run)
      by_status success e = rw e (
          mark_succeeded-Effect W reliable request.session_id request.exchange_id response.tx_hash
            run)
      by_status failed e = rw e (
          mark_failed-Effect W reliable request.session_id request.exchange_id
            (some "provider_failed") response.tx_hash run)
      by_status in_progress e =
          rw e (touch_pending-Effect W reliable request.session_id request.exchange_id run)
      by_status unknown e =
          rw e (touch_pending-Effect W reliable request.session_id request.exchange_id run)

  override-asked :
      (status : BuyTransactionStatus) (before : TxStatus)
      → override (asked status) before ≡ status_after status before
  override-asked success before = refl
  override-asked failed before = refl
  override-asked in_progress before = refl
  override-asked unknown before = refl

  recorded-view :
      (exchange : Option ExchangeType) (session_id : String) (status : BuyTransactionStatus)
      (run run' : Run W.Net)
      → Effect W reliable exchange session_id (asked status) run run'
      → is_stored exchange ≡ true
      → (before : TxStatus) → view run.ledger session_id ≡ some before
      → (s : String)
      → view run'.ledger s
        ≡ (if session_id == s then some (status_after status before) else view run.ledger s)
  recorded-view exchange session_id status run run' (inl e) on before h s =
      rw (sym (override-asked status before))
        (Treated-view_all run.ledger run'.ledger s e.treated h)
  recorded-view exchange session_id status run run' (inr (later, same, off)) on before h s =
      absurd (clash on off)
    where
      clash : {b : Bool} → b ≡ true → b ≡ false → ⊥
      clash p q = cc

  -- The request is answered by this exchange, with this answer.
  pub record Answers (project_id : String) (request : GetExchangeBuyStatusRequest)
      (features : List Feature) (t : FeatureType) (run : Run W.Net)
      (response : GetBuyStatusResponse) : Type 0 where
    pub exchange : ExchangeType
    pub found : get_exchange_by_id settings.in_config request.exchange_id t features ≡ inr exchange
    pub storing : is_transaction_storage_enabled exchange ≡ true
    pub named : (request.session_id == "") ≡ false
    pub short : len request.session_id ≤ 50
    pub answer :
        (W.get_buy_status exchange
          (record { project_id = project_id; session_id = request.session_id })
          run.net).0
        ≡ inr response

  -- With a database and analytics that work: when an exchange whose transactions are stored answers
  -- about a session that the table has, the reply is that answer, the session has succeeded or
  -- failed if the answer says so, and keeps its status otherwise; no other session changes its
  -- status. It does not matter which project the session is of, nor that its status is final.
  pub handler_internal-records :
      (project_id : String) (request : GetExchangeBuyStatusRequest) (features : List Feature)
      (t : FeatureType) (run : Run W.Net) (response : GetBuyStatusResponse)
      → Answers project_id request features t run response
      → (before : TxStatus) → view run.ledger request.session_id ≡ some before
      → (s : String)
      → ((handler_internal W settings project_id request features t run).0 ≡ inr response)
        × (view (handler_internal W settings project_id request features t run).1.ledger s ≡ (
            if request.session_id == s
            then some (status_after response.status before)
            else view run.ledger s))
  unfolding handler_internal with_exchange respond
  handler_internal-records project_id request features t run response a before h s =
      let params : GetBuyStatusParams = record {
        project_id = project_id;
        session_id = request.session_id;
      } in
      let asking : Run W.Net = record {
        ledger = run.ledger;
        net = (W.get_buy_status a.exchange params run.net).1;
      } in
      rw (a.found, with_exchange)
        (rw (a.named, not-longer a.short, a.answer, respond)
          (
            refl,
            recorded-view (from_id request.exchange_id) request.session_id response.status asking
                (record_status W settings request response asking)
                (record_status-Effect request response asking)
                (rw
                  (from_id-of_get settings.in_config request.exchange_id t features a.exchange
                    a.found)
                  a.storing)
                before h s,
          ))
    where
      not-longer : {n : ℕ} → n ≤ 50 → ltb 50 n ≡ false
      not-longer le = ground arith
