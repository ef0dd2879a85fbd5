-- ===== src/Exchanges/BuyStatus.antt =====
-- src/handlers/json_rpc/exchanges/get_exchange_buy_status.rs: what an exchange says of a session,
-- and its record in the table.
pub mod Recorded
use Prim.Native.Char.{Char, code}
use Prim.Native.String.{◌++◌}
use blockchain_api.Prelude.{
  ℕ, ◌+◌, Bool, ◌||◌, String, List, [], Option, none, some, ◌⊎◌, inl, inr, ltb, ◌==◌, nat_eq,
  string_eq, if◌then◌else◌,
}
use blockchain_api.Exchanges.{
  Feature, FeatureType, ExchangeType, ExchangeError, BuyTransactionStatus, unknown, in_progress,
  success, failed, GetBuyStatusResponse, get_exchange_by_id, get_feature_type,
  is_feature_enabled_for_project_id,
}
use blockchain_api.Exchanges.Transactions.{World, Run, mark_failed, mark_succeeded, touch_pending}

abbrev max_session_id_length : ℕ
max_session_id_length = 50

pub record GetExchangeBuyStatusRequest : Type 0 where
  pub exchange_id : String
  pub session_id : String

pub data GetExchangeBuyStatusError : Type 0 where
  validation_error exchange_not_found : String → GetExchangeBuyStatusError
  session_not_found internal_error : String → GetExchangeBuyStatusError

abbrev pub Reply : Type 0
Reply = GetExchangeBuyStatusError ⊎ GetBuyStatusResponse

-- `str::len`: the bytes of UTF-8.
abbrev bytes_of : Char → ℕ
bytes_of c =
    if ltb (code c) 128
    then 1
    else if ltb (code c) 2048
    then 2
    else if ltb (code c) 65536
    then 3
    else 4

unfoldable pub len : String → ℕ
len String.[] = 0
len (String.◌∷◌ c s) = bytes_of c + len s

-- `Display` of `ExchangeError`.
abbrev pub exchange_error_text : ExchangeError → String
exchange_error_text (ExchangeError.configuration_error e) = "Configuration error: " ++ e
exchange_error_text (ExchangeError.validation_error e) = "Validation error: " ++ e
exchange_error_text (ExchangeError.get_pay_url_error e) = "Get pay url error: " ++ e
exchange_error_text (ExchangeError.feature_not_enabled e) = "Feature not enabled: " ++ e
exchange_error_text (ExchangeError.exchange_not_enabled e) = "Exchange is not enabled: " ++ e
exchange_error_text (ExchangeError.project_data_error e) = "Project data error: " ++ e
exchange_error_text (ExchangeError.internal_error e) = "Exchange internal error: " ++ e

-- The configuration, what reads JSON or prints `{:?}`, and the registry: the features of a project,
-- if the data has them.
pub record Settings (Net : Type 0) : Type 0 where
  pub testing_project_id : Option String
  pub allowed_project_ids : Option (List String)
  pub in_config : Feature → Bool
  pub debug : ExchangeError → String
  pub project_data_request : String → Net → (String ⊎ Option (List Feature)) × Net

abbrev unwrap_features : Option (List Feature) → List Feature
unwrap_features none = []
unwrap_features (some features) = features

module _ (W : World) (settings : Settings W.Net) where
  get_enabled_features : String → W.Net → (ExchangeError ⊎ List Feature) × W.Net
  get_enabled_features project_id net =
      let answer = settings.project_data_request project_id net in
      (
        elim answer.0 [
          | inl e ↦ inl (ExchangeError.project_data_error e)
          | inr features ↦ inr (unwrap_features features)
        ],
        answer.1,
      )

  -- The records of an answer; the errors of the database are dropped.
  record_status : GetExchangeBuyStatusRequest → GetBuyStatusResponse → Run W.Net → Run W.Net
  record_status request response run = elim response.status [
    | success ↦ (mark_succeeded W request.session_id request.exchange_id response.tx_hash run).1
    | failed ↦
        (mark_failed W request.session_id request.exchange_id (some "provider_failed")
          response.tx_hash run).1
    | in_progress ↦ (touch_pending W request.exchange_id request.session_id run).1
    | unknown ↦ (touch_pending W request.exchange_id request.session_id run).1
  ]

  refuse : ExchangeError → GetExchangeBuyStatusError
  refuse (ExchangeError.validation_error e) = GetExchangeBuyStatusError.validation_error e
  refuse e =
      GetExchangeBuyStatusError.internal_error
        ("Unable to get exchange buy status: " ++ settings.debug e)

  pub respond :
      GetExchangeBuyStatusRequest
      → (ExchangeError ⊎ GetBuyStatusResponse)
      → Run W.Net
      → Reply × Run W.Net
  unfolding record_status refuse
  respond request (inl e) run = (inl (refuse e), run)
  respond request (inr response) run = (inr response, record_status request response run)

  pub with_exchange :
      String
      → GetExchangeBuyStatusRequest
      → (ExchangeError ⊎ ExchangeType)
      → Run W.Net
      → Reply × Run W.Net
  unfolding respond
  with_exchange project_id request (inl e) run =
      (inl (GetExchangeBuyStatusError.exchange_not_found (exchange_error_text e)), run)
  with_exchange project_id request (inr exchange) run =
      let answer =
        W.get_buy_status exchange
          (record { project_id = project_id; session_id = request.session_id }) run.net in
      if request.session_id == "" || ltb max_session_id_length (len request.session_id)
      then (inl (GetExchangeBuyStatusError.validation_error "Invalid session ID"), run)
      else respond request answer.0 (record { ledger = run.ledger; net = answer.1 })

  unfoldable pub handler_internal :
      String
      → GetExchangeBuyStatusRequest
      → List Feature
      → FeatureType
      → Run W.Net
      → Reply × Run W.Net
  unfolding with_exchange
  handler_internal project_id request features t run =
      with_exchange project_id request
        (get_exchange_by_id settings.in_config request.exchange_id t features) run

  -- After the check of the feature.
  admitted :
      String
      → GetExchangeBuyStatusRequest
      → List Feature
      → FeatureType
      → Option ExchangeError
      → Run W.Net
      → Reply × Run W.Net
  unfolding handler_internal
  admitted project_id request features t (some e) run =
      (inl (GetExchangeBuyStatusError.validation_error (exchange_error_text e)), run)
  admitted project_id request features t none run =
      handler_internal project_id request features t run

  -- After the features of the project have been asked for.
  featured :
      String
      → GetExchangeBuyStatusRequest
      → FeatureType
      → (ExchangeError ⊎ List Feature)
      → Run W.Net
      → Reply × Run W.Net
  unfolding admitted
  featured project_id request t (inl e) run =
      (inl (GetExchangeBuyStatusError.internal_error (exchange_error_text e)), run)
  featured project_id request t (inr features) run =
      admitted project_id request features t
        (is_feature_enabled_for_project_id settings.testing_project_id settings.allowed_project_ids
          project_id features t)
        run

  -- The second argument is the `source` of the query.
  unfoldable pub handler :
      String → Option String → GetExchangeBuyStatusRequest → Run W.Net → Reply × Run W.Net
  unfolding get_enabled_features featured
  handler project_id source request run =
      let features = get_enabled_features project_id run.net in
      featured project_id request (get_feature_type source) features.0
        (record { ledger = run.ledger; net = features.1 })
