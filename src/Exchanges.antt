-- ===== src/Exchanges.antt =====
-- src/handlers/json_rpc/exchanges/mod.rs and the exchanges' own files: which exchanges there are,
-- and for whom they are enabled.
pub mod Assets
pub mod BuyStatus
pub mod Enabled
pub mod Ledger
pub mod PayUrl
pub mod Reconciler
pub mod Tests
pub mod Transactions
use Prim.Native.String.{◌++◌}
use blockchain_api.Prelude.{
  ℕ, Bool, true, false, ◌&&◌, String, List, [], ◌∷◌, Option, none, some, ◌⊎◌, inl, inr, ◌==◌,
  string_eq, any, if◌then◌else◌,
}

-- `cerberus::project::Feature`, the fields that the code reads; the configuration that comes with
-- it is its text.
pub record Feature : Type 0 where
  pub id : String
  pub is_enabled : Bool
  pub config : Option String

pub data FeatureType : Type 0 where
  payments fund_wallet : FeatureType

pub data BuyTransactionStatus : Type 0 where
  unknown in_progress success failed : BuyTransactionStatus

pub record GetBuyStatusResponse : Type 0 where
  pub status : BuyTransactionStatus
  pub tx_hash : Option String

pub record GetBuyStatusParams : Type 0 where
  pub project_id : String
  pub session_id : String

pub data ExchangeType : Type 0 where
  binance coinbase reown_test : ExchangeType

pub data ExchangeError : Type 0 where
  configuration_error validation_error get_pay_url_error : String → ExchangeError
  feature_not_enabled exchange_not_enabled : String → ExchangeError
  project_data_error internal_error : String → ExchangeError

-- `provider().id()`.
abbrev pub exchange_id : ExchangeType → String
exchange_id binance = "binance"
exchange_id coinbase = "coinbase"
exchange_id reown_test = "reown_test"

-- `EnumIter`.
abbrev pub exchange_types : List ExchangeType
exchange_types = binance ∷ coinbase ∷ reown_test ∷ []

find_exchange : String → List ExchangeType → Option ExchangeType
find_exchange id [] = none
find_exchange id (e ∷ es) = if exchange_id e == id then some e else find_exchange id es

unfoldable pub from_id : String → Option ExchangeType
unfolding find_exchange
from_id id = find_exchange id exchange_types

abbrev pub is_transaction_storage_enabled : ExchangeType → Bool
is_transaction_storage_enabled binance = true
is_transaction_storage_enabled coinbase = true
is_transaction_storage_enabled reown_test = false

-- `get_str("feature_id")`.
abbrev pub feature_id : FeatureType → String
feature_id payments = "payments"
feature_id fund_wallet = "fund_from_exchange"

-- `Display`.
abbrev pub feature_name : FeatureType → String
feature_name payments = "Payments"
feature_name fund_wallet = "Fund Wallet"

abbrev has_feature : FeatureType → Feature → Bool
has_feature t f = f.id == feature_id t && f.is_enabled

find_feature : FeatureType → List Feature → Option Feature
find_feature t [] = none
find_feature t (f ∷ fs) = if has_feature t f then some f else find_feature t fs

-- `is_coinbase_enabled_in_config` reads JSON: an argument.
coinbase_enabled : (Feature → Bool) → FeatureType → List Feature → Bool
unfolding find_feature
coinbase_enabled in_config payments features = false
coinbase_enabled in_config fund_wallet features = elim (find_feature fund_wallet features) [
  | none ↦ false
  | some f ↦ in_config f
]

unfoldable pub is_enabled : (Feature → Bool) → ExchangeType → FeatureType → List Feature → Bool
unfolding coinbase_enabled
is_enabled in_config binance t features = true
is_enabled in_config coinbase t features = coinbase_enabled in_config t features
is_enabled in_config reown_test t features = true

unfoldable pub get_exchange_by_id :
    (Feature → Bool) → String → FeatureType → List Feature → ExchangeError ⊎ ExchangeType
get_exchange_by_id in_config id t features = elim (from_id id) [
  | none ↦ inl (ExchangeError.validation_error ("Exchange " ++ (id ++ " not found")))
  | some e ↦
      if is_enabled in_config e t features
      then inr e
      else inl (ExchangeError.exchange_not_enabled ("Exchange " ++ (id ++ " is not enabled")))
]

unfoldable pub get_feature_type : Option String → FeatureType
get_feature_type none = payments
get_feature_type (some source) = if source == "fund-wallet" then fund_wallet else payments

-- Whether an optional project is this one: `constant_time_eq` compares the bytes.
abbrev is_project : Option String → String → Bool
is_project none project_id = false
is_project (some p) project_id = p == project_id

abbrev is_allowed : Option (List String) → String → Bool
is_allowed none project_id = false
is_allowed (some ids) project_id = any (λ id. id == project_id) ids

-- The error, if there is one; the first two arguments are those of the configuration.
unfoldable pub is_feature_enabled_for_project_id :
    Option String
    → Option (List String)
    → String
    → List Feature
    → FeatureType
    → Option ExchangeError
is_feature_enabled_for_project_id testing_project_id allowed_project_ids project_id features t =
    if is_project testing_project_id project_id
    then none
    else if is_allowed allowed_project_ids project_id
    then none
    else if any (has_feature t) features
    then none
    else some (
        ExchangeError.feature_not_enabled
          (feature_name t ++ " feature is not enabled for this project"))
