-- ===== src/Errors.antt =====
-- src/error.rs: the error type of every handler, and the own error types that it carries.
-- src/project/error.rs, src/storage/error.rs, src/storage/irn/mod.rs and the error types of
-- src/utils/crypto.rs, src/handlers/sessions/get.rs and src/handlers/chain_agnostic/route.rs.
pub mod Namespaces
pub mod Response
use blockchain_api.Prelude.{ℕ, String}

-- An error of a library, as the text that it displays.
abbrev pub Foreign : Type 0
Foreign = String

pub data ProjectDataError : Type 0 where
  not_found registry_config_error registry_temporarily_unavailable : ProjectDataError

pub data StorageError : Type 0 where
  set_expiry serialize : StorageError
  deserialize connection wrong_node_address wrong_key wrong_namespace : String → StorageError
  utf8_error wcn_client_error : Foreign → StorageError
  other : String → StorageError

pub data ConfigError : Type 0 where
  missing_client_key invalid_client_key invalid_cluster_key : ConfigError
  missing_namespace missing_encryption_secret : ConfigError
  invalid_peer_addr invalid_operator_id invalid_namespace : String → ConfigError

pub data CaipNamespaces : Type 0 where
  eip155 solana ton rootstock : CaipNamespaces

pub data CryptoUtilsError : Type 0 where
  wrong_namespace wrong_chain_id_format wrong_address_format : String → CryptoUtilsError
  wrong_caip2_format wrong_caip10_format wrong_caip19_format : String → CryptoUtilsError
  provider_error contract_call_error address_format signature_format : String → CryptoUtilsError
  address_checksum rpc_url_parse_error : String → CryptoUtilsError
  http_request : Foreign → CryptoUtilsError
  no_result_in_rpc_response : CryptoUtilsError
  erc20_decode_error : String → CryptoUtilsError

pub data InternalGetSessionContextError : Type 0 where
  storage : StorageError → InternalGetSessionContextError
  deserializing : Foreign → InternalGetSessionContextError

pub data RouteSolanaInternalError : Type 0 where
  request json_deserialization li_fi_quote_deserialization_solana :
      Foreign → RouteSolanaInternalError
  li_fi_quote_deserialization_eip155 : Foreign → RouteSolanaInternalError
  transaction_request_decode transaction_request_deserialization allowance_call :
      Foreign → RouteSolanaInternalError

pub data RouteSolanaRequestError : Type 0 where
  malformed_solana_account : Foreign → RouteSolanaRequestError

pub data RouteSolanaError : Type 0 where
  internal : RouteSolanaInternalError → RouteSolanaError
  request : RouteSolanaRequestError → RouteSolanaError

pub data RpcError : Type 0 where
  envy_error : Foreign → RpcError
  crypto_utils_error : CryptoUtilsError → RpcError
  invalid_configuration : String → RpcError
  project_data_error : ProjectDataError → RpcError
  registry_error : Foreign → RpcError
  storage_error : StorageError → RpcError
  chain_not_found : RpcError
  transport_error : Foreign → RpcError
  hyper_util_error : Foreign → RpcError
  proxy_timeout_error : Foreign → RpcError
  request_builder_error : Foreign → RpcError
  unsupported_chain : String → RpcError
  unsupported_currency : String → RpcError
  chain_temporarily_unavailable : String → RpcError
  invalid_chain_id_format : String → RpcError
  unsupported_provider : String → RpcError
  unsupported_bundler : String → RpcError
  identity_provider_error : String → RpcError
  transaction_provider_error : RpcError
  portfolio_provider_error : RpcError
  balance_provider_error : RpcError
  balance_temporarily_unavailable : String → RpcError
  fungible_price_provider_error : String → RpcError
  balance_parse_url_error : RpcError
  fungible_price_parse_url_error : RpcError
  on_ramp_parse_url_error : RpcError
  on_ramp_provider_error : RpcError
  cerberus : Foreign → RpcError
  other : Foreign → RpcError
  serde_json : Foreign → RpcError
  invalid_scheme : RpcError
  web_socket_error : String → RpcError
  web_socket_connection_expected : RpcError
  rate_limited : Foreign → RpcError
  invalid_address : RpcError
  history_parse_cursor_error : RpcError
  identity_lookup : String → RpcError
  quota_limit_reached : RpcError
  sqlx_error : Foreign → RpcError
  sqlx_migration_error : Foreign → RpcError
  invalid_parameter : String → RpcError
  asset_not_supported : String → RpcError
  conversion_provider_error : RpcError
  conversion_parse_url_error : RpcError
  conversion_invalid_parameter : String → RpcError
  conversion_invalid_parameter_with_code : String → String → RpcError
  conversion_provider_internal_error : String → RpcError
  name_already_registered : String → RpcError
  name_not_registered : String → RpcError
  name_registration_error : String → RpcError
  name_not_found : String → RpcError
  name_by_address_not_found : RpcError
  internal_name_resolver_error : RpcError
  invalid_name_format : String → RpcError
  invalid_name_length : String → RpcError
  invalid_name_zone : String → RpcError
  invalid_value : String → RpcError
  unsupported_coin_type : ℕ → RpcError
  unsupported_namespace : CaipNamespaces → RpcError
  unsupported_name_attribute : RpcError
  expired_timestamp : ℕ → RpcError
  signature_validation_error : String → RpcError
  name_owner_validation_error : RpcError
  reqwest : Foreign → RpcError
  weighted_providers_index : String → RpcError
  irn_not_configured : RpcError
  irn_config : ConfigError → RpcError
  internal_get_session_context_error : InternalGetSessionContextError → RpcError
  wrong_base64_format : String → RpcError
  wrong_hex_format : String → RpcError
  key_format_error : String → RpcError
  signature_format_error : String → RpcError
  pkcs8_error : Foreign → RpcError
  permission_not_found : String → String → RpcError
  permission_context_not_updated : String → RpcError
  revoked_permission : String → RpcError
  permission_expired : String → RpcError
  co_signer_empty_permissions : RpcError
  cosigner_permission_denied : String → RpcError
  cosigner_unsupported_permission : String → RpcError
  abi_decoding_error : String → RpcError
  orchestration_id_not_found : String → RpcError
  bridging_final_amount_less : RpcError
  simulation_provider_unavailable : RpcError
  simulation_failed : String → RpcError
  route_solana : RouteSolanaError → RpcError
  join_error : Foreign → RpcError
  unsupported_bundler_name_url_parse_error : Foreign → RpcError
  unsupported_bundler_name : String → RpcError

-- `RpcResult`.
pub data RpcResult {ℓ} (A : Type ℓ) : Type ℓ where
  ok : A → RpcResult A
  err : RpcError → RpcResult A

infixl 5 ◌>>=◌ ◌>>◌
abbrev pub ◌>>=◌ {ℓ κ} : {A : Type ℓ} {B : Type κ} → RpcResult A → (A → RpcResult B) → RpcResult B
ok a >>= f = f a
err e >>= f = err e

abbrev pub ◌>>◌ {ℓ} : {B : Type ℓ} → RpcResult (Unit {0}) → RpcResult B → RpcResult B
m >> k = m >>= λ _. k
