-- ===== src/Errors/Response.antt =====
-- src/error.rs: the HTTP response to each error.
pub mod Classes
use Prim.Native.String.{◌++◌}
use blockchain_api.Prelude.{ℕ, String, List, [], ◌∷◌}
use blockchain_api.Prelude.Text.{decimal}
use blockchain_api.Errors.{
  RpcError, CryptoUtilsError, CaipNamespaces, RouteSolanaError, RouteSolanaRequestError,
}

pub record ErrorReason : Type 0 where
  pub field : String
  pub description : String

pub record ErrorResponse : Type 0 where
  pub status : String
  pub reasons : List ErrorReason

pub new_error_response : String → String → ErrorResponse
new_error_response field description = record {
  status = "FAILED";
  reasons = record { field = field; description = description } ∷ [];
}

pub record ErrorResponseWithCode : Type 0 where
  pub code : String
  pub message : String

pub new_error_response_with_code : String → String → ErrorResponseWithCode
new_error_response_with_code code message = record { code = code; message = message }

-- The body of a response: none, a text, or a value as JSON.
pub data Body : Type 0 where
  empty : Body
  text : String → Body
  json : ErrorResponse → Body
  json_with_code : ErrorResponseWithCode → Body

pub data Reply : Type 0 where
  reply : ℕ → Body → Reply

-- `#[error(…)]` of `CryptoUtilsError`.
display_crypto : CryptoUtilsError → String
display_crypto (CryptoUtilsError.wrong_namespace e) = "Namespace is not supported: " ++ e
display_crypto (CryptoUtilsError.wrong_chain_id_format e) =
    "Chain ID format is not supported: " ++ e
display_crypto (CryptoUtilsError.wrong_address_format e) = "Address format is not supported: " ++ e
display_crypto (CryptoUtilsError.wrong_caip2_format e) = "Wrong CAIP-2 format: " ++ e
display_crypto (CryptoUtilsError.wrong_caip10_format e) = "Wrong CAIP-10 format: " ++ e
display_crypto (CryptoUtilsError.wrong_caip19_format e) = "Wrong CAIP-19 format: " ++ e
display_crypto (CryptoUtilsError.provider_error e) = "Provider call error: " ++ e
display_crypto (CryptoUtilsError.contract_call_error e) = "Contract call error: " ++ e
display_crypto (CryptoUtilsError.address_format e) = "Wrong address format: " ++ e
display_crypto (CryptoUtilsError.signature_format e) = "Wrong signature format: " ++ e
display_crypto (CryptoUtilsError.address_checksum e) = "Wrong address checksum: " ++ e
display_crypto (CryptoUtilsError.rpc_url_parse_error e) = "Failed to parse RPC url: " ++ e
display_crypto (CryptoUtilsError.http_request e) = "HTTP request failed: " ++ e
display_crypto CryptoUtilsError.no_result_in_rpc_response = "No result JSON-RPC call response"
display_crypto (CryptoUtilsError.erc20_decode_error e) = "Error when decoding ERC20 call: " ++ e

-- `derive(Display)` of `CaipNamespaces`.
unfoldable pub display_namespace : CaipNamespaces → String
display_namespace CaipNamespaces.eip155 = "eip155"
display_namespace CaipNamespaces.solana = "solana"
display_namespace CaipNamespaces.ton = "ton"
display_namespace CaipNamespaces.rootstock = "rootstock"

display_solana_request : RouteSolanaRequestError → String
display_solana_request (RouteSolanaRequestError.malformed_solana_account e) =
    "Malformed Solana account: " ++ e

route_solana_into_response : RouteSolanaError → Reply
route_solana_into_response (RouteSolanaError.internal _) = reply 500 empty
route_solana_into_response (RouteSolanaError.request e) =
    reply 400 (text (display_solana_request e))

unfoldable pub into_response : RpcError → Reply
unfolding route_solana_into_response display_crypto display_solana_request
into_response (RpcError.web_socket_error e) = reply 410 (text e)
into_response (RpcError.unsupported_chain chain_id) = reply 400 (
    json (
      new_error_response "chainId" (
        "We don't support the chainId you provided: " ++ chain_id
        ++ ". See the list of supported chains here: https://docs.reown.com/cloud/blockchain-api#supported-chains")))
into_response (RpcError.unsupported_currency message) =
    reply 400 (json (new_error_response "currency" ("Unsupported currency: " ++ message ++ ".")))
into_response (RpcError.unsupported_bundler_name message) =
    reply 400
      (json (new_error_response "bundler_name" ("Unsupported bundler name: " ++ message ++ ".")))
into_response (RpcError.unsupported_bundler_name_url_parse_error message) =
    reply 400
      (json (new_error_response "bundler_name" ("Unsupported bundler name: " ++ message ++ ".")))
into_response (RpcError.crypto_utils_error e) =
    reply 400 (json (new_error_response "" ("Crypto utils error: " ++ display_crypto e)))
into_response (RpcError.chain_temporarily_unavailable chain_id) = reply 503 (
    json (
      new_error_response "chainId"
        ("Requested " ++ chain_id ++ " chain provider is temporarily unavailable")))
into_response (RpcError.balance_temporarily_unavailable namespace) = reply 503 (
    json (
      new_error_response "chainId"
        ("Requested namespace " ++ namespace ++ " balance provider is temporarily unavailable")))
into_response (RpcError.invalid_chain_id_format chain_id) = reply 400 (
    json (
      new_error_response "chainId"
        ("Requested " ++ chain_id ++ " has invalid format for the requested namespace")))
into_response (RpcError.unsupported_provider provider) =
    reply 400
      (json (new_error_response "provider" ("Provider " ++ provider ++ " is not supported")))
into_response (RpcError.unsupported_bundler bundler) =
    reply 400 (json (new_error_response "bundler" ("Bundler " ++ bundler ++ " is not supported")))
into_response (RpcError.identity_provider_error e) =
    reply 503 (
      json
        (new_error_response "" ("We failed to reach the identity provider with an error: " ++ e)))
into_response RpcError.invalid_scheme =
    reply 400 (json (new_error_response "scheme" "Invalid scheme used. Try http(s):// or ws(s)://"))
into_response RpcError.web_socket_connection_expected = reply 426 (
    json (
      new_error_response ""
        "Only WebSocket connections are supported for GET method on this endpoint"))
into_response (RpcError.registry_error _) =
    reply 401 (json (new_error_response "authentication" "We failed to authenticate your request"))
into_response (RpcError.cerberus _) =
    reply 401 (json (new_error_response "authentication" "We failed to authenticate your request"))
into_response (RpcError.project_data_error _) =
    reply 401 (json (new_error_response "authentication" "We failed to authenticate your request"))
into_response (RpcError.transport_error _) =
    reply 503
      (json (new_error_response "transport" "We failed to reach the provider for your request"))
into_response RpcError.invalid_address =
    reply 400 (json (new_error_response "address" "The address provided is invalid"))
into_response RpcError.quota_limit_reached =
    reply 429 (json (new_error_response "address" "Project's quota limit reached"))
into_response (RpcError.invalid_parameter e) =
    reply 400 (json (new_error_response "" ("Invalid parameter: " ++ e)))
into_response (RpcError.invalid_name_format e) =
    reply 400 (json (new_error_response "name" ("Invalid name format: " ++ e)))
into_response (RpcError.invalid_name_length e) =
    reply 400 (json (new_error_response "name" ("Invalid name length: " ++ e)))
into_response (RpcError.invalid_name_zone e) =
    reply 400 (json (new_error_response "name" ("Name is not in the allowed zones: " ++ e)))
into_response (RpcError.conversion_invalid_parameter e) =
    reply 400 (json (new_error_response "" ("Conversion parameter error: " ++ e)))
into_response (RpcError.conversion_invalid_parameter_with_code error_code message) = reply 400 (
    json_with_code
      (new_error_response_with_code error_code ("Conversion parameter error: " ++ message)))
into_response (RpcError.asset_not_supported e) =
    reply 400 (json (new_error_response "asset" ("Asset is not supported: " ++ e)))
into_response (RpcError.unsupported_coin_type e) =
    reply 400 (json (new_error_response "coin_type" ("Unsupported coin type: " ++ decimal e)))
into_response (RpcError.unsupported_namespace e) =
    reply 400
      (json (new_error_response "address" ("Unsupported namespace: " ++ display_namespace e)))
into_response RpcError.unsupported_name_attribute =
    reply 400 (json (new_error_response "attributes" "Unsupported name attribute in payload"))
into_response (RpcError.name_already_registered e) =
    reply 400 (json (new_error_response "name" ("Name is already registered: " ++ e)))
into_response (RpcError.name_not_registered e) =
    reply 400 (json (new_error_response "name" ("Name is not registered: " ++ e)))
into_response (RpcError.name_not_found e) =
    reply 404 (json (new_error_response "name" ("Name is not found in the database: " ++ e)))
into_response RpcError.name_by_address_not_found =
    reply 404 (json (new_error_response "address" "No name for address is found"))
into_response (RpcError.expired_timestamp e) = reply 400 (
    json
      (new_error_response "timestamp" ("Signature UNIXTIME timestamp is too old: " ++ decimal e)))
into_response (RpcError.signature_validation_error e) =
    reply 401 (json (new_error_response "signature" ("Signature validation error: " ++ e)))
into_response RpcError.name_owner_validation_error =
    reply 401 (json (new_error_response "address" "Name owner validation error"))
into_response (RpcError.serde_json e) =
    reply 422 (json (new_error_response "" ("Deserialization error: " ++ e)))
into_response (RpcError.rate_limited e) =
    reply 429
      (json (new_error_response "rate_limited" ("Requests per second limit exceeded: " ++ e)))
into_response (RpcError.permission_not_found _ pci) =
    reply 400 (json (new_error_response "pci" ("Permission for PCI is not found: " ++ pci)))
into_response (RpcError.revoked_permission pci) =
    reply 400 (json (new_error_response "pci" ("Permission is revoked: " ++ pci)))
into_response (RpcError.permission_expired pci) =
    reply 400 (json (new_error_response "pci" ("Permission is expired: " ++ pci)))
into_response (RpcError.wrong_base64_format e) =
    reply 400 (json (new_error_response "" ("Wrong Base64 format: " ++ e)))
into_response (RpcError.key_format_error e) =
    reply 400 (json (new_error_response "key" ("Invalid key format: " ++ e)))
into_response (RpcError.signature_format_error e) =
    reply 400 (json (new_error_response "signature" ("Invalid signature format: " ++ e)))
into_response RpcError.co_signer_empty_permissions =
    reply 400 (json (new_error_response "" "Permissions set is empty"))
into_response (RpcError.abi_decoding_error e) =
    reply 400 (json (new_error_response "calldata" ("ABI signature decoding error: " ++ e)))
into_response RpcError.transaction_provider_error =
    reply 503 (json (new_error_response "" "Transaction provider is temporarily unavailable"))
into_response RpcError.on_ramp_provider_error =
    reply 503 (json (new_error_response "" "OnRamp provider is temporarily unavailable"))
into_response RpcError.portfolio_provider_error =
    reply 503 (json (new_error_response "" "Portfolio provider is temporarily unavailable"))
into_response RpcError.balance_provider_error =
    reply 503 (json (new_error_response "" "Balance provider is temporarily unavailable"))
into_response (RpcError.fungible_price_provider_error e) =
    reply 503
      (json (new_error_response "" ("Fungibles price provider is temporarily unavailable: " ++ e)))
into_response RpcError.conversion_provider_error =
    reply 503 (json (new_error_response "" "Convertion provider is temporarily unavailable"))
into_response RpcError.simulation_provider_unavailable =
    reply 503 (json (new_error_response "" "Simulation provider is temporarily unavailable"))
into_response (RpcError.cosigner_permission_denied e) =
    reply 401 (json (new_error_response "" ("Cosigner permission denied: " ++ e)))
into_response (RpcError.cosigner_unsupported_permission e) =
    reply 401 (json (new_error_response "" ("Unsupported permission in CoSigner: " ++ e)))
into_response (RpcError.orchestration_id_not_found id) =
    reply 400
      (json (new_error_response "orchestrationId" ("Orchestration ID is not found: " ++ id)))
into_response (RpcError.route_solana e) = route_solana_into_response e
into_response _ = reply 500 (text "Internal server error")
