-- ===== src/Exchanges/Assets.antt =====
-- src/handlers/json_rpc/exchanges: the assets of the exchanges, and which of them are offered.
pub mod Offers
use Prim.Native.String.{◌++◌}
use blockchain_api.Prelude.{
  ℕ, Bool, true, false, not, ◌&&◌, ◌||◌, String, List, [], ◌∷◌, map, filter, any, length, Option,
  none, some, ◌⊎◌, inl, inr, ◌==◌, string_eq, if◌then◌else◌,
}
use blockchain_api.Prelude.Map.{get}
use blockchain_api.Errors.{CryptoUtilsError}
use blockchain_api.Caip.Chains.{Caip2ChainId, to_string as chain_to_string}
use blockchain_api.Caip.Assets.{Caip19Asset, parse, to_string}
use blockchain_api.Exchanges.{
  Feature, FeatureType, ExchangeType, ExchangeError, binance, coinbase, reown_test, exchange_id,
  exchange_types, is_enabled,
}

abbrev pub caip19_to_binance_crypto : List (String × String)
caip19_to_binance_crypto =
    ("eip155:1/erc20:0xA0b86991c6218b36c1d19D4a2e9Eb0cE3606eB48", "USDC")
    ∷ ("eip155:137/erc20:0x2791Bca1f2de4661ED88A30C99A7a9449Aa84174", "USDC")
    ∷ ("eip155:8453/erc20:0x833589fCD6eDb6E08f4c7C32D4f71b54bdA02913", "USDC")
    ∷ ("eip155:42161/erc20:0xaf88d065e77c8cC2239327C5EDb3A432268e5831", "USDC")
    ∷ ("eip155:1/slip44:60", "ETH")
    ∷ ("solana:5eykt4UsFv8P8NJdTREpY1vzqKqZKvdp/slip44:501", "SOL")
    ∷ ("eip155:1/erc20:0xdAC17F958D2ee523a2206206994597C13D831ec7", "USDT")
    ∷ ("eip155:42161/erc20:0xFd086bC7CD5C481DCC9C85ebE478A1C0b69FCbb9", "USDT")
    ∷ ("eip155:10/erc20:0x94b008aA00579c1307B0EF2c499aD98a8ce58e58", "USDT")
    ∷ ("eip155:137/erc20:0xc2132D05D31c914a87C6611C10748AEb04B58e8F", "USDT")
    ∷ (
      "solana:5eykt4UsFv8P8NJdTREpY1vzqKqZKvdp/token:EPjFWdd5AufqSSqeM2qN1xzybapC8G4wEGGkZwyTDt1v",
      "USDC",
    )
    ∷ (
      "solana:5eykt4UsFv8P8NJdTREpY1vzqKqZKvdp/token:Es9vMFrzaCERmJfrF4H2FYD4KCoNkY11McCe8BenwNYB",
      "USDT",
    )
    ∷ ("eip155:30/erc20:0x2AcC95758f8b5F583470ba265EB685a8F45fC9D5", "RIF")
    ∷ []

abbrev pub chain_id_to_binance_network : List (String × String)
chain_id_to_binance_network =
    ("eip155:1", "ETH")
    ∷ ("eip155:137", "MATIC")
    ∷ ("eip155:8453", "BASE")
    ∷ ("eip155:42161", "ARBITRUM")
    ∷ ("eip155:10", "OPTIMISM")
    ∷ ("solana:5eykt4UsFv8P8NJdTREpY1vzqKqZKvdp", "SOL")
    ∷ ("eip155:30", "RSK")
    ∷ []

abbrev pub caip19_to_coinbase_crypto : List (String × String)
caip19_to_coinbase_crypto =
    ("eip155:8453/erc20:0x833589fCD6eDb6E08f4c7C32D4f71b54bdA02913", "USDC")
    ∷ ("eip155:10/erc20:0x94b008aA00579c1307B0EF2c499aD98a8ce58e58", "USDC")
    ∷ ("eip155:42161/erc20:0xAf88d065E77C8Ccc2239327C5EDb3A432268e5831", "USDC")
    ∷ ("eip155:137/erc20:0x2791Bca1f2de4661ED88A30C99A7a9449Aa84174", "USDC")
    ∷ ("eip155:1/erc20:0xA0b86991c6218b36c1d19D4a2e9Eb0cE3606eB48", "USDC")
    ∷ ("eip155:1/slip44:60", "ETH")
    ∷ ("eip155:1/erc20:0xdAC17F958D2ee523a2206206994597C13D831ec7", "USDT")
    ∷ (
      "solana:5eykt4UsFv8P8NJdTREpY1vzqKqZKvdp/token:EPjFWdd5AufqSSqeM2qN1xzybapC8G4wEGGkZwyTDt1v",
      "USDC",
    )
    ∷ []

abbrev pub chain_id_to_coinbase_network : List (String × String)
chain_id_to_coinbase_network =
    ("eip155:8453", "base")
    ∷ ("eip155:10", "optimism")
    ∷ ("eip155:42161", "arbitrum")
    ∷ ("eip155:137", "polygon")
    ∷ ("eip155:1", "ethereum")
    ∷ ("solana:5eykt4UsFv8P8NJdTREpY1vzqKqZKvdp", "solana")
    ∷ []

abbrev and_network : Caip19Asset → String → Option String → ExchangeError ⊎ (String × String)
and_network asset crypto none =
    inl
      (ExchangeError.validation_error ("Unsupported chain ID: " ++ chain_to_string asset.chain_id))
and_network asset crypto (some network) = inr (crypto, network)

-- The crypto currency and the network of an asset, by the tables of an exchange.
map_asset :
    List (String × String)
    → List (String × String)
    → Caip19Asset
    → ExchangeError ⊎ (String × String)
map_asset cryptos networks asset = elim (get (to_string asset) cryptos) [
  | none ↦ inl (ExchangeError.validation_error ("Unsupported asset: " ++ to_string asset))
  | some crypto ↦ and_network asset crypto (get (chain_to_string asset.chain_id) networks)
]

unfoldable pub map_asset_to_binance_format : Caip19Asset → ExchangeError ⊎ (String × String)
unfolding map_asset
map_asset_to_binance_format asset =
    map_asset caip19_to_binance_crypto chain_id_to_binance_network asset

unfoldable pub map_asset_to_coinbase_format : Caip19Asset → ExchangeError ⊎ (String × String)
unfolding map_asset
map_asset_to_coinbase_format asset =
    map_asset caip19_to_coinbase_crypto chain_id_to_coinbase_network asset

abbrev is_ok : ExchangeError ⊎ (String × String) → Bool
is_ok (inl e) = false
is_ok (inr x) = true

abbrev is_found : Option String → Bool
is_found none = false
is_found (some x) = true

abbrev same_token : Option String → Option String → Bool
same_token none none = true
same_token none (some t) = false
same_token (some s) none = false
same_token (some s) (some t) = s == t

-- `derive(PartialEq)` of `Caip19Asset`.
abbrev same_asset : Caip19Asset → Caip19Asset → Bool
same_asset a b =
    a.chain_id.namespace == b.chain_id.namespace
    && (a.chain_id.reference == b.chain_id.reference
        && (a.asset_namespace == b.asset_namespace
            && (a.asset_reference == b.asset_reference && same_token a.token_id b.token_id)))

abbrev native_asset : String → Caip19Asset
native_asset reference = record {
  chain_id = record { namespace = "eip155"; reference = reference };
  asset_namespace = "slip44";
  asset_reference = "60";
  token_id = none;
}

-- Of the test exchange, as parsed.
abbrev caip19_supported_assets : List Caip19Asset
caip19_supported_assets = native_asset "11155111" ∷ native_asset "84532" ∷ []

unfoldable pub is_asset_supported : ExchangeType → Caip19Asset → Bool
is_asset_supported binance asset = is_ok (map_asset_to_binance_format asset)
is_asset_supported coinbase asset = is_found (get (to_string asset) caip19_to_coinbase_crypto)
is_asset_supported reown_test asset = any (λ a. same_asset a asset) caip19_supported_assets

pub record Exchange : Type 0 where
  pub id : String
  pub name : String
  pub image_url : Option String

abbrev pub to_exchange : ExchangeType → Exchange
to_exchange binance = record {
  id = "binance";
  name = "Binance";
  image_url = some "https://pay-assets.reown.com/binance_128_128.webp";
}
to_exchange coinbase = record {
  id = "coinbase";
  name = "Coinbase";
  image_url = some "https://pay-assets.reown.com/coinbase_128_128.webp";
}
to_exchange reown_test = record {
  id = "reown_test";
  name = "Reown Test Exchange";
  image_url = some "https://pay-assets.reown.com/reown_test_128_128.webp";
}

-- What reads the configuration of a feature, the checksummed form of addresses, and the text of an
-- error.
pub record Readers : Type 0 where
  pub in_config : Feature → Bool
  pub checksum : String → Option String
  pub crypto_error_text : CryptoUtilsError → String

module _ (readers : Readers) where
  offered : FeatureType → List Feature → (ExchangeType → Bool) → List Exchange
  offered t features supports =
      map to_exchange
        (filter (λ e. supports e && is_enabled readers.in_config e t features) exchange_types)

  unfoldable pub get_supported_exchanges :
      Option String → FeatureType → List Feature → ExchangeError ⊎ List Exchange
  unfolding offered
  get_supported_exchanges none t features = inr (offered t features (λ e. true))
  get_supported_exchanges (some asset) t features = elim (parse readers.checksum asset) [
    | inl e ↦ inl (ExchangeError.validation_error (readers.crypto_error_text e))
    | inr a ↦ inr (offered t features (λ e. is_asset_supported e a))
  ]

pub record GetExchangesRequest : Type 0 where
  pub page : ℕ
  pub include_only : Option (List String)
  pub exclude : Option (List String)
  pub asset : Option String
  pub amount : Option String

pub record GetExchangesResponse : Type 0 where
  pub total : ℕ
  pub exchanges : List Exchange

pub data GetExchangesError : Type 0 where
  validation_error : String → GetExchangesError
  unable_to_get_enabled_features : String → GetExchangesError

abbrev is_in : List String → Exchange → Bool
is_in ids exchange = any (λ id. id == exchange.id) ids

abbrev response : List Exchange → GetExchangesError ⊎ GetExchangesResponse
response exchanges = inr (record { total = length exchanges; exchanges = exchanges })

-- The exchanges that a request asks for.
select :
    Option (List String)
    → Option (List String)
    → List Exchange
    → GetExchangesError ⊎ GetExchangesResponse
select (some only) (some exclude) exchanges =
    inl (GetExchangesError.validation_error "includeOnly and exclude are mutually exclusive")
select (some only) none exchanges = response (filter (is_in only) exchanges)
select none (some exclude) exchanges = response (filter (λ e. not (is_in exclude e)) exchanges)
select none none exchanges = response exchanges

-- An asset that does not parse has no exchanges.
unfoldable pub get_exchanges :
    Readers
    → GetExchangesRequest
    → FeatureType
    → List Feature
    → GetExchangesError ⊎ GetExchangesResponse
unfolding select
get_exchanges readers request t features =
    elim (get_supported_exchanges readers request.asset t features) [
      | inl e ↦ inr (record { total = 0; exchanges = [] })
      | inr exchanges ↦ select request.include_only request.exclude exchanges
    ]
