-- ===== src/Exchanges/Tests/Urls.antt =====
-- Runs of src/handlers/json_rpc/exchanges: the exchanges that are offered, and addresses to buy at.
use blockchain_api.Prelude.{ℕ, ◌+◌, true, String, [], ◌∷◌, none, some, inr, refl}
use blockchain_api.Prelude.Map.{get}
use blockchain_api.Errors.Namespaces.{parse_namespace}
use blockchain_api.Caip.Chains.{
  matches, new as new_chain, parse as parse_chain, to_string as chain_to_string,
}
use blockchain_api.Caip.Assets.{new as new_asset, parse, to_string, asset_id, is_token_id}
use blockchain_api.Caip.Accounts.{disassemble_caip10, is_address_valid}
use blockchain_api.Exchanges.{
  Feature, FeatureType, binance, from_id, is_enabled, get_exchange_by_id,
}
use blockchain_api.Exchanges.Assets.{
  Readers, GetExchangesRequest, GetExchangesResponse, get_exchanges, get_supported_exchanges,
  is_asset_supported, map_asset_to_binance_format, to_exchange,
}
use blockchain_api.Exchanges.Assets.Offers.{IsOffers, read_asset, get_exchanges-IsOffers}
use blockchain_api.Exchanges.Ledger.{insert_new}
use blockchain_api.Exchanges.Transactions.{create}
use blockchain_api.Exchanges.PayUrl.{
  Clients, GeneratePayUrlRequest, generate_pay_url, read_amount, parse_hex,
}
use blockchain_api.Exchanges.PayUrl.Started.{IsStarted, generate_pay_url-IsStarted}
use blockchain_api.Exchanges.Tests.{fine, late}

abbrev readers : Readers
readers = record { in_config = λ f. true; checksum = λ s. some s; crypto_error_text = λ e. "" }

abbrev ether : String
ether = "eip155:1/slip44:60"

abbrev asking : GetExchangesRequest
asking = record {
  page = 1;
  include_only = none;
  exclude = some ("coinbase" ∷ []);
  asset = some ether;
  amount = none;
}

abbrev offers : GetExchangesResponse
offers = record { total = 1; exchanges = to_exchange binance ∷ [] }

get_exchanges-IsOffers_example :
    IsOffers readers (read_asset readers (some ether)) FeatureType.payments [] offers
unfolding get_exchanges get_supported_exchanges is_asset_supported map_asset_to_binance_format get
    is_enabled parse parse_chain new_asset new_chain matches is_token_id to_string asset_id
    chain_to_string
get_exchanges-IsOffers_example =
    get_exchanges-IsOffers readers asking FeatureType.payments [] offers refl

abbrev clients : Clients ℕ
clients = record {
  readers = readers;
  codecs = record { reads_h160 = λ s. true; base58_length = λ s. none };
  debug = λ e. "";
  get_buy_url = λ e params net. (inr "https://example.com", net + 1);
  new_session_id = λ net. ("c", net + 1);
  parse_f64 = λ s. none;
  to_f64 = λ n. n;
}

abbrev funding : Feature
funding = record { id = "fund_from_exchange"; is_enabled = true; config = none }

abbrev buying : GeneratePayUrlRequest
buying = record {
  exchange_id = "coinbase";
  asset = ether;
  amount = "0x10";
  recipient = "eip155:1:0x1234567890123456789012345678901234567890";
}

generate_pay_url-IsStarted_example :
    IsStarted fine clients "p" buying
      (funding ∷ [])
      FeatureType.fund_wallet
      "c"
      (generate_pay_url fine clients "p" buying (funding ∷ []) FeatureType.fund_wallet late).1
unfolding generate_pay_url get_exchange_by_id from_id is_enabled parse parse_chain new_asset
    new_chain matches is_token_id to_string asset_id chain_to_string disassemble_caip10
    parse_namespace is_address_valid is_asset_supported get read_amount parse_hex create insert_new
generate_pay_url-IsStarted_example =
    generate_pay_url-IsStarted fine clients "p" buying (funding ∷ []) FeatureType.fund_wallet late
      (record { url = "https://example.com"; session_id = "c" }) refl
