-- ===== src/Exchanges/PayUrl.antt =====
-- src/handlers/json_rpc/exchanges/get_exchange_url.rs: the address at which an asset is bought, and
-- the session that is recorded for it.
pub mod Started
use Prim.Native.Char.{Char, code}
use Prim.Native.String.{◌++◌}
use blockchain_api.Prelude.{
  ℕ, ◌+◌, ◌-◌, ◌*◌, Bool, ◌&&◌, not, String, List, Option, none, some, ◌⊎◌, inl, inr, leb, ◌==◌,
  nat_eq, string_eq, if◌then◌else◌,
}
use blockchain_api.Prelude.Text.{u64_max}
use blockchain_api.Errors.{CaipNamespaces, CryptoUtilsError}
use blockchain_api.Caip.Chains.{Caip2ChainId}
use blockchain_api.Caip.Assets.{Caip19Asset, parse, asset_id, to_string}
use blockchain_api.Caip.Accounts.{Codecs, disassemble_caip10, namespace_text}
use blockchain_api.Exchanges.{Feature, FeatureType, ExchangeType, ExchangeError, get_exchange_by_id}
use blockchain_api.Exchanges.Assets.{Readers, is_asset_supported}
use blockchain_api.Exchanges.BuyStatus.{exchange_error_text}
use blockchain_api.Exchanges.Ledger.{DatabaseError}
use blockchain_api.Exchanges.Transactions.{World, Run, Outcome, create}

pub record GeneratePayUrlRequest : Type 0 where
  pub exchange_id : String
  pub asset : String
  pub amount : String
  pub recipient : String

pub record GeneratePayUrlResponse : Type 0 where
  pub url : String
  pub session_id : String

pub data GetExchangeUrlError : Type 0 where
  validation_error exchange_not_found internal_error : String → GetExchangeUrlError

abbrev pub UrlReply : Type 0
UrlReply = GetExchangeUrlError ⊎ GeneratePayUrlResponse

-- The address of the user's client is left out.
pub record GetBuyUrlParams : Type 0 where
  pub project_id : String
  pub asset : Caip19Asset
  pub amount : ℕ
  pub recipient : String
  pub session_id : String

-- The clients of the exchanges, `Uuid::new_v4` without its dashes, and the floating-point numbers.
pub record Clients (Net : Type 0) : Type 0 where
  pub readers : Readers
  pub codecs : Codecs
  pub debug : ExchangeError → String
  pub get_buy_url : ExchangeType → GetBuyUrlParams → Net → (ExchangeError ⊎ String) × Net
  pub new_session_id : Net → String × Net
  pub parse_f64 : String → Option ℕ
  pub to_f64 : ℕ → ℕ

-- `trim_start_matches("0x")`; 48 and 120 are the codes of `0` and `x`.
trim_hex : String → String
trim_hex String.[] = ""
trim_hex (String.◌∷◌ c String.[]) = String.◌∷◌ c ""
trim_hex (String.◌∷◌ c (String.◌∷◌ d s)) =
    let rest = trim_hex s in
    if code c == 48 && code d == 120 then rest else String.◌∷◌ c (String.◌∷◌ d s)

hex_digit : Char → Option ℕ
hex_digit c =
    if leb 48 (code c) && leb (code c) 57
    then some (code c - 48)
    else if leb 65 (code c) && leb (code c) 70
    then some (code c - 55)
    else if leb 97 (code c) && leb (code c) 102
    then some (code c - 87)
    else none

hex_from : ℕ → String → Option ℕ
unfolding hex_digit
hex_from acc String.[] = some acc
hex_from acc (String.◌∷◌ c s) = elim (hex_digit c) [
  | none ↦ none
  | some d ↦ if leb (acc * 16 + d) u64_max then hex_from (acc * 16 + d) s else none
]

-- `usize::from_str_radix(…, 16)`: one leading `+`, code point 43, is allowed, no digit is refused.
unfoldable pub parse_hex : String → Option ℕ
unfolding hex_from
parse_hex String.[] = none
parse_hex (String.◌∷◌ c s) =
    if code c == 43 then (if s == "" then none else hex_from 0 s) else hex_from 0 (String.◌∷◌ c s)

module _ (W : World) (clients : Clients W.Net) where
  -- Decimal, or hexadecimal.
  unfoldable pub read_amount : String → Option ℕ
  unfolding trim_hex
  read_amount s = elim (clients.parse_f64 s) [
    | some a ↦ some a
    | none ↦ elim (parse_hex (trim_hex s)) [ none ↦ none | some n ↦ some (clients.to_f64 n) ]
  ]

  refuse : ExchangeError → GetExchangeUrlError
  refuse (ExchangeError.validation_error e) = GetExchangeUrlError.validation_error e
  refuse e = GetExchangeUrlError.internal_error ("Unable to get exchange URL: " ++ clients.debug e)

  -- After the transaction that records the session.
  created : String → String → Outcome × Run W.Net → UrlReply × Run W.Net
  created url session_id (none, run) = (inr (record { url = url; session_id = session_id }), run)
  created url session_id (some e, run) =
      (inl (GetExchangeUrlError.internal_error "Failed to persist exchange transaction"), run)

  -- With the answer of the exchange.
  with_url :
      String
      → GeneratePayUrlRequest
      → String
      → ℕ
      → String
      → (ExchangeError ⊎ String)
      → Run W.Net
      → UrlReply × Run W.Net
  unfolding refuse created
  with_url project_id request address amount session_id (inl e) run = (inl (refuse e), run)
  with_url project_id request address amount session_id (inr url) run = created url session_id (
      create W
        (record {
          session_id = session_id;
          exchange_id = request.exchange_id;
          project_id = some project_id;
          asset = some request.asset;
          amount = some amount;
          recipient = some address;
          pay_url = some url;
        })
        run)

  -- With an amount.
  buy :
      String
      → GeneratePayUrlRequest
      → ExchangeType
      → Caip19Asset
      → String
      → Option ℕ
      → Run W.Net
      → UrlReply × Run W.Net
  unfolding with_url
  buy project_id request exchange asset address none run = (
    inl (
        GetExchangeUrlError.validation_error
          ("Invalid amount. Expected a valid number or hexadecimal string: " ++ request.amount)),
    run,
  )
  buy project_id request exchange asset address (some amount) run =
      let session = clients.new_session_id run.net in
      let answer =
        clients.get_buy_url exchange
          (record {
            project_id = project_id;
            asset = asset;
            amount = amount;
            recipient = address;
            session_id = session.0;
          })
          session.1 in
      with_url project_id request address amount session.0 answer.0
        (record { ledger = run.ledger; net = answer.1 })

  -- With the recipient taken apart.
  with_recipient :
      String
      → GeneratePayUrlRequest
      → ExchangeType
      → Caip19Asset
      → CryptoUtilsError ⊎ (CaipNamespaces × String × String)
      → Run W.Net
      → UrlReply × Run W.Net
  unfolding buy
  with_recipient project_id request exchange asset (inl e) run =
      (inl (GetExchangeUrlError.validation_error (clients.readers.crypto_error_text e)), run)
  with_recipient project_id request exchange asset (inr (namespace, chain_id, address)) run =
      let bought = buy project_id request exchange asset address (read_amount request.amount) run in
      if namespace_text namespace == asset.chain_id.namespace
      then if chain_id == asset.chain_id.reference
        then if is_asset_supported exchange asset then bought else (
          inl (
              GetExchangeUrlError.validation_error (
                "Asset "
                ++ (to_string asset ++ (" is not supported by exchange " ++ request.exchange_id)))),
          run,
        )
        else (
          inl (
              GetExchangeUrlError.validation_error (
                "Invalid recipient. CAIP-10 chainId must match asset chainId: "
                ++ (chain_id ++ (" != " ++ asset_id asset)))),
          run,
        )
      else (
        inl (
            GetExchangeUrlError.validation_error (
              "Invalid recipient. CAIP-10 namespace must match asset namespace: "
              ++ (namespace_text namespace ++ (" != " ++ asset.asset_namespace)))),
        run,
      )

  with_asset :
      String
      → GeneratePayUrlRequest
      → ExchangeType
      → CryptoUtilsError ⊎ Caip19Asset
      → Run W.Net
      → UrlReply × Run W.Net
  unfolding with_recipient
  with_asset project_id request exchange (inl e) run =
      (inl (GetExchangeUrlError.validation_error (clients.readers.crypto_error_text e)), run)
  with_asset project_id request exchange (inr asset) run =
      with_recipient project_id request exchange asset
        (disassemble_caip10 clients.codecs request.recipient) run

  with_exchange :
      String
      → GeneratePayUrlRequest
      → ExchangeError ⊎ ExchangeType
      → Run W.Net
      → UrlReply × Run W.Net
  unfolding with_asset
  with_exchange project_id request (inl e) run =
      (inl (GetExchangeUrlError.exchange_not_found (exchange_error_text e)), run)
  with_exchange project_id request (inr exchange) run =
      with_asset project_id request exchange (parse clients.readers.checksum request.asset) run

  unfoldable pub generate_pay_url :
      String → GeneratePayUrlRequest → List Feature → FeatureType → Run W.Net → UrlReply × Run W.Net
  unfolding with_exchange
  generate_pay_url project_id request features t run =
      with_exchange project_id request
        (get_exchange_by_id clients.readers.in_config request.exchange_id t features) run
