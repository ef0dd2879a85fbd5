-- ===== src/Caip/Assets.antt =====
-- src/utils/crypto.rs: `Caip19Asset`.
pub mod RoundTrip
use Prim.Native.Char.{Char, code}
use Prim.Native.String.{◌++◌}
use blockchain_api.Prelude.{
  Bool, true, ◌&&◌, ◌||◌, String, Option, none, some, ◌⊎◌, inl, inr, leb, ◌==◌, nat_eq, string_eq,
  if◌then◌else◌,
}
use blockchain_api.Errors.{CryptoUtilsError}
use blockchain_api.Caip.{is_chain_char}
use blockchain_api.Caip.Chains.{
  Caip2ChainId, is_namespace_char, matches, split_two, to_string as chain_to_string,
  parse as parse_chain,
}

-- The class `[-.%a-zA-Z0-9]`.
abbrev pub is_reference_char : Char → Bool
is_reference_char c = is_chain_char c || (code c == 46 || code c == 37)

pub record Caip19Asset : Type 0 where
  pub chain_id : Caip2ChainId
  pub asset_namespace : String
  pub asset_reference : String
  pub token_id : Option String

-- The assets whose references are Ethereum addresses.
abbrev pub is_address : Caip2ChainId → String → Bool
is_address chain_id asset_namespace =
    chain_id.namespace == "eip155"
    && (asset_namespace == "erc20" || (asset_namespace == "erc721" || asset_namespace == "erc1155"))

unfoldable pub is_token_id : Option String → Bool
is_token_id none = true
is_token_id (some t) = matches is_reference_char 1 78 t

-- The text of a token id in the message, when there is one.
abbrev token_text : Option String → String
token_text none = ""
token_text (some t) = t

-- `H160::from_str` and `to_checksum`, of a library: the checksummed form of an address, if it is
-- one.
module _ (checksum : String → Option String) where
  normalize_to_checksum : String → CryptoUtilsError ⊎ String
  normalize_to_checksum addr = elim (checksum addr) [
    | none ↦ inl (CryptoUtilsError.wrong_address_format addr)
    | some a ↦ inr a
  ]

  normalized : Caip2ChainId → String → String → CryptoUtilsError ⊎ String
  unfolding normalize_to_checksum
  normalized chain_id asset_namespace asset_reference =
      if is_address chain_id asset_namespace
      then normalize_to_checksum asset_reference
      else inr asset_reference

  unfoldable pub new :
      Caip2ChainId → String → String → Option String → CryptoUtilsError ⊎ Caip19Asset
  unfolding normalized
  new chain_id asset_namespace asset_reference token_id =
      if matches is_namespace_char 3 8 asset_namespace
      then if matches is_reference_char 1 128 asset_reference
        then if is_token_id token_id
          then elim (normalized chain_id asset_namespace asset_reference) [
            | inl e ↦ inl e
            | inr reference ↦ inr (record {
              chain_id = chain_id;
              asset_namespace = asset_namespace;
              asset_reference = reference;
              token_id = token_id;
            })
          ]
          else inl (
              CryptoUtilsError.wrong_caip19_format (
                "Invalid token ID format (must be 1-78 alphanumeric characters or -,%,.): "
                ++ token_text token_id))
        else inl (
            CryptoUtilsError.wrong_caip19_format (
              "Invalid asset reference format (must be 1-128 alphanumeric characters or -,%,.): "
              ++ asset_reference))
      else inl (
          CryptoUtilsError.wrong_caip19_format (
            "Invalid asset namespace format (must be 3-8 lowercase alphanumeric or hyphen characters): "
            ++ asset_namespace))

  -- With the parts of the asset namespace and the reference, whose colon is code point 58.
  parse_reference :
      Caip2ChainId
      → Option String
      → String
      → String × Option String
      → CryptoUtilsError ⊎ Caip19Asset
  parse_reference chain_id token_id part (asset_namespace, none) = inl (
      CryptoUtilsError.wrong_caip19_format
        ("Invalid asset namespace/reference format (missing ':'): " ++ part))
  parse_reference chain_id token_id part (asset_namespace, some asset_reference) =
      new chain_id asset_namespace asset_reference token_id

  -- With the part in front of the token id, and the token id.
  parse_asset : Caip2ChainId → String × Option String → CryptoUtilsError ⊎ Caip19Asset
  unfolding parse_reference
  parse_asset chain_id (part, token_id) = parse_reference chain_id token_id part (split_two 58 part)

  -- With the parts of the chain and the asset, whose slash is code point 47.
  parse_halves : String → String × Option String → CryptoUtilsError ⊎ Caip19Asset
  unfolding parse_asset
  parse_halves asset_id (chain_part, none) =
      inl (
        CryptoUtilsError.wrong_caip19_format ("Invalid CAIP-19 format (missing '/'): " ++ asset_id))
  parse_halves asset_id (chain_part, some asset_part) = elim (parse_chain chain_part) [
    | inl e ↦ inl e
    | inr chain_id ↦ parse_asset chain_id (split_two 47 asset_part)
  ]

  unfoldable pub parse : String → CryptoUtilsError ⊎ Caip19Asset
  unfolding parse_halves
  parse asset_id = parse_halves asset_id (split_two 47 asset_id)

unfoldable pub asset_id : Caip19Asset → String
asset_id a = a.asset_namespace ++ (":" ++ a.asset_reference)

with_token : Option String → String
with_token none = ""
with_token (some token_id) = "/" ++ token_id

-- `Display`.
unfoldable pub to_string : Caip19Asset → String
unfolding with_token
to_string a = chain_to_string a.chain_id ++ ("/" ++ (asset_id a ++ with_token a.token_id))
