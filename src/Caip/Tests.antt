-- ===== src/Caip/Tests.antt =====
-- Runs of src/utils/crypto.rs.
use blockchain_api.Prelude.{
  ℕ, ◌+◌, ◌≤◌, ◌^◌, true, false, ◌||◌, String, Option, none, some, ◌⊎◌, inl, inr, ◌≡◌, ◌≢◌, ◌↔◌,
  refl, arith, ◌==◌, string_eq, if◌then◌else◌, sym,
}
use blockchain_api.Prelude.Text.{decimal}
use blockchain_api.Errors.{eip155, ton, CryptoUtilsError}
use blockchain_api.Errors.Namespaces.{parse_namespace}
use blockchain_api.Caip.{matches_chain_id}
use blockchain_api.Caip.Chains.{
  Caip2ChainId, matches, new, parse as parse_chain, to_string as chain_to_string,
}
use blockchain_api.Caip.Chains.RoundTrip.{parse_iff}
use blockchain_api.Caip.Assets.{
  Caip19Asset, is_token_id, new as new_asset, parse, to_string, asset_id,
}
use blockchain_api.Caip.Assets.RoundTrip.{IsChecksum, parse-to_string}
use blockchain_api.Caip.Accounts.{Codecs, is_address_valid, format_to_caip10, disassemble_caip10}
use blockchain_api.Caip.Accounts.RoundTrip.{disassemble_caip10-format, disassemble_caip10-colon}
use blockchain_api.Caip.CoinTypes.{
  convert_coin_type_to_evm_chain_id, convert_evm_chain_id_to_coin_type, is_coin_type_supported,
  to_caip2, from_caip2,
}
use blockchain_api.Caip.CoinTypes.RoundTrip.{coin_type-chain_id, to_caip2-from_caip2}

abbrev polygon : Caip2ChainId
polygon = record { namespace = "eip155"; reference = "137" }

parse_iff_example :
    (parse_chain "eip155:137" ≡ inr polygon)
    ↔ ((chain_to_string polygon ≡ "eip155:137") × (new "eip155" "137" ≡ inr polygon))
parse_iff_example = parse_iff "eip155:137" polygon

chain_runs :
    (parse_chain "eip155:137" ≡ inr polygon)
    × (parse_chain "ab:1"
        ≡ inl (
            CryptoUtilsError.wrong_caip2_format
              "CAIP-2 namespace must be 3-8 characters of lowercase letters, digits, or hyphens: ab"))
unfolding parse_chain new matches
chain_runs = (refl, refl)

-- One address, with its checksummed form.
abbrev sole : String → Option String
sole s = if s == "0xab" || s == "0xAB" then some "0xAB" else none

sole-IsChecksum : IsChecksum sole
unfolding matches
sole-IsChecksum = record {
  stable = λ s r h. rw (sym (found s r h)) refl;
  proper = λ s r h. rw (sym (found s r h)) refl;
}
  where
    found : (s r : String) → sole s ≡ some r → "0xAB" ≡ r
    found s r h = ground arith

abbrev token : Caip19Asset
token = record {
  chain_id = polygon;
  asset_namespace = "erc721";
  asset_reference = "0xAB";
  token_id = some "7";
}

parse-to_string_example : parse sole "eip155:137/erc721:0xAB/7" ≡ inr token
unfolding parse parse_chain new new_asset matches is_token_id to_string asset_id chain_to_string
parse-to_string_example = parse-to_string sole sole-IsChecksum "eip155:137/erc721:0xab/7" token refl

abbrev any_address : Codecs
any_address = record { reads_h160 = λ s. true; base58_length = λ s. some 32 }

abbrev account : String
account = "0x1234567890123456789012345678901234567890"

disassemble_caip10-format_example :
    (format_to_caip10 eip155 "1" account ≡ "eip155:1:0x1234567890123456789012345678901234567890")
    × (matches_chain_id "1" ≡ true)
    × (is_address_valid any_address account eip155 ≡ true)
unfolding disassemble_caip10 parse_namespace is_address_valid
disassemble_caip10-format_example =
    disassemble_caip10-format any_address "eip155:1:0x1234567890123456789012345678901234567890"
      eip155 "1" account refl

raw_ton : String
raw_ton = "0:83dfd552e63729b472fcbcc8c45ebcc6691702558b68ec7527e1ba403a0f31a8"

disassemble_caip10-colon_example :
    disassemble_caip10 any_address (
      format_to_caip10 ton "-239"
        "0:83dfd552e63729b472fcbcc8c45ebcc6691702558b68ec7527e1ba403a0f31a8")
    ≡ inl (
        CryptoUtilsError.wrong_caip10_format (
          format_to_caip10 ton "-239"
            "0:83dfd552e63729b472fcbcc8c45ebcc6691702558b68ec7527e1ba403a0f31a8"))
disassemble_caip10-colon_example =
    disassemble_caip10-colon any_address ton "-239" "0"
      "83dfd552e63729b472fcbcc8c45ebcc6691702558b68ec7527e1ba403a0f31a8"

raw_ton-IsValid : is_address_valid any_address raw_ton ton ≡ true
unfolding raw_ton is_address_valid
raw_ton-IsValid = refl

coin_type-chain_id_example :
    (convert_coin_type_to_evm_chain_id (convert_evm_chain_id_to_coin_type 137) ≡ 137)
    × ((convert_evm_chain_id_to_coin_type (convert_coin_type_to_evm_chain_id 2147483785)
          ≡ 2147483785)
        ↔ ((◌≡◌ {A = ℕ} 2147483785 60) ⊎ ((2 ^ 31 ≤ 2147483785) × (2147483785 ≢ 2 ^ 31 + 1))))
coin_type-chain_id_example = coin_type-chain_id 137 2147483785 (omega arith) (omega arith)

-- The SLIP-44 coin type of another chain, without the bit of 2^31, passes for Polygon's.
coin_type_runs :
    (is_coin_type_supported 2147483785 ≡ true)
    × (is_coin_type_supported 2147483786 ≡ false)
    × (is_coin_type_supported 137 ≡ true)
unfolding is_coin_type_supported convert_coin_type_to_evm_chain_id
coin_type_runs = (refl, refl, refl)

to_caip2-from_caip2_example :
    (shown : String) × (from_caip2 "eip155:56" ≡ some shown) × (to_caip2 shown ≡ some "eip155:56")
unfolding to_caip2 decimal
to_caip2-from_caip2_example = to_caip2-from_caip2 "bsc" "eip155:56" refl
