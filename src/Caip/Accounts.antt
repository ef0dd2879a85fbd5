-- ===== src/Caip/Accounts.antt =====
-- src/utils/crypto.rs: CAIP-10 identifiers of accounts, and the validation of addresses.
pub mod RoundTrip
use Prim.Native.Char.{Char, code}
use Prim.Native.String.{◌++◌}
use blockchain_api.Prelude.{
  ℕ, zero, suc, ◌+◌, ◌-◌, ◌*◌, Bool, true, false, ◌&&◌, ◌||◌, String, List, [], ◌∷◌, Option, none,
  some, ◌⊎◌, inl, inr, leb, ltb, ◌==◌, nat_eq, if◌then◌else◌,
}
use blockchain_api.Errors.{CaipNamespaces, eip155, solana, ton, rootstock, CryptoUtilsError}
use blockchain_api.Errors.Namespaces.{parse_namespace}
use blockchain_api.Caip.{split_colon, matches_chain_id, is_chain_char}
use blockchain_api.Caip.Chains.{all_chars}

abbrev is_hex : Char → Bool
is_hex c =
    (leb 48 (code c) && leb (code c) 57)
    || (leb 65 (code c) && leb (code c) 70)
    || (leb 97 (code c) && leb (code c) 102)

-- The class `[1-9A-HJ-NP-Za-km-z]`.
abbrev is_base58 : Char → Bool
is_base58 c =
    (leb 49 (code c) && leb (code c) 57)
    || (leb 65 (code c) && leb (code c) 72)
    || (leb 74 (code c) && leb (code c) 78)
    || (leb 80 (code c) && leb (code c) 90)
    || (leb 97 (code c) && leb (code c) 107)
    || (leb 109 (code c) && leb (code c) 122)

-- At least so many characters of a class in front.
abbrev begins_with : (Char → Bool) → ℕ → String → Bool
begins_with p zero s = true
begins_with p (suc n) String.[] = false
begins_with p (suc n) (String.◌∷◌ c s) = p c && begins_with p n s

-- `0x[a-fA-F0-9]{40}`, in front; 48 and 120 are the codes of `0` and `x`.
abbrev eth_here : String → Bool
eth_here String.[] = false
eth_here (String.◌∷◌ c String.[]) = false
eth_here (String.◌∷◌ c (String.◌∷◌ d s)) =
    code c == 48 && (code d == 120 && begins_with is_hex 40 s)

-- A match of an expression that is not anchored.
abbrev anywhere : (String → Bool) → String → Bool
anywhere p String.[] = p ""
anywhere p (String.◌∷◌ c s) = p (String.◌∷◌ c s) || anywhere p s

abbrev count : String → ℕ
count String.[] = 0
count (String.◌∷◌ c s) = suc (count s)

abbrev hex_value : Char → ℕ
hex_value c =
    if leb (code c) 57 then code c - 48 else if leb (code c) 70 then code c - 55 else code c - 87

-- The digit loop of `u8::from_str_radix(…, 16)`.
abbrev is_byte_from : ℕ → String → Bool
is_byte_from acc String.[] = true
is_byte_from acc (String.◌∷◌ c s) =
    is_hex c && (leb (acc * 16 + hex_value c) 255 && is_byte_from (acc * 16 + hex_value c) s)

-- One leading `+`, code point 43, is allowed, no digit is refused.
abbrev is_byte : String → Bool
is_byte String.[] = false
is_byte (String.◌∷◌ c String.[]) = is_byte_from 0 (String.◌∷◌ c "")
is_byte (String.◌∷◌ c (String.◌∷◌ d s)) =
    if code c == 43
    then is_byte_from 0 (String.◌∷◌ d s)
    else is_byte_from 0 (String.◌∷◌ c (String.◌∷◌ d s))

-- The raw form of TON, and the user-friendly one: 69, 85 and 95 are the codes of `E`, `U` and `_`.
is_raw_ton : List String → Bool
is_raw_ton (workchain ∷ hash ∷ []) =
    is_byte workchain && (count hash == 64 && all_chars is_hex hash)
is_raw_ton _ = false

abbrev is_friendly_char : Char → Bool
is_friendly_char c = is_chain_char c || code c == 95

starts_friendly : String → Bool
starts_friendly String.[] = false
starts_friendly (String.◌∷◌ c s) = code c == 69 || code c == 85

-- A text that contains a colon has more than one part.
is_ton : String → List String → Bool
unfolding is_raw_ton starts_friendly
is_ton address (whole ∷ []) =
    all_chars is_friendly_char address && (starts_friendly address && leb 36 (count address))
is_ton address parts = is_raw_ton parts

-- Of the libraries: whether `H160::from_str` reads an address, and the length of what base58
-- decoding gives.
pub record Codecs : Type 0 where
  pub reads_h160 : String → Bool
  pub base58_length : String → Option ℕ

abbrev is_32 : Option ℕ → Bool
is_32 none = false
is_32 (some n) = n == 32

unfoldable pub is_address_valid : Codecs → String → CaipNamespaces → Bool
unfolding is_ton
is_address_valid codecs address eip155 = anywhere eth_here address && codecs.reads_h160 address
is_address_valid codecs address rootstock = anywhere eth_here address && codecs.reads_h160 address
is_address_valid codecs address solana =
    anywhere (begins_with is_base58 32) address && is_32 (codecs.base58_length address)
is_address_valid codecs address ton = is_ton address (split_colon address)

-- `Display` of `CaipNamespaces`.
abbrev pub namespace_text : CaipNamespaces → String
namespace_text eip155 = "eip155"
namespace_text solana = "solana"
namespace_text ton = "ton"
namespace_text rootstock = "rootstock"

unfoldable pub format_to_caip10 : CaipNamespaces → String → String → String
format_to_caip10 namespace chain_id address =
    namespace_text namespace ++ (":" ++ (chain_id ++ (":" ++ address)))

-- With the namespace that was read.
with_namespace :
    Codecs
    → String
    → String
    → String
    → Option CaipNamespaces
    → CryptoUtilsError ⊎ (CaipNamespaces × String × String)
with_namespace codecs caip10 chain_id address none = inl (CryptoUtilsError.wrong_namespace caip10)
with_namespace codecs caip10 chain_id address (some n) =
    if matches_chain_id chain_id
    then if is_address_valid codecs address n
      then inr (n, chain_id, address)
      else inl (CryptoUtilsError.wrong_address_format address)
    else inl (CryptoUtilsError.wrong_chain_id_format chain_id)

take_apart : Codecs → String → List String → CryptoUtilsError ⊎ (CaipNamespaces × String × String)
unfolding with_namespace
take_apart codecs caip10 (namespace ∷ chain_id ∷ address ∷ []) =
    with_namespace codecs caip10 chain_id address (parse_namespace namespace)
take_apart codecs caip10 _ = inl (CryptoUtilsError.wrong_caip10_format caip10)

unfoldable pub disassemble_caip10 :
    Codecs → String → CryptoUtilsError ⊎ (CaipNamespaces × String × String)
unfolding take_apart
disassemble_caip10 codecs caip10 = take_apart codecs caip10 (split_colon caip10)
