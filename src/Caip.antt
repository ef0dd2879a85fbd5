-- ===== src/Caip.antt =====
-- src/utils/crypto.rs: taking CAIP-2 identifiers of chains apart.
pub mod Accounts
pub mod Assets
pub mod Chains
pub mod CoinTypes
mod Splits
pub mod Tests
use Prim.Native.Char.{Char, code}
use blockchain_api.Prelude.{
  Bool, false, ◌&&◌, ◌||◌, ◌≡◌, refl, String, List, [], ◌∷◌, none, some, ◌⊎◌, inl, inr, leb, ◌==◌,
  nat_eq, if◌then◌else◌,
}
use blockchain_api.Errors.{CaipNamespaces, eip155, CryptoUtilsError}
use blockchain_api.Errors.Namespaces.{parse_namespace}

-- A character in front of the first part.
abbrev push : Char → List String → List String
push c [] = String.◌∷◌ c "" ∷ []
push c (part ∷ parts) = String.◌∷◌ c part ∷ parts

-- `split(':')`; the colon is code point 58.
abbrev pub split_colon : String → List String
split_colon String.[] = "" ∷ []
split_colon (String.◌∷◌ c s) =
    let rest = split_colon s in if code c == 58 then "" ∷ rest else push c rest

-- The class `[-a-zA-Z0-9]`.
abbrev pub is_chain_char : Char → Bool
is_chain_char c =
    code c == 45
    || (leb 48 (code c) && leb (code c) 57)
    || (leb 65 (code c) && leb (code c) 90)
    || (leb 97 (code c) && leb (code c) 122)

-- A match of `CAIP_CHAIN_ID_REGEX`, `[-a-zA-Z0-9]{1,32}`: since it is not anchored, one character
-- of the class anywhere is a match.
abbrev pub matches_chain_id : String → Bool
matches_chain_id String.[] = false
matches_chain_id (String.◌∷◌ c s) = is_chain_char c || matches_chain_id s

take_apart : String → List String → CryptoUtilsError ⊎ (CaipNamespaces × String)
take_apart caip2 (namespace ∷ (chain_id ∷ [])) = elim (parse_namespace namespace) [
  | none ↦ inl (CryptoUtilsError.wrong_namespace caip2)
  | some n ↦
      if matches_chain_id chain_id
      then inr (n, chain_id)
      else inl (CryptoUtilsError.wrong_chain_id_format chain_id)
]
take_apart caip2 _ = inl (CryptoUtilsError.wrong_caip2_format caip2)

unfoldable pub disassemble_caip2 : String → CryptoUtilsError ⊎ (CaipNamespaces × String)
unfolding take_apart
disassemble_caip2 caip2 = take_apart caip2 (split_colon caip2)

caip2_runs :
    (disassemble_caip2 "eip155:137" ≡ inr (eip155, "137"))
    × (disassemble_caip2 "eip155" ≡ inl (CryptoUtilsError.wrong_caip2_format "eip155"))
    × (disassemble_caip2 "eip155:" ≡ inl (CryptoUtilsError.wrong_chain_id_format ""))
    × (disassemble_caip2 "eip155:1/../2" ≡ inr (eip155, "1/../2"))
unfolding disassemble_caip2 parse_namespace
caip2_runs = (refl, refl, refl, refl)
