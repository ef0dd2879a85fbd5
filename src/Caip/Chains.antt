-- ===== src/Caip/Chains.antt =====
-- src/utils/crypto.rs: `Caip2ChainId`.
pub mod RoundTrip
use Prim.Native.Char.{Char, code}
use Prim.Native.String.{◌++◌}
use blockchain_api.Prelude.{
  ℕ, suc, Bool, true, ◌&&◌, ◌||◌, String, Option, none, some, ◌⊎◌, inl, inr, leb, ◌==◌, nat_eq,
  if◌then◌else◌,
}
use blockchain_api.Errors.{CryptoUtilsError}
use blockchain_api.Caip.{is_chain_char}

-- The class `[-a-z0-9]`.
abbrev pub is_namespace_char : Char → Bool
is_namespace_char c =
    code c == 45 || (leb 48 (code c) && leb (code c) 57) || (leb 97 (code c) && leb (code c) 122)

abbrev count : String → ℕ
count String.[] = 0
count (String.◌∷◌ c s) = suc (count s)

abbrev pub all_chars : (Char → Bool) → String → Bool
all_chars p String.[] = true
all_chars p (String.◌∷◌ c s) = p c && all_chars p s

-- A match of an anchored class with a range of repetitions, `^[…]{lo,hi}$`.
unfoldable pub matches : (Char → Bool) → ℕ → ℕ → String → Bool
matches p lo hi s = all_chars p s && (leb lo (count s) && leb (count s) hi)

-- The two parts of `splitn(2, …)` by a character, of which there is always the first.
abbrev pub split_two : ℕ → String → String × Option String
split_two separator String.[] = ("", none)
split_two separator (String.◌∷◌ c s) =
    let rest = split_two separator s in
    if code c == separator then ("", some s) else (String.◌∷◌ c rest.0, rest.1)

pub record Caip2ChainId : Type 0 where
  pub namespace : String
  pub reference : String

unfoldable pub new : String → String → CryptoUtilsError ⊎ Caip2ChainId
new namespace reference =
    if matches is_namespace_char 3 8 namespace
    then if matches is_chain_char 1 32 reference
      then inr (record { namespace = namespace; reference = reference })
      else inl (
          CryptoUtilsError.wrong_chain_id_format (
            "CAIP-2 reference must be 1-32 characters of letters, digits, or hyphens: "
            ++ reference))
    else inl (
        CryptoUtilsError.wrong_caip2_format (
          "CAIP-2 namespace must be 3-8 characters of lowercase letters, digits, or hyphens: "
          ++ namespace))

-- With the parts between which the first colon stands, code point 58.
parse_parts : String → String × Option String → CryptoUtilsError ⊎ Caip2ChainId
parse_parts chain_id (namespace, none) = inl (
    CryptoUtilsError.wrong_caip2_format
      ("CAIP-2 chain ID must have a reference component: " ++ chain_id))
parse_parts chain_id (namespace, some reference) = new namespace reference

unfoldable pub parse : String → CryptoUtilsError ⊎ Caip2ChainId
unfolding parse_parts
parse chain_id = parse_parts chain_id (split_two 58 chain_id)

-- `Display`.
unfoldable pub to_string : Caip2ChainId → String
to_string c = c.namespace ++ (":" ++ c.reference)
