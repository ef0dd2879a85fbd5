-- ===== src/Cache.antt =====
-- src/utils/json_rpc_cache.rs: the JSON-RPC methods that are answered without a provider.
pub mod Transparent
pub mod Tests
use Prim.Native.String.{◌++◌}
use blockchain_api.Prelude.{
  ℕ, zero, suc, ◌/◌, ◌%◌, Bool, true, ◌≡◌, refl, String, List, [], ◌∷◌, Option, none, some, inl,
  inr, get_elem?, ltb, ◌==◌, string_eq, if◌then◌else◌,
}
use blockchain_api.Prelude.Map.{get, insert}
use blockchain_api.Prelude.Text.{parse_u64}
use blockchain_api.Caip.{disassemble_caip2}

pub data CachedMethods : Type 0 where
  eth_chain_id net_listening net_version : CachedMethods

-- Its `Display`, and its `FromStr`.
abbrev pub method_name : CachedMethods → String
method_name eth_chain_id = "eth_chainId"
method_name net_listening = "net_listening"
method_name net_version = "net_version"

abbrev pub parse_method : String → Option CachedMethods
parse_method s =
    if s == "eth_chainId"
    then some eth_chain_id
    else if s == "net_listening"
    then some net_listening
    else if s == "net_version"
    then some net_version
    else none

-- The parts of a request that are read; the id is any JSON value, as text.
pub record JsonRpcRequest : Type 0 where
  pub id : String
  pub method : String

pub data Value : Type 0 where
  string : String → Value
  boolean : Bool → Value

pub record JsonRpcResult : Type 0 where
  pub id : String
  pub result : Value

-- The memory cache, and the calls of `add_rpc_cached_call`, the last one first.
pub record Memory : Type 0 where
  pub entries : List (String × String)
  pub cached_calls : List (String × CachedMethods)

unfoldable pub construct_mem_cache_key : CachedMethods → String → String
construct_mem_cache_key method caip2_chain_id =
    "rpc_cache:" ++ (method_name method ++ (":" ++ caip2_chain_id))

abbrev hex_digits : List String
hex_digits =
    "0" ∷ "1" ∷ "2" ∷ "3" ∷ "4" ∷ "5" ∷ "6" ∷ "7" ∷ "8" ∷ "9" ∷ "a" ∷ "b" ∷ "c" ∷ "d" ∷ "e" ∷ "f"
    ∷ []

abbrev hex_digit : ℕ → String
hex_digit n = elim (get_elem? hex_digits n) [ none ↦ "" | some d ↦ d ]

-- `{:x}` of an unsigned integer, on fuel: a number below `16 ^ f` has at most `f` digits.
hex_from : ℕ → ℕ → String
hex_from zero n = ""
hex_from (suc f) n =
    let rest = hex_from f (n / 16) ++ hex_digit (n % 16) in if ltb n 16 then hex_digit n else rest

-- Enough for 64 bits.
unfoldable pub hex : ℕ → String
unfolding hex_from
hex n = hex_from 16 n

unfoldable pub get_evm_chain_id_bytes : String → Option String
get_evm_chain_id_bytes chain_id = elim (parse_u64 chain_id) [
  | none ↦ none
  | some n ↦ some ("0x" ++ hex n)
]

abbrev pub add_rpc_cached_call : String → CachedMethods → Memory → Memory
add_rpc_cached_call caip2_chain_id method memory = record memory {
  cached_calls = (caip2_chain_id, method) ∷ memory.cached_calls;
}

abbrev pub set_mem_cached_response : String → CachedMethods → String → Memory → Memory
set_mem_cached_response caip2_chain_id method value memory = record memory {
  entries = insert (construct_mem_cache_key method caip2_chain_id) value memory.entries;
}

abbrev pub answer : JsonRpcRequest → Value → Option JsonRpcResult
answer request value = some (record { id = request.id; result = value })

-- After a miss.
compute_chain_id : String → String → JsonRpcRequest → Memory → Option JsonRpcResult × Memory
compute_chain_id caip2_chain_id chain_id request memory = elim (get_evm_chain_id_bytes chain_id) [
  | none ↦ (none, memory)
  | some bytes ↦ (
    answer request (string bytes),
    add_rpc_cached_call caip2_chain_id eth_chain_id
        (set_mem_cached_response caip2_chain_id eth_chain_id bytes memory),
  )
]

handle_eth_chain_id : String → JsonRpcRequest → Memory → Option JsonRpcResult × Memory
unfolding compute_chain_id
handle_eth_chain_id caip2_chain_id request memory = elim (disassemble_caip2 caip2_chain_id) [
  | inl _ ↦ (none, memory)
  | inr parts ↦ elim (get (construct_mem_cache_key eth_chain_id caip2_chain_id) memory.entries) [
    | some bytes ↦
        (answer request (string bytes), add_rpc_cached_call caip2_chain_id eth_chain_id memory)
    | none ↦ compute_chain_id caip2_chain_id parts.1 request memory
  ]
]

handle_net_listening : String → JsonRpcRequest → Memory → Option JsonRpcResult × Memory
handle_net_listening caip2_chain_id request memory =
    (answer request (boolean true), add_rpc_cached_call caip2_chain_id net_listening memory)

handle_net_version : String → JsonRpcRequest → Memory → Option JsonRpcResult × Memory
handle_net_version caip2_chain_id request memory = elim (disassemble_caip2 caip2_chain_id) [
  | inl _ ↦ (none, memory)
  | inr parts ↦
      (answer request (string parts.1), add_rpc_cached_call caip2_chain_id net_version memory)
]

respond : String → JsonRpcRequest → Option CachedMethods → Memory → Option JsonRpcResult × Memory
unfolding handle_eth_chain_id handle_net_listening handle_net_version
respond caip2_chain_id request none memory = (none, memory)
respond caip2_chain_id request (some eth_chain_id) memory =
    handle_eth_chain_id caip2_chain_id request memory
respond caip2_chain_id request (some net_listening) memory =
    handle_net_listening caip2_chain_id request memory
respond caip2_chain_id request (some net_version) memory =
    handle_net_version caip2_chain_id request memory

unfoldable pub is_cached_response : String → JsonRpcRequest → Memory → Option JsonRpcResult × Memory
unfolding respond
is_cached_response caip2_chain_id request memory =
    respond caip2_chain_id request (parse_method request.method) memory
