-- ===== src/Cache/Tests.antt =====
-- src/utils/json_rpc_cache.rs on concrete requests.
use blockchain_api.Prelude.{◌≡◌, refl, [], string_eq}
use blockchain_api.Prelude.Map.{get}
use blockchain_api.Prelude.Text.{parse_u64}
use blockchain_api.Errors.Namespaces.{parse_namespace}
use blockchain_api.Caip.{disassemble_caip2}
use blockchain_api.Cache.{
  JsonRpcRequest, Memory, string, answer, hex, get_evm_chain_id_bytes, is_cached_response,
  parse_method,
}
use blockchain_api.Cache.Transparent.{IsFaithful, direct, is_cached_response-direct}

abbrev request : JsonRpcRequest
request = record { id = "7"; method = "eth_chainId" }

abbrev empty_memory : Memory
empty_memory = record { entries = []; cached_calls = [] }

polygon : (is_cached_response "eip155:137" request empty_memory).0 ≡ answer request (string "0x89")
unfolding is_cached_response disassemble_caip2 parse_namespace get get_evm_chain_id_bytes parse_u64
    hex
polygon = refl

empty-IsFaithful : IsFaithful empty_memory
unfolding get
empty-IsFaithful = record { faithful = λ c v h. cc }

is_cached_response-direct_example :
    ((is_cached_response "eip155:137" request empty_memory).0
      ≡ direct "eip155:137" request (parse_method "eth_chainId"))
    × IsFaithful (is_cached_response "eip155:137" request empty_memory).1
is_cached_response-direct_example =
    is_cached_response-direct "eip155:137" request empty_memory empty-IsFaithful
