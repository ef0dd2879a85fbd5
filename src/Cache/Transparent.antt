-- ===== src/Cache/Transparent.antt =====
-- src/utils/json_rpc_cache.rs: the memory cache does not change an answer.
use text.Mathlib.TextLemmas.{append_cancel_left}
use blockchain_api.Prelude.{
  ◌≡◌, refl, sym, ap, ◌∙◌, ◌⊎◌, inl, inr, Bool-cases, Option-cases, true, String, Option, none,
  some, ◌==◌, ==_iff, string_eq, subst,
}
use blockchain_api.Prelude.Map.{get, insert, get-insert}
use blockchain_api.Caip.{disassemble_caip2}
use blockchain_api.Errors.{CaipNamespaces}
use blockchain_api.Cache.{
  CachedMethods, eth_chain_id, net_listening, net_version, JsonRpcRequest, JsonRpcResult, Memory,
  string, boolean, answer, construct_mem_cache_key, get_evm_chain_id_bytes, compute_chain_id,
  handle_eth_chain_id, handle_net_listening, handle_net_version, respond, is_cached_response,
  parse_method,
}

-- The result of `eth_chainId` for a chain.
abbrev pub chain_id_bytes : String → Option String
chain_id_bytes caip2_chain_id = elim (disassemble_caip2 caip2_chain_id) [
  | inl _ ↦ none
  | inr parts ↦ get_evm_chain_id_bytes parts.1
]

-- The answer to a method, computed without a cache.
abbrev pub direct : String → JsonRpcRequest → Option CachedMethods → Option JsonRpcResult
direct caip2_chain_id request none = none
direct caip2_chain_id request (some eth_chain_id) = elim (chain_id_bytes caip2_chain_id) [
  | none ↦ none
  | some bytes ↦ answer request (string bytes)
]
direct caip2_chain_id request (some net_listening) = answer request (boolean true)
direct caip2_chain_id request (some net_version) = elim (disassemble_caip2 caip2_chain_id) [
  | inl _ ↦ none
  | inr parts ↦ answer request (string parts.1)
]

-- What the cache holds for a chain is the result of `eth_chainId` for it.
pub record IsFaithful (memory : Memory) : Type 0 where
  pub faithful :
      (caip2_chain_id v : String)
      → get (construct_mem_cache_key eth_chain_id caip2_chain_id) memory.entries ≡ some v
      → chain_id_bytes caip2_chain_id ≡ some v

key-inj :
    (c d : String)
    → construct_mem_cache_key eth_chain_id c ≡ construct_mem_cache_key eth_chain_id d
    → c ≡ d
unfolding construct_mem_cache_key
key-inj c d e =
    append_cancel_left ":" c d
      (append_cancel_left "eth_chainId" _ _ (append_cancel_left "rpc_cache:" _ _ e))

stored-IsFaithful :
    (c bytes : String) (memory stored : Memory)
    → stored.entries ≡ insert (construct_mem_cache_key eth_chain_id c) bytes memory.entries
    → chain_id_bytes c ≡ some bytes
    → IsFaithful memory
    → IsFaithful stored
stored-IsFaithful c bytes memory stored same e f = record {
  faithful = λ d v h.
      let h' =
        sym (
          get-insert (construct_mem_cache_key eth_chain_id c)
            (construct_mem_cache_key eth_chain_id d) bytes memory.entries)
        ∙ sym (ap (λ m. get (construct_mem_cache_key eth_chain_id d) m) same)
        ∙ h in
      elim (Bool-cases
        (construct_mem_cache_key eth_chain_id c == construct_mem_cache_key eth_chain_id d)) [
          | inl hit ↦
              subst (λ x. chain_id_bytes x ≡ some v) (key-inj c d ((==_iff _ _).0 hit))
                (e ∙ (rw hit at h'))
          | inr miss ↦ f.faithful d v (rw miss at h')
        ];
}

-- What a handler gives: the direct answer, and a cache that is still faithful.
abbrev Right : Option JsonRpcResult → Option JsonRpcResult × Memory → Type 0
Right direct' given = (given.0 ≡ direct') × IsFaithful given.1

same_entries :
    (memory other : Memory) → other.entries ≡ memory.entries → IsFaithful memory → IsFaithful other
same_entries memory other e f = record {
  faithful = λ c v h.
      f.faithful c v (ap (λ m. get (construct_mem_cache_key eth_chain_id c) m) (sym e) ∙ h);
}

compute-Right :
    (c chain_id : String) (request : JsonRpcRequest) (memory : Memory)
    → chain_id_bytes c ≡ get_evm_chain_id_bytes chain_id
    → IsFaithful memory
    → Right
        (elim (get_evm_chain_id_bytes chain_id) [
          | none ↦ none
          | some bytes ↦ answer request (string bytes)
        ])
        (compute_chain_id c chain_id request memory)
unfolding compute_chain_id
compute-Right c chain_id request memory e f =
    elim (Option-cases (get_evm_chain_id_bytes chain_id)) [
      | inl n ↦ rw (n, compute_chain_id) (refl, f)
      | inr (bytes, s) ↦
          rw (s, compute_chain_id) (refl, stored-IsFaithful c bytes memory _ refl (e ∙ s) f)
    ]

either {ℓ κ} :
    {A : Type ℓ} {B : Type κ} (x : A ⊎ B) → ((a : A) × (x ≡ inl a)) ⊎ ((b : B) × (x ≡ inr b))
either (inl a) = inl (a, refl)
either (inr b) = inr (b, refl)

bytes_of_parts :
    (c : String) (parts : CaipNamespaces × String)
    → disassemble_caip2 c ≡ inr parts
    → chain_id_bytes c ≡ get_evm_chain_id_bytes parts.1
bytes_of_parts c parts e = rw (e, chain_id_bytes) refl

handle_eth_chain_id-Right :
    (c : String) (request : JsonRpcRequest) (memory : Memory)
    → IsFaithful memory
    → Right (direct c request (some eth_chain_id)) (handle_eth_chain_id c request memory)
unfolding handle_eth_chain_id
handle_eth_chain_id-Right c request memory f = elim (either (disassemble_caip2 c)) [
  | inl (x, e) ↦ rw (e, handle_eth_chain_id, direct, chain_id_bytes) (refl, f)
  | inr (parts, e) ↦
      rw (e, handle_eth_chain_id, direct, chain_id_bytes)
        (elim (Option-cases (get (construct_mem_cache_key eth_chain_id c) memory.entries)) [
          | inl n ↦ rw n (compute-Right c parts.1 request memory (bytes_of_parts c parts e) f)
          | inr (bytes, s) ↦ rw s (
              rw (sym (bytes_of_parts c parts e) ∙ f.faithful c bytes s)
                (refl, same_entries memory _ refl f))
        ])
]

handle_net_version-Right :
    (c : String) (request : JsonRpcRequest) (memory : Memory)
    → IsFaithful memory
    → Right (direct c request (some net_version)) (handle_net_version c request memory)
unfolding handle_net_version
handle_net_version-Right c request memory f = elim (either (disassemble_caip2 c)) [
  | inl (x, e) ↦ rw (e, handle_net_version, direct) (refl, f)
  | inr (parts, e) ↦ rw (e, handle_net_version, direct) (refl, same_entries memory _ refl f)
]

respond-Right :
    (c : String) (request : JsonRpcRequest) (method : Option CachedMethods) (memory : Memory)
    → IsFaithful memory
    → Right (direct c request method) (respond c request method memory)
unfolding respond handle_net_listening
respond-Right c request none memory f = (refl, f)
respond-Right c request (some eth_chain_id) memory f = handle_eth_chain_id-Right c request memory f
respond-Right c request (some net_listening) memory f = (refl, same_entries memory _ refl f)
respond-Right c request (some net_version) memory f = handle_net_version-Right c request memory f

-- With a cache that holds only results of eth_chainId for their chains, the response to a request
-- is the one computed without the cache, and the cache stays such.
pub is_cached_response-direct :
    (caip2_chain_id : String) (request : JsonRpcRequest) (memory : Memory)
    → IsFaithful memory
    → ((is_cached_response caip2_chain_id request memory).0
        ≡ direct caip2_chain_id request (parse_method request.method))
      × IsFaithful (is_cached_response caip2_chain_id request memory).1
unfolding is_cached_response
is_cached_response-direct caip2_chain_id request memory f =
    respond-Right caip2_chain_id request (parse_method request.method) memory f
