-- ===== src/Providers/Selection.antt =====
-- src/providers/mod.rs: the choice of providers for a request, by weighted sampling.
pub mod Balance
pub mod Limit
pub mod Rpc
pub mod Rounds
pub mod Sockets
use Prim.Native.String.{◌++◌}
use mathlib.Core.List.{◌++◌ as ◌++ₗ◌}
use blockchain_api.Prelude.{
  ℕ, zero, suc, ◌-◌, ◌≡◌, min, max, String, List, [], ◌∷◌, map, Option, none, some, ◌⊎◌, inl, inr,
  Bool, true, false, length, get_elem?, filter, take, is_empty, ltb, ◌==◌, nat_eq, string_eq,
  if◌then◌else◌,
}
use blockchain_api.Prelude.Map.{get}
use blockchain_api.Errors.{RpcError, RpcResult, ok, err, Foreign, CaipNamespaces, ◌>>=◌}
use blockchain_api.Errors.Namespaces.{namespace_eq}
use blockchain_api.Errors.Response.{display_namespace}
use blockchain_api.Providers.Kind.{ProviderKind, kind_eq, display}
use blockchain_api.Providers.Weight.{Weight, Priority, new}
use blockchain_api.Providers.Repository.{ProviderRepository, Weights}
use blockchain_api.Providers.Sampling.{WeightedIndex}

abbrev pub ok_or {ℓ} : {A : Type ℓ} → Option A → RpcError → RpcResult A
ok_or none e = err e
ok_or (some a) e = ok a

abbrev pub map_err {ℓ} : {A : Type ℓ} → Foreign ⊎ A → (Foreign → RpcError) → RpcResult A
map_err (inl text) f = err (f text)
map_err (inr a) f = ok a

abbrev pub update_failed : Foreign → RpcError
update_failed e =
    RpcError.weighted_providers_index ("Failed to update weight in sampling iteration: " ++ e)

abbrev pub not_found : String → ProviderKind → RpcError
not_found subject kind =
    RpcError.weighted_providers_index
      (subject ++ (" not found during the weighted index check: " ++ display kind))

abbrev no_key : CaipNamespaces → String
no_key namespace =
    "Failed to get random balance provider for namespace: " ++ display_namespace namespace

abbrev pub kinds : Weights → List ProviderKind
kinds = map (λ entry. entry.0)

module _ (W : WeightedIndex) {P : Type 0} (providers : List (ProviderKind × P)) where
  -- The rounds of `(0..providers_to_iterate).map(…).collect::<Result<Vec<_>, _>>()`, by the number
  -- of rounds left: all but the last set the weight of the drawn provider to 0.
  -- The two texts begin the error for an index out of range and the one for a kind not registered.
  pub sample_rounds : List ProviderKind → String → String → ℕ → W.Dist → W.Rng → RpcResult (List P)
  sample_rounds keys no_key subject zero dist rng = ok []
  sample_rounds keys no_key subject (suc left) dist rng = do
    let dist_key = (W.sample dist rng).0
    kind ← ok_or (get_elem? keys dist_key) (RpcError.weighted_providers_index no_key)
    dist' ← if left == 0 then ok dist else map_err (W.update_weight dist dist_key 0) update_failed
    provider ← ok_or (get kind providers) (not_found subject kind)
    rest ← sample_rounds keys no_key subject left dist' (W.sample dist rng).1
    ok (provider ∷ rest)

-- `Weight::new(Priority::Minimal)`, which cannot fail, and its value.
unfoldable pub minimal_weight_value : ℕ
minimal_weight_value = elim (new Priority.minimal) [ ok weight ↦ weight.value | err _ ↦ 0 ]

-- The providers of minimal weight that are registered, in the order of the map.
minimal_providers : {Balance : Type 0} → List (ProviderKind × Balance) → Weights → List Balance
minimal_providers registered [] = []
minimal_providers registered ((kind, weight) ∷ entries) =
    let rest = minimal_providers registered entries in
    if weight.value == minimal_weight_value
    then elim (get kind registered) [ none ↦ rest | some provider ↦ provider ∷ rest ]
    else rest

-- The providers above the minimal weight (`high_priority_providers`); those below are disabled.
abbrev pub preferred : Weights → Weights
preferred = filter (λ (entry : ProviderKind × Weight). ltb minimal_weight_value entry.1.value)

module _ (W : WeightedIndex) {Rpc Ws Balance : Type 0} where
  -- The body of `get_rpc_provider_for_chain_id` once the chain's providers are known.
  sample_rpc :
      ProviderRepository Rpc Ws Balance → String → ℕ → Weights → W.Rng → RpcResult (List Rpc)
  unfolding sample_rounds
  sample_rpc r chain_id max_providers providers rng =
      let weights = map (λ (entry : ProviderKind × Weight). max 1 entry.1.value) providers in
      let non_zero = length (filter (λ w. ltb 0 w) weights) in
      elim (W.new weights) [
        | inl _ ↦ err (RpcError.chain_temporarily_unavailable chain_id)
        | inr dist ↦
            sample_rounds W r.rpc_providers (kinds providers)
              ("Failed to get random provider for chain_id: " ++ chain_id) "Provider"
              (min max_providers non_zero) dist rng
      ]

  unfoldable pub get_rpc_provider_for_chain_id :
      ProviderRepository Rpc Ws Balance → String → ℕ → W.Rng → RpcResult (List Rpc)
  unfolding sample_rpc
  get_rpc_provider_for_chain_id r chain_id max_providers rng =
      elim (get chain_id r.rpc_weight_resolver) [
        | none ↦ err (RpcError.unsupported_chain chain_id)
        | some providers ↦
            if is_empty providers
            then err (RpcError.unsupported_chain chain_id)
            else sample_rpc r chain_id max_providers providers rng
      ]

  sample_balance :
      ProviderRepository Rpc Ws Balance
      → CaipNamespaces
      → ℕ
      → Weights
      → List Balance
      → W.Rng
      → RpcResult (List Balance)
  unfolding sample_rounds
  sample_balance r namespace max_providers high minimal rng =
      let weights = map (λ (entry : ProviderKind × Weight). entry.1.value) high in
      elim (W.new weights) [
        | inl _ ↦ err (RpcError.chain_temporarily_unavailable (display_namespace namespace))
        | inr dist ↦ do
          result ←
              sample_rounds W r.balance_providers (kinds high) (no_key namespace) "Balance provider"
                (min max_providers (length weights)) dist rng
          ok (result ++ₗ take (max_providers - length result) minimal)
      ]

  -- What follows the fold: minimal providers alone, or sampling.
  choose_balance :
      ProviderRepository Rpc Ws Balance
      → CaipNamespaces
      → ℕ
      → Weights
      → List Balance
      → W.Rng
      → RpcResult (List Balance)
  unfolding sample_balance
  choose_balance r namespace max_providers high minimal' rng =
      if is_empty high
      then ok (take max_providers minimal')
      else sample_balance r namespace max_providers high minimal' rng

  unfoldable pub get_balance_provider_for_namespace :
      ProviderRepository Rpc Ws Balance → CaipNamespaces → ℕ → W.Rng → RpcResult (List Balance)
  unfolding choose_balance minimal_providers
  get_balance_provider_for_namespace r namespace max_providers rng =
      elim (get namespace r.balance_weight_resolver) [
        | none ↦ err (RpcError.unsupported_chain (display_namespace namespace))
        | some providers ↦
            if is_empty providers
            then err (RpcError.unsupported_chain (display_namespace namespace))
            else choose_balance r namespace max_providers (preferred providers)
                (minimal_providers r.balance_providers providers) rng
      ]

-- What a call that may panic gives.
pub data Call (A : Type 0) : Type 0 where
  returned : A → Call A
  panicked : Call A

module _ (W : WeightedIndex) {Rpc Ws Balance : Type 0} where
  sample_ws : ProviderRepository Rpc Ws Balance → Weights → W.Rng → Call (Option Ws)
  sample_ws r providers rng =
      let weights = map (λ (entry : ProviderKind × Weight). entry.1.value) providers in
      elim (W.new weights) [
        | inl _ ↦ returned none
        | inr dist ↦ elim (get_elem? (kinds providers) (W.sample dist rng).0) [
          | none ↦ panicked
          | some kind ↦ returned (get kind r.ws_providers)
        ]
      ]

  unfoldable pub get_ws_provider_for_chain_id :
      ProviderRepository Rpc Ws Balance → String → W.Rng → Call (Option Ws)
  unfolding sample_ws
  get_ws_provider_for_chain_id r chain_id rng = elim (get chain_id r.ws_weight_resolver) [
    | none ↦ returned none
    | some providers ↦ if is_empty providers then returned none else sample_ws r providers rng
  ]
