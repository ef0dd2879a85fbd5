-- ===== src/Providers/Lookup.antt =====
-- src/providers/mod.rs: looking up one RPC provider by its kind or by its name.
pub mod Names
use blockchain_api.Prelude.{String, Option, none, some}
use blockchain_api.Prelude.Map.{get}
use blockchain_api.Providers.Kind.{ProviderKind, kind_eq, from_str}
use blockchain_api.Providers.Repository.{ProviderRepository}

module _ {Rpc Ws Balance : Type 0} where
  unfoldable pub get_rpc_provider_by_provider_kind :
      ProviderRepository Rpc Ws Balance → ProviderKind → Option Rpc
  get_rpc_provider_by_provider_kind r provider = get provider r.rpc_providers

  unfoldable pub get_rpc_provider_by_provider_id :
      ProviderRepository Rpc Ws Balance → String → Option Rpc
  get_rpc_provider_by_provider_id r provider_id = elim (from_str provider_id) [
    | none ↦ none
    | some provider ↦ get_rpc_provider_by_provider_kind r provider
  ]
