-- ===== src/Providers/Repository.antt =====
-- src/providers/mod.rs: the repository of providers, and how providers are added to it.
pub mod Invariant
use blockchain_api.Prelude.{
  String, Bool, List, [], ◌∷◌, ◌++◌, Option, none, some, Eq, string_eq, any, ◌==◌, if◌then◌else◌,
}
use blockchain_api.Prelude.Map.{get, insert}
use blockchain_api.Errors.{CaipNamespaces}
use blockchain_api.Errors.Namespaces.{namespace_eq}
use blockchain_api.Providers.Kind.{ProviderKind, kind_eq}
use blockchain_api.Providers.Weight.{Weight}

abbrev pub Weights : Type 0
Weights = List (ProviderKind × Weight)

-- `ChainsWeightResolver` (keys are chain ids) and `NamespacesWeightResolver`.
abbrev pub WeightResolver : Type 0 → Type 0
WeightResolver K = List (K × Weights)

-- The part of `ProviderRepository` that the router works on. `Rpc`, `Ws` and `Balance` are the
-- provider objects behind `Arc<dyn …>`.
pub record ProviderRepository (Rpc Ws Balance : Type 0) : Type 0 where
  pub http : List String
  pub ws : List String
  pub rpc_providers : List (ProviderKind × Rpc)
  pub rpc_weight_resolver : WeightResolver String
  pub ws_providers : List (ProviderKind × Ws)
  pub ws_weight_resolver : WeightResolver String
  pub balance_supported_namespaces : List CaipNamespaces
  pub balance_providers : List (ProviderKind × Balance)
  pub balance_weight_resolver : WeightResolver CaipNamespaces

-- `HashSet::insert`.
abbrev pub set_insert {ℓ} : {A : Type ℓ} ⦃e : Eq A⦄ → A → List A → List A
set_insert a xs = if any (λ x. x == a) xs then xs else a ∷ xs

abbrev pub or_default : Option Weights → Weights
or_default none = []
or_default (some ws) = ws

-- The maps of a repository that belong to one sort of provider (RPC over HTTP, WebSocket, or
-- balance), and its keys (chain ids or namespaces).
pub record Shelf (K P : Type 0) : Type 0 where
  pub supported : List K
  pub providers : List (ProviderKind × P)
  pub resolver : WeightResolver K

module _ {K P : Type 0} ⦃e : Eq K⦄ where
  -- One round of the `for_each` over what a provider's configuration supports.
  pub support : ProviderKind → Shelf K P → K × Weight → Shelf K P
  support kind shelf (key, weight) = record shelf {
    supported = set_insert key shelf.supported;
    resolver = insert key (insert kind weight (or_default (get key shelf.resolver))) shelf.resolver;
  }

  pub support_all : ProviderKind → Shelf K P → List (K × Weight) → Shelf K P
  support_all kind shelf [] = shelf
  support_all kind shelf (entry ∷ entries) = support_all kind (support kind shelf entry) entries

  -- The common body of the three `add_…_provider` functions.
  unfoldable pub add : ProviderKind → P → List (K × Weight) → Shelf K P → Shelf K P
  unfolding support_all support
  add kind provider entries shelf =
      support_all kind (record shelf { providers = insert kind provider shelf.providers }) entries

module _ {Rpc Ws Balance : Type 0} where
  abbrev pub rpc_shelf : ProviderRepository Rpc Ws Balance → Shelf String Rpc
  rpc_shelf r = record {
    supported = r.http;
    providers = r.rpc_providers;
    resolver = r.rpc_weight_resolver;
  }

  abbrev pub ws_shelf : ProviderRepository Rpc Ws Balance → Shelf String Ws
  ws_shelf r = record {
    supported = r.ws;
    providers = r.ws_providers;
    resolver = r.ws_weight_resolver;
  }

  abbrev pub balance_shelf : ProviderRepository Rpc Ws Balance → Shelf CaipNamespaces Balance
  balance_shelf r = record {
    supported = r.balance_supported_namespaces;
    providers = r.balance_providers;
    resolver = r.balance_weight_resolver;
  }

  -- `ProviderRepository::new`: nothing is registered yet.
  unfoldable pub new : ProviderRepository Rpc Ws Balance
  new = record {
    http = [];
    ws = [];
    rpc_providers = [];
    rpc_weight_resolver = [];
    ws_providers = [];
    ws_weight_resolver = [];
    balance_supported_namespaces = [];
    balance_providers = [];
    balance_weight_resolver = [];
  }

  unfoldable pub add_rpc_provider :
      ProviderKind
      → Rpc
      → List (String × Weight)
      → ProviderRepository Rpc Ws Balance
      → ProviderRepository Rpc Ws Balance
  add_rpc_provider kind provider chains r =
      let s = add kind provider chains (rpc_shelf r) in
      record r { http = s.supported; rpc_providers = s.providers; rpc_weight_resolver = s.resolver }

  unfoldable pub add_ws_provider :
      ProviderKind
      → Ws
      → List (String × Weight)
      → ProviderRepository Rpc Ws Balance
      → ProviderRepository Rpc Ws Balance
  add_ws_provider kind provider chains r =
      let s = add kind provider chains (ws_shelf r) in
      record r { ws = s.supported; ws_providers = s.providers; ws_weight_resolver = s.resolver }

  unfoldable pub add_balance_provider :
      ProviderKind
      → Balance
      → List (CaipNamespaces × Weight)
      → ProviderRepository Rpc Ws Balance
      → ProviderRepository Rpc Ws Balance
  add_balance_provider kind provider namespaces r =
      let s = add kind provider namespaces (balance_shelf r) in
      record r {
        balance_supported_namespaces = s.supported;
        balance_providers = s.providers;
        balance_weight_resolver = s.resolver;
      }
