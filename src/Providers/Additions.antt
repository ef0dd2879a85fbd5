-- ===== src/Providers/Additions.antt =====
-- src/lib.rs, `init_providers`: a repository is built by adding providers one after the other.
use blockchain_api.Prelude.{String, List, [], ◌∷◌, string_eq}
use blockchain_api.Errors.{CaipNamespaces}
use blockchain_api.Errors.Namespaces.{namespace_eq}
use blockchain_api.Providers.Kind.{ProviderKind}
use blockchain_api.Providers.Weight.{Weight}
use blockchain_api.Providers.Repository.{
  ProviderRepository, new, add_rpc_provider, add_ws_provider, add_balance_provider, rpc_shelf,
  ws_shelf, balance_shelf,
}
use blockchain_api.Providers.Repository.Invariant.{
  IsConsistent, empty-IsConsistent, add-IsConsistent,
}

module _ {Rpc Ws Balance : Type 0} where
  -- The three shelves of a repository.
  pub record IsValid (r : ProviderRepository Rpc Ws Balance) : Type 0 where
    pub rpc : IsConsistent (rpc_shelf r)
    pub ws : IsConsistent (ws_shelf r)
    pub balance : IsConsistent (balance_shelf r)

  new-IsValid : IsValid (new {Rpc = Rpc} {Ws = Ws} {Balance = Balance})
  unfolding new
  new-IsValid = record {
    rpc = empty-IsConsistent;
    ws = empty-IsConsistent;
    balance = empty-IsConsistent;
  }

-- A call of one of the `add_…_provider` functions.
pub data Addition (Rpc Ws Balance : Type 0) : Type 0 where
  rpc : ProviderKind → Rpc → List (String × Weight) → Addition Rpc Ws Balance
  ws : ProviderKind → Ws → List (String × Weight) → Addition Rpc Ws Balance
  balance : ProviderKind → Balance → List (CaipNamespaces × Weight) → Addition Rpc Ws Balance

module _ {Rpc Ws Balance : Type 0} where
  unfoldable pub apply :
      ProviderRepository Rpc Ws Balance
      → Addition Rpc Ws Balance
      → ProviderRepository Rpc Ws Balance
  apply r (rpc kind p chains) = add_rpc_provider kind p chains r
  apply r (ws kind p chains) = add_ws_provider kind p chains r
  apply r (balance kind p namespaces) = add_balance_provider kind p namespaces r

  unfoldable pub run :
      ProviderRepository Rpc Ws Balance
      → List (Addition Rpc Ws Balance)
      → ProviderRepository Rpc Ws Balance
  run r [] = r
  run r (a ∷ as') = run (apply r a) as'

  apply-IsValid :
      (r : ProviderRepository Rpc Ws Balance) (a : Addition Rpc Ws Balance)
      → IsValid r
      → IsValid (apply r a)
  unfolding apply add_rpc_provider add_ws_provider add_balance_provider
  apply-IsValid r (rpc kind p chains) v = record {
    rpc = add-IsConsistent kind p chains (rpc_shelf r) v.rpc;
    ws = v.ws;
    balance = v.balance;
  }
  apply-IsValid r (ws kind p chains) v = record {
    rpc = v.rpc;
    ws = add-IsConsistent kind p chains (ws_shelf r) v.ws;
    balance = v.balance;
  }
  apply-IsValid r (balance kind p namespaces) v = record {
    rpc = v.rpc;
    ws = v.ws;
    balance = add-IsConsistent kind p namespaces (balance_shelf r) v.balance;
  }

  run_from-IsValid :
      (r : ProviderRepository Rpc Ws Balance) (as' : List (Addition Rpc Ws Balance))
      → IsValid r
      → IsValid (run r as')
  unfolding run
  run_from-IsValid r [] v = v
  run_from-IsValid r (a ∷ as') v = run_from-IsValid (apply r a) as' (apply-IsValid r a v)

  -- Whatever providers are added, in whatever order, the repository is consistent: each chain or
  -- namespace listed as supported has at least one provider, no kind twice, each of them
  -- registered, and no other chain or namespace has any.
  pub run-new-IsValid : (as' : List (Addition Rpc Ws Balance)) → IsValid (run new as')
  run-new-IsValid as' = run_from-IsValid new as' new-IsValid
