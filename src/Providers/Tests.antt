-- ===== src/Providers/Tests.antt =====
-- src/providers/mod.rs on concrete data: a sampler that draws the first key with a positive weight,
-- and a repository with three providers of one chain.
use mathlib.Core.List.{Nodup}
use mathlib.Core.Option
use blockchain_api.Prelude.{
  ℕ, suc, ◌<◌, ◌≤◌, ◌≡◌, ◌⊎◌, refl, inl, inr, Bool, true, false, String, List, [], ◌∷◌, some, min,
  length, get_elem?, set, Bool-cases, if◌then◌else◌, ltb, ltb→lt, string_eq, arith, ◌*◌, ◌/◌, ◌^◌,
  subst, sym, ◌∙◌,
}
use blockchain_api.Prelude.Map.{get, insert}
use blockchain_api.Errors.{RpcError, Foreign, eip155, ok, err}
use blockchain_api.Errors.Namespaces.{namespace_eq, CaipNamespaces-discrete}
use blockchain_api.Errors.Response.{into_response}
use blockchain_api.Errors.Response.Classes.{
  IsClientError, IsUnavailable, IsOpaque, into_response_classes,
}
use blockchain_api.Providers.Kind.{
  quicknode, pokt, dune, lifi, kind_eq, ProviderKind-discrete, display, from_str,
}
use blockchain_api.Providers.Kind.Names.{reparsed, display-from_str, from_str-display}
use blockchain_api.Providers.Weight.{Weight, new as make_weight, update_value}
use blockchain_api.Providers.Weight.Bounds.{update_value_exact}
use blockchain_api.Providers.Repository.{
  ProviderRepository, Weights, or_default, new, add, add_rpc_provider, add_ws_provider,
  add_balance_provider, rpc_shelf,
}
use blockchain_api.Providers.Repository.Invariant.{IsSupported}
use blockchain_api.Providers.Additions.{Addition, apply, run, IsValid, run-new-IsValid}
use blockchain_api.Providers.Sampling.{WeightedIndex, WeightedIndexLaws, total}
use blockchain_api.Providers.Selection.{
  kinds, minimal_weight_value, preferred, get_rpc_provider_for_chain_id,
  get_balance_provider_for_namespace, get_ws_provider_for_chain_id,
}
use blockchain_api.Providers.Selection.Rounds.{Drawn}
use blockchain_api.Providers.Selection.Rpc.{
  rpc_weights, get_rpc_provider-Drawn, get_rpc_provider_cases,
}
use blockchain_api.Providers.Selection.Balance.{weight_values, Chosen, get_balance_provider-Chosen}
use blockchain_api.Providers.Selection.Sockets.{Served, get_ws_provider-Served}

abbrev pub Dist : Type 0
Dist = (ws : List ℕ) × (0 < total ws)

abbrev pub make : (ws : List ℕ) (b : Bool) → ltb 0 (total ws) ≡ b → Foreign ⊎ Dist
make ws true p = inr (ws, ltb→lt 0 (total ws) p)
make ws false p = inl "all weights are zero"

abbrev pub new_index : List ℕ → Foreign ⊎ Dist
new_index ws = make ws (ltb 0 (total ws)) refl

abbrev pub first : List ℕ → ℕ
first [] = 0
first (w ∷ ws) = let rest = suc (first ws) in if ltb 0 w then 0 else rest

abbrev pub first_index : WeightedIndex
first_index = record {
  Dist = Dist;
  Rng = ℕ;
  new = new_index;
  sample = λ d rng. (first d.0, rng);
  update_weight = λ d i w. new_index (set d.0 i w);
}

made :
    (ws : List ℕ) (b : Bool) (p : ltb 0 (total ws) ≡ b)
    → 0 < total ws
    → (d : Dist) × (make ws b p ≡ inr d) × (d.0 ≡ ws)
made ws true p h = ((ws, _), refl, refl)
made ws false p h = absurd (ground arith)

first-positive :
    (ws : List ℕ) → 0 < total ws → (w : ℕ) × (get_elem? ws (first ws) ≡ some w) × (0 < w)
first-positive [] h = absurd (omega arith)
first-positive (w ∷ ws) h = elim (Bool-cases (ltb 0 w)) [
  | inl p ↦ rw p (w, refl, ltb→lt 0 w p)
  | inr z ↦ rw z (first-positive ws (ground arith))
]

first_index_laws : WeightedIndexLaws first_index
first_index_laws = record {
  weights = λ d. d.0;
  new_ok = λ ws h fits. made ws _ refl h;
  sample_ok = λ d rng. first-positive d.0 d.1;
  update_ok = λ d i w short h. made (set d.0 i w) _ refl h;
}

abbrev pub weight : ℕ → Weight
weight n = record { value = n; priority = n }

abbrev additions : List (Addition String String String)
additions =
    Addition.rpc dune "rpc dune" (("eip155:1", weight 50) ∷ ("eip155:5", weight 25) ∷ [])
    ∷ Addition.rpc quicknode "rpc quicknode" (("eip155:1", weight 0) ∷ [])
    ∷ Addition.rpc pokt "rpc pokt" (("eip155:1", weight 75) ∷ [])
    ∷ Addition.ws quicknode "ws quicknode" (("eip155:1", weight 50) ∷ [])
    ∷ Addition.balance dune "balance dune" ((eip155, weight 50) ∷ [])
    ∷ Addition.balance quicknode "balance quicknode" ((eip155, weight 1) ∷ [])
    ∷ Addition.balance pokt "balance pokt" ((eip155, weight 0) ∷ [])
    ∷ []

abbrev repository : ProviderRepository String String String
repository = run new additions

run-new-IsValid_example : IsValid (run new additions)
run-new-IsValid_example = run-new-IsValid additions

abbrev mainnet : Weights
mainnet = (dune, weight 50) ∷ (quicknode, weight 0) ∷ (pokt, weight 75) ∷ []

mainnet_found : get "eip155:1" repository.rpc_weight_resolver ≡ some mainnet
unfolding get run apply new add_rpc_provider add_ws_provider add_balance_provider add insert
    ProviderKind-discrete
mainnet_found = refl

-- The provider with weight 0 is drawn too.
all_drawn :
    get_rpc_provider_for_chain_id first_index repository "eip155:1" 5 0
    ≡ ok ("rpc dune" ∷ "rpc quicknode" ∷ "rpc pokt" ∷ [])
unfolding get run apply new add_rpc_provider add_ws_provider add_balance_provider add insert
    get_rpc_provider_for_chain_id ProviderKind-discrete
all_drawn = refl

get_rpc_provider-Drawn_example :
    (d : Drawn repository.rpc_providers
      (kinds mainnet)
      (min 5 (length mainnet))
      (get_rpc_provider_for_chain_id first_index repository "eip155:1" 5 0))
    × Nodup d.ks
get_rpc_provider-Drawn_example =
    get_rpc_provider-Drawn first_index first_index_laws repository "eip155:1" 5 mainnet 0
      (run-new-IsValid additions).rpc mainnet_found (omega arith)

get_rpc_provider_cases_example :
    ((¬ IsSupported (rpc_shelf repository) "eip155:1")
      × (get_rpc_provider_for_chain_id first_index repository "eip155:1" 2 0
          ≡ err (RpcError.unsupported_chain "eip155:1")))
    ⊎ (IsSupported (rpc_shelf repository) "eip155:1"
        × (ps : List String) × (get_rpc_provider_for_chain_id first_index repository "eip155:1" 2 0
            ≡ ok ps))
get_rpc_provider_cases_example =
    get_rpc_provider_cases first_index first_index_laws repository "eip155:1" 2 0
      (run-new-IsValid additions).rpc
      (λ ws e.
        subst (λ o. total (rpc_weights (or_default o)) < 2 ^ 64) (sym mainnet_found ∙ e)
          (omega arith))

abbrev balances : Weights
balances = (dune, weight 50) ∷ (quicknode, weight 1) ∷ (pokt, weight 0) ∷ []

balances_found : get eip155 repository.balance_weight_resolver ≡ some balances
unfolding get run apply new add_rpc_provider add_ws_provider add_balance_provider add insert
    ProviderKind-discrete CaipNamespaces-discrete
balances_found = refl

balances_fit : total (weight_values (preferred balances)) < 2 ^ 64
unfolding minimal_weight_value make_weight
balances_fit = omega arith

get_balance_provider-Chosen_example :
    Chosen first_index first_index_laws repository balances 3
      (get_balance_provider_for_namespace first_index repository eip155 3 0)
get_balance_provider-Chosen_example =
    get_balance_provider-Chosen first_index first_index_laws repository eip155 3 balances 0
      (run-new-IsValid additions).balance balances_found balances_fit

abbrev sockets : Weights
sockets = (quicknode, weight 50) ∷ []

sockets_found : get "eip155:1" repository.ws_weight_resolver ≡ some sockets
unfolding get run apply new add_rpc_provider add_ws_provider add_balance_provider add insert
    ProviderKind-discrete
sockets_found = refl

get_ws_provider-Served_example :
    Served first_index first_index_laws repository sockets
      (get_ws_provider_for_chain_id first_index repository "eip155:1" 0)
get_ws_provider-Served_example =
    get_ws_provider-Served first_index first_index_laws repository "eip155:1" sockets 0
      (run-new-IsValid additions).ws sockets_found (omega arith) (omega arith)

update_value_exact_example :
    ((update_value (weight 75) 9999).value ≡ 9999 * 75 / 50)
    × ((update_value (weight 75) 9999).value ≤ 20000)
    × ((update_value (weight 75) 9999).priority ≡ 75)
update_value_exact_example =
    update_value_exact (weight 75) 9999 (record { bounded = omega arith }) (omega arith)

display-from_str_example : Option.map display (from_str "Lifi") ≡ some "Lifi"
display-from_str_example = display-from_str "Lifi"

from_str-display_example : from_str (display lifi) ≡ some (reparsed lifi)
from_str-display_example = from_str-display lifi (λ n. λ e. cc)

into_response_classes_example :
    IsClientError (into_response (RpcError.unsupported_chain "eip155:2"))
    ⊎ IsUnavailable (into_response (RpcError.unsupported_chain "eip155:2"))
    ⊎ IsOpaque (into_response (RpcError.unsupported_chain "eip155:2"))
into_response_classes_example = into_response_classes (RpcError.unsupported_chain "eip155:2")
