-- ===== src/Providers/Selection/Sockets.antt =====
-- src/providers/mod.rs: `get_ws_provider_for_chain_id`.
use blockchain_api.Prelude.{
  ℕ, ◌<◌, ◌^◌, ◌≡◌, refl, sym, ap, ◌∙◌, String, Option, some, length, length-map, get_elem?, All,
  All-of_map, get_elem?-All, get_elem?-lt, get_elem?_of_lt, string_eq, subst,
}
use blockchain_api.Prelude.Map.{get}
use blockchain_api.Providers.Kind.{ProviderKind, kind_eq}
use blockchain_api.Providers.Repository.{ProviderRepository, Weights, ws_shelf}
use blockchain_api.Providers.Repository.Invariant.{IsConsistent}
use blockchain_api.Providers.Sampling.{WeightedIndex, WeightedIndexLaws, total}
use blockchain_api.Providers.Selection.{
  kinds, Call, returned, sample_ws, get_ws_provider_for_chain_id,
}
use blockchain_api.Providers.Selection.Rounds.{IsRegistered}
use blockchain_api.Providers.Selection.Balance.{weight_values}
use blockchain_api.Providers.Selection.Rpc.{not_empty}

module _ (W : WeightedIndex) (laws : WeightedIndexLaws W) {Rpc Ws Balance : Type 0}
    (r : ProviderRepository Rpc Ws Balance) where
  -- The provider drawn for a call on a chain: one of the chain's, and registered.
  pub record Served (ws : Weights) (call : Call (Option Ws)) : Type 0 where
    pub index : ℕ
    pub kind : ProviderKind
    pub provider : Ws
    pub listed : get_elem? (kinds ws) index ≡ some kind
    pub registered : get kind r.ws_providers ≡ some provider
    pub result : call ≡ returned (some provider)

  sample_ws-Served :
      (ws : Weights) (rng : W.Rng)
      → All (IsRegistered r.ws_providers) (kinds ws)
      → 0 < total (weight_values ws)
      → total (weight_values ws) < 2 ^ 64
      → Served ws (sample_ws W r ws rng)
  unfolding sample_ws
  sample_ws-Served ws rng registered pos fits =
      let (dist, made, same) = laws.new_ok (weight_values ws) pos fits in
      let (w, at_w, _) = laws.sample_ok dist rng in
      let i : ℕ = (W.sample dist rng).0 in
      let short : i < length (kinds ws) =
        subst (λ n. i < n) (ap length same ∙ length-map _ ws ∙ sym (length-map _ ws))
          (get_elem?-lt (laws.weights dist) i at_w) in
      let (kind, at_k) = get_elem?_of_lt (kinds ws) i short in
      let (p, at_p) = get_elem?-All (IsRegistered r.ws_providers) (kinds ws) i registered at_k in
      record {
        index = i;
        kind = kind;
        provider = p;
        listed = at_k;
        registered = at_p;
        result = rw (made, sample_ws) (rw at_k (rw at_p refl));
      }

  -- In a consistent repository, with a sampler that behaves as documented, for a chain whose
  -- weights have a positive total below 2^64: the call does not panic and gives a registered
  -- provider of the chain.
  pub get_ws_provider-Served :
      (chain_id : String) (ws : Weights) (rng : W.Rng)
      → IsConsistent (ws_shelf r)
      → get chain_id r.ws_weight_resolver ≡ some ws
      → 0 < total (weight_values ws)
      → total (weight_values ws) < 2 ^ 64
      → Served ws (get_ws_provider_for_chain_id W r chain_id rng)
  unfolding get_ws_provider_for_chain_id
  get_ws_provider-Served chain_id ws rng c found pos fits =
      let (some', distinct, registered) = c.served chain_id ws found in
      rw (found, get_ws_provider_for_chain_id)
        (rw (not_empty ws some') (
          sample_ws-Served ws rng (All-of_map (IsRegistered r.ws_providers) _ ws registered) pos
            fits))
