-- ===== src/Providers/Selection/Limit.antt =====
-- src/providers/mod.rs: `get_rpc_provider_for_chain_id` gives at most as many providers as are asked
-- for, whatever the sampler does.
use blockchain_api.Prelude.{
  ℕ, zero, suc, ◌≤◌, String, List, ◌∷◌, length, inl, inr, min, arith, Option-cases, Result-cases,
  Bool-cases, is_empty, map, max, filter, ltb, string_eq, ◌==◌, nat_eq, get_elem?, if◌then◌else◌,
}
use blockchain_api.Prelude.Map.{get}
use blockchain_api.Errors.{RpcError, RpcResult, ok, err, ◌>>=◌}
use blockchain_api.Providers.Kind.{ProviderKind, kind_eq}
use blockchain_api.Providers.Repository.{ProviderRepository, Weights}
use blockchain_api.Providers.Sampling.{WeightedIndex}
use Prim.Native.String.{◌++◌}
use blockchain_api.Providers.Weight.{Weight}
use blockchain_api.Providers.Selection.{
  ok_or, map_err, update_failed, not_found, kinds, sample_rounds, sample_rpc,
  get_rpc_provider_for_chain_id,
}

abbrev pub IsShort : {P : Type 0} → ℕ → RpcResult (List P) → Type 0
IsShort n (ok ps) = length ps ≤ n
IsShort n (err e) = Unit

-- At most this many, if there is a result.
pub record AtMost {P : Type 0} (n : ℕ) (r : RpcResult (List P)) : Type 0 where
  pub short : IsShort n r

bind-AtMost :
    {A P : Type 0} (n : ℕ) (m : RpcResult A) (f : A → RpcResult (List P))
    → ((a : A) → AtMost n (f a))
    → AtMost n (m >>= f)
bind-AtMost n (ok a) f h = h a
bind-AtMost n (err e) f h = record { short = tt }

cons-AtMost :
    {P : Type 0} (n : ℕ) (p : P) (m : RpcResult (List P))
    → AtMost n m
    → AtMost (suc n) (m >>= λ rest. ok (p ∷ rest))
cons-AtMost n p (ok ps) h = record { short = omega (arith, h.short) }
cons-AtMost n p (err e) h = record { short = tt }

module _ (W : WeightedIndex) {P : Type 0} (providers : List (ProviderKind × P)) where
  sample_rounds-AtMost :
      (keys : List ProviderKind) (no_key subject : String) (left : ℕ) (dist : W.Dist) (rng : W.Rng)
      → AtMost left (sample_rounds W providers keys no_key subject left dist rng)
  unfolding sample_rounds
  sample_rounds-AtMost keys no_key subject zero dist rng = record { short = omega arith }
  sample_rounds-AtMost keys no_key subject (suc left) dist rng =
      let n = suc left in
      let dist_key = (W.sample dist rng).0 in
      bind-AtMost n (ok_or (get_elem? keys dist_key) (RpcError.weighted_providers_index no_key)) _
        (λ kind.
          bind-AtMost n
            (if left == 0 then ok dist else map_err (W.update_weight dist dist_key 0) update_failed)
            _
            (λ dist'.
              bind-AtMost n (ok_or (get kind providers) (not_found subject kind)) _ (λ provider.
                cons-AtMost left provider _
                  (sample_rounds-AtMost keys no_key subject left dist' (W.sample dist rng).1))))

  AtMost-weaker : (m n : ℕ) (r : RpcResult (List P)) → m ≤ n → AtMost m r → AtMost n r
  AtMost-weaker m n (ok ps) h k = record { short = omega (arith, h, k.short) }
  AtMost-weaker m n (err e) h k = record { short = tt }

module _ (W : WeightedIndex) {Rpc Ws Balance : Type 0} (r : ProviderRepository Rpc Ws Balance) where
  sample_rpc-AtMost :
      (chain_id : String) (max_providers : ℕ) (ws : Weights) (rng : W.Rng)
      → AtMost max_providers (sample_rpc W r chain_id max_providers ws rng)
  unfolding sample_rpc
  sample_rpc-AtMost chain_id max_providers ws rng =
      let weights = map (λ (entry : ProviderKind × Weight). max 1 entry.1.value) ws in
      let non_zero = length (filter (λ w. ltb 0 w) weights) in
      elim (Result-cases (W.new weights)) [
        | inl (e, q) ↦ rw (q, sample_rpc) (record { short = tt })
        | inr (dist, q) ↦
            rw (q, sample_rpc)
              (AtMost-weaker W r.rpc_providers (min max_providers non_zero) max_providers _
                (omega arith)
                (sample_rounds-AtMost W r.rpc_providers (kinds ws)
                  ("Failed to get random provider for chain_id: " ++ chain_id) "Provider"
                  (min max_providers non_zero) dist rng))
      ]

  -- Whatever the sampler draws, at most as many providers as are asked for.
  pub get_rpc_provider-AtMost :
      (chain_id : String) (max_providers : ℕ) (rng : W.Rng)
      → AtMost max_providers (get_rpc_provider_for_chain_id W r chain_id max_providers rng)
  unfolding get_rpc_provider_for_chain_id
  get_rpc_provider-AtMost chain_id max_providers rng =
      elim (Option-cases (get chain_id r.rpc_weight_resolver)) [
        | inl e ↦ rw (e, get_rpc_provider_for_chain_id) (record { short = tt })
        | inr (ws, e) ↦ elim (Bool-cases (is_empty ws)) [
          | inl empty ↦ rw (e, get_rpc_provider_for_chain_id) (rw empty (record { short = tt }))
          | inr full ↦
              rw (e, get_rpc_provider_for_chain_id)
                (rw full (sample_rpc-AtMost chain_id max_providers ws rng))
        ]
      ]
