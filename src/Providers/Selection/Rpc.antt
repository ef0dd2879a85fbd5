-- ===== src/Providers/Selection/Rpc.antt =====
-- src/providers/mod.rs: `get_rpc_provider_for_chain_id`.
use mathlib.Core.List.{Nodup, Nodup-cons, Nodup-nil, Mem, not-mem-nil, mem-cons}
use mathlib.Core.List.Perm
use mathlib.Core.List.Nodup
use mathlib.Core.List.{sublist-append_left}
use mathlib.Core.Logic.Or
use mathlib.Core.HLevel.{⊥_prop}
use blockchain_api.Prelude.{
  ℕ, ◌<◌, ◌^◌, ◌≡◌, ◌≢◌, refl, sym, ap, ◌∙◌, String, List, [], ◌∷◌, map, some, none, length,
  length-map, filter, filter_same, All, All-map, All-of_each, All-of_map, arith, min, max, ltb,
  lt→ltb, ◌==◌, ==_iff, Bool-cases, Option-cases, inl, ◌⊎◌, is_empty, false, string_eq,
  if◌then◌else◌, inr,
}
use blockchain_api.Prelude.Map.{get, Distinct}
use blockchain_api.Errors.{RpcError, RpcResult, ok, err}
use blockchain_api.Providers.Kind.{ProviderKind, kind_eq}
use blockchain_api.Providers.Weight.{Weight}
use blockchain_api.Providers.Repository.{ProviderRepository, Weights, rpc_shelf}
use blockchain_api.Providers.Repository.Invariant.{IsConsistent, IsServed, IsSupported}
use blockchain_api.Providers.Sampling.{WeightedIndex, WeightedIndexLaws, total}
use blockchain_api.Providers.Selection.{kinds, sample_rpc, get_rpc_provider_for_chain_id}
use blockchain_api.Providers.Selection.Rounds.{Drawn, IsRegistered, sample_full-Drawn}

-- The weights that are sampled by: none of them is 0.
abbrev pub rpc_weights : Weights → List ℕ
rpc_weights = map (λ (entry : ProviderKind × Weight). max 1 entry.1.value)

pub rpc_weights_pos : (ws : Weights) → All (λ w. 0 < w) (rpc_weights ws)
rpc_weights_pos ws = All-of_map _ _ ws (All-of_each (λ a. omega arith) ws)

total-rpc_weights : (ws : Weights) → ws ≢ [] → 0 < total (rpc_weights ws)
total-rpc_weights [] h = absurd (h refl)
total-rpc_weights (e ∷ ws) h = omega arith

pub not_empty : (ws : Weights) → ws ≢ [] → is_empty ws ≡ false
not_empty [] h = absurd (h refl)
not_empty (e ∷ ws) h = refl

-- Every provider of the chain counts for the number of rounds.
rpc_rounds : (ws : Weights) → length (filter (λ w. ltb 0 w) (rpc_weights ws)) ≡ length ws
rpc_rounds ws =
    ap length (
      filter_same (λ w. ltb 0 w) (rpc_weights ws)
        (All-map (lt→ltb 0) (rpc_weights ws) (rpc_weights_pos ws)))
    ∙ length-map _ ws

get-not-mem : (k : ProviderKind) (ws : Weights) → get k ws ≡ none → ¬ Mem k (kinds ws)
unfolding get
get-not-mem k [] h m = not-mem-nil m
get-not-mem k ((j, w) ∷ ws) h m = elim (Bool-cases (j == k)) [
  | inl hit ↦ cc (rw (hit, if◌then◌else◌) at h)
  | inr miss ↦
      Or.elim ⊥_prop (mem-cons.0 m) (λ e. cc (sym miss ∙ (==_iff j k).1 (sym e)))
        (get-not-mem k ws (rw miss at h))
]

pub Distinct-Nodup : (ws : Weights) → Distinct ws → Nodup (kinds ws)
Distinct-Nodup [] h = Nodup-nil
Distinct-Nodup ((k, w) ∷ ws) (h, d) = Nodup-cons.1 (get-not-mem k ws h, Distinct-Nodup ws d)

-- The kinds that are drawn from distinct candidates are distinct.
pub Drawn-Nodup :
    {P : Type 0} {providers : List (ProviderKind × P)} {n : ℕ} {r : RpcResult (List P)}
    (ws : Weights)
    → Distinct ws
    → (d : Drawn providers (kinds ws) n r) → Nodup d.ks
Drawn-Nodup ws h d =
    Nodup.sublist (sublist-append_left d.ks d.others) (Perm.nodup d.drawn (Distinct-Nodup ws h))

module _ (W : WeightedIndex) (laws : WeightedIndexLaws W) {Rpc Ws Balance : Type 0}
    (r : ProviderRepository Rpc Ws Balance) where
  sample_rpc-Drawn :
      (chain_id : String) (max_providers : ℕ) (ws : Weights) (rng : W.Rng)
      → IsServed r.rpc_providers ws
      → total (rpc_weights ws) < 2 ^ 64
      → Drawn r.rpc_providers
          (kinds ws)
          (min max_providers (length ws))
          (sample_rpc W r chain_id max_providers ws rng)
  unfolding sample_rpc
  sample_rpc-Drawn chain_id max_providers ws rng (some', distinct, registered) fits =
      let (dist, made, same) = laws.new_ok (rpc_weights ws) (total-rpc_weights ws some') fits in
      let counted : length (kinds ws) ≡ length ws = length-map _ ws in
      rw (made, sample_rpc)
        (rw (rpc_rounds ws) (
          sample_full-Drawn W laws r.rpc_providers (kinds ws) _ _
            (All-of_map (IsRegistered r.rpc_providers) _ ws registered)
            (min max_providers (length ws)) dist rng (rpc_weights ws) same
            (counted ∙ sym (length-map _ ws)) (rpc_weights_pos ws) (omega arith)))

  -- In a consistent repository, with a sampler that behaves as documented, for a chain whose
  -- providers' weights, each raised to at least 1, have a total below 2^64: the call succeeds with
  -- as many different providers as the limit and the chain's providers allow, each registered for
  -- the chain.
  pub get_rpc_provider-Drawn :
      (chain_id : String) (max_providers : ℕ) (ws : Weights) (rng : W.Rng)
      → IsConsistent (rpc_shelf r)
      → get chain_id r.rpc_weight_resolver ≡ some ws
      → total (rpc_weights ws) < 2 ^ 64
      → (d : Drawn r.rpc_providers
          (kinds ws)
          (min max_providers (length ws))
          (get_rpc_provider_for_chain_id W r chain_id max_providers rng))
        × Nodup d.ks
  unfolding get_rpc_provider_for_chain_id
  get_rpc_provider-Drawn chain_id max_providers ws rng c found fits =
      let (some', distinct, registered) = c.served chain_id ws found in
      let d : Drawn r.rpc_providers (kinds ws) (min max_providers (length ws))
          (get_rpc_provider_for_chain_id W r chain_id max_providers rng) =
        rw (found, get_rpc_provider_for_chain_id)
          (rw (not_empty ws some')
            (sample_rpc-Drawn chain_id max_providers ws rng (some', distinct, registered) fits)) in
      (d, Drawn-Nodup ws distinct d)

  get_rpc_provider-none :
      (chain_id : String) (max_providers : ℕ) (rng : W.Rng)
      → get chain_id r.rpc_weight_resolver ≡ none
      → get_rpc_provider_for_chain_id W r chain_id max_providers rng
        ≡ err (RpcError.unsupported_chain chain_id)
  unfolding get_rpc_provider_for_chain_id
  get_rpc_provider-none chain_id max_providers rng e = rw (e, get_rpc_provider_for_chain_id)

  -- In a consistent repository, with a sampler that behaves as documented and weights, each raised
  -- to at least 1, whose total for the chain is below 2^64: the call is an unsupported-chain error
  -- for a chain that is not listed as supported, and succeeds for one that is.
  pub get_rpc_provider_cases :
      (chain_id : String) (max_providers : ℕ) (rng : W.Rng)
      → IsConsistent (rpc_shelf r)
      → ((ws : Weights)
          → get chain_id r.rpc_weight_resolver ≡ some ws
          → total (rpc_weights ws) < 2 ^ 64)
      → ((¬ IsSupported (rpc_shelf r) chain_id)
          × (get_rpc_provider_for_chain_id W r chain_id max_providers rng
              ≡ err (RpcError.unsupported_chain chain_id)))
        ⊎ (IsSupported (rpc_shelf r) chain_id
            × (ps : List Rpc) × (get_rpc_provider_for_chain_id W r chain_id max_providers rng
                ≡ ok ps))
  get_rpc_provider_cases chain_id max_providers rng c fits =
      elim (Option-cases (get chain_id r.rpc_weight_resolver)) [
        | inl e ↦
            inl (λ s. c.listed chain_id s e, get_rpc_provider-none chain_id max_providers rng e)
        | inr (ws, e) ↦
            let (d, _) = get_rpc_provider-Drawn chain_id max_providers ws rng c e (fits ws e) in
            inr (c.indexed chain_id (λ n. cc), d.ps, d.result)
      ]
