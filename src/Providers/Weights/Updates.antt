-- ===== src/Providers/Weights/Updates.antt =====
-- src/providers/weights.rs: what a recalculation does to the weights.
use blockchain_api.Prelude.{
  ℕ, ◌*◌, ◌/◌, ◌≤◌, ◌≡◌, refl, sym, ap, ◌∙◌, ◌⊎◌, inl, inr, Bool-cases, Option-cases, String,
  Option, none, some, Bool, false, any, [], ◌∷◌, All, ◌==◌, ==_iff, string_eq, arith, subst,
}
use blockchain_api.Prelude.Map.{get, insert, get-insert}
use blockchain_api.Providers.Kind.{ProviderKind, kind_eq}
use blockchain_api.Providers.Weight.{Weight, update_value}
use native.Mathlib.Nat.{mul-le-mul_right}
use blockchain_api.Providers.Repository.{Weights, WeightResolver}
use blockchain_api.Providers.Weights.{
  Float, Availability, ChainAvailabilities, ParsedWeights, weight_recalculation_excluded_providers,
  calculate_chain_weight, update_chain, update_chains, update_values,
}
use blockchain_api.Providers.Weights.Bounds.{FloatLaws, Fits, calculate_chain_weight_le}

-- The weight of a provider for a chain.
abbrev pub weight_of : String → ProviderKind → WeightResolver String → Option Weight
weight_of chain_id kind resolver = elim (get chain_id resolver) [
  | none ↦ none
  | some weights ↦ get kind weights
]

abbrev pub is_excluded : ProviderKind → Bool
is_excluded kind = any (λ excluded. excluded == kind) weight_recalculation_excluded_providers

-- What a recalculation may do to the weight of a provider: none appears or is lost; priorities
-- stay; only the weight of a provider that is not excluded changes, to at most the value that a
-- success rate of 10000 gives.
abbrev pub Moved : ProviderKind → Option Weight → Option Weight → Type 0
Moved kind none none = Unit
Moved kind none (some w) = ⊥
Moved kind (some v) none = ⊥
Moved kind (some v) (some w) =
    (w.priority ≡ v.priority)
    × ((w ≡ v) ⊎ ((is_excluded kind ≡ false) × (w.value ≤ 10000 * v.priority / 50)))

Moved-refl : (kind : ProviderKind) (w : Option Weight) → Moved kind w w
Moved-refl kind none = tt
Moved-refl kind (some w) = (refl, inl refl)

Moved-trans :
    (kind : ProviderKind) (u v w : Option Weight) → Moved kind u v → Moved kind v w → Moved kind u w
Moved-trans kind none none w g h = h
Moved-trans kind (some u) (some v) (some w) (p, b) (p', b') = (
  p' ∙ p,
  elim b' [
    | inl same ↦
        subst (λ t. (t ≡ u) ⊎ ((is_excluded kind ≡ false) × (t.value ≤ 10000 * u.priority / 50)))
          (sym same) b
    | inr (x, le) ↦ inr (x, subst (λ n. w.value ≤ 10000 * n / 50) p le)
  ],
)
Moved-trans kind none (some v) w g h = absurd g
Moved-trans kind (some u) none w g h = absurd g
Moved-trans kind (some u) (some v) none g h = absurd h

-- The weight of a provider for a chain, once one weight has been replaced.
weight_of-replaced :
    (chain : String) (kind : ProviderKind) (c : String) (k : ProviderKind) (v w : Weight)
    (ws : Weights) (resolver : WeightResolver String)
    → get c resolver ≡ some ws
    → get k ws ≡ some v
    → Moved k (some v) (some w)
    → Moved kind
        (weight_of chain kind resolver)
        (weight_of chain kind (insert c (insert k w ws) resolver))
weight_of-replaced chain kind c k v w ws resolver at_c at_k m =
    rw (get-insert c chain (insert k w ws) resolver, weight_of)
      (elim (Bool-cases (c == chain)) [
        | inr other ↦ rw other (Moved-refl kind _)
        | inl same ↦ rw same (
            rw (sym (ap (λ x. weight_of x kind resolver) ((==_iff c chain).0 same))) (
              rw (at_c, weight_of)
                (rw (get-insert k kind w ws) (elim (Bool-cases (k == kind)) [
                  | inr other ↦ rw other (Moved-refl kind _)
                  | inl same' ↦ rw same' (
                      subst (λ x. Moved x (get x ws) (some w)) ((==_iff k kind).0 same')
                        (rw at_k m))
                ]))))
      ])

-- Every counter of the answer adds up within 64 bits.
abbrev pub AllFit : ParsedWeights → Type 0
AllFit = All (λ (entry : ProviderKind × (ChainAvailabilities × Availability)).
    Fits entry.1.1 × All (λ (chain : String × Availability). Fits chain.1) entry.1.0)

update_value-priority : (w : Weight) (rate : ℕ) → (update_value w rate).priority ≡ w.priority
unfolding update_value
update_value-priority w rate = refl

product_le : (rate p : ℕ) → rate ≤ 10000 → rate * p ≤ 10000 * p
product_le rate p h = mul-le-mul_right p h

update_value_le :
    (w : Weight) (rate : ℕ) → rate ≤ 10000 → (update_value w rate).value ≤ 10000 * w.priority / 50
unfolding update_value
update_value_le w rate h = omega (arith, product_le rate w.priority h)

module _ (R : Float) (laws : FloatLaws R) (chain_id : String) (kind : ProviderKind) where
  update_chain-Moved :
      (k : ProviderKind) (all : Availability) (chain : String × Availability)
      (resolver : WeightResolver String)
      → is_excluded k ≡ false
      → Fits all
      → Fits chain.1
      → Moved kind
          (weight_of chain_id kind resolver)
          (weight_of chain_id kind (update_chain R k all chain resolver))
  unfolding update_chain
  update_chain-Moved k all (c, a) resolver x f g = elim (Option-cases (get c resolver)) [
    | inl e ↦ rw (e, update_chain) (Moved-refl kind _)
    | inr (ws, at_c) ↦
        rw (at_c, update_chain)
          (elim (Option-cases (get k ws)) [
            | inl e ↦ rw e (Moved-refl kind _)
            | inr (v, at_k) ↦ rw at_k (
                weight_of-replaced chain_id kind c k v
                  (update_value v (calculate_chain_weight R a all)) ws resolver at_c at_k
                  (
                    update_value-priority v _,
                    inr (x, update_value_le v _ (calculate_chain_weight_le R laws a all g f)),
                  ))
          ])
  ]

  update_chains-Moved :
      (k : ProviderKind) (all : Availability) (chains : ChainAvailabilities)
      (resolver : WeightResolver String)
      → is_excluded k ≡ false
      → Fits all
      → All (λ (chain : String × Availability). Fits chain.1) chains
      → Moved kind
          (weight_of chain_id kind resolver)
          (weight_of chain_id kind (update_chains R k all chains resolver))
  unfolding update_chains
  update_chains-Moved k all [] resolver x f fs = Moved-refl kind _
  update_chains-Moved k all (chain ∷ chains) resolver x f (g, gs) =
      Moved-trans kind (weight_of chain_id kind resolver) _ _
        (update_chain-Moved k all chain resolver x f g)
        (update_chains-Moved k all chains (update_chain R k all chain resolver) x f gs)

  -- For counters that add up within 64 bits and floating-point numbers that round as documented: a
  -- recalculation neither adds nor loses a weight, keeps every priority, leaves the weights of
  -- excluded providers alone, and sets each weight that it changes to at most 10000 times the
  -- priority over 50.
  pub update_values-Moved :
      (parsed : ParsedWeights) (resolver : WeightResolver String)
      → AllFit parsed
      → Moved kind
          (weight_of chain_id kind resolver)
          (weight_of chain_id kind (update_values R parsed resolver))
  unfolding update_values
  update_values-Moved [] resolver h = Moved-refl kind _
  update_values-Moved ((k, (chains, all)) ∷ parsed) resolver ((f, fs), h) =
      elim (Bool-cases (is_excluded k)) [
        | inl skip ↦ rw skip (update_values-Moved parsed resolver h)
        | inr counted ↦ rw counted (
            Moved-trans kind (weight_of chain_id kind resolver) _ _
              (update_chains-Moved k all chains resolver counted f fs)
              (update_values-Moved parsed (update_chains R k all chains resolver) h))
      ]
