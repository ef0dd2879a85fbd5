-- ===== src/Providers/Weights/Counters.antt =====
-- src/providers/weights.rs: the counters that `parse_weights` makes of the metrics.
use blockchain_api.Prelude.{
  ℕ, ◌+◌, ◌%◌, ◌≡◌, refl, inl, inr, Bool, true, false, Bool-cases, Option-cases, String, none, List,
  [], ◌∷◌, All, string_eq, ◌==◌, arith,
}
use blockchain_api.Prelude.Map.{get, insert, get-All, insert-All}
use blockchain_api.Providers.Kind.{ProviderKind, kind_eq, from_str}
use blockchain_api.Providers.Weight.{u64_mod}
use blockchain_api.Providers.Weights.{
  Float, Availability, ChainAvailabilities, ParsedWeights, Metric, count_in, or_no_calls, or_empty,
  parse_metric, parse_from, parse_weights,
}

module _ (counter : Availability → ℕ) where
  abbrev pub sum : ChainAvailabilities → ℕ
  sum [] = 0
  sum ((chain_id, a) ∷ chains) = counter a + sum chains

  sum-insert :
      (counter (or_no_calls none) ≡ 0)
      → (chain_id : String) (a : Availability) (chains : ChainAvailabilities)
      → sum (insert chain_id a chains) + counter (or_no_calls (get chain_id chains))
        ≡ sum chains + counter a
  unfolding insert get
  sum-insert z chain_id a [] = omega (arith, z)
  sum-insert z chain_id a ((j, b) ∷ chains) = elim (Bool-cases (j == chain_id)) [
    | inl hit ↦ rw hit (omega arith)
    | inr miss ↦ rw miss (omega (arith, sum-insert z chain_id a chains))
  ]

-- The counters of a provider are, modulo 2^64, the sums of those of its chains.
pub record Summed (entry : ProviderKind × (ChainAvailabilities × Availability)) : Type 0 where
  pub successes : entry.1.1.success ≡ sum (λ a. a.success) entry.1.0 % u64_mod
  pub failures : entry.1.1.failure ≡ sum (λ a. a.failure) entry.1.0 % u64_mod

wrapped :
    (s s' p c a : ℕ)
    → p ≡ s % u64_mod
    → s' + c ≡ s + (c + a) % u64_mod
    → (p + a) % u64_mod ≡ s' % u64_mod
wrapped s s' p c a h k = omega arith

unmoved : (s s' p c : ℕ) → p ≡ s % u64_mod → s' + c ≡ s + c → p ≡ s' % u64_mod
unmoved s s' p c h k = omega arith

count_in-Summed :
    (kind : ProviderKind) (ok : Bool) (amount : ℕ) (chain_id : String)
    (entry : ChainAvailabilities × Availability)
    → Summed (kind, entry)
    → Summed (kind, count_in ok amount chain_id entry)
count_in-Summed kind true amount chain_id (chains, all) h = record {
  successes =
      wrapped (sum (λ a. a.success) chains) _ all.success
        (or_no_calls (get chain_id chains)).success amount h.successes
        (sum-insert (λ a. a.success) refl chain_id _ chains);
  failures =
      unmoved (sum (λ a. a.failure) chains) _ all.failure
        (or_no_calls (get chain_id chains)).failure h.failures
        (sum-insert (λ a. a.failure) refl chain_id _ chains);
}
count_in-Summed kind false amount chain_id (chains, all) h = record {
  successes =
      unmoved (sum (λ a. a.success) chains) _ all.success
        (or_no_calls (get chain_id chains)).success h.successes
        (sum-insert (λ a. a.success) refl chain_id _ chains);
  failures =
      wrapped (sum (λ a. a.failure) chains) _ all.failure
        (or_no_calls (get chain_id chains)).failure amount h.failures
        (sum-insert (λ a. a.failure) refl chain_id _ chains);
}

entry-Summed :
    (kind : ProviderKind) (parsed : ParsedWeights)
    → All Summed parsed
    → Summed (kind, or_empty (get kind parsed))
entry-Summed kind parsed h = elim (Option-cases (get kind parsed)) [
  | inl e ↦ rw e (record { successes = refl; failures = refl })
  | inr (entry, e) ↦ rw e (get-All Summed kind parsed h e)
]

module _ (R : Float) where
  parse_metric-Summed :
      (metric : Metric R.F) (parsed : ParsedWeights)
      → All Summed parsed
      → All Summed (parse_metric R metric parsed)
  unfolding parse_metric
  parse_metric-Summed metric parsed h = elim (Option-cases metric.chain_id) [
    | inl e ↦ rw e h
    | inr (chain_id, e) ↦ rw e (elim (Option-cases metric.status_code) [
      | inl e' ↦ rw e' h
      | inr (status_code, e') ↦ rw e' (elim (Option-cases metric.provider) [
        | inl f ↦ rw f h
        | inr (provider, f) ↦ rw f (elim (Option-cases (from_str provider)) [
          | inl g ↦ rw g h
          | inr (kind, g) ↦ rw g (
              insert-All Summed kind _ parsed
                (count_in-Summed kind _ _ chain_id (or_empty (get kind parsed))
                  (entry-Summed kind parsed h))
                h)
        ])
      ])
    ])
  ]

  parse_from-Summed :
      (metrics : List (Metric R.F)) (parsed : ParsedWeights)
      → All Summed parsed
      → All Summed (parse_from R metrics parsed)
  unfolding parse_from
  parse_from-Summed [] parsed h = h
  parse_from-Summed (metric ∷ metrics) parsed h =
      parse_from-Summed metrics _ (parse_metric-Summed metric parsed h)

  -- The counters of each parsed provider are, modulo 2^64, the sums of those of its chains.
  pub parse_weights-Summed : (metrics : List (Metric R.F)) → All Summed (parse_weights R metrics)
  unfolding parse_weights
  parse_weights-Summed metrics = parse_from-Summed metrics [] tt
