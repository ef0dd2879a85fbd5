-- ===== src/Providers/Weights.antt =====
-- src/providers/weights.rs: the weights, recalculated from the counters of past calls.
pub mod Bounds
pub mod Counters
pub mod Tests
pub mod Updates
use blockchain_api.Prelude.{
  ℕ, ◌+◌, ◌*◌, ◌%◌, Bool, ◌||◌, String, List, [], ◌∷◌, Option, none, some, any, leb, ◌==◌, nat_eq,
  string_eq, if◌then◌else◌,
}
use blockchain_api.Prelude.Map.{get, insert}
use blockchain_api.Prelude.Text.{u64_max, starts_with}
use blockchain_api.Providers.Kind.{ProviderKind, kind_eq, from_str}
use blockchain_api.Providers.Weight.{Weight, u64_mod, update_value}
use blockchain_api.Providers.Repository.{Weights, WeightResolver}

-- The 64-bit floating-point numbers, with the operations that the code uses.
pub record Float : Type 1 where
  pub F : Type 0
  -- `u64 as f64` and `f64 as u64`.
  pub of_u64 : ℕ → F
  pub to_u64 : F → ℕ
  pub div : F → F → F
  pub mul : F → F → F
  -- 1.0 and 10000.0.
  pub one : F
  pub ten_thousand : F

abbrev pub weight_recalculation_excluded_providers : List ProviderKind
weight_recalculation_excluded_providers = ProviderKind.pokt ∷ []

-- `Availability(success_counter, failure_counter)`.
pub record Availability : Type 0 where
  pub success : ℕ
  pub failure : ℕ

abbrev pub ChainAvailabilities : Type 0
ChainAvailabilities = List (String × Availability)

abbrev pub ParsedWeights : Type 0
ParsedWeights = List (ProviderKind × (ChainAvailabilities × Availability))

-- One vector of the answer: the labels that are read, and the sample's value.
pub record Metric (F : Type 0) : Type 0 where
  pub chain_id : Option String
  pub status_code : Option String
  pub provider : Option String
  pub value : F

abbrev pub no_calls : Availability
no_calls = record { success = 0; failure = 0 }

-- `+=` on a counter, which wraps.
abbrev pub count : Bool → ℕ → Availability → Availability
count ok amount a =
    if ok
    then record a { success = (a.success + amount) % u64_mod }
    else record a { failure = (a.failure + amount) % u64_mod }

-- The statuses that count as successes.
abbrev pub is_success : String → Bool
is_success status_code = starts_with "2" status_code || status_code == "404" || status_code == "400"

abbrev pub or_no_calls : Option Availability → Availability
or_no_calls none = no_calls
or_no_calls (some a) = a

abbrev pub or_empty :
    Option (ChainAvailabilities × Availability) → ChainAvailabilities × Availability
or_empty none = ([], no_calls)
or_empty (some p) = p

-- The entry of a provider, with one metric counted.
abbrev pub count_in :
    Bool → ℕ → String → ChainAvailabilities × Availability → ChainAvailabilities × Availability
count_in ok amount chain_id (chains, all) = (
  insert chain_id (count ok amount (or_no_calls (get chain_id chains))) chains,
  count ok amount all,
)

module _ (R : Float) where
  -- A round of `parse_weights`: metrics without a label or of an unknown provider are skipped.
  pub parse_metric : Metric R.F → ParsedWeights → ParsedWeights
  parse_metric metric data' = elim metric.chain_id [
    | none ↦ data'
    | some chain_id ↦ elim metric.status_code [
      | none ↦ data'
      | some status_code ↦ elim metric.provider [
        | none ↦ data'
        | some provider ↦ elim (from_str provider) [
          | none ↦ data'
          | some kind ↦
              insert kind
                (count_in (is_success status_code) (R.to_u64 metric.value) chain_id
                  (or_empty (get kind data')))
                data'
        ]
      ]
    ]
  ]

  parse_from : List (Metric R.F) → ParsedWeights → ParsedWeights
  parse_from [] data' = data'
  parse_from (metric ∷ metrics) data' = parse_from metrics (parse_metric metric data')

  pub parse_weights : List (Metric R.F) → ParsedWeights
  unfolding parse_from parse_metric
  parse_weights metrics = parse_from metrics []

  -- The rate of successes; 1 where there were no calls.
  pub success_rate : ℕ → ℕ → R.F
  success_rate success total =
      if total == 0 then R.one else R.div (R.of_u64 success) (R.of_u64 total)

  -- The sums wrap; the squares are checked.
  unfoldable pub calculate_chain_weight : Availability → Availability → ℕ
  unfolding success_rate
  calculate_chain_weight provider chain =
      if leb (provider.failure * provider.failure) u64_max
      then if leb (chain.failure * chain.failure) u64_max
        then R.to_u64 (
            R.mul
              (R.mul
                (success_rate provider.success
                  ((provider.success + provider.failure * provider.failure) % u64_mod))
                (success_rate chain.success
                  ((chain.success + chain.failure * chain.failure) % u64_mod)))
              R.ten_thousand)
        else 0
      else 0

  -- `weight_resolver.get(&chain_id)`, then `get(&provider)`, then the store in the shared weight.
  pub update_chain :
      ProviderKind
      → Availability
      → String × Availability
      → WeightResolver String
      → WeightResolver String
  update_chain kind all (chain_id, availability) resolver = elim (get chain_id resolver) [
    | none ↦ resolver
    | some weights ↦ elim (get kind weights) [
      | none ↦ resolver
      | some weight ↦
          insert chain_id
            (insert kind (update_value weight (calculate_chain_weight availability all)) weights)
            resolver
    ]
  ]

  pub update_chains :
      ProviderKind
      → Availability
      → ChainAvailabilities
      → WeightResolver String
      → WeightResolver String
  update_chains kind all [] resolver = resolver
  update_chains kind all (chain ∷ chains) resolver =
      update_chains kind all chains (update_chain kind all chain resolver)

  pub update_values : ParsedWeights → WeightResolver String → WeightResolver String
  unfolding update_chain update_chains
  update_values [] resolver = resolver
  update_values ((kind, (chains, all)) ∷ parsed) resolver =
      let rest = update_values parsed in
      if any (λ excluded. excluded == kind) weight_recalculation_excluded_providers
      then rest resolver
      else rest (update_chains kind all chains resolver)
