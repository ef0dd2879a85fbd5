-- ===== src/Providers/Weights/Tests.antt =====
-- src/providers/weights.rs on concrete data, with fractions in place of floating-point numbers.
use native.Mathlib.Nat.{mul-le-mul, div-lt_iff_lt-mul}
use blockchain_api.Prelude.{
  ℕ, ◌*◌, ◌/◌, ◌≤◌, ◌<◌, ◌≡◌, refl, String, List, [], ◌∷◌, some, All, arith,
}
use blockchain_api.Providers.Kind.{quicknode, pokt}
use blockchain_api.Providers.Weight.{Weight}
use blockchain_api.Providers.Repository.{WeightResolver}
use blockchain_api.Providers.Weights.{
  Float, Availability, ParsedWeights, Metric, parse_weights, calculate_chain_weight, update_values,
}
use blockchain_api.Providers.Weights.Bounds.{FloatLaws, calculate_chain_weight_le}
use blockchain_api.Providers.Weights.Counters.{Summed, parse_weights-Summed}
use blockchain_api.Providers.Weights.Updates.{Moved, weight_of, update_values-Moved}

abbrev fractions : Float
fractions = record {
  F = ℕ × ℕ;
  of_u64 = λ n. (n, 1);
  to_u64 = λ x. x.0 / x.1;
  div = λ x y. (x.0 * y.1, x.1 * y.0);
  mul = λ x y. (x.0 * y.0, x.1 * y.1);
  one = (1, 1);
  ten_thousand = (10000, 1);
}

scaled_fraction : (n d : ℕ) → n ≤ d → 0 < d → n * 10000 / (d * 1) ≤ 10000
scaled_fraction n d h p =
    let pos : 0 < d * 1 = omega arith in
    let below : n * 10000 < 10001 * (d * 1) = omega arith in
    let q : n * 10000 / (d * 1) < 10001 = (div-lt_iff_lt-mul pos).1 below in omega (arith, q)

product_pos : (m n : ℕ) → 0 < m → 0 < n → 0 < m * n
product_pos m n h k = let le : 1 * 1 ≤ m * n = mul-le-mul h k in omega (arith, le)

fractions_laws : FloatLaws fractions
fractions_laws = record {
  Rate = λ x. (x.0 ≤ x.1) × (0 < x.1);
  one_Rate = (omega arith, omega arith);
  div_Rate = λ s t h p. (omega arith, omega arith);
  mul_Rate = λ x y p q. (mul-le-mul p.0 q.0, product_pos x.1 y.1 p.1 q.1);
  scaled = λ x p. scaled_fraction x.0 x.1 p.0 p.1;
}

abbrev calls : ℕ → ℕ → Availability
calls s f = record { success = s; failure = f }

-- The first test of the source.
weight_runs : calculate_chain_weight fractions (calls 75 25) (calls 125 50) ≡ 51
unfolding calculate_chain_weight
weight_runs = refl

calculate_chain_weight_le_example :
    calculate_chain_weight fractions (calls 75 25) (calls 125 50) ≤ 10000
calculate_chain_weight_le_example =
    calculate_chain_weight_le fractions fractions_laws (calls 75 25) (calls 125 50) (omega arith)
      (omega arith)

abbrev metric : String → String → ℕ → Metric (ℕ × ℕ)
metric chain_id status n = record {
  chain_id = some chain_id;
  status_code = some status;
  provider = some "Quicknode";
  value = (n, 1);
}

abbrev metrics : List (Metric (ℕ × ℕ))
metrics = metric "eip155:1" "200" 75 ∷ metric "eip155:1" "500" 25 ∷ metric "eip155:5" "404" 50 ∷ []

parse_weights-Summed_example : All Summed (parse_weights fractions metrics)
parse_weights-Summed_example = parse_weights-Summed fractions metrics

abbrev parsed : ParsedWeights
parsed =
    (quicknode, (("eip155:1", calls 75 25) ∷ [], calls 125 50))
    ∷ (pokt, (("eip155:1", calls 1 9) ∷ [], calls 1 9))
    ∷ []

abbrev full : Weight
full = record { value = 50; priority = 50 }

abbrev resolver : WeightResolver String
resolver = ("eip155:1", (quicknode, full) ∷ (pokt, full) ∷ []) ∷ []

update_values-Moved_example :
    Moved quicknode
      (weight_of "eip155:1" quicknode resolver)
      (weight_of "eip155:1" quicknode (update_values fractions parsed resolver))
update_values-Moved_example =
    update_values-Moved fractions fractions_laws "eip155:1" quicknode parsed resolver
      ((omega arith, (omega arith, tt)), ((omega arith, (omega arith, tt)), tt))
