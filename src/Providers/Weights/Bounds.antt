-- ===== src/Providers/Weights/Bounds.antt =====
-- src/providers/weights.rs: the range of the weight that is calculated for a chain.
use blockchain_api.Prelude.{
  ℕ, ◌+◌, ◌*◌, ◌%◌, ◌≤◌, ◌<◌, Bool-cases, inl, inr, leb, ◌==◌, nat_eq, arith,
}
use blockchain_api.Prelude.Text.{u64_max}
use blockchain_api.Providers.Weight.{u64_mod}
use blockchain_api.Providers.Weights.{Float, Availability, success_rate, calculate_chain_weight}

-- What the standard for floating-point numbers gives for numbers between 0 and 1 (`Rate`): 1 is one, a
-- quotient of integers with a denominator that is positive and not smaller is one, so is a product
-- of two, and one of them times 10000 rounds down to at most 10000.
pub record FloatLaws (R : Float) : Type 1 where
  pub Rate : R.F → Type 0
  pub one_Rate : Rate R.one
  pub div_Rate : (s t : ℕ) → s ≤ t → 0 < t → Rate (R.div (R.of_u64 s) (R.of_u64 t))
  pub mul_Rate : (x y : R.F) → Rate x → Rate y → Rate (R.mul x y)
  pub scaled : (x : R.F) → Rate x → R.to_u64 (R.mul x R.ten_thousand) ≤ 10000

-- The sum of the successes and the squared failures fits in 64 bits.
abbrev pub Fits : Availability → Type 0
Fits a = a.success + a.failure * a.failure < u64_mod

total_exact :
    (a : Availability) → Fits a → a.success ≤ (a.success + a.failure * a.failure) % u64_mod
total_exact a h = grind (arith)

module _ (R : Float) (laws : FloatLaws R) where
  success_rate-Rate : (s t : ℕ) → s ≤ t → laws.Rate (success_rate R s t)
  unfolding success_rate
  success_rate-Rate s t h = elim (Bool-cases (t == 0)) [
    | inl zero' ↦ rw zero' laws.one_Rate
    | inr more ↦ rw more (laws.div_Rate s t h (ground arith))
  ]

  -- With counters whose totals fit in 64 bits, and floating-point numbers that round as
  -- documented, the weight of a chain is at most 10000.
  pub calculate_chain_weight_le :
      (provider chain : Availability)
      → Fits provider
      → Fits chain
      → calculate_chain_weight R provider chain ≤ 10000
  unfolding calculate_chain_weight
  calculate_chain_weight_le provider chain p c =
      elim (Bool-cases (leb (provider.failure * provider.failure) u64_max)) [
        | inr big ↦ rw big (omega arith)
        | inl small ↦ rw small (elim (Bool-cases (leb (chain.failure * chain.failure) u64_max)) [
          | inr big ↦ rw big (omega arith)
          | inl small' ↦ rw small' (
              laws.scaled _ (
                laws.mul_Rate _ _ (success_rate-Rate _ _ (total_exact provider p))
                  (success_rate-Rate _ _ (total_exact chain c))))
        ])
      ]
