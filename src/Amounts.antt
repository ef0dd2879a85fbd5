-- ===== src/Amounts.antt =====
-- src/utils/token_amount.rs: amounts of tokens with their own numbers of decimals.
pub mod Comparison
pub mod Tests
use blockchain_api.Prelude.{
  ℕ, ◌-◌, ◌*◌, ◌^◌, ◌≡◌, refl, Bool, true, false, Option, none, some, ltb, leb, ◌==◌, nat_eq, ◌&&◌,
  if◌then◌else◌,
}

pub data Ordering : Type 0 where
  less equal greater : Ordering

-- `Ord::cmp`, on numbers.
abbrev pub cmp : ℕ → ℕ → Ordering
cmp a b = if ltb a b then less else if a == b then equal else greater

-- `TokenAmount`, also made by its `new`: an unsigned 256-bit amount and an unsigned 8-bit number.
pub record TokenAmount : Type 0 where
  pub amount : ℕ
  pub decimals : ℕ

abbrev pub u256_mod : ℕ
u256_mod = 2 ^ 256

-- `U256::checked_pow` and `U256::checked_mul`.
unfoldable pub checked_pow : ℕ → ℕ → Option ℕ
checked_pow a n = if ltb (a ^ n) u256_mod then some (a ^ n) else none

unfoldable pub checked_mul : ℕ → ℕ → Option ℕ
checked_mul a b = if ltb (a * b) u256_mod then some (a * b) else none

-- The arms for different decimals: `a` is compared with `b` times the power of ten, and the given
-- ordering is the answer where that does not fit.
compare_scaled : (ℕ → ℕ → Ordering) → Ordering → ℕ → ℕ → ℕ → Ordering
compare_scaled compare' overflow a b difference = elim (checked_pow 10 difference) [
  | none ↦ overflow
  | some factor ↦ elim (checked_mul b factor) [
    | none ↦ overflow
    | some adjusted ↦ compare' a adjusted
  ]
]

-- `none` where an assertion fails.
unfoldable pub compare_amounts : ℕ → ℕ → ℕ → ℕ → Option Ordering
unfolding compare_scaled
compare_amounts a_amount b_amount a_decimals b_decimals =
    if leb a_decimals 77 && leb b_decimals 77
    then if a_decimals == b_decimals
      then some (cmp a_amount b_amount)
      else if ltb b_decimals a_decimals
      then some (compare_scaled cmp less a_amount b_amount (a_decimals - b_decimals))
      else some
          (compare_scaled (λ b a. cmp a b) greater b_amount a_amount (b_decimals - a_decimals))
    else none

-- `PartialOrd::partial_cmp`, in which a failed assertion is `none`.
unfoldable pub partial_cmp : TokenAmount → TokenAmount → Option Ordering
unfolding compare_amounts
partial_cmp self other = compare_amounts self.amount other.amount self.decimals other.decimals

compare_runs :
    (compare_amounts 1 1000000 0 6 ≡ some equal) × (compare_amounts 1 1 0 6 ≡ some greater)
unfolding compare_amounts checked_pow checked_mul
compare_runs = (refl, refl)
