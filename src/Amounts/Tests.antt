-- ===== src/Amounts/Tests.antt =====
-- src/utils/token_amount.rs on concrete amounts.
use blockchain_api.Prelude.{ℕ, ◌*◌, ◌^◌, ◌≡◌, some, arith}
use blockchain_api.Amounts.{TokenAmount, cmp, partial_cmp}
use blockchain_api.Amounts.Comparison.{partial_cmp-exact}

abbrev tokens : ℕ → ℕ → TokenAmount
tokens amount decimals = record { amount = amount; decimals = decimals }

partial_cmp-exact_example :
    partial_cmp (tokens 2500000 6) (tokens 3 0) ≡ some (cmp (2500000 * 10 ^ 0) (3 * 10 ^ 6))
partial_cmp-exact_example =
    partial_cmp-exact (tokens 2500000 6) (tokens 3 0) (omega arith) (omega arith) (omega arith)
      (omega arith)
