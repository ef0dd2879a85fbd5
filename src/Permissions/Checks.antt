-- ===== src/Permissions/Checks.antt =====
-- src/utils/permissions.rs: which batches the checks let pass.
use blockchain_api.Prelude.{
  ℕ, ◌+◌, ◌%◌, ◌≤◌, ◌<◌, ◌≡◌, ◌↔◌, refl, sym, ap, ◌∙◌, inl, inr, Bool-cases, ltb, List, [], ◌∷◌,
  All, map, String, ◌==◌, ==_iff, string_eq, arith, subst,
}
use blockchain_api.Errors.{ok}
use blockchain_api.Permissions.{
  ExecutionTransaction, u256_mod, fold_values, check_addresses, contract_call_permission_check,
  compare_sum, native_token_transfer_permission_check, extract_addresses_from_execution_batch,
  extract_values_sum_from_execution_batch,
}

-- The value that a batch spends, as a number without bound.
abbrev pub spent : List ExecutionTransaction → ℕ
spent [] = 0
spent (tx ∷ txs) = tx.value + spent txs

fold_values-spent :
    (acc : ℕ) (txs : List ExecutionTransaction)
    → acc < u256_mod
    → fold_values acc txs ≡ (acc + spent txs) % u256_mod
fold_values-spent acc [] h = omega arith
fold_values-spent acc (tx ∷ txs) h =
    let below : (acc + tx.value) % u256_mod < u256_mod = omega arith in
    omega (arith, fold_values-spent ((acc + tx.value) % u256_mod) txs below)

compare_sum_iff : (sum allowance : ℕ) → (compare_sum sum allowance ≡ ok tt) ↔ (sum ≤ allowance)
unfolding compare_sum
compare_sum_iff sum allowance = elim (Bool-cases (ltb allowance sum)) [
  | inl above ↦ rw above (λ h. cc, λ h. absurd (ground arith))
  | inr within ↦ rw within (λ _. ground arith, λ _. refl)
]

check_addresses_iff :
    (call_address : String) (addresses : List String)
    → (check_addresses call_address addresses ≡ ok tt) ↔ All (λ a. a ≡ call_address) addresses
unfolding check_addresses
check_addresses_iff call_address [] = (λ _. tt, λ _. refl)
check_addresses_iff call_address (a ∷ as') = elim (Bool-cases (a == call_address)) [
  | inl same ↦ rw same (
    λ h. ((==_iff a call_address).0 same, (check_addresses_iff call_address as').0 h),
    λ h. (check_addresses_iff call_address as').1 h.1,
  )
  | inr other ↦ rw other (λ h. cc, λ h. cc (sym other ∙ (==_iff a call_address).1 h.0))
]

-- A batch passes the check of a native token allowance exactly when the value that it spends, taken
-- modulo 2^256, is at most the allowance.
pub native_token_transfer_permission_check_iff :
    (execution_batch : List ExecutionTransaction) (allowance : ℕ)
    → (native_token_transfer_permission_check execution_batch allowance ≡ ok tt)
      ↔ (spent execution_batch % u256_mod ≤ allowance)
unfolding native_token_transfer_permission_check extract_values_sum_from_execution_batch
native_token_transfer_permission_check_iff execution_batch allowance =
    let folded : fold_values 0 execution_batch ≡ spent execution_batch % u256_mod =
      fold_values-spent 0 execution_batch (omega arith) ∙ ap (λ n. n % u256_mod) (omega arith) in
    subst (λ n. (compare_sum (fold_values 0 execution_batch) allowance ≡ ok tt) ↔ (n ≤ allowance))
      folded (compare_sum_iff (fold_values 0 execution_batch) allowance)

-- A batch passes the check of a contract call exactly when every transaction, with call data or
-- without, is to the contract.
pub contract_call_permission_check_iff :
    (execution_batch : List ExecutionTransaction) (call_address : String)
    → (contract_call_permission_check execution_batch call_address ≡ ok tt)
      ↔ All
          (λ a. a ≡ call_address)
          (map (λ (tx : ExecutionTransaction). tx.address) execution_batch)
unfolding contract_call_permission_check extract_addresses_from_execution_batch
contract_call_permission_check_iff execution_batch call_address =
    check_addresses_iff call_address (map (λ tx. tx.address) execution_batch)
