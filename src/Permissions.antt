-- ===== src/Permissions.antt =====
-- src/utils/sessions.rs and src/utils/permissions.rs: the checks of a batch of transactions against a
-- session's permissions.
pub mod Checks
pub mod Tests
use Prim.Native.String.{◌++◌}
use blockchain_api.Prelude.{
  ℕ, ◌+◌, ◌%◌, ◌^◌, ◌≡◌, refl, Bool, not, String, List, [], ◌∷◌, map, is_empty, ltb, ◌==◌,
  string_eq, if◌then◌else◌,
}
use blockchain_api.Prelude.Text.{decimal}
use blockchain_api.Errors.{RpcError, RpcResult, ok, err}

-- Addresses and call data are hexadecimal texts here; `value` is a `U256`.
pub record ExecutionTransaction : Type 0 where
  pub address : String
  pub value : ℕ
  pub call_data : String

abbrev pub u256_mod : ℕ
u256_mod = 2 ^ 256

-- The loop of pushes; it has no error.
unfoldable pub extract_addresses_from_execution_batch :
    List ExecutionTransaction → RpcResult (List String)
extract_addresses_from_execution_batch execution_batch = ok (map (λ tx. tx.address) execution_batch)

abbrev with_call_data : List ExecutionTransaction → List String
with_call_data [] = []
with_call_data (tx ∷ txs) =
    let rest = with_call_data txs in if tx.call_data == "" then rest else tx.address ∷ rest

unfoldable pub extract_contract_call_addresses_from_execution_batch :
    List ExecutionTransaction → RpcResult (List String)
extract_contract_call_addresses_from_execution_batch execution_batch =
    ok (with_call_data execution_batch)

-- The fold from zero; `+` of `U256` wraps.
abbrev pub fold_values : ℕ → List ExecutionTransaction → ℕ
fold_values acc [] = acc
fold_values acc (tx ∷ txs) = fold_values ((acc + tx.value) % u256_mod) txs

unfoldable pub extract_values_sum_from_execution_batch : List ExecutionTransaction → RpcResult ℕ
extract_values_sum_from_execution_batch execution_batch = ok (fold_values 0 execution_batch)

-- The result of a check, `Result<(), RpcError>`.
abbrev pub Check : Type 0
Check = RpcResult Unit

abbrev pub wrong_address : String → String → RpcError
wrong_address address call_address = RpcError.cosigner_permission_denied (
    "Execution address does not match the contract address in the permission data. Execution Address: "
    ++ (address ++ (", Contract Address: " ++ call_address)))

check_addresses : String → List String → Check
check_addresses call_address [] = ok tt
check_addresses call_address (address ∷ addresses) =
    let rest = check_addresses call_address addresses in
    if address == call_address then rest else err (wrong_address address call_address)

-- The permission's data are the address of the contract.
pub contract_call_permission_check : List ExecutionTransaction → String → Check
unfolding check_addresses
contract_call_permission_check execution_batch call_address =
    elim (extract_addresses_from_execution_batch execution_batch) [
      | err e ↦ err e
      | ok addresses ↦ check_addresses call_address addresses
    ]

abbrev above_allowance : ℕ → ℕ → RpcError
above_allowance sum allowance = RpcError.cosigner_permission_denied (
    "Execution value is greater than the allowance. Execution Value: "
    ++ (decimal sum ++ (", Allowance: " ++ decimal allowance)))

compare_sum : ℕ → ℕ → Check
compare_sum sum allowance = if ltb allowance sum then err (above_allowance sum allowance) else ok tt

-- The permission's data are the allowance.
pub native_token_transfer_permission_check : List ExecutionTransaction → ℕ → Check
unfolding compare_sum
native_token_transfer_permission_check execution_batch allowance =
    elim (extract_values_sum_from_execution_batch execution_batch) [
      | err e ↦ err e
      | ok sum ↦ compare_sum sum allowance
    ]

abbrev two_halves : List ExecutionTransaction
two_halves =
    record { address = "0xaa"; value = 2 ^ 255; call_data = "" }
    ∷ record { address = "0xbb"; value = 2 ^ 255; call_data = "00" }
    ∷ []

-- Two transfers of 2^255 pass with an allowance of 0.
halves_pass : native_token_transfer_permission_check two_halves 0 ≡ ok tt
unfolding native_token_transfer_permission_check extract_values_sum_from_execution_batch compare_sum
halves_pass = refl

calls_extracted : extract_contract_call_addresses_from_execution_batch two_halves ≡ ok ("0xbb" ∷ [])
unfolding extract_contract_call_addresses_from_execution_batch
calls_extracted = refl
