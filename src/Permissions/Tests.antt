-- ===== src/Permissions/Tests.antt =====
-- src/utils/permissions.rs on concrete batches.
use blockchain_api.Prelude.{◌%◌, ◌≤◌, ◌≡◌, ◌↔◌, List, [], ◌∷◌, All, map}
use blockchain_api.Errors.{ok}
use blockchain_api.Permissions.{
  ExecutionTransaction, u256_mod, native_token_transfer_permission_check,
  contract_call_permission_check,
}
use blockchain_api.Permissions.Checks.{
  spent, native_token_transfer_permission_check_iff, contract_call_permission_check_iff,
}

abbrev batch : List ExecutionTransaction
batch =
    record { address = "0xaa"; value = 70; call_data = "" }
    ∷ record { address = "0xbb"; value = 40; call_data = "a9059cbb" }
    ∷ []

native_token_transfer_permission_check_iff_example :
    (native_token_transfer_permission_check batch 100 ≡ ok tt) ↔ (spent batch % u256_mod ≤ 100)
native_token_transfer_permission_check_iff_example =
    native_token_transfer_permission_check_iff batch 100

contract_call_permission_check_iff_example :
    (contract_call_permission_check batch "0xbb" ≡ ok tt)
    ↔ All (λ a. a ≡ "0xbb") (map (λ (tx : ExecutionTransaction). tx.address) batch)
contract_call_permission_check_iff_example = contract_call_permission_check_iff batch "0xbb"
