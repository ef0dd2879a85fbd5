-- ===== src/Providers/Messages.antt =====
-- src/providers/mod.rs: the classes of JSON-RPC errors, by message and by code.
use blockchain_api.Prelude.{ℕ, Bool, true, false, String, List, [], ◌∷◌, any, leb, ◌&&◌, ◌≡◌, refl}
use blockchain_api.Prelude.Text.{contains}

-- `i32` codes; `negsuc n` is `-(n + 1)`.
pub data ℤ : Type 0 where
  pos negsuc : ℕ → ℤ

abbrev node_error_patterns : List String
node_error_patterns =
    "cannot unmarshal" ∷ "Go value" ∷ "deserialization error" ∷ "node error" ∷ "try again later"
    ∷ "header not found" ∷ []

abbrev rate_limited_error_patterns : List String
rate_limited_error_patterns =
    "quota exceed" ∷ "exceeded quota" ∷ "rate limit" ∷ "rate-limit" ∷ "paid" ∷ "upgrade plan"
    ∷ "subscription" ∷ "compute units for this month" ∷ "compute units exceeded" ∷ "your plan"
    ∷ "current plan" ∷ "you reached" ∷ "no matched providers found" ∷ []

abbrev known_error_patterns : List String
known_error_patterns =
    "execution reverted" ∷ "EVM error" ∷ "Transaction simulation failed" ∷ "insufficient funds for "
    ∷ "gas " ∷ "already known" ∷ "filter not found" ∷ "execution aborted" ∷ "transaction"
    ∷ "nonce too " ∷ "stack underflow" ∷ "mined" ∷ "missing" ∷ "batch "
    ∷ "state available for block" ∷ "unsupported block number" ∷ "block not found"
    ∷ "block is out of range" ∷ "invalid opcode" ∷ "unknown account" ∷ "gapped-nonce tx"
    ∷ "can not found a matching policy" ∷ []

unfoldable pub is_node_error_rpc_message : String → Bool
is_node_error_rpc_message error_message =
    any (λ pattern'. contains error_message pattern') node_error_patterns

unfoldable pub is_rate_limited_error_rpc_message : String → Bool
is_rate_limited_error_rpc_message error_message =
    any (λ pattern'. contains error_message pattern') rate_limited_error_patterns

unfoldable pub is_known_rpc_error_message : String → Bool
is_known_rpc_error_message error_message =
    any (λ pattern'. contains error_message pattern') known_error_patterns

-- `(-32099..=-32000).contains(&error_code)`.
unfoldable pub is_internal_error_rpc_code : ℤ → Bool
is_internal_error_rpc_code (pos n) = false
is_internal_error_rpc_code (negsuc n) = leb 31999 n && leb n 32098

messages_run :
    (is_rate_limited_error_rpc_message "daily quota exceeded" ≡ true)
    × (is_node_error_rpc_message "header not found" ≡ true)
    × (is_known_rpc_error_message "odd" ≡ false)
    × (is_internal_error_rpc_code (negsuc 32004) ≡ true)
unfolding is_rate_limited_error_rpc_message is_node_error_rpc_message is_known_rpc_error_message
    is_internal_error_rpc_code
messages_run = (refl, refl, refl, refl)
