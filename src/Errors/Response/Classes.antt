-- ===== src/Errors/Response/Classes.antt =====
-- src/error.rs: which responses an error can give.
use blockchain_api.Prelude.{ℕ, ◌≤◌, ◌<◌, ◌≡◌, ◌⊎◌, inl, inr, refl, arith}
use blockchain_api.Errors.{RpcError, RouteSolanaError}
use blockchain_api.Errors.Response.{
  Reply, reply, Body, empty, text, json, ErrorResponse, into_response,
}

abbrev pub status : Reply → ℕ
status (reply code _) = code

abbrev pub body : Reply → Body
body (reply _ b) = b

-- The request is at fault: 4xx.
abbrev pub IsClientError : Reply → Type 0
IsClientError r = (400 ≤ status r) × (status r < 500)

-- An upstream is at fault: 503, with a JSON body.
abbrev pub IsUnavailable : Reply → Type 0
IsUnavailable r = (status r ≡ 503) × (e : ErrorResponse) × (body r ≡ json e)

-- The service is at fault: 500, and nothing of the error is in the body.
abbrev pub IsOpaque : Reply → Type 0
IsOpaque r = (status r ≡ 500) × ((body r ≡ empty) ⊎ (body r ≡ text "Internal server error"))

-- Every error is answered by a 4xx status, by 503 with a JSON body, or by 500 with a body that
-- tells nothing of the error.
pub into_response_classes :
    (e : RpcError)
    → IsClientError (into_response e) ⊎ IsUnavailable (into_response e) ⊎ IsOpaque (into_response e)
unfolding into_response
into_response_classes (RpcError.route_solana (RouteSolanaError.internal e)) =
    inr (inr (refl, inl refl))
into_response_classes (RpcError.route_solana (RouteSolanaError.request e)) =
    inl (omega arith, omega arith)
into_response_classes _ = ground arith
