-- ===== src/Proxy.antt =====
-- src/handlers/proxy.rs: one call to a provider, and the loop over the chosen providers.
pub mod Call
pub mod Counter
pub mod Counts
pub mod Handler
pub mod Loop
pub mod Tests
use blockchain_api.Prelude.{
  ℕ, suc, Bool, true, false, ◌&&◌, ◌||◌, String, List, [], ◌∷◌, Option, none, some, ◌⊎◌, inl, inr,
  leb, ◌==◌, nat_eq, if◌then◌else◌,
}
use blockchain_api.Errors.{Foreign, RpcError, RpcResult, ok, err}
use blockchain_api.Providers.Kind.{ProviderKind}
use blockchain_api.Providers.Messages.{
  ℤ, is_internal_error_rpc_code, is_known_rpc_error_message, is_node_error_rpc_message,
  is_rate_limited_error_rpc_message,
}

-- A provider's response, whose body is a stream.
pub record Response (Stream : Type 0) : Type 0 where
  pub status : ℕ
  pub body : Stream

-- What waiting for a provider gives, at most ten seconds long.
pub data Answer (Stream : Type 0) : Type 0 where
  timed_out : Foreign → Answer Stream
  answered : RpcResult (Response Stream) → Answer Stream

-- The `error` member of a JSON-RPC response.
pub record JsonError : Type 0 where
  pub code : ℤ
  pub message : String

-- What the handler calls: provider clients, the HTTP body reader and the JSON parser. `Net` is all
-- that they may read or change.
pub record World : Type 1 where
  pub Provider : Type 0
  pub Stream : Type 0
  pub Net : Type 0
  pub kind : Provider → ProviderKind
  -- `provider.proxy(&chain_id, body)` under the timeout.
  pub proxy : Provider → String → String → Net → Answer Stream × Net
  -- `provider.is_rate_limited(&mut response)`.
  pub is_rate_limited : Provider → Response Stream → Net → Bool × Response Stream × Net
  -- `to_bytes` up to the limit of 10 MB.
  pub to_bytes : Stream → Net → (Foreign ⊎ String) × Net
  -- `serde_json::from_slice::<jsonrpc::Response>`: the error that a response has.
  pub parse_response : String → Foreign ⊎ Option JsonError
  -- `serde_json::from_slice::<MaybeBatchRequest>`: the ids and methods of the requests.
  pub parse_requests : String → Foreign ⊎ List (String × String)

-- The calls to `state.metrics` and `state.analytics`; times are left out.
pub data Event : Type 0 where
  rpc_call : String → ProviderKind → Event
  message : String → String → ProviderKind → Event
  status_code : ProviderKind → ℕ → String → Event
  rate_limited_call : ProviderKind → String → Event
  external_http_latency : ProviderKind → String → Event
  finished_provider_call : String → ProviderKind → Event
  failed_provider_call : String → ProviderKind → Event
  provider_connection_error : String → ProviderKind → Event
  rpc_call_retries : ℕ → String → Event
  internal_error_code : ProviderKind → String → ℤ → Event
  found_provider_for_chain : String → ProviderKind → Event
  chain_latency : ProviderKind → String → Event
  no_providers_for_chain : String → Event

-- The state that a request runs in: the latest event first.
pub record Run (Net : Type 0) : Type 0 where
  pub net : Net
  pub log : List Event

abbrev pub emit : {Net : Type 0} → Event → Run Net → Run Net
emit event run = record run { log = event ∷ run.log }

abbrev pub set_net : {Net : Type 0} → Net → Run Net → Run Net
set_net net run = record run { net = net }

-- What the client gets: a status and the bytes of the body.
pub record Reply : Type 0 where
  pub status : ℕ
  pub body : String

abbrev pub emit_messages :
    {Net : Type 0} → ProviderKind → List (String × String) → Run Net → Run Net
emit_messages kind [] run = run
emit_messages kind ((id, method) ∷ rpcs) run =
    emit_messages kind rpcs (emit (message id method kind) run)

-- The analytics messages of a body; one that does not parse is only logged.
abbrev pub analyse :
    {Net : Type 0} → ProviderKind → Foreign ⊎ List (String × String) → Run Net → Run Net
analyse kind (inl e) run = run
analyse kind (inr rpcs) run = emit_messages kind rpcs run

abbrev service_unavailable : ℕ
service_unavailable = 503

-- What to do with a JSON-RPC error.
pub data Verdict : Type 0 where
  retry accept accept_and_count : Verdict

unfoldable pub judge : Option JsonError → Verdict
judge none = accept
judge (some error) =
    if is_internal_error_rpc_code error.code
    then if is_rate_limited_error_rpc_message error.message
        || is_node_error_rpc_message error.message
      then retry
      else if is_known_rpc_error_message error.message
      then accept
      else accept_and_count
    else accept

-- The statuses with which the loop looks into the body.
abbrev pub is_final : ℕ → Bool
is_final status = (leb 200 status && leb status 299) || status == 400

module _ (W : World) (chain_id project_id body : String) where
  -- The end of `rpc_provider_call`: other statuses than 200 and 400 become 503.
  settle : W.Provider → Response W.Stream → Run W.Net → Response W.Stream × Run W.Net
  settle provider response run =
      if response.status == 200 || response.status == 400
      then (response, emit (finished_provider_call chain_id (W.kind provider)) run)
      else (
        record response { status = service_unavailable },
        emit (failed_provider_call chain_id (W.kind provider)) run,
      )

  -- After `is_rate_limited`.
  limit : W.Provider → Bool × Response W.Stream × W.Net → Run W.Net → Response W.Stream × Run W.Net
  unfolding settle
  limit provider (true, response, net) run =
      settle provider (record response { status = service_unavailable })
        (emit (external_http_latency (W.kind provider) chain_id)
          (emit (rate_limited_call (W.kind provider) project_id) (set_net net run)))
  limit provider (false, response, net) run =
      settle provider response
        (emit (external_http_latency (W.kind provider) chain_id) (set_net net run))

  -- After the timeout.
  receive :
      W.Provider → Answer W.Stream × W.Net → Run W.Net → RpcResult (Response W.Stream) × Run W.Net
  unfolding limit
  receive provider (timed_out e, net) run = (err (RpcError.proxy_timeout_error e), set_net net run)
  receive provider (answered (err e), net) run = (err e, set_net net run)
  receive provider (answered (ok response), net) run =
      let settled =
        limit provider (W.is_rate_limited provider response net)
          (emit (status_code (W.kind provider) response.status chain_id) run) in
      (ok settled.0, settled.1)

  pub rpc_provider_call : W.Provider → Run W.Net → RpcResult (Response W.Stream) × Run W.Net
  unfolding receive
  rpc_provider_call provider run = receive provider (W.proxy provider chain_id body run.net) (
      analyse (W.kind provider) (W.parse_requests body)
        (emit (rpc_call chain_id (W.kind provider)) run))

  -- The end of a round: the reply.
  give : W.Provider → ℕ → String → Run W.Net → Option Reply × Run W.Net
  give provider status bytes run = (
    some (record { status = status; body = bytes }),
    emit (chain_latency (W.kind provider) chain_id)
        (emit (found_provider_for_chain chain_id (W.kind provider)) run),
  )

  obey : ℕ → W.Provider → ℕ → String → ℤ → Verdict → Run W.Net → Option Reply × Run W.Net
  unfolding give
  obey i provider status bytes code retry run = (none, emit (rpc_call_retries i chain_id) run)
  obey i provider status bytes code accept run = give provider status bytes run
  obey i provider status bytes code accept_and_count run =
      give provider status bytes (emit (internal_error_code (W.kind provider) chain_id code) run)

  -- The judgement of a body; one that does not parse is passed on.
  inspect :
      ℕ
      → W.Provider
      → ℕ
      → String
      → Foreign ⊎ Option JsonError
      → Run W.Net
      → Option Reply × Run W.Net
  unfolding give obey
  inspect i provider status bytes (inl e) run = give provider status bytes run
  inspect i provider status bytes (inr none) run = give provider status bytes run
  inspect i provider status bytes (inr (some error)) run =
      obey i provider status bytes error.code (judge (some error)) run

  look : ℕ → W.Provider → ℕ → (Foreign ⊎ String) × W.Net → Run W.Net → Option Reply × Run W.Net
  unfolding inspect
  look i provider status (inl e, net) run =
      (none, emit (rpc_call_retries i chain_id) (set_net net run))
  look i provider status (inr bytes, net) run =
      inspect i provider status bytes (W.parse_response bytes) (set_net net run)

  pub check : ℕ → W.Provider → RpcResult (Response W.Stream) × Run W.Net → Option Reply × Run W.Net
  unfolding look
  check i provider (err e, run) = (
    none,
    emit (rpc_call_retries i chain_id)
        (emit (provider_connection_error chain_id (W.kind provider)) run),
  )
  check i provider (ok response, run) =
      if is_final response.status
      then look i provider response.status (W.to_bytes response.body run.net) run
      else (none, emit (rpc_call_retries i chain_id) run)

  -- A round of the loop: a reply, or `continue`.
  pub attempt : ℕ → W.Provider → Run W.Net → Option Reply × Run W.Net
  unfolding check rpc_provider_call
  attempt i provider run = check i provider (rpc_provider_call provider run)

  -- The loop over the providers, which are numbered from `i`, and what follows it.
  unfoldable pub call_providers : ℕ → List W.Provider → Run W.Net → RpcResult Reply × Run W.Net
  unfolding attempt
  call_providers i [] run = (
    err (RpcError.chain_temporarily_unavailable chain_id),
    emit (no_providers_for_chain chain_id) run,
  )
  call_providers i (provider ∷ providers) run =
      let round = attempt i provider run in
      let rest = call_providers (suc i) providers round.1 in
      elim round.0 [ none ↦ rest | some reply ↦ (ok reply, round.1) ]
