-- ===== src/Proxy/Counter.antt =====
-- src/handlers/proxy.rs: how many calls reach the providers in one round, and what the metrics show.
use blockchain_api.Prelude.{
  ℕ, suc, ◌+◌, Bool, true, false, String, List, [], ◌∷◌, Option, none, some, ◌⊎◌, inl, inr, ◌≡◌,
  refl, Bool-cases, arith,
}
use blockchain_api.Errors.{Foreign, RpcResult, ok, err}
use blockchain_api.Providers.Kind.{ProviderKind}
use blockchain_api.Providers.Messages.{ℤ}
use blockchain_api.Proxy.{
  World, Run, Response, Answer, timed_out, answered, Reply, JsonError, Verdict, retry, accept,
  accept_and_count, judge, is_final, settle, limit, receive, rpc_provider_call, give, obey, inspect,
  look, check, emit, set_net, emit_messages, analyse, Event, status_code, external_http_latency,
  rate_limited_call, rpc_call, rpc_call_retries,
}

-- The numbers of calls and of retries that a log of metrics shows.
abbrev pub calls : List Event → ℕ
calls [] = 0
calls (rpc_call chain_id kind ∷ log) = suc (calls log)
calls (_ ∷ log) = calls log

abbrev pub retries : List Event → ℕ
retries [] = 0
retries (rpc_call_retries i chain_id ∷ log) = suc (retries log)
retries (_ ∷ log) = retries log

-- A count of the calls that have reached the clients of the providers, kept by the outside: only
-- `provider.proxy` adds to it.
pub record Counter (W : World) : Type 0 where
  pub seen : W.Net → ℕ
  pub proxy_seen :
      (provider : W.Provider) (chain_id body : String) (net : W.Net)
      → seen (W.proxy provider chain_id body net).1 ≡ suc (seen net)
  pub is_rate_limited_seen :
      (provider : W.Provider) (response : Response W.Stream) (net : W.Net)
      → seen (W.is_rate_limited provider response net).2 ≡ seen net
  pub to_bytes_seen : (body : W.Stream) (net : W.Net) → seen (W.to_bytes body net).1 ≡ seen net

emit_messages-counts :
    {Net : Type 0} (kind : ProviderKind) (rpcs : List (String × String)) (run : Run Net)
    → ((emit_messages kind rpcs run).net ≡ run.net)
      × (calls (emit_messages kind rpcs run).log ≡ calls run.log)
      × (retries (emit_messages kind rpcs run).log ≡ retries run.log)
emit_messages-counts kind [] run = (refl, refl, refl)
emit_messages-counts kind ((id, method) ∷ rpcs) run = emit_messages-counts kind rpcs _

analyse-counts :
    {Net : Type 0} (kind : ProviderKind) (parsed : Foreign ⊎ List (String × String)) (run : Run Net)
    → ((analyse kind parsed run).net ≡ run.net)
      × (calls (analyse kind parsed run).log ≡ calls run.log)
      × (retries (analyse kind parsed run).log ≡ retries run.log)
analyse-counts kind (inl e) run = (refl, refl, refl)
analyse-counts kind (inr rpcs) run = emit_messages-counts kind rpcs run

module _ (W : World) (counter : Counter W) where
  open counter use {seen}

  -- A run that has seen `called` more calls than another, in fact and in its metrics, and shows
  -- `retried` more retries.
  abbrev pub Adds : ℕ → ℕ → Run W.Net → Run W.Net → Type 0
  Adds called retried old new =
      (seen new.net ≡ called + seen old.net)
      × (calls new.log ≡ called + calls old.log)
      × (retries new.log ≡ retried + retries old.log)

  -- No more calls, and one more retry when there is no reply.
  abbrev pub Counted : Run W.Net → Option Reply → Run W.Net → Type 0
  Counted old none new = Adds 0 1 old new
  Counted old (some r) new = Adds 0 0 old new

module _ (W : World) (counter : Counter W) (chain_id project_id body : String) where
  open counter use {seen}

  same : (run : Run W.Net) → Adds W counter 0 0 run run
  same run = (omega arith, omega arith, omega arith)

  retried_once : (run : Run W.Net) → Adds W counter 0 1 run (emit (rpc_call_retries 0 "") run)
  retried_once run = (omega arith, omega arith, omega arith)

  settle-Adds :
      (provider : W.Provider) (response : Response W.Stream) (run : Run W.Net)
      → Adds W counter 0 0 run (settle W chain_id project_id body provider response run).1
  unfolding settle
  settle-Adds provider response run = ground arith

  limit-Adds :
      (provider : W.Provider) (limited : Bool × Response W.Stream × W.Net) (run : Run W.Net)
      → Adds W counter 0 0
          (set_net limited.2 run)
          (limit W chain_id project_id body provider limited run).1
  unfolding limit
  limit-Adds provider (true, response, net) run =
      settle-Adds provider (record response { status = 503 })
        (emit (external_http_latency (W.kind provider) chain_id)
          (emit (rate_limited_call (W.kind provider) project_id) (set_net net run)))
  limit-Adds provider (false, response, net) run =
      settle-Adds provider response
        (emit (external_http_latency (W.kind provider) chain_id) (set_net net run))

  receive-Adds :
      (provider : W.Provider) (answer : Answer W.Stream × W.Net) (run : Run W.Net)
      → Adds W counter 0 0
          (set_net answer.1 run)
          (receive W chain_id project_id body provider answer run).1
  unfolding receive
  receive-Adds provider (timed_out e, net) run = same (set_net net run)
  receive-Adds provider (answered (err e), net) run = same (set_net net run)
  receive-Adds provider (answered (ok response), net) run =
      let (s, c, r) =
        limit-Adds provider (W.is_rate_limited provider response net)
          (emit (status_code (W.kind provider) response.status chain_id) run) in
      (
        omega (arith, s, counter.is_rate_limited_seen provider response net),
        omega (arith, c),
        omega (arith, r),
      )

  pub rpc_provider_call-Adds :
      (provider : W.Provider) (run : Run W.Net)
      → Adds W counter 1 0 run (rpc_provider_call W chain_id project_id body provider run).1
  unfolding rpc_provider_call
  rpc_provider_call-Adds provider run =
      let (s, c, r) = receive-Adds provider (W.proxy provider chain_id body run.net) (
        analyse (W.kind provider) (W.parse_requests body)
          (emit (rpc_call chain_id (W.kind provider)) run)) in
      let (_, c', r') =
        analyse-counts (W.kind provider) (W.parse_requests body)
          (emit (rpc_call chain_id (W.kind provider)) run) in
      let p = counter.proxy_seen provider chain_id body run.net in
      (omega (arith, s, p), omega (arith, c, c'), omega (arith, r, r'))

  obey-Counted :
      (i : ℕ) (provider : W.Provider) (status : ℕ) (bytes : String) (code : ℤ) (v : Verdict)
      (run : Run W.Net)
      → Counted W counter run
          (obey W chain_id project_id body i provider status bytes code v run).0
          (obey W chain_id project_id body i provider status bytes code v run).1
  unfolding obey give
  obey-Counted i provider status bytes code retry run = retried_once run
  obey-Counted i provider status bytes code accept run = same run
  obey-Counted i provider status bytes code accept_and_count run = same run

  inspect-Counted :
      (i : ℕ) (provider : W.Provider) (status : ℕ) (bytes : String)
      (parsed : Foreign ⊎ Option JsonError) (run : Run W.Net)
      → Counted W counter run
          (inspect W chain_id project_id body i provider status bytes parsed run).0
          (inspect W chain_id project_id body i provider status bytes parsed run).1
  unfolding inspect give
  inspect-Counted i provider status bytes (inl e) run = same run
  inspect-Counted i provider status bytes (inr none) run = same run
  inspect-Counted i provider status bytes (inr (some error)) run =
      obey-Counted i provider status bytes error.code (judge (some error)) run

  look-Counted :
      (i : ℕ) (provider : W.Provider) (status : ℕ) (got : (Foreign ⊎ String) × W.Net)
      (run : Run W.Net)
      → Counted W counter
          (set_net got.1 run)
          (look W chain_id project_id body i provider status got run).0
          (look W chain_id project_id body i provider status got run).1
  unfolding look
  look-Counted i provider status (inl e, net) run = retried_once (set_net net run)
  look-Counted i provider status (inr bytes, net) run =
      inspect-Counted i provider status bytes (W.parse_response bytes) (set_net net run)

  -- What is counted from a state of the outside that has seen as many calls.
  moved :
      (old : Run W.Net) (net : W.Net) (o : Option Reply) (new : Run W.Net)
      → seen net ≡ seen old.net
      → Counted W counter (set_net net old) o new
      → Counted W counter old o new
  moved old net none new e (s, c, r) = (omega (arith, s, e), c, r)
  moved old net (some reply) new e (s, c, r) = (omega (arith, s, e), c, r)

  pub check-Counted :
      (i : ℕ) (provider : W.Provider) (called : RpcResult (Response W.Stream) × Run W.Net)
      → Counted W counter called.1
          (check W chain_id project_id body i provider called).0
          (check W chain_id project_id body i provider called).1
  unfolding check
  check-Counted i provider (err e, run) = retried_once run
  check-Counted i provider (ok response, run) = elim (Bool-cases (is_final response.status)) [
    | inl final ↦ rw final (
        moved run _ _ _ (counter.to_bytes_seen response.body run.net)
          (look-Counted i provider response.status (W.to_bytes response.body run.net) run))
    | inr other ↦ rw other (retried_once run)
  ]
