-- ===== src/Proxy/Handler.antt =====
-- src/handlers/proxy.rs: `handler_internal` and the whole of `rpc_call`: the cached responses, the
-- providers of sessions, the exact provider of the testing project, and the choice of providers.
pub mod Bounded
use blockchain_api.Prelude.{
  ℕ, Bool, false, ◌&&◌, not, String, List, [], ◌∷◌, Option, none, some, ◌⊎◌, inl, inr, any, leb,
  ltb, ◌==◌, string_eq, if◌then◌else◌,
}
use Prim.Native.String.{◌++◌}
use blockchain_api.Errors.{Foreign, RpcError, RpcResult, ok, err}
use blockchain_api.Cache.{JsonRpcRequest, JsonRpcResult, Memory, is_cached_response}
use blockchain_api.Providers.Kind.{ProviderKind, display}
use blockchain_api.Providers.Lookup.{
  get_rpc_provider_by_provider_kind, get_rpc_provider_by_provider_id,
}
use blockchain_api.Providers.Repository.{ProviderRepository}
use blockchain_api.Providers.Sampling.{WeightedIndex}
use blockchain_api.Providers.Selection.{get_rpc_provider_for_chain_id}
use blockchain_api.Project
use blockchain_api.Project.{Admission, validate_project_access, validate_project_access_and_quota}
use blockchain_api.Registry
use blockchain_api.Proxy.{World, Run, Response, Reply, rpc_provider_call, call_providers, set_net}

abbrev provider_proxy_max_calls : ℕ
provider_proxy_max_calls = 5

-- The parameters of the query that `rpc_call` reads.
pub record RpcQueryParams : Type 0 where
  pub chain_id : String
  pub project_id : String
  pub provider_id : Option String
  pub session_id : Option String

-- The repository with its sampler, the registry of projects, the configuration, and what reads and
-- prints JSON.
pub record Router (W : World) : Type 1 where
  pub Ws : Type 0
  pub Balance : Type 0
  pub repository : ProviderRepository W.Provider Ws Balance
  pub sampler : WeightedIndex
  -- The thread's generator of random numbers, and the outside once it has been used.
  pub rng : W.Net → sampler.Rng × W.Net
  pub projects : Registry.World
  pub validate_project_id : Bool
  pub testing_project_id : Option String
  pub skip_quota_chains : List String
  pub parse_request : String → Option JsonRpcRequest
  pub serialize : JsonRpcResult → Foreign ⊎ String

-- The state of a request: the run, the memory of cached responses, and what the checks of projects
-- keep, with an outside of their own.
pub record State (W : World) (router : Router W) : Type 0 where
  pub run : Run W.Net
  pub memory : Memory
  pub app : Project.State router.projects

-- What the client gets: a cached response, a response of a session's provider, or a reply of the
-- loop.
pub data Served (Stream : Type 0) : Type 0 where
  cached : String → Served Stream
  passed : Response Stream → Served Stream
  replied : Reply → Served Stream

-- The providers of sessions: Optimism, Base and Arbitrum One.
abbrev pub session_provider_kind : String → Option ProviderKind
session_provider_kind chain_id =
    if chain_id == "eip155:10"
    then some ProviderKind.quicknode
    else if chain_id == "eip155:8453"
    then some ProviderKind.publicnode
    else if chain_id == "eip155:42161"
    then some ProviderKind.publicnode
    else none

abbrev pub is_server_error : ℕ → Bool
is_server_error status = leb 500 status && ltb status 600

module _ (W : World) (router : Router W) (params : RpcQueryParams) (body : String) where
  -- The loop over the providers that were chosen.
  serve :
      RpcResult (List W.Provider) → State W router → RpcResult (Served W.Stream) × State W router
  serve (err e) s = (err e, s)
  serve (ok providers) s =
      let called = call_providers W params.chain_id params.project_id body 0 providers s.run in
      (elim called.0 [ err e ↦ err e | ok reply ↦ ok (replied reply) ], record s { run = called.1 })

  -- The exact provider of a request, for the testing project only: `constant_time_eq` compares the
  -- bytes.
  exact : String → Option W.Provider → Option String → RpcResult (List W.Provider)
  exact provider_id none testing = err (RpcError.unsupported_provider provider_id)
  exact provider_id (some provider) (some testing) =
      if testing == params.project_id
      then ok (provider ∷ [])
      else err (
          RpcError.invalid_parameter (
            "The project ID "
            ++ (params.project_id ++ " is not allowed to use the exact provider request")))
  exact provider_id (some provider) none = err (
      RpcError.invalid_parameter
        "RPC_PROXY_TESTING_PROJECT_ID should be configured for this type of request")

  choose : Option String → State W router → RpcResult (Served W.Stream) × State W router
  unfolding serve exact
  choose (some provider_id) s =
      serve
        (exact provider_id (get_rpc_provider_by_provider_id router.repository provider_id)
          router.testing_project_id)
        s
  choose none s =
      let (rng, net) = router.rng s.run.net in
      serve
        (get_rpc_provider_for_chain_id router.sampler router.repository params.chain_id
          provider_proxy_max_calls rng)
        (record s { run = set_net net s.run })

  -- With the response of the provider of the session.
  after_session :
      RpcResult (Response W.Stream) × Run W.Net
      → State W router
      → RpcResult (Served W.Stream) × State W router
  unfolding choose
  after_session (ok response, run) s =
      let next = choose params.provider_id (record s { run = run }) in
      if not (is_server_error response.status)
      then (ok (passed response), record s { run = run })
      else next
  after_session (err e, run) s = choose params.provider_id (record s { run = run })

  by_session :
      ProviderKind
      → Option W.Provider
      → State W router
      → RpcResult (Served W.Stream) × State W router
  unfolding after_session
  by_session kind none s = (err (RpcError.unsupported_provider (display kind)), s)
  by_session kind (some provider) s =
      after_session (rpc_provider_call W params.chain_id params.project_id body provider s.run) s

  -- The providers of sessions come first, if the query has a session.
  route :
      Option String
      → Option ProviderKind
      → State W router
      → RpcResult (Served W.Stream) × State W router
  unfolding by_session choose
  route (some session_id) (some kind) s =
      by_session kind (get_rpc_provider_by_provider_kind router.repository kind) s
  route (some session_id) none s = choose params.provider_id s
  route none kind s = choose params.provider_id s

  -- With what the memory answers.
  recall : Option JsonRpcResult → State W router → RpcResult (Served W.Stream) × State W router
  unfolding route
  recall none s = route params.session_id (session_provider_kind params.chain_id) s
  recall (some response) s = (
    elim (router.serialize response) [
      | inl e ↦ err (RpcError.serde_json e)
      | inr text' ↦ ok (cached text')
    ],
    s,
  )

  unfoldable pub rpc_call : State W router → RpcResult (Served W.Stream) × State W router
  unfolding recall
  rpc_call s = elim (router.parse_request body) [
    | none ↦ recall none s
    | some request ↦
        let remembered = is_cached_response params.chain_id request s.memory in
        recall remembered.0 (record s { memory = remembered.1 })
  ]

  admitted :
      Admission × Project.State router.projects
      → State W router
      → RpcResult (Served W.Stream) × State W router
  unfolding rpc_call
  admitted (err e, app) s = (err e, record s { app = app })
  admitted (ok _, app) s = rpc_call (record s { app = app })

  unfoldable pub handler_internal : State W router → RpcResult (Served W.Stream) × State W router
  unfolding admitted
  handler_internal s =
      if any (λ c. c == params.chain_id) router.skip_quota_chains
      then admitted
          (validate_project_access router.projects router.validate_project_id params.project_id
            s.app)
          s
      else admitted
          (validate_project_access_and_quota router.projects router.validate_project_id
            params.project_id s.app)
          s
