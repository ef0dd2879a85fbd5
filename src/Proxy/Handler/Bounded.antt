-- ===== src/Proxy/Handler/Bounded.antt =====
-- src/handlers/proxy.rs: how many calls of providers a request makes.
use blockchain_api.Prelude.{
  ℕ, suc, ◌+◌, ◌≤◌, String, List, length, Option, none, some, inl, inr, ◌≡◌, arith, Bool-cases,
  Option-cases, any, ◌==◌, string_eq,
}
use blockchain_api.Errors.{RpcResult, ok, err}
use blockchain_api.Cache.{JsonRpcResult, is_cached_response}
use blockchain_api.Project
use blockchain_api.Project.{Admission, validate_project_access, validate_project_access_and_quota}
use blockchain_api.Providers.Kind.{ProviderKind}
use blockchain_api.Providers.Lookup.{
  get_rpc_provider_by_provider_kind, get_rpc_provider_by_provider_id,
}
use blockchain_api.Providers.Selection.Limit.{IsShort, get_rpc_provider-AtMost}
use blockchain_api.Proxy.{World, Run, Response, set_net, rpc_provider_call, call_providers}
use blockchain_api.Proxy.Counter.{Counter, rpc_provider_call-Adds}
use blockchain_api.Proxy.Counts.{call_providers-counts}
use blockchain_api.Proxy.Handler.{
  Router, State, Served, RpcQueryParams, is_server_error, session_provider_kind, serve, exact,
  choose, after_session, by_session, route, recall, rpc_call, admitted, handler_internal,
}

module _ (W : World) (router : Router W) (counter : Counter W) where
  -- Random numbers are drawn without calls of providers.
  abbrev pub IsQuiet : Type 0
  IsQuiet = (net : W.Net) → counter.seen (router.rng net).1 ≡ counter.seen net

module _ (W : World) (router : Router W) (counter : Counter W) (params : RpcQueryParams)
    (body : String) where
  open counter use {seen}

  -- A state that has seen at most so many more calls than another state of the outside.
  abbrev Within : ℕ → W.Net → RpcResult (Served W.Stream) × State W router → Type 0
  Within n before result = seen result.1.run.net ≤ n + seen before

  loop-Within :
      (providers : List W.Provider) (run : Run W.Net)
      → seen (call_providers W params.chain_id params.project_id body 0 providers run).1.net
        ≤ length providers + seen run.net
  loop-Within providers run =
      elim (call_providers-counts W counter params.chain_id params.project_id body 0 providers
        run) [
          | inl (f, lt, s, c, r) ↦ omega (arith, lt, s)
          | inr (e, q, (s, c, r)) ↦ omega (arith, s)
        ]

  serve-Within :
      (n : ℕ) (chosen : RpcResult (List W.Provider)) (s : State W router)
      → IsShort n chosen
      → Within n s.run.net (serve W router params body chosen s)
  unfolding serve
  serve-Within n (err e) s h = omega arith
  serve-Within n (ok providers) s h = omega (arith, loop-Within providers s.run, h)

  exact-IsShort :
      (provider_id : String) (found : Option W.Provider) (testing : Option String)
      → IsShort 5 (exact W router params body provider_id found testing)
  unfolding exact
  exact-IsShort provider_id none testing = tt
  exact-IsShort provider_id (some provider) none = tt
  exact-IsShort provider_id (some provider) (some testing) =
      elim (Bool-cases (testing == params.project_id)) [
        | inl e ↦ rw e (omega arith)
        | inr e ↦ rw e tt
      ]

  choose-Within :
      (provider_id : Option String) (s : State W router)
      → IsQuiet W router counter
      → Within 5 s.run.net (choose W router params body provider_id s)
  unfolding choose
  choose-Within (some provider_id) s quiet = serve-Within 5 _ s (
      exact-IsShort provider_id (get_rpc_provider_by_provider_id router.repository provider_id)
        router.testing_project_id)
  choose-Within none s quiet =
      let (rng, net) = router.rng s.run.net in
      let h =
        serve-Within 5 _ (record s { run = set_net net s.run })
          (get_rpc_provider-AtMost router.sampler router.repository params.chain_id 5 rng).short in
      omega (arith, h, quiet s.run.net)

  after_session-Within :
      (called : RpcResult (Response W.Stream) × Run W.Net) (s : State W router) (net : W.Net)
      → IsQuiet W router counter
      → seen called.1.net ≡ suc (seen net)
      → Within 6 net (after_session W router params body called s)
  unfolding after_session
  after_session-Within (err e, after) s net quiet h =
      omega (arith, h, choose-Within params.provider_id (record s { run = after }) quiet)
  after_session-Within (ok response, after) s net quiet h =
      elim (Bool-cases (is_server_error response.status)) [
        | inl e ↦
            rw e
              (omega (arith, h, choose-Within params.provider_id (record s { run = after }) quiet))
        | inr e ↦ rw e (omega (arith, h))
      ]

  by_session-Within :
      (kind : ProviderKind) (found : Option W.Provider) (s : State W router)
      → IsQuiet W router counter
      → Within 6 s.run.net (by_session W router params body kind found s)
  unfolding by_session
  by_session-Within kind none s quiet = omega arith
  by_session-Within kind (some provider) s quiet =
      after_session-Within
        (rpc_provider_call W params.chain_id params.project_id body provider s.run) s s.run.net
        quiet
        (omega (
          arith,
          (rpc_provider_call-Adds W counter params.chain_id params.project_id body provider
              s.run).0,
        ))

  route-Within :
      (session_id : Option String) (kind : Option ProviderKind) (s : State W router)
      → IsQuiet W router counter
      → Within 6 s.run.net (route W router params body session_id kind s)
  unfolding route
  route-Within none kind s quiet = omega (arith, choose-Within params.provider_id s quiet)
  route-Within (some session_id) none s quiet =
      omega (arith, choose-Within params.provider_id s quiet)
  route-Within (some session_id) (some kind) s quiet =
      by_session-Within kind (get_rpc_provider_by_provider_kind router.repository kind) s quiet

  recall-Within :
      (remembered : Option JsonRpcResult) (s : State W router)
      → IsQuiet W router counter
      → Within 6 s.run.net (recall W router params body remembered s)
  unfolding recall
  recall-Within none s quiet =
      route-Within params.session_id (session_provider_kind params.chain_id) s quiet
  recall-Within (some response) s quiet = omega arith

  rpc_call-Within :
      (s : State W router)
      → IsQuiet W router counter
      → Within 6 s.run.net (rpc_call W router params body s)
  unfolding rpc_call
  rpc_call-Within s quiet = elim (Option-cases (router.parse_request body)) [
    | inl e ↦ rw (e, rpc_call) (recall-Within none s quiet)
    | inr (request, e) ↦
        let remembered = is_cached_response params.chain_id request s.memory in
        rw (e, rpc_call) (recall-Within remembered.0 (record s { memory = remembered.1 }) quiet)
  ]

  admitted-Within :
      (answer : Admission × Project.State router.projects) (s : State W router)
      → IsQuiet W router counter
      → Within 6 s.run.net (admitted W router params body answer s)
  unfolding admitted
  admitted-Within (err e, app) s quiet = omega arith
  admitted-Within (ok _, app) s quiet = rpc_call-Within (record s { app = app }) quiet

  -- With a count of the calls that reach the providers, to which drawing random numbers adds
  -- nothing: whatever the request, the checks of its project, the cached responses, the session, the
  -- repository, its sampler and the providers, the request calls providers at most six times.
  pub handler_internal-seen_le :
      (s : State W router)
      → IsQuiet W router counter
      → seen (handler_internal W router params body s).1.run.net ≤ 6 + seen s.run.net
  unfolding handler_internal
  handler_internal-seen_le s quiet =
      elim (Bool-cases (any (λ c. c == params.chain_id) router.skip_quota_chains)) [
        | inl e ↦ rw e (
            admitted-Within
              (validate_project_access router.projects router.validate_project_id params.project_id
                s.app)
              s quiet)
        | inr e ↦ rw e (
            admitted-Within
              (validate_project_access_and_quota router.projects router.validate_project_id
                params.project_id s.app)
              s quiet)
      ]
