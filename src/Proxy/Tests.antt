-- ===== src/Proxy/Tests.antt =====
-- src/handlers/proxy.rs on concrete providers: the first times out, the second is rate limited, the
-- third answers with a node error, the fourth with a result, and the fifth would too.
use blockchain_api.Prelude.{
  ℕ, suc, ◌+◌, ◌<◌, ◌≤◌, ◌≡◌, ◌⊎◌, refl, inr, true, String, List, [], ◌∷◌, length, none, some, ◌==◌,
  string_eq, if◌then◌else◌,
}
use blockchain_api.Errors.{RpcError, ok, err}
use blockchain_api.Providers.Kind.{
  generic, publicnode, dune, quicknode, pokt, allnodes, drpc, ProviderKind-discrete,
}
use blockchain_api.Providers.Messages.{
  negsuc, is_internal_error_rpc_code, is_node_error_rpc_message, is_rate_limited_error_rpc_message,
}
use blockchain_api.Prelude.Map.{get}
use blockchain_api.Project.{validate_project_access_and_quota}
use blockchain_api.Registry.{project_data, is_circuit_open, open_circuit}
use blockchain_api.Registry.Tests.{failing, fresh}
use blockchain_api.Providers.Lookup.{get_rpc_provider_by_provider_kind}
use blockchain_api.Providers.Repository.{Weights}
use blockchain_api.Providers.Selection.{get_rpc_provider_for_chain_id}
use blockchain_api.Providers.Tests.{first_index, weight}
use blockchain_api.Proxy.{
  World, Response, Answer, timed_out, answered, Run, judge, rpc_provider_call, call_providers,
}
use blockchain_api.Proxy.Call.{Returns, Settled, rpc_provider_call-Settled}
use blockchain_api.Proxy.Loop.{Found, Exhausted, call_providers-first}
use blockchain_api.Proxy.Counter.{Counter, Adds, calls, retries}
use blockchain_api.Proxy.Counts.{call_providers-counts}
use blockchain_api.Proxy.Handler.{Router, RpcQueryParams, State, handler_internal}
use blockchain_api.Proxy.Handler.Bounded.{handler_internal-seen_le}

abbrev respond : String → Answer String
respond name =
    if name == "slow"
    then timed_out "deadline has elapsed"
    else answered (ok (record { status = 200; body = name }))

-- The outside counts the requests; a provider's name is also its body.
abbrev network : World
network = record {
  Provider = String;
  Stream = String;
  Net = ℕ;
  kind = generic;
  proxy = λ name chain_id body n. (respond name, suc n);
  is_rate_limited = λ name response n. (name == "limited", response, n);
  to_bytes = λ body n. (inr body, n);
  parse_response = λ body.
      if body == "broken"
      then inr (some (record { code = negsuc 32004; message = "header not found" }))
      else inr none;
  parse_requests = λ body. inr (("1", "eth_blockNumber") ∷ []);
}

abbrev providers : List String
providers = "slow" ∷ "limited" ∷ "broken" ∷ "good" ∷ "spare" ∷ []

abbrev start : Run ℕ
start = record { net = 0; log = [] }

fourth_replies :
    ((call_providers network "eip155:1" "project" "{}" 0 providers start).0
      ≡ ok (record { status = 200; body = "good" }))
    × ((call_providers network "eip155:1" "project" "{}" 0 providers start).1.net ≡ 4)
unfolding call_providers judge is_internal_error_rpc_code is_node_error_rpc_message
    is_rate_limited_error_rpc_message
fourth_replies = (refl, refl)

call_providers-first_example :
    Found network "eip155:1" "project" "{}" 0 providers start
      (call_providers network "eip155:1" "project" "{}" 0 providers start)
    ⊎ Exhausted network "eip155:1" "project" "{}" 0 providers start
        (call_providers network "eip155:1" "project" "{}" 0 providers start)
call_providers-first_example =
    call_providers-first network "eip155:1" "project" "{}" 0 providers start

-- The outside is the number of calls.
abbrev counter : Counter network
counter = record {
  seen = λ n. n;
  proxy_seen = λ provider chain_id body n. refl;
  is_rate_limited_seen = λ provider response n. refl;
  to_bytes_seen = λ body n. refl;
}

call_providers-counts_example :
    ((f : Found network "eip155:1" "project" "{}" 0 providers start
        (call_providers network "eip155:1" "project" "{}" 0 providers start))
      × (length f.before < length providers)
      × ((call_providers network "eip155:1" "project" "{}" 0 providers start).1.net
          ≡ suc (length f.before) + start.net)
      × (calls (call_providers network "eip155:1" "project" "{}" 0 providers start).1.log
          ≡ suc (length f.before) + calls start.log)
      × (retries f.middle.log ≡ length f.before + retries start.log))
    ⊎ ((e : RpcError) × ((call_providers network "eip155:1" "project" "{}" 0 providers start).0
          ≡ err e)
        × Adds network counter
            (length providers)
            (length providers)
            start
            (call_providers network "eip155:1" "project" "{}" 0 providers start).1)
call_providers-counts_example =
    call_providers-counts network counter "eip155:1" "project" "{}" 0 providers start

rpc_provider_call-Settled_example :
    Returns
      (λ (response : Response String). Settled response.status)
      (rpc_provider_call network "eip155:1" "project" "{}" "limited" start).0
rpc_provider_call-Settled_example =
    rpc_provider_call-Settled network "eip155:1" "project" "{}" "limited" start

-- A session on Base, whose provider is slow, and then the five providers of the chain.
abbrev base : Weights
base =
    (dune, weight 1)
    ∷ (quicknode, weight 1)
    ∷ (pokt, weight 1)
    ∷ (allnodes, weight 1)
    ∷ (drpc, weight 1)
    ∷ []

abbrev router : Router network
router = record {
  Ws = String;
  Balance = String;
  repository = record {
    http = "eip155:8453" ∷ [];
    ws = [];
    rpc_providers =
        (publicnode, "slow")
        ∷ (dune, "slow")
        ∷ (quicknode, "limited")
        ∷ (pokt, "broken")
        ∷ (allnodes, "good")
        ∷ (drpc, "spare")
        ∷ [];
    rpc_weight_resolver = ("eip155:8453", base) ∷ [];
    ws_providers = [];
    ws_weight_resolver = [];
    balance_supported_namespaces = [];
    balance_providers = [];
    balance_weight_resolver = [];
  };
  sampler = first_index;
  rng = λ n. (0, n);
  projects = failing;
  validate_project_id = true;
  testing_project_id = none;
  skip_quota_chains = [];
  parse_request = λ body. none;
  serialize = λ response. inr "";
}

abbrev query : RpcQueryParams
query = record {
  chain_id = "eip155:8453";
  project_id = "project";
  provider_id = none;
  session_id = some "session";
}

abbrev first_state : State network router
first_state = record {
  run = start;
  memory = record { entries = []; cached_calls = [] };
  app = record { registry' = fresh; net = 10; rejected_projects = 0; quota_limited_projects = 0 };
}

five_calls : (handler_internal network router query "{}" first_state).1.run.net ≡ 5
unfolding handler_internal call_providers judge is_internal_error_rpc_code is_node_error_rpc_message
    is_rate_limited_error_rpc_message get get_rpc_provider_by_provider_kind
    get_rpc_provider_for_chain_id validate_project_access_and_quota project_data is_circuit_open
    open_circuit ProviderKind-discrete
five_calls = refl

handler_internal-seen_le_example :
    (handler_internal network router query "{}" first_state).1.run.net ≤ 6 + start.net
handler_internal-seen_le_example =
    handler_internal-seen_le network router counter query "{}" first_state (λ n. refl)
