-- ===== src/Project/Tests.antt =====
-- src/state.rs on a concrete registry, which answers with limits that are not used up.
use blockchain_api.Prelude.{
  ℕ, ◌≡◌, ◌↔◌, true, false, String, none, some, inr, refl, ◌==◌, string_eq, if◌then◌else◌,
}
use blockchain_api.Errors.{ok, RpcError, err}
use blockchain_api.Registry.{
  World, ProjectDataResponse, local_project, project_data, project_data_internal, is_circuit_open,
}
use blockchain_api.Registry.Tests.{fresh}
use blockchain_api.Project.{App, validate_project_access_and_quota}
use blockchain_api.Project.Access.{IsLetIn, validate_project_access_and_quota_iff}

abbrev response : ProjectDataResponse String
response = record {
  data' = local_project "p";
  limits = some (record { tier = ""; is_above_rpc_limit = false; is_above_mau_limit = true });
  features = none;
}

-- The data are valid for the project "p" only.
abbrev answering : World
answering = record {
  Net = ℕ;
  Client = String;
  Cache = String;
  Features = String;
  now_ms = λ now. now;
  project_data_with = λ client request now. (inr (some response), now);
  get = λ cache key now. (inr none, now);
  set_serialized = λ cache key bytes ttl now. now;
  serialize = λ d. inr "bytes";
  validate_access = λ d id. if id == "p" then none else some "not a key";
}

abbrev app : App String String ℕ
app = record { registry' = fresh; net = 10; rejected_projects = 0; quota_limited_projects = 0 }

other_refused :
    (validate_project_access_and_quota answering true "q" app).0
    ≡ err (RpcError.cerberus "not a key")
unfolding validate_project_access_and_quota project_data project_data_internal is_circuit_open
other_refused = refl

validate_project_access_and_quota_iff_example :
    ((validate_project_access_and_quota answering true "p" app).0 ≡ ok tt)
    ↔ IsLetIn answering "p"
        (project_data_internal answering fresh
          (record { id = "p"; include_limits = true; include_features = false })
          10).0
validate_project_access_and_quota_iff_example =
    validate_project_access_and_quota_iff answering "p" app
