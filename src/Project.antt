-- ===== src/Project.antt =====
-- src/state.rs: the checks of a project, which stand on its data in the registry.
pub mod Access
mod Quota
pub mod Tests
use blockchain_api.Prelude.{
  ℕ, suc, Bool, true, false, not, String, Option, none, some, if◌then◌else◌,
}
use blockchain_api.Errors.{ProjectDataError, RpcError, RpcResult, ok, err}
use blockchain_api.Registry.{World, Registry, ProjectDataWithLimits, project_data}

-- What the checks of a project keep: the registry, the outside, and two metrics.
pub record App (Client Cache Net : Type 0) : Type 0 where
  pub registry' : Registry Client Cache
  pub net : Net
  pub rejected_projects : ℕ
  pub quota_limited_projects : ℕ

-- `Result<(), RpcError>`.
abbrev pub Admission : Type 0
Admission = RpcResult Unit

module _ (W : World) where
  abbrev pub State : Type 0
  State = App W.Client W.Cache W.Net

  rejected : State → State
  rejected app = record app { rejected_projects = suc app.rejected_projects }

  validated :
      String → RpcResult ProjectDataWithLimits → State → RpcResult ProjectDataWithLimits × State
  unfolding rejected
  validated id (err e) app = (err e, rejected app)
  validated id (ok project) app = elim (W.validate_access project.data' id) [
    | none ↦ (ok project, app)
    | some e ↦ (err (RpcError.cerberus e), rejected app)
  ]

  pub get_project_data_validated : String → State → RpcResult ProjectDataWithLimits × State
  unfolding validated
  get_project_data_validated id app =
      let got = project_data W app.registry' id app.net in
      validated id got.0 (record app { registry' = got.1; net = got.2 })

  pub validate_project_quota : ProjectDataWithLimits → Admission
  validate_project_quota project =
      if not project.limits.is_above_rpc_limit then ok tt else err RpcError.quota_limit_reached

  -- The match on the result of `get_project_data_validated`.
  admit : RpcResult ProjectDataWithLimits → Admission
  admit (ok project) = ok tt
  admit (err (RpcError.project_data_error ProjectDataError.registry_temporarily_unavailable)) =
      ok tt
  admit (err e) = err e

  -- The same with the quota, and its metric.
  pub admit_quota : RpcResult ProjectDataWithLimits → State → Admission × State
  unfolding validate_project_quota
  admit_quota (ok project) app = elim (validate_project_quota project) [
    | ok _ ↦ (ok tt, app)
    | err e ↦ (err e, record app { quota_limited_projects = suc app.quota_limited_projects })
  ]
  admit_quota (err (RpcError.project_data_error ProjectDataError.registry_temporarily_unavailable))
        app =
      (ok tt, app)
  admit_quota (err e) app = (err e, app)

  -- The first argument is `config.server.validate_project_id`.
  unfoldable pub validate_project_access : Bool → String → State → Admission × State
  unfolding get_project_data_validated admit
  validate_project_access false id app = (ok tt, app)
  validate_project_access true id app =
      let got = get_project_data_validated id app in (admit got.0, got.1)

  unfoldable pub validate_project_access_and_quota : Bool → String → State → Admission × State
  unfolding get_project_data_validated admit_quota
  validate_project_access_and_quota false id app = (ok tt, app)
  validate_project_access_and_quota true id app =
      let got = get_project_data_validated id app in admit_quota got.0 got.1
