-- ===== src/Registry.antt =====
-- src/project/mod.rs and src/project/storage/mod.rs: a project's data, from the cache or from the
-- registry behind a circuit breaker.
pub mod Circuit
pub mod Tests
use Prim.Native.String.{◌++◌}
use blockchain_api.Prelude.{
  ℕ, suc, ◌-◌, ◌+◌, ◌*◌, Bool, true, false, not, ◌&&◌, String, List, [], ◌∷◌, Option, none, some,
  ◌⊎◌, inl, inr, ltb, ◌==◌, nat_eq, if◌then◌else◌,
}
use blockchain_api.Prelude.Text.{decimal}
use blockchain_api.Errors.{Foreign, StorageError, ProjectDataError, RpcError, RpcResult, ok, err}

pub record PlanLimits : Type 0 where
  pub tier : String
  pub is_above_rpc_limit : Bool
  pub is_above_mau_limit : Bool

pub record ProjectKey : Type 0 where
  pub value : String
  pub is_valid : Bool

pub record ProjectData : Type 0 where
  pub uuid : String
  pub creator : String
  pub name : String
  pub push_url : Option String
  pub keys : List ProjectKey
  pub is_enabled : Bool
  pub is_verify_enabled : Bool
  pub is_rate_limited : Bool
  pub allowed_origins : List String
  pub verified_domains : List String
  pub bundle_ids : List String
  pub package_names : List String

pub record ProjectDataRequest : Type 0 where
  pub id : String
  pub include_limits : Bool
  pub include_features : Bool

pub record ProjectDataWithLimits : Type 0 where
  pub data' : ProjectData
  pub limits : PlanLimits

pub record ProjectDataResponse (Features : Type 0) : Type 0 where
  pub data' : ProjectData
  pub limits : Option PlanLimits
  pub features : Option Features

-- `Result<ProjectDataResponse, ProjectDataError>`.
abbrev pub ProjectDataResult : Type 0 → Type 0
ProjectDataResult Features = ProjectDataError ⊎ ProjectDataResponse Features

-- The errors of the registry's client, of which the code tells apart those of configuration.
pub data RegistryError : Type 0 where
  config other : Foreign → RegistryError

-- The registry's client, the cache behind `KeyValueStorage`, the serializer and the clock. `Net` is all
-- that they may read or change.
pub record World : Type 1 where
  pub Net : Type 0
  pub Client : Type 0
  pub Cache : Type 0
  pub Features : Type 0
  -- Milliseconds since the registry was made.
  pub now_ms : Net → ℕ
  pub project_data_with :
      Client
      → ProjectDataRequest
      → Net
      → (RegistryError ⊎ Option (ProjectDataResponse Features)) × Net
  pub get : Cache → String → Net → (StorageError ⊎ Option (ProjectDataResult Features)) × Net
  -- The write that runs on its own task, with the key, the value and the time to live.
  pub set_serialized : Cache → String → String → ℕ → Net → Net
  pub serialize : ProjectDataResult Features → StorageError ⊎ String
  -- `ProjectData::validate_access(id, None)`: the error, if there is one.
  pub validate_access : ProjectData → String → Option Foreign

pub data ResponseSource : Type 0 where
  cache registry : ResponseSource

-- `Registry`; the cache comes with its time to live. The cooldown is in milliseconds.
pub record Registry (Client Cache : Type 0) : Type 0 where
  pub client : Option Client
  pub storage : Option (Cache × ℕ)
  pub circuit_last_error_ms : ℕ
  pub circuit_cooldown : ℕ

unfoldable pub is_circuit_open : {Client Cache : Type 0} → Registry Client Cache → ℕ → Bool
is_circuit_open r now =
    not (r.circuit_cooldown == 0)
    && not (r.circuit_last_error_ms == 0)
    && ltb (now - r.circuit_last_error_ms) r.circuit_cooldown

unfoldable pub open_circuit :
    {Client Cache : Type 0} → Registry Client Cache → ℕ → Registry Client Cache
open_circuit r now = record r { circuit_last_error_ms = now }

abbrev flag : Bool → ℕ
flag true = 1
flag false = 0

unfoldable pub build_cache_key : ProjectDataRequest → String
build_cache_key request =
    "project-data-v3/"
    ++ (request.id
        ++ ("/" ++ decimal (flag request.include_limits + 2 * flag request.include_features)))

-- The answer of a server that has no registry.
abbrev pub local_project : String → ProjectData
local_project id = record {
  uuid = "";
  creator = "";
  name = "";
  push_url = none;
  keys = record { value = id; is_valid = true } ∷ [];
  is_enabled = true;
  is_verify_enabled = false;
  is_rate_limited = false;
  allowed_origins = [];
  verified_domains = [];
  bundle_ids = [];
  package_names = [];
}

abbrev pub no_limits : PlanLimits
no_limits = record { tier = ""; is_above_rpc_limit = false; is_above_mau_limit = false }

abbrev pub or_no_limits : Option PlanLimits → PlanLimits
or_no_limits none = no_limits
or_no_limits (some limits) = limits

abbrev pub unavailable : RpcError
unavailable = RpcError.project_data_error ProjectDataError.registry_temporarily_unavailable

module _ (W : World) where
  abbrev pub Reg : Type 0
  Reg = Registry W.Client W.Cache

  abbrev pub Sourced : Type 0
  Sourced = RpcResult (ResponseSource × ProjectDataResult W.Features)

  -- `ProjectStorage::fetch`, given what the cache answers: an entry that does not parse is a miss.
  abbrev pub fetched :
      StorageError ⊎ Option (ProjectDataResult W.Features)
      → StorageError ⊎ Option (ProjectDataResult W.Features)
  fetched (inl (StorageError.deserialize e)) = inr none
  fetched (inl e) = inl e
  fetched (inr d) = inr d

  -- `cache.set(request, &data)`, where there is a cache.
  set : Option (W.Cache × ℕ) → ProjectDataRequest → ProjectDataResult W.Features → W.Net → W.Net
  set none request d net = net
  set (some (c, ttl)) request d net = elim (W.serialize d) [
    | inl e ↦ net
    | inr bytes ↦ W.set_serialized c (build_cache_key request) bytes ttl net
  ]

  pub fetch_registry :
      Option W.Client
      → ProjectDataRequest
      → W.Net
      → (RegistryError ⊎ Option (ProjectDataResponse W.Features)) × W.Net
  fetch_registry (some client) request net = W.project_data_with client request net
  fetch_registry none request net = (
    inr (
        some
          (record { data' = local_project request.id; limits = some no_limits; features = none })),
    net,
  )

  -- What follows the registry's answer.
  settle :
      Reg
      → ProjectDataRequest
      → (RegistryError ⊎ Option (ProjectDataResponse W.Features)) × W.Net
      → Sourced × Reg × W.Net
  unfolding set
  settle r request (inr (some d), net) =
      (ok (registry, inr d), r, set r.storage request (inr d) net)
  settle r request (inr none, net) = (
    ok (registry, inl ProjectDataError.not_found),
    r,
    set r.storage request (inl ProjectDataError.not_found) net,
  )
  settle r request (inl (config e), net) = (
    ok (registry, inl ProjectDataError.registry_config_error),
    r,
    set r.storage request (inl ProjectDataError.registry_config_error) net,
  )
  settle r request (inl (other e), net) = (err unavailable, open_circuit r (W.now_ms net), net)

  -- After a miss.
  ask : Reg → ProjectDataRequest → W.Net → Sourced × Reg × W.Net
  unfolding settle fetch_registry
  ask r request net =
      if is_circuit_open r (W.now_ms net)
      then (err unavailable, r, net)
      else settle r request (fetch_registry r.client request net)

  consult :
      Reg
      → ProjectDataRequest
      → StorageError ⊎ Option (ProjectDataResult W.Features)
      → W.Net
      → Sourced × Reg × W.Net
  unfolding ask
  consult r request (inl e) net = (err (RpcError.storage_error e), r, net)
  consult r request (inr none) net = ask r request net
  consult r request (inr (some d)) net = (ok (cache, d), r, net)

  -- The answer of the cache; without one, it is a miss.
  pub look_up :
      Option (W.Cache × ℕ)
      → ProjectDataRequest
      → W.Net
      → (StorageError ⊎ Option (ProjectDataResult W.Features)) × W.Net
  look_up none request net = (inr none, net)
  look_up (some (c, ttl)) request net =
      let answer = W.get c (build_cache_key request) net in (fetched answer.0, answer.1)

  unfoldable pub project_data_internal : Reg → ProjectDataRequest → W.Net → Sourced × Reg × W.Net
  unfolding consult look_up
  project_data_internal r request net =
      let answer = look_up r.storage request net in consult r request answer.0 answer.1

  unfoldable pub with_limits : Sourced → RpcResult ProjectDataWithLimits
  with_limits (err e) = err e
  with_limits (ok (source, inl e)) = err (RpcError.project_data_error e)
  with_limits (ok (source, inr d)) = ok (record { data' = d.data'; limits = or_no_limits d.limits })

  unfoldable pub project_data : Reg → String → W.Net → RpcResult ProjectDataWithLimits × Reg × W.Net
  unfolding project_data_internal with_limits
  project_data r id net =
      let got =
        project_data_internal r
          (record { id = id; include_limits = true; include_features = false }) net in
      (with_limits got.0, got.1, got.2)
