-- ===== src/Registry/Tests.antt =====
-- src/project/mod.rs on a concrete registry, which fails, with a cache that is empty.
use blockchain_api.Prelude.{
  ℕ, ◌+◌, ◌<◌, ◌≡◌, ◌↔◌, refl, inl, inr, true, false, String, none, some, arith,
}
use blockchain_api.Prelude.Text.{decimal}
use blockchain_api.Errors.{err}
use blockchain_api.Registry.{
  World, Registry, ProjectDataRequest, other, is_circuit_open, open_circuit, unavailable, look_up,
  fetch_registry, project_data_internal, build_cache_key,
}
use blockchain_api.Registry.Circuit.{open_circuit-is_circuit_open_iff, project_data_internal-opens}

-- The outside is the time; a call of the registry takes 5 ms.
abbrev pub failing : World
failing = record {
  Net = ℕ;
  Client = String;
  Cache = String;
  Features = String;
  now_ms = λ now. now;
  project_data_with = λ client request now. (inl (other "connection refused"), 5 + now);
  get = λ cache key now. (inr none, now);
  set_serialized = λ cache key bytes ttl now. now;
  serialize = λ d. inr "bytes";
  validate_access = λ d id. none;
}

abbrev pub fresh : Registry String String
fresh = record {
  client = some "https://registry";
  storage = some ("redis", 300);
  circuit_last_error_ms = 0;
  circuit_cooldown = 1000;
}

abbrev request : ProjectDataRequest
request = record { id = "p"; include_limits = true; include_features = false }

key_runs : build_cache_key request ≡ "project-data-v3/p/1"
unfolding build_cache_key decimal
key_runs = refl

closed_at_first : is_circuit_open fresh 10 ≡ false
unfolding is_circuit_open
closed_at_first = refl

project_data_internal-opens_example :
    (project_data_internal failing fresh request 10 ≡ (err unavailable, open_circuit fresh 15, 15))
    × (project_data_internal failing (open_circuit fresh 15) request 600
        ≡ (err unavailable, open_circuit fresh 15, 600))
unfolding open_circuit look_up fetch_registry
project_data_internal-opens_example =
    project_data_internal-opens failing fresh request 10 10 15 "connection refused" refl
      closed_at_first refl (omega arith) request 600 600 refl (omega arith) (omega arith)

open_circuit-is_circuit_open_iff_example :
    (is_circuit_open (open_circuit fresh 15) 600 ≡ true) ↔ (600 < 15 + 1000)
open_circuit-is_circuit_open_iff_example =
    open_circuit-is_circuit_open_iff fresh 15 600 (omega arith) (omega arith) (omega arith)
