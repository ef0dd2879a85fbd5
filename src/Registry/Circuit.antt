-- ===== src/Registry/Circuit.antt =====
-- src/project/mod.rs: the circuit breaker of the registry.
use blockchain_api.Prelude.{
  ℕ, ◌+◌, ◌<◌, ◌≤◌, ◌≡◌, ◌↔◌, refl, ap, ◌∙◌, ◌⊎◌, inl, inr, true, false, Option, none, arith,
  nat_eq,
}
use blockchain_api.Errors.{err, Foreign, StorageError}
use blockchain_api.Registry.{
  World, Registry, Reg, other, ProjectDataRequest, is_circuit_open, open_circuit, unavailable,
  fetch_registry, settle, ask, consult, project_data_internal, look_up, ProjectDataResult,
}

-- Once opened at a time after 0, and with a cooldown, the circuit is, at any later time, open
-- exactly until the cooldown has passed.
pub open_circuit-is_circuit_open_iff :
    {Client Cache : Type 0} (r : Registry Client Cache) (opened now : ℕ)
    → 0 < opened
    → opened ≤ now
    → 0 < r.circuit_cooldown
    → (is_circuit_open (open_circuit r opened) now ≡ true) ↔ (now < opened + r.circuit_cooldown)
unfolding is_circuit_open open_circuit
open_circuit-is_circuit_open_iff r opened now p h c = ground arith

module _ (W : World) where
  -- The request misses the cache, and goes on from this state of the outside.
  abbrev pub Misses : Reg W → ProjectDataRequest → W.Net → W.Net → Type 0
  Misses r request net net' = look_up W r.storage request net ≡ (inr none, net')

  missed-ask :
      (r : Reg W) (request : ProjectDataRequest) (net net' : W.Net)
      → Misses r request net net'
      → project_data_internal W r request net ≡ ask W r request net'
  unfolding project_data_internal consult
  missed-ask r request net net' m =
      ap
        (λ (a : (StorageError ⊎ Option (ProjectDataResult W.Features)) × W.Net).
          consult W r request a.0 a.1)
        m

  ask-failed :
      (r : Reg W) (request : ProjectDataRequest) (net after : W.Net) (e : Foreign)
      → is_circuit_open r (W.now_ms net) ≡ false
      → fetch_registry W r.client request net ≡ (inl (other e), after)
      → ask W r request net ≡ (err unavailable, open_circuit r (W.now_ms after), after)
  unfolding ask settle
  ask-failed r request net after e closed failed = rw (closed, ask) (ap (settle W r request) failed)

  ask-open :
      (r : Reg W) (request : ProjectDataRequest) (net : W.Net)
      → is_circuit_open r (W.now_ms net) ≡ true
      → ask W r request net ≡ (err unavailable, r, net)
  unfolding ask
  ask-open r request net opened = rw (opened, ask) refl

  -- When a request misses the cache with the circuit closed and the registry fails, other than by
  -- its configuration, at a time after 0, it is refused as temporarily unavailable and the circuit
  -- opens: until the cooldown has passed, a later request that misses the cache is refused the
  -- same way, with no call of the registry after the cache has answered.
  pub project_data_internal-opens :
      (r : Reg W) (request : ProjectDataRequest) (net net' after : W.Net) (e : Foreign)
      → Misses r request net net'
      → is_circuit_open r (W.now_ms net') ≡ false
      → fetch_registry W r.client request net' ≡ (inl (other e), after)
      → 0 < W.now_ms after
      → (later : ProjectDataRequest) (soon soon' : W.Net)
      → Misses (open_circuit r (W.now_ms after)) later soon soon'
      → W.now_ms after ≤ W.now_ms soon'
      → W.now_ms soon' < W.now_ms after + r.circuit_cooldown
      → (project_data_internal W r request net
          ≡ (err unavailable, open_circuit r (W.now_ms after), after))
        × (project_data_internal W (open_circuit r (W.now_ms after)) later soon
            ≡ (err unavailable, open_circuit r (W.now_ms after), soon'))
  project_data_internal-opens r request net net' after e m closed failed pos later soon soon' m' h
        k =
      let opened : Reg W = open_circuit r (W.now_ms after) in
      (
        missed-ask r request net net' m ∙ ask-failed r request net' after e closed failed,
        missed-ask opened later soon soon' m'
            ∙ ask-open opened later soon' (
                (open_circuit-is_circuit_open_iff r (W.now_ms after) (W.now_ms soon') pos h
                    (omega arith)).1
                  k),
      )
