-- ===== src/Proxy/Counts.antt =====
-- src/handlers/proxy.rs: how many calls reach the providers in the loop, and what the metrics show.
use blockchain_api.Prelude.{
  ℕ, suc, ◌+◌, String, List, [], ◌∷◌, length, length-append, ◌<◌, Option, none, some, ◌⊎◌, inl, inr,
  ◌≡◌, ap, ◌∙◌, arith,
}
use blockchain_api.Errors.{RpcError, RpcResult, err}
use blockchain_api.Proxy.{World, Run, Reply, rpc_provider_call, attempt, call_providers}
use blockchain_api.Proxy.Loop.{Skips, Found, call_providers-first}
use blockchain_api.Proxy.Counter.{
  calls, retries, Counter, Adds, Counted, check-Counted, rpc_provider_call-Adds,
}

module _ (W : World) (counter : Counter W) (chain_id project_id body : String) where
  open counter use {seen}

  recounted :
      (old old' new : Run W.Net) (o : Option Reply)
      → Adds W counter 1 0 old old'
      → Counted W counter old' o new
      → (seen new.net ≡ suc (seen old.net))
        × (calls new.log ≡ suc (calls old.log))
        × ((o ≡ none) → retries new.log ≡ suc (retries old.log))
  recounted old old' new none (s, c, r) (s', c', r') =
      (omega (arith, s, s'), omega (arith, c, c'), λ _. omega (arith, r, r'))
  recounted old old' new (some reply) (s, c, r) (s', c', r') =
      (omega (arith, s, s'), omega (arith, c, c'), λ n. cc)

  attempt-counts :
      (i : ℕ) (provider : W.Provider) (run : Run W.Net)
      → (seen (attempt W chain_id project_id body i provider run).1.net ≡ suc (seen run.net))
        × (calls (attempt W chain_id project_id body i provider run).1.log ≡ suc (calls run.log))
        × ((attempt W chain_id project_id body i provider run).0 ≡ none
            → retries (attempt W chain_id project_id body i provider run).1.log
              ≡ suc (retries run.log))
  unfolding attempt
  attempt-counts i provider run =
      recounted run (rpc_provider_call W chain_id project_id body provider run).1
        (attempt W chain_id project_id body i provider run).1
        (attempt W chain_id project_id body i provider run).0
        (rpc_provider_call-Adds W counter chain_id project_id body provider run)
        (check-Counted W counter chain_id project_id body i provider
          (rpc_provider_call W chain_id project_id body provider run))

  -- Rounds that give no reply have one call and one retry each.
  Skips-Adds :
      (i : ℕ) (providers : List W.Provider) (run run' : Run W.Net)
      → Skips W chain_id project_id body i providers run run'
      → Adds W counter (length providers) (length providers) run run'
  Skips-Adds i [] run run' h = (
    omega (arith, ap (λ (r : Run W.Net). seen r.net) h),
    omega (arith, ap (λ (r : Run W.Net). calls r.log) h),
    omega (arith, ap (λ (r : Run W.Net). retries r.log) h),
  )
  Skips-Adds i (provider ∷ providers) run run' (e, h) =
      let (s, c, r) = Skips-Adds (suc i) providers _ run' h in
      let (s', c', r') = attempt-counts i provider run in
      let r'' = r' e in (omega (arith, s, s'), omega (arith, c, c'), omega (arith, r, r''))

  -- With a count of the calls that reach the providers: when the loop returns the reply of the
  -- provider at place n, it has called providers n + 1 times, its metrics show as many calls, and
  -- they show n retries before the last call; when no provider gives a reply, it has made as many
  -- calls as there are providers, its metrics show as many calls and retries, and it ends in an
  -- error.
  pub call_providers-counts :
      (i : ℕ) (providers : List W.Provider) (run : Run W.Net)
      → ((f : Found W chain_id project_id body i providers run
            (call_providers W chain_id project_id body i providers run))
          × (length f.before < length providers)
          × (seen (call_providers W chain_id project_id body i providers run).1.net
              ≡ suc (length f.before) + seen run.net)
          × (calls (call_providers W chain_id project_id body i providers run).1.log
              ≡ suc (length f.before) + calls run.log)
          × (retries f.middle.log ≡ length f.before + retries run.log))
        ⊎ ((e : RpcError) × ((call_providers W chain_id project_id body i providers run).0 ≡ err e)
            × Adds W counter
                (length providers)
                (length providers)
                run
                (call_providers W chain_id project_id body i providers run).1)
  call_providers-counts i providers run =
      elim (call_providers-first W chain_id project_id body i providers run) [
        | inl f ↦
            let (s, c, r) = Skips-Adds i f.before run f.middle f.skipped in
            let (s', c', _) = attempt-counts f.number f.provider f.middle in
            inl (
              f,
              omega (arith, ap length f.split, length-append f.before (f.provider ∷ f.after)),
              omega
                  (arith, ap (λ (x : RpcResult Reply × Run W.Net). seen x.1.net) f.returned, s, s'),
              omega (
                arith,
                ap (λ (x : RpcResult Reply × Run W.Net). calls x.1.log) f.returned,
                c,
                c',
              ),
              r,
            )
        | inr x ↦
            let (s, c, r) = Skips-Adds i providers run x.last x.skipped in
            inr (
              RpcError.chain_temporarily_unavailable chain_id,
              ap (λ (y : RpcResult Reply × Run W.Net). y.0) x.returned,
              (
                ap (λ (y : RpcResult Reply × Run W.Net). seen y.1.net) x.returned ∙ s,
                ap (λ (y : RpcResult Reply × Run W.Net). calls y.1.log) x.returned ∙ c,
                ap (λ (y : RpcResult Reply × Run W.Net). retries y.1.log) x.returned ∙ r,
              ),
            )
      ]
