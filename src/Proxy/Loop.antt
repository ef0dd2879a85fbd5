-- ===== src/Proxy/Loop.antt =====
-- src/handlers/proxy.rs: the loop over the providers.
use blockchain_api.Prelude.{
  ℕ, suc, ◌+◌, String, List, [], ◌∷◌, ◌++◌, length, none, some, ◌≡◌, ◌⊎◌, inl, inr, refl, ap,
  Option-cases, arith, subst,
}
use blockchain_api.Errors.{RpcError, RpcResult, ok, err}
use blockchain_api.Proxy.{World, Run, Reply, emit, no_providers_for_chain, attempt, call_providers}
use blockchain_api.Proxy.Call.{IsAcceptable, attempt-Acceptable, Gives}

module _ (W : World) (chain_id project_id body : String) where
  -- The rounds with these providers, numbered from `i`, give no reply and lead from one run to
  -- the other.
  abbrev pub Skips : ℕ → List W.Provider → Run W.Net → Run W.Net → Type 0
  Skips i [] run run' = run' ≡ run
  Skips i (provider ∷ providers) run run' =
      ((attempt W chain_id project_id body i provider run).0 ≡ none)
      × Skips (suc i) providers (attempt W chain_id project_id body i provider run).1 run'

  -- The first provider that gives a reply, after those that do not.
  pub record Found (i : ℕ) (providers : List W.Provider) (run : Run W.Net)
      (result : RpcResult Reply × Run W.Net) : Type 0 where
    pub before : List W.Provider
    pub provider : W.Provider
    pub after : List W.Provider
    pub number : ℕ
    pub numbered : number ≡ i + length before
    pub middle : Run W.Net
    pub reply : Reply
    pub split : providers ≡ before ++ (provider ∷ after)
    pub skipped : Skips i before run middle
    pub replied : (attempt W chain_id project_id body number provider middle).0 ≡ some reply
    pub acceptable : IsAcceptable W.parse_response reply
    pub returned :
        result ≡ (ok reply, (attempt W chain_id project_id body number provider middle).1)

  -- No provider gives a reply.
  pub record Exhausted (i : ℕ) (providers : List W.Provider) (run : Run W.Net)
      (result : RpcResult Reply × Run W.Net) : Type 0 where
    pub last : Run W.Net
    pub skipped : Skips i providers run last
    pub returned : result ≡ (
      err (RpcError.chain_temporarily_unavailable chain_id),
      emit (no_providers_for_chain chain_id) last,
    )

  -- The loop returns the reply of the first provider whose round gives one, which has status 200
  -- or 400 and no error that asks for another provider, after the providers before it were tried,
  -- and calls no provider after it; when there is none, it has tried all of them and the chain is
  -- reported as temporarily unavailable.
  pub call_providers-first :
      (i : ℕ) (providers : List W.Provider) (run : Run W.Net)
      → Found i providers run (call_providers W chain_id project_id body i providers run)
        ⊎ Exhausted i providers run (call_providers W chain_id project_id body i providers run)
  unfolding call_providers
  call_providers-first i [] run = inr (record { last = run; skipped = refl; returned = refl })
  call_providers-first i (provider ∷ providers) run =
      elim (Option-cases (attempt W chain_id project_id body i provider run).0) [
        | inr (reply, e) ↦ inl (record {
          before = [];
          number = i;
          numbered = omega arith;
          provider = provider;
          after = providers;
          middle = run;
          reply = reply;
          split = refl;
          skipped = refl;
          replied = e;
          acceptable =
              subst (Gives W chain_id project_id body) e
                (attempt-Acceptable W chain_id project_id body i provider run);
          returned = rw (e, call_providers) refl;
        })
        | inl e ↦
            elim (call_providers-first (suc i) providers
              (attempt W chain_id project_id body i provider run).1) [
                | inl f ↦ inl (record {
                  before = provider ∷ f.before;
                  number = f.number;
                  numbered = omega (arith, f.numbered);
                  provider = f.provider;
                  after = f.after;
                  middle = f.middle;
                  reply = f.reply;
                  split = ap (◌∷◌ provider) f.split;
                  skipped = (e, f.skipped);
                  replied = f.replied;
                  acceptable = f.acceptable;
                  returned = rw (e, call_providers) f.returned;
                })
                | inr x ↦ inr (record {
                  last = x.last;
                  skipped = (e, x.skipped);
                  returned = rw (e, call_providers) x.returned;
                })
              ]
      ]
