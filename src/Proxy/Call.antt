-- ===== src/Proxy/Call.antt =====
-- src/handlers/proxy.rs: what one call to a provider gives.
use blockchain_api.Prelude.{
  ℕ, Bool, true, false, String, Option, none, some, ◌⊎◌, inl, inr, ◌≡◌, refl, ap, ◌∙◌, nat_eq,
  Bool-cases, arith,
}
use blockchain_api.Errors.{Foreign, RpcResult, ok, err}
use blockchain_api.Providers.Messages.{ℤ}
use blockchain_api.Proxy.{
  World, Run, Response, Answer, timed_out, answered, Reply, JsonError, rpc_call, status_code,
  rate_limited_call, external_http_latency, emit, set_net, analyse, Verdict, retry, accept,
  accept_and_count, judge, is_final, settle, limit, receive, rpc_provider_call, give, obey, inspect,
  look, check, attempt,
}

-- A predicate of the response, where there is one.
abbrev pub Returns : {A : Type 0} → (A → Type 0) → RpcResult A → Type 0
Returns P (ok a) = P a
Returns P (err e) = Unit

abbrev pub Settled : ℕ → Type 0
Settled status = (status ≡ 200) ⊎ (status ≡ 400) ⊎ (status ≡ 503)

abbrev is_retry : Verdict → Bool
is_retry retry = true
is_retry accept = false
is_retry accept_and_count = false

-- The body is an error that asks for another provider.
abbrev pub asks_again : Foreign ⊎ Option JsonError → Bool
asks_again (inl e) = false
asks_again (inr error) = is_retry (judge error)

-- A reply that ends the loop, given the parser of JSON-RPC responses.
pub record IsAcceptable (parse_response : String → Foreign ⊎ Option JsonError) (reply : Reply)
    : Type 0 where
  pub final : (reply.status ≡ 200) ⊎ (reply.status ≡ 400)
  pub kept : asks_again (parse_response reply.body) ≡ false

judge-none : judge none ≡ accept
unfolding judge
judge-none = refl

module _ (W : World) (chain_id project_id body : String) where
  settle-Settled :
      (provider : W.Provider) (response : Response W.Stream) (run : Run W.Net)
      → Settled (settle W chain_id project_id body provider response run).0.status
  unfolding settle
  settle-Settled provider response run = ground arith

  limit-Settled :
      (provider : W.Provider) (limited : Bool × Response W.Stream × W.Net) (run : Run W.Net)
      → Settled (limit W chain_id project_id body provider limited run).0.status
  unfolding limit
  limit-Settled provider (true, response, net) run =
      settle-Settled provider (record response { status = 503 })
        (emit (external_http_latency (W.kind provider) chain_id)
          (emit (rate_limited_call (W.kind provider) project_id) (set_net net run)))
  limit-Settled provider (false, response, net) run =
      settle-Settled provider response
        (emit (external_http_latency (W.kind provider) chain_id) (set_net net run))

  receive-Settled :
      (provider : W.Provider) (answer : Answer W.Stream × W.Net) (run : Run W.Net)
      → Returns
          (λ (response : Response W.Stream). Settled response.status)
          (receive W chain_id project_id body provider answer run).0
  unfolding receive
  receive-Settled provider (timed_out e, net) run = tt
  receive-Settled provider (answered (err e), net) run = tt
  receive-Settled provider (answered (ok response), net) run =
      limit-Settled provider (W.is_rate_limited provider response net)
        (emit (status_code (W.kind provider) response.status chain_id) run)

  -- A response that a call to a provider returns has status 200, 400 or 503.
  pub rpc_provider_call-Settled :
      (provider : W.Provider) (run : Run W.Net)
      → Returns
          (λ (response : Response W.Stream). Settled response.status)
          (rpc_provider_call W chain_id project_id body provider run).0
  unfolding rpc_provider_call
  rpc_provider_call-Settled provider run =
      receive-Settled provider (W.proxy provider chain_id body run.net) (
        analyse (W.kind provider) (W.parse_requests body)
          (emit (rpc_call chain_id (W.kind provider)) run))

  abbrev pub Gives : Option Reply → Type 0
  Gives none = Unit
  Gives (some reply) = IsAcceptable W.parse_response reply

  obey-Acceptable :
      (i : ℕ) (provider : W.Provider) (status : ℕ) (bytes : String) (code : ℤ) (v : Verdict)
      (run : Run W.Net)
      → (status ≡ 200) ⊎ (status ≡ 400)
      → (e : Option JsonError) → W.parse_response bytes ≡ inr e
      → judge e ≡ v
      → Gives (obey W chain_id project_id body i provider status bytes code v run).0
  unfolding obey give
  obey-Acceptable i provider status bytes code retry run h e p q = tt
  obey-Acceptable i provider status bytes code accept run h e p q = record {
    final = h;
    kept = ap asks_again p ∙ ap is_retry q;
  }
  obey-Acceptable i provider status bytes code accept_and_count run h e p q = record {
    final = h;
    kept = ap asks_again p ∙ ap is_retry q;
  }

  inspect-Acceptable :
      (i : ℕ) (provider : W.Provider) (status : ℕ) (bytes : String)
      (parsed : Foreign ⊎ Option JsonError) (run : Run W.Net)
      → (status ≡ 200) ⊎ (status ≡ 400)
      → W.parse_response bytes ≡ parsed
      → Gives (inspect W chain_id project_id body i provider status bytes parsed run).0
  unfolding inspect give
  inspect-Acceptable i provider status bytes (inl e) run h p = record {
    final = h;
    kept = ap asks_again p;
  }
  inspect-Acceptable i provider status bytes (inr none) run h p = record {
    final = h;
    kept = ap asks_again p ∙ ap is_retry judge-none;
  }
  inspect-Acceptable i provider status bytes (inr (some error)) run h p =
      obey-Acceptable i provider status bytes error.code (judge (some error)) run h (some error) p
        refl

  look-Acceptable :
      (i : ℕ) (provider : W.Provider) (status : ℕ) (got : (Foreign ⊎ String) × W.Net)
      (run : Run W.Net)
      → (status ≡ 200) ⊎ (status ≡ 400)
      → Gives (look W chain_id project_id body i provider status got run).0
  unfolding look
  look-Acceptable i provider status (inl e, net) run h = tt
  look-Acceptable i provider status (inr bytes, net) run h =
      inspect-Acceptable i provider status bytes _ _ h refl

  final_cases :
      (status : ℕ) → Settled status → is_final status ≡ true → (status ≡ 200) ⊎ (status ≡ 400)
  final_cases status h f = ground arith

  check-Acceptable :
      (i : ℕ) (provider : W.Provider) (called : RpcResult (Response W.Stream) × Run W.Net)
      → Returns (λ (response : Response W.Stream). Settled response.status) called.0
      → Gives (check W chain_id project_id body i provider called).0
  unfolding check
  check-Acceptable i provider (err e, run) h = tt
  check-Acceptable i provider (ok response, run) h = elim (Bool-cases (is_final response.status)) [
    | inl final ↦
        rw final
          (look-Acceptable i provider response.status _ run (final_cases response.status h final))
    | inr other ↦ rw other tt
  ]

  -- A round that gives a reply gives one with status 200 or 400 whose body is not an error that
  -- asks for another provider.
  pub attempt-Acceptable :
      (i : ℕ) (provider : W.Provider) (run : Run W.Net)
      → Gives (attempt W chain_id project_id body i provider run).0
  unfolding attempt
  attempt-Acceptable i provider run =
      check-Acceptable i provider (rpc_provider_call W chain_id project_id body provider run)
        (rpc_provider_call-Settled provider run)
