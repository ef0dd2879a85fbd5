-- ===== src/Providers/Selection/Balance.antt =====
-- src/providers/mod.rs: `get_balance_provider_for_namespace`.
use mathlib.Core.List.{Nodup}
use mathlib.Core.List.Perm
use blockchain_api.Prelude.{
  ℕ, ◌-◌, ◌<◌, ◌^◌, ◌≡◌, ◌≢◌, refl, sym, ap, ◌∙◌, List, [], ◌∷◌, ◌++◌, map, some, length,
  length-map, filter, take, All, All-map, All-of_map, All-filter, filter-All, arith, min, ltb→lt,
  ◌==◌, nat_eq, inr, inl, Bool-cases,
}
use blockchain_api.Prelude.Map.{get, filter-Distinct}
use blockchain_api.Errors.{RpcResult, ok, CaipNamespaces}
use blockchain_api.Errors.Namespaces.{namespace_eq}
use blockchain_api.Providers.Kind.{ProviderKind, kind_eq}
use blockchain_api.Providers.Weight.{Weight}
use blockchain_api.Providers.Repository.{ProviderRepository, Weights, balance_shelf}
use blockchain_api.Providers.Repository.Invariant.{IsConsistent, HasProvider}
use blockchain_api.Providers.Sampling.{WeightedIndex, WeightedIndexLaws, total}
use blockchain_api.Providers.Selection.{
  kinds, preferred, no_key, choose_balance, minimal_weight_value, minimal_providers, sample_rounds,
  sample_balance, get_balance_provider_for_namespace,
}
use blockchain_api.Providers.Selection.Rounds.{Drawn, Picks, IsRegistered, sample_full-Drawn}
use blockchain_api.Providers.Selection.Rpc.{Drawn-Nodup, not_empty}

-- The providers at the minimal weight.
abbrev pub fallback : Weights → Weights
fallback = filter (λ (entry : ProviderKind × Weight). entry.1.value == minimal_weight_value)

abbrev pub weight_values : Weights → List ℕ
weight_values = map (λ (entry : ProviderKind × Weight). entry.1.value)

preferred-pos : (ws : Weights) → All (λ w. 0 < w) (weight_values (preferred ws))
unfolding minimal_weight_value
preferred-pos ws =
    All-of_map (λ w. 0 < w) _ (preferred ws)
      (All-map (λ a h. omega (arith, ltb→lt _ _ h)) (preferred ws) (filter-All _ ws))

minimal_providers-Picks :
    {P : Type 0} (providers : List (ProviderKind × P)) (ws : Weights)
    → All (HasProvider providers) ws
    → Picks providers (kinds (fallback ws)) (minimal_providers providers ws)
unfolding minimal_providers
minimal_providers-Picks providers [] h = tt
minimal_providers-Picks providers ((k, w) ∷ ws) ((p, e), h) =
    elim (Bool-cases (w.value == minimal_weight_value)) [
      | inl hit ↦ rw hit (rw (e, minimal_providers) (e, minimal_providers-Picks providers ws h))
      | inr miss ↦ rw miss (minimal_providers-Picks providers ws h)
    ]

module _ (W : WeightedIndex) (laws : WeightedIndexLaws W) {Rpc Ws Balance : Type 0}
    (r : ProviderRepository Rpc Ws Balance) where
  -- What a call gives: some preferred providers, then minimal ones while there is room.
  pub record Chosen (ws : Weights) (max_providers : ℕ) (result : RpcResult (List Balance))
      : Type 0 where
    pub high : List Balance
    pub low : List Balance
    pub drawn :
        Drawn r.balance_providers
          (kinds (preferred ws))
          (min max_providers (length (preferred ws)))
          (ok high)
    pub distinct : Nodup drawn.ks
    pub minimal : Picks r.balance_providers (kinds (fallback ws)) low
    pub chosen : result ≡ ok (high ++ take (max_providers - length high) low)

  -- The sampled providers, and how the answer is made of them.
  record Sampled (high : Weights) (max_providers : ℕ) (low : List Balance)
      (result : RpcResult (List Balance)) : Type 0 where
    ps : List Balance
    drawn : Drawn r.balance_providers (kinds high) (min max_providers (length high)) (ok ps)
    same : result ≡ ok (ps ++ take (max_providers - length ps) low)

  positive :
      (high : Weights)
      → high ≢ []
      → All (λ w. 0 < w) (weight_values high)
      → 0 < total (weight_values high)
  positive [] h p = absurd (h refl)
  positive (e ∷ es) h (p, _) = omega arith

  sample_balance-same :
      (namespace : CaipNamespaces) (max_providers : ℕ) (high : Weights) (low : List Balance)
      (rng : W.Rng) (dist : W.Dist) (ps : List Balance)
      → W.new (weight_values high) ≡ inr dist
      → sample_rounds W r.balance_providers
          (kinds high)
          (no_key namespace)
          "Balance provider"
          (min max_providers (length (weight_values high)))
          dist
          rng
        ≡ ok ps
      → sample_balance W r namespace max_providers high low rng
        ≡ ok (ps ++ take (max_providers - length ps) low)
  unfolding sample_balance
  sample_balance-same namespace max_providers high low rng dist ps made drawn =
      rw (made, sample_balance) (rw drawn refl)

  choose_balance-Sampled :
      (namespace : CaipNamespaces) (max_providers : ℕ) (high : Weights) (low : List Balance)
      (rng : W.Rng)
      → All (HasProvider r.balance_providers) high
      → All (λ w. 0 < w) (weight_values high)
      → total (weight_values high) < 2 ^ 64
      → Sampled high max_providers low (choose_balance W r namespace max_providers high low rng)
  unfolding choose_balance
  choose_balance-Sampled namespace max_providers [] low rng h pos fits = record {
    ps = [];
    drawn = record {
      ks = [];
      others = [];
      ps = [];
      drawn = Perm.nil;
      count = omega arith;
      result = refl;
      picks = tt;
    };
    same = ap (λ n. ok (take n low)) (omega arith);
  }
  choose_balance-Sampled namespace max_providers (e ∷ es) low rng h pos fits =
      let high : Weights = e ∷ es in
      let (dist, made, same) =
        laws.new_ok (weight_values high) (positive high (λ n. cc) pos) fits in
      let counted : length (weight_values high) ≡ length high = length-map _ high in
      let aligned : length (kinds high) ≡ length high = length-map _ high in
      let d =
        sample_full-Drawn W laws r.balance_providers (kinds high) (no_key namespace)
          "Balance provider" (All-of_map (IsRegistered r.balance_providers) _ high h)
          (min max_providers (length (weight_values high))) dist rng (weight_values high) same
          (aligned ∙ sym counted) pos (omega arith) in
      record {
        ps = d.ps;
        drawn = record {
          ks = d.ks;
          others = d.others;
          ps = d.ps;
          drawn = d.drawn;
          count = d.count ∙ ap (min max_providers) counted;
          result = refl;
          picks = d.picks;
        };
        same = sample_balance-same namespace max_providers high low rng dist d.ps made d.result;
      }

  -- In a consistent repository, with a sampler that behaves as documented, for a namespace whose
  -- weights above the minimal one have a total below 2^64: the call succeeds with different
  -- providers above the minimal weight, as many as the limit allows, and after them the providers
  -- at the minimal weight while there is room.
  pub get_balance_provider-Chosen :
      (namespace : CaipNamespaces) (max_providers : ℕ) (ws : Weights) (rng : W.Rng)
      → IsConsistent (balance_shelf r)
      → get namespace r.balance_weight_resolver ≡ some ws
      → total (weight_values (preferred ws)) < 2 ^ 64
      → Chosen ws max_providers (get_balance_provider_for_namespace W r namespace max_providers rng)
  unfolding get_balance_provider_for_namespace
  get_balance_provider-Chosen namespace max_providers ws rng c found fits =
      let (some', distinct, registered) = c.served namespace ws found in
      let low : List Balance = minimal_providers r.balance_providers ws in
      let s : Sampled (preferred ws) max_providers low
          (choose_balance W r namespace max_providers (preferred ws) low rng) =
        choose_balance-Sampled namespace max_providers (preferred ws) low rng
          (All-filter _ _ ws registered) (preferred-pos ws) fits in
      record {
        high = s.ps;
        low = low;
        drawn = s.drawn;
        distinct = Drawn-Nodup (preferred ws) (filter-Distinct _ ws distinct) s.drawn;
        minimal = minimal_providers-Picks r.balance_providers ws registered;
        chosen = rw (found, get_balance_provider_for_namespace) (rw (not_empty ws some') s.same);
      }
