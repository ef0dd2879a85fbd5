-- ===== src/Providers/Selection/Rounds.antt =====
-- src/providers/mod.rs: the rounds of weighted sampling without replacement.
use mathlib.Core.List.{Perm}
use mathlib.Core.List.Perm
use blockchain_api.Prelude.{
  ℕ, zero, suc, ◌≤◌, ◌<◌, ◌≡◌, refl, sym, ap, ◌∙◌, String, List, [], ◌∷◌, ◌++◌, some, length,
  get_elem?, get_elem?-All, set, length-set, get_elem?-lt, inr, false, ◌==◌, nat_eq, if◌then◌else◌,
  All, arith, subst,
}
use blockchain_api.Prelude.Map.{get}
use blockchain_api.Errors.{RpcResult, ok, ◌>>=◌}
use blockchain_api.Providers.Kind.{ProviderKind, kind_eq}
use blockchain_api.Providers.Sampling.{WeightedIndex, WeightedIndexLaws}
use blockchain_api.Providers.Sampling.Live.{live, live_full, live-set_zero, live-total, length-perm}
use blockchain_api.Providers.Selection.{sample_rounds, ok_or, map_err}

suc_not_zero : (n : ℕ) → (suc n == 0) ≡ false
suc_not_zero n = ground arith

module _ {P : Type 0} (providers : List (ProviderKind × P)) where
  abbrev pub IsRegistered : ProviderKind → Type 0
  IsRegistered kind = (p : P) × (get kind providers ≡ some p)

  -- The providers registered under these kinds, in this order.
  abbrev pub Picks : List ProviderKind → List P → Type 0
  Picks [] [] = Unit
  Picks [] (p ∷ ps) = ⊥
  Picks (k ∷ ks) [] = ⊥
  Picks (k ∷ ks) (p ∷ ps) = (get k providers ≡ some p) × Picks ks ps

  pub length-Picks : (ks : List ProviderKind) (ps : List P) → Picks ks ps → length ps ≡ length ks
  length-Picks [] [] h = refl
  length-Picks [] (p ∷ ps) h = absurd h
  length-Picks (k ∷ ks) [] h = absurd h
  length-Picks (k ∷ ks) (p ∷ ps) h = ap suc (length-Picks ks ps h.1)

  -- The result of `n` rounds over the candidates: `n` different candidates, those of `ks`.
  pub record Drawn (candidates : List ProviderKind) (n : ℕ) (r : RpcResult (List P)) : Type 0 where
    pub ks : List ProviderKind
    pub others : List ProviderKind
    pub ps : List P
    pub drawn : Perm candidates (ks ++ others)
    pub count : length ks ≡ n
    pub result : r ≡ ok ps
    pub picks : Picks ks ps

  pub cons-Drawn :
      {candidates others : List ProviderKind} {n : ℕ} (k : ProviderKind) (p : P)
      {r s : RpcResult (List P)}
      → Perm candidates (k ∷ others)
      → get k providers ≡ some p
      → Drawn others n s
      → r ≡ (s >>= λ rest. ok (p ∷ rest))
      → Drawn candidates (suc n) r
  cons-Drawn k p perm at_p d e = record {
    ks = k ∷ d.ks;
    others = d.others;
    ps = p ∷ d.ps;
    drawn = Perm.trans perm (Perm.cons k d.drawn);
    count = ap suc d.count;
    result = e ∙ ap (λ t. t >>= λ rest. ok (p ∷ rest)) d.result;
    picks = (at_p, d.picks);
  }

module _ (W : WeightedIndex) (laws : WeightedIndexLaws W) {P : Type 0}
    (providers : List (ProviderKind × P)) (keys : List ProviderKind) (no_key subject : String)
    (registered : All (IsRegistered providers) keys) where
  open laws use {weights, sample_ok, update_ok}

  -- One round in which the weight of the drawn key is set to 0.
  sample_next :
      (left : ℕ) (dist : W.Dist) (rng : W.Rng) {k : ProviderKind} {p : P}
      → (left == 0) ≡ false
      → get_elem? keys (W.sample dist rng).0 ≡ some k
      → get k providers ≡ some p
      → (dist' : W.Dist) → W.update_weight dist (W.sample dist rng).0 0 ≡ inr dist'
      → sample_rounds W providers keys no_key subject (suc left) dist rng ≡ (
          sample_rounds W providers keys no_key subject left dist' (W.sample dist rng).1 >>= λ rest.
          ok (p ∷ rest))
  unfolding sample_rounds
  sample_next left dist rng nz at_k at_p dist' e =
      rw (at_k, ok_or) (rw (nz, if◌then◌else◌) (rw (e, map_err) (rw (at_p, ok_or) refl)))

  pub sample_rounds-Drawn :
      (left : ℕ) (dist : W.Dist) (rng : W.Rng)
      → length keys ≡ length (weights dist)
      → left ≤ length (live keys (weights dist))
      → Drawn providers
          (live keys (weights dist))
          left
          (sample_rounds W providers keys no_key subject left dist rng)
  unfolding sample_rounds
  sample_rounds-Drawn zero dist rng l h = record {
    ks = [];
    others = live keys (weights dist);
    ps = [];
    drawn = Perm.refl _;
    count = refl;
    result = refl;
    picks = tt;
  }
  sample_rounds-Drawn (suc zero) dist rng l h =
      let (w, at_w, pos) = sample_ok dist rng in
      let (k, at_k, perm) = live-set_zero keys (weights dist) (W.sample dist rng).0 l at_w pos in
      let (p, at_p) = get_elem?-All (IsRegistered providers) keys _ registered at_k in
      record {
        ks = k ∷ [];
        others = live keys (set (weights dist) (W.sample dist rng).0 0);
        ps = p ∷ [];
        drawn = perm;
        count = refl;
        result = rw (at_k, ok_or) (rw (at_p, ok_or) refl);
        picks = (at_p, tt);
      }
  sample_rounds-Drawn (suc (suc left)) dist rng l h =
      let i : ℕ = (W.sample dist rng).0 in
      let (w, at_w, pos) = sample_ok dist rng in
      let (k, at_k, perm) = live-set_zero keys (weights dist) i l at_w pos in
      let (p, at_p) = get_elem?-All (IsRegistered providers) keys i registered at_k in
      let more : suc left ≤ length (live keys (set (weights dist) i 0)) =
        omega (arith, length-perm perm) in
      let (dist', updated, same) =
        update_ok dist i 0 (get_elem?-lt (weights dist) i at_w)
          (live-total keys (set (weights dist) i 0) (omega arith)) in
      cons-Drawn providers k p
        (subst (λ ws. Perm (live keys (weights dist)) (k ∷ live keys ws)) (sym same) perm) at_p
        (sample_rounds-Drawn (suc left) dist' (W.sample dist rng).1
          (l ∙ sym (ap length same ∙ length-set (weights dist) i 0)) (rw same more))
        (sample_next (suc left) dist rng (suc_not_zero left) at_k at_p dist' updated)

  -- With positive weights only, every key is a candidate.
  pub sample_full-Drawn :
      (n : ℕ) (dist : W.Dist) (rng : W.Rng) (ws : List ℕ)
      → weights dist ≡ ws
      → length keys ≡ length ws
      → All (λ w. 0 < w) ws
      → n ≤ length keys
      → Drawn providers keys n (sample_rounds W providers keys no_key subject n dist rng)
  sample_full-Drawn n dist rng ws same aligned pos h =
      let candidates : live keys (weights dist) ≡ keys =
        ap (live keys) same ∙ live_full keys ws aligned pos in
      subst (λ ks. Drawn providers ks n (sample_rounds W providers keys no_key subject n dist rng))
        candidates
        (sample_rounds-Drawn n dist rng (aligned ∙ sym (ap length same)) (rw candidates h))
