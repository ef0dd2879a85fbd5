-- ===== src/Exchanges/Enabled.antt =====
-- src/handlers/json_rpc/exchanges/mod.rs: which exchanges are found and enabled.
use mathlib.Core.List.{Mem, mem-cons_self, mem-cons_of_mem}
use blockchain_api.Prelude.{
  Bool, true, false, ◌&&◌, String, List, [], ◌∷◌, some, ◌⊎◌, inl, inr, ◌==◌, ==_iff, string_eq, ◌≡◌,
  sym, ap, subst, inr_inj, ◌∙◌, Bool-cases, Option-cases, arith,
}
use blockchain_api.Exchanges.{
  Feature, FeatureType, payments, fund_wallet, ExchangeType, binance, coinbase, reown_test,
  ExchangeError, exchange_id, exchange_types, find_exchange, from_id, feature_id, has_feature,
  find_feature, coinbase_enabled, is_enabled, get_exchange_by_id,
}

-- Coinbase is enabled for funding wallets only, and by an enabled feature of the project whose
-- configuration enables it; the others are always enabled.
abbrev pub IsEnabled : (Feature → Bool) → ExchangeType → FeatureType → List Feature → Type 0
IsEnabled in_config coinbase payments features = ⊥
IsEnabled in_config coinbase fund_wallet features =
    (f : Feature) × Mem f features
    × (f.id ≡ "fund_from_exchange")
    × (f.is_enabled ≡ true)
    × (in_config f ≡ true)
IsEnabled in_config binance t features = Unit
IsEnabled in_config reown_test t features = Unit

both : (p q : Bool) → (p && q) ≡ true → (p ≡ true) × (q ≡ true)
both p q h = ground arith

some_inj : {A : Type 0} {x y : A} → some x ≡ some y → x ≡ y
some_inj k = cc

find_feature-found :
    (t : FeatureType) (features : List Feature) (f : Feature)
    → find_feature t features ≡ some f
    → Mem f features × (f.id ≡ feature_id t) × (f.is_enabled ≡ true)
unfolding find_feature
find_feature-found t [] f h = cc
find_feature-found t (g ∷ features) f h = elim (Bool-cases (has_feature t g)) [
  | inl e ↦
      let same : g ≡ f = some_inj (rw (e, find_feature) at h) in
      let (id, enabled) = both _ _ e in
      (
        subst (λ x. Mem x (g ∷ features)) same mem-cons_self,
        subst (λ x. x.id ≡ feature_id t) same ((==_iff g.id (feature_id t)).0 id),
        subst (λ x. x.is_enabled ≡ true) same enabled,
      )
  | inr e ↦
      let (m, id, enabled) = find_feature-found t features f (rw (e, find_feature) at h) in
      (mem-cons_of_mem g m, id, enabled)
]

is_enabled-IsEnabled :
    (in_config : Feature → Bool) (e : ExchangeType) (t : FeatureType) (features : List Feature)
    → is_enabled in_config e t features ≡ true
    → IsEnabled in_config e t features
unfolding is_enabled coinbase_enabled
is_enabled-IsEnabled in_config binance t features h = tt
is_enabled-IsEnabled in_config reown_test t features h = tt
is_enabled-IsEnabled in_config coinbase payments features h = cc
is_enabled-IsEnabled in_config coinbase fund_wallet features h =
    elim (Option-cases (find_feature fund_wallet features)) [
      | inl e ↦ absurd (never (rw (e, coinbase_enabled) at h))
      | inr (f, e) ↦
          let (m, id, enabled) = find_feature-found fund_wallet features f e in
          (f, m, id, enabled, rw (e, coinbase_enabled) at h)
    ]
  where
    never : false ≡ true → ⊥
    never k = cc

find_exchange-id :
    (id : String) (es : List ExchangeType) (e : ExchangeType)
    → find_exchange id es ≡ some e
    → exchange_id e ≡ id
unfolding find_exchange
find_exchange-id id [] e h = cc
find_exchange-id id (x ∷ es) e h = elim (Bool-cases (exchange_id x == id)) [
  | inl t ↦
      sym (ap exchange_id (some_inj (rw (t, find_exchange) at h))) ∙ (==_iff (exchange_id x) id).0 t
  | inr t ↦ find_exchange-id id es e (rw (t, find_exchange) at h)
]

-- The exchange that is found has the id, and is enabled.
pub get_exchange_by_id-IsEnabled :
    (in_config : Feature → Bool) (id : String) (t : FeatureType) (features : List Feature)
    (e : ExchangeType)
    → get_exchange_by_id in_config id t features ≡ inr e
    → (exchange_id e ≡ id) × IsEnabled in_config e t features
unfolding get_exchange_by_id from_id
get_exchange_by_id-IsEnabled in_config id t features e h =
    elim (Option-cases (find_exchange id exchange_types)) [
      | inl n ↦ absurd (refused (rw (n, get_exchange_by_id) at h))
      | inr (x, f) ↦ elim (Bool-cases (is_enabled in_config x t features)) [
        | inl on ↦
            let same : x ≡ e = inr_inj (rw (f, on, get_exchange_by_id) at h) in
            (
              ap exchange_id (sym same) ∙ find_exchange-id id exchange_types x f,
              subst (λ y. IsEnabled in_config y t features) same
                  (is_enabled-IsEnabled in_config x t features on),
            )
        | inr off ↦ absurd (refused (rw (f, off, get_exchange_by_id) at h))
      ]
    ]
  where
    refused : {r : ExchangeError} → ◌≡◌ {A = ExchangeError ⊎ ExchangeType} (inl r) (inr e) → ⊥
    refused k = cc
