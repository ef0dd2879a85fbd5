-- ===== src/Exchanges/Assets/Offers.antt =====
-- src/handlers/json_rpc/exchanges: the exchanges that are offered.
use blockchain_api.Prelude.{
  Bool, true, ◌&&◌, String, List, Option, none, some, inl, inr, ◌≡◌, refl, arith, All, All-of_map,
  All-map, All-filter, filter-All, Result-cases, inr_inj, length, string_eq, subst,
}
use blockchain_api.Caip.Assets.{Caip19Asset, parse}
use blockchain_api.Exchanges.{
  Feature, FeatureType, ExchangeType, binance, coinbase, reown_test, exchange_types, from_id,
  is_enabled, get_exchange_by_id,
}
use blockchain_api.Exchanges.Assets.{
  Readers, Exchange, GetExchangesRequest, GetExchangesResponse, is_asset_supported, to_exchange,
  offered, get_supported_exchanges, get_exchanges, select,
}

-- An exchange can be asked for by its id, and supports the asset, if there is one.
abbrev pub Supports : Readers → Option Caip19Asset → ExchangeType → Type 0
Supports readers none e = Unit
Supports readers (some asset) e = is_asset_supported e asset ≡ true

pub record IsOffer (readers : Readers) (asset : Option Caip19Asset) (t : FeatureType)
    (features : List Feature) (x : Exchange) : Type 0 where
  pub exchange : ExchangeType
  pub shown : x ≡ to_exchange exchange
  pub found : get_exchange_by_id readers.in_config x.id t features ≡ inr exchange
  pub supports : Supports readers asset exchange

found-enabled :
    (readers : Readers) (e : ExchangeType) (t : FeatureType) (features : List Feature)
    → is_enabled readers.in_config e t features ≡ true
    → get_exchange_by_id readers.in_config (to_exchange e).id t features ≡ inr e
unfolding get_exchange_by_id from_id
found-enabled readers binance t features h = rw (h, get_exchange_by_id) refl
found-enabled readers coinbase t features h = rw (h, get_exchange_by_id) refl
found-enabled readers reown_test t features h = rw (h, get_exchange_by_id) refl

module _ (readers : Readers) (asset : Option Caip19Asset) (t : FeatureType)
    (features : List Feature) where
  offered-IsOffer :
      (supports : ExchangeType → Bool)
      → ((e : ExchangeType) → supports e ≡ true → Supports readers asset e)
      → All (IsOffer readers asset t features) (offered readers t features supports)
  unfolding offered
  offered-IsOffer supports f = All-of_map (IsOffer readers asset t features) to_exchange _ (
      All-map
        (λ e h. record {
          exchange = e;
          shown = refl;
          found = found-enabled readers e t features (ground arith);
          supports = f e (ground arith);
        })
        _
        (filter-All (λ e. supports e && is_enabled readers.in_config e t features) exchange_types))

-- The asset of a request, where it is one.
abbrev pub read_asset : Readers → Option String → Option Caip19Asset
read_asset readers none = none
read_asset readers (some s) = elim (parse readers.checksum s) [ inl e ↦ none | inr a ↦ some a ]

-- A response whose exchanges are all offers, and which counts them.
abbrev pub IsOffers :
    Readers → Option Caip19Asset → FeatureType → List Feature → GetExchangesResponse → Type 0
IsOffers readers asset t features r =
    (r.total ≡ length r.exchanges) × All (IsOffer readers asset t features) r.exchanges

module _ (readers : Readers) (asset : Option Caip19Asset) (t : FeatureType)
    (features : List Feature) where
  select-IsOffers :
      (only exclude : Option (List String)) (exchanges : List Exchange) (r : GetExchangesResponse)
      → All (IsOffer readers asset t features) exchanges
      → select only exclude exchanges ≡ inr r
      → IsOffers readers asset t features r
  unfolding select
  select-IsOffers (some only) (some exclude) exchanges r h e = cc
  select-IsOffers (some only) none exchanges r h e =
      subst (IsOffers readers asset t features) (inr_inj e)
        (refl, All-filter (IsOffer readers asset t features) _ exchanges h)
  select-IsOffers none (some exclude) exchanges r h e =
      subst (IsOffers readers asset t features) (inr_inj e)
        (refl, All-filter (IsOffer readers asset t features) _ exchanges h)
  select-IsOffers none none exchanges r h e =
      subst (IsOffers readers asset t features) (inr_inj e) (refl, h)

-- When a request for exchanges gets a response, that counts the exchanges of its list, and each of
-- them is found by its id for the same feature and project, and supports the asset of the request,
-- if it names one.
pub get_exchanges-IsOffers :
    (readers : Readers) (request : GetExchangesRequest) (t : FeatureType) (features : List Feature)
    (r : GetExchangesResponse)
    → get_exchanges readers request t features ≡ inr r
    → IsOffers readers (read_asset readers request.asset) t features r
unfolding get_exchanges get_supported_exchanges
get_exchanges-IsOffers readers request t features r h = by_asset request.asset refl
  where
    by_asset :
        (asset : Option String)
        → request.asset ≡ asset
        → IsOffers readers (read_asset readers asset) t features r
    by_asset none e =
        select-IsOffers readers none t features request.include_only request.exclude _ r
          (offered-IsOffer readers none t features (λ e. true) (λ e k. tt))
          (rw (e, get_exchanges) at h)
    by_asset (some s) e = elim (Result-cases (parse readers.checksum s)) [
      | inl (x, q) ↦
          rw (q, read_asset)
            (subst (IsOffers readers none t features) (inr_inj (rw (e, q, get_exchanges) at h))
              (refl, tt))
      | inr (a, q) ↦
          rw (q, read_asset)
            (select-IsOffers readers (some a) t features request.include_only request.exclude _ r
              (offered-IsOffer readers (some a) t features (λ x. is_asset_supported x a) (λ x k. k))
              (rw (e, q, get_exchanges) at h))
    ]
