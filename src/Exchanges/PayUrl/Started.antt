-- ===== src/Exchanges/PayUrl/Started.antt =====
-- src/handlers/json_rpc/exchanges/get_exchange_url.rs: what a reply with an address tells.
use blockchain_api.Prelude.{
  ℕ, true, false, String, List, Option, none, some, ◌⊎◌, inl, inr, ◌≡◌, refl, ap, sym, Bool-cases,
  ==_iff, ◌==◌, string_eq,
}
use blockchain_api.Errors.{CaipNamespaces, CryptoUtilsError}
use blockchain_api.Caip.Assets.{Caip19Asset, parse}
use blockchain_api.Caip.Accounts.{disassemble_caip10, namespace_text}
use blockchain_api.Exchanges.{
  Feature, FeatureType, ExchangeType, ExchangeError, exchange_id, from_id, get_exchange_by_id,
}
use blockchain_api.Exchanges.Assets.{is_asset_supported}
use blockchain_api.Exchanges.Enabled.{IsEnabled, get_exchange_by_id-IsEnabled}
use blockchain_api.Exchanges.Ledger.{TxStatus}
use blockchain_api.Exchanges.Ledger.Refinement.{view}
use blockchain_api.Exchanges.Transactions.{World, Run, Outcome}
use blockchain_api.Exchanges.Transactions.Created.{create-pending}
use blockchain_api.Exchanges.Transactions.Reliable.{is_stored}
use blockchain_api.Exchanges.PayUrl.{
  Clients, GeneratePayUrlRequest, GeneratePayUrlResponse, GetExchangeUrlError, UrlReply, created,
  with_url, buy, with_recipient, with_asset, with_exchange, generate_pay_url,
}

module _ (W : World) (clients : Clients W.Net) (project_id : String)
    (request : GeneratePayUrlRequest) where
  -- The session of a reply is pending in the table, or transactions of the exchange are not stored.
  abbrev pub IsRecorded : String → Run W.Net → Type 0
  IsRecorded session_id run =
      (is_stored (from_id request.exchange_id) ≡ false)
      ⊎ (view run.ledger session_id ≡ some TxStatus.pending)

  pub record IsStarted (features : List Feature) (t : FeatureType) (session_id : String)
      (run : Run W.Net) : Type 0 where
    pub exchange : ExchangeType
    pub named : exchange_id exchange ≡ request.exchange_id
    pub enabled : IsEnabled clients.readers.in_config exchange t features
    pub asset : Caip19Asset
    pub parsed : parse clients.readers.checksum request.asset ≡ inr asset
    pub supported : is_asset_supported exchange asset ≡ true
    pub namespace : CaipNamespaces
    pub address : String
    pub taken :
        disassemble_caip10 clients.codecs request.recipient
        ≡ inr (namespace, asset.chain_id.reference, address)
    pub same_namespace : namespace_text namespace ≡ asset.chain_id.namespace
    pub recorded : IsRecorded session_id run

  abbrev Gives : GeneratePayUrlResponse → UrlReply × Run W.Net → Type 0
  Gives r result = result.0 ≡ inr r

  refused :
      (e : GetExchangeUrlError) (r : GeneratePayUrlResponse)
      → ◌≡◌ {A = UrlReply} (inl e) (inr r)
      → ⊥
  refused e r p = cc

  created-recorded :
      (url session_id : String) (result : Outcome × Run W.Net) (r : GeneratePayUrlResponse)
      → Gives r (created W clients url session_id result)
      → (result.0 ≡ none)
        × (session_id ≡ r.session_id)
        × ((created W clients url session_id result).1 ≡ result.1)
  unfolding created
  created-recorded url session_id (none, run) r h = (refl, cc, refl)
  created-recorded url session_id (some e, run) r h = cc

  with_url-recorded :
      (address : String) (amount : ℕ) (session_id : String) (answer : ExchangeError ⊎ String)
      (run : Run W.Net) (r : GeneratePayUrlResponse)
      → Gives r (with_url W clients project_id request address amount session_id answer run)
      → IsRecorded r.session_id
          (with_url W clients project_id request address amount session_id answer run).1
  unfolding with_url
  with_url-recorded address amount session_id (inl e) run r h = absurd (refused _ r h)
  with_url-recorded address amount session_id (inr url) run r h =
      let done = created-recorded url session_id _ r h in
      elim (Bool-cases (is_stored (from_id request.exchange_id))) [
        | inr off ↦ inl off
        | inl on ↦ inr (rw (done.2, sym done.1) (create-pending W _ run on done.0))
      ]

  buy-recorded :
      (exchange : ExchangeType) (asset : Caip19Asset) (address : String) (amount : Option ℕ)
      (run : Run W.Net) (r : GeneratePayUrlResponse)
      → Gives r (buy W clients project_id request exchange asset address amount run)
      → IsRecorded r.session_id
          (buy W clients project_id request exchange asset address amount run).1
  unfolding buy
  buy-recorded exchange asset address none run r h = absurd (refused _ r h)
  buy-recorded exchange asset address (some amount) run r h =
      with_url-recorded address amount _ _ _ r h

  -- What the checks of the recipient and the asset have found.
  record IsChecked (exchange : ExchangeType) (asset : Caip19Asset)
      (taken : CryptoUtilsError ⊎ (CaipNamespaces × String × String)) (session_id : String)
      (run : Run W.Net) : Type 0 where
    namespace : CaipNamespaces
    address : String
    apart : taken ≡ inr (namespace, asset.chain_id.reference, address)
    same_namespace : namespace_text namespace ≡ asset.chain_id.namespace
    supported : is_asset_supported exchange asset ≡ true
    recorded : IsRecorded session_id run

  with_recipient-IsChecked :
      (exchange : ExchangeType) (asset : Caip19Asset)
      (taken : CryptoUtilsError ⊎ (CaipNamespaces × String × String)) (run : Run W.Net)
      (r : GeneratePayUrlResponse)
      → Gives r (with_recipient W clients project_id request exchange asset taken run)
      → IsChecked exchange asset taken r.session_id
          (with_recipient W clients project_id request exchange asset taken run).1
  unfolding with_recipient
  with_recipient-IsChecked exchange asset (inl e) run r h = absurd (refused _ r h)
  with_recipient-IsChecked exchange asset (inr (namespace, chain_id, address)) run r h =
      elim (Bool-cases (namespace_text namespace == asset.chain_id.namespace)) [
        | inl n ↦ elim (Bool-cases (chain_id == asset.chain_id.reference)) [
          | inl c ↦ elim (Bool-cases (is_asset_supported exchange asset)) [
            | inl s ↦
                rw (n, c, s)
                  (record {
                    namespace = namespace;
                    address = address;
                    apart =
                        ap (λ x. inr (namespace, x, address))
                          ((==_iff chain_id asset.chain_id.reference).0 c);
                    same_namespace =
                        (==_iff (namespace_text namespace) asset.chain_id.namespace).0 n;
                    supported = s;
                    recorded = buy-recorded exchange asset address _ run r (rw (n, c, s) at h);
                  })
            | inr s ↦ absurd (refused _ r (rw (n, c, s) at h))
          ]
          | inr c ↦ absurd (refused _ r (rw (n, c) at h))
        ]
        | inr n ↦ absurd (refused _ r (rw n at h))
      ]

  with_asset-IsStarted :
      (features : List Feature) (t : FeatureType) (exchange : ExchangeType)
      (parsed : CryptoUtilsError ⊎ Caip19Asset) (run : Run W.Net) (r : GeneratePayUrlResponse)
      → get_exchange_by_id clients.readers.in_config request.exchange_id t features ≡ inr exchange
      → parse clients.readers.checksum request.asset ≡ parsed
      → Gives r (with_asset W clients project_id request exchange parsed run)
      → IsStarted features t r.session_id
          (with_asset W clients project_id request exchange parsed run).1
  unfolding with_asset
  with_asset-IsStarted features t exchange (inl e) run r f q h = absurd (refused _ r h)
  with_asset-IsStarted features t exchange (inr asset) run r f q h =
      let c = with_recipient-IsChecked exchange asset _ run r h in
      let (named, enabled) =
        get_exchange_by_id-IsEnabled clients.readers.in_config request.exchange_id t features
          exchange f in
      record {
        exchange = exchange;
        named = named;
        enabled = enabled;
        asset = asset;
        parsed = q;
        supported = c.supported;
        namespace = c.namespace;
        address = c.address;
        taken = c.apart;
        same_namespace = c.same_namespace;
        recorded = c.recorded;
      }

  with_exchange-IsStarted :
      (features : List Feature) (t : FeatureType) (found : ExchangeError ⊎ ExchangeType)
      (run : Run W.Net) (r : GeneratePayUrlResponse)
      → get_exchange_by_id clients.readers.in_config request.exchange_id t features ≡ found
      → Gives r (with_exchange W clients project_id request found run)
      → IsStarted features t r.session_id (with_exchange W clients project_id request found run).1
  unfolding with_exchange
  with_exchange-IsStarted features t (inl e) run r f h = absurd (refused _ r h)
  with_exchange-IsStarted features t (inr exchange) run r f h =
      with_asset-IsStarted features t exchange _ run r f refl h

  -- When a request gets an address, then the exchange has the id of the request and is enabled, which
  -- for Coinbase means that wallets are funded and that an enabled feature of the project for it
  -- enables Coinbase in its configuration; it supports the asset that the request names, and the
  -- recipient is an account on the chain of that asset; and the session of the reply is pending in
  -- the table, unless transactions of the exchange are not stored.
  pub generate_pay_url-IsStarted :
      (features : List Feature) (t : FeatureType) (run : Run W.Net) (r : GeneratePayUrlResponse)
      → (generate_pay_url W clients project_id request features t run).0 ≡ inr r
      → IsStarted features t r.session_id
          (generate_pay_url W clients project_id request features t run).1
  unfolding generate_pay_url
  generate_pay_url-IsStarted features t run r h = with_exchange-IsStarted features t _ run r refl h
