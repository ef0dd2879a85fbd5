-- ===== src/Caip/Assets/RoundTrip.antt =====
-- src/utils/crypto.rs: printing and parsing of CAIP-19 assets.
use Prim.Native.Char.{Char, code}
use Prim.Native.String.{◌++◌}
use text.Mathlib.TextLemmas.{nil-append, cons-append, append-nil}
use blockchain_api.Prelude.{
  Bool, true, not, String, Option, none, some, ◌⊎◌, inl, inr, ◌==◌, nat_eq, string_eq, ◌≡◌, refl,
  ap, ◌∙◌, arith, Bool-cases, Option-cases, Result-cases, subst,
}
use blockchain_api.Errors.{CryptoUtilsError}
use blockchain_api.Caip.{is_chain_char}
use blockchain_api.Caip.Chains.{
  Caip2ChainId, is_namespace_char, all_chars, matches, split_two, new as new_chain,
  parse as parse_chain, to_string as chain_to_string,
}
use blockchain_api.Caip.Chains.RoundTrip.{
  colon, colon-append, matches-all_chars, namespace-NoColon, new-inv as new_chain-inv,
  parse-print as parse_chain-print, parse_iff as parse_chain_iff,
}
use blockchain_api.Caip.Splits.{all_chars-weaker, all_chars-append, split_two-some, split_two-none}
use blockchain_api.Caip.Assets.{
  Caip19Asset, is_reference_char, is_address, is_token_id, normalize_to_checksum, normalized, new,
  parse, parse_reference, parse_asset, parse_halves, asset_id, to_string, with_token,
}

-- What the library's checksummed form of an address is: an address in that form is its own
-- checksummed form, and has the characters and the length of a reference.
pub record IsChecksum (checksum : String → Option String) : Type 0 where
  pub stable : (s r : String) → checksum s ≡ some r → checksum r ≡ some r
  pub proper : (s r : String) → checksum s ≡ some r → matches is_reference_char 1 128 r ≡ true

abbrev slash : Char
slash = "/"

slash-append : (s : String) → "/" ++ s ≡ String.◌∷◌ slash s
slash-append s = cons-append slash "" s ∙ ap (String.◌∷◌ slash) (nil-append s)

abbrev no_slash : Char → Bool
no_slash c = not (code c == 47)

asset_id-NoSlash :
    (namespace reference : String)
    → matches is_namespace_char 3 8 namespace ≡ true
    → matches is_reference_char 1 128 reference ≡ true
    → all_chars no_slash (namespace ++ (":" ++ reference)) ≡ true
asset_id-NoSlash namespace reference h k =
    all_chars-append no_slash namespace (":" ++ reference)
      (all_chars-weaker is_namespace_char no_slash (λ c q. ground arith) namespace
        (matches-all_chars is_namespace_char 3 8 namespace h))
      (rw (colon-append reference) (
        all_chars-weaker is_reference_char no_slash (λ c q. ground arith) reference
          (matches-all_chars is_reference_char 1 128 reference k)))

chain-NoSlash :
    (c : Caip2ChainId)
    → new_chain c.namespace c.reference ≡ inr c
    → all_chars no_slash (chain_to_string c) ≡ true
unfolding chain_to_string
chain-NoSlash c h =
    let parts = new_chain-inv c.namespace c.reference c h in
    all_chars-append no_slash c.namespace (":" ++ c.reference)
      (all_chars-weaker is_namespace_char no_slash (λ d q. ground arith) c.namespace
        (matches-all_chars is_namespace_char 3 8 c.namespace parts.1))
      (rw (colon-append c.reference) (
        all_chars-weaker is_chain_char no_slash (λ d q. ground arith) c.reference
          (matches-all_chars is_chain_char 1 32 c.reference parts.2)))

module _ (checksum : String → Option String) where
  -- What holds of an asset that was parsed.
  record IsAsset (a : Caip19Asset) : Type 0 where
    pub chain : new_chain a.chain_id.namespace a.chain_id.reference ≡ inr a.chain_id
    pub namespace : matches is_namespace_char 3 8 a.asset_namespace ≡ true
    pub reference : matches is_reference_char 1 128 a.asset_reference ≡ true
    pub token : is_token_id a.token_id ≡ true
    pub normal :
        normalized checksum a.chain_id a.asset_namespace a.asset_reference ≡ inr a.asset_reference

  new-IsAsset :
      (a : Caip19Asset)
      → IsAsset a
      → new checksum a.chain_id a.asset_namespace a.asset_reference a.token_id ≡ inr a
  unfolding new
  new-IsAsset a v = rw (v.namespace, v.reference, v.token, v.normal) refl

  split-token :
      (a : Caip19Asset)
      → IsAsset a
      → split_two 47 (asset_id a ++ with_token a.token_id) ≡ (asset_id a, a.token_id)
  unfolding asset_id with_token
  split-token a v = elim (Option-cases a.token_id) [
    | inl e ↦
        rw (e, with_token, append-nil (a.asset_namespace ++ (":" ++ a.asset_reference)))
          (split_two-none 47 _ (asset_id-NoSlash _ _ v.namespace v.reference))
    | inr (t, e) ↦
        rw (e, with_token, slash-append t)
          (split_two-some slash _ t (asset_id-NoSlash _ _ v.namespace v.reference))
  ]

  split-chain :
      (a : Caip19Asset)
      → IsAsset a
      → split_two 47 (to_string a)
        ≡ (chain_to_string a.chain_id, some (asset_id a ++ with_token a.token_id))
  unfolding to_string
  split-chain a v =
      rw (slash-append (asset_id a ++ with_token a.token_id))
        (split_two-some slash (chain_to_string a.chain_id) _ (chain-NoSlash a.chain_id v.chain))

  split-namespace :
      (a : Caip19Asset)
      → IsAsset a
      → split_two 58 (asset_id a) ≡ (a.asset_namespace, some a.asset_reference)
  unfolding asset_id
  split-namespace a v = rw (colon-append a.asset_reference) (
      split_two-some colon a.asset_namespace a.asset_reference
        (namespace-NoColon a.asset_namespace v.namespace))

  parse_halves-chain :
      (whole rest : String) (c : Caip2ChainId)
      → parse_chain (chain_to_string c) ≡ inr c
      → parse_halves checksum whole (chain_to_string c, some rest)
        ≡ parse_asset checksum c (split_two 47 rest)
  unfolding parse_halves
  parse_halves-chain whole rest c h = rw (h, parse_halves) refl

  parse-print : (a : Caip19Asset) → IsAsset a → parse checksum (to_string a) ≡ inr a
  unfolding parse parse_asset parse_reference
  parse-print a v =
      ap (parse_halves checksum (to_string a)) (split-chain a v)
      ∙ parse_halves-chain (to_string a) (asset_id a ++ with_token a.token_id) a.chain_id
          (parse_chain-print a.chain_id v.chain)
      ∙ ap (parse_asset checksum a.chain_id) (split-token a v)
      ∙ ap (parse_reference checksum a.chain_id a.token_id (asset_id a)) (split-namespace a v)
      ∙ new-IsAsset a v

module _ (checksum : String → Option String) (documented : IsChecksum checksum) where
  normalized-inv :
      (c : Caip2ChainId) (namespace reference r : String)
      → matches is_reference_char 1 128 reference ≡ true
      → normalized checksum c namespace reference ≡ inr r
      → (normalized checksum c namespace r ≡ inr r) × (matches is_reference_char 1 128 r ≡ true)
  unfolding normalized normalize_to_checksum
  normalized-inv c namespace reference r m h = elim (Bool-cases (is_address c namespace)) [
    | inl e ↦ elim (Option-cases (checksum reference)) [
      | inl none' ↦ absurd (left (rw (e, none', normalized, normalize_to_checksum) at h))
      | inr (found, some') ↦
          let same : found ≡ r = right (rw (e, some', normalized, normalize_to_checksum) at h) in
          let done : checksum reference ≡ some r = some' ∙ ap some same in
          (
            rw (e, normalized, documented.stable reference r done, normalize_to_checksum) refl,
            documented.proper reference r done,
          )
    ]
    | inr e ↦
        let same : reference ≡ r = right (rw (e, normalized) at h) in
        (rw (e, normalized) refl, subst (λ x. matches is_reference_char 1 128 x ≡ true) same m)
  ]
    where
      Is : CryptoUtilsError ⊎ String → Type 0
      Is x = x ≡ inr r

      left : {e : CryptoUtilsError} → Is (inl e) → ⊥
      left p = cc

      right : {x : String} → Is (inr x) → x ≡ r
      right p = cc

  new-inv :
      (c : Caip2ChainId) (namespace reference : String) (token : Option String) (a : Caip19Asset)
      → new_chain c.namespace c.reference ≡ inr c
      → new checksum c namespace reference token ≡ inr a
      → IsAsset checksum a
  unfolding new
  new-inv c namespace reference token a chain h =
      elim (Bool-cases (matches is_namespace_char 3 8 namespace)) [
        | inl m ↦ elim (Bool-cases (matches is_reference_char 1 128 reference)) [
          | inl n ↦ elim (Bool-cases (is_token_id token)) [
            | inl o ↦ elim (Result-cases (normalized checksum c namespace reference)) [
              | inl (e, q) ↦ absurd (left (rw (m, n, o, q, new) at h))
              | inr (r, q) ↦ subst (IsAsset checksum) (right (rw (m, n, o, q, new) at h)) (
                  let normal = normalized-inv c namespace reference r n q in
                  record {
                    chain = chain;
                    namespace = m;
                    reference = normal.1;
                    token = o;
                    normal = normal.0;
                  })
            ]
            | inr o ↦ absurd (left (rw (m, n, o, new) at h))
          ]
          | inr n ↦ absurd (left (rw (m, n, new) at h))
        ]
        | inr m ↦ absurd (left (rw (m, new) at h))
      ]
    where
      Is : CryptoUtilsError ⊎ Caip19Asset → Type 0
      Is x = x ≡ inr a

      left : {e : CryptoUtilsError} → Is (inl e) → ⊥
      left p = cc

      right : {x : Caip19Asset} → Is (inr x) → x ≡ a
      right p = cc

  parse_reference-inv :
      (c : Caip2ChainId) (token : Option String) (part : String) (parts : String × Option String)
      (a : Caip19Asset)
      → new_chain c.namespace c.reference ≡ inr c
      → parse_reference checksum c token part parts ≡ inr a
      → IsAsset checksum a
  unfolding parse_reference
  parse_reference-inv c token part (namespace, none) a chain h = cc
  parse_reference-inv c token part (namespace, some reference) a chain h =
      new-inv c namespace reference token a chain h

  parse_halves-inv :
      (whole : String) (parts : String × Option String) (a : Caip19Asset)
      → parse_halves checksum whole parts ≡ inr a
      → IsAsset checksum a
  unfolding parse_halves parse_asset
  parse_halves-inv whole (chain_part, none) a h = cc
  parse_halves-inv whole (chain_part, some rest) a h =
      elim (Result-cases (parse_chain chain_part)) [
        | inl (e, q) ↦ absurd (left (rw (q, parse_halves) at h))
        | inr (c, q) ↦
            parse_reference-inv c (split_two 47 rest).1 (split_two 47 rest).0
              (split_two 58 (split_two 47 rest).0) a ((parse_chain_iff chain_part c).0 q).1
              (rw (q, parse_halves) at h)
      ]
    where
      Is : CryptoUtilsError ⊎ Caip19Asset → Type 0
      Is x = x ≡ inr a

      left : {e : CryptoUtilsError} → Is (inl e) → ⊥
      left p = cc

  -- With a checksummed form of addresses as documented: the printed form of an asset that was
  -- parsed parses, as the same asset.
  pub parse-to_string :
      (s : String) (a : Caip19Asset)
      → parse checksum s ≡ inr a
      → parse checksum (to_string a) ≡ inr a
  unfolding parse
  parse-to_string s a h = parse-print checksum a (parse_halves-inv s (split_two 47 s) a h)
