-- ===== src/Caip/Accounts/RoundTrip.antt =====
-- src/utils/crypto.rs: CAIP-10 identifiers taken apart and put together.
use Prim.Native.Char.{Char, code}
use Prim.Native.String.{◌++◌}
use text.Mathlib.TextEquality.{Char-path}
use text.Mathlib.TextLemmas.{nil-append, cons-append}
use blockchain_api.Prelude.{
  true, String, List, [], ◌∷◌, Option, none, some, ◌⊎◌, inl, inr, ◌==◌, ==_iff, nat_eq, string_eq,
  ◌≡◌, refl, ap, subst, length, ◌+◌, ◌≤◌, sym, ◌∙◌, arith, Bool-cases,
}
use blockchain_api.Errors.{CaipNamespaces, CryptoUtilsError}
use blockchain_api.Errors.Namespaces.{parse_namespace}
use blockchain_api.Caip.{split_colon, push, matches_chain_id}
use blockchain_api.Caip.Chains.RoundTrip.{colon, colon-append}
use blockchain_api.Caip.Accounts.{
  Codecs, is_address_valid, namespace_text, format_to_caip10, with_namespace, take_apart,
  disassemble_caip10,
}

-- The parts with colons between.
abbrev join : List String → String
join [] = ""
join (part ∷ []) = part
join (part ∷ next ∷ parts) = part ++ (":" ++ join (next ∷ parts))

join-push :
    (c : Char) (part : String) (parts : List String)
    → join (push c (part ∷ parts)) ≡ String.◌∷◌ c (join (part ∷ parts))
join-push c part [] = refl
join-push c part (next ∷ parts) = cons-append c part (":" ++ join (next ∷ parts))

split_colon-cons :
    (s : String) → (part : String) × (parts : List String) × (split_colon s ≡ part ∷ parts)
split_colon-cons String.[] = ("", [], refl)
split_colon-cons (String.◌∷◌ c s) =
    let rest = split_colon-cons s in
    elim (Bool-cases (code c == 58)) [
      | inl e ↦ ("", split_colon s, rw (e, split_colon) refl)
      | inr e ↦ (String.◌∷◌ c rest.0, rest.1, rw (e, split_colon, rest.2) refl)
    ]

join-split_colon : (s : String) → join (split_colon s) ≡ s
join-split_colon String.[] = refl
join-split_colon (String.◌∷◌ c s) =
    let rest = split_colon-cons s in
    let before : join (rest.0 ∷ rest.1) ≡ s = ap join (sym rest.2) ∙ join-split_colon s in
    elim (Bool-cases (code c == 58)) [
      | inl e ↦
          rw
            (
              e,
              rest.2,
              nil-append (":" ++ join (rest.0 ∷ rest.1)),
              colon-append (join (rest.0 ∷ rest.1)),
              before,
              Char-path c colon ((==_iff (code c) 58).0 e),
            )
            refl
      | inr e ↦ rw (e, rest.2) (join-push c rest.0 rest.1 ∙ ap (String.◌∷◌ c) before)
    ]

parse_namespace-text :
    (s : String) (n : CaipNamespaces) → parse_namespace s ≡ some n → namespace_text n ≡ s
unfolding parse_namespace
parse_namespace-text s n h =
    ground (arith, ==_iff s "eip155", ==_iff s "solana", ==_iff s "ton", ==_iff s "rootstock")

module _ (codecs : Codecs) where
  with_namespace-inv :
      (caip10 chain_id address : String) (o : Option CaipNamespaces) (n : CaipNamespaces)
      (c a : String)
      → with_namespace codecs caip10 chain_id address o ≡ inr (n, c, a)
      → (o ≡ some n)
        × (chain_id ≡ c)
        × (address ≡ a)
        × (matches_chain_id c ≡ true)
        × (is_address_valid codecs a n ≡ true)
  unfolding with_namespace
  with_namespace-inv caip10 chain_id address none n c a h = cc
  with_namespace-inv caip10 chain_id address (some m) n c a h =
      elim (Bool-cases (matches_chain_id chain_id)) [
        | inl e ↦ elim (Bool-cases (is_address_valid codecs address m)) [
          | inl f ↦ found (rw (e, f, with_namespace) at h) e f
          | inr f ↦ absurd (left (rw (e, f, with_namespace) at h))
        ]
        | inr e ↦ absurd (left (rw (e, with_namespace) at h))
      ]
    where
      Is : CryptoUtilsError ⊎ (CaipNamespaces × String × String) → Type 0
      Is x = x ≡ inr (n, c, a)

      left : {e : CryptoUtilsError} → Is (inl e) → ⊥
      left p = cc

      right :
          Is (inr (m, chain_id, address))
          → ◌≡◌ {A = CaipNamespaces × String × String} (m, chain_id, address) (n, c, a)
      right p = cc

      found :
          Is (inr (m, chain_id, address))
          → matches_chain_id chain_id ≡ true
          → is_address_valid codecs address m ≡ true
          → (some m ≡ some n)
            × (chain_id ≡ c)
            × (address ≡ a)
            × (matches_chain_id c ≡ true)
            × (is_address_valid codecs a n ≡ true)
      found p e f =
          subst
            (λ (t : CaipNamespaces × String × String).
              (some m ≡ some t.0)
              × (chain_id ≡ t.1)
              × (address ≡ t.2)
              × (matches_chain_id t.1 ≡ true)
              × (is_address_valid codecs t.2 t.0 ≡ true))
            (right p) (refl, refl, refl, e, f)

  -- What a text is taken apart into prints as the text, has a chain id that matches and an address
  -- that is valid in the namespace.
  pub disassemble_caip10-format :
      (caip10 : String) (n : CaipNamespaces) (chain_id address : String)
      → disassemble_caip10 codecs caip10 ≡ inr (n, chain_id, address)
      → (format_to_caip10 n chain_id address ≡ caip10)
        × (matches_chain_id chain_id ≡ true)
        × (is_address_valid codecs address n ≡ true)
  unfolding disassemble_caip10 format_to_caip10
  disassemble_caip10-format caip10 n chain_id address h =
      of_parts (split_colon caip10) (join-split_colon caip10) h
    where
      of_parts :
          (parts : List String)
          → join parts ≡ caip10
          → take_apart codecs caip10 parts ≡ inr (n, chain_id, address)
          → (namespace_text n ++ (":" ++ (chain_id ++ (":" ++ address))) ≡ caip10)
            × (matches_chain_id chain_id ≡ true)
            × (is_address_valid codecs address n ≡ true)
      of_parts [] e k = cc
      of_parts (x ∷ []) e k = cc
      of_parts (x ∷ y ∷ []) e k = cc
      of_parts (x ∷ y ∷ z ∷ []) e k =
          let got = with_namespace-inv caip10 y z (parse_namespace x) n chain_id address k in
          (rw (parse_namespace-text x n got.0, sym got.1, sym got.2) e, got.3, got.4)
      of_parts (x ∷ y ∷ z ∷ u ∷ v) e k = cc

  split-colon_parts :
      (s t : String)
      → length (split_colon (s ++ (":" ++ t))) ≡ length (split_colon s) + length (split_colon t)
  split-colon_parts s t = rw (colon-append t) (counted s)
    where
      pushed : (c : Char) (s : String) → length (push c (split_colon s)) ≡ length (split_colon s)
      pushed c s = rw ((split_colon-cons s).2) refl

      counted :
          (s : String)
          → length (split_colon (s ++ String.◌∷◌ colon t))
            ≡ length (split_colon s) + length (split_colon t)
      counted String.[] = rw (nil-append (String.◌∷◌ colon t)) (omega arith)
      counted (String.◌∷◌ c s) =
          rw (cons-append c s (String.◌∷◌ colon t)) (elim (Bool-cases (code c == 58)) [
            | inl e ↦ rw e (omega (arith, counted s))
            | inr e ↦
                rw e (omega (arith, pushed c s, pushed c (s ++ String.◌∷◌ colon t), counted s))
          ])

  some_part : (s : String) → 1 ≤ length (split_colon s)
  some_part s = rw ((split_colon-cons s).2) (omega arith)

  take_apart-longer :
      (caip10 : String) (parts : List String)
      → 4 ≤ length parts
      → take_apart codecs caip10 parts ≡ inl (CryptoUtilsError.wrong_caip10_format caip10)
  unfolding take_apart
  take_apart-longer caip10 [] h = absurd (omega arith)
  take_apart-longer caip10 (x ∷ []) h = absurd (omega arith)
  take_apart-longer caip10 (x ∷ y ∷ []) h = absurd (omega arith)
  take_apart-longer caip10 (x ∷ y ∷ z ∷ []) h = absurd (omega arith)
  take_apart-longer caip10 (x ∷ y ∷ z ∷ u ∷ v) h = refl

  -- An account whose address contains a colon, as the raw addresses of TON do, is refused by its
  -- format, even when the address is valid in its namespace.
  pub disassemble_caip10-colon :
      (n : CaipNamespaces) (chain_id workchain hash : String)
      → disassemble_caip10 codecs (format_to_caip10 n chain_id (workchain ++ (":" ++ hash)))
        ≡ inl (
            CryptoUtilsError.wrong_caip10_format
              (format_to_caip10 n chain_id (workchain ++ (":" ++ hash))))
  unfolding disassemble_caip10 format_to_caip10
  disassemble_caip10-colon n chain_id workchain hash =
      let address = workchain ++ (":" ++ hash) in
      take_apart-longer _ _ (
        omega (
          arith,
          split-colon_parts (namespace_text n) (chain_id ++ (":" ++ address)),
          split-colon_parts chain_id address,
          split-colon_parts workchain hash,
          some_part (namespace_text n),
          some_part chain_id,
          some_part workchain,
          some_part hash,
        ))
