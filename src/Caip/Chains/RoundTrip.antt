-- ===== src/Caip/Chains/RoundTrip.antt =====
-- src/utils/crypto.rs: printing and parsing of CAIP-2 chain ids.
use Prim.Native.Char.{Char, code}
use Prim.Native.String.{◌++◌}
use text.Mathlib.TextLemmas.{nil-append, cons-append}
use blockchain_api.Prelude.{
  ℕ, Bool, true, not, String, ◌⊎◌, inl, inr, ◌==◌, nat_eq, string_eq, ◌≡◌, ◌↔◌, ap, sym, ◌∙◌, arith,
  Bool-cases, Option-cases, subst,
}
use blockchain_api.Errors.{CryptoUtilsError}
use blockchain_api.Caip.{is_chain_char}
use blockchain_api.Caip.Chains.{
  Caip2ChainId, is_namespace_char, all_chars, matches, split_two, new, parse, parse_parts,
  to_string,
}
use blockchain_api.Caip.Splits.{all_chars-weaker, split_two-some, split_two-joined}

abbrev pub colon : Char
colon = ":"

pub colon-append : (s : String) → ":" ++ s ≡ String.◌∷◌ colon s
colon-append s = cons-append colon "" s ∙ ap (String.◌∷◌ colon) (nil-append s)

pub matches-all_chars :
    (p : Char → Bool) (lo hi : ℕ) (s : String) → matches p lo hi s ≡ true → all_chars p s ≡ true
unfolding matches
matches-all_chars p lo hi s h = ground arith

-- A chain id is made of the parts that it was made from, which match.
pub new-inv :
    (namespace reference : String) (c : Caip2ChainId)
    → new namespace reference ≡ inr c
    → (c ≡ record { namespace = namespace; reference = reference })
      × (matches is_namespace_char 3 8 namespace ≡ true)
      × (matches is_chain_char 1 32 reference ≡ true)
unfolding new
new-inv namespace reference c h = elim (Bool-cases (matches is_namespace_char 3 8 namespace)) [
  | inl m ↦ elim (Bool-cases (matches is_chain_char 1 32 reference)) [
    | inl n ↦ (right (rw (m, n, new) at h), m, n)
    | inr n ↦ absurd (left (rw (m, n, new) at h))
  ]
  | inr m ↦ absurd (left (rw (m, new) at h))
]
  where
    Got : CryptoUtilsError ⊎ Caip2ChainId → Type 0
    Got r = r ≡ inr c

    left : {e : CryptoUtilsError} → Got (inl e) → ⊥
    left p = cc

    right : {d : Caip2ChainId} → Got (inr d) → c ≡ d
    right p = cc

pub namespace-NoColon :
    (s : String)
    → matches is_namespace_char 3 8 s ≡ true
    → all_chars (λ c. not (code c == 58)) s ≡ true
namespace-NoColon s h =
    all_chars-weaker is_namespace_char (λ c. not (code c == 58)) (λ c k. ground arith) s
      (matches-all_chars is_namespace_char 3 8 s h)

pub parse-print :
    (c : Caip2ChainId) → new c.namespace c.reference ≡ inr c → parse (to_string c) ≡ inr c
unfolding parse to_string parse_parts
parse-print c h =
    let parts = new-inv c.namespace c.reference c h in
    rw
      (
        colon-append c.reference,
        split_two-some colon c.namespace c.reference (namespace-NoColon c.namespace parts.1),
      )
      h

parse-inv :
    (s : String) (c : Caip2ChainId)
    → parse s ≡ inr c
    → (to_string c ≡ s) × (new c.namespace c.reference ≡ inr c)
unfolding parse to_string parse_parts
parse-inv s c h = elim (Option-cases (split_two 58 s).1) [
  | inl e ↦ absurd (left (rw (e, parse_parts) at h))
  | inr (reference, e) ↦
      let made : new (split_two 58 s).0 reference ≡ inr c = rw (e, parse_parts) at h in
      let same = (new-inv (split_two 58 s).0 reference c made).0 in
      (
        rw (same, colon-append reference) (sym (split_two-joined colon s reference e)),
        subst (λ (d : Caip2ChainId). new d.namespace d.reference ≡ inr c) (sym same) made,
      )
]
  where
    Got : CryptoUtilsError ⊎ Caip2ChainId → Type 0
    Got r = r ≡ inr c

    left : {e : CryptoUtilsError} → Got (inl e) → ⊥
    left p = cc

-- A text parses as a chain id exactly when it is the printed form of the chain id, and the chain id
-- is one that `new` makes of its two parts.
pub parse_iff :
    (s : String) (c : Caip2ChainId)
    → (parse s ≡ inr c) ↔ ((to_string c ≡ s) × (new c.namespace c.reference ≡ inr c))
parse_iff s c = (parse-inv s c, λ (same, made). rw (sym same) (parse-print c made))
