-- ===== src/Caip/CoinTypes/RoundTrip.antt =====
-- src/utils/crypto.rs: coin types and names of chains, there and back.
use blockchain_api.Prelude.{
  ℕ, ◌+◌, ◌≤◌, ◌<◌, ◌^◌, Bool, true, false, ◌&&◌, ◌⊎◌, inl, inr, String, List, [], ◌∷◌, Option,
  none, some, ◌≡◌, ◌≢◌, ◌↔◌, refl, ap, subst, arith, ◌==◌, ==_iff, nat_eq, string_eq, all, all-All,
  All, any, Bool-cases, Option-cases,
}
use blockchain_api.Prelude.Text.{decimal, parse_u64}
use blockchain_api.Caip.CoinTypes.{
  ChainId, chain_ids, find_name, to_caip2, from_caip2, caip2_of, convert_evm_chain_id_to_coin_type,
  convert_coin_type_to_evm_chain_id,
}

-- A chain id below 2^31 is that of its coin type; and a coin type is that of its chain id exactly
-- when it is the mainnet's or has the bit of 2^31, the chain id 1 with that bit excepted.
pub coin_type-chain_id :
    (chain_id coin_type : ℕ)
    → chain_id < 2 ^ 31
    → coin_type < 2 ^ 32
    → (convert_coin_type_to_evm_chain_id (convert_evm_chain_id_to_coin_type chain_id) ≡ chain_id)
      × ((convert_evm_chain_id_to_coin_type (convert_coin_type_to_evm_chain_id coin_type)
            ≡ coin_type)
          ↔ ((coin_type ≡ 60) ⊎ ((2 ^ 31 ≤ coin_type) × (coin_type ≢ 2 ^ 31 + 1))))
unfolding convert_evm_chain_id_to_coin_type convert_coin_type_to_evm_chain_id
coin_type-chain_id chain_id coin_type h k = (ground arith, ground arith)

abbrev shows : String → Option String → Bool
shows s none = false
shows s (some t) = t == s

shows-some : (s : String) (o : Option String) → shows s o ≡ true → o ≡ some s
shows-some s none h = cc
shows-some s (some t) h = ap some ((==_iff t s).0 h)

-- The chain's CAIP-2 form prints as its text, and its text is read as that form.
abbrev returns : ChainId → Bool
returns c =
    shows c.text' (from_caip2 (caip2_of c.number)) && shows (caip2_of c.number) (to_caip2 c.text')

all_return : all returns chain_ids ≡ true
unfolding from_caip2 to_caip2 decimal parse_u64
all_return = refl

find_name-All :
    (P : ChainId → Type 0) (name : String) (cs : List ChainId) (c : ChainId)
    → All P cs
    → find_name name cs ≡ some c
    → P c
unfolding find_name
find_name-All P name [] c h e = cc
find_name-All P name (d ∷ cs) c (p, h) e = elim (Bool-cases (any (λ n. n == name) d.names)) [
  | inl hit ↦ subst P (some-inj (rw hit at e)) p
  | inr miss ↦ find_name-All P name cs c h (rw miss at e)
]
  where
    some-inj : {a b : ChainId} → some a ≡ some b → a ≡ b
    some-inj p = cc

-- Whatever name of a chain was read: its CAIP-2 form prints as a name of which that form is again
-- the CAIP-2 form.
pub to_caip2-from_caip2 :
    (name caip2 : String)
    → to_caip2 name ≡ some caip2
    → (shown : String) × (from_caip2 caip2 ≡ some shown) × (to_caip2 shown ≡ some caip2)
unfolding to_caip2
to_caip2-from_caip2 name caip2 h = elim (Option-cases (find_name name chain_ids)) [
  | inl e ↦ absurd (none-some (rw (e, to_caip2) at h))
  | inr (c, e) ↦
      let ok : returns c ≡ true =
        find_name-All (λ c. returns c ≡ true) name chain_ids c
          (all-All returns chain_ids all_return) e in
      let same : caip2_of c.number ≡ caip2 = some-inj (rw (e, to_caip2) at h) in
      (
        c.text',
        subst (λ x. from_caip2 x ≡ some c.text') same (shows-some c.text' _ (ground arith)),
        subst (λ x. to_caip2 c.text' ≡ some x) same
            (shows-some (caip2_of c.number) _ (ground arith)),
      )
]
  where
    none-some : {a : String} → none ≡ some a → ⊥
    none-some p = cc

    some-inj : {a b : String} → some a ≡ some b → a ≡ b
    some-inj p = cc
