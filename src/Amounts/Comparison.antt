-- ===== src/Amounts/Comparison.antt =====
-- src/utils/token_amount.rs: the comparison is that of the amounts as numbers.
use blockchain_api.Prelude.{
  ℕ, zero, suc, ◌-◌, ◌+◌, ◌*◌, ◌^◌, ◌≤◌, ◌<◌, ◌≡◌, refl, sym, ap, ◌∙◌, true, false, Bool-cases, inl,
  inr, some, ltb, leb, ◌&&◌, ltb→lt, lt→ltb, none, ◌==◌, ==_iff, nat_eq, arith,
}
use blockchain_api.Amounts.{
  less, equal, greater, cmp, TokenAmount, u256_mod, checked_pow, checked_mul, compare_scaled,
  compare_amounts, partial_cmp,
}
use native.Mathlib.Nat.{
  zero-add, mul-lt-mul_of_pos_right, pow-succ', pow-le-pow_right, one-le-pow, mul_assoc,
}

ten_pow_add : (d n : ℕ) → 10 ^ (d + n) ≡ 10 ^ d * 10 ^ n
ten_pow_add zero n = omega (arith, ap (λ k. 10 ^ k) (zero-add n))
ten_pow_add (suc d) n =
    let moved : suc d + n ≡ suc (d + n) = omega arith in
    ap (λ k. 10 ^ k) moved
    ∙ pow-succ' 10 (d + n)
    ∙ ap (λ x. 10 * x) (ten_pow_add d n)
    ∙ sym (mul_assoc 10 (10 ^ d) (10 ^ n))
    ∙ ap (λ x. x * 10 ^ n) (sym (pow-succ' 10 d))

ten_pow_fits : (d : ℕ) → d ≤ 77 → 10 ^ d < u256_mod
ten_pow_fits d h = let le : 10 ^ d ≤ 10 ^ 77 = pow-le-pow_right (omega arith) h in omega arith

cmp-less : (a b : ℕ) → a < b → cmp a b ≡ less
cmp-less a b h = ground arith

cmp-greater : (a b : ℕ) → b < a → cmp a b ≡ greater
cmp-greater a b h = ground arith

cmp-equal : (a b : ℕ) → a ≡ b → cmp a b ≡ equal
cmp-equal a b h = ground arith

-- A common factor does not change a comparison.
cmp-scaled : (a b m : ℕ) → 0 < m → cmp (a * m) (b * m) ≡ cmp a b
cmp-scaled a b m h = elim (Bool-cases (ltb a b)) [
  | inl low ↦
      cmp-less (a * m) (b * m) (mul-lt-mul_of_pos_right (ltb→lt a b low) h)
      ∙ sym (cmp-less a b (ltb→lt a b low))
  | inr high ↦ elim (Bool-cases (a == b)) [
    | inl same ↦
        cmp-equal (a * m) (b * m) (ap (λ x. x * m) ((==_iff a b).0 same))
        ∙ sym (cmp-equal a b ((==_iff a b).0 same))
    | inr other ↦
        cmp-greater (a * m) (b * m) (mul-lt-mul_of_pos_right (ground arith) h)
        ∙ sym (cmp-greater a b (ground arith))
  ]
]

checked_pow-fits : (d : ℕ) → d ≤ 77 → checked_pow 10 d ≡ some (10 ^ d)
unfolding checked_pow
checked_pow-fits d h = rw (lt→ltb (10 ^ d) u256_mod (ten_pow_fits d h)) refl

checked_mul-fits : (a b : ℕ) → ltb (a * b) u256_mod ≡ true → checked_mul a b ≡ some (a * b)
unfolding checked_mul
checked_mul-fits a b h = rw h refl

checked_mul-overflows : (a b : ℕ) → ltb (a * b) u256_mod ≡ false → checked_mul a b ≡ none
unfolding checked_mul
checked_mul-overflows a b h = rw h refl

overflowed : (a b : ℕ) → a < u256_mod → ltb b u256_mod ≡ false → a < b
overflowed a b h k = ground arith

module _ (b d : ℕ) (small : d ≤ 77) where
  compare_scaled-less : (a : ℕ) → a < u256_mod → compare_scaled cmp less a b d ≡ cmp a (b * 10 ^ d)
  unfolding compare_scaled
  compare_scaled-less a h =
      rw (checked_pow-fits d small, compare_scaled)
        (elim (Bool-cases (ltb (b * 10 ^ d) u256_mod)) [
          | inl fits ↦ rw (checked_mul-fits b (10 ^ d) fits) refl
          | inr over ↦
              rw (checked_mul-overflows b (10 ^ d) over)
                (sym (cmp-less a (b * 10 ^ d) (overflowed a _ h over)))
        ])

  compare_scaled-greater :
      (a : ℕ) → a < u256_mod → compare_scaled (λ x y. cmp y x) greater a b d ≡ cmp (b * 10 ^ d) a
  unfolding compare_scaled
  compare_scaled-greater a h =
      rw (checked_pow-fits d small, compare_scaled)
        (elim (Bool-cases (ltb (b * 10 ^ d) u256_mod)) [
          | inl fits ↦ rw (checked_mul-fits b (10 ^ d) fits) refl
          | inr over ↦
              rw (checked_mul-overflows b (10 ^ d) over)
                (sym (cmp-greater (b * 10 ^ d) a (overflowed a _ h over)))
        ])

guard : (x y : ℕ) → x ≤ 77 → y ≤ 77 → (leb x 77 && leb y 77) ≡ true
guard x y h k = ground arith

-- An amount that is brought to more decimals in two steps.
rescaled : (b high low : ℕ) → low ≤ high → b * 10 ^ (high - low) * 10 ^ low ≡ b * 10 ^ high
rescaled b high low h =
    mul_assoc b (10 ^ (high - low)) (10 ^ low)
    ∙ ap (λ x. b * x) (sym (ten_pow_add (high - low) low) ∙ ap (λ n. 10 ^ n) (omega arith))

compare_amounts-same :
    (a b da db : ℕ)
    → da ≤ 77
    → db ≤ 77
    → (da == db) ≡ true
    → compare_amounts a b da db ≡ some (cmp a b)
unfolding compare_amounts
compare_amounts-same a b da db h k e = rw (guard da db h k) (rw e refl)

compare_amounts-more :
    (a b da db : ℕ)
    → da ≤ 77
    → db ≤ 77
    → (da == db) ≡ false
    → ltb db da ≡ true
    → compare_amounts a b da db ≡ some (compare_scaled cmp less a b (da - db))
unfolding compare_amounts
compare_amounts-more a b da db h k e l = rw (guard da db h k) (rw e (rw l refl))

compare_amounts-fewer :
    (a b da db : ℕ)
    → da ≤ 77
    → db ≤ 77
    → (da == db) ≡ false
    → ltb db da ≡ false
    → compare_amounts a b da db ≡ some (compare_scaled (λ x y. cmp y x) greater b a (db - da))
unfolding compare_amounts
compare_amounts-fewer a b da db h k e l = rw (guard da db h k) (rw e (rw l refl))

ten_pow_pos : (n : ℕ) → 0 < 10 ^ n
ten_pow_pos n = one-le-pow n 10 (omega arith)

compare_amounts-exact :
    (a b da db : ℕ)
    → da ≤ 77
    → db ≤ 77
    → a < u256_mod
    → b < u256_mod
    → compare_amounts a b da db ≡ some (cmp (a * 10 ^ db) (b * 10 ^ da))
compare_amounts-exact a b da db h k p q = elim (Bool-cases (da == db)) [
  | inl e ↦
      compare_amounts-same a b da db h k e
      ∙ ap some (
          sym (cmp-scaled a b (10 ^ db) (ten_pow_pos db))
          ∙ ap (λ n. cmp (a * 10 ^ db) (b * 10 ^ n)) (sym ((==_iff da db).0 e)))
  | inr e ↦ elim (Bool-cases (ltb db da)) [
    | inl l ↦
        compare_amounts-more a b da db h k e l
        ∙ ap some (
            compare_scaled-less b (da - db) (omega arith) a p
            ∙ sym (cmp-scaled a (b * 10 ^ (da - db)) (10 ^ db) (ten_pow_pos db))
            ∙ ap (cmp (a * 10 ^ db)) (rescaled b da db (ground arith)))
    | inr l ↦
        compare_amounts-fewer a b da db h k e l
        ∙ ap some (
            compare_scaled-greater a (db - da) (omega arith) b q
            ∙ sym (cmp-scaled (a * 10 ^ (db - da)) b (10 ^ da) (ten_pow_pos da))
            ∙ ap (λ x. cmp x (b * 10 ^ da)) (rescaled a db da (ground arith)))
  ]
]

-- For both numbers of decimals at most 77 and both amounts below 2^256, the comparison of two
-- token amounts is that of the numbers they stand for: each amount is brought to the sum of both
-- numbers of decimals, as a natural number without bound.
pub partial_cmp-exact :
    (a b : TokenAmount)
    → a.decimals ≤ 77
    → b.decimals ≤ 77
    → a.amount < u256_mod
    → b.amount < u256_mod
    → partial_cmp a b ≡ some (cmp (a.amount * 10 ^ b.decimals) (b.amount * 10 ^ a.decimals))
unfolding partial_cmp
partial_cmp-exact a b h k p q =
    compare_amounts-exact a.amount b.amount a.decimals b.decimals h k p q
