-- ===== src/Caip/Splits.antt =====
-- src/utils/crypto.rs: texts that are taken apart at a separator.
use Prim.Native.Char.{Char, code}
use Prim.Native.String.{◌++◌}
use text.Mathlib.TextEquality.{Char-path}
use text.Mathlib.TextLemmas.{nil-append, cons-append}
use blockchain_api.Prelude.{
  ℕ, Bool, true, not, ◌&&◌, String, Option, none, some, inl, inr, ◌==◌, ==_iff, ==_refl, nat_eq,
  string_eq, ◌≡◌, refl, ap, arith, Bool-cases,
}
use blockchain_api.Caip.Chains.{all_chars, split_two}

pub all_chars-weaker :
    (p q : Char → Bool)
    → ((c : Char) → p c ≡ true → q c ≡ true)
    → (s : String) → all_chars p s ≡ true
    → all_chars q s ≡ true
all_chars-weaker p q f String.[] h = refl
all_chars-weaker p q f (String.◌∷◌ c s) h = ground (arith, f c, all_chars-weaker p q f s)

pub all_chars-append :
    (p : Char → Bool) (s t : String)
    → all_chars p s ≡ true
    → all_chars p t ≡ true
    → all_chars p (s ++ t) ≡ true
all_chars-append p String.[] t h k = rw (nil-append t) k
all_chars-append p (String.◌∷◌ c s) t h k =
    rw (cons-append c s t) (ground (arith, all_chars-append p s t))

clash : (b d : Bool) → b ≡ true → (not b && d) ≡ true → ⊥
clash b d p q = ground arith

rest : (b d : Bool) → (b && d) ≡ true → d ≡ true
rest b d p = ground arith

-- A text without the separator, and one that is made of two with it between.
pub split_two-none :
    (separator : ℕ) (s : String)
    → all_chars (λ c. not (code c == separator)) s ≡ true
    → split_two separator s ≡ (s, none)
split_two-none separator String.[] h = refl
split_two-none separator (String.◌∷◌ c s) h = elim (Bool-cases (code c == separator)) [
  | inl e ↦ absurd (clash _ _ e h)
  | inr e ↦ rw e (
      ap (λ (a : String × Option String). (String.◌∷◌ c a.0, a.1))
        (split_two-none separator s (rest _ _ h)))
]

pub split_two-some :
    (separator : Char) (s t : String)
    → all_chars (λ c. not (code c == code separator)) s ≡ true
    → split_two (code separator) (s ++ String.◌∷◌ separator t) ≡ (s, some t)
split_two-some separator String.[] t h =
    rw (nil-append (String.◌∷◌ separator t), ==_refl (code separator)) refl
split_two-some separator (String.◌∷◌ c s) t h = elim (Bool-cases (code c == code separator)) [
  | inl e ↦ absurd (clash _ _ e h)
  | inr e ↦
      rw (cons-append c s (String.◌∷◌ separator t), e)
        (ap (λ (a : String × Option String). (String.◌∷◌ c a.0, a.1))
          (split_two-some separator s t (rest _ _ h)))
]

-- What is split at a separator is made of the parts.
pub split_two-joined :
    (separator : Char) (s t : String)
    → (split_two (code separator) s).1 ≡ some t
    → s ≡ (split_two (code separator) s).0 ++ String.◌∷◌ separator t
split_two-joined separator String.[] t h = cc
split_two-joined separator (String.◌∷◌ c s) t h = elim (Bool-cases (code c == code separator)) [
  | inl e ↦
      rw
        (
          e,
          nil-append (String.◌∷◌ separator t),
          Char-path c separator ((==_iff (code c) (code separator)).0 e),
          some-inj (rw (e, split_two) at h),
        )
        refl
  | inr e ↦
      rw (e, cons-append c (split_two (code separator) s).0 (String.◌∷◌ separator t))
        (ap (String.◌∷◌ c) (split_two-joined separator s t (rw (e, split_two) at h)))
]
  where
    some-inj : {a b : String} → some a ≡ some b → a ≡ b
    some-inj p = cc
