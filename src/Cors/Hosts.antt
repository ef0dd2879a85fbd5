-- ===== src/Cors/Hosts.antt =====
-- src/utils/cors.rs: which hosts a pattern matches.
use mathlib.Core.Bool.{false≢true}
use mathlib.Core.Path.{◌∙◌}
use blockchain_api.Prelude.{
  ℕ, ◌-◌, zero, suc, Bool, true, false, not, ◌&&◌, ◌==◌, leb, nat_eq, List, [], ◌∷◌, ◌++◌, Option,
  none, some, length, length-append, get_elem?, ◌≡◌, refl, sym, ap, subst, ◌⊎◌, inl, inr, ◌↔◌,
  arith, ==_iff, ==_refl, Bool-cases, if◌then◌else◌,
}
use blockchain_api.Cors.{
  star, dot, bytes_eq, strip_wildcard, drop, is_dot, is_subdomain, by_wildcard,
  host_matches_pattern,
}

pub bytes_eq_sound : (xs ys : List ℕ) → bytes_eq xs ys ≡ true → xs ≡ ys
bytes_eq_sound [] [] h = refl
bytes_eq_sound [] (b ∷ ys) h = ground (arith)
bytes_eq_sound (a ∷ xs) [] h = ground (arith)
bytes_eq_sound (a ∷ xs) (b ∷ ys) h = ground (arith, bytes_eq_sound xs ys)

pub bytes_eq_refl : (xs : List ℕ) → bytes_eq xs xs ≡ true
bytes_eq_refl [] = refl
bytes_eq_refl (a ∷ xs) = rw (==_refl a) (bytes_eq_refl xs)

-- Where a text has a dot, and a text after it.
cut :
    (n : ℕ) (host suffix : List ℕ)
    → is_dot (get_elem? host n) ≡ true
    → drop (suc n) host ≡ suffix
    → (sub : List ℕ) × (host ≡ sub ++ dot ∷ suffix)
cut n [] suffix d e = ground (arith)
cut zero (b ∷ host) suffix d e = ([], rw ((==_iff b dot).0 d, e) refl)
cut (suc n) (b ∷ host) suffix d e =
    let (sub, p) = cut n host suffix d e in (b ∷ sub, ap (λ t. b ∷ t) p)

uncut-drop : (sub suffix : List ℕ) → drop (suc (length sub)) (sub ++ dot ∷ suffix) ≡ suffix
uncut-drop [] suffix = refl
uncut-drop (b ∷ sub) suffix = uncut-drop sub suffix

uncut-dot : (sub suffix : List ℕ) → is_dot (get_elem? (sub ++ dot ∷ suffix) (length sub)) ≡ true
uncut-dot [] suffix = refl
uncut-dot (b ∷ sub) suffix = uncut-dot sub suffix

one_more : (n : ℕ) → suc n - 1 ≡ n
one_more n = omega arith

one_less : (n : ℕ) → (n == 0) ≡ false → n ≡ suc (n - 1)
one_less n h = ground arith

tests :
    (ends empty dotted : Bool)
    → ((if not ends then false else if empty then false else dotted) ≡ true)
      ↔ ((ends ≡ true) × (empty ≡ false) × (dotted ≡ true))
tests ends empty dotted = ground arith

pub both : (p q : Bool) → ((p && q) ≡ true) ↔ ((p ≡ true) × (q ≡ true))
both p q = ground arith

subdomain-cut :
    (suffix host : List ℕ)
    → is_subdomain suffix host ≡ true
    → (sub : List ℕ) × (host ≡ sub ++ dot ∷ suffix)
subdomain-cut suffix host h =
    let (ends, nonempty, dotted) = (tests _ _ _).0 h in
    let (fits, tail) = (both _ _).0 ends in
    cut (length host - length suffix - 1) host suffix dotted
      (subst (λ n. drop n host ≡ suffix) (one_less _ nonempty) (bytes_eq_sound _ _ tail))

length-cut : (sub suffix : List ℕ) → length (sub ++ dot ∷ suffix) - length suffix ≡ suc (length sub)
length-cut sub suffix = rw (length-append sub (dot ∷ suffix)) (omega arith)

fits : (sub suffix : List ℕ) → leb (length suffix) (length (sub ++ dot ∷ suffix)) ≡ true
fits sub suffix = rw (length-append sub (dot ∷ suffix)) (ground arith)

some_prefix : (sub suffix : List ℕ) → (length (sub ++ dot ∷ suffix) - length suffix == 0) ≡ false
some_prefix sub suffix = rw (length-cut sub suffix) (ground arith)

dot_before :
    (sub suffix : List ℕ)
    → is_dot (get_elem? (sub ++ dot ∷ suffix) (length (sub ++ dot ∷ suffix) - length suffix - 1))
      ≡ true
dot_before sub suffix = rw (length-cut sub suffix, one_more (length sub)) (uncut-dot sub suffix)

tail_after :
    (sub suffix : List ℕ)
    → bytes_eq (drop (length (sub ++ dot ∷ suffix) - length suffix) (sub ++ dot ∷ suffix)) suffix
      ≡ true
tail_after sub suffix = rw (length-cut sub suffix, uncut-drop sub suffix) (bytes_eq_refl suffix)

cut-subdomain : (sub suffix : List ℕ) → is_subdomain suffix (sub ++ dot ∷ suffix) ≡ true
cut-subdomain sub suffix = (tests _ _ _).1 (
  (both _ _).1 (fits sub suffix, tail_after sub suffix),
  some_prefix sub suffix,
  dot_before sub suffix,
)

wild :
    (pattern suffix : List ℕ) → strip_wildcard pattern ≡ some suffix → pattern ≡ star ∷ dot ∷ suffix
wild [] suffix e = ground (arith)
wild (a ∷ []) suffix e = ground (arith)
wild (a ∷ b ∷ ys) suffix e = ground (arith)

-- What a pattern that is not `*` means: hosts that have something before the dot and the suffix, or
-- the host itself.
abbrev pub IsMatch : Option (List ℕ) → List ℕ → List ℕ → Type 0
IsMatch (some suffix) pattern host =
    (pattern ≡ star ∷ dot ∷ suffix) × (sub : List ℕ) × (host ≡ sub ++ dot ∷ suffix)
IsMatch none pattern host = pattern ≡ host

by_wildcard_iff :
    (stripped : Option (List ℕ)) (pattern host : List ℕ)
    → strip_wildcard pattern ≡ stripped
    → (by_wildcard stripped pattern host ≡ true) ↔ IsMatch stripped pattern host
by_wildcard_iff (some suffix) pattern host e = (
  λ h. (wild pattern suffix e, (subdomain-cut suffix host h).0, (subdomain-cut suffix host h).1),
  λ m. rw m.2 (cut-subdomain m.1 suffix),
)
by_wildcard_iff none pattern host e = (bytes_eq_sound pattern host, λ m. rw m (bytes_eq_refl host))

-- A pattern matches a host exactly when it is `*`, or begins with `*.` and the host is any text, the
-- empty one included, then a dot and the rest of the pattern, or does not begin so and is the host.
pub host_matches_pattern_iff :
    (pattern host : List ℕ)
    → (host_matches_pattern pattern host ≡ true)
      ↔ ((pattern ≡ star ∷ []) ⊎ IsMatch (strip_wildcard pattern) pattern host)
unfolding host_matches_pattern
host_matches_pattern_iff pattern host = elim (Bool-cases (bytes_eq pattern (star ∷ []))) [
  | inl e ↦ rw e (λ h. inl (bytes_eq_sound pattern _ e), λ m. refl)
  | inr e ↦ rw e (
    λ h. inr ((by_wildcard_iff _ pattern host refl).0 h),
    λ m. elim m [
      | inl p ↦ absurd (false≢true (sym e ∙ ap (λ t. bytes_eq t (star ∷ [])) p))
      | inr q ↦ (by_wildcard_iff _ pattern host refl).1 q
    ],
  )
]
