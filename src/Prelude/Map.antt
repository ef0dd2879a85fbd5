-- ===== src/Prelude/Map.antt =====
-- HashMap and HashSet as association lists and lists. Their order stands for the unspecified
-- iteration order; `insert` keeps each key once.
use mathlib.Core.Path.{◌≡◌, refl, subst, ap₂}
use mathlib.Core.Bool.{Bool}
use mathlib.Core.List.{List, [], ◌∷◌}
use mathlib.Core.Option.{Option, none, some}
use native.Mathlib.Omega.{arith}
use mathlib.Core.Logic.{inl, inr, ◌≢◌}
use blockchain_api.Prelude.Lists.{All, filter}
use blockchain_api.Prelude.Tests.{Bool-cases, Eq, ◌==◌, ==_iff, ==_refl, if◌then◌else◌}

module _ {ℓ κ} {K : Type ℓ} {V : Type κ} ⦃e : Eq K⦄ where
  unfoldable pub get : K → List (K × V) → Option V
  get k [] = none
  get k ((j, v) ∷ m) = if j == k then some v else get k m

  unfoldable pub insert : K → V → List (K × V) → List (K × V)
  insert k v [] = (k, v) ∷ []
  insert k v ((j, w) ∷ m) = if j == k then (k, v) ∷ m else (j, w) ∷ insert k v m

  pub get-insert :
      (k j : K) (v : V) (m : List (K × V))
      → get j (insert k v m) ≡ (if k == j then some v else get j m)
  unfolding get insert
  get-insert k j v [] = refl
  get-insert k j v ((i, w) ∷ m) =
      ground (arith, ==_iff k j, ==_iff i k, ==_iff i j, get-insert k j v m)

  pub get-insert_self : (k : K) (v : V) (m : List (K × V)) → get k (insert k v m) ≡ some v
  get-insert_self k v m = rw (get-insert k k v m, ==_refl k)

  -- A predicate of every entry holds of the one that is found.
  pub get-All {μ} :
      (P : K × V → Type μ) (k : K) {v : V} (m : List (K × V))
      → All P m
      → get k m ≡ some v
      → P (k, v)
  unfolding get
  get-All P k [] h e = cc
  get-All P k {v} ((j, w) ∷ m) (p, h) e = elim (Bool-cases (j == k)) [
    | inl hit ↦ subst P (ap₂ (λ a b. (a, b)) ((==_iff j k).0 hit) (ground (arith, ==_iff j k))) p
    | inr miss ↦ get-All P k m h (rw miss at e)
  ]

  pub insert-ne-nil : (k : K) (v : V) (m : List (K × V)) → insert k v m ≢ []
  unfolding insert
  insert-ne-nil k v [] h = cc
  insert-ne-nil k v ((j, w) ∷ m) h = ground (arith)

  pub insert-All {μ} :
      (P : K × V → Type μ) (k : K) (v : V) (m : List (K × V))
      → P (k, v)
      → All P m
      → All P (insert k v m)
  unfolding insert
  insert-All P k v [] p h = (p, tt)
  insert-All P k v ((j, w) ∷ m) p h = elim (Bool-cases (j == k)) [
    | inl hit ↦ rw hit (p, h.1)
    | inr miss ↦ rw miss (h.0, insert-All P k v m p h.1)
  ]

  -- No key stands in two entries.
  abbrev pub Distinct : List (K × V) → Type κ
  Distinct [] = Unit
  Distinct ((k, v) ∷ m) = (get k m ≡ none) × Distinct m

  pub insert-Distinct : (k : K) (v : V) (m : List (K × V)) → Distinct m → Distinct (insert k v m)
  unfolding insert get
  insert-Distinct k v [] h = (refl, tt)
  insert-Distinct k v ((j, w) ∷ m) h = elim (Bool-cases (j == k)) [
    | inl hit ↦ rw hit (subst (λ a. get a m ≡ none) ((==_iff j k).0 hit) h.0, h.1)
    | inr miss ↦ rw miss (
      rw (get-insert k j v m) (ground (arith, ==_iff k j, ==_iff j k)),
      insert-Distinct k v m h.1,
    )
  ]

  pub get-filter :
      (k : K) (p : K × V → Bool) (m : List (K × V)) → get k m ≡ none → get k (filter p m) ≡ none
  unfolding get
  get-filter k p [] h = refl
  get-filter k p ((j, w) ∷ m) h = ground (arith, get-filter k p m)

  pub filter-Distinct : (p : K × V → Bool) (m : List (K × V)) → Distinct m → Distinct (filter p m)
  filter-Distinct p [] h = tt
  filter-Distinct p ((j, w) ∷ m) h = ground (arith, get-filter j p m h.0, filter-Distinct p m h.1)
