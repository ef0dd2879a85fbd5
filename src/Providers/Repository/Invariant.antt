-- ===== src/Providers/Repository/Invariant.antt =====
-- src/providers/mod.rs: what holds of a repository however its providers were added.
use blockchain_api.Prelude.{
  subst, ◌≡◌, ◌≢◌, refl, inl, inr, true, List, [], ◌∷◌, Option, none, some, Eq, ◌==◌, ==_iff,
  string_eq, All, All-map, any, arith, Bool-cases, if◌then◌else◌,
}
use blockchain_api.Prelude.Map.{
  get, insert, get-insert, get-insert_self, insert-ne-nil, insert-All, Distinct, insert-Distinct,
}
use blockchain_api.Providers.Kind.{ProviderKind, kind_eq}
use blockchain_api.Providers.Weight.{Weight}
use blockchain_api.Providers.Repository.{
  Weights, Shelf, set_insert, or_default, support, support_all, add,
}

abbrev pub HasProvider : {P : Type 0} → List (ProviderKind × P) → ProviderKind × Weight → Type 0
HasProvider {P} providers entry = (p : P) × (get entry.0 providers ≡ some p)

-- The providers of one key: at least one, none twice, and each of them registered.
abbrev pub IsServed : {P : Type 0} → List (ProviderKind × P) → Weights → Type 0
IsServed providers ws = (ws ≢ []) × Distinct ws × All (HasProvider providers) ws

any-set_insert {ℓ} :
    {A : Type ℓ} ⦃e : Eq A⦄ (a b : A) (xs : List A)
    → any (λ x. x == b) (set_insert a xs) ≡ (if a == b then true else any (λ x. x == b) xs)
any-set_insert a b xs = elim (Bool-cases (any (λ x. x == a) xs)) [
  | inl old ↦ elim (Bool-cases (a == b)) [
    | inl same ↦ rw (old, same) (subst (λ c. any (λ x. x == c) xs ≡ true) ((==_iff a b).0 same) old)
    | inr other ↦ rw (old, other)
  ]
  | inr new ↦ rw new (ground arith)
]

module _ {P : Type 0} (providers : List (ProviderKind × P)) (kind : ProviderKind) (p : P) where
  HasProvider-insert :
      (a : ProviderKind × Weight)
      → HasProvider providers a
      → HasProvider (insert kind p providers) a
  HasProvider-insert a (q, h) = elim (Bool-cases (kind == a.0)) [
    | inl hit ↦ (p, rw (get-insert kind a.0 p providers, hit))
    | inr miss ↦ (q, rw (get-insert kind a.0 p providers, miss) h)
  ]

  IsServed-insert :
      (w : Weight) (old : Option Weights)
      → get kind providers ≡ some p
      → ((ws : Weights) → old ≡ some ws → IsServed providers ws)
      → IsServed providers (insert kind w (or_default old))
  IsServed-insert w none h s =
      (insert-ne-nil kind w [], insert-Distinct kind w [] tt, insert-All _ kind w [] (p, h) tt)
  IsServed-insert w (some ws) h s = (
    insert-ne-nil kind w ws,
    insert-Distinct kind w ws (s ws refl).1,
    insert-All _ kind w ws (p, h) (s ws refl).2,
  )

module _ {K P : Type 0} ⦃e : Eq K⦄ where
  abbrev pub IsSupported : Shelf K P → K → Type 0
  IsSupported s key = any (λ x. x == key) s.supported ≡ true

  -- What is served is what is listed as supported.
  pub record IsConsistent (s : Shelf K P) : Type 0 where
    pub served : (key : K) (ws : Weights) → get key s.resolver ≡ some ws → IsServed s.providers ws
    pub listed : (key : K) → IsSupported s key → get key s.resolver ≢ none
    pub indexed : (key : K) → get key s.resolver ≢ none → IsSupported s key

  pub empty-IsConsistent : IsConsistent (record { supported = []; providers = []; resolver = [] })
  unfolding get
  empty-IsConsistent = record {
    served = λ key ws q. cc;
    listed = λ key q. cc;
    indexed = λ key q. absurd (q refl);
  }

  support-IsConsistent :
      (kind : ProviderKind) (p : P) (s : Shelf K P) (entry : K × Weight)
      → get kind s.providers ≡ some p
      → IsConsistent s
      → IsConsistent (support kind s entry)
  unfolding support
  support-IsConsistent kind p s (key, w) h c =
      let fresh : Weights = insert kind w (or_default (get key s.resolver)) in
      record {
        served = λ k ws q. elim (Bool-cases (key == k)) [
          | inl hit ↦
              subst (IsServed s.providers) (ground (arith, get-insert key k fresh s.resolver))
                (IsServed-insert s.providers kind p w (get key s.resolver) h (c.served key))
          | inr miss ↦ c.served k ws (ground (arith, get-insert key k fresh s.resolver))
        ];
        listed = λ k q. ground (
          arith,
          any-set_insert key k s.supported,
          get-insert key k fresh s.resolver,
          c.listed k,
        );
        indexed = λ k q. ground (
          arith,
          any-set_insert key k s.supported,
          get-insert key k fresh s.resolver,
          c.indexed k,
        );
      }

  support_all-IsConsistent :
      (kind : ProviderKind) (p : P) (s : Shelf K P) (entries : List (K × Weight))
      → get kind s.providers ≡ some p
      → IsConsistent s
      → IsConsistent (support_all kind s entries)
  unfolding support_all
  support_all-IsConsistent kind p s [] h c = c
  support_all-IsConsistent kind p s (entry ∷ entries) h c =
      support_all-IsConsistent kind p (support kind s entry) entries (unfold support in h)
        (support-IsConsistent kind p s entry h c)

  register-IsConsistent :
      (kind : ProviderKind) (p : P) (s : Shelf K P)
      → IsConsistent s
      → IsConsistent (record s { providers = insert kind p s.providers })
  register-IsConsistent kind p s c = record {
    served = λ k ws q.
        let (some', distinct, registered) = c.served k ws q in
        (some', distinct, All-map (HasProvider-insert s.providers kind p) ws registered);
    listed = c.listed;
    indexed = c.indexed;
  }

  pub add-IsConsistent :
      (kind : ProviderKind) (p : P) (entries : List (K × Weight)) (s : Shelf K P)
      → IsConsistent s
      → IsConsistent (add kind p entries s)
  unfolding add
  add-IsConsistent kind p entries s c =
      support_all-IsConsistent kind p _ entries (get-insert_self kind p s.providers)
        (register-IsConsistent kind p s c)
