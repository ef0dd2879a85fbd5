-- ===== src/Providers/Sampling/Live.antt =====
-- The keys that a weighted sample can still give: those at a positive weight.
use mathlib.Core.List.{Perm, Permᴰ}
use mathlib.Core.Logic.{∥∥₁_elim}
use native.Mathlib.Nat.{ℕ_set}
use mathlib.Core.List.Perm
use blockchain_api.Prelude.{
  ℕ, zero, suc, ◌<◌, ◌≡◌, refl, List, [], ◌∷◌, some, length, get_elem?, set, All, ltb, lt→ltb,
  if◌then◌else◌, arith, ap, ◌∙◌, Bool-cases, inl, inr,
}
use blockchain_api.Providers.Sampling.{total}

module _ {ℓ} {A : Type ℓ} where
  abbrev pub live : List A → List ℕ → List A
  live [] ws = []
  live (k ∷ ks) [] = []
  live (k ∷ ks) (w ∷ ws) = if ltb 0 w then k ∷ live ks ws else live ks ws

  -- A key that is drawn leaves when its weight is set to 0, and no other does.
  pub live-set_zero :
      (ks : List A) (ws : List ℕ) (i : ℕ) {w : ℕ}
      → length ks ≡ length ws
      → get_elem? ws i ≡ some w
      → 0 < w
      → (k : A) × (get_elem? ks i ≡ some k) × Perm (live ks ws) (k ∷ live ks (set ws i 0))
  live-set_zero [] [] i l e h = cc
  live-set_zero [] (v ∷ ws) i l e h = absurd (omega arith)
  live-set_zero (k ∷ ks) [] i l e h = absurd (omega arith)
  live-set_zero (k ∷ ks) (v ∷ ws) zero {w} l e h =
      let v_pos : 0 < v = ground arith in (k, refl, rw (lt→ltb 0 v v_pos) (Perm.refl _))
  live-set_zero (k ∷ ks) (v ∷ ws) (suc i) l e h =
      let (k', found, p) = live-set_zero ks ws i (omega arith) e h in
      elim (Bool-cases (ltb 0 v)) [
        | inl pos ↦ (k', found, rw pos (Perm.trans (Perm.cons k p) (Perm.swap k' k _)))
        | inr zer ↦ (k', found, rw zer p)
      ]

  pub live-total : (ks : List A) (ws : List ℕ) → 0 < length (live ks ws) → 0 < total ws
  live-total [] ws h = absurd (omega arith)
  live-total (k ∷ ks) [] h = absurd (omega arith)
  live-total (k ∷ ks) (w ∷ ws) h = ground (arith, live-total ks ws)

  pub live_full :
      (ks : List A) (ws : List ℕ) → length ks ≡ length ws → All (λ w. 0 < w) ws → live ks ws ≡ ks
  live_full [] ws l h = refl
  live_full (k ∷ ks) [] l h = absurd (omega arith)
  live_full (k ∷ ks) (w ∷ ws) l (p, h) =
      rw (lt→ltb 0 w p) (ap (◌∷◌ k) (live_full ks ws (omega arith) h))

  length-permᴰ : {xs ys : List A} → Permᴰ xs ys → length xs ≡ length ys
  length-permᴰ Permᴰ.nil = refl
  length-permᴰ (Permᴰ.cons e p) = ap suc (length-permᴰ p)
  length-permᴰ (Permᴰ.swap e f) = refl
  length-permᴰ (Permᴰ.trans p q) = length-permᴰ p ∙ length-permᴰ q

  pub length-perm : {xs ys : List A} → Perm xs ys → length xs ≡ length ys
  length-perm {xs} {ys} p = ∥∥₁_elim p (ℕ_set (length xs) (length ys)) length-permᴰ
