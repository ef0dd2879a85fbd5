-- ===== src/Providers/Sampling.antt =====
-- `rand::distributions::WeightedIndex<u64>`, a third-party type, as an interface: its operations,
-- and what its documentation says of them. `Rng` is the state of the source of randomness.
pub mod Live
use blockchain_api.Prelude.{
  ℕ, ◌+◌, ◌<◌, ◌^◌, ◌≡◌, ◌⊎◌, inr, List, [], ◌∷◌, Option, some, length, get_elem?, set,
}
use blockchain_api.Errors.{Foreign}

pub record WeightedIndex : Type 1 where
  pub Dist : Type 0
  pub Rng : Type 0
  -- `WeightedIndex::new`: a distribution, or the error's text.
  pub new : List ℕ → Foreign ⊎ Dist
  pub sample : Dist → Rng → ℕ × Rng
  -- `update_weights(&[(i, &w)])`.
  pub update_weight : Dist → ℕ → ℕ → Foreign ⊎ Dist

abbrev pub total : List ℕ → ℕ
total [] = 0
total (w ∷ ws) = w + total ws

-- The documented behaviour, in terms of the weights that a distribution has: a distribution can be
-- made of weights whose total is positive and fits in 64 bits; a sample is an index of a positive
-- weight; a weight can be changed as long as the total stays positive.
pub record WeightedIndexLaws (W : WeightedIndex) : Type 0 where
  pub weights : W.Dist → List ℕ
  pub new_ok :
      (ws : List ℕ)
      → 0 < total ws
      → total ws < 2 ^ 64
      → (d : W.Dist) × (W.new ws ≡ inr d) × (weights d ≡ ws)
  pub sample_ok :
      (d : W.Dist) (r : W.Rng)
      → (w : ℕ) × (get_elem? (weights d) (W.sample d r).0 ≡ some w) × (0 < w)
  pub update_ok :
      (d : W.Dist) (i w : ℕ)
      → i < length (weights d)
      → 0 < total (set (weights d) i w)
      → (d' : W.Dist) × (W.update_weight d i w ≡ inr d') × (weights d' ≡ set (weights d) i w)
