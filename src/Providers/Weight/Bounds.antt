-- ===== src/Providers/Weight/Bounds.antt =====
-- src/providers/mod.rs: the range of a weight.
use blockchain_api.Prelude.{ℕ, ◌*◌, ◌/◌, ◌≤◌, ◌≡◌, arith}
use blockchain_api.Errors.{ok}
use blockchain_api.Providers.Weight.{Priority, custom, max, Weight, new, update_value}

-- What `new` makes, and updates keep.
pub record IsValid (w : Weight) : Type 0 where
  pub bounded : w.priority ≤ 100

pub new-IsValid : (p : Priority) {w : Weight} → new p ≡ ok w → IsValid w
unfolding new
new-IsValid (custom value) e = ground arith
new-IsValid max e = ground arith
new-IsValid _ e = ground arith

scaled_le : (rate p : ℕ) → rate ≤ 10000 → p ≤ 100 → rate * p ≤ 1000000
scaled_le rate p h k = grind (arith)

-- For a priority of at most 100, an update by a success rate of at most 10000 (in hundredths of a
-- percent) never wraps: the weight becomes the rate scaled by priority over 50, rounded down,
-- which is at most 20000, and the priority stays.
pub update_value_exact :
    (w : Weight) (rate : ℕ)
    → IsValid w
    → rate ≤ 10000
    → ((update_value w rate).value ≡ rate * w.priority / 50)
      × ((update_value w rate).value ≤ 20000)
      × ((update_value w rate).priority ≡ w.priority)
unfolding update_value
update_value_exact w rate v h = omega (arith, scaled_le rate w.priority h v.bounded)
