-- ===== src/Providers/Weight.antt =====
-- src/providers/mod.rs: priorities and the weight that a provider has for a chain.
pub mod Bounds
use blockchain_api.Prelude.{
  ℕ, ◌+◌, ◌*◌, ◌/◌, ◌%◌, ◌^◌, String, Option, some, none, ltb, if◌then◌else◌, ◌==◌, string_eq,
}
use blockchain_api.Prelude.Text.{parse_u64}
use blockchain_api.Errors.{RpcError, RpcResult, ok, err, ◌>>=◌}

abbrev pub max_priority : ℕ
max_priority = 100

pub data Priority : Type 0 where
  max high normal low minimal disabled : Priority
  custom : ℕ → Priority

-- `PriorityValue::new`; the value of a `PriorityValue` is its number.
priority_value : ℕ → RpcResult ℕ
priority_value value =
    if ltb max_priority value
    then err (RpcError.other "Priority value cannot be greater than 100")
    else ok value

-- `impl TryInto<PriorityValue> for Priority`.
try_into : Priority → RpcResult ℕ
unfolding priority_value
try_into max = priority_value max_priority
try_into high = priority_value (max_priority / 4 + max_priority / 2)
try_into normal = priority_value (max_priority / 2)
try_into low = priority_value (max_priority / 4)
try_into minimal = priority_value 1
try_into disabled = priority_value 0
try_into (custom value) = priority_value value

-- `impl FromStr for Priority`; `none` is the `ParseIntError`.
unfoldable pub priority_from_str : String → Option Priority
priority_from_str s =
    if s == "Max"
    then some max
    else if s == "High"
    then some high
    else if s == "Normal"
    then some normal
    else if s == "Low"
    then some low
    else if s == "Minimal"
    then some minimal
    else if s == "Disabled"
    then some disabled
    else elim (parse_u64 s) [ none ↦ none | some value ↦ some (custom value) ]

-- `value` is an `AtomicU64`: each load and store is one step on the record that holds it.
pub record Weight : Type 0 where
  pub value : ℕ
  pub priority : ℕ

-- `Weight::new`.
unfoldable pub new : Priority → RpcResult Weight
unfolding try_into priority_value
new priority = do
  priority_val ← try_into priority
  priority' ← priority_value priority_val
  ok (record { value = priority_val; priority = priority' })

abbrev pub u64_mod : ℕ
u64_mod = 2 ^ 64

-- The product wraps, as in a release build.
unfoldable pub update_value : Weight → ℕ → Weight
update_value weight value = record weight {
  value = (value * weight.priority) % u64_mod / (max_priority / 2);
}
