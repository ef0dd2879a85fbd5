-- ===== src/Providers/Kind/Names.antt =====
-- src/providers/mod.rs: printing a provider kind and parsing it back.
use mathlib.Core.Option
use blockchain_api.Prelude.{
  String, ◌≡◌, refl, ap, ◌≢◌, inl, inr, some, string_eq, All, Option-cases, all-All, All-map,
  ==_iff, ◌==◌,
}
use blockchain_api.Prelude.Map.{get, get-All}
use blockchain_api.Providers.Kind.{ProviderKind, generic, lifi, aurora, display, from_str, arms}

arms-display : All (λ (a : String × ProviderKind). display a.1 ≡ a.0) arms
unfolding display arms
arms-display =
    All-map (λ a. (==_iff (display a.1) a.0).0) arms (all-All (λ a. display a.1 == a.0) arms refl)

-- Parsing a name never fails and never changes it: whatever text is parsed, the kind that comes
-- out is displayed as that text.
pub display-from_str : (s : String) → Option.map display (from_str s) ≡ some s
unfolding from_str display
display-from_str s = elim (Option-cases (get s arms)) [
  | inl e ↦ rw e
  | inr (k, e) ↦ rw e (ap some (get-All (λ a. display a.1 ≡ a.0) s arms arms-display e))
]

-- The kind that the name of a kind is parsed to: `Lifi` has no arm of its own.
abbrev pub reparsed : ProviderKind → ProviderKind
reparsed lifi = generic "Lifi"
reparsed k = k

-- Every kind but the generic ones is parsed back from its name, except that `Lifi` comes back as
-- the generic provider of that name.
pub from_str-display :
    (k : ProviderKind) → ((n : String) → k ≢ generic n) → from_str (display k) ≡ some (reparsed k)
unfolding from_str display arms get
from_str-display aurora h = refl
from_str-display (generic n) h = absurd (h n refl)
from_str-display _ h = refl
