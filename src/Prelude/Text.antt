-- ===== src/Prelude/Text.antt =====
-- Texts that the program walks: as lists of code points.
use Prim.Native.Char.{Char, code}
use Prim.Native.Nat.{ℕ, zero, suc, ◌+◌, ◌-◌, ◌*◌, ◌/◌, ◌%◌}
use Prim.Native.String.{String, ◌++◌}
use mathlib.Core.Path.{◌≡◌, refl}
use mathlib.Core.Bool.{Bool, true, false, ◌&&◌}
use mathlib.Core.Option.{Option, none, some}
use blockchain_api.Prelude.Tests.{ltb, leb, ◌==◌, nat_eq, string_eq, if◌then◌else◌}
use text.Mathlib.Text.{find?}

-- `str::contains`.
abbrev pub contains : String → String → Bool
contains s t = elim (find? s t) [ none ↦ false | some _ ↦ true ]

-- `str::starts_with`, the prefix first.
abbrev pub starts_with : String → String → Bool
starts_with String.[] t = true
starts_with (String.◌∷◌ c s) String.[] = false
starts_with (String.◌∷◌ c s) (String.◌∷◌ d t) = code c == code d && starts_with s t

-- A decimal digit.
abbrev pub digit : ℕ → String
digit zero = "0"
digit (suc zero) = "1"
digit (suc (suc zero)) = "2"
digit (suc (suc (suc zero))) = "3"
digit (suc (suc (suc (suc zero)))) = "4"
digit (suc (suc (suc (suc (suc zero))))) = "5"
digit (suc (suc (suc (suc (suc (suc zero)))))) = "6"
digit (suc (suc (suc (suc (suc (suc (suc zero))))))) = "7"
digit (suc (suc (suc (suc (suc (suc (suc (suc zero)))))))) = "8"
digit _ = "9"

-- `to_string` of an unsigned integer, on fuel: a number below `2 ^ f` has at most `f` digits.
decimal_from : ℕ → ℕ → String
decimal_from zero n = ""
decimal_from (suc f) n =
    let rest = decimal_from f (n / 10) ++ digit (n % 10) in if ltb n 10 then digit n else rest

-- Enough for the 256-bit integers.
unfoldable pub decimal : ℕ → String
unfolding decimal_from
decimal n = decimal_from 256 n

decimal_runs : decimal 1024 ≡ "1024"
unfolding decimal
decimal_runs = refl

-- The value of a decimal digit.
abbrev pub digit_value : Char → Option ℕ
digit_value c = if leb 48 (code c) && leb (code c) 57 then some (code c - 48) else none

abbrev pub u64_max : ℕ
u64_max = 18446744073709551615

-- The digit loop of `u64::from_str`, with its checked multiplication and addition.
parse_from : ℕ → String → Option ℕ
parse_from acc String.[] = some acc
parse_from acc (String.◌∷◌ c s) = elim (digit_value c) [
  | none ↦ none
  | some d ↦ if leb (acc * 10 + d) u64_max then parse_from (acc * 10 + d) s else none
]

-- `parse::<u64>`: one leading `+` is allowed, no digit is refused.
unfoldable pub parse_u64 : String → Option ℕ
unfolding parse_from
parse_u64 String.[] = none
parse_u64 (String.◌∷◌ c s) =
    if code c == 43
    then (if s == "" then none else parse_from 0 s)
    else parse_from 0 (String.◌∷◌ c s)

parse_runs :
    (parse_u64 "+17" ≡ some 17)
    × (parse_u64 "1a" ≡ none)
    × (parse_u64 "18446744073709551616" ≡ none)
unfolding parse_u64
parse_runs = (refl, refl, refl)
