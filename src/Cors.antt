-- ===== src/Cors.antt =====
-- src/utils/cors.rs: the patterns of hosts. A text is the list of its bytes in UTF-8.
pub mod Hosts
pub mod Origins
mod Tests
use blockchain_api.Prelude.{
  ℕ, ◌-◌, zero, suc, Bool, true, false, not, ◌&&◌, ◌==◌, leb, nat_eq, List, [], ◌∷◌, Option, none,
  some, length, get_elem?, if◌then◌else◌,
}

abbrev pub star : ℕ
star = 42

abbrev pub dot : ℕ
dot = 46

abbrev pub bytes_eq : List ℕ → List ℕ → Bool
bytes_eq [] [] = true
bytes_eq [] (b ∷ ys) = false
bytes_eq (a ∷ xs) [] = false
bytes_eq (a ∷ xs) (b ∷ ys) = a == b && bytes_eq xs ys

-- `str::strip_prefix` with the prefix `*.`.
abbrev pub strip_wildcard : List ℕ → Option (List ℕ)
strip_wildcard [] = none
strip_wildcard (a ∷ []) = none
strip_wildcard (a ∷ b ∷ ys) = if a == star && b == dot then some ys else none

abbrev pub drop : ℕ → List ℕ → List ℕ
drop zero ys = ys
drop (suc n) [] = []
drop (suc n) (b ∷ ys) = drop n ys

-- `str::ends_with`, the text first.
abbrev pub ends_with : List ℕ → List ℕ → Bool
ends_with text' suffix =
    leb (length suffix) (length text')
    && bytes_eq (drop (length text' - length suffix) text') suffix

abbrev pub is_dot : Option ℕ → Bool
is_dot none = false
is_dot (some b) = b == dot

-- With what follows the `*.` of the pattern.
abbrev pub is_subdomain : List ℕ → List ℕ → Bool
is_subdomain suffix host =
    let prefix_len = length host - length suffix in
    if not (ends_with host suffix)
    then false
    else if prefix_len == 0
    then false
    else is_dot (get_elem? host (prefix_len - 1))

abbrev pub by_wildcard : Option (List ℕ) → List ℕ → List ℕ → Bool
by_wildcard (some suffix) pattern_lc host_lc = is_subdomain suffix host_lc
by_wildcard none pattern_lc host_lc = bytes_eq pattern_lc host_lc

unfoldable pub host_matches_pattern : List ℕ → List ℕ → Bool
host_matches_pattern pattern_lc host_lc =
    if bytes_eq pattern_lc (star ∷ [])
    then true
    else by_wildcard (strip_wildcard pattern_lc) pattern_lc host_lc
