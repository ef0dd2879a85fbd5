-- ===== src/Cors/Origins.antt =====
-- src/handlers/json_rpc/handler.rs: whether an entry of a project's allowed origins allows an
-- origin. The entry is trimmed and in lower case; the origin's URL is parsed by a library.
pub mod Entries
use blockchain_api.Prelude.{
  ℕ, ◌+◌, ◌-◌, ◌*◌, Bool, true, false, not, ◌&&◌, ◌||◌, ◌==◌, leb, nat_eq, List, [], ◌∷◌, Option,
  none, some, is_empty, if◌then◌else◌,
}
use mathlib.Core.Option
use blockchain_api.Cors.{bytes_eq, host_matches_pattern}

abbrev pub colon : ℕ
colon = 58

abbrev pub slash : ℕ
slash = 47

-- What `url::Url` says of an origin, in lower case.
pub record Url : Type 0 where
  pub scheme : List ℕ
  pub host_str : Option (List ℕ)
  pub port : Option ℕ

abbrev pub default_port_for_scheme : List ℕ → Option ℕ
default_port_for_scheme s =
    if bytes_eq s (104 ∷ 116 ∷ 116 ∷ 112 ∷ [])
    then some 80
    else if bytes_eq s (104 ∷ 116 ∷ 116 ∷ 112 ∷ 115 ∷ [])
    then some 443
    else none

abbrev pub or_default : Option ℕ → Option ℕ → Option ℕ
or_default (some port) default_port = some port
or_default none default_port = default_port

abbrev pub effective_port : Url → Option ℕ
effective_port url = or_default url.port (default_port_for_scheme url.scheme)

-- What follows `://` at the start of a text.
abbrev pub after_mark : List ℕ → Option (List ℕ)
after_mark [] = none
after_mark (a ∷ []) = none
after_mark (a ∷ b ∷ []) = none
after_mark (a ∷ b ∷ c ∷ ys) = if a == colon && (b == slash && c == slash) then some ys else none

abbrev pub prepend : ℕ → Option (List ℕ × List ℕ) → Option (List ℕ × List ℕ)
prepend b none = none
prepend b (some (front, back)) = some (b ∷ front, back)

abbrev pub cut_here : ℕ → Option (List ℕ) → Option (List ℕ × List ℕ) → Option (List ℕ × List ℕ)
cut_here b (some back) later = some ([], back)
cut_here b none later = prepend b later

-- `str::split_once` at `://`.
abbrev pub split_scheme : List ℕ → Option (List ℕ × List ℕ)
split_scheme [] = none
split_scheme (b ∷ ys) = cut_here b (after_mark (b ∷ ys)) (split_scheme ys)

-- `str::split_once` at `:`.
abbrev pub split_colon : List ℕ → Option (List ℕ × List ℕ)
split_colon [] = none
split_colon (b ∷ ys) = if b == colon then some ([], ys) else prepend b (split_colon ys)

-- The first part of `str::split` at `/`.
abbrev pub before_slash : List ℕ → List ℕ
before_slash [] = []
before_slash (b ∷ ys) = if b == slash then [] else b ∷ before_slash ys

-- `str::parse::<u16>`: an optional plus sign and decimal digits, without overflow.
abbrev pub digits : ℕ → List ℕ → Option ℕ
digits acc [] = some acc
digits acc (b ∷ ys) =
    if (leb 48 b && leb b 57) && leb (acc * 10 + (b - 48)) 65535
    then digits (acc * 10 + (b - 48)) ys
    else none

abbrev pub parse_u16 : List ℕ → Option ℕ
parse_u16 [] = none
parse_u16 (b ∷ ys) =
    if b == 43 then (if is_empty ys then none else digits 0 ys) else digits 0 (b ∷ ys)

abbrev pub is_port : Option ℕ → Option ℕ → Bool
is_port (some port_num) (some p) = p == port_num
is_port (some port_num) none = false
is_port none port = false

abbrev pub port_matches : Option (List ℕ) → Url → Bool
port_matches none url = true
port_matches (some port_s) url = is_port (parse_u16 port_s) (effective_port url)

abbrev pub parts_match : List ℕ → Option (List ℕ × List ℕ) → Url → List ℕ → Bool
parts_match host_port (some (host_pat, port_s)) url host_lc =
    host_matches_pattern host_pat host_lc && port_matches (some port_s) url
parts_match host_port none url host_lc =
    host_matches_pattern host_port host_lc && port_matches none url

abbrev pub host_port_matches : List ℕ → Url → Option (List ℕ) → Bool
host_port_matches host_port url none = false
host_port_matches host_port url (some host_lc) =
    not (is_empty host_port) && parts_match host_port (split_colon host_port) url host_lc

abbrev pub host_only : List ℕ → Option (List ℕ) → Bool
host_only entry_lc none = false
host_only entry_lc (some host_lc) = host_matches_pattern entry_lc host_lc

abbrev pub url_allowed : Option (List ℕ × List ℕ) → List ℕ → Option Url → Bool
url_allowed split entry_lc none = false
url_allowed (some (scheme_pat, after)) entry_lc (some url) =
    bytes_eq url.scheme scheme_pat && host_port_matches (before_slash after) url url.host_str
url_allowed none entry_lc (some url) = host_only entry_lc url.host_str

unfoldable pub entry_allows : List ℕ → List ℕ → Option Url → Bool
entry_allows entry_lc origin_lc parsed =
    bytes_eq entry_lc origin_lc || url_allowed (split_scheme entry_lc) entry_lc parsed
