-- ===== src/Cors/Tests.antt =====
-- src/utils/cors.rs and the entries of allowed origins on concrete hosts.
use blockchain_api.Prelude.{ℕ, true, List, [], ◌∷◌, some, ◌⊎◌, ◌≡◌, refl, ◌↔◌}
use blockchain_api.Cors.{star, dot, strip_wildcard, host_matches_pattern}
use blockchain_api.Cors.Hosts.{IsMatch, host_matches_pattern_iff}
use blockchain_api.Cors.Origins.{Url, entry_allows}
use blockchain_api.Cors.Origins.Entries.{IsHost, entry_text, entry_allows_iff}

-- `*.b` and `.b`: the part before the dot is empty.
abbrev pattern_bytes : List ℕ
pattern_bytes = star ∷ dot ∷ 98 ∷ []

abbrev host_bytes : List ℕ
host_bytes = dot ∷ 98 ∷ []

empty_subdomain : host_matches_pattern pattern_bytes host_bytes ≡ true
unfolding host_matches_pattern
empty_subdomain = refl

host_matches_pattern_iff_example : (host_matches_pattern pattern_bytes host_bytes ≡ true) ↔ (
    (pattern_bytes ≡ star ∷ []) ⊎ IsMatch (strip_wildcard pattern_bytes) pattern_bytes host_bytes)
host_matches_pattern_iff_example = host_matches_pattern_iff pattern_bytes host_bytes

-- `h://*.b:80/` and the URL `h://a.b:80`.
abbrev url : Url
url = record { scheme = 104 ∷ []; host_str = some (97 ∷ host_bytes); port = some 80 }

abbrev entry : List ℕ
entry = entry_text (104 ∷ []) pattern_bytes (56 ∷ 48 ∷ []) (some [])

entry_allows-url : entry_allows entry [] (some url) ≡ true
unfolding entry_allows host_matches_pattern
entry_allows-url = refl

entry_allows_iff_example : (entry_allows entry [] (some url) ≡ true) ↔ (
    (entry ≡ [])
    ⊎ ((url.scheme ≡ 104 ∷ [])
        × (host_lc : List ℕ) × (url.host_str ≡ some host_lc)
        × IsHost pattern_bytes (56 ∷ 48 ∷ []) url host_lc))
entry_allows_iff_example =
    entry_allows_iff (104 ∷ []) pattern_bytes (56 ∷ 48 ∷ []) (some []) [] url refl refl refl refl
