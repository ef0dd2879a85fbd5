-- ===== src/Cors/Origins/Entries.antt =====
-- src/handlers/json_rpc/handler.rs: what an entry with a scheme, a host and a port allows.
use blockchain_api.Prelude.{
  ℕ, Bool, true, false, not, ◌&&◌, ◌||◌, ◌==◌, nat_eq, List, [], ◌∷◌, ◌++◌, Option, none, some, all,
  is_empty, ==_iff, ◌≡◌, refl, sym, ap, subst, ◌⊎◌, inl, inr, ◌↔◌, arith,
}
use blockchain_api.Cors.{bytes_eq, host_matches_pattern}
use blockchain_api.Cors.Hosts.{bytes_eq_sound, bytes_eq_refl, both}
use blockchain_api.Cors.Origins.{
  colon, slash, Url, after_mark, split_scheme, split_colon, before_slash, parse_u16, is_port,
  host_port_matches, effective_port, entry_allows, url_allowed,
}

-- A text without a byte.
abbrev pub Without : ℕ → List ℕ → Type 0
Without b xs = all (λ c. not (c == b)) xs ≡ true

head_differs : (b c : ℕ) (q : Bool) → (not (b == c) && q) ≡ true → (b == c) ≡ false
head_differs b c q h = ground arith

Without-tail : (b c : ℕ) (xs : List ℕ) → Without c (b ∷ xs) → Without c xs
Without-tail b c xs h = ground (arith)

no_mark : (b : ℕ) (ys : List ℕ) → (b == colon) ≡ false → after_mark (b ∷ ys) ≡ none
no_mark b [] h = refl
no_mark b (c ∷ []) h = refl
no_mark b (c ∷ d ∷ ys) h = rw h refl

split_scheme-append :
    (scheme after : List ℕ)
    → Without colon scheme
    → split_scheme (scheme ++ colon ∷ slash ∷ slash ∷ after) ≡ some (scheme, after)
split_scheme-append [] after h = refl
split_scheme-append (b ∷ scheme) after h =
    rw
      (
        no_mark b (scheme ++ colon ∷ slash ∷ slash ∷ after) (head_differs b _ _ h),
        split_scheme-append scheme after (Without-tail b colon scheme h),
      )
      refl

split_colon-append :
    (host port : List ℕ)
    → Without colon host
    → split_colon (host ++ colon ∷ port) ≡ some (host, port)
split_colon-append [] port h = refl
split_colon-append (b ∷ host) port h =
    rw (head_differs b colon _ h, split_colon-append host port (Without-tail b colon host h)) refl

-- The path of an entry, if it has one.
abbrev pub path_of : Option (List ℕ) → List ℕ
path_of none = []
path_of (some path) = slash ∷ path

before_slash-append :
    (xs : List ℕ) (path : Option (List ℕ))
    → Without slash xs
    → before_slash (xs ++ path_of path) ≡ xs
before_slash-append [] none h = refl
before_slash-append [] (some path) h = refl
before_slash-append (b ∷ xs) path h =
    rw (head_differs b slash _ h)
      (ap (λ t. b ∷ t) (before_slash-append xs path (Without-tail b slash xs h)))

Without-append : (b : ℕ) (xs ys : List ℕ) → Without b xs → Without b ys → Without b (xs ++ ys)
Without-append b [] ys h k = k
Without-append b (x ∷ xs) ys h k = ground (arith, Without-append b xs ys)

not_empty : (xs : List ℕ) (b : ℕ) (ys : List ℕ) → is_empty (xs ++ b ∷ ys) ≡ false
not_empty [] b ys = refl
not_empty (x ∷ xs) b ys = refl

either : (p q : Bool) → ((p || q) ≡ true) ↔ ((p ≡ true) ⊎ (q ≡ true))
either p q = ground arith

is_port_iff :
    (wanted port : Option ℕ)
    → (is_port wanted port ≡ true) ↔ ((n : ℕ) × (wanted ≡ some n) × (port ≡ some n))
is_port_iff (some m) (some p) =
    (λ h. (m, refl, ap (λ n. some n) ((==_iff p m).0 h)), λ found. ground (arith))
is_port_iff (some m) none = (λ h. ground (arith), λ found. ground (arith))
is_port_iff none port = (λ h. ground (arith), λ found. ground (arith))

some_inj : {x y : List ℕ} → ◌≡◌ {A = Option (List ℕ)} (some x) (some y) → x ≡ y
some_inj p = cc

-- What an entry with a port asks of a host.
abbrev pub IsHost : List ℕ → List ℕ → Url → List ℕ → Type 0
IsHost host port url host_lc =
    (host_matches_pattern host host_lc ≡ true)
    × (n : ℕ) × (parse_u16 port ≡ some n)
    × (effective_port url ≡ some n)

host_port_matches_iff :
    (host port : List ℕ) (url : Url) (known : Option (List ℕ))
    → Without colon host
    → (host_port_matches (host ++ colon ∷ port) url known ≡ true)
      ↔ ((host_lc : List ℕ) × (known ≡ some host_lc) × IsHost host port url host_lc)
host_port_matches_iff host port url none c = (λ h. ground (arith), λ found. ground (arith))
host_port_matches_iff host port url (some host_lc) c =
    rw (not_empty host colon port, split_colon-append host port c)
      (
        λ h.
            let (matched, at_port) = (both _ _).0 h in
            let (n, p, q) = (is_port_iff _ _).0 at_port in (host_lc, refl, (matched, n, p, q)),
        λ (found_host, e, (matched, n, p, q)). (both _ _).1 (
          subst (λ x. host_matches_pattern host x ≡ true) (sym (some_inj e)) matched,
          (is_port_iff (parse_u16 port) (effective_port url)).1 (n, p, q),
        ),
      )

abbrev pub entry_text : List ℕ → List ℕ → List ℕ → Option (List ℕ) → List ℕ
entry_text scheme host port path =
    scheme ++ colon ∷ slash ∷ slash ∷ ((host ++ colon ∷ port) ++ path_of path)

url_allowed_iff :
    (scheme host port : List ℕ) (path : Option (List ℕ)) (url : Url)
    → Without colon scheme
    → Without colon host
    → Without slash (host ++ colon ∷ port)
    → (url_allowed
          (split_scheme (entry_text scheme host port path))
          (entry_text scheme host port path)
          (some url)
        ≡ true)
      ↔ ((url.scheme ≡ scheme)
          × (host_lc : List ℕ) × (url.host_str ≡ some host_lc)
          × IsHost host port url host_lc)
url_allowed_iff scheme host port path url s h hp =
    rw
      (
        split_scheme-append scheme ((host ++ colon ∷ port) ++ path_of path) s,
        before_slash-append (host ++ colon ∷ port) path hp,
      )
      (
        λ allowed.
            let (same_scheme, at_host) = (both _ _).0 allowed in
            let (host_lc, e, is_host) =
              (host_port_matches_iff host port url url.host_str h).0 at_host in
            (bytes_eq_sound url.scheme scheme same_scheme, host_lc, e, is_host),
        λ (same_scheme, host_lc, e, is_host). (both _ _).1 (
          rw same_scheme (bytes_eq_refl scheme),
          (host_port_matches_iff host port url url.host_str h).1 (host_lc, e, is_host),
        ),
      )

-- For an entry of a scheme without a colon, a pattern of hosts without a colon or slash, a port
-- without a slash and perhaps a path: the entry allows an origin that a URL is parsed from exactly
-- when it is the origin's text, or the schemes are equal, the URL has a host that the pattern
-- matches, and the port is a number that is the port of the URL, given or of its scheme.
pub entry_allows_iff :
    (scheme host port : List ℕ) (path : Option (List ℕ)) (origin : List ℕ) (url : Url)
    → Without colon scheme
    → Without colon host
    → Without slash host
    → Without slash port
    → (entry_allows (entry_text scheme host port path) origin (some url) ≡ true) ↔ (
        (entry_text scheme host port path ≡ origin)
        ⊎ ((url.scheme ≡ scheme)
            × (host_lc : List ℕ) × (url.host_str ≡ some host_lc)
            × IsHost host port url host_lc))
unfolding entry_allows
entry_allows_iff scheme host port path origin url s h hs ps = (
  λ allowed. elim ((either _ _).0 allowed) [
    | inl e ↦ inl (bytes_eq_sound _ origin e)
    | inr u ↦ inr (
        (url_allowed_iff scheme host port path url s h
            (Without-append slash host (colon ∷ port) hs ps)).0
          u)
  ],
  λ found. elim found [
    | inl e ↦ (either _ _).1 (
        inl (
          subst (λ t. bytes_eq (entry_text scheme host port path) t ≡ true) e
            (bytes_eq_refl (entry_text scheme host port path))))
    | inr u ↦ (either _ _).1 (
        inr (
          (url_allowed_iff scheme host port path url s h
              (Without-append slash host (colon ∷ port) hs ps)).1
            u))
  ],
)
