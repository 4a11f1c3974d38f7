-- ===== src/Probe/Http/Header.antt =====
-- The `Host` header of src/probe/http.rs.
use nixnet_corbet_ch.Base.{
  ℕ, ◌≤◌, ◌<◌, ◌^◌, ◌≡◌, refl, ap, ◌∙◌, true, false, Bool, [], ◌∷◌, ◌++◌, Option, none, some, ◌==◌,
  leb, if◌then◌else◌, append_assoc, arith, inl, inr, ◌>>=◌, unwrap_or, Bool-cases,
}
use nixnet_corbet_ch.Base.Int.{ℤ, pos, negsuc}
use nixnet_corbet_ch.Base.Text.{Text, codes, strip_prefix}
use nixnet_corbet_ch.Base.Str.{to_string}
use nixnet_corbet_ch.Base.Parse.{
  parse_unsigned-digits, split_once-append, rsplit_once-none, rsplit_once-append, contains,
  contains-digits,
}
use nixnet_corbet_ch.Probe.Http.{
  Authority, header_host, bracketed, with_port, split_plain, split_authority, colon, bracket_open,
  bracket_close, parse_u16, fill_port, plain_request, request,
}

abbrev HasPort : Option ℕ → Type 0
HasPort none = Unit {0}
HasPort (some p) = p ≤ 65535

-- An IPv6 literal holds no closing bracket; another host holds no colon and begins with no bracket.
pub record IsWellFormed (a : Authority) : Type 0 where
  pub port_fits : HasPort a.port
  pub literal : a.ipv6_literal ≡ true → contains bracket_close a.host ≡ false
  pub plain : a.ipv6_literal ≡ false → contains colon a.host ≡ false
  pub bare : a.ipv6_literal ≡ false → strip_prefix (bracket_open ∷ []) a.host ≡ none

port_lt : (p : ℕ) → p ≤ 65535 → p < 10 ^ 20
port_lt p h = omega (arith, h)

parse-port : (p : ℕ) → p ≤ 65535 → parse_u16 (to_string (pos p)) ≡ some p
unfolding to_string
parse-port p h = parse_unsigned-digits 65535 p (port_lt p h) h

contains-port : (p : ℕ) → contains colon (to_string (pos p)) ≡ false
unfolding to_string contains
contains-port p = contains-digits colon 20 p [] refl refl

split_plain-port :
    (host : Text) (p : ℕ)
    → p ≤ 65535
    → contains colon host ≡ false
    → split_plain (host ++ colon ∷ to_string (pos p))
      ≡ record { host = host; port = some p; ipv6_literal = false }
unfolding split_plain
split_plain-port host p le plain =
    rw (rsplit_once-append colon host (to_string (pos p)) (contains-port p), split_plain)
      (rw (plain, if◌then◌else◌) (rw (parse-port p le) refl))

split_plain-none :
    (host : Text)
    → contains colon host ≡ false
    → split_plain host ≡ record { host = host; port = none; ipv6_literal = false }
unfolding split_plain
split_plain-none host plain = rw (rsplit_once-none colon host plain, split_plain) refl

bare-append :
    (host t : Text)
    → strip_prefix (bracket_open ∷ []) host ≡ none
    → strip_prefix (bracket_open ∷ []) (host ++ colon ∷ t) ≡ none
unfolding strip_prefix
bare-append [] t h = refl
bare-append (c ∷ cs) t h = elim (Bool-cases (bracket_open == c)) [
  | inl e ↦ absurd (cc (rw (e, if◌then◌else◌) at h))
  | inr e ↦ rw (e, if◌then◌else◌) refl
]

split_bracketed :
    (host after : Text)
    → contains bracket_close host ≡ false
    → split_authority (bracket_open ∷ host ++ bracket_close ∷ after) ≡ record {
      host = host;
      port = strip_prefix (colon ∷ []) after >>= parse_u16;
      ipv6_literal = true;
    }
unfolding split_authority strip_prefix
split_bracketed host after closed =
    rw (split_once-append bracket_close host after closed, split_authority) refl

split_of_plain :
    (authority : Text)
    → strip_prefix (bracket_open ∷ []) authority ≡ none
    → split_authority authority ≡ split_plain authority
unfolding split_authority
split_of_plain authority bare = rw (bare, split_authority) refl

split-header :
    (host : Text) (port : Option ℕ) (v6 : Bool)
    → IsWellFormed (record { host = host; port = port; ipv6_literal = v6 })
    → split_authority (with_port port (bracketed v6 host))
      ≡ record { host = host; port = port; ipv6_literal = v6 }
unfolding with_port bracketed strip_prefix
split-header host none true h = split_bracketed host [] (h.literal refl) ∙ refl
split-header host (some p) true h =
    ap (λ s. split_authority (bracket_open ∷ s))
      (append_assoc host (bracket_close ∷ []) (colon ∷ to_string (pos p)))
    ∙ split_bracketed host (colon ∷ to_string (pos p)) (h.literal refl)
    ∙ ap (λ n. record { host = host; port = n; ipv6_literal = true }) (parse-port p h.port_fits)
split-header host none false h =
    split_of_plain host (h.bare refl) ∙ split_plain-none host (h.plain refl)
split-header host (some p) false h =
    split_of_plain (host ++ colon ∷ to_string (pos p))
      (bare-append host (to_string (pos p)) (h.bare refl))
    ∙ split_plain-port host p h.port_fits (h.plain refl)

-- Where an authority's IPv6 literal holds no closing bracket, another host no colon and no leading
-- bracket, and its port fits 16 bits, its `Host` header splits into the same authority.
pub split_authority-header_host :
    (a : Authority) → IsWellFormed a → split_authority (header_host a) ≡ a
unfolding header_host
split_authority-header_host a h = split-header a.host a.port a.ipv6_literal h

fill_port-fits :
    (probe_port : ℤ) (a : Authority) → HasPort a.port → HasPort (fill_port probe_port a).port
unfolding fill_port
fill_port-fits (negsuc n) a h = ground arith
fill_port-fits (pos n) a h = elim (Bool-cases (leb n 65535)) [
  | inl e ↦ ground (arith, e)
  | inr e ↦ ground (arith, e)
]

fill_port-host : (probe_port : ℤ) (a : Authority) → (fill_port probe_port a).host ≡ a.host
unfolding fill_port
fill_port-host probe_port a = ground arith

fill_port-IsWellFormed :
    (probe_port : ℤ) (a : Authority) → IsWellFormed a → IsWellFormed (fill_port probe_port a)
unfolding fill_port
fill_port-IsWellFormed probe_port a h = record {
  port_fits = fill_port-fits probe_port a h.port_fits;
  literal = ground (arith, h.literal);
  plain = ground (arith, h.plain);
  bare = ground (arith, h.bare);
}

-- Of a target without a scheme that is written as a well-formed authority, the `Host` header of the
-- request names the very host and port that the probe connects to, 80 where it names none; whether
-- the port is the target's own or the configured one, and for IPv6 literals too.
pub plain_request_names :
    (a : Authority) (probe_port : ℤ) (probe_path : Text)
    → IsWellFormed a
    → strip_prefix (codes "http://") (header_host a) ≡ none
    → let req = plain_request (header_host a) probe_port probe_path in
      let named = split_authority req.header_host in
      (req.connect_host ≡ a.host)
      × (named.host ≡ req.connect_host)
      × (unwrap_or named.port 80 ≡ req.connect_port)
unfolding plain_request request
plain_request_names a probe_port probe_path h bare =
    let filled = fill_port probe_port a in
    let same = split_authority-header_host a h in
    let again = split_authority-header_host filled (fill_port-IsWellFormed probe_port a h) in
    rw (bare, plain_request)
      (rw same (
        fill_port-host probe_port a,
        ap (λ (b : Authority). b.host) again,
        ap (λ (b : Authority). unwrap_or b.port 80) again,
      ))
