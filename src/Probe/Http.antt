-- ===== src/Probe/Http.antt =====
-- src/probe/http.rs: the request a target stands for, and what its answer says. The stream and the
-- resolver are arguments, as is `String::from_utf8_lossy`.
pub mod Header
pub mod Heard
use nixnet_corbet_ch.Base.{
  ℕ, Bool, true, false, not, ◌&&◌, ◌||◌, List, [], ◌∷◌, ◌++◌, Option, none, some, ltb, leb, ◌==◌,
  if◌then◌else◌, ◌>>=◌, is_some, unwrap_or, length, Result, ok, err,
}
use nixnet_corbet_ch.Base.Int.{ℤ, pos, negsuc, eqb_ℤ}
use nixnet_corbet_ch.Base.Text.{Text, codes, is_empty, strip_prefix}
use nixnet_corbet_ch.Base.Str.{to_string}
use nixnet_corbet_ch.Base.Parse.{
  parse_unsigned, split_once, rsplit_once, contains, split_whitespace, first_line,
}
use nixnet_corbet_ch.Base.Parse
use nixnet_corbet_ch.Config.{Transport, effective_target}
use nixnet_corbet_ch.Probe.{ProbeResult}
use nixnet_corbet_ch.Probe.Dial.{
  Attempt, unhealthy, healthy_with, is_spent, dial, opened, resolved, no_time,
}

abbrev pub slash : ℕ
slash = 47

abbrev pub colon : ℕ
colon = 58

abbrev pub bracket_open : ℕ
bracket_open = 91

abbrev pub bracket_close : ℕ
bracket_close = 93

unfoldable pub split_host_path : Text → Text × Text
split_host_path rest = elim (split_once slash rest) [
  | none ↦ (rest, codes "/")
  | some (host, path) ↦ (host, slash ∷ path)
]

pub record Request : Type 0 where
  pub header_host : Text
  pub connect_host : Text
  pub connect_port : ℕ
  pub path : Text

pub record Authority : Type 0 where
  pub host : Text
  pub port : Option ℕ
  pub ipv6_literal : Bool

abbrev pub parse_u16 : Text → Option ℕ
parse_u16 = parse_unsigned 65535

bracketed : Bool → Text → Text
bracketed true host = bracket_open ∷ host ++ bracket_close ∷ []
bracketed false host = host

with_port : Option ℕ → Text → Text
with_port none s = s
with_port (some p) s = s ++ colon ∷ to_string (pos p)

-- `Authority::header_host`.
unfoldable pub header_host : Authority → Text
unfolding bracketed with_port
header_host a = with_port a.port (bracketed a.ipv6_literal a.host)

abbrev opaque : Text → Authority
opaque authority = record { host = authority; port = none; ipv6_literal = false }

-- The branch of an authority that does not begin with a bracket.
unfoldable pub split_plain : Text → Authority
split_plain authority = elim (rsplit_once colon authority) [
  | none ↦ opaque authority
  | some (head, tail) ↦
      if contains colon head
      then record { host = authority; port = none; ipv6_literal = true }
      else elim (parse_u16 tail) [
        | some port ↦ record { host = head; port = some port; ipv6_literal = false }
        | none ↦ opaque authority
      ]
]

unfoldable pub split_authority : Text → Authority
split_authority authority = elim (strip_prefix (bracket_open ∷ []) authority) [
  | none ↦ split_plain authority
  | some rest ↦ elim (split_once bracket_close rest) [
    | none ↦ opaque authority
    | some (literal, after) ↦ record {
      host = literal;
      port = strip_prefix (colon ∷ []) after >>= parse_u16;
      ipv6_literal = true;
    }
  ]
]

-- `u16::try_from`.
abbrev pub try_u16 : ℤ → Option ℕ
try_u16 (pos n) = if leb n 65535 then some n else none
try_u16 (negsuc n) = none

-- The port of the configuration, where the target names none.
unfoldable pub fill_port : ℤ → Authority → Authority
fill_port probe_port auth =
    if not (is_some auth.port)
      && (not (eqb_ℤ probe_port (pos 0)) && not (eqb_ℤ probe_port (pos 80)))
    then record auth { port = try_u16 probe_port }
    else auth

request : Authority → Text → Request
request auth path = record {
  header_host = header_host auth;
  connect_host = auth.host;
  connect_port = unwrap_or auth.port 80;
  path = path;
}

unfoldable pub plain_request : Text → ℤ → Text → Request
unfolding request
plain_request target probe_port probe_path = elim (strip_prefix (codes "http://") target) [
  | some rest ↦
      let (authority, path) = split_host_path rest in request (split_authority authority) path
  | none ↦
      request (fill_port probe_port (split_authority target))
        (if is_empty probe_path then codes "/" else probe_path)
]

abbrev crlf : List ℕ
crlf = 13 ∷ 10 ∷ []

-- What `do_get` writes.
unfoldable pub request_text : Text → Text → Text
request_text header_host path =
    codes "GET "
    ++ (path
        ++ (codes " HTTP/1.1"
            ++ (crlf
                ++ (codes "Host: "
                    ++ (header_host
                        ++ (crlf
                            ++ (codes "Connection: close"
                                ++ (crlf ++ (codes "User-Agent: nixnetd" ++ (crlf ++ crlf))))))))))

unfoldable pub has_crlf : List ℕ → Bool
has_crlf [] = false
has_crlf (b ∷ []) = false
has_crlf (b ∷ c ∷ bs) = (b == 13 && c == 10) || has_crlf (c ∷ bs)

-- The loop that reads up to a status line; a stream of which nothing is left to read is closed.
unfoldable pub read_status : List ℕ → List (Result Text (List ℕ)) → Result Text (List ℕ)
read_status buf [] = ok buf
read_status buf (err e ∷ reads) = if has_crlf buf || leb 4096 (length buf) then ok buf else err e
read_status buf (ok [] ∷ reads) = ok buf
read_status buf (ok (b ∷ bs) ∷ reads) =
    let rest = read_status (buf ++ b ∷ bs) reads in
    if has_crlf buf || leb 4096 (length buf) then ok buf else rest

-- `quoted` is the `{:?}` form of a text.
module _ (quoted : Text → Text) (from_utf8_lossy : List ℕ → Text) where
  code_of : Text → List Text → Result Text ℕ
  code_of status_line [] = err (codes "malformed http status line: " ++ quoted status_line)
  code_of status_line (version ∷ []) =
      err (codes "malformed http status line: " ++ quoted status_line)
  code_of status_line (version ∷ code ∷ rest) = elim (parse_u16 code) [
    | some n ↦ ok n
    | none ↦ err (codes "malformed http status code: " ++ quoted code)
  ]

  unfoldable pub status_code : List ℕ → Result Text ℕ
  unfolding code_of
  status_code buf =
      let line = first_line (from_utf8_lossy buf) in code_of line (split_whitespace line)

  status_of : Result Text (List ℕ) → Result Text ℕ
  status_of (err e) = err e
  status_of (ok buf) = status_code buf

  -- From what writing the request and reading the answer gave.
  unfoldable pub do_get : Result Text (Unit {0}) → List (Result Text (List ℕ)) → Result Text ℕ
  unfolding status_of
  do_get (err e) reads = err e
  do_get (ok done) reads = status_of (read_status [] reads)

  unfoldable pub answered : Text → Result Text ℕ → ProbeResult
  answered addr (err e) = unhealthy (addr ++ (codes ": " ++ e))
  answered addr (ok code) = record {
    healthy = ltb code 400;
    address = [];
    detail = codes "http status " ++ (to_string (pos code) ++ (codes " (" ++ (addr ++ codes ")")));
  }

  -- `send` is the exchange over the open connection to an address: the outcome of writing a request
  -- to it, and the reads.
  module _ (to_socket_addrs : Text → ℕ → Result Text (List Attempt))
      (send : Attempt → Text → Result Text (Unit {0}) × List (Result Text (List ℕ))) where
    unfoldable pub http_connected : ℕ → Request → Attempt → ProbeResult → ProbeResult
    unfolding answered
    http_connected timeout req a ended =
        if is_spent timeout a.elapsed_after
        then ended
        else let (written, reads) = send a (request_text req.header_host req.path) in
          answered a.addr (do_get written reads)

    unsupported : Text → Text
    unsupported host =
        codes "http probe: "
        ++ (host
            ++ codes
                " uses https://, which this build's plain-HTTP prober does not support (no TLS client wired up) -- use method=tcp/icmp for reachability, or method=exec with a script that curls it")

    unfoldable pub http_run : Transport → ℕ → Result Text ProbeResult
    unfolding unsupported
    http_run t timeout =
        let target = effective_target t in
        if is_empty target
        then err (codes "http probe: no target/address configured")
        else elim (strip_prefix (codes "https://") target) [
          | some rest ↦ ok (unhealthy (unsupported (split_host_path rest).0))
          | none ↦
              let req = plain_request target t.probe.port t.probe.path in
              ok (
                resolved (dial t timeout (http_connected timeout req) no_time)
                  (to_socket_addrs req.connect_host req.connect_port))
        ]

-- Stands for all that the definitions above compute with: a test unfolds this name.
unfoldable pub runs : Unit {0}
unfolding Parse.runs strip_prefix effective_target split_host_path header_host split_plain
    split_authority fill_port plain_request request_text has_crlf read_status status_code do_get
    opened dial http_connected http_run
runs = tt
