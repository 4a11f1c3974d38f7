-- ===== src/Tests/Http.antt =====
-- The authorities of the tests in src/probe/http.rs, and a probe of a server that answers.
use nixnet_corbet_ch.Base.{
  ℕ, ◌≡◌, refl, true, false, List, [], ◌∷◌, none, some, In, arith, Result, ok,
}
use nixnet_corbet_ch.Base.Int.{pos}
use nixnet_corbet_ch.Base.Text.{Text, codes, strip_prefix}
use nixnet_corbet_ch.Config.{Transport, effective_target}
use nixnet_corbet_ch.Probe.{ProbeResult}
use nixnet_corbet_ch.Probe.Dial.{Attempt}
use nixnet_corbet_ch.Probe.Dial.Opened.{IsOpened, IsServed, http_run-IsServed}
use nixnet_corbet_ch.Probe.Http
use nixnet_corbet_ch.Probe.Http.{
  Authority, split_authority, header_host, Request, plain_request, http_run,
}
use nixnet_corbet_ch.Probe.Http.Header.{IsWellFormed}
use nixnet_corbet_ch.Tests.Fixtures.{spec}

-- `[2001:db8::1]:8080`.
abbrev literal : Authority
literal = record { host = codes "2001:db8::1"; port = some 8080; ipv6_literal = true }

literal-IsWellFormed : IsWellFormed literal
unfolding Http.runs
literal-IsWellFormed = record {
  port_fits = omega arith;
  literal = λ e. refl;
  plain = λ e. cc;
  bare = λ e. cc;
}

split_bracketed_literal : split_authority (codes "[2001:db8::1]:8080") ≡ literal
unfolding Http.runs
split_bracketed_literal = refl

split_bare_literal :
    split_authority (codes "2001:db8::1")
    ≡ record { host = codes "2001:db8::1"; port = none; ipv6_literal = true }
unfolding Http.runs
split_bare_literal = refl

split_not_a_port :
    split_authority (codes "host:notaport")
    ≡ record { host = codes "host:notaport"; port = none; ipv6_literal = false }
unfolding Http.runs
split_not_a_port = refl

-- A bare literal takes the configured port.
abbrev portless : Authority
portless = record { host = codes "2001:db8::1"; port = none; ipv6_literal = true }

portless-IsWellFormed : IsWellFormed portless
unfolding Http.runs
portless-IsWellFormed = record {
  port_fits = tt;
  literal = λ e. refl;
  plain = λ e. cc;
  bare = λ e. cc;
}

fills_port : (plain_request (codes "2001:db8::1") (pos 8080) []).connect_port ≡ 8080
unfolding Http.runs
fills_port = refl

abbrev web : Transport
web = spec (pos 10) (codes "192.0.2.10") []

abbrev attempt : Attempt
attempt = record {
  addr = codes "192.0.2.10:22";
  elapsed = 1;
  socket = ok tt;
  bound = ok tt;
  connected = ok tt;
  elapsed_after = 2;
}

abbrev resolver : Text → ℕ → Result Text (List Attempt)
resolver host port = ok (attempt ∷ [])

abbrev same_text : Text → Text
same_text s = s

-- The answer comes in two parts.
abbrev server : Attempt → Text → Result Text (Unit {0}) × List (Result Text (List ℕ))
server a request = (ok tt, ok (codes "HTTP/1.1 20") ∷ ok (codes "0 OK\r\n\r\n") ∷ [])

abbrev served : ProbeResult
served = record { healthy = true; address = []; detail = codes "http status 200 (192.0.2.10:22)" }

http_ok : http_run same_text same_text resolver server web 800 ≡ ok served
unfolding Http.runs
http_ok = refl

http_run-IsServed_example :
    let req = plain_request (effective_target web) web.probe.port web.probe.path in
    (strip_prefix (codes "https://") (effective_target web) ≡ none)
    × ((attempts : List Attempt) × (a : Attempt) × (resolver req.connect_host req.connect_port
          ≡ ok attempts)
        × In a attempts
        × IsOpened web 800 a
        × IsServed same_text same_text resolver server 800 req a)
http_run-IsServed_example =
    http_run-IsServed same_text same_text resolver server web 800 served http_ok refl
