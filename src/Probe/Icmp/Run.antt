-- ===== src/Probe/Icmp/Run.antt =====
-- `run` of src/probe/icmp.rs: a probe whole, over what the resolver, the socket and the clocks give.
pub mod Healthy
use nixnet_corbet_ch.Base.{
  ℕ, ◌+◌, ◌*◌, ◌%◌, Bool, not, ◌&&◌, List, [], ◌∷◌, ◌++◌, Option, none, some, Result, ok, err,
  if◌then◌else◌,
}
use nixnet_corbet_ch.Base.Int.{pos}
use nixnet_corbet_ch.Base.Text.{Text, codes, is_empty}
use nixnet_corbet_ch.Base.Str.{as_bytes, to_string, xor}
use nixnet_corbet_ch.Base.Net.{is_ipv4_addr}
use nixnet_corbet_ch.Config.{Transport, effective_target}
use nixnet_corbet_ch.Probe.{ProbeResult}
use nixnet_corbet_ch.Probe.Icmp.{Listening, build_echo_request, unhealthy, await_reply}

-- An IPv4 address of the resolver as it is displayed; `none` is one of another family.
find_ipv4 : List (Option Text) → Result Text Text
find_ipv4 [] = err (codes "no IPv4 address found")
find_ipv4 (none ∷ addrs) = find_ipv4 addrs
find_ipv4 (some v4 ∷ addrs) = ok v4

looked_up : Result Text (List (Option Text)) → Result Text Text
unfolding find_ipv4
looked_up (err e) = err e
looked_up (ok addrs) = find_ipv4 addrs

-- A literal stands for itself: Rust reads no IPv4 address but in the form that it displays.
unfoldable pub resolve_ipv4 : (Text → Result Text (List (Option Text))) → Text → Result Text Text
unfolding looked_up
resolve_ipv4 to_socket_addrs target =
    if is_ipv4_addr target then ok target else looked_up (to_socket_addrs target)

-- The low bits of the wall clock and of the process id, and the counter, which the next probe finds
-- one higher.
unfoldable pub next_echo_identity : (nanos pid counter : ℕ) → (ℕ × ℕ) × ℕ
next_echo_identity nanos pid counter =
    ((xor 16 (nanos % 65536) (pid % 65536), counter), (counter + 1) % 65536)

-- What the world gives one probe.
pub record Wire : Type 0 where
  pub to_socket_addrs : Text → Result Text (List (Option Text))
  pub socket : Result Text (Unit {0})
  pub bind_to_device : Text → Result Text (Unit {0})
  pub nanos : ℕ
  pub pid : ℕ
  pub send_to : (packet : List ℕ) → (dst : Text) → Result Text (Unit {0})
  pub rounds : List Listening

-- The instants count from before the request; `none` while the loop waits.
module _ (wire : Wire) (t : Transport) (timeout_ms counter : ℕ) where
  abbrev pub identity : ℕ × ℕ
  identity = (next_echo_identity wire.nanos wire.pid counter).0

  abbrev pub request : List ℕ
  request = build_echo_request identity.0 identity.1 (as_bytes (codes "nixnet"))

  abbrev pub expired_text : Text
  expired_text = codes "no reply within " ++ (to_string (pos timeout_ms) ++ codes "ms")

  awaited : Text → Result Text (Unit {0}) → Option ProbeResult
  awaited dst (err e) = some (unhealthy (codes "write: " ++ e))
  awaited dst (ok done) =
      await_reply (timeout_ms * 1000000) expired_text dst identity.0 identity.1 wire.rounds

  bound_socket : Text → Result Text (Unit {0}) → Option ProbeResult
  unfolding awaited
  bound_socket dst (err e) =
      some (unhealthy (codes "bind to " ++ (t.interface ++ (codes ": " ++ e))))
  bound_socket dst (ok done) = awaited dst (wire.send_to request dst)

  with_socket : Text → Result Text (Unit {0}) → Option ProbeResult
  unfolding bound_socket
  with_socket dst (err e) = some (unhealthy (codes "listen (need CAP_NET_RAW): " ++ e))
  with_socket dst (ok done) = bound_socket dst (
      if t.probe.bind_to_interface && not (is_empty t.interface)
      then wire.bind_to_device t.interface
      else ok tt)

  to_target : Result Text Text → Option ProbeResult
  unfolding with_socket
  to_target (err e) = some (unhealthy (codes "resolve: " ++ e))
  to_target (ok dst) = with_socket dst wire.socket

  unfoldable pub icmp_run : Result Text (Option ProbeResult)
  unfolding to_target
  icmp_run =
      if is_empty (effective_target t)
      then err (codes "icmp probe: no target/address configured")
      else ok (to_target (resolve_ipv4 wire.to_socket_addrs (effective_target t)))

-- Stands for the definitions above: a test unfolds this name.
unfoldable pub runs : Unit {0}
unfolding resolve_ipv4 next_echo_identity icmp_run
runs = tt
