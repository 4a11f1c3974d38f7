-- ===== src/Probe/Dial.antt =====
-- The address loop that `run` of src/probe/tcp.rs and of src/probe/http.rs share, and the first of the
-- two. What the resolver, the sockets and the clock do for each address is an argument.
pub mod Opened
use nixnet_corbet_ch.Base.{
  ℕ, ◌-◌, ◌%◌, Bool, true, false, not, ◌&&◌, List, [], ◌∷◌, ◌++◌, Option, none, some, leb,
  if◌then◌else◌, Result, ok, err, ◌&>◌,
}
use nixnet_corbet_ch.Base.Int.{ℤ, pos, negsuc, eqb_ℤ}
use nixnet_corbet_ch.Base.Text.{Text, codes, is_empty}
use nixnet_corbet_ch.Config.{Transport, effective_target}
use nixnet_corbet_ch.Probe.{ProbeResult}

-- `addr` as it is displayed, the time since the start when its turn comes, what making the socket,
-- binding and connecting it gave, the time after that.
pub record Attempt : Type 0 where
  pub addr : Text
  pub elapsed : ℕ
  pub socket : Result Text (Unit {0})
  pub bound : Result Text (Unit {0})
  pub connected : Result Text (Unit {0})
  pub elapsed_after : ℕ

-- `{ healthy: false, detail, ..Default::default() }`.
abbrev pub unhealthy : Text → ProbeResult
unhealthy detail = record { healthy = false; address = []; detail = detail }

abbrev pub healthy_with : Text → ProbeResult
healthy_with detail = record { healthy = true; address = []; detail = detail }

at_addr : Text → Result Text (Unit {0}) → Result Text (Unit {0})
at_addr addr (ok done) = ok done
at_addr addr (err e) = err (addr ++ (codes ": " ++ e))

-- An open connection, or the error the loop goes on with.
unfoldable pub opened : Transport → Attempt → Result Text (Unit {0})
unfolding at_addr
opened t a =
    a.socket
    &> ((if t.probe.bind_to_interface && not (is_empty t.interface) then a.bound else ok tt)
        &> at_addr a.addr a.connected)

-- `timeout.checked_sub(elapsed)` is none or zero.
abbrev pub is_spent : ℕ → ℕ → Bool
is_spent timeout elapsed = leb timeout elapsed

abbrev pub no_time : Text
no_time = codes "probe deadline exhausted during name resolution"

-- What follows an open connection, or the next address; `connected_to` is given the address and what
-- the loop ends with where the time is up.
module _ (t : Transport) (timeout : ℕ) (connected_to : Attempt → ProbeResult → ProbeResult) where
  unfoldable pub dial : Text → List Attempt → ProbeResult
  dial last_error [] = unhealthy last_error
  dial last_error (a ∷ rest) =
      if is_spent timeout a.elapsed then unhealthy last_error else elim (opened t a) [
        | ok done ↦ connected_to a (unhealthy last_error)
        | err e ↦ dial e rest
      ]

-- `port as u16`.
unfoldable pub as_u16 : ℤ → ℕ
as_u16 (pos n) = n % 65536
as_u16 (negsuc n) = 65535 - n % 65536

abbrev pub resolved : (List Attempt → ProbeResult) → Result Text (List Attempt) → ProbeResult
resolved f (err e) = unhealthy e
resolved f (ok []) = unhealthy (codes "no addresses found")
resolved f (ok (a ∷ rest)) = f (a ∷ rest)

abbrev pub tcp_port : Transport → ℕ
tcp_port t = if eqb_ℤ t.probe.port (pos 0) then 22 else as_u16 t.probe.port

abbrev pub tcp_connected : Attempt → ProbeResult → ProbeResult
tcp_connected a ended = healthy_with (codes "tcp connect ok (" ++ (a.addr ++ codes ")"))

-- `run` of src/probe/tcp.rs; the error is one of the configuration.
module _ (to_socket_addrs : Text → ℕ → Result Text (List Attempt)) where
  unfoldable pub tcp_run : Transport → ℕ → Result Text ProbeResult
  tcp_run t timeout =
      if is_empty (effective_target t)
      then err (codes "tcp probe: no target/address configured")
      else ok (
          resolved (dial t timeout tcp_connected no_time)
            (to_socket_addrs (effective_target t) (tcp_port t)))
