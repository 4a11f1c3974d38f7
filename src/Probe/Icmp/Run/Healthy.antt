-- ===== src/Probe/Icmp/Run/Healthy.antt =====
-- Whom a healthy icmp probe of src/probe/icmp.rs has heard.
use nixnet_corbet_ch.Base.{
  All, ℕ, ◌*◌, ◌≡◌, refl, true, Bool-cases, inl, inr, some, In, Result, ok, err, not, ◌&&◌,
  if◌then◌else◌, ok_inj, ok_not_err, sym, arith,
}
use nixnet_corbet_ch.Base.Text.{Text, is_empty}
use nixnet_corbet_ch.Config.{Transport, effective_target}
use nixnet_corbet_ch.Probe.{ProbeResult}
use nixnet_corbet_ch.Probe.Icmp.{Listening, unhealthy}
use nixnet_corbet_ch.Probe.Icmp.Reply.{Answered, IsTimely, await_reply-Answered}
use nixnet_corbet_ch.Probe.Icmp.Run.{
  Wire, resolve_ipv4, identity, request, expired_text, awaited, bound_socket, with_socket,
  to_target, icmp_run,
}

module _ (wire : Wire) (t : Transport) (timeout_ms counter : ℕ) where
  -- The probe sent its request to `dst`, which answered it in time.
  pub record IsHeard (dst : Text) : Type 0 where
    pub opened : wire.socket ≡ ok tt
    pub bound_to_interface :
        (t.probe.bind_to_interface && not (is_empty t.interface)) ≡ true
        → wire.bind_to_device t.interface ≡ ok tt
    pub sent : wire.send_to (request wire t timeout_ms counter) dst ≡ ok tt
    pub round : Listening
    pub played : In round wire.rounds
    pub answered :
        Answered
          (timeout_ms * 1000000)
          dst
          (identity wire t timeout_ms counter).0
          (identity wire t timeout_ms counter).1
          round

module _ (wire : Wire) (t : Transport) (timeout_ms counter : ℕ)
    (timely : All IsTimely wire.rounds) where
  awaited-IsHeard :
      (dst : Text) (r : Result Text (Unit {0})) (res : ProbeResult)
      → awaited wire t timeout_ms counter dst r ≡ some res
      → res.healthy ≡ true
      → (r ≡ ok tt)
        × ((round : Listening) × In round wire.rounds
            × Answered
                (timeout_ms * 1000000)
                dst
                (identity wire t timeout_ms counter).0
                (identity wire t timeout_ms counter).1
                round)
  unfolding awaited unhealthy
  awaited-IsHeard dst (err e) res done healthy = absurd (ground arith)
  awaited-IsHeard dst (ok done) res h healthy = (
    refl,
    await_reply-Answered (timeout_ms * 1000000) (expired_text wire t timeout_ms counter) dst
        (identity wire t timeout_ms counter).0 (identity wire t timeout_ms counter).1 wire.rounds
        res timely h healthy,
  )

  bound_socket-IsHeard :
      (dst : Text) (r : Result Text (Unit {0})) (res : ProbeResult)
      → wire.socket ≡ ok tt
      → (r ≡ ok tt
          → (t.probe.bind_to_interface && not (is_empty t.interface)) ≡ true
          → wire.bind_to_device t.interface ≡ ok tt)
      → bound_socket wire t timeout_ms counter dst r ≡ some res
      → res.healthy ≡ true
      → IsHeard wire t timeout_ms counter dst
  unfolding bound_socket unhealthy
  bound_socket-IsHeard dst (err e) res opened through done healthy = absurd (ground arith)
  bound_socket-IsHeard dst (ok done) res opened through h healthy =
      let (sent, (round, m, a)) =
        awaited-IsHeard dst (wire.send_to (request wire t timeout_ms counter) dst) res h healthy in
      record {
        opened = opened;
        bound_to_interface = through refl;
        sent = sent;
        round = round;
        played = m;
        answered = a;
      }

  with_socket-IsHeard :
      (dst : Text) (r : Result Text (Unit {0})) (res : ProbeResult)
      → wire.socket ≡ r
      → with_socket wire t timeout_ms counter dst r ≡ some res
      → res.healthy ≡ true
      → IsHeard wire t timeout_ms counter dst
  unfolding with_socket unhealthy
  with_socket-IsHeard dst (err e) res opened done healthy = absurd (ground arith)
  with_socket-IsHeard dst (ok done) res opened h healthy =
      bound_socket-IsHeard dst _ res opened (λ e on. rw (on, if◌then◌else◌) at e) h healthy

  to_target-IsHeard :
      (r : Result Text Text) (res : ProbeResult)
      → to_target wire t timeout_ms counter r ≡ some res
      → res.healthy ≡ true
      → (dst : Text) × (r ≡ ok dst) × IsHeard wire t timeout_ms counter dst
  unfolding to_target unhealthy
  to_target-IsHeard (err e) res done healthy = absurd (ground arith)
  to_target-IsHeard (ok dst) res h healthy =
      (dst, refl, with_socket-IsHeard dst wire.socket res refl h healthy)

  -- Where a socket gives a datagram no later than its read timeout: an icmp probe reports a healthy
  -- target only where the target resolved to an IPv4 address, the request went out to it, from a
  -- socket that is bound to the transport's interface where that is asked for, and a datagram of that
  -- very address came within the budget, an echo reply with the identifier and sequence number of
  -- this very request.
  pub icmp_run-IsHeard :
      (res : ProbeResult)
      → icmp_run wire t timeout_ms counter ≡ ok (some res)
      → res.healthy ≡ true
      → (dst : Text) × (resolve_ipv4 wire.to_socket_addrs (effective_target t) ≡ ok dst)
        × IsHeard wire t timeout_ms counter dst
  unfolding icmp_run
  icmp_run-IsHeard res h healthy = elim (Bool-cases (is_empty (effective_target t))) [
    | inl e ↦ absurd (ok_not_err (sym (rw (e, if◌then◌else◌) at h)))
    | inr e ↦ to_target-IsHeard _ res (ok_inj (rw (e, if◌then◌else◌) at h)) healthy
  ]
