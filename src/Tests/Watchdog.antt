-- ===== src/Tests/Watchdog.antt =====
-- A watchdog of twenty seconds, fed and then starved.
use nixnet_corbet_ch.Base.{
  ℕ, ◌≡◌, ◌+◌, refl, inl, inr, true, false, List, [], ◌∷◌, some, none, here, arith,
}
use nixnet_corbet_ch.Base.Text.{codes}
use nixnet_corbet_ch.Base.Parse.{parse_unsigned, parse_digits}
use nixnet_corbet_ch.Engine.{TransportRuntime}
use nixnet_corbet_ch.Engine.Status.{EngineState}
use nixnet_corbet_ch.Engine.Watchdog.{
  Round, watchdog_healthy, transports_of, parse_watchdog_usec, heartbeat,
}
use nixnet_corbet_ch.Engine.Watchdog.Stalled.{IsStuck, heartbeat-IsStuck}
use nixnet_corbet_ch.Tests.Fixtures.{recovered}

-- Every transport's probe began at the instant 0.
abbrev begun : List TransportRuntime → List TransportRuntime
begun [] = []
begun (tr ∷ trs) = record tr { probe_started_at = some 0 } ∷ begun trs

abbrev probing : EngineState
probing = record {
  peers = (codes "b", record recovered { transports = begun recovered.transports }) ∷ [];
  uplinks = [];
  last_hosts_error = [];
}

abbrev at : ℕ → Round
at now = record { stopped = false; initialized = true; locked = some probing; now = now }

ten_seconds : parse_watchdog_usec (some (codes "20000000")) ≡ some 10000000000
unfolding parse_watchdog_usec parse_unsigned parse_digits
ten_seconds = refl

named : parse_unsigned 9223372036854775807 (codes "20000000") ≡ some 20000000
unfolding parse_unsigned parse_digits
named = refl

fed_once :
    heartbeat 9223372036854775807
      (λ n. n + 1)
      10000000000
      (at 10000000000 ∷ at 20000000001 ∷ record (at 20000000002) { locked = none } ∷ [])
      0
    ≡ 1
unfolding heartbeat watchdog_healthy transports_of
fed_once = refl

abbrev starved : List Round
starved = at 20000000001 ∷ record (at 20000000002) { locked = none } ∷ []

first-IsStuck : IsStuck 20000000 (at 20000000001)
unfolding transports_of
first-IsStuck = inr (inr (probing, _, 0, refl, here, refl, omega arith))

heartbeat-IsStuck_example : heartbeat 9223372036854775807 (λ n. n + 1) 10000000000 starved 7 ≡ 7
heartbeat-IsStuck_example =
    heartbeat-IsStuck 9223372036854775807 (λ n. n + 1) (codes "20000000") 20000000 10000000000
      starved 7 named ten_seconds (first-IsStuck, (inl refl, tt))
