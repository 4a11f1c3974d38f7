-- ===== src/Tests/Status.antt =====
-- The snapshot of a host with one peer.
use nixnet_corbet_ch.Base.{◌≡◌, refl, true, false, [], ◌∷◌, Option, some}
use nixnet_corbet_ch.Base.Int.{ℤ, pos, ◌≤ℤ◌}
use nixnet_corbet_ch.Base.Text.{Text, codes}
use nixnet_corbet_ch.Status.{is_healthy_at}
use nixnet_corbet_ch.Engine.Status.{
  EngineState, snapshot, status_ttl, period, all_peer_transports, all_uplink_transports,
}
use nixnet_corbet_ch.Engine.Status
use nixnet_corbet_ch.Engine.Status.Lifetime.{Covers, status_ttl-least}
use nixnet_corbet_ch.Tests.Fixtures.{recovered}
use nixnet_corbet_ch.Tests.Config.{small}

abbrev pub state : EngineState
state = record { peers = (codes "b", recovered) ∷ []; uplinks = []; last_hosts_error = [] }

abbrev down_state : EngineState
down_state = record state { peers = (codes "b", record recovered { degraded = true }) ∷ [] }

abbrev pub format : ℤ → Option Text
format t = some (codes "2026-01-01T00:00:00Z")

abbrev pub parse : Text → Option ℤ
parse s = some (pos 1000)

healthy_snapshot :
    is_healthy_at parse (snapshot format [] (codes "2026-01-01T00:01:00Z") state) (pos 900) ≡ true
unfolding Status.runs
healthy_snapshot = refl

past_deadline :
    is_healthy_at parse (snapshot format [] (codes "2026-01-01T00:01:00Z") state) (pos 1001) ≡ false
unfolding Status.runs
past_deadline = refl

degraded_snapshot :
    is_healthy_at parse (snapshot format [] (codes "2026-01-01T00:01:00Z") down_state) (pos 900)
    ≡ false
unfolding Status.runs
degraded_snapshot = refl

status_ttl-least_example :
    Covers small (status_ttl small) × ((ttl : ℤ) → Covers small ttl → status_ttl small ≤ℤ ttl)
status_ttl-least_example = status_ttl-least small
