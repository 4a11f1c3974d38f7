-- ===== src/Tests/Ticks.antt =====
-- A peer with no transport up: two successes of its second transport, a failure of the first between
-- them, and the next tick.
use nixnet_corbet_ch.Base.{
  ℕ, ◌≡◌, refl, inl, true, false, List, [], ◌∷◌, some, arith, get_elem?, ◌>>=◌,
}
use nixnet_corbet_ch.Base.Int.{ℤ, pos}
use nixnet_corbet_ch.Base.Text.{Text}
use nixnet_corbet_ch.Probe.{ProbeResult}
use nixnet_corbet_ch.Engine.{TransportRuntime, Group, Action, down, is_up}
use nixnet_corbet_ch.Engine.Health
use nixnet_corbet_ch.Engine.Health.Counters.{IsCounted}
use nixnet_corbet_ch.Engine.Ticks
use nixnet_corbet_ch.Engine.Ticks.{Tick, group_tick, group_ticks}
use nixnet_corbet_ch.Engine.Ticks.Failover.{ticks-winner}
use nixnet_corbet_ch.Tests.Fixtures.{lost, overlay}

abbrev result : ProbeResult
result = record { healthy = true; address = []; detail = [] }

abbrev failure : ProbeResult
failure = record { healthy = false; address = []; detail = [] }

abbrev tick_of : ℕ → ProbeResult → ℤ → Tick
tick_of idx res at = record { idx = idx; res = res; observed_at = at; decided_at = at }

abbrev earlier : List Tick
earlier =
    tick_of 1 result (pos 2000) ∷ tick_of 0 failure (pos 2100) ∷ tick_of 1 result (pos 3000) ∷ []

abbrev same_text : Text → Text
same_text s = s

overlay_down-IsCounted : IsCounted (overlay down)
unfolding Health.runs
overlay_down-IsCounted = record {
  up_limit = (omega arith, omega arith);
  down_limit = (omega arith, omega arith);
  success_low = omega arith;
  success_high = omega arith;
  failure_low = omega arith;
  failure_high = omega arith;
  one_run = inl refl;
  not_up = λ n. omega arith;
  not_down = λ n. omega arith;
}

comes_up : (group_ticks same_text earlier lost >>= λ g. g.winner) ≡ some 1
unfolding Ticks.runs
comes_up = refl

ticks-winner_example :
    (g₁ : Group) × (g' : Group) × (a : Action) × (w : ℕ) × (r : TransportRuntime) × (group_ticks
        same_text earlier lost
      ≡ some g₁)
    × (group_tick same_text (tick_of 0 failure (pos 4000)) g₁ ≡ some (g', a))
    × (g'.winner ≡ some w)
    × (get_elem? g'.transports w ≡ some r)
    × (is_up r.state ≡ true)
unfolding Ticks.runs
ticks-winner_example =
    ticks-winner same_text earlier (tick_of 0 failure (pos 4000)) lost 1 (overlay down)
      (omega arith) (omega arith, (omega arith, (omega arith, tt))) (omega arith) refl
      overlay_down-IsCounted (refl, (refl, tt)) tt (omega arith)
