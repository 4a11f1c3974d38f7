-- ===== src/Tests/Health.antt =====
-- Two successes bring a transport up, three failures take it down.
use nixnet_corbet_ch.Base.{◌≡◌, refl, ◌↔◌, inl, true, false, List, [], ◌∷◌, some, arith}
use nixnet_corbet_ch.Base.Int.{ℤ, pos, ◌+ℤ◌, ◌≤ℤ◌}
use nixnet_corbet_ch.Base.Text.{codes}
use nixnet_corbet_ch.Probe.{ProbeResult}
use nixnet_corbet_ch.Engine.{up, down}
use nixnet_corbet_ch.Engine.Health
use nixnet_corbet_ch.Engine.Health.{
  observe, observe_all, reject_invalid_address, threshold, up_threshold_of, down_threshold_of,
}
use nixnet_corbet_ch.Engine.Health.Counters.{IsCounted, observe-IsCounted}
use nixnet_corbet_ch.Engine.Health.Runs.{healthy_run, observe_failure_address}
use nixnet_corbet_ch.Tests.Fixtures.{lan}

abbrev good : ProbeResult
good = record { healthy = true; address = []; detail = [] }

abbrev bad : ProbeResult
bad = record { healthy = false; address = codes "192.0.2.99"; detail = [] }

abbrev twice : ProbeResult → List (ProbeResult × ℤ)
twice res = (res, pos 1) ∷ (res, pos 2) ∷ []

up_after_two : (observe_all (twice good) (lan down)).state ≡ up
unfolding Health.runs
up_after_two = refl

still_up_after_two : (observe_all (twice bad) (lan up)).state ≡ up
unfolding Health.runs
still_up_after_two = refl

lan_down-IsCounted : IsCounted (lan down)
unfolding Health.runs
lan_down-IsCounted = record {
  up_limit = (omega arith, omega arith);
  down_limit = (omega arith, omega arith);
  success_low = omega arith;
  success_high = omega arith;
  failure_low = omega arith;
  failure_high = omega arith;
  one_run = inl refl;
  not_up = λ n. omega arith;
  not_down = λ n. omega arith;
}

lan_up-IsCounted : IsCounted (lan up)
unfolding Health.runs
lan_up-IsCounted = record {
  up_limit = (omega arith, omega arith);
  down_limit = (omega arith, omega arith);
  success_low = omega arith;
  success_high = omega arith;
  failure_low = omega arith;
  failure_high = omega arith;
  one_run = inl refl;
  not_up = λ n. omega arith;
  not_down = λ n. omega arith;
}

observe-IsCounted_example : IsCounted (observe good (pos 1) (lan down))
observe-IsCounted_example = observe-IsCounted good (pos 1) (lan down) lan_down-IsCounted

healthy_run_example :
    ((observe_all (twice good) (lan down)).state ≡ up)
    ↔ (up_threshold_of (lan down) ≤ℤ pos 0 +ℤ pos 2)
healthy_run_example =
    healthy_run (twice good) (lan down) lan_down-IsCounted (λ e. cc) (refl, (refl, tt))

observe_failure_address_example :
    ((observe bad (pos 1) (lan up)).current_address ≡ codes "192.0.2.10")
    × ((observe bad (pos 1) (lan up)).last_success_at ≡ some (pos 1000))
observe_failure_address_example = observe_failure_address bad (pos 1) (lan up) refl

-- The address of an exec probe that printed a host name.
abbrev named : ProbeResult
named = record { healthy = true; address = codes "host-b"; detail = [] }
