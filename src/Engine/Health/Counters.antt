-- ===== src/Engine/Health/Counters.antt =====
-- Hysteresis of `Engine::probe_once`: what a probe result, or a run of them, does to a transport.
use nixnet_corbet_ch.Base.{◌≡◌, ◌≢◌, refl, arith, ◌⊎◌, inl, inr, Bool-cases}
use nixnet_corbet_ch.Base.Int.{ℤ, pos, ◌+ℤ◌, ◌≤ℤ◌, ◌<ℤ◌, i64_max}
use nixnet_corbet_ch.Base.Text.{Text}
use nixnet_corbet_ch.Probe.{ProbeResult}
use nixnet_corbet_ch.Engine.{TransportRuntime, up, down}
use nixnet_corbet_ch.Engine.Health.{
  threshold, up_threshold_of, down_threshold_of, count_up, succeed, fail, observe,
}

-- A threshold in use: positive, and an i64.
abbrev pub IsLimit : ℤ → Type 0
IsLimit limit = (pos 1 ≤ℤ limit) × (limit ≤ℤ i64_max)

pub count_up_next :
    (n limit : ℤ) → pos 0 ≤ℤ n → n <ℤ limit → IsLimit limit → count_up n limit ≡ n +ℤ pos 1
unfolding count_up ◌+ℤ◌
count_up_next n limit a b c = ground arith

count_up_bounds :
    (n limit : ℤ)
    → pos 0 ≤ℤ n
    → n ≤ℤ limit
    → IsLimit limit
    → (pos 0 ≤ℤ count_up n limit) × (count_up n limit ≤ℤ limit)
unfolding count_up ◌+ℤ◌
count_up_bounds n limit a b c = ground arith

pub threshold_pos : (v def : ℤ) → pos 1 ≤ℤ def → pos 1 ≤ℤ threshold v def
unfolding threshold
threshold_pos v def h = ground arith

-- The counters of a transport between two ticks: each lies between 0 and its threshold, at most
-- one is not 0, and a full counter shows in the state.
pub record IsCounted (tr : TransportRuntime) : Type 0 where
  pub up_limit : IsLimit (up_threshold_of tr)
  pub down_limit : IsLimit (down_threshold_of tr)
  pub success_low : pos 0 ≤ℤ tr.consecutive_success
  pub success_high : tr.consecutive_success ≤ℤ up_threshold_of tr
  pub failure_low : pos 0 ≤ℤ tr.consecutive_failure
  pub failure_high : tr.consecutive_failure ≤ℤ down_threshold_of tr
  pub one_run : (tr.consecutive_success ≡ pos 0) ⊎ (tr.consecutive_failure ≡ pos 0)
  pub not_up : tr.state ≢ up → tr.consecutive_success <ℤ up_threshold_of tr
  pub not_down : tr.state ≢ down → tr.consecutive_failure <ℤ down_threshold_of tr

-- An update that touches nothing of the counters' part of a transport.
IsCounted-address :
    {tr : TransportRuntime} (address detail : Text)
    → IsCounted tr
    → IsCounted (record tr { current_address = address; detail = detail })
IsCounted-address address detail v = record {
  up_limit = v.up_limit;
  down_limit = v.down_limit;
  success_low = v.success_low;
  success_high = v.success_high;
  failure_low = v.failure_low;
  failure_high = v.failure_high;
  one_run = v.one_run;
  not_up = v.not_up;
  not_down = v.not_down;
}

succeed-IsCounted : (at : ℤ) (tr : TransportRuntime) → IsCounted tr → IsCounted (succeed at tr)
unfolding succeed
succeed-IsCounted at tr v =
    let bounds =
      count_up_bounds tr.consecutive_success (up_threshold_of tr) v.success_low v.success_high
        v.up_limit in
    record {
      up_limit = v.up_limit;
      down_limit = v.down_limit;
      success_low = bounds.0;
      success_high = bounds.1;
      failure_low = omega arith;
      failure_high = ground (arith, v.down_limit);
      one_run = inr refl;
      not_up = ground (arith, bounds.1, v.up_limit);
      not_down = ground (arith, v.down_limit);
    }

fail-IsCounted : (tr : TransportRuntime) → IsCounted tr → IsCounted (fail tr)
unfolding fail
fail-IsCounted tr v =
    let bounds =
      count_up_bounds tr.consecutive_failure (down_threshold_of tr) v.failure_low v.failure_high
        v.down_limit in
    record {
      up_limit = v.up_limit;
      down_limit = v.down_limit;
      success_low = omega arith;
      success_high = ground (arith, v.up_limit);
      failure_low = bounds.0;
      failure_high = bounds.1;
      one_run = inl refl;
      not_up = ground (arith, v.up_limit);
      not_down = ground (arith, bounds.1, v.down_limit);
    }

-- Every probe result keeps the counters of a transport within their thresholds, at most one of
-- them running, and a full counter shown in the state.
pub observe-IsCounted :
    (res : ProbeResult) (at : ℤ) (tr : TransportRuntime)
    → IsCounted tr
    → IsCounted (observe res at tr)
unfolding observe
observe-IsCounted res at tr v = elim (Bool-cases res.healthy) [
  | inl e ↦ rw (e, observe) (IsCounted-address _ res.detail (succeed-IsCounted at tr v))
  | inr e ↦ rw (e, observe) (IsCounted-address _ res.detail (fail-IsCounted tr v))
]
