-- ===== src/Engine/Health.antt =====
-- The transport half of `Engine::probe_once` in src/engine/mod.rs: what one probe result does to
-- the hysteresis counters, the state and the effective address of its transport.
pub mod Counters
pub mod Runs
pub mod Address
use nixnet_corbet_ch.Base.{Bool, true, false, not, ◌&&◌, some, [], ◌++◌, List, ◌∷◌, if◌then◌else◌}
use nixnet_corbet_ch.Base.Int.{ℤ, pos, ◌+ℤ◌, leb_ℤ, min_ℤ, saturating_add}
use nixnet_corbet_ch.Base.Text.{Text, codes, is_empty, text_eq}
use nixnet_corbet_ch.Base.Net.{is_ip_addr}
use nixnet_corbet_ch.Probe.{ProbeResult}
use nixnet_corbet_ch.Engine.{TransportRuntime, TransportState, unknown, up, down, is_up, is_down}

-- A configured threshold, or the default for one that is not positive.
unfoldable pub threshold : ℤ → ℤ → ℤ
threshold v def = if leb_ℤ v (pos 0) then def else v

abbrev pub up_threshold_of : TransportRuntime → ℤ
up_threshold_of tr = threshold tr.spec.probe.up_threshold (pos 2)

abbrev pub down_threshold_of : TransportRuntime → ℤ
down_threshold_of tr = threshold tr.spec.probe.down_threshold (pos 3)

-- A healthy result whose address is no IP literal becomes an unhealthy one without address.
-- `quoted` is the `{:?}` form of the address in the message.
module _ (quoted : Text → Text) where
  unfoldable pub reject_invalid_address : ProbeResult → ProbeResult
  reject_invalid_address res =
      if res.healthy && not (is_empty res.address) && not (is_ip_addr res.address)
      then record {
        healthy = false;
        address = [];
        detail =
            codes "exec probe returned invalid address "
            ++ (quoted res.address ++ codes "; expected an IPv4 or IPv6 literal");
      }
      else res

-- `consecutive.saturating_add(1).min(threshold)`.
unfoldable pub count_up : ℤ → ℤ → ℤ
unfolding saturating_add
count_up n limit = min_ℤ (saturating_add n (pos 1)) limit

succeed : ℤ → TransportRuntime → TransportRuntime
succeed observed_at tr =
    let limit = up_threshold_of tr in
    let n = count_up tr.consecutive_success limit in
    record tr {
      consecutive_failure = pos 0;
      consecutive_success = n;
      state = if not (is_up tr.state) && leb_ℤ limit n then up else tr.state;
      last_success_at = some observed_at;
    }

fail : TransportRuntime → TransportRuntime
fail tr =
    let limit = down_threshold_of tr in
    let n = count_up tr.consecutive_failure limit in
    record tr {
      consecutive_success = pos 0;
      consecutive_failure = n;
      state = if not (is_down tr.state) && leb_ℤ limit n then down else tr.state;
    }

-- Only a healthy result commits an address; a transport without one takes the configured one.
unfoldable pub next_address : ProbeResult → TransportRuntime → Text
next_address res tr =
    if res.healthy && not (is_empty res.address)
    then res.address
    else if is_empty tr.current_address
    then tr.spec.address
    else tr.current_address

-- The update under the state lock, given the checked result and the time of the observation.
unfoldable pub observe : ProbeResult → ℤ → TransportRuntime → TransportRuntime
unfolding succeed fail
observe res observed_at tr =
    let counted = if res.healthy then succeed observed_at tr else fail tr in
    record counted { current_address = next_address res tr; detail = res.detail }

abbrev pub same_state : TransportState → TransportState → Bool
same_state up s = is_up s
same_state down s = is_down s
same_state unknown s = not (is_up s) && not (is_down s)

-- The two flags that make `probe_once` persist at once: the state or the address changed.
unfoldable pub must_save : TransportRuntime → TransportRuntime → Bool
must_save old new =
    not (same_state new.state old.state && text_eq new.current_address old.current_address)

-- Successive ticks of one transport, oldest first.
unfoldable pub observe_all : List (ProbeResult × ℤ) → TransportRuntime → TransportRuntime
observe_all [] tr = tr
observe_all ((res, at) ∷ ticks) tr = observe_all ticks (observe res at tr)

-- Stands for all that a run of `observe` computes with: a test unfolds this name.
unfoldable pub runs : Unit {0}
unfolding observe observe_all next_address reject_invalid_address is_ip_addr threshold count_up ◌+ℤ◌
runs = tt
