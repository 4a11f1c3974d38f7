-- ===== src/Engine/Watchdog.antt =====
-- `watchdog_healthy` of src/engine/mod.rs, `watchdog_interval` of src/sdnotify.rs and `heartbeat` of
-- src/bin/nixnetd.rs. Durations and monotonic instants are nanoseconds.
pub mod Stalled
use nixnet_corbet_ch.Base.{
  ℕ, ◌+◌, ◌*◌, ◌-◌, ◌^◌, Bool, true, false, ◌&&◌, List, [], ◌∷◌, ◌++◌, Option, none, some, all, leb,
  ltb, if◌then◌else◌, zero, suc, ◌>>=◌,
}
use nixnet_corbet_ch.Base.Int.{ℤ, pos, negsuc}
use nixnet_corbet_ch.Base.Text.{Text, is_empty}
use nixnet_corbet_ch.Base.Parse.{parse_unsigned}
use nixnet_corbet_ch.Engine.{TransportRuntime, Group}
use nixnet_corbet_ch.Engine.Status.{EngineState}

-- `latest` is the largest instant that the platform has.
abbrev checked_add : ℕ → ℕ → ℕ → Option ℕ
checked_add latest due limit = if leb (due + limit) latest then some (due + limit) else none

abbrev not_past : ℕ → Option ℕ → Bool
not_past now none = false
not_past now (some deadline) = leb now deadline

abbrev progresses : ℕ → ℕ → ℕ → Option ℕ → Option ℕ → Bool
progresses latest limit now (some started) due = leb (now - started) limit
progresses latest limit now none none = false
progresses latest limit now none (some due) = not_past now (checked_add latest due limit)

abbrev in_time : ℕ → ℕ → ℕ → TransportRuntime → Bool
in_time latest limit now tr = progresses latest limit now tr.probe_started_at tr.next_probe_due

unfoldable pub transports_of : List (Text × Group) → List TransportRuntime
transports_of [] = []
transports_of ((name, g) ∷ gs) = g.transports ++ transports_of gs

abbrev pub all_transports : EngineState → List TransportRuntime
all_transports state = transports_of state.peers ++ transports_of state.uplinks

-- From what `initialized` and `try_lock` gave; `none` is a lock that is held or poisoned.
unfoldable pub watchdog_healthy : ℕ → ℕ → Bool → Option EngineState → ℕ → Bool
watchdog_healthy latest stall_limit false locked now = false
watchdog_healthy latest stall_limit true none now = false
watchdog_healthy latest stall_limit true (some state) now =
    all (in_time latest stall_limit now) (all_transports state)

-- `i64` of a text that names a positive number; a negative one and one that does not parse are both
-- turned away by the caller.
abbrev half_of : ℕ → Option ℕ
half_of zero = none
half_of (suc usec) = some (suc usec * 500)

-- Half of the configured microseconds.
unfoldable pub parse_watchdog_usec : Option Text → Option ℕ
parse_watchdog_usec none = none
parse_watchdog_usec (some s) =
    if is_empty s then none else parse_unsigned (2 ^ 63 - 1) s >>= λ usec. half_of usec

-- `checked_mul(2).unwrap_or(interval)`, on a number of seconds of 64 bits.
abbrev stall_limit_of : ℕ → ℕ
stall_limit_of interval =
    if ltb (interval * 2) (2 ^ 64 * 1000000000) then interval * 2 else interval

-- What a round of the loop finds.
pub record Round : Type 0 where
  pub stopped : Bool
  pub initialized : Bool
  pub locked : Option EngineState
  pub now : ℕ

module _ {W : Type 0} (latest : ℕ) (notify : W → W) where
  -- The rounds so far; `notify` sends `WATCHDOG=1`, and its error is only logged.
  unfoldable pub heartbeat : ℕ → List Round → W → W
  heartbeat interval [] w = w
  heartbeat interval (r ∷ rs) w =
      let healthy =
        watchdog_healthy latest (stall_limit_of interval) r.initialized r.locked r.now in
      let skipped = heartbeat interval rs w in
      let sent = heartbeat interval rs (notify w) in
      if r.stopped then w else if healthy then sent else skipped
