-- ===== src/Engine.antt =====
-- The runtime state of src/engine/mod.rs: transports, groups, and what a tick asks to publish.
-- Instants of the wall clock are integers (nanoseconds since the epoch) and monotonic instants
-- natural numbers; both are arguments of the operations that read a clock.
pub mod Staleness
pub mod Health
pub mod Ranking
pub mod Decide
pub mod Persist
pub mod Status
pub mod Groups
pub mod New
pub mod Reconcile
pub mod Worker
pub mod Ticks
pub mod Save
pub mod Watchdog
use nixnet_corbet_ch.Base.{ℕ, ◌<◌, Bool, true, false, List, Option, none, some, length}
use nixnet_corbet_ch.Base.Int.{ℤ}
use nixnet_corbet_ch.Base.Text.{Text, codes, is_empty}
use nixnet_corbet_ch.Config.{Transport}

pub data GroupKind : Type 0 where
  peer uplink : GroupKind

pub data TransportState : Type 0 where
  unknown up down : TransportState

-- `state == TransportState::Up`.
abbrev pub is_up : TransportState → Bool
is_up up = true
is_up unknown = false
is_up down = false

abbrev pub is_down : TransportState → Bool
is_down down = true
is_down unknown = false
is_down up = false

unfoldable pub as_str : TransportState → Text
as_str unknown = codes "unknown"
as_str up = codes "up"
as_str down = codes "down"

pub record TransportRuntime : Type 0 where
  pub spec : Transport
  pub id : Text
  pub key : Text
  pub state : TransportState
  pub consecutive_success : ℤ
  pub consecutive_failure : ℤ
  pub current_address : Text
  pub detail : Text
  pub last_success_at : Option ℤ
  pub probe_started_at : Option ℕ
  pub next_probe_due : Option ℕ

pub record Group : Type 0 where
  pub kind : GroupKind
  pub hostnames : List Text
  pub on_all_down : Text
  pub max_age_sec : Option ℤ
  pub route_metric : Bool
  pub metric_base : ℤ
  pub metric_step : ℤ
  pub min_hold_ms : ℤ
  pub transports : List TransportRuntime
  pub winner : Option ℕ
  pub winner_since : Option ℤ
  pub degraded : Bool
  pub last_published_addr : Text
  pub last_confirmed_at : Option ℤ
  pub last_publish_error : Text

-- A transport in published rank order (src/publish/route.rs).
pub record RankedInterface : Type 0 where
  pub interface : Text
  pub healthy : Bool

-- What a tick asks of the publishers.
pub data Action : Type 0 where
  nothing : Action
  publish_peers : (passive : Bool) → Action
  publish_uplink : List RankedInterface → (metric_base metric_step : ℤ) → Action

-- The winner pointer names a transport of the group.
abbrev pub InRange : Option ℕ → ℕ → Type 0
InRange none n = Unit {0}
InRange (some w) n = w < n

abbrev pub IsValid : Group → Type 0
IsValid g = InRange g.winner (length g.transports)
