-- ===== src/Config.antt =====
-- The configuration types of src/config.rs. `i64` fields are integers, maps are association lists.
pub mod Defaults
pub mod Validate
pub mod Load
pub mod Needs
use nixnet_corbet_ch.Base.{Bool, List, Option, if◌then◌else◌}
use nixnet_corbet_ch.Base.Int.{ℤ}
use nixnet_corbet_ch.Base.Text.{Text, codes, is_empty}

abbrev pub on_all_down_last_known_good : Text
on_all_down_last_known_good = codes "lastKnownGood"

abbrev pub on_all_down_unpublish : Text
on_all_down_unpublish = codes "unpublish"

pub record Probe : Type 0 where
  pub method : Text
  pub target : Text
  pub port : ℤ
  pub path : Text
  pub bind_to_interface : Bool
  pub interval_ms : ℤ
  pub timeout_ms : ℤ
  pub up_threshold : ℤ
  pub down_threshold : ℤ
  pub exec : Text

pub record Transport : Type 0 where
  pub id : Text
  pub address : Text
  pub interface : Text
  pub priority : ℤ
  pub provider_id : Text
  pub probe : Probe

-- What is dialed: `probe.target` if set, else `address`.
unfoldable pub effective_target : Transport → Text
effective_target t = if is_empty t.probe.target then t.address else t.probe.target

pub record Hysteresis : Type 0 where
  pub min_hold_ms : ℤ

-- `none` is no bound.
pub record LastKnownGood : Type 0 where
  pub max_age_sec : Option ℤ

pub record Peer : Type 0 where
  pub hostnames : List Text
  pub transports : List Transport
  pub hysteresis : Hysteresis
  pub on_all_down : Text
  pub last_known_good : LastKnownGood

pub record UplinkPublish : Type 0 where
  pub route_metric : Bool
  pub metric_base : ℤ
  pub metric_step : ℤ

pub record Uplink : Type 0 where
  pub transports : List Transport
  pub hysteresis : Hysteresis
  pub publish : UplinkPublish

pub record DefaultProbe : Type 0 where
  pub interval_ms : ℤ
  pub timeout_ms : ℤ
  pub up_threshold : ℤ
  pub down_threshold : ℤ

pub record Daemon : Type 0 where
  pub state_dir : Text
  pub runtime_dir : Text
  pub hosts_file : Text
  pub ip_path : Text
  pub default_probe : DefaultProbe

pub record Config : Type 0 where
  pub daemon : Daemon
  pub peers : List (Text × Peer)
  pub uplinks : List (Text × Uplink)
