-- ===== src/Engine/New.antt =====
-- `Engine::new`, `transport_id` and `Engine::load_state` (src/engine/mod.rs, src/engine/state.rs):
-- the state a start builds from the configuration and from what reading `state.json` gave.
pub mod Valid
use nixnet_corbet_ch.Base.{
  ℕ, zero, suc, true, false, not, List, [], ◌∷◌, ◌++◌, Option, none, some, map, if◌then◌else◌,
  Result, ok, err,
}
use nixnet_corbet_ch.Base.Int.{ℤ, pos}
use nixnet_corbet_ch.Base.Text.{Text, codes, is_empty}
use nixnet_corbet_ch.Base.Str.{to_string}
use nixnet_corbet_ch.Config.{Config, Transport, Peer, Uplink}
use nixnet_corbet_ch.Engine.{TransportRuntime, unknown, Group, GroupKind, peer, uplink}
use nixnet_corbet_ch.Engine.Status.{EngineState}
use nixnet_corbet_ch.Engine.Persist
use nixnet_corbet_ch.Engine.Persist.{PersistedGroup, restore}

-- `GroupKind::label`.
abbrev pub label : GroupKind → Text
label peer = codes "peer"
label uplink = codes "uplink"

unfoldable pub transport_id : GroupKind → Text → ℕ → Transport → Text
transport_id kind group_name idx t =
    let shown =
      if not (is_empty t.provider_id)
      then t.provider_id
      else if not (is_empty t.interface)
      then t.interface
      else if not (is_empty t.address)
      then t.address
      else codes "?" in
    label kind
    ++ (codes "/"
        ++ (group_name
            ++ (codes "#" ++ (to_string (pos idx) ++ (codes "(" ++ (shown ++ codes ")"))))))

abbrev pub new_transport : GroupKind → Text → ℕ → Transport → TransportRuntime
new_transport kind name i t = record {
  spec = t;
  id = transport_id kind name i t;
  key = t.id;
  state = unknown;
  consecutive_success = pos 0;
  consecutive_failure = pos 0;
  current_address = [];
  detail = [];
  last_success_at = none;
  probe_started_at = none;
  next_probe_due = none;
}

-- The loop over the transports of a group from index `i`.
unfoldable pub new_transports : GroupKind → Text → ℕ → List Transport → List TransportRuntime
new_transports kind name i [] = []
new_transports kind name i (t ∷ ts) =
    new_transport kind name i t ∷ new_transports kind name (suc i) ts

abbrev pub new_peer : Text × Peer → Text × Group
new_peer (name, p) = (
  name,
  record {
    kind = peer;
    hostnames = p.hostnames;
    on_all_down = p.on_all_down;
    max_age_sec = p.last_known_good.max_age_sec;
    route_metric = false;
    metric_base = pos 0;
    metric_step = pos 0;
    min_hold_ms = p.hysteresis.min_hold_ms;
    transports = new_transports peer name 0 p.transports;
    winner = none;
    winner_since = none;
    degraded = false;
    last_published_addr = [];
    last_confirmed_at = none;
    last_publish_error = [];
  },
)

abbrev pub new_uplink : Text × Uplink → Text × Group
new_uplink (name, u) = (
  name,
  record {
    kind = uplink;
    hostnames = [];
    on_all_down = [];
    max_age_sec = none;
    route_metric = u.publish.route_metric;
    metric_base = u.publish.metric_base;
    metric_step = u.publish.metric_step;
    min_hold_ms = u.hysteresis.min_hold_ms;
    transports = new_transports uplink name 0 u.transports;
    winner = none;
    winner_since = none;
    degraded = false;
    last_published_addr = [];
    last_confirmed_at = none;
    last_publish_error = [];
  },
)

unfoldable pub cold_state : Config → EngineState
cold_state cfg = record {
  peers = map new_peer cfg.peers;
  uplinks = map new_uplink cfg.uplinks;
  last_hosts_error = [];
}

pub record PersistedState : Type 0 where
  pub peers : List (Text × PersistedGroup)
  pub uplinks : List (Text × PersistedGroup)

-- From what reading the file gave. Every failure, a missing file included, is a cold start.
module _ (from_slice : Text → Result Text PersistedState) where
  unfoldable pub restored : Result Text PersistedState → ℤ → EngineState → EngineState
  restored (err e) now state = state
  restored (ok ps) now state = record state {
    peers = restore ps.peers now state.peers;
    uplinks = restore ps.uplinks now state.uplinks;
  }

  unfoldable pub load_state : Result Text Text → ℤ → EngineState → EngineState
  unfolding restored
  load_state (err e) now state = state
  load_state (ok content) now state = restored (from_slice content) now state

  -- `Engine::new`.
  unfoldable pub new : Config → Result Text Text → ℤ → EngineState
  new cfg file now = load_state file now (cold_state cfg)

-- Stands for all that the definitions above compute with: a test unfolds this name.
unfoldable pub runs : Unit {0}
unfolding Persist.runs transport_id to_string new_transports cold_state load_state new
runs = tt
