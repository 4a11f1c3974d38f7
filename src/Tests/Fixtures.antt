-- ===== src/Tests/Fixtures.antt =====
-- Transports and groups that the tests share, after the groups of the tests in src/engine/mod.rs.
use nixnet_corbet_ch.Base.{ℕ, true, false, List, [], ◌∷◌, Option, none, some}
use nixnet_corbet_ch.Base.Int.{ℤ, pos}
use nixnet_corbet_ch.Base.Text.{Text, codes}
use nixnet_corbet_ch.Config.{Transport, Probe, on_all_down_last_known_good}
use nixnet_corbet_ch.Engine.{
  TransportRuntime, TransportState, up, down, Group, GroupKind, peer, uplink,
}

abbrev pub probe : Probe
probe = record {
  method = codes "tcp";
  target = [];
  port = pos 22;
  path = codes "/";
  bind_to_interface = false;
  interval_ms = pos 3000;
  timeout_ms = pos 800;
  up_threshold = pos 2;
  down_threshold = pos 3;
  exec = [];
}

abbrev pub spec : ℤ → Text → Text → Transport
spec priority address interface = record {
  id = address;
  address = address;
  interface = interface;
  priority = priority;
  provider_id = [];
  probe = probe;
}

abbrev pub runtime : ℤ → Text → Text → TransportState → TransportRuntime
runtime priority address interface state = record {
  spec = spec priority address interface;
  id = address;
  key = address;
  state = state;
  consecutive_success = pos 0;
  consecutive_failure = pos 0;
  current_address = address;
  detail = [];
  last_success_at = some (pos 1000);
  probe_started_at = none;
  next_probe_due = none;
}

abbrev pub lan : TransportState → TransportRuntime
lan = runtime (pos 10) (codes "192.0.2.10") (codes "wan0")

abbrev pub overlay : TransportState → TransportRuntime
overlay = runtime (pos 20) (codes "192.0.2.20") (codes "wan1")

abbrev pub group : GroupKind → List TransportRuntime → Option ℕ → Text → Group
group kind transports winner published = record {
  kind = kind;
  hostnames = codes "host-b" ∷ [];
  on_all_down = on_all_down_last_known_good;
  max_age_sec = some (pos 60);
  route_metric = true;
  metric_base = pos 100;
  metric_step = pos 10;
  min_hold_ms = pos 10000;
  transports = transports;
  winner = winner;
  winner_since = some (pos 0);
  degraded = false;
  last_published_addr = published;
  last_confirmed_at = some (pos 1000);
  last_publish_error = [];
}

-- A peer on its backup transport while the better one is back.
abbrev pub recovered : Group
recovered = group peer (lan up ∷ overlay up ∷ []) (some 1) (codes "192.0.2.20")

-- A peer whose winner just failed.
abbrev pub failing : Group
failing = group peer (lan down ∷ overlay up ∷ []) (some 0) (codes "192.0.2.10")

-- A peer with no transport up.
abbrev pub lost : Group
lost = group peer (lan down ∷ overlay down ∷ []) (some 0) (codes "192.0.2.10")

abbrev pub uplinks : Group
uplinks = group uplink (lan down ∷ overlay up ∷ []) (some 1) []
