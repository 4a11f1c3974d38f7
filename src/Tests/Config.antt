-- ===== src/Tests/Config.antt =====
-- A small hand-written configuration, loaded, and one with a host name of two peers.
use nixnet_corbet_ch.Base.{◌≡◌, refl, false, [], ◌∷◌, some, ok, err}
use nixnet_corbet_ch.Base.Int.{pos}
use nixnet_corbet_ch.Base.Text.{Text, codes}
use nixnet_corbet_ch.Config.{Config, Daemon, Peer, Transport, Probe}
use nixnet_corbet_ch.Config.Defaults
use nixnet_corbet_ch.Config.Defaults.{apply_defaults}
use nixnet_corbet_ch.Config.Validate
use nixnet_corbet_ch.Config.Validate.{validate, claimed_by_both}
use nixnet_corbet_ch.Config.Validate.Sound.{IsAccepted}
use nixnet_corbet_ch.Config.Load.{load, load-IsAccepted}

abbrev bare : Probe
bare = record {
  method = [];
  target = [];
  port = pos 0;
  path = [];
  bind_to_interface = false;
  interval_ms = pos 0;
  timeout_ms = pos 0;
  up_threshold = pos 0;
  down_threshold = pos 0;
  exec = [];
}

abbrev pub at_address : Text → Transport
at_address address = record {
  id = [];
  address = address;
  interface = [];
  priority = pos 10;
  provider_id = [];
  probe = bare;
}

abbrev peer_of : Text → Text → Peer
peer_of host address = record {
  hostnames = host ∷ [];
  transports = at_address address ∷ [];
  hysteresis = record { min_hold_ms = pos 0 };
  on_all_down = [];
  last_known_good = record { max_age_sec = some (pos 3600) };
}

abbrev pub left_out : Daemon
left_out = record {
  state_dir = [];
  runtime_dir = [];
  hosts_file = [];
  ip_path = [];
  default_probe = record {
    interval_ms = pos 0;
    timeout_ms = pos 0;
    up_threshold = pos 0;
    down_threshold = pos 0;
  };
}

abbrev pub small : Config
small = record {
  daemon = left_out;
  peers =
      (codes "b", peer_of (codes "host-b") (codes "192.0.2.20"))
      ∷ (codes "a", peer_of (codes "host-a") (codes "192.0.2.10"))
      ∷ [];
  uplinks = [];
}

abbrev clashing : Config
clashing = record small {
  peers =
      (codes "b", peer_of (codes "host-a") (codes "192.0.2.20"))
      ∷ (codes "a", peer_of (codes "host-a") (codes "192.0.2.10"))
      ∷ [];
}

valid : validate (apply_defaults small) ≡ ok tt
unfolding Defaults.runs Validate.runs
valid = refl

clash :
    validate (apply_defaults clashing)
    ≡ err (claimed_by_both (codes "host-a") (codes "a") (codes "b"))
unfolding Defaults.runs Validate.runs
clash = refl

loads : load (λ text. ok small) (ok (codes "{}")) ≡ ok (apply_defaults small)
unfolding Defaults.runs Validate.runs load
loads = refl

load-IsAccepted_example :
    IsAccepted (apply_defaults small)
    × (apply_defaults (apply_defaults small) ≡ apply_defaults small)
load-IsAccepted_example =
    load-IsAccepted (λ text. ok small) (ok (codes "{}")) (apply_defaults small) loads
