-- ===== src/Config/Defaults.antt =====
-- `Config::apply_defaults` and `assign_transport_id` of src/config.rs.
pub mod Idempotent
pub mod Filled
use nixnet_corbet_ch.Base.{
  ℕ, zero, suc, ◌+◌, ◌*◌, ◌%◌, ◌^◌, Bool, true, false, List, [], ◌∷◌, ◌++◌, map, if◌then◌else◌,
}
use nixnet_corbet_ch.Base.Int.{ℤ, pos, eqb_ℤ}
use nixnet_corbet_ch.Base.Text.{Text, codes, is_empty}
use nixnet_corbet_ch.Base.Str.{to_string, as_bytes, xor, hex}
use nixnet_corbet_ch.Base.Str
use nixnet_corbet_ch.Config.{
  Probe, Transport, Hysteresis, Peer, UplinkPublish, Uplink, DefaultProbe, Daemon, Config,
  on_all_down_last_known_good,
}

-- A number that is 0, or a text that is empty, was left out.
unfoldable pub or_number : ℤ → ℤ → ℤ
or_number a def = if eqb_ℤ a (pos 0) then def else a

unfoldable pub or_text : Text → Text → Text
or_text s def = if is_empty s then def else s

unfoldable pub apply_probe_defaults : DefaultProbe → Probe → Probe
apply_probe_defaults def p = record p {
  method = or_text p.method (codes "tcp");
  port = or_number p.port (pos 22);
  path = or_text p.path (codes "/");
  interval_ms = or_number p.interval_ms def.interval_ms;
  timeout_ms = or_number p.timeout_ms def.timeout_ms;
  up_threshold = or_number p.up_threshold def.up_threshold;
  down_threshold = or_number p.down_threshold def.down_threshold;
}

unfoldable pub apply_hysteresis_default : ℤ → Hysteresis → Hysteresis
apply_hysteresis_default def h = record h { min_hold_ms = or_number h.min_hold_ms def }

abbrev bool_text : Bool → Text
bool_text true = codes "true"
bool_text false = codes "false"

-- The fields that define the mechanism of a transport.
unfoldable pub canonical : Transport → Text
canonical t =
    codes "provider="
    ++ (t.provider_id
        ++ (codes "\ninterface="
            ++ (t.interface
                ++ (codes "\naddress="
                    ++ (t.address
                        ++ (codes "\nmethod="
                            ++ (t.probe.method
                                ++ (codes "\ntarget="
                                    ++ (t.probe.target
                                        ++ (codes "\nport="
                                            ++ (to_string t.probe.port
                                                ++ (codes "\npath="
                                                    ++ (t.probe.path
                                                        ++ (codes "\nbind="
                                                            ++ (bool_text t.probe.bind_to_interface
                                                            ++ (codes "\nexec="
                                                            ++ t.probe.exec))))))))))))))))

-- FNV-1a on u64.
unfoldable pub fnv_1a : ℕ → List ℕ → ℕ
fnv_1a hash [] = hash
fnv_1a hash (byte ∷ rest) = fnv_1a (xor 64 hash byte * 1099511628211 % 2 ^ 64) rest

unfoldable pub assign_transport_id : Transport → Transport
assign_transport_id t =
    if is_empty t.id
    then record t {
      id = codes "auto-" ++ hex 16 (fnv_1a 14695981039346656037 (as_bytes (canonical t))) [];
    }
    else t

-- Of peers only: the target falls back to the transport's own address.
unfoldable pub peer_transport_defaults : DefaultProbe → Transport → Transport
peer_transport_defaults def t =
    let p = apply_probe_defaults def t.probe in
    assign_transport_id (record t { probe = record p { target = or_text p.target t.address } })

unfoldable pub uplink_transport_defaults : DefaultProbe → Transport → Transport
uplink_transport_defaults def t =
    assign_transport_id (record t { probe = apply_probe_defaults def t.probe })

unfoldable pub peer_defaults : DefaultProbe → Peer → Peer
peer_defaults def p = record p {
  on_all_down = or_text p.on_all_down on_all_down_last_known_good;
  hysteresis = apply_hysteresis_default (pos 10000) p.hysteresis;
  transports = map (peer_transport_defaults def) p.transports;
}

unfoldable pub uplink_defaults : DefaultProbe → Uplink → Uplink
uplink_defaults def u = record u {
  hysteresis = apply_hysteresis_default (pos 15000) u.hysteresis;
  publish = record u.publish {
    metric_base = or_number u.publish.metric_base (pos 100);
    metric_step = or_number u.publish.metric_step (pos 10);
  };
  transports = map (uplink_transport_defaults def) u.transports;
}

unfoldable pub daemon_defaults : Daemon → Daemon
daemon_defaults d = record d {
  state_dir = or_text d.state_dir (codes "/var/lib/nixnet");
  runtime_dir = or_text d.runtime_dir (codes "nixnet");
  hosts_file = or_text d.hosts_file (codes "/run/nixnet/hosts");
  ip_path = or_text d.ip_path (codes "ip");
  default_probe = record {
    interval_ms = or_number d.default_probe.interval_ms (pos 3000);
    timeout_ms = or_number d.default_probe.timeout_ms (pos 800);
    up_threshold = or_number d.default_probe.up_threshold (pos 2);
    down_threshold = or_number d.default_probe.down_threshold (pos 3);
  };
}

abbrev pub on_value : {A : Type 0} → (A → A) → Text × A → Text × A
on_value f (name, a) = (name, f a)

unfoldable pub apply_defaults : Config → Config
apply_defaults cfg =
    let daemon = daemon_defaults cfg.daemon in
    record {
      daemon = daemon;
      peers = map (on_value (peer_defaults daemon.default_probe)) cfg.peers;
      uplinks = map (on_value (uplink_defaults daemon.default_probe)) cfg.uplinks;
    }

-- Stands for all that the definitions above compute with: a test unfolds this name.
unfoldable pub runs : Unit {0}
unfolding Str.runs or_number or_text apply_probe_defaults apply_hysteresis_default canonical fnv_1a
    assign_transport_id peer_transport_defaults uplink_transport_defaults peer_defaults
    uplink_defaults daemon_defaults apply_defaults
runs = tt
