-- ===== src/Config/Defaults/Filled.antt =====
-- What `Config::apply_defaults` (src/config.rs) may and may not change.
use nixnet_corbet_ch.Base.{◌≡◌, ◌≢◌, List, [], ◌∷◌}
use nixnet_corbet_ch.Base.Int.{ℤ, pos}
use nixnet_corbet_ch.Base.Text.{Text, codes}
use nixnet_corbet_ch.Config.{
  Probe, Transport, Peer, Uplink, DefaultProbe, Daemon, Config, on_all_down_last_known_good,
}

-- A setting that is there stays; the default stands for one that was left out, as 0 or as an empty
-- text.
abbrev pub FillsNumber : ℤ → ℤ → ℤ → Type 0
FillsNumber a def b = (a ≢ pos 0 → b ≡ a) × (a ≡ pos 0 → b ≡ def)

abbrev pub FillsText : Text → Text → Text → Type 0
FillsText s def t = (s ≢ [] → t ≡ s) × (s ≡ [] → t ≡ def)

-- Two lists of the same length whose entries are related in turn.
abbrev pub Each : {A : Type 0} → (A → A → Type 0) → List A → List A → Type 0
Each R [] [] = Unit
Each R [] (b ∷ bs) = ⊥
Each R (a ∷ as') [] = ⊥
Each R (a ∷ as') (b ∷ bs) = R a b × Each R as' bs

-- `target` is what the target of the probe is filled with.
pub record FillsProbe (def : DefaultProbe) (target : Text) (p q : Probe) : Type 0 where
  pub method : FillsText p.method (codes "tcp") q.method
  pub dialed : FillsText p.target target q.target
  pub port : FillsNumber p.port (pos 22) q.port
  pub path : FillsText p.path (codes "/") q.path
  pub bind_to_interface : q.bind_to_interface ≡ p.bind_to_interface
  pub interval_ms : FillsNumber p.interval_ms def.interval_ms q.interval_ms
  pub timeout_ms : FillsNumber p.timeout_ms def.timeout_ms q.timeout_ms
  pub up_threshold : FillsNumber p.up_threshold def.up_threshold q.up_threshold
  pub down_threshold : FillsNumber p.down_threshold def.down_threshold q.down_threshold
  pub exec : q.exec ≡ p.exec

-- An identity that is there stays.
pub record FillsTransport (def : DefaultProbe) (target : Text) (t u : Transport) : Type 0 where
  pub id : t.id ≢ [] → u.id ≡ t.id
  pub address : u.address ≡ t.address
  pub interface : u.interface ≡ t.interface
  pub priority : u.priority ≡ t.priority
  pub provider_id : u.provider_id ≡ t.provider_id
  pub probe : FillsProbe def target t.probe u.probe

pub record FillsPeer (def : DefaultProbe) (p q : Peer) : Type 0 where
  pub hostnames : q.hostnames ≡ p.hostnames
  pub transports : Each (λ t u. FillsTransport def t.address t u) p.transports q.transports
  pub min_hold_ms : FillsNumber p.hysteresis.min_hold_ms (pos 10000) q.hysteresis.min_hold_ms
  pub on_all_down : FillsText p.on_all_down on_all_down_last_known_good q.on_all_down
  pub last_known_good : q.last_known_good ≡ p.last_known_good

-- The target of an uplink's probe has no default.
pub record FillsUplink (def : DefaultProbe) (u v : Uplink) : Type 0 where
  pub transports : Each (λ t s. FillsTransport def [] t s) u.transports v.transports
  pub min_hold_ms : FillsNumber u.hysteresis.min_hold_ms (pos 15000) v.hysteresis.min_hold_ms
  pub route_metric : v.publish.route_metric ≡ u.publish.route_metric
  pub metric_base : FillsNumber u.publish.metric_base (pos 100) v.publish.metric_base
  pub metric_step : FillsNumber u.publish.metric_step (pos 10) v.publish.metric_step

pub record FillsDaemon (d e : Daemon) : Type 0 where
  pub state_dir : FillsText d.state_dir (codes "/var/lib/nixnet") e.state_dir
  pub runtime_dir : FillsText d.runtime_dir (codes "nixnet") e.runtime_dir
  pub hosts_file : FillsText d.hosts_file (codes "/run/nixnet/hosts") e.hosts_file
  pub ip_path : FillsText d.ip_path (codes "ip") e.ip_path
  pub interval_ms : FillsNumber d.default_probe.interval_ms (pos 3000) e.default_probe.interval_ms
  pub timeout_ms : FillsNumber d.default_probe.timeout_ms (pos 800) e.default_probe.timeout_ms
  pub up_threshold : FillsNumber d.default_probe.up_threshold (pos 2) e.default_probe.up_threshold
  pub down_threshold :
      FillsNumber d.default_probe.down_threshold (pos 3) e.default_probe.down_threshold

-- Transports take the defaults of the daemon as they are filled in.
pub record FillsConfig (cfg filled : Config) : Type 0 where
  pub daemon : FillsDaemon cfg.daemon filled.daemon
  pub peers :
      Each
        (λ e f. (f.0 ≡ e.0) × FillsPeer filled.daemon.default_probe e.1 f.1)
        cfg.peers
        filled.peers
  pub uplinks :
      Each
        (λ e f. (f.0 ≡ e.0) × FillsUplink filled.daemon.default_probe e.1 f.1)
        cfg.uplinks
        filled.uplinks
