-- ===== src/Config/Needs.antt =====
-- `Config::needs_net_admin` and `needs_net_raw` of src/config.rs: the capabilities a configuration
-- asks for.
use nixnet_corbet_ch.Base.{Bool, ◌||◌, any}
use nixnet_corbet_ch.Base.Text.{codes, text_eq}
use nixnet_corbet_ch.Config.{Config, Transport}

unfoldable pub needs_net_admin : Config → Bool
needs_net_admin cfg = any (λ e. e.1.publish.route_metric) cfg.uplinks

abbrev pub transport_needs : Transport → Bool
transport_needs t = text_eq t.probe.method (codes "icmp") || t.probe.bind_to_interface

unfoldable pub needs_net_raw : Config → Bool
needs_net_raw cfg =
    any (λ e. any transport_needs e.1.transports) cfg.peers
    || any (λ e. any transport_needs e.1.transports) cfg.uplinks
