-- ===== src/Engine/Status.antt =====
-- What src/engine/mod.rs shows of its state: `render_group`, the snapshot of `write_status`,
-- `status_ttl`, `peer_entries`, `nothing_to_publish` and `log_publish_error`.
pub mod Health
pub mod Lifetime
use nixnet_corbet_ch.Base.{
  ℕ, Bool, true, false, not, List, [], ◌∷◌, ◌++◌, Option, none, some, map, keep, all, get_elem?,
  if◌then◌else◌, ◌>>=◌, unwrap_or,
}
use nixnet_corbet_ch.Base.Int.{ℤ, pos, saturating_add, max_ℤ}
use nixnet_corbet_ch.Base.Text.{Text, is_empty, text_eq}
use nixnet_corbet_ch.Config.{Config, Transport, Peer, Uplink}
use nixnet_corbet_ch.Engine.{TransportRuntime, Group, GroupKind, peer, uplink, as_str}
use nixnet_corbet_ch.Status.{StatusTransport, StatusGroup, Snapshot, group_healthy, is_healthy_at}

pub record EngineState : Type 0 where
  pub peers : List (Text × Group)
  pub uplinks : List (Text × Group)
  pub last_hosts_error : Text

-- One line of the managed block.
pub record Entry : Type 0 where
  pub address : Text
  pub hostnames : List Text
  pub confirmed_at : Option Text

-- The reported error after a publication.
unfoldable pub log_publish_error : Text → Option Text → Text
log_publish_error reported (some e) = if not (text_eq reported e) then e else reported
log_publish_error reported none = if not (is_empty reported) then [] else reported

label_of : GroupKind → Group → TransportRuntime → Text
label_of peer g tr = g.last_published_addr
label_of uplink g tr = tr.spec.interface

unfoldable pub winner_label : Group → ℕ → Text
unfolding label_of
winner_label g w = elim (get_elem? g.transports w) [ none ↦ [] | some tr ↦ label_of g.kind g tr ]

unfoldable pub nothing_to_publish : EngineState → Bool
nothing_to_publish state = all (λ g. is_empty g.1.last_published_addr) state.peers

-- `format` renders an instant as RFC 3339, which fails outside its years.
module _ (format : ℤ → Option Text) where
  abbrev pub to_entry : Text × Group → Entry
  to_entry (name, g) = record {
    address = g.last_published_addr;
    hostnames = g.hostnames;
    confirmed_at = g.last_confirmed_at >>= format;
  }

  unfoldable pub peer_entries : EngineState → List Entry
  peer_entries state = map to_entry (keep (λ g. not (is_empty g.1.last_published_addr)) state.peers)

  abbrev winner_text : Group → Option ℕ → Text
  winner_text g none = []
  winner_text g (some w) = winner_label g w

  abbrev since_text : Option ℕ → Option ℤ → Text
  since_text (some w) (some since) = unwrap_or (format since) []
  since_text _ _ = []

  abbrev status_of : TransportRuntime → Text × StatusTransport
  status_of tr = (tr.id, record { state = as_str tr.state; detail = tr.detail })

  -- The ids carry their index, so no transport replaces another.
  unfoldable pub render_group : Group → StatusGroup
  render_group g = record {
    winner = winner_text g g.winner;
    since = since_text g.winner g.winner_since;
    last_confirmed_at = unwrap_or (g.last_confirmed_at >>= format) [];
    last_publish_error = g.last_publish_error;
    degraded = g.degraded;
    transports = map status_of g.transports;
  }

  -- The snapshot of `write_status`, stamped by `status::write` for its time to live.
  unfoldable pub snapshot : Text → Text → EngineState → Snapshot
  snapshot generated_at valid_until state = record {
    generated_at = generated_at;
    valid_until = valid_until;
    last_hosts_publish_error = state.last_hosts_error;
    peers = map (λ (name, g). (name, render_group g)) state.peers;
    uplinks = map (λ (name, g). (name, render_group g)) state.uplinks;
  }

-- The transports of all groups, peers first.
unfoldable pub all_peer_transports : List (Text × Peer) → List Transport
all_peer_transports [] = []
all_peer_transports ((name, p) ∷ rest) = p.transports ++ all_peer_transports rest

unfoldable pub all_uplink_transports : List (Text × Uplink) → List Transport
all_uplink_transports [] = []
all_uplink_transports ((name, u) ∷ rest) = u.transports ++ all_uplink_transports rest

abbrev pub period : Transport → ℤ
period t = saturating_add t.probe.interval_ms t.probe.timeout_ms

-- `max().unwrap_or(0)`.
unfoldable pub longest : List Transport → ℤ
longest [] = pos 0
longest (t ∷ []) = period t
longest (t ∷ s ∷ ts) = max_ℤ (period t) (longest (s ∷ ts))

-- In milliseconds.
unfoldable pub status_ttl : Config → ℤ
status_ttl cfg =
    max_ℤ
      (saturating_add (longest (all_peer_transports cfg.peers ++ all_uplink_transports cfg.uplinks))
        (pos 5000))
      (pos 15000)

-- Stands for all that the definitions above compute with: a test unfolds this name.
unfoldable pub runs : Unit {0}
unfolding text_eq as_str log_publish_error winner_label nothing_to_publish peer_entries render_group
    snapshot all_peer_transports all_uplink_transports longest status_ttl saturating_add
    group_healthy is_healthy_at
runs = tt
