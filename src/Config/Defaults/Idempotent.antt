-- ===== src/Config/Defaults/Idempotent.antt =====
-- Defaults applied twice.
use nixnet_corbet_ch.Base.{◌≡◌, refl, ap, inl, inr, Bool-cases, List, [], ◌∷◌, map, arith}
use nixnet_corbet_ch.Base.Int.{ℤ}
use nixnet_corbet_ch.Base.Text.{Text, is_empty}
use nixnet_corbet_ch.Config.{Probe, Transport, Peer, Uplink, DefaultProbe, Daemon, Config}
use nixnet_corbet_ch.Config.Defaults.{
  or_number, or_text, apply_probe_defaults, apply_hysteresis_default, assign_transport_id,
  peer_transport_defaults, uplink_transport_defaults, peer_defaults, uplink_defaults,
  daemon_defaults, on_value, apply_defaults,
}

or_number_twice : (a d : ℤ) → or_number (or_number a d) d ≡ or_number a d
unfolding or_number
or_number_twice a d = ground arith

or_text_twice : (s d : Text) → or_text (or_text s d) d ≡ or_text s d
unfolding or_text
or_text_twice [] [] = refl
or_text_twice [] (c ∷ cs) = refl
or_text_twice (c ∷ cs) d = refl

probe_twice :
    (def : DefaultProbe) (p : Probe)
    → apply_probe_defaults def (apply_probe_defaults def p) ≡ apply_probe_defaults def p
unfolding apply_probe_defaults
probe_twice def p = simp (or_number_twice, or_text_twice)

id_twice : (t : Transport) → assign_transport_id (assign_transport_id t) ≡ assign_transport_id t
unfolding assign_transport_id
id_twice t = elim (Bool-cases (is_empty t.id)) [
  | inl missing ↦ rw (missing, assign_transport_id) refl
  | inr given ↦ rw (given, assign_transport_id) (rw (given, assign_transport_id))
]

peer_transport_twice :
    (def : DefaultProbe) (t : Transport)
    → peer_transport_defaults def (peer_transport_defaults def t) ≡ peer_transport_defaults def t
unfolding peer_transport_defaults assign_transport_id apply_probe_defaults
peer_transport_twice def t = elim (Bool-cases (is_empty t.id)) [
  | inl missing ↦ rw (missing, assign_transport_id) (simp (or_number_twice, or_text_twice))
  | inr given ↦
      rw (given, assign_transport_id)
        (rw (given, assign_transport_id) (simp (or_number_twice, or_text_twice)))
]

uplink_transport_twice :
    (def : DefaultProbe) (t : Transport)
    → uplink_transport_defaults def (uplink_transport_defaults def t)
      ≡ uplink_transport_defaults def t
unfolding uplink_transport_defaults assign_transport_id apply_probe_defaults
uplink_transport_twice def t = elim (Bool-cases (is_empty t.id)) [
  | inl missing ↦ rw (missing, assign_transport_id) (simp (or_number_twice, or_text_twice))
  | inr given ↦
      rw (given, assign_transport_id)
        (rw (given, assign_transport_id) (simp (or_number_twice, or_text_twice)))
]

map_twice :
    {A : Type 0} (f : A → A)
    → ((a : A) → f (f a) ≡ f a)
    → (as' : List A) → map f (map f as') ≡ map f as'
map_twice f h [] = refl
map_twice f h (a ∷ as') = rw (h a) (rw (map_twice f h as'))

peer_twice :
    (def : DefaultProbe) (p : Peer) → peer_defaults def (peer_defaults def p) ≡ peer_defaults def p
unfolding peer_defaults apply_hysteresis_default
peer_twice def p = simp (
  or_number_twice,
  or_text_twice,
  map_twice (peer_transport_defaults def) (peer_transport_twice def),
)

uplink_twice :
    (def : DefaultProbe) (u : Uplink)
    → uplink_defaults def (uplink_defaults def u) ≡ uplink_defaults def u
unfolding uplink_defaults apply_hysteresis_default
uplink_twice def u =
    simp (or_number_twice, map_twice (uplink_transport_defaults def) (uplink_transport_twice def))

daemon_twice : (d : Daemon) → daemon_defaults (daemon_defaults d) ≡ daemon_defaults d
unfolding daemon_defaults
daemon_twice d = simp (or_number_twice, or_text_twice)

-- Applied to a configuration that has them, defaults change nothing, identities included.
pub apply_defaults_twice : (cfg : Config) → apply_defaults (apply_defaults cfg) ≡ apply_defaults cfg
unfolding apply_defaults
apply_defaults_twice cfg =
    let def = (daemon_defaults cfg.daemon).default_probe in
    rw (daemon_twice cfg.daemon) (
      rw
        (map_twice (on_value (peer_defaults def))
          (λ (name, p). ap (λ (q : Peer). (name, q)) (peer_twice def p)) cfg.peers)
        (rw (
          map_twice (on_value (uplink_defaults def))
            (λ (name, u). ap (λ (v : Uplink). (name, v)) (uplink_twice def u)) cfg.uplinks)))
