-- ===== src/Config/Validate.antt =====
-- `Config::validate` of src/config.rs and its helpers. A message is a constructor that carries what
-- the message names.
pub mod Distinct
pub mod Accepted
pub mod Sound
use nixnet_corbet_ch.Base.{
  ℕ, zero, suc, Bool, true, false, not, ◌&&◌, ◌||◌, List, [], ◌∷◌, Option, none, some, ◌==◌, any,
  if◌then◌else◌, Result, ok, err, Check, check, ◌&>◌,
}
use nixnet_corbet_ch.Base.Int.{ℤ, pos, ltb_ℤ, leb_ℤ}
use nixnet_corbet_ch.Base.Text.{Text, codes, is_empty, text_eq}
use nixnet_corbet_ch.Base.Str.{is_whitespace, trim, text_le}
use nixnet_corbet_ch.Base.Str
use nixnet_corbet_ch.Base.Net.{is_ip_addr}
use nixnet_corbet_ch.Base.Net
use nixnet_corbet_ch.Base.Sort.{sort}
use nixnet_corbet_ch.Config.{
  Probe, Transport, Peer, Uplink, DefaultProbe, Config, on_all_down_last_known_good,
  on_all_down_unpublish,
}

-- What `validate_probe` reports.
pub data ProbeProblem : Type 0 where
  unknown_method : (method : Text) → ProbeProblem
  exec_missing : ProbeProblem
  port_out_of_range : (method : Text) (port : ℤ) → ProbeProblem
  probe_not_positive : (name : Text) (value : ℤ) → ProbeProblem

-- What `validate` reports, with the kind, the name and the index of what it is about.
pub data Problem : Type 0 where
  default_not_positive : (name : Text) (value : ℤ) → Problem
  no_hostnames : (peer : Text) → Problem
  not_one_token : (peer host : Text) → Problem
  claimed_by_both : (host owner peer : Text) → Problem
  empty_id : (kind name : Text) (i : ℕ) → Problem
  same_stable_id : (kind name : Text) (first i : ℕ) (id : Text) → Problem
  bad_probe : (kind name : Text) (i : ℕ) → ProbeProblem → Problem
  not_a_literal : (peer : Text) (i : ℕ) → Problem
  bad_on_all_down : (peer value : Text) → Problem
  age_not_positive : (peer : Text) (value : ℤ) → Problem
  step_not_positive : (uplink : Text) (value : ℤ) → Problem
  interface_required : (uplink : Text) (i : ℕ) → Problem
  target_required : (uplink : Text) (i : ℕ) → Problem

abbrev pub is_positive : ℤ → Bool
is_positive a = ltb_ℤ (pos 0) a

-- The four numbers of a probe, in the order of the source.
abbrev pub check_positive :
    {E : Type 0} → (Text → ℤ → E) → (interval timeout up_after down_after : ℤ) → Check E
check_positive problem a b c d =
    check (is_positive a) (problem (codes "intervalMs") a)
    &> check (is_positive b) (problem (codes "timeoutMs") b)
    &> check (is_positive c) (problem (codes "upThreshold") c)
    &> check (is_positive d) (problem (codes "downThreshold") d)

abbrev pub is_method : Text → Bool
is_method s =
    text_eq s (codes "tcp")
    || text_eq s (codes "icmp")
    || text_eq s (codes "http")
    || text_eq s (codes "exec")

abbrev pub has_port : Text → Bool
has_port s = text_eq s (codes "tcp") || text_eq s (codes "http")

unfoldable pub validate_probe : Probe → Check ProbeProblem
validate_probe p =
    check (is_method p.method) (unknown_method p.method)
    &> check (not (text_eq p.method (codes "exec") && is_empty p.exec)) exec_missing
    &> check (not (has_port p.method && not (leb_ℤ (pos 1) p.port && leb_ℤ p.port (pos 65535))))
        (port_out_of_range p.method p.port)
    &> check_positive probe_not_positive p.interval_ms p.timeout_ms p.up_threshold p.down_threshold

-- The index under which an id was seen before.
unfoldable pub lookup : {A : Type 0} → Text → List (Text × A) → Option A
lookup key [] = none
lookup key ((k, a) ∷ rest) = let later = lookup key rest in if text_eq k key then some a else later

unfoldable pub validate_transport_ids :
    Text → Text → ℕ → List (Text × ℕ) → List Transport → Check Problem
validate_transport_ids kind name i seen [] = ok tt
validate_transport_ids kind name i seen (t ∷ ts) =
    let rest = validate_transport_ids kind name (suc i) ((t.id, i) ∷ seen) ts in
    check (not (is_empty (trim t.id))) (empty_id kind name i) &> elim (lookup t.id seen) [
      | none ↦ rest
      | some first ↦ err (same_stable_id kind name first i t.id)
    ]

abbrev pub is_token : Text → Bool
is_token h = not (is_empty h || any is_whitespace h || any (λ c. c == 35) h)

abbrev is_empty_list : {A : Type 0} → List A → Bool
is_empty_list [] = true
is_empty_list (a ∷ rest) = false

-- The hostnames of one peer, and those seen with theirs.
unfoldable pub validate_hostnames :
    Text → List (Text × Text) → List Text → Result Problem (List (Text × Text))
validate_hostnames name seen [] = ok seen
validate_hostnames name seen (h ∷ hs) =
    let rest = validate_hostnames name ((h, name) ∷ seen) hs in
    if not (is_token h)
    then err (not_one_token name h)
    else elim (lookup h seen) [ none ↦ rest | some owner ↦ err (claimed_by_both h owner name) ]

abbrev pub in_probe : Text → Text → ℕ → Check ProbeProblem → Check Problem
in_probe kind name i (ok done) = ok tt
in_probe kind name i (err e) = err (bad_probe kind name i e)

unfoldable pub validate_peer_transports : Text → ℕ → List Transport → Check Problem
validate_peer_transports name i [] = ok tt
validate_peer_transports name i (t ∷ ts) =
    in_probe (codes "peer") name i (validate_probe t.probe)
    &> check (is_empty t.address || is_ip_addr t.address) (not_a_literal name i)
    &> validate_peer_transports name (suc i) ts

abbrev pub is_on_all_down : Text → Bool
is_on_all_down s = text_eq s on_all_down_last_known_good || text_eq s on_all_down_unpublish

abbrev pub check_age : Text → Option ℤ → Check Problem
check_age name none = ok tt
check_age name (some v) = check (is_positive v) (age_not_positive name v)

unfoldable pub validate_peer : Text → Peer → Check Problem
validate_peer name p =
    validate_transport_ids (codes "peer") name 0 [] p.transports
    &> validate_peer_transports name 0 p.transports
    &> check (is_on_all_down p.on_all_down) (bad_on_all_down name p.on_all_down)
    &> check_age name p.last_known_good.max_age_sec

unfoldable pub validate_peers : List (Text × Peer) → List (Text × Text) → Check Problem
validate_peers [] seen = ok tt
validate_peers ((name, p) ∷ rest) seen =
    if is_empty_list p.hostnames
    then err (no_hostnames name)
    else elim (validate_hostnames name seen p.hostnames) [
      | err e ↦ err e
      | ok seen' ↦ validate_peer name p &> validate_peers rest seen'
    ]

unfoldable pub validate_uplink_transports : Text → ℕ → List Transport → Check Problem
validate_uplink_transports name i [] = ok tt
validate_uplink_transports name i (t ∷ ts) =
    check (not (is_empty t.interface)) (interface_required name i)
    &> in_probe (codes "uplink") name i (validate_probe t.probe)
    &> check (text_eq t.probe.method (codes "exec") || not (is_empty t.probe.target))
        (target_required name i)
    &> validate_uplink_transports name (suc i) ts

unfoldable pub validate_uplink : Text → Uplink → Check Problem
validate_uplink name u =
    validate_transport_ids (codes "uplink") name 0 [] u.transports
    &> check (not (u.publish.route_metric && not (is_positive u.publish.metric_step)))
        (step_not_positive name u.publish.metric_step)
    &> validate_uplink_transports name 0 u.transports

unfoldable pub validate_uplinks : List (Text × Uplink) → Check Problem
validate_uplinks [] = ok tt
validate_uplinks ((name, u) ∷ rest) = validate_uplink name u &> validate_uplinks rest

-- The entries of a map by name.
abbrev pub by_name : {A : Type 0} → List (Text × A) → List (Text × A)
by_name = sort (λ x y. text_le x.0 y.0)

unfoldable pub validate : Config → Check Problem
validate cfg =
    let def = cfg.daemon.default_probe in
    check_positive default_not_positive def.interval_ms def.timeout_ms def.up_threshold
      def.down_threshold
    &> validate_peers (by_name cfg.peers) []
    &> validate_uplinks (by_name cfg.uplinks)

-- Stands for all that the definitions above compute with: a test unfolds this name.
unfoldable pub runs : Unit {0}
unfolding Str.runs text_eq is_ip_addr sort validate_probe lookup validate_transport_ids
    validate_hostnames validate_peer_transports validate_peer validate_peers
    validate_uplink_transports validate_uplink validate_uplinks validate
runs = tt
