-- ===== src/Config/Validate/Accepted.antt =====
-- What a configuration that passes `validate` satisfies.
use nixnet_corbet_ch.Base.{
  ℕ, suc, ◌≡◌, ◌≢◌, refl, sym, ◌∙◌, ap, ap₂, inl, inr, ◌⊎◌, Bool, true, false, false≢true, not,
  ◌&&◌, ◌||◌, Bool-cases, List, [], ◌∷◌, Option, none, some, ok, err, Check, ◌&>◌, &>-ok, check-ok,
  check-&>, subst, some_inj, All, arith, map,
}
use nixnet_corbet_ch.Base.Int.{ℤ, pos, leb_ℤ, ◌<ℤ◌, ◌≤ℤ◌}
use nixnet_corbet_ch.Base.Text.{Text, codes, is_empty, text_eq, text_eq_iff}
use nixnet_corbet_ch.Base.Str.{trim}
use nixnet_corbet_ch.Base.Net.{is_ip_addr}
use nixnet_corbet_ch.Config.{
  Probe, Transport, Peer, Uplink, on_all_down_last_known_good, on_all_down_unpublish,
}
use nixnet_corbet_ch.Config.Validate.Distinct.{AllDifferent, ids_new}
use nixnet_corbet_ch.Config.Validate.{
  Problem, ProbeProblem, unknown_method, exec_missing, port_out_of_range, probe_not_positive,
  not_a_literal, interface_required, target_required, age_not_positive, step_not_positive,
  is_positive, check_positive, is_method, has_port, validate_probe, validate_transport_ids,
  is_token, in_probe, validate_peer_transports, is_on_all_down, check_age,
  validate_uplink_transports, validate_uplink, is_empty_list,
}

-- A probe that the daemon can run.
pub record IsRunnable (p : Probe) : Type 0 where
  pub method_known : is_method p.method ≡ true
  pub exec_given : p.method ≡ codes "exec" → p.exec ≢ []
  pub port_in_range : has_port p.method ≡ true → (pos 1 ≤ℤ p.port) × (p.port ≤ℤ pos 65535)
  pub interval_positive : pos 0 <ℤ p.interval_ms
  pub timeout_positive : pos 0 <ℤ p.timeout_ms
  pub up_positive : pos 0 <ℤ p.up_threshold
  pub down_positive : pos 0 <ℤ p.down_threshold

positive : (a : ℤ) → is_positive a ≡ true → pos 0 <ℤ a
positive a h = ground arith

pub check_positive-ok :
    {E : Type 0} (problem : Text → ℤ → E) (a b c d : ℤ)
    → check_positive problem a b c d ≡ ok tt
    → (pos 0 <ℤ a) × (pos 0 <ℤ b) × (pos 0 <ℤ c) × (pos 0 <ℤ d)
check_positive-ok problem a b c d h =
    let (ha, r1) = check-&> (is_positive a) (problem (codes "intervalMs") a) _ h in
    let (hb, r2) = check-&> (is_positive b) (problem (codes "timeoutMs") b) _ r1 in
    let (hc, r3) = check-&> (is_positive c) (problem (codes "upThreshold") c) _ r2 in
    let hd = check-ok (is_positive d) (problem (codes "downThreshold") d) r3 in
    (positive a ha, positive b hb, positive c hc, positive d hd)

in_range :
    (b : Bool) (port : ℤ)
    → not (b && not (leb_ℤ (pos 1) port && leb_ℤ port (pos 65535))) ≡ true
    → b ≡ true
    → (pos 1 ≤ℤ port) × (port ≤ℤ pos 65535)
in_range b port h m = ground arith

exec_given :
    (p : Probe)
    → not (text_eq p.method (codes "exec") && is_empty p.exec) ≡ true
    → p.method ≡ codes "exec"
    → p.exec ≢ []
exec_given p h m e =
    let both : (text_eq p.method (codes "exec") && is_empty p.exec) ≡ true =
      ap₂ (λ a b. a && b) ((text_eq_iff p.method (codes "exec")).1 m) (ap is_empty e) in
    false≢true (sym (ap not both) ∙ h)

port_in_range :
    (p : Probe)
    → not (has_port p.method && not (leb_ℤ (pos 1) p.port && leb_ℤ p.port (pos 65535))) ≡ true
    → has_port p.method ≡ true
    → (pos 1 ≤ℤ p.port) × (p.port ≤ℤ pos 65535)
port_in_range p h m = in_range (has_port p.method) p.port h m

validate_probe-IsRunnable : (p : Probe) → validate_probe p ≡ ok tt → IsRunnable p
unfolding validate_probe
validate_probe-IsRunnable p h =
    let (known, r1) = check-&> (is_method p.method) (unknown_method p.method) _ h in
    let (exec, r2) =
      check-&> (not (text_eq p.method (codes "exec") && is_empty p.exec)) exec_missing _ r1 in
    let (port, numbers) =
      check-&> (not (has_port p.method && not (leb_ℤ (pos 1) p.port && leb_ℤ p.port (pos 65535))))
        (port_out_of_range p.method p.port) _ r2 in
    let (a, b, c, d) =
      check_positive-ok probe_not_positive p.interval_ms p.timeout_ms p.up_threshold
        p.down_threshold numbers in
    record {
      method_known = known;
      exec_given = exec_given p exec;
      port_in_range = port_in_range p port;
      interval_positive = a;
      timeout_positive = b;
      up_positive = c;
      down_positive = d;
    }

-- A peer whose names can be published and whose transports can be probed.
pub record IsAcceptedPeer (p : Peer) : Type 0 where
  pub hostnames_given : is_empty_list p.hostnames ≡ false
  pub hostnames_are_tokens : All (λ h. is_token h ≡ true) p.hostnames
  pub ids_full : All (λ t. is_empty (trim t.id) ≡ false) p.transports
  pub ids_differ : AllDifferent (map (λ t. t.id) p.transports)
  pub probes_run : All (λ t. IsRunnable t.probe) p.transports
  pub addresses_are_literals :
      All (λ t. (t.address ≡ []) ⊎ (is_ip_addr t.address ≡ true)) p.transports
  pub policy_known :
      (p.on_all_down ≡ on_all_down_last_known_good) ⊎ (p.on_all_down ≡ on_all_down_unpublish)
  pub age_positive : (v : ℤ) → p.last_known_good.max_age_sec ≡ some v → pos 0 <ℤ v

-- An uplink group whose ranking the metrics can express.
pub record IsAcceptedUplink (u : Uplink) : Type 0 where
  pub ids_full : All (λ t. is_empty (trim t.id) ≡ false) u.transports
  pub ids_differ : AllDifferent (map (λ t. t.id) u.transports)
  pub step_positive : u.publish.route_metric ≡ true → pos 0 <ℤ u.publish.metric_step
  pub interfaces_given : All (λ t. is_empty t.interface ≡ false) u.transports
  pub probes_run : All (λ t. IsRunnable t.probe) u.transports
  pub targets_given :
      All (λ t. (t.probe.method ≡ codes "exec") ⊎ (is_empty t.probe.target ≡ false)) u.transports

in_probe-ok :
    (kind name : Text) (i : ℕ) (r : Check ProbeProblem) (rest : Check Problem)
    → (in_probe kind name i r &> rest) ≡ ok tt
    → (r ≡ ok tt) × (rest ≡ ok tt)
in_probe-ok kind name i (ok tt) rest h = (refl, h)
in_probe-ok kind name i (err e) rest h = absurd (cc)

empty_or : (s : Text) (b : Bool) → (is_empty s || b) ≡ true → (s ≡ []) ⊎ (b ≡ true)
empty_or [] b h = inl refl
empty_or (c ∷ cs) b h = inr h

pub peer_transports :
    (name : Text) (i : ℕ) (ts : List Transport)
    → validate_peer_transports name i ts ≡ ok tt
    → All (λ t. IsRunnable t.probe) ts
      × All (λ t. (t.address ≡ []) ⊎ (is_ip_addr t.address ≡ true)) ts
unfolding validate_peer_transports
peer_transports name i [] h = (tt, tt)
peer_transports name i (t ∷ ts) h =
    let (runs, r1) = in_probe-ok (codes "peer") name i (validate_probe t.probe) _ h in
    let (literal, r2) =
      check-&> (is_empty t.address || is_ip_addr t.address) (not_a_literal name i) _ r1 in
    let (all_run, all_literal) = peer_transports name (suc i) ts r2 in
    (
      (validate_probe-IsRunnable t.probe runs, all_run),
      (empty_or t.address (is_ip_addr t.address) literal, all_literal),
    )

exec_or :
    (s : Text) (b : Bool)
    → (text_eq s (codes "exec") || not b) ≡ true
    → (s ≡ codes "exec") ⊎ (b ≡ false)
exec_or s b h = elim (Bool-cases (text_eq s (codes "exec"))) [
  | inl same ↦ inl ((text_eq_iff s (codes "exec")).0 same)
  | inr other ↦ inr (ground arith)
]

uplink_transports :
    (name : Text) (i : ℕ) (ts : List Transport)
    → validate_uplink_transports name i ts ≡ ok tt
    → All (λ t. is_empty t.interface ≡ false) ts
      × All (λ t. IsRunnable t.probe) ts
      × All (λ t. (t.probe.method ≡ codes "exec") ⊎ (is_empty t.probe.target ≡ false)) ts
unfolding validate_uplink_transports
uplink_transports name i [] h = (tt, tt, tt)
uplink_transports name i (t ∷ ts) h =
    let (named, r1) = check-&> (not (is_empty t.interface)) (interface_required name i) _ h in
    let (runs, r2) = in_probe-ok (codes "uplink") name i (validate_probe t.probe) _ r1 in
    let (aimed, r3) =
      check-&> (text_eq t.probe.method (codes "exec") || not (is_empty t.probe.target))
        (target_required name i) _ r2 in
    let (all_named, all_run, all_aimed) = uplink_transports name (suc i) ts r3 in
    (
      (ground arith, all_named),
      (validate_probe-IsRunnable t.probe runs, all_run),
      (exec_or t.probe.method (is_empty t.probe.target) aimed, all_aimed),
    )

pub known_policy :
    (s : Text)
    → is_on_all_down s ≡ true
    → (s ≡ on_all_down_last_known_good) ⊎ (s ≡ on_all_down_unpublish)
known_policy s h = elim (Bool-cases (text_eq s on_all_down_last_known_good)) [
  | inl same ↦ inl ((text_eq_iff s on_all_down_last_known_good).0 same)
  | inr other ↦ inr ((text_eq_iff s on_all_down_unpublish).0 (ground arith))
]

pub check_age-ok :
    (name : Text) (age : Option ℤ) (v : ℤ) → check_age name age ≡ ok tt → age ≡ some v → pos 0 <ℤ v
check_age-ok name none v h e = absurd (cc)
check_age-ok name (some u) v h e = positive v (
    subst (λ (x : ℤ). is_positive x ≡ true) (some_inj e)
      (check-ok (is_positive u) (age_not_positive name u) h))

pub accepted_uplink :
    (name : Text) (u : Uplink) → validate_uplink name u ≡ ok tt → IsAcceptedUplink u
unfolding validate_uplink
accepted_uplink name u h =
    let (ids, r1) = &>-ok (validate_transport_ids (codes "uplink") name 0 [] u.transports) _ h in
    let (step, r2) =
      check-&> (not (u.publish.route_metric && not (is_positive u.publish.metric_step)))
        (step_not_positive name u.publish.metric_step) _ r1 in
    let (full, new, differ) = ids_new (codes "uplink") name 0 [] u.transports ids in
    let (named, run, aimed) = uplink_transports name 0 u.transports r2 in
    record {
      ids_full = full;
      ids_differ = differ;
      step_positive = λ on. ground arith;
      interfaces_given = named;
      probes_run = run;
      targets_given = aimed;
    }
