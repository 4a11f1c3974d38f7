-- ===== src/Config/Validate/Sound.antt =====
-- `validate` as a whole.
use nixnet_corbet_ch.Base.{
  ◌≡◌, sym, inl, inr, true, false, Bool-cases, List, [], ◌∷◌, ◌++◌, none, ok, &>-ok, check-&>,
  ok_not_err, Result-cases, All, All-map, All-append, All_of_In, All-In,
}
use nixnet_corbet_ch.Base.Int.{pos, ◌<ℤ◌}
use nixnet_corbet_ch.Base.Text.{Text, codes}
use nixnet_corbet_ch.Base.Str.{text_le}
use nixnet_corbet_ch.Base.Sort.{In-sort}
use nixnet_corbet_ch.Config.{Peer, Uplink, Config}
use nixnet_corbet_ch.Config.Validate.Distinct.{
  AllDifferent, AllDifferent-append, ids_new, hostnames_new,
}
use nixnet_corbet_ch.Config.Validate.Accepted.{
  IsAcceptedPeer, IsAcceptedUplink, check_positive-ok, peer_transports, known_policy, check_age-ok,
  accepted_uplink,
}
use nixnet_corbet_ch.Config.Validate.{
  bad_on_all_down, default_not_positive, is_on_all_down, is_token, lookup, validate_peer,
  validate_transport_ids, validate_peer_transports, validate_hostnames, validate_peers,
  validate_uplink, validate_uplinks, by_name, validate, is_empty_list, check_positive,
}

accepted_peer :
    (name : Text) (p : Peer)
    → is_empty_list p.hostnames ≡ false
    → All (λ h. is_token h ≡ true) p.hostnames
    → validate_peer name p ≡ ok tt
    → IsAcceptedPeer p
unfolding validate_peer
accepted_peer name p given tokens h =
    let (ids, r1) = &>-ok (validate_transport_ids (codes "peer") name 0 [] p.transports) _ h in
    let (transports, r2) = &>-ok (validate_peer_transports name 0 p.transports) _ r1 in
    let (policy, age) =
      check-&> (is_on_all_down p.on_all_down) (bad_on_all_down name p.on_all_down) _ r2 in
    let (full, new, differ) = ids_new (codes "peer") name 0 [] p.transports ids in
    let (run, literal) = peer_transports name 0 p.transports transports in
    record {
      hostnames_given = given;
      hostnames_are_tokens = tokens;
      ids_full = full;
      ids_differ = differ;
      probes_run = run;
      addresses_are_literals = literal;
      policy_known = known_policy p.on_all_down policy;
      age_positive = λ v e. check_age-ok name p.last_known_good.max_age_sec v age e;
    }

-- The host names of all peers, in order.
abbrev pub all_hostnames : List (Text × Peer) → List Text
all_hostnames [] = []
all_hostnames ((name, p) ∷ rest) = p.hostnames ++ all_hostnames rest

peers_accepted :
    (peers : List (Text × Peer)) (seen : List (Text × Text))
    → validate_peers peers seen ≡ ok tt
    → All (λ entry. IsAcceptedPeer entry.1) peers
      × All (λ h. lookup h seen ≡ none) (all_hostnames peers)
      × AllDifferent (all_hostnames peers)
unfolding validate_peers
peers_accepted [] seen h = (tt, tt, tt)
peers_accepted ((name, p) ∷ rest) seen h = elim (Bool-cases (is_empty_list p.hostnames)) [
  | inl nameless ↦ absurd (ok_not_err (sym (rw (nameless, validate_peers) at h)))
  | inr given ↦ elim (Result-cases (validate_hostnames name seen p.hostnames)) [
    | inr (e, bad) ↦ absurd (ok_not_err (sym (rw (given, validate_peers, bad) at h)))
    | inl (seen', good) ↦
        let (own, others) =
          &>-ok (validate_peer name p) _ (rw (given, validate_peers, good) at h) in
        let (tokens, new, differ, later) = hostnames_new name seen seen' p.hostnames good in
        let (accepted, unseen, apart) = peers_accepted rest seen' others in
        let behind = All-map (λ x k. later x k) (all_hostnames rest) unseen in
        (
          (accepted_peer name p given tokens own, accepted),
          All-append (λ (x : Text). lookup x seen ≡ none) p.hostnames (all_hostnames rest) new
              (All-map (λ x k. k.0) (all_hostnames rest) behind),
          AllDifferent-append p.hostnames (all_hostnames rest) differ apart
              (All-map (λ x k. k.1) (all_hostnames rest) behind),
        )
  ]
]

uplinks_accepted :
    (uplinks : List (Text × Uplink))
    → validate_uplinks uplinks ≡ ok tt
    → All (λ entry. IsAcceptedUplink entry.1) uplinks
unfolding validate_uplinks
uplinks_accepted [] h = tt
uplinks_accepted ((name, u) ∷ rest) h =
    let (own, others) = &>-ok (validate_uplink name u) _ h in
    (accepted_uplink name u own, uplinks_accepted rest others)

All_by_name :
    {A : Type 0} (P : Text × A → Type 0) (entries : List (Text × A))
    → All P (by_name entries)
    → All P entries
All_by_name P entries h =
    All_of_In P entries (λ e m. All-In P (In-sort (λ x y. text_le x.0 y.0) entries m) h)

-- A configuration that the daemon can run.
pub record IsAccepted (cfg : Config) : Type 0 where
  pub interval_positive : pos 0 <ℤ cfg.daemon.default_probe.interval_ms
  pub timeout_positive : pos 0 <ℤ cfg.daemon.default_probe.timeout_ms
  pub up_positive : pos 0 <ℤ cfg.daemon.default_probe.up_threshold
  pub down_positive : pos 0 <ℤ cfg.daemon.default_probe.down_threshold
  pub peers_accepted : All (λ entry. IsAcceptedPeer entry.1) cfg.peers
  pub hostnames_differ : AllDifferent (all_hostnames (by_name cfg.peers))
  pub uplinks_accepted : All (λ entry. IsAcceptedUplink entry.1) cfg.uplinks

-- A configuration that passes validation has positive default numbers; host names that are tokens
-- and of which no two are the same, over all peers; in each group transport ids that are not blank
-- and different, and probes that can run; peer addresses that are IP literals where they are set, a
-- known `onAllDown` and a positive age bound; and for uplinks an interface, a target where one is
-- needed and, where metrics are published, a positive step.
pub validate-IsAccepted : (cfg : Config) → validate cfg ≡ ok tt → IsAccepted cfg
unfolding validate
validate-IsAccepted cfg h =
    let def = cfg.daemon.default_probe in
    let (numbers, r1) =
      &>-ok
        (check_positive default_not_positive def.interval_ms def.timeout_ms def.up_threshold
          def.down_threshold)
        _ h in
    let (peers, uplinks) = &>-ok (validate_peers (by_name cfg.peers) []) _ r1 in
    let (a, b, c, d) =
      check_positive-ok default_not_positive def.interval_ms def.timeout_ms def.up_threshold
        def.down_threshold numbers in
    let (accepted, unseen, differ) = peers_accepted (by_name cfg.peers) [] peers in
    record {
      interval_positive = a;
      timeout_positive = b;
      up_positive = c;
      down_positive = d;
      peers_accepted = All_by_name (λ entry. IsAcceptedPeer entry.1) cfg.peers accepted;
      hostnames_differ = differ;
      uplinks_accepted =
          All_by_name (λ entry. IsAcceptedUplink entry.1) cfg.uplinks
            (uplinks_accepted (by_name cfg.uplinks) uplinks);
    }
