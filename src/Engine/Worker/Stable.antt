-- ===== src/Engine/Worker/Stable.antt =====
-- The invariants of the engine state over every interleaving of the workers of src/engine/mod.rs: a
-- predicate on groups that each update of a group keeps holds in every reachable state.
use nixnet_corbet_ch.Base.{
  ℕ, ◌≡◌, ap, subst, inl, inr, Bool, ◌&&◌, List, [], ◌∷◌, Option, none, some, map, All, get_elem?,
  set, some_inj, Option-cases, Bool-cases, ◌>>=◌, if◌then◌else◌,
}
use nixnet_corbet_ch.Base.Int.{ℤ}
use nixnet_corbet_ch.Base.Text.{Text}
use nixnet_corbet_ch.Probe.{ProbeResult}
use nixnet_corbet_ch.Engine.{
  TransportRuntime, Group, GroupKind, Action, nothing, publish_peers, publish_uplink,
  RankedInterface,
}
use nixnet_corbet_ch.Engine.Status.{EngineState, nothing_to_publish}
use nixnet_corbet_ch.Engine.Health.{observe, reject_invalid_address}
use nixnet_corbet_ch.Engine.Ranking.{uplink_ranking}
use nixnet_corbet_ch.Engine.Decide.{decide_action}
use nixnet_corbet_ch.Engine.Groups.{
  group, AllGroups, at_key-AllGroups, set_group-AllGroups, group-AllGroups,
}
use nixnet_corbet_ch.Engine.Reconcile.{
  Publishers, Decision, decide, decided, act, publish_hosts, publish_routes, publish_restored_peers,
  publish_peers_locked, publish_restored_uplinks, restored_uplinks, restored_uplink,
}
use nixnet_corbet_ch.Engine.Worker.{
  Key, System, Step, Reach, start, later, mark_started, mark_due, due_at, first_system,
}

-- Every update of a group that the engine performs keeps `P`.
pub record IsStable {ℓ} (quoted : Text → Text) (P : Group → Type ℓ) : Type ℓ where
  pub probed :
      (g : Group) (idx : ℕ) (tr : TransportRuntime) (res : ProbeResult) (at : ℤ)
      → P g
      → get_elem? g.transports idx ≡ some tr
      → P (record g {
        transports = set g.transports idx (observe (reject_invalid_address quoted res) at tr);
      })
  pub marked :
      (g : Group) (idx : ℕ) (tr : TransportRuntime) (started due : Option ℕ)
      → P g
      → get_elem? g.transports idx ≡ some tr
      → P (record g {
        transports =
            set g.transports idx (record tr { probe_started_at = started; next_probe_due = due });
      })
  pub all_due :
      (g : Group) (now : ℕ) → P g → P (record g { transports = map (mark_due now) g.transports })
  pub ticked :
      (g g' : Group) (now : ℤ) (a : Action) → P g → decide_action g now ≡ some (g', a) → P g'
  pub reported : (g : Group) (e : Text) → P g → P (record g { last_publish_error = e })

module _ {ℓ} {W : Type 0} (format : ℤ → Option Text) (quoted : Text → Text) (self : Publishers W)
    (keys : List Key) (P : Group → Type ℓ) (stable : IsStable quoted P) where
  pub decide-AllGroups :
      (s s' : EngineState) (kind : GroupKind) (name : Text) (now : ℤ) (d : Decision)
      → AllGroups P s
      → decide format s kind name now ≡ some (s', d)
      → AllGroups P s'
  unfolding decide decided
  decide-AllGroups s s' kind name now d h e = elim (Option-cases (group s kind name)) [
    | inl missing ↦ absurd (cc (rw missing at e))
    | inr (g, there_g) ↦ elim (Option-cases (decide_action g now)) [
      | inl panic ↦ absurd (cc (rw (there_g, ◌>>=◌, panic) at e))
      | inr (r, done) ↦
          subst (AllGroups P)
            (ap (λ (q : EngineState × Decision). q.0) (some_inj (rw (there_g, ◌>>=◌, done) at e)))
            (set_group-AllGroups P s kind name r.0
              (stable.ticked g r.0 now r.1 (group-AllGroups P s kind name h there_g) done) h)
    ]
  ]

  routes-AllGroups :
      (s s' : EngineState) (kind : GroupKind) (name : Text) (changed changed' : Bool) (w w' : W)
      (ranked : List RankedInterface) (base step : ℤ)
      → AllGroups P s
      → publish_routes format self kind name s changed (self.apply w ranked base step)
        ≡ some (changed', s', w')
      → AllGroups P s'
  unfolding publish_routes
  routes-AllGroups s s' kind name changed changed' w w' ranked base step h e =
      elim (Option-cases (group s kind name)) [
        | inl missing ↦ absurd (cc (rw missing at e))
        | inr (g, there_g) ↦
            subst (AllGroups P)
              (ap (λ (q : Bool × EngineState × W). q.1) (some_inj (rw (there_g, ◌>>=◌) at e)))
              (set_group-AllGroups P s kind name _
                (stable.reported g _ (group-AllGroups P s kind name h there_g)) h)
      ]

  act-AllGroups :
      (w w' : W) (s s' : EngineState) (kind : GroupKind) (name : Text) (a : Action) (d : Decision)
      (changed : Bool)
      → AllGroups P s
      → act format self w s kind name a d ≡ some (changed, s', w')
      → AllGroups P s'
  unfolding act publish_hosts
  act-AllGroups w w' s s' kind name nothing d changed h e =
      subst (AllGroups P) (ap (λ (q : Bool × EngineState × W). q.1) (some_inj e)) h
  act-AllGroups w w' s s' kind name (publish_peers passive) d changed h e =
      elim (Bool-cases (passive && d.peer_set_empty)) [
        | inl quiet ↦
            subst (AllGroups P)
              (ap (λ (q : Bool × EngineState × W). q.1) (some_inj (rw (quiet, if◌then◌else◌) at e)))
              h
        | inr loud ↦
            subst (AllGroups P)
              (ap (λ (q : Bool × EngineState × W). q.1) (some_inj (rw (loud, if◌then◌else◌) at e)))
              h
      ]
  act-AllGroups w w' s s' kind name (publish_uplink ranked base step) d changed h e =
      routes-AllGroups s s' kind name d.state_changed changed w w' ranked base step h e

  -- One step of any worker.
  step-AllGroups :
      (i : ℕ) {s t : System W}
      → Step format quoted self keys i s t
      → AllGroups P s.state
      → AllGroups P t.state
  step-AllGroups i {s} (Step.begin k next now state _ _ _ e) h =
      at_key-AllGroups P s.state state k.kind k.name k.idx (mark_started now)
        (λ g tr p at. stable.marked g k.idx tr (some now) none p at) h e
  step-AllGroups i {s} (Step.observe k next res at state _ _ e) h =
      at_key-AllGroups P s.state state k.kind k.name k.idx
        (observe (reject_invalid_address quoted res) at)
        (λ g tr p there_tr. stable.probed g k.idx tr res at p there_tr) h e
  step-AllGroups i {s} (Step.decide_under_lock k next now state d _ _ _ e) h =
      decide-AllGroups s.state state k.kind k.name now d h e
  step-AllGroups i {s} (Step.publish k next d changed state w _ _ e) h =
      act-AllGroups s.world w s.state state k.kind k.name d.action d changed h e
  step-AllGroups i {s} (Step.save k next due snapshot _ _ _) h = h
  step-AllGroups i {s} (Step.finish k next interval now state _ _ _ e) h =
      at_key-AllGroups P s.state state k.kind k.name k.idx _
        (λ g tr p at. stable.marked g k.idx tr none _ p at) h e

  pub reach-AllGroups :
      {first s : System W}
      → AllGroups P first.state
      → Reach format quoted self keys first s
      → AllGroups P s.state
  reach-AllGroups h start = h
  reach-AllGroups h (later i r step) = step-AllGroups i step (reach-AllGroups h r)

  all_due-All :
      (now : ℕ) (gs : List (Text × Group))
      → All (λ e. P e.1) gs
      → All (λ e. P e.1) (map (due_at now) gs)
  all_due-All now [] h = tt
  all_due-All now ((n, g) ∷ gs) h = (stable.all_due g now h.0, all_due-All now gs h.1)

  restored_uplink-P :
      (w : W) (g : Group) (ranked : List RankedInterface)
      → P g
      → P (restored_uplink format self w g ranked).0
  unfolding restored_uplink
  restored_uplink-P w g [] p = p
  restored_uplink-P w g (r ∷ rs) p = stable.reported g _ p

  restored_uplinks-All :
      (w : W) (gs : List (Text × Group))
      → All (λ e. P e.1) gs
      → All (λ e. P e.1) (restored_uplinks format self w gs).0
  unfolding restored_uplinks
  restored_uplinks-All w [] h = tt
  restored_uplinks-All w ((n, g) ∷ gs) h = (
    restored_uplink-P w g (uplink_ranking g) h.0,
    restored_uplinks-All (restored_uplink format self w g (uplink_ranking g)).1 gs h.1,
  )

  restored_peers-AllGroups :
      (w : W) (s : EngineState)
      → AllGroups P s
      → AllGroups P (publish_restored_peers format self w s).0
  unfolding publish_restored_peers publish_peers_locked publish_hosts
  restored_peers-AllGroups w s h = elim (Bool-cases (nothing_to_publish s)) [
    | inl e ↦ rw (e, if◌then◌else◌) h
    | inr e ↦ rw (e, if◌then◌else◌) h
  ]

  -- What a start does before its workers run.
  pub first_system-AllGroups :
      (w : W) (s : EngineState) (now : ℕ)
      → AllGroups P s
      → AllGroups P (first_system format self w s now).state
  unfolding first_system publish_restored_uplinks
  first_system-AllGroups w s now h =
      let due = record s {
        peers = map (due_at now) s.peers;
        uplinks = map (due_at now) s.uplinks;
      } in
      let (ps, us) =
        restored_peers-AllGroups w due
          (all_due-All now s.peers h.0, all_due-All now s.uplinks h.1) in
      (ps, restored_uplinks-All _ _ us)
