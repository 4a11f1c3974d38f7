-- ===== src/Engine/Worker/Defined.antt =====
-- Every key of a worker of src/engine/mod.rs stays in the state, so that no look-up panics.
use nixnet_corbet_ch.Base.{
  ℕ, ◌≡◌, refl, ap, subst, inl, inr, Bool, ◌&&◌, List, Option, some, get_elem?_lt, length, some_inj,
  Option-cases, Bool-cases, ◌>>=◌, if◌then◌else◌,
}
use nixnet_corbet_ch.Base.Int.{ℤ}
use nixnet_corbet_ch.Base.Text.{Text}
use nixnet_corbet_ch.Engine.{
  GroupKind, peer, uplink, Action, nothing, publish_peers, publish_uplink, RankedInterface,
}
use nixnet_corbet_ch.Engine.Decide.Laws.{decide_action-IsValid}
use nixnet_corbet_ch.Engine.Status.{EngineState}
use nixnet_corbet_ch.Engine.New.Valid.{IsSound}
use nixnet_corbet_ch.Engine.Groups.{AllGroups, group, group-AllGroups}
use nixnet_corbet_ch.Engine.Groups.Lookup.{HasKey, set_group-HasKey, at_key-HasKey}
use nixnet_corbet_ch.Engine.Reconcile.{
  Publishers, Decision, decide, decided, act, publish_hosts, publish_routes,
}
use nixnet_corbet_ch.Engine.Worker.{
  Key, System, Step, Reach, start, later, interval_at, interval_of,
}
use nixnet_corbet_ch.Engine.Worker.Stable.{reach-AllGroups}
use nixnet_corbet_ch.Engine.Worker.Sound.{IsSound-IsStable}

abbrev pub Has : Key → EngineState → Type 0
Has k s = HasKey k.kind k.name k.idx s

hosts_error-HasKey :
    (kind : GroupKind) (name : Text) (idx : ℕ) (s : EngineState) (e : Text)
    → HasKey kind name idx s
    → HasKey kind name idx (record s { last_hosts_error = e })
hosts_error-HasKey peer name idx s e h = h
hosts_error-HasKey uplink name idx s e h = h

pub decide-defined :
    (format : ℤ → Option Text) (s : EngineState) (k : Key) (now : ℤ)
    → AllGroups IsSound s
    → Has k s
    → (s' : EngineState) × (d : Decision) × (decide format s k.kind k.name now ≡ some (s', d))
unfolding decide
decide-defined format s k now sound (g, there_g, below) =
    let (g', a, done, valid, same) =
      decide_action-IsValid g now (group-AllGroups IsSound s k.kind k.name sound there_g).0 in
    let r = decided format k.kind k.name s g (g', a) in
    (r.0, r.1, rw (there_g, ◌>>=◌) (rw (done, ◌>>=◌) refl))

decide-HasKey :
    (format : ℤ → Option Text) (s s' : EngineState) (k : Key) (kind : GroupKind) (name : Text)
    (now : ℤ) (d : Decision)
    → AllGroups IsSound s
    → decide format s kind name now ≡ some (s', d)
    → Has k s
    → Has k s'
unfolding decide decided
decide-HasKey format s s' k kind name now d sound e h = elim (Option-cases (group s kind name)) [
  | inl missing ↦ absurd (cc (rw missing at e))
  | inr (g, there_g) ↦
      let (g', a, done, valid, same) =
        decide_action-IsValid g now (group-AllGroups IsSound s kind name sound there_g).0 in
      subst (Has k)
        (ap (λ (q : EngineState × Decision). q.0) (some_inj (rw (there_g, ◌>>=◌, done) at e)))
        (set_group-HasKey k.kind kind k.name name k.idx g g' s there_g (ap length same) h)
]

module _ {W : Type 0} (format : ℤ → Option Text) (quoted : Text → Text) (self : Publishers W)
    (keys : List Key) where
  pub act-defined :
      (w : W) (s : EngineState) (k : Key) (a : Action) (d : Decision)
      → Has k s
      → (changed : Bool) × (s' : EngineState) × (w' : W) × (act format self w s k.kind k.name a d
          ≡ some (changed, s', w'))
  unfolding act publish_routes
  act-defined w s k nothing d h = (d.state_changed, s, w, refl)
  act-defined w s k (publish_peers passive) d h = elim (Bool-cases (passive && d.peer_set_empty)) [
    | inl quiet ↦ (d.state_changed, s, w, rw (quiet, if◌then◌else◌) refl)
    | inr loud ↦
        let r = publish_hosts format self s d.state_changed (self.publish w d.entries) in
        (r.0, r.1, r.2, rw (loud, if◌then◌else◌) refl)
  ]
  act-defined w s k (publish_uplink ranked base step) d (g, there_g, below) =
      elim (Option-cases (
        publish_routes format self k.kind k.name s d.state_changed
          (self.apply w ranked base step))) [
            | inl panic ↦ absurd (cc (rw (there_g, ◌>>=◌) at panic))
            | inr (r, e) ↦ (r.0, r.1, r.2, e)
          ]

  routes-HasKey :
      (w : W) (s s' : EngineState) (k : Key) (kind : GroupKind) (name : Text) (b changed : Bool)
      (ranked : List RankedInterface) (base step : ℤ) (w' : W)
      → publish_routes format self kind name s b (self.apply w ranked base step)
        ≡ some (changed, s', w')
      → Has k s
      → Has k s'
  unfolding publish_routes
  routes-HasKey w s s' k kind name b changed ranked base step w' e h =
      elim (Option-cases (group s kind name)) [
        | inl missing ↦ absurd (cc (rw missing at e))
        | inr (g, there_g) ↦
            subst (Has k)
              (ap (λ (q : Bool × EngineState × W). q.1) (some_inj (rw (there_g, ◌>>=◌) at e)))
              (set_group-HasKey k.kind kind k.name name k.idx g _ s there_g refl h)
      ]

  act-HasKey :
      (w w' : W) (s s' : EngineState) (k : Key) (kind : GroupKind) (name : Text) (a : Action)
      (d : Decision) (changed : Bool)
      → act format self w s kind name a d ≡ some (changed, s', w')
      → Has k s
      → Has k s'
  unfolding act publish_hosts
  act-HasKey w w' s s' k kind name nothing d changed e h =
      subst (Has k) (ap (λ (q : Bool × EngineState × W). q.1) (some_inj e)) h
  act-HasKey w w' s s' k kind name (publish_peers passive) d changed e h =
      elim (Bool-cases (passive && d.peer_set_empty)) [
        | inl quiet ↦
            subst (Has k)
              (ap (λ (q : Bool × EngineState × W). q.1) (some_inj (rw (quiet, if◌then◌else◌) at e)))
              h
        | inr loud ↦
            subst (Has k)
              (ap (λ (q : Bool × EngineState × W). q.1) (some_inj (rw (loud, if◌then◌else◌) at e)))
              (hosts_error-HasKey k.kind k.name k.idx s _ h)
      ]
  act-HasKey w w' s s' k kind name (publish_uplink ranked base step) d changed e h =
      routes-HasKey w s s' k kind name d.state_changed changed ranked base step w' e h

  step-HasKey :
      (k : Key) (i : ℕ) {s t : System W}
      → Step format quoted self keys i s t
      → AllGroups IsSound s.state
      → Has k s.state
      → Has k t.state
  step-HasKey k i {s} (Step.begin l next now state _ _ _ e) sound h =
      at_key-HasKey k.kind l.kind k.name l.name k.idx l.idx _ s.state state e h
  step-HasKey k i {s} (Step.observe l next res at state _ _ e) sound h =
      at_key-HasKey k.kind l.kind k.name l.name k.idx l.idx _ s.state state e h
  step-HasKey k i {s} (Step.decide_under_lock l next now state d _ _ _ e) sound h =
      decide-HasKey format s.state state k l.kind l.name now d sound e h
  step-HasKey k i {s} (Step.publish l next d changed state w _ _ e) sound h =
      act-HasKey s.world w s.state state k l.kind l.name d.action d changed e h
  step-HasKey k i {s} (Step.save l next due snapshot _ _ _) sound h = h
  step-HasKey k i {s} (Step.finish l next interval now state _ _ _ e) sound h =
      at_key-HasKey k.kind l.kind k.name l.name k.idx l.idx _ s.state state e h

  pub reach-HasKey :
      (k : Key) {first s : System W}
      → AllGroups IsSound first.state
      → Has k first.state
      → Reach format quoted self keys first s
      → Has k s.state
  reach-HasKey k sound h start = h
  reach-HasKey k sound h (later i r step) =
      step-HasKey k i step
        (reach-AllGroups format quoted self keys IsSound (IsSound-IsStable quoted) sound r)
        (reach-HasKey k sound h r)

  pub interval_at-defined :
      (k : Key) (s : EngineState) → Has k s → (interval : ℕ) × (interval_at s k ≡ some interval)
  unfolding interval_at
  interval_at-defined k s (g, there_g, below) =
      let (tr, at) = get_elem?_lt g.transports k.idx below in
      (interval_of tr.spec, rw (there_g, ◌>>=◌) (rw (at, ◌>>=◌) refl))
