-- ===== src/Engine/Worker/Progress.antt =====
-- No interleaving of the workers of src/engine/mod.rs ends in a panic or a deadlock.
use nixnet_corbet_ch.Base.{
  ℕ, ◌≡◌, refl, subst, ◌⊎◌, inl, inr, Bool, true, false, ◌>>=◌, List, [], Option, none, some,
  get_elem?, some_inj, Option-cases, arith,
}
use nixnet_corbet_ch.Base.Int.{ℤ, pos}
use nixnet_corbet_ch.Base.Text.{Text}
use nixnet_corbet_ch.Probe.{ProbeResult}
use nixnet_corbet_ch.Engine.Health.{observe, reject_invalid_address}
use nixnet_corbet_ch.Engine.New.Valid.{IsSound}
use nixnet_corbet_ch.Engine.Groups.{AllGroups}
use nixnet_corbet_ch.Engine.Status.{EngineState}
use nixnet_corbet_ch.Engine.New.{PersistedState}
use nixnet_corbet_ch.Engine.Save.Defined.{persisted-defined}
use nixnet_corbet_ch.Engine.Groups.{at_key}
use nixnet_corbet_ch.Engine.Groups.Lookup.{at_key-defined}
use nixnet_corbet_ch.Engine.Reconcile.{Publishers, Decision, decide, act}
use nixnet_corbet_ch.Engine.Worker.{
  Key, System, Stage, waiting, probing, reconciling, publishing, saving, finishing, Step, Reach,
  start, later, mark_started, mark_due, next_due, interval_at, saved_data,
}
use nixnet_corbet_ch.Engine.Worker.Stable.{reach-AllGroups}
use nixnet_corbet_ch.Engine.Worker.Sound.{IsSound-IsStable}
use nixnet_corbet_ch.Engine.Worker.Locking.{IsLocked, reach-IsLocked, is_publishing}
use nixnet_corbet_ch.Engine.Worker.Defined.{
  Has, decide-defined, act-defined, interval_at-defined, reach-HasKey,
}

saved_data-defined :
    (due : Bool) (s : EngineState)
    → AllGroups IsSound s
    → (snapshot : Option PersistedState) × (saved_data due s ≡ some snapshot)
unfolding saved_data
saved_data-defined false s sound = (none, refl)
saved_data-defined true s sound =
    let (ps, e) = persisted-defined s sound in (some ps, rw (e, ◌>>=◌) refl)

-- `ProbeResult::default()`.
abbrev default_result : ProbeResult
default_result = record { healthy = false; address = []; detail = [] }

module _ {W : Type 0} (format : ℤ → Option Text) (quoted : Text → Text) (self : Publishers W)
    (keys : List Key) where
  -- What holds in every reachable system.
  record IsRunning (s : System W) : Type 0 where
    pub sound : AllGroups IsSound s.state
    pub locked : IsLocked s
    pub has_keys : (i : ℕ) (k : Key) → get_elem? keys i ≡ some k → Has k s.state

  -- A worker can go on: a waiting one once its time has come, a reconciling one with the lock free.
  abbrev pub CanStep : ℕ → System W → Type 0
  CanStep i s = (t : System W) × Step format quoted self keys i s t

  -- Whatever the clocks read and whatever a probe returned, what the worker of a key does next does not
  -- panic.
  abbrev pub NeverPanics : Key → System W → Stage → Type 0
  NeverPanics k s (waiting next) =
      (now : ℕ)
      → (state : EngineState) × (at_key k.kind k.name k.idx (mark_started now) s.state ≡ some state)
  NeverPanics k s (probing next) =
      (res : ProbeResult) (at : ℤ)
      → (state : EngineState) × (at_key k.kind k.name k.idx
            (observe (reject_invalid_address quoted res) at) s.state
          ≡ some state)
  NeverPanics k s (reconciling next) =
      (now : ℤ)
      → (state : EngineState) × (d : Decision) × (decide format s.state k.kind k.name now
          ≡ some (state, d))
  NeverPanics k s (publishing next d) =
      (changed : Bool) × (state : EngineState) × (w : W) × (act format self s.world s.state k.kind
          k.name d.action d
        ≡ some (changed, state, w))
  NeverPanics k s (saving next) =
      (due : Bool) → (snapshot : Option PersistedState) × (saved_data due s.state ≡ some snapshot)
  NeverPanics k s (finishing next) =
      (now : ℕ)
      → (interval : ℕ) × (state : EngineState) × (interval_at s.state k ≡ some interval)
        × (at_key k.kind k.name k.idx (mark_due (next_due next interval now)) s.state ≡ some state)

  never_panics :
      (i : ℕ) (k : Key) (s : System W) (v : Stage)
      → get_elem? keys i ≡ some k
      → IsRunning s
      → NeverPanics k s v
  never_panics i k s (waiting next) at run =
      λ now. at_key-defined k.kind k.name k.idx (mark_started now) s.state (run.has_keys i k at)
  never_panics i k s (probing next) at run = λ res at'.
      at_key-defined k.kind k.name k.idx (observe (reject_invalid_address quoted res) at') s.state
        (run.has_keys i k at)
  never_panics i k s (reconciling next) at run =
      λ now. decide-defined format s.state k now run.sound (run.has_keys i k at)
  never_panics i k s (publishing next d) at run =
      act-defined format quoted self keys s.world s.state k d.action d (run.has_keys i k at)
  never_panics i k s (saving next) at run = λ due. saved_data-defined due s.state run.sound
  never_panics i k s (finishing next) at run = λ now.
      let (interval, of_key) =
        interval_at-defined format quoted self keys k s.state (run.has_keys i k at) in
      let (state, done) =
        at_key-defined k.kind k.name k.idx (mark_due (next_due next interval now)) s.state
          (run.has_keys i k at) in
      (interval, state, of_key, done)

  step_alone :
      (i : ℕ) (k : Key) (s : System W) (res : ProbeResult) (v : Stage)
      → get_elem? keys i ≡ some k
      → IsRunning s
      → s.stage i ≡ v
      → CanStep i s ⊎ ((is_publishing v ≡ false) × ((j : ℕ) × (s.io_lock ≡ some j)))
  step_alone i k s res (waiting next) at run e =
      let (state, done) =
        at_key-defined k.kind k.name k.idx (mark_started next) s.state (run.has_keys i k at) in
      inl (_, Step.begin k next next state at e (omega arith) done)
  step_alone i k s res (probing next) at run e =
      let (state, done) =
        at_key-defined k.kind k.name k.idx (observe (reject_invalid_address quoted res) (pos 0))
          s.state (run.has_keys i k at) in
      inl (_, Step.observe k next res (pos 0) state at e done)
  step_alone i k s res (reconciling next) at run e = elim (Option-cases s.io_lock) [
    | inl free ↦
        let (state, d, done) =
          decide-defined format s.state k (pos 0) run.sound (run.has_keys i k at) in
        inl (_, Step.decide_under_lock k next (pos 0) state d at e free done)
    | inr (j, held) ↦ inr (refl, (j, held))
  ]
  step_alone i k s res (publishing next d) at run e =
      let (changed, state, w, done) =
        act-defined format quoted self keys s.world s.state k d.action d (run.has_keys i k at) in
      inl (_, Step.publish k next d changed state w at e done)
  step_alone i k s res (saving next) at run e =
      let (snapshot, done) = saved_data-defined false s.state run.sound in
      inl (_, Step.save k next false snapshot at e done)
  step_alone i k s res (finishing next) at run e =
      let (interval, of_key) =
        interval_at-defined format quoted self keys k s.state (run.has_keys i k at) in
      let (state, done) =
        at_key-defined k.kind k.name k.idx (mark_due (next_due next interval 0)) s.state
          (run.has_keys i k at) in
      inl (_, Step.finish k next interval 0 state at e of_key done)

  -- The holder of the lock is a worker of a transport.
  abbrev HolderHasKey : System W → Type 0
  HolderHasKey s = (j : ℕ) → s.io_lock ≡ some j → (k : Key) × (get_elem? keys j ≡ some k)

  step-HolderHasKey :
      (i : ℕ) {s t : System W}
      → Step format quoted self keys i s t
      → HolderHasKey s
      → HolderHasKey t
  step-HolderHasKey i (Step.begin k next now state _ _ _ _) h = h
  step-HolderHasKey i (Step.observe k next res at state _ _ _) h = h
  step-HolderHasKey i (Step.decide_under_lock k next now state d at _ _ _) h =
      λ j held. (k, subst (λ n. get_elem? keys n ≡ some k) (some_inj held) at)
  step-HolderHasKey i (Step.publish k next d changed state w _ _ _) h = λ j held. cc
  step-HolderHasKey i (Step.save k next due snapshot _ _ _) h = h
  step-HolderHasKey i (Step.finish k next interval now state _ _ _ _) h = h

  reach-HolderHasKey :
      {first s : System W}
      → HolderHasKey first
      → Reach format quoted self keys first s
      → HolderHasKey s
  reach-HolderHasKey h start = h
  reach-HolderHasKey h (later i r step) = step-HolderHasKey i step (reach-HolderHasKey h r)

  reach-IsRunning :
      {first s : System W} → IsRunning first → Reach format quoted self keys first s → IsRunning s
  reach-IsRunning run r = record {
    sound = reach-AllGroups format quoted self keys IsSound (IsSound-IsStable quoted) run.sound r;
    locked = reach-IsLocked format quoted self keys run.locked r;
    has_keys = λ i k at. reach-HasKey format quoted self keys k run.sound (run.has_keys i k at) r;
  }

  -- The holder of the lock publishes, which no one keeps it from finishing.
  holder_steps :
      (j : ℕ) (s : System W) → IsRunning s → HolderHasKey s → s.io_lock ≡ some j → CanStep j s
  holder_steps j s run holders held =
      let (k, at) = holders j held in
      elim (step_alone j k s default_result (s.stage j) at run refl) [
        | inl t ↦ t
        | inr (quiet, _) ↦ absurd (cc (quiet, (run.locked j).1 held))
      ]

  -- Started with the I/O lock free, no worker publishing, every group sound and every worker's
  -- transport there, the workers never come, in any interleaving, to where one of them would panic
  -- or all wait: each can take its next step, or waits for the I/O
  -- lock, whose holder can.
  pub reach_progress :
      (first s : System W) (i : ℕ) (k : Key)
      → AllGroups IsSound first.state
      → ((n : ℕ) (l : Key) → get_elem? keys n ≡ some l → Has l first.state)
      → first.io_lock ≡ none
      → ((n : ℕ) → is_publishing (first.stage n) ≡ false)
      → Reach format quoted self keys first s
      → get_elem? keys i ≡ some k
      → NeverPanics k s (s.stage i) × (CanStep i s ⊎ ((j : ℕ) × (s.io_lock ≡ some j) × CanStep j s))
  reach_progress first s i k sound has_keys free quiet r at =
      let run =
        reach-IsRunning
          (record {
            sound = sound;
            locked = λ n. (λ p. cc (p, quiet n), λ held. cc (held, free));
            has_keys = has_keys;
          })
          r in
      let holders = reach-HolderHasKey (λ j held. absurd (cc (held, free))) r in
      (
        never_panics i k s (s.stage i) at run,
        elim (step_alone i k s default_result (s.stage i) at run refl) [
          | inl t ↦ inl t
          | inr (_, (j, held)) ↦ inr (j, held, holder_steps j s run holders held)
        ],
      )
