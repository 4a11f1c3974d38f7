-- ===== src/Engine/Worker.antt =====
-- The workers of `Engine::run_with_ready` (src/engine/mod.rs), one per transport, as steps of one
-- system that may come in any order: each step is what a worker does between two of its lock
-- operations. Monotonic instants are nanoseconds. A checkpoint reads the state
-- in a step, whose write to the disk changes none of what is modelled; `write_status`, which reads the
-- state too, is no step, and the writer locks that keep both files in order are left out.
pub mod Schedule
pub mod Stable
pub mod Locking
pub mod Defined
pub mod Keys
pub mod Progress
pub mod Alive
pub mod Sound
pub mod Literal
pub mod Handed
pub mod Boot
use nixnet_corbet_ch.Base.{
  ℕ, ◌+◌, ◌*◌, ◌≤◌, ◌≡◌, Bool, true, false, List, [], ◌∷◌, ◌++◌, Option, none, some, ltb, ◌==◌,
  if◌then◌else◌, map, get_elem?, length, zero, suc, ◌>>=◌,
}
use nixnet_corbet_ch.Base.Int.{ℤ, pos, negsuc}
use nixnet_corbet_ch.Base.Text.{Text}
use nixnet_corbet_ch.Config.{Transport}
use nixnet_corbet_ch.Probe.{ProbeResult}
use nixnet_corbet_ch.Engine.{TransportRuntime, Group, GroupKind, peer, uplink}
use nixnet_corbet_ch.Engine.Status.{EngineState}
use nixnet_corbet_ch.Engine.Health.{reject_invalid_address}
use nixnet_corbet_ch.Engine.Health
use nixnet_corbet_ch.Engine.Groups.{group, at_key, at_transport}
use nixnet_corbet_ch.Engine.New.{PersistedState}
use nixnet_corbet_ch.Engine.Save.{persisted}
use nixnet_corbet_ch.Engine.Reconcile
use nixnet_corbet_ch.Engine.Reconcile.{
  Publishers, Decision, decide, act, publish_restored_peers, publish_restored_uplinks,
}

pub record Key : Type 0 where
  pub kind : GroupKind
  pub name : Text
  pub idx : ℕ

keys_of : GroupKind → Text → ℕ → List TransportRuntime → List Key
keys_of kind name i [] = []
keys_of kind name i (tr ∷ trs) =
    record { kind = kind; name = name; idx = i } ∷ keys_of kind name (suc i) trs

group_keys : GroupKind → List (Text × Group) → List Key
unfolding keys_of
group_keys kind [] = []
group_keys kind ((name, g) ∷ gs) = keys_of kind name 0 g.transports ++ group_keys kind gs

unfoldable pub transport_keys : EngineState → List Key
unfolding group_keys
transport_keys state = group_keys peer state.peers ++ group_keys uplink state.uplinks

-- The probe interval in nanoseconds, three seconds where none is configured.
unfoldable pub interval_of : Transport → ℕ
interval_of t = in_nanoseconds t.probe.interval_ms
  where
    in_nanoseconds : ℤ → ℕ
    in_nanoseconds (pos zero) = 3000000000
    in_nanoseconds (pos (suc ms)) = suc ms * 1000000
    in_nanoseconds (negsuc n) = 3000000000

-- That of the transport a key names.
unfoldable pub interval_at : EngineState → Key → Option ℕ
interval_at state k = group state k.kind k.name >>= λ g.
    get_elem? g.transports k.idx >>= λ tr. some (interval_of tr.spec)

-- `next + interval`, or `now` where that has passed. An `Instant` holds every such sum.
unfoldable pub next_due : ℕ → ℕ → ℕ → ℕ
next_due next interval now = if ltb (next + interval) now then now else next + interval

abbrev pub mark_started : ℕ → TransportRuntime → TransportRuntime
mark_started now tr = record tr { probe_started_at = some now; next_probe_due = none }

abbrev pub mark_due : ℕ → TransportRuntime → TransportRuntime
mark_due next tr = record tr { probe_started_at = none; next_probe_due = some next }

-- What `save_state` takes of the state under its lock: nothing where the checkpoint is not due. The
-- outer `none` is a panic.
unfoldable pub saved_data : Bool → EngineState → Option (Option PersistedState)
saved_data false state = some none
saved_data true state = persisted state >>= λ ps. some (some ps)

-- Where a worker is in the loop of `run_transport`; `next` is its local variable.
pub data Stage : Type 0 where
  waiting : (next : ℕ) → Stage
  probing : (next : ℕ) → Stage
  reconciling : (next : ℕ) → Stage
  publishing : (next : ℕ) (d : Decision) → Stage
  saving : (next : ℕ) → Stage
  finishing : (next : ℕ) → Stage

-- `io_lock` names the worker that holds it.
pub record System (W : Type 0) : Type 0 where
  pub state : EngineState
  pub world : W
  pub io_lock : Option ℕ
  pub stage : ℕ → Stage

abbrev pub update : {A : Type 0} → (ℕ → A) → ℕ → A → ℕ → A
update f i v j = if j == i then v else f j

module _ {W : Type 0} (format : ℤ → Option Text) (quoted : Text → Text) (self : Publishers W)
    (keys : List Key) where
  -- A step of worker `i`. The result of its probe, and what the clocks read, are free.
  pub data Step (i : ℕ) (s : System W) : System W → Type 0 where
    begin :
        (k : Key) (next now : ℕ) (state : EngineState)
        → get_elem? keys i ≡ some k
        → s.stage i ≡ waiting next
        → next ≤ now
        → at_key k.kind k.name k.idx (mark_started now) s.state ≡ some state
        → Step i s (record s { state = state; stage = update s.stage i (probing next) })
    observe :
        (k : Key) (next : ℕ) (res : ProbeResult) (at : ℤ) (state : EngineState)
        → get_elem? keys i ≡ some k
        → s.stage i ≡ probing next
        → at_key k.kind k.name k.idx (Health.observe (reject_invalid_address quoted res) at) s.state
          ≡ some state
        → Step i s (record s { state = state; stage = update s.stage i (reconciling next) })
    decide_under_lock :
        (k : Key) (next : ℕ) (now : ℤ) (state : EngineState) (d : Decision)
        → get_elem? keys i ≡ some k
        → s.stage i ≡ reconciling next
        → s.io_lock ≡ none
        → decide format s.state k.kind k.name now ≡ some (state, d)
        → Step i s (record s {
          state = state;
          io_lock = some i;
          stage = update s.stage i (publishing next d);
        })
    publish :
        (k : Key) (next : ℕ) (d : Decision) (changed : Bool) (state : EngineState) (w : W)
        → get_elem? keys i ≡ some k
        → s.stage i ≡ publishing next d
        → act format self s.world s.state k.kind k.name d.action d ≡ some (changed, state, w)
        → Step i s (record s {
          state = state;
          world = w;
          io_lock = none;
          stage = update s.stage i (saving next);
        })
    save :
        (k : Key) (next : ℕ) (due : Bool) (snapshot : Option PersistedState)
        → get_elem? keys i ≡ some k
        → s.stage i ≡ saving next
        → saved_data due s.state ≡ some snapshot
        → Step i s (record s { stage = update s.stage i (finishing next) })
    finish :
        (k : Key) (next interval now : ℕ) (state : EngineState)
        → get_elem? keys i ≡ some k
        → s.stage i ≡ finishing next
        → interval_at s.state k ≡ some interval
        → at_key k.kind k.name k.idx (mark_due (next_due next interval now)) s.state ≡ some state
        → Step i s (record s {
          state = state;
          stage = update s.stage i (waiting (next_due next interval now));
        })

  pub data Reach (first : System W) : System W → Type 0 where
    start : Reach first first
    later : {s t : System W} (i : ℕ) → Reach first s → Step i s t → Reach first t

abbrev due_at : ℕ → Text × Group → Text × Group
due_at now (name, g) = (name, record g { transports = map (mark_due now) g.transports })

-- What `run_with_ready` does before it starts the workers.
unfoldable pub first_system :
    {W : Type 0} → (ℤ → Option Text) → Publishers W → W → EngineState → ℕ → System W
first_system format self w state now =
    let due = record state {
      peers = map (due_at now) state.peers;
      uplinks = map (due_at now) state.uplinks;
    } in
    let (state', w') = publish_restored_peers format self w due in
    let (state'', w'') = publish_restored_uplinks format self w' state' in
    record { state = state''; world = w''; io_lock = none; stage = λ i. waiting now }

-- Stands for all that the definitions above compute with: a test unfolds this name.
unfoldable pub runs : Unit {0}
unfolding Reconcile.runs persisted saved_data transport_keys interval_of interval_at next_due at_key
    at_transport first_system
runs = tt
