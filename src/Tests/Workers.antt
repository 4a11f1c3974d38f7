-- ===== src/Tests/Workers.antt =====
-- Two peers of one transport each: a start without a state file, and a worker that probes, decides
-- and comes to publish what it found.
use nixnet_corbet_ch.Base.{
  ℕ, ◌≡◌, refl, ◌⊎◌, true, false, List, [], ◌∷◌, Option, none, some, All, unwrap_or, Result, ok,
  err, arith, length, ◌+◌, ◌*◌, ◌≤◌,
}
use nixnet_corbet_ch.Base.Int.{ℤ, pos}
use nixnet_corbet_ch.Base.Text.{Text, codes, text_eq}
use nixnet_corbet_ch.Config.{Config}
use nixnet_corbet_ch.Config.Defaults
use nixnet_corbet_ch.Config.Defaults.{apply_defaults}
use nixnet_corbet_ch.Config.Validate
use nixnet_corbet_ch.Config.Load.{load}
use nixnet_corbet_ch.Probe.{ProbeResult}
use nixnet_corbet_ch.Engine.{peer, nothing}
use nixnet_corbet_ch.Engine.Health
use nixnet_corbet_ch.Engine.Health.{observe, reject_invalid_address}
use nixnet_corbet_ch.Engine.Status.{EngineState}
use nixnet_corbet_ch.Engine.Groups.{at_key, AllGroups}
use nixnet_corbet_ch.Engine.New
use nixnet_corbet_ch.Engine.New.{PersistedState, new}
use nixnet_corbet_ch.Engine.New.Valid.{IsSound}
use nixnet_corbet_ch.Engine.Reconcile
use nixnet_corbet_ch.Engine.Reconcile.{Publishers, Decision, decide}
use nixnet_corbet_ch.Engine.Worker.{
  Key, System, Stage, waiting, probing, reconciling, publishing, Step, Reach, start, later, update,
  first_system, transport_keys, mark_started, next_due,
}
use nixnet_corbet_ch.Engine.Worker
use nixnet_corbet_ch.Engine.Worker.Boot.{boot-HoldLiterals, boot-IsSound}
use nixnet_corbet_ch.Engine.Worker.Literal.{NamesLiteral}
use nixnet_corbet_ch.Engine.Worker.Locking.{is_publishing, reach_one_publishes}
use nixnet_corbet_ch.Engine.Worker.Progress.{NeverPanics}
use nixnet_corbet_ch.Engine.Worker.Alive.{boot_progress}
use nixnet_corbet_ch.Engine.Worker.Keys.{AreDistinct, names}
use nixnet_corbet_ch.Engine.Worker.Schedule.{due_after, due_after_cadence, OnTime}
use nixnet_corbet_ch.Tests.Config.{small, left_out}

-- One success is enough.
abbrev quick : Config
quick = record small {
  daemon = record left_out {
    default_probe = record {
      interval_ms = pos 0;
      timeout_ms = pos 0;
      up_threshold = pos 1;
      down_threshold = pos 0;
    };
  };
}

abbrev cfg : Config
cfg = apply_defaults quick

loads_quick : load (λ text. ok quick) (ok (codes "{}")) ≡ ok cfg
unfolding Defaults.runs Validate.runs load
loads_quick = refl

abbrev stamp : ℤ → Option Text
stamp now = some (codes "T1")

abbrev same_text : Text → Text
same_text s = s

-- Publishers that do nothing and report no error.
abbrev silent : Publishers (Unit {0})
silent = record {
  publish = λ w entries. (ok true, w);
  apply = λ w ranked base step. (record { changes = []; error = none }, w);
}

abbrev unparsed : Text → Result Text PersistedState
unparsed s = err (codes "no JSON")

abbrev booted_state : EngineState
booted_state = new unparsed cfg (err (codes "no such file")) (pos 0)

abbrev system₀ : System (Unit {0})
system₀ = first_system stamp silent tt booted_state 5

abbrev key : Key
key = record { kind = peer; name = codes "b"; idx = 0 }

abbrev other_key : Key
other_key = record { kind = peer; name = codes "a"; idx = 0 }

abbrev workers : List Key
workers = key ∷ other_key ∷ []

keys_of_state : transport_keys booted_state ≡ workers
unfolding Defaults.runs New.runs Worker.runs
keys_of_state = refl

abbrev answer : ProbeResult
answer = record { healthy = true; address = []; detail = codes "ok" }

abbrev state₁ : EngineState
state₁ = unwrap_or (at_key peer (codes "b") 0 (mark_started 5) system₀.state) system₀.state

abbrev system₁ : System (Unit {0})
system₁ = record system₀ { state = state₁; stage = update system₀.stage 0 (probing 5) }

abbrev state₂ : EngineState
state₂ =
    unwrap_or
      (at_key peer (codes "b") 0 (observe (reject_invalid_address same_text answer) (pos 9)) state₁)
      state₁

abbrev system₂ : System (Unit {0})
system₂ = record system₁ { state = state₂; stage = update system₁.stage 0 (reconciling 5) }

abbrev nothing_decided : EngineState × Decision
nothing_decided = (
  state₂,
  record { action = nothing; entries = []; peer_set_empty = true; state_changed = false },
)

abbrev decision : EngineState × Decision
decision = unwrap_or (decide stamp state₂ peer (codes "b") (pos 10)) nothing_decided

abbrev system₃ : System (Unit {0})
system₃ = record system₂ {
  state = decision.0;
  io_lock = some 0;
  stage = update system₂.stage 0 (publishing 5 decision.1);
}

one_entry : length decision.1.entries ≡ 1
unfolding Defaults.runs New.runs Worker.runs Reconcile.runs Health.runs
one_entry = refl

reach_publishing : Reach stamp same_text silent workers system₀ system₃
unfolding Defaults.runs New.runs Worker.runs Reconcile.runs Health.runs
reach_publishing =
    later 0
      (later 0 (later 0 start (Step.begin key 5 5 state₁ refl refl (omega arith) refl))
        (Step.observe key 5 answer (pos 9) state₂ refl refl refl))
      (Step.decide_under_lock key 5 (pos 10) decision.0 decision.1 refl refl refl refl)

boot-HoldLiterals_example : All NamesLiteral decision.1.entries
boot-HoldLiterals_example =
    boot-HoldLiterals stamp same_text silent workers (λ text. ok quick) (ok (codes "{}")) cfg
      unparsed (codes "no such file") (pos 0) tt 5 system₃ 0 5 decision.1 loads_quick
      reach_publishing refl

boot-IsSound_example : AllGroups IsSound system₃.state
boot-IsSound_example =
    boot-IsSound stamp same_text silent workers unparsed cfg (err (codes "no such file")) (pos 0) tt
      5 system₃ reach_publishing

free_lock : system₀.io_lock ≡ none
unfolding Worker.runs
free_lock = refl

none_publishes : (n : ℕ) → is_publishing (system₀.stage n) ≡ false
unfolding Worker.runs
none_publishes n = refl

peer_names : AreDistinct (names cfg.peers)
unfolding Defaults.runs text_eq
peer_names = ((refl, tt), (tt, tt))

uplink_names : AreDistinct (names cfg.uplinks)
unfolding Defaults.runs
uplink_names = tt

boot_progress_example :
    NeverPanics stamp same_text silent workers other_key system₃ (system₃.stage 1)
    × (((t : System (Unit {0})) × Step stamp same_text silent workers 1 system₃ t)
        ⊎ ((j : ℕ) × (system₃.io_lock ≡ some j)
            × ((t : System (Unit {0})) × Step stamp same_text silent workers j system₃ t)))
boot_progress_example =
    boot_progress stamp same_text silent unparsed cfg (err (codes "no such file")) (pos 0) workers
      tt 5 system₃ 1 other_key peer_names uplink_names keys_of_state reach_publishing refl

reach_one_publishes_example : ◌≡◌ {A = ℕ} 0 0
reach_one_publishes_example =
    reach_one_publishes stamp same_text silent workers system₀ system₃ 0 0 free_lock none_publishes
      reach_publishing refl refl

-- Three probes three seconds apart, the last of them slow.
due_after_cadence_example :
    (OnTime 3 5 (6 ∷ 9 ∷ 30 ∷ []) → due_after 3 5 (6 ∷ 9 ∷ 30 ∷ []) ≡ 5 + 3 * 3)
    × (5 + 3 * 3 ≤ due_after 3 5 (6 ∷ 9 ∷ 30 ∷ []))
    × All (λ ended. ended ≤ due_after 3 5 (6 ∷ 9 ∷ 30 ∷ [])) (6 ∷ 9 ∷ 30 ∷ [])
due_after_cadence_example = due_after_cadence 3 5 (6 ∷ 9 ∷ 30 ∷ [])

slow_probe : due_after 3 5 (6 ∷ 9 ∷ 30 ∷ []) ≡ 30
unfolding due_after next_due
slow_probe = refl
