-- ===== src/Tests/Decide.antt =====
-- Ticks of a peer group: recovery under a hold, failover, and nothing up.
use nixnet_corbet_ch.Base.{
  ℕ, zero, suc, ◌≡◌, refl, inl, ◌⊎◌, none, some, true, false, [], get_elem?, arith, subst, some_inj,
}
use nixnet_corbet_ch.Base.Int.{ℤ, pos}
use nixnet_corbet_ch.Base.Text.{codes, is_empty}
use nixnet_corbet_ch.Config.{on_all_down_unpublish}
use nixnet_corbet_ch.Engine.{Group, Action, TransportRuntime, publish_peers, is_up, up, down}
use nixnet_corbet_ch.Engine.Staleness.{WithinBound}
use nixnet_corbet_ch.Engine.Decide
use nixnet_corbet_ch.Engine.Decide.{decide_action, in_hold}
use nixnet_corbet_ch.Engine.Decide.Candidates.{IsBest}
use nixnet_corbet_ch.Engine.Decide.Selection.{
  decide_action-winner, decide_action-failover, decide_action-stays,
}
use nixnet_corbet_ch.Engine.Decide.Publication.{
  decide_action-published, decide_action-last_known_good, NoneUp,
}
use nixnet_corbet_ch.Engine.Decide.Settled.{decide_action-settled, is_forced}
use nixnet_corbet_ch.Tests.Fixtures.{recovered, failing, lost, lan, overlay}

-- Five seconds after the start of the winner's term, and twenty.
abbrev early : ℤ
early = pos 5000000000

abbrev late : ℤ
late = pos 20000000000

abbrev held : Group
held = record recovered { last_confirmed_at = some (pos 1000) }

held_tick : decide_action recovered early ≡ some (held, publish_peers true)
unfolding Decide.runs
held_tick = refl

abbrev switched : Group
switched = record recovered {
  winner = some 0;
  winner_since = some late;
  last_published_addr = codes "192.0.2.10";
}

switch_tick : decide_action recovered late ≡ some (switched, publish_peers false)
unfolding Decide.runs
switch_tick = refl

abbrev failed_over : Group
failed_over = record failing {
  winner = some 1;
  winner_since = some early;
  last_published_addr = codes "192.0.2.20";
}

failover_tick : decide_action failing early ≡ some (failed_over, publish_peers false)
unfolding Decide.runs
failover_tick = refl

decide_action-winner_example :
    (w : ℕ) × (r : TransportRuntime) × (held.winner ≡ some w)
    × (get_elem? recovered.transports w ≡ some r)
    × (is_up r.state ≡ true)
    × (IsBest recovered.transports r.spec.priority
        ⊎ ((recovered.winner ≡ some w)
            × (in_hold recovered.min_hold_ms recovered.winner_since early ≡ true)))
decide_action-winner_example =
    decide_action-winner recovered held early (publish_peers true) 0 (lan up) (omega arith) refl
      refl held_tick

same_runtime_down :
    (x r : TransportRuntime) → some x ≡ some r → is_up x.state ≡ false → is_up r.state ≡ false
same_runtime_down x r e d = subst (λ (y : TransportRuntime). is_up y.state ≡ false) (some_inj e) d

winner_down :
    (o : ℕ) (r : TransportRuntime)
    → failing.winner ≡ some o
    → get_elem? failing.transports o ≡ some r
    → is_up r.state ≡ false
winner_down zero r e at = same_runtime_down (lan down) r at refl
winner_down (suc o) r e at = cc

decide_action-failover_example :
    (w : ℕ) × (r : TransportRuntime) × (failed_over.winner ≡ some w)
    × (get_elem? failing.transports w ≡ some r)
    × (is_up r.state ≡ true)
    × IsBest failing.transports r.spec.priority
    × (failed_over.winner_since ≡ some early)
decide_action-failover_example =
    decide_action-failover failing failed_over early (publish_peers false) 1 (overlay up)
      (omega arith) refl refl failover_tick winner_down

decide_action-stays_example : (held.winner ≡ some 1) × (held.winner_since ≡ recovered.winner_since)
unfolding Decide.runs
decide_action-stays_example =
    decide_action-stays recovered held early (publish_peers true) 0 (lan up) (omega arith) refl refl
      held_tick 1 (overlay up) refl refl refl (inl refl)

decide_action-published_example :
    (w : ℕ) × (r : TransportRuntime) × (switched.winner ≡ some w)
    × (get_elem? recovered.transports w ≡ some r)
    × (is_empty r.current_address ≡ false → switched.last_published_addr ≡ r.current_address)
    × (switched.last_confirmed_at ≡ r.last_success_at)
decide_action-published_example =
    decide_action-published recovered switched late (publish_peers false) 0 (lan up) (omega arith)
      refl refl refl switch_tick

abbrev kept : Group
kept = record lost { degraded = true }

kept_tick : decide_action lost late ≡ some (kept, publish_peers true)
unfolding Decide.runs
kept_tick = refl

none_up : NoneUp lost
none_up zero r at = same_runtime_down (lan down) r at refl
none_up (suc zero) r at = same_runtime_down (overlay down) r at refl
none_up (suc (suc k)) r at = cc

decide_action-last_known_good_example :
    (WithinBound lost.max_age_sec lost.last_confirmed_at late
      → (kept ≡ record lost { degraded = true }) × (publish_peers true ≡ publish_peers true))
    × (¬ WithinBound lost.max_age_sec lost.last_confirmed_at late
        → (kept ≡ record lost { degraded = true; winner = none; last_published_addr = [] })
          × (publish_peers true ≡ publish_peers false))
decide_action-last_known_good_example =
    decide_action-last_known_good lost kept late (publish_peers true) (omega arith) none_up refl
      refl refl kept_tick

decide_action-settled_example :
    (a' : Action) × (decide_action switched late ≡ some (switched, a')) × (is_forced a' ≡ false)
decide_action-settled_example =
    decide_action-settled recovered switched late (publish_peers false) (omega arith) switch_tick

abbrev unpublished : Group
unpublished = record lost { on_all_down = on_all_down_unpublish }

abbrev withdrawn : Group
withdrawn = record unpublished { degraded = true; winner = none; last_published_addr = [] }

withdrawn_tick : decide_action unpublished late ≡ some (withdrawn, publish_peers false)
unfolding Decide.runs
withdrawn_tick = refl
