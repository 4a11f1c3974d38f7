-- ===== src/Engine/Ticks.antt =====
-- `Engine::probe_once` and the decision of `Engine::reconcile` (src/engine/mod.rs) on one group: the
-- results of its transports, in any order, and the winner each leads to.
pub mod Failover
use nixnet_corbet_ch.Base.{ℕ, List, [], ◌∷◌, Option, none, some, ◌==◌, if◌then◌else◌, ◌>>=◌}
use nixnet_corbet_ch.Base.Int.{ℤ}
use nixnet_corbet_ch.Base.Text.{Text}
use nixnet_corbet_ch.Probe.{ProbeResult}
use nixnet_corbet_ch.Engine.{Group, Action}
use nixnet_corbet_ch.Engine.Health.{observe, reject_invalid_address}
use nixnet_corbet_ch.Engine.Decide.{decide_action}
use nixnet_corbet_ch.Engine.Decide
use nixnet_corbet_ch.Engine.Health
use nixnet_corbet_ch.Engine.Groups.{at_transport}

-- One call: the transport, its result, when that was observed and when the decision was made.
pub record Tick : Type 0 where
  pub idx : ℕ
  pub res : ProbeResult
  pub observed_at : ℤ
  pub decided_at : ℤ

module _ (quoted : Text → Text) where
  unfoldable pub group_tick : Tick → Group → Option (Group × Action)
  group_tick t g =
      at_transport t.idx (observe (reject_invalid_address quoted t.res) t.observed_at) g >>= λ g'.
      decide_action g' t.decided_at

  unfoldable pub group_ticks : List Tick → Group → Option Group
  group_ticks [] g = some g
  group_ticks (t ∷ ts) g = group_tick t g >>= λ r. group_ticks ts r.0

  -- The checked results of transport `k`.
  unfoldable pub results_of : ℕ → List Tick → List (ProbeResult × ℤ)
  results_of k [] = []
  results_of k (t ∷ ts) =
      let rest = results_of k ts in
      if t.idx == k then (reject_invalid_address quoted t.res, t.observed_at) ∷ rest else rest

-- Stands for all that the definitions above compute with: a test unfolds this name.
unfoldable pub runs : Unit {0}
unfolding Decide.runs Health.runs at_transport group_tick group_ticks results_of
runs = tt
