-- ===== src/Engine/Reconcile.antt =====
-- `Engine::reconcile`, `publish_peers_locked`, `publish_restored_peers` and
-- `publish_restored_uplinks` of src/engine/mod.rs: from a decision to the publishers and back. The
-- publishers are an interface; `none` is a panic.
use nixnet_corbet_ch.Base.{
  ℕ, Bool, true, false, not, ◌&&◌, ◌||◌, List, [], ◌∷◌, Option, none, some, ◌==◌, if◌then◌else◌,
  ◌>>=◌, Result, ok, err,
}
use nixnet_corbet_ch.Base.Int.{ℤ}
use nixnet_corbet_ch.Base.Text.{Text, text_eq}
use nixnet_corbet_ch.Engine.{
  Group, GroupKind, Action, nothing, publish_peers, publish_uplink, RankedInterface,
}
use nixnet_corbet_ch.Engine.Ranking.{uplink_ranking}
use nixnet_corbet_ch.Engine.Decide.{decide_action}
use nixnet_corbet_ch.Engine.Decide
use nixnet_corbet_ch.Engine.Status.{
  EngineState, Entry, log_publish_error, nothing_to_publish, peer_entries,
}
use nixnet_corbet_ch.Engine.Status
use nixnet_corbet_ch.Engine.Groups.{group, set_group, find, put}
use nixnet_corbet_ch.Publish.Route.{Publication}

-- `HostsPublisher::publish` and `RoutePublisher::apply`, over the world `W` they read and write.
pub record Publishers (W : Type 0) : Type 0 where
  pub publish : W → List Entry → Result Text Bool × W
  pub apply : W → List RankedInterface → ℤ → ℤ → Publication × W

abbrev pub same_winner : Option ℕ → Option ℕ → Bool
same_winner none none = true
same_winner (some v) (some w) = v == w
same_winner _ _ = false

abbrev pub same_flag : Bool → Bool → Bool
same_flag true b = b
same_flag false b = not b

-- `before != after`.
unfoldable pub state_changed : Group → Group → Bool
state_changed before after = not (
    same_winner before.winner after.winner
    && same_flag before.degraded after.degraded
    && text_eq before.last_published_addr after.last_published_addr)

-- What the decision under the state lock hands to the publication behind it.
pub record Decision : Type 0 where
  pub action : Action
  pub entries : List Entry
  pub peer_set_empty : Bool
  pub state_changed : Bool

error_of : Result Text Bool → Option Text
error_of (ok wrote) = none
error_of (err e) = some e

module _ (format : ℤ → Option Text) where
  unfoldable pub entries_for : Action → EngineState → List Entry
  entries_for nothing state = []
  entries_for (publish_peers passive) state = peer_entries format state
  entries_for (publish_uplink ranked base step) state = []

  unfoldable pub decided :
      GroupKind → Text → EngineState → Group → Group × Action → EngineState × Decision
  unfolding entries_for
  decided kind name state before (after, action) =
      let state' = set_group kind name after state in
      (
        state',
        record {
          action = action;
          entries = entries_for action state';
          peer_set_empty = nothing_to_publish state';
          state_changed = state_changed before after;
        },
      )

  -- The part under the state lock.
  unfoldable pub decide : EngineState → GroupKind → Text → ℤ → Option (EngineState × Decision)
  unfolding decided
  decide state kind name now =
      group state kind name >>= λ g. decide_action g now >>= λ r. some (decided kind name state g r)

  module _ {W : Type 0} (self : Publishers W) where
    unfoldable pub publish_hosts :
        EngineState → Bool → Result Text Bool × W → Bool × EngineState × W
    unfolding error_of
    publish_hosts state changed (result, w) =
        let reported = log_publish_error state.last_hosts_error (error_of result) in
        (
          changed || not (text_eq state.last_hosts_error reported),
          record state { last_hosts_error = reported },
          w,
        )

    unfoldable pub publish_routes :
        GroupKind → Text → EngineState → Bool → Publication × W → Option (Bool × EngineState × W)
    publish_routes kind name state changed (out, w) = group state kind name >>= λ g.
        let reported = log_publish_error g.last_publish_error out.error in
        some (
          changed || not (text_eq g.last_publish_error reported),
          set_group kind name (record g { last_publish_error = reported }) state,
          w,
        )

    -- The part after it, under the I/O lock only; other workers may have changed the state between.
    unfoldable pub act :
        W → EngineState → GroupKind → Text → Action → Decision → Option (Bool × EngineState × W)
    unfolding publish_hosts publish_routes
    act w state kind name nothing d = some (d.state_changed, state, w)
    act w state kind name (publish_peers passive) d =
        if passive && d.peer_set_empty
        then some (d.state_changed, state, w)
        else some (publish_hosts state d.state_changed (self.publish w d.entries))
    act w state kind name (publish_uplink ranked base step) d =
        publish_routes kind name state d.state_changed (self.apply w ranked base step)

    unfoldable pub reconcile :
        W → EngineState → GroupKind → Text → ℤ → Option (Bool × EngineState × W)
    reconcile w state kind name now =
        decide state kind name now >>= λ r. act w r.0 kind name r.1.action r.1

    -- At a start, before any worker runs.
    unfoldable pub publish_peers_locked : W → EngineState → EngineState × W
    unfolding publish_hosts
    publish_peers_locked w state =
        let (changed, state', w') =
          publish_hosts state false (self.publish w (peer_entries format state)) in
        (state', w')

    unfoldable pub publish_restored_peers : W → EngineState → EngineState × W
    unfolding publish_peers_locked
    publish_restored_peers w state =
        if nothing_to_publish state then (state, w) else publish_peers_locked w state

    unfoldable pub restored_uplink : W → Group → List RankedInterface → Group × W
    restored_uplink w g [] = (g, w)
    restored_uplink w g (r ∷ rs) =
        let (out, w') = self.apply w (r ∷ rs) g.metric_base g.metric_step in
        (record g { last_publish_error = log_publish_error g.last_publish_error out.error }, w')

    -- The loop over the uplinks.
    unfoldable pub restored_uplinks : W → List (Text × Group) → List (Text × Group) × W
    unfolding restored_uplink
    restored_uplinks w [] = ([], w)
    restored_uplinks w ((name, g) ∷ gs) =
        let (g', w') = restored_uplink w g (uplink_ranking g) in
        let (gs', w'') = restored_uplinks w' gs in ((name, g') ∷ gs', w'')

    unfoldable pub publish_restored_uplinks : W → EngineState → EngineState × W
    publish_restored_uplinks w state =
        let (gs, w') = restored_uplinks w state.uplinks in (record state { uplinks = gs }, w')

-- Stands for all that the definitions above compute with: a test unfolds this name.
unfoldable pub runs : Unit {0}
unfolding Decide.runs Status.runs find put state_changed decide act reconcile publish_restored_peers
    restored_uplinks publish_restored_uplinks
runs = tt
