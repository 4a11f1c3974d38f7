-- ===== src/Engine/Status/Health.antt =====
-- When the snapshot counts as healthy.
use nixnet_corbet_ch.Base.{
  ℕ, ◌≡◌, refl, Bool, true, false, not, ◌&&◌, &&-true, Option, none, some, List, [], ◌∷◌, all, map,
  arith, All,
}
use nixnet_corbet_ch.Base.Int.{ℤ, ◌≤ℤ◌}
use nixnet_corbet_ch.Base.Text.{Text, is_empty}
use nixnet_corbet_ch.Engine.{Group}
use nixnet_corbet_ch.Engine.Status.{EngineState, render_group, snapshot, winner_label, winner_text}
use nixnet_corbet_ch.Status.{StatusGroup, group_healthy, is_healthy_at, before_deadline}

empty_text : (s : Text) → is_empty s ≡ true → s ≡ []
empty_text [] h = refl
empty_text (c ∷ cs) h = absurd (cc)

-- A group with a winner that has something to show, something up and no failed publication.
pub record IsGreen (g : Group) : Type 0 where
  pub winner : ℕ
  pub winner_named : g.winner ≡ some winner
  pub label_shown : is_empty (winner_label g winner) ≡ false
  pub not_degraded : g.degraded ≡ false
  pub published : g.last_publish_error ≡ []

module _ (format : ℤ → Option Text) where
  named_winner :
      (g : Group) (o : Option ℕ)
      → is_empty (winner_text format g o) ≡ false
      → (w : ℕ) × (o ≡ some w) × (is_empty (winner_label g w) ≡ false)
  named_winner g none h = absurd (cc)
  named_winner g (some w) h = (w, refl, h)

  healthy_parts :
      (d e l : Bool) → (not d && not e && l) ≡ true → (d ≡ false) × (e ≡ false) × (l ≡ true)
  healthy_parts d e l h = ground arith

  all_four :
      (a b c d : Bool)
      → (a && b && c && d) ≡ true
      → (a ≡ true) × (b ≡ true) × (c ≡ true) × (d ≡ true)
  all_four a b c d h = ground arith

  render_group-IsGreen : (g : Group) → group_healthy (render_group format g) ≡ true → IsGreen g
  unfolding group_healthy render_group
  render_group-IsGreen g h =
      let (up_now, shown, clear) =
        healthy_parts g.degraded (is_empty (winner_text format g g.winner))
          (is_empty g.last_publish_error) h in
      let (w, named, label) = named_winner g g.winner shown in
      record {
        winner = w;
        winner_named = named;
        label_shown = label;
        not_degraded = up_now;
        published = empty_text g.last_publish_error clear;
      }

  all_groups_pass :
      (groups : List (Text × Group))
      → all
          (λ (g : Text × StatusGroup). group_healthy g.1)
          (map (λ (name, g). (name, render_group format g)) groups)
        ≡ true
      → All (λ g. IsGreen g.1) groups
  all_groups_pass [] h = tt
  all_groups_pass ((name, g) ∷ rest) h =
      let (own, others) = &&-true (group_healthy (render_group format g)) _ h in
      (render_group-IsGreen g own, all_groups_pass rest others)

  deadline_met :
      (d : Option ℤ) (now : ℤ)
      → before_deadline d now ≡ true
      → (deadline : ℤ) × (d ≡ some deadline) × (now ≤ℤ deadline)
  deadline_met none now h = absurd (cc)
  deadline_met (some deadline) now h = (deadline, refl, ground arith)

  -- A snapshot of the engine counts as healthy only up to its deadline, with the hosts file
  -- published, and while every group has a winner with something to show, is not degraded and has
  -- its metrics published.
  pub snapshot-IsGreen :
      (parse : Text → Option ℤ) (generated_at valid_until : Text) (state : EngineState) (now : ℤ)
      → is_healthy_at parse (snapshot format generated_at valid_until state) now ≡ true
      → ((deadline : ℤ) × (parse valid_until ≡ some deadline) × (now ≤ℤ deadline))
        × (state.last_hosts_error ≡ [])
        × All (λ g. IsGreen g.1) state.peers
        × All (λ g. IsGreen g.1) state.uplinks
  unfolding is_healthy_at snapshot
  snapshot-IsGreen parse generated_at valid_until state now h =
      let (fresh, written, peers, uplinks) =
        all_four (before_deadline (parse valid_until) now) (is_empty state.last_hosts_error) _ _
          h in
      (
        deadline_met (parse valid_until) now fresh,
        empty_text state.last_hosts_error written,
        all_groups_pass state.peers peers,
        all_groups_pass state.uplinks uplinks,
      )
