-- ===== src/Engine/Decide/Settled.antt =====
-- A second tick at the same instant changes nothing.
use nixnet_corbet_ch.Base.{
  ℕ, ◌≡◌, refl, sym, ◌∙◌, ap, subst, ◌⊎◌, inl, inr, Bool, true, false, not, ◌&&◌, some, arith,
  get_elem?, some_inj,
}
use nixnet_corbet_ch.Base.Int.{ℤ}
use nixnet_corbet_ch.Base.Text.{text_eq, text_eq_refl, is_empty}
use nixnet_corbet_ch.Engine.{
  TransportRuntime, Group, Action, publish_peers, nothing, publish_uplink, IsValid,
}
use nixnet_corbet_ch.Engine.Decide.Candidates.{IsBest}
use nixnet_corbet_ch.Engine.Decide.Tick.{UpTick, Damped, kept, first_winner, held, replaced}
use nixnet_corbet_ch.Engine.Decide.Laws.{
  tick_cases, tick_with_up, settle-winner, settle-transports, settle-IsValid, all_down-transports,
  decide_all_down,
}
use nixnet_corbet_ch.Engine.Decide.Selection.{remains, IsBest-or_held, settle-same_since}
use nixnet_corbet_ch.Engine.Decide.Publication.{settle_freshness}
use nixnet_corbet_ch.Engine.Decide.{
  settle, all_down, decide_action, in_hold, candidates, uplink_action, is_peer,
}

all_down_again : (g : Group) (now : ℤ) → (all_down (all_down g now).0 now).0 ≡ (all_down g now).0
unfolding all_down
all_down_again g now = ground arith

-- The action that rewrites the hosts file even if it empties the block.
abbrev pub is_forced : Action → Bool
is_forced (publish_peers passive) = not passive
is_forced nothing = false
is_forced (publish_uplink ranked base step) = false

uplink_action-unforced : (g : Group) → is_forced (uplink_action g) ≡ false
unfolding uplink_action
uplink_action-unforced g = ground arith

all_down_passive : (g : Group) (now : ℤ) → is_forced (all_down (all_down g now).0 now).1 ≡ false
unfolding all_down
all_down_passive g now = ground (arith, uplink_action-unforced (record g { degraded = true }))

settle_quiet :
    (g : Group) (now : ℤ) (w : ℕ) (tr : TransportRuntime)
    → g.degraded ≡ false
    → g.last_confirmed_at ≡ tr.last_success_at
    → (is_peer g.kind
        && not (is_empty tr.current_address)
        && not (text_eq tr.current_address g.last_published_addr))
      ≡ false
    → ((settle g now w false tr).0 ≡ g) × (is_forced (settle g now w false tr).1 ≡ false)
unfolding settle
settle_quiet g now w tr d c q = ground (
  arith,
  uplink_action-unforced (record g { degraded = false; last_confirmed_at = tr.last_success_at }),
)

settle_no_drift :
    {g : Group} {now : ℤ} {best w : ℕ} {changed : Bool} (tr : TransportRuntime)
    → Damped g now best w changed
    → let g' = (settle g now w changed tr).0 in
      (is_peer g'.kind
        && not (is_empty tr.current_address)
        && not (text_eq tr.current_address g'.last_published_addr))
      ≡ false
unfolding settle
settle_no_drift {g} tr (kept e f) = ground (arith, text_eq_refl tr.current_address)
settle_no_drift {g} tr (first_winner e f) = ground (arith, text_eq_refl tr.current_address)
settle_no_drift {g} tr (held r f ne at u h) = ground (arith, text_eq_refl tr.current_address)
settle_no_drift {g} tr (replaced v r e f ne at h) = ground (arith, text_eq_refl tr.current_address)

settle-min_hold :
    (g : Group) (now : ℤ) (w : ℕ) (changed : Bool) (tr : TransportRuntime)
    → (settle g now w changed tr).0.min_hold_ms ≡ g.min_hold_ms
unfolding settle
settle-min_hold g now w changed tr = ground arith

held-unchanged :
    {g : Group} {now : ℤ} {best w : ℕ} {changed : Bool}
    → Damped g now best w changed
    → g.winner ≡ some w
    → changed ≡ false
held-unchanged (kept e f) h = refl
held-unchanged (first_winner e f) h = cc
held-unchanged (held r f ne at u x) h = refl
held-unchanged (replaced v r e f ne at x) h = absurd (ne (some_inj (sym f ∙ h) ∙ e))

module _ (g : Group) (now : ℤ) (t : UpTick g now) where
  after : Group
  after = (settle g now t.winner t.changed t.runtime).0

  same_transports : after.transports ≡ g.transports
  unfolding after
  same_transports = settle-transports g now t.winner t.changed t.runtime

  place_after : get_elem? after.transports t.winner ≡ some t.runtime
  place_after = subst (λ trs. get_elem? trs t.winner ≡ some t.runtime) (sym same_transports) t.place

  winner_after : after.winner ≡ some t.winner
  unfolding after
  winner_after = settle-winner t.runtime t.why

  -- The second pick cannot replace the winner: it is the best, or its hold still runs.
  reason_after :
      (s : UpTick after now)
      → (in_hold after.min_hold_ms after.winner_since now ≡ true) ⊎ (s.best ≡ t.winner)
  unfolding after
  reason_after s =
      elim (IsBest-or_held t.best_runtime t.runtime t.best_place t.best_first t.place t.why) [
        | inl best ↦ inr (
            s.keeps_best t.winner t.runtime winner_after place_after t.healthy
              (subst (λ trs. IsBest trs t.runtime.spec.priority) (sym same_transports) best))
        | inr (was, hold) ↦ inl (
            rw
              (
                settle-min_hold g now t.winner t.changed t.runtime,
                settle-same_since g now t.winner t.changed t.runtime (held-unchanged t.why was),
              )
              hold)
      ]

  quiet_after :
      ((settle after now t.winner false t.runtime).0 ≡ after)
      × (is_forced (settle after now t.winner false t.runtime).1 ≡ false)
  unfolding after
  quiet_after =
      let fresh_after = settle_freshness g now t.winner t.changed t.runtime in
      settle_quiet after now t.winner t.runtime fresh_after.1 fresh_after.0
        (settle_no_drift t.runtime t.why)

  up_again :
      IsValid after
      → (a : Action) × (decide_action after now ≡ some (after, a)) × (is_forced a ≡ false)
  up_again v =
      let s = tick_with_up after now t.winner t.runtime v place_after t.healthy in
      let (same, unchanged) =
        remains t.winner t.runtime s.why winner_after place_after t.healthy (reason_after s) in
      let same_r : s.runtime ≡ t.runtime =
        some_inj (sym s.place ∙ ap (get_elem? after.transports) same ∙ place_after) in
      let r = settle after now t.winner false t.runtime in
      let e : settle after now s.winner s.changed s.runtime ≡ r = cc (same, unchanged, same_r) in
      (r.1, s.result ∙ ap some e ∙ ap (λ x. some (x, r.1)) quiet_after.0, quiet_after.1)

-- A tick settles its group: a second tick at the same instant yields the same group once more,
-- and asks for no forced rewrite of the hosts file.
pub decide_action-settled :
    (g g' : Group) (now : ℤ) (a : Action)
    → IsValid g
    → decide_action g now ≡ some (g', a)
    → (a' : Action) × (decide_action g' now ≡ some (g', a')) × (is_forced a' ≡ false)
unfolding after
decide_action-settled g g' now a v done = elim (tick_cases g now v) [
  | inl (none_up, e) ↦
      let d = (all_down g now).0 in
      subst Settled (ap (λ r. r.0) (some_inj (sym e ∙ done))) (
        (all_down d now).1,
        decide_all_down d now (ap candidates (all_down-transports g now) ∙ none_up)
            ∙ ap (λ x. some (x, (all_down d now).1)) (all_down_again g now),
        all_down_passive g now,
      )
  | inr t ↦
      subst Settled (ap (λ r. r.0) (some_inj (sym t.result ∙ done)))
        (up_again g now t (settle-IsValid t))
]
  where
    Settled : Group → Type 0
    Settled x = (a' : Action) × (decide_action x now ≡ some (x, a')) × (is_forced a' ≡ false)
