-- ===== src/Engine/Decide/Selection.antt =====
-- Which transport a tick makes the winner.
use nixnet_corbet_ch.Base.{
  ℕ, ◌≡◌, refl, sym, ◌∙◌, ap, ap₂, subst, ◌⊎◌, inl, inr, Bool, true, false, List, ◌&&◌, some, arith,
  get_elem?, false≢true, some_inj,
}
use nixnet_corbet_ch.Base.Int.{ℤ}
use nixnet_corbet_ch.Engine.{TransportRuntime, Group, Action, is_up, IsValid}
use nixnet_corbet_ch.Engine.Decide.Candidates.{IsBest}
use nixnet_corbet_ch.Engine.Decide.Tick.{UpTick, Damped, kept, first_winner, held, replaced}
use nixnet_corbet_ch.Engine.Decide.Laws.{tick_with_up, settle-winner}
use nixnet_corbet_ch.Engine.Decide.{in_hold, settle, decide_action}

same-IsBest :
    (trs : List TransportRuntime) {m n : ℕ} (b r : TransportRuntime)
    → get_elem? trs m ≡ some b
    → IsBest trs b.spec.priority
    → get_elem? trs n ≡ some r
    → n ≡ m
    → IsBest trs r.spec.priority
same-IsBest trs b r b_at best r_at e =
    subst (λ (x : TransportRuntime). IsBest trs x.spec.priority)
      (some_inj (sym b_at ∙ ap (get_elem? trs) (sym e) ∙ r_at)) best

settle-winner_since :
    (g : Group) (now : ℤ) (w : ℕ) (changed : Bool) (tr : TransportRuntime)
    → changed ≡ true
    → (settle g now w changed tr).0.winner_since ≡ some now
unfolding settle
settle-winner_since g now w changed tr h = ground arith

pub settle-same_since :
    (g : Group) (now : ℤ) (w : ℕ) (changed : Bool) (tr : TransportRuntime)
    → changed ≡ false
    → (settle g now w changed tr).0.winner_since ≡ g.winner_since
unfolding settle
settle-same_since g now w changed tr h = ground arith

-- Without a healthy winner the pick is the best one, and is a change.
failed :
    {g : Group} {now : ℤ} {best w : ℕ} {changed : Bool} {r : TransportRuntime}
    → ((o : ℕ) (r : TransportRuntime)
        → g.winner ≡ some o
        → get_elem? g.transports o ≡ some r
        → is_up r.state ≡ false)
    → Damped g now best w changed
    → get_elem? g.transports w ≡ some r
    → is_up r.state ≡ true
    → (w ≡ best) × (changed ≡ true)
failed {w = w} {r = r} lost (kept e f) at u = absurd (false≢true (sym (lost w r f at) ∙ u))
failed lost (first_winner e f) at u = (e, refl)
failed {w = w} {r = r} lost (held x f _ _ _ _) at u = absurd (false≢true (sym (lost w r f at) ∙ u))
failed lost (replaced _ _ e _ _ _ _) at u = (e, refl)

-- A healthy winner that is held, or picked again, is named again.
pub remains :
    {g : Group} {now : ℤ} {best w : ℕ} {changed : Bool} (o : ℕ) (r : TransportRuntime)
    → Damped g now best w changed
    → g.winner ≡ some o
    → get_elem? g.transports o ≡ some r
    → is_up r.state ≡ true
    → (in_hold g.min_hold_ms g.winner_since now ≡ true) ⊎ (best ≡ o)
    → (w ≡ o) × (changed ≡ false)
remains o r (kept e f) g_o at u reason = (some_inj (sym f ∙ g_o), refl)
remains o r (first_winner e f) g_o at u reason = cc
remains o r (held x f _ _ _ _) g_o at u reason = (some_inj (sym f ∙ g_o), refl)
remains {g} {now} o r (replaced v x e f ne x_at free) g_o at u reason =
    let same : v ≡ o = some_inj (sym f ∙ g_o) in
    let same_r : x ≡ r = some_inj (sym x_at ∙ ap (get_elem? g.transports) same ∙ at) in
    elim reason [
      | inl h ↦ absurd (
          false≢true
            (sym free ∙ ap₂ ◌&&◌ (ap (λ (y : TransportRuntime). is_up y.state) same_r ∙ u) h))
      | inr b ↦ absurd (ne (same ∙ sym b))
    ]

pub IsBest-or_held :
    {g : Group} {now : ℤ} {best w : ℕ} {changed : Bool} (b r : TransportRuntime)
    → get_elem? g.transports best ≡ some b
    → IsBest g.transports b.spec.priority
    → get_elem? g.transports w ≡ some r
    → Damped g now best w changed
    → IsBest g.transports r.spec.priority
      ⊎ ((g.winner ≡ some w) × (in_hold g.min_hold_ms g.winner_since now ≡ true))
IsBest-or_held {g} b r b_at best r_at (kept e _) =
    inl (same-IsBest g.transports b r b_at best r_at e)
IsBest-or_held {g} b r b_at best r_at (first_winner e _) =
    inl (same-IsBest g.transports b r b_at best r_at e)
IsBest-or_held {g} b r b_at best r_at (held _ f _ _ _ h) = inr (f, h)
IsBest-or_held {g} b r b_at best r_at (replaced _ _ e _ _ _ _) =
    inl (same-IsBest g.transports b r b_at best r_at e)

-- What one tick returned, for a group in which transport `k` is up.
module _ (g g' : Group) (now : ℤ) (a : Action) (k : ℕ) (tr : TransportRuntime) (v : IsValid g)
    (at : get_elem? g.transports k ≡ some tr) (u : is_up tr.state ≡ true)
    (done : decide_action g now ≡ some (g', a)) where
  tick : UpTick g now
  tick = tick_with_up g now k tr v at u

  settled : settle g now tick.winner tick.changed tick.runtime ≡ (g', a)
  settled = some_inj (sym tick.result ∙ done)

  winner_of : g'.winner ≡ some tick.winner
  winner_of = sym (ap (λ p. p.0.winner) settled) ∙ settle-winner tick.runtime tick.why

  -- While some transport is up, a tick names a winner that is up, and whose priority number no
  -- other transport that is up undercuts, unless it was the winner before and is still within its
  -- hold time.
  pub decide_action-winner :
      (w : ℕ) × (r : TransportRuntime) × (g'.winner ≡ some w)
      × (get_elem? g.transports w ≡ some r)
      × (is_up r.state ≡ true)
      × (IsBest g.transports r.spec.priority
          ⊎ ((g.winner ≡ some w) × (in_hold g.min_hold_ms g.winner_since now ≡ true)))
  decide_action-winner = (
    tick.winner,
    tick.runtime,
    winner_of,
    tick.place,
    tick.healthy,
    IsBest-or_held tick.best_runtime tick.runtime tick.best_place tick.best_first tick.place
        tick.why,
  )

  -- Failover is immediate: where the winner is no longer up (or there was none), the new winner has
  -- the best priority of those that are up, whatever the hold time, and its term starts now.
  pub decide_action-failover :
      ((o : ℕ) (r : TransportRuntime)
        → g.winner ≡ some o
        → get_elem? g.transports o ≡ some r
        → is_up r.state ≡ false)
      → (w : ℕ) × (r : TransportRuntime) × (g'.winner ≡ some w)
        × (get_elem? g.transports w ≡ some r)
        × (is_up r.state ≡ true)
        × IsBest g.transports r.spec.priority
        × (g'.winner_since ≡ some now)
  decide_action-failover lost =
      let r =
        same-IsBest g.transports tick.best_runtime tick.runtime tick.best_place tick.best_first
          tick.place in
      let (same, fresh) = failed lost tick.why tick.place tick.healthy in
      (
        tick.winner,
        tick.runtime,
        winner_of,
        tick.place,
        tick.healthy,
        r same,
        sym (ap (λ p. p.0.winner_since) settled)
            ∙ settle-winner_since g now tick.winner tick.changed tick.runtime fresh,
      )

  -- A healthy winner within its hold time stays, and so does one that no transport which is up
  -- undercuts; its term goes on.
  pub decide_action-stays :
      (o : ℕ) (r : TransportRuntime)
      → g.winner ≡ some o
      → get_elem? g.transports o ≡ some r
      → is_up r.state ≡ true
      → (in_hold g.min_hold_ms g.winner_since now ≡ true) ⊎ IsBest g.transports r.spec.priority
      → (g'.winner ≡ some o) × (g'.winner_since ≡ g.winner_since)
  decide_action-stays o r e o_at o_up reason =
      let again : (in_hold g.min_hold_ms g.winner_since now ≡ true) ⊎ (tick.best ≡ o) =
        elim reason [ inl h ↦ inl h | inr b ↦ inr (tick.keeps_best o r e o_at o_up b) ] in
      let (same, kept_on) = remains o r tick.why e o_at o_up again in
      (
        winner_of ∙ ap some same,
        sym (ap (λ p. p.0.winner_since) settled)
            ∙ settle-same_since g now tick.winner tick.changed tick.runtime kept_on,
      )
