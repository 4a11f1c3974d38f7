-- ===== src/Engine/Decide/Tick.antt =====
-- A tick with a healthy transport, taken apart: the pick, the damping, and what follows.
use nixnet_corbet_ch.Base.{
  ℕ, ◌≡◌, ◌≢◌, refl, sym, ap, ◌∙◌, subst, inl, inr, Bool, true, false, ◌&&◌, List, ◌∷◌, none, some,
  arith, ◌==◌, ==_iff, get_elem?, length, get_elem?_lt, Bool-cases, Option-cases, &&-true,
  if◌then◌else◌,
}
use nixnet_corbet_ch.Base.Int.{ℤ}
use nixnet_corbet_ch.Engine.{TransportRuntime, Group, is_up, IsValid, InRange}
use nixnet_corbet_ch.Engine.Decide.Candidates.{
  IsBest, first-IsBest, best_winner_up, best_winner_keeps,
}
use nixnet_corbet_ch.Engine.Decide.{
  Candidate, candidates, best_winner, in_hold, damp, settle, some_up, decide_action,
}

-- Why a tick names `w` the winner, and whether it is another than before.
pub data Damped (g : Group) (now : ℤ) (best : ℕ) : ℕ → Bool → Type 0 where
  kept : {w : ℕ} → w ≡ best → g.winner ≡ some w → Damped g now best w false
  first_winner : {w : ℕ} → w ≡ best → g.winner ≡ none → Damped g now best w true
  held :
      {w : ℕ} (tr : TransportRuntime)
      → g.winner ≡ some w
      → w ≢ best
      → get_elem? g.transports w ≡ some tr
      → is_up tr.state ≡ true
      → in_hold g.min_hold_ms g.winner_since now ≡ true
      → Damped g now best w false
  replaced :
      {w : ℕ} (v : ℕ) (tr : TransportRuntime)
      → w ≡ best
      → g.winner ≡ some v
      → v ≢ best
      → get_elem? g.transports v ≡ some tr
      → (is_up tr.state && in_hold g.min_hold_ms g.winner_since now) ≡ false
      → Damped g now best w true

damp_other :
    (g : Group) (now : ℤ) (best w : ℕ) (tr : TransportRuntime)
    → g.winner ≡ some w
    → (w == best) ≡ false
    → get_elem? g.transports w ≡ some tr
    → damp g now best
      ≡ some (
          if is_up tr.state && in_hold g.min_hold_ms g.winner_since now
          then (w, false)
          else (best, true))
unfolding damp
damp_other g now best w tr e other at = rw (e, damp) (rw (other, at))

ne_of_test : (m n : ℕ) → (m == n) ≡ false → m ≢ n
ne_of_test m n h e = ground arith

damp-Damped_found :
    (g : Group) (now : ℤ) (best w : ℕ) (tr : TransportRuntime)
    → g.winner ≡ some w
    → (w == best) ≡ false
    → get_elem? g.transports w ≡ some tr
    → (v : ℕ) × (changed : Bool) × (damp g now best ≡ some (v, changed))
      × Damped g now best v changed
damp-Damped_found g now best w tr e other at =
    elim (Bool-cases (is_up tr.state && in_hold g.min_hold_ms g.winner_since now)) [
      | inl stays ↦
          let (healthy, hold) =
            &&-true (is_up tr.state) (in_hold g.min_hold_ms g.winner_since now) stays in
          (
            w,
            false,
            damp_other g now best w tr e other at ∙ rw stays,
            held tr e (ne_of_test w best other) at healthy hold,
          )
      | inr free ↦ (
        best,
        true,
        damp_other g now best w tr e other at ∙ rw free,
        replaced w tr refl e (ne_of_test w best other) at free,
      )
    ]

pub damp-Damped :
    (g : Group) (now : ℤ) (best : ℕ)
    → IsValid g
    → (w : ℕ) × (changed : Bool) × (damp g now best ≡ some (w, changed))
      × Damped g now best w changed
unfolding damp
damp-Damped g now best v = elim (Option-cases g.winner) [
  | inl e ↦ (best, true, rw (e, damp), first_winner refl e)
  | inr (w, e) ↦ elim (Bool-cases (w == best)) [
    | inl same ↦
        (best, false, rw (e, damp) (rw same), kept refl (e ∙ ap some ((==_iff w best).0 same)))
    | inr other ↦
        let (tr, at) =
          get_elem?_lt g.transports w (subst (λ o. InRange o (length g.transports)) e v) in
        damp-Damped_found g now best w tr e other at
  ]
]

-- A tick with a healthy transport: the winner it names, that winner's runtime, and the result.
pub record UpTick (g : Group) (now : ℤ) : Type 0 where
  pub winner : ℕ
  pub changed : Bool
  pub runtime : TransportRuntime
  pub best : ℕ
  pub best_runtime : TransportRuntime
  pub best_place : get_elem? g.transports best ≡ some best_runtime
  pub best_healthy : is_up best_runtime.state ≡ true
  pub best_first : IsBest g.transports best_runtime.spec.priority
  pub place : get_elem? g.transports winner ≡ some runtime
  pub healthy : is_up runtime.state ≡ true
  pub why : Damped g now best winner changed
  pub keeps_best :
      (w : ℕ) (tr : TransportRuntime)
      → g.winner ≡ some w
      → get_elem? g.transports w ≡ some tr
      → is_up tr.state ≡ true
      → IsBest g.transports tr.spec.priority
      → best ≡ w
  pub result : decide_action g now ≡ some (settle g now winner changed runtime)

Damped-healthy :
    {g : Group} {now : ℤ} {best w : ℕ} {changed : Bool} (tr : TransportRuntime)
    → get_elem? g.transports best ≡ some tr
    → is_up tr.state ≡ true
    → Damped g now best w changed
    → (r : TransportRuntime) × (get_elem? g.transports w ≡ some r) × (is_up r.state ≡ true)
Damped-healthy {g} tr at u (kept e _) =
    (tr, subst (λ n. get_elem? g.transports n ≡ some tr) (sym e) at, u)
Damped-healthy {g} tr at u (first_winner e _) =
    (tr, subst (λ n. get_elem? g.transports n ≡ some tr) (sym e) at, u)
Damped-healthy tr at u (held r _ _ here_w healthy _) = (r, here_w, healthy)
Damped-healthy {g} tr at u (replaced _ _ e _ _ _ _) =
    (tr, subst (λ n. get_elem? g.transports n ≡ some tr) (sym e) at, u)

decide_some_up :
    (g : Group) (now : ℤ) (first : Candidate) (rest : List Candidate) (w : ℕ) (changed : Bool)
    (tr : TransportRuntime)
    → candidates g.transports ≡ first ∷ rest
    → damp g now (best_winner g.winner first rest) ≡ some (w, changed)
    → get_elem? g.transports w ≡ some tr
    → decide_action g now ≡ some (settle g now w changed tr)
unfolding decide_action some_up
decide_some_up g now first rest w changed tr e d at = rw e (rw d (rw at))

pub up_tick :
    (g : Group) (now : ℤ) (first : Candidate) (rest : List Candidate)
    → candidates g.transports ≡ first ∷ rest
    → IsValid g
    → UpTick g now
up_tick g now first rest e v =
    let (b, b_at, b_up, b_first) = best_winner_up g.transports first rest e g.winner in
    let (w, changed, damped, why) = damp-Damped g now (best_winner g.winner first rest) v in
    let (tr, at, healthy) = Damped-healthy b b_at b_up why in
    record {
      winner = w;
      changed = changed;
      runtime = tr;
      best = best_winner g.winner first rest;
      best_runtime = b;
      best_place = b_at;
      best_healthy = b_up;
      best_first =
          subst (IsBest g.transports) (sym b_first) (first-IsBest g.transports first rest e);
      place = at;
      healthy = healthy;
      why = why;
      keeps_best = λ k t same k_at k_up k_best.
          ap (λ o. best_winner o first rest) same
          ∙ best_winner_keeps g.transports first rest e k t k_at k_up k_best;
      result = decide_some_up g now first rest w changed tr e damped at;
    }
