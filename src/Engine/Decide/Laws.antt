-- ===== src/Engine/Decide/Laws.antt =====
-- Winner selection of one tick: it always yields a result, and which winner that names.
use nixnet_corbet_ch.Base.{
  ℕ, ◌≡◌, refl, sym, ◌∙◌, ◌⊎◌, inl, inr, Bool, true, List, [], ◌∷◌, false≢true, some, arith,
  get_elem?, lt_of_get_elem?,
}
use nixnet_corbet_ch.Base.Int.{ℤ}
use nixnet_corbet_ch.Engine.{TransportRuntime, Group, Action, is_up, IsValid}
use nixnet_corbet_ch.Engine.Decide.Candidates.{no_candidates}
use nixnet_corbet_ch.Engine.Decide.Tick.{
  UpTick, up_tick, Damped, kept, first_winner, held, replaced,
}
use nixnet_corbet_ch.Engine.Decide.{candidates, settle, all_down, decide_action}

List-cases {ℓ} :
    {A : Type ℓ} (xs : List A) → (xs ≡ []) ⊎ ((x : A) × (rest : List A) × (xs ≡ x ∷ rest))
List-cases [] = inl refl
List-cases (x ∷ rest) = inr (x, rest, refl)

pub decide_all_down :
    (g : Group) (now : ℤ)
    → candidates g.transports ≡ []
    → decide_action g now ≡ some (all_down g now)
unfolding decide_action
decide_all_down g now e = rw e

-- A tick finds no candidate, or takes the steps of `UpTick`.
pub tick_cases :
    (g : Group) (now : ℤ)
    → IsValid g
    → ((candidates g.transports ≡ []) × (decide_action g now ≡ some (all_down g now)))
      ⊎ UpTick g now
tick_cases g now v = elim (List-cases (candidates g.transports)) [
  | inl e ↦ inl (e, decide_all_down g now e)
  | inr (c, cs, e) ↦ inr (up_tick g now c cs e v)
]

-- A transport that is up rules out the first case.
pub tick_with_up :
    (g : Group) (now : ℤ) (k : ℕ) (tr : TransportRuntime)
    → IsValid g
    → get_elem? g.transports k ≡ some tr
    → is_up tr.state ≡ true
    → UpTick g now
tick_with_up g now k tr v at u = elim (tick_cases g now v) [
  | inl (e, _) ↦ absurd (false≢true (sym (no_candidates g.transports e k tr at) ∙ u))
  | inr t ↦ t
]

pub settle-winner :
    {g : Group} {now : ℤ} {best w : ℕ} {changed : Bool} (tr : TransportRuntime)
    → Damped g now best w changed
    → (settle g now w changed tr).0.winner ≡ some w
unfolding settle
settle-winner {g} tr (kept e f) = ground arith
settle-winner {g} tr (first_winner e f) = ground arith
settle-winner {g} tr (held r f ne at u h) = ground arith
settle-winner {g} tr (replaced v r e f ne at h) = ground arith

pub settle-transports :
    (g : Group) (now : ℤ) (w : ℕ) (changed : Bool) (tr : TransportRuntime)
    → (settle g now w changed tr).0.transports ≡ g.transports
unfolding settle
settle-transports g now w changed tr = ground arith

pub all_down-IsValid : (g : Group) (now : ℤ) → IsValid g → IsValid (all_down g now).0
unfolding all_down
all_down-IsValid g now v = ground arith

pub settle-IsValid :
    {g : Group} {now : ℤ} (t : UpTick g now) → IsValid (settle g now t.winner t.changed t.runtime).0
settle-IsValid {g} {now} t =
    rw (settle-winner t.runtime t.why, settle-transports g now t.winner t.changed t.runtime)
      (lt_of_get_elem? g.transports t.winner t.place)

pub all_down-transports : (g : Group) (now : ℤ) → (all_down g now).0.transports ≡ g.transports
unfolding all_down
all_down-transports g now = ground arith

-- In a group whose winner pointer is in range a tick never indexes a missing transport: it yields
-- a new group, whose winner pointer is in range again, with the same transports.
pub decide_action-IsValid :
    (g : Group) (now : ℤ)
    → IsValid g
    → (g' : Group) × (a : Action) × (decide_action g now ≡ some (g', a))
      × IsValid g'
      × (g'.transports ≡ g.transports)
decide_action-IsValid g now v = elim (tick_cases g now v) [
  | inl (_, e) ↦ (
    (all_down g now).0,
    (all_down g now).1,
    e,
    all_down-IsValid g now v,
    all_down-transports g now,
  )
  | inr t ↦
      let r = settle g now t.winner t.changed t.runtime in
      (r.0, r.1, t.result, settle-IsValid t, settle-transports g now t.winner t.changed t.runtime)
]
