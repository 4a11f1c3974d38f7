-- ===== src/Engine/Decide/Publication.antt =====
-- What a tick leaves published: the winner's address, or a last-known-good within its bound.
use nixnet_corbet_ch.Base.{
  ℕ, ◌≡◌, ◌≢◌, refl, sym, ◌∙◌, ap, subst, ◌↔◌, inl, inr, Bool, true, false, [], none, some, arith,
  get_elem?, false≢true, some_inj, Bool-cases,
}
use nixnet_corbet_ch.Base.Int.{ℤ}
use nixnet_corbet_ch.Base.Text.{is_empty, text_eq, text_eq_iff, text_eq_refl}
use nixnet_corbet_ch.Config.{on_all_down_last_known_good, on_all_down_unpublish}
use nixnet_corbet_ch.Engine.{TransportRuntime, peer, Group, Action, publish_peers, is_up, IsValid}
use nixnet_corbet_ch.Engine.Staleness.{
  WithinBound, Staleness, staleness, fresh, expired, expired_unknown_age, staleness-WithinBound,
  is_fresh,
}
use nixnet_corbet_ch.Engine.Decide.Tick.{Damped, kept, first_winner, held, replaced}
use nixnet_corbet_ch.Engine.Decide.Laws.{tick_with_up, tick_cases, settle-winner}
use nixnet_corbet_ch.Engine.Decide.{settle, all_down, decide_action}

-- No transport of the group is up.
abbrev pub NoneUp : Group → Type 0
NoneUp g =
    (k : ℕ) (tr : TransportRuntime) → get_elem? g.transports k ≡ some tr → is_up tr.state ≡ false

pub NoneUp-tick :
    (g g' : Group) (now : ℤ) (a : Action)
    → IsValid g
    → NoneUp g
    → decide_action g now ≡ some (g', a)
    → all_down g now ≡ (g', a)
NoneUp-tick g g' now a v lost done = elim (tick_cases g now v) [
  | inl (_, e) ↦ some_inj (sym e ∙ done)
  | inr t ↦ absurd (false≢true (sym (lost t.winner t.runtime t.place) ∙ t.healthy))
]

settle-published :
    {g : Group} {now : ℤ} {best w : ℕ} {changed : Bool} (tr : TransportRuntime)
    → Damped g now best w changed
    → g.kind ≡ peer
    → is_empty tr.current_address ≡ false
    → (settle g now w changed tr).0.last_published_addr ≡ tr.current_address
unfolding settle
settle-published {g} tr (kept e f) p n =
    ground (arith, text_eq_iff tr.current_address g.last_published_addr)
settle-published {g} tr (first_winner e f) p n = ground arith
settle-published {g} tr (held r f ne at u h) p n =
    ground (arith, text_eq_iff tr.current_address g.last_published_addr)
settle-published {g} tr (replaced v r e f ne at h) p n = ground arith

pub settle_freshness :
    (g : Group) (now : ℤ) (w : ℕ) (changed : Bool) (tr : TransportRuntime)
    → ((settle g now w changed tr).0.last_confirmed_at ≡ tr.last_success_at)
      × ((settle g now w changed tr).0.degraded ≡ false)
unfolding settle
settle_freshness g now w changed tr = ground arith

-- While some transport of a peer is up, a tick publishes the effective address of the winner it
-- names, if that has one, and dates it by the winner's own last successful probe.
pub decide_action-published :
    (g g' : Group) (now : ℤ) (a : Action) (k : ℕ) (tr : TransportRuntime)
    → IsValid g
    → get_elem? g.transports k ≡ some tr
    → is_up tr.state ≡ true
    → g.kind ≡ peer
    → decide_action g now ≡ some (g', a)
    → (w : ℕ) × (r : TransportRuntime) × (g'.winner ≡ some w)
      × (get_elem? g.transports w ≡ some r)
      × (is_empty r.current_address ≡ false → g'.last_published_addr ≡ r.current_address)
      × (g'.last_confirmed_at ≡ r.last_success_at)
decide_action-published g g' now a k tr v at u p done =
    let t = tick_with_up g now k tr v at u in
    let settled = some_inj (sym t.result ∙ done) in
    (
      t.winner,
      t.runtime,
      sym (ap (λ q. q.0.winner) settled) ∙ settle-winner t.runtime t.why,
      t.place,
      λ n. sym (ap (λ q. q.0.last_published_addr) settled) ∙ settle-published t.runtime t.why p n,
      sym (ap (λ q. q.0.last_confirmed_at) settled)
          ∙ (settle_freshness g now t.winner t.changed t.runtime).0,
    )

all_down_degraded : (g : Group) (now : ℤ) → (all_down g now).0.degraded ≡ true
unfolding all_down
all_down_degraded g now = ground arith

-- After a tick a group is degraded exactly when none of its transports is up.
pub decide_action-degraded :
    (g g' : Group) (now : ℤ) (a : Action)
    → IsValid g
    → decide_action g now ≡ some (g', a)
    → (g'.degraded ≡ true) ↔ NoneUp g
decide_action-degraded g g' now a v done = (
  λ d. to_none d,
  λ lost.
      sym (ap (λ q. q.0.degraded) (NoneUp-tick g g' now a v lost done)) ∙ all_down_degraded g now,
)
  where
    to_none : g'.degraded ≡ true → NoneUp g
    to_none d k tr at = elim (Bool-cases (is_up tr.state)) [
      | inl u ↦
          let t = tick_with_up g now k tr v at u in
          absurd (
            false≢true (
              sym (settle_freshness g now t.winner t.changed t.runtime).1
              ∙ ap (λ q. q.0.degraded) (some_inj (sym t.result ∙ done))
              ∙ d))
      | inr e ↦ e
    ]

policies_differ : text_eq on_all_down_last_known_good on_all_down_unpublish ≡ false
unfolding text_eq
policies_differ = refl

all_down_fresh :
    (g : Group) (now : ℤ)
    → g.kind ≡ peer
    → g.on_all_down ≡ on_all_down_last_known_good
    → is_empty g.last_published_addr ≡ false
    → staleness g.max_age_sec g.last_confirmed_at now ≡ fresh
    → all_down g now ≡ (record g { degraded = true }, publish_peers true)
unfolding all_down
all_down_fresh g now p q n f =
    rw (p, q, policies_differ, text_eq_refl on_all_down_last_known_good, n, f)

all_down_stale :
    (g : Group) (now : ℤ)
    → g.kind ≡ peer
    → g.on_all_down ≡ on_all_down_last_known_good
    → is_empty g.last_published_addr ≡ false
    → is_fresh (staleness g.max_age_sec g.last_confirmed_at now) ≡ false
    → all_down g now
      ≡ (record g { degraded = true; winner = none; last_published_addr = [] }, publish_peers false)
unfolding all_down
all_down_stale g now p q n f =
    rw (p, q, policies_differ, text_eq_refl on_all_down_last_known_good, n, f)

is_fresh-false : (s : Staleness) → s ≢ fresh → is_fresh s ≡ false
is_fresh-false fresh h = absurd (h refl)
is_fresh-false (expired age) h = refl
is_fresh-false expired_unknown_age h = refl

-- A `lastKnownGood` peer with something published and no transport up keeps its entry and its
-- winner as long as the entry is within its age bound, and is re-asserted passively; past the bound
-- the entry and the winner are withdrawn, and the emptied block is written. It is degraded either
-- way.
pub decide_action-last_known_good :
    (g g' : Group) (now : ℤ) (a : Action)
    → IsValid g
    → NoneUp g
    → g.kind ≡ peer
    → g.on_all_down ≡ on_all_down_last_known_good
    → is_empty g.last_published_addr ≡ false
    → decide_action g now ≡ some (g', a)
    → (WithinBound g.max_age_sec g.last_confirmed_at now
        → (g' ≡ record g { degraded = true }) × (a ≡ publish_peers true))
      × (¬ WithinBound g.max_age_sec g.last_confirmed_at now
          → (g' ≡ record g { degraded = true; winner = none; last_published_addr = [] })
            × (a ≡ publish_peers false))
decide_action-last_known_good g g' now a v lost p q n done =
    let result = NoneUp-tick g g' now a v lost done in
    let bound = staleness-WithinBound g.max_age_sec g.last_confirmed_at now in
    (
      λ b.
          let e = sym result ∙ all_down_fresh g now p q n (bound.1 b) in
          (ap (λ r. r.0) e, ap (λ r. r.1) e),
      λ nb.
          let e =
            sym result ∙ all_down_stale g now p q n (is_fresh-false _ (λ f. nb (bound.0 f))) in
          (ap (λ r. r.0) e, ap (λ r. r.1) e),
    )

-- A published address has a winner behind it.
abbrev pub IsBacked : Group → Type 0
IsBacked g = g.winner ≡ none → g.last_published_addr ≡ []

all_down-IsBacked : (g : Group) (now : ℤ) → IsBacked g → IsBacked (all_down g now).0
unfolding all_down
all_down-IsBacked g now b = ground (arith, b)

-- A tick keeps every published address backed by a winner.
pub decide_action-IsBacked :
    (g g' : Group) (now : ℤ) (a : Action)
    → IsValid g
    → IsBacked g
    → decide_action g now ≡ some (g', a)
    → IsBacked g'
decide_action-IsBacked g g' now a v b done = elim (tick_cases g now v) [
  | inl (_, e) ↦
      subst (λ (r : Group × Action). IsBacked r.0) (some_inj (sym e ∙ done))
        (all_down-IsBacked g now b)
  | inr t ↦ λ none_now. cc (
    settle-winner t.runtime t.why,
    ap (λ (r : Group × Action). r.0.winner) (some_inj (sym t.result ∙ done)),
  )
]

all_down_unpublish :
    (g : Group) (now : ℤ)
    → g.kind ≡ peer
    → text_eq g.on_all_down on_all_down_unpublish ≡ true
    → text_eq g.on_all_down on_all_down_last_known_good ≡ false
    → IsBacked g
    → ((all_down g now).0.winner ≡ none) × ((all_down g now).0.last_published_addr ≡ [])
unfolding all_down
all_down_unpublish g now p q n b = ground (arith, b)

-- An `unpublish` peer with no transport up has no winner and nothing published after a tick.
pub decide_action-unpublish :
    (g g' : Group) (now : ℤ) (a : Action)
    → IsValid g
    → IsBacked g
    → NoneUp g
    → g.kind ≡ peer
    → g.on_all_down ≡ on_all_down_unpublish
    → decide_action g now ≡ some (g', a)
    → (g'.winner ≡ none) × (g'.last_published_addr ≡ [])
unfolding text_eq
decide_action-unpublish g g' now a v b lost p q done =
    subst (λ (r : Group × Action). (r.0.winner ≡ none) × (r.0.last_published_addr ≡ []))
      (NoneUp-tick g g' now a v lost done) (all_down_unpublish g now p (rw q) (rw q) b)
