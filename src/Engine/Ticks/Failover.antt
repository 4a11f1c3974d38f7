-- ===== src/Engine/Ticks/Failover.antt =====
-- Successes in a row give a group of src/engine/mod.rs a winner that is up, however the results of
-- its other transports come in between.
use nixnet_corbet_ch.Base.{
  ℕ, zero, suc, ◌<◌, ◌≡◌, ◌≢◌, refl, sym, ap, ◌∙◌, subst, inl, inr, true, List, [], ◌∷◌, some, ◌==◌,
  ==_iff, All, get_elem?, get_elem?_lt, set, length, Bool-cases, ◌>>=◌, if◌then◌else◌, some_inj,
}
use nixnet_corbet_ch.Base.Int.{pos, ◌+ℤ◌, ◌≤ℤ◌}
use nixnet_corbet_ch.Base.Text.{Text}
use nixnet_corbet_ch.Engine.{
  TransportRuntime, TransportState, unknown, up, down, is_up, Group, Action, IsValid,
}
use nixnet_corbet_ch.Engine.Health.{observe, observe_all, reject_invalid_address, up_threshold_of}
use nixnet_corbet_ch.Engine.Health.Counters.{IsCounted}
use nixnet_corbet_ch.Engine.Health.Runs.{AllHealthy, healthy_run, stays_up, observe-stays_up}
use nixnet_corbet_ch.Engine.Decide.{decide_action}
use nixnet_corbet_ch.Engine.Decide.Laws.{decide_action-IsValid, tick_with_up, settle-winner}
use nixnet_corbet_ch.Engine.Groups.{at_transport, get_elem?-set}
use nixnet_corbet_ch.Engine.Groups.Lookup.{length-set}
use nixnet_corbet_ch.Engine.Ticks.{Tick, group_tick, group_ticks, results_of}

get_elem?-set_other :
    {A : Type 0} (xs : List A) (i j : ℕ) (v : A) → i ≢ j → get_elem? (set xs i v) j ≡ get_elem? xs j
get_elem?-set_other [] i j v n = refl
get_elem?-set_other (x ∷ xs) zero zero v n = absurd (n refl)
get_elem?-set_other (x ∷ xs) zero (suc j) v n = refl
get_elem?-set_other (x ∷ xs) (suc i) zero v n = refl
get_elem?-set_other (x ∷ xs) (suc i) (suc j) v n = get_elem?-set_other xs i j v (λ e. n (ap suc e))

abbrev pub InGroup : Group → Tick → Type 0
InGroup g t = t.idx < length g.transports

up_of_is_up : (s : TransportState) → is_up s ≡ true → s ≡ up
up_of_is_up up h = refl
up_of_is_up unknown h = cc
up_of_is_up down h = cc

module _ (quoted : Text → Text) where
  observed : Tick → TransportRuntime → TransportRuntime
  observed t tr = observe (reject_invalid_address quoted t.res) t.observed_at tr

  -- The group between the result and the decision.
  tick_defined :
      (t : Tick) (g : Group)
      → IsValid g
      → InGroup g t
      → (tr : TransportRuntime) × (g' : Group) × (a : Action) × (get_elem? g.transports t.idx
          ≡ some tr)
        × (group_tick quoted t g ≡ some (g', a))
        × (decide_action
              (record g { transports = set g.transports t.idx (observed t tr) })
              t.decided_at
            ≡ some (g', a))
        × IsValid g'
        × (g'.transports ≡ set g.transports t.idx (observed t tr))
  unfolding group_tick at_transport observed
  tick_defined t g v below =
      let (tr, at) = get_elem?_lt g.transports t.idx below in
      let between = record g { transports = set g.transports t.idx (observed t tr) } in
      let between_valid : IsValid between = rw (length-set g.transports t.idx (observed t tr)) v in
      let (g', a, done, valid, same) = decide_action-IsValid between t.decided_at between_valid in
      (tr, g', a, at, rw (at, ◌>>=◌) done, done, valid, same)

  -- The runtime of transport `k` after a tick.
  after : ℕ → Tick → TransportRuntime → TransportRuntime
  after k t tr = if t.idx == k then observed t tr else tr

  tick_runtime :
      (t : Tick) (k : ℕ) (trs : List TransportRuntime) (tr old : TransportRuntime)
      → get_elem? trs k ≡ some tr
      → get_elem? trs t.idx ≡ some old
      → get_elem? (set trs t.idx (observed t old)) k ≡ some (after k t tr)
  unfolding after
  tick_runtime t k trs tr old at at_old = elim (Bool-cases (t.idx == k)) [
    | inl e ↦
        let same = (==_iff t.idx k).0 e in
        rw (e, if◌then◌else◌)
          (subst (λ n. get_elem? (set trs t.idx (observed t old)) n ≡ some (observed t tr)) same
            (get_elem?-set trs t.idx (observed t old) at_old
              ∙ ap (λ x. some (observed t x))
                  (some_inj (sym at_old ∙ subst (λ n. get_elem? trs n ≡ some tr) (sym same) at))))
    | inr e ↦
        rw (e, if◌then◌else◌)
          (get_elem?-set_other trs t.idx k (observed t old)
              (λ same. cc (e, (==_iff t.idx k).1 same))
            ∙ at)
  ]

  after-observe_all :
      (k : ℕ) (t : Tick) (ts : List Tick) (tr : TransportRuntime)
      → observe_all (results_of quoted k ts) (after k t tr)
        ≡ observe_all (results_of quoted k (t ∷ ts)) tr
  unfolding after observed results_of observe_all
  after-observe_all k t ts tr = elim (Bool-cases (t.idx == k)) [
    | inl e ↦ rw (e, if◌then◌else◌) refl
    | inr e ↦ rw (e, if◌then◌else◌) refl
  ]

  -- A run of ticks of the group's transports ends in a group of the same size, where transport `k`
  -- has seen its own results, in order, and nothing else.
  pub ticks_runtime :
      (ts : List Tick) (g : Group) (k : ℕ) (tr : TransportRuntime)
      → IsValid g
      → All (InGroup g) ts
      → get_elem? g.transports k ≡ some tr
      → (g' : Group) × (group_ticks quoted ts g ≡ some g')
        × IsValid g'
        × (length g'.transports ≡ length g.transports)
        × (get_elem? g'.transports k ≡ some (observe_all (results_of quoted k ts) tr))
  unfolding group_ticks results_of observe_all
  ticks_runtime [] g k tr v inside at = (g, refl, v, refl, at)
  ticks_runtime (t ∷ ts) g k tr v inside at =
      let (old, g', a, at_old, done, _, valid, same) = tick_defined t g v inside.0 in
      let size : length g'.transports ≡ length g.transports =
        ap length same ∙ length-set g.transports t.idx (observed t old) in
      let now_at = ap (λ l. get_elem? l k) same ∙ tick_runtime t k g.transports tr old at at_old in
      let (g'', run, valid', size', at') =
        ticks_runtime ts g' k (after k t tr) valid
          (subst (λ n. All (λ u. u.idx < n) ts) (sym size) inside.1) now_at in
      (g'', rw (done, ◌>>=◌) run, valid', size' ∙ size, at' ∙ ap some (after-observe_all k t ts tr))

  run_up :
      (k : ℕ) (ts : List Tick) (tr : TransportRuntime)
      → IsCounted tr
      → AllHealthy true (results_of quoted k ts)
      → up_threshold_of tr ≤ℤ tr.consecutive_success +ℤ pos (length (results_of quoted k ts))
      → (observe_all (results_of quoted k ts) tr).state ≡ up
  run_up k ts tr counted healthy enough = elim (Bool-cases (is_up tr.state)) [
    | inl u ↦ stays_up (results_of quoted k ts) tr (up_of_is_up tr.state u) healthy
    | inr n ↦
        (healthy_run (results_of quoted k ts) tr counted (λ e. cc (n, ap is_up e)) healthy).1 enough
  ]

  after_up :
      (k : ℕ) (t : Tick) (tr : TransportRuntime)
      → AllHealthy true (results_of quoted k (t ∷ []))
      → tr.state ≡ up
      → is_up (after k t tr).state ≡ true
  unfolding after observed results_of
  after_up k t tr healthy u = elim (Bool-cases (t.idx == k)) [
    | inl e ↦
        rw (e, if◌then◌else◌)
          (ap is_up (observe-stays_up _ t.observed_at tr u (rw (e, if◌then◌else◌) at healthy).0))
    | inr e ↦ rw (e, if◌then◌else◌) (ap is_up u)
  ]

  winner_of_tick :
      (t : Tick) (g : Group) (k : ℕ) (tr : TransportRuntime)
      → IsValid g
      → InGroup g t
      → get_elem? g.transports k ≡ some tr
      → is_up (after k t tr).state ≡ true
      → (g' : Group) × (a : Action) × (w : ℕ) × (r : TransportRuntime) × (group_tick quoted t g
          ≡ some (g', a))
        × (g'.winner ≡ some w)
        × (get_elem? g'.transports w ≡ some r)
        × (is_up r.state ≡ true)
  winner_of_tick t g k tr v below at u =
      let (old, g', a, at_old, done, decided, valid, same) = tick_defined t g v below in
      let between = record g { transports = set g.transports t.idx (observed t old) } in
      let tick =
        tick_with_up between t.decided_at k (after k t tr)
          (rw (length-set g.transports t.idx (observed t old)) v)
          (tick_runtime t k g.transports tr old at at_old) u in
      let settled = some_inj (sym tick.result ∙ decided) in
      (
        g',
        a,
        tick.winner,
        tick.runtime,
        done,
        sym (ap (λ (q : Group × Action). q.0.winner) settled) ∙ settle-winner tick.runtime tick.why,
        ap (λ l. get_elem? l tick.winner) same ∙ tick.place,
        tick.healthy,
      )

  -- In a group whose winner pointer is in range, let one transport, its counters in order, have only healthy results, enough
  -- of them to reach its up threshold. Then the next tick of any transport of the group, if its
  -- result is of another transport or healthy, leaves the group with a winner that is up, whatever
  -- the results of the other transports were and however they came in between.
  pub ticks-winner :
      (ts : List Tick) (t : Tick) (g : Group) (k : ℕ) (tr : TransportRuntime)
      → IsValid g
      → All (InGroup g) ts
      → InGroup g t
      → get_elem? g.transports k ≡ some tr
      → IsCounted tr
      → AllHealthy true (results_of quoted k ts)
      → AllHealthy true (results_of quoted k (t ∷ []))
      → up_threshold_of tr ≤ℤ tr.consecutive_success +ℤ pos (length (results_of quoted k ts))
      → (g₁ : Group) × (g' : Group) × (a : Action) × (w : ℕ) × (r : TransportRuntime) × (group_ticks
            quoted ts g
          ≡ some g₁)
        × (group_tick quoted t g₁ ≡ some (g', a))
        × (g'.winner ≡ some w)
        × (get_elem? g'.transports w ≡ some r)
        × (is_up r.state ≡ true)
  ticks-winner ts t g k tr v inside below at counted healthy last enough =
      let (g₁, run, valid, size, at₁) = ticks_runtime ts g k tr v inside at in
      let (g', a, w, r, done, won, place, up_now) =
        winner_of_tick t g₁ k (observe_all (results_of quoted k ts) tr) valid
          (subst (λ n. t.idx < n) (sym size) below) at₁
          (after_up k t (observe_all (results_of quoted k ts) tr) last
            (run_up k ts tr counted healthy enough)) in
      (g₁, g', a, w, r, run, done, won, place, up_now)
