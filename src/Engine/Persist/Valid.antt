-- ===== src/Engine/Persist/Valid.antt =====
-- What every restored group satisfies.
use nixnet_corbet_ch.Base.{
  ℕ, suc, ◌+◌, ◌≡◌, refl, sym, ap, subst, ◌⊎◌, inl, inr, Bool, true, false, not, ◌&&◌, List, [],
  ◌∷◌, Option, none, arith, length, is_some, position_from, if◌then◌else◌, Bool-cases,
}
use nixnet_corbet_ch.Base.Int.{ℤ}
use nixnet_corbet_ch.Base.Text.{is_empty, text_eq, text_eq_iff}
use nixnet_corbet_ch.Config.{on_all_down_last_known_good}
use nixnet_corbet_ch.Engine.{TransportRuntime, Group, peer, IsValid, InRange}
use nixnet_corbet_ch.Engine.Staleness.{staleness, is_fresh}
use nixnet_corbet_ch.Engine.Decide.{is_peer}
use nixnet_corbet_ch.Engine.Persist.{
  PersistedGroup, PersistedTransport, adopt_all, expire_restored, adopt_group, drop_orphan,
  drop_changed, restore_group,
}

InRange-position :
    (p : TransportRuntime → Bool) (i : ℕ) (trs : List TransportRuntime)
    → InRange (position_from i p trs) (i + length trs)
InRange-position p i [] = tt
InRange-position p i (tr ∷ trs) = elim (Bool-cases (p tr)) [
  | inl e ↦ rw (e, position_from, if◌then◌else◌) (omega arith)
  | inr e ↦
      rw (e, position_from, if◌then◌else◌)
        (subst (InRange (position_from (suc i) p trs)) (omega arith)
          (InRange-position p (suc i) trs))
]

adopt_group-IsValid : (pg : PersistedGroup) (g : Group) → IsValid (adopt_group pg g)
unfolding adopt_group
adopt_group-IsValid pg g = elim (Bool-cases (is_empty pg.winner_id)) [
  | inl e ↦ rw (e, adopt_group, if◌then◌else◌) tt
  | inr e ↦
      rw (e, adopt_group, if◌then◌else◌)
        (subst (InRange (position_from 0 (λ tr. text_eq tr.key pg.winner_id) g.transports))
          (omega arith) (InRange-position (λ tr. text_eq tr.key pg.winner_id) 0 g.transports))
]

expire-IsValid : (g : Group) (now : ℤ) → IsValid g → IsValid (expire_restored g now)
unfolding expire_restored
expire-IsValid g now v = ground arith

length-adopt_all :
    (saved : List PersistedTransport) (winner : Option ℕ) (i : ℕ) (trs : List TransportRuntime)
    → length (adopt_all saved winner i trs).0 ≡ length trs
unfolding adopt_all
length-adopt_all saved winner i [] = refl
length-adopt_all saved winner i (tr ∷ trs) = ap suc (length-adopt_all saved winner (suc i) trs)

drop_changed-IsValid : (changed : Bool) (g : Group) → IsValid g → IsValid (drop_changed changed g)
unfolding drop_changed
drop_changed-IsValid true g v = tt
drop_changed-IsValid false g v = v

drop_orphan-IsValid : (g : Group) → IsValid g → IsValid (drop_orphan g)
unfolding drop_orphan
drop_orphan-IsValid g v = ground arith

-- Whatever a state file holds, a restored group's winner pointer is in range of its configured
-- transports: no entry of an old or foreign file can make a later tick index a missing transport.
pub restore_group-IsValid :
    (pg : PersistedGroup) (now : ℤ) (g : Group) → IsValid (restore_group pg now g)
unfolding restore_group
restore_group-IsValid pg now g =
    let named = expire_restored (adopt_group pg g) now in
    let adopted = adopt_all pg.transports named.winner 0 named.transports in
    drop_changed-IsValid adopted.1 _ (
      drop_orphan-IsValid (record named { transports = adopted.0 })
        (subst (InRange named.winner)
          (sym (length-adopt_all pg.transports named.winner 0 named.transports))
          (expire-IsValid (adopt_group pg g) now (adopt_group-IsValid pg g))))

-- A published entry has a winner and, for a `lastKnownGood` peer, is within its bound.
abbrev pub IsPublishable : ℤ → Group → Type 0
IsPublishable now g =
    (is_empty g.last_published_addr ≡ true)
    ⊎ ((is_some g.winner ≡ true)
        × (g.kind ≡ peer
            → g.on_all_down ≡ on_all_down_last_known_good
            → is_fresh (staleness g.max_age_sec g.last_confirmed_at now) ≡ true))

-- The age half of it.
abbrev IsTimely : ℤ → Group → Type 0
IsTimely now g =
    (is_empty g.last_published_addr ≡ true)
    ⊎ (g.kind ≡ peer
        → g.on_all_down ≡ on_all_down_last_known_good
        → is_fresh (staleness g.max_age_sec g.last_confirmed_at now) ≡ true)

expire_cases :
    (g : Group) (now : ℤ)
    → (expire_restored g now ≡ record g { last_published_addr = []; winner = none })
      ⊎ ((expire_restored g now ≡ g)
          × ((is_empty g.last_published_addr ≡ true)
              ⊎ (is_peer g.kind ≡ false)
              ⊎ (text_eq g.on_all_down on_all_down_last_known_good ≡ false)
              ⊎ (is_fresh (staleness g.max_age_sec g.last_confirmed_at now) ≡ true)))
unfolding expire_restored
expire_cases g now = ground arith

expire-IsTimely : (g : Group) (now : ℤ) → IsTimely now (expire_restored g now)
expire-IsTimely g now = elim (expire_cases g now) [
  | inl e ↦ rw e (inl refl)
  | inr (e, inl empty) ↦ rw e (inl empty)
  | inr (e, inr (inl other)) ↦ rw e (inr λ p q. cc (other, ap is_peer p))
  | inr (e, inr (inr (inl other))) ↦
      rw e (inr λ p q. cc (other, (text_eq_iff g.on_all_down on_all_down_last_known_good).1 q))
  | inr (e, inr (inr (inr young))) ↦ rw e (inr λ p q. young)
]

orphan-IsPublishable : (g : Group) (now : ℤ) → IsTimely now g → IsPublishable now (drop_orphan g)
unfolding drop_orphan
orphan-IsPublishable g now (inl empty) = ground arith
orphan-IsPublishable g now (inr young) =
    elim (Bool-cases (not (is_some g.winner) && not (is_empty g.last_published_addr))) [
      | inl e ↦ rw (e, drop_orphan, if◌then◌else◌) (inl refl)
      | inr e ↦
          rw (e, drop_orphan, if◌then◌else◌)
            (elim (Bool-cases (is_empty g.last_published_addr)) [
              | inl empty ↦ inl empty
              | inr full ↦ inr (ground arith, young)
            ])
    ]

changed-IsPublishable :
    (b : Bool) (g : Group) (now : ℤ) → IsPublishable now g → IsPublishable now (drop_changed b g)
unfolding drop_changed
changed-IsPublishable true g now p = inl refl
changed-IsPublishable false g now p = p

-- A restart does not make an entry current: whatever the state file holds, an entry that a restored
-- group publishes has a winner behind it and, for a `lastKnownGood` peer, is within its age bound
-- at the time of the restore.
pub restore_group-IsPublishable :
    (pg : PersistedGroup) (now : ℤ) (g : Group) → IsPublishable now (restore_group pg now g)
unfolding restore_group
restore_group-IsPublishable pg now g =
    let named = expire_restored (adopt_group pg g) now in
    let adopted = adopt_all pg.transports named.winner 0 named.transports in
    changed-IsPublishable adopted.1 _ now (
      orphan-IsPublishable (record named { transports = adopted.0 }) now
        (expire-IsTimely (adopt_group pg g) now))
