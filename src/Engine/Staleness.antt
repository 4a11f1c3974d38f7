-- ===== src/Engine/Staleness.antt =====
-- `staleness` of src/engine/mod.rs, the age bound that live ticks and restores share.
use nixnet_corbet_ch.Base.{
  ◌≡◌, refl, ◌↔◌, inl, inr, Bool, true, false, Option, none, some, arith, if◌then◌else◌, Bool-cases,
}
use nixnet_corbet_ch.Base.Int.{ℤ, pos, ◌-ℤ◌, ◌*ℤ◌, ◌≤ℤ◌, ◌<ℤ◌, ltb_ℤ}

pub data Staleness : Type 0 where
  fresh : Staleness
  expired : (age : ℤ) → Staleness
  expired_unknown_age : Staleness

abbrev pub is_fresh : Staleness → Bool
is_fresh fresh = true
is_fresh (expired age) = false
is_fresh expired_unknown_age = false

-- `time::Duration::seconds` and `time::Duration::milliseconds`, in nanoseconds.
unfoldable pub seconds : ℤ → ℤ
seconds v = v *ℤ pos 1000000000

unfoldable pub milliseconds : ℤ → ℤ
milliseconds v = v *ℤ pos 1000000

-- The verdict once a bound is declared.
bounded_staleness : ℤ → Option ℤ → ℤ → Staleness
bounded_staleness bound none now = expired_unknown_age
bounded_staleness bound (some confirmed_at) now =
    let age = now -ℤ confirmed_at in if ltb_ℤ bound age then expired age else fresh

unfoldable pub staleness : Option ℤ → Option ℤ → ℤ → Staleness
unfolding bounded_staleness
staleness none confirmed_at now = fresh
staleness (some v) confirmed_at now =
    if ltb_ℤ (pos 0) v then bounded_staleness (seconds v) confirmed_at now else fresh

-- The value is not past its bound: no positive bound is declared, or it was confirmed at most
-- that many seconds ago.
pub data WithinBound (max_age_sec confirmed_at : Option ℤ) (now : ℤ) : Type 0 where
  unbounded : max_age_sec ≡ none → WithinBound max_age_sec confirmed_at now
  nonsense : (v : ℤ) → max_age_sec ≡ some v → v ≤ℤ pos 0 → WithinBound max_age_sec confirmed_at now
  recent :
      (v t : ℤ)
      → max_age_sec ≡ some v
      → confirmed_at ≡ some t
      → now -ℤ t ≤ℤ seconds v
      → WithinBound max_age_sec confirmed_at now

fresh→WithinBound :
    (max_age_sec confirmed_at : Option ℤ) (now : ℤ)
    → staleness max_age_sec confirmed_at now ≡ fresh
    → WithinBound max_age_sec confirmed_at now
unfolding staleness
fresh→WithinBound none c now h = unbounded refl
fresh→WithinBound (some v) none now h = nonsense v refl (ground arith)
fresh→WithinBound (some v) (some t) now h = elim (Bool-cases (ltb_ℤ (pos 0) v)) [
  | inl e ↦ recent v t refl refl (ground arith)
  | inr e ↦ nonsense v refl (ground arith)
]

WithinBound→fresh :
    (max_age_sec confirmed_at : Option ℤ) (now : ℤ)
    → WithinBound max_age_sec confirmed_at now
    → staleness max_age_sec confirmed_at now ≡ fresh
unfolding staleness
WithinBound→fresh m c now (unbounded e) = rw (e, staleness)
WithinBound→fresh m c now (nonsense v e h) = rw (e, staleness) (ground arith)
WithinBound→fresh m c now (recent v t e f h) = rw (e, f, staleness) (ground arith)

-- An entry is judged fresh exactly when it is within its bound: with no declared (or no positive)
-- bound always, and else when it was confirmed at most `max_age_sec` seconds before `now`; an
-- entry that was never confirmed is not.
pub staleness-WithinBound :
    (max_age_sec confirmed_at : Option ℤ) (now : ℤ)
    → (staleness max_age_sec confirmed_at now ≡ fresh) ↔ WithinBound max_age_sec confirmed_at now
staleness-WithinBound m c now = (fresh→WithinBound m c now, WithinBound→fresh m c now)

-- A verdict of an expired age carries the real age, and that age is beyond the bound.
pub staleness_expired :
    (max_age_sec confirmed_at : Option ℤ) (now age : ℤ)
    → staleness max_age_sec confirmed_at now ≡ expired age
    → (v : ℤ) × (t : ℤ) × (max_age_sec ≡ some v)
      × (confirmed_at ≡ some t)
      × (age ≡ now -ℤ t)
      × (seconds v <ℤ age)
unfolding staleness
staleness_expired none c now age h = cc
staleness_expired (some v) none now age h = ground arith
staleness_expired (some v) (some t) now age h = (v, t, refl, refl, ground arith, ground arith)
