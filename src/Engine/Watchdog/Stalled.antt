-- ===== src/Engine/Watchdog/Stalled.antt =====
-- A worker that is stuck keeps src/bin/nixnetd.rs from feeding the watchdog of systemd.
use nixnet_corbet_ch.Base.{
  ℕ, ◌+◌, ◌*◌, ◌-◌, ◌<◌, ◌≤◌, ◌^◌, ◌≡◌, ◌⊎◌, refl, sym, inl, inr, Bool, false, List, [], ◌∷◌, none,
  some, all, ltb, if◌then◌else◌, arith, Bool-cases, All, In, here, there, some_inj, zero, suc,
}
use nixnet_corbet_ch.Base.Text.{Text, is_empty}
use nixnet_corbet_ch.Base.Parse.{parse_unsigned}
use nixnet_corbet_ch.Engine.{TransportRuntime}
use nixnet_corbet_ch.Engine.Status.{EngineState}
use nixnet_corbet_ch.Engine.Watchdog.{
  all_transports, in_time, watchdog_healthy, parse_watchdog_usec, half_of, stall_limit_of, Round,
  heartbeat,
}

-- In the state that the round reads, a probe that began more than `usec` microseconds ago goes on.
abbrev pub IsStalled : ℕ → Round → Type 0
IsStalled usec r =
    (state : EngineState) × (tr : TransportRuntime) × (started : ℕ) × (r.locked ≡ some state)
    × In tr (all_transports state)
    × (tr.probe_started_at ≡ some started)
    × (started + usec * 1000 < r.now)

-- The state lock is held, the start or the end is under way, or a probe is stalled.
abbrev pub IsStuck : ℕ → Round → Type 0
IsStuck usec r = (r.locked ≡ none) ⊎ ((r.initialized ≡ false) ⊎ IsStalled usec r)

all-In :
    {A : Type 0} (p : A → Bool) (x : A) (xs : List A) → In x xs → p x ≡ false → all p xs ≡ false
all-In p x [] m h = elim m [ ]
all-In p x (y ∷ ys) here h = rw h refl
all-In p x (y ∷ ys) (there m) h = elim (Bool-cases (p y)) [
  | inl e ↦ rw e (all-In p x ys m h)
  | inr e ↦ rw e refl
]

half_of_cases : (usec interval : ℕ) → half_of usec ≡ some interval → interval ≡ usec * 500
half_of_cases zero interval h = cc
half_of_cases (suc usec) interval h = sym (some_inj h)

stall_limit_le : (interval : ℕ) → stall_limit_of interval ≤ interval * 2
stall_limit_le interval = elim (Bool-cases (ltb (interval * 2) (2 ^ 64 * 1000000000))) [
  | inl e ↦ rw (e, if◌then◌else◌) (omega arith)
  | inr e ↦ rw (e, if◌then◌else◌) (omega arith)
]

module _ {W : Type 0} (latest : ℕ) (notify : W → W) where
  stalled_tr :
      (limit now started : ℕ) (tr : TransportRuntime)
      → tr.probe_started_at ≡ some started
      → started + limit < now
      → in_time latest limit now tr ≡ false
  stalled_tr limit now started tr h late = rw h (ground arith)

  stuck-unhealthy :
      (usec limit : ℕ) (r : Round)
      → limit ≤ usec * 1000
      → IsStuck usec r
      → watchdog_healthy latest limit r.initialized r.locked r.now ≡ false
  unfolding watchdog_healthy
  stuck-unhealthy usec limit r le (inl held) = elim (Bool-cases r.initialized) [
    | inl e ↦ rw (e, held) refl
    | inr e ↦ rw e refl
  ]
  stuck-unhealthy usec limit r le (inr (inl starting)) = rw starting refl
  stuck-unhealthy usec limit r le (inr (inr (state, worker, started, read, m, began, late))) =
      elim (Bool-cases r.initialized) [
        | inl e ↦
            rw (e, read)
              (all-In (in_time latest limit r.now) worker (all_transports state) m
                (stalled_tr limit r.now started worker began (omega arith)))
        | inr e ↦ rw e refl
      ]

  no_heartbeat :
      (usec interval : ℕ) (rs : List Round) (w : W)
      → stall_limit_of interval ≤ usec * 1000
      → All (IsStuck usec) rs
      → heartbeat latest notify interval rs w ≡ w
  unfolding heartbeat
  no_heartbeat usec interval [] w le h = refl
  no_heartbeat usec interval (r ∷ rs) w le h = elim (Bool-cases r.stopped) [
    | inl e ↦ rw (e, if◌then◌else◌) refl
    | inr e ↦
        rw (e, if◌then◌else◌, stuck-unhealthy usec (stall_limit_of interval) r le h.0)
          (no_heartbeat usec interval rs w le h.1)
  ]

  usec_of :
      (s : Text) (interval usec : ℕ)
      → parse_unsigned (2 ^ 63 - 1) s ≡ some usec
      → parse_watchdog_usec (some s) ≡ some interval
      → interval ≡ usec * 500
  unfolding parse_watchdog_usec
  usec_of s interval usec named h = elim (Bool-cases (is_empty s)) [
    | inl e ↦ absurd (cc (rw (e, if◌then◌else◌) at h))
    | inr e ↦ half_of_cases usec interval (rw (e, if◌then◌else◌, named) at h)
  ]

  -- Where `WATCHDOG_USEC` names a number of microseconds, no heartbeat is sent in rounds that find the
  -- state lock held, the engine not running, or the probe of a transport under way for longer than
  -- that number.
  pub heartbeat-IsStuck :
      (s : Text) (usec interval : ℕ) (rs : List Round) (w : W)
      → parse_unsigned (2 ^ 63 - 1) s ≡ some usec
      → parse_watchdog_usec (some s) ≡ some interval
      → All (IsStuck usec) rs
      → heartbeat latest notify interval rs w ≡ w
  heartbeat-IsStuck s usec interval rs w named h stuck =
      let half = usec_of s interval usec named h in
      let le = stall_limit_le interval in no_heartbeat usec interval rs w (omega arith) stuck
