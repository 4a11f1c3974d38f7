-- ===== src/Engine/Health/Runs.antt =====
-- Hysteresis of `Engine::probe_once`: how many probe results in a row change a transport's state.
use nixnet_corbet_ch.Base.{
  ℕ, suc, ◌≡◌, ◌≢◌, ◌↔◌, Bool, true, false, List, [], ◌∷◌, arith, ◌⊎◌, inl, inr, length, All, ap,
  sym, ◌∙◌, subst, if◌then◌else◌,
}
use nixnet_corbet_ch.Base.Int.{ℤ, pos, ◌+ℤ◌, ◌≤ℤ◌, ◌<ℤ◌, +ℤ_parts}
use nixnet_corbet_ch.Base.Text.{is_empty}
use nixnet_corbet_ch.Probe.{ProbeResult}
use nixnet_corbet_ch.Engine.{TransportRuntime, up, down}
use nixnet_corbet_ch.Engine.Health.{
  threshold, up_threshold_of, down_threshold_of, observe, observe_all,
}
use nixnet_corbet_ch.Engine.Health.Counters.{IsCounted, observe-IsCounted, count_up_next}
use nixnet_corbet_ch.Engine.Health.{next_address}

-- Whether each of the ticks brought a healthy (or each an unhealthy) result.
abbrev pub AllHealthy : Bool → List (ProbeResult × ℤ) → Type 0
AllHealthy h = All (λ t. t.0.healthy ≡ h)

healthy_step :
    (res : ProbeResult) (at : ℤ) (tr : TransportRuntime)
    → IsCounted tr
    → tr.state ≢ up
    → res.healthy ≡ true
    → let next = observe res at tr in
      ((tr.consecutive_success +ℤ pos 1 <ℤ up_threshold_of tr)
        × (next.state ≡ tr.state)
        × (next.consecutive_success ≡ tr.consecutive_success +ℤ pos 1))
      ⊎ ((up_threshold_of tr ≤ℤ tr.consecutive_success +ℤ pos 1) × (next.state ≡ up))
unfolding observe
healthy_step res at tr v n h =
    let full =
      count_up_next tr.consecutive_success (up_threshold_of tr) v.success_low (v.not_up n)
        v.up_limit in
    rw (h, observe) (ground (arith, full))

unhealthy_step :
    (res : ProbeResult) (at : ℤ) (tr : TransportRuntime)
    → IsCounted tr
    → tr.state ≢ down
    → res.healthy ≡ false
    → let next = observe res at tr in
      ((tr.consecutive_failure +ℤ pos 1 <ℤ down_threshold_of tr)
        × (next.state ≡ tr.state)
        × (next.consecutive_failure ≡ tr.consecutive_failure +ℤ pos 1))
      ⊎ ((down_threshold_of tr ≤ℤ tr.consecutive_failure +ℤ pos 1) × (next.state ≡ down))
unfolding observe
unhealthy_step res at tr v n h =
    let full =
      count_up_next tr.consecutive_failure (down_threshold_of tr) v.failure_low (v.not_down n)
        v.down_limit in
    rw (h, observe) (ground (arith, full))

observe-spec :
    (res : ProbeResult) (at : ℤ) (tr : TransportRuntime) → (observe res at tr).spec ≡ tr.spec
unfolding observe
observe-spec res at tr = ground arith

pub observe-stays_up :
    (res : ProbeResult) (at : ℤ) (tr : TransportRuntime)
    → tr.state ≡ up
    → res.healthy ≡ true
    → (observe res at tr).state ≡ up
unfolding observe
observe-stays_up res at tr u h = ground arith

observe-stays_down :
    (res : ProbeResult) (at : ℤ) (tr : TransportRuntime)
    → tr.state ≡ down
    → res.healthy ≡ false
    → (observe res at tr).state ≡ down
unfolding observe
observe-stays_down res at tr u h = ground arith

pub stays_up :
    (ticks : List (ProbeResult × ℤ)) (tr : TransportRuntime)
    → tr.state ≡ up
    → AllHealthy true ticks
    → (observe_all ticks tr).state ≡ up
unfolding observe_all
stays_up [] tr u h = u
stays_up ((res, at) ∷ ticks) tr u h =
    stays_up ticks (observe res at tr) (observe-stays_up res at tr u h.0) h.1

stays_down :
    (ticks : List (ProbeResult × ℤ)) (tr : TransportRuntime)
    → tr.state ≡ down
    → AllHealthy false ticks
    → (observe_all ticks tr).state ≡ down
unfolding observe_all
stays_down [] tr u h = u
stays_down ((res, at) ∷ ticks) tr u h =
    stays_down ticks (observe res at tr) (observe-stays_down res at tr u h.0) h.1

-- A run's length, one tick on.
sum_next :
    (limit n next : ℤ) (k : ℕ)
    → next ≡ n +ℤ pos 1
    → (limit ≤ℤ next +ℤ pos k) ↔ (limit ≤ℤ n +ℤ pos (suc k))
sum_next limit n next k e = rw e (λ h. omega (arith, h, +ℤ_parts), λ h. omega (arith, h, +ℤ_parts))

-- A transport that is not up, in a run of healthy results, is up exactly when the successes it
-- had counted and those of the run together reach its up threshold: never earlier, never later.
pub healthy_run :
    (ticks : List (ProbeResult × ℤ)) (tr : TransportRuntime)
    → IsCounted tr
    → tr.state ≢ up
    → AllHealthy true ticks
    → ((observe_all ticks tr).state ≡ up)
      ↔ (up_threshold_of tr ≤ℤ tr.consecutive_success +ℤ pos (length ticks))
unfolding observe_all
healthy_run [] tr v n h =
    (λ u. absurd (n u), λ le. absurd (omega (arith, le, v.not_up n, +ℤ_parts)))
healthy_run ((res, at) ∷ ticks) tr v n h = elim (healthy_step res at tr v n h.0) [
  | inl (short, same, counted) ↦
      let next = observe res at tr in
      let limits = ap (λ s. threshold s.probe.up_threshold (pos 2)) (observe-spec res at tr) in
      let ih = healthy_run ticks next (observe-IsCounted res at tr v) (λ u. n (sym same ∙ u)) h.1 in
      let sums =
        sum_next (up_threshold_of tr) tr.consecutive_success next.consecutive_success (length ticks)
          counted in
      (
        λ u.
            sums.0
              (subst (λ l. l ≤ℤ next.consecutive_success +ℤ pos (length ticks)) limits (ih.0 u)),
        λ le. ih.1 (
            subst (λ l. l ≤ℤ next.consecutive_success +ℤ pos (length ticks)) (sym limits)
              (sums.1 le)),
      )
  | inr (enough, is_up) ↦
      (λ _. omega (arith, enough, +ℤ_parts), λ _. stays_up ticks (observe res at tr) is_up h.1)
]

-- A transport that is not down, in a run of failures, is down exactly when the failures it had
-- counted and those of the run together reach its down threshold: never earlier, never later.
pub unhealthy_run :
    (ticks : List (ProbeResult × ℤ)) (tr : TransportRuntime)
    → IsCounted tr
    → tr.state ≢ down
    → AllHealthy false ticks
    → ((observe_all ticks tr).state ≡ down)
      ↔ (down_threshold_of tr ≤ℤ tr.consecutive_failure +ℤ pos (length ticks))
unfolding observe_all
unhealthy_run [] tr v n h =
    (λ u. absurd (n u), λ le. absurd (omega (arith, le, v.not_down n, +ℤ_parts)))
unhealthy_run ((res, at) ∷ ticks) tr v n h = elim (unhealthy_step res at tr v n h.0) [
  | inl (short, same, counted) ↦
      let next = observe res at tr in
      let limits = ap (λ s. threshold s.probe.down_threshold (pos 3)) (observe-spec res at tr) in
      let ih =
        unhealthy_run ticks next (observe-IsCounted res at tr v) (λ u. n (sym same ∙ u)) h.1 in
      let sums =
        sum_next (down_threshold_of tr) tr.consecutive_failure next.consecutive_failure
          (length ticks) counted in
      (
        λ u.
            sums.0
              (subst (λ l. l ≤ℤ next.consecutive_failure +ℤ pos (length ticks)) limits (ih.0 u)),
        λ le. ih.1 (
            subst (λ l. l ≤ℤ next.consecutive_failure +ℤ pos (length ticks)) (sym limits)
              (sums.1 le)),
      )
  | inr (enough, is_down) ↦
      (λ _. omega (arith, enough, +ℤ_parts), λ _. stays_down ticks (observe res at tr) is_down h.1)
]

-- A failed probe never commits an address: it leaves a transport's effective address as it was, or
-- gives it the configured one where there was none; nor does it refresh the last success.
pub observe_failure_address :
    (res : ProbeResult) (at : ℤ) (tr : TransportRuntime)
    → res.healthy ≡ false
    → ((observe res at tr).current_address
        ≡ (if is_empty tr.current_address then tr.spec.address else tr.current_address))
      × ((observe res at tr).last_success_at ≡ tr.last_success_at)
unfolding observe next_address
observe_failure_address res at tr h = ground arith
