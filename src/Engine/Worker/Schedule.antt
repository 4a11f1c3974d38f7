-- ===== src/Engine/Worker/Schedule.antt =====
-- The cadence of `Engine::run_transport` (src/engine/mod.rs) over the ends of a worker's probes.
use nixnet_corbet_ch.Base.{ℕ, suc, ◌+◌, ◌*◌, ◌≤◌, ◌≡◌, ap, ◌∙◌, List, [], ◌∷◌, length, All, arith}
use nixnet_corbet_ch.Engine.Worker.{next_due}

-- The instant the next probe is due at, after probes that ended at the given instants.
unfoldable pub due_after : ℕ → ℕ → List ℕ → ℕ
due_after interval next [] = next
due_after interval next (ended ∷ later) = due_after interval (next_due next interval ended) later

-- Each probe ends before the next one is due.
abbrev pub OnTime : ℕ → ℕ → List ℕ → Type 0
OnTime interval next [] = Unit {0}
OnTime interval next (ended ∷ later) =
    (ended ≤ next + interval) × OnTime interval (next + interval) later

next_due-OnTime :
    (next interval now : ℕ) → now ≤ next + interval → next_due next interval now ≡ next + interval
unfolding next_due
next_due-OnTime next interval now h = ground arith

next_due-le :
    (next interval now : ℕ)
    → (now ≤ next_due next interval now) × (next + interval ≤ next_due next interval now)
unfolding next_due
next_due-le next interval now = ground arith

suc_mul : (n i : ℕ) → suc n * i ≡ i + n * i
suc_mul n i = grind arith

next_le_sum : (n m : ℕ) → n ≤ n + m
next_le_sum n m = omega arith

due_after-OnTime :
    (interval next : ℕ) (ends : List ℕ)
    → OnTime interval next ends
    → due_after interval next ends ≡ next + length ends * interval
unfolding due_after
due_after-OnTime interval next [] h = omega arith
due_after-OnTime interval next (ended ∷ later) (first, h) =
    ap (λ n. due_after interval n later) (next_due-OnTime next interval ended first)
    ∙ due_after-OnTime interval (next + interval) later h
    ∙ grind arith

due_after-le :
    (interval next : ℕ) (ends : List ℕ)
    → (next + length ends * interval ≤ due_after interval next ends)
      × All (λ ended. ended ≤ due_after interval next ends) ends
unfolding due_after
due_after-le interval next [] = (omega arith, tt)
due_after-le interval next (ended ∷ later) =
    let (sum, ends) = due_after-le interval (next_due next interval ended) later in
    let (a, b) = next_due-le next interval ended in
    (
      omega (arith, sum, b, suc_mul (length later) interval),
      (
        omega (arith, a, sum, next_le_sum (next_due next interval ended) (length later * interval)),
        ends,
      ),
    )

-- A worker's probes are due on a fixed grid: where each ends in time, the one after them is due one
-- interval per probe behind the first. A slow one moves the grid back, never forward, and what is
-- due next never lies before the end of a probe, so that no missed probe is made up for.
pub due_after_cadence :
    (interval next : ℕ) (ends : List ℕ)
    → (OnTime interval next ends → due_after interval next ends ≡ next + length ends * interval)
      × (next + length ends * interval ≤ due_after interval next ends)
      × All (λ ended. ended ≤ due_after interval next ends) ends
due_after_cadence interval next ends =
    let (sum, late) = due_after-le interval next ends in
    (due_after-OnTime interval next ends, sum, late)
