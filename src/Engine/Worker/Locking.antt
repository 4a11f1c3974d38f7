-- ===== src/Engine/Worker/Locking.antt =====
-- `io_lock` in every interleaving of the workers of src/engine/mod.rs: who holds it, and for what.
use nixnet_corbet_ch.Base.{
  ℕ, ◌≡◌, ◌≢◌, refl, sym, ap, ◌∙◌, ◌⊎◌, ◌↔◌, inl, inr, Bool, true, false, List, Option, none, some,
  ◌==◌, ==_iff, Bool-cases, if◌then◌else◌, some_inj,
}
use nixnet_corbet_ch.Base.Int.{ℤ}
use nixnet_corbet_ch.Base.Text.{Text}
use nixnet_corbet_ch.Engine.Reconcile.{Publishers}
use nixnet_corbet_ch.Engine.Worker.{
  Key, Stage, waiting, probing, reconciling, publishing, saving, finishing, System, Step, Reach,
  start, later, update,
}

abbrev pub is_publishing : Stage → Bool
is_publishing (publishing next d) = true
is_publishing (waiting next) = false
is_publishing (probing next) = false
is_publishing (reconciling next) = false
is_publishing (saving next) = false
is_publishing (finishing next) = false

-- The workers that publish are the holder of the lock, and no other.
abbrev pub IsLocked : {W : Type 0} → System W → Type 0
IsLocked s = (j : ℕ) → (is_publishing (s.stage j) ≡ true) ↔ (s.io_lock ≡ some j)

pub update-same : {A : Type 0} (f : ℕ → A) (i : ℕ) (v : A) → update f i v i ≡ v
update-same f i v = rw ((==_iff i i).1 refl, if◌then◌else◌)

pub update_cases :
    {A : Type 0} (f : ℕ → A) (i : ℕ) (v : A) (j : ℕ)
    → ((j ≡ i) × (update f i v j ≡ v)) ⊎ ((j ≢ i) × (update f i v j ≡ f j))
update_cases f i v j = elim (Bool-cases (j == i)) [
  | inl e ↦ inl ((==_iff j i).0 e, rw (e, if◌then◌else◌))
  | inr e ↦ inr (λ same. cc (e, (==_iff j i).1 same), rw (e, if◌then◌else◌))
]

-- A worker that does not publish before or after its step leaves the lock as it is.
quiet-IsLocked :
    {W : Type 0} (i : ℕ) (s : System W) (v : Stage)
    → is_publishing (s.stage i) ≡ false
    → is_publishing v ≡ false
    → IsLocked s
    → (j : ℕ) → (is_publishing (update s.stage i v j) ≡ true) ↔ (s.io_lock ≡ some j)
quiet-IsLocked i s v before after h j = elim (update_cases s.stage i v j) [
  | inl (same, e) ↦
      (λ p. cc (ap is_publishing e, p, after), λ held. cc ((h j).1 held, before, ap s.stage same))
  | inr (other, e) ↦
      (λ p. (h j).0 (sym (ap is_publishing e) ∙ p), λ held. ap is_publishing e ∙ (h j).1 held)
]

module _ {W : Type 0} (format : ℤ → Option Text) (quoted : Text → Text) (self : Publishers W)
    (keys : List Key) where
  step-IsLocked :
      (i : ℕ) {s t : System W} → Step format quoted self keys i s t → IsLocked s → IsLocked t
  step-IsLocked i {s} (Step.begin k next now state _ at _ _) h =
      quiet-IsLocked i s (probing next) (ap is_publishing at) refl h
  step-IsLocked i {s} (Step.observe k next res now state _ at _) h =
      quiet-IsLocked i s (reconciling next) (ap is_publishing at) refl h
  step-IsLocked i {s} (Step.decide_under_lock k next now state d _ at free _) h = λ j.
      elim (update_cases s.stage i (publishing next d) j) [
        | inl (same, e) ↦ (λ p. ap some (sym same), λ held. ap is_publishing e)
        | inr (other, e) ↦ (
          λ p. cc ((h j).0 (sym (ap is_publishing e) ∙ p), free),
          λ held. absurd (other (sym (some_inj held))),
        )
      ]
  step-IsLocked i {s} (Step.publish k next d changed state w _ at _) h =
      let mine = (h i).0 (ap is_publishing at) in
      λ j. elim (update_cases s.stage i (saving next) j) [
        | inl (same, e) ↦ (λ p. cc (ap is_publishing e, p), λ held. cc)
        | inr (other, e) ↦ (
          λ p. absurd (other (some_inj (sym ((h j).0 (sym (ap is_publishing e) ∙ p)) ∙ mine))),
          λ held. cc,
        )
      ]
  step-IsLocked i {s} (Step.save k next due snapshot _ at _) h =
      quiet-IsLocked i s (finishing next) (ap is_publishing at) refl h
  step-IsLocked i {s} (Step.finish k next interval now state _ at _ _) h =
      quiet-IsLocked i s (waiting _) (ap is_publishing at) refl h

  pub reach-IsLocked :
      {first s : System W} → IsLocked first → Reach format quoted self keys first s → IsLocked s
  reach-IsLocked h start = h
  reach-IsLocked h (later i r step) = step-IsLocked i step (reach-IsLocked h r)

  -- Workers that publish at the same time are one: no two writes of the hosts file or of the routing
  -- table overlap, in any interleaving of workers that start with the lock free and none publishing.
  pub reach_one_publishes :
      (first s : System W) (i j : ℕ)
      → first.io_lock ≡ none
      → ((n : ℕ) → is_publishing (first.stage n) ≡ false)
      → Reach format quoted self keys first s
      → is_publishing (s.stage i) ≡ true
      → is_publishing (s.stage j) ≡ true
      → i ≡ j
  reach_one_publishes first s i j free quiet r pi pj =
      let h = reach-IsLocked (λ n. (λ p. cc (p, quiet n), λ held. cc (held, free))) r in
      some_inj (sym ((h i).0 pi) ∙ (h j).0 pj)
