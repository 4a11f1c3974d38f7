-- ===== src/Engine/Worker/Handed.antt =====
-- What a worker of src/engine/mod.rs holds while it publishes.
use nixnet_corbet_ch.Base.{
  ℕ, ◌≡◌, refl, sym, ap, ◌∙◌, subst, inl, inr, false, List, Option, some, All, some_inj,
  Option-cases, ◌>>=◌,
}
use nixnet_corbet_ch.Base.Int.{ℤ}
use nixnet_corbet_ch.Base.Text.{Text}
use nixnet_corbet_ch.Engine.{GroupKind, Action, nothing, publish_peers, publish_uplink}
use nixnet_corbet_ch.Engine.Status.{EngineState}
use nixnet_corbet_ch.Engine.Decide.{decide_action}
use nixnet_corbet_ch.Engine.Groups.{AllGroups, group}
use nixnet_corbet_ch.Engine.New.{new}
use nixnet_corbet_ch.Engine.Reconcile.{Publishers, Decision, decide, decided, entries_for}
use nixnet_corbet_ch.Engine.Worker.{
  Key, System, Stage, waiting, probing, reconciling, publishing, saving, finishing, Step, Reach,
  start, later, first_system, update,
}
use nixnet_corbet_ch.Engine.Worker.Stable.{reach-AllGroups, decide-AllGroups}
use nixnet_corbet_ch.Engine.Worker.Locking.{is_publishing, update_cases}
use nixnet_corbet_ch.Engine.Worker.Literal.{
  IsClean, IsClean-IsStable, NamesLiteral, peer_entries-NamesLiteral,
}

entries_for-NamesLiteral :
    (format : ℤ → Option Text) (a : Action) (s : EngineState)
    → AllGroups IsClean s
    → All NamesLiteral (entries_for format a s)
unfolding entries_for
entries_for-NamesLiteral format nothing s h = tt
entries_for-NamesLiteral format (publish_peers passive) s h = peer_entries-NamesLiteral format s h
entries_for-NamesLiteral format (publish_uplink ranked base step) s h = tt

decide-entries :
    (format : ℤ → Option Text) (s s' : EngineState) (kind : GroupKind) (name : Text) (now : ℤ)
    (d : Decision)
    → decide format s kind name now ≡ some (s', d)
    → d.entries ≡ entries_for format d.action s'
unfolding decide decided
decide-entries format s s' kind name now d e = elim (Option-cases (group s kind name)) [
  | inl missing ↦ absurd (cc (rw missing at e))
  | inr (g, there_g) ↦ elim (Option-cases (decide_action g now)) [
    | inl panic ↦ absurd (cc (rw (there_g, ◌>>=◌, panic) at e))
    | inr (r, done) ↦
        subst (λ (q : EngineState × Decision). q.1.entries ≡ entries_for format q.1.action q.0)
          (some_inj (rw (there_g, ◌>>=◌, done) at e)) refl
  ]
]

-- Every worker that publishes holds entries that name IP literals.
abbrev HoldLiterals : {W : Type 0} → System W → Type 0
HoldLiterals s =
    (j next : ℕ) (d : Decision) → s.stage j ≡ publishing next d → All NamesLiteral d.entries

module _ {W : Type 0} (format : ℤ → Option Text) (quoted : Text → Text) (self : Publishers W)
    (keys : List Key) where
  -- A worker that moves to a stage which is no publication.
  moved-HoldLiterals :
      (i : ℕ) (s : System W) (v : Stage)
      → is_publishing v ≡ false
      → HoldLiterals s
      → (j next : ℕ) (d : Decision) → update s.stage i v j ≡ publishing next d
      → All NamesLiteral d.entries
  moved-HoldLiterals i s v quiet h j next d e = elim (update_cases s.stage i v j) [
    | inl (_, new) ↦ absurd (cc (quiet, ap is_publishing (sym new ∙ e)))
    | inr (_, old) ↦ h j next d (sym old ∙ e)
  ]

  held_by : Decision → Stage → Decision
  held_by d (publishing next d') = d'
  held_by d (waiting next) = d
  held_by d (probing next) = d
  held_by d (reconciling next) = d
  held_by d (saving next) = d
  held_by d (finishing next) = d

  step-HoldLiterals :
      (i : ℕ) {s t : System W}
      → Step format quoted self keys i s t
      → AllGroups IsClean s.state
      → HoldLiterals s
      → HoldLiterals t
  unfolding held_by
  step-HoldLiterals i {s} (Step.begin k next now state _ _ _ _) clean h =
      moved-HoldLiterals i s (probing next) refl h
  step-HoldLiterals i {s} (Step.observe k next res now state _ _ _) clean h =
      moved-HoldLiterals i s (reconciling next) refl h
  step-HoldLiterals i {s} (Step.decide_under_lock k next now state d _ _ _ done) clean h =
      λ j next' d' e. elim (update_cases s.stage i (publishing next d) j) [
        | inl (_, new) ↦
            subst (λ x. All NamesLiteral x.entries) (ap (held_by d) (sym new ∙ e))
              (subst (All NamesLiteral)
                (sym (decide-entries format s.state state k.kind k.name now d done))
                (entries_for-NamesLiteral format d.action state (
                  decide-AllGroups format quoted self keys IsClean (IsClean-IsStable quoted) s.state
                    state k.kind k.name now d clean done)))
        | inr (_, old) ↦ h j next' d' (sym old ∙ e)
      ]
  step-HoldLiterals i {s} (Step.publish k next d changed state w _ _ _) clean h =
      moved-HoldLiterals i s (saving next) refl h
  step-HoldLiterals i {s} (Step.save k next due snapshot _ _ _) clean h =
      moved-HoldLiterals i s (finishing next) refl h
  step-HoldLiterals i {s} (Step.finish k next interval now state _ _ _ _) clean h =
      moved-HoldLiterals i s (waiting _) refl h

  pub reach-HoldLiterals :
      {first s : System W}
      → AllGroups IsClean first.state
      → HoldLiterals first
      → Reach format quoted self keys first s
      → HoldLiterals s
  reach-HoldLiterals clean h start = h
  reach-HoldLiterals clean h (later i r step) =
      step-HoldLiterals i step
        (reach-AllGroups format quoted self keys IsClean (IsClean-IsStable quoted) clean r)
        (reach-HoldLiterals clean h r)

  pub first_system-HoldLiterals :
      (w : W) (s : EngineState) (now : ℕ) → HoldLiterals (first_system format self w s now)
  unfolding first_system
  first_system-HoldLiterals w s now j next d e = cc
