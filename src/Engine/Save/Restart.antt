-- ===== src/Engine/Save/Restart.antt =====
-- A start behind a checkpoint of src/engine/state.rs finds the groups as they were.
use nixnet_corbet_ch.Base.{
  ℕ, ◌≡◌, refl, sym, ◌∙◌, ap, subst, inl, inr, Bool, true, false, List, [], ◌∷◌, ◌++◌, Option, none,
  some, map, Result, ok, err, All, Option-cases, if◌then◌else◌, some_inj,
}
use nixnet_corbet_ch.Base.Int.{ℤ}
use nixnet_corbet_ch.Base.Text.{Text, codes, text_eq, text_eq_refl}
use nixnet_corbet_ch.Base.Str.{newline}
use nixnet_corbet_ch.Atomic.{Files, write_no_chmod}
use nixnet_corbet_ch.Atomic.Whole.{IsFileSystem, write_impl-IsWhole}
use nixnet_corbet_ch.Engine.{Group, IsValid}
use nixnet_corbet_ch.Engine.Status.{EngineState}
use nixnet_corbet_ch.Engine.Persist.{
  PersistedGroup, restore_group, restore, restore_found, find_group,
}
use nixnet_corbet_ch.Engine.Persist.Valid.{IsPublishable}
use nixnet_corbet_ch.Engine.Persist.RoundTrip.{
  cold_group, forget_group, HasKeys, IsDeclared, restore_group-dump_group,
}
use nixnet_corbet_ch.Engine.New.{PersistedState, load_state}
use nixnet_corbet_ch.Engine.Save.{
  Place, Written, dump, persisted, marked, with_newline, was_written, serialized_state,
  write_state_data, write_data, save_state,
}

-- What a restore of one group asks of it.
pub record IsRestorable (now : ℤ) (named : Text × Group) : Type 0 where
  pub valid : IsValid named.1
  pub keys : HasKeys named.1.transports
  pub declared : All IsDeclared named.1.transports
  pub publishable : IsPublishable now named.1

-- No two groups of a name.
abbrev pub AreDistinct : List (Text × Group) → Type 0
AreDistinct [] = Unit
AreDistinct ((name, g) ∷ gs) =
    All (λ (named : Text × Group). text_eq name named.0 ≡ false) gs × AreDistinct gs

abbrev pub on_groups : (Group → Group) → EngineState → EngineState
on_groups f state = record {
  peers = map (λ (name, g). (name, f g)) state.peers;
  uplinks = map (λ (name, g). (name, f g)) state.uplinks;
  last_hosts_error = [];
}

module _ (now : ℤ) where
  abbrev IsFound : List (Text × PersistedGroup) → Text × Group → Type 0
  IsFound saved (name, g) =
      (pg : PersistedGroup) × (find_group name saved ≡ some pg)
      × (restore_group pg now (cold_group g) ≡ forget_group g)

  under_its_name :
      (name : Text) (pg : PersistedGroup) (saved : List (Text × PersistedGroup))
      → find_group name ((name, pg) ∷ saved) ≡ some pg
  unfolding find_group
  under_its_name name pg saved = rw (text_eq_refl name) refl

  under_another :
      (name : Text) (pg : PersistedGroup) (saved : List (Text × PersistedGroup))
      (gs : List (Text × Group))
      → All (λ (named : Text × Group). text_eq name named.0 ≡ false) gs
      → All (IsFound saved) gs
      → All (IsFound ((name, pg) ∷ saved)) gs
  unfolding find_group
  under_another name pg saved [] other h = tt
  under_another name pg saved ((n, g) ∷ gs) other h =
      let (qg, at, back) = h.0 in
      ((qg, rw (other.0, if◌then◌else◌) at, back), under_another name pg saved gs other.1 h.1)

  dump-IsFound :
      (gs : List (Text × Group))
      → All (IsRestorable now) gs
      → AreDistinct gs
      → (saved : List (Text × PersistedGroup)) × (dump gs ≡ some saved) × All (IsFound saved) gs
  unfolding dump
  dump-IsFound [] h distinct = ([], refl, tt)
  dump-IsFound ((name, g) ∷ gs) h distinct =
      let (pg, one, back) =
        restore_group-dump_group g now h.0.valid h.0.keys h.0.declared h.0.publishable in
      let (saved, others, found) = dump-IsFound gs h.1 distinct.1 in
      (
        (name, pg) ∷ saved,
        rw (one, others) refl,
        ((pg, under_its_name name pg saved, back), under_another name pg saved gs distinct.0 found),
      )

  restore-IsFound :
      (saved : List (Text × PersistedGroup)) (gs : List (Text × Group))
      → All (IsFound saved) gs
      → restore saved now (map (λ (name, g). (name, cold_group g)) gs)
        ≡ map (λ (name, g). (name, forget_group g)) gs
  unfolding restore restore_found
  restore-IsFound saved [] h = refl
  restore-IsFound saved ((name, g) ∷ gs) h =
      let (pg, at, back) = h.0 in
      rw at (
        rw back (
          ap (λ (l : List (Text × Group)). (name, forget_group g) ∷ l)
            (restore-IsFound saved gs h.1)))

module _ {W T : Type 0} (files : Files W T) (to_vec_pretty : PersistedState → Option (List ℕ))
    (from_slice : Text → Result Text PersistedState) (read : W → Result Text Text) (at : Place)
    (content : W → Option (List ℕ)) (staged : W → T → Option (List ℕ))
    (laws : IsFileSystem files at.path content staged)
    (read_back : (w : W) (d : List ℕ) → content w ≡ some d → read w ≡ ok d) where
  was_written-true :
      (r : Result Text (Unit {0}) × W) (w' : W)
      → was_written r ≡ (true, w')
      → (r.0 ≡ ok tt) × (r.1 ≡ w')
  unfolding was_written
  was_written-true (ok done, w) w' h = (refl, ap (λ (q : Bool × W). q.1) h)
  was_written-true (err e, w) w' h = absurd (cc (ap (λ (q : Bool × W). q.0) h))

  marked-true :
      (finished : ℕ) (last last' : Option ℕ) (r : Bool × W) (w' : W)
      → marked finished last r ≡ (true, last', w')
      → r ≡ (true, w')
  unfolding marked
  marked-true finished last last' (true, w) w' h = ap (λ (q : Written W). (true, q.2)) h
  marked-true finished last last' (false, w) w' h = absurd (cc (ap (λ (q : Written W). q.0) h))

  write_data-content :
      (o : Option (List ℕ)) (w w' : W)
      → write_data files to_vec_pretty at o w ≡ (true, w')
      → (d : List ℕ) × (o ≡ some d) × (content w' ≡ some d)
  unfolding write_data write_state_data
  write_data-content none w w' h = absurd (cc (ap (λ (q : Bool × W). q.0) h))
  write_data-content (some d) w w' h =
      let r = write_no_chmod files w at.dir at.path d (codes ".state.json.tmp-") in
      let (good, there') = was_written-true r w' h in
      (
        d,
        refl,
        subst (λ v. content v ≡ some d) there'
            ((write_impl-IsWhole files at.path content staged laws w at.dir
                (codes ".state.json.tmp-") d none).1
              good),
      )

  -- A checkpoint that was written is the text of the state.
  save_state-content :
      (checked finished : ℕ) (last last' : Option ℕ) (state : EngineState) (w w' : W)
      → save_state files to_vec_pretty at true checked finished last state w
        ≡ some (true, last', w')
      → (ps : PersistedState) × (d : List ℕ) × (persisted state ≡ some ps)
        × (to_vec_pretty ps ≡ some d)
        × (content w' ≡ some (d ++ newline ∷ []))
  unfolding save_state serialized_state with_newline
  save_state-content checked finished last last' state w w' h =
      elim (Option-cases (persisted state)) [
        | inl panic ↦ absurd (cc (rw panic at h))
        | inr (ps, dumped) ↦
            let (d', made, there') =
              write_data-content (with_newline (to_vec_pretty ps)) w w'
                (marked-true finished last last' _ w' (some_inj (rw dumped at h))) in
            elim (Option-cases (to_vec_pretty ps)) [
              | inl absent ↦ absurd (cc (rw absent at made))
              | inr (d, text) ↦
                  (ps, d, dumped, text, there' ∙ ap some (sym (some_inj (rw text at made))))
            ]
      ]

  -- On a file system whose calls do as documented, with a JSON text of the state that reads as
  -- what it was made of: where a forced checkpoint was written, a start that loads it finds every group as it was, but
  -- for the details of the last probes, the progress marks and the publish errors. The names of the
  -- groups are distinct, as are the keys in a group; a winner pointer is in range, an effective
  -- address equals the configured one where that is set, and what is published has a winner and is
  -- within its age bound at the time of the start.
  pub save_state-load_state :
      (checked finished : ℕ) (last last' : Option ℕ) (state : EngineState) (w w' : W) (now : ℤ)
      → All (IsRestorable now) state.peers
      → All (IsRestorable now) state.uplinks
      → AreDistinct state.peers
      → AreDistinct state.uplinks
      → ((ps : PersistedState) (d : List ℕ)
          → persisted state ≡ some ps
          → to_vec_pretty ps ≡ some d
          → from_slice (d ++ newline ∷ []) ≡ ok ps)
      → save_state files to_vec_pretty at true checked finished last state w
        ≡ some (true, last', w')
      → load_state from_slice (read w') now (on_groups cold_group state)
        ≡ on_groups forget_group state
  unfolding load_state persisted
  save_state-load_state checked finished last last' state w w' now peers uplinks dp du parse_back
        h =
      let (ps, d, dumped, text, there') =
        save_state-content checked finished last last' state w w' h in
      let (saved_peers, sp, found_peers) = dump-IsFound now state.peers peers dp in
      let (saved_uplinks, su, found_uplinks) = dump-IsFound now state.uplinks uplinks du in
      let same : record { peers = saved_peers; uplinks = saved_uplinks } ≡ ps =
        some_inj (rw (sp, su) at dumped) in
      rw (read_back w' (d ++ newline ∷ []) there', load_state, parse_back ps d dumped text)
        (subst
          (λ (q : PersistedState).
            record (on_groups cold_group state) {
              peers = restore q.peers now (on_groups cold_group state).peers;
              uplinks = restore q.uplinks now (on_groups cold_group state).uplinks;
            }
            ≡ on_groups forget_group state)
          same
          (rw
            (
              restore-IsFound now saved_peers state.peers found_peers,
              restore-IsFound now saved_uplinks state.uplinks found_uplinks,
            )
            refl))
