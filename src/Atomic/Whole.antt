-- ===== src/Atomic/Whole.antt =====
-- A reader of a target of src/atomic.rs finds its old content or the whole new one.
use nixnet_corbet_ch.Base.{
  ℕ, ◌≡◌, ◌⊎◌, refl, sym, ap, ◌∙◌, inl, inr, List, [], ◌++◌, Option, none, some, Result, ok, err,
  ok_not_err,
}
use nixnet_corbet_ch.Base.Text.{Text}
use nixnet_corbet_ch.Atomic.{
  Files, or_discard, chmod, after_persist, write_tmp, with_tmp, write_impl,
}

-- What the calls are documented to do to one target and to an open temporary file: only a rename that
-- succeeds touches the target, which then holds what the file
-- held. A temporary file is empty when it is made, and a write goes behind what it holds.
pub record IsFileSystem {W T : Type 0} (files : Files W T) (target : Text)
    (content : W → Option (List ℕ)) (staged : W → T → Option (List ℕ)) : Type 0 where
  pub tempfile_keeps :
      (w : W) (dir prefix : Text) → content (files.tempfile_in w dir prefix).1 ≡ content w
  pub write_keeps : (w : W) (t : T) (d : List ℕ) → content (files.write_all w t d).1 ≡ content w
  pub tempfile_empty :
      (w : W) (dir prefix : Text) (t : T)
      → (files.tempfile_in w dir prefix).0 ≡ ok t
      → staged (files.tempfile_in w dir prefix).1 t ≡ some []
  pub appended :
      (w : W) (t : T) (before d : List ℕ)
      → staged w t ≡ some before
      → (files.write_all w t d).0 ≡ ok tt
      → staged (files.write_all w t d).1 t ≡ some (before ++ d)
  pub chmod_keeps :
      (w : W) (t : T) (m : ℕ)
      → (content (files.set_permissions w t m).1 ≡ content w)
        × (staged (files.set_permissions w t m).1 t ≡ staged w t)
  pub sync_keeps :
      (w : W) (t : T)
      → (content (files.sync_all w t).1 ≡ content w)
        × (staged (files.sync_all w t).1 t ≡ staged w t)
  pub renamed :
      (w : W) (t : T)
      → (files.persist w t target).0 ≡ ok tt
      → content (files.persist w t target).1 ≡ staged w t
  pub not_renamed :
      (w : W) (t : T) (e : Text)
      → (files.persist w t target).0 ≡ err e
      → content (files.persist w t target).1 ≡ content w
  pub sync_dir_keeps : (w : W) (dir : Text) → content (files.sync_dir w dir).1 ≡ content w
  pub discard_keeps : (w : W) (t : T) → content (files.discard w t) ≡ content w

module _ {W T : Type 0} (files : Files W T) (target : Text) (content : W → Option (List ℕ))
    (staged : W → T → Option (List ℕ)) (laws : IsFileSystem files target content staged) where
  -- The old content, and no success; or the new one.
  abbrev IsWhole : Option (List ℕ) → List ℕ → Result Text (Unit {0}) × W → Type 0
  IsWhole old d r = ((content r.1 ≡ old) × ((e : Text) × (r.0 ≡ err e))) ⊎ (content r.1 ≡ some d)

  or_discard-IsWhole :
      (old : Option (List ℕ)) (d : List ℕ) (tmp : T) (r : Result Text (Unit {0}) × W)
      (next : W → Result Text (Unit {0}) × W)
      → content r.1 ≡ old
      → (r.0 ≡ ok tt → IsWhole old d (next r.1))
      → IsWhole old d (or_discard files tmp r next)
  unfolding or_discard
  or_discard-IsWhole old d tmp (ok done, w) next same go = go refl
  or_discard-IsWhole old d tmp (err e, w) next same go =
      inl (laws.discard_keeps w tmp ∙ same, (e, refl))

  persist-IsWhole :
      (old : Option (List ℕ)) (d : List ℕ) (dir : Text) (tmp : T) (w : W)
      → content w ≡ old
      → staged w tmp ≡ some d
      → (r : Result Text (Unit {0}) × W) → (files.persist w tmp target ≡ r)
      → IsWhole old d (after_persist files dir r tmp)
  persist-IsWhole old d dir tmp w same ready (ok done, w') e = inr (
      laws.sync_dir_keeps w' dir
      ∙ sym (ap (λ (q : Result Text (Unit {0}) × W). content q.1) e)
      ∙ laws.renamed w tmp (ap (λ (q : Result Text (Unit {0}) × W). q.0) e)
      ∙ ready)
  persist-IsWhole old d dir tmp w same ready (err m, w') e = inl (
    laws.discard_keeps w' tmp
        ∙ sym (ap (λ (q : Result Text (Unit {0}) × W). content q.1) e)
        ∙ laws.not_renamed w tmp m (ap (λ (q : Result Text (Unit {0}) × W). q.0) e)
        ∙ same,
    (m, refl),
  )

  chmod_lem :
      (w : W) (tmp : T) (mode : Option ℕ)
      → (content (chmod files w tmp mode).1 ≡ content w)
        × (staged (chmod files w tmp mode).1 tmp ≡ staged w tmp)
  chmod_lem w tmp none = (refl, refl)
  chmod_lem w tmp (some m) = laws.chmod_keeps w tmp m

  write_tmp-IsWhole :
      (w : W) (dir : Text) (d : List ℕ) (mode : Option ℕ) (tmp : T)
      → staged w tmp ≡ some []
      → IsWhole (content w) d (write_tmp files dir target d mode tmp w)
  unfolding write_tmp
  write_tmp-IsWhole w dir d mode tmp empty =
      let r₁ = files.write_all w tmp d in
      let r₂ = chmod files r₁.1 tmp mode in
      let r₃ = files.sync_all r₂.1 tmp in
      let same₁ = laws.write_keeps w tmp d in
      let (keep₂, staged₂) = chmod_lem r₁.1 tmp mode in
      let (keep₃, staged₃) = laws.sync_keeps r₂.1 tmp in
      or_discard-IsWhole (content w) d tmp r₁ _ same₁ λ good₁.
        or_discard-IsWhole (content w) d tmp r₂ _ (keep₂ ∙ same₁) λ good₂.
          or_discard-IsWhole (content w) d tmp r₃ _ (keep₃ ∙ keep₂ ∙ same₁) λ good₃.
            persist-IsWhole (content w) d dir tmp r₃.1 (keep₃ ∙ keep₂ ∙ same₁)
              (staged₃ ∙ staged₂ ∙ laws.appended w tmp [] d empty good₁)
              (files.persist r₃.1 tmp target) refl

  with_tmp-IsWhole :
      (old : Option (List ℕ)) (dir : Text) (d : List ℕ) (mode : Option ℕ) (r : Result Text T × W)
      → content r.1 ≡ old
      → ((tmp : T) → r.0 ≡ ok tmp → staged r.1 tmp ≡ some [])
      → IsWhole old d (with_tmp files dir target d mode r)
  with_tmp-IsWhole old dir d mode (err e, w) same fresh = inl (same, (e, refl))
  with_tmp-IsWhole old dir d mode (ok tmp, w) same fresh =
      elim (write_tmp-IsWhole w dir d mode tmp (fresh tmp refl)) [
        | inl (kept, failed) ↦ inl (kept ∙ same, failed)
        | inr new ↦ inr new
      ]

  whole_cases :
      (old : Option (List ℕ)) (d : List ℕ) (r : Result Text (Unit {0}) × W)
      → IsWhole old d r
      → ((content r.1 ≡ old) ⊎ (content r.1 ≡ some d)) × (r.0 ≡ ok tt → content r.1 ≡ some d)
  whole_cases old d r (inl (kept, (e, failed))) =
      (inl kept, λ good. absurd (ok_not_err (sym good ∙ failed)))
  whole_cases old d r (inr new) = (inr new, λ good. new)

  -- On a file system whose calls do as documented, whichever of them fail, after a write the target
  -- holds what it held before or the whole new data, and the new data where the write succeeded.
  pub write_impl-IsWhole :
      (w : W) (dir prefix : Text) (d : List ℕ) (mode : Option ℕ)
      → let r = write_impl files w dir target d prefix mode in
        ((content r.1 ≡ content w) ⊎ (content r.1 ≡ some d)) × (r.0 ≡ ok tt → content r.1 ≡ some d)
  unfolding write_impl
  write_impl-IsWhole w dir prefix d mode = whole_cases (content w) d _ (
      with_tmp-IsWhole (content w) dir d mode (files.tempfile_in w dir prefix)
        (laws.tempfile_keeps w dir prefix) (laws.tempfile_empty w dir prefix))
