-- ===== src/Atomic.antt =====
-- src/atomic.rs: a file is written beside its target and renamed onto it. The calls of the file
-- system and of `tempfile` are an interface over the world `W`; `T` is an open temporary file.
pub mod Whole
use nixnet_corbet_ch.Base.{ℕ, List, Option, none, some, Result, ok, err}
use nixnet_corbet_ch.Base.Text.{Text}

pub record Files (W T : Type 0) : Type 0 where
  pub tempfile_in : W → (dir prefix : Text) → Result Text T × W
  pub write_all : W → T → List ℕ → Result Text (Unit {0}) × W
  pub set_permissions : W → T → ℕ → Result Text (Unit {0}) × W
  pub sync_all : W → T → Result Text (Unit {0}) × W
  pub persist : W → T → (target : Text) → Result Text (Unit {0}) × W
  pub sync_dir : W → (dir : Text) → Result Text (Unit {0}) × W
  -- `Drop` of a temporary file that was not persisted: it is removed.
  pub discard : W → T → W

module _ {W T : Type 0} (files : Files W T) where
  -- `?` while the temporary file is open.
  unfoldable pub or_discard :
      T → Result Text (Unit {0}) × W → (W → Result Text (Unit {0}) × W) → Result Text (Unit {0}) × W
  or_discard tmp (ok done, w) next = next w
  or_discard tmp (err e, w) next = (err e, files.discard w tmp)

  abbrev pub chmod : W → T → Option ℕ → Result Text (Unit {0}) × W
  chmod w tmp none = (ok tt, w)
  chmod w tmp (some mode) = files.set_permissions w tmp mode

  abbrev pub after_persist : Text → Result Text (Unit {0}) × W → T → Result Text (Unit {0}) × W
  after_persist dir (ok done, w) tmp = files.sync_dir w dir
  after_persist dir (err e, w) tmp = (err e, files.discard w tmp)

  unfoldable pub write_tmp : Text → Text → List ℕ → Option ℕ → T → W → Result Text (Unit {0}) × W
  write_tmp dir target data' mode tmp w = or_discard tmp (files.write_all w tmp data') λ w₁.
      or_discard tmp (chmod w₁ tmp mode) λ w₂.
        or_discard tmp (files.sync_all w₂ tmp)
          λ w₃. after_persist dir (files.persist w₃ tmp target) tmp

  abbrev pub with_tmp :
      Text → Text → List ℕ → Option ℕ → Result Text T × W → Result Text (Unit {0}) × W
  with_tmp dir target data' mode (err e, w) = (err e, w)
  with_tmp dir target data' mode (ok tmp, w) = write_tmp dir target data' mode tmp w

  unfoldable pub write_impl :
      W → (dir target : Text) → List ℕ → (prefix : Text) → Option ℕ → Result Text (Unit {0}) × W
  write_impl w dir target data' prefix mode =
      with_tmp dir target data' mode (files.tempfile_in w dir prefix)

  abbrev pub write_with_chmod :
      W → (dir target : Text) → List ℕ → (prefix : Text) → ℕ → Result Text (Unit {0}) × W
  write_with_chmod w dir target data' prefix mode = write_impl w dir target data' prefix (some mode)

  abbrev pub write_no_chmod :
      W → (dir target : Text) → List ℕ → (prefix : Text) → Result Text (Unit {0}) × W
  write_no_chmod w dir target data' prefix = write_impl w dir target data' prefix none
