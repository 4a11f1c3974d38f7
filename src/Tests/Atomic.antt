-- ===== src/Tests/Atomic.antt =====
-- A disk of one target and one temporary file, and one whose renames fail.
use nixnet_corbet_ch.Base.{
  ℕ, ◌≡◌, ◌⊎◌, refl, Bool, true, false, List, [], ◌++◌, Option, none, some, Result, ok, err,
  if◌then◌else◌,
}
use nixnet_corbet_ch.Base.Text.{Text, codes}
use nixnet_corbet_ch.Atomic.{Files, write_impl, write_tmp, or_discard}
use nixnet_corbet_ch.Atomic.Whole.{IsFileSystem, write_impl-IsWhole}

pub record Disk : Type 0 where
  pub target : Option (List ℕ)
  pub staged : Option (List ℕ)

-- `write_all` on what a file holds.
abbrev append_to : Option (List ℕ) → List ℕ → Option (List ℕ)
append_to none d = none
append_to (some held) d = some (held ++ d)

abbrev pub disk_files : Bool → Files Disk (Unit {0})
disk_files renames = record {
  tempfile_in = λ w dir prefix. (ok tt, record w { staged = some [] });
  write_all = λ w t d. (ok tt, record w { staged = append_to w.staged d });
  set_permissions = λ w t m. (ok tt, w);
  sync_all = λ w t. (ok tt, w);
  persist = λ w t target.
      if renames then (ok tt, record w { target = w.staged }) else (err (codes "EXDEV"), w);
  sync_dir = λ w dir. (ok tt, w);
  discard = λ w t. record w { staged = none };
}

pub disk-IsFileSystem :
    (renames : Bool)
    → IsFileSystem (disk_files renames) (codes "/etc/hosts") (λ w. w.target) (λ w t. w.staged)
disk-IsFileSystem true = record {
  tempfile_keeps = λ w dir prefix. refl;
  write_keeps = λ w t d. refl;
  tempfile_empty = λ w dir prefix t h. refl;
  appended = λ w t held d at h. rw (at, append_to) refl;
  chmod_keeps = λ w t m. (refl, refl);
  sync_keeps = λ w t. (refl, refl);
  renamed = λ w t h. refl;
  not_renamed = λ w t e h. cc;
  sync_dir_keeps = λ w dir. refl;
  discard_keeps = λ w t. refl;
}
disk-IsFileSystem false = record {
  tempfile_keeps = λ w dir prefix. refl;
  write_keeps = λ w t d. refl;
  tempfile_empty = λ w dir prefix t h. refl;
  appended = λ w t held d at h. rw (at, append_to) refl;
  chmod_keeps = λ w t m. (refl, refl);
  sync_keeps = λ w t. (refl, refl);
  renamed = λ w t h. cc;
  not_renamed = λ w t e h. refl;
  sync_dir_keeps = λ w dir. refl;
  discard_keeps = λ w t. refl;
}

abbrev disk : Disk
disk = record { target = some (codes "old"); staged = none }

abbrev write_on : Bool → Result Text (Unit {0}) × Disk
write_on renames =
    write_impl (disk_files renames) disk (codes "/etc") (codes "/etc/hosts") (codes "new")
      (codes ".hosts.tmp-") (some 420)

replaced_whole : (write_on true).1.target ≡ some (codes "new")
unfolding write_impl write_tmp or_discard
replaced_whole = refl

kept_whole : write_on false ≡ (err (codes "EXDEV"), disk)
unfolding write_impl write_tmp or_discard
kept_whole = refl

write_impl-IsWhole_example :
    (((write_on true).1.target ≡ some (codes "old"))
      ⊎ ((write_on true).1.target ≡ some (codes "new")))
    × ((write_on true).0 ≡ ok tt → (write_on true).1.target ≡ some (codes "new"))
write_impl-IsWhole_example =
    write_impl-IsWhole (disk_files true) (codes "/etc/hosts") (λ w. w.target) (λ w t. w.staged)
      (disk-IsFileSystem true) disk (codes "/etc") (codes ".hosts.tmp-") (codes "new") (some 420)
