-- ===== src/Tests/Save.antt =====
-- Checkpoints on a disk of one file.
use nixnet_corbet_ch.Base.{
  ◌≡◌, refl, inr, true, false, List, [], ◌∷◌, Option, none, some, some_inj, arith, ℕ, Result, ok,
  err, ap, ◌∙◌, sym,
}
use nixnet_corbet_ch.Base.Text.{Text, codes}
use nixnet_corbet_ch.Atomic.{write_impl, write_tmp, or_discard}
use nixnet_corbet_ch.Engine.Status.{EngineState}
use nixnet_corbet_ch.Engine.Persist
use nixnet_corbet_ch.Engine.Persist.RoundTrip.{cold_group, forget_group}
use nixnet_corbet_ch.Engine.New.{PersistedState, load_state}
use nixnet_corbet_ch.Engine.Save.{
  Place, dump, persisted, serialized_state, write_state_data, marked, save_state,
}
use nixnet_corbet_ch.Engine.Save.Spaced.{Call, IsSpaced, save_times, save_times-IsSpaced}
use nixnet_corbet_ch.Engine.Save.Restart.{IsRestorable, on_groups, save_state-load_state}
use nixnet_corbet_ch.Tests.Fixtures.{recovered}
use nixnet_corbet_ch.Tests.Persist.{soon, written, keys, publishable}
use nixnet_corbet_ch.Tests.Atomic.{Disk, disk_files, disk-IsFileSystem}

abbrev state : EngineState
state = record { peers = (codes "host-b", recovered) ∷ []; uplinks = []; last_hosts_error = [] }

abbrev saved : PersistedState
saved = record { peers = (codes "host-b", written) ∷ []; uplinks = [] }

abbrev place : Place
place = record { path = codes "/etc/hosts"; dir = codes "/etc" }

abbrev to_json : PersistedState → Option (List ℕ)
to_json ps = some (codes "{}")

abbrev from_json : Text → Result Text PersistedState
from_json content = ok saved

abbrev read_bytes : Option (List ℕ) → Result Text Text
read_bytes none = err (codes "ENOENT")
read_bytes (some bytes) = ok bytes

abbrev blank : Disk
blank = record { target = none; staged = none }

abbrev json : List ℕ
json = codes "{}\n"

abbrev checkpointed : Disk
checkpointed = record { target = some json; staged = some json }

persisted_state : persisted state ≡ some saved
unfolding persisted dump Persist.runs
persisted_state = refl

forced_save :
    save_state (disk_files true) to_json place true 0 1 none state blank
    ≡ some (true, some 1, checkpointed)
unfolding save_state serialized_state persisted dump Persist.runs write_state_data marked write_impl
    write_tmp or_discard
forced_save = refl

recovered-IsRestorable : IsRestorable soon (codes "host-b", recovered)
recovered-IsRestorable = record {
  valid = omega arith;
  keys = keys;
  declared = (inr refl, (inr refl, tt));
  publishable = publishable;
}

save_state-load_state_example :
    load_state from_json (read_bytes (some json)) soon (on_groups cold_group state)
    ≡ on_groups forget_group state
save_state-load_state_example =
    save_state-load_state (disk_files true) to_json from_json (λ w. read_bytes w.target) place
      (λ w. w.target) (λ w t. w.staged) (disk-IsFileSystem true) (λ w d h. ap read_bytes h) 0 1 none
      (some 1) state blank checkpointed soon (recovered-IsRestorable, tt) tt (tt, tt) tt
      (λ ps d h text. ap ok (some_inj (sym persisted_state ∙ h))) forced_save

-- Ten seconds apart.
abbrev calls : List Call
calls =
    record { force = false; checked = 0; finished = 1; state = state }
    ∷ record { force = false; checked = 10000000000; finished = 10000000001; state = state }
    ∷ record { force = false; checked = 20000000000; finished = 20000000001; state = state }
    ∷ []

two_writes : save_times (disk_files true) to_json place calls none blank ≡ 1 ∷ 20000000001 ∷ []
unfolding save_times save_state serialized_state persisted dump Persist.runs write_state_data marked
    write_impl write_tmp or_discard
two_writes = refl

save_times-IsSpaced_example :
    IsSpaced 15000000000 none (save_times (disk_files true) to_json place calls none blank)
save_times-IsSpaced_example =
    save_times-IsSpaced (disk_files true) to_json place calls none blank
      ((refl, omega arith), ((refl, omega arith), ((refl, omega arith), tt)))
