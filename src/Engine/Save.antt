-- ===== src/Engine/Save.antt =====
-- `save_state` of src/engine/state.rs, `write_status` of src/engine/mod.rs and `write` of
-- src/status.rs: what is written of the engine state, and how often. The JSON text is serde's;
-- monotonic instants are nanoseconds.
pub mod Spaced
pub mod Restart
pub mod Defined
use nixnet_corbet_ch.Base.{
  ℕ, ◌+◌, ◌-◌, Bool, true, false, not, ◌&&◌, List, [], ◌∷◌, ◌++◌, Option, none, some, ltb, ◌>>=◌,
  if◌then◌else◌, Result, ok, err,
}
use nixnet_corbet_ch.Base.Int.{ℤ, pos, ◌+ℤ◌, ◌*ℤ◌, min_ℤ, i64_max}
use nixnet_corbet_ch.Base.Text.{Text, codes}
use nixnet_corbet_ch.Base.Str.{newline}
use nixnet_corbet_ch.Atomic.{Files, write_no_chmod, write_with_chmod}
use nixnet_corbet_ch.Status.{Snapshot}
use nixnet_corbet_ch.Engine.{Group}
use nixnet_corbet_ch.Engine.Status.{EngineState, snapshot}
use nixnet_corbet_ch.Engine.Persist.{PersistedGroup, dump_group}
use nixnet_corbet_ch.Engine.New.{PersistedState}

-- `none` is the panic of a winner pointer out of range.
unfoldable pub dump : List (Text × Group) → Option (List (Text × PersistedGroup))
dump [] = some []
dump ((name, g) ∷ groups) = dump_group g >>= λ pg. dump groups >>= λ out. some ((name, pg) ∷ out)

unfoldable pub persisted : EngineState → Option PersistedState
persisted state = dump state.peers >>= λ peers.
    dump state.uplinks >>= λ uplinks. some (record { peers = peers; uplinks = uplinks })

-- A file behind a path; `dir` is `path.parent()`.
pub record Place : Type 0 where
  pub path : Text
  pub dir : Text

-- A write, and what is done of it: whether, the instant of the last one, and the world.
abbrev pub Written : Type 0 → Type 0
Written W = Bool × Option ℕ × W

abbrev is_recent : ℕ → ℕ → Option ℕ → Bool
is_recent limit now none = false
is_recent limit now (some time) = ltb (now - time) limit

with_newline : Option (List ℕ) → Option (List ℕ)
with_newline none = none
with_newline (some data') = some (data' ++ newline ∷ [])

was_written : {W : Type 0} → Result Text (Unit {0}) × W → Bool × W
was_written (ok done, w) = (true, w)
was_written (err e, w) = (false, w)

-- The instant is that of the end of a write that succeeded.
unfoldable pub marked : {W : Type 0} → ℕ → Option ℕ → Bool × W → Written W
marked finished last (true, w) = (true, some finished, w)
marked finished last (false, w) = (false, last, w)

module _ {W T : Type 0} (files : Files W T) where
  module _ (to_vec_pretty : PersistedState → Option (List ℕ)) where
    -- `some none` where the text cannot be made.
    unfoldable pub serialized_state : EngineState → Option (Option (List ℕ))
    unfolding with_newline
    serialized_state state = persisted state >>= λ ps. some (with_newline (to_vec_pretty ps))

    unfoldable pub write_state_data : Place → List ℕ → W → Bool × W
    unfolding was_written
    write_state_data at data' w =
        was_written (write_no_chmod files w at.dir at.path data' (codes ".state.json.tmp-"))

    write_data : Place → Option (List ℕ) → W → Bool × W
    write_data at none w = (false, w)
    write_data at (some data') w = write_state_data at data' w

    -- The clock is read before and behind the write. `none` is a panic.
    unfoldable pub save_state :
        Place → Bool → (checked finished : ℕ) → Option ℕ → EngineState → W → Option (Written W)
    unfolding write_data
    save_state at force checked finished last state w =
        if not force && is_recent 15000000000 checked last
        then some (false, last, w)
        else serialized_state state >>= λ data'. some (marked finished last (write_data at data' w))

  module _ (format : ℤ → Option Text) (to_vec_pretty : Snapshot → Result Text (List ℕ)) where
    text_of : Option Text → Text
    text_of none = []
    text_of (some s) = s

    write_json : Place → Result Text (List ℕ) → W → Result Text (Unit {0}) × W
    write_json at (err e) w = (err e, w)
    write_json at (ok data') w =
        write_with_chmod files w at.dir at.path (data' ++ newline ∷ []) (codes ".status.json.tmp-")
          420

    -- `status::write`; the validity in milliseconds.
    unfoldable pub write_snapshot : Place → Snapshot → ℤ → ℤ → W → Result Text (Unit {0}) × W
    unfolding text_of write_json
    write_snapshot at snap valid_for now w =
        let valid_until = now +ℤ (min_ℤ valid_for i64_max *ℤ pos 1000000) in
        write_json at
          (to_vec_pretty (record snap {
            generated_at = text_of (format now);
            valid_until = text_of (format valid_until);
          }))
          w

    unfoldable pub write_status :
        Place → ℤ → Bool → (checked finished : ℕ) → ℤ → Option ℕ → EngineState → W → Written W
    unfolding was_written
    write_status at status_ttl force checked finished now last state w =
        if not force && is_recent 1000000000 checked last
        then (false, last, w)
        else marked finished last
            (was_written (write_snapshot at (snapshot format [] [] state) status_ttl now w))
