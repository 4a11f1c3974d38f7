-- ===== src/Engine/Save/Spaced.antt =====
-- The checkpoints of src/engine/state.rs that nobody forces keep their distance.
use nixnet_corbet_ch.Base.{
  ℕ, ◌+◌, ◌≤◌, ◌≡◌, inl, inr, Bool, true, false, List, [], ◌∷◌, Option, none, some, arith,
  Bool-cases, Option-cases, All,
}
use nixnet_corbet_ch.Atomic.{Files}
use nixnet_corbet_ch.Engine.Status.{EngineState}
use nixnet_corbet_ch.Engine.New.{PersistedState}
use nixnet_corbet_ch.Engine.Save.{
  Place, Written, is_recent, marked, serialized_state, write_data, save_state,
}

-- A call of `save_state`: by whom forced, when, and with what state.
pub record Call : Type 0 where
  pub force : Bool
  pub checked : ℕ
  pub finished : ℕ
  pub state : EngineState

-- Each instant lies at least `limit` behind the one before it.
abbrev pub IsSpaced : ℕ → Option ℕ → List ℕ → Type 0
IsSpaced limit last [] = Unit
IsSpaced limit none (t ∷ ts) = IsSpaced limit (some t) ts
IsSpaced limit (some last) (t ∷ ts) = (last + limit ≤ t) × IsSpaced limit (some t) ts

abbrev pub IsUnforced : Call → Type 0
IsUnforced c = (c.force ≡ false) × (c.checked ≤ c.finished)

module _ {W T : Type 0} (files : Files W T) (to_vec_pretty : PersistedState → Option (List ℕ))
    (at : Place) where
  save : Call → Option ℕ → W → Option (Written W)
  save c last w = save_state files to_vec_pretty at c.force c.checked c.finished last c.state w

  written_times : Call → Option (Written W) → (Option ℕ → W → List ℕ) → List ℕ
  written_times c none later = []
  written_times c (some (true, last, w)) later = c.finished ∷ later last w
  written_times c (some (false, last, w)) later = later last w

  -- The instants at which a sequence of calls wrote the file.
  unfoldable pub save_times : List Call → Option ℕ → W → List ℕ
  unfolding save written_times
  save_times [] last w = []
  save_times (c ∷ cs) last w = written_times c (save c last w) (save_times cs)

  one_behind :
      (last : Option ℕ) (checked finished : ℕ) (ts : List ℕ)
      → is_recent 15000000000 checked last ≡ false
      → checked ≤ finished
      → IsSpaced 15000000000 (some finished) ts
      → IsSpaced 15000000000 last (finished ∷ ts)
  one_behind none checked finished ts h le rest = rest
  one_behind (some time) checked finished ts h le rest = (ground arith, rest)

  marked-IsSpaced :
      (c : Call) (last : Option ℕ) (later : Option ℕ → W → List ℕ) (r : Bool × W)
      → is_recent 15000000000 c.checked last ≡ false
      → c.checked ≤ c.finished
      → ((l : Option ℕ) (w : W) → IsSpaced 15000000000 l (later l w))
      → IsSpaced 15000000000 last (written_times c (some (marked c.finished last r)) later)
  unfolding marked written_times
  marked-IsSpaced c last later (true, w) h le go =
      one_behind last c.checked c.finished (later (some c.finished) w) h le (go (some c.finished) w)
  marked-IsSpaced c last later (false, w) h le go = go last w

  save-IsSpaced :
      (c : Call) (last : Option ℕ) (w : W) (later : Option ℕ → W → List ℕ)
      → IsUnforced c
      → ((l : Option ℕ) (w : W) → IsSpaced 15000000000 l (later l w))
      → IsSpaced 15000000000 last (written_times c (save c last w) later)
  unfolding save save_state written_times
  save-IsSpaced c last w later (unforced, le) go =
      elim (Bool-cases (is_recent 15000000000 c.checked last)) [
        | inl recent ↦ rw (unforced, recent) (go last w)
        | inr due ↦ elim (Option-cases (serialized_state files to_vec_pretty c.state)) [
          | inl panic ↦ rw (unforced, due, panic) tt
          | inr (data', made) ↦
              rw (unforced, due, made)
                (marked-IsSpaced c last later (write_data files to_vec_pretty at data' w) due le go)
        ]
      ]

  -- However often the state is saved unforced, whatever the disk does and whatever the states are,
  -- each write that succeeds ends at least fifteen seconds behind the one before it, that of the
  -- start included.
  pub save_times-IsSpaced :
      (cs : List Call) (last : Option ℕ) (w : W)
      → All IsUnforced cs
      → IsSpaced 15000000000 last (save_times cs last w)
  unfolding save_times
  save_times-IsSpaced [] last w h = tt
  save_times-IsSpaced (c ∷ cs) last w h =
      save-IsSpaced c last w (save_times cs) h.0 λ l w'. save_times-IsSpaced cs l w' h.1
