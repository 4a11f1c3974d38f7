-- ===== src/Engine/Persist/Defined.antt =====
-- The dump of a group of src/engine/state.rs looks up its winner.
use nixnet_corbet_ch.Base.{◌≡◌, refl, subst, inl, inr, [], some, get_elem?_lt, length, Option-cases}
use nixnet_corbet_ch.Engine.{Group, IsValid, InRange}
use nixnet_corbet_ch.Engine.Persist.{PersistedGroup, dump_group, winner_key, dumped}

pub dump_group-defined : (g : Group) → IsValid g → (pg : PersistedGroup) × (dump_group g ≡ some pg)
unfolding dump_group winner_key
dump_group-defined g v = elim (Option-cases g.winner) [
  | inl e ↦ (dumped [] g, rw e refl)
  | inr (w, e) ↦
      let (tr, at) =
        get_elem?_lt g.transports w (subst (λ o. InRange o (length g.transports)) e v) in
      (dumped tr.key g, rw e (rw at refl))
]
