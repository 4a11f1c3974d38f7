-- ===== src/Engine/Save/Defined.antt =====
-- A state whose groups are sound can be saved: `dump` of src/engine/state.rs does not panic.
use nixnet_corbet_ch.Base.{◌≡◌, refl, List, [], ◌∷◌, some, All, ◌>>=◌}
use nixnet_corbet_ch.Base.Text.{Text}
use nixnet_corbet_ch.Engine.{Group}
use nixnet_corbet_ch.Engine.Status.{EngineState}
use nixnet_corbet_ch.Engine.Groups.{AllGroups}
use nixnet_corbet_ch.Engine.Persist.{PersistedGroup}
use nixnet_corbet_ch.Engine.Persist.Defined.{dump_group-defined}
use nixnet_corbet_ch.Engine.New.{PersistedState}
use nixnet_corbet_ch.Engine.New.Valid.{IsSound}
use nixnet_corbet_ch.Engine.Save.{dump, persisted}

dump-defined :
    (gs : List (Text × Group))
    → All (λ e. IsSound e.1) gs
    → (saved : List (Text × PersistedGroup)) × (dump gs ≡ some saved)
unfolding dump
dump-defined [] h = ([], refl)
dump-defined ((name, g) ∷ gs) h =
    let (pg, first) = dump_group-defined g h.0.0 in
    let (saved, others) = dump-defined gs h.1 in
    ((name, pg) ∷ saved, rw (first, ◌>>=◌) (rw (others, ◌>>=◌) refl))

pub persisted-defined :
    (s : EngineState) → AllGroups IsSound s → (ps : PersistedState) × (persisted s ≡ some ps)
unfolding persisted
persisted-defined s (peers, uplinks) =
    let (saved_peers, e) = dump-defined s.peers peers in
    let (saved_uplinks, f) = dump-defined s.uplinks uplinks in
    (record { peers = saved_peers; uplinks = saved_uplinks }, rw (e, ◌>>=◌) (rw (f, ◌>>=◌) refl))
