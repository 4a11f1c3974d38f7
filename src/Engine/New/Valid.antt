-- ===== src/Engine/New/Valid.antt =====
-- What every state that a start builds satisfies, whatever the state file holds.
use nixnet_corbet_ch.Base.{
  ◌≡◌, refl, ap, inl, inr, true, List, [], ◌∷◌, Option, none, some, map, All, is_some, Result, ok,
  err,
}
use nixnet_corbet_ch.Base.Int.{ℤ}
use nixnet_corbet_ch.Base.Text.{Text, is_empty}
use nixnet_corbet_ch.Config.{Config, Peer, Uplink}
use nixnet_corbet_ch.Engine.{Group, IsValid}
use nixnet_corbet_ch.Engine.Groups.{AllGroups}
use nixnet_corbet_ch.Engine.Decide.Publication.{IsBacked}
use nixnet_corbet_ch.Engine.Persist.{
  PersistedGroup, restore, restore_found, find_group, restore_group,
}
use nixnet_corbet_ch.Engine.Persist.Valid.{
  restore_group-IsValid, restore_group-IsPublishable, IsPublishable,
}
use nixnet_corbet_ch.Engine.New.{
  PersistedState, new_peer, new_uplink, cold_state, restored, load_state, new,
}

-- The winner pointer is in range, and no address is published without a winner.
abbrev pub IsSound : Group → Type 0
IsSound g = IsValid g × IsBacked g

is_empty-nil : (s : Text) → is_empty s ≡ true → s ≡ []
is_empty-nil [] h = refl
is_empty-nil (c ∷ cs) h = cc

IsPublishable-IsBacked : (g : Group) (now : ℤ) → IsPublishable now g → IsBacked g
IsPublishable-IsBacked g now (inl empty) e = is_empty-nil g.last_published_addr empty
IsPublishable-IsBacked g now (inr (won, _)) e = cc (won, ap is_some e)

restore_found-IsSound :
    (saved : Option PersistedGroup) (now : ℤ) (g : Group)
    → IsSound g
    → IsSound (restore_found saved now g)
unfolding restore_found
restore_found-IsSound none now g h = h
restore_found-IsSound (some pg) now g h = (
  restore_group-IsValid pg now g,
  IsPublishable-IsBacked (restore_group pg now g) now (restore_group-IsPublishable pg now g),
)

restore-IsSound :
    (saved : List (Text × PersistedGroup)) (now : ℤ) (gs : List (Text × Group))
    → All (λ e. IsSound e.1) gs
    → All (λ e. IsSound e.1) (restore saved now gs)
unfolding restore
restore-IsSound saved now [] h = tt
restore-IsSound saved now ((n, g) ∷ gs) h =
    (restore_found-IsSound (find_group n saved) now g h.0, restore-IsSound saved now gs h.1)

cold_state-IsSound : (cfg : Config) → AllGroups IsSound (cold_state cfg)
unfolding cold_state
cold_state-IsSound cfg = (peers cfg.peers, uplinks cfg.uplinks)
  where
    peers : (ps : List (Text × Peer)) → All (λ e. IsSound e.1) (map new_peer ps)
    peers [] = tt
    peers ((n, p) ∷ ps) = ((tt, λ e. refl), peers ps)

    uplinks : (us : List (Text × Uplink)) → All (λ e. IsSound e.1) (map new_uplink us)
    uplinks [] = tt
    uplinks ((n, u) ∷ us) = ((tt, λ e. refl), uplinks us)

restored-IsSound :
    (from_slice : Text → Result Text PersistedState) (cfg : Config) (r : Result Text PersistedState)
    (now : ℤ)
    → AllGroups IsSound (restored from_slice r now (cold_state cfg))
unfolding restored
restored-IsSound from_slice cfg (err e) now = cold_state-IsSound cfg
restored-IsSound from_slice cfg (ok ps) now = (
  restore-IsSound ps.peers now _ (cold_state-IsSound cfg).0,
  restore-IsSound ps.uplinks now _ (cold_state-IsSound cfg).1,
)

pub new-IsSound :
    (from_slice : Text → Result Text PersistedState) (cfg : Config) (file : Result Text Text)
    (now : ℤ)
    → AllGroups IsSound (new from_slice cfg file now)
unfolding new load_state
new-IsSound from_slice cfg (err e) now = cold_state-IsSound cfg
new-IsSound from_slice cfg (ok content) now =
    restored-IsSound from_slice cfg (from_slice content) now
