-- ===== src/Engine/Worker/Alive.antt =====
-- A start of src/engine/mod.rs, from any state file, comes to no panic and no deadlock.
use nixnet_corbet_ch.Base.{
  ℕ, ◌≡◌, refl, sym, ◌∙◌, ap, subst, ◌⊎◌, inl, inr, false, List, [], ◌∷◌, Option, none, some, map,
  length, get_elem?, All, All-get_elem?, Result, ok, err, Bool-cases, if◌then◌else◌,
}
use nixnet_corbet_ch.Base.Int.{ℤ}
use nixnet_corbet_ch.Base.Text.{Text}
use nixnet_corbet_ch.Config.{Config, Peer, Uplink}
use nixnet_corbet_ch.Engine.{Group, RankedInterface}
use nixnet_corbet_ch.Engine.Ranking.{uplink_ranking}
use nixnet_corbet_ch.Engine.Status.{EngineState, nothing_to_publish}
use nixnet_corbet_ch.Engine.Persist.{PersistedGroup, restore}
use nixnet_corbet_ch.Engine.New.{
  PersistedState, new, cold_state, load_state, restored, new_peer, new_uplink,
}
use nixnet_corbet_ch.Engine.New.Valid.{IsSound, new-IsSound}
use nixnet_corbet_ch.Engine.Reconcile.{
  Publishers, publish_restored_peers, publish_restored_uplinks, publish_peers_locked,
  restored_uplink, restored_uplinks,
}
use nixnet_corbet_ch.Engine.Worker.{Key, System, Reach, transport_keys, first_system, due_at}
use nixnet_corbet_ch.Engine.Worker.Stable.{first_system-AllGroups}
use nixnet_corbet_ch.Engine.Worker.Sound.{IsSound-IsStable}
use nixnet_corbet_ch.Engine.Worker.Locking.{is_publishing}
use nixnet_corbet_ch.Engine.Worker.Defined.{Has}
use nixnet_corbet_ch.Engine.Worker.Keys.{
  AreDistinct, names, IsLike, IsLike-refl, due-IsLike, Has-IsLike, transport_keys-Has,
}
use nixnet_corbet_ch.Engine.Worker.Progress.{CanStep, NeverPanics, reach_progress}

-- A restore keeps the names.
names-restore :
    (saved : List (Text × PersistedGroup)) (now : ℤ) (gs : List (Text × Group))
    → names (restore saved now gs) ≡ names gs
unfolding restore
names-restore saved now [] = refl
names-restore saved now ((n, g) ∷ gs) = ap (λ (l : List Text). n ∷ l) (names-restore saved now gs)

names-peers : (ps : List (Text × Peer)) → names (map new_peer ps) ≡ names ps
names-peers [] = refl
names-peers ((n, p) ∷ ps) = ap (λ (l : List Text). n ∷ l) (names-peers ps)

names-uplinks : (us : List (Text × Uplink)) → names (map new_uplink us) ≡ names us
names-uplinks [] = refl
names-uplinks ((n, u) ∷ us) = ap (λ (l : List Text). n ∷ l) (names-uplinks us)

module _ (from_slice : Text → Result Text PersistedState) (cfg : Config) (booted : ℤ) where
  abbrev IsNamed : EngineState → Type 0
  IsNamed s = (names s.peers ≡ names cfg.peers) × (names s.uplinks ≡ names cfg.uplinks)

  cold-IsNamed : IsNamed (cold_state cfg)
  unfolding cold_state
  cold-IsNamed = (names-peers cfg.peers, names-uplinks cfg.uplinks)

  restored-IsNamed :
      (r : Result Text PersistedState) → IsNamed (restored from_slice r booted (cold_state cfg))
  unfolding restored
  restored-IsNamed (err e) = cold-IsNamed
  restored-IsNamed (ok ps) = (
    names-restore ps.peers booted _ ∙ cold-IsNamed.0,
    names-restore ps.uplinks booted _ ∙ cold-IsNamed.1,
  )

  new-IsNamed : (file : Result Text Text) → IsNamed (new from_slice cfg file booted)
  unfolding new load_state
  new-IsNamed (err e) = cold-IsNamed
  new-IsNamed (ok content) = restored-IsNamed (from_slice content)

module _ {W : Type 0} (format : ℤ → Option Text) (self : Publishers W) where
  peers_locked-IsLike :
      (w : W) (s : EngineState)
      → IsLike s.peers (publish_peers_locked format self w s).0.peers
        × IsLike s.uplinks (publish_peers_locked format self w s).0.uplinks
  unfolding publish_peers_locked
  peers_locked-IsLike w s = (IsLike-refl s.peers, IsLike-refl s.uplinks)

  restored_peers-IsLike :
      (w : W) (s : EngineState)
      → IsLike s.peers (publish_restored_peers format self w s).0.peers
        × IsLike s.uplinks (publish_restored_peers format self w s).0.uplinks
  unfolding publish_restored_peers
  restored_peers-IsLike w s = elim (Bool-cases (nothing_to_publish s)) [
    | inl e ↦ rw (e, if◌then◌else◌) (IsLike-refl s.peers, IsLike-refl s.uplinks)
    | inr e ↦ rw (e, if◌then◌else◌) (peers_locked-IsLike w s)
  ]

  length-restored_uplink :
      (w : W) (g : Group) (rs : List RankedInterface)
      → length g.transports ≡ length (restored_uplink format self w g rs).0.transports
  unfolding restored_uplink
  length-restored_uplink w g [] = refl
  length-restored_uplink w g (r ∷ rs) = refl

  restored_uplinks-IsLike :
      (w : W) (gs : List (Text × Group)) → IsLike gs (restored_uplinks format self w gs).0
  unfolding restored_uplinks
  restored_uplinks-IsLike w [] = tt
  restored_uplinks-IsLike w ((n, g) ∷ gs) = (
    refl,
    length-restored_uplink w g (uplink_ranking g),
    restored_uplinks-IsLike (restored_uplink format self w g (uplink_ranking g)).1 gs,
  )

  first_system-Has :
      (k : Key) (w : W) (s : EngineState) (now : ℕ)
      → Has k s
      → Has k (first_system format self w s now).state
  unfolding first_system publish_restored_uplinks
  first_system-Has k w s now h =
      let due : EngineState = record s {
        peers = map (due_at now) s.peers;
        uplinks = map (due_at now) s.uplinks;
      } in
      let (state, w') = publish_restored_peers format self w due in
      let like = restored_peers-IsLike w due in
      Has-IsLike k state _ (IsLike-refl state.peers) (restored_uplinks-IsLike w' state.uplinks) (
        Has-IsLike k due state like.0 like.1
          (Has-IsLike k s due (due-IsLike now s.peers) (due-IsLike now s.uplinks) h))

  first_free :
      (w : W) (s : EngineState) (now : ℕ) → (first_system format self w s now).io_lock ≡ none
  unfolding first_system
  first_free w s now = refl

  first_quiet :
      (w : W) (s : EngineState) (now n : ℕ)
      → is_publishing ((first_system format self w s now).stage n) ≡ false
  unfolding first_system
  first_quiet w s now n = refl

-- Whatever the state file holds, the workers of the transports of a configuration, whose groups have
-- distinct names, never come, in any interleaving and whatever publishers do, to where what one of
-- them does next panics, its checkpoint included, whatever the clocks read and its probe returns, or
-- where all wait: each can take its next step, or waits for the I/O lock, whose holder can.
pub boot_progress :
    {W : Type 0} (format : ℤ → Option Text) (quoted : Text → Text) (self : Publishers W)
    (from_slice : Text → Result Text PersistedState) (cfg : Config) (file : Result Text Text)
    (booted : ℤ) (keys : List Key) (w : W) (now : ℕ) (s : System W) (i : ℕ) (k : Key)
    → AreDistinct (names cfg.peers)
    → AreDistinct (names cfg.uplinks)
    → transport_keys (new from_slice cfg file booted) ≡ keys
    → Reach format quoted self keys
        (first_system format self w (new from_slice cfg file booted) now)
        s
    → get_elem? keys i ≡ some k
    → NeverPanics format quoted self keys k s (s.stage i)
      × (CanStep format quoted self keys i s
          ⊎ ((j : ℕ) × (s.io_lock ≡ some j) × CanStep format quoted self keys j s))
boot_progress format quoted self from_slice cfg file booted keys w now s i k peers uplinks all_keys
      r at =
    let state = new from_slice cfg file booted in
    let named = new-IsNamed from_slice cfg booted file in
    let all = subst (All (λ l. Has l state)) all_keys (
      transport_keys-Has state (subst AreDistinct (sym named.0) peers)
        (subst AreDistinct (sym named.1) uplinks)) in
    reach_progress format quoted self keys (first_system format self w state now) s i k
      (first_system-AllGroups format quoted self keys IsSound (IsSound-IsStable quoted) w state now
        (new-IsSound from_slice cfg file booted))
      (λ n l there'.
        first_system-Has format self l w state now
          (All-get_elem? (λ m. Has m state) keys n all there'))
      (first_free format self w state now) (first_quiet format self w state now) r at
