-- ===== src/Engine/Worker/Boot.antt =====
-- The first start of src/engine/mod.rs under a configuration that src/config.rs loads.
use nixnet_corbet_ch.Base.{
  ℕ, suc, ◌⊎◌, ◌≡◌, refl, sym, subst, inl, inr, true, List, [], ◌∷◌, Option, map, All, Result, ok,
  err,
}
use nixnet_corbet_ch.Base.Int.{ℤ}
use nixnet_corbet_ch.Base.Text.{Text}
use nixnet_corbet_ch.Base.Net.{is_ip_addr}
use nixnet_corbet_ch.Config.{Config, Transport, Peer, Uplink}
use nixnet_corbet_ch.Config.Load.{load, load-IsAccepted}
use nixnet_corbet_ch.Config.Validate.Accepted.{IsAcceptedPeer}
use nixnet_corbet_ch.Engine.{GroupKind, peer}
use nixnet_corbet_ch.Engine.Health.Address.{IsLiteral}
use nixnet_corbet_ch.Engine.Groups.{AllGroups}
use nixnet_corbet_ch.Engine.New.{
  PersistedState, new, cold_state, load_state, new_transports, new_peer, new_uplink,
}
use nixnet_corbet_ch.Engine.Reconcile.{Publishers, Decision}
use nixnet_corbet_ch.Engine.Worker.{Key, System, publishing, Reach, first_system}
use nixnet_corbet_ch.Engine.Worker.Stable.{reach-AllGroups, first_system-AllGroups}
use nixnet_corbet_ch.Engine.Worker.Literal.{IsClean, IsClean-IsStable, HasLiterals, NamesLiteral}
use nixnet_corbet_ch.Engine.Worker.Handed.{first_system-HoldLiterals, reach-HoldLiterals}
use nixnet_corbet_ch.Config.Validate.Sound.{IsAccepted}
use nixnet_corbet_ch.Engine.New.Valid.{IsSound, new-IsSound}
use nixnet_corbet_ch.Engine.Worker.Sound.{IsSound-IsStable}

-- A configured address, as validation accepts it.
accepted-IsLiteral : (s : Text) → (s ≡ []) ⊎ (is_ip_addr s ≡ true) → IsLiteral s
accepted-IsLiteral s (inl e) = inl (rw e refl)
accepted-IsLiteral s (inr literal) = inr literal

new_transports-HasLiterals :
    (kind : GroupKind) (name : Text) (i : ℕ) (ts : List Transport)
    → All (λ t. (t.address ≡ []) ⊎ (is_ip_addr t.address ≡ true)) ts
    → All HasLiterals (new_transports kind name i ts)
unfolding new_transports
new_transports-HasLiterals kind name i [] h = tt
new_transports-HasLiterals kind name i (t ∷ ts) h = (
  (accepted-IsLiteral t.address h.0, inl refl),
  new_transports-HasLiterals kind name (suc i) ts h.1,
)

peers-IsClean :
    (ps : List (Text × Peer))
    → All (λ e. IsAcceptedPeer e.1) ps
    → All (λ e. IsClean e.1) (map new_peer ps)
peers-IsClean [] h = tt
peers-IsClean ((n, p) ∷ ps) h = (
  (
    (tt, λ e. refl),
    inr (new_transports-HasLiterals peer n 0 p.transports h.0.addresses_are_literals, inl refl),
  ),
  peers-IsClean ps h.1,
)

uplinks-IsClean : (us : List (Text × Uplink)) → All (λ e. IsClean e.1) (map new_uplink us)
uplinks-IsClean [] = tt
uplinks-IsClean ((n, u) ∷ us) = (((tt, λ e. refl), inl (refl, refl)), uplinks-IsClean us)

cold_state-IsClean : (cfg : Config) → IsAccepted cfg → AllGroups IsClean (cold_state cfg)
unfolding cold_state
cold_state-IsClean cfg h = (peers-IsClean cfg.peers h.peers_accepted, uplinks-IsClean cfg.uplinks)

new_missing :
    (from_slice : Text → Result Text PersistedState) (cfg : Config) (missing : Text) (booted : ℤ)
    → new from_slice cfg (err missing) booted ≡ cold_state cfg
unfolding new load_state
new_missing from_slice cfg missing booted = refl

-- Started without a state file under a configuration that loads, whatever the file of that holds,
-- no interleaving of the workers hands the hosts publisher an entry whose address is no IP literal,
-- whatever the probes return and whatever the publishers do.
pub boot-HoldLiterals :
    {W : Type 0} (format : ℤ → Option Text) (quoted : Text → Text) (self : Publishers W)
    (keys : List Key) (from_str : Text → Result Text Config) (contents : Result Text Text)
    (cfg : Config) (from_slice : Text → Result Text PersistedState) (missing : Text) (booted : ℤ)
    (w : W) (now : ℕ) (s : System W) (j next : ℕ) (d : Decision)
    → load from_str contents ≡ ok cfg
    → Reach format quoted self keys
        (first_system format self w (new from_slice cfg (err missing) booted) now)
        s
    → s.stage j ≡ publishing next d
    → All NamesLiteral d.entries
boot-HoldLiterals format quoted self keys from_str contents cfg from_slice missing booted w now s j
      next d loaded r at =
    let state = new from_slice cfg (err missing) booted in
    reach-HoldLiterals format quoted self keys
      (first_system-AllGroups format quoted self keys IsClean (IsClean-IsStable quoted) w state now
        (subst (AllGroups IsClean) (sym (new_missing from_slice cfg missing booted))
          (cold_state-IsClean cfg (load-IsAccepted from_str contents cfg loaded).0)))
      (first_system-HoldLiterals format quoted self keys w state now) r j next d at

-- Whatever the state file holds, in every interleaving of the workers every group's winner pointer
-- is in range of its transports, and nothing is published without a winner.
pub boot-IsSound :
    {W : Type 0} (format : ℤ → Option Text) (quoted : Text → Text) (self : Publishers W)
    (keys : List Key) (from_slice : Text → Result Text PersistedState) (cfg : Config)
    (file : Result Text Text) (booted : ℤ) (w : W) (now : ℕ) (s : System W)
    → Reach format quoted self keys
        (first_system format self w (new from_slice cfg file booted) now)
        s
    → AllGroups IsSound s.state
boot-IsSound format quoted self keys from_slice cfg file booted w now s r =
    let stable = IsSound-IsStable quoted in
    reach-AllGroups format quoted self keys IsSound stable
      (first_system-AllGroups format quoted self keys IsSound stable w
        (new from_slice cfg file booted) now (new-IsSound from_slice cfg file booted))
      r
