-- ===== src/Config/Load.antt =====
-- `load` of src/config.rs. The file system and the JSON parser are the environment's.
use nixnet_corbet_ch.Base.{
  ◌≡◌, sym, subst, inl, inr, Result, ok, err, ok_inj, ok_not_err, Result-cases, Check,
}
use nixnet_corbet_ch.Base.Text.{Text}
use nixnet_corbet_ch.Config.{Config}
use nixnet_corbet_ch.Config.Defaults.{apply_defaults}
use nixnet_corbet_ch.Config.Defaults.Idempotent.{apply_defaults_twice}
use nixnet_corbet_ch.Config.Validate.{Problem, validate}
use nixnet_corbet_ch.Config.Validate.Sound.{IsAccepted, validate-IsAccepted}

pub data ConfigError : Type 0 where
  read_failed : (message : Text) → ConfigError
  parse_failed : (message : Text) → ConfigError
  invalid : Problem → ConfigError

pub checked : Config → Check Problem → Result ConfigError Config
checked cfg (ok done) = ok cfg
checked cfg (err problem) = err (invalid problem)

pub parsed : Result Text Config → Result ConfigError Config
unfolding checked
parsed (err e) = err (parse_failed e)
parsed (ok cfg) = checked (apply_defaults cfg) (validate (apply_defaults cfg))

-- From what reading the file gave.
unfoldable pub load : (Text → Result Text Config) → Result Text Text → Result ConfigError Config
unfolding parsed
load from_str (err e) = err (read_failed e)
load from_str (ok data') = parsed (from_str data')

checked-IsAccepted :
    (cfg loaded : Config)
    → checked (apply_defaults cfg) (validate (apply_defaults cfg)) ≡ ok loaded
    → IsAccepted loaded × (apply_defaults loaded ≡ loaded)
unfolding checked
checked-IsAccepted cfg loaded h = elim (Result-cases (validate (apply_defaults cfg))) [
  | inl (tt, fine) ↦
      let same : apply_defaults cfg ≡ loaded = ok_inj (rw (fine, checked) at h) in
      (
        subst IsAccepted same (validate-IsAccepted (apply_defaults cfg) fine),
        subst (λ (c : Config). apply_defaults c ≡ c) same (apply_defaults_twice cfg),
      )
  | inr (e, bad) ↦ absurd (ok_not_err (sym (rw (bad, checked) at h)))
]

-- Whatever the file holds and however it parses, a configuration that is loaded is one the daemon
-- can run: host names are tokens and differ over all peers, the transport ids of a group differ,
-- probes can run, literals, policies, age bounds, interfaces, targets and metric steps are in
-- order, and no default is left to fill in.
pub load-IsAccepted :
    (from_str : Text → Result Text Config) (contents : Result Text Text) (loaded : Config)
    → load from_str contents ≡ ok loaded
    → IsAccepted loaded × (apply_defaults loaded ≡ loaded)
unfolding load parsed
load-IsAccepted from_str (err e) loaded h = absurd (ok_not_err (sym h))
load-IsAccepted from_str (ok text) loaded h = elim (Result-cases (from_str text)) [
  | inl (cfg, e) ↦ checked-IsAccepted cfg loaded (rw (e, load) at h)
  | inr (m, e) ↦ absurd (ok_not_err (sym (rw (e, load) at h)))
]
