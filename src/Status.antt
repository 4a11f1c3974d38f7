-- ===== src/Status.antt =====
-- src/status.rs: the snapshot that `nixnetctl` reads, and when it counts as healthy. Its JSON and
-- its file are serde's and the file system's; instants as text are the `time` crate's.
use nixnet_corbet_ch.Base.{Bool, false, not, ◌&&◌, List, Option, none, some, all}
use nixnet_corbet_ch.Base.Int.{ℤ, leb_ℤ}
use nixnet_corbet_ch.Base.Text.{Text, is_empty}

pub record StatusTransport : Type 0 where
  pub state : Text
  pub detail : Text

pub record StatusGroup : Type 0 where
  pub winner : Text
  pub since : Text
  pub last_confirmed_at : Text
  pub last_publish_error : Text
  pub degraded : Bool
  pub transports : List (Text × StatusTransport)

pub record Snapshot : Type 0 where
  pub generated_at : Text
  pub valid_until : Text
  pub last_hosts_publish_error : Text
  pub peers : List (Text × StatusGroup)
  pub uplinks : List (Text × StatusGroup)

unfoldable pub group_healthy : StatusGroup → Bool
group_healthy g = not g.degraded && not (is_empty g.winner) && is_empty g.last_publish_error

-- `now <= deadline`, false where the deadline does not parse.
abbrev pub before_deadline : Option ℤ → ℤ → Bool
before_deadline none now = false
before_deadline (some deadline) now = leb_ℤ now deadline

unfoldable pub is_healthy_at : (Text → Option ℤ) → Snapshot → ℤ → Bool
is_healthy_at parse snapshot now =
    before_deadline (parse snapshot.valid_until) now
    && is_empty snapshot.last_hosts_publish_error
    && all (λ g. group_healthy g.1) snapshot.peers
    && all (λ g. group_healthy g.1) snapshot.uplinks
