-- ===== src/Probe.antt =====
-- The probe results of src/probe/mod.rs.
pub mod Icmp
pub mod Words
pub mod Dial
pub mod Http
pub mod Exec
use nixnet_corbet_ch.Base.{Bool}
use nixnet_corbet_ch.Base.Text.{Text}

-- What one probe run produced; a non-empty `address` overrides the configured one.
pub record ProbeResult : Type 0 where
  pub healthy : Bool
  pub address : Text
  pub detail : Text
