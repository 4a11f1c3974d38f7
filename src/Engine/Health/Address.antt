-- ===== src/Engine/Health/Address.antt =====
-- Only address literals become the effective address of a transport.
use nixnet_corbet_ch.Base.{◌≡◌, ◌⊎◌, true, arith}
use nixnet_corbet_ch.Base.Int.{ℤ}
use nixnet_corbet_ch.Base.Text.{Text, is_empty}
use nixnet_corbet_ch.Base.Net.{is_ip_addr}
use nixnet_corbet_ch.Probe.{ProbeResult}
use nixnet_corbet_ch.Engine.{TransportRuntime}
use nixnet_corbet_ch.Engine.Health.{reject_invalid_address, next_address, observe}

-- No address, or an IPv4 or IPv6 literal.
abbrev pub IsLiteral : Text → Type 0
IsLiteral s = (is_empty s ≡ true) ⊎ (is_ip_addr s ≡ true)

module _ (quoted : Text → Text) where
  checked_address :
      (res : ProbeResult)
      → (reject_invalid_address quoted res).healthy ≡ true
      → IsLiteral (reject_invalid_address quoted res).address
  unfolding reject_invalid_address
  checked_address res h = ground arith

  next_address-IsLiteral :
      (res : ProbeResult) (tr : TransportRuntime)
      → (res.healthy ≡ true → IsLiteral res.address)
      → IsLiteral tr.spec.address
      → IsLiteral tr.current_address
      → IsLiteral (next_address res tr)
  unfolding next_address
  next_address-IsLiteral res tr checked configured current = ground (arith, checked)

  -- Whatever a probe returns, the effective address of a transport whose configured and effective
  -- addresses are each empty or an IP literal is again empty or an IP literal.
  pub observe-IsLiteral :
      (res : ProbeResult) (at : ℤ) (tr : TransportRuntime)
      → IsLiteral tr.spec.address
      → IsLiteral tr.current_address
      → IsLiteral (observe (reject_invalid_address quoted res) at tr).current_address
  unfolding observe
  observe-IsLiteral res at tr configured current =
      next_address-IsLiteral (reject_invalid_address quoted res) tr (checked_address res) configured
        current
