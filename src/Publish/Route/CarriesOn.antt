-- ===== src/Publish/Route/CarriesOn.antt =====
-- A failure of a publication does not keep it from working on the interfaces behind.
use nixnet_corbet_ch.Base.{◌≡◌}
use nixnet_corbet_ch.Base.Text.{Text}
use nixnet_corbet_ch.Publish.Route.{Publication}

-- The same changes, and the same world.
abbrev IsAlike : {W : Type 0} → Publication × W → Publication × W → Type 0
IsAlike a b = (a.0.changes ≡ b.0.changes) × (a.1 ≡ b.1)
