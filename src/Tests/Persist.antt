-- ===== src/Tests/Persist.antt =====
-- A state file written and restored, and restored too late.
use nixnet_corbet_ch.Base.{◌≡◌, refl, inr, some, []}
use nixnet_corbet_ch.Base.Int.{ℤ, pos}
use nixnet_corbet_ch.Base.Text.{codes}
use nixnet_corbet_ch.Engine.Persist
use nixnet_corbet_ch.Engine.Persist.{PersistedGroup, restore_group, dump_group, dumped}
use nixnet_corbet_ch.Engine.Persist.Valid.{restore_group-IsPublishable, IsPublishable}
use nixnet_corbet_ch.Engine.Persist.RoundTrip.{HasKeys, cold_group}
use nixnet_corbet_ch.Tests.Fixtures.{recovered}

abbrev pub soon : ℤ
soon = pos 5000000000

-- Past the age bound of a minute.
abbrev too_late : ℤ
too_late = pos 70000000000

-- What `dump` writes of the group.
abbrev pub written : PersistedGroup
written = dumped (codes "192.0.2.20") recovered

dumped_group : dump_group recovered ≡ some written
unfolding Persist.runs
dumped_group = refl

restored_too_late : (restore_group written too_late (cold_group recovered)).last_published_addr ≡ []
unfolding Persist.runs
restored_too_late = refl

pub keys : HasKeys recovered.transports
unfolding Persist.runs
keys = (refl, (refl, tt), (refl, tt, tt))

pub publishable : IsPublishable soon recovered
unfolding Persist.runs
publishable = inr (refl, λ p q. refl)

restore_group-IsPublishable_example :
    IsPublishable too_late (restore_group written too_late (cold_group recovered))
restore_group-IsPublishable_example =
    restore_group-IsPublishable written too_late (cold_group recovered)
