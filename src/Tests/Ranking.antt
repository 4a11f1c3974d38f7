-- ===== src/Tests/Ranking.antt =====
-- The ranking of an uplink group with a failed first transport.
use nixnet_corbet_ch.Base.{◌≡◌, refl, true, false, List, [], ◌∷◌}
use nixnet_corbet_ch.Base.Text.{codes}
use nixnet_corbet_ch.Engine.{RankedInterface, up, down}
use nixnet_corbet_ch.Engine.Ranking
use nixnet_corbet_ch.Engine.Ranking.{uplink_ranking}
use nixnet_corbet_ch.Engine.Ranking.Laws.{AllDistinct, Ranks, HealthyFirst}
use nixnet_corbet_ch.Engine.Ranking.Published.{
  uplink_ranking-AllDistinct, uplink_ranking-Ranks, uplink_ranking_order,
}
use nixnet_corbet_ch.Tests.Fixtures.{uplinks, lan, overlay}

uplinks_ranked :
    uplink_ranking uplinks
    ≡ record { interface = codes "wan1"; healthy = true }
      ∷ record { interface = codes "wan0"; healthy = false }
      ∷ []
unfolding Ranking.runs
uplinks_ranked = refl

uplink_ranking-AllDistinct_example : AllDistinct (uplink_ranking uplinks)
uplink_ranking-AllDistinct_example = uplink_ranking-AllDistinct uplinks

uplink_ranking-Ranks_example : Ranks (codes "wan0") (uplink_ranking uplinks)
uplink_ranking-Ranks_example =
    uplink_ranking-Ranks uplinks 1 (overlay up) refl refl refl 0 (lan down) refl refl

uplink_ranking_order_example :
    (rest : List RankedInterface) × (uplink_ranking uplinks
      ≡ record { interface = codes "wan1"; healthy = true } ∷ rest)
    × HealthyFirst rest
uplink_ranking_order_example = uplink_ranking_order uplinks 1 (overlay up) refl refl refl refl
