-- ===== src/Engine/Ranking.antt =====
-- `uplink_ranking` of src/engine/mod.rs: the interfaces of an uplink group in published order.
pub mod Laws
pub mod Published
use nixnet_corbet_ch.Base.{
  ℕ, Bool, true, false, not, ◌&&◌, ◌||◌, List, [], ◌∷◌, Option, none, some, leb, ◌==◌,
  if◌then◌else◌, keep, get_elem?,
}
use nixnet_corbet_ch.Base.Int.{ℤ, ltb_ℤ, eqb_ℤ}
use nixnet_corbet_ch.Base.Text.{Text, is_empty, text_eq}
use nixnet_corbet_ch.Base.Sort.{sort, enumerate_from}
use nixnet_corbet_ch.Engine.{TransportRuntime, Group, RankedInterface, is_up}

abbrev pub Numbered : Type 0
Numbered = ℕ × TransportRuntime

-- `(priority, i)` of one transport is at most that of the other.
unfoldable pub place_le : ℤ → ℕ → ℤ → ℕ → Bool
place_le a i b j = ltb_ℤ a b || (eqb_ℤ a b && leb i j)

-- `(state != Up, priority, i)`, where `false < true`.
unfoldable pub key_le : Bool → ℤ → ℕ → Bool → ℤ → ℕ → Bool
key_le true a i false b j = true
key_le false a i true b j = false
key_le true a i true b j = place_le a i b j
key_le false a i false b j = place_le a i b j

unfoldable pub rank_le : Numbered → Numbered → Bool
unfolding key_le place_le
rank_le (i, a) (j, b) = key_le (is_up a.state) a.spec.priority i (is_up b.state) b.spec.priority j

abbrev pub contains : Text → List Text → Bool
contains s [] = false
contains s (t ∷ ts) = text_eq t s || contains s ts

-- The transports other than the winner, by rank.
unfoldable pub losers : ℕ → List TransportRuntime → List Numbered
losers winner transports =
    sort rank_le (keep (λ p. not (p.0 == winner)) (enumerate_from 0 transports))

-- The interfaces in order, without the empty ones and those seen before.
unfoldable pub collect : List Text → List Numbered → List RankedInterface
collect seen [] = []
collect seen ((i, tr) ∷ rest) =
    let interface = tr.spec.interface in
    let skipped = collect seen rest in
    let ranked =
      record { interface = interface; healthy = is_up tr.state }
      ∷ collect (interface ∷ seen) rest in
    if is_empty interface || contains interface seen then skipped else ranked

rank_winner : Group → Option ℕ → Option TransportRuntime → List RankedInterface
rank_winner g (some w) (some tr) =
    if g.route_metric then collect [] ((w, tr) ∷ losers w g.transports) else []
rank_winner g _ _ = []

abbrev winner_transport : Option ℕ → List TransportRuntime → Option TransportRuntime
winner_transport none trs = none
winner_transport (some w) trs = get_elem? trs w

-- Nothing without a winner in range, and nothing where the group does not publish metrics.
unfoldable pub uplink_ranking : Group → List RankedInterface
unfolding rank_winner
uplink_ranking g = rank_winner g g.winner (winner_transport g.winner g.transports)

-- Stands for all that a run of `uplink_ranking` computes with: a test unfolds this name.
unfoldable pub runs : Unit {0}
unfolding uplink_ranking losers collect sort enumerate_from rank_le text_eq
runs = tt
