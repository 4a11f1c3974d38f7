-- ===== src/Engine/Decide.antt =====
-- `Engine::decide_action_locked` of src/engine/mod.rs: winner selection of one group at one tick.
-- The result is `none` where the source indexes a transport that is not there, which panics.
pub mod Candidates
pub mod Tick
pub mod Laws
pub mod Selection
pub mod Publication
pub mod Settled
use nixnet_corbet_ch.Base.{
  ℕ, zero, Bool, true, false, not, ◌&&◌, List, [], ◌∷◌, Option, none, some, ◌==◌, if◌then◌else◌,
  keep, map, any, get_elem?, is_some, is_index, unwrap_or, ◌>>=◌,
}
use nixnet_corbet_ch.Base.Int.{ℤ, pos, ◌-ℤ◌, ◌*ℤ◌, ltb_ℤ, leb_ℤ, eqb_ℤ, max_ℤ}
use nixnet_corbet_ch.Base.Text.{Text, is_empty, text_eq}
use nixnet_corbet_ch.Base.Sort.{sort, enumerate_from}
use nixnet_corbet_ch.Config.{on_all_down_last_known_good, on_all_down_unpublish}
use nixnet_corbet_ch.Engine.{
  TransportRuntime, GroupKind, peer, uplink, Group, Action, nothing, publish_peers, publish_uplink,
  RankedInterface, is_up,
}
use nixnet_corbet_ch.Engine.Staleness.{staleness, is_fresh, seconds, milliseconds}
use nixnet_corbet_ch.Engine.Ranking
use nixnet_corbet_ch.Engine.Ranking.{uplink_ranking}

abbrev pub is_peer : GroupKind → Bool
is_peer peer = true
is_peer uplink = false

-- A currently healthy candidate.
pub record Candidate : Type 0 where
  pub idx : ℕ
  pub priority : ℤ

abbrev pub priority_le : Candidate → Candidate → Bool
priority_le a b = leb_ℤ a.priority b.priority

abbrev to_candidate : ℕ × TransportRuntime → Candidate
to_candidate (i, tr) = record { idx = i; priority = tr.spec.priority }

-- The healthy transports by priority, those of one priority in list order.
unfoldable pub candidates : List TransportRuntime → List Candidate
candidates trs =
    sort priority_le (map to_candidate (keep (λ p. is_up p.1.state) (enumerate_from 0 trs)))

ranking_action : Group → List RankedInterface → Action
ranking_action g [] = nothing
ranking_action g (r ∷ rs) = publish_uplink (r ∷ rs) g.metric_base g.metric_step

-- The closure `uplink_action`.
unfoldable pub uplink_action : Group → Action
unfolding ranking_action
uplink_action g = ranking_action g (uplink_ranking g)

withdraw : Group → Group
withdraw g = record g { winner = none; last_published_addr = [] }

-- No transport is up.
unfoldable pub all_down : Group → ℤ → Group × Action
unfolding withdraw
all_down g now =
    let d = record g { degraded = true } in
    if is_peer g.kind && text_eq g.on_all_down on_all_down_unpublish && is_some g.winner
    then (withdraw d, publish_peers false)
    else if is_peer g.kind
        && text_eq g.on_all_down on_all_down_last_known_good
        && not (is_empty g.last_published_addr)
    then (if is_fresh (staleness g.max_age_sec g.last_confirmed_at now)
        then (d, publish_peers true)
        else (withdraw d, publish_peers false))
    else if is_peer g.kind
    then (d, publish_peers true)
    else (d, uplink_action d)

-- The best candidate, or the current winner where it ties with it.
unfoldable pub best_winner : Option ℕ → Candidate → List Candidate → ℕ
best_winner none first rest = first.idx
best_winner (some w) first rest =
    if any (λ c. eqb_ℤ c.priority first.priority && c.idx == w) (first ∷ rest) then w else first.idx

-- Whether a winner of `min_hold_ms` that was chosen at `since` may not be replaced yet.
unfoldable pub in_hold : ℤ → Option ℤ → ℤ → Bool
in_hold min_hold_ms since now =
    ltb_ℤ (now -ℤ unwrap_or since now) (milliseconds (max_ℤ min_hold_ms (pos 0)))

-- The winner after damping, and whether it is another one: a healthy winner within its hold stays.
unfoldable pub damp : Group → ℤ → ℕ → Option (ℕ × Bool)
damp g now best = if is_index g.winner best then some (best, false) else elim g.winner [
  | none ↦ some (best, true)
  | some w ↦ get_elem? g.transports w >>= λ tr. some (
      if is_up tr.state && in_hold g.min_hold_ms g.winner_since now
      then (w, false)
      else (best, true))
]

-- The settled part of a tick with a healthy transport, given the winner and its runtime.
unfoldable pub settle : Group → ℤ → ℕ → Bool → TransportRuntime → Group × Action
settle g now w changed tr =
    let address_drift =
      not changed
      && is_some g.winner
      && is_peer g.kind
      && not (is_empty tr.current_address)
      && not (text_eq tr.current_address g.last_published_addr) in
    let confirmed = record g { degraded = false; last_confirmed_at = tr.last_success_at } in
    if not changed && not address_drift
    then (confirmed, if is_peer g.kind then publish_peers true else uplink_action confirmed)
    else let won =
        if changed
        then record confirmed { winner = some w; winner_since = some now }
        else confirmed in
      if is_peer g.kind
      then (record won { last_published_addr = tr.current_address }, publish_peers false)
      else (won, uplink_action won)

-- At least one transport is up.
unfoldable pub some_up : Group → ℤ → Candidate → List Candidate → Option (Group × Action)
some_up g now first rest = damp g now (best_winner g.winner first rest) >>= λ d.
    get_elem? g.transports d.0 >>= λ tr. some (settle g now d.0 d.1 tr)

decide_among : List Candidate → Group → ℤ → Option (Group × Action)
decide_among [] g now = some (all_down g now)
decide_among (c ∷ cs) g now = some_up g now c cs

unfoldable pub decide_action : Group → ℤ → Option (Group × Action)
unfolding decide_among
decide_action g now = decide_among (candidates g.transports) g now

-- Stands for all that a run of `decide_action` computes with: a test unfolds this name.
unfoldable pub runs : Unit {0}
unfolding decide_action candidates sort enumerate_from all_down some_up best_winner damp in_hold
    settle uplink_action Ranking.runs staleness seconds milliseconds ◌-ℤ◌ ◌*ℤ◌ text_eq
runs = tt
