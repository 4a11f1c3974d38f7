-- ===== src/Engine/Ranking/Published.antt =====
-- What `uplink_ranking` publishes for a group with a winner.
use nixnet_corbet_ch.Base.{
  ℕ, ◌≡◌, sym, ◌∙◌, ap, subst, inl, inr, true, false, not, List, [], ◌∷◌, some, arith, ◌==◌, ==_iff,
  get_elem?, keep, In, here, there, In-keep, Bool-cases, some_inj, Option-cases,
}
use nixnet_corbet_ch.Base.Text.{is_empty}
use nixnet_corbet_ch.Base.Sort.{IsSorted, In-sort, sort-IsSorted, enumerate_from, In-enumerate_from}
use nixnet_corbet_ch.Engine.{TransportRuntime, Group, RankedInterface, is_up}
use nixnet_corbet_ch.Engine.Ranking.Laws.{
  AllDistinct, Ranks, HealthyFirst, collect-AllDistinct, collect-Ranks, collect-HealthyFirst,
  rank_le_trans, rank_le-total,
}
use nixnet_corbet_ch.Engine.Ranking.{Numbered, rank_le, losers, collect, uplink_ranking}

ranking_of_winner :
    (g : Group) (w : ℕ) (tr : TransportRuntime)
    → g.winner ≡ some w
    → get_elem? g.transports w ≡ some tr
    → g.route_metric ≡ true
    → uplink_ranking g ≡ collect [] ((w, tr) ∷ losers w g.transports)
unfolding uplink_ranking
ranking_of_winner g w tr e at r = rw e (rw (at, r))

losers-IsSorted : (w : ℕ) (trs : List TransportRuntime) → IsSorted rank_le (losers w trs)
unfolding losers
losers-IsSorted w trs =
    sort-IsSorted rank_le rank_le_trans rank_le-total
      (keep (λ p. not (p.0 == w)) (enumerate_from 0 trs))

losers-In :
    (w : ℕ) (trs : List TransportRuntime) (k : ℕ) (tr : TransportRuntime)
    → get_elem? trs k ≡ some tr
    → (k == w) ≡ false
    → In (k, tr) (losers w trs)
unfolding losers
losers-In w trs k tr at ne = In-sort rank_le _ (
    In-keep (λ (p : Numbered). not (p.0 == w)) (enumerate_from 0 trs)
      (subst (λ n. In (n, tr) (enumerate_from 0 trs)) (omega arith) (In-enumerate_from 0 trs k at))
      (rw ne))

-- A published ranking never names an interface twice, nor an empty one, whatever the group is: no
-- two metrics are asked for one interface.
pub uplink_ranking-AllDistinct : (g : Group) → AllDistinct (uplink_ranking g)
unfolding uplink_ranking
uplink_ranking-AllDistinct g = elim (Option-cases g.winner) [
  | inl e ↦ rw (e, uplink_ranking) tt
  | inr (w, e) ↦ elim (Option-cases (get_elem? g.transports w)) [
    | inl at ↦ rw (e, uplink_ranking) (rw (at, uplink_ranking) tt)
    | inr (tr, at) ↦ elim (Bool-cases g.route_metric) [
      | inl r ↦
          rw (ranking_of_winner g w tr e at r)
            (collect-AllDistinct [] ((w, tr) ∷ losers w g.transports))
      | inr r ↦ rw (e, uplink_ranking) (rw (at, uplink_ranking) (rw (r, uplink_ranking) tt))
    ]
  ]
]

-- Where a group publishes metrics and has a winner, the ranking covers every transport of the
-- group that names an interface: those that lost or failed are ranked too.
pub uplink_ranking-Ranks :
    (g : Group) (w : ℕ) (tw : TransportRuntime)
    → g.winner ≡ some w
    → get_elem? g.transports w ≡ some tw
    → g.route_metric ≡ true
    → (k : ℕ) (tr : TransportRuntime) → get_elem? g.transports k ≡ some tr
    → is_empty tr.spec.interface ≡ false
    → Ranks tr.spec.interface (uplink_ranking g)
uplink_ranking-Ranks g w tw e at r k tr k_at n =
    rw (ranking_of_winner g w tw e at r)
      (elim (collect-Ranks [] ((w, tw) ∷ losers w g.transports) {p = (k, tr)} listed n) [
        | inl seen ↦ cc
        | inr ranked ↦ ranked
      ])
  where
    listed : In {A = Numbered} (k, tr) ((w, tw) ∷ losers w g.transports)
    listed = elim (Bool-cases (k == w)) [
      | inl same ↦
          let k_w = (==_iff k w).0 same in
          let tr_w : tr ≡ tw = some_inj (sym k_at ∙ ap (get_elem? g.transports) k_w ∙ at) in
          subst (λ (p : Numbered). In p ((w, tw) ∷ losers w g.transports))
            (λ i. (sym k_w i, sym tr_w i)) here
      | inr other ↦ there (losers-In w g.transports k tr k_at other)
    ]

-- The winner's interface stands first, and behind it the healthy interfaces stand before those
-- that are not.
pub uplink_ranking_order :
    (g : Group) (w : ℕ) (tw : TransportRuntime)
    → g.winner ≡ some w
    → get_elem? g.transports w ≡ some tw
    → g.route_metric ≡ true
    → is_empty tw.spec.interface ≡ false
    → (rest : List RankedInterface) × (uplink_ranking g
        ≡ record { interface = tw.spec.interface; healthy = is_up tw.state } ∷ rest)
      × HealthyFirst rest
unfolding collect
uplink_ranking_order g w tw e at r n =
    let behind = collect (tw.spec.interface ∷ []) (losers w g.transports) in
    (
      behind,
      ranking_of_winner g w tw e at r ∙ rw n,
      collect-HealthyFirst (tw.spec.interface ∷ []) (losers w g.transports)
          (losers-IsSorted w g.transports),
    )
