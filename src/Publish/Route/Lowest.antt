-- ===== src/Publish/Route/Lowest.antt =====
-- The route whose gateway is authoritative: the first of the lowest metric.
use nixnet_corbet_ch.Base.{
  sym, subst, inl, inr, Bool-cases, List, [], ◌∷◌, arith, In, here, there, In-cases,
}
use nixnet_corbet_ch.Base.Int.{◌≤ℤ◌, ltb_ℤ}
use nixnet_corbet_ch.Publish.Route.{IpRoute, metric_of, lowest}

-- The first route of the list with the lowest metric is one of the list.
pub lowest-In : (r : IpRoute) (rs : List IpRoute) → In (lowest r rs) (r ∷ rs)
unfolding lowest
lowest-In r [] = here
lowest-In r (s ∷ ss) = elim (Bool-cases (ltb_ℤ (metric_of s) (metric_of r))) [
  | inl lower ↦ rw (lower, lowest) (there (lowest-In s ss))
  | inr not_lower ↦
      rw (not_lower, lowest)
        (elim (In-cases (lowest-In r ss)) [
          | inl first ↦ subst (λ (x : IpRoute). In x (r ∷ s ∷ ss)) (sym first) here
          | inr later ↦ there (there later)
        ])
]

lowest_le_first : (r : IpRoute) (rs : List IpRoute) → metric_of (lowest r rs) ≤ℤ metric_of r
unfolding lowest
lowest_le_first r [] = omega arith
lowest_le_first r (s ∷ ss) = elim (Bool-cases (ltb_ℤ (metric_of s) (metric_of r))) [
  | inl lower ↦ rw (lower, lowest) (let below = lowest_le_first s ss in ground arith)
  | inr not_lower ↦ rw (not_lower, lowest) (lowest_le_first r ss)
]

pub lowest_le :
    (r x : IpRoute) (rs : List IpRoute) → In x (r ∷ rs) → metric_of (lowest r rs) ≤ℤ metric_of x
unfolding lowest
lowest_le r x [] m = elim (In-cases m) [ inl e ↦ rw e (lowest_le_first r []) | inr n ↦ elim n [ ] ]
lowest_le r x (s ∷ ss) m = elim (In-cases m) [
  | inl e ↦ rw e (lowest_le_first r (s ∷ ss))
  | inr later ↦ elim (Bool-cases (ltb_ℤ (metric_of s) (metric_of r))) [
    | inl lower ↦ rw (lower, lowest) (lowest_le s x ss later)
    | inr not_lower ↦
        rw (not_lower, lowest)
          (elim (In-cases later) [
            | inl e ↦ rw e (let below = lowest_le_first r ss in ground arith)
            | inr n ↦ lowest_le r x ss (there n)
          ])
  ]
]
