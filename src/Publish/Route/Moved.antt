-- ===== src/Publish/Route/Moved.antt =====
-- The default route of an interface before and after it is reprioritized.
use nixnet_corbet_ch.Base.{
  ◌≡◌, refl, sym, ◌∙◌, ap, subst, inl, inr, Bool, true, false, ◌&&◌, Bool-cases, Option-cases, List,
  [], ◌∷◌, none, some, Result, ok, err, ok_inj, ok_not_err, arith, In, In-cases, here,
}
use nixnet_corbet_ch.Base.Int.{ℤ, eqb_ℤ, eqb_ℤ_iff, ◌≤ℤ◌}
use nixnet_corbet_ch.Base.Text.{Text}
use nixnet_corbet_ch.Publish.Route.{
  Publication, Host, RoutePublisher, BoundedOutput, IpRoute, metric_of, lowest, fail, move_to,
  installed, move_existing, is_single, reprioritize, reprioritize_shown, run, command, bounded,
  show_default, shown, show_args, replace_args, ip, unparseable,
}
use nixnet_corbet_ch.Publish.Route.Table.{RoutingTable}
use nixnet_corbet_ch.Publish.Route.Deleting.{Stands, installed-Stands, run_cases}
use nixnet_corbet_ch.Publish.Route.Lowest.{lowest-In, lowest_le}

module _ {W : Type 0} (host : Host W) (self : RoutePublisher) (iface : Text) (metric : ℤ)
    (table : RoutingTable host self iface metric) where
  fail_error : (m : Text) (out : Publication) → (e : Text) × ((fail m out).error ≡ some e)
  fail_error m out = elim (Option-cases out.error) [
    | inl e ↦ (m, ground arith)
    | inr (x, e) ↦ (x, ground arith)
  ]

  -- The replacement was accepted, or failed and ended the work on the interface.
  pub move_done :
      (w : W) (out : Publication) (chosen : IpRoute) (existing : List IpRoute)
      → (run host self w (replace_args chosen.gateway iface metric)).0 ≡ ok tt
      → move_to host self w out iface metric chosen existing
        ≡ installed host self
            (host.spawn w (ip host self) (replace_args chosen.gateway iface metric)).1
            out
            iface
            metric
            chosen
            existing
            (ok tt)
  unfolding move_to run command
  move_done w out chosen existing done =
      ap
        (installed host self
          (host.spawn w (ip host self) (replace_args chosen.gateway iface metric)).1 out iface
          metric chosen existing)
        done

  pub move_failed :
      (w : W) (out : Publication) (chosen : IpRoute) (existing : List IpRoute) (e : Text)
      → (run host self w (replace_args chosen.gateway iface metric)).0 ≡ err e
      → move_to host self w out iface metric chosen existing
        ≡ (fail e out, (host.spawn w (ip host self) (replace_args chosen.gateway iface metric)).1)
  unfolding move_to run command installed
  move_failed w out chosen existing e failed =
      ap
        (installed host self
          (host.spawn w (ip host self) (replace_args chosen.gateway iface metric)).1 out iface
          metric chosen existing)
        failed

  move_to-Stands :
      (w : W) (out : Publication) (chosen : IpRoute) (existing : List IpRoute)
      → table.defaults w ≡ existing
      → (move_to host self w out iface metric chosen existing).0.error ≡ none
      → Stands host self iface metric table chosen.gateway
          (move_to host self w out iface metric chosen existing).1
  move_to-Stands w out chosen existing listed clean =
      elim (run_cases host self iface metric table w (replace_args chosen.gateway iface metric)) [
        | inl (done, fine) ↦
            let e = move_done w out chosen existing done in
            rw e (
              installed-Stands host self iface metric table w out chosen existing fine listed
                (rw e at clean))
        | inr (m, failed) ↦
            let stopped : (fail m out).error ≡ none =
              rw (move_failed w out chosen existing m failed) at clean in
            cc (stopped, (fail_error m out).1)
      ]

  -- Nothing is asked of the kernel where the one route already stands at the metric.
  pub move_existing_settled :
      (w : W) (out : Publication) (healthy : Bool) (r : IpRoute) (rs : List IpRoute)
      → (is_single host self (r ∷ rs) && eqb_ℤ (metric_of (lowest r rs)) metric) ≡ true
      → move_existing host self w out iface metric healthy (r ∷ rs) ≡ (out, w)
  unfolding move_existing
  move_existing_settled w out healthy r rs settled = rw (settled, move_existing)

  pub move_existing_stale :
      (w : W) (out : Publication) (healthy : Bool) (r : IpRoute) (rs : List IpRoute)
      → (is_single host self (r ∷ rs) && eqb_ℤ (metric_of (lowest r rs)) metric) ≡ false
      → move_existing host self w out iface metric healthy (r ∷ rs)
        ≡ move_to host self w out iface metric (lowest r rs) (r ∷ rs)
  unfolding move_existing
  move_existing_stale w out healthy r rs stale = rw (stale, move_existing)

  single-Stands :
      (w : W) (r : IpRoute) (rs : List IpRoute)
      → table.defaults w ≡ r ∷ rs
      → (is_single host self (r ∷ rs) && eqb_ℤ (metric_of (lowest r rs)) metric) ≡ true
      → Stands host self iface metric table (lowest r rs).gateway w
  unfolding lowest
  single-Stands w r [] listed settled = (
    (r, subst (λ (l : List IpRoute). In r l) (sym listed) here),
    λ x m. elim (In-cases (subst (λ (l : List IpRoute). In x l) listed m)) [
      | inl e ↦ (
        ap (λ (y : IpRoute). y.gateway) e,
        ap metric_of e ∙ (eqb_ℤ_iff (metric_of r) metric).0 settled,
      )
      | inr n ↦ elim n [ ]
    ],
  )
  single-Stands w r (s ∷ ss) listed settled = cc

  move_existing-Stands :
      (w : W) (out : Publication) (healthy : Bool) (r : IpRoute) (rs : List IpRoute)
      → table.defaults w ≡ r ∷ rs
      → (move_existing host self w out iface metric healthy (r ∷ rs)).0.error ≡ none
      → Stands host self iface metric table
          (lowest r rs).gateway
          (move_existing host self w out iface metric healthy (r ∷ rs)).1
  move_existing-Stands w out healthy r rs listed clean =
      elim (Bool-cases (is_single host self (r ∷ rs) && eqb_ℤ (metric_of (lowest r rs)) metric)) [
        | inl settled ↦
            rw (move_existing_settled w out healthy r rs settled)
              (single-Stands w r rs listed settled)
        | inr stale ↦
            let e = move_existing_stale w out healthy r rs stale in
            rw e (move_to-Stands w out (lowest r rs) (r ∷ rs) listed (rw e at clean))
      ]

  -- A listing that the publisher reads is the table's.
  shown_right :
      (w : W) (r : Result Text BoundedOutput) (rs : List IpRoute)
      → (host.spawn w (ip host self) (show_args iface)).0 ≡ r
      → shown host self (show_args iface) (bounded host self (show_args iface) r) ≡ ok rs
      → rs ≡ table.defaults w
  unfolding shown bounded unparseable
  shown_right w (err e) rs at read = cc
  shown_right w (ok out) rs at read = elim (Bool-cases out.timed_out) [
    | inl late ↦ absurd (ok_not_err (sym (rw (late, bounded) at read)))
    | inr in_time ↦ elim (Bool-cases out.success) [
      | inr failed ↦ absurd (ok_not_err (sym (rw (in_time, bounded, failed, shown) at read)))
      | inl fine ↦ elim (table.shows w out at fine) [
        | inl (blank, nothing) ↦
            ok_inj (sym (rw (in_time, bounded, fine, shown, blank) at read)) ∙ sym nothing
        | inr (full, parsed) ↦
            ok_inj (sym (rw (in_time, bounded, fine, shown, full, parsed, unparseable) at read))
      ]
    ]
  ]

  shown_all :
      (w : W) (out : Publication) (healthy : Bool) (r : IpRoute) (rs : List IpRoute)
      (listing : Result Text (List IpRoute))
      → table.defaults w ≡ r ∷ rs
      → ((l : List IpRoute) → listing ≡ ok l → l ≡ r ∷ rs)
      → (reprioritize_shown host self w out iface metric healthy listing).0.error ≡ none
      → Stands host self iface metric table
          (lowest r rs).gateway
          (reprioritize_shown host self w out iface metric healthy listing).1
  unfolding reprioritize_shown
  shown_all w out healthy r rs (err m) listed right clean = cc (clean, (fail_error m out).1)
  shown_all w out healthy r rs (ok l) listed right clean =
      let e = right l refl in rw e (move_existing-Stands w out healthy r rs listed (rw e at clean))

  -- For any `ip` that reads and changes the table as `RoutingTable` says: reprioritized without an
  -- error, an interface that had a default route has one still, and its default routes at the wanted
  -- metric only, over the gateway of a route that had the lowest metric before.
  pub reprioritize-Stands :
      (w : W) (out : Publication) (healthy : Bool) (r : IpRoute) (rs : List IpRoute)
      → table.defaults w ≡ r ∷ rs
      → (reprioritize host self w out iface metric healthy).0.error ≡ none
      → (chosen : IpRoute) × In chosen (r ∷ rs)
        × ((x : IpRoute) → In x (r ∷ rs) → metric_of chosen ≤ℤ metric_of x)
        × Stands host self iface metric table chosen.gateway
            (reprioritize host self w out iface metric healthy).1
  unfolding reprioritize show_default command
  reprioritize-Stands w out healthy r rs listed clean = (
    lowest r rs,
    lowest-In r rs,
    (λ x m. lowest_le r x rs m),
    shown_all (host.spawn w (ip host self) (show_args iface)).1 out healthy r rs _
        (table.show_keeps w ∙ listed)
        (λ l read.
          shown_right w (host.spawn w (ip host self) (show_args iface)).0 l refl read ∙ listed)
        clean,
  )
