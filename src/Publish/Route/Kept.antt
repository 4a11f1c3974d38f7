-- ===== src/Publish/Route/Kept.antt =====
-- An interface keeps a default route, and a settled one is left alone.
use nixnet_corbet_ch.Base.{
  ◌≡◌, sym, subst, inl, inr, Bool, true, false, ◌&&◌, Bool-cases, List, [], ◌∷◌, Result, ok, err,
  In,
}
use nixnet_corbet_ch.Base.Int.{ℤ, eqb_ℤ}
use nixnet_corbet_ch.Base.Text.{Text}
use nixnet_corbet_ch.Publish.Route.{
  Publication, Host, RoutePublisher, IpRoute, metric_of, lowest, move_to, installed, move_existing,
  is_single, reprioritize, reprioritize_shown, command, show_default, show_args, replace_args, ip,
}
use nixnet_corbet_ch.Publish.Route.Table.{RoutingTable, accepted}
use nixnet_corbet_ch.Publish.Route.Deleting.{run_cases, delete_others_at_metric}
use nixnet_corbet_ch.Publish.Route.Moved.{
  move_done, move_failed, move_existing_settled, move_existing_stale,
}

module _ {W : Type 0} (host : Host W) (self : RoutePublisher) (iface : Text) (metric : ℤ)
    (table : RoutingTable host self iface metric) where
  -- The interface has a default route.
  abbrev pub HasDefault : W → Type 0
  HasDefault w = (x : IpRoute) × In x (table.defaults w)

  installed-HasDefault :
      (w : W) (out : Publication) (chosen : IpRoute) (existing : List IpRoute)
      → accepted (host.spawn w (ip host self) (replace_args chosen.gateway iface metric)).0 ≡ true
      → HasDefault
          (installed host self
            (host.spawn w (ip host self) (replace_args chosen.gateway iface metric)).1
            out
            iface
            metric
            chosen
            existing
            (ok tt)).1
  unfolding installed
  installed-HasDefault w out chosen existing fine =
      let (x, m, e) = table.installs w chosen.gateway fine in
      (
        x,
        delete_others_at_metric host self iface metric table
            (host.spawn w (ip host self) (replace_args chosen.gateway iface metric)).1 _ existing x
            m e,
      )

  move_to-HasDefault :
      (w : W) (out : Publication) (chosen : IpRoute) (existing : List IpRoute)
      → HasDefault w
      → HasDefault (move_to host self w out iface metric chosen existing).1
  move_to-HasDefault w out chosen existing (x, m) =
      elim (run_cases host self iface metric table w (replace_args chosen.gateway iface metric)) [
        | inl (done, fine) ↦
            rw (move_done host self iface metric table w out chosen existing done)
              (installed-HasDefault w out chosen existing fine)
        | inr (e, failed) ↦
            let (y, n, same) = table.replace_keeps w chosen.gateway x m in
            rw (move_failed host self iface metric table w out chosen existing e failed) (y, n)
      ]

  move_existing-HasDefault :
      (w : W) (out : Publication) (healthy : Bool) (rs : List IpRoute)
      → HasDefault w
      → HasDefault (move_existing host self w out iface metric healthy rs).1
  unfolding move_existing
  move_existing-HasDefault w out true [] kept = kept
  move_existing-HasDefault w out false [] kept = kept
  move_existing-HasDefault w out healthy (r ∷ rs) kept =
      elim (Bool-cases (is_single host self (r ∷ rs) && eqb_ℤ (metric_of (lowest r rs)) metric)) [
        | inl settled ↦
            rw (move_existing_settled host self iface metric table w out healthy r rs settled) kept
        | inr stale ↦
            rw (move_existing_stale host self iface metric table w out healthy r rs stale)
              (move_to-HasDefault w out (lowest r rs) (r ∷ rs) kept)
      ]

  shown-HasDefault :
      (w : W) (out : Publication) (healthy : Bool) (listing : Result Text (List IpRoute))
      → HasDefault w
      → HasDefault (reprioritize_shown host self w out iface metric healthy listing).1
  unfolding reprioritize_shown
  shown-HasDefault w out healthy (err m) kept = kept
  shown-HasDefault w out healthy (ok rs) kept = move_existing-HasDefault w out healthy rs kept

  -- For any `ip` that reads and changes the table as `RoutingTable` says: reprioritizing never takes
  -- an interface's last default route, whichever of its commands fail or time out, and whether a
  -- failed one took effect or not.
  pub reprioritize-HasDefault :
      (w : W) (out : Publication) (healthy : Bool)
      → HasDefault w
      → HasDefault (reprioritize host self w out iface metric healthy).1
  unfolding reprioritize show_default command
  reprioritize-HasDefault w out healthy (x, m) =
      shown-HasDefault (host.spawn w (ip host self) (show_args iface)).1 out healthy _
        (subst (λ (l : List IpRoute). (y : IpRoute) × In y l) (sym (table.show_keeps w)) (x, m))
