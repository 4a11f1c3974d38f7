-- ===== src/Tests/Route.antt =====
-- An interface whose default route is moved from metric 600 to metric 100.
use nixnet_corbet_ch.Base.{◌≡◌, refl, true, List, [], ◌∷◌, none, some, In, ap}
use nixnet_corbet_ch.Base.Int.{pos, ◌≤ℤ◌}
use nixnet_corbet_ch.Base.Text.{codes, text_eq}
use nixnet_corbet_ch.Engine.{RankedInterface}
use nixnet_corbet_ch.Publish.Route
use nixnet_corbet_ch.Publish.Route.{
  Host, RoutePublisher, BoundedOutput, IpRoute, Publication, metric_of, reprioritize, apply,
  target_metric, ip, show_args, replace_args, del_args,
}
use nixnet_corbet_ch.Publish.Route.Deleting.{Stands}
use nixnet_corbet_ch.Publish.Route.Moved.{reprioritize-Stands}
use nixnet_corbet_ch.Publish.Route.Kept.{reprioritize-HasDefault, HasDefault}
use nixnet_corbet_ch.Tests.IpTable.{
  Phase, before, after, iface, old, host, self, table, listed_before, old_before, spawn, from_str,
  same_args,
}

abbrev start : Publication
start = record { changes = []; error = none }

abbrev moved : Publication
moved = record {
  changes = record { interface = iface; from_metric = pos 600; to_metric = pos 100 } ∷ [];
  error = none;
}

-- The command line of `ip` that deletes a route.
delete_command :
    del_args iface old
    ≡ codes "route"
      ∷ codes "del"
      ∷ codes "default"
      ∷ codes "via"
      ∷ codes "192.0.2.1"
      ∷ codes "dev"
      ∷ codes "wan0"
      ∷ codes "metric"
      ∷ codes "600"
      ∷ []
unfolding Route.runs
delete_command = refl

move_run : reprioritize host self before start iface (pos 100) true ≡ (moved, after)
unfolding Route.runs spawn from_str same_args text_eq
move_run = refl

settled_run : reprioritize host self after start iface (pos 100) true ≡ (start, after)
unfolding Route.runs spawn from_str same_args text_eq
settled_run = refl

reprioritize-Stands_example :
    (chosen : IpRoute) × In chosen (old ∷ [])
    × ((x : IpRoute) → In x (old ∷ []) → metric_of chosen ≤ℤ metric_of x)
    × Stands host self iface
        (pos 100)
        table
        chosen.gateway
        (reprioritize host self before start iface (pos 100) true).1
reprioritize-Stands_example =
    reprioritize-Stands host self iface (pos 100) table before start true old [] listed_before
      (ap (λ (p : Publication × Phase). p.0.error) move_run)

reprioritize-HasDefault_example :
    HasDefault host self iface
      (pos 100)
      table
      (reprioritize host self before start iface (pos 100) true).1
reprioritize-HasDefault_example =
    reprioritize-HasDefault host self iface (pos 100) table before start true (old, old_before)

abbrev ranked : List RankedInterface
ranked = record { interface = iface; healthy = true } ∷ []

abbrev failed : Publication
failed = record { changes = []; error = some (codes "ip: no such device") }
