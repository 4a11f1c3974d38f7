-- ===== src/Publish/Route/Table.antt =====
-- What reprioritizing does to the default routes of its interface, whatever the `ip` commands do
-- within what `ip-route` documents.
use nixnet_corbet_ch.Base.{
  ◌≡◌, ◌⊎◌, Bool, true, false, not, ◌&&◌, List, [], ◌∷◌, ◌++◌, Option, Result, ok, err, In, ◌≢◌,
}
use nixnet_corbet_ch.Base.Int.{ℤ}
use nixnet_corbet_ch.Base.Text.{Text, codes, is_empty}
use nixnet_corbet_ch.Base.Str.{trim, to_string}
use nixnet_corbet_ch.Publish.Route.{
  Host, RoutePublisher, BoundedOutput, IpRoute, metric_of, via, ip,
}

-- A command that ran in time and exited with 0.
abbrev pub accepted : Result Text BoundedOutput → Bool
accepted (err e) = false
accepted (ok out) = out.success && not out.timed_out

-- What a listing says: nothing, or JSON that reads as the routes.
abbrev pub Prints : {W : Type 0} → Host W → Text → List IpRoute → Type 0
Prints host stdout routes =
    ((is_empty (trim stdout) ≡ true) × (routes ≡ []))
    ⊎ ((is_empty (trim stdout) ≡ false) × (host.from_str (trim stdout) ≡ ok routes))

-- The command lines of `ip-route` that the laws below are about.
abbrev pub show_line : Text → List Text
show_line iface =
    codes "-j" ∷ codes "route" ∷ codes "show" ∷ codes "default" ∷ codes "dev" ∷ iface ∷ []

abbrev pub replace_line : Option Text → Text → ℤ → List Text
replace_line gateway iface metric =
    codes "route" ∷ codes "replace" ∷ codes "default" ∷ via gateway
    ++ (codes "dev" ∷ iface ∷ codes "metric" ∷ to_string metric ∷ [])

abbrev pub delete_line : Text → IpRoute → List Text
delete_line iface r =
    codes "route" ∷ codes "del" ∷ codes "default" ∷ via r.gateway
    ++ (codes "dev" ∷ iface ∷ codes "metric" ∷ to_string (metric_of r) ∷ [])

-- The default routes of one interface, as `ip-route` documents that the commands of the publisher
-- read and change them. A command that is not accepted may or may not have taken effect.
pub record RoutingTable {W : Type 0} (host : Host W) (self : RoutePublisher) (iface : Text)
    (metric : ℤ) : Type 0 where
  pub defaults : W → List IpRoute
  pub shows :
      (w : W) (out : BoundedOutput)
      → (host.spawn w (ip host self) (show_line iface)).0 ≡ ok out
      → out.success ≡ true
      → Prints host out.stdout (defaults w)
  pub show_keeps : (w : W) → defaults (host.spawn w (ip host self) (show_line iface)).1 ≡ defaults w
  pub replaces :
      (w : W) (gateway : Option Text) (x : IpRoute)
      → accepted (host.spawn w (ip host self) (replace_line gateway iface metric)).0 ≡ true
      → In x (defaults (host.spawn w (ip host self) (replace_line gateway iface metric)).1)
      → ((x.gateway ≡ gateway) × (metric_of x ≡ metric))
        ⊎ (In x (defaults w) × (metric_of x ≢ metric))
  pub installs :
      (w : W) (gateway : Option Text)
      → accepted (host.spawn w (ip host self) (replace_line gateway iface metric)).0 ≡ true
      → (x : IpRoute) × In x
          (defaults (host.spawn w (ip host self) (replace_line gateway iface metric)).1)
        × (metric_of x ≡ metric)
  pub replace_keeps :
      (w : W) (gateway : Option Text) (x : IpRoute)
      → In x (defaults w)
      → (y : IpRoute) × In y
          (defaults (host.spawn w (ip host self) (replace_line gateway iface metric)).1)
        × (metric_of y ≡ metric_of x)
  pub deletes :
      (w : W) (r : IpRoute)
      → metric_of r ≢ metric
      → accepted (host.spawn w (ip host self) (delete_line iface r)).0 ≡ true
      → ¬ In r (defaults (host.spawn w (ip host self) (delete_line iface r)).1)
  pub delete_only :
      (w : W) (r x : IpRoute)
      → In x (defaults (host.spawn w (ip host self) (delete_line iface r)).1)
      → In x (defaults w)
  pub delete_keeps :
      (w : W) (r x : IpRoute)
      → metric_of r ≢ metric
      → In x (defaults w)
      → metric_of x ≡ metric
      → In x (defaults (host.spawn w (ip host self) (delete_line iface r)).1)
