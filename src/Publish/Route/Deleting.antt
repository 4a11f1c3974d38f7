-- ===== src/Publish/Route/Deleting.antt =====
-- The routes of an interface while the publisher's commands run, first of all its deletions.
use nixnet_corbet_ch.Base.{
  ◌≡◌, refl, ◌∙◌, ap, subst, ◌⊎◌, inl, inr, true, false, Bool-cases, Option-cases, List, [], ◌∷◌,
  Option, none, some, Result, ok, err, arith, In, In-cases, ◌≢◌,
}
use nixnet_corbet_ch.Base.Int.{ℤ, eqb_ℤ, eqb_ℤ_iff}
use nixnet_corbet_ch.Base.Text.{Text}
use nixnet_corbet_ch.Publish.Route.{
  Publication, Host, RoutePublisher, BoundedOutput, IpRoute, metric_of, note, delete_others,
  installed, run, ran, command, bounded, del_args, replace_args, ip,
}
use nixnet_corbet_ch.Publish.Route.Errors.{delete_others_keeps}
use nixnet_corbet_ch.Publish.Route.Table.{RoutingTable, accepted}

note_failed :
    {W : Type 0} (host : Host W) (self : RoutePublisher) (m : Text) (out : Publication)
    → (e : Text) × ((note host self (err m) out).error ≡ some e)
note_failed host self m out = elim (Option-cases out.error) [
  | inl e ↦ (m, ground arith)
  | inr (x, e) ↦ (x, ground arith)
]

module _ {W : Type 0} (host : Host W) (self : RoutePublisher) (iface : Text) (metric : ℤ)
    (table : RoutingTable host self iface metric) where
  ran_cases :
      (args : List Text) (r : Result Text BoundedOutput)
      → ((ran host self args (bounded host self args r) ≡ ok tt) × (accepted r ≡ true))
        ⊎ ((e : Text) × (ran host self args (bounded host self args r) ≡ err e))
  unfolding ran bounded
  ran_cases args (err e) = inr (_, refl)
  ran_cases args (ok out) = elim (Bool-cases out.timed_out) [
    | inl late ↦ rw (late, bounded) (inr (_, refl))
    | inr in_time ↦ elim (Bool-cases out.success) [
      | inl fine ↦ rw (in_time, bounded, fine, ran) (inl (refl, refl))
      | inr failed ↦ rw (in_time, bounded, failed, ran) (inr (_, refl))
    ]
  ]

  pub run_cases :
      (w : W) (args : List Text)
      → (((run host self w args).0 ≡ ok tt)
          × (accepted (host.spawn w (ip host self) args).0 ≡ true))
        ⊎ ((e : Text) × ((run host self w args).0 ≡ err e))
  unfolding run command
  run_cases w args = ran_cases args (host.spawn w (ip host self) args).0

  -- The route `r` is left alone, or asked to be deleted.
  delete_same :
      (w : W) (out : Publication) (r : IpRoute) (rs : List IpRoute)
      → eqb_ℤ (metric_of r) metric ≡ true
      → delete_others host self w out iface metric (r ∷ rs)
        ≡ delete_others host self w out iface metric rs
  unfolding delete_others
  delete_same w out r rs same = rw (same, delete_others)

  delete_other :
      (w : W) (out : Publication) (r : IpRoute) (rs : List IpRoute)
      → eqb_ℤ (metric_of r) metric ≡ false
      → delete_others host self w out iface metric (r ∷ rs)
        ≡ delete_others host self
            (run host self w (del_args iface r)).1
            (note host self (run host self w (del_args iface r)).0 out)
            iface
            metric
            rs
  unfolding delete_others
  delete_other w out r rs other = rw (other, delete_others)

  unequal : (r : IpRoute) → eqb_ℤ (metric_of r) metric ≡ false → metric_of r ≢ metric
  unequal r other e = cc (other, (eqb_ℤ_iff (metric_of r) metric).1 e)

  delete_others_only :
      (w : W) (out : Publication) (rs : List IpRoute) (x : IpRoute)
      → In x (table.defaults (delete_others host self w out iface metric rs).1)
      → In x (table.defaults w)
  unfolding delete_others run command
  delete_others_only w out [] x m = m
  delete_others_only w out (r ∷ rs) x m = elim (Bool-cases (eqb_ℤ (metric_of r) metric)) [
    | inl same ↦ delete_others_only w out rs x (rw (delete_same w out r rs same) at m)
    | inr other ↦ table.delete_only w r x (
        delete_others_only (run host self w (del_args iface r)).1
          (note host self (run host self w (del_args iface r)).0 out) rs x
          (rw (delete_other w out r rs other) at m))
  ]

  pub delete_others_at_metric :
      (w : W) (out : Publication) (rs : List IpRoute) (x : IpRoute)
      → In x (table.defaults w)
      → metric_of x ≡ metric
      → In x (table.defaults (delete_others host self w out iface metric rs).1)
  unfolding delete_others run command
  delete_others_at_metric w out [] x m e = m
  delete_others_at_metric w out (r ∷ rs) x m e = elim (Bool-cases (eqb_ℤ (metric_of r) metric)) [
    | inl same ↦ rw (delete_same w out r rs same) (delete_others_at_metric w out rs x m e)
    | inr other ↦ rw (delete_other w out r rs other) (
        delete_others_at_metric (run host self w (del_args iface r)).1
          (note host self (run host self w (del_args iface r)).0 out) rs x
          (table.delete_keeps w r x (unequal r other) m e) e)
  ]

  delete_first_gone :
      (w : W) (out : Publication) (r x : IpRoute) (rs : List IpRoute)
      → metric_of r ≢ metric
      → x ≡ r
      → (delete_others host self
          (run host self w (del_args iface r)).1
          (note host self (run host self w (del_args iface r)).0 out)
          iface
          metric
          rs).0.error
        ≡ none
      → ¬ In x (
          table.defaults
            (delete_others host self
              (run host self w (del_args iface r)).1
              (note host self (run host self w (del_args iface r)).0 out)
              iface
              metric
              rs).1)
  unfolding run command
  delete_first_gone w out r x rs other first clean left = elim (run_cases w (del_args iface r)) [
    | inl (done, fine) ↦ table.deletes w r other fine (
        subst
          (λ (y : IpRoute).
            In y (table.defaults (host.spawn w (ip host self) (del_args iface r)).1))
          first
          (delete_others_only (run host self w (del_args iface r)).1
            (note host self (run host self w (del_args iface r)).0 out) rs x left))
    | inr (e, failed) ↦
        let (m, noted) = note_failed host self e out in
        cc (
          clean,
          delete_others_keeps host self (run host self w (del_args iface r)).1
              (note host self (run host self w (del_args iface r)).0 out) iface metric rs m
              (rw failed noted),
        )
  ]

  delete_others_gone :
      (w : W) (out : Publication) (rs : List IpRoute) (x : IpRoute)
      → (delete_others host self w out iface metric rs).0.error ≡ none
      → In x rs
      → metric_of x ≢ metric
      → ¬ In x (table.defaults (delete_others host self w out iface metric rs).1)
  delete_others_gone w out [] x clean m other left = elim m [ ]
  delete_others_gone w out (r ∷ rs) x clean m other left =
      elim (Bool-cases (eqb_ℤ (metric_of r) metric)) [
        | inl same ↦
            let e = delete_same w out r rs same in
            elim (In-cases m) [
              | inl first ↦ other (ap metric_of first ∙ (eqb_ℤ_iff (metric_of r) metric).0 same)
              | inr later ↦ delete_others_gone w out rs x (rw e at clean) later other (rw e at left)
            ]
        | inr off ↦
            let e = delete_other w out r rs off in
            elim (In-cases m) [
              | inl first ↦
                  delete_first_gone w out r x rs (unequal r off) first (rw e at clean)
                    (rw e at left)
              | inr later ↦
                  delete_others_gone (run host self w (del_args iface r)).1
                    (note host self (run host self w (del_args iface r)).0 out) rs x (rw e at clean)
                    later other (rw e at left)
            ]
      ]

  abbrev OnlyThere : Option Text → W → Type 0
  OnlyThere gateway w =
      (x : IpRoute) → In x (table.defaults w) → (x.gateway ≡ gateway) × (metric_of x ≡ metric)

  -- The interface has a default route, and every one it has stands at the metric, over the given
  -- gateway.
  abbrev pub Stands : Option Text → W → Type 0
  Stands gateway w = ((x : IpRoute) × In x (table.defaults w)) × OnlyThere gateway w

  pub installed-Stands :
      (w : W) (out : Publication) (chosen : IpRoute) (existing : List IpRoute)
      → accepted (host.spawn w (ip host self) (replace_args chosen.gateway iface metric)).0 ≡ true
      → table.defaults w ≡ existing
      → (installed host self
          (host.spawn w (ip host self) (replace_args chosen.gateway iface metric)).1
          out
          iface
          metric
          chosen
          existing
          (ok tt)).0.error
        ≡ none
      → Stands chosen.gateway
          (installed host self
            (host.spawn w (ip host self) (replace_args chosen.gateway iface metric)).1
            out
            iface
            metric
            chosen
            existing
            (ok tt)).1
  unfolding installed
  installed-Stands w out chosen existing fine listed clean =
      let w1 = (host.spawn w (ip host self) (replace_args chosen.gateway iface metric)).1 in
      let (new, m, e) = table.installs w chosen.gateway fine in
      (
        (new, delete_others_at_metric w1 _ existing new m e),
        λ x left.
            elim (table.replaces w chosen.gateway x fine
              (delete_others_only w1 _ existing x left)) [
                | inl moved ↦ moved
                | inr (old, other) ↦ absurd (
                    delete_others_gone w1 _ existing x clean
                      (subst (λ (l : List IpRoute). In x l) listed old) other left)
              ],
      )
