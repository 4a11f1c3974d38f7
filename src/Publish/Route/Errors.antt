-- ===== src/Publish/Route/Errors.antt =====
-- Which failure a publication reports.
use nixnet_corbet_ch.Base.{
  ℕ, suc, ◌≡◌, inl, inr, Bool, true, false, Bool-cases, ◌&&◌, List, [], ◌∷◌, some, Result, ok, err,
  arith,
}
use nixnet_corbet_ch.Base.Int.{ℤ, eqb_ℤ}
use nixnet_corbet_ch.Base.Text.{Text}
use nixnet_corbet_ch.Engine.{RankedInterface}
use nixnet_corbet_ch.Publish.Route.{
  Publication, Host, RoutePublisher, IpRoute, metric_of, fail, note, delete_others, move_to,
  installed, move_existing, is_single, lowest, reprioritize, reprioritize_shown, apply_from,
  target_metric, run, del_args, show_default, replace_args,
}

fail_keeps : (m e : Text) (out : Publication) → out.error ≡ some e → (fail m out).error ≡ some e
fail_keeps m e out h = ground arith

module _ {W : Type 0} (host : Host W) (self : RoutePublisher) where
  note_keeps :
      (r : Result Text (Unit {0})) (e : Text) (out : Publication)
      → out.error ≡ some e
      → (note host self r out).error ≡ some e
  note_keeps (ok done) e out h = h
  note_keeps (err m) e out h = fail_keeps m e out h

  pub delete_others_keeps :
      (w : W) (out : Publication) (iface : Text) (metric : ℤ) (rs : List IpRoute) (e : Text)
      → out.error ≡ some e
      → (delete_others host self w out iface metric rs).0.error ≡ some e
  unfolding delete_others
  delete_others_keeps w out iface metric [] e h = h
  delete_others_keeps w out iface metric (r ∷ rs) e h =
      elim (Bool-cases (eqb_ℤ (metric_of r) metric)) [
        | inl same ↦ rw (same, delete_others) (delete_others_keeps w out iface metric rs e h)
        | inr other ↦
            rw (other, delete_others)
              (let deleted = run host self w (del_args iface r) in
                delete_others_keeps deleted.1 (note host self deleted.0 out) iface metric rs e
                  (note_keeps deleted.0 e out h))
      ]

  installed_keeps :
      (w : W) (out : Publication) (iface : Text) (metric : ℤ) (c : IpRoute) (rs : List IpRoute)
      (r : Result Text (Unit {0})) (e : Text)
      → out.error ≡ some e
      → (installed host self w out iface metric c rs r).0.error ≡ some e
  unfolding installed
  installed_keeps w out iface metric c rs (err m) e h = fail_keeps m e out h
  installed_keeps w out iface metric c rs (ok done) e h =
      delete_others_keeps w _ iface metric rs e h

  move_to_keeps :
      (w : W) (out : Publication) (iface : Text) (metric : ℤ) (c : IpRoute) (rs : List IpRoute)
      (e : Text)
      → out.error ≡ some e
      → (move_to host self w out iface metric c rs).0.error ≡ some e
  unfolding move_to
  move_to_keeps w out iface metric c rs e h =
      let replaced = run host self w (replace_args c.gateway iface metric) in
      installed_keeps replaced.1 out iface metric c rs replaced.0 e h

  move_existing_keeps :
      (w : W) (out : Publication) (iface : Text) (metric : ℤ) (healthy : Bool) (rs : List IpRoute)
      (e : Text)
      → out.error ≡ some e
      → (move_existing host self w out iface metric healthy rs).0.error ≡ some e
  unfolding move_existing
  move_existing_keeps w out iface metric false [] e h = h
  move_existing_keeps w out iface metric true [] e h = fail_keeps _ e out h
  move_existing_keeps w out iface metric healthy (r ∷ rs) e h =
      elim (Bool-cases (is_single host self (r ∷ rs) && eqb_ℤ (metric_of (lowest r rs)) metric)) [
        | inl settled ↦ rw (settled, move_existing) h
        | inr stale ↦
            rw (stale, move_existing) (move_to_keeps w out iface metric (lowest r rs) (r ∷ rs) e h)
      ]

  shown_keeps :
      (w : W) (out : Publication) (iface : Text) (metric : ℤ) (healthy : Bool)
      (r : Result Text (List IpRoute)) (e : Text)
      → out.error ≡ some e
      → (reprioritize_shown host self w out iface metric healthy r).0.error ≡ some e
  unfolding reprioritize_shown
  shown_keeps w out iface metric healthy (err m) e h = fail_keeps m e out h
  shown_keeps w out iface metric healthy (ok rs) e h =
      move_existing_keeps w out iface metric healthy rs e h

  reprioritize_keeps :
      (w : W) (out : Publication) (iface : Text) (metric : ℤ) (healthy : Bool) (e : Text)
      → out.error ≡ some e
      → (reprioritize host self w out iface metric healthy).0.error ≡ some e
  unfolding reprioritize
  reprioritize_keeps w out iface metric healthy e h =
      let shown = show_default host self w iface in
      shown_keeps shown.1 out iface metric healthy shown.0 e h

  -- An interface that fails does not hide the failure of an earlier one: the error of a publication
  -- is the first.
  pub apply_from_keeps :
      (w : W) (out : Publication) (base step : ℤ) (i : ℕ) (cs : List RankedInterface) (e : Text)
      → out.error ≡ some e
      → (apply_from host self w out base step i cs).0.error ≡ some e
  unfolding apply_from
  apply_from_keeps w out base step i [] e h = h
  apply_from_keeps w out base step i (c ∷ cs) e h =
      let metric = target_metric base step i in
      let done = reprioritize host self w out c.interface metric c.healthy in
      apply_from_keeps done.1 done.0 base step (suc i) cs e
        (reprioritize_keeps w out c.interface metric c.healthy e h)
