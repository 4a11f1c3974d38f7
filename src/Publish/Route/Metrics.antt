-- ===== src/Publish/Route/Metrics.antt =====
-- The metrics that a ranking is given.
use nixnet_corbet_ch.Base.{ℕ, zero, suc, ◌≡◌, ◌<◌, ◌*◌, refl, Bool, List, [], ◌∷◌, none, ok, arith}
use nixnet_corbet_ch.Base.Int.{ℤ, pos, ◌+ℤ◌, ◌*ℤ◌, ◌<ℤ◌, wrap_i64_self, InI64, +ℤ_parts, eqb_ℤ_iff}
use nixnet_corbet_ch.Base.Text.{Text}
use nixnet_corbet_ch.Engine.{RankedInterface}
use nixnet_corbet_ch.Publish.Route.{
  target_metric, Host, RoutePublisher, Publication, IpRoute, metric_of, show_default, reprioritize,
  reprioritize_shown, move_existing, lowest, apply_from, apply,
}

times_lt : (s i j : ℕ) → i < j → 0 < s → i * s < j * s
times_lt s i zero h p = omega arith
times_lt s zero (suc j) h p = omega arith
times_lt s (suc i) (suc j) h p = omega (arith, times_lt s i j (omega arith) p)

times_pos : (i s : ℕ) → pos i *ℤ pos s ≡ pos (i * s)
unfolding ◌*ℤ◌
times_pos i s = ground arith

add_between :
    (base : ℤ) (m n : ℕ) → m < n → InI64 base → InI64 (base +ℤ pos n) → InI64 (base +ℤ pos m)
add_between base m n h lo hi =
    omega (arith, h, lo, hi, +ℤ_parts base (pos m), +ℤ_parts base (pos n))

target_metric_lem :
    (base : ℤ) (s i : ℕ)
    → InI64 (pos (i * s))
    → InI64 (base +ℤ pos (i * s))
    → target_metric base (pos s) i ≡ base +ℤ pos (i * s)
unfolding target_metric
target_metric_lem base s i small fits =
    rw (times_pos i s)
      (rw (wrap_i64_self (pos (i * s)) small) (wrap_i64_self (base +ℤ pos (i * s)) fits))

-- A lower rank has a strictly higher metric, so that the kernel prefers the better ranked of two
-- routes: for a positive step and metrics that an i64 holds.
pub target_metric_lt :
    (base : ℤ) (s i j : ℕ)
    → i < j
    → 0 < s
    → InI64 base
    → InI64 (pos (j * s))
    → InI64 (base +ℤ pos (j * s))
    → target_metric base (pos s) i <ℤ target_metric base (pos s) j
target_metric_lt base s i j h p lo small fits =
    let below = times_lt s i j h p in
    rw
      (target_metric_lem base s i (omega (arith, below, small))
        (add_between base (i * s) (j * s) below lo fits))
      (rw (target_metric_lem base s j small fits)
        (omega (arith, below, +ℤ_parts base (pos (i * s)), +ℤ_parts base (pos (j * s)))))

module _ {W : Type 0} (host : Host W) (self : RoutePublisher) where
  -- Each interface lists one default route, at its metric, and the listings change nothing.
  abbrev pub InPlace : W → ℤ → ℤ → ℕ → List RankedInterface → Type 0
  InPlace w base step i [] = Unit
  InPlace w base step i (c ∷ cs) =
      ((r : IpRoute) × (show_default host self w c.interface ≡ (ok (r ∷ []), w))
        × (metric_of r ≡ target_metric base step i))
      × InPlace w base step (suc i) cs

  reprioritize_in_place :
      (w : W) (out : Publication) (iface : Text) (metric : ℤ) (healthy : Bool) (r : IpRoute)
      → show_default host self w iface ≡ (ok (r ∷ []), w)
      → metric_of r ≡ metric
      → reprioritize host self w out iface metric healthy ≡ (out, w)
  unfolding reprioritize reprioritize_shown move_existing lowest
  reprioritize_in_place w out iface metric healthy r listed placed =
      rw (listed, reprioritize)
        (rw ((eqb_ℤ_iff (metric_of r) metric).1 placed, reprioritize_shown, move_existing))

  apply_from-InPlace :
      (w : W) (out : Publication) (base step : ℤ) (i : ℕ) (cs : List RankedInterface)
      → InPlace w base step i cs
      → apply_from host self w out base step i cs ≡ (out, w)
  unfolding apply_from
  apply_from-InPlace w out base step i [] p = refl
  apply_from-InPlace w out base step i (c ∷ cs) ((r, listed, placed), later) =
      rw
        (
          reprioritize_in_place w out c.interface (target_metric base step i) c.healthy r listed
              placed,
          apply_from,
        )
        (apply_from-InPlace w out base step (suc i) cs later)

  -- In the steady state a publication is no rewrite: where each interface lists one default route,
  -- at its metric, only listings are run, and no change and no error is reported.
  pub apply-InPlace :
      (w : W) (base step : ℤ) (cs : List RankedInterface)
      → InPlace w base step 0 cs
      → apply host self w cs base step ≡ (record { changes = []; error = none }, w)
  unfolding apply
  apply-InPlace w base step cs p = apply_from-InPlace w _ base step 0 cs p
