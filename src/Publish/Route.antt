-- ===== src/Publish/Route.antt =====
-- src/publish/route.rs: the metrics of default routes. The `ip` processes that subprocess.rs runs,
-- and the JSON parser, are the environment's: a state they change, and functions on it.
pub mod Errors
pub mod Table
pub mod Deleting
pub mod Lowest
pub mod Moved
pub mod Kept
pub mod CarriesOn
pub mod Metrics
use nixnet_corbet_ch.Base.{
  ℕ, zero, suc, Bool, true, false, not, ◌&&◌, List, [], ◌∷◌, ◌++◌, Option, none, some,
  if◌then◌else◌, is_some, unwrap_or, Result, ok, err,
}
use nixnet_corbet_ch.Base.Int.{ℤ, pos, ◌+ℤ◌, ◌*ℤ◌, ltb_ℤ, eqb_ℤ, wrap_i64}
use nixnet_corbet_ch.Base.Text.{Text, codes, is_empty}
use nixnet_corbet_ch.Base.Str.{join, trim, to_string}
use nixnet_corbet_ch.Base.Str
use nixnet_corbet_ch.Engine.{RankedInterface}

-- A default route that was moved.
pub record RouteChange : Type 0 where
  pub interface : Text
  pub from_metric : ℤ
  pub to_metric : ℤ

pub record Publication : Type 0 where
  pub changes : List RouteChange
  pub error : Option Text

-- Keeps the first failure.
abbrev pub fail : Text → Publication → Publication
fail message out = if is_some out.error then out else record out { error = some message }

pub record IpRoute : Type 0 where
  pub gateway : Option Text
  pub metric : Option ℤ

abbrev pub metric_of : IpRoute → ℤ
metric_of r = unwrap_or r.metric (pos 0)

-- `iter().min_by_key(metric)`: the first route of the lowest metric.
unfoldable pub lowest : IpRoute → List IpRoute → IpRoute
lowest r [] = r
lowest r (s ∷ ss) =
    let kept = lowest r ss in
    let taken = lowest s ss in if ltb_ℤ (metric_of s) (metric_of r) then taken else kept

-- The output of a finished child, its status and its bytes as text. `truncated` is not read here.
pub record BoundedOutput : Type 0 where
  pub success : Bool
  pub status : Text
  pub stdout : Text
  pub stderr : Text
  pub timed_out : Bool

-- `subprocess::run` of a command line with the publisher's time limit, and `serde_json::from_str`.
pub record Host (W : Type 0) : Type 0 where
  pub spawn : W → Text → List Text → Result Text BoundedOutput × W
  pub from_str : Text → Result Text (List IpRoute)

pub record RoutePublisher : Type 0 where
  pub ip_path : Text
  pub command_timeout_ms : Text

abbrev pub via : Option Text → List Text
via none = []
via (some gw) = codes "via" ∷ gw ∷ []

abbrev pub show_args : Text → List Text
show_args iface =
    codes "-j" ∷ codes "route" ∷ codes "show" ∷ codes "default" ∷ codes "dev" ∷ iface ∷ []

abbrev pub replace_args : Option Text → Text → ℤ → List Text
replace_args gateway iface metric =
    codes "route" ∷ codes "replace" ∷ codes "default" ∷ via gateway
    ++ (codes "dev" ∷ iface ∷ codes "metric" ∷ to_string metric ∷ [])

abbrev pub del_args : Text → IpRoute → List Text
del_args iface r =
    codes "route" ∷ codes "del" ∷ codes "default" ∷ via r.gateway
    ++ (codes "dev" ∷ iface ∷ codes "metric" ∷ to_string (metric_of r) ∷ [])

abbrev ip_args : List Text → Text
ip_args args = codes "ip " ++ join (codes " ") args

abbrev exit_error : List Text → BoundedOutput → Text
exit_error args out =
    ip_args args
    ++ (codes ": exit "
        ++ (out.status ++ (codes " (" ++ (out.stdout ++ (out.stderr ++ codes ")")))))

-- `metric_base + (i as i64) * metric_step`.
unfoldable pub target_metric : ℤ → ℤ → ℕ → ℤ
target_metric base step i = wrap_i64 (base +ℤ wrap_i64 (pos i *ℤ step))

module _ {W : Type 0} (host : Host W) (self : RoutePublisher) where
  abbrev pub ip : Text
  ip = if is_empty self.ip_path then codes "ip" else self.ip_path

  bounded : List Text → Result Text BoundedOutput → Result Text BoundedOutput
  bounded args (err e) = err (ip_args args ++ (codes ": " ++ e))
  bounded args (ok out) =
      if out.timed_out
      then err
          (ip_args args ++ (codes ": timed out after " ++ (self.command_timeout_ms ++ codes "ms")))
      else ok out

  unfoldable pub command : W → List Text → Result Text BoundedOutput × W
  unfolding bounded
  command w args = let (r, w') = host.spawn w ip args in (bounded args r, w')

  ran : List Text → Result Text BoundedOutput → Result Text (Unit {0})
  ran args (err e) = err e
  ran args (ok out) = if out.success then ok tt else err (exit_error args out)

  unfoldable pub run : W → List Text → Result Text (Unit {0}) × W
  unfolding ran
  run w args = let (r, w') = command w args in (ran args r, w')

  unparseable : List Text → Result Text (List IpRoute) → Result Text (List IpRoute)
  unparseable args (ok routes) = ok routes
  unparseable args (err e) = err (
      ip_args args
      ++ (codes ": unparseable JSON (" ++ (e ++ codes ") -- does this iproute2 support -j?")))

  shown : List Text → Result Text BoundedOutput → Result Text (List IpRoute)
  unfolding unparseable
  shown args (err e) = err e
  shown args (ok out) =
      if not out.success
      then err (exit_error args out)
      else if is_empty (trim out.stdout)
      then ok []
      else unparseable args (host.from_str (trim out.stdout))

  unfoldable pub show_default : W → Text → Result Text (List IpRoute) × W
  unfolding shown
  show_default w iface =
      let (r, w') = command w (show_args iface) in (shown (show_args iface) r, w')

  abbrev note : Result Text (Unit {0}) → Publication → Publication
  note (ok done) out = out
  note (err e) out = fail e out

  -- Clears the routes at other metrics.
  unfoldable pub delete_others : W → Publication → Text → ℤ → List IpRoute → Publication × W
  delete_others w out iface metric [] = (out, w)
  delete_others w out iface metric (r ∷ rs) =
      let deleted = run w (del_args iface r) in
      let skipped = delete_others w out iface metric rs in
      let rest = delete_others deleted.1 (note deleted.0 out) iface metric rs in
      if eqb_ℤ (metric_of r) metric then skipped else rest

  -- Installs the chosen route at the metric, then clears the others.
  pub installed :
      W → Publication → Text → ℤ → IpRoute → List IpRoute → Result Text (Unit {0}) → Publication × W
  installed w out iface metric chosen existing (err e) = (fail e out, w)
  installed w out iface metric chosen existing (ok done) =
      let change : RouteChange = record {
        interface = iface;
        from_metric = metric_of chosen;
        to_metric = metric;
      } in
      delete_others w (record out { changes = out.changes ++ change ∷ [] }) iface metric existing

  unfoldable pub move_to : W → Publication → Text → ℤ → IpRoute → List IpRoute → Publication × W
  unfolding installed
  move_to w out iface metric chosen existing =
      let (r, w') = run w (replace_args chosen.gateway iface metric) in
      installed w' out iface metric chosen existing r

  abbrev is_single : List IpRoute → Bool
  is_single (r ∷ []) = true
  is_single rs = false

  pub move_existing : W → Publication → Text → ℤ → Bool → List IpRoute → Publication × W
  move_existing w out iface metric healthy [] = if not healthy then (out, w) else (
    fail
        (codes "no default route on dev "
          ++ (iface
              ++ codes
                  " to reprioritize -- nixnet only reprioritizes routes the OS/DHCP established, it never creates one"))
        out,
    w,
  )
  move_existing w out iface metric healthy (r ∷ rs) =
      if is_single (r ∷ rs) && eqb_ℤ (metric_of (lowest r rs)) metric
      then (out, w)
      else move_to w out iface metric (lowest r rs) (r ∷ rs)

  reprioritize_shown :
      W → Publication → Text → ℤ → Bool → Result Text (List IpRoute) → Publication × W
  unfolding move_existing
  reprioritize_shown w out iface metric healthy (err e) = (fail e out, w)
  reprioritize_shown w out iface metric healthy (ok existing) =
      move_existing w out iface metric healthy existing

  unfoldable pub reprioritize : W → Publication → Text → ℤ → Bool → Publication × W
  unfolding reprioritize_shown
  reprioritize w out iface metric healthy =
      let (r, w') = show_default w iface in reprioritize_shown w' out iface metric healthy r

  -- The loop of `apply` from index `i`.
  unfoldable pub apply_from : W → Publication → ℤ → ℤ → ℕ → List RankedInterface → Publication × W
  apply_from w out base step i [] = (out, w)
  apply_from w out base step i (c ∷ cs) =
      let (out', w') = reprioritize w out c.interface (target_metric base step i) c.healthy in
      apply_from w' out' base step (suc i) cs

  unfoldable pub apply : W → List RankedInterface → ℤ → ℤ → Publication × W
  apply w ranked base step = apply_from w (record { changes = []; error = none }) base step 0 ranked

-- Stands for all that the definitions above compute with: a test unfolds this name.
unfoldable pub runs : Unit {0}
unfolding Str.runs target_metric lowest command run show_default delete_others move_to reprioritize
    apply_from apply ◌+ℤ◌ ◌*ℤ◌ wrap_i64
runs = tt
