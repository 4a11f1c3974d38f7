-- ===== src/Publish/Writer.antt =====
-- `HostsPublisher` of src/publish/hosts.rs over a file system, and both publishers of src/publish as
-- the engine calls them.
pub mod Settles
use nixnet_corbet_ch.Base.{ℕ, Bool, true, false, List, [], ◌∷◌, Option, none, some, Result, ok, err}
use nixnet_corbet_ch.Base.Int.{ℤ}
use nixnet_corbet_ch.Base.Text.{Text, codes}
use nixnet_corbet_ch.Base.Str.{as_bytes}
use nixnet_corbet_ch.Atomic.{Files, write_with_chmod}
use nixnet_corbet_ch.Engine.{RankedInterface}
use nixnet_corbet_ch.Engine.Status.{Entry}
use nixnet_corbet_ch.Engine.Reconcile.{Publishers}
use nixnet_corbet_ch.Publish.Hosts.{split_static}
use nixnet_corbet_ch.Publish.Hosts
use nixnet_corbet_ch.Publish.Route.{Host, RoutePublisher, apply}

-- `dir` is `path.parent()`.
pub record HostsPublisher : Type 0 where
  pub path : Text
  pub dir : Text
  pub static_prefix : Text
  pub static_suffix : Text

-- `HostsPublisher::new`, from what reading the file gave; `none` is a file that is not there.
new_from : Text → Text → Option Text → HostsPublisher
new_from path dir none = record { path = path; dir = dir; static_prefix = []; static_suffix = [] }
new_from path dir (some content) =
    let (prefix, suffix, had_markers) = split_static content in
    record { path = path; dir = dir; static_prefix = prefix; static_suffix = suffix }

unfoldable pub new_hosts_publisher :
    Text → Text → Result Text (Option Text) → Result Text HostsPublisher
unfolding new_from
new_hosts_publisher path dir (err e) = err e
new_hosts_publisher path dir (ok current) = ok (new_from path dir current)

wrote : {W : Type 0} → Result Text (Unit {0}) × W → Result Text Bool × W
wrote (ok done, w) = (ok true, w)
wrote (err e, w) = (err e, w)

-- `read_to_string` of a path, with `none` for a file that is not there; the time as a text.
module _ {W T : Type 0} (files : Files W T) (read_to_string : W → Text → Result Text (Option Text))
    (now : W → Text) where
  write_out : HostsPublisher → W → Option Text → Result Text Bool × W
  unfolding wrote
  write_out self w none = (ok false, w)
  write_out self w (some out) =
      wrote (write_with_chmod files w self.dir self.path (as_bytes out) (codes ".hosts.tmp-") 420)

  publish_over : HostsPublisher → W → List Entry → Result Text (Option Text) → Result Text Bool × W
  unfolding write_out
  publish_over self w entries (err e) = (err e, w)
  publish_over self w entries (ok current) =
      write_out self w (Hosts.publish self.static_prefix self.static_suffix current (now w) entries)

  -- `HostsPublisher::publish`.
  unfoldable pub hosts_publish : HostsPublisher → W → List Entry → Result Text Bool × W
  unfolding publish_over
  hosts_publish self w entries = publish_over self w entries (read_to_string w self.path)

  -- The engine's two publishers.
  unfoldable pub publishers : HostsPublisher → Host W → RoutePublisher → Publishers W
  publishers hosts host routes = record { publish = hosts_publish hosts; apply = apply host routes }
