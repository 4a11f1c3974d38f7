-- ===== src/Publish/Writer/Settles.antt =====
-- What the hosts publisher of src/publish/hosts.rs leaves on the disk, it does not write again.
use nixnet_corbet_ch.Base.{
  ℕ, ◌≡◌, refl, sym, ap, subst, inl, inr, Bool, true, false, List, Option, none, some, Result, ok,
  err, ok_not_err, ok_inj, Result-cases, Option-cases, All, false≢true,
}
use nixnet_corbet_ch.Base.Text.{Text, codes}
use nixnet_corbet_ch.Base.Str.{as_bytes}
use nixnet_corbet_ch.Atomic.{Files, write_with_chmod}
use nixnet_corbet_ch.Atomic.Whole.{IsFileSystem, write_impl-IsWhole}
use nixnet_corbet_ch.Engine.Status.{Entry}
use nixnet_corbet_ch.Publish.Hosts
use nixnet_corbet_ch.Publish.Hosts.Split.{IsLine}
use nixnet_corbet_ch.Publish.Hosts.Tidy.{IsTidy, no_prefix, split_static-IsTidy}
use nixnet_corbet_ch.Publish.Hosts.Block.{IsFine, written_comment}
use nixnet_corbet_ch.Publish.Hosts.Order.{IsReordered}
use nixnet_corbet_ch.Publish.Hosts.Converge.{publish_again}
use nixnet_corbet_ch.Publish.Writer.{
  HostsPublisher, new_from, new_hosts_publisher, wrote, write_out, publish_over, hosts_publish,
}

new_from-IsTidy : (path dir : Text) (r : Option Text) → IsTidy (new_from path dir r).static_prefix
unfolding new_from
new_from-IsTidy path dir none = no_prefix
new_from-IsTidy path dir (some content) = split_static-IsTidy content

new_hosts_publisher-IsTidy :
    (path dir : Text) (r : Result Text (Option Text)) (self : HostsPublisher)
    → new_hosts_publisher path dir r ≡ ok self
    → IsTidy self.static_prefix
unfolding new_hosts_publisher
new_hosts_publisher-IsTidy path dir (err e) self h = absurd (ok_not_err (sym h))
new_hosts_publisher-IsTidy path dir (ok current) self h =
    subst (λ (p : HostsPublisher). IsTidy p.static_prefix) (ok_inj h)
      (new_from-IsTidy path dir current)

module _ {W T : Type 0} (files : Files W T) (read_to_string : W → Text → Result Text (Option Text))
    (now : W → Text) (self : HostsPublisher) (content : W → Option (List ℕ))
    (staged : W → T → Option (List ℕ)) (laws : IsFileSystem files self.path content staged)
    (read_back : (w : W) (s : Text)
      → content w ≡ some (as_bytes s)
      → read_to_string w self.path ≡ ok (some s)) where
  wrote-content :
      (w w' : W) (out : Text) (r : Result Text (Unit {0}) × W)
      → (r.0 ≡ ok tt → content r.1 ≡ some (as_bytes out))
      → wrote r ≡ (ok true, w')
      → content w' ≡ some (as_bytes out)
  unfolding wrote
  wrote-content w w' out (ok done, w'') good h =
      subst (λ v. content v ≡ some (as_bytes out)) (ap (λ (q : Result Text Bool × W). q.1) h)
        (good refl)
  wrote-content w w' out (err e, w'') good h =
      absurd (ok_not_err (sym (ap (λ (q : Result Text Bool × W). q.0) h)))

  -- A publication that wrote the file found a current text, and left the disk with the new one.
  hosts_publish-Wrote :
      (w w' : W) (es : List Entry)
      → hosts_publish files read_to_string now self w es ≡ (ok true, w')
      → (current : Option Text) × (out : Text) × (Hosts.publish self.static_prefix
            self.static_suffix current
            (now w)
            es
          ≡ some out)
        × (content w' ≡ some (as_bytes out))
  unfolding hosts_publish publish_over write_out
  hosts_publish-Wrote w w' es h = elim (Result-cases (read_to_string w self.path)) [
    | inr (e, failed) ↦ absurd (
        ok_not_err (sym (ap (λ (q : Result Text Bool × W). q.0) (rw (failed, hosts_publish) at h))))
    | inl (current, got) ↦
        elim (Option-cases
          (Hosts.publish self.static_prefix self.static_suffix current (now w) es)) [
            | inl same ↦ absurd (
                false≢true (
                  ok_inj
                    (ap (λ (q : Result Text Bool × W). q.0) (rw (got, hosts_publish, same) at h))))
            | inr (out, new) ↦ (
              current,
              out,
              new,
              wrote-content w w' out
                  (write_with_chmod files w self.dir self.path (as_bytes out) (codes ".hosts.tmp-")
                    420)
                  (write_impl-IsWhole files self.path content staged laws w self.dir
                    (codes ".hosts.tmp-") (as_bytes out) (some 420)).1
                  (rw (got, hosts_publish, new) at h),
            )
          ]
  ]

  over_current :
      (w : W) (fs : List Entry) (out : Text)
      → read_to_string w self.path ≡ ok (some out)
      → Hosts.publish self.static_prefix self.static_suffix (some out) (now w) fs ≡ none
      → hosts_publish files read_to_string now self w fs ≡ (ok false, w)
  unfolding hosts_publish publish_over write_out
  over_current w fs out got same = rw (got, hosts_publish) (rw same refl)

  -- On a file system whose calls do as documented and that reads a file back as it was written: once
  -- a publication has written the hosts file, the next one of the same entries, confirmed later or
  -- not, and in any order that keeps that of the entries of one address, reports that it wrote
  -- nothing and leaves the world as it is. The publisher is one that `new` gave; the times and the
  -- entries take a line each, none of which reads as the end marker.
  pub hosts_publish_settles :
      (start : Result Text (Option Text)) (w w' : W) (es fs : List Entry)
      → new_hosts_publisher self.path self.dir start ≡ ok self
      → IsLine (written_comment (now w))
      → IsLine (written_comment (now w'))
      → All IsFine es
      → All IsFine fs
      → IsReordered es fs
      → hosts_publish files read_to_string now self w es ≡ (ok true, w')
      → hosts_publish files read_to_string now self w' fs ≡ (ok false, w')
  hosts_publish_settles start w w' es fs made lw lv he hf same h =
      let tidy = new_hosts_publisher-IsTidy self.path self.dir start self made in
      let (current, out, new, left) = hosts_publish-Wrote w w' es h in
      over_current w' fs out (read_back w' out left) (
        publish_again self.static_prefix self.static_suffix self.static_prefix self.static_suffix
          current (now w) (now w') es fs out tidy lw lv he hf same new)
