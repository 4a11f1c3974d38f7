-- ===== src/Tests/Writer.antt =====
-- The hosts publisher on a disk of one file.
use nixnet_corbet_ch.Base.{
  ◌≡◌, refl, ap, ◌∙◌, true, false, List, [], ◌∷◌, Option, none, some, Result, ok, ℕ,
}
use nixnet_corbet_ch.Base.Text.{Text, codes}
use nixnet_corbet_ch.Base.Str.{as_bytes}
use nixnet_corbet_ch.Base.Utf8.{decode_from, from_utf8, from_utf8-as_bytes}
use nixnet_corbet_ch.Atomic.{write_impl, write_tmp, or_discard}
use nixnet_corbet_ch.Publish.Hosts
use nixnet_corbet_ch.Publish.Hosts.Block.{written_comment}
use nixnet_corbet_ch.Publish.Hosts.Order.{next, nothing}
use nixnet_corbet_ch.Publish.Writer.{HostsPublisher, new_hosts_publisher, hosts_publish}
use nixnet_corbet_ch.Publish.Writer.Settles.{hosts_publish_settles}
use nixnet_corbet_ch.Tests.Atomic.{Disk, disk_files, disk-IsFileSystem}
use nixnet_corbet_ch.Tests.Hosts.{
  entry, confirmed_again, entry-IsFine, again-IsFine, newline_free, live, rewritten,
}

abbrev read_content : Option (List ℕ) → Option Text
read_content none = none
read_content (some bytes) = some (from_utf8 bytes)

abbrev read_disk : Disk → Text → Result Text (Option Text)
read_disk w path = ok (read_content w.target)

abbrev time_of : Option (List ℕ) → Text
time_of none = codes "T2"
time_of (some bytes) = codes "T3"

-- Later, once a file was written.
abbrev clock : Disk → Text
clock w = time_of w.staged

abbrev publisher : HostsPublisher
publisher = record {
  path = codes "/etc/hosts";
  dir = codes "/etc";
  static_prefix = [];
  static_suffix = [];
}

abbrev stale_disk : Disk
stale_disk = record { target = some (as_bytes live); staged = none }

abbrev fresh_disk : Disk
fresh_disk = record { target = some (as_bytes rewritten); staged = some (as_bytes rewritten) }

made : new_hosts_publisher (codes "/etc/hosts") (codes "/etc") (ok none) ≡ ok publisher
unfolding new_hosts_publisher
made = refl

hosts_publish_writes :
    hosts_publish (disk_files true) read_disk clock publisher stale_disk (entry ∷ [])
    ≡ (ok true, fresh_disk)
unfolding Hosts.runs hosts_publish write_impl write_tmp or_discard decode_from as_bytes
hosts_publish_writes = refl

hosts_publish_settles_example :
    hosts_publish (disk_files true) read_disk clock publisher fresh_disk (confirmed_again ∷ [])
    ≡ (ok false, fresh_disk)
hosts_publish_settles_example =
    hosts_publish_settles (disk_files true) read_disk clock publisher (λ w. w.target)
      (λ w t. w.staged) (disk-IsFileSystem true)
      (λ w s h.
        ap (λ c. ok (read_content c)) h ∙ ap (λ (t : Text). ok (some t)) (from_utf8-as_bytes s))
      (ok none) stale_disk fresh_disk (entry ∷ []) (confirmed_again ∷ []) made
      (newline_free (written_comment (codes "T2")) refl)
      (newline_free (written_comment (codes "T3")) refl) (entry-IsFine, tt) (again-IsFine, tt)
      (next entry confirmed_again refl nothing) hosts_publish_writes
