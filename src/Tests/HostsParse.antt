-- ===== src/Tests/HostsParse.antt =====
-- A written hosts file, read back.
use nixnet_corbet_ch.Base.{◌≡◌, refl, [], ◌∷◌, none, some, some_inj, All, subst}
use nixnet_corbet_ch.Base.Text.{codes}
use nixnet_corbet_ch.Base.Str
use nixnet_corbet_ch.Publish.Hosts
use nixnet_corbet_ch.Publish.Hosts.Tidy.{no_prefix}
use nixnet_corbet_ch.Publish.Hosts.Parse
use nixnet_corbet_ch.Publish.Hosts.Parse.{parse_nix_hosts, parse_confirmed_comment, lines}
use nixnet_corbet_ch.Publish.Hosts.Parse.Words.{IsWord}
use nixnet_corbet_ch.Publish.Hosts.Parse.Back.{IsPrintable, IsOutside}
use nixnet_corbet_ch.Publish.Hosts.Parse.RoundTrip.{parse_nix_hosts-publish}
use nixnet_corbet_ch.Tests.Hosts.{entry, live, rewritten, first_publish}

-- The header of the block is no confirmation, and the entry in the comment of another has none.
header_is_none : parse_confirmed_comment (codes "# nixnet written=T2") ≡ none
unfolding Hosts.runs Parse.runs
header_is_none = refl

reads_entry :
    parse_nix_hosts (
      codes
        "# BEGIN nixnet\n\n# nixnet 192.0.2.9 confirmed=T1\n192.0.2.10\thost-b b\n192.0.2.11\n# END nixnet\n1.2.3.4 x\n")
    ≡ record entry { confirmed_at = none } ∷ []
unfolding Hosts.runs Parse.runs
reads_entry = refl

t1-IsWord : IsWord (codes "T1")
unfolding Str.runs
t1-IsWord = (refl, (refl, (refl, tt)))

t2-IsWord : IsWord (codes "T2")
unfolding Str.runs
t2-IsWord = (refl, (refl, (refl, tt)))

entry-IsPrintable : IsPrintable entry
unfolding Hosts.runs
entry-IsPrintable = record {
  address =
      (refl, (refl, (refl, (refl, (refl, (refl, (refl, (refl, (refl, (refl, (refl, tt)))))))))));
  no_comment = refl;
  named = λ e. absurd (cc e);
  hosts = ((refl, (refl, (refl, (refl, (refl, (refl, (refl, tt))))))), ((refl, (refl, tt)), tt));
  confirmed = λ t e. subst IsWord (some_inj e) t1-IsWord;
}

after_block : All IsOutside (lines (Hosts.halves [] [] (some live)).1)
unfolding Hosts.runs
after_block = (refl, tt)

parse_nix_hosts-publish_example : parse_nix_hosts rewritten ≡ entry ∷ []
unfolding Hosts.runs
parse_nix_hosts-publish_example =
    parse_nix_hosts-publish [] [] (some live) (codes "T2") (entry ∷ []) rewritten no_prefix
      t2-IsWord (entry-IsPrintable, tt) after_block first_publish
