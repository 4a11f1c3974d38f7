-- ===== src/Tests/Hosts.antt =====
-- A hosts file with lines on both sides of the block.
use nixnet_corbet_ch.Base.{
  ◌≡◌, refl, true, not, all, List, [], ◌∷◌, ◌++◌, none, some, subst, some_inj, arith,
}
use nixnet_corbet_ch.Base.Text.{Text, codes}
use nixnet_corbet_ch.Base.Str.{newline, is_newline}
use nixnet_corbet_ch.Engine.Status.{Entry}
use nixnet_corbet_ch.Publish.Hosts
use nixnet_corbet_ch.Publish.Hosts.{publish, split_static, begin_marker, end_marker}
use nixnet_corbet_ch.Publish.Hosts.Split.{split_static-unlines, unlines, IsInside, IsLine}
use nixnet_corbet_ch.Publish.Hosts.Tidy.{no_prefix}
use nixnet_corbet_ch.Publish.Hosts.Block
use nixnet_corbet_ch.Publish.Hosts.Block.{IsFine, address_line, confirmed_comment, written_comment}
use nixnet_corbet_ch.Publish.Hosts.Order.{IsReordered, nothing, next, swapped, chained}
use nixnet_corbet_ch.Publish.Hosts.Converge.{publish_again}

abbrev pub entry : Entry
entry = record {
  address = codes "192.0.2.10";
  hostnames = codes "host-b" ∷ codes "b" ∷ [];
  confirmed_at = some (codes "T1");
}

abbrev pub live : Text
live = codes "127.0.0.1 localhost\n\n# BEGIN nixnet\n1.2.3.4\tfoo\n# END nixnet\n192.0.2.7\tcache\n"

abbrev pub rewritten : Text
rewritten =
    codes
      "127.0.0.1 localhost\n# BEGIN nixnet\n# nixnet written=T2\n# nixnet 192.0.2.10 confirmed=T1\n192.0.2.10\thost-b b\n# END nixnet\n192.0.2.7\tcache\n"

pub first_publish : publish [] [] (some live) (codes "T2") (entry ∷ []) ≡ some rewritten
unfolding Hosts.runs
first_publish = refl

second_publish : publish [] [] (some rewritten) (codes "T3") (entry ∷ []) ≡ none
unfolding Hosts.runs
second_publish = refl

abbrev block : List Text
block = codes "1 a" ∷ []

inside : IsInside (codes "1 a")
unfolding Hosts.runs
inside = ((refl, (refl, (refl, tt))), refl)

split_around_block :
    split_static (
      codes "127"
      ++ newline
        ∷ (begin_marker ++ newline ∷ (unlines block ++ (end_marker ++ newline ∷ codes "x"))))
    ≡ (codes "127" ++ newline ∷ [], codes "x", true)
unfolding Hosts.runs
split_around_block = split_static-unlines (codes "127") (codes "x") block refl refl (inside, tt)

-- No newline in a text, by evaluation.
pub newline_free : (s : Text) → all (λ c. not (is_newline c)) s ≡ true → IsLine s
newline_free [] h = tt
newline_free (c ∷ cs) h = (ground arith, newline_free cs (ground arith))

-- The entry, confirmed once more.
abbrev pub confirmed_again : Entry
confirmed_again = record entry { confirmed_at = some (codes "T9") }

pub entry-IsFine : IsFine entry
unfolding Hosts.runs Block.runs
entry-IsFine = record {
  is_line = (newline_free (address_line entry) refl, refl);
  confirmed = λ t e.
      subst (λ u. IsLine (confirmed_comment entry u)) (some_inj e)
        (newline_free (confirmed_comment entry (codes "T1")) refl);
}

pub again-IsFine : IsFine confirmed_again
unfolding Hosts.runs Block.runs
again-IsFine = record {
  is_line = (newline_free (address_line confirmed_again) refl, refl);
  confirmed = λ t e.
      subst (λ u. IsLine (confirmed_comment confirmed_again u)) (some_inj e)
        (newline_free (confirmed_comment confirmed_again (codes "T9")) refl);
}

abbrev other : Entry
other = record { address = codes "192.0.2.2"; hostnames = codes "host-c" ∷ []; confirmed_at = none }

other-IsFine : IsFine other
unfolding Hosts.runs Block.runs
other-IsFine = record {
  is_line = (newline_free (address_line other) refl, refl);
  confirmed = λ t e. absurd (cc e);
}

abbrev with_both : Text
with_both =
    codes
      "127.0.0.1 localhost\n# BEGIN nixnet\n# nixnet written=T2\n# nixnet 192.0.2.10 confirmed=T1\n192.0.2.10\thost-b b\n192.0.2.2\thost-c\n# END nixnet\n192.0.2.7\tcache\n"

publish_both : publish [] [] (some live) (codes "T2") (entry ∷ other ∷ []) ≡ some with_both
unfolding Hosts.runs
publish_both = refl

other_way_round : IsReordered (entry ∷ other ∷ []) (other ∷ confirmed_again ∷ [])
unfolding Hosts.runs
other_way_round =
    chained (swapped entry other [] refl)
      (next other other refl (next entry confirmed_again refl nothing))

publish_again_example :
    publish [] [] (some with_both) (codes "T3") (other ∷ confirmed_again ∷ []) ≡ none
publish_again_example =
    publish_again [] [] [] [] (some live) (codes "T2") (codes "T3") (entry ∷ other ∷ [])
      (other ∷ confirmed_again ∷ []) with_both no_prefix
      (newline_free (written_comment (codes "T2")) refl)
      (newline_free (written_comment (codes "T3")) refl) (entry-IsFine, (other-IsFine, tt))
      (other-IsFine, (again-IsFine, tt)) other_way_round publish_both
