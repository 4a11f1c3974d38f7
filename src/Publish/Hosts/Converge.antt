-- ===== src/Publish/Hosts/Converge.antt =====
-- A published hosts file (src/publish/hosts.rs) is not written again while the entries stay the same.
use nixnet_corbet_ch.Base.{
  ◌≡◌, refl, sym, ◌∙◌, ap, subst, inl, inr, true, false, Bool-cases, List, [], ◌∷◌, ◌++◌, Option,
  none, some, if◌then◌else◌, append_assoc, All, All-append, some_inj, is_some,
}
use nixnet_corbet_ch.Base.Text.{Text, codes, text_eq, is_empty, strip_prefix-append}
use nixnet_corbet_ch.Base.Str.{
  newline, trim, trim_start, trim_end, trim_start_matches, trim_end_matches, is_whitespace,
}
use nixnet_corbet_ch.Base.Sort.{sort, All-sort}
use nixnet_corbet_ch.Engine.Status.{Entry}
use nixnet_corbet_ch.Publish.Hosts.{
  begin_marker, end_marker, normalize, split_static, render_block, halves, is_current,
  same_but_for_freshness, significant, publish,
}
use nixnet_corbet_ch.Publish.Hosts.Split.{
  IsLine, IsInside, unlines, find_begin_here, after_end-block, split_static-unlines,
}
use nixnet_corbet_ch.Publish.Hosts.Tidy.{IsTidy, no_prefix, ends_line, split_static-IsTidy}
use nixnet_corbet_ch.Publish.Hosts.Lines.{comment, same_of_significant}
use nixnet_corbet_ch.Publish.Hosts.Order.{IsReordered, lines-IsReordered}
use nixnet_corbet_ch.Publish.Hosts.Block.{
  address_line, confirmed_comment, comments_of, all_lines, IsFine, by_address, written_comment,
  block_lines, render-unlines, significant-line, significant-skip, significant-all_lines,
}

-- A comment of the daemon's own does not end the block.
trim_end-comment : (t : Text) → (u : Text) × (trim_end (35 ∷ 32 ∷ 110 ∷ t) ≡ 35 ∷ 32 ∷ 110 ∷ u)
unfolding trim_end_matches is_whitespace
trim_end-comment t = elim (Bool-cases (is_empty (trim_end t))) [
  | inl e ↦ (trim_end t, rw (e, if◌then◌else◌) refl)
  | inr e ↦ (trim_end t, rw (e, if◌then◌else◌) refl)
]

trimmed_comment : (u : Text) → text_eq (trim_start (35 ∷ 32 ∷ 110 ∷ u)) end_marker ≡ false
unfolding trim_start_matches is_whitespace text_eq
trimmed_comment u = refl

comment_goes_on : (t : Text) → text_eq (trim ((comment ++ t) ++ newline ∷ [])) end_marker ≡ false
comment_goes_on t =
    let (u, e) = trim_end-comment (codes "ixnet " ++ (t ++ newline ∷ [])) in
    ap (λ x. text_eq (trim_start x) end_marker) e ∙ trimmed_comment u

comments-IsInside :
    (e : Entry) (o : Option Text)
    → ((t : Text) → o ≡ some t → IsLine (confirmed_comment e t))
    → All IsInside (comments_of e o)
unfolding comments_of
comments-IsInside e none h = tt
comments-IsInside e (some t) h =
    ((h t refl, comment_goes_on (e.address ++ (codes " confirmed=" ++ t))), tt)

all_lines-IsInside : (es : List Entry) → All IsFine es → All IsInside (all_lines es)
unfolding all_lines
all_lines-IsInside [] h = tt
all_lines-IsInside (e ∷ es) h =
    All-append IsInside (comments_of e e.confirmed_at) (address_line e ∷ all_lines es)
      (comments-IsInside e e.confirmed_at h.0.confirmed) (h.0.is_line, all_lines-IsInside es h.1)

block-IsInside :
    (written_at : Text) (es : List Entry)
    → IsLine (written_comment written_at)
    → All IsFine es
    → All IsInside (block_lines written_at es)
unfolding block_lines
block-IsInside written_at es w h = (
  (w, comment_goes_on (codes "written=" ++ written_at)),
  all_lines-IsInside (sort by_address es) (All-sort by_address IsFine es h),
)

-- The file that a publication writes.
abbrev file : Text → Text → Text → List Entry → Text
file prefix suffix written_at es = prefix ++ (render_block written_at es ++ suffix)

abbrev from_marker : Text → Text → List Entry → Text
from_marker suffix written_at es =
    begin_marker
    ++ newline ∷ (unlines (block_lines written_at es) ++ (end_marker ++ newline ∷ suffix))

normalize_nil : normalize [] ≡ []
unfolding normalize trim_end_matches
normalize_nil = refl

split_static-file :
    (prefix suffix : Text) (lines : List Text)
    → IsTidy prefix
    → All IsInside lines
    → split_static
        (prefix ++ (begin_marker ++ newline ∷ (unlines lines ++ (end_marker ++ newline ∷ suffix))))
      ≡ (prefix, suffix, true)
unfolding split_static
split_static-file prefix suffix lines (ends_line q absent tidy) inside =
    ap split_static (
      append_assoc q (newline ∷ [])
        (begin_marker ++ newline ∷ (unlines lines ++ (end_marker ++ newline ∷ suffix))))
    ∙ split_static-unlines q suffix lines absent tidy inside
split_static-file prefix suffix lines no_prefix inside =
    let rest = newline ∷ (unlines lines ++ (end_marker ++ newline ∷ suffix)) in
    rw
      (
        find_begin_here (begin_marker ++ rest) (ap is_some (strip_prefix-append begin_marker rest)),
        split_static,
      )
      (rw (after_end-block suffix lines inside) (ap (λ p. (p, suffix, true)) normalize_nil))

significant-from_marker :
    (suffix w v : Text) (es fs : List Entry)
    → IsLine (written_comment w)
    → IsLine (written_comment v)
    → All IsFine es
    → All IsFine fs
    → IsReordered es fs
    → significant (from_marker suffix w es) ≡ significant (from_marker suffix v fs)
unfolding block_lines
significant-from_marker suffix w v es fs lw lv he hf same =
    let r = end_marker ++ newline ∷ suffix in
    let sorted = sort by_address es in
    let sorted' = sort by_address fs in
    significant-line r begin_marker _ _ (
      ap significant (append_assoc (written_comment w) (newline ∷ unlines (all_lines sorted)) r)
      ∙ significant-skip r (codes "written=" ++ w) (unlines (all_lines sorted) ++ r) lw
      ∙ significant-all_lines r sorted (All-sort by_address IsFine es he)
      ∙ ap (λ ls. significant (unlines ls ++ r)) (lines-IsReordered es fs same)
      ∙ sym (significant-all_lines r sorted' (All-sort by_address IsFine fs hf))
      ∙ sym (significant-skip r (codes "written=" ++ v) (unlines (all_lines sorted') ++ r) lv)
      ∙ ap significant
          (sym (append_assoc (written_comment v) (newline ∷ unlines (all_lines sorted')) r)))

significant-prefix :
    (prefix s t : Text)
    → IsTidy prefix
    → significant s ≡ significant t
    → significant (prefix ++ s) ≡ significant (prefix ++ t)
significant-prefix prefix s t no_prefix h = h
significant-prefix prefix s t (ends_line q absent tidy) h =
    ap significant (append_assoc q (newline ∷ []) s)
    ∙ significant-line [] q s t h
    ∙ ap significant (sym (append_assoc q (newline ∷ []) t))

-- Of a tidy prefix and fine entries, the file that is written splits into the same halves, and shows
-- the same lines as the one that would be written next.
rewritten :
    (sp ss prefix suffix w v : Text) (es fs : List Entry)
    → IsTidy prefix
    → IsLine (written_comment w)
    → IsLine (written_comment v)
    → All IsFine es
    → All IsFine fs
    → IsReordered es fs
    → publish sp ss (some (file prefix suffix w es)) v fs ≡ none
unfolding publish
rewritten sp ss prefix suffix w v es fs tidy lw lv he hf same =
    let lines : (u : Text) (gs : List Entry)
        → file prefix suffix u gs ≡ prefix ++ from_marker suffix u gs =
      λ u gs. ap (λ t. prefix ++ t) (render-unlines u gs suffix) in
    let read : split_static (file prefix suffix w es) ≡ (prefix, suffix, true) =
      ap split_static (lines w es)
      ∙ split_static-file prefix suffix (block_lines w es) tidy (block-IsInside w es lw he) in
    let current : same_but_for_freshness (file prefix suffix w es) (file prefix suffix v fs)
        ≡ true =
      same_of_significant (file prefix suffix w es) (file prefix suffix v fs) (
        ap significant (lines w es)
        ∙ significant-prefix prefix (from_marker suffix w es) (from_marker suffix v fs) tidy
            (significant-from_marker suffix w v es fs lw lv he hf same)
        ∙ sym (ap significant (lines v fs))) in
    rw (read, publish) (rw (current, if◌then◌else◌) refl)

pub halves-IsTidy :
    (sp ss : Text) (current : Option Text) → IsTidy sp → IsTidy (halves sp ss current).0
halves-IsTidy sp ss none tidy = tidy
halves-IsTidy sp ss (some content) tidy = split_static-IsTidy content

pub published_file :
    (sp ss : Text) (current : Option Text) (w : Text) (es : List Entry) (out : Text)
    → publish sp ss current w es ≡ some out
    → file (halves sp ss current).0 (halves sp ss current).1 w es ≡ out
unfolding publish
published_file sp ss current w es out h =
    let (prefix, suffix) = halves sp ss current in
    elim (Bool-cases (is_current current (file prefix suffix w es))) [
      | inl e ↦ absurd (cc (rw (e, publish, if◌then◌else◌) at h))
      | inr e ↦ some_inj (rw (e, publish, if◌then◌else◌) at h)
    ]

-- Whatever the live file held, once a block has been written, a publication of the same entries
-- writes nothing, whenever it comes, however often the entries were confirmed in between, and in
-- whatever order they come, entries of one address excepted. The static prefix of the start is one
-- that `split_static` gives; the times and the entries take a line each, none of which reads as the
-- end marker.
pub publish_again :
    (sp ss tp ts : Text) (current : Option Text) (w v : Text) (es fs : List Entry) (out : Text)
    → IsTidy sp
    → IsLine (written_comment w)
    → IsLine (written_comment v)
    → All IsFine es
    → All IsFine fs
    → IsReordered es fs
    → publish sp ss current w es ≡ some out
    → publish tp ts (some out) v fs ≡ none
publish_again sp ss tp ts current w v es fs out tidy lw lv he hf same h =
    subst (λ content. publish tp ts (some content) v fs ≡ none)
      (published_file sp ss current w es out h)
      (rewritten tp ts (halves sp ss current).0 (halves sp ss current).1 w v es fs
        (halves-IsTidy sp ss current tidy) lw lv he hf same)
