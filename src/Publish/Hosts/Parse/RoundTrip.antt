-- ===== src/Publish/Hosts/Parse/RoundTrip.antt =====
-- What a publication of src/publish/hosts.rs writes, its parser reads back.
use nixnet_corbet_ch.Base.{
  ◌≡◌, refl, sym, ◌∙◌, ap, true, not, ◌&&◌, List, [], ◌∷◌, ◌++◌, Option, none, some, all,
  append_assoc, All, All-append, arith, ◌==◌,
}
use nixnet_corbet_ch.Base.Text.{Text, codes, text_eq_refl}
use nixnet_corbet_ch.Base.Str.{newline, join, split_inclusive}
use nixnet_corbet_ch.Base.Sort.{sort, All-sort}
use nixnet_corbet_ch.Engine.Status.{Entry}
use nixnet_corbet_ch.Publish.Hosts.{begin_marker, end_marker, render_block, publish, halves}
use nixnet_corbet_ch.Publish.Hosts.Split.{unlines}
use nixnet_corbet_ch.Publish.Hosts.Tidy.{IsTidy, no_prefix, ends_line}
use nixnet_corbet_ch.Publish.Hosts.Lines.{IsInner, comment, comment-IsInner}
use nixnet_corbet_ch.Publish.Hosts.Block.{
  address_line, comments_of, all_lines, by_address, written_comment, block_lines, render-unlines,
}
use nixnet_corbet_ch.Publish.Hosts.Converge.{halves-IsTidy, published_file}
use nixnet_corbet_ch.Publish.Hosts.Parse.{scan, confirmed_of, lines, parse_nix_hosts}
use nixnet_corbet_ch.Publish.Hosts.Parse.Prefix.{lines-IsOutside}
use nixnet_corbet_ch.Publish.Hosts.Parse.Words.{IsWord, word-IsInner, lines-inner, lines-append}
use nixnet_corbet_ch.Publish.Hosts.Parse.Back.{
  IsPrintable, IsOutside, outside, inside, scan_step, outside_step, scan-outside, scan_nil,
  begin_step, end_step, address_step, confirmed_step, written_step,
}

abbrev entry_of : Text → List Text → Option Text → Entry
entry_of a hs o = record { address = a; hostnames = hs; confirmed_at = o }

confirmed_of-same : (a t : Text) → confirmed_of a (some (a, t)) ≡ some t
confirmed_of-same a t = rw (text_eq_refl a) refl

-- One entry's lines.
scan-entry :
    (a : Text) (hs : List Text) (o : Option Text) (rest : List Text)
    → IsPrintable (entry_of a hs o)
    → scan (inside none) (comments_of (entry_of a hs o) o ++ address_line (entry_of a hs o) ∷ rest)
      ≡ entry_of a hs o ∷ scan (inside none) rest
unfolding comments_of address_line
scan-entry [] hs o rest fine = absurd (cc fine.address.0)
scan-entry (c ∷ a) [] o rest fine = absurd (fine.named refl)
scan-entry (c ∷ a) (h ∷ hs) none rest fine =
    scan_step (inside none) (inside none) _ rest (entry_of (c ∷ a) (h ∷ hs) none ∷ [])
      (address_step c a (h ∷ hs) none fine.address fine.no_comment fine.hosts)
scan-entry (c ∷ a) (h ∷ hs) (some t) rest fine =
    scan_step (inside none) (inside (some (c ∷ a, t))) _ _ []
      (confirmed_step c a t none fine.address (fine.confirmed t refl))
    ∙ scan_step (inside (some (c ∷ a, t))) (inside none) _ rest
        (entry_of (c ∷ a) (h ∷ hs) (some t) ∷ [])
        (address_step c a (h ∷ hs) (some (c ∷ a, t)) fine.address fine.no_comment fine.hosts
          ∙ ap (λ o. (entry_of (c ∷ a) (h ∷ hs) o ∷ [], inside none)) (confirmed_of-same (c ∷ a) t))

scan-all_lines :
    (es : List Entry) (rest : List Text)
    → All IsPrintable es
    → scan (inside none) (all_lines es ++ rest) ≡ es ++ scan (inside none) rest
unfolding all_lines
scan-all_lines [] rest h = refl
scan-all_lines (e ∷ es) rest h =
    ap (scan (inside none))
      (append_assoc (comments_of e e.confirmed_at) (address_line e ∷ all_lines es) rest)
    ∙ scan-entry e.address e.hostnames e.confirmed_at (all_lines es ++ rest) h.0
    ∙ ap (λ (l : List Entry). e ∷ l) (scan-all_lines es rest h.1)

-- No newline and no carriage return, by evaluation.
no_line_end : (s : Text) → all (λ c. not (c == newline) && not (c == 13)) s ≡ true → All IsInner s
no_line_end [] h = tt
no_line_end (c ∷ cs) h = ((ground arith, ground arith), no_line_end cs (ground arith))

join-IsInner : (ws : List Text) → All IsWord ws → All IsInner (join (codes " ") ws)
unfolding join
join-IsInner [] h = tt
join-IsInner (w ∷ []) h = word-IsInner w h.0.1
join-IsInner (w ∷ v ∷ ws) h =
    All-append IsInner w (32 ∷ join (codes " ") (v ∷ ws)) (word-IsInner w h.0.1)
      ((refl, refl), join-IsInner (v ∷ ws) h.1)

address_line-IsInner : (e : Entry) → IsPrintable e → All IsInner (address_line e)
unfolding address_line
address_line-IsInner e fine =
    All-append IsInner e.address (9 ∷ join (codes " ") e.hostnames)
      (word-IsInner e.address fine.address.1) ((refl, refl), join-IsInner e.hostnames fine.hosts)

comments-IsInner :
    (e : Entry) (o : Option Text)
    → IsPrintable e
    → ((t : Text) → o ≡ some t → IsWord t)
    → All (All IsInner) (comments_of e o)
unfolding comments_of
comments-IsInner e none fine h = tt
comments-IsInner e (some t) fine h = (
  All-append IsInner comment (e.address ++ (codes " confirmed=" ++ t)) comment-IsInner (
      All-append IsInner e.address (codes " confirmed=" ++ t)
        (word-IsInner e.address fine.address.1)
        (All-append IsInner (codes " confirmed=") t (no_line_end (codes " confirmed=") refl)
          (word-IsInner t (h t refl).1))),
  tt,
)

all_lines-IsInner : (es : List Entry) → All IsPrintable es → All (All IsInner) (all_lines es)
unfolding all_lines
all_lines-IsInner [] h = tt
all_lines-IsInner (e ∷ es) h =
    All-append (All IsInner) (comments_of e e.confirmed_at) (address_line e ∷ all_lines es)
      (comments-IsInner e e.confirmed_at h.0 h.0.confirmed)
      (address_line-IsInner e h.0, all_lines-IsInner es h.1)

lines-unlines :
    (ls : List Text) (s : Text) → All (All IsInner) ls → lines (unlines ls ++ s) ≡ ls ++ lines s
lines-unlines [] s h = refl
lines-unlines (l ∷ ls) s h =
    ap lines (append_assoc l (newline ∷ unlines ls) s)
    ∙ lines-inner l (unlines ls ++ s) h.0
    ∙ ap (λ (x : List Text). l ∷ x) (lines-unlines ls s h.1)

-- The lines of a rendered block and what is behind it.
lines-render_block :
    (written : Text) (es : List Entry) (suffix : Text)
    → IsWord written
    → All IsPrintable es
    → lines (render_block written es ++ suffix)
      ≡ begin_marker
        ∷ written_comment written
        ∷ (all_lines (sort by_address es) ++ end_marker ∷ lines suffix)
unfolding block_lines
lines-render_block written es suffix word fine =
    let sorted = All-sort by_address IsPrintable es fine in
    let inner : All IsInner (written_comment written) =
      All-append IsInner comment (codes "written=" ++ written) comment-IsInner (
        All-append IsInner (codes "written=") written (no_line_end (codes "written=") refl)
          (word-IsInner written word.1)) in
    ap lines (render-unlines written es suffix)
    ∙ lines-inner begin_marker _ (no_line_end begin_marker refl)
    ∙ ap (λ (x : List Text). begin_marker ∷ x)
        (lines-unlines (block_lines written es) (end_marker ++ newline ∷ suffix)
            (inner, all_lines-IsInner (sort by_address es) sorted)
          ∙ ap (λ (x : List Text). block_lines written es ++ x)
              (lines-inner end_marker suffix (no_line_end end_marker refl)))

append_nil_of : {A : Type 0} (xs ys : List A) → ys ≡ [] → xs ++ ys ≡ xs
append_nil_of [] ys h = h
append_nil_of (x ∷ xs) ys h = ap (λ (l : List _). x ∷ l) (append_nil_of xs ys h)

scan-suffix : (ls : List Text) → All IsOutside ls → scan outside ls ≡ []
scan-suffix [] h = scan_nil outside
scan-suffix (l ∷ ls) h = scan_step outside outside l ls [] (outside_step l h.0) ∙ scan-suffix ls h.1

scan-block :
    (written : Text) (es : List Entry) (suffix : Text)
    → IsWord written
    → All IsPrintable es
    → All IsOutside (lines suffix)
    → scan outside (lines (render_block written es ++ suffix)) ≡ sort by_address es
scan-block written es suffix word fine clear =
    let sorted = sort by_address es in
    let behind = end_marker ∷ lines suffix in
    ap (scan outside) (lines-render_block written es suffix word fine)
    ∙ scan_step outside (inside none) begin_marker _ [] begin_step
    ∙ scan_step (inside none) (inside none) (written_comment written) (all_lines sorted ++ behind)
        [] (written_step written none word)
    ∙ scan-all_lines sorted behind (All-sort by_address IsPrintable es fine)
    ∙ append_nil_of sorted (scan (inside none) behind) (
        scan_step (inside none) outside end_marker (lines suffix) [] end_step
        ∙ scan-suffix (lines suffix) clear)

lines_nil : lines [] ≡ []
unfolding split_inclusive
lines_nil = refl

lines-prefix : (prefix s : Text) → IsTidy prefix → lines (prefix ++ s) ≡ lines prefix ++ lines s
lines-prefix prefix s no_prefix = ap (λ (x : List Text). x ++ lines s) (sym lines_nil)
lines-prefix prefix s (ends_line q absent tidy) =
    ap lines (append_assoc q (newline ∷ []) s) ∙ lines-append q s

-- What a publication writes, `parse_nix_hosts` reads back as the entries that were published, in the
-- order of their addresses: their confirmations too. No line of the static suffix reads as the begin
-- marker, the static prefix of the start is one that `split_static` gives, and the time and the
-- entries' parts are words, of which an address does not begin with `#`; an entry has a host.
pub parse_nix_hosts-publish :
    (sp ss : Text) (current : Option Text) (written : Text) (es : List Entry) (out : Text)
    → IsTidy sp
    → IsWord written
    → All IsPrintable es
    → All IsOutside (lines (halves sp ss current).1)
    → publish sp ss current written es ≡ some out
    → parse_nix_hosts out ≡ sort by_address es
unfolding parse_nix_hosts
parse_nix_hosts-publish sp ss current written es out tidy word fine behind h =
    let (prefix, suffix) = halves sp ss current in
    let kept = halves-IsTidy sp ss current tidy in
    let rest = render_block written es ++ suffix in
    ap (λ x. scan outside (lines x)) (sym (published_file sp ss current written es out h))
    ∙ ap (scan outside) (lines-prefix prefix rest kept)
    ∙ scan-outside (lines prefix) (lines rest) (lines-IsOutside prefix kept)
    ∙ scan-block written es suffix word fine behind
