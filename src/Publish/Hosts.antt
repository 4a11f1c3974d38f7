-- ===== src/Publish/Hosts.antt =====
-- src/publish/hosts.rs: the managed block of the hosts file. Its file is the caller's, and the text
-- of the time of writing an argument.
pub mod Split
pub mod Tidy
pub mod Lines
pub mod Block
pub mod Order
pub mod Converge
pub mod Parse
use nixnet_corbet_ch.Base.{
  ℕ, Bool, true, false, not, ◌&&◌, List, [], ◌∷◌, ◌++◌, Option, none, some, if◌then◌else◌, map,
  keep, is_some,
}
use nixnet_corbet_ch.Base.Text.{Text, codes, is_empty, text_eq, strip_prefix}
use nixnet_corbet_ch.Base.Str.{
  trim, trim_start, trim_end_matches, is_newline, newline, split_inclusive, strip_line_end, join,
  text_le,
}
use nixnet_corbet_ch.Base.Str
use nixnet_corbet_ch.Base.Sort.{sort}
use nixnet_corbet_ch.Engine.Status.{Entry}

abbrev pub begin_marker : Text
begin_marker = codes "# BEGIN nixnet"

abbrev pub end_marker : Text
end_marker = codes "# END nixnet"

-- The text before the first marker and the text from it on.
unfoldable pub find_begin : Text → Option (Text × Text)
find_begin [] = if is_some (strip_prefix begin_marker []) then some ([], []) else none
find_begin (c ∷ cs) =
    let later = find_begin cs in
    if is_some (strip_prefix begin_marker (c ∷ cs))
    then some ([], c ∷ cs)
    else elim later [ none ↦ none | some (before, from_there) ↦ some (c ∷ before, from_there) ]

-- What follows the end marker's line; `none` in a block without one.
unfoldable pub after_end : List Text → Option Text
after_end [] = none
after_end (line ∷ lines) =
    let later = after_end lines in
    if text_eq (trim line) end_marker then some (join [] lines) else later

-- The prefix without the newlines at its end, but for one.
unfoldable pub normalize : Text → Text
normalize raw =
    let trimmed = trim_end_matches is_newline raw in
    if is_empty trimmed then [] else trimmed ++ newline ∷ []

abbrev suffix_of : Option Text → Text
suffix_of none = []
suffix_of (some s) = s

unfoldable pub split_static : Text → Text × Text × Bool
split_static content = elim (find_begin content) [
  | none ↦ (normalize content, [], false)
  | some (before, from_there) ↦
      (normalize before, suffix_of (after_end (split_inclusive from_there)), true)
]

abbrev confirmed_line : Entry → Text
confirmed_line e = elim e.confirmed_at [
  | none ↦ []
  | some t ↦ codes "# nixnet " ++ (e.address ++ (codes " confirmed=" ++ (t ++ newline ∷ [])))
]

abbrev entry_lines : Entry → Text
entry_lines e =
    confirmed_line e ++ (e.address ++ (9 ∷ join (codes " ") e.hostnames ++ newline ∷ []))

-- The rendering between the static halves.
unfoldable pub render_block : Text → List Entry → Text
render_block written_at entries =
    begin_marker
    ++ (newline ∷ codes "# nixnet written="
        ++ (written_at
            ++ (newline ∷ []
                ++ (join [] (map entry_lines (sort (λ a b. text_le a.address b.address) entries))
                    ++ (end_marker ++ newline ∷ [])))))

abbrev significant : Text → List Text
significant s =
    keep (λ l. not (is_some (strip_prefix (codes "# nixnet ") (trim_start l))))
      (map strip_line_end (split_inclusive s))

unfoldable pub lines_eq : List Text → List Text → Bool
lines_eq [] [] = true
lines_eq (a ∷ xs) (b ∷ ys) = text_eq a b && lines_eq xs ys
lines_eq _ _ = false

unfoldable pub same_but_for_freshness : Text → Text → Bool
same_but_for_freshness a b = lines_eq (significant a) (significant b)

-- The static halves: off the live file, else those of the start.
abbrev pub halves : Text → Text → Option Text → Text × Text
halves static_prefix static_suffix none = (static_prefix, static_suffix)
halves static_prefix static_suffix (some content) =
    let (prefix, suffix, had_markers) = split_static content in (prefix, suffix)

abbrev is_current : Option Text → Text → Bool
is_current none out = false
is_current (some content) out = same_but_for_freshness content out

-- What is written, or `none` where the live file says it already. A file that cannot be read ends
-- the call before.
unfoldable pub publish : Text → Text → Option Text → Text → List Entry → Option Text
publish static_prefix static_suffix current written_at entries =
    let (prefix, suffix) = halves static_prefix static_suffix current in
    let out = prefix ++ (render_block written_at entries ++ suffix) in
    if is_current current out then none else some out

-- Stands for all that the definitions above compute with: a test unfolds this name.
unfoldable pub runs : Unit {0}
unfolding Str.runs strip_prefix sort find_begin after_end normalize split_static render_block
    lines_eq same_but_for_freshness publish
runs = tt
