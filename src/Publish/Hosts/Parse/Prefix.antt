-- ===== src/Publish/Hosts/Parse/Prefix.antt =====
-- No line of a prefix that src/publish/hosts.rs carries over reads as the begin marker.
use nixnet_corbet_ch.Base.{
  ◌≡◌, refl, sym, ◌∙◌, ap, subst, inl, inr, Bool-cases, List, [], ◌∷◌, ◌++◌, none, some, map, All,
  if◌then◌else◌, ◌||◌,
}
use nixnet_corbet_ch.Base.Text.{Text, text_eq, eq_of_text_eq, strip_prefix}
use nixnet_corbet_ch.Base.Str.{
  newline, join, trim, trim_start, trim_end, trim_start_matches, split_inclusive, strip_line_end,
  is_whitespace,
}
use nixnet_corbet_ch.Publish.Hosts.{begin_marker, find_begin}
use nixnet_corbet_ch.Publish.Hosts.Split.{
  join_line, join-split_inclusive, find_begin_absent, some_not_none,
}
use nixnet_corbet_ch.Publish.Hosts.Tidy.{
  IsTidy, no_prefix, ends_line, find_begin-front, find_begin_nil, trim_end-front,
}
use nixnet_corbet_ch.Publish.Hosts.Parse.{lines}
use nixnet_corbet_ch.Publish.Hosts.Parse.Back.{IsOutside}

find_begin-behind : (x y : Text) → find_begin (x ++ y) ≡ none → find_begin y ≡ none
find_begin-behind [] y h = h
find_begin-behind (c ∷ x) y h = find_begin-behind x y (find_begin_absent c (x ++ y) h).1

abbrev IsFree : Text → Type 0
IsFree s = find_begin s ≡ none

pieces-IsFree : (ls : List Text) → IsFree (join [] ls) → All IsFree ls
pieces-IsFree [] h = tt
pieces-IsFree (l ∷ ls) h =
    let whole = subst IsFree (join_line l ls) h in
    (
      find_begin-front l (join [] ls) whole,
      pieces-IsFree ls (find_begin-behind l (join [] ls) whole),
    )

strip_line_end-prefix : (l : Text) → (y : Text) × (l ≡ strip_line_end l ++ y)
unfolding strip_line_end
strip_line_end-prefix [] = ([], refl)
strip_line_end-prefix (c ∷ cs) =
    elim (Bool-cases (text_eq (c ∷ cs) (newline ∷ []) || text_eq (c ∷ cs) (13 ∷ newline ∷ []))) [
      | inl e ↦ (c ∷ cs, rw (e, if◌then◌else◌) refl)
      | inr e ↦
          let (y, same) = strip_line_end-prefix cs in
          (y, rw (e, if◌then◌else◌) (ap (λ (t : Text). c ∷ t) same))
    ]

trim_start-behind : (s : Text) → (x : Text) × (s ≡ x ++ trim_start s)
unfolding trim_start_matches
trim_start-behind [] = ([], refl)
trim_start-behind (c ∷ cs) = elim (Bool-cases (is_whitespace c)) [
  | inl e ↦
      let (x, same) = trim_start-behind cs in
      (c ∷ x, rw (e, if◌then◌else◌) (ap (λ (t : Text). c ∷ t) same))
  | inr e ↦ ([], rw (e, if◌then◌else◌) refl)
]

trim-IsFree : (l : Text) → IsFree l → IsFree (trim l)
trim-IsFree l h =
    let (y, front) = trim_end-front is_whitespace l in
    let (x, back) = trim_start-behind (trim_end l) in
    find_begin-behind x (trim l)
      (subst IsFree back (find_begin-front (trim_end l) y (subst IsFree front h)))

marker_found : find_begin begin_marker ≡ some ([], begin_marker)
unfolding find_begin strip_prefix
marker_found = refl

marker_not_free : (s : Text) → s ≡ begin_marker → IsFree s → ⊥
marker_not_free s e h = some_not_none (sym marker_found ∙ subst IsFree e h)

free-IsOutside : (l : Text) → IsFree l → IsOutside (strip_line_end l)
free-IsOutside l h =
    let (y, front) = strip_line_end-prefix l in
    let inner =
      trim-IsFree (strip_line_end l)
        (find_begin-front (strip_line_end l) y (subst IsFree front h)) in
    elim (Bool-cases (text_eq (trim (strip_line_end l)) begin_marker)) [
      | inl e ↦ absurd (marker_not_free _ (eq_of_text_eq _ _ e) inner)
      | inr e ↦ e
    ]

IsOutside-map : (ls : List Text) → All IsFree ls → All IsOutside (map strip_line_end ls)
IsOutside-map [] h = tt
IsOutside-map (l ∷ ls) h = (free-IsOutside l h.0, IsOutside-map ls h.1)

tidy-IsFree : (prefix : Text) → IsTidy prefix → IsFree prefix
tidy-IsFree prefix no_prefix = find_begin_nil
tidy-IsFree prefix (ends_line q absent tidy) = absent

pub lines-IsOutside : (prefix : Text) → IsTidy prefix → All IsOutside (lines prefix)
lines-IsOutside prefix tidy = IsOutside-map (split_inclusive prefix) (
    pieces-IsFree (split_inclusive prefix)
      (subst IsFree (sym (join-split_inclusive prefix)) (tidy-IsFree prefix tidy)))
