-- ===== src/Publish/Hosts/Split.antt =====
-- The two halves that a rewrite keeps.
use nixnet_corbet_ch.Base.{
  append_assoc, append_nil, ℕ, ◌≡◌, ◌≢◌, refl, sym, ◌∙◌, ap, inl, inr, true, false, Bool-cases,
  Option-cases, List, [], ◌∷◌, ◌++◌, none, some, is_some, ◌==◌, All,
}
use nixnet_corbet_ch.Base.Text.{Text, text_eq, strip_prefix, strip_prefix-append}
use nixnet_corbet_ch.Base.Str.{
  trim, trim_end_matches, is_newline, newline, split_inclusive, add_to_first, join,
}
use nixnet_corbet_ch.Base.Str
use nixnet_corbet_ch.Publish.Hosts.{
  begin_marker, end_marker, find_begin, after_end, normalize, split_static,
}

-- No character of the line ends it.
abbrev pub IsLine : Text → Type 0
IsLine l = All (λ c. is_newline c ≡ false) l

-- Lines with a newline behind each.
abbrev pub unlines : List Text → Text
unlines [] = []
unlines (l ∷ ls) = l ++ newline ∷ unlines ls

pub split_inclusive-line :
    (l rest : Text)
    → IsLine l
    → split_inclusive (l ++ newline ∷ rest) ≡ (l ++ newline ∷ []) ∷ split_inclusive rest
unfolding split_inclusive add_to_first
split_inclusive-line [] rest h = refl
split_inclusive-line (c ∷ cs) rest h =
    rw (h.0, split_inclusive) (rw (split_inclusive-line cs rest h.1, add_to_first))

join_first : (c : ℕ) (ls : List Text) → join [] (add_to_first c ls) ≡ c ∷ join [] ls
unfolding join add_to_first
join_first c [] = refl
join_first c (l ∷ []) = refl
join_first c (l ∷ k ∷ ls) = refl

pub join_line : (l : Text) (ls : List Text) → join [] (l ∷ ls) ≡ l ++ join [] ls
unfolding join
join_line l [] = sym (append_nil l)
join_line l (k ∷ ls) = refl

pub join-split_inclusive : (s : Text) → join [] (split_inclusive s) ≡ s
unfolding split_inclusive join
join-split_inclusive [] = refl
join-split_inclusive (c ∷ cs) = elim (Bool-cases (is_newline c)) [
  | inl e ↦
      rw (e, split_inclusive)
        (join_line (c ∷ []) (split_inclusive cs)
          ∙ ap (λ (l : Text). c ∷ l) (join-split_inclusive cs))
  | inr e ↦
      rw (e, split_inclusive)
        (join_first c (split_inclusive cs) ∙ ap (λ (l : Text). c ∷ l) (join-split_inclusive cs))
]

-- A line of the block that does not end it.
abbrev pub IsInside : Text → Type 0
IsInside l = IsLine l × (text_eq (trim (l ++ newline ∷ [])) end_marker ≡ false)

end-IsLine : IsLine end_marker × (text_eq (trim (end_marker ++ newline ∷ [])) end_marker ≡ true)
unfolding Str.runs
end-IsLine = (
  (
    refl,
    (refl, (refl, (refl, (refl, (refl, (refl, (refl, (refl, (refl, (refl, (refl, tt))))))))))),
  ),
  refl,
)

after_end-unlines :
    (ls : List Text) (suffix : Text)
    → All IsInside ls
    → after_end (split_inclusive (unlines ls ++ (end_marker ++ newline ∷ suffix))) ≡ some suffix
unfolding after_end
after_end-unlines [] suffix h =
    rw (split_inclusive-line end_marker suffix end-IsLine.0)
      (rw (end-IsLine.1, after_end) (ap some (join-split_inclusive suffix)))
after_end-unlines (l ∷ ls) suffix h =
    rw (append_assoc l (newline ∷ unlines ls) (end_marker ++ newline ∷ suffix)) (
      rw (split_inclusive-line l (unlines ls ++ (end_marker ++ newline ∷ suffix)) h.0.0)
        (rw (h.0.1, after_end) (after_end-unlines ls suffix h.1)))

-- A pattern without a newline is found before one or not at all.
strip_prefix-newline :
    (p q rest : Text)
    → IsLine p
    → is_some (strip_prefix p (q ++ newline ∷ rest)) ≡ is_some (strip_prefix p (q ++ newline ∷ []))
unfolding strip_prefix
strip_prefix-newline [] q rest h = refl
strip_prefix-newline (a ∷ p) [] rest h = rw (h.0, strip_prefix)
strip_prefix-newline (a ∷ p) (c ∷ q) rest h = elim (Bool-cases (a == c)) [
  | inl e ↦ rw (e, strip_prefix) (strip_prefix-newline p q rest h.1)
  | inr e ↦ rw (e, strip_prefix)
]

pub find_begin_here :
    (s : Text) → is_some (strip_prefix begin_marker s) ≡ true → find_begin s ≡ some ([], s)
unfolding find_begin
find_begin_here [] h = rw (h, find_begin)
find_begin_here (c ∷ cs) h = rw (h, find_begin)

find_begin_later :
    (c : ℕ) (cs before there' : Text)
    → is_some (strip_prefix begin_marker (c ∷ cs)) ≡ false
    → find_begin cs ≡ some (before, there')
    → find_begin (c ∷ cs) ≡ some (c ∷ before, there')
unfolding find_begin
find_begin_later c cs before there' not_here later = rw (not_here, find_begin) (rw later)

pub some_not_none : {A : Type 0} {a : A} → some a ≢ none
some_not_none h = cc

pub find_begin_absent :
    (c : ℕ) (cs : Text)
    → find_begin (c ∷ cs) ≡ none
    → (is_some (strip_prefix begin_marker (c ∷ cs)) ≡ false) × (find_begin cs ≡ none)
unfolding find_begin
find_begin_absent c cs h = elim (Bool-cases (is_some (strip_prefix begin_marker (c ∷ cs)))) [
  | inl e ↦ absurd (cc (rw (e, find_begin) at h))
  | inr e ↦ elim (Option-cases (find_begin cs)) [
    | inl absent ↦ (e, absent)
    | inr (found, f) ↦ absurd (some_not_none (rw (e, find_begin, f) at h))
  ]
]

pub marker-IsLine : IsLine begin_marker
marker-IsLine = (
  refl,
  (
    refl,
    (
      refl,
      (refl, (refl, (refl, (refl, (refl, (refl, (refl, (refl, (refl, (refl, (refl, tt))))))))))),
    ),
  ),
)

marker_goes_on : text_eq (trim (begin_marker ++ newline ∷ [])) end_marker ≡ false
unfolding Str.runs
marker_goes_on = refl

newline_first : (s : Text) → is_some (strip_prefix begin_marker (newline ∷ s)) ≡ false
unfolding strip_prefix
newline_first s = refl

find_begin-newline :
    (q rest : Text)
    → find_begin (q ++ newline ∷ []) ≡ none
    → find_begin (q ++ newline ∷ (begin_marker ++ rest))
      ≡ some (q ++ newline ∷ [], begin_marker ++ rest)
find_begin-newline [] rest h =
    find_begin_later newline (begin_marker ++ rest) [] (begin_marker ++ rest)
      (newline_first (begin_marker ++ rest))
      (find_begin_here (begin_marker ++ rest) (ap is_some (strip_prefix-append begin_marker rest)))
find_begin-newline (c ∷ q) rest h =
    let (not_here, later) = find_begin_absent c (q ++ newline ∷ []) h in
    find_begin_later c (q ++ newline ∷ (begin_marker ++ rest)) (q ++ newline ∷ [])
      (begin_marker ++ rest)
      (strip_prefix-newline begin_marker (c ∷ q) (begin_marker ++ rest) marker-IsLine ∙ not_here)
      (find_begin-newline q rest later)

-- The end of a block of such lines, from its begin marker on.
pub after_end-block :
    (suffix : Text) (block : List Text)
    → All IsInside block
    → after_end (
        split_inclusive
          (begin_marker ++ newline ∷ (unlines block ++ (end_marker ++ newline ∷ suffix))))
      ≡ some suffix
unfolding after_end
after_end-block suffix block inside =
    rw
      (split_inclusive-line begin_marker (unlines block ++ (end_marker ++ newline ∷ suffix))
        marker-IsLine)
      (rw (marker_goes_on, after_end) (after_end-unlines block suffix inside))

-- What stands before and behind the managed block comes back as it is, so that a rewrite carries
-- both over: the text before it, where that ends with one newline and holds no begin marker, and
-- the text behind the line of the end marker, whatever it holds, where no line of the block reads as
-- that marker.
pub split_static-unlines :
    (before suffix : Text) (block : List Text)
    → find_begin (before ++ newline ∷ []) ≡ none
    → normalize (before ++ newline ∷ []) ≡ before ++ newline ∷ []
    → All IsInside block
    → split_static (
        before
        ++ newline
          ∷ (begin_marker ++ newline ∷ (unlines block ++ (end_marker ++ newline ∷ suffix))))
      ≡ (before ++ newline ∷ [], suffix, true)
unfolding split_static
split_static-unlines before suffix block absent tidy inside =
    let tail = newline ∷ (unlines block ++ (end_marker ++ newline ∷ suffix)) in
    rw (find_begin-newline before tail absent, split_static)
      (rw tidy (rw (after_end-block suffix block inside)))
