-- ===== src/Publish/Hosts/Tidy.antt =====
-- The prefix that `split_static` of src/publish/hosts.rs gives holds no begin marker, and is read back
-- as it is.
use nixnet_corbet_ch.Base.{
  ℕ, ◌≡◌, refl, sym, ◌∙◌, ap, subst, inl, inr, Bool, true, false, ◌&&◌, Bool-cases, Option-cases,
  [], ◌∷◌, ◌++◌, none, some, is_some, ◌==◌, if◌then◌else◌, some_inj,
}
use nixnet_corbet_ch.Base.Text.{Text, is_empty, strip_prefix}
use nixnet_corbet_ch.Base.Str.{trim_end_matches, is_newline, newline}
use nixnet_corbet_ch.Publish.Hosts.{begin_marker, find_begin, normalize, split_static}
use nixnet_corbet_ch.Publish.Hosts.Split.{IsLine, find_begin_absent, marker-IsLine}

-- A prefix that is read back as it is.
pub data IsTidy : Text → Type 0 where
  no_prefix : IsTidy []
  ends_line :
      (q : Text)
      → find_begin (q ++ newline ∷ []) ≡ none
      → normalize (q ++ newline ∷ []) ≡ q ++ newline ∷ []
      → IsTidy (q ++ newline ∷ [])

strip_prefix-front :
    (p x y : Text) → is_some (strip_prefix p (x ++ y)) ≡ false → is_some (strip_prefix p x) ≡ false
unfolding strip_prefix
strip_prefix-front [] x y h = h
strip_prefix-front (a ∷ p) [] y h = refl
strip_prefix-front (a ∷ p) (c ∷ x) y h = elim (Bool-cases (a == c)) [
  | inl e ↦
      rw (e, strip_prefix, if◌then◌else◌)
        (strip_prefix-front p x y (rw (e, strip_prefix, if◌then◌else◌) at h))
  | inr e ↦ rw (e, strip_prefix, if◌then◌else◌) refl
]

find_begin-none :
    (c : ℕ) (cs : Text)
    → is_some (strip_prefix begin_marker (c ∷ cs)) ≡ false
    → find_begin cs ≡ none
    → find_begin (c ∷ cs) ≡ none
unfolding find_begin
find_begin-none c cs not_here later = rw (not_here, find_begin, if◌then◌else◌) (rw later refl)

pub find_begin_nil : find_begin [] ≡ none
unfolding find_begin strip_prefix
find_begin_nil = refl

pub find_begin-front : (x y : Text) → find_begin (x ++ y) ≡ none → find_begin x ≡ none
find_begin-front [] y h = find_begin_nil
find_begin-front (c ∷ x) y h =
    let (not_here, later) = find_begin_absent c (x ++ y) h in
    find_begin-none c x (strip_prefix-front begin_marker (c ∷ x) y not_here)
      (find_begin-front x y later)

strip_prefix-line_end :
    (p q : Text)
    → IsLine p
    → is_some (strip_prefix p (q ++ newline ∷ [])) ≡ is_some (strip_prefix p q)
unfolding strip_prefix
strip_prefix-line_end [] q h = refl
strip_prefix-line_end (a ∷ p) [] h = rw (h.0, strip_prefix, if◌then◌else◌) refl
strip_prefix-line_end (a ∷ p) (c ∷ q) h = elim (Bool-cases (a == c)) [
  | inl e ↦ rw (e, strip_prefix, if◌then◌else◌) (strip_prefix-line_end p q h.1)
  | inr e ↦ rw (e, strip_prefix, if◌then◌else◌) refl
]

find_begin_line_end : find_begin (newline ∷ []) ≡ none
unfolding find_begin strip_prefix
find_begin_line_end = refl

find_begin-line_end : (q : Text) → find_begin q ≡ none → find_begin (q ++ newline ∷ []) ≡ none
find_begin-line_end [] h = find_begin_line_end
find_begin-line_end (c ∷ q) h =
    let (not_here, later) = find_begin_absent c q h in
    find_begin-none c (q ++ newline ∷ [])
      (strip_prefix-line_end begin_marker (c ∷ q) marker-IsLine ∙ not_here)
      (find_begin-line_end q later)

-- The text is cut at the first marker, and none begins before it.
find_begin_parts :
    (s before there' : Text)
    → find_begin s ≡ some (before, there')
    → (s ≡ before ++ there') × (find_begin before ≡ none)
unfolding find_begin
find_begin_parts [] before there' h = absurd (cc (sym h ∙ find_begin_nil))
find_begin_parts (c ∷ cs) before there' h =
    elim (Bool-cases (is_some (strip_prefix begin_marker (c ∷ cs)))) [
      | inl e ↦
          let same = some_inj (rw (e, find_begin, if◌then◌else◌) at h) in
          let empty : [] ≡ before = ap (λ (q : Text × Text). q.0) same in
          (
            ap (λ (q : Text × Text). q.0 ++ q.1) same,
            subst (λ b. find_begin b ≡ none) empty find_begin_nil,
          )
      | inr e ↦ elim (Option-cases (find_begin cs)) [
        | inl absent ↦ absurd (cc (rw (e, find_begin, if◌then◌else◌, absent) at h))
        | inr (r, found) ↦
            let same = some_inj (rw (e, find_begin, if◌then◌else◌, found) at h) in
            let (whole, clear) = find_begin_parts cs r.0 r.1 found in
            let not_here =
              strip_prefix-front begin_marker (c ∷ r.0) r.1
                (subst (λ t. is_some (strip_prefix begin_marker (c ∷ t)) ≡ false) whole e) in
            (
              ap (λ (t : Text). c ∷ t) whole ∙ ap (λ (q : Text × Text). q.0 ++ q.1) same,
              subst (λ b. find_begin b ≡ none) (ap (λ (q : Text × Text). q.0) same)
                  (find_begin-none c r.0 not_here clear),
            )
      ]
    ]

pub trim_end-front : (p : ℕ → Bool) (s : Text) → (y : Text) × (s ≡ trim_end_matches p s ++ y)
unfolding trim_end_matches
trim_end-front p [] = ([], refl)
trim_end-front p (c ∷ cs) = elim (Bool-cases (is_empty (trim_end_matches p cs) && p c)) [
  | inl e ↦ (c ∷ cs, rw (e, trim_end_matches, if◌then◌else◌) refl)
  | inr e ↦
      let (y, same) = trim_end-front p cs in
      (y, rw (e, trim_end_matches, if◌then◌else◌) (ap (λ (t : Text). c ∷ t) same))
]

trim_end-one : (p : ℕ → Bool) (c : ℕ) → p c ≡ true → trim_end_matches p (c ∷ []) ≡ []
unfolding trim_end_matches
trim_end-one p c h = rw h refl

trim_end-append :
    (p : ℕ → Bool) (s : Text) (c : ℕ)
    → p c ≡ true
    → trim_end_matches p (trim_end_matches p s ++ c ∷ []) ≡ trim_end_matches p s
unfolding trim_end_matches
trim_end-append p [] c h = trim_end-one p c h
trim_end-append p (d ∷ cs) c h = elim (Bool-cases (is_empty (trim_end_matches p cs) && p d)) [
  | inl e ↦ rw (e, trim_end_matches, if◌then◌else◌) (trim_end-one p c h)
  | inr e ↦
      rw (e, trim_end_matches, if◌then◌else◌)
        (rw (trim_end-append p cs c h) (rw (e, if◌then◌else◌) refl))
]

normalize-again :
    (raw : Text)
    → is_empty (trim_end_matches is_newline raw) ≡ false
    → normalize (trim_end_matches is_newline raw ++ newline ∷ [])
      ≡ trim_end_matches is_newline raw ++ newline ∷ []
unfolding normalize
normalize-again raw full =
    rw (trim_end-append is_newline raw newline refl, normalize) (rw (full, if◌then◌else◌) refl)

normalize-IsTidy : (raw : Text) → find_begin raw ≡ none → IsTidy (normalize raw)
unfolding normalize
normalize-IsTidy raw absent = elim (Bool-cases (is_empty (trim_end_matches is_newline raw))) [
  | inl e ↦ rw (e, normalize, if◌then◌else◌) no_prefix
  | inr e ↦
      let (y, whole) = trim_end-front is_newline raw in
      rw (e, normalize, if◌then◌else◌)
        (ends_line (trim_end_matches is_newline raw)
          (find_begin-line_end (trim_end_matches is_newline raw) (
            find_begin-front (trim_end_matches is_newline raw) y
              (subst (λ t. find_begin t ≡ none) whole absent)))
          (normalize-again raw e))
]

-- The prefix of any file.
pub split_static-IsTidy : (content : Text) → IsTidy (split_static content).0
unfolding split_static
split_static-IsTidy content = elim (Option-cases (find_begin content)) [
  | inl absent ↦ rw (absent, split_static) (normalize-IsTidy content absent)
  | inr (r, found) ↦
      rw (found, split_static) (normalize-IsTidy r.0 (find_begin_parts content r.0 r.1 found).1)
]
