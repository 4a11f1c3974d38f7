-- ===== src/Publish/Hosts/Parse/Words.antt =====
-- Words of a line of src/publish/hosts.rs, and what `trim` leaves of it.
use nixnet_corbet_ch.Base.{
  ℕ, ◌≡◌, refl, sym, ◌∙◌, ap, inl, inr, true, false, Bool-cases, List, [], ◌∷◌, ◌++◌, if◌then◌else◌,
  append_nil, All, arith, ◌==◌, map,
}
use nixnet_corbet_ch.Base.Text.{Text, codes, is_empty, text_eq}
use nixnet_corbet_ch.Base.Str.{
  add_to_first, is_whitespace, trim, trim_start, trim_end, trim_start_matches, trim_end_matches,
  newline, join, split_inclusive, strip_line_end,
}
use nixnet_corbet_ch.Base.Parse.{contains, split_whitespace}
use nixnet_corbet_ch.Publish.Hosts.Parse.{lines}
use nixnet_corbet_ch.Publish.Hosts.Lines.{
  IsInner, strip_line_end-front, map-append, split_inclusive-append,
}
use nixnet_corbet_ch.Publish.Hosts.Split.{IsLine, split_inclusive-line}

abbrev pub IsSolid : ℕ → Type 0
IsSolid c = is_whitespace c ≡ false

abbrev pub IsWord : Text → Type 0
IsWord w = (is_empty w ≡ false) × All IsSolid w

split_whitespace-inner :
    (d e : ℕ) (s : Text)
    → IsSolid d
    → IsSolid e
    → split_whitespace (d ∷ e ∷ s) ≡ add_to_first d (split_whitespace (e ∷ s))
unfolding split_whitespace
split_whitespace-inner d e s hd he = rw (hd, he, if◌then◌else◌) refl

pub split_whitespace-word :
    (w : Text) (c : ℕ) (rest : Text)
    → IsWord w
    → is_whitespace c ≡ true
    → split_whitespace (w ++ c ∷ rest) ≡ w ∷ split_whitespace rest
unfolding split_whitespace
split_whitespace-word [] c rest word blank = absurd (cc word.0)
split_whitespace-word (d ∷ []) c rest word blank = rw (word.1.0, blank, if◌then◌else◌) refl
split_whitespace-word (d ∷ e ∷ w) c rest word blank =
    split_whitespace-inner d e (w ++ c ∷ rest) word.1.0 word.1.1.0
    ∙ ap (add_to_first d) (split_whitespace-word (e ∷ w) c rest (refl, word.1.1) blank)

split_whitespace-last : (w : Text) → IsWord w → split_whitespace w ≡ w ∷ []
unfolding split_whitespace
split_whitespace-last [] word = absurd (cc word.0)
split_whitespace-last (d ∷ []) word = rw (word.1.0, if◌then◌else◌) refl
split_whitespace-last (d ∷ e ∷ w) word =
    split_whitespace-inner d e w word.1.0 word.1.1.0
    ∙ ap (add_to_first d) (split_whitespace-last (e ∷ w) (refl, word.1.1))

split_whitespace_nil : split_whitespace [] ≡ []
unfolding split_whitespace
split_whitespace_nil = refl

blank_32 : is_whitespace 32 ≡ true
unfolding is_whitespace
blank_32 = refl

-- Words joined by blanks are split into the same words.
pub split_whitespace-join :
    (ws : List Text) → All IsWord ws → split_whitespace (join (codes " ") ws) ≡ ws
unfolding join
split_whitespace-join [] h = split_whitespace_nil
split_whitespace-join (w ∷ []) h = split_whitespace-last w h.0
split_whitespace-join (w ∷ v ∷ ws) h =
    split_whitespace-word w 32 (join (codes " ") (v ∷ ws)) h.0 blank_32
    ∙ ap (λ (l : List Text). w ∷ l) (split_whitespace-join (v ∷ ws) h.1)

trim_end-cons :
    (d : ℕ) (s : Text) → is_empty (trim_end s) ≡ false → trim_end (d ∷ s) ≡ d ∷ trim_end s
unfolding trim_end_matches
trim_end-cons d s h = rw (h, if◌then◌else◌) refl

trim_end-head : (c : ℕ) (s : Text) → IsSolid c → trim_end (c ∷ s) ≡ c ∷ trim_end s
unfolding trim_end_matches
trim_end-head c s h = elim (Bool-cases (is_empty (trim_end s))) [
  | inl e ↦ rw (e, if◌then◌else◌) (rw (h, if◌then◌else◌) refl)
  | inr e ↦ rw (e, if◌then◌else◌) refl
]

is_empty-behind : (u : Text) (c : ℕ) (s : Text) → is_empty (u ++ c ∷ s) ≡ false
is_empty-behind [] c s = refl
is_empty-behind (d ∷ u) c s = refl

-- `trim_end` leaves a solid character and all before it.
pub trim_end-solid :
    (u : Text) (c : ℕ) (s : Text) → IsSolid c → trim_end (u ++ c ∷ s) ≡ u ++ c ∷ trim_end s
trim_end-solid [] c s h = trim_end-head c s h
trim_end-solid (d ∷ u) c s h =
    let rest = trim_end-solid u c s h in
    trim_end-cons d (u ++ c ∷ s) (ap is_empty rest ∙ is_empty-behind u c (trim_end s))
    ∙ ap (λ (t : Text). d ∷ t) rest

trim_end_nil : trim_end [] ≡ []
unfolding trim_end_matches
trim_end_nil = refl

trim_end-word : (w : Text) → All IsSolid w → trim_end w ≡ w
trim_end-word [] h = trim_end_nil
trim_end-word (c ∷ w) h = trim_end-head c w h.0 ∙ ap (λ (t : Text). c ∷ t) (trim_end-word w h.1)

trim_start-solid : (c : ℕ) (s : Text) → IsSolid c → trim_start (c ∷ s) ≡ c ∷ s
unfolding trim_start_matches
trim_start-solid c s h = rw (h, if◌then◌else◌) refl

pub trim-solid : (c : ℕ) (s : Text) → IsSolid c → trim (c ∷ s) ≡ c ∷ trim_end s
trim-solid c s h = ap trim_start (trim_end-head c s h) ∙ trim_start-solid c (trim_end s) h

pub trim_end-last : (u w : Text) → IsWord w → trim_end (u ++ w) ≡ u ++ w
trim_end-last u [] word = absurd (cc word.0)
trim_end-last u (c ∷ w) word =
    trim_end-solid u c w word.1.0 ∙ ap (λ (t : Text). u ++ c ∷ t) (trim_end-word w word.1.1)

solid_not_blank : (c : ℕ) → IsSolid c → (c == 32) ≡ false
unfolding is_whitespace
solid_not_blank c h = ground arith

-- No blank in a word.
pub contains-word : (w : Text) → All IsSolid w → contains 32 w ≡ false
unfolding contains
contains-word [] h = refl
contains-word (c ∷ w) h = rw (solid_not_blank c h.0) (contains-word w h.1)

solid-IsInner : (c : ℕ) → IsSolid c → IsInner c
unfolding is_whitespace
solid-IsInner c h = (ground arith, ground arith)

pub word-IsInner : (w : Text) → All IsSolid w → All IsInner w
word-IsInner [] h = tt
word-IsInner (c ∷ w) h = (solid-IsInner c h.0, word-IsInner w h.1)

inner-IsLine : (l : Text) → All IsInner l → IsLine l
inner-IsLine [] h = tt
inner-IsLine (c ∷ l) h = (h.0.0, inner-IsLine l h.1)

strip_line_end-newline : strip_line_end (newline ∷ []) ≡ []
unfolding strip_line_end text_eq
strip_line_end-newline = refl

-- A line without a carriage return is read as it was written.
pub lines-inner : (l s : Text) → All IsInner l → lines (l ++ newline ∷ s) ≡ l ∷ lines s
lines-inner l s h =
    ap (map strip_line_end) (split_inclusive-line l s (inner-IsLine l h))
    ∙ ap (λ (x : Text). x ∷ lines s)
        (strip_line_end-front l (newline ∷ []) h
          ∙ ap (λ x. l ++ x) strip_line_end-newline
          ∙ append_nil l)

-- Whole lines are read one after the other.
pub lines-append : (q s : Text) → lines (q ++ newline ∷ s) ≡ lines (q ++ newline ∷ []) ++ lines s
lines-append q s =
    let (l, ls, a, b) = split_inclusive-append q s in
    ap (map strip_line_end) b
    ∙ map-append strip_line_end (l ∷ ls) (split_inclusive s)
    ∙ ap (λ x. map strip_line_end x ++ lines s) (sym a)
