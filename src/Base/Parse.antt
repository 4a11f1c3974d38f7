-- ===== src/Base/Parse.antt =====
-- `str::parse` of unsigned numbers, and the splits of a string at one character.
use Prim.Native.Nat.{ℕ, zero, suc, ◌+◌, ◌-◌, ◌*◌, ◌/◌, ◌%◌, ◌^◌, ◌≤◌, ◌<◌}
use mathlib.Core.Path.{◌≡◌, refl, ap, ◌∙◌}
use mathlib.Core.Bool.{Bool, true, false, not, ◌&&◌, ◌||◌}
use mathlib.Core.Logic.{inl, inr}
use mathlib.Core.List.{List, [], ◌∷◌, ◌++◌}
use mathlib.Core.Option.{Option, none, some}
use native.Mathlib.Omega.{arith}
use native.Mathlib.Nat.{pow-succ'}
use nixnet_corbet_ch.Base.Tests.{ltb, leb, ◌==◌, if◌then◌else◌, Bool-cases}
use nixnet_corbet_ch.Base.Text.{Text, is_empty}
use nixnet_corbet_ch.Base.Str.{digits, is_whitespace, add_to_first, split_inclusive, strip_line_end}
use nixnet_corbet_ch.Base.Str

abbrev pub is_digit : ℕ → Bool
is_digit c = leb 48 c && leb c 57

-- The digits behind a number read so far, none above `max`.
unfoldable pub parse_digits : ℕ → ℕ → Text → Option ℕ
parse_digits max n [] = some n
parse_digits max n (c ∷ cs) =
    let next = n * 10 + (c - 48) in
    let rest = parse_digits max next cs in if is_digit c && leb next max then rest else none

abbrev pub parse_some : ℕ → Text → Option ℕ
parse_some max [] = none
parse_some max (c ∷ cs) = parse_digits max 0 (c ∷ cs)

-- A plus sign may lead.
unfoldable pub parse_unsigned : ℕ → Text → Option ℕ
parse_unsigned max [] = none
parse_unsigned max (c ∷ cs) = if c == 43 then parse_some max cs else parse_some max (c ∷ cs)

-- `split_once`: around the first such character.
unfoldable pub split_once : ℕ → Text → Option (Text × Text)
split_once c [] = none
split_once c (d ∷ ds) =
    let later = split_once c ds in
    if d == c
    then some ([], ds)
    else elim later [ none ↦ none | some (before, behind) ↦ some (d ∷ before, behind) ]

-- `rsplit_once`: around the last one.
unfoldable pub rsplit_once : ℕ → Text → Option (Text × Text)
rsplit_once c [] = none
rsplit_once c (d ∷ ds) = elim (rsplit_once c ds) [
  | some (before, behind) ↦ some (d ∷ before, behind)
  | none ↦ if d == c then some ([], ds) else none
]

unfoldable pub contains : ℕ → Text → Bool
contains c [] = false
contains c (d ∷ ds) = d == c || contains c ds

pub split_once-append :
    (c : ℕ) (s t : Text) → contains c s ≡ false → split_once c (s ++ c ∷ t) ≡ some (s, t)
unfolding split_once contains
split_once-append c [] t h = ground arith
split_once-append c (d ∷ ds) t h = elim (Bool-cases (d == c)) [
  | inl e ↦ absurd (ground arith)
  | inr e ↦ rw (e, if◌then◌else◌) (rw (split_once-append c ds t (rw (e, ◌||◌) at h)) refl)
]

pub rsplit_once-none : (c : ℕ) (s : Text) → contains c s ≡ false → rsplit_once c s ≡ none
unfolding rsplit_once contains
rsplit_once-none c [] h = refl
rsplit_once-none c (d ∷ ds) h = elim (Bool-cases (d == c)) [
  | inl e ↦ absurd (ground arith)
  | inr e ↦ rw (rsplit_once-none c ds (rw (e, ◌||◌) at h)) (rw (e, if◌then◌else◌) refl)
]

pub rsplit_once-append :
    (c : ℕ) (s t : Text) → contains c t ≡ false → rsplit_once c (s ++ c ∷ t) ≡ some (s, t)
unfolding rsplit_once
rsplit_once-append c [] t h = rw (rsplit_once-none c t h) (ground arith)
rsplit_once-append c (d ∷ ds) t h = rw (rsplit_once-append c ds t h) refl

parse_step :
    (max m d : ℕ) (cs : Text)
    → d < 10
    → m * 10 + d ≤ max
    → parse_digits max m ((48 + d) ∷ cs) ≡ parse_digits max (m * 10 + d) cs
unfolding parse_digits
parse_step max m d cs small le =
    let back : (48 + d) - 48 ≡ d = omega arith in
    let digit : (is_digit (48 + d) && leb (m * 10 + ((48 + d) - 48)) max) ≡ true = ground arith in
    rw (digit, if◌then◌else◌) (ap (λ x. parse_digits max (m * 10 + x) cs) back)

div_lt : (n fuel : ℕ) → n < 10 ^ suc fuel → n / 10 < 10 ^ fuel
div_lt n fuel h = omega (arith, h, pow-succ' 10 fuel)

-- A number that is written as `to_string` does is read back, whatever follows.
pub parse_digits-digits :
    (max fuel n : ℕ) (acc : Text)
    → n < 10 ^ fuel
    → n ≤ max
    → parse_digits max 0 (digits fuel n acc) ≡ parse_digits max n acc
unfolding digits
parse_digits-digits max zero n acc h le = ap (λ m. parse_digits max m acc) (omega (arith, h))
parse_digits-digits max (suc fuel) n acc h le = elim (Bool-cases (ltb n 10)) [
  | inl e ↦
      rw (e, if◌then◌else◌)
        (parse_step max 0 n acc (ground arith) (omega arith)
          ∙ ap (λ m. parse_digits max m acc) (omega arith))
  | inr e ↦
      rw (e, if◌then◌else◌)
        (parse_digits-digits max fuel (n / 10) ((48 + n % 10) ∷ acc) (div_lt n fuel h) (omega arith)
          ∙ parse_step max (n / 10) (n % 10) acc (omega arith) (omega arith)
          ∙ ap (λ m. parse_digits max m acc) (omega arith))
]

-- Its digits hold no other character.
pub contains-digits :
    (c fuel n : ℕ) (acc : Text)
    → is_digit c ≡ false
    → contains c acc ≡ false
    → contains c (digits fuel n acc) ≡ false
unfolding digits contains
contains-digits c zero n acc other h = h
contains-digits c (suc fuel) n acc other h = elim (Bool-cases (ltb n 10)) [
  | inl e ↦ rw (e, if◌then◌else◌) (ground arith)
  | inr e ↦ rw (e, if◌then◌else◌) (contains-digits c fuel (n / 10) _ other (ground arith))
]

digits-is_empty :
    (fuel n : ℕ) (acc : Text) → is_empty acc ≡ false → is_empty (digits fuel n acc) ≡ false
unfolding digits
digits-is_empty zero n acc h = h
digits-is_empty (suc fuel) n acc h = elim (Bool-cases (ltb n 10)) [
  | inl e ↦ rw (e, if◌then◌else◌) refl
  | inr e ↦ rw (e, if◌then◌else◌) (digits-is_empty fuel (n / 10) _ refl)
]

digits_full : (fuel n : ℕ) → is_empty (digits (suc fuel) n []) ≡ false
unfolding digits
digits_full fuel n = elim (Bool-cases (ltb n 10)) [
  | inl e ↦ rw (e, if◌then◌else◌) refl
  | inr e ↦ rw (e, if◌then◌else◌) (digits-is_empty fuel (n / 10) _ refl)
]

parse_unsigned_plain :
    (max : ℕ) (s : Text)
    → is_empty s ≡ false
    → contains 43 s ≡ false
    → parse_unsigned max s ≡ parse_digits max 0 s
unfolding parse_unsigned contains
parse_unsigned_plain max [] h plain = cc
parse_unsigned_plain max (c ∷ cs) h plain = elim (Bool-cases (c == 43)) [
  | inl e ↦ absurd (ground arith)
  | inr e ↦ rw (e, if◌then◌else◌) refl
]

-- `parse` reads what `to_string` writes.
pub parse_unsigned-digits :
    (max n : ℕ) → n < 10 ^ 20 → n ≤ max → parse_unsigned max (digits 20 n []) ≡ some n
unfolding parse_digits contains
parse_unsigned-digits max n h le =
    parse_unsigned_plain max (digits 20 n []) (digits_full 19 n)
      (contains-digits 43 20 n [] refl refl)
    ∙ parse_digits-digits max 20 n [] h le

-- `split_whitespace`.
abbrev pub starts_word : Text → Bool
starts_word [] = false
starts_word (c ∷ cs) = not (is_whitespace c)

unfoldable pub split_whitespace : Text → List Text
unfolding add_to_first
split_whitespace [] = []
split_whitespace (c ∷ cs) =
    let rest = split_whitespace cs in
    if is_whitespace c
    then rest
    else if starts_word cs
    then add_to_first c rest
    else (c ∷ []) ∷ rest

-- `lines().next()`, empty where there is none.
unfoldable pub first_line : Text → Text
first_line s = elim (split_inclusive s) [ [] ↦ [] | l ∷ ls ↦ strip_line_end l ]

-- Stands for the definitions above: a test unfolds this name.
unfoldable pub runs : Unit {0}
unfolding Str.runs digits parse_digits parse_unsigned split_once rsplit_once contains
    split_whitespace first_line
runs = tt
