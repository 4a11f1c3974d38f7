-- ===== src/Base/Str.antt =====
-- The methods of Rust's strings that the program calls, on lists of code points.
use nixnet_corbet_ch.Base.Tests.{ltb, leb, ◌==◌, if◌then◌else◌}
use nixnet_corbet_ch.Base.Int.{ℤ, pos, negsuc}
use nixnet_corbet_ch.Base.Text.{Text, is_empty, text_eq}
use Prim.Native.Nat.{ℕ, zero, suc, ◌+◌, ◌*◌, ◌/◌, ◌%◌}
use mathlib.Core.Bool.{Bool, true, false, ◌&&◌, ◌||◌}
use mathlib.Core.List.{List, [], ◌∷◌, ◌++◌}

abbrev pub newline : ℕ
newline = 10

abbrev pub is_newline : ℕ → Bool
is_newline c = c == newline

-- `char::is_whitespace`: the code points of the property White_Space.
unfoldable pub is_whitespace : ℕ → Bool
is_whitespace c =
    (leb 9 c && leb c 13)
    || c == 32
    || c == 133
    || c == 160
    || c == 5760
    || (leb 8192 c && leb c 8202)
    || c == 8232
    || c == 8233
    || c == 8239
    || c == 8287
    || c == 12288

module _ (p : ℕ → Bool) where
  -- `trim_start_matches`.
  unfoldable pub trim_start_matches : Text → Text
  trim_start_matches [] = []
  trim_start_matches (c ∷ cs) = let rest = trim_start_matches cs in if p c then rest else c ∷ cs

  -- `trim_end_matches`.
  unfoldable pub trim_end_matches : Text → Text
  trim_end_matches [] = []
  trim_end_matches (c ∷ cs) =
      let rest = trim_end_matches cs in if is_empty rest && p c then [] else c ∷ rest

abbrev pub trim_start : Text → Text
trim_start = trim_start_matches is_whitespace

abbrev pub trim_end : Text → Text
trim_end = trim_end_matches is_whitespace

abbrev pub trim : Text → Text
trim s = trim_start (trim_end s)

-- `[&str]::join`.
unfoldable pub join : Text → List Text → Text
join sep [] = []
join sep (s ∷ []) = s
join sep (s ∷ t ∷ ts) = s ++ (sep ++ join sep (t ∷ ts))

-- `split_inclusive('\n')`: the lines with their newlines.
unfoldable pub add_to_first : ℕ → List Text → List Text
add_to_first c [] = (c ∷ []) ∷ []
add_to_first c (l ∷ ls) = (c ∷ l) ∷ ls

unfoldable pub split_inclusive : Text → List Text
unfolding add_to_first
split_inclusive [] = []
split_inclusive (c ∷ cs) =
    let rest = split_inclusive cs in if is_newline c then (c ∷ []) ∷ rest else add_to_first c rest

-- Without the newline of the line, nor the carriage return before it.
unfoldable pub strip_line_end : Text → Text
strip_line_end [] = []
strip_line_end (c ∷ cs) =
    let rest = strip_line_end cs in
    if text_eq (c ∷ cs) (newline ∷ []) || text_eq (c ∷ cs) (13 ∷ newline ∷ []) then [] else c ∷ rest

-- `u64::to_string` and `i64::to_string`: twenty digits hold every value.
unfoldable pub digits : ℕ → ℕ → Text → Text
digits zero n acc = acc
digits (suc fuel) n acc =
    let rest = digits fuel (n / 10) ((48 + n % 10) ∷ acc) in
    if ltb n 10 then (48 + n) ∷ acc else rest

unfoldable pub to_string : ℤ → Text
to_string (pos n) = digits 20 n []
to_string (negsuc n) = 45 ∷ digits 20 (suc n) []

-- `as_bytes`: UTF-8.
unfoldable pub utf8_char : ℕ → List ℕ
utf8_char c =
    if ltb c 128
    then c ∷ []
    else if ltb c 2048
    then (192 + c / 64) ∷ (128 + c % 64) ∷ []
    else if ltb c 65536
    then (224 + c / 4096) ∷ (128 + c / 64 % 64) ∷ (128 + c % 64) ∷ []
    else (240 + c / 262144) ∷ (128 + c / 4096 % 64) ∷ (128 + c / 64 % 64) ∷ (128 + c % 64) ∷ []

unfoldable pub as_bytes : Text → List ℕ
unfolding utf8_char
as_bytes [] = []
as_bytes (c ∷ cs) = utf8_char c ++ as_bytes cs

-- Exclusive or of the lowest bits.
unfoldable pub xor : ℕ → ℕ → ℕ → ℕ
xor zero a b = 0
xor (suc bits) a b = (a % 2 + b % 2) % 2 + 2 * xor bits (a / 2) (b / 2)

-- `{:0nx}`: lower case hexadecimal digits, the last `n` of them.
abbrev hex_digit : ℕ → ℕ
hex_digit d = if ltb d 10 then 48 + d else 87 + d

unfoldable pub hex : ℕ → ℕ → Text → Text
hex zero n acc = acc
hex (suc k) n acc = hex k (n / 16) (hex_digit (n % 16) ∷ acc)

-- The order of strings: that of their bytes, which is that of their code points.
unfoldable pub text_le : Text → Text → Bool
text_le [] t = true
text_le (c ∷ cs) [] = false
text_le (c ∷ cs) (d ∷ ds) = ltb c d || (c == d && text_le cs ds)

-- Stands for the definitions above: a test unfolds this name.
unfoldable pub runs : Unit {0}
unfolding text_eq is_whitespace trim_start_matches trim_end_matches join split_inclusive
    strip_line_end digits to_string as_bytes xor hex text_le
runs = tt
