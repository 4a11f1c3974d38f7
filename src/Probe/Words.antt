-- ===== src/Probe/Words.antt =====
-- `tokenize` and `first_non_empty_line` of src/probe/mod.rs.
pub mod Quoting
use nixnet_corbet_ch.Base.{
  ℕ, Bool, true, false, ◌||◌, List, [], ◌∷◌, ◌++◌, ◌==◌, if◌then◌else◌, map, Result, ok, err,
}
use nixnet_corbet_ch.Base.Text.{Text, codes, is_empty}
use nixnet_corbet_ch.Base.Str.{trim, split_inclusive, strip_line_end}
use nixnet_corbet_ch.Base.Str

abbrev pub single_quote : ℕ
single_quote = 39

abbrev pub double_quote : ℕ
double_quote = 34

-- The two flags: `in_single` before `in_double`.
pub data Quoted : Type 0 where
  in_single : Quoted
  in_double : Quoted
  in_none : Quoted

abbrev pub flush : Text → List Text → List Text
flush cur tokens = if is_empty cur then tokens else tokens ++ cur ∷ []

abbrev pub is_blank : ℕ → Bool
is_blank c = c == 32 || c == 9

abbrev unterminated : Text → Text
unterminated s = codes "unterminated quote in exec command line \"" ++ (s ++ codes "\"")

-- The loop over the characters, with `cur` and `tokens`; `s` is the whole line.
unfoldable pub tokenize_from : Text → Text → Quoted → Text → List Text → Result Text (List Text)
tokenize_from s [] in_single cur tokens = err (unterminated s)
tokenize_from s [] in_double cur tokens = err (unterminated s)
tokenize_from s [] in_none cur tokens = ok (flush cur tokens)
tokenize_from s (c ∷ cs) in_single cur tokens =
    let closed = tokenize_from s cs in_none cur tokens in
    let pushed = tokenize_from s cs in_single (cur ++ c ∷ []) tokens in
    if c == single_quote then closed else pushed
tokenize_from s (c ∷ cs) in_double cur tokens =
    let closed = tokenize_from s cs in_none cur tokens in
    let pushed = tokenize_from s cs in_double (cur ++ c ∷ []) tokens in
    if c == double_quote then closed else pushed
tokenize_from s (c ∷ cs) in_none cur tokens =
    let opened = tokenize_from s cs in_single cur tokens in
    let opened_double = tokenize_from s cs in_double cur tokens in
    let flushed = tokenize_from s cs in_none [] (flush cur tokens) in
    let pushed = tokenize_from s cs in_none (cur ++ c ∷ []) tokens in
    if c == single_quote
    then opened
    else if c == double_quote
    then opened_double
    else if is_blank c
    then flushed
    else pushed

unfoldable pub tokenize : Text → Result Text (List Text)
tokenize s = tokenize_from s s in_none [] []

unfoldable pub first_trimmed : List Text → Text
first_trimmed [] = []
first_trimmed (line ∷ lines) =
    let later = first_trimmed lines in
    let trimmed = trim line in if is_empty trimmed then later else trimmed

-- Of the output as text.
unfoldable pub first_non_empty_line : Text → Text
first_non_empty_line text = first_trimmed (map strip_line_end (split_inclusive text))

-- Stands for all that the definitions above compute with: a test unfolds this name.
unfoldable pub runs : Unit {0}
unfolding Str.runs tokenize_from tokenize first_trimmed first_non_empty_line
runs = tt
