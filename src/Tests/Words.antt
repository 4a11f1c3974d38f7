-- ===== src/Tests/Words.antt =====
-- Command lines after the cases of src/probe/mod.rs.
use nixnet_corbet_ch.Base.{◌≡◌, refl, List, [], ◌∷◌, ok}
use nixnet_corbet_ch.Base.Text.{Text, codes}
use nixnet_corbet_ch.Probe.Words
use nixnet_corbet_ch.Probe.Words.{tokenize, first_non_empty_line}
use nixnet_corbet_ch.Probe.Words.Quoting.{tokenize-quote_all, quote_all}

plain_words : tokenize (codes "  /bin/foo   bar  ") ≡ ok (codes "/bin/foo" ∷ codes "bar" ∷ [])
unfolding Words.runs
plain_words = refl

double_quoted :
    tokenize (codes "/bin/foo \"has space\" ''") ≡ ok (codes "/bin/foo" ∷ codes "has space" ∷ [])
unfolding Words.runs
double_quoted = refl

first_line : first_non_empty_line (codes "\n  \n{}\ntrailing") ≡ codes "{}"
unfolding Words.runs
first_line = refl

abbrev words : List Text
words = codes "a" ∷ codes "b c" ∷ []

tokenize-quote_all_example : tokenize (quote_all words) ≡ ok words
tokenize-quote_all_example =
    tokenize-quote_all words ((refl, (refl, tt)), ((refl, (refl, (refl, (refl, tt)))), tt))
