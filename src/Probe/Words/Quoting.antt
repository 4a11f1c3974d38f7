-- ===== src/Probe/Words/Quoting.antt =====
-- Command lines that are split, and words that are quoted.
use nixnet_corbet_ch.Base.{
  append_assoc, append_nil, ◌≡◌, ◌∙◌, ap, false, List, [], ◌∷◌, ◌++◌, ◌==◌, ok, All,
}
use nixnet_corbet_ch.Base.Text.{Text, is_empty}
use nixnet_corbet_ch.Probe.Words.{single_quote, in_single, in_none, flush, tokenize_from, tokenize}

-- A word that single quotes can hold.
abbrev pub IsQuotable : Text → Type 0
IsQuotable w = (is_empty w ≡ false) × All (λ c. (c == single_quote) ≡ false) w

abbrev pub quote : Text → Text
quote w = single_quote ∷ w ++ single_quote ∷ []

-- Words in single quotes, with a blank behind each.
abbrev pub quote_all : List Text → Text
quote_all [] = []
quote_all (w ∷ ws) = quote w ++ 32 ∷ quote_all ws

inside_quotes :
    (s w rest cur : Text) (tokens : List Text)
    → All (λ c. (c == single_quote) ≡ false) w
    → tokenize_from s (w ++ single_quote ∷ rest) in_single cur tokens
      ≡ tokenize_from s rest in_none (cur ++ w) tokens
unfolding tokenize_from
inside_quotes s [] rest cur tokens h = rw (append_nil cur)
inside_quotes s (c ∷ cs) rest cur tokens h =
    rw (h.0, tokenize_from)
      (inside_quotes s cs rest (cur ++ c ∷ []) tokens h.1
        ∙ ap (λ (l : Text). tokenize_from s rest in_none l tokens) (append_assoc cur (c ∷ []) cs))

flush_word :
    (w : Text) (tokens : List Text) → is_empty w ≡ false → flush w tokens ≡ tokens ++ w ∷ []
flush_word w tokens h = rw h

quoted_words :
    (s : Text) (ws tokens : List Text)
    → All IsQuotable ws
    → tokenize_from s (quote_all ws) in_none [] tokens ≡ ok (tokens ++ ws)
unfolding tokenize_from
quoted_words s [] tokens h = rw (append_nil tokens)
quoted_words s (w ∷ ws) tokens h = rw (append_assoc w (single_quote ∷ []) (32 ∷ quote_all ws)) (
    inside_quotes s w (32 ∷ quote_all ws) [] tokens h.0.1
    ∙ (rw (flush_word w tokens h.0.0)
        (quoted_words s ws (tokens ++ w ∷ []) h.1 ∙ ap ok (append_assoc tokens (w ∷ []) ws))))

-- Words in single quotes come back as they are, blanks and double quotes in them included: for
-- words that are not empty and hold no single quote.
pub tokenize-quote_all : (ws : List Text) → All IsQuotable ws → tokenize (quote_all ws) ≡ ok ws
unfolding tokenize
tokenize-quote_all ws h = quoted_words (quote_all ws) ws [] h
