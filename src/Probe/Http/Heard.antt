-- ===== src/Probe/Http/Heard.antt =====
-- What a status code of `do_get` (src/probe/http.rs) was read from.
use nixnet_corbet_ch.Base.{
  ℕ, ◌≡◌, ◌⊎◌, refl, sym, ap, ◌∙◌, subst, inl, inr, true, ◌||◌, List, [], ◌∷◌, ◌++◌, some, leb,
  if◌then◌else◌, length, Result, ok, err, ok_inj, ok_not_err, Bool-cases, Option-cases,
}
use nixnet_corbet_ch.Base.Text.{Text}
use nixnet_corbet_ch.Base.Parse.{parse_unsigned, split_whitespace, first_line}
use nixnet_corbet_ch.Probe.Http.{has_crlf, read_status, code_of, status_code, status_of, do_get}

-- Nothing is left to read.
abbrev pub IsClosed : List (Result Text (List ℕ)) → Type 0
IsClosed [] = Unit
IsClosed (ok [] ∷ reads) = Unit
IsClosed (ok (b ∷ bs) ∷ reads) = ⊥
IsClosed (err e ∷ reads) = ⊥

-- The first reads, all of them successful, brought these bytes behind those of before; the rest is
-- left unread.
pub data Brought
    : List ℕ → List (Result Text (List ℕ)) → List ℕ → List (Result Text (List ℕ)) → Type 0 where
  stopped : (buf : List ℕ) (reads : List (Result Text (List ℕ))) → Brought buf reads buf reads
  went_on :
      (bytes : List ℕ) {buf whole : List ℕ} {reads rest : List (Result Text (List ℕ))}
      → Brought (buf ++ bytes) reads whole rest
      → Brought buf (ok bytes ∷ reads) whole rest

-- The bytes read end a line, or are 4096 at least, or are all that there is.
abbrev pub IsEnough : List ℕ → List (Result Text (List ℕ)) → Type 0
IsEnough buf rest = ((has_crlf buf || leb 4096 (length buf)) ≡ true) ⊎ IsClosed rest

read_status-Brought :
    (buf whole : List ℕ) (reads : List (Result Text (List ℕ)))
    → read_status buf reads ≡ ok whole
    → (rest : List (Result Text (List ℕ))) × Brought buf reads whole rest × IsEnough whole rest
unfolding read_status
read_status-Brought buf whole [] h =
    subst
      (λ (b : List ℕ).
        (rest : List (Result Text (List ℕ))) × Brought buf [] b rest × IsEnough b rest)
      (ok_inj h) ([], stopped buf [], inr tt)
read_status-Brought buf whole (ok [] ∷ reads) h =
    subst
      (λ (b : List ℕ).
        (rest : List (Result Text (List ℕ))) × Brought buf (ok [] ∷ reads) b rest × IsEnough b rest)
      (ok_inj h) (ok [] ∷ reads, stopped buf (ok [] ∷ reads), inr tt)
read_status-Brought buf whole (err e ∷ reads) h =
    elim (Bool-cases (has_crlf buf || leb 4096 (length buf))) [
      | inl full ↦
          subst
            (λ (b : List ℕ).
              (rest : List (Result Text (List ℕ))) × Brought buf (err e ∷ reads) b rest
              × IsEnough b rest)
            (ok_inj (rw (full, if◌then◌else◌) at h))
            (err e ∷ reads, stopped buf (err e ∷ reads), inl full)
      | inr short ↦ absurd (ok_not_err (sym (rw (short, if◌then◌else◌) at h)))
    ]
read_status-Brought buf whole (ok (b ∷ bs) ∷ reads) h =
    elim (Bool-cases (has_crlf buf || leb 4096 (length buf))) [
      | inl full ↦
          subst
            (λ (w : List ℕ).
              (rest : List (Result Text (List ℕ))) × Brought buf (ok (b ∷ bs) ∷ reads) w rest
              × IsEnough w rest)
            (ok_inj (rw (full, if◌then◌else◌) at h))
            (ok (b ∷ bs) ∷ reads, stopped buf (ok (b ∷ bs) ∷ reads), inl full)
      | inr short ↦
          let (rest, through, enough) =
            read_status-Brought (buf ++ b ∷ bs) whole reads (rw (short, if◌then◌else◌) at h) in
          (rest, went_on (b ∷ bs) through, enough)
    ]

module _ (quoted : Text → Text) (from_utf8_lossy : List ℕ → Text) where
  -- The second word of the first line of what was read is the status code.
  pub record IsStatus (reads : List (Result Text (List ℕ))) (code : ℕ) : Type 0 where
    pub whole : List ℕ
    pub unread : List (Result Text (List ℕ))
    pub brought : Brought [] reads whole unread
    pub enough : IsEnough whole unread
    pub version : Text
    pub word : Text
    pub more : List Text
    pub words_of : split_whitespace (first_line (from_utf8_lossy whole)) ≡ version ∷ word ∷ more
    pub parsed : parse_unsigned 65535 word ≡ some code

  code_of_lem :
      (line : Text) (ws : List Text) (code : ℕ)
      → code_of quoted from_utf8_lossy line ws ≡ ok code
      → (version : Text) × (word : Text) × (more : List Text) × (ws ≡ version ∷ word ∷ more)
        × (parse_unsigned 65535 word ≡ some code)
  unfolding code_of
  code_of_lem line [] code h = absurd (ok_not_err (sym h))
  code_of_lem line (version ∷ []) code h = absurd (ok_not_err (sym h))
  code_of_lem line (version ∷ word ∷ more) code h =
      elim (Option-cases (parse_unsigned 65535 word)) [
        | inl e ↦ absurd (ok_not_err (sym (rw (e, code_of) at h)))
        | inr (n, e) ↦ (version, word, more, refl, e ∙ ap some (ok_inj (rw (e, code_of) at h)))
      ]

  status_of-IsStatus :
      (reads : List (Result Text (List ℕ))) (r : Result Text (List ℕ)) (code : ℕ)
      → read_status [] reads ≡ r
      → status_of quoted from_utf8_lossy r ≡ ok code
      → IsStatus reads code
  unfolding status_of status_code
  status_of-IsStatus reads (err e) code at h = absurd (ok_not_err (sym h))
  status_of-IsStatus reads (ok buf) code at h =
      let (rest, through, enough) = read_status-Brought [] buf reads at in
      let (version, word, more, ws, parsed) = code_of_lem _ _ code h in
      record {
        whole = buf;
        unread = rest;
        brought = through;
        enough = enough;
        version = version;
        word = word;
        more = more;
        words_of = ws;
        parsed = parsed;
      }

  -- The request was written, and a status code read.
  pub do_get-IsStatus :
      (written : Result Text (Unit {0})) (reads : List (Result Text (List ℕ))) (code : ℕ)
      → do_get quoted from_utf8_lossy written reads ≡ ok code
      → (written ≡ ok tt) × IsStatus reads code
  unfolding do_get
  do_get-IsStatus (err e) reads code h = absurd (ok_not_err (sym h))
  do_get-IsStatus (ok done) reads code h =
      (refl, status_of-IsStatus reads (read_status [] reads) code refl h)
