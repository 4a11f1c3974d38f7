-- ===== src/Publish/Hosts/Parse/Back.antt =====
-- The entries that src/publish/hosts.rs renders are the ones it reads back.
use nixnet_corbet_ch.Base.{
  ℕ, ◌≡◌, refl, sym, ◌∙◌, ap, inl, inr, true, false, ◌||◌, Bool-cases, List, [], ◌∷◌, ◌++◌, Option,
  none, some, is_some, if◌then◌else◌, append_assoc, All, arith, ◌==◌,
}
use nixnet_corbet_ch.Base.Text.{Text, codes, text_eq, strip_prefix, strip_prefix-append}
use nixnet_corbet_ch.Base.Str.{
  is_whitespace, trim, trim_start, trim_end, trim_start_matches, trim_end_matches, join,
}
use nixnet_corbet_ch.Base.Parse.{split_once, split_once-append, contains}
use nixnet_corbet_ch.Engine.Status.{Entry}
use nixnet_corbet_ch.Publish.Hosts.{begin_marker, end_marker}
use nixnet_corbet_ch.Publish.Hosts.Lines.{comment, trim_start-comment}
use nixnet_corbet_ch.Publish.Hosts.Block.{written_comment}
use nixnet_corbet_ch.Publish.Hosts.Parse.{
  Scan, scan_line, scan, scan_fields, parse_confirmed_comment,
}
use nixnet_corbet_ch.Publish.Hosts.Parse.Words.{
  IsSolid, IsWord, split_whitespace-word, split_whitespace-join, trim_end-solid, trim-solid,
  trim_end-last, contains-word,
}

-- An entry that a block can hold: words, of which the address is no comment, and a host at least.
pub record IsPrintable (e : Entry) : Type 0 where
  pub address : IsWord e.address
  pub no_comment : is_some (strip_prefix (codes "#") e.address) ≡ false
  pub named : ¬ (e.hostnames ≡ [])
  pub hosts : All IsWord e.hostnames
  pub confirmed : (t : Text) → e.confirmed_at ≡ some t → IsWord t

-- A line around the block: it does not begin one.
abbrev pub IsOutside : Text → Type 0
IsOutside l = text_eq (trim l) begin_marker ≡ false

abbrev pub outside : Scan
outside = record { in_block = false; pending_confirmed = none }

abbrev pub inside : Option (Text × Text) → Scan
inside p = record { in_block = true; pending_confirmed = p }

tab_blank : is_whitespace 9 ≡ true
unfolding is_whitespace
tab_blank = refl

pub scan_step :
    (s s' : Scan) (line : Text) (rest : List Text) (added : List Entry)
    → scan_line s line ≡ (added, s')
    → scan s (line ∷ rest) ≡ added ++ scan s' rest
unfolding scan
scan_step s s' line rest added h = rw h refl

pub outside_step : (l : Text) → IsOutside l → scan_line outside l ≡ ([], outside)
unfolding scan_line
outside_step l h = elim (Bool-cases (text_eq (trim l) end_marker)) [
  | inl e ↦ rw (h, e, if◌then◌else◌) refl
  | inr e ↦ rw (h, e, if◌then◌else◌) refl
]

pub scan_nil : (s : Scan) → scan s [] ≡ []
unfolding scan
scan_nil s = refl

pub scan-outside :
    (ls rest : List Text) → All IsOutside ls → scan outside (ls ++ rest) ≡ scan outside rest
scan-outside [] rest h = refl
scan-outside (l ∷ ls) rest h =
    scan_step outside outside l (ls ++ rest) [] (outside_step l h.0) ∙ scan-outside ls rest h.1

pub begin_step : scan_line outside begin_marker ≡ ([], inside none)
unfolding scan_line text_eq trim_start_matches trim_end_matches is_whitespace
begin_step = refl

pub end_step : scan_line (inside none) end_marker ≡ ([], outside)
unfolding scan_line text_eq trim_start_matches trim_end_matches is_whitespace
end_step = refl

not_hash :
    (c : ℕ) (a : Text) → is_some (strip_prefix (codes "#") (c ∷ a)) ≡ false → (c == 35) ≡ false
unfolding strip_prefix
not_hash c a h = elim (Bool-cases (35 == c)) [
  | inl e ↦ absurd (cc (rw (e, if◌then◌else◌) at h))
  | inr e ↦ ground arith
]

-- Behind another character than `#` stands no marker and no comment.
no_marker : (c : ℕ) (x m : Text) → (c == 35) ≡ false → text_eq (c ∷ x) (35 ∷ m) ≡ false
unfolding text_eq
no_marker c x m h = rw h refl

still_no_comment :
    (c : ℕ) (x : Text) → (c == 35) ≡ false → is_some (strip_prefix (codes "#") (c ∷ x)) ≡ false
unfolding strip_prefix
still_no_comment c x h = elim (Bool-cases (35 == c)) [
  | inl e ↦ absurd (ground arith)
  | inr e ↦ rw (e, if◌then◌else◌) refl
]

-- A line of the address: its words.
pub address_step :
    (c : ℕ) (a : Text) (hs : List Text) (p : Option (Text × Text))
    → IsWord (c ∷ a)
    → is_some (strip_prefix (codes "#") (c ∷ a)) ≡ false
    → All IsWord hs
    → scan_line (inside p) ((c ∷ a) ++ 9 ∷ join (codes " ") hs)
      ≡ scan_fields (inside p) ((c ∷ a) ∷ hs)
unfolding scan_line
address_step c a hs p word no_comment hosts =
    let x = a ++ 9 ∷ join (codes " ") hs in
    let h = not_hash c a no_comment in
    let t = trim_end x in
    rw
      (
        trim-solid c x word.1.0,
        no_marker c t (codes " BEGIN nixnet") h,
        no_marker c t (codes " END nixnet") h,
        still_no_comment c t h,
        if◌then◌else◌,
      )
      (ap (scan_fields (inside p)) (
        split_whitespace-word (c ∷ a) 9 (join (codes " ") hs) word tab_blank
        ∙ ap (λ (l : List Text). (c ∷ a) ∷ l) (split_whitespace-join hs hosts)))

split_once-none : (c : ℕ) (s : Text) → contains c s ≡ false → split_once c s ≡ none
unfolding split_once contains
split_once-none c [] h = refl
split_once-none c (d ∷ ds) h = elim (Bool-cases (d == c)) [
  | inl e ↦ absurd (ground arith)
  | inr e ↦ rw (e, if◌then◌else◌) (rw (split_once-none c ds (rw (e, ◌||◌) at h)) refl)
]

trimmed_scan :
    (s : Scan) (l t : Text)
    → trim l ≡ 35 ∷ 32 ∷ 110 ∷ t
    → s.in_block ≡ true
    → scan_line s l
      ≡ ([], record s { pending_confirmed = parse_confirmed_comment (35 ∷ 32 ∷ 110 ∷ t) })
unfolding scan_line text_eq strip_prefix
trimmed_scan s l t h on = rw (h, on) refl

comment_step :
    (c : ℕ) (x : Text) (p : Option (Text × Text))
    → IsSolid c
    → scan_line (inside p) (comment ++ c ∷ x)
      ≡ ([], inside (parse_confirmed_comment (comment ++ c ∷ trim_end x)))
comment_step c x p solid =
    trimmed_scan (inside p) (comment ++ c ∷ x) (codes "ixnet " ++ c ∷ trim_end x)
      (ap trim_start (trim_end-solid comment c x solid) ∙ trim_start-comment (c ∷ trim_end x)) refl

-- The comment of a confirmation is read into its two parts.
parse-confirmed :
    (c : ℕ) (a t : Text)
    → IsWord (c ∷ a)
    → IsWord t
    → parse_confirmed_comment (comment ++ ((c ∷ a) ++ (codes " confirmed=" ++ t))) ≡ some (c ∷ a, t)
unfolding parse_confirmed_comment
parse-confirmed c a t word time =
    rw
      (
        strip_prefix-append comment ((c ∷ a) ++ (codes " confirmed=" ++ t)),
        split_once-append 32 (c ∷ a) (codes "confirmed=" ++ t) (contains-word (c ∷ a) word.1),
        strip_prefix-append (codes "confirmed=") t,
        time.0,
      )
      refl

pub confirmed_step :
    (c : ℕ) (a t : Text) (p : Option (Text × Text))
    → IsWord (c ∷ a)
    → IsWord t
    → scan_line (inside p) (comment ++ ((c ∷ a) ++ (codes " confirmed=" ++ t)))
      ≡ ([], inside (some (c ∷ a, t)))
confirmed_step c a t p word time =
    let tail = a ++ (codes " confirmed=" ++ t) in
    let assoc = append_assoc a (codes " confirmed=") t in
    let kept : trim_end tail ≡ tail =
      ap trim_end (sym assoc) ∙ trim_end-last (a ++ codes " confirmed=") t time ∙ assoc in
    comment_step c tail p word.1.0
    ∙ ap (λ x. ([], inside (parse_confirmed_comment (comment ++ c ∷ x)))) kept
    ∙ ap (λ q. ([], inside q)) (parse-confirmed c a t word time)

parse-written : (t : Text) → IsWord t → parse_confirmed_comment (written_comment t) ≡ none
unfolding parse_confirmed_comment contains
parse-written t time =
    rw
      (
        strip_prefix-append comment (codes "written=" ++ t),
        split_once-none 32 (codes "written=" ++ t) (contains-word t time.1),
      )
      refl

pub written_step :
    (t : Text) (p : Option (Text × Text))
    → IsWord t
    → scan_line (inside p) (written_comment t) ≡ ([], inside none)
unfolding is_whitespace
written_step t p time =
    comment_step 119 (codes "ritten=" ++ t) p refl
    ∙ ap (λ x. ([], inside (parse_confirmed_comment (comment ++ 119 ∷ x))))
        (trim_end-last (codes "ritten=") t time)
    ∙ ap (λ q. ([], inside q)) (parse-written t time)
