-- ===== src/Publish/Hosts/Block.antt =====
-- The lines of the block that src/publish/hosts.rs renders.
use nixnet_corbet_ch.Base.{
  ◌≡◌, refl, sym, ◌∙◌, ap, inl, inr, Bool, Bool-cases, Option-cases, List, [], ◌∷◌, ◌++◌, Option,
  none, some, map, if◌then◌else◌, append_assoc, All,
}
use nixnet_corbet_ch.Base.Text.{Text, codes}
use nixnet_corbet_ch.Base.Str.{newline, join, text_le}
use nixnet_corbet_ch.Base.Sort.{sort, insert_sorted}
use nixnet_corbet_ch.Engine.Status.{Entry}
use nixnet_corbet_ch.Publish.Hosts.{
  begin_marker, end_marker, confirmed_line, entry_lines, render_block, significant,
}
use nixnet_corbet_ch.Publish.Hosts.Split.{IsLine, IsInside, unlines, join_line}
use nixnet_corbet_ch.Publish.Hosts.Lines.{comment, significant-append, significant-comment}

unfoldable pub address_line : Entry → Text
address_line e = e.address ++ (9 ∷ join (codes " ") e.hostnames)

abbrev pub confirmed_comment : Entry → Text → Text
confirmed_comment e t = comment ++ (e.address ++ (codes " confirmed=" ++ t))

unfoldable pub comments_of : Entry → Option Text → List Text
comments_of e none = []
comments_of e (some t) = confirmed_comment e t ∷ []

unfoldable pub all_lines : List Entry → List Text
unfolding comments_of
all_lines [] = []
all_lines (e ∷ es) = comments_of e e.confirmed_at ++ address_line e ∷ all_lines es

-- An entry takes a line, and one more for its confirmation; no such line reads as the end marker.
pub record IsFine (e : Entry) : Type 0 where
  pub is_line : IsInside (address_line e)
  pub confirmed : (t : Text) → e.confirmed_at ≡ some t → IsLine (confirmed_comment e t)

unlines-append : (xs ys : List Text) → unlines (xs ++ ys) ≡ unlines xs ++ unlines ys
unlines-append [] ys = refl
unlines-append (x ∷ xs) ys =
    ap (λ (t : Text). x ++ newline ∷ t) (unlines-append xs ys)
    ∙ sym (append_assoc x (newline ∷ unlines xs) (unlines ys))

last_line :
    (e : Entry) (rest : Text)
    → (e.address ++ (9 ∷ join (codes " ") e.hostnames ++ newline ∷ [])) ++ rest
      ≡ address_line e ++ newline ∷ rest
unfolding address_line
last_line e rest =
    let names = 9 ∷ join (codes " ") e.hostnames in
    append_assoc e.address (names ++ newline ∷ []) rest
    ∙ ap (λ (t : Text). e.address ++ t) (append_assoc names (newline ∷ []) rest)
    ∙ sym (append_assoc e.address names (newline ∷ rest))

first_line :
    (e : Entry) (t rest : Text)
    → (codes "# nixnet " ++ (e.address ++ (codes " confirmed=" ++ (t ++ newline ∷ [])))) ++ rest
      ≡ confirmed_comment e t ++ newline ∷ rest
first_line e t rest =
    ap (λ x. (comment ++ x) ++ rest)
      (sym (append_assoc e.address (codes " confirmed=" ++ t) (newline ∷ [])))
    ∙ append_assoc (confirmed_comment e t) (newline ∷ []) rest

entry_lines-unlines :
    (e : Entry) (rest : List Text)
    → entry_lines e ++ unlines rest
      ≡ unlines (comments_of e e.confirmed_at ++ address_line e ∷ rest)
unfolding comments_of address_line
entry_lines-unlines e rest =
    let last = e.address ++ (9 ∷ join (codes " ") e.hostnames ++ newline ∷ []) in
    append_assoc (confirmed_line e) last (unlines rest)
    ∙ ap (λ t. confirmed_line e ++ t) (last_line e (unlines rest))
    ∙ elim (Option-cases e.confirmed_at) [
      | inl absent ↦ rw (absent, confirmed_line) refl
      | inr (t, at) ↦
          rw (at, confirmed_line) (first_line e t (address_line e ++ newline ∷ unlines rest))
    ]

join-all_lines : (es : List Entry) → join [] (map entry_lines es) ≡ unlines (all_lines es)
unfolding join all_lines
join-all_lines [] = refl
join-all_lines (e ∷ es) =
    join_line (entry_lines e) (map entry_lines es)
    ∙ ap (λ t. entry_lines e ++ t) (join-all_lines es)
    ∙ entry_lines-unlines e (all_lines es)

abbrev pub by_address : Entry → Entry → Bool
by_address a b = text_le a.address b.address

abbrev pub written_comment : Text → Text
written_comment written_at = comment ++ (codes "written=" ++ written_at)

unfoldable pub block_lines : Text → List Entry → List Text
block_lines written_at es = written_comment written_at ∷ all_lines (sort by_address es)

pub render-unlines :
    (written_at : Text) (es : List Entry) (suffix : Text)
    → render_block written_at es ++ suffix
      ≡ begin_marker
        ++ newline ∷ (unlines (block_lines written_at es) ++ (end_marker ++ newline ∷ suffix))
unfolding render_block block_lines
render-unlines written_at es suffix =
    let lines = join [] (map entry_lines (sort by_address es)) in
    let all = unlines (all_lines (sort by_address es)) in
    ap (λ t. begin_marker ++ newline ∷ (codes "# nixnet written=" ++ t))
      (append_assoc written_at (newline ∷ (lines ++ (end_marker ++ newline ∷ []))) suffix
        ∙ ap (λ (t : Text). written_at ++ newline ∷ t)
            (append_assoc lines (end_marker ++ newline ∷ []) suffix
              ∙ ap (λ t. t ++ (end_marker ++ newline ∷ suffix))
                  (join-all_lines (sort by_address es)))
        ∙ sym (append_assoc written_at (newline ∷ all) (end_marker ++ newline ∷ suffix)))

module _ (r : Text) where
  pub significant-line :
      (l s t : Text)
      → significant s ≡ significant t
      → significant (l ++ newline ∷ s) ≡ significant (l ++ newline ∷ t)
  significant-line l s t h =
      significant-append l s
      ∙ ap (λ x. significant (l ++ newline ∷ []) ++ x) h
      ∙ sym (significant-append l t)

  pub significant-skip :
      (u s : Text)
      → IsLine (comment ++ u)
      → significant ((comment ++ u) ++ newline ∷ s) ≡ significant s
  significant-skip u s h =
      significant-append (comment ++ u) s ∙ ap (λ x. x ++ significant s) (significant-comment u h)

  skip_comments :
      (e : Entry) (o : Option Text) (ls : List Text)
      → ((t : Text) → o ≡ some t → IsLine (confirmed_comment e t))
      → significant (unlines (comments_of e o ++ ls) ++ r) ≡ significant (unlines ls ++ r)
  unfolding comments_of
  skip_comments e none ls h = refl
  skip_comments e (some t) ls h =
      ap significant (append_assoc (confirmed_comment e t) (newline ∷ unlines ls) r)
      ∙ significant-skip (e.address ++ (codes " confirmed=" ++ t)) (unlines ls ++ r) (h t refl)

  -- Only the lines of the addresses count.
  pub significant-all_lines :
      (es : List Entry)
      → All IsFine es
      → significant (unlines (all_lines es) ++ r) ≡ significant (unlines (map address_line es) ++ r)
  unfolding all_lines
  significant-all_lines [] h = refl
  significant-all_lines (e ∷ es) h =
      let line = address_line e in
      skip_comments e e.confirmed_at (line ∷ all_lines es) h.0.confirmed
      ∙ ap significant (append_assoc line (newline ∷ unlines (all_lines es)) r)
      ∙ significant-line line (unlines (all_lines es) ++ r) (unlines (map address_line es) ++ r)
          (significant-all_lines es h.1)
      ∙ ap significant (sym (append_assoc line (newline ∷ unlines (map address_line es)) r))

-- An entry but for the time of its confirmation.
abbrev pub forget_confirmed : Entry → Entry
forget_confirmed e = record e { confirmed_at = none }

insert-forget :
    (e : Entry) (es : List Entry)
    → map forget_confirmed (insert_sorted by_address e es)
      ≡ insert_sorted by_address (forget_confirmed e) (map forget_confirmed es)
unfolding insert_sorted
insert-forget e [] = refl
insert-forget e (f ∷ es) = elim (Bool-cases (by_address e f)) [
  | inl le ↦ rw (le, insert_sorted, if◌then◌else◌) refl
  | inr gt ↦
      rw (gt, insert_sorted, if◌then◌else◌)
        (ap (λ (l : List Entry). forget_confirmed f ∷ l) (insert-forget e es))
]

pub sort-forget :
    (es : List Entry)
    → map forget_confirmed (sort by_address es) ≡ sort by_address (map forget_confirmed es)
unfolding sort
sort-forget [] = refl
sort-forget (e ∷ es) =
    insert-forget e (sort by_address es)
    ∙ ap (insert_sorted by_address (forget_confirmed e)) (sort-forget es)

pub lines-forget :
    (es : List Entry) → map address_line es ≡ map address_line (map forget_confirmed es)
unfolding address_line
lines-forget [] = refl
lines-forget (e ∷ es) = ap (λ (l : List Text). address_line e ∷ l) (lines-forget es)

-- Stands for the lines above: a test unfolds this name.
unfoldable pub runs : Unit {0}
unfolding address_line comments_of all_lines block_lines
runs = tt
