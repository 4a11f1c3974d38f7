-- ===== src/Publish/Hosts/Lines.antt =====
-- The lines that `same_but_for_freshness` of src/publish/hosts.rs compares.
use nixnet_corbet_ch.Base.{
  ℕ, ◌≡◌, refl, sym, ◌∙◌, ap, subst, inl, inr, Bool, true, false, not, Bool-cases, List, [], ◌∷◌,
  ◌++◌, map, keep, is_some, ◌==◌, if◌then◌else◌, All,
}
use nixnet_corbet_ch.Base.Text.{
  Text, codes, text_eq, text_eq_refl, strip_prefix, strip_prefix-append,
}
use nixnet_corbet_ch.Base.Str.{
  is_newline, newline, split_inclusive, add_to_first, strip_line_end, trim_start,
  trim_start_matches, is_whitespace,
}
use nixnet_corbet_ch.Publish.Hosts.{significant, lines_eq, same_but_for_freshness}
use nixnet_corbet_ch.Publish.Hosts.Split.{IsLine, split_inclusive-line}

keep-append :
    {A : Type 0} (p : A → Bool) (xs ys : List A) → keep p (xs ++ ys) ≡ keep p xs ++ keep p ys
keep-append p [] ys = refl
keep-append p (x ∷ xs) ys = elim (Bool-cases (p x)) [
  | inl e ↦ rw (e, keep, if◌then◌else◌) (ap (λ (l : List _). x ∷ l) (keep-append p xs ys))
  | inr e ↦ rw (e, keep, if◌then◌else◌) (keep-append p xs ys)
]

pub map-append :
    {A B : Type 0} (f : A → B) (xs ys : List A) → map f (xs ++ ys) ≡ map f xs ++ map f ys
map-append f [] ys = refl
map-append f (x ∷ xs) ys = ap (λ (l : List _). f x ∷ l) (map-append f xs ys)

pub split_inclusive-append :
    (q s : Text)
    → (l : Text) × (ls : List Text) × (split_inclusive (q ++ newline ∷ []) ≡ l ∷ ls)
      × (split_inclusive (q ++ newline ∷ s) ≡ l ∷ (ls ++ split_inclusive s))
unfolding split_inclusive add_to_first
split_inclusive-append [] s = (newline ∷ [], [], refl, refl)
split_inclusive-append (c ∷ q) s =
    let (l, ls, a, b) = split_inclusive-append q s in
    elim (Bool-cases (is_newline c)) [
      | inl e ↦ (
        c ∷ [],
        l ∷ ls,
        rw (e, split_inclusive, if◌then◌else◌) (ap (λ (k : List Text). (c ∷ []) ∷ k) a),
        rw (e, split_inclusive, if◌then◌else◌) (ap (λ (k : List Text). (c ∷ []) ∷ k) b),
      )
      | inr e ↦ (
        c ∷ l,
        ls,
        rw (e, split_inclusive, if◌then◌else◌) (rw (a, add_to_first) refl),
        rw (e, split_inclusive, if◌then◌else◌) (rw (b, add_to_first) refl),
      )
    ]

abbrev is_compared : Text → Bool
is_compared l = not (is_some (strip_prefix (codes "# nixnet ") (trim_start l)))

abbrev compared : List Text → List Text
compared ls = keep is_compared (map strip_line_end ls)

compared-append : (xs ys : List Text) → compared (xs ++ ys) ≡ compared xs ++ compared ys
compared-append xs ys =
    ap (keep is_compared) (map-append strip_line_end xs ys)
    ∙ keep-append is_compared (map strip_line_end xs) (map strip_line_end ys)

-- Whole lines are compared one after the other.
pub significant-append :
    (q s : Text) → significant (q ++ newline ∷ s) ≡ significant (q ++ newline ∷ []) ++ significant s
significant-append q s =
    let (l, ls, a, b) = split_inclusive-append q s in
    ap compared b
    ∙ compared-append (l ∷ ls) (split_inclusive s)
    ∙ ap (λ x. compared x ++ significant s) (sym a)

-- Neither ends a line nor may be cut off with its end.
abbrev pub IsInner : ℕ → Type 0
IsInner c = ((c == newline) ≡ false) × ((c == 13) ≡ false)

pub strip_line_end-front :
    (p u : Text) → All IsInner p → strip_line_end (p ++ u) ≡ p ++ strip_line_end u
unfolding strip_line_end text_eq
strip_line_end-front [] u h = refl
strip_line_end-front (c ∷ p) u h =
    rw (h.0.0, h.0.1, strip_line_end, if◌then◌else◌)
      (ap (λ (t : Text). c ∷ t) (strip_line_end-front p u h.1))

abbrev pub comment : Text
comment = codes "# nixnet "

pub comment-IsInner : All IsInner comment
comment-IsInner = (
  (refl, refl),
  (
    (refl, refl),
    (
      (refl, refl),
      (
        (refl, refl),
        ((refl, refl), ((refl, refl), ((refl, refl), ((refl, refl), ((refl, refl), tt))))),
      ),
    ),
  ),
)

pub trim_start-comment : (t : Text) → trim_start (comment ++ t) ≡ comment ++ t
unfolding trim_start_matches is_whitespace
trim_start-comment t = refl

comment_not_compared :
    (t : Text) → is_compared (strip_line_end ((comment ++ t) ++ newline ∷ [])) ≡ false
comment_not_compared t =
    ap is_compared (strip_line_end-front comment (t ++ newline ∷ []) comment-IsInner)
    ∙ ap (λ x. not (is_some (strip_prefix comment x)))
        (trim_start-comment (strip_line_end (t ++ newline ∷ [])))
    ∙ ap (λ o. not (is_some o)) (strip_prefix-append comment (strip_line_end (t ++ newline ∷ [])))

-- A comment of the daemon's own is not compared.
pub significant-comment :
    (t : Text) → IsLine (comment ++ t) → significant ((comment ++ t) ++ newline ∷ []) ≡ []
unfolding split_inclusive
significant-comment t h =
    ap compared (split_inclusive-line (comment ++ t) [] h) ∙ rw (comment_not_compared t) refl

lines_eq_refl : (ls : List Text) → lines_eq ls ls ≡ true
unfolding lines_eq
lines_eq_refl [] = refl
lines_eq_refl (l ∷ ls) = rw (text_eq_refl l) (lines_eq_refl ls)

pub same_of_significant :
    (a b : Text) → significant a ≡ significant b → same_but_for_freshness a b ≡ true
unfolding same_but_for_freshness
same_of_significant a b h =
    subst (λ ls. lines_eq (significant a) ls ≡ true) h (lines_eq_refl (significant a))
