-- ===== src/Publish/Hosts/Order.antt =====
-- The entries of src/publish/hosts.rs come from a map in any order; the block sorts them.
use nixnet_corbet_ch.Base.{
  ◌≡◌, refl, sym, ◌∙◌, ap, ◌⊎◌, inl, inr, Bool, true, false, Bool-cases, List, [], ◌∷◌,
  if◌then◌else◌, map, arith, ltb, ◌==◌,
}
use nixnet_corbet_ch.Base.Text.{Text, text_eq}
use nixnet_corbet_ch.Base.Str.{text_le}
use nixnet_corbet_ch.Base.Sort.{sort, insert_sorted}
use nixnet_corbet_ch.Engine.Status.{Entry}
use nixnet_corbet_ch.Publish.Hosts.Block.{
  address_line, by_address, forget_confirmed, lines-forget, sort-forget,
}

-- The same entries, whenever confirmed, in another order but for entries of one address.
pub data IsReordered : List Entry → List Entry → Type 0 where
  nothing : IsReordered [] []
  next :
      (e f : Entry) {es fs : List Entry}
      → forget_confirmed e ≡ forget_confirmed f
      → IsReordered es fs
      → IsReordered (e ∷ es) (f ∷ fs)
  swapped :
      (e f : Entry) (es : List Entry)
      → text_eq e.address f.address ≡ false
      → IsReordered (e ∷ f ∷ es) (f ∷ e ∷ es)
  chained : {es fs gs : List Entry} → IsReordered es fs → IsReordered fs gs → IsReordered es gs

text_le_trans : (a b c : Text) → text_le a b ≡ true → text_le b c ≡ true → text_le a c ≡ true
unfolding text_le
text_le_trans [] b c h k = refl
text_le_trans (x ∷ a) [] c h k = cc
text_le_trans (x ∷ a) (y ∷ b) [] h k = cc
text_le_trans (x ∷ a) (y ∷ b) (z ∷ c) h k = ground (arith, text_le_trans a b c)

-- Of two texts one stands strictly before the other.
text_le_apart :
    (a b : Text)
    → text_eq a b ≡ false
    → ((text_le a b ≡ true) × (text_le b a ≡ false))
      ⊎ ((text_le a b ≡ false) × (text_le b a ≡ true))
unfolding text_le text_eq
text_le_apart [] [] h = cc
text_le_apart [] (y ∷ b) h = inl (refl, refl)
text_le_apart (x ∷ a) [] h = inr (refl, refl)
text_le_apart (x ∷ a) (y ∷ b) h = elim (Bool-cases (x == y)) [
  | inl same ↦ elim (text_le_apart a b (ground arith)) [
    | inl (le, gt) ↦ inl (ground arith, ground arith)
    | inr (gt, le) ↦ inr (ground arith, ground arith)
  ]
  | inr apart ↦ elim (Bool-cases (ltb x y)) [
    | inl lt ↦ inl (ground arith, ground arith)
    | inr ge ↦ inr (ground arith, ground arith)
  ]
]

module _ {A : Type 0} (le : A → A → Bool)
    (trans : (x y z : A) → le x y ≡ true → le y z ≡ true → le x z ≡ true) where
  goes_first : (x y : A) (ys : List A) → le x y ≡ true → insert_sorted le x (y ∷ ys) ≡ x ∷ y ∷ ys
  unfolding insert_sorted
  goes_first x y ys h = rw (h, if◌then◌else◌) refl

  goes_on :
      (x y : A) (ys : List A)
      → le x y ≡ false
      → insert_sorted le x (y ∷ ys) ≡ y ∷ insert_sorted le x ys
  unfolding insert_sorted
  goes_on x y ys h = rw (h, if◌then◌else◌) refl

  goes_alone : (x : A) → insert_sorted le x [] ≡ x ∷ []
  unfolding insert_sorted
  goes_alone x = refl

  insert_sorted_comm :
      (x y : A) (l : List A)
      → le x y ≡ true
      → le y x ≡ false
      → insert_sorted le x (insert_sorted le y l) ≡ insert_sorted le y (insert_sorted le x l)
  insert_sorted_comm x y [] h k =
      ap (insert_sorted le x) (goes_alone y)
      ∙ goes_first x y [] h
      ∙ sym (
          ap (insert_sorted le y) (goes_alone x)
          ∙ goes_on y x [] k
          ∙ ap (λ (l : List A). x ∷ l) (goes_alone y))
  insert_sorted_comm x y (z ∷ zs) h k = elim (Bool-cases (le y z)) [
    | inl yz ↦
        ap (insert_sorted le x) (goes_first y z zs yz)
        ∙ goes_first x y (z ∷ zs) h
        ∙ sym (
            ap (insert_sorted le y) (goes_first x z zs (trans x y z h yz))
            ∙ goes_on y x (z ∷ zs) k
            ∙ ap (λ (l : List A). x ∷ l) (goes_first y z zs yz))
    | inr yz ↦ elim (Bool-cases (le x z)) [
      | inl xz ↦
          ap (insert_sorted le x) (goes_on y z zs yz)
          ∙ goes_first x z (insert_sorted le y zs) xz
          ∙ sym (
              ap (insert_sorted le y) (goes_first x z zs xz)
              ∙ goes_on y x (z ∷ zs) k
              ∙ ap (λ (l : List A). x ∷ l) (goes_on y z zs yz))
      | inr xz ↦
          ap (insert_sorted le x) (goes_on y z zs yz)
          ∙ goes_on x z (insert_sorted le y zs) xz
          ∙ ap (λ (l : List A). z ∷ l) (insert_sorted_comm x y zs h k)
          ∙ sym
              (ap (insert_sorted le y) (goes_on x z zs xz) ∙ goes_on y z (insert_sorted le x zs) yz)
    ]
  ]

insert-apart :
    (e f : Entry) (l : List Entry)
    → text_eq e.address f.address ≡ false
    → insert_sorted by_address e (insert_sorted by_address f l)
      ≡ insert_sorted by_address f (insert_sorted by_address e l)
insert-apart e f l h =
    let trans : (x y z : Entry)
        → by_address x y ≡ true
        → by_address y z ≡ true
        → by_address x z ≡ true =
      λ x y z. text_le_trans x.address y.address z.address in
    elim (text_le_apart e.address f.address h) [
      | inl (le, gt) ↦ insert_sorted_comm by_address trans e f l le gt
      | inr (gt, le) ↦ sym (insert_sorted_comm by_address trans f e l le gt)
    ]

sort-IsReordered :
    {es fs : List Entry}
    → IsReordered es fs
    → sort by_address (map forget_confirmed es) ≡ sort by_address (map forget_confirmed fs)
unfolding sort
sort-IsReordered nothing = refl
sort-IsReordered (next e f {es} {fs} same rest) =
    ap (insert_sorted by_address (forget_confirmed e)) (sort-IsReordered rest)
    ∙ ap (λ g. insert_sorted by_address g (sort by_address (map forget_confirmed fs))) same
sort-IsReordered (swapped e f es apart) =
    insert-apart (forget_confirmed e) (forget_confirmed f)
      (sort by_address (map forget_confirmed es)) apart
sort-IsReordered (chained one two) = sort-IsReordered one ∙ sort-IsReordered two

-- They have the same lines in the block.
pub lines-IsReordered :
    (es fs : List Entry)
    → IsReordered es fs
    → map address_line (sort by_address es) ≡ map address_line (sort by_address fs)
lines-IsReordered es fs h =
    lines-forget (sort by_address es)
    ∙ ap (map address_line) (sort-forget es ∙ sort-IsReordered h ∙ sym (sort-forget fs))
    ∙ sym (lines-forget (sort by_address fs))
