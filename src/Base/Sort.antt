-- ===== src/Base/Sort.antt =====
-- `slice::sort_by_key` and `sort_by`: a stable sort, as insertion sort, and numbered lists.
use Prim.Native.Nat.{ℕ, zero, suc, ◌+◌}
use mathlib.Core.Path.{◌≡◌, refl, subst}
use mathlib.Core.Logic.{inl, inr}
use mathlib.Core.Bool.{Bool, true, false}
use mathlib.Core.Option.{some}
use mathlib.Core.List.{List, [], ◌∷◌}
use native.Mathlib.Omega.{arith}
use nixnet_corbet_ch.Base.Tests.{if◌then◌else◌, Bool-cases}
use nixnet_corbet_ch.Base.Lists.{All, In, here, there, All-map, get_elem?}

module _ {ℓ} {A : Type ℓ} (le : A → A → Bool) where
  unfoldable pub insert_sorted : A → List A → List A
  insert_sorted x [] = x ∷ []
  insert_sorted x (y ∷ ys) = if le x y then x ∷ y ∷ ys else y ∷ insert_sorted x ys

  unfoldable pub sort : List A → List A
  unfolding insert_sorted
  sort [] = []
  sort (x ∷ xs) = insert_sorted x (sort xs)

  -- Each element is at most all later ones.
  abbrev pub IsSorted : List A → Type ℓ
  IsSorted [] = Unit
  IsSorted (x ∷ xs) = All (λ y. le x y ≡ true) xs × IsSorted xs

  All-insert_sorted {κ} :
      (P : A → Type κ) (x : A) (ys : List A) → P x → All P ys → All P (insert_sorted x ys)
  unfolding insert_sorted
  All-insert_sorted P x [] h hs = (h, tt)
  All-insert_sorted P x (y ∷ ys) h hs = elim (Bool-cases (le x y)) [
    | inl e ↦ rw (e, insert_sorted) (h, hs)
    | inr e ↦ rw (e, insert_sorted) (hs.0, All-insert_sorted P x ys h hs.1)
  ]

  pub All-sort {κ} : (P : A → Type κ) (xs : List A) → All P xs → All P (sort xs)
  unfolding sort
  All-sort P [] hs = tt
  All-sort P (x ∷ xs) hs = All-insert_sorted P x (sort xs) hs.0 (All-sort P xs hs.1)

  In-insert_sorted_head : (x : A) (ys : List A) → In x (insert_sorted x ys)
  unfolding insert_sorted
  In-insert_sorted_head x [] = here
  In-insert_sorted_head x (y ∷ ys) = elim (Bool-cases (le x y)) [
    | inl e ↦ rw (e, insert_sorted) here
    | inr e ↦ rw (e, insert_sorted) (there (In-insert_sorted_head x ys))
  ]

  In-insert_sorted : {a : A} (x : A) (ys : List A) → In a ys → In a (insert_sorted x ys)
  unfolding insert_sorted
  In-insert_sorted x [] m = elim m [ ]
  In-insert_sorted x (y ∷ ys) here = elim (Bool-cases (le x y)) [
    | inl e ↦ rw (e, insert_sorted) (there here)
    | inr e ↦ rw (e, insert_sorted) here
  ]
  In-insert_sorted x (y ∷ ys) (there m) = elim (Bool-cases (le x y)) [
    | inl e ↦ rw (e, insert_sorted) (there (there m))
    | inr e ↦ rw (e, insert_sorted) (there (In-insert_sorted x ys m))
  ]

  pub In-sort : {a : A} (xs : List A) → In a xs → In a (sort xs)
  unfolding sort
  In-sort [] m = elim m [ ]
  In-sort (x ∷ xs) here = In-insert_sorted_head x (sort xs)
  In-sort (x ∷ xs) (there m) = In-insert_sorted x (sort xs) (In-sort xs m)

  module _ (trans : (x y z : A) → le x y ≡ true → le y z ≡ true → le x z ≡ true)
      (total : (x y : A) → le x y ≡ false → le y x ≡ true) where
    insert_sorted-IsSorted : (x : A) (ys : List A) → IsSorted ys → IsSorted (insert_sorted x ys)
    unfolding insert_sorted
    insert_sorted-IsSorted x [] s = (tt, tt)
    insert_sorted-IsSorted x (y ∷ ys) s = elim (Bool-cases (le x y)) [
      | inl e ↦ rw (e, insert_sorted) ((e, All-map (λ z h. trans x y z e h) ys s.0), s)
      | inr e ↦
          rw (e, insert_sorted)
            (
              All-insert_sorted (λ z. le y z ≡ true) x ys (total x y e) s.0,
              insert_sorted-IsSorted x ys s.1,
            )
    ]

    pub sort-IsSorted : (xs : List A) → IsSorted (sort xs)
    unfolding sort
    sort-IsSorted [] = tt
    sort-IsSorted (x ∷ xs) = insert_sorted-IsSorted x (sort xs) (sort-IsSorted xs)

module _ {ℓ} {A : Type ℓ} where
  -- `iter().enumerate()`, counted from `i`.
  unfoldable pub enumerate_from : ℕ → List A → List (ℕ × A)
  enumerate_from i [] = []
  enumerate_from i (x ∷ xs) = (i, x) ∷ enumerate_from (suc i) xs

  -- Each pair of the numbered list names an element and its place.
  pub All-enumerate_from {κ} :
      (P : ℕ × A → Type κ) (i : ℕ) (xs : List A)
      → ((k : ℕ) (a : A) → get_elem? xs k ≡ some a → P (i + k, a))
      → All P (enumerate_from i xs)
  unfolding enumerate_from
  All-enumerate_from P i [] f = tt
  All-enumerate_from P i (x ∷ xs) f = (
    subst (λ n. P (n, x)) (omega arith) (f 0 x refl),
    All-enumerate_from P (suc i) xs (λ k a h. subst (λ n. P (n, a)) (omega arith) (f (suc k) a h)),
  )

  pub In-enumerate_from :
      (i : ℕ) (xs : List A) (k : ℕ) {a : A}
      → get_elem? xs k ≡ some a
      → In (i + k, a) (enumerate_from i xs)
  unfolding enumerate_from
  In-enumerate_from i [] k h = cc
  In-enumerate_from i (x ∷ xs) zero {a} h =
      subst (λ p. In p ((i, x) ∷ enumerate_from (suc i) xs)) (ground arith) here
  In-enumerate_from i (x ∷ xs) (suc k) {a} h = there (
      subst (λ n. In (n, a) (enumerate_from (suc i) xs)) (omega arith)
        (In-enumerate_from (suc i) xs k h))
