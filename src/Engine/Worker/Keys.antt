-- ===== src/Engine/Worker/Keys.antt =====
-- Every transport of a state that src/engine/mod.rs starts with has a worker, and is there for it.
use nixnet_corbet_ch.Base.{
  ℕ, suc, ◌+◌, ◌<◌, ◌≡◌, refl, sym, ◌∙◌, ap, subst, inl, inr, true, false, List, [], ◌∷◌, some, map,
  length, All, All-append, arith, some_inj, Bool-cases, if◌then◌else◌,
}
use nixnet_corbet_ch.Base.Text.{Text, text_eq, text_eq_refl}
use nixnet_corbet_ch.Engine.{TransportRuntime, Group, GroupKind, peer, uplink}
use nixnet_corbet_ch.Engine.Status.{EngineState}
use nixnet_corbet_ch.Engine.Groups.{find, group, groups_of}
use nixnet_corbet_ch.Engine.Worker.{Key, transport_keys, group_keys, keys_of, due_at, mark_due}
use nixnet_corbet_ch.Engine.Worker.Defined.{Has}

-- No two names are the same, as in every map.
abbrev pub AreDistinct : List Text → Type 0
AreDistinct [] = Unit
AreDistinct (n ∷ ns) = All (λ m. text_eq n m ≡ false) ns × AreDistinct ns

abbrev pub names {ℓ} : {A : Type ℓ} → List (Text × A) → List Text
names gs = map (λ p. p.0) gs

-- The same names, with as many transports each.
abbrev pub IsLike : List (Text × Group) → List (Text × Group) → Type 0
IsLike [] [] = Unit
IsLike [] (h ∷ hs) = ⊥
IsLike (g ∷ gs) [] = ⊥
IsLike ((n, g) ∷ gs) ((m, h) ∷ hs) =
    (n ≡ m) × (length g.transports ≡ length h.transports) × IsLike gs hs

find-IsLike :
    (name : Text) (idx : ℕ) (gs hs : List (Text × Group))
    → IsLike gs hs
    → (g : Group) × (find name gs ≡ some g) × (idx < length g.transports)
    → (h : Group) × (find name hs ≡ some h) × (idx < length h.transports)
unfolding find
find-IsLike name idx [] [] like (g, at, below) = cc at
find-IsLike name idx [] (h ∷ hs) like found = absurd like
find-IsLike name idx (g ∷ gs) [] like found = absurd like
find-IsLike name idx ((n, g) ∷ gs) ((m, h) ∷ hs) (same, as_long, rest) (x, at, below) =
    elim (Bool-cases (text_eq n name)) [
      | inl e ↦ (
        h,
        rw (subst (λ t. text_eq t name ≡ true) same e, if◌then◌else◌) refl,
        subst (λ l. idx < l)
            (ap (λ (y : Group). length y.transports) (sym (some_inj (rw (e, if◌then◌else◌) at at)))
              ∙ as_long)
            below,
      )
      | inr e ↦
          let (y, there', far) =
            find-IsLike name idx gs hs rest (x, rw (e, if◌then◌else◌) at at, below) in
          (y, rw (subst (λ t. text_eq t name ≡ false) same e, if◌then◌else◌) there', far)
    ]

pub IsLike-refl : (gs : List (Text × Group)) → IsLike gs gs
IsLike-refl [] = tt
IsLike-refl ((n, g) ∷ gs) = (refl, refl, IsLike-refl gs)

length-map : {A B : Type 0} (f : A → B) (xs : List A) → length xs ≡ length (map f xs)
length-map f [] = refl
length-map f (x ∷ xs) = ap suc (length-map f xs)

pub due-IsLike : (now : ℕ) (gs : List (Text × Group)) → IsLike gs (map (due_at now) gs)
due-IsLike now [] = tt
due-IsLike now ((n, g) ∷ gs) = (refl, length-map (mark_due now) g.transports, due-IsLike now gs)

pub Has-IsLike :
    (k : Key) (s t : EngineState)
    → IsLike s.peers t.peers
    → IsLike s.uplinks t.uplinks
    → Has k s
    → Has k t
Has-IsLike k s t peers uplinks h = of_kind k.kind h
  where
    of_kind :
        (kind : GroupKind)
        → (g : Group) × (find k.name (groups_of kind s) ≡ some g) × (k.idx < length g.transports)
        → (g : Group) × (find k.name (groups_of kind t) ≡ some g) × (k.idx < length g.transports)
    of_kind peer h = find-IsLike k.name k.idx s.peers t.peers peers h
    of_kind uplink h = find-IsLike k.name k.idx s.uplinks t.uplinks uplinks h

find_first : (n : Text) (g : Group) (gs : List (Text × Group)) → find n ((n, g) ∷ gs) ≡ some g
unfolding find
find_first n g gs = rw (text_eq_refl n, if◌then◌else◌) refl

find_behind :
    (n : Text) (g : Group) (gs hs : List (Text × Group))
    → All (λ m. text_eq n m ≡ false) (names hs)
    → All (λ (p : Text × Group). find p.0 gs ≡ some p.1) hs
    → All (λ (p : Text × Group). find p.0 ((n, g) ∷ gs) ≡ some p.1) hs
unfolding find
find_behind n g gs [] other h = tt
find_behind n g gs ((m, x) ∷ hs) other h =
    (rw (other.0, if◌then◌else◌) h.0, find_behind n g gs hs other.1 h.1)

-- Under distinct names every group is found.
find_each :
    (gs : List (Text × Group))
    → AreDistinct (names gs)
    → All (λ (p : Text × Group). find p.0 gs ≡ some p.1) gs
find_each [] h = tt
find_each ((n, g) ∷ gs) h = (find_first n g gs, find_behind n g gs gs h.0 (find_each gs h.1))

module _ (s : EngineState) where
  keys_of-Has :
      (kind : GroupKind) (name : Text) (g : Group) (i : ℕ) (trs : List TransportRuntime)
      → group s kind name ≡ some g
      → i + length trs ≡ length g.transports
      → All (λ k. Has k s) (keys_of kind name i trs)
  unfolding keys_of
  keys_of-Has kind name g i [] at e = tt
  keys_of-Has kind name g i (tr ∷ trs) at e =
      ((g, at, omega arith), keys_of-Has kind name g (suc i) trs at (omega arith))

  group_keys-Has :
      (kind : GroupKind) (gs : List (Text × Group))
      → All (λ (p : Text × Group). group s kind p.0 ≡ some p.1) gs
      → All (λ k. Has k s) (group_keys kind gs)
  unfolding group_keys
  group_keys-Has kind [] h = tt
  group_keys-Has kind ((n, g) ∷ gs) h =
      All-append (λ k. Has k s) (keys_of kind n 0 g.transports) (group_keys kind gs)
        (keys_of-Has kind n g 0 g.transports h.0 (omega arith)) (group_keys-Has kind gs h.1)

  pub transport_keys-Has :
      AreDistinct (names s.peers)
      → AreDistinct (names s.uplinks)
      → All (λ k. Has k s) (transport_keys s)
  unfolding transport_keys
  transport_keys-Has dp du =
      All-append (λ k. Has k s) (group_keys peer s.peers) (group_keys uplink s.uplinks)
        (group_keys-Has peer s.peers (find_each s.peers dp))
        (group_keys-Has uplink s.uplinks (find_each s.uplinks du))
