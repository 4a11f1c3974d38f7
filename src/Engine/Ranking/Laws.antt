-- ===== src/Engine/Ranking/Laws.antt =====
-- The published ranking of an uplink group: distinct interfaces, none left out, winner first and
-- then the healthy before the others.
use nixnet_corbet_ch.Base.{
  ℕ, ◌≡◌, ◌≢◌, refl, ◌⊎◌, inl, inr, Bool, true, false, ◌||◌, List, [], ◌∷◌, arith, All, In, here,
  there, All-map, Bool-cases,
}
use nixnet_corbet_ch.Base.Int.{ℤ}
use nixnet_corbet_ch.Base.Text.{Text, is_empty, text_eq_iff, text_eq_refl}
use nixnet_corbet_ch.Base.Sort.{IsSorted}
use nixnet_corbet_ch.Engine.{TransportRuntime, RankedInterface, is_up}
use nixnet_corbet_ch.Engine.Ranking.{Numbered, place_le, key_le, rank_le, contains, collect}

place_le_trans :
    (a b c : ℤ) (i j k : ℕ)
    → place_le a i b j ≡ true
    → place_le b j c k ≡ true
    → place_le a i c k ≡ true
unfolding place_le
place_le_trans a b c i j k h h' = ground arith

place_le-total : (a b : ℤ) (i j : ℕ) → place_le a i b j ≡ false → place_le b j a i ≡ true
unfolding place_le
place_le-total a b i j h = ground arith

key_le_trans :
    (p q r : Bool) (a b c : ℤ) (i j k : ℕ)
    → key_le p a i q b j ≡ true
    → key_le q b j r c k ≡ true
    → key_le p a i r c k ≡ true
unfolding key_le
key_le_trans true true true a b c i j k h h' = place_le_trans a b c i j k h h'
key_le_trans true true false a b c i j k h h' = refl
key_le_trans true false true a b c i j k h h' = cc
key_le_trans true false false a b c i j k h h' = refl
key_le_trans false true r a b c i j k h h' = cc
key_le_trans false false true a b c i j k h h' = cc
key_le_trans false false false a b c i j k h h' = place_le_trans a b c i j k h h'

key_le-total :
    (p q : Bool) (a b : ℤ) (i j : ℕ) → key_le p a i q b j ≡ false → key_le q b j p a i ≡ true
unfolding key_le
key_le-total true true a b i j h = place_le-total a b i j h
key_le-total true false a b i j h = cc
key_le-total false true a b i j h = refl
key_le-total false false a b i j h = place_le-total a b i j h

pub rank_le_trans :
    (p q r : Numbered) → rank_le p q ≡ true → rank_le q r ≡ true → rank_le p r ≡ true
unfolding rank_le
rank_le_trans (i, a) (j, b) (k, c) h h' =
    key_le_trans (is_up a.state) (is_up b.state) (is_up c.state) _ _ _ i j k h h'

pub rank_le-total : (p q : Numbered) → rank_le p q ≡ false → rank_le q p ≡ true
unfolding rank_le
rank_le-total (i, a) (j, b) h = key_le-total (is_up a.state) (is_up b.state) _ _ i j h

rank_le-down :
    (p q : Numbered) → rank_le p q ≡ true → is_up p.1.state ≡ false → is_up q.1.state ≡ false
unfolding rank_le
rank_le-down (i, a) (j, b) h d = ground arith

-- A case split on one step of `collect`.
collect_skip :
    (seen : List Text) (i : ℕ) (tr : TransportRuntime) (rest : List Numbered)
    → (is_empty tr.spec.interface || contains tr.spec.interface seen) ≡ true
    → collect seen ((i, tr) ∷ rest) ≡ collect seen rest
unfolding collect
collect_skip seen i tr rest h = rw h

collect_take :
    (seen : List Text) (i : ℕ) (tr : TransportRuntime) (rest : List Numbered)
    → (is_empty tr.spec.interface || contains tr.spec.interface seen) ≡ false
    → collect seen ((i, tr) ∷ rest)
      ≡ record { interface = tr.spec.interface; healthy = is_up tr.state }
        ∷ collect (tr.spec.interface ∷ seen) rest
unfolding collect
collect_take seen i tr rest h = rw h

-- A named interface that is not among those seen.
abbrev IsNew : List Text → RankedInterface → Type 0
IsNew seen r = (is_empty r.interface ≡ false) × (contains r.interface seen ≡ false)

collect-IsNew : (seen : List Text) (ps : List Numbered) → All (IsNew seen) (collect seen ps)
unfolding collect
collect-IsNew seen [] = tt
collect-IsNew seen ((i, tr) ∷ rest) =
    elim (Bool-cases (is_empty tr.spec.interface || contains tr.spec.interface seen)) [
      | inl h ↦ rw (collect_skip seen i tr rest h) (collect-IsNew seen rest)
      | inr h ↦ rw (collect_take seen i tr rest h) (
        ground arith,
        All-map (λ r n. (n.0, ground (arith, n.1))) _
            (collect-IsNew (tr.spec.interface ∷ seen) rest),
      )
    ]

-- No interface stands twice, and none is empty.
abbrev pub AllDistinct : List RankedInterface → Type 0
AllDistinct [] = Unit
AllDistinct (r ∷ rs) =
    (is_empty r.interface ≡ false) × All (λ x. x.interface ≢ r.interface) rs × AllDistinct rs

pub collect-AllDistinct : (seen : List Text) (ps : List Numbered) → AllDistinct (collect seen ps)
unfolding collect
collect-AllDistinct seen [] = tt
collect-AllDistinct seen ((i, tr) ∷ rest) =
    elim (Bool-cases (is_empty tr.spec.interface || contains tr.spec.interface seen)) [
      | inl h ↦ rw (collect_skip seen i tr rest h) (collect-AllDistinct seen rest)
      | inr h ↦ rw (collect_take seen i tr rest h) (
        ground arith,
        All-map (λ r n e. other r e n.1) _ (collect-IsNew (tr.spec.interface ∷ seen) rest),
        collect-AllDistinct (tr.spec.interface ∷ seen) rest,
      )
    ]
  where
    other :
        (r : RankedInterface)
        → r.interface ≡ tr.spec.interface
        → contains r.interface (tr.spec.interface ∷ seen) ≡ false
        → ⊥
    other r e n = ground (arith, text_eq_refl tr.spec.interface)

-- The ranking has the interface of the transport.
abbrev pub Ranks : Text → List RankedInterface → Type 0
Ranks interface ranked = (r : RankedInterface) × In r ranked × (r.interface ≡ interface)

contains-cons :
    (s t : Text) (seen : List Text)
    → contains s (t ∷ seen) ≡ true
    → (t ≡ s) ⊎ (contains s seen ≡ true)
contains-cons s t seen h = ground (arith, text_eq_iff t s)

Ranks-later :
    (interface : Text) (r : RankedInterface) (rs : List RankedInterface)
    → Ranks interface rs
    → Ranks interface (r ∷ rs)
Ranks-later interface r rs (x, m, e) = (x, there m, e)

pub collect-Ranks :
    (seen : List Text) (ps : List Numbered) {p : Numbered}
    → In p ps
    → is_empty p.1.spec.interface ≡ false
    → (contains p.1.spec.interface seen ≡ true) ⊎ Ranks p.1.spec.interface (collect seen ps)
unfolding collect
collect-Ranks seen [] m n = elim m [ ]
collect-Ranks seen ((i, tr) ∷ rest) here n = elim (Bool-cases (contains tr.spec.interface seen)) [
  | inl h ↦ inl h
  | inr h ↦ inr (rw (collect_take seen i tr rest (ground arith)) (_, here, refl))
]
collect-Ranks seen ((i, tr) ∷ rest) {p} (there m) n =
    elim (Bool-cases (is_empty tr.spec.interface || contains tr.spec.interface seen)) [
      | inl h ↦ rw (collect_skip seen i tr rest h) (collect-Ranks seen rest m n)
      | inr h ↦
          rw (collect_take seen i tr rest h)
            (after (collect-Ranks (tr.spec.interface ∷ seen) rest m n))
    ]
  where
    kept : RankedInterface
    kept = record { interface = tr.spec.interface; healthy = is_up tr.state }

    after :
        (contains p.1.spec.interface (tr.spec.interface ∷ seen) ≡ true)
          ⊎ Ranks p.1.spec.interface (collect (tr.spec.interface ∷ seen) rest)
        → (contains p.1.spec.interface seen ≡ true)
          ⊎ Ranks p.1.spec.interface (kept ∷ collect (tr.spec.interface ∷ seen) rest)
    after (inr later) =
        inr (Ranks-later p.1.spec.interface kept (collect (tr.spec.interface ∷ seen) rest) later)
    after (inl h) = elim (contains-cons p.1.spec.interface tr.spec.interface seen h) [
      | inl e ↦ inr (kept, here, e)
      | inr old ↦ inl old
    ]

-- Where one is not healthy, neither is any behind it.
abbrev pub HealthyFirst : List RankedInterface → Type 0
HealthyFirst [] = Unit
HealthyFirst (r ∷ rs) = (r.healthy ≡ false → All (λ x. x.healthy ≡ false) rs) × HealthyFirst rs

collect-down :
    (seen : List Text) (ps : List Numbered)
    → All (λ p. is_up p.1.state ≡ false) ps
    → All (λ x. x.healthy ≡ false) (collect seen ps)
unfolding collect
collect-down seen [] h = tt
collect-down seen ((i, tr) ∷ rest) h =
    elim (Bool-cases (is_empty tr.spec.interface || contains tr.spec.interface seen)) [
      | inl e ↦ rw (collect_skip seen i tr rest e) (collect-down seen rest h.1)
      | inr e ↦
          rw (collect_take seen i tr rest e) (h.0, collect-down (tr.spec.interface ∷ seen) rest h.1)
    ]

pub collect-HealthyFirst :
    (seen : List Text) (ps : List Numbered) → IsSorted rank_le ps → HealthyFirst (collect seen ps)
unfolding collect
collect-HealthyFirst seen [] s = tt
collect-HealthyFirst seen ((i, tr) ∷ rest) s =
    elim (Bool-cases (is_empty tr.spec.interface || contains tr.spec.interface seen)) [
      | inl e ↦ rw (collect_skip seen i tr rest e) (collect-HealthyFirst seen rest s.1)
      | inr e ↦ rw (collect_take seen i tr rest e) (
        λ d.
            collect-down (tr.spec.interface ∷ seen) rest
              (All-map (λ q h. rank_le-down (i, tr) q h d) rest s.0),
        collect-HealthyFirst (tr.spec.interface ∷ seen) rest s.1,
      )
    ]
