-- ===== src/Engine/Groups/Lookup.antt =====
-- Look-ups in the state of src/engine/mod.rs after an update of one group.
use nixnet_corbet_ch.Base.{
  ℕ, zero, suc, ◌<◌, ◌≡◌, refl, sym, ap, ◌∙◌, subst, ◌⊎◌, inl, inr, List, [], ◌∷◌, some, get_elem?,
  get_elem?_lt, set, length, some_inj, Bool-cases, Option-cases, ◌>>=◌, if◌then◌else◌,
}
use nixnet_corbet_ch.Base.Text.{Text, text_eq}
use nixnet_corbet_ch.Engine.{TransportRuntime, Group, GroupKind, peer, uplink}
use nixnet_corbet_ch.Engine.Status.{EngineState}
use nixnet_corbet_ch.Engine.Groups.{find, put, group, set_group, at_key, at_transport}

pub find-put :
    (n name : Text) (g g' h : Group) (gs : List (Text × Group))
    → find name gs ≡ some g
    → find n gs ≡ some h
    → (find n (put name g' gs) ≡ some h) ⊎ ((find n (put name g' gs) ≡ some g') × (h ≡ g))
unfolding find put
find-put n name g g' h [] there_g there_h = cc
find-put n name g g' h ((m, x) ∷ gs) there_g there_h = elim (Bool-cases (text_eq m name)) [
  | inl a ↦ elim (Bool-cases (text_eq m n)) [
    | inl b ↦
        let at_h = some_inj (rw (b, find, if◌then◌else◌) at there_h) in
        let at_g = some_inj (rw (a, find, if◌then◌else◌) at there_g) in
        inr (rw (a, b, find, put, if◌then◌else◌) refl, sym at_h ∙ at_g)
    | inr b ↦ inl (rw (a, b, find, put, if◌then◌else◌) (rw (b, find, if◌then◌else◌) at there_h))
  ]
  | inr a ↦ elim (Bool-cases (text_eq m n)) [
    | inl b ↦ inl (rw (a, b, find, put, if◌then◌else◌) (rw (b, find, if◌then◌else◌) at there_h))
    | inr b ↦
        rw (a, b, find, put, if◌then◌else◌)
          (find-put n name g g' h gs (rw (a, find, if◌then◌else◌) at there_g)
            (rw (b, find, if◌then◌else◌) at there_h))
  ]
]

-- The state has the group of that name, and it has more than `idx` transports.
abbrev pub HasKey : GroupKind → Text → ℕ → EngineState → Type 0
HasKey kind name idx s = (g : Group) × (group s kind name ≡ some g) × (idx < length g.transports)

pub set_group-HasKey :
    (kind k : GroupKind) (name n : Text) (idx : ℕ) (g g' : Group) (s : EngineState)
    → group s k n ≡ some g
    → length g'.transports ≡ length g.transports
    → HasKey kind name idx s
    → HasKey kind name idx (set_group k n g' s)
set_group-HasKey peer peer name n idx g g' s there_g same (h, there_h, below) =
    elim (find-put name n g g' h s.peers there_g there_h) [
      | inl e ↦ (h, e, below)
      | inr (e, old) ↦
          (g', e, subst (λ l. idx < l) (ap (λ x. length x.transports) old ∙ sym same) below)
    ]
set_group-HasKey uplink uplink name n idx g g' s there_g same (h, there_h, below) =
    elim (find-put name n g g' h s.uplinks there_g there_h) [
      | inl e ↦ (h, e, below)
      | inr (e, old) ↦
          (g', e, subst (λ l. idx < l) (ap (λ x. length x.transports) old ∙ sym same) below)
    ]
set_group-HasKey peer uplink name n idx g g' s there_g same h = h
set_group-HasKey uplink peer name n idx g g' s there_g same h = h

pub length-set : {A : Type 0} (xs : List A) (i : ℕ) (v : A) → length (set xs i v) ≡ length xs
length-set [] i v = refl
length-set (x ∷ xs) zero v = refl
length-set (x ∷ xs) (suc i) v = ap suc (length-set xs i v)

-- The update of a transport of a key that is there succeeds, and every key stays there.
pub at_key-defined :
    (k : GroupKind) (n : Text) (i : ℕ) (f : TransportRuntime → TransportRuntime) (s : EngineState)
    → HasKey k n i s
    → (s' : EngineState) × (at_key k n i f s ≡ some s')
unfolding at_key at_transport
at_key-defined k n i f s (g, there_g, below) =
    let (tr, at) = get_elem?_lt g.transports i below in
    (
      set_group k n (record g { transports = set g.transports i (f tr) }) s,
      rw (there_g, ◌>>=◌) (rw (at, ◌>>=◌) refl),
    )

pub at_key-HasKey :
    (kind k : GroupKind) (name n : Text) (idx i : ℕ) (f : TransportRuntime → TransportRuntime)
    (s s' : EngineState)
    → at_key k n i f s ≡ some s'
    → HasKey kind name idx s
    → HasKey kind name idx s'
unfolding at_key at_transport
at_key-HasKey kind k name n idx i f s s' e h = elim (Option-cases (group s k n)) [
  | inl missing ↦ absurd (cc (rw missing at e))
  | inr (g, there_g) ↦ elim (Option-cases (get_elem? g.transports i)) [
    | inl out ↦ absurd (cc (rw (there_g, ◌>>=◌, out) at e))
    | inr (tr, at) ↦
        subst (HasKey kind name idx) (some_inj (rw (there_g, ◌>>=◌, at) at e))
          (set_group-HasKey kind k name n idx g _ s there_g (length-set g.transports i (f tr)) h)
  ]
]
