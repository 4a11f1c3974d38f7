-- ===== src/Engine/Groups.antt =====
-- The groups of an `EngineState` (src/engine/mod.rs): `group` and `group_mut`, which panic on a name
-- that is not there (`none`), and the update of one transport of one group.
pub mod Lookup
use nixnet_corbet_ch.Base.{
  ℕ, zero, suc, ◌≡◌, refl, sym, ap, subst, ◌∙◌, inl, inr, List, [], ◌∷◌, Option, none, some,
  if◌then◌else◌, get_elem?, set, ◌>>=◌, All, Bool-cases, Option-cases, some_inj, length,
}
use nixnet_corbet_ch.Base.Text.{Text, text_eq}
use nixnet_corbet_ch.Engine.{TransportRuntime, Group, GroupKind, peer, uplink}
use nixnet_corbet_ch.Engine.Status.{EngineState}

-- The first entry of that name: a map has one at most.
unfoldable pub find : Text → List (Text × Group) → Option Group
find name [] = none
find name ((n, g) ∷ gs) = let rest = find name gs in if text_eq n name then some g else rest

unfoldable pub put : Text → Group → List (Text × Group) → List (Text × Group)
put name g' [] = []
put name g' ((n, g) ∷ gs) =
    let rest = put name g' gs in if text_eq n name then (n, g') ∷ gs else (n, g) ∷ rest

abbrev pub groups_of : GroupKind → EngineState → List (Text × Group)
groups_of peer state = state.peers
groups_of uplink state = state.uplinks

abbrev pub with_groups : GroupKind → EngineState → List (Text × Group) → EngineState
with_groups peer state gs = record state { peers = gs }
with_groups uplink state gs = record state { uplinks = gs }

abbrev pub group : EngineState → GroupKind → Text → Option Group
group state kind name = find name (groups_of kind state)

abbrev pub set_group : GroupKind → Text → Group → EngineState → EngineState
set_group kind name g state = with_groups kind state (put name g (groups_of kind state))

-- An update of transport `idx` of a group; `none` where the index is out of range.
unfoldable pub at_transport : ℕ → (TransportRuntime → TransportRuntime) → Group → Option Group
at_transport idx f g = get_elem? g.transports idx >>= λ tr.
    some (record g { transports = set g.transports idx (f tr) })

-- An update of one transport of one group of the state.
unfoldable pub at_key :
    GroupKind → Text → ℕ → (TransportRuntime → TransportRuntime) → EngineState → Option EngineState
at_key kind name idx f state = group state kind name >>= λ g.
    at_transport idx f g >>= λ g'. some (set_group kind name g' state)

-- A predicate on every group of a state.
abbrev pub AllGroups {ℓ} : (Group → Type ℓ) → EngineState → Type ℓ
AllGroups P state = All (λ g. P g.1) state.peers × All (λ g. P g.1) state.uplinks

pub find-All {ℓ} :
    (P : Group → Type ℓ) (name : Text) (gs : List (Text × Group)) {g : Group}
    → All (λ e. P e.1) gs
    → find name gs ≡ some g
    → P g
unfolding find
find-All P name [] h e = cc
find-All P name ((n, g) ∷ gs) h e = elim (Bool-cases (text_eq n name)) [
  | inl same ↦ subst P (some_inj (rw (same, if◌then◌else◌) at e)) h.0
  | inr other ↦ find-All P name gs h.1 (rw (other, if◌then◌else◌) at e)
]

pub put-All {ℓ} :
    (P : Group → Type ℓ) (name : Text) (g' : Group) (gs : List (Text × Group))
    → P g'
    → All (λ e. P e.1) gs
    → All (λ e. P e.1) (put name g' gs)
unfolding put
put-All P name g' [] p h = tt
put-All P name g' ((n, g) ∷ gs) p h = elim (Bool-cases (text_eq n name)) [
  | inl same ↦ rw (same, put, if◌then◌else◌) (p, h.1)
  | inr other ↦ rw (other, put, if◌then◌else◌) (h.0, put-All P name g' gs p h.1)
]

pub group-AllGroups {ℓ} :
    (P : Group → Type ℓ) (state : EngineState) (kind : GroupKind) (name : Text) {g : Group}
    → AllGroups P state
    → group state kind name ≡ some g
    → P g
group-AllGroups P state peer name h e = find-All P name state.peers h.0 e
group-AllGroups P state uplink name h e = find-All P name state.uplinks h.1 e

pub set_group-AllGroups {ℓ} :
    (P : Group → Type ℓ) (state : EngineState) (kind : GroupKind) (name : Text) (g : Group)
    → P g
    → AllGroups P state
    → AllGroups P (set_group kind name g state)
set_group-AllGroups P state peer name g p h = (put-All P name g state.peers p h.0, h.1)
set_group-AllGroups P state uplink name g p h = (h.0, put-All P name g state.uplinks p h.1)

pub get_elem?-set :
    {A : Type 0} (xs : List A) (i : ℕ) (v : A) {a : A}
    → get_elem? xs i ≡ some a
    → get_elem? (set xs i v) i ≡ some v
get_elem?-set [] i v h = cc
get_elem?-set (x ∷ xs) zero v h = refl
get_elem?-set (x ∷ xs) (suc i) v h = get_elem?-set xs i v h

-- The update of a transport keeps what every update of one transport of the list keeps.
pub at_key-AllGroups {ℓ} :
    (P : Group → Type ℓ) (state state' : EngineState) (kind : GroupKind) (name : Text) (idx : ℕ)
    (f : TransportRuntime → TransportRuntime)
    → ((g : Group) (tr : TransportRuntime)
        → P g
        → get_elem? g.transports idx ≡ some tr
        → P (record g { transports = set g.transports idx (f tr) }))
    → AllGroups P state
    → at_key kind name idx f state ≡ some state'
    → AllGroups P state'
unfolding at_key at_transport
at_key-AllGroups P state state' kind name idx f keeps h e =
    elim (Option-cases (group state kind name)) [
      | inl none_there ↦ absurd (cc (rw none_there at e))
      | inr (g, there_g) ↦ elim (Option-cases (get_elem? g.transports idx)) [
        | inl out ↦ absurd (cc (rw (there_g, ◌>>=◌, out) at e))
        | inr (tr, at) ↦ subst (AllGroups P) (some_inj (rw (there_g, ◌>>=◌, at) at e)) (
            set_group-AllGroups P state kind name _
              (keeps g tr (group-AllGroups P state kind name h there_g) at) h)
      ]
    ]
