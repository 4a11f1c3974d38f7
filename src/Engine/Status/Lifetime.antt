-- ===== src/Engine/Status/Lifetime.antt =====
-- How long a status snapshot stays valid.
use nixnet_corbet_ch.Base.{
  ◌≡◌, ◌⊎◌, ◌∙◌, refl, sym, subst, inl, inr, List, [], ◌∷◌, ◌++◌, In, In-cases, here, there, arith,
}
use nixnet_corbet_ch.Base.Int.{
  ℤ, pos, ◌≤ℤ◌, ◌+ℤ◌, saturating_add, max_ℤ, min_ℤ, i64_max, i64_min, +ℤ_parts,
}
use nixnet_corbet_ch.Config.{Transport, Config}
use nixnet_corbet_ch.Engine.Status.{
  longest, period, status_ttl, all_peer_transports, all_uplink_transports,
}

le_max_left : (a b : ℤ) → a ≤ℤ max_ℤ a b
le_max_left a b = ground arith

le_max_right : (a b : ℤ) → b ≤ℤ max_ℤ a b
le_max_right a b = ground arith

le_trans : (a b c : ℤ) → a ≤ℤ b → b ≤ℤ c → a ≤ℤ c
le_trans a b c h k = omega arith

longest_le : (t : Transport) (ts : List Transport) → In t ts → period t ≤ℤ longest ts
unfolding longest
longest_le t [] m = elim m [ ]
longest_le t (s ∷ []) m = elim (In-cases m) [ inl e ↦ rw e (omega arith) | inr n ↦ elim n [ ] ]
longest_le t (s ∷ r ∷ ts) m = elim (In-cases m) [
  | inl e ↦ rw e (le_max_left (period s) (longest (r ∷ ts)))
  | inr n ↦
      le_trans (period t) (longest (r ∷ ts)) (max_ℤ (period s) (longest (r ∷ ts)))
        (longest_le t (r ∷ ts) n) (le_max_right (period s) (longest (r ∷ ts)))
]

add_mono : (a b c : ℤ) → a ≤ℤ b → a +ℤ c ≤ℤ b +ℤ c
add_mono a b c h = omega (arith, +ℤ_parts a c, +ℤ_parts b c)

min_mono : (a b c : ℤ) → a ≤ℤ b → min_ℤ a c ≤ℤ min_ℤ b c
min_mono a b c h = ground arith

max_mono : (a b c : ℤ) → a ≤ℤ b → max_ℤ c a ≤ℤ max_ℤ c b
max_mono a b c h = ground arith

saturating_add_mono : (a b c : ℤ) → a ≤ℤ b → saturating_add a c ≤ℤ saturating_add b c
unfolding saturating_add
saturating_add_mono a b c h =
    max_mono (min_ℤ (a +ℤ c) i64_max) (min_ℤ (b +ℤ c) i64_max) i64_min
      (min_mono (a +ℤ c) (b +ℤ c) i64_max (add_mono a b c h))

max_least : (a b c : ℤ) → a ≤ℤ c → b ≤ℤ c → max_ℤ a b ≤ℤ c
max_least a b c h k = ground arith

max_cases : (a b : ℤ) → (max_ℤ a b ≡ a) ⊎ (max_ℤ a b ≡ b)
max_cases a b = ground arith

-- The longest period is one of a transport.
longest-In :
    (t : Transport) (ts : List Transport)
    → (s : Transport) × In s (t ∷ ts) × (longest (t ∷ ts) ≡ period s)
unfolding longest
longest-In t [] = (t, here, refl)
longest-In t (s ∷ ts) =
    let (u, m, e) = longest-In s ts in
    elim (max_cases (period t) (longest (s ∷ ts))) [
      | inl first ↦ (t, here, first)
      | inr later ↦ (u, there m, later ∙ e)
    ]

longest_below :
    (ts : List Transport) (ttl : ℤ)
    → pos 15000 ≤ℤ ttl
    → ((t : Transport) → In t ts → saturating_add (period t) (pos 5000) ≤ℤ ttl)
    → saturating_add (longest ts) (pos 5000) ≤ℤ ttl
unfolding longest saturating_add ◌+ℤ◌
longest_below [] ttl long each = le_trans (pos 5000) (pos 15000) ttl (omega arith) long
longest_below (t ∷ ts) ttl long each =
    let (s, m, e) = longest-In t ts in
    subst (λ (p : ℤ). saturating_add p (pos 5000) ≤ℤ ttl) (sym e) (each s m)

-- What a lifetime of a snapshot has to cover, in milliseconds.
abbrev pub Covers : Config → ℤ → Type 0
Covers cfg ttl =
    (pos 15000 ≤ℤ ttl)
    × ((t : Transport)
        → In t (all_peer_transports cfg.peers ++ all_uplink_transports cfg.uplinks)
        → saturating_add (period t) (pos 5000) ≤ℤ ttl)

-- The time a snapshot stays valid is the least that is at least fifteen seconds and, for every
-- configured transport, its probe interval, its timeout and five seconds more, where sums stop at the
-- bounds of an i64.
pub status_ttl-least :
    (cfg : Config)
    → Covers cfg (status_ttl cfg) × ((ttl : ℤ) → Covers cfg ttl → status_ttl cfg ≤ℤ ttl)
unfolding status_ttl
status_ttl-least cfg =
    let all_of = all_peer_transports cfg.peers ++ all_uplink_transports cfg.uplinks in
    let most = saturating_add (longest all_of) (pos 5000) in
    (
      (
        le_max_right most (pos 15000),
        λ t m.
            le_trans (saturating_add (period t) (pos 5000)) most (max_ℤ most (pos 15000))
              (saturating_add_mono (period t) (longest all_of) (pos 5000) (longest_le t all_of m))
              (le_max_left most (pos 15000)),
      ),
      λ ttl (long, each). max_least most (pos 15000) ttl (longest_below all_of ttl long each) long,
    )
