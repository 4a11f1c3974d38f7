-- ===== src/Config/Validate/Distinct.antt =====
-- Names that a configuration must not use twice: transport ids in a group, host names of all peers.
use nixnet_corbet_ch.Base.{
  ℕ, suc, ◌≡◌, ◌≢◌, sym, ◌∙◌, ap, inl, inr, true, false, false≢true, not, Bool-cases, Option-cases,
  List, [], ◌∷◌, ◌++◌, none, ok, check-&>, ok_inj, All, All-of_map, All-map, All-append, arith, map,
}
use nixnet_corbet_ch.Base.Text.{Text, is_empty, text_eq, text_eq_iff}
use nixnet_corbet_ch.Base.Str.{trim}
use nixnet_corbet_ch.Config.{Transport}
use nixnet_corbet_ch.Config.Validate.{
  empty_id, lookup, validate_transport_ids, is_token, validate_hostnames,
}

-- No text stands twice.
abbrev pub AllDifferent : List Text → Type 0
AllDifferent [] = Unit
AllDifferent (t ∷ ts) = All (λ x. x ≢ t) ts × AllDifferent ts

pub AllDifferent-append :
    (xs ys : List Text)
    → AllDifferent xs
    → AllDifferent ys
    → All (λ y. All (λ x. x ≢ y) xs) ys
    → AllDifferent (xs ++ ys)
AllDifferent-append [] ys dx dy cross = dy
AllDifferent-append (x ∷ xs) ys dx dy cross = (
  All-append (λ (y : Text). y ≢ x) xs ys dx.0 (All-map (λ y p e. p.0 (sym e)) ys cross),
  AllDifferent-append xs ys dx.1 dy (All-map (λ y p. p.1) ys cross),
)

lookup-none :
    {A : Type 0} (key k : Text) (a : A) (rest : List (Text × A))
    → lookup key ((k, a) ∷ rest) ≡ none
    → (key ≢ k) × (lookup key rest ≡ none)
unfolding lookup
lookup-none key k a rest h = elim (Bool-cases (text_eq k key)) [
  | inl same ↦ absurd (cc (rw (same, lookup) at h))
  | inr other ↦
      ((λ e. false≢true (sym other ∙ (text_eq_iff k key).1 (sym e))), (rw (other, lookup) at h))
]

-- The ids of a group's transports are not blank, new to those seen, and different.
pub ids_new :
    (kind name : Text) (i : ℕ) (seen : List (Text × ℕ)) (ts : List Transport)
    → validate_transport_ids kind name i seen ts ≡ ok tt
    → All (λ t. is_empty (trim t.id) ≡ false) ts
      × All (λ t. lookup t.id seen ≡ none) ts
      × AllDifferent (map (λ t. t.id) ts)
unfolding validate_transport_ids
ids_new kind name i seen [] h = (tt, tt, tt)
ids_new kind name i seen (t ∷ ts) h =
    let (named, rest) = check-&> (not (is_empty (trim t.id))) (empty_id kind name i) _ h in
    elim (Option-cases (lookup t.id seen)) [
      | inr (first, e) ↦ absurd (cc (rw (e, validate_transport_ids) at rest))
      | inl e ↦
          let (full, new, different) =
            ids_new kind name (suc i) ((t.id, i) ∷ seen) ts
              (rw (e, validate_transport_ids) at rest) in
          let split = All-map (λ (x : Transport) p. lookup-none x.id t.id i seen p) ts new in
          (
            (ground arith, full),
            (e, All-map (λ (x : Transport) p. p.1) ts split),
            (
              All-of_map (λ (x : Text). x ≢ t.id) (λ (x : Transport). x.id) ts
                  (All-map (λ (x : Transport) p. p.0) ts split),
              different,
            ),
          )
    ]

-- A host name of one peer: a token, not seen before, and seen afterwards.
pub hostnames_new :
    (name : Text) (seen seen' : List (Text × Text)) (hs : List Text)
    → validate_hostnames name seen hs ≡ ok seen'
    → All (λ h. is_token h ≡ true) hs
      × All (λ h. lookup h seen ≡ none) hs
      × AllDifferent hs
      × ((key : Text) → lookup key seen' ≡ none → (lookup key seen ≡ none) × All (λ h. h ≢ key) hs)
unfolding validate_hostnames
hostnames_new name seen seen' [] e = (tt, tt, tt, λ key k. (ap (lookup key) (ok_inj e) ∙ k, tt))
hostnames_new name seen seen' (h ∷ hs) e = elim (Bool-cases (is_token h)) [
  | inr bad ↦ absurd (cc (rw (bad, validate_hostnames) at e))
  | inl token ↦ elim (Option-cases (lookup h seen)) [
    | inr (owner, found) ↦ absurd (cc (rw (token, validate_hostnames, found) at e))
    | inl unseen ↦
        let (tokens, new, different, later) =
          hostnames_new name ((h, name) ∷ seen) seen' hs
            (rw (token, validate_hostnames, unseen) at e) in
        let split = All-map (λ x p. lookup-none x h name seen p) hs new in
        (
          (token, tokens),
          (unseen, All-map (λ x p. p.1) hs split),
          (All-map (λ x p. p.0) hs split, different),
          λ key k.
              let (gone, others) = later key k in
              let (off, before) = lookup-none key h name seen gone in
              (before, ((λ q. off (sym q)), others)),
        )
  ]
]
