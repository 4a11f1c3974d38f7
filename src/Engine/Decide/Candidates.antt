-- ===== src/Engine/Decide/Candidates.antt =====
-- The candidate list holds exactly the transports that are up, best priority first.
use nixnet_corbet_ch.Base.{
  ℕ, ◌≡◌, refl, true, false, List, [], ◌∷◌, some, arith, get_elem?, keep, map, All, In, ◌∙◌, Option,
  none, inl, inr, ◌&&◌, ◌==◌, ==_iff, &&-true, any, any-true, any-In, Bool-cases, All-In, All-map,
  All-keep, In-keep, All-of_map, In-map, subst, sym,
}
use nixnet_corbet_ch.Base.Int.{ℤ, ◌≤ℤ◌, eqb_ℤ, eqb_ℤ_iff}
use nixnet_corbet_ch.Base.Sort.{
  enumerate_from, All-sort, In-sort, sort-IsSorted, IsSorted, All-enumerate_from, In-enumerate_from,
}
use nixnet_corbet_ch.Engine.{TransportRuntime, is_up}
use nixnet_corbet_ch.Engine.Decide.{Candidate, priority_le, to_candidate, candidates, best_winner}

-- The candidate names a transport of the list that is up, with its priority.
pub record Names (trs : List TransportRuntime) (c : Candidate) : Type 0 where
  pub runtime : TransportRuntime
  pub place : get_elem? trs c.idx ≡ some runtime
  pub healthy : is_up runtime.state ≡ true
  pub same_priority : c.priority ≡ runtime.spec.priority

pub candidates-Names : (trs : List TransportRuntime) → All (Names trs) (candidates trs)
unfolding candidates
candidates-Names trs = All-sort priority_le (Names trs) _ (
    All-of_map (Names trs) to_candidate _ (
      All-map (λ p h. record { runtime = p.1; place = h.0; healthy = h.1; same_priority = refl }) _
        (All-keep (λ p. is_up p.1.state) (λ p. get_elem? trs p.0 ≡ some p.1) (enumerate_from 0 trs)
          (All-enumerate_from (λ p. get_elem? trs p.0 ≡ some p.1) 0 trs
            (λ k a h. subst (λ n. get_elem? trs n ≡ some a) (omega arith) h)))))

pub candidates-In :
    (trs : List TransportRuntime) (k : ℕ) (tr : TransportRuntime)
    → get_elem? trs k ≡ some tr
    → is_up tr.state ≡ true
    → In (record { idx = k; priority = tr.spec.priority }) (candidates trs)
unfolding candidates
candidates-In trs k tr h u = In-sort priority_le _ (
    In-map to_candidate _ (
      In-keep (λ p. is_up p.1.state) (enumerate_from 0 trs)
        (subst (λ n. In (n, tr) (enumerate_from 0 trs)) (omega arith) (In-enumerate_from 0 trs k h))
        u))

priority_le_trans :
    (a b c : Candidate) → priority_le a b ≡ true → priority_le b c ≡ true → priority_le a c ≡ true
priority_le_trans a b c h k = ground arith

priority_le-total : (a b : Candidate) → priority_le a b ≡ false → priority_le b a ≡ true
priority_le-total a b h = ground arith

pub candidates-IsSorted : (trs : List TransportRuntime) → IsSorted priority_le (candidates trs)
unfolding candidates
candidates-IsSorted trs =
    sort-IsSorted priority_le priority_le_trans priority_le-total
      (map to_candidate (keep (λ p. is_up p.1.state) (enumerate_from 0 trs)))

-- No transport that is up has a smaller priority number.
abbrev pub IsBest : List TransportRuntime → ℤ → Type 0
IsBest trs priority =
    (k : ℕ) (tr : TransportRuntime)
    → get_elem? trs k ≡ some tr
    → is_up tr.state ≡ true
    → priority ≤ℤ tr.spec.priority

All_of_head :
    (first : Candidate) (rest : List Candidate)
    → IsSorted priority_le (first ∷ rest)
    → All (λ c. first.priority ≤ℤ c.priority) (first ∷ rest)
All_of_head first rest s = (omega arith, All-map (λ c h. ground arith) rest s.0)

pub first-IsBest :
    (trs : List TransportRuntime) (first : Candidate) (rest : List Candidate)
    → candidates trs ≡ first ∷ rest
    → IsBest trs first.priority
first-IsBest trs first rest e k tr h u =
    All-In (λ c. first.priority ≤ℤ c.priority) (subst (In _) e (candidates-In trs k tr h u))
      (All_of_head first rest (subst (IsSorted priority_le) e (candidates-IsSorted trs)))

pub no_candidates :
    (trs : List TransportRuntime)
    → candidates trs ≡ []
    → (k : ℕ) (tr : TransportRuntime) → get_elem? trs k ≡ some tr
    → is_up tr.state ≡ false
no_candidates trs e k tr h = elim (Bool-cases (is_up tr.state)) [
  | inl u ↦ none_in (
      subst (In {A = Candidate} (record { idx = k; priority = tr.spec.priority })) e
        (candidates-In trs k tr h u))
  | inr d ↦ d
]
  where
    none_in :
        In {A = Candidate} (record { idx = k; priority = tr.spec.priority }) []
        → is_up tr.state ≡ false
    none_in m = elim m [ ]

module _ (trs : List TransportRuntime) (first : Candidate) (rest : List Candidate)
    (e : candidates trs ≡ first ∷ rest) where
  named : All (Names trs) (first ∷ rest)
  named = subst (All (Names trs)) e (candidates-Names trs)

  -- The pick before damping is up and has the best priority; a winner among those of that
  -- priority is picked again.
  pub best_winner_up :
      (winner : Option ℕ)
      → (tr : TransportRuntime) × (get_elem? trs (best_winner winner first rest) ≡ some tr)
        × (is_up tr.state ≡ true)
        × (tr.spec.priority ≡ first.priority)
  unfolding best_winner
  best_winner_up none = let n = named.0 in (n.runtime, n.place, n.healthy, sym n.same_priority)
  best_winner_up (some w) =
      elim (Bool-cases (any (λ c. eqb_ℤ c.priority first.priority && c.idx == w) (first ∷ rest))) [
        | inl tie ↦ rw (tie, best_winner) (tied tie)
        | inr alone ↦
            rw (alone, best_winner)
              (let n = named.0 in (n.runtime, n.place, n.healthy, sym n.same_priority))
      ]
    where
      tied :
          any (λ c. eqb_ℤ c.priority first.priority && c.idx == w) (first ∷ rest) ≡ true
          → (tr : TransportRuntime) × (get_elem? trs w ≡ some tr)
            × (is_up tr.state ≡ true)
            × (tr.spec.priority ≡ first.priority)
      tied t =
          let (c, m, q) =
            any-true (λ c. eqb_ℤ c.priority first.priority && c.idx == w) (first ∷ rest) t in
          let (same, here_w) = &&-true (eqb_ℤ c.priority first.priority) (c.idx == w) q in
          let n = All-In (Names trs) m named in
          (
            n.runtime,
            subst (λ i. get_elem? trs i ≡ some n.runtime) ((==_iff c.idx w).0 here_w) n.place,
            n.healthy,
            sym n.same_priority ∙ (eqb_ℤ_iff c.priority first.priority).0 same,
          )

  pub best_winner_keeps :
      (w : ℕ) (tr : TransportRuntime)
      → get_elem? trs w ≡ some tr
      → is_up tr.state ≡ true
      → IsBest trs tr.spec.priority
      → best_winner (some w) first rest ≡ w
  unfolding best_winner
  best_winner_keeps w tr h u b =
      let n = named.0 in
      let low = b first.idx n.runtime n.place n.healthy in
      let high = first-IsBest trs first rest e w tr h u in
      let tie =
        any-In (λ c. eqb_ℤ c.priority first.priority && c.idx == w) (first ∷ rest)
          (subst (In (record { idx = w; priority = tr.spec.priority })) e
            (candidates-In trs w tr h u))
          (ground (arith, n.same_priority, low, high)) in
      rw (tie, best_winner)
