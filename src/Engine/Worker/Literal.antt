-- ===== src/Engine/Worker/Literal.antt =====
-- What the workers of src/engine/mod.rs hand to the hosts publisher: addresses that are IP literals.
use nixnet_corbet_ch.Base.{
  ℕ, zero, suc, ◌≡◌, sym, ap, subst, ◌∙◌, ◌⊎◌, inl, inr, Bool, true, not, List, [], ◌∷◌, Option,
  some, map, All, All-map, All-keep, All-of_map, All-get_elem?, get_elem?, set, some_inj, arith,
}
use nixnet_corbet_ch.Base.Int.{ℤ}
use nixnet_corbet_ch.Base.Text.{Text, is_empty}
use nixnet_corbet_ch.Base.Net.{is_ip_addr}
use nixnet_corbet_ch.Probe.{ProbeResult}
use nixnet_corbet_ch.Engine.{TransportRuntime, Group, uplink, Action}
use nixnet_corbet_ch.Engine.Status.{EngineState, Entry, peer_entries, to_entry}
use nixnet_corbet_ch.Engine.Health.{observe, reject_invalid_address}
use nixnet_corbet_ch.Engine.Health.Address.{IsLiteral, observe-IsLiteral}
use nixnet_corbet_ch.Engine.Decide.{decide_action, settle, all_down}
use nixnet_corbet_ch.Engine.Decide.Laws.{tick_cases, settle-transports, all_down-transports}
use nixnet_corbet_ch.Engine.Groups.{AllGroups}
use nixnet_corbet_ch.Engine.New.Valid.{IsSound}
use nixnet_corbet_ch.Engine.Worker.{mark_due}
use nixnet_corbet_ch.Engine.Worker.Stable.{IsStable}
use nixnet_corbet_ch.Engine.Worker.Sound.{set-IsSound, tick-IsSound, IsSound-IsStable}

All-set {κ} :
    {A : Type 0} (P : A → Type κ) (xs : List A) (i : ℕ) (v : A)
    → P v
    → All P xs
    → All P (set xs i v)
All-set P [] i v p h = tt
All-set P (x ∷ xs) zero v p h = (p, h.1)
All-set P (x ∷ xs) (suc i) v p h = (h.0, All-set P xs i v p h.1)

-- The configured and effective addresses of a transport.
abbrev pub HasLiterals : TransportRuntime → Type 0
HasLiterals tr = IsLiteral tr.spec.address × IsLiteral tr.current_address

-- Every address a peer has or publishes is empty or an IP literal, and an uplink publishes none.
abbrev pub IsClean : Group → Type 0
IsClean g =
    IsSound g
    × (((g.kind ≡ uplink) × (is_empty g.last_published_addr ≡ true))
        ⊎ (All HasLiterals g.transports × IsLiteral g.last_published_addr))

probed-HasLiterals :
    (quoted : Text → Text) (res : ProbeResult) (at : ℤ) (tr : TransportRuntime)
    → HasLiterals tr
    → HasLiterals (observe (reject_invalid_address quoted res) at tr)
unfolding observe
probed-HasLiterals quoted res at tr (configured, current) =
    (ground arith, observe-IsLiteral quoted res at tr configured current)

-- What a tick may publish: an address of its transports, or what was published.
settle-IsLiteral :
    (g : Group) (now : ℤ) (w : ℕ) (changed : Bool) (tr : TransportRuntime)
    → IsLiteral tr.current_address
    → IsLiteral g.last_published_addr
    → IsLiteral (settle g now w changed tr).0.last_published_addr
unfolding settle
settle-IsLiteral g now w changed tr a b = ground arith

settle-Silent :
    (g : Group) (now : ℤ) (w : ℕ) (changed : Bool) (tr : TransportRuntime)
    → g.kind ≡ uplink
    → is_empty g.last_published_addr ≡ true
    → let g' = (settle g now w changed tr).0 in
      (g'.kind ≡ uplink) × (is_empty g'.last_published_addr ≡ true)
unfolding settle
settle-Silent g now w changed tr k e = ground arith

all_down-IsLiteral :
    (g : Group) (now : ℤ)
    → IsLiteral g.last_published_addr
    → IsLiteral (all_down g now).0.last_published_addr
unfolding all_down
all_down-IsLiteral g now b = ground arith

all_down-Silent :
    (g : Group) (now : ℤ)
    → g.kind ≡ uplink
    → is_empty g.last_published_addr ≡ true
    → let g' = (all_down g now).0 in (g'.kind ≡ uplink) × (is_empty g'.last_published_addr ≡ true)
unfolding all_down
all_down-Silent g now k e = ground arith

settle-IsClean :
    (g : Group) (now : ℤ) (w : ℕ) (changed : Bool) (tr : TransportRuntime)
    → get_elem? g.transports w ≡ some tr
    → IsSound (settle g now w changed tr).0
    → IsClean g
    → IsClean (settle g now w changed tr).0
settle-IsClean g now w changed tr at sound (_, inl (k, e)) =
    (sound, inl (settle-Silent g now w changed tr k e))
settle-IsClean g now w changed tr at sound (_, inr (trs, published)) = (
  sound,
  inr (
    subst (All HasLiterals) (sym (settle-transports g now w changed tr)) trs,
    settle-IsLiteral g now w changed tr (All-get_elem? HasLiterals g.transports w trs at).1
        published,
  ),
)

all_down-IsClean :
    (g : Group) (now : ℤ) → IsSound (all_down g now).0 → IsClean g → IsClean (all_down g now).0
all_down-IsClean g now sound (_, inl (k, e)) = (sound, inl (all_down-Silent g now k e))
all_down-IsClean g now sound (_, inr (trs, published)) = (
  sound,
  inr (
    subst (All HasLiterals) (sym (all_down-transports g now)) trs,
    all_down-IsLiteral g now published,
  ),
)

tick-IsClean :
    (g g' : Group) (now : ℤ) (a : Action)
    → IsClean g
    → decide_action g now ≡ some (g', a)
    → IsClean g'
tick-IsClean g g' now a clean done =
    let sound = tick-IsSound g g' now a clean.0 done in
    elim (tick_cases g now clean.0.0) [
      | inl (_, e) ↦
          let same : (all_down g now).0 ≡ g' =
            ap (λ (r : Group × Action). r.0) (some_inj (sym e ∙ done)) in
          subst IsClean same (all_down-IsClean g now (subst IsSound (sym same) sound) clean)
      | inr t ↦
          let same : (settle g now t.winner t.changed t.runtime).0 ≡ g' =
            ap (λ (r : Group × Action). r.0) (some_inj (sym t.result ∙ done)) in
          subst IsClean same (
            settle-IsClean g now t.winner t.changed t.runtime t.place
              (subst IsSound (sym same) sound) clean)
    ]

due-HasLiterals :
    (now : ℕ) (trs : List TransportRuntime)
    → All HasLiterals trs
    → All HasLiterals (map (mark_due now) trs)
due-HasLiterals now [] h = tt
due-HasLiterals now (tr ∷ trs) h = (h.0, due-HasLiterals now trs h.1)

set-IsClean :
    (g : Group) (idx : ℕ) (tr tr' : TransportRuntime)
    → (HasLiterals tr → HasLiterals tr')
    → IsClean g
    → get_elem? g.transports idx ≡ some tr
    → IsClean (record g { transports = set g.transports idx tr' })
set-IsClean g idx tr tr' f (sound, inl silent) at = (set-IsSound g idx tr' sound, inl silent)
set-IsClean g idx tr tr' f (sound, inr (trs, published)) at = (
  set-IsSound g idx tr' sound,
  inr (
    All-set HasLiterals g.transports idx tr' (f (All-get_elem? HasLiterals g.transports idx trs at))
        trs,
    published,
  ),
)

due-IsClean :
    (quoted : Text → Text) (g : Group) (now : ℕ)
    → IsClean g
    → IsClean (record g { transports = map (mark_due now) g.transports })
due-IsClean quoted g now (sound, inl silent) =
    ((IsSound-IsStable quoted).all_due g now sound, inl silent)
due-IsClean quoted g now (sound, inr (trs, published)) = (
  (IsSound-IsStable quoted).all_due g now sound,
  inr (due-HasLiterals now g.transports trs, published),
)

pub IsClean-IsStable : (quoted : Text → Text) → IsStable quoted IsClean
IsClean-IsStable quoted = record {
  probed = λ g idx tr res at. set-IsClean g idx tr _ (probed-HasLiterals quoted res at tr);
  marked = λ g idx tr started due. set-IsClean g idx tr _ (λ h. h);
  all_due = due-IsClean quoted;
  ticked = tick-IsClean;
  reported = λ g e h. h;
}

-- An entry that names an IP literal.
abbrev pub NamesLiteral : Entry → Type 0
NamesLiteral e = is_ip_addr e.address ≡ true

entry-NamesLiteral :
    (format : ℤ → Option Text) (e : Text × Group)
    → IsClean e.1 × (not (is_empty e.1.last_published_addr) ≡ true)
    → NamesLiteral (to_entry format e)
entry-NamesLiteral format (name, g) ((sound, inl (k, empty)), shown) = ground arith
entry-NamesLiteral format (name, g) ((sound, inr (trs, inl empty)), shown) = ground arith
entry-NamesLiteral format (name, g) ((sound, inr (trs, inr literal)), shown) = literal

pub peer_entries-NamesLiteral :
    (format : ℤ → Option Text) (s : EngineState)
    → AllGroups IsClean s
    → All NamesLiteral (peer_entries format s)
unfolding peer_entries
peer_entries-NamesLiteral format s h = All-of_map NamesLiteral (to_entry format) _ (
    All-map (entry-NamesLiteral format) _ (
      All-keep (λ (g : Text × Group). not (is_empty g.1.last_published_addr)) (λ g. IsClean g.1)
        s.peers h.0))
