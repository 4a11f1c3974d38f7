-- ===== src/Engine/Persist/RoundTrip.antt =====
-- A group that is written and restored comes back as it was.
use nixnet_corbet_ch.Base.{
  ℕ, zero, suc, ◌+◌, ◌≡◌, refl, sym, ◌∙◌, ap, subst, ◌⊎◌, inl, inr, true, false, ◌&&◌, List, [],
  ◌∷◌, Option, none, some, arith, length, position_from, if◌then◌else◌, Bool-cases, get_elem?,
  some_inj, &&-true, map, All-get_elem?, All, Option-cases, get_elem?_lt,
}
use nixnet_corbet_ch.Base.Int.{ℤ, pos}
use nixnet_corbet_ch.Base.Text.{Text, is_empty, text_eq, text_eq_iff, text_eq_refl, text_eq_comm}
use nixnet_corbet_ch.Config.{on_all_down_last_known_good}
use nixnet_corbet_ch.Engine.{
  TransportRuntime, TransportState, unknown, up, down, as_str, Group, GroupKind, peer, uplink,
  IsValid, InRange,
}
use nixnet_corbet_ch.Engine.Decide.{is_peer}
use nixnet_corbet_ch.Engine.Persist.Valid.{IsPublishable}
use nixnet_corbet_ch.Engine.Persist.{
  PersistedGroup, find_saved, adopt, adopt_all, expire_restored, adopt_group, drop_orphan,
  drop_changed, restore_group, dump_group, dump_transport, parse_state, winner_key, dumped,
}

-- A transport as a start finds it: the configuration, and nothing observed.
abbrev pub cold_transport : TransportRuntime → TransportRuntime
cold_transport tr = record tr {
  state = unknown;
  consecutive_success = pos 0;
  consecutive_failure = pos 0;
  current_address = [];
  detail = [];
  last_success_at = none;
  probe_started_at = none;
  next_probe_due = none;
}

-- What of a transport is not written: the detail of its last probe and its progress marks.
abbrev pub forget_transport : TransportRuntime → TransportRuntime
forget_transport tr = record tr { detail = []; probe_started_at = none; next_probe_due = none }

abbrev pub cold_group : Group → Group
cold_group g = record g {
  transports = map cold_transport g.transports;
  winner = none;
  winner_since = none;
  degraded = false;
  last_published_addr = [];
  last_confirmed_at = none;
  last_publish_error = [];
}

abbrev pub forget_group : Group → Group
forget_group g = record g {
  transports = map forget_transport g.transports;
  last_publish_error = [];
}

-- Keys are set and unique.
abbrev pub HasKeys : List TransportRuntime → Type 0
HasKeys [] = Unit
HasKeys (tr ∷ trs) =
    (is_empty tr.key ≡ false)
    × All (λ (x : TransportRuntime). text_eq x.key tr.key ≡ false) trs
    × HasKeys trs

-- The effective address is the configured one, where one is configured.
abbrev pub IsDeclared : TransportRuntime → Type 0
IsDeclared tr = (tr.spec.address ≡ []) ⊎ (tr.current_address ≡ tr.spec.address)

parse_state-as_str : (s : TransportState) → parse_state (as_str s) ≡ s
unfolding parse_state as_str text_eq
parse_state-as_str unknown = refl
parse_state-as_str up = refl
parse_state-as_str down = refl

adopt-dump :
    (tr : TransportRuntime)
    → IsDeclared tr
    → adopt (dump_transport tr) (cold_transport tr) ≡ (forget_transport tr, false)
unfolding adopt
adopt-dump tr (inl e) = rw (parse_state-as_str tr.state) (ground arith)
adopt-dump tr (inr e) =
    rw (parse_state-as_str tr.state) (ground (arith, text_eq_refl tr.spec.address))

find_saved-absent :
    (key : Text) (trs : List TransportRuntime)
    → All (λ (x : TransportRuntime). text_eq x.key key ≡ false) trs
    → find_saved key (map dump_transport trs) ≡ none
unfolding find_saved
find_saved-absent key [] h = refl
find_saved-absent key (tr ∷ trs) h = ground (arith, find_saved-absent key trs h.1)

module _ (full : List TransportRuntime) where
  -- Each of the transports is found under its key among those that were written.
  abbrev AllFound : List TransportRuntime → Type 0
  AllFound = All (λ tr. find_saved tr.key (map dump_transport full) ≡ some (dump_transport tr))

AllFound-cons :
    (tr : TransportRuntime) (full trs : List TransportRuntime)
    → All (λ (x : TransportRuntime). text_eq x.key tr.key ≡ false) trs
    → AllFound full trs
    → AllFound (tr ∷ full) trs
unfolding find_saved
AllFound-cons tr full [] ne f = tt
AllFound-cons tr full (x ∷ trs) ne f = (rw f.0, AllFound-cons tr full trs ne.1 f.1)

HasKeys-AllFound : (trs : List TransportRuntime) → HasKeys trs → AllFound trs trs
unfolding find_saved
HasKeys-AllFound [] h = tt
HasKeys-AllFound (tr ∷ trs) h = (
  ground (arith, find_saved-absent tr.key trs h.1, text_eq_refl tr.key),
  AllFound-cons tr trs trs h.1 (HasKeys-AllFound trs h.2),
)

adopt_all-dump :
    (full : List TransportRuntime) (winner : Option ℕ) (i : ℕ) (trs : List TransportRuntime)
    → AllFound full trs
    → All IsDeclared trs
    → adopt_all (map dump_transport full) winner i (map cold_transport trs)
      ≡ (map forget_transport trs, false)
unfolding adopt_all
adopt_all-dump full winner i [] f d = refl
adopt_all-dump full winner i (tr ∷ trs) f d =
    rw f.0 (rw (adopt-dump tr d.0, adopt_all-dump full winner (suc i) trs f.1 d.1))

position-key :
    (i w : ℕ) (trs : List TransportRuntime) (tr : TransportRuntime)
    → HasKeys trs
    → get_elem? trs w ≡ some tr
    → position_from i (λ (x : TransportRuntime). text_eq x.key tr.key) (map cold_transport trs)
      ≡ some (i + w)
position-key i w [] tr h at = cc
position-key i zero (x ∷ trs) tr h at =
    rw (some_inj (sym at)) (rw (text_eq_refl x.key) (ap some (omega arith)))
position-key i (suc w) (x ∷ trs) tr h at =
    let other =
      All-get_elem? (λ (y : TransportRuntime). text_eq y.key x.key ≡ false) trs w h.1 at in
    rw (text_eq_comm x.key tr.key ∙ other)
      (position-key (suc i) w trs tr h.2 at ∙ ap some (omega arith))

key_named :
    (trs : List TransportRuntime) (w : ℕ) (tr : TransportRuntime)
    → HasKeys trs
    → get_elem? trs w ≡ some tr
    → is_empty tr.key ≡ false
key_named [] w tr keys at = cc
key_named (x ∷ trs) zero tr keys at =
    subst (λ (y : TransportRuntime). is_empty y.key ≡ false) (some_inj at) keys.0
key_named (x ∷ trs) (suc w) tr keys at = key_named trs w tr keys.2 at

-- The winner that a saved id names among the cold transports.
abbrev winner_named : Text → Group → Option ℕ
winner_named id g =
    if is_empty id
    then none
    else position_from 0 (λ (tr : TransportRuntime). text_eq tr.key id)
        (map cold_transport g.transports)

adopt_group-dumped :
    (g : Group) (id : Text)
    → winner_named id g ≡ g.winner
    → adopt_group (dumped id g) (cold_group g)
      ≡ record g { transports = map cold_transport g.transports; last_publish_error = [] }
unfolding adopt_group
adopt_group-dumped g id e =
    ap
      (λ o. record g {
        winner = o;
        transports = map cold_transport g.transports;
        last_publish_error = [];
      })
      e

winner_key_cases :
    (g : Group)
    → IsValid g
    → HasKeys g.transports
    → (id : Text) × (winner_key g.winner g.transports ≡ some id) × (winner_named id g ≡ g.winner)
unfolding winner_key
winner_key_cases g v keys = elim (Option-cases g.winner) [
  | inl e ↦ ([], rw e, sym e)
  | inr (w, e) ↦
      let (tr, at) =
        get_elem?_lt g.transports w (subst (λ o. InRange o (length g.transports)) e v) in
      (
        tr.key,
        rw e (rw at),
        rw (key_named g.transports w tr keys at)
            (position-key 0 w g.transports tr keys at ∙ ap some (omega arith) ∙ sym e),
      )
]

peer_of : (k : GroupKind) → is_peer k ≡ true → k ≡ peer
peer_of peer h = refl
peer_of uplink h = cc

expire-publishable : (g : Group) (now : ℤ) → IsPublishable now g → expire_restored g now ≡ g
unfolding expire_restored
expire-publishable g now (inl empty) = ground arith
expire-publishable g now (inr (backed, young)) =
    elim (Bool-cases (is_peer g.kind && text_eq g.on_all_down on_all_down_last_known_good)) [
      | inl both ↦
          let (p, q) =
            &&-true (is_peer g.kind) (text_eq g.on_all_down on_all_down_last_known_good) both in
          let recent =
            young (peer_of g.kind p)
              ((text_eq_iff g.on_all_down on_all_down_last_known_good).0 q) in
          ground arith
      | inr other ↦ ground arith
    ]

drop_orphan-publishable : (g : Group) (now : ℤ) → IsPublishable now g → drop_orphan g ≡ g
unfolding drop_orphan
drop_orphan-publishable g now (inl empty) = ground arith
drop_orphan-publishable g now (inr backed) = ground (arith, backed.0)

-- Written and restored, a group comes back as it was, but for the details of the last probes, the
-- progress marks and the last publish error, which are not written. It needs a winner pointer in
-- range, distinct non-empty keys, effective addresses equal to the configured ones where these are
-- set, and that what is published has a winner and is within its bound.
pub restore_group-dump_group :
    (g : Group) (now : ℤ)
    → IsValid g
    → HasKeys g.transports
    → All IsDeclared g.transports
    → IsPublishable now g
    → (pg : PersistedGroup) × (dump_group g ≡ some pg)
      × (restore_group pg now (cold_group g) ≡ forget_group g)
unfolding dump_group restore_group drop_changed
restore_group-dump_group g now v keys declared publishable =
    let (id, named, back) = winner_key_cases g v keys in
    (
      dumped id g,
      rw named,
      rw (adopt_group-dumped g id back) (
          rw
            (expire-publishable
              (record g { transports = map cold_transport g.transports; last_publish_error = [] })
              now publishable)
            (rw
              (adopt_all-dump g.transports g.winner 0 g.transports
                (HasKeys-AllFound g.transports keys) declared)
              (drop_orphan-publishable (forget_group g) now publishable))),
    )
