-- ===== src/Engine/Persist.antt =====
-- src/engine/state.rs: what of a group is written to `state.json` and how a start restores it.
-- The JSON text itself, its file and its clock belong to serde, the file system and the caller.
pub mod Defined
pub mod Valid
pub mod RoundTrip
use nixnet_corbet_ch.Base.{
  ℕ, zero, suc, Bool, true, false, not, ◌&&◌, ◌||◌, List, [], ◌∷◌, Option, none, some,
  if◌then◌else◌, get_elem?, is_index, position_from, map, ◌>>=◌, is_some,
}
use nixnet_corbet_ch.Base.Int.{ℤ, pos}
use nixnet_corbet_ch.Base.Text.{Text, codes, is_empty, text_eq}
use nixnet_corbet_ch.Config.{on_all_down_last_known_good}
use nixnet_corbet_ch.Engine.{
  TransportRuntime, TransportState, unknown, up, down, as_str, Group, peer, uplink,
}
use nixnet_corbet_ch.Engine.Staleness.{staleness, is_fresh}
use nixnet_corbet_ch.Engine.Decide
use nixnet_corbet_ch.Engine.Decide.{is_peer}

pub record PersistedTransport : Type 0 where
  pub id : Text
  pub state : Text
  pub consecutive_success : ℤ
  pub consecutive_failure : ℤ
  pub address : Text
  pub last_success_at : Option ℤ

-- Without the legacy list position, which is read and never used.
pub record PersistedGroup : Type 0 where
  pub winner_id : Text
  pub winner_since : Option ℤ
  pub confirmed_at : Option ℤ
  pub degraded : Bool
  pub last_published_address : Text
  pub transports : List PersistedTransport

unfoldable pub parse_state : Text → TransportState
parse_state s =
    if text_eq s (codes "up") then up else if text_eq s (codes "down") then down else unknown

-- `saved_by_id.get(key)`: a map from the non-empty ids, where a later entry replaces an earlier.
unfoldable pub find_saved : Text → List PersistedTransport → Option PersistedTransport
find_saved key [] = none
find_saved key (pt ∷ pts) =
    let later = find_saved key pts in
    if is_some later
    then later
    else if not (is_empty pt.id) && text_eq pt.id key
    then some pt
    else none

-- A saved transport put into the configured one, and whether its static address changed.
unfoldable pub adopt : PersistedTransport → TransportRuntime → TransportRuntime × Bool
adopt pt tr =
    let counted = record tr {
      state = parse_state pt.state;
      consecutive_success = pt.consecutive_success;
      consecutive_failure = pt.consecutive_failure;
      last_success_at = pt.last_success_at;
    } in
    if is_empty tr.spec.address
    then (record counted { current_address = pt.address }, false)
    else if not (is_empty pt.address) && not (text_eq tr.spec.address pt.address)
    then (
      record counted {
        current_address = tr.spec.address;
        state = unknown;
        consecutive_success = pos 0;
        consecutive_failure = pos 0;
        detail = [];
      },
      true,
    )
    else (record counted { current_address = tr.spec.address }, false)

adopt_found : Option PersistedTransport → TransportRuntime → TransportRuntime × Bool
adopt_found none tr = (tr, false)
adopt_found (some pt) tr = adopt pt tr

-- The loop over the transports from index `i`; the flag says that the winner's address changed.
unfoldable pub adopt_all :
    List PersistedTransport → Option ℕ → ℕ → List TransportRuntime → List TransportRuntime × Bool
unfolding adopt_found
adopt_all saved winner i [] = ([], false)
adopt_all saved winner i (tr ∷ trs) =
    let (tr', changed) = adopt_found (find_saved tr.key saved) tr in
    let (trs', later) = adopt_all saved winner (suc i) trs in
    (tr' ∷ trs', (changed && is_index winner i) || later)

-- `expire_restored_last_known_good`.
unfoldable pub expire_restored : Group → ℤ → Group
expire_restored g now =
    if not (is_peer g.kind)
      || not (text_eq g.on_all_down on_all_down_last_known_good)
      || is_empty g.last_published_addr
      || is_fresh (staleness g.max_age_sec g.last_confirmed_at now)
    then g
    else record g { last_published_addr = []; winner = none }

-- The group's own fields, before its transports.
unfoldable pub adopt_group : PersistedGroup → Group → Group
adopt_group pg g = record g {
  winner =
      if is_empty pg.winner_id
      then none
      else position_from 0 (λ tr. text_eq tr.key pg.winner_id) g.transports;
  winner_since = pg.winner_since;
  last_confirmed_at = pg.confirmed_at;
  degraded = pg.degraded;
  last_published_addr = pg.last_published_address;
}

-- A publication without a winner is not carried over.
unfoldable pub drop_orphan : Group → Group
drop_orphan g =
    if not (is_some g.winner) && not (is_empty g.last_published_addr)
    then record g {
      winner_since = none;
      last_published_addr = [];
      last_confirmed_at = none;
      degraded = true;
    }
    else g

-- Nor is one of a winner whose configured address changed.
unfoldable pub drop_changed : Bool → Group → Group
drop_changed false g = g
drop_changed true g = record g {
  winner = none;
  winner_since = none;
  last_published_addr = [];
  last_confirmed_at = none;
  degraded = true;
}

-- `restore` for one group that the state file has.
unfoldable pub restore_group : PersistedGroup → ℤ → Group → Group
restore_group pg now g =
    let named = expire_restored (adopt_group pg g) now in
    let (transports, changed) = adopt_all pg.transports named.winner 0 named.transports in
    drop_changed changed (drop_orphan (record named { transports = transports }))

unfoldable pub find_group : Text → List (Text × PersistedGroup) → Option PersistedGroup
find_group name [] = none
find_group name ((n, pg) ∷ rest) = if text_eq n name then some pg else find_group name rest

unfoldable pub restore_found : Option PersistedGroup → ℤ → Group → Group
restore_found none now g = g
restore_found (some pg) now g = restore_group pg now g

unfoldable pub restore :
    List (Text × PersistedGroup) → ℤ → List (Text × Group) → List (Text × Group)
unfolding find_group restore_found
restore saved now = map (λ (name, g). (name, restore_found (find_group name saved) now g))

abbrev pub dump_transport : TransportRuntime → PersistedTransport
dump_transport tr = record {
  id = tr.key;
  state = as_str tr.state;
  consecutive_success = tr.consecutive_success;
  consecutive_failure = tr.consecutive_failure;
  address = tr.current_address;
  last_success_at = tr.last_success_at;
}

-- The key of the winner, empty without one; `none` where the pointer is out of range.
winner_key : Option ℕ → List TransportRuntime → Option Text
winner_key none trs = some []
winner_key (some w) trs = get_elem? trs w >>= λ tr. some tr.key

abbrev pub dumped : Text → Group → PersistedGroup
dumped winner_id g = record {
  winner_id = winner_id;
  winner_since = g.winner_since;
  confirmed_at = g.last_confirmed_at;
  degraded = g.degraded;
  last_published_address = g.last_published_addr;
  transports = map dump_transport g.transports;
}

-- One group of `dump`.
unfoldable pub dump_group : Group → Option PersistedGroup
unfolding winner_key
dump_group g = winner_key g.winner g.transports >>= λ winner_id. some (dumped winner_id g)

-- Stands for all that the definitions above compute with: a test unfolds this name.
unfoldable pub runs : Unit {0}
unfolding Decide.runs parse_state find_saved adopt adopt_all expire_restored adopt_group drop_orphan
    drop_changed restore_group restore dump_group as_str text_eq
runs = tt
