-- ===== src/Publish/Hosts/Parse.antt =====
-- `parse_nix_hosts` of src/publish/hosts.rs: the entries of the managed block, read back.
pub mod Words
pub mod Back
pub mod Prefix
pub mod RoundTrip
use nixnet_corbet_ch.Base.{
  ℕ, Bool, true, false, ◌||◌, not, List, [], ◌∷◌, ◌++◌, Option, none, some, if◌then◌else◌, map,
  is_some,
}
use nixnet_corbet_ch.Base.Text.{Text, codes, is_empty, text_eq, strip_prefix}
use nixnet_corbet_ch.Base.Str.{is_whitespace, trim, split_inclusive, strip_line_end}
use nixnet_corbet_ch.Base.Parse.{split_once, split_whitespace}
use nixnet_corbet_ch.Engine.Status.{Entry}
use nixnet_corbet_ch.Publish.Hosts.{begin_marker, end_marker}

abbrev pub lines : Text → List Text
lines s = map strip_line_end (split_inclusive s)

abbrev both : Text → Option Text → Option (Text × Text)
both address none = none
both address (some ts) = if is_empty address || is_empty ts then none else some (address, ts)

abbrev confirmed_parts : Option (Text × Text) → Option (Text × Text)
confirmed_parts none = none
confirmed_parts (some (address, tail)) = both address (strip_prefix (codes "confirmed=") tail)

abbrev confirmed_rest : Option Text → Option (Text × Text)
confirmed_rest none = none
confirmed_rest (some rest) = confirmed_parts (split_once 32 rest)

unfoldable pub parse_confirmed_comment : Text → Option (Text × Text)
parse_confirmed_comment line = confirmed_rest (strip_prefix (codes "# nixnet ") line)

-- `in_block` and `pending_confirmed`.
pub record Scan : Type 0 where
  pub in_block : Bool
  pub pending_confirmed : Option (Text × Text)

abbrev confirmed_of : Text → Option (Text × Text) → Option Text
confirmed_of address none = none
confirmed_of address (some (addr, ts)) = if text_eq addr address then some ts else none

-- A line with its words: the entry it adds, and the state behind it.
abbrev scan_fields : Scan → List Text → List Entry × Scan
scan_fields s [] = ([], s)
scan_fields s (address ∷ []) = ([], s)
scan_fields s (address ∷ host ∷ hosts) = (
  record {
    address = address;
    hostnames = host ∷ hosts;
    confirmed_at = confirmed_of address s.pending_confirmed;
  }
      ∷ [],
  record s { pending_confirmed = none },
)

unfoldable pub scan_line : Scan → Text → List Entry × Scan
scan_line s line =
    let trimmed = trim line in
    if text_eq trimmed begin_marker
    then ([], record s { in_block = true })
    else if text_eq trimmed end_marker
    then ([], record s { in_block = false })
    else if not s.in_block
    then ([], s)
    else if is_some (strip_prefix (codes "#") trimmed)
    then ([], record s { pending_confirmed = parse_confirmed_comment trimmed })
    else scan_fields s (split_whitespace line)

unfoldable pub scan : Scan → List Text → List Entry
scan s [] = []
scan s (line ∷ rest) = let (added, s') = scan_line s line in added ++ scan s' rest

unfoldable pub parse_nix_hosts : Text → List Entry
parse_nix_hosts content =
    scan (record { in_block = false; pending_confirmed = none }) (lines content)

-- Stands for the definitions above: a test unfolds this name.
unfoldable pub runs : Unit {0}
unfolding parse_confirmed_comment scan_line scan parse_nix_hosts split_once split_whitespace
runs = tt
