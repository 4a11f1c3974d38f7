-- ===== src/Bin/Nixnetctl.antt =====
-- src/bin/nixnetctl.rs: its command line, its text and its exit code. The file, the JSON text and the
-- parser of instants are arguments; what goes to standard error is left out.
pub mod Answer
use nixnet_corbet_ch.Base.{
  ℕ, Bool, true, false, not, ◌||◌, List, [], ◌∷◌, ◌++◌, Option, none, some, Result, ok, err,
  if◌then◌else◌, map,
}
use nixnet_corbet_ch.Base.Int.{ℤ}
use nixnet_corbet_ch.Base.Text.{Text, codes, is_empty}
use nixnet_corbet_ch.Base.Str.{trim, text_le, join}
use nixnet_corbet_ch.Base.Sort.{sort}
use nixnet_corbet_ch.Status.{Snapshot, StatusGroup, StatusTransport, is_healthy_at}
use nixnet_corbet_ch.Bin.{success, failure, is_any, starts_with, value_of, padded}

-- An argument that takes no other with it: a switch, `--help`, a flag with its value, or another.
parse_flag : Text → Bool → Text → (Text → Bool → Result ℕ (Text × Bool)) → Result ℕ (Text × Bool)
parse_flag status_path as_json arg rest =
    if is_any arg (codes "-json") (codes "--json")
    then rest status_path true
    else if is_any arg (codes "-h") (codes "--help")
    then err success
    else if starts_with (codes "-status-file=") arg || starts_with (codes "--status-file=") arg
    then rest (value_of arg) as_json
    else err 2

unfoldable pub parse_args_from : Text → Bool → List Text → Result ℕ (Text × Bool)
unfolding parse_flag
parse_args_from status_path as_json [] = ok (status_path, as_json)
parse_args_from status_path as_json (arg ∷ []) =
    if is_any arg (codes "-status-file") (codes "--status-file")
    then err 2
    else parse_flag status_path as_json arg λ p j. ok (p, j)
parse_args_from status_path as_json (arg ∷ v ∷ args) =
    let valued = parse_args_from v as_json args in
    let flag = parse_flag status_path as_json arg λ p j. parse_args_from p j (v ∷ args) in
    if is_any arg (codes "-status-file") (codes "--status-file") then valued else flag

unfoldable pub parse_args : List Text → Result ℕ (Text × Bool)
parse_args args = parse_args_from (codes "/run/nixnet/status.json") false args

abbrev or_dash : Text → Text
or_dash s = if is_empty (trim s) then codes "-" else s

transport_line : Text × StatusTransport → Text
transport_line (t, tr) =
    codes "      "
    ++ (padded 30 t ++ (codes " " ++ (padded 8 tr.state ++ (codes " " ++ tr.detail))))

error_lines : Text → Text → List Text
error_lines label error = if is_empty error then [] else (label ++ error) ∷ []

group_lines : Text × StatusGroup → List Text
unfolding transport_line error_lines
group_lines (name, g) =
    (codes "  "
        ++ (padded 20 name
            ++ (codes " winner="
                ++ (padded 16 (if is_empty g.winner then codes "(none)" else g.winner)
                    ++ (codes " since="
                        ++ (or_dash g.since
                            ++ (if g.degraded then codes "  [DEGRADED]" else [])))))))
      ∷ error_lines (codes "      publication error: ") g.last_publish_error
    ++ map transport_line (sort (λ a b. text_le a.0 b.0) g.transports)

all_group_lines : List (Text × StatusGroup) → List Text
unfolding group_lines
all_group_lines [] = []
all_group_lines (g ∷ gs) = group_lines g ++ all_group_lines gs

unfoldable pub print_groups : Text → List (Text × StatusGroup) → List Text
unfolding all_group_lines
print_groups label [] = []
print_groups label (g ∷ gs) =
    [] ∷ (label ++ codes ":") ∷ all_group_lines (sort (λ a b. text_le a.0 b.0) (g ∷ gs))

abbrev code_of : Bool → ℕ
code_of true = success
code_of false = failure

-- The exit code, and the lines on standard output.
abbrev pub Exit : Type 0
Exit = ℕ × List Text

module _ (read : Text → Result Text Snapshot) (to_string_pretty : Snapshot → Result Text Text)
    (parse : Text → Option ℤ) (now : ℤ) where
  json_answer : Bool → Result Text Text → Exit
  json_answer healthy (ok s) = (code_of healthy, s ∷ [])
  json_answer healthy (err e) = (failure, [])

  text_answer : Bool → Snapshot → Exit
  unfolding error_lines
  text_answer healthy snap = (
    code_of healthy,
    (codes "nixnet status as of " ++ snap.generated_at)
          ∷ error_lines (codes "hosts publication error: ") snap.last_hosts_publish_error
        ++ print_groups (codes "peers") snap.peers
        ++ print_groups (codes "uplinks") snap.uplinks,
  )

  answer : Bool → Result Text Snapshot → Exit
  unfolding json_answer text_answer
  answer as_json (err e) = (failure, [])
  answer as_json (ok snap) =
      let healthy = is_healthy_at parse snap now in
      if as_json then json_answer healthy (to_string_pretty snap) else text_answer healthy snap

  started : Result ℕ (Text × Bool) → Exit
  unfolding answer
  started (err code) = (code, [])
  started (ok (status_path, as_json)) = answer as_json (read status_path)

  unfoldable pub main : List Text → Exit
  unfolding started
  main args = started (parse_args args)
