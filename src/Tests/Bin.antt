-- ===== src/Tests/Bin.antt =====
-- Command lines, and `nixnetctl` on a green snapshot.
use nixnet_corbet_ch.Base.{◌≡◌, refl, ap, true, List, [], ◌∷◌, some, Result, ok, err, All, ℕ}
use nixnet_corbet_ch.Base.Int.{ℤ, pos, ◌≤ℤ◌}
use nixnet_corbet_ch.Base.Text.{Text, codes, strip_prefix}
use nixnet_corbet_ch.Base.Str
use nixnet_corbet_ch.Base.Parse.{split_once}
use nixnet_corbet_ch.Status.{Snapshot}
use nixnet_corbet_ch.Engine.Status
use nixnet_corbet_ch.Engine.Status.{snapshot}
use nixnet_corbet_ch.Engine.Status.Health.{IsGreen}
use nixnet_corbet_ch.Bin.Nixnetctl.{parse_args, parse_args_from, main}
use nixnet_corbet_ch.Bin.Nixnetctl.Answer.{main-IsGreen}
use nixnet_corbet_ch.Bin.Nixnetd
use nixnet_corbet_ch.Tests.Status.{state, format, parse}

abbrev green : Snapshot
green = snapshot format [] (codes "2026-01-01T00:01:00Z") state

abbrev read : Text → Result Text Snapshot
read path = ok green

abbrev to_json : Snapshot → Result Text Text
to_json snap = ok (codes "{}")

abbrev command : List Text
command = codes "--json" ∷ codes "-status-file=/tmp/s=1" ∷ []

parsed_command : parse_args command ≡ ok (codes "/tmp/s=1", true)
unfolding parse_args parse_args_from Str.runs strip_prefix split_once
parsed_command = refl

without_value : parse_args (codes "-json" ∷ codes "-status-file" ∷ []) ≡ err 2
unfolding parse_args parse_args_from Str.runs strip_prefix split_once
without_value = refl

daemon_command : Nixnetd.parse_args (codes "-config" ∷ codes "-h" ∷ []) ≡ ok (codes "-h")
unfolding Nixnetd.parse_args Nixnetd.parse_args_from Str.runs strip_prefix split_once
daemon_command = refl

says_green : main read to_json parse (pos 900) command ≡ (0, codes "{}" ∷ [])
unfolding main parse_args parse_args_from Str.runs strip_prefix split_once Status.runs
says_green = refl

main-IsGreen_example :
    ((deadline : ℤ) × (parse (codes "2026-01-01T00:01:00Z") ≡ some deadline)
      × (pos 900 ≤ℤ deadline))
    × (state.last_hosts_error ≡ [])
    × All (λ g. IsGreen g.1) state.peers
    × All (λ g. IsGreen g.1) state.uplinks
main-IsGreen_example =
    main-IsGreen format read to_json parse (pos 900) command (codes "/tmp/s=1") true []
      (codes "2026-01-01T00:01:00Z") state parsed_command refl
      (ap (λ (q : ℕ × List Text). q.0) says_green)
