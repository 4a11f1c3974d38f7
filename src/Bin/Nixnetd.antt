-- ===== src/Bin/Nixnetd.antt =====
-- `parse_args` of src/bin/nixnetd.rs.
use nixnet_corbet_ch.Base.{ℕ, ◌||◌, List, [], ◌∷◌, Result, ok, err, if◌then◌else◌}
use nixnet_corbet_ch.Base.Text.{Text, codes}
use nixnet_corbet_ch.Bin.{success, is_any, starts_with, value_of}

-- A flag that takes the next argument, `--help`, one with its value, or an unknown one.
parse_flag : Text → Text → (Text → Result ℕ Text) → Result ℕ Text
parse_flag config_path arg rest =
    if is_any arg (codes "-h") (codes "--help")
    then err success
    else if starts_with (codes "-config=") arg || starts_with (codes "--config=") arg
    then rest (value_of arg)
    else err 2

-- The loop, with the path so far.
unfoldable pub parse_args_from : Text → List Text → Result ℕ Text
unfolding parse_flag
parse_args_from config_path [] = ok config_path
parse_args_from config_path (arg ∷ []) =
    if is_any arg (codes "-config") (codes "--config")
    then err 2
    else parse_flag config_path arg λ v. ok v
parse_args_from config_path (arg ∷ v ∷ args) =
    let valued = parse_args_from v args in
    let flag = parse_flag config_path arg λ u. parse_args_from u (v ∷ args) in
    if is_any arg (codes "-config") (codes "--config") then valued else flag

unfoldable pub parse_args : List Text → Result ℕ Text
parse_args args = parse_args_from (codes "/etc/nixnet/config.json") args
