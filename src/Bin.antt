-- ===== src/Bin.antt =====
-- src/bin: the command lines of the two programs, and the answer of `nixnetctl`.
pub mod Nixnetctl
pub mod Nixnetd
use nixnet_corbet_ch.Base.{
  ℕ, ◌-◌, Bool, ◌||◌, List, [], ◌∷◌, ◌++◌, Option, none, some, if◌then◌else◌, length, is_some, zero,
  suc,
}
use nixnet_corbet_ch.Base.Text.{Text, codes, text_eq, strip_prefix}
use nixnet_corbet_ch.Base.Parse.{split_once}

-- An exit code of a process.
abbrev pub success : ℕ
success = 0

abbrev pub failure : ℕ
failure = 1

abbrev pub is_any : Text → Text → Text → Bool
is_any s a b = text_eq s a || text_eq s b

abbrev pub starts_with : Text → Text → Bool
starts_with prefix s = is_some (strip_prefix prefix s)

-- What stands behind the first `=`.
abbrev value_in : Option (Text × Text) → Text
value_in none = []
value_in (some (before, v)) = v

abbrev pub value_of : Text → Text
value_of s = value_in (split_once 61 s)

-- `{:<n}`.
unfoldable pub blanks : ℕ → Text
blanks zero = []
blanks (suc n) = 32 ∷ blanks n

abbrev pub padded : ℕ → Text → Text
padded n s = s ++ blanks (n - length s)
