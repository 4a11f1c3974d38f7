-- ===== src/Base/Net.antt =====
-- `str::parse::<std::net::IpAddr>()`: the address grammar of the Rust standard library. Each reader
-- takes a text and returns what is left behind the part it read, or `none` when it does not match.
use nixnet_corbet_ch.Base.Tests.{ltb, leb, ◌==◌, if◌then◌else◌, ◌>>=◌}
use nixnet_corbet_ch.Base.Lists.{length}
use nixnet_corbet_ch.Base.Text.{Text, codes, is_empty}
use Prim.Native.Nat.{ℕ, zero, suc, ◌+◌, ◌-◌, ◌*◌}
use mathlib.Core.Bool.{Bool, true, false, not, ◌&&◌, ◌||◌}
use mathlib.Core.Option.{Option, none, some}
use mathlib.Core.List.{[], ◌∷◌}
use mathlib.Core.Path.{◌≡◌, refl}

-- A digit in the given radix (10 or 16).
abbrev digit : ℕ → ℕ → Option ℕ
digit radix c =
    if leb b'0' c && leb c b'9'
    then some (c - 48)
    else if (radix == 16) && leb b'a' c && leb c b'f'
    then some (c - 87)
    else if (radix == 16) && leb b'A' c && leb c b'F'
    then some (c - 55)
    else none

-- All digits at the head: how many, their value, and the rest.
digits_of : ℕ → ℕ → ℕ → Text → ℕ × ℕ × Text
digits_of radix count value [] = (count, value, [])
digits_of radix count value (c ∷ cs) =
    let more = λ (d : ℕ). digits_of radix (count + 1) (value * radix + d) cs in
    elim (digit radix c) [ none ↦ (count, value, c ∷ cs) | some d ↦ more d ]

abbrev starts_zero : Text → Bool
starts_zero [] = false
starts_zero (c ∷ cs) = c == b'0'

-- `Parser::read_number`: at most `max_digits` digits and a value of at most `limit`.
read_number : ℕ → ℕ → ℕ → Bool → Text → Option Text
unfolding digits_of
read_number radix max_digits limit zero_prefix s =
    let (count, value, rest) = digits_of radix 0 0 s in
    if (count == 0)
      || ltb max_digits count
      || ltb limit value
      || (not zero_prefix && starts_zero s && ltb 1 count)
    then none
    else some rest

abbrev read_char : ℕ → Text → Option Text
read_char c [] = none
read_char c (d ∷ s) = if d == c then some s else none

-- `Parser::read_separator`: the separator stands in front of all but the first part.
abbrev after_separator : ℕ → Bool → Text → Option Text
after_separator c first s = if first then some s else read_char c s

abbrev read_octet : Bool → Text → Option Text
read_octet first s = after_separator b'.' first s >>= read_number 10 3 255 false

read_ipv4_addr : Text → Option Text
unfolding read_number
read_ipv4_addr s = do
  a ← read_octet true s
  b ← read_octet false a
  c ← read_octet false b
  read_octet false c

-- What `read_groups` read: how many groups, whether an IPv4 part ended them, and the rest.
record Groups : Type 0 where
  count : ℕ
  ipv4 : Bool
  rest : Text

-- `read_groups` with `left` slots left and `count` groups read; the IPv4 part takes two slots.
read_groups : ℕ → ℕ → Text → Groups
unfolding read_ipv4_addr
read_groups zero count s = record { count = count; ipv4 = false; rest = s }
read_groups (suc left) count s =
    let more = λ (r : Text). read_groups left (count + 1) r in
    let v4 : Option Text =
      if ltb 0 left then after_separator b':' (count == 0) s >>= read_ipv4_addr else none in
    let group : Option Text = after_separator b':' (count == 0) s >>= read_number 16 4 65535 true in
    elim v4 [
      | some r ↦ record { count = count + 2; ipv4 = true; rest = r }
      | none ↦ elim group [
        | some r ↦ more r
        | none ↦ record { count = count; ipv4 = false; rest = s }
      ]
    ]

read_ipv6_addr : Text → Option Text
unfolding read_groups
read_ipv6_addr s =
    let head = read_groups 8 0 s in
    if head.count == 8 then some head.rest else if head.ipv4 then none else do
      a ← read_char b':' head.rest
      b ← read_char b':' a
      some ((read_groups (7 - head.count) 0 b).rest)

abbrev read_all : Option Text → Bool
read_all none = false
read_all (some rest) = is_empty rest

abbrev or_else : Option Text → Option Text → Option Text
or_else none b = b
or_else (some a) b = some a

-- Whether the whole text is an IPv4 or IPv6 literal.
unfoldable pub is_ip_addr : Text → Bool
unfolding read_ipv4_addr read_ipv6_addr
is_ip_addr s = read_all (or_else (read_ipv4_addr s) (read_ipv6_addr s))

-- `str::parse::<Ipv4Addr>`.
unfoldable pub is_ipv4_addr : Text → Bool
unfolding read_ipv4_addr
is_ipv4_addr s = leb (length s) 15 && read_all (read_ipv4_addr s)

addresses_pass :
    (is_ip_addr (codes "192.0.2.10") ≡ true)
    × (is_ip_addr (codes "2001:db8::1") ≡ true)
    × (is_ip_addr (codes "::") ≡ true)
    × (is_ip_addr (codes "1:2:3:4:5:6:7:8") ≡ true)
    × (is_ip_addr (codes "::ffff:192.0.2.10") ≡ true)
unfolding is_ip_addr
addresses_pass = (refl, refl, refl, refl, refl)

addresses_fail :
    (is_ip_addr (codes "192.0.2.256") ≡ false)
    × (is_ip_addr (codes "192.0.02.1") ≡ false)
    × (is_ip_addr (codes "1:2:3:4:5:6:7:8:9") ≡ false)
    × (is_ip_addr (codes "host-b") ≡ false)
    × (is_ip_addr (codes "fe80::1%eth0") ≡ false)
    × (is_ip_addr (codes "1.2.3.4::") ≡ false)
unfolding is_ip_addr
addresses_fail = (refl, refl, refl, refl, refl, refl)
