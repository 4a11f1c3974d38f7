-- ===== src/Probe/Icmp.antt =====
-- src/probe/icmp.rs: the echo packet, the checksum, the match of replies, and the receive loop.
-- Bytes and u16 values are numbers; sockets, name resolution and clocks are the environment's.
pub mod Checksum
pub mod Reply
pub mod Run
use nixnet_corbet_ch.Base.{
  ℕ, zero, suc, ◌+◌, ◌-◌, ◌*◌, ◌/◌, ◌%◌, ◌^◌, Bool, true, false, not, ◌&&◌, List, [], ◌∷◌, ◌++◌,
  Option, none, some, ltb, leb, ◌==◌, if◌then◌else◌, length, drop, get_elem?, ◌>>=◌, set,
}
use nixnet_corbet_ch.Base.Text.{Text, codes, text_eq}
use nixnet_corbet_ch.Probe.{ProbeResult}

abbrev pub icmp_echo_request : ℕ
icmp_echo_request = 8

abbrev pub icmp_echo_reply : ℕ
icmp_echo_reply = 0

abbrev pub icmp_header_len : ℕ
icmp_header_len = 8

-- `u16::from_be_bytes` and `u16::to_be_bytes`.
abbrev pub from_be_bytes : ℕ → ℕ → ℕ
from_be_bytes hi lo = hi * 256 + lo

abbrev pub to_be_bytes : ℕ → List ℕ
to_be_bytes n = n / 256 ∷ n % 256 ∷ []

-- The sum over 16-bit words in a u32; an odd last byte is the high byte of a word.
unfoldable pub sum_words : ℕ → List ℕ → ℕ
sum_words sum [] = sum
sum_words sum (last ∷ []) = (sum + last * 256) % 2 ^ 32
sum_words sum (a ∷ b ∷ rest) = sum_words ((sum + from_be_bytes a b) % 2 ^ 32) rest

-- `while (sum >> 16) != 0`: a u32 needs three rounds at most.
unfoldable pub fold_carry : ℕ → ℕ → ℕ
fold_carry zero sum = sum
fold_carry (suc fuel) sum = elim (sum / 2 ^ 16 == 0) [
  | true ↦ sum
  | false ↦ fold_carry fuel (sum % 2 ^ 16 + sum / 2 ^ 16)
]

unfoldable pub internet_checksum : List ℕ → ℕ
internet_checksum bytes = 65535 - fold_carry 3 (sum_words 0 bytes)

unfoldable pub echo_header : ℕ → ℕ → List ℕ → List ℕ
echo_header id seq rest =
    icmp_echo_request ∷ 0 ∷ 0 ∷ 0 ∷ to_be_bytes id ++ (to_be_bytes seq ++ rest)

unfoldable pub build_echo_request : ℕ → ℕ → List ℕ → List ℕ
build_echo_request id seq payload =
    let buf = echo_header id seq payload in
    let sum = internet_checksum buf in set (set buf 2 (sum / 256)) 3 (sum % 256)

abbrev get_from : ℕ → List ℕ → Option (List ℕ)
get_from n bytes = if ltb (length bytes) n then none else some (drop n bytes)

-- The message behind the IPv4 header, whose length its first byte gives.
unfoldable pub icmp_message : List ℕ → Option (List ℕ)
icmp_message bytes = get_elem? bytes 0 >>= λ first. get_from (first % 16 * 4) bytes >>= λ icmp.
    if ltb (length icmp) icmp_header_len then none else some icmp

matches_echo : ℕ → ℕ → List ℕ → Bool
matches_echo id seq (kind ∷ code ∷ c1 ∷ c2 ∷ i1 ∷ i2 ∷ s1 ∷ s2 ∷ rest) =
    kind == icmp_echo_reply && code == 0 && from_be_bytes i1 i2 == id && from_be_bytes s1 s2 == seq
matches_echo id seq short = false

unfoldable pub is_our_echo_reply : List ℕ → ℕ → ℕ → Bool
unfolding matches_echo
is_our_echo_reply bytes id seq = elim (icmp_message bytes) [
  | none ↦ false
  | some icmp ↦ matches_echo id seq icmp
]

-- Durations are nanoseconds. Less than a microsecond counts as nothing left.
unfoldable pub remaining_budget : ℕ → ℕ → Option ℕ
remaining_budget total elapsed =
    if ltb total elapsed
    then none
    else (let left = total - elapsed in if ltb left 1000 then none else some left)

-- What a round of the receive loop gets of the socket: `set_read_timeout` or `recv_from` failed, or a
-- datagram came, at a time since the start.
pub data Receipt : Type 0 where
  timeout_refused : (message : Text) → Receipt
  no_reply : (message : Text) → Receipt
  datagram : (arrived : ℕ) → (from_ip : Option Text) → (bytes : List ℕ) → Receipt

abbrev from_target : Option Text → Text → Bool
from_target none dst = false
from_target (some ip) dst = text_eq ip dst

unfoldable pub unhealthy : Text → ProbeResult
unhealthy detail = record { healthy = false; address = []; detail = detail }

-- A round of the loop: the time elapsed at its head, and what the socket gives under a read timeout.
abbrev pub Listening : Type 0
Listening = ℕ × (ℕ → Receipt)

-- The loop of `run` over the rounds that the environment plays.
module _ (timeout : ℕ) (expired : Text) (dst : Text) (id seq : ℕ) where
  -- What `recv_from` and the read timeout lead to; `none` keeps waiting.
  unfoldable pub received : Receipt → Option ProbeResult
  unfolding unhealthy
  received (timeout_refused e) = some (unhealthy (codes "set read timeout: " ++ e))
  received (no_reply e) = some (unhealthy (codes "no reply: " ++ e))
  received (datagram arrived from_ip bytes) =
      if from_target from_ip dst && is_our_echo_reply bytes id seq
      then some (record { healthy = true; address = []; detail = codes "icmp echo reply" })
      else none

  -- The read timeout is what is left of the budget.
  unfoldable pub await_round : ℕ → (ℕ → Receipt) → Option ProbeResult
  unfolding unhealthy
  await_round elapsed listen = elim (remaining_budget timeout elapsed) [
    | none ↦ some (unhealthy expired)
    | some left ↦ received (listen left)
  ]

  -- `none` while every round played so far keeps waiting.
  unfoldable pub await_reply : List Listening → Option ProbeResult
  await_reply [] = none
  await_reply ((elapsed, listen) ∷ rest) =
      let later = await_reply rest in
      elim (await_round elapsed listen) [ none ↦ later | some result ↦ some result ]

-- Stands for all that the definitions above compute with: a test unfolds this name.
unfoldable pub runs : Unit {0}
unfolding sum_words fold_carry internet_checksum echo_header build_echo_request icmp_message
    is_our_echo_reply remaining_budget received await_round await_reply text_eq unhealthy
runs = tt
