-- ===== src/Tests/Icmp.antt =====
-- An echo request, its reply, and somebody else's reply.
use nixnet_corbet_ch.Base.{
  ok, err, none, ◌+◌, ◌<◌, ◌%◌, ℕ, ◌≡◌, refl, ◌↔◌, ◌++◌, List, [], ◌∷◌, some, true, false, arith,
  leb, if◌then◌else◌, Bool-cases, inl, inr,
}
use nixnet_corbet_ch.Base.Text.{Text, codes}
use nixnet_corbet_ch.Base.Int.{pos}
use nixnet_corbet_ch.Base.Str
use nixnet_corbet_ch.Base.Net.{is_ipv4_addr}
use nixnet_corbet_ch.Config.{Transport, effective_target}
use nixnet_corbet_ch.Probe.{ProbeResult}
use nixnet_corbet_ch.Probe.Icmp.Run
use nixnet_corbet_ch.Probe.Icmp.Run.{Wire, icmp_run, resolve_ipv4}
use nixnet_corbet_ch.Probe.Icmp.Run.Healthy.{IsHeard, icmp_run-IsHeard}
use nixnet_corbet_ch.Tests.Fixtures.{spec}
use nixnet_corbet_ch.Probe.Icmp
use nixnet_corbet_ch.Probe.Icmp.{
  internet_checksum, build_echo_request, is_our_echo_reply, await_reply, Receipt, Listening,
  datagram, no_reply,
}
use nixnet_corbet_ch.Probe.Icmp.Checksum.{words, internet_checksum-build_echo_request}
use nixnet_corbet_ch.Probe.Icmp.Reply.{
  message, IsTimely, is_our_echo_reply-message, await_reply_ends,
}

abbrev header : List ℕ
header = 69 ∷ 0 ∷ 0 ∷ 0 ∷ 0 ∷ 0 ∷ 0 ∷ 0 ∷ 64 ∷ 1 ∷ 0 ∷ 0 ∷ 192 ∷ 0 ∷ 2 ∷ 10 ∷ 192 ∷ 0 ∷ 2 ∷ 1 ∷ []

abbrev reply_to : ℕ → List ℕ
reply_to seq = header ++ message 0 0 1 2 4660 seq (110 ∷ 105 ∷ 120 ∷ [])

own_reply : is_our_echo_reply (reply_to 7) 4660 7 ≡ true
unfolding Icmp.runs
own_reply = refl

other_reply : is_our_echo_reply (reply_to 8) 4660 7 ≡ false
unfolding Icmp.runs
other_reply = refl

short_datagram : is_our_echo_reply (69 ∷ 0 ∷ []) 4660 7 ≡ false
unfolding Icmp.runs
short_datagram = refl

packet : build_echo_request 4660 7 (255 ∷ []) ≡ 8 ∷ 0 ∷ 230 ∷ 195 ∷ 18 ∷ 52 ∷ 0 ∷ 7 ∷ 255 ∷ []
unfolding Icmp.runs
packet = refl

internet_checksum-build_echo_request_example :
    (0 < words (build_echo_request 4660 7 (255 ∷ [])))
    × (words (build_echo_request 4660 7 (255 ∷ [])) % 65535 ≡ 0)
    × (internet_checksum (build_echo_request 4660 7 (255 ∷ [])) ≡ 0)
internet_checksum-build_echo_request_example =
    internet_checksum-build_echo_request 4660 7 (255 ∷ []) (omega arith) (omega arith)
      (omega arith, tt) (omega arith)

is_our_echo_reply-message_example :
    (is_our_echo_reply (reply_to 7) 4660 7 ≡ true)
    ↔ (◌≡◌ {A = ℕ} 0 0 × ◌≡◌ {A = ℕ} 0 0 × ◌≡◌ {A = ℕ} 4660 4660 × ◌≡◌ {A = ℕ} 7 7)
is_our_echo_reply-message_example =
    is_our_echo_reply-message header (110 ∷ 105 ∷ 120 ∷ []) 0 0 1 2 4660 7 4660 7 refl

abbrev target : Text
target = codes "192.0.2.10"

-- A datagram that takes a millisecond, or the socket's timeout.
abbrev soon : ℕ → List ℕ → ℕ → Receipt
soon elapsed bytes limit =
    if leb 1000000 limit
    then datagram (elapsed + 1000000) (some target) bytes
    else no_reply (codes "timed out")

soon-IsTimely : (elapsed : ℕ) (bytes : List ℕ) → IsTimely (elapsed, soon elapsed bytes)
soon-IsTimely elapsed bytes limit arrived from_ip got came = elim (Bool-cases (leb 1000000 limit)) [
  | inl within ↦ ground arith
  | inr early ↦ ground arith
]

-- A late reply to the previous probe, then the reply.
abbrev rounds : List Listening
rounds = (0, soon 0 (reply_to 6)) ∷ (2000000, soon 2000000 (reply_to 7)) ∷ []

abbrev healthy : ProbeResult
healthy = record { healthy = true; address = []; detail = codes "icmp echo reply" }

answered_round : await_reply 800000000 (codes "no reply") target 4660 7 rounds ≡ some healthy
unfolding Icmp.runs
answered_round = refl

-- The same from the target's name on.
abbrev wire : Wire
wire = record {
  to_socket_addrs = λ name. ok (none ∷ some target ∷ []);
  socket = ok tt;
  bind_to_device = λ interface. err (codes "EPERM");
  nanos = 65536 + 4660;
  pid = 65536;
  send_to = λ packet dst. ok tt;
  rounds = rounds;
}

abbrev by_its_name : Transport
by_its_name = spec (pos 10) (codes "host-b") []

heard : icmp_run wire by_its_name 800 7 ≡ ok (some healthy)
unfolding Icmp.runs Run.runs is_ipv4_addr Str.runs effective_target
heard = refl

icmp_run-IsHeard_example :
    (dst : Text) × (resolve_ipv4 wire.to_socket_addrs (effective_target by_its_name) ≡ ok dst)
    × IsHeard wire by_its_name 800 7 dst
icmp_run-IsHeard_example =
    icmp_run-IsHeard wire by_its_name 800 7
      (soon-IsTimely 0 (reply_to 6), (soon-IsTimely 2000000 (reply_to 7), tt)) healthy heard refl

await_reply_ends_example :
    (res : ProbeResult) × (await_reply 800000000
        (codes "no reply")
        target
        4660
        7
        (rounds ++ (799999500, λ limit. no_reply (codes "timed out")) ∷ [])
      ≡ some res)
await_reply_ends_example =
    await_reply_ends 800000000 (codes "no reply") target 4660 7 rounds [] 799999500
      (λ limit. no_reply (codes "timed out")) (omega arith)
