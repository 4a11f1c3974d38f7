-- ===== src/Probe/Icmp/Reply.antt =====
-- Which datagrams answer a probe, and what the receive loop concludes.
use nixnet_corbet_ch.Base.{
  ℕ, suc, ◌+◌, ◌*◌, ◌/◌, ◌%◌, ◌≤◌, ◌<◌, ◌≡◌, refl, ◌∙◌, ◌↔◌, true, false, Bool-cases, inl, inr,
  List, [], ◌∷◌, ◌++◌, ◌&&◌, arith, length, length-append, In, here, there, none, some, drop, ltb,
  Option-cases, &&-true, All, Option, get_elem?, some_inj, false≢true,
}
use nixnet_corbet_ch.Base.Text.{Text, text_eq, text_eq_iff}
use nixnet_corbet_ch.Probe.{ProbeResult}
use nixnet_corbet_ch.Probe.Icmp.{
  icmp_message, is_our_echo_reply, matches_echo, remaining_budget, Receipt, Listening,
  timeout_refused, no_reply, datagram, received, await_round, unhealthy, await_reply,
}

-- An ICMP message of eight header bytes.
abbrev pub message : ℕ → ℕ → ℕ → ℕ → ℕ → ℕ → List ℕ → List ℕ
message kind code c1 c2 id seq rest =
    kind ∷ code ∷ c1 ∷ c2 ∷ id / 256 ∷ id % 256 ∷ seq / 256 ∷ seq % 256 ∷ rest

-- An IPv4 header whose IHL field tells its own length.
abbrev pub IsHeader : List ℕ → Type 0
IsHeader [] = ⊥
IsHeader (first ∷ rest) = first % 16 * 4 ≡ suc (length rest)

drop-append : (xs ys : List ℕ) → drop (length xs) (xs ++ ys) ≡ ys
drop-append [] ys = refl
drop-append (x ∷ xs) ys = drop-append xs ys

not_below : (m n : ℕ) → n ≤ m → ltb m n ≡ false
not_below m n h = ground arith

icmp_message-append :
    (header icmp : List ℕ)
    → IsHeader header
    → 8 ≤ length icmp
    → icmp_message (header ++ icmp) ≡ some icmp
unfolding icmp_message
icmp_message-append [] icmp h long = absurd h
icmp_message-append (first ∷ rest) icmp h long =
    let fits : ltb (length ((first ∷ rest) ++ icmp)) (first % 16 * 4) ≡ false =
      not_below _ _ (omega (arith, length-append rest icmp, h)) in
    let whole : ltb (length icmp) 8 ≡ false = not_below _ _ (omega arith) in
    rw fits (rw h (rw (drop-append rest icmp) (rw whole)))

-- A datagram with a well-formed IPv4 header and an ICMP message of a whole header answers a probe
-- exactly when it is an echo reply of code 0 that carries the probe's identifier and sequence
-- number: no other ICMP traffic passes for the answer.
pub is_our_echo_reply-message :
    (header rest : List ℕ) (kind code c1 c2 id' seq' id seq : ℕ)
    → IsHeader header
    → (is_our_echo_reply (header ++ message kind code c1 c2 id' seq' rest) id seq ≡ true)
      ↔ ((kind ≡ 0) × (code ≡ 0) × (id' ≡ id) × (seq' ≡ seq))
unfolding is_our_echo_reply
is_our_echo_reply-message header rest kind code c1 c2 id' seq' id seq h =
    rw
      (
        icmp_message-append header (message kind code c1 c2 id' seq' rest) h (omega arith),
        is_our_echo_reply,
      )
      (λ t. ground arith, λ e. ground arith)

-- A datagram whose message, behind the IPv4 header of the length that its first byte tells, is an echo
-- reply of code 0 with this identifier and sequence number.
pub record IsReply (id seq : ℕ) (bytes : List ℕ) : Type 0 where
  pub first : ℕ
  pub headed : get_elem? bytes 0 ≡ some first
  pub c1 : ℕ
  pub c2 : ℕ
  pub i1 : ℕ
  pub i2 : ℕ
  pub s1 : ℕ
  pub s2 : ℕ
  pub rest : List ℕ
  pub message_of : drop (first % 16 * 4) bytes ≡ 0 ∷ 0 ∷ c1 ∷ c2 ∷ i1 ∷ i2 ∷ s1 ∷ s2 ∷ rest
  pub identifier : i1 * 256 + i2 ≡ id
  pub sequence : s1 * 256 + s2 ≡ seq

icmp_message-some :
    (bytes icmp : List ℕ)
    → icmp_message bytes ≡ some icmp
    → (first : ℕ) × (get_elem? bytes 0 ≡ some first) × (drop (first % 16 * 4) bytes ≡ icmp)
unfolding icmp_message
icmp_message-some [] icmp h = absurd (cc h)
icmp_message-some (first ∷ rest) icmp h =
    let bytes = first ∷ rest in
    elim (Bool-cases (ltb (length bytes) (first % 16 * 4))) [
      | inl short ↦ absurd (cc (rw short at h))
      | inr fits ↦ elim (Bool-cases (ltb (length (drop (first % 16 * 4) bytes)) 8)) [
        | inl cut ↦ absurd (cc (rw (fits, cut) at h))
        | inr whole ↦ (first, refl, some_inj (rw (fits, whole) at h))
      ]
    ]

matches_echo-true :
    (bytes icmp : List ℕ) (first id seq : ℕ)
    → get_elem? bytes 0 ≡ some first
    → drop (first % 16 * 4) bytes ≡ icmp
    → matches_echo id seq icmp ≡ true
    → IsReply id seq bytes
unfolding matches_echo
matches_echo-true bytes (kind ∷ code ∷ c1 ∷ c2 ∷ i1 ∷ i2 ∷ s1 ∷ s2 ∷ rest) first id seq at e h =
    let (k, c, i, s) : (kind ≡ 0) × (code ≡ 0) × (i1 * 256 + i2 ≡ id) × (s1 * 256 + s2 ≡ seq) =
      ground arith in
    record {
      first = first;
      headed = at;
      c1 = c1;
      c2 = c2;
      i1 = i1;
      i2 = i2;
      s1 = s1;
      s2 = s2;
      rest = rest;
      message_of = e ∙ rw (k, c) refl;
      identifier = i;
      sequence = s;
    }
matches_echo-true bytes _ first id seq at e h = absurd (false≢true h)

is_our_echo_reply-IsReply :
    (bytes : List ℕ) (id seq : ℕ) → is_our_echo_reply bytes id seq ≡ true → IsReply id seq bytes
unfolding is_our_echo_reply
is_our_echo_reply-IsReply bytes id seq h = elim (Option-cases (icmp_message bytes)) [
  | inl e ↦ absurd (false≢true (rw (e, is_our_echo_reply) at h))
  | inr (icmp, e) ↦
      let (first, at, of_it) = icmp_message-some bytes icmp e in
      matches_echo-true bytes icmp first id seq at of_it (rw (e, is_our_echo_reply) at h)
]

-- Under a read timeout the socket gives a datagram no later than that behind the head of the round.
abbrev pub IsTimely : Listening → Type 0
IsTimely round =
    (limit arrived : ℕ) (from_ip : Option Text) (bytes : List ℕ)
    → round.1 limit ≡ datagram arrived from_ip bytes
    → arrived ≤ round.0 + limit

-- A datagram of the target that answers the probe and came within the budget.
pub data Answered (timeout : ℕ) (dst : Text) (id seq : ℕ) (round : Listening) : Type 0 where
  answered :
      (ip : Text) (bytes : List ℕ) (limit arrived : ℕ)
      → round.1 limit ≡ datagram arrived (some ip) bytes
      → ip ≡ dst
      → IsReply id seq bytes
      → arrived ≤ timeout
      → Answered timeout dst id seq round

budget_left :
    (timeout elapsed left : ℕ)
    → remaining_budget timeout elapsed ≡ some left
    → elapsed + left ≤ timeout
unfolding remaining_budget
budget_left timeout elapsed left h = ground arith

budget_spent :
    (timeout elapsed : ℕ) → timeout < elapsed + 1000 → remaining_budget timeout elapsed ≡ none
unfolding remaining_budget
budget_spent timeout elapsed h = ground arith

module _ (timeout : ℕ) (expired : Text) (dst : Text) (id seq : ℕ) where
  received-true :
      (receipt : Receipt) (res : ProbeResult)
      → received timeout expired dst id seq receipt ≡ some res
      → res.healthy ≡ true
      → (ip : Text) × (bytes : List ℕ) × (arrived : ℕ) × (receipt
          ≡ datagram arrived (some ip) bytes)
        × (ip ≡ dst)
        × (is_our_echo_reply bytes id seq ≡ true)
  unfolding received unhealthy
  received-true (timeout_refused e) res done healthy = absurd (ground arith)
  received-true (no_reply e) res done healthy = absurd (ground arith)
  received-true (datagram arrived none bytes) res done healthy = absurd (ground arith)
  received-true (datagram arrived (some ip) bytes) res done healthy =
      elim (Bool-cases (text_eq ip dst && is_our_echo_reply bytes id seq)) [
        | inl accepted ↦
            let (same, ours) = &&-true _ _ accepted in
            (ip, bytes, arrived, refl, (text_eq_iff ip dst).0 same, ours)
        | inr other ↦ absurd (ground arith)
      ]

  await_round-Answered :
      (elapsed : ℕ) (listen : ℕ → Receipt) (res : ProbeResult)
      → IsTimely (elapsed, listen)
      → await_round timeout expired dst id seq elapsed listen ≡ some res
      → res.healthy ≡ true
      → Answered timeout dst id seq (elapsed, listen)
  unfolding await_round unhealthy
  await_round-Answered elapsed listen res timely done healthy =
      elim (Option-cases (remaining_budget timeout elapsed)) [
        | inl spent ↦ absurd (ground arith)
        | inr (left, within) ↦
            let (ip, bytes, arrived, e, same, ours) =
              received-true (listen left) res (rw (within, await_round) at done) healthy in
            let soon = timely left arrived (some ip) bytes e in
            let fits = budget_left timeout elapsed left within in
            answered ip bytes left arrived e same (is_our_echo_reply-IsReply bytes id seq ours)
              (omega arith)
      ]

  -- A probe reports a healthy target only on the strength of a datagram of that target that
  -- answers this very probe and came within its budget.
  pub await_reply-Answered :
      (rounds : List Listening) (res : ProbeResult)
      → All IsTimely rounds
      → await_reply timeout expired dst id seq rounds ≡ some res
      → res.healthy ≡ true
      → (round : Listening) × In round rounds × Answered timeout dst id seq round
  unfolding await_reply
  await_reply-Answered [] res timely done healthy = absurd (ground arith)
  await_reply-Answered ((elapsed, listen) ∷ rest) res timely done healthy =
      elim (Option-cases (await_round timeout expired dst id seq elapsed listen)) [
        | inl waits ↦
            let (round, m, a) =
              await_reply-Answered rest res timely.1 (rw (waits, await_reply) at done) healthy in
            (round, there m, a)
        | inr (result, ends) ↦ (
          (elapsed, listen),
          here,
          await_round-Answered elapsed listen res timely.0 (ends ∙ (rw (ends, await_reply) at done))
              healthy,
        )
      ]

  await_round_late :
      (elapsed : ℕ) (listen : ℕ → Receipt)
      → timeout < elapsed + 1000
      → await_round timeout expired dst id seq elapsed listen ≡ some (unhealthy expired)
  unfolding await_round
  await_round_late elapsed listen late = rw (budget_spent timeout elapsed late, await_round)

  -- The loop does not outlive its budget, whatever traffic keeps arriving: it has ended by the
  -- first round whose time leaves less than a microsecond of it.
  pub await_reply_ends :
      (before rest : List Listening) (elapsed : ℕ) (listen : ℕ → Receipt)
      → timeout < elapsed + 1000
      → (res : ProbeResult) × (await_reply timeout expired dst id seq
            (before ++ (elapsed, listen) ∷ rest)
          ≡ some res)
  unfolding await_reply
  await_reply_ends [] rest elapsed listen late =
      (unhealthy expired, rw (await_round_late elapsed listen late, await_reply))
  await_reply_ends ((t, r) ∷ before) rest elapsed listen late =
      elim (Option-cases (await_round timeout expired dst id seq t r)) [
        | inl waits ↦
            let (res, later) = await_reply_ends before rest elapsed listen late in
            (res, rw (waits, await_reply) later)
        | inr (result, ends) ↦ (result, rw (ends, await_reply))
      ]
