-- ===== src/Probe/Icmp/Checksum.antt =====
-- The RFC 1071 checksum of an echo request verifies.
use nixnet_corbet_ch.Base.{
  ℕ, ◌+◌, ◌-◌, ◌*◌, ◌/◌, ◌%◌, ◌^◌, ◌≤◌, ◌<◌, ◌≡◌, ◌∙◌, List, [], ◌∷◌, arith, length, All, set,
}
use nixnet_corbet_ch.Probe.Icmp.{
  from_be_bytes, sum_words, fold_carry, internet_checksum, echo_header, build_echo_request,
}

-- The sum of the 16-bit words as a number; an odd last byte is the high byte of a word.
unfoldable pub words : List ℕ → ℕ
words [] = 0
words (last ∷ []) = last * 256
words (a ∷ b ∷ rest) = from_be_bytes a b + words rest

abbrev pub AllBytes : List ℕ → Type 0
AllBytes = All (λ b. b < 256)

words_bound : (bytes : List ℕ) → AllBytes bytes → words bytes ≤ 65535 * length bytes
unfolding words
words_bound [] h = omega arith
words_bound (last ∷ []) h = omega arith
words_bound (a ∷ b ∷ rest) h = omega (arith, words_bound rest h.1.1)

sum_words-words :
    (sum : ℕ) (bytes : List ℕ)
    → sum + words bytes < 2 ^ 32
    → sum_words sum bytes ≡ sum + words bytes
unfolding sum_words words
sum_words-words sum [] h = omega arith
sum_words-words sum (last ∷ []) h = omega arith
sum_words-words sum (a ∷ b ∷ rest) h =
    let small : (sum + from_be_bytes a b) % 2 ^ 32 ≡ sum + from_be_bytes a b = omega arith in
    rw small (sum_words-words (sum + from_be_bytes a b) rest (omega arith) ∙ omega arith)

-- One round of folding keeps the residue, and three suffice.
fold_carry_lem : (n : ℕ) → 0 < n → n < 2 ^ 32 → fold_carry 3 n ≡ (n - 1) % 65535 + 1
unfolding fold_carry
fold_carry_lem n pos_n h = ground arith

-- The words of a packet with the checksum field at `c`.
packet_words : ℕ → ℕ → ℕ → List ℕ → ℕ
packet_words c id seq payload = 2048 + c + id + seq + words payload

header_words :
    (c id seq : ℕ) (payload : List ℕ)
    → words (set (set (echo_header id seq payload) 2 (c / 256)) 3 (c % 256))
      ≡ packet_words c id seq payload
unfolding echo_header words packet_words
header_words c id seq payload = omega arith

plain_words :
    (id seq : ℕ) (payload : List ℕ)
    → words (echo_header id seq payload) ≡ packet_words 0 id seq payload
unfolding echo_header words packet_words
plain_words id seq payload = omega arith

checksum_of_words :
    (bytes : List ℕ)
    → 0 < words bytes
    → words bytes < 2 ^ 32
    → internet_checksum bytes ≡ 65534 - (words bytes - 1) % 65535
unfolding internet_checksum
checksum_of_words bytes some_words fits =
    let total : sum_words 0 bytes ≡ words bytes =
      sum_words-words 0 bytes (omega arith) ∙ omega arith in
    rw total (rw (fold_carry_lem (words bytes) some_words fits) (omega arith))

-- The words of a finished echo request, a last byte alone filled up with 0, add up to a positive
-- multiple of 65535, so that the checksum it carries verifies as RFC 1071 has it, and the sum that
-- `internet_checksum` forms of it is 0; for every identifier, sequence number and payload of bytes
-- below 60000 in length.
pub internet_checksum-build_echo_request :
    (id seq : ℕ) (payload : List ℕ)
    → id < 2 ^ 16
    → seq < 2 ^ 16
    → AllBytes payload
    → length payload < 60000
    → (0 < words (build_echo_request id seq payload))
      × (words (build_echo_request id seq payload) % 65535 ≡ 0)
      × (internet_checksum (build_echo_request id seq payload) ≡ 0)
unfolding build_echo_request packet_words
internet_checksum-build_echo_request id seq payload hi hs bytes short =
    let c = internet_checksum (echo_header id seq payload) in
    let bound = words_bound payload bytes in
    let plain = plain_words id seq payload in
    let full = header_words c id seq payload in
    let sum = checksum_of_words (echo_header id seq payload) (omega arith) (omega arith) in
    (
      omega arith,
      omega arith,
      checksum_of_words (set (set (echo_header id seq payload) 2 (c / 256)) 3 (c % 256))
            (omega arith) (omega arith)
          ∙ omega arith,
    )
