-- ===== src/Base/Utf8.antt =====
-- `String::from_utf8` of what `as_bytes` gives.
use Prim.Native.Nat.{ℕ, zero, suc, ◌+◌, ◌-◌, ◌*◌, ◌/◌, ◌%◌}
use mathlib.Core.Path.{◌≡◌, refl, ap, ◌∙◌}
use mathlib.Core.Bool.{true, false}
use mathlib.Core.Logic.{inl, inr}
use mathlib.Core.List.{List, [], ◌∷◌, ◌++◌}
use native.Mathlib.Omega.{arith}
use nixnet_corbet_ch.Base.Tests.{ltb, if◌then◌else◌, Bool-cases}
use nixnet_corbet_ch.Base.Text.{Text}
use nixnet_corbet_ch.Base.Str.{as_bytes, utf8_char}

-- `more` bytes of a code point are still to come.
unfoldable pub decode_from : (more read : ℕ) → List ℕ → Text
decode_from more read [] = []
decode_from zero read (b ∷ bs) =
    let one = decode_from 0 0 bs in
    let two = decode_from 1 (b - 192) bs in
    let three = decode_from 2 (b - 224) bs in
    let four = decode_from 3 (b - 240) bs in
    if ltb b 128 then b ∷ one else if ltb b 224 then two else if ltb b 240 then three else four
decode_from (suc zero) read (b ∷ bs) = (read * 64 + (b - 128)) ∷ decode_from 0 0 bs
decode_from (suc (suc more)) read (b ∷ bs) = decode_from (suc more) (read * 64 + (b - 128)) bs

abbrev pub from_utf8 : List ℕ → Text
from_utf8 bs = decode_from 0 0 bs

take_two :
    (b d : ℕ) (rest : List ℕ)
    → ltb b 128 ≡ false
    → ltb b 224 ≡ true
    → decode_from 0 0 (b ∷ d ∷ rest) ≡ ((b - 192) * 64 + (d - 128)) ∷ decode_from 0 0 rest
unfolding decode_from
take_two b d rest h₁ h₂ = rw (h₁, h₂, if◌then◌else◌) refl

take_three :
    (b d e : ℕ) (rest : List ℕ)
    → ltb b 128 ≡ false
    → ltb b 224 ≡ false
    → ltb b 240 ≡ true
    → decode_from 0 0 (b ∷ d ∷ e ∷ rest)
      ≡ (((b - 224) * 64 + (d - 128)) * 64 + (e - 128)) ∷ decode_from 0 0 rest
unfolding decode_from
take_three b d e rest h₁ h₂ h₃ = rw (h₁, h₂, h₃, if◌then◌else◌) refl

take_four :
    (b d e f : ℕ) (rest : List ℕ)
    → ltb b 128 ≡ false
    → ltb b 224 ≡ false
    → ltb b 240 ≡ false
    → decode_from 0 0 (b ∷ d ∷ e ∷ f ∷ rest)
      ≡ ((((b - 240) * 64 + (d - 128)) * 64 + (e - 128)) * 64 + (f - 128)) ∷ decode_from 0 0 rest
unfolding decode_from
take_four b d e f rest h₁ h₂ h₃ = rw (h₁, h₂, h₃, if◌then◌else◌) refl

decode-utf8_char :
    (c : ℕ) (rest : List ℕ) → decode_from 0 0 (utf8_char c ++ rest) ≡ c ∷ decode_from 0 0 rest
unfolding decode_from utf8_char
decode-utf8_char c rest = elim (Bool-cases (ltb c 128)) [
  | inl one ↦ rw (one, if◌then◌else◌) (rw (one, if◌then◌else◌) refl)
  | inr a ↦ elim (Bool-cases (ltb c 2048)) [
    | inl two ↦
        rw (a, two, if◌then◌else◌)
          (take_two (192 + c / 64) (128 + c % 64) rest (ground arith) (ground arith)
            ∙ ap (λ (x : ℕ). x ∷ decode_from 0 0 rest) (omega arith))
    | inr b ↦ elim (Bool-cases (ltb c 65536)) [
      | inl three ↦
          rw (a, b, three, if◌then◌else◌)
            (take_three (224 + c / 4096) (128 + c / 64 % 64) (128 + c % 64) rest (ground arith)
                (ground arith) (ground arith)
              ∙ ap (λ (x : ℕ). x ∷ decode_from 0 0 rest) (omega arith))
      | inr d ↦
          rw (a, b, d, if◌then◌else◌)
            (take_four (240 + c / 262144) (128 + c / 4096 % 64) (128 + c / 64 % 64) (128 + c % 64)
                rest (ground arith) (ground arith) (ground arith)
              ∙ ap (λ (x : ℕ). x ∷ decode_from 0 0 rest) (omega arith))
    ]
  ]
]

pub from_utf8-as_bytes : (s : Text) → from_utf8 (as_bytes s) ≡ s
unfolding as_bytes decode_from
from_utf8-as_bytes [] = refl
from_utf8-as_bytes (c ∷ cs) =
    decode-utf8_char c (as_bytes cs) ∙ ap (λ (t : Text). c ∷ t) (from_utf8-as_bytes cs)
