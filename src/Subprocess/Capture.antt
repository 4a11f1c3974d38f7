-- ===== src/Subprocess/Capture.antt =====
-- What src/subprocess.rs keeps of an output.
use nixnet_corbet_ch.Base.{
  ℕ, zero, suc, ◌-◌, ◌≤◌, ◌≡◌, ◌⊎◌, refl, sym, ap, ap₂, ◌∙◌, inl, inr, Bool, true, false, ◌||◌,
  List, [], ◌∷◌, ◌++◌, ltb, length, take, length-append, append_assoc, append_nil, arith,
}
use nixnet_corbet_ch.Subprocess.{
  Captured, max_output_bytes, Read, chunk, end_of_file, would_block, interrupted, failed, capture,
  drain_passes, drain, Pipe,
}

-- The bytes that the reads of a pass deliver.
unfoldable pub delivered : ℕ → List Read → List ℕ
delivered zero reads = []
delivered (suc passes) [] = []
delivered (suc passes) (chunk bytes ∷ reads) = bytes ++ delivered passes reads
delivered (suc passes) (end_of_file ∷ reads) = []
delivered (suc passes) (would_block ∷ reads) = []
delivered (suc passes) (interrupted ∷ reads) = delivered passes reads
delivered (suc passes) (failed ∷ reads) = []

-- The output as it is kept of all that was delivered: cut at the limit, and marked where it was.
abbrev pub kept : List ℕ → Captured
kept all = record {
  bytes = take max_output_bytes all;
  truncated = ltb max_output_bytes (length all);
}

length-take :
    {A : Type 0} (n : ℕ) (xs : List A)
    → ((length xs ≤ n) × (length (take n xs) ≡ length xs))
      ⊎ ((suc n ≤ length xs) × (length (take n xs) ≡ n))
length-take zero [] = inl (omega arith, refl)
length-take zero (x ∷ xs) = inr (omega arith, refl)
length-take (suc n) [] = inl (omega arith, refl)
length-take (suc n) (x ∷ xs) = elim (length-take n xs) [
  | inl (a, b) ↦ inl (omega arith, ap suc b)
  | inr (a, b) ↦ inr (omega arith, ap suc b)
]

take_more :
    {A : Type 0} (n : ℕ) (xs ys : List A)
    → take n xs ++ take (n - length (take n xs)) ys ≡ take n (xs ++ ys)
take_more zero xs ys = refl
take_more (suc n) [] ys = ap (λ k. take k ys) {y = suc n} (omega arith)
take_more (suc n) (x ∷ xs) ys =
    ap (λ (l : List _). x ∷ l)
      (ap (λ k. take n xs ++ take k ys) {y = n - length (take n xs)} (omega arith)
        ∙ take_more n xs ys)

over_limit :
    (limit : ℕ) (all read : List ℕ)
    → (ltb limit (length all) || ltb (limit - length (take limit all)) (length read))
      ≡ ltb limit (length (all ++ read))
over_limit limit all read = elim (length-take limit all) [
  | inl (a, b) ↦ ground (arith, length-append all read)
  | inr (a, b) ↦ ground (arith, length-append all read)
]

capture-kept : (all read : List ℕ) → capture (kept all) read ≡ kept (all ++ read)
unfolding capture
capture-kept all read =
    ap₂ (λ bytes truncated. record { bytes = bytes; truncated = truncated })
      (take_more max_output_bytes all read) (over_limit max_output_bytes all read)

drain_passes-kept :
    (passes : ℕ) (reads : List Read) (all : List ℕ)
    → (drain_passes passes reads (kept all)).1 ≡ kept (all ++ delivered passes reads)
unfolding drain_passes delivered
drain_passes-kept zero reads all = ap kept (sym (append_nil all))
drain_passes-kept (suc passes) [] all = ap kept (sym (append_nil all))
drain_passes-kept (suc passes) (chunk bytes ∷ reads) all =
    ap (λ c. (drain_passes passes reads c).1) (capture-kept all bytes)
    ∙ drain_passes-kept passes reads (all ++ bytes)
    ∙ ap kept (append_assoc all bytes (delivered passes reads))
drain_passes-kept (suc passes) (end_of_file ∷ reads) all = ap kept (sym (append_nil all))
drain_passes-kept (suc passes) (would_block ∷ reads) all = ap kept (sym (append_nil all))
drain_passes-kept (suc passes) (interrupted ∷ reads) all = drain_passes-kept passes reads all
drain_passes-kept (suc passes) (failed ∷ reads) all = ap kept (sym (append_nil all))

unfoldable pub closes : ℕ → List Read → Bool
closes zero reads = false
closes (suc passes) [] = false
closes (suc passes) (chunk bytes ∷ reads) = closes passes reads
closes (suc passes) (end_of_file ∷ reads) = true
closes (suc passes) (would_block ∷ reads) = false
closes (suc passes) (interrupted ∷ reads) = closes passes reads
closes (suc passes) (failed ∷ reads) = true

drain_passes-closes :
    (passes : ℕ) (reads : List Read) (output : Captured)
    → (drain_passes passes reads output).0 ≡ closes passes reads
unfolding drain_passes closes
drain_passes-closes zero reads output = refl
drain_passes-closes (suc passes) [] output = refl
drain_passes-closes (suc passes) (chunk bytes ∷ reads) output =
    drain_passes-closes passes reads (capture output bytes)
drain_passes-closes (suc passes) (end_of_file ∷ reads) output = refl
drain_passes-closes (suc passes) (would_block ∷ reads) output = refl
drain_passes-closes (suc passes) (interrupted ∷ reads) output =
    drain_passes-closes passes reads output
drain_passes-closes (suc passes) (failed ∷ reads) output = refl

-- All that a pipe delivers over successive passes, until it is done with.
unfoldable pub received : Bool → List (List Read) → List ℕ
received true passes = []
received false [] = []
received false (reads ∷ passes) = delivered 32 reads ++ received (closes 32 reads) passes

unfoldable pub drain_each : List (List Read) → Pipe → Pipe
drain_each [] pipe = pipe
drain_each (reads ∷ passes) pipe = drain_each passes (drain reads pipe)

drain-closed :
    (reads : List Read) (output : Captured)
    → drain reads (record { closed = true; output = output })
      ≡ record { closed = true; output = output }
unfolding drain
drain-closed reads output = refl

drain-open :
    (reads : List Read) (all : List ℕ)
    → drain reads (record { closed = false; output = kept all })
      ≡ record { closed = closes 32 reads; output = kept (all ++ delivered 32 reads) }
unfolding drain
drain-open reads all =
    ap₂ (λ c o. record { closed = c; output = o }) (drain_passes-closes 32 reads (kept all))
      (drain_passes-kept 32 reads all)

pub drain_each-kept :
    (passes : List (List Read)) (closed : Bool) (all : List ℕ)
    → (drain_each passes (record { closed = closed; output = kept all })).output
      ≡ kept (all ++ received closed passes)
unfolding drain_each received
drain_each-kept [] true all = ap kept (sym (append_nil all))
drain_each-kept [] false all = ap kept (sym (append_nil all))
drain_each-kept (reads ∷ passes) true all =
    ap (λ p. (drain_each passes p).output) (drain-closed reads (kept all))
    ∙ drain_each-kept passes true all
drain_each-kept (reads ∷ passes) false all =
    ap (λ p. (drain_each passes p).output) (drain-open reads all)
    ∙ drain_each-kept passes (closes 32 reads) (all ++ delivered 32 reads)
    ∙ ap kept (append_assoc all (delivered 32 reads) (received (closes 32 reads) passes))
