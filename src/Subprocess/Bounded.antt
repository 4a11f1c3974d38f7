-- ===== src/Subprocess/Bounded.antt =====
-- The output and the end of a child that src/subprocess.rs waits for.
use nixnet_corbet_ch.Base.{
  ℕ, ◌≡◌, ◌⊎◌, refl, sym, ap, ap₂, ◌∙◌, subst, inl, inr, Bool, true, false, ◌||◌, List, [], ◌∷◌,
  ◌++◌, some, ltb, leb, if◌then◌else◌, length, take, map, any, In, here, ◌≢◌, Option, none, Result,
  ok, err, Bool-cases, some_inj, ok_inj, ok_not_err,
}
use nixnet_corbet_ch.Base.Text.{Text}
use nixnet_corbet_ch.Subprocess.{
  Captured, max_output_bytes, Read, Pipe, empty_pipe, drain, Waited, exited, running, wait_failed,
  Round, Output, Signal, sigkill, kill_process_group, Ending, finished, reap, give_up, wait_loop,
  run_child,
}
use nixnet_corbet_ch.Subprocess.Capture.{received, drain_each, drain_each-kept}

Waited-cases :
    {S : Type 0} (w : Waited S)
    → ((status : S) × (w ≡ exited status)) ⊎ (w ≡ running) ⊎ ((e : Text) × (w ≡ wait_failed e))
Waited-cases (exited status) = inl (status, refl)
Waited-cases running = inr (inl refl)
Waited-cases (wait_failed e) = inr (inr (e, refl))

module _ {S : Type 0} (timeout : ℕ) (ending : Ending S) where
  over : Waited S → ℕ → Bool
  over (exited status) elapsed = true
  over running elapsed = leb timeout elapsed
  over (wait_failed e) elapsed = true

  -- The rounds up to the one in which the loop ends.
  unfoldable pub rounds_used : List (Round S) → List (Round S)
  unfolding over
  rounds_used [] = []
  rounds_used (r ∷ rounds) =
      let later = rounds_used rounds in if over r.waited r.elapsed then r ∷ [] else r ∷ later

  abbrev pub stdout_passes : List (Round S) → List (List Read)
  stdout_passes rounds = map (λ r. r.stdout_reads) (rounds_used rounds) ++ ending.last_stdout ∷ []

  abbrev pub stderr_passes : List (Round S) → List (List Read)
  stderr_passes rounds = map (λ r. r.stderr_reads) (rounds_used rounds) ++ ending.last_stderr ∷ []

  -- What a returned output holds of the two pipes.
  abbrev HoldsDrained : List (List Read) → List (List Read) → Pipe → Pipe → Output S → Type 0
  HoldsDrained outs errs p q out =
      (out.stdout ≡ (drain_each outs p).output.bytes)
      × (out.stderr ≡ (drain_each errs q).output.bytes)
      × (out.truncated
          ≡ ((drain_each outs p).output.truncated || (drain_each errs q).output.truncated))

  finished-Drained :
      (timed_out : Bool) (p q : Pipe) (r : Result Text S) (out : Output S)
      → finished ending timed_out p q r ≡ ok out
      → HoldsDrained (ending.last_stdout ∷ []) (ending.last_stderr ∷ []) p q out
  unfolding drain_each
  finished-Drained timed_out p q (err e) out h = absurd (ok_not_err (sym h))
  finished-Drained timed_out p q (ok status) out h =
      subst (HoldsDrained (ending.last_stdout ∷ []) (ending.last_stderr ∷ []) p q) (ok_inj h)
        (refl, refl, refl)

  reap-Drained :
      (p q : Pipe) (r : Option (Result Text S)) (out : Output S)
      → reap ending p q r ≡ some (ok out)
      → HoldsDrained (ending.last_stdout ∷ []) (ending.last_stderr ∷ []) p q out
  unfolding reap
  reap-Drained p q none out h = absurd (cc h)
  reap-Drained p q (some r) out h = finished-Drained true p q r out (some_inj h)

  give_up_err :
      (e : Text) (r : Option (Result Text S)) (out : Output S) → give_up e r ≢ some (ok out)
  unfolding give_up
  give_up_err e none out h = cc h
  give_up_err e (some r) out h = ok_not_err (sym (some_inj h))

  wait_loop-Drained :
      (rounds : List (Round S)) (p q : Pipe) (out : Output S)
      → wait_loop timeout ending rounds p q ≡ some (ok out)
      → HoldsDrained (stdout_passes rounds) (stderr_passes rounds) p q out
  unfolding wait_loop rounds_used over drain_each
  wait_loop-Drained [] p q out h = absurd (cc h)
  wait_loop-Drained (r ∷ rounds) p q out h =
      let p' = drain r.stdout_reads p in
      let q' = drain r.stderr_reads q in
      elim (Waited-cases r.waited) [
        | inl (status, e) ↦
            rw (e, rounds_used, over, if◌then◌else◌)
              (finished-Drained false p' q' (ok status) out (some_inj (rw (e, wait_loop) at h)))
        | inr (inl e) ↦ elim (Bool-cases (leb timeout r.elapsed)) [
          | inl late ↦
              rw (e, late, rounds_used, over, if◌then◌else◌)
                (reap-Drained p' q' (ending.wait (kill_process_group [])) out
                  (rw (e, late, wait_loop, if◌then◌else◌) at h))
          | inr early ↦
              rw (e, early, rounds_used, over, if◌then◌else◌)
                (wait_loop-Drained rounds p' q' out (rw (e, early, wait_loop, if◌then◌else◌) at h))
        ]
        | inr (inr (m, e)) ↦
            absurd
              (give_up_err m (ending.wait (kill_process_group [])) out (rw (e, wait_loop) at h))
      ]

  -- Whatever the pipes deliver, a run that returns an output returns, of each pipe, the first 64 KiB
  -- of what was read of it until it ended or failed or the run was over, and says that it was cut
  -- exactly when either pipe delivered more.
  pub run_child-kept :
      (rounds : List (Round S)) (out : Output S)
      → run_child timeout ending rounds ≡ some (ok out)
      → let all_out = received false (stdout_passes rounds) in
        let all_err = received false (stderr_passes rounds) in
        (out.stdout ≡ take max_output_bytes all_out)
        × (out.stderr ≡ take max_output_bytes all_err)
        × (out.truncated
            ≡ (ltb max_output_bytes (length all_out) || ltb max_output_bytes (length all_err)))
  unfolding run_child
  run_child-kept rounds out h =
      let (a, b, c) = wait_loop-Drained rounds empty_pipe empty_pipe out h in
      let outs = drain_each-kept (stdout_passes rounds) false [] in
      let errs = drain_each-kept (stderr_passes rounds) false [] in
      (
        a ∙ ap (λ (o : Captured). o.bytes) outs,
        b ∙ ap (λ (o : Captured). o.bytes) errs,
        c ∙ ap₂ (λ (o u : Captured). o.truncated || u.truncated) outs errs,
      )

  -- A process group that was sent SIGKILL ends, so that a wait for its leader returns.
  abbrev pub IsReapable : Type 0
  IsReapable =
      (sent : List Signal) → In sigkill sent → (r : Result Text S) × (ending.wait sent ≡ some r)

  wait_loop_ends :
      (rounds : List (Round S)) (p q : Pipe)
      → IsReapable
      → any (λ r. leb timeout r.elapsed) rounds ≡ true
      → (r : Result Text (Output S)) × (wait_loop timeout ending rounds p q ≡ some r)
  unfolding wait_loop reap give_up
  wait_loop_ends [] p q mortal h = cc
  wait_loop_ends (r ∷ rounds) p q mortal h =
      let (answer, gone) = mortal (kill_process_group []) here in
      let p' = drain r.stdout_reads p in
      let q' = drain r.stderr_reads q in
      elim (Waited-cases r.waited) [
        | inl (status, e) ↦ (finished ending false p' q' (ok status), rw (e, wait_loop) refl)
        | inr (inl e) ↦ elim (Bool-cases (leb timeout r.elapsed)) [
          | inl late ↦ (
            finished ending true p' q' answer,
            rw (e, late, wait_loop, if◌then◌else◌) (rw (gone, reap) refl),
          )
          | inr early ↦
              let (result, done) = wait_loop_ends rounds p' q' mortal (rw (early, ◌||◌) at h) in
              (result, rw (e, early, wait_loop, if◌then◌else◌) done)
        ]
        | inr (inr (m, e)) ↦ (err m, rw (e, wait_loop) (rw (gone, give_up) refl))
      ]

  -- Where a wait for a child returns once its process group was sent SIGKILL, the run has returned by
  -- the first round at or past the timeout, whatever the child and its pipes do.
  pub run_child_ends :
      (rounds : List (Round S))
      → IsReapable
      → any (λ r. leb timeout r.elapsed) rounds ≡ true
      → (r : Result Text (Output S)) × (run_child timeout ending rounds ≡ some r)
  unfolding run_child
  run_child_ends rounds mortal h = wait_loop_ends rounds empty_pipe empty_pipe mortal h
