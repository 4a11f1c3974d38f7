-- ===== src/Subprocess.antt =====
-- src/subprocess.rs: the bounded capture of a child's output and the wait for its end. What the pipes
-- deliver, what `try_wait` says and what the clock reads are arguments.
pub mod Capture
pub mod Bounded
use nixnet_corbet_ch.Base.{
  ℕ, zero, suc, ◌-◌, Bool, true, false, not, ◌&&◌, ◌||◌, List, [], ◌∷◌, ◌++◌, Option, none, some,
  ltb, leb, if◌then◌else◌, length, take, Result, ok, err,
}
use nixnet_corbet_ch.Base.Text.{Text}

abbrev pub max_output_bytes : ℕ
max_output_bytes = 65536

pub record Captured : Type 0 where
  pub bytes : List ℕ
  pub truncated : Bool

abbrev pub nothing_captured : Captured
nothing_captured = record { bytes = []; truncated = false }

-- One `read` of a pipe; a chunk is not empty.
pub data Read : Type 0 where
  chunk : List ℕ → Read
  end_of_file would_block interrupted failed : Read

-- The chunk as far as it fits.
unfoldable pub capture : Captured → List ℕ → Captured
capture output read =
    let remaining = max_output_bytes - length output.bytes in
    record {
      bytes = output.bytes ++ take remaining read;
      truncated = output.truncated || ltb remaining (length read);
    }

-- At most so many reads; the flag says that the pipe is done with.
unfoldable pub drain_passes : ℕ → List Read → Captured → Bool × Captured
drain_passes zero reads output = (false, output)
drain_passes (suc passes) [] output = (false, output)
drain_passes (suc passes) (chunk bytes ∷ reads) output =
    drain_passes passes reads (capture output bytes)
drain_passes (suc passes) (end_of_file ∷ reads) output = (true, output)
drain_passes (suc passes) (would_block ∷ reads) output = (false, output)
drain_passes (suc passes) (interrupted ∷ reads) output = drain_passes passes reads output
drain_passes (suc passes) (failed ∷ reads) output = (true, output)

-- A pipe and what was captured of it.
pub record Pipe : Type 0 where
  pub closed : Bool
  pub output : Captured

unfoldable pub drain : List Read → Pipe → Pipe
drain reads pipe =
    let (close, output) = drain_passes 32 reads pipe.output in
    if pipe.closed then pipe else record { closed = close; output = output }

-- `S` is the exit status.
pub data Waited (S : Type 0) : Type 0 where
  exited : S → Waited S
  running : Waited S
  wait_failed : Text → Waited S

-- One round of the loop: the reads of both pipes, the state of the child, the time since the start.
pub record Round (S : Type 0) : Type 0 where
  pub stdout_reads : List Read
  pub stderr_reads : List Read
  pub waited : Waited S
  pub elapsed : ℕ

pub record Output (S : Type 0) : Type 0 where
  pub status : S
  pub stdout : List ℕ
  pub stderr : List ℕ
  pub timed_out : Bool
  pub truncated : Bool

-- What was sent to the process group of the child.
pub data Signal : Type 0 where
  sigkill : Signal

abbrev pub kill_process_group : List Signal → List Signal
kill_process_group sent = sigkill ∷ sent

-- What the system does once the loop is over: what `wait` gives the parent after the signals it sent,
-- `none` where it blocks for good, and the reads of the last drain.
pub record Ending (S : Type 0) : Type 0 where
  pub wait : List Signal → Option (Result Text S)
  pub last_stdout : List Read
  pub last_stderr : List Read

abbrev pub empty_pipe : Pipe
empty_pipe = record { closed = false; output = nothing_captured }

module _ {S : Type 0} where
  abbrev pub finished : Ending S → Bool → Pipe → Pipe → Result Text S → Result Text (Output S)
  finished ending timed_out stdout stderr (err e) = err e
  finished ending timed_out stdout stderr (ok status) =
      let out = (drain ending.last_stdout stdout).output in
      let err_out = (drain ending.last_stderr stderr).output in
      ok (record {
        status = status;
        stdout = out.bytes;
        stderr = err_out.bytes;
        timed_out = timed_out;
        truncated = out.truncated || err_out.truncated;
      })

  -- The child is over its time.
  pub reap : Ending S → Pipe → Pipe → Option (Result Text S) → Option (Result Text (Output S))
  reap ending stdout stderr none = none
  reap ending stdout stderr (some r) = some (finished ending true stdout stderr r)

  -- The child cannot be watched: its status is thrown away.
  pub give_up : Text → Option (Result Text S) → Option (Result Text (Output S))
  give_up e none = none
  give_up e (some r) = some (err e)

  -- `none` where the rounds end before the loop does, or where it blocks.
  module _ (timeout : ℕ) (ending : Ending S) where
    unfoldable pub wait_loop : List (Round S) → Pipe → Pipe → Option (Result Text (Output S))
    unfolding reap give_up
    wait_loop [] stdout stderr = none
    wait_loop (r ∷ rounds) stdout stderr =
        let out = drain r.stdout_reads stdout in
        let err_out = drain r.stderr_reads stderr in
        let later = wait_loop rounds out err_out in
        elim r.waited [
          | exited status ↦ some (finished ending false out err_out (ok status))
          | running ↦
              if leb timeout r.elapsed
              then reap ending out err_out (ending.wait (kill_process_group []))
              else later
          | wait_failed e ↦ give_up e (ending.wait (kill_process_group []))
        ]

    -- `run`, once the child has started.
    unfoldable pub run_child : List (Round S) → Option (Result Text (Output S))
    run_child rounds = wait_loop rounds empty_pipe empty_pipe

-- Stands for all that the definitions above compute with: a test unfolds this name.
unfoldable pub runs : Unit {0}
unfolding capture drain_passes drain wait_loop run_child
runs = tt
