-- ===== src/Tests/Subprocess.antt =====
-- A child that writes twice and exits, and one that hangs.
use nixnet_corbet_ch.Base.{
  ◌≡◌, refl, Bool, true, false, ◌||◌, List, [], ◌∷◌, Option, none, some, ltb, length, take, Result,
  ok,
}
use nixnet_corbet_ch.Base.Text.{Text, codes}
use nixnet_corbet_ch.Subprocess
use nixnet_corbet_ch.Subprocess.{
  Read, chunk, end_of_file, would_block, Round, exited, running, Output, Signal, sigkill, Ending,
  run_child, max_output_bytes,
}
use nixnet_corbet_ch.Subprocess.Capture.{received}
use nixnet_corbet_ch.Subprocess.Bounded.{
  run_child-kept, run_child_ends, IsReapable, stdout_passes, stderr_passes,
}

-- Only a signal ends the child.
abbrev until_killed : List Signal → Option (Result Text Bool)
until_killed [] = none
until_killed (sigkill ∷ sent) = some (ok false)

abbrev ending : Ending Bool
ending = record {
  wait = until_killed;
  last_stdout = would_block ∷ [];
  last_stderr = would_block ∷ [];
}

abbrev rounds : List (Round Bool)
rounds =
    record {
      stdout_reads = chunk (codes "ab") ∷ would_block ∷ [];
      stderr_reads = would_block ∷ [];
      waited = running;
      elapsed = 1;
    }
    ∷ record {
      stdout_reads = chunk (codes "c") ∷ end_of_file ∷ [];
      stderr_reads = chunk (codes "!") ∷ end_of_file ∷ [];
      waited = exited true;
      elapsed = 11;
    }
    ∷ []

abbrev output : Output Bool
output = record {
  status = true;
  stdout = codes "abc";
  stderr = codes "!";
  timed_out = false;
  truncated = false;
}

finishes : run_child 50 ending rounds ≡ some (ok output)
unfolding Subprocess.runs
finishes = refl

run_child-kept_example :
    let all_out = received false (stdout_passes 50 ending rounds) in
    let all_err = received false (stderr_passes 50 ending rounds) in
    (output.stdout ≡ take max_output_bytes all_out)
    × (output.stderr ≡ take max_output_bytes all_err)
    × (output.truncated
        ≡ (ltb max_output_bytes (length all_out) || ltb max_output_bytes (length all_err)))
run_child-kept_example = run_child-kept 50 ending rounds output finishes

abbrev hanging : List (Round Bool)
hanging =
    record { stdout_reads = []; stderr_reads = []; waited = running; elapsed = 40 }
    ∷ record { stdout_reads = []; stderr_reads = []; waited = running; elapsed = 50 }
    ∷ []

mortal : IsReapable 50 ending
mortal [] m = elim m [ ]
mortal (sigkill ∷ sent) m = (ok false, refl)

killed :
    run_child 50 ending hanging
    ≡ some (
        ok (record {
          status = false;
          stdout = [];
          stderr = [];
          timed_out = true;
          truncated = false;
        }))
unfolding Subprocess.runs
killed = refl

run_child_ends_example : (r : Result Text (Output Bool)) × (run_child 50 ending hanging ≡ some r)
run_child_ends_example = run_child_ends 50 ending hanging mortal refl
