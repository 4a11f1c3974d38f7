-- ===== src/Probe/Exec.antt =====
-- src/probe/exec.rs, and the dispatch of `run` in src/probe/mod.rs. The child (src/subprocess.rs), the
-- JSON parser and `String::from_utf8_lossy` are arguments.
use nixnet_corbet_ch.Base.{
  ℕ, Bool, not, ◌&&◌, List, [], ◌∷◌, ◌++◌, Option, if◌then◌else◌, Result, ok, err, unwrap_or,
}
use nixnet_corbet_ch.Base.Int.{ℤ, pos, negsuc}
use nixnet_corbet_ch.Base.Text.{Text, codes, is_empty, text_eq}
use nixnet_corbet_ch.Base.Str.{trim}
use nixnet_corbet_ch.Base.Str
use nixnet_corbet_ch.Config.{Transport}
use nixnet_corbet_ch.Subprocess.{Output}
use nixnet_corbet_ch.Probe.{ProbeResult}
use nixnet_corbet_ch.Probe.Dial.{unhealthy}
use nixnet_corbet_ch.Probe.Words.{tokenize, first_non_empty_line}
use nixnet_corbet_ch.Probe.Words

pub record ExecEnvelope : Type 0 where
  pub address : Option Text
  pub healthy : Option Bool
  pub detail : Option Text

-- `subprocess::run` of a command line under a timeout, its status as `success()` of it;
-- `serde_json::from_str`.
pub record Shell : Type 0 where
  pub spawn : Text → List Text → ℕ → Result Text (Output Bool)
  pub from_str : Text → Result Text ExecEnvelope
  pub from_utf8_lossy : List ℕ → Text

module _ (shell : Shell) where
  -- The address and the detail of the line on stdout.
  said : Text → Text × Text
  said line = if is_empty line then ([], []) else elim (shell.from_str line) [
    | ok envelope ↦ (unwrap_or envelope.address [], unwrap_or envelope.detail [])
    | err e ↦ ([], codes "exec probe: stdout was not the one-line JSON envelope: " ++ e)
  ]

  default_detail : Bool → Text → Text
  default_detail healthy detail =
      if not (is_empty detail)
      then detail
      else if healthy
      then codes "exec exit 0"
      else codes "exec exit non-zero"

  with_stderr : Text → Text → Text
  with_stderr stderr detail =
      if is_empty stderr then detail else detail ++ (codes ": stderr: " ++ stderr)

  with_truncated : Bool → Text → Text
  with_truncated truncated detail =
      if truncated then detail ++ codes " (probe output truncated at 64 KiB)" else detail

  unfoldable pub exec_result : Output Bool → ProbeResult
  unfolding said default_detail with_stderr with_truncated
  exec_result output =
      let healthy = not output.timed_out && output.status in
      let (address, detail) = said (first_non_empty_line (shell.from_utf8_lossy output.stdout)) in
      record {
        healthy = healthy;
        address = address;
        detail = with_truncated output.truncated (
            with_stderr (trim (shell.from_utf8_lossy output.stderr))
              (default_detail healthy detail));
      }

  ran : Result Text (Output Bool) → ProbeResult
  ran (err e) = unhealthy e
  ran (ok output) = exec_result output

  exec_argv : ℕ → Result Text (List Text) → Result Text ProbeResult
  unfolding ran
  exec_argv timeout (err e) = err (codes "exec probe: " ++ e)
  exec_argv timeout (ok []) = err (codes "exec probe: probe.exec is empty")
  exec_argv timeout (ok (command ∷ args)) = ok (ran (shell.spawn command args timeout))

  unfoldable pub exec_run : Transport → ℕ → Result Text ProbeResult
  unfolding exec_argv
  exec_run t timeout = exec_argv timeout (tokenize t.probe.exec)

-- `timeout_ms.max(0)`, in milliseconds.
abbrev pub timeout_of : ℤ → ℕ
timeout_of (pos n) = n
timeout_of (negsuc n) = 0

-- The four probers, each under its transport and timeout.
pub record Probers : Type 0 where
  pub tcp : Transport → ℕ → Result Text ProbeResult
  pub http : Transport → ℕ → Result Text ProbeResult
  pub icmp : Transport → ℕ → Result Text ProbeResult
  pub exec : Transport → ℕ → Result Text ProbeResult

unfoldable pub run : Probers → Transport → Result Text ProbeResult
run probers t =
    let timeout = timeout_of t.probe.timeout_ms in
    if text_eq t.probe.method (codes "tcp")
    then probers.tcp t timeout
    else if text_eq t.probe.method (codes "http")
    then probers.http t timeout
    else if text_eq t.probe.method (codes "icmp")
    then probers.icmp t timeout
    else if text_eq t.probe.method (codes "exec")
    then probers.exec t timeout
    else err (codes "unknown probe method \"" ++ (t.probe.method ++ codes "\""))

-- What `Engine::probe_once` (src/engine/mod.rs) makes of it: a misconfigured probe is an unhealthy
-- one.
unfoldable pub probed : Result Text ProbeResult → ProbeResult
probed (ok res) = res
probed (err e) = unhealthy e

-- Stands for all that the definitions above compute with: a test unfolds this name.
unfoldable pub runs : Unit {0}
unfolding Words.runs Str.runs exec_result exec_run run probed
runs = tt
