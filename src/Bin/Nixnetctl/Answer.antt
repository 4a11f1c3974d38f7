-- ===== src/Bin/Nixnetctl/Answer.antt =====
-- The exit code of src/bin/nixnetctl.rs is a verdict on the engine.
use nixnet_corbet_ch.Base.{
  ◌≡◌, refl, Bool, true, false, List, [], Option, some, Result, ok, err, All,
}
use nixnet_corbet_ch.Base.Int.{ℤ, ◌≤ℤ◌}
use nixnet_corbet_ch.Base.Text.{Text}
use nixnet_corbet_ch.Status.{Snapshot, is_healthy_at}
use nixnet_corbet_ch.Engine.Status.{EngineState, snapshot}
use nixnet_corbet_ch.Engine.Status.Health.{IsGreen, snapshot-IsGreen}
use nixnet_corbet_ch.Bin.{success}
use nixnet_corbet_ch.Bin.Nixnetctl.{
  parse_args, main, started, answer, json_answer, text_answer, code_of,
}

module _ (format : ℤ → Option Text) (read : Text → Result Text Snapshot)
    (to_string_pretty : Snapshot → Result Text Text) (parse : Text → Option ℤ) (now : ℤ) where
  code_of-success : (b : Bool) → code_of b ≡ success → b ≡ true
  code_of-success true h = refl
  code_of-success false h = absurd (cc h)

  json-success :
      (b : Bool) (r : Result Text Text)
      → (json_answer read to_string_pretty parse now b r).0 ≡ success
      → b ≡ true
  unfolding json_answer
  json-success b (ok s) h = code_of-success b h
  json-success b (err e) h = absurd (cc h)

  answer-success :
      (as_json : Bool) (snap : Snapshot)
      → (answer read to_string_pretty parse now as_json (ok snap)).0 ≡ success
      → is_healthy_at parse snap now ≡ true
  unfolding answer text_answer
  answer-success true snap h = json-success (is_healthy_at parse snap now) (to_string_pretty snap) h
  answer-success false snap h = code_of-success (is_healthy_at parse snap now) h

  -- `nixnetctl` exits with success on a snapshot that the daemon made only up to the snapshot's
  -- deadline, and where at that time no error of the hosts file stood and every group had a winner with
  -- something to show, was not degraded and had no publish error; as text and as JSON alike.
  pub main-IsGreen :
      (args : List Text) (status_path : Text) (as_json : Bool) (generated_at valid_until : Text)
      (state : EngineState)
      → parse_args args ≡ ok (status_path, as_json)
      → read status_path ≡ ok (snapshot format generated_at valid_until state)
      → (main read to_string_pretty parse now args).0 ≡ success
      → ((deadline : ℤ) × (parse valid_until ≡ some deadline) × (now ≤ℤ deadline))
        × (state.last_hosts_error ≡ [])
        × All (λ g. IsGreen g.1) state.peers
        × All (λ g. IsGreen g.1) state.uplinks
  unfolding main started
  main-IsGreen args status_path as_json generated_at valid_until state parsed got h =
      snapshot-IsGreen format parse generated_at valid_until state now (
        answer-success as_json (snapshot format generated_at valid_until state)
          (rw (parsed, got) at h))
