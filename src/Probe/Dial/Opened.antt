-- ===== src/Probe/Dial/Opened.antt =====
-- When a probe of src/probe/tcp.rs or src/probe/http.rs finds its target healthy.
use nixnet_corbet_ch.Base.{
  ℕ, ◌<◌, ◌≡◌, refl, sym, ap, ◌∙◌, inl, inr, true, List, [], ◌∷◌, none, ltb, if◌then◌else◌, Result,
  ok, err, ok_inj, ok_not_err, Result-cases, Option-cases, Bool-cases, In, here, there, arith,
  false≢true, ◌&&◌, not, &>-ok,
}
use nixnet_corbet_ch.Base.Text.{Text, codes, is_empty, strip_prefix}
use nixnet_corbet_ch.Config.{Transport, effective_target}
use nixnet_corbet_ch.Probe.{ProbeResult}
use nixnet_corbet_ch.Probe.Dial.{
  Attempt, unhealthy, at_addr, opened, is_spent, dial, resolved, no_time, tcp_run, tcp_port,
  tcp_connected,
}
use nixnet_corbet_ch.Probe.Http.Heard.{IsStatus, do_get-IsStatus}
use nixnet_corbet_ch.Probe.Http.{
  Request, plain_request, request_text, do_get, http_connected, http_run, answered,
}

-- An address that a connection was opened to, begun within the time: its socket was made, bound to
-- the transport's interface where that is asked for, and connected.
pub record IsOpened (t : Transport) (timeout : ℕ) (a : Attempt) : Type 0 where
  pub made : a.socket ≡ ok tt
  pub bound_to_interface :
      (t.probe.bind_to_interface && not (is_empty t.interface)) ≡ true → a.bound ≡ ok tt
  pub took : a.connected ≡ ok tt
  pub in_time : a.elapsed < timeout

at_addr_lem : (addr : Text) (r : Result Text (Unit {0})) → at_addr addr r ≡ ok tt → r ≡ ok tt
unfolding at_addr
at_addr_lem addr (ok done) h = refl
at_addr_lem addr (err e) h = absurd (ok_not_err (sym h))

opened-IsOpened :
    (t : Transport) (timeout : ℕ) (a : Attempt)
    → opened t a ≡ ok tt
    → a.elapsed < timeout
    → IsOpened t timeout a
unfolding opened
opened-IsOpened t timeout a h time =
    let (made, later) = &>-ok a.socket _ h in
    let (through, took) =
      &>-ok (if t.probe.bind_to_interface && not (is_empty t.interface) then a.bound else ok tt)
        (at_addr a.addr a.connected) later in
    record {
      made = made;
      bound_to_interface = λ asked. rw (asked, if◌then◌else◌) at through;
      took = at_addr_lem a.addr a.connected took;
      in_time = time;
    }

dial-IsOpened :
    (t : Transport) (timeout : ℕ) (k : Attempt → ProbeResult → ProbeResult) (last : Text)
    (attempts : List Attempt)
    → (dial t timeout k last attempts).healthy ≡ true
    → (a : Attempt) × (e : Text) × In a attempts
      × IsOpened t timeout a
      × ((k a (unhealthy e)).healthy ≡ true)
unfolding dial
dial-IsOpened t timeout k last [] h = absurd (false≢true h)
dial-IsOpened t timeout k last (a ∷ rest) h = elim (Bool-cases (is_spent timeout a.elapsed)) [
  | inl late ↦ absurd (false≢true (rw (late, dial, if◌then◌else◌) at h))
  | inr time ↦ elim (Result-cases (opened t a)) [
    | inl (tt, e) ↦ (
      a,
      last,
      here,
      opened-IsOpened t timeout a e (ground arith),
      rw (time, dial, if◌then◌else◌, e) at h,
    )
    | inr (m, e) ↦
        let (b, l, found, is_open, good) =
          dial-IsOpened t timeout k m rest (rw (time, dial, if◌then◌else◌, e) at h) in
        (b, l, there found, is_open, good)
  ]
]

resolved-IsOpened :
    (t : Transport) (timeout : ℕ) (k : Attempt → ProbeResult → ProbeResult)
    (r : Result Text (List Attempt))
    → (resolved (dial t timeout k no_time) r).healthy ≡ true
    → (attempts : List Attempt) × (a : Attempt) × (e : Text) × (r ≡ ok attempts)
      × In a attempts
      × IsOpened t timeout a
      × ((k a (unhealthy e)).healthy ≡ true)
resolved-IsOpened t timeout k (err e) h = absurd (false≢true h)
resolved-IsOpened t timeout k (ok []) h = absurd (false≢true h)
resolved-IsOpened t timeout k (ok (b ∷ rest)) h =
    let (a, e, found, is_open, good) = dial-IsOpened t timeout k no_time (b ∷ rest) h in
    (b ∷ rest, a, e, refl, found, is_open, good)

-- A tcp probe reports its target healthy only where it opened a connection, through the transport's
-- interface where that is asked for, to an address of the target at its port within the timeout.
pub tcp_run-IsOpened :
    (to_socket_addrs : Text → ℕ → Result Text (List Attempt)) (t : Transport) (timeout : ℕ)
    (res : ProbeResult)
    → tcp_run to_socket_addrs t timeout ≡ ok res
    → res.healthy ≡ true
    → (attempts : List Attempt) × (a : Attempt) × (to_socket_addrs (effective_target t) (tcp_port t)
        ≡ ok attempts)
      × In a attempts
      × IsOpened t timeout a
unfolding tcp_run
tcp_run-IsOpened to_socket_addrs t timeout res h good =
    elim (Bool-cases (is_empty (effective_target t))) [
      | inl e ↦ absurd (ok_not_err (sym (rw (e, tcp_run, if◌then◌else◌) at h)))
      | inr e ↦
          let same = ok_inj (rw (e, tcp_run, if◌then◌else◌) at h) in
          let (attempts, a, m, at, found, is_open, _) =
            resolved-IsOpened t timeout tcp_connected
              (to_socket_addrs (effective_target t) (tcp_port t))
              (ap (λ (r : ProbeResult). r.healthy) same ∙ good) in
          (attempts, a, at, found, is_open)
    ]

module _ (quoted : Text → Text) (from_utf8_lossy : List ℕ → Text)
    (to_socket_addrs : Text → ℕ → Result Text (List Attempt))
    (send : Attempt → Text → Result Text (Unit {0}) × List (Result Text (List ℕ))) where
  -- The connection was open before the time was up, the request was written to it, and what was read
  -- shows a status code below 400.
  abbrev pub IsServed : ℕ → Request → Attempt → Type 0
  IsServed timeout req a =
      (a.elapsed_after < timeout)
      × ((send a (request_text req.header_host req.path)).0 ≡ ok tt)
      × ((code : ℕ) × IsStatus quoted from_utf8_lossy
            (send a (request_text req.header_host req.path)).1 code
          × (code < 400))

  connected-IsServed :
      (timeout : ℕ) (req : Request) (a : Attempt) (e : Text)
      → (http_connected quoted from_utf8_lossy to_socket_addrs send timeout req a
          (unhealthy e)).healthy
        ≡ true
      → IsServed timeout req a
  unfolding http_connected answered
  connected-IsServed timeout req a e h = elim (Bool-cases (is_spent timeout a.elapsed_after)) [
    | inl late ↦ absurd (false≢true (rw (late, http_connected, if◌then◌else◌) at h))
    | inr time ↦
        elim (Result-cases (
          do_get quoted from_utf8_lossy (send a (request_text req.header_host req.path)).0
            (send a (request_text req.header_host req.path)).1)) [
              | inl (code, got) ↦
                  let low : ltb code 400 ≡ true =
                    rw (time, http_connected, if◌then◌else◌, got, answered) at h in
                  let (written, status) = do_get-IsStatus quoted from_utf8_lossy _ _ code got in
                  (ground arith, written, (code, status, ground arith))
              | inr (m, got) ↦
                  absurd (false≢true (rw (time, http_connected, if◌then◌else◌, got, answered) at h))
            ]
  ]

  -- An http probe reports its target healthy only where an address of the host of its request, at the
  -- port of that, took the connection and answered the request with a status code below 400, the
  -- connection being open before the timeout; never for an `https://` target.
  pub http_run-IsServed :
      (t : Transport) (timeout : ℕ) (res : ProbeResult)
      → http_run quoted from_utf8_lossy to_socket_addrs send t timeout ≡ ok res
      → res.healthy ≡ true
      → let req = plain_request (effective_target t) t.probe.port t.probe.path in
        (strip_prefix (codes "https://") (effective_target t) ≡ none)
        × ((attempts : List Attempt) × (a : Attempt) × (to_socket_addrs req.connect_host
                req.connect_port
              ≡ ok attempts)
            × In a attempts
            × IsOpened t timeout a
            × IsServed timeout req a)
  unfolding http_run
  http_run-IsServed t timeout res h good =
      let req = plain_request (effective_target t) t.probe.port t.probe.path in
      elim (Bool-cases (is_empty (effective_target t))) [
        | inl e ↦ absurd (ok_not_err (sym (rw (e, http_run, if◌then◌else◌) at h)))
        | inr e ↦ elim (Option-cases (strip_prefix (codes "https://") (effective_target t))) [
          | inl plain ↦
              let same = ok_inj (rw (e, http_run, if◌then◌else◌, plain) at h) in
              let (attempts, a, m, at, found, is_open, ended) =
                resolved-IsOpened t timeout
                  (http_connected quoted from_utf8_lossy to_socket_addrs send timeout req)
                  (to_socket_addrs req.connect_host req.connect_port)
                  (ap (λ (r : ProbeResult). r.healthy) same ∙ good) in
              (plain, (attempts, a, at, found, is_open, connected-IsServed timeout req a m ended))
          | inr (rest, https) ↦ absurd (
              false≢true (
                ap (λ (r : ProbeResult). r.healthy)
                  (ok_inj (rw (e, http_run, if◌then◌else◌, https) at h))
                ∙ good))
        ]
      ]
