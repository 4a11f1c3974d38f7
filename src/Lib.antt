-- ===== src/Lib.antt =====
-- nixnet keeps the names and routes of a host pointed at transports that work. A thread per
-- transport probes it; the engine counts successes and failures, picks a winner per group, and
-- publishes: peers as entries of a managed hosts block, uplinks as metrics of default routes.
--
-- Which file models which part:
--   Config      src/config.rs: the configuration records.
--     Defaults    `Config::apply_defaults`, `assign_transport_id`
--     Validate    `Config::validate`, `validate_probe`, `validate_transport_ids`
--     Load        `load`
--     Needs       `needs_net_admin`, `needs_net_raw`
--   Probe       src/probe/mod.rs: the result of a probe.
--     Icmp        src/probe/icmp.rs: packets, checksum, the receive loop and the whole `run`
--     Words       `tokenize` and `first_non_empty_line` of src/probe/mod.rs
--     Dial        the address loop of src/probe/tcp.rs and src/probe/http.rs, and `run` of the first
--     Http        src/probe/http.rs: authorities, requests and answers
--     Exec        src/probe/exec.rs, and the dispatch `run` of src/probe/mod.rs
--   Engine      src/engine/mod.rs: transports, groups and the actions of a tick.
--     Staleness   `staleness`
--     Health      the update of a transport in `Engine::probe_once`
--     Ranking     `uplink_ranking`
--     Decide      `Engine::decide_action_locked`
--     Persist     `restore` and `dump` of src/engine/state.rs
--     New         `Engine::new`, `transport_id` and `Engine::load_state`
--     Groups      `EngineState::group` and `group_mut`
--     Reconcile   `Engine::reconcile`, `publish_restored_peers`, `publish_restored_uplinks`
--     Worker      `run_with_ready`, `run_transport` and `probe_once` as steps of all workers
--     Ticks       the results of one group's transports, in any order
--     Watchdog    `watchdog_healthy`, src/sdnotify.rs's `parse_watchdog_usec` and the heartbeat of
--                 src/bin/nixnetd.rs
--     Save        `save_state` of src/engine/state.rs, `write_status`, and `write` of src/status.rs
--     Status      `render_group`, `write_status`, `status_ttl`, `peer_entries`, `log_publish_error`
--   Status      src/status.rs: the snapshot and `is_healthy_at`
--   Publish     src/publish
--     Route       src/publish/route.rs: `apply`, `reprioritize` and the command lines of `ip`
--     Hosts       src/publish/hosts.rs: `split_static`, `same_but_for_freshness`, and the
--                 text that `publish` writes; its child Parse has `parse_nix_hosts`
--     Writer      `HostsPublisher` over a file system, and the publishers as the engine calls them
--   Atomic      src/atomic.rs: a write beside the target and the rename onto it
--   Bin         src/bin: the command lines of both programs, and `nixnetctl`
--   Subprocess  src/subprocess.rs: the capture of a child's output, the wait for its end and its kill
--   Base        what the program takes from the Rust language and its standard library: text as
--               lists of code points, i64 values, stable sorting, the grammar of IP literals.
--   Tests       runs at concrete inputs, and the theorems applied to them.
--
-- A method that mutates a group or a transport returns the new record, and reads the clock through
-- an argument. Instants of the wall clock are nanoseconds since the epoch, of unbounded size. A
-- HashMap is an association list. i64 arithmetic wraps or saturates as written in the source.
-- The `ip` process, the JSON parser, the file system, the sockets and the text form of instants are
-- arguments: a function, or the list of what they did. What the routing table is taken to do under
-- `ip` is the record Publish.Route.Table.RoutingTable, which Tests.IpTable gives an instance of.
--
-- The file system is the interface Atomic.Files, with what its calls are documented to do in
-- Atomic.Whole.IsFileSystem; Tests.Atomic gives instances of both.
--
-- The workers are a step relation on the engine state, the holder of the I/O lock, each worker's
-- place in its loop, and the world that the publishers read and write. A step is what a worker does
-- between two lock operations; a publication and the record of its error are one step, since the I/O
-- lock keeps all others from the world. The publishers are the interface Engine.Reconcile.Publishers.
-- What a child, a socket or a resolver does is the list of what its calls returned.
--
-- Loops are structural but for four on fuel, which their widths bound: three rounds fold the carries
-- of a 32-bit sum, twenty decimal digits hold a 64-bit number, sixteen hexadecimal ones and sixty-four
-- steps of an exclusive or cover 64 bits.
--
-- Laws that are assumed of a system call stand in the theorem that needs them: a temporary file is
-- empty when made and written to behind what it holds, a socket gives a datagram no later than its
-- read timeout, a process group that was sent SIGKILL can be waited for. Time passes in those calls
-- and between the clock readings only.
--
-- Not modelled: `write_status` as a step of a worker and the writer locks of the state and status
-- files (`probe_once` writes both files last, with the I/O lock free; Engine.Save and Engine.Status
-- have what they write), the shutdown and the end of a worker, log lines, signals but for the kill of
-- a child, sockets, process groups, and the start-up of `nixnetd`.
pub mod Base
pub mod Config
pub mod Probe
pub mod Engine
pub mod Publish
pub mod Status
pub mod Tests
pub mod Atomic
pub mod Bin
pub mod Subprocess
