-- ===== src/Server.antt =====
-- src/server.rs: a control session with the test that it runs, and the loop that reports metric
-- windows. What the sockets, the clocks and the counters give is an explicit list of events.
pub mod Lifecycle
pub mod Windows
pub mod Wait
pub mod Tests
use tperf.Common.{
  ℕ, zero, suc, ◌+◌, ◌-◌, ◌*◌, max, List, [], ◌∷◌, ◌++◌, Option, none, some, Bool, true, false,
  Text, codes, ltb, leb, if◌then◌else◌, saturating_add, saturating_mul, Result, ok, err, Float,
}
use tperf.Config.{Config, validate, test_family}
use tperf.NetUtil.{IpAddrs}
use tperf.Proto.{MetricWindow, Msg, start, stop, ack, metrics, error, Assignment}
use tperf.Metrics.{Snap, delta}
use tperf.Metrics.Window.{ProcSample, cpu_pct, build_window}

-- What a session does: it spawns a test's tasks, stops them, and writes a message. Tests are
-- numbered.
pub data Action : Type 0 where
  spawned : ℕ → Action
  stopped : ℕ → Action
  replied : Msg (Unit {0}) → Action

-- What `read_frame` gives. With a message come the result of spawning the data plane and whether
-- the answer can be written, which matter only where the code asks for them.
pub data Incoming : Type 0 where
  failed : Incoming
  message : Msg (Unit {0}) → Result {0, 0} Text Unit → Bool → Incoming

-- Is a test running, and its number; the number of the next one.
pub record Session : Type 0 where
  pub test : Option ℕ
  pub next : ℕ

-- `waiting` for the next message, or over: with `Ok`, or with the error of a write.
pub data Status : Type 0 where
  waiting : Session → Status
  ended : Bool → Status

-- `if let Some(t) = test.take() { t.stop().await; }`
unfoldable pub stop_test : Option ℕ → List Action
stop_test none = []
stop_test (some t) = stopped t ∷ []

-- Is the test started? The tasks are spawned behind the checks of the configuration.
unfoldable pub start_test : IpAddrs → Config → Result {0, 0} Text Unit → Bool
unfolding validate test_family
start_test std config plane = elim (validate std config) [
  | err e ↦ false
  | ok u ↦ elim (test_family std config) [
    | err e ↦ false
    | ok family ↦ elim plane [ err e ↦ false | ok v ↦ true ]
  ]
]

-- The arm of `Msg::Start`, behind the stop of the previous test.
unfoldable pub handle_start : Bool → ℕ → Bool → List Action × Status
handle_start false next written =
    (replied (error []) ∷ [], waiting (record { test = none; next = next }))
handle_start true next true = (
  spawned next ∷ replied (ack (codes "start")) ∷ [],
  waiting (record { test = some next; next = suc next }),
)
handle_start true next false =
    (spawned next ∷ replied (ack (codes "start")) ∷ stopped next ∷ [], ended false)

-- One round of the loop of `handle_conn`.
unfoldable pub handle_message : IpAddrs → Session → Incoming → List Action × Status
unfolding stop_test start_test handle_start
handle_message std s failed = (stop_test (Session.test s), ended true)
handle_message std s (message (start config assignment) plane written) =
    let (acts, status) = handle_start (start_test std config plane) (Session.next s) written in
    (stop_test (Session.test s) ++ acts, status)
handle_message std s (message stop plane written) = (
  stop_test (Session.test s) ++ replied (ack (codes "stop")) ∷ [],
  if written then waiting (record s { test = none }) else ended false,
)
handle_message std s (message (ack cmd) plane written) = ([], waiting s)
handle_message std s (message (metrics window) plane written) = ([], waiting s)
handle_message std s (message (error text) plane written) = ([], waiting s)

unfoldable pub handle_loop : IpAddrs → Session → List Incoming → List Action × Status
unfolding handle_message
handle_loop std s [] = ([], waiting s)
handle_loop std s (m ∷ ms) =
    let (acts, status) = handle_message std s m in
    elim status [
      | ended fine ↦ (acts, ended fine)
      | waiting s' ↦ let (more, last) = handle_loop std s' ms in (acts ++ more, last)
    ]

unfoldable pub handle_conn : IpAddrs → List Incoming → List Action × Status
unfolding handle_loop
handle_conn std ms = handle_loop std (record { test = none; next = 0 }) ms

abbrev pub window_ns : ℕ
window_ns = 1_000_000_000

abbrev pub window_spin_ns : ℕ
window_spin_ns = 200_000

-- A round of waiting: the clock, what `is_cancelled` says, and whether the sleep was cancelled.
pub record Tick : Type 0 where
  pub now : ℕ
  pub cancelled : Bool
  pub woken : Bool

-- `still` is waiting at the end of the given ticks.
pub data Waited : Type 0 where
  reached : Waited
  cancelled_first : Waited
  still : Waited

-- The inner loop, which spins.
unfoldable pub spin : ℕ → List Tick → Waited
spin deadline_ns [] = still
spin deadline_ns (t ∷ ts) =
    if leb deadline_ns (Tick.now t)
    then reached
    else if Tick.cancelled t
    then cancelled_first
    else spin deadline_ns ts

unfoldable pub wait_until_mono : ℕ → List Tick → Waited
unfolding spin
wait_until_mono deadline_ns [] = still
wait_until_mono deadline_ns (t ∷ ts) =
    let slept = wait_until_mono deadline_ns ts in
    if leb deadline_ns (Tick.now t)
    then reached
    else if Tick.cancelled t
    then cancelled_first
    else if ltb window_spin_ns (deadline_ns - Tick.now t)
    then (if Tick.woken t then cancelled_first else slept)
    else spin deadline_ns ts

-- What `emit_window` reads: both clocks, `snapshot_all`, and `sample_proc`, where `none` is an
-- error.
pub record Sample : Type 0 where
  pub mono : ℕ
  pub wall : ℕ
  pub total : Snap
  pub peers : List Snap
  pub proc : Option ProcSample

pub record MetricsState : Type 0 where
  pub prev_total : Snap
  pub prev_peers : List Snap
  pub prev_proc : Option ProcSample
  pub mono_start : ℕ
  pub wall_start : ℕ

unfoldable pub zip_delta : List Snap → List Snap → List Snap
unfolding delta
zip_delta [] later = []
zip_delta (a ∷ before) [] = []
zip_delta (a ∷ before) (b ∷ later) = delta a b ∷ zip_delta before later

-- `proc_now.map(|p| p.rss_bytes).unwrap_or(0)`.
abbrev pub memory : Option ProcSample → ℕ
memory (some p) = p.rss_bytes
memory none = 0

-- A round of `metrics_loop`: the wait, the sample, and what `is_cancelled` says behind it.
pub record Round : Type 0 where
  pub ticks : List Tick
  pub sample : Sample
  pub cancelled : Bool

unfoldable pub deadline : ℕ → ℕ → ℕ
deadline origin window_i = saturating_add origin (saturating_mul window_i window_ns)

-- The loop of one server, with the arithmetic of its rates, what `sysconf` gives, its name, and the
-- names of its counters.
module _ {F : Type 0} (float : Float F) (sysconf : ℕ) (server : Text) (names : List Text) where
  unfoldable pub cpu_between : Option ProcSample → Option ProcSample → ℕ → F
  unfolding cpu_pct
  cpu_between (some a) (some b) duration_ns = cpu_pct float sysconf a b duration_ns
  cpu_between (some a) none duration_ns = Float.from float 0
  cpu_between none proc_now duration_ns = Float.from float 0

  -- The window that is written, and the state behind it; whether the write fails changes neither.
  unfoldable pub emit_window : MetricsState → Sample → MetricWindow F × MetricsState
  unfolding zip_delta cpu_between build_window
  emit_window st now =
      let duration_ns = max (now.mono - st.mono_start) 1 in
      (
        build_window float server st.wall_start now.wall duration_ns (delta st.prev_total now.total)
            (zip_delta st.prev_peers now.peers) names
            (cpu_between st.prev_proc now.proc duration_ns) (memory now.proc),
        record {
          prev_total = now.total;
          prev_peers = now.peers;
          prev_proc = now.proc;
          mono_start = now.mono;
          wall_start = now.wall;
        },
      )

  -- The windows written from window number `window_i` on, and the state behind them.
  unfoldable pub metrics_loop :
      ℕ → ℕ → MetricsState → List Round → List (MetricWindow F) × MetricsState
  unfolding wait_until_mono emit_window deadline
  metrics_loop origin window_i st [] = ([], st)
  metrics_loop origin window_i st (r ∷ rs) =
      let (window, st') = emit_window st (Round.sample r) in
      let (windows, last) = metrics_loop origin (saturating_add window_i 1) st' rs in
      elim (wait_until_mono (deadline origin window_i) (Round.ticks r)) [
        | cancelled_first ↦ ([], st)
        | still ↦ ([], st)
        | reached ↦ if Round.cancelled r then (window ∷ [], st') else (window ∷ windows, last)
      ]
