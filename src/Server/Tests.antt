-- ===== src/Server/Tests.antt =====
-- The theorems on sessions and windows, at concrete events.
use tperf.Common.{
  refl, ℕ, ◌*◌, List, [], ◌∷◌, none, some, Bool, true, false, ◌≡◌, codes, ok, arith, whole,
}
use tperf.NetUtil.{IpAddrs, AddrFamily, v4}
use tperf.Config.{Config, tcp, pairs}
use tperf.Proto.{Assignment, start}
use tperf.Metrics.{Snap}
use tperf.Server.{
  Incoming, failed, message, handle_conn, ended, Sample, MetricsState, Round, Tick, wait_until_mono,
  reached, metrics_loop,
}
use tperf.Server.Lifecycle.{replay, running, handle_conn-replay}
use tperf.Server.Wait.{IsReached, wait_until_mono-IsReached}
use tperf.Server.Windows.{Ascends, IsAccount, metrics_loop-IsAccount}

-- Every text is a loopback address here.
abbrev loopback : IpAddrs
loopback = record {
  IpAddr = AddrFamily;
  parse = λ s. some v4;
  family = λ ip. ip;
  is_unspecified = λ ip. false;
  is_loopback = λ ip. true;
}

abbrev config : Config
config = record {
  client_addr = codes "a:7777";
  test_addr = codes "b:7788";
  network = tcp;
  payload_size = 1000;
  workers = 1;
  test_type = pairs;
  hostlist = codes "s1" ∷ codes "s2" ∷ [];
  hostlist_raw = [];
  tag = codes "t";
}

abbrev nothing : Assignment
nothing = record { self_name = codes "s1"; self_id = 0; bind = []; targets = [] }

-- Two starts, the second of which cannot be answered.
abbrev incoming : List Incoming
incoming =
    message (start config nothing) (ok tt) true
    ∷ message (start config nothing) (ok tt) false
    ∷ failed
    ∷ []

handle_conn-replay_example :
    replay none (handle_conn loopback incoming).0 ≡ some (running (handle_conn loopback incoming).1)
handle_conn-replay_example = handle_conn-replay loopback incoming

abbrev snap : ℕ → Snap
snap n = record {
  bytes_sent = n;
  bytes_recv = 2 * n;
  packets_sent = 1;
  packets_recv = 2;
  packets_dropped = 0;
}

abbrev first : MetricsState
first = record {
  prev_total = snap 10;
  prev_peers = snap 0 ∷ [];
  prev_proc = none;
  mono_start = 5;
  wall_start = 100;
}

abbrev round : ℕ → ℕ → Bool → Round
round now n c = record {
  ticks = record { now = now; cancelled = false; woken = false } ∷ [];
  sample = record { mono = now; wall = now; total = snap n; peers = snap n ∷ []; proc = none };
  cancelled = c;
}

abbrev rounds : List Round
rounds = round 1_000_000_005 30 false ∷ round 2_000_000_006 30 true ∷ []

rounds-Ascends : Ascends whole 100 (codes "s1") (codes "s2" ∷ []) first rounds
unfolding tperf.Server.emit_window
rounds-Ascends = ground arith

metrics_loop-IsAccount_example :
    IsAccount whole 100
      (codes "s1")
      (codes "s2" ∷ [])
      first
      (metrics_loop whole 100 (codes "s1") (codes "s2" ∷ []) 5 1 first rounds)
metrics_loop-IsAccount_example =
    metrics_loop-IsAccount whole 100 (codes "s1") (codes "s2" ∷ []) 5 1 first rounds rounds-Ascends

abbrev tick : ℕ → Tick
tick n = record { now = n; cancelled = false; woken = false }

abbrev ticks : List Tick
ticks = tick 0 ∷ tick 900_000 ∷ tick 999_999 ∷ tick 1_000_002 ∷ []

waited : wait_until_mono 1_000_000 ticks ≡ reached
unfolding wait_until_mono
waited = refl

wait_until_mono-IsReached_example : IsReached 1_000_000 ticks
wait_until_mono-IsReached_example = wait_until_mono-IsReached 1_000_000 ticks waited
