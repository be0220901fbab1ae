-- ===== src/Metrics/Window.antt =====
-- src/metrics.rs: the rates, the processor share, and the window that a server reports.
use tperf.Common.{
  ℕ, ◌-◌, ◌/◌, List, [], ◌∷◌, Bool, ◌||◌, Text, ltb, ◌==◌, if◌then◌else◌, Float, saturating_add,
  saturating_mul,
}
use tperf.Proto.{PeerMetrics, MetricWindow}
use tperf.Metrics.{Snap}

pub record ProcSample : Type 0 where
  pub utime_ticks : ℕ
  pub stime_ticks : ℕ
  pub rss_bytes : ℕ

-- `sysconf` gives a positive value, or what stands in for it. A value below 1 is read as 0.
unfoldable pub clk_tck : ℕ → ℕ
clk_tck v = if ltb 0 v then v else 100

unfoldable pub page_size : ℕ → ℕ
page_size v = if ltb 0 v then v else 4096

-- The processor time between two samples, in nanoseconds.
unfoldable pub cpu_ns : ℕ → ProcSample → ProcSample → ℕ
unfolding clk_tck
cpu_ns sysconf before after =
    let dticks =
      saturating_add (after.utime_ticks - before.utime_ticks)
        (after.stime_ticks - before.stime_ticks) in
    saturating_mul dticks (1_000_000_000 / clk_tck sysconf)

-- Has the peer counted anything?
unfoldable pub is_active : Snap → Bool
is_active s =
    ltb 0 s.bytes_sent
    || ltb 0 s.bytes_recv
    || ltb 0 s.packets_sent
    || ltb 0 s.packets_recv
    || ltb 0 s.packets_dropped

-- The peers that counted something, under their names; a name or a snapshot too many is left out.
unfoldable pub peer_metrics : List Text → List Snap → List PeerMetrics
unfolding is_active
peer_metrics [] snaps = []
peer_metrics (n ∷ names) [] = []
peer_metrics (n ∷ names) (s ∷ snaps) =
    let rest = peer_metrics names snaps in
    if is_active s
    then (record {
      peer = n;
      bytes_sent = s.bytes_sent;
      bytes_recv = s.bytes_recv;
      packets_sent = s.packets_sent;
      packets_recv = s.packets_recv;
      packets_dropped = s.packets_dropped;
    })
      ∷ rest
    else rest

module _ {F : Type 0} (float : Float F) where
  unfoldable pub cpu_pct : ℕ → ProcSample → ProcSample → ℕ → F
  unfolding cpu_ns
  cpu_pct sysconf before after duration_ns =
      if duration_ns == 0
      then Float.from float 0
      else Float.times float
          (Float.over float (Float.from float (cpu_ns sysconf before after))
            (Float.from float duration_ns))
          (Float.from float 100)

  unfoldable pub bps : ℕ → ℕ → F
  bps bytes duration_ns =
      if duration_ns == 0
      then Float.from float 0
      else Float.over float
          (Float.times float (Float.times float (Float.from float bytes) (Float.from float 8))
            (Float.from float 1_000_000_000))
          (Float.from float duration_ns)

  unfoldable pub build_window :
      Text → ℕ → ℕ → ℕ → Snap → List Snap → List Text → F → ℕ → MetricWindow F
  unfolding bps peer_metrics
  build_window server wall_start_ns wall_end_ns duration_ns total peer_snaps names cpu
        memory_bytes =
      record {
        server = server;
        wall_start_ns = wall_start_ns;
        wall_end_ns = wall_end_ns;
        duration_ns = duration_ns;
        bytes_sent = total.bytes_sent;
        bytes_recv = total.bytes_recv;
        send_bps = bps total.bytes_sent duration_ns;
        recv_bps = bps total.bytes_recv duration_ns;
        packets_sent = total.packets_sent;
        packets_recv = total.packets_recv;
        packets_dropped = total.packets_dropped;
        cpu_pct = cpu;
        memory_bytes = memory_bytes;
        peers = peer_metrics names peer_snaps;
      }
