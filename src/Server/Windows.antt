-- ===== src/Server/Windows.antt =====
-- The windows of a test: together they count everything.
use tperf.Common.{
  ℕ, ◌+◌, ◌≤◌, ◌<◌, List, [], ◌∷◌, ◌≡◌, refl, arith, saturating_add, ◌⊎◌, inl, inr, Bool-cases,
  Float, Text,
}
use tperf.Metrics.{Snap, delta}
use tperf.Proto.{MetricWindow}
use tperf.Metrics.Window.{build_window}
use tperf.Server.{
  Waited, reached, cancelled_first, still, wait_until_mono, Sample, MetricsState, Round,
  emit_window, deadline, metrics_loop,
}

-- One snapshot counts no less than another.
abbrev pub IsLater : Snap → Snap → Type 0
IsLater a b =
    (Snap.bytes_sent a ≤ Snap.bytes_sent b)
    × (Snap.bytes_recv a ≤ Snap.bytes_recv b)
    × (Snap.packets_sent a ≤ Snap.packets_sent b)
    × (Snap.packets_recv a ≤ Snap.packets_recv b)
    × (Snap.packets_dropped a ≤ Snap.packets_dropped b)

Waited-cases : (w : Waited) → (w ≡ reached) ⊎ ((w ≡ cancelled_first) ⊎ (w ≡ still))
Waited-cases reached = inl refl
Waited-cases cancelled_first = inr (inl refl)
Waited-cases still = inr (inr refl)

module _ {F : Type 0} (float : Float F) (sysconf : ℕ) (server : Text) (names : List Text) where
  -- The sum of a number of each window.
  unfoldable pub sum_windows : (MetricWindow F → ℕ) → List (MetricWindow F) → ℕ
  sum_windows f [] = 0
  sum_windows f (w ∷ ws) = f w + sum_windows f ws

  -- The counters never fall and the clock rises from each sample to the next.
  abbrev pub Ascends : MetricsState → List Round → Type 0
  Ascends st [] = Unit
  Ascends st (r ∷ rs) =
      IsLater (MetricsState.prev_total st) (Sample.total (Round.sample r))
      × (MetricsState.mono_start st < Sample.mono (Round.sample r))
      × Ascends (emit_window float sysconf server names st (Round.sample r)).1 rs

  -- The windows and the last state account for everything since a first state.
  abbrev pub IsAccount : MetricsState → List (MetricWindow F) × MetricsState → Type 0
  IsAccount st r =
      (MetricsState.mono_start st + sum_windows MetricWindow.duration_ns r.0
        ≡ MetricsState.mono_start r.1)
      × (Snap.bytes_sent (MetricsState.prev_total st) + sum_windows MetricWindow.bytes_sent r.0
          ≡ Snap.bytes_sent (MetricsState.prev_total r.1))
      × (Snap.bytes_recv (MetricsState.prev_total st) + sum_windows MetricWindow.bytes_recv r.0
          ≡ Snap.bytes_recv (MetricsState.prev_total r.1))
      × (Snap.packets_sent (MetricsState.prev_total st) + sum_windows MetricWindow.packets_sent r.0
          ≡ Snap.packets_sent (MetricsState.prev_total r.1))
      × (Snap.packets_recv (MetricsState.prev_total st) + sum_windows MetricWindow.packets_recv r.0
          ≡ Snap.packets_recv (MetricsState.prev_total r.1))
      × (Snap.packets_dropped (MetricsState.prev_total st)
            + sum_windows MetricWindow.packets_dropped r.0
          ≡ Snap.packets_dropped (MetricsState.prev_total r.1))

  no_window : (st : MetricsState) → IsAccount st ([], st)
  unfolding sum_windows
  no_window st = (omega arith, omega arith, omega arith, omega arith, omega arith, omega arith)

  more_windows :
      (st : MetricsState) (now : Sample) (rest : List (MetricWindow F) × MetricsState)
      → IsLater (MetricsState.prev_total st) (Sample.total now)
      → MetricsState.mono_start st < Sample.mono now
      → IsAccount (emit_window float sysconf server names st now).1 rest
      → IsAccount st ((emit_window float sysconf server names st now).0 ∷ rest.0, rest.1)
  unfolding sum_windows emit_window delta build_window
  more_windows st now rest later rises h =
      (omega arith, omega arith, omega arith, omega arith, omega arith, omega arith)

  -- Where the counters never fall and the clock rises from sample to sample, the windows that
  -- `metrics_loop` writes tile the time from the first state to the last, and their counts add up
  -- to what the counters gained in that time: every byte and packet, sent, received or dropped, is
  -- in one window.
  pub metrics_loop-IsAccount :
      (origin window_i : ℕ) (st : MetricsState) (rounds : List Round)
      → Ascends st rounds
      → IsAccount st (metrics_loop float sysconf server names origin window_i st rounds)
  unfolding metrics_loop
  metrics_loop-IsAccount origin window_i st [] h = no_window st
  metrics_loop-IsAccount origin window_i st (r ∷ rs) (later, rises, h) =
      let rest =
        metrics_loop-IsAccount origin (saturating_add window_i 1)
          (emit_window float sysconf server names st (Round.sample r)).1 rs h in
      let one =
        more_windows st (Round.sample r)
          ([], (emit_window float sysconf server names st (Round.sample r)).1) later rises
          (no_window (emit_window float sysconf server names st (Round.sample r)).1) in
      let all =
        more_windows st (Round.sample r)
          (metrics_loop float sysconf server names origin (saturating_add window_i 1)
            (emit_window float sysconf server names st (Round.sample r)).1 rs)
          later rises rest in
      elim (Waited-cases (wait_until_mono (deadline origin window_i) (Round.ticks r))) [
        | inr (inl e) ↦ rw (e, metrics_loop) (no_window st)
        | inr (inr e) ↦ rw (e, metrics_loop) (no_window st)
        | inl e ↦ elim (Bool-cases (Round.cancelled r)) [
          | inl t ↦ rw (e, metrics_loop) (rw (t, metrics_loop) one)
          | inr f ↦ rw (e, metrics_loop) (rw (f, metrics_loop) all)
        ]
      ]
