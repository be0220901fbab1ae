-- ===== src/Analyze/Tests.antt =====
-- The theorems on the analysis, with whole numbers for rates and a concrete codec.
use mathlib.Core.List.{Perm}
use tperf.Common.{
  ℕ, min, List, [], ◌∷◌, ◌++◌, Option, none, some, refl, ◌≡◌, ◌↔◌, codes, Text, ok, arith, pos, All,
  length, IsMap, as_i64, Float, whole, whole-IsOrdered, IsOrdered,
}
use tperf.Proto.{MetricWindow, PeerMetrics}
use tperf.Db.{Json, MetricRow, metric_row}
use tperf.Db.Plain.{plain, plain-IsFaithful}
use tperf.Analyze.{RateStats, PairStats, Collected, from_samples, load_rows, worst_pairs, raw_row}
use tperf.Analyze.Options.{parse_args}
use tperf.Analyze.Arguments.{Given, render, last_path, parse_args_iff}
use tperf.Analyze.Totals.{IsAttained, overall}
use tperf.Analyze.Rates.{Between, IsRate, from_samples-Between}
use tperf.Analyze.Samples.{row_samples, samples_at, key_order, nothing, load_rows-samples}
use tperf.Analyze.Worst.{Before, HasRates, IsSorted, worst_pairs-IsSorted}
use tperf.Analyze.Rows.{raw_row-metric_row}

-- The last of two paths.
parse_args_iff_example :
    (parse_args (codes "--db=a.db" ∷ codes "--db" ∷ codes "b.db" ∷ []) ≡ ok (codes "b.db")) ↔ (
      (gs : List Given) × (codes "--db=a.db" ∷ codes "--db" ∷ codes "b.db" ∷ [] ≡ render gs)
      × (last_path none gs ≡ ok (codes "b.db")))
parse_args_iff_example =
    parse_args_iff (codes "--db=a.db" ∷ codes "--db" ∷ codes "b.db" ∷ []) (codes "b.db")

from_samples-Between_example :
    (from_samples whole [] ≡ none)
    × ((stats : RateStats (Option ℕ)) × (from_samples whole ((100, 2) ∷ (50, 4) ∷ []) ≡ some stats)
        × (stats.windows ≡ 2)
        × All (Between whole whole-IsOrdered stats.min_bps stats.max_bps) ((100, 2) ∷ (50, 4) ∷ [])
        × IsAttained whole (Float.infinity whole) stats.min_bps ((100, 2) ∷ (50, 4) ∷ [])
        × IsAttained whole (Float.from whole 0) stats.max_bps ((100, 2) ∷ (50, 4) ∷ [])
        × (stats.avg_bps ≡ overall whole ((100, 2) ∷ (50, 4) ∷ []))
        × IsRate whole whole-IsOrdered stats.min_bps
        × IsRate whole whole-IsOrdered stats.max_bps
        × IsRate whole whole-IsOrdered stats.avg_bps)
from_samples-Between_example = from_samples-Between whole whole-IsOrdered (100, 2) ((50, 4) ∷ [])

abbrev rate : ℕ → RateStats (Option ℕ)
rate n = record { min_bps = some n; max_bps = some n; avg_bps = some n; windows = 1 }

abbrev pair : ℕ → PairStats (Option ℕ)
pair n = record { src = codes "a"; dst = codes "b"; stats = rate n }

abbrev all_pairs : List (PairStats (Option ℕ))
all_pairs = pair 6 ∷ pair 2 ∷ pair 9 ∷ pair 1 ∷ pair 4 ∷ pair 3 ∷ pair 5 ∷ []

rated : (n : ℕ) → HasRates whole whole-IsOrdered (pair n)
rated n = (IsOrdered.from_rate whole-IsOrdered n, IsOrdered.from_rate whole-IsOrdered n)

worst_pairs-IsSorted_example :
    (others : List (PairStats (Option ℕ))) × Perm (worst_pairs whole all_pairs ++ others) all_pairs
    × (length (worst_pairs whole all_pairs) ≡ min 5 7)
    × IsSorted whole whole-IsOrdered (worst_pairs whole all_pairs)
    × All (λ w. All (Before whole whole-IsOrdered w) others) (worst_pairs whole all_pairs)
worst_pairs-IsSorted_example =
    worst_pairs-IsSorted whole whole-IsOrdered all_pairs
      (rated 6, (rated 2, (rated 9, (rated 1, (rated 4, (rated 3, (rated 5, tt)))))))

abbrev peer : PeerMetrics
peer = record {
  peer = codes "s2";
  bytes_sent = 100;
  bytes_recv = 0;
  packets_sent = 1;
  packets_recv = 0;
  packets_dropped = 0;
}

abbrev window : MetricWindow (Option ℕ)
window = record {
  server = codes "s1";
  wall_start_ns = 5;
  wall_end_ns = 6;
  duration_ns = 60_000_000;
  bytes_sent = 100;
  bytes_recv = 0;
  send_bps = some 13;
  recv_bps = some 0;
  packets_sent = 1;
  packets_recv = 0;
  packets_dropped = 0;
  cpu_pct = some 1;
  memory_bytes = 4096;
  peers = peer ∷ [];
}

abbrev row : MetricRow (Option ℕ)
row = record {
  tag = codes "t";
  server = codes "s1";
  wall_start_ns = pos 5;
  wall_end_ns = pos 6;
  duration_ns = pos 60_000_000;
  bytes_sent = pos 100;
  bytes_recv = pos 0;
  send_bps = some 13;
  recv_bps = some 0;
  packets_sent = pos 1;
  packets_recv = pos 0;
  packets_dropped = pos 0;
  cpu_pct = some 1;
  memory_bytes = pos 4096;
  peers_json = 1 ∷ 2 ∷ b's' ∷ b'2' ∷ 100 ∷ 0 ∷ 1 ∷ 0 ∷ 0 ∷ [];
}

row_of : metric_row plain (codes "t") window ≡ some row
unfolding metric_row as_i64
row_of = refl

raw_row-metric_row_example :
    ((raw_row row).server ≡ codes "s1")
    × ((raw_row row).wall_start_ns ≡ 5)
    × ((raw_row row).duration_ns ≡ 60_000_000)
    × ((raw_row row).bytes_sent ≡ 100)
    × ((raw_row row).send_bps ≡ some 13)
    × (Json.peers_from plain (raw_row row).peers_json ≡ some (peer ∷ []))
raw_row-metric_row_example =
    raw_row-metric_row plain (codes "t") window row plain-IsFaithful (omega arith) (omega arith)
      (omega arith) row_of

peers_back : Json.peers_from plain (raw_row row).peers_json ≡ some (peer ∷ [])
unfolding raw_row
peers_back = refl

load_rows-samples_example :
    (c : Collected (Option ℕ)) × (load_rows whole plain (some (raw_row row) ∷ []) (nothing whole)
      ≡ ok c)
    × IsMap key_order c.pair_samples
    × ((src dst : Text)
        → samples_at c.pair_samples src dst
          ≡ row_samples whole plain src dst (some (raw_row row) ∷ []))
load_rows-samples_example =
    load_rows-samples whole plain (some (raw_row row) ∷ []) ((peer ∷ [], peers_back), tt)
