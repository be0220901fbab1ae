-- ===== src/Metrics/Tests.antt =====
-- The theorems on /proc/self/stat and on the peers of a window, at concrete values.
use tperf.Common.{List, [], ◌∷◌, ◌++◌, some, false, refl, ◌≡◌, codes, Text, arith, All}
use tperf.Strings.{contains, to_string, is_whitespace}
use tperf.Metrics.{Snap}
use tperf.Metrics.Window.{peer_metrics}
use tperf.Metrics.Proc.{parse_stat_cpu}
use tperf.Metrics.Stat.{IsField, join, parse_stat_cpu-line}
use tperf.Metrics.Peers.{SameSums, IsShown, peer_metrics-SameSums}

letter : IsField (codes "S")
unfolding is_whitespace
letter = (λ e. ground arith, ((refl, λ e. omega arith), tt))

abbrev fields : List Text
fields =
    codes "S"
    ∷ codes "S"
    ∷ codes "S"
    ∷ codes "S"
    ∷ codes "S"
    ∷ codes "S"
    ∷ codes "S"
    ∷ codes "S"
    ∷ codes "S"
    ∷ codes "S"
    ∷ codes "S"
    ∷ []

plain : contains (codes "0 0") b')' ≡ false
unfolding contains
plain = refl

-- A program whose name has a parenthesis and a blank.
parse_stat_cpu-line_example :
    parse_stat_cpu (
      codes "42 (a) b"
      ++ b')' ∷ b' ' ∷ join fields (join (to_string 7 ∷ to_string 90 ∷ []) (codes "0 0")))
    ≡ some (7, 90)
parse_stat_cpu-line_example =
    parse_stat_cpu-line (codes "42 (a) b") fields 7 90 (codes "0 0") refl
      (
        letter,
        (
          letter,
          (
            letter,
            (letter, (letter, (letter, (letter, (letter, (letter, (letter, (letter, tt)))))))),
          ),
        ),
      )
      (omega arith) (omega arith) plain

abbrev quiet : Snap
quiet = record {
  bytes_sent = 0;
  bytes_recv = 0;
  packets_sent = 0;
  packets_recv = 0;
  packets_dropped = 0;
}

abbrev busy : Snap
busy = record {
  bytes_sent = 8;
  bytes_recv = 0;
  packets_sent = 1;
  packets_recv = 0;
  packets_dropped = 2;
}

peer_metrics-SameSums_example :
    SameSums (peer_metrics (codes "a" ∷ codes "b" ∷ []) (quiet ∷ busy ∷ [])) (quiet ∷ busy ∷ [])
    × All IsShown (peer_metrics (codes "a" ∷ codes "b" ∷ []) (quiet ∷ busy ∷ []))
peer_metrics-SameSums_example =
    peer_metrics-SameSums (codes "a" ∷ codes "b" ∷ []) (quiet ∷ busy ∷ []) (omega arith)
