-- ===== src/Metrics.antt =====
-- src/metrics.rs: the counters of a server, and what a metric window reports of them.
pub mod Balance
pub mod Window
pub mod Proc
pub mod Stat
pub mod Peers
pub mod Tests
use tperf.Common.{
  ℕ, ◌+◌, ◌-◌, ◌%◌, ◌<◌, List, [], ◌∷◌, map, Option, none, some, Text, u64_mod, replicate, length,
  get_elem?, set, ltb, if◌then◌else◌,
}

-- Each field is an atomic u64, on which `fetch_add` wraps.
pub record AtomStats : Type 0 where
  pub bytes_sent : ℕ
  pub bytes_recv : ℕ
  pub packets_sent : ℕ
  pub packets_recv : ℕ
  pub packets_dropped : ℕ

pub record Snap : Type 0 where
  pub bytes_sent : ℕ
  pub bytes_recv : ℕ
  pub packets_sent : ℕ
  pub packets_recv : ℕ
  pub packets_dropped : ℕ

unfoldable pub snapshot : AtomStats → Snap
snapshot s = record {
  bytes_sent = s.bytes_sent;
  bytes_recv = s.bytes_recv;
  packets_sent = s.packets_sent;
  packets_recv = s.packets_recv;
  packets_dropped = s.packets_dropped;
}

abbrev pub fetch_add : ℕ → ℕ → ℕ
fetch_add a n = (a + n) % u64_mod

unfoldable pub add_sent : ℕ → ℕ → AtomStats → AtomStats
add_sent bytes packets s = record s {
  bytes_sent = if ltb 0 bytes then fetch_add s.bytes_sent bytes else s.bytes_sent;
  packets_sent = if ltb 0 packets then fetch_add s.packets_sent packets else s.packets_sent;
}

unfoldable pub add_recv : ℕ → ℕ → AtomStats → AtomStats
add_recv bytes packets s = record s {
  bytes_recv = if ltb 0 bytes then fetch_add s.bytes_recv bytes else s.bytes_recv;
  packets_recv = if ltb 0 packets then fetch_add s.packets_recv packets else s.packets_recv;
}

unfoldable pub add_drop : ℕ → AtomStats → AtomStats
add_drop n s = record s {
  packets_dropped = if ltb 0 n then fetch_add s.packets_dropped n else s.packets_dropped;
}

-- `Snap::delta`: the saturating differences.
unfoldable pub delta : Snap → Snap → Snap
delta s later = record {
  bytes_sent = later.bytes_sent - s.bytes_sent;
  bytes_recv = later.bytes_recv - s.bytes_recv;
  packets_sent = later.packets_sent - s.packets_sent;
  packets_recv = later.packets_recv - s.packets_recv;
  packets_dropped = later.packets_dropped - s.packets_dropped;
}

pub record Counters : Type 0 where
  pub total : AtomStats
  pub peers : List AtomStats
  pub names : List Text

abbrev pub zeros : AtomStats
zeros = record {
  bytes_sent = 0;
  bytes_recv = 0;
  packets_sent = 0;
  packets_recv = 0;
  packets_dropped = 0;
}

unfoldable pub new_counters : List Text → Counters
new_counters hostlist = record {
  total = zeros;
  peers = map (λ _. zeros) hostlist;
  names = hostlist;
}

-- `Counters::peer`: a handle on the shared statistics of a peer, here its index.
unfoldable pub peer : Counters → ℕ → Option ℕ
peer c id = if ltb id (length c.peers) then some id else none

unfoldable pub snapshot_all : Counters → Snap × List Snap
unfolding snapshot
snapshot_all c = (snapshot c.total, map snapshot c.peers)

-- An update of the total, and one through a handle.
unfoldable pub on_total : (AtomStats → AtomStats) → Counters → Counters
on_total f c = record c { total = f c.total }

abbrev pub update : List AtomStats → ℕ → (AtomStats → AtomStats) → List AtomStats
update ps i f = elim (get_elem? ps i) [ none ↦ ps | some s ↦ set ps i (f s) ]

unfoldable pub on_peer : Option ℕ → (AtomStats → AtomStats) → Counters → Counters
on_peer none f c = c
on_peer (some i) f c = record c { peers = update c.peers i f }
