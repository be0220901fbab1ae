-- ===== src/NetUtil/Tests.antt =====
-- The theorems on addresses, at concrete texts and resolved addresses.
use tperf.Common.{
  ◌∷◌, [], List, Text, codes, Bool, true, false, ◌≡◌, ◌≤◌, refl, none, some, ok, arith,
}
use mathlib.Core.List.{Memᴰ}
use tperf.NetUtil.{
  IpAddrs, AddrFamily, v4, v6, SocketAddr, parse_host_port, join_host_port, pick_addr,
}
use tperf.NetUtil.Addresses.{IsHost, parse_host_port-join_host_port}
use tperf.Common.{ℕ, Option}
use tperf.NetUtil.Retry.{Turn, resolve_retry, connect_tcp_dest}
use tperf.NetUtil.Backoff.{Ticks, IsEnd, resolve_retry-IsEnd}
use tperf.NetUtil.Choice.{rank, wanted, pick_addr-best}

abbrev six_host : Text
six_host = codes "fd00::1"

six_host-IsHost : IsHost six_host
unfolding tperf.Strings.is_whitespace tperf.Strings.contains
six_host-IsHost = (refl, (λ e. ground arith), refl)

parse_host_port-join_host_port_example :
    parse_host_port (join_host_port six_host 7777) ≡ ok (six_host, 7777)
parse_host_port-join_host_port_example =
    parse_host_port-join_host_port six_host 7777 six_host-IsHost (omega arith)

-- Addresses as a family and whether it is a loopback.
abbrev plain_addrs : IpAddrs
plain_addrs = record {
  IpAddr = AddrFamily × Bool;
  parse = λ s. none;
  family = λ ip. ip.0;
  is_unspecified = λ ip. false;
  is_loopback = λ ip. ip.1;
}

abbrev resolved : List (SocketAddr plain_addrs)
resolved = ((v6, false), 1) ∷ ((v4, true), 2) ∷ ((v4, false), 3) ∷ []

picked : pick_addr plain_addrs resolved none ≡ some ((v4, false), 3)
unfolding pick_addr
picked = refl

pick_addr-best_example :
    Memᴰ ((v4, false), 3) resolved
    × (wanted plain_addrs none ((v4, false), 3) ≡ true)
    × ((b : SocketAddr plain_addrs)
        → Memᴰ b resolved
        → wanted plain_addrs none b ≡ true
        → rank plain_addrs ((v4, false), 3) ≤ rank plain_addrs b)
pick_addr-best_example = pick_addr-best plain_addrs resolved none ((v4, false), 3) picked

-- Nothing answers, and the deadline of 50 ms is met by the third turn.
abbrev turn : {A : Type 0} → ℕ → Turn A
turn now = record { cancelled = false; answer = none; elapsed = now; interrupted = false }

abbrev later_turns : {A : Type 0} → List (Turn A)
later_turns = turn 25 ∷ turn 70 ∷ turn 160 ∷ []

ticks : {A S : Type 0} (accept : A → Option S) → Ticks accept 50 0 0 (turn 0 ∷ later_turns)
ticks accept = (omega arith, (omega arith, (omega arith, (omega arith, tt))))

resolve_retry-IsEnd_example :
    IsEnd
      (λ addrs. pick_addr plain_addrs addrs none)
      50
      0
      (turn 0 ∷ later_turns)
      (resolve_retry plain_addrs none 50 (turn 0 ∷ later_turns))
    × IsEnd {A = ℕ} some 50 0 (turn 0 ∷ later_turns) (connect_tcp_dest 50 (turn 0 ∷ later_turns))
resolve_retry-IsEnd_example =
    resolve_retry-IsEnd plain_addrs none 50 (turn 0) later_turns (turn {A = ℕ} 0) later_turns
      (ticks {A = List (SocketAddr plain_addrs)} (λ addrs. pick_addr plain_addrs addrs none))
      (omega arith) (ticks {A = ℕ} some) (omega arith)
