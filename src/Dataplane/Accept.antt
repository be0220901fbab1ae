-- ===== src/Dataplane/Accept.antt =====
-- The side of src/dataplane.rs that knows its peers by their addresses: `build_ip_map` and
-- `tcp_accept_loop`. What `lookup_host` answers, and the equality of `IpAddr`, are parameters.
use tperf.Common.{
  ℕ, suc, ◌^◌, ◌%◌, ◌∷◌, [], List, Bool, true, false, Option, none, some, Text, if◌then◌else◌,
}
use tperf.NetUtil.{IpAddrs, AddrFamily, SocketAddr, join_host_port, matches}
use tperf.Metrics.{Counters, peer}

module _ (std : IpAddrs) where
  -- `HashMap<IpAddr, u32>`, the entry that was put last first.
  abbrev pub IpMap : Type 0
  IpMap = List (IpAddrs.IpAddr std × ℕ)

  unfoldable pub is_wanted : Option AddrFamily → SocketAddr std → Bool
  unfolding matches
  is_wanted none addr = true
  is_wanted (some f) addr = matches std f addr

  unfoldable pub insert_addrs : Option AddrFamily → ℕ → List (SocketAddr std) → IpMap → IpMap
  unfolding is_wanted
  insert_addrs family id [] map = map
  insert_addrs family id (addr ∷ addrs) map =
      insert_addrs family id addrs
        (if is_wanted family addr then (addr.0, id % 2 ^ 32) ∷ map else map)

  unfoldable pub ip_map_loop :
      (Text → Option (List (SocketAddr std)))
      → ℕ
      → Option AddrFamily
      → ℕ
      → List Text
      → IpMap
      → IpMap
  unfolding join_host_port insert_addrs
  ip_map_loop lookup_host port family id [] map = map
  ip_map_loop lookup_host port family id (host ∷ hosts) map =
      ip_map_loop lookup_host port family (suc id) hosts
        (elim (lookup_host (join_host_port host port)) [
          | none ↦ map
          | some addrs ↦ insert_addrs family id addrs map
        ])

  unfoldable pub build_ip_map :
      (Text → Option (List (SocketAddr std))) → List Text → ℕ → Option AddrFamily → IpMap
  unfolding ip_map_loop
  build_ip_map lookup_host hosts port family = ip_map_loop lookup_host port family 0 hosts []

  unfoldable pub id_of :
      (IpAddrs.IpAddr std → IpAddrs.IpAddr std → Bool) → IpMap → IpAddrs.IpAddr std → Option ℕ
  id_of eq [] ip = none
  id_of eq ((key, id) ∷ map) ip = if eq key ip then some id else id_of eq map ip

  -- What `select!` meets: a connection from an address, an error of `accept` with whether the test
  -- is cancelled by then, or the cancellation.
  pub data AcceptEvent : Type 0 where
    accepted : SocketAddr std → AcceptEvent
    failed : Bool → AcceptEvent
    cancelled : AcceptEvent

  -- The statistics of the peer that each connection is received for, in the order of the
  -- connections.
  unfoldable pub tcp_accept_loop :
      (IpAddrs.IpAddr std → IpAddrs.IpAddr std → Bool)
      → Counters
      → IpMap
      → List AcceptEvent
      → List (Option ℕ)
  unfolding id_of peer
  tcp_accept_loop eq counters ip_to_id [] = []
  tcp_accept_loop eq counters ip_to_id (cancelled ∷ events) = []
  tcp_accept_loop eq counters ip_to_id (failed true ∷ events) = []
  tcp_accept_loop eq counters ip_to_id (failed false ∷ events) =
      tcp_accept_loop eq counters ip_to_id events
  tcp_accept_loop eq counters ip_to_id (accepted (ip, port) ∷ events) =
      (elim (id_of eq ip_to_id ip) [ none ↦ none | some id ↦ peer counters id ])
      ∷ tcp_accept_loop eq counters ip_to_id events
