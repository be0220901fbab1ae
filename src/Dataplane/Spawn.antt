-- ===== src/Dataplane/Spawn.antt =====
-- How src/dataplane.rs starts a test: `resolve_bind`, `spawn_tcp` and `spawn_udp`. What the system
-- and the network answer is a parameter; the tasks are those that are given to the runtime, in
-- order.
use tperf.Common.{
  ℕ, ◌||◌, not, ◌∷◌, [], ◌++◌, List, Bool, Option, none, some, Text, if◌then◌else◌, map, replicate,
  length, Result, ok, err,
}
use tperf.NetUtil.{
  IpAddrs, AddrFamily, SocketAddr, HostPortError, is_empty, is_loopback_host, pick_addr,
}
use tperf.Config.{Config, test_port}
use tperf.Proto.{Assignment, Target}
use tperf.Metrics.{Counters, new_counters, peer}
use tperf.Dataplane.Send.{make_payload}

module _ (std : IpAddrs) where
  -- `parse` of a socket address, the addresses of the interfaces, what `resolve_retry` gives for a
  -- name (`none` is an error), and on which addresses a socket can be bound.
  pub record Host : Type 0 where
    pub parse_addr : Text → Option (SocketAddr std)
    pub local_unicast_ips : List (IpAddrs.IpAddr std)
    pub resolved : Text → Option (SocketAddr std)
    pub can_bind : SocketAddr std → Bool

  pub data SpawnError : Type 0 where
    bad_port : HostPortError → SpawnError
    no_bind_addr : SpawnError
    cannot_bind : SpawnError
    no_payload : SpawnError

  pub data Task : Type 0 where
    accept_task : Task
    tcp_send_task : Text → Text → Option ℕ → Task
    udp_recv_task : ℕ → ℕ → Task
    udp_send_task : SocketAddr std → ℕ → ℕ → Option ℕ → Task

  pub record TestIo : Type 0 where
    pub bind_addr : SocketAddr std
    pub counters : Counters

  unfoldable pub local_addr : Host → ℕ → Option AddrFamily → Option (SocketAddr std)
  unfolding pick_addr
  local_addr host port family = pick_addr std (map (λ ip. (ip, port)) host.local_unicast_ips) family

  unfoldable pub resolved_bind : Host → Assignment → ℕ → Option AddrFamily → Option (SocketAddr std)
  unfolding is_loopback_host local_addr
  resolved_bind host assignment port family = elim (host.resolved assignment.self_name) [
    | none ↦ local_addr host port family
    | some a ↦
        if not (IpAddrs.is_loopback std (a.0)) || is_loopback_host std assignment.self_name
        then some a
        else local_addr host port family
  ]

  unfoldable pub resolve_bind : Host → Assignment → ℕ → Option AddrFamily → Option (SocketAddr std)
  unfolding is_empty resolved_bind
  resolve_bind host assignment port family =
      if is_empty assignment.bind
      then resolved_bind host assignment port family
      else elim (host.parse_addr assignment.bind) [
        | some a ↦ some a
        | none ↦ resolved_bind host assignment port family
      ]

  -- What both kinds of test begin with: the bound address and its port, the counters, and a
  -- payload.
  unfoldable pub open_test :
      Host → Config → Assignment → Option AddrFamily → Result {0, 0} SpawnError TestIo
  unfolding test_port resolve_bind new_counters make_payload
  open_test host cfg assignment family = elim (test_port cfg) [
    | err e ↦ err (bad_port e)
    | ok port ↦ elim (resolve_bind host assignment port family) [
      | none ↦ err no_bind_addr
      | some bind_addr ↦
          if host.can_bind bind_addr
          then elim (make_payload cfg.payload_size) [
            | none ↦ err no_payload
            | some payload ↦
                ok (record { bind_addr = bind_addr; counters = new_counters cfg.hostlist })
          ]
          else err cannot_bind
    ]
  ]

  -- The tasks of the targets, `workers` for each.
  unfoldable pub tcp_send_tasks : Counters → ℕ → List Target → List Task
  unfolding peer
  tcp_send_tasks counters workers [] = []
  tcp_send_tasks counters workers (t ∷ targets) =
      replicate workers (tcp_send_task t.name t.addr (peer counters t.id))
      ++ tcp_send_tasks counters workers targets

  unfoldable pub spawn_tcp :
      Host → Config → Assignment → Option AddrFamily → Result {0, 0} SpawnError (TestIo × List Task)
  unfolding open_test tcp_send_tasks
  spawn_tcp host cfg assignment family = elim (open_test host cfg assignment family) [
    | err e ↦ err e
    | ok io ↦ ok (io, accept_task ∷ tcp_send_tasks io.counters cfg.workers assignment.targets)
  ]

  -- The address of a target; `none` leaves it out.
  unfoldable pub udp_dest : Host → Target → Option (SocketAddr std)
  udp_dest host t = elim (host.parse_addr t.addr) [ some a ↦ some a | none ↦ host.resolved t.name ]

  unfoldable pub udp_send_tasks : Host → Counters → ℕ → ℕ → List Target → List Task
  unfolding udp_dest peer
  udp_send_tasks host counters self_id workers [] = []
  udp_send_tasks host counters self_id workers (t ∷ targets) =
      (elim (udp_dest host t) [
        | none ↦ []
        | some dest ↦ replicate workers (udp_send_task dest t.id self_id (peer counters t.id))
      ])
      ++ udp_send_tasks host counters self_id workers targets

  unfoldable pub spawn_udp :
      Host → Config → Assignment → Option AddrFamily → Result {0, 0} SpawnError (TestIo × List Task)
  unfolding open_test udp_send_tasks
  spawn_udp host cfg assignment family = elim (open_test host cfg assignment family) [
    | err e ↦ err e
    | ok io ↦ ok (
      io,
      udp_recv_task (length cfg.hostlist) assignment.self_id
          ∷ udp_send_tasks host io.counters assignment.self_id cfg.workers assignment.targets,
    )
  ]
