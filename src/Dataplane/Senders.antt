-- ===== src/Dataplane/Senders.antt =====
-- The senders that a host starts in a mesh test.
use tperf.Common.{
  ℕ, zero, suc, ◌≤◌, ◌<◌, ◌∷◌, [], ◌++◌, List, false, Option, some, Text, if◌then◌else◌, map,
  replicate, length, ok, ◌≡◌, sym, ap, ◌∙◌, arith, ◌==◌, enumerate, get_elem?, u32_mod,
  Result-cases, Option-cases, inl, inr, length-map, lt-get_elem?, All, All-append, subst, true,
}
use tperf.NetUtil.{IpAddrs, AddrFamily}
use tperf.Config.{Config, test_port}
use tperf.Proto.{Assignment, Target}
use tperf.Metrics.{Counters, new_counters, peer, zeros}
use tperf.TestPlan.{assignments_mesh, target, fill_resolved}
use tperf.TestPlan.Addresses.{IsAddressOf}
use tperf.TestPlan.MeshRows.{mesh_row}
use tperf.Dataplane.Send.{make_payload}
use tperf.Dataplane.Spawn.{
  Host, Task, accept_task, tcp_send_task, udp_recv_task, udp_send_task, TestIo, resolve_bind,
  open_test, tcp_send_tasks, spawn_tcp,
}
use tperf.Dataplane.SenderCounts.{senders_to, senders_by, mesh_senders, senders_to-senders_by}

module _ (std : IpAddrs) where
  open_test-size :
      (host : Host std) (cfg : Config) (a : Assignment) (family : Option AddrFamily)
      (io : TestIo std)
      → open_test std host cfg a family ≡ ok io
      → length (io.counters.peers) ≡ length cfg.hostlist
  unfolding open_test new_counters
  open_test-size host cfg a family io e = elim (Result-cases (test_port cfg)) [
    | inr (x, p) ↦ absurd (ground arith)
    | inl (port, p) ↦ elim (Option-cases (resolve_bind std host a port family)) [
      | inl q ↦ absurd (ground arith)
      | inr (addr, q) ↦ elim (Option-cases (make_payload cfg.payload_size)) [
        | inl r ↦ absurd (ground arith)
        | inr (payload, r) ↦
            let same : new_counters cfg.hostlist ≡ io.counters = ground arith in
            ap (λ c. length c.peers) (sym same) ∙ length-map cfg.hostlist (λ _. zeros)
      ]
    ]
  ]

  module _ {Addr : Type 0} (to_string : Addr → Text) (resolved : List Addr) where
    -- A task of a TCP test: it accepts, or it counts for a host and dials the address that was
    -- resolved for it.
    abbrev pub IsDial : Task std → Type 0
    IsDial accept_task = Unit
    IsDial (tcp_send_task name addr handle) =
        (i : ℕ) × (handle ≡ some i) × IsAddressOf to_string resolved i addr
    IsDial (udp_recv_task n i) = true ≡ false
    IsDial (udp_send_task dest id self_id handle) = true ≡ false

    All-replicate : (n : ℕ) (t : Task std) → IsDial t → All IsDial (replicate n t)
    All-replicate zero t h = tt
    All-replicate (suc n) t h = (h, All-replicate n t h)

    tcp_send_tasks-IsDial :
        (c : Counters) (workers : ℕ) (ts : List Target)
        → length resolved ≡ length c.peers
        → All (λ t. IsAddressOf to_string resolved t.id t.addr) ts
        → All IsDial (tcp_send_tasks std c workers ts)
    unfolding tcp_send_tasks peer
    tcp_send_tasks-IsDial c workers [] size h = tt
    tcp_send_tasks-IsDial c workers (t ∷ ts) size ((a, e, p), h) =
        let small = lt-get_elem? resolved t.id e in
        let counted : peer c t.id ≡ some t.id = ground arith in
        All-append IsDial (replicate workers (tcp_send_task t.name t.addr (peer c t.id))) _
          (All-replicate workers _ (t.id, counted, (a, e, p)))
          (tcp_send_tasks-IsDial c workers ts size h)

    -- In a mesh test over TCP that starts, among at most 2 ^ 32 hosts with an address each, a host
    -- that has the assignment that `fill_resolved` makes for it has, for each other host, as many
    -- senders as the configuration has workers, each of which counts for that host, and none for
    -- itself. Each sender dials the address that was resolved for the host that it counts for, and
    -- beside the senders there is only the task that accepts.
    pub spawn_tcp-mesh :
        (host : Host std) (cfg : Config) (family : Option AddrFamily) (pre post : List Text)
        (x : Text) (asg' : List Assignment) (a : Assignment) (io : TestIo std)
        (tasks : List (Task std)) (j : ℕ)
        → cfg.hostlist ≡ pre ++ x ∷ post
        → length (pre ++ x ∷ post) ≤ u32_mod
        → length resolved ≡ length cfg.hostlist
        → fill_resolved to_string (assignments_mesh cfg.hostlist) resolved ≡ some asg'
        → get_elem? asg' (length pre) ≡ some a
        → spawn_tcp std host cfg a family ≡ ok (io, tasks)
        → j < length cfg.hostlist
        → (senders_to std j tasks ≡ (if j == length pre then 0 else cfg.workers)) × All IsDial tasks
    unfolding spawn_tcp
    spawn_tcp-mesh host cfg family pre post x asg' a io tasks j hosts few each fill at run small =
        elim (Result-cases (open_test std host cfg a family)) [
          | inr (e, q) ↦ absurd (ground arith)
          | inl (io', q) ↦
              let count = ap length hosts in
              let same_io : io' ≡ io = ground arith in
              let same : accept_task ∷ tcp_send_tasks std io'.counters cfg.workers a.targets
                  ≡ tasks =
                ground arith in
              let size = open_test-size host cfg a family io' q in
              let (own, dials) =
                mesh_row to_string resolved cfg.hostlist pre post x asg' a hosts each fill at in
              (
                ap (senders_to std j) (sym same)
                    ∙ senders_to-senders_by std j io'.counters cfg.workers a.targets
                    ∙ ap (senders_by std j io'.counters cfg.workers) own
                    ∙ sym (
                        senders_to-senders_by std j io'.counters cfg.workers
                          (map target (enumerate 0 pre ++ enumerate (suc (length pre)) post)))
                    ∙ mesh_senders std j io'.counters cfg.workers pre post x (size ∙ count) few
                        (omega arith),
                subst (All IsDial) same (
                  tt,
                  tcp_send_tasks-IsDial io'.counters cfg.workers a.targets (each ∙ sym size) dials,
                ),
              )
        ]
