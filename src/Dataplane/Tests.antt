-- ===== src/Dataplane/Tests.antt =====
-- The functions of src/dataplane.rs on small inputs, and the theorems at such inputs.
use tperf.Common.{
  ℕ, ◌+◌, ◌≡◌, refl, List, [], ◌∷◌, none, some, codes, arith, length, drop, Text, true, false,
  replicate, map,
}
use tperf.Common.{Option, ◌==◌, text_eq, if◌then◌else◌}
use mathlib.Core.List.{flat_map}
use tperf.NetUtil.{IpAddrs, SocketAddr, v4}
use tperf.Common.{All, ok}
use tperf.Config.{Config, tcp, mesh}
use tperf.Proto.{Assignment}
use tperf.TestPlan.{assignments_mesh, fill_resolved}
use tperf.Dataplane.Send.{make_payload}
use tperf.Dataplane.Spawn.{Host, Task, accept_task, tcp_send_task, TestIo, spawn_tcp}
use tperf.Dataplane.SenderCounts.{senders_to}
use tperf.Dataplane.Senders.{IsDial, spawn_tcp-mesh}
use tperf.Dataplane.Accept.{AcceptEvent, accepted, tcp_accept_loop, build_ip_map}
use tperf.Dataplane.Peers.{AreHandles, tcp_accept_loop-AreHandles}
use tperf.Metrics.{new_counters, add_sent, on_total, on_peer}
use tperf.Dataplane.{udp_hdr, udp_pkt, from_be_bytes, write_hdr, read_hdr, note_seq}
use tperf.Dataplane.Header.{read_hdr-write_hdr}
use tperf.Dataplane.Sequence.{note_all, high, advances, note_all-high}
use tperf.Dataplane.Receive.{new_receiver, cancelled, datagram, failed, udp_recv_loop}
use tperf.Dataplane.Receive.Balance.{IsReceiver, udp_recv_loop-IsReceiver, new_receiver-IsReceiver}
use tperf.Dataplane.Send.{Sender, Poll, Pass, send_payload}
use tperf.Dataplane.Delivery.{Tally, IsReady, send-receive}

abbrev hosts : List Text
hosts = codes "srv1" ∷ codes "srv2" ∷ []

abbrev blank : List ℕ
blank = replicate 24 0

read_hdr-write_hdr_example :
    (buf' : List ℕ) × (write_hdr blank 7 99 1234 ≡ some buf')
    × (read_hdr buf' ≡ some (7, 99, 1234))
    × (length buf' ≡ 24)
    × (drop 20 buf' ≡ 0 ∷ 0 ∷ 0 ∷ 0 ∷ [])
read_hdr-write_hdr_example =
    read_hdr-write_hdr blank 7 99 1234 (omega arith) (omega arith) (omega arith) (omega arith)

-- The header of datagram 258 of host 1, with two bytes of payload.
abbrev two_bytes : List ℕ
two_bytes =
    0x54 ∷ 0x46 ∷ 0x50 ∷ 0x31 ∷ 0 ∷ 0 ∷ 0 ∷ 1 ∷ 0 ∷ 0 ∷ 0 ∷ 0 ∷ 0 ∷ 0 ∷ 1 ∷ 2 ∷ 0 ∷ 0 ∷ 0 ∷ 2 ∷ 5
    ∷ 6 ∷ []

read_two_bytes : read_hdr two_bytes ≡ some (1, 258, 2)
unfolding read_hdr from_be_bytes
read_two_bytes = refl

-- The sequence of the source's own test: 0, 1, 5, 6, 3.
seq_gaps : note_all none (0 ∷ 1 ∷ 5 ∷ 6 ∷ 3 ∷ []) ≡ (some 7, 3)
unfolding note_all
seq_gaps = refl

note_all-high_example :
    ((note_all (some 1) (1 ∷ 5 ∷ 6 ∷ 3 ∷ [])).0 ≡ some (high 1 (1 ∷ 5 ∷ 6 ∷ 3 ∷ [])))
    × ((note_all (some 1) (1 ∷ 5 ∷ 6 ∷ 3 ∷ [])).1 + advances 1 (1 ∷ 5 ∷ 6 ∷ 3 ∷ []) + 1
        ≡ high 1 (1 ∷ 5 ∷ 6 ∷ 3 ∷ []))
note_all-high_example = note_all-high (1 ∷ 5 ∷ 6 ∷ 3 ∷ []) 1 (omega arith) (omega arith)

udp_recv_loop-IsReceiver_example :
    IsReceiver 2
      (udp_recv_loop 2 0 (new_receiver hosts) (datagram two_bytes ∷ failed false ∷ cancelled ∷ []))
udp_recv_loop-IsReceiver_example =
    udp_recv_loop-IsReceiver 2 0 (new_receiver hosts)
      (datagram two_bytes ∷ failed false ∷ cancelled ∷ []) (new_receiver-IsReceiver hosts)

-- The datagram was host 1's first: it was counted, and no gap before it.
received :
    (udp_recv_loop 2 0 (new_receiver hosts) (datagram two_bytes ∷ [])).expected
    ≡ none ∷ some 259 ∷ []
unfolding udp_recv_loop new_receiver read_hdr from_be_bytes note_seq
received = refl

sender : Sender
sender = record { counters = new_counters hosts; seqs = 0 ∷ 0 ∷ []; pkt = replicate udp_pkt 0 }

always : ℕ → Poll
always i = record { cancelled = false; sent = true }

sender-IsReady : IsReady 0 0 sender
unfolding sender
sender-IsReady = record { buffer = refl; listed = omega arith; next = refl }

fresh-Tally : Tally 1 0 0 0 0 (new_receiver hosts)
unfolding new_receiver note_seq
fresh-Tally = record {
  bytes = refl;
  packets = refl;
  dropped = refl;
  slot = none;
  at = refl;
  next = refl;
}

send-receive_example :
    (pass : Pass) × (send_payload (5 ∷ 6 ∷ 7 ∷ []) 0 1 (some 0) always sender ≡ some pass)
    × (pass.sender.counters
        ≡ on_peer (some 0) (add_sent 3 1) (on_total (add_sent 3 1) sender.counters))
    × (flat_map (drop udp_hdr) pass.wire ≡ 5 ∷ 6 ∷ 7 ∷ [])
    × Tally 1 3 1 0 1 (udp_recv_loop 2 0 (new_receiver hosts) (map datagram pass.wire))
unfolding always
send-receive_example =
    send-receive (5 ∷ 6 ∷ 7 ∷ []) 0 1 (some 0) always sender 2 0 (new_receiver hosts) 0 0 0 0
      (λ i. refl) (λ i. refl) (omega arith) (omega arith) (omega arith) (omega arith) sender-IsReady
      fresh-Tally

-- Addresses are numbers here, and only the second of three hosts has address 5.
abbrev numbered : IpAddrs
numbered = record {
  IpAddr = ℕ;
  parse = λ s. none;
  family = λ ip. v4;
  is_unspecified = λ ip. false;
  is_loopback = λ ip. false;
}

abbrev lookup_srv : Text → Option (List (SocketAddr numbered))
lookup_srv query = if text_eq query (codes "srv2:80") then some ((5, 80) ∷ []) else none

abbrev connections : List (AcceptEvent numbered)
connections =
    accepted (5, 1) ∷ AcceptEvent.failed false ∷ accepted (6, 2) ∷ AcceptEvent.cancelled ∷ []

tcp_accept_loop-AreHandles_example :
    AreHandles numbered
      (λ a b. a == b)
      lookup_srv
      80
      none
      hosts
      connections
      (tcp_accept_loop numbered
        (λ a b. a == b)
        (new_counters hosts)
        (build_ip_map numbered lookup_srv hosts 80 none)
        connections)
tcp_accept_loop-AreHandles_example =
    tcp_accept_loop-AreHandles numbered (λ a b. a == b) lookup_srv 80 none hosts connections
      (omega arith)

abbrev mesh_config : Config
mesh_config = record {
  client_addr = codes "a:7777";
  test_addr = codes "b:80";
  network = tcp;
  payload_size = 3;
  workers = 2;
  test_type = mesh;
  hostlist = hosts;
  hostlist_raw = [];
  tag = codes "t";
}

abbrev machine : Host numbered
machine = record {
  parse_addr = λ s. some (9, 80);
  local_unicast_ips = 9 ∷ [];
  resolved = λ s. some (9, 80);
  can_bind = λ a. true;
}

-- The addresses of the two hosts, and what `fill_resolved` makes of their assignments.
abbrev addresses : List Text
addresses = codes "10.0.0.1:80" ∷ codes "10.0.0.2:80" ∷ []

abbrev task : Assignment
task = record {
  self_name = codes "srv1";
  self_id = 0;
  bind = codes "10.0.0.1:80";
  targets = record { name = codes "srv2"; id = 1; addr = codes "10.0.0.2:80" } ∷ [];
}

abbrev other_task : Assignment
other_task = record {
  self_name = codes "srv2";
  self_id = 1;
  bind = codes "10.0.0.2:80";
  targets = record { name = codes "srv1"; id = 0; addr = codes "10.0.0.1:80" } ∷ [];
}

abbrev io : TestIo numbered
io = record { bind_addr = (9, 80); counters = new_counters hosts }

abbrev tasks : List (Task numbered)
tasks =
    accept_task
    ∷ tcp_send_task (codes "srv2") (codes "10.0.0.2:80") (some 1)
    ∷ tcp_send_task (codes "srv2") (codes "10.0.0.2:80") (some 1)
    ∷ []

filled_tasks :
    fill_resolved (λ a. a) (assignments_mesh hosts) addresses ≡ some (task ∷ other_task ∷ [])
unfolding fill_resolved assignments_mesh
filled_tasks = refl

spawned_tasks : spawn_tcp numbered machine mesh_config task none ≡ ok (io, tasks)
unfolding spawn_tcp make_payload tperf.Config.test_port tperf.NetUtil.parse_host_port
    tperf.Strings.rsplit_once tperf.Strings.contains tperf.Strings.parse_uint
spawned_tasks = refl

spawn_tcp-mesh_example :
    (senders_to numbered 1 tasks ≡ 2) × All (IsDial numbered (λ a. a) addresses) tasks
spawn_tcp-mesh_example =
    spawn_tcp-mesh numbered (λ a. a) addresses machine mesh_config none [] (codes "srv2" ∷ [])
      (codes "srv1") (task ∷ other_task ∷ []) task io tasks 1 refl (omega arith) refl filled_tasks
      refl spawned_tasks (omega arith)
