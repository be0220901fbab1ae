-- ===== src/Dataplane/Receive.antt =====
-- The receiving side of src/dataplane.rs: `udp_recv_loop` and `tcp_recv_loop`.
pub mod Balance
use tperf.Common.{
  ℕ, ◌+◌, ◌-◌, Bool, true, false, not, ◌&&◌, List, [], ◌∷◌, Option, none, some, length, get_elem?,
  set, ltb, ◌==◌, if◌then◌else◌, Text, map,
}
use tperf.Metrics.{Counters, add_recv, add_drop, on_total, on_peer, peer, new_counters}
use tperf.Dataplane.{udp_hdr, read_hdr, note_seq}

pub record Receiver : Type 0 where
  pub counters : Counters
  -- The next sequence number of each sender.
  pub expected : List (Option ℕ)

unfoldable pub new_receiver : List Text → Receiver
unfolding new_counters
new_receiver hostlist = record {
  counters = new_counters hostlist;
  expected = map (λ _. none) hostlist;
}

-- The gap before datagram `seq` of this sender goes to the total and to the sender.
unfoldable pub count_gap : ℕ → ℕ → Receiver → Receiver
unfolding on_total on_peer peer
count_gap sender seq r = elim (get_elem? r.expected sender) [
  | none ↦ r
  | some slot ↦
      let (slot', d) = note_seq slot seq in
      let c = on_total (add_drop d) r.counters in
      record {
        counters = on_peer (peer c sender) (add_drop d) c;
        expected = set r.expected sender slot';
      }
]

unfoldable pub count_datagram : ℕ → ℕ → Receiver → ℕ → ℕ → ℕ → Receiver
unfolding on_total on_peer peer count_gap
count_datagram npeers self_id r sender seq payload_bytes =
    let c = on_total (add_recv payload_bytes 1) r.counters in
    if ltb sender npeers && not (sender == self_id)
    then count_gap sender seq
        (record r { counters = on_peer (peer c sender) (add_recv payload_bytes 1) c })
    else record r { counters = c }

-- What `recv_from` put into the buffer, `buf[..n]`.
unfoldable pub receive : ℕ → ℕ → Receiver → List ℕ → Receiver
unfolding count_datagram
receive npeers self_id r buf = elim (read_hdr buf) [
  | none ↦ r
  | some (sender, seq, plen) ↦
      if plen == length buf - udp_hdr
      then count_datagram npeers self_id r sender seq (length buf - udp_hdr)
      else r
]

-- What the loop waits for: the cancellation, a datagram, or an error of the socket, with what
-- `is_cancelled` says then.
pub data UdpEvent : Type 0 where
  cancelled : UdpEvent
  datagram : List ℕ → UdpEvent
  failed : Bool → UdpEvent

unfoldable pub udp_recv_loop : ℕ → ℕ → Receiver → List UdpEvent → Receiver
unfolding receive
udp_recv_loop npeers self_id r [] = r
udp_recv_loop npeers self_id r (cancelled ∷ events) = r
udp_recv_loop npeers self_id r (datagram buf ∷ events) =
    udp_recv_loop npeers self_id (receive npeers self_id r buf) events
udp_recv_loop npeers self_id r (failed true ∷ events) = r
udp_recv_loop npeers self_id r (failed false ∷ events) = udp_recv_loop npeers self_id r events

-- The result of a read: bytes, the end of the stream (`Ok(0)`), or an error.
pub data ReadEvent : Type 0 where
  cancelled : ReadEvent
  bytes : ℕ → ReadEvent
  error : ReadEvent

-- `peer` is the handle that the accept loop looked up.
unfoldable pub tcp_recv_loop : Option ℕ → Counters → List ReadEvent → Counters
unfolding on_total on_peer
tcp_recv_loop handle c [] = c
tcp_recv_loop handle c (ReadEvent.cancelled ∷ events) = c
tcp_recv_loop handle c (bytes n ∷ events) =
    let rest =
      tcp_recv_loop handle (on_peer handle (add_recv n 0) (on_total (add_recv n 0) c)) events in
    if n == 0 then c else rest
tcp_recv_loop handle c (error ∷ events) = c
