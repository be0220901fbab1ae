-- ===== src/Dataplane/Receive/Balance.antt =====
-- The receiving side keeps its counters in balance, whatever arrives.
use tperf.Common.{
  ℕ, ◌-◌, ◌<◌, ◌≡◌, refl, List, [], ◌∷◌, map, Option, none, some, arith, length, true, false, not,
  Text, length-set, length-map, get_elem?-lt, ltb, ◌==◌, lt→ltb, ltb→lt, Bool-cases, Option-cases,
  inl, inr, ◌&&◌, ◌∙◌,
}
use tperf.Metrics.{Counters, AtomStats, add_recv, add_drop, on_total, on_peer, peer, zeros}
use tperf.Metrics.Balance.{
  Balanced, add_drop-Balanced, total_recv-Balanced, peer_recv-Balanced, length-update, sum_of,
}
use tperf.Dataplane.{udp_hdr, read_hdr, note_seq}
use tperf.Dataplane.Receive.{
  Receiver, new_receiver, count_gap, count_datagram, receive, UdpEvent, cancelled, datagram, failed,
  udp_recv_loop,
}

-- A receiver for `npeers` hosts.
pub record IsReceiver (npeers : ℕ) (r : Receiver) : Type 0 where
  pub balanced : Balanced r.counters
  pub peers : length r.counters.peers ≡ npeers
  pub slots : length r.expected ≡ npeers

on_peer-length :
    (handle : Option ℕ) (f : AtomStats → AtomStats) (c : Counters)
    → length (on_peer handle f c).peers ≡ length c.peers
unfolding on_peer
on_peer-length none f c = refl
on_peer-length (some i) f c = length-update f c.peers i

module _ (npeers : ℕ) where
  count_gap-IsReceiver :
      (sender seq : ℕ) (r : Receiver)
      → sender < npeers
      → IsReceiver npeers r
      → IsReceiver npeers (count_gap sender seq r)
  unfolding count_gap
  count_gap-IsReceiver sender seq r h v =
      let (slot, e) = get_elem?-lt r.expected sender (omega (arith, v.slots)) in
      let (s, at) = get_elem?-lt r.counters.peers sender (omega (arith, v.peers)) in
      let d = (note_seq slot seq).1 in
      rw (e, count_gap, lt→ltb sender (length r.counters.peers) (omega (arith, v.peers)))
        (record {
          balanced = add_drop-Balanced r.counters sender at v.balanced d;
          peers =
              on_peer-length (some sender) (add_drop d) (on_total (add_drop d) r.counters)
              ∙ v.peers;
          slots = length-set r.expected sender (note_seq slot seq).0 ∙ v.slots;
        })

  count_datagram-IsReceiver :
      (self_id : ℕ) (r : Receiver) (sender seq n : ℕ)
      → IsReceiver npeers r
      → IsReceiver npeers (count_datagram npeers self_id r sender seq n)
  unfolding count_datagram
  count_datagram-IsReceiver self_id r sender seq n v =
      let c = on_total (add_recv n 1) r.counters in
      let total = total_recv-Balanced r.counters v.balanced n 1 in
      elim (Bool-cases (ltb sender npeers && not (sender == self_id))) [
        | inl known ↦ rw known (
            count_gap-IsReceiver sender seq
              (record r { counters = on_peer (peer c sender) (add_recv n 1) c })
              (ltb→lt sender npeers (ground (arith, known)))
              (record {
                balanced = peer_recv-Balanced c total n 1 (peer c sender);
                peers = on_peer-length (peer c sender) (add_recv n 1) c ∙ v.peers;
                slots = v.slots;
              }))
        | inr stranger ↦ rw stranger (record { balanced = total; peers = v.peers; slots = v.slots })
      ]

  receive-IsReceiver :
      (self_id : ℕ) (r : Receiver) (buf : List ℕ)
      → IsReceiver npeers r
      → IsReceiver npeers (receive npeers self_id r buf)
  unfolding receive
  receive-IsReceiver self_id r buf v = elim (Option-cases (read_hdr buf)) [
    | inl e ↦ rw (e, receive) v
    | inr ((sender, seq, plen), e) ↦ elim (Bool-cases (plen == length buf - udp_hdr)) [
      | inl whole ↦
          rw (e, receive, whole)
            (count_datagram-IsReceiver self_id r sender seq (length buf - udp_hdr) v)
      | inr other ↦ rw (e, receive, other) v
    ]
  ]

  -- Whatever arrives, the total of dropped datagrams stays the sum over the peers, modulo 2 ^ 64,
  -- and no update goes astray: one slot and one set of statistics for each host.
  pub udp_recv_loop-IsReceiver :
      (self_id : ℕ) (r : Receiver) (events : List UdpEvent)
      → IsReceiver npeers r
      → IsReceiver npeers (udp_recv_loop npeers self_id r events)
  unfolding udp_recv_loop
  udp_recv_loop-IsReceiver self_id r [] v = v
  udp_recv_loop-IsReceiver self_id r (cancelled ∷ events) v = v
  udp_recv_loop-IsReceiver self_id r (datagram buf ∷ events) v =
      udp_recv_loop-IsReceiver self_id (receive npeers self_id r buf) events
        (receive-IsReceiver self_id r buf v)
  udp_recv_loop-IsReceiver self_id r (failed true ∷ events) v = v
  udp_recv_loop-IsReceiver self_id r (failed false ∷ events) v =
      udp_recv_loop-IsReceiver self_id r events v

sum_of-zeros :
    (g : AtomStats → ℕ) (hosts : List Text) → g zeros ≡ 0 → sum_of g (map (λ _. zeros) hosts) ≡ 0
sum_of-zeros g [] e = refl
sum_of-zeros g (x ∷ hosts) e = omega (arith, sum_of-zeros g hosts e)

-- At the start of a test.
pub new_receiver-IsReceiver :
    (hostlist : List Text) → IsReceiver (length hostlist) (new_receiver hostlist)
unfolding new_receiver
new_receiver-IsReceiver hostlist = record {
  balanced = record {
    sent = omega (arith, sum_of-zeros (λ s. s.bytes_sent) hostlist refl);
    packets = omega (arith, sum_of-zeros (λ s. s.packets_sent) hostlist refl);
    dropped = omega (arith, sum_of-zeros (λ s. s.packets_dropped) hostlist refl);
  };
  peers = length-map hostlist (λ _. zeros);
  slots = length-map {B = Option ℕ} hostlist (λ _. none);
}
