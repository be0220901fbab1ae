-- ===== src/Dataplane/Delivery.antt =====
-- One payload from `udp_send_loop` to `udp_recv_loop`, on a network that loses nothing.
use native.Mathlib.Decide.{dec_lt}
use mathlib.Core.List.{flat_map}
use tperf.Common.{
  ℕ, zero, suc, ◌+◌, ◌-◌, ◌%◌, ◌^◌, ◌<◌, ◌≤◌, ◌≡◌, ◌≢◌, refl, sym, ap, ◌∙◌, true, false, not, ◌&&◌,
  List, ◌++◌, Option, none, some, arith, length, get_elem?, map, get_or, drop, ltb, lt→ltb,
  le→ltb_false, ◌==◌, ==_refl, u64_mod, u64_max, length-append, get_elem?-set_self, lt-get_elem?,
  max,
}
use tperf.Metrics.{Counters, AtomStats, add_recv, add_drop, add_sent, on_total, on_peer, peer}
use tperf.Dataplane.{udp_hdr, udp_pkt, note_seq, slice}
use tperf.Dataplane.Header.{header, length-header, read_hdr-header}
use tperf.Dataplane.Receive.{Receiver, count_gap, count_datagram, receive, datagram, udp_recv_loop}
use tperf.Dataplane.Send.{Sender, Poll, Pass, packets, send_payload, count_payload}
use tperf.Dataplane.Send.Wire.{
  to_datagram, wire_of, size, length-slice, send_chunks-wire, length-wire_of, wire_of-payload,
}

-- What the receiver has counted, modulo 2 ^ 64, and the sender's number that it waits for.
pub record Tally (from b k d seq : ℕ) (r : Receiver) : Type 0 where
  pub bytes : r.counters.total.bytes_recv ≡ b % u64_mod
  pub packets : r.counters.total.packets_recv ≡ k % u64_mod
  pub dropped : r.counters.total.packets_dropped ≡ d
  pub slot : Option ℕ
  pub at : get_elem? r.expected from ≡ some slot
  pub next : note_seq slot seq ≡ (some (seq + 1), 0)

recast :
    {from b b' k k' d seq seq' : ℕ} {r : Receiver}
    → b ≡ b'
    → k ≡ k'
    → seq ≡ seq'
    → Tally from b k d seq r
    → Tally from b' k' d seq' r
recast {from} {d = d} {r = r} e e' e'' t = record {
  bytes = t.bytes ∙ ap (λ (m : ℕ). m % u64_mod) e;
  packets = t.packets ∙ ap (λ (m : ℕ). m % u64_mod) e';
  dropped = t.dropped;
  slot = t.slot;
  at = t.at;
  next = rw (sym e'') t.next;
}

on_peer-total :
    (handle : Option ℕ) (f : AtomStats → AtomStats) (c : Counters)
    → (on_peer handle f c).total ≡ c.total
unfolding on_peer
on_peer-total none f c = refl
on_peer-total (some i) f c = refl

waits : (seq : ℕ) → seq < u64_max → note_seq (some seq) seq ≡ (some (seq + 1), 0)
unfolding note_seq
waits seq h = ground arith

count_gap-Tally :
    (from b k d seq : ℕ) (r : Receiver)
    → seq + 1 < u64_max
    → Tally from b k d seq r
    → Tally from b k d (seq + 1) (count_gap from seq r)
unfolding count_gap add_drop on_total
count_gap-Tally from b k d seq r u t =
    let room = lt-get_elem? r.expected from t.at in
    let c = on_total (add_drop 0) r.counters in
    let same = on_peer-total (peer c from) (add_drop 0) c in
    rw (t.at, count_gap, t.next)
      (record {
        bytes = ap (λ s. s.bytes_recv) same ∙ t.bytes;
        packets = ap (λ s. s.packets_recv) same ∙ t.packets;
        dropped = ap (λ s. s.packets_dropped) same ∙ t.dropped;
        slot = some (seq + 1);
        at = get_elem?-set_self r.expected from (some (seq + 1)) room;
        next = waits (seq + 1) u;
      })

module _ (npeers self_id from : ℕ) (known : from < npeers) (other : from ≢ self_id) where
  is_known : (ltb from npeers && not (from == self_id)) ≡ true
  is_known = ground arith

  count_datagram-Tally :
      (r : Receiver) (b k d seq n : ℕ)
      → 0 < n
      → seq + 1 < u64_max
      → Tally from b k d seq r
      → Tally from (b + n) (k + 1) d (seq + 1) (count_datagram npeers self_id r from seq n)
  unfolding count_datagram add_recv on_total
  count_datagram-Tally r b k d seq n h u t =
      let c = on_total (add_recv n 1) r.counters in
      let same = on_peer-total (peer c from) (add_recv n 1) c in
      rw is_known (
        count_gap-Tally from (b + n) (k + 1) d seq _ u (record {
          bytes = ap (λ s. s.bytes_recv) same ∙ ground (arith, t.bytes);
          packets = ap (λ s. s.packets_recv) same ∙ ground (arith, t.packets);
          dropped = ap (λ s. s.packets_dropped) same ∙ t.dropped;
          slot = t.slot;
          at = t.at;
          next = t.next;
        }))

  receive-Tally :
      (r : Receiver) (b k d seq : ℕ) (bytes : List ℕ)
      → from < 2 ^ 32
      → 0 < length bytes
      → length bytes < 2 ^ 32
      → seq + 1 < u64_max
      → Tally from b k d seq r
      → Tally from
          (b + length bytes)
          (k + 1)
          d
          (seq + 1)
          (receive npeers self_id r (to_datagram from seq bytes))
  unfolding receive to_datagram
  receive-Tally r b k d seq bytes f h l u t =
      let whole : length (header from seq (length bytes) ++ bytes) - udp_hdr ≡ length bytes =
        omega (
          arith,
          length-append (header from seq (length bytes)) bytes,
          length-header from seq (length bytes),
        ) in
      rw
        (
          read_hdr-header from seq (length bytes) bytes f (omega arith) l,
          receive,
          whole,
          ==_refl (length bytes),
        )
        (count_datagram-Tally r b k d seq (length bytes) h u t)

  module _ (payload : List ℕ) (dest_id : ℕ) (handle : Option ℕ) (small : from < 2 ^ 32) where
    abbrev wire : ℕ → ℕ → ℕ → List (List ℕ)
    wire = wire_of payload dest_id from handle

    deliver :
        (fuel seq offset : ℕ) (r : Receiver) (b k d : ℕ)
        → offset ≤ length payload
        → length payload - offset ≤ fuel
        → seq + fuel < u64_max
        → Tally from b k d seq r
        → Tally from
            (b + (length payload - offset))
            (k + length (wire fuel seq offset))
            d
            (seq + length (wire fuel seq offset))
            (udp_recv_loop npeers self_id r (map datagram (wire fuel seq offset)))
    unfolding udp_recv_loop wire_of
    deliver zero seq offset r b k d h f u t = recast (omega arith) (omega arith) (omega arith) t
    deliver (suc fuel) seq offset r b k d h f u t = elim (dec_lt offset (length payload)) [
      | no done ↦
          rw (le→ltb_false offset (length payload) (omega arith))
            (recast (omega arith) (omega arith) (omega arith) t)
      | yes more ↦
          let n = size payload dest_id from handle offset in
          let bytes = slice offset (offset + n) payload in
          let l = length-slice payload dest_id from handle offset more in
          let first =
            receive-Tally r b k d seq bytes small (omega arith) (omega arith) (omega arith) t in
          let rest =
            deliver fuel (seq + 1) (offset + n)
              (receive npeers self_id r (to_datagram from seq bytes)) (b + length bytes) (k + 1) d
              (omega arith) (omega arith) (omega arith) first in
          rw (lt→ltb offset (length payload) more)
            (recast (omega arith) (omega arith) (omega arith) rest)
    ]

-- A sender whose next datagram to `dest_id` has the number `seq`.
pub record IsReady (dest_id seq : ℕ) (s : Sender) : Type 0 where
  pub buffer : length s.pkt ≡ udp_pkt
  pub listed : dest_id < length s.seqs
  pub next : get_or s.seqs dest_id 0 ≡ seq

-- A payload of any length (`make_payload` makes none that is empty), sent with no error by a host
-- that the receiver knows and handed over in order: the send loop neither panics nor runs out of
-- fuel, and counts the payload and its datagrams; the payloads of the datagrams make up the
-- payload; the receiver counts as many bytes and datagrams as the sender, no drop, and is ready for
-- the next payload. (Numbers below the end of u64.)
pub send-receive :
    (payload : List ℕ) (dest_id from : ℕ) (handle : Option ℕ) (polls : ℕ → Poll) (s : Sender)
    (npeers self_id : ℕ) (r : Receiver) (b k d seq : ℕ)
    → ((i : ℕ) → (polls i).cancelled ≡ false)
    → ((i : ℕ) → (polls i).sent ≡ true)
    → from < npeers
    → from ≢ self_id
    → from < 2 ^ 32
    → seq + length payload < u64_max
    → IsReady dest_id seq s
    → Tally from b k d seq r
    → (pass : Pass) × (send_payload payload dest_id from handle polls s ≡ some pass)
      × (pass.sender.counters
          ≡ on_peer handle
              (add_sent (length payload) (max (packets payload dest_id from handle) 1))
              (on_total
                (add_sent (length payload) (max (packets payload dest_id from handle) 1))
                s.counters))
      × (flat_map (drop udp_hdr) pass.wire ≡ payload)
      × Tally from
          (b + length payload)
          (k + packets payload dest_id from handle)
          d
          (seq + packets payload dest_id from handle)
          (udp_recv_loop npeers self_id r (map datagram pass.wire))
unfolding send_payload
send-receive payload dest_id from handle polls s npeers self_id r b k d seq go ok known other small
      u v t =
    let fuel = length payload in
    let wire = wire_of payload dest_id from handle fuel seq 0 in
    let (s', e, same) =
      send_chunks-wire payload dest_id from handle polls go ok fuel 0 s.counters seq s 0
        (record { same = refl; buffer = v.buffer; listed = v.listed; next = v.next }) (omega arith)
        (omega arith) (omega arith) in
    let count = length-wire_of payload dest_id from handle fuel seq 0 (omega arith) (omega arith) in
    let arrived =
      deliver npeers self_id from known other payload dest_id handle small fuel seq 0 r b k d
        (omega arith) (omega arith) u t in
    (
      record {
        wire = wire;
        sender = count_payload payload dest_id from handle s';
        offset = fuel;
        write_ok = true;
      },
      rw (e, ==_refl fuel),
      ap
          (λ c.
            on_peer handle (add_sent fuel (max (packets payload dest_id from handle) 1))
              (on_total (add_sent fuel (max (packets payload dest_id from handle) 1)) c))
          same,
      wire_of-payload payload dest_id from handle fuel seq 0 (omega arith) (omega arith),
      recast (omega arith) (omega (arith, count)) (omega (arith, count)) arrived,
    )
