-- ===== src/Dataplane/Send/Wire.antt =====
-- What a payload becomes on the wire, when every `send_to` succeeds.
use native.Mathlib.Decide.{dec_lt}
use mathlib.Core.List.{flat_map}
use tperf.Common.{
  ℕ, zero, suc, ◌+◌, ◌-◌, ◌/◌, ◌%◌, ◌<◌, ◌≤◌, ◌≡◌, sym, ap, ◌∙◌, true, false, List, [], ◌∷◌, ◌++◌,
  Option, some, arith, length, set, min, ltb, lt→ltb, le→ltb_false, if◌then◌else◌, drop, u32_mod,
  u64_mod, length-append, length-take, length-drop, take_prefix, length-set, get_or-set_self,
  drop-length, drop_prefix,
}
use tperf.Metrics.{Counters}
use tperf.Dataplane.{udp_hdr, udp_pkt, slice}
use tperf.Dataplane.Header.{header, length-header, write_hdr-header, copy_behind, join}
use tperf.Dataplane.Send.{chunk, Sender, Poll, Pass, next_seq, fill_packet, send_chunks}

-- A header with the length of the chunk behind it, and the chunk.
unfoldable pub to_datagram : ℕ → ℕ → List ℕ → List ℕ
to_datagram self_id seq bytes = header self_id seq (length bytes) ++ bytes

module _ (payload : List ℕ) (dest_id self_id : ℕ) (handle : Option ℕ) where
  -- The number of bytes that the datagram from `offset` on takes.
  abbrev pub size : ℕ → ℕ
  size offset = min (length payload - offset) chunk

  -- The bytes from `offset` on, cut into datagrams.
  unfoldable pub wire_of : ℕ → ℕ → ℕ → List (List ℕ)
  wire_of zero seq offset = []
  wire_of (suc fuel) seq offset =
      let rest = wire_of fuel (seq + 1) (offset + size offset) in
      if ltb offset (length payload)
      then to_datagram self_id seq (slice offset (offset + size offset) payload) ∷ rest
      else []

  pub length-slice :
      (offset : ℕ)
      → offset < length payload
      → length (slice offset (offset + size offset) payload) ≡ size offset
  length-slice offset h = omega (
    arith,
    length-take (offset + size offset - offset) (drop offset payload),
    length-drop offset payload,
  )

  -- The buffer after a packet was filled in.
  abbrev filled : Sender → ℕ → List ℕ
  filled s offset =
      to_datagram self_id (next_seq payload dest_id self_id handle s)
        (slice offset (offset + size offset) payload)
      ++ drop (udp_hdr + size offset) s.pkt

  length-filled :
      (s : Sender) (offset : ℕ)
      → length s.pkt ≡ udp_pkt
      → offset < length payload
      → length (filled s offset) ≡ udp_pkt
  unfolding to_datagram
  length-filled s offset e h =
      let bytes = slice offset (offset + size offset) payload in
      let head = header self_id (next_seq payload dest_id self_id handle s) (length bytes) in
      omega (
        arith,
        length-append (head ++ bytes) (drop (udp_hdr + size offset) s.pkt),
        length-append head bytes,
        length-header self_id (next_seq payload dest_id self_id handle s) (length bytes),
        length-drop (udp_hdr + size offset) s.pkt,
        length-slice offset h,
      )

  fill_packet-datagram :
      (s : Sender) (offset : ℕ)
      → length s.pkt ≡ udp_pkt
      → offset < length payload
      → fill_packet payload dest_id self_id handle s offset
        ≡ some (
          record s {
            seqs = set s.seqs dest_id ((next_seq payload dest_id self_id handle s + 1) % u64_mod);
            pkt = filled s offset;
          },
          to_datagram self_id
              (next_seq payload dest_id self_id handle s)
              (slice offset (offset + size offset) payload),
        )
  unfolding fill_packet to_datagram
  fill_packet-datagram s offset e h =
      let n = size offset in
      let q = next_seq payload dest_id self_id handle s in
      let bytes = slice offset (offset + n) payload in
      let short : n % u32_mod ≡ n = omega arith in
      let head = header self_id q n in
      let l = length-slice offset h in
      rw (
        short,
        write_hdr-header s.pkt self_id q n (omega arith),
        copy_behind head s.pkt bytes udp_hdr (udp_hdr + n) (length-header self_id q n) (omega arith)
            (omega arith),
        take_prefix (udp_hdr + n) (head ++ bytes) (drop (udp_hdr + n) s.pkt)
            (omega (arith, length-append head bytes, length-header self_id q n)),
        l,
      )

  -- The sender behind a number of datagrams, of which the next has the number `seq`.
  pub record IsAt (c : Counters) (seq : ℕ) (s : Sender) : Type 0 where
    pub same : s.counters ≡ c
    pub buffer : length s.pkt ≡ udp_pkt
    pub listed : dest_id < length s.seqs
    pub next : next_seq payload dest_id self_id handle s ≡ seq

  fill_packet-IsAt :
      (c : Counters) (seq : ℕ) (s : Sender) (offset : ℕ)
      → IsAt c seq s
      → offset < length payload
      → seq + 1 < u64_mod
      → (s' : Sender) × (fill_packet payload dest_id self_id handle s offset
          ≡ some (s', to_datagram self_id seq (slice offset (offset + size offset) payload)))
        × IsAt c (seq + 1) s'
  fill_packet-IsAt c seq s offset v h fits =
      let q = next_seq payload dest_id self_id handle s in
      let bytes = slice offset (offset + size offset) payload in
      (
        record s { seqs = set s.seqs dest_id ((q + 1) % u64_mod); pkt = filled s offset },
        fill_packet-datagram s offset v.buffer h
            ∙ ap
                (λ (m : ℕ). some (
                  record s { seqs = set s.seqs dest_id ((q + 1) % u64_mod); pkt = filled s offset },
                  to_datagram self_id m bytes,
                ))
                v.next,
        record {
          same = v.same;
          buffer = length-filled s offset v.buffer h;
          listed = omega (arith, length-set s.seqs dest_id ((q + 1) % u64_mod), v.listed);
          next =
              get_or-set_self s.seqs dest_id ((q + 1) % u64_mod) 0 v.listed ∙ omega (arith, v.next);
        },
      )

  send_step :
      (polls : ℕ → Poll) (fuel k : ℕ) (s s' : Sender) (offset : ℕ) (d : List ℕ) (pass : Pass)
      → ltb offset (length payload) ≡ true
      → (polls k).cancelled ≡ false
      → (polls k).sent ≡ true
      → fill_packet payload dest_id self_id handle s offset ≡ some (s', d)
      → send_chunks payload dest_id self_id handle fuel polls (suc k) s' (offset + size offset)
        ≡ some pass
      → send_chunks payload dest_id self_id handle (suc fuel) polls k s offset
        ≡ some (record pass { wire = d ∷ pass.wire })
  unfolding send_chunks
  send_step polls fuel k s s' offset d pass h go ok e e' = ground arith

  -- Enough fuel: a round for each byte that is left.
  pub send_chunks-wire :
      (polls : ℕ → Poll)
      → ((k : ℕ) → (polls k).cancelled ≡ false)
      → ((k : ℕ) → (polls k).sent ≡ true)
      → (fuel k : ℕ) (c : Counters) (seq : ℕ) (s : Sender) (offset : ℕ) → IsAt c seq s
      → offset ≤ length payload
      → length payload - offset ≤ fuel
      → seq + fuel < u64_mod
      → (s' : Sender) × (send_chunks payload dest_id self_id handle fuel polls k s offset
          ≡ some (record {
            wire = wire_of fuel seq offset;
            sender = s';
            offset = length payload;
            write_ok = true;
          }))
        × (s'.counters ≡ c)
  unfolding send_chunks wire_of
  send_chunks-wire polls go ok zero k c seq s offset v h f u =
      let e : offset ≡ length payload = omega arith in (s, rw e (ground arith), v.same)
  send_chunks-wire polls go ok (suc fuel) k c seq s offset v h f u =
      elim (dec_lt offset (length payload)) [
        | no done ↦
            let e : offset ≡ length payload = omega arith in (s, rw e (ground arith), v.same)
        | yes more ↦
            let (s', e, v') = fill_packet-IsAt c seq s offset v more (omega arith) in
            let (s'', e', same) =
              send_chunks-wire polls go ok fuel (suc k) c (seq + 1) s' (offset + size offset) v'
                (omega arith) (omega arith) (omega arith) in
            (
              s'',
              rw (lt→ltb offset (length payload) more) (
                  send_step polls fuel k s s' offset _ _ (lt→ltb offset (length payload) more)
                    (go k) (ok k) e e'),
              same,
            )
      ]

  -- As many datagrams as the sender counts.
  pub length-wire_of :
      (fuel seq offset : ℕ)
      → offset ≤ length payload
      → length payload - offset ≤ fuel
      → length (wire_of fuel seq offset) ≡ (length payload - offset + (chunk - 1)) / chunk
  unfolding wire_of
  length-wire_of zero seq offset h f = omega arith
  length-wire_of (suc fuel) seq offset h f = elim (dec_lt offset (length payload)) [
    | no done ↦ rw (le→ltb_false offset (length payload) (omega arith)) (omega arith)
    | yes more ↦ rw (lt→ltb offset (length payload) more) (
        omega
          (arith, length-wire_of fuel (seq + 1) (offset + size offset) (omega arith) (omega arith)))
  ]

  -- Their payloads, one behind the other, are the payload.
  pub wire_of-payload :
      (fuel seq offset : ℕ)
      → offset ≤ length payload
      → length payload - offset ≤ fuel
      → flat_map (drop udp_hdr) (wire_of fuel seq offset) ≡ drop offset payload
  unfolding wire_of to_datagram flat_map
  wire_of-payload zero seq offset h f = sym (drop-length payload offset (omega arith))
  wire_of-payload (suc fuel) seq offset h f = elim (dec_lt offset (length payload)) [
    | no done ↦
        rw (le→ltb_false offset (length payload) (omega arith))
          (sym (drop-length payload offset (omega arith)))
    | yes more ↦
        let bytes = slice offset (offset + size offset) payload in
        let ih =
          wire_of-payload fuel (seq + 1) (offset + size offset) (omega arith) (omega arith) in
        let n : offset + size offset - offset ≡ size offset = omega arith in
        rw
          (
            lt→ltb offset (length payload) more,
            drop_prefix udp_hdr (header self_id seq (length bytes)) bytes
                (length-header self_id seq (length bytes)),
            ih,
            n,
          )
          (join offset (size offset) payload)
  ]
