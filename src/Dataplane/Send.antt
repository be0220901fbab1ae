-- ===== src/Dataplane/Send.antt =====
-- The sending side of src/dataplane.rs: `make_payload`, `udp_send_loop` and `tcp_send_loop`.
pub mod Wire
use tperf.Common.{
  ◌>>=◌, ℕ, zero, suc, ◌+◌, ◌-◌, ◌*◌, ◌/◌, ◌%◌, Bool, true, false, ◌&&◌, List, [], ◌∷◌, ◌++◌,
  Option, none, some, length, get_elem?, get_or, set, min, max, ltb, ◌==◌, if◌then◌else◌, take,
  u32_mod, u64_mod, map, range_from,
}
use tperf.Metrics.{Counters, add_sent, add_drop, on_total, on_peer}
use tperf.Dataplane.{udp_hdr, udp_pkt, write_hdr, copy_at, slice}

-- `none` is the refusal of a size of 0.
unfoldable pub make_payload : ℕ → Option (List ℕ)
make_payload size =
    if size == 0
    then none
    else some (map (λ i. (i * 131 % u64_mod % 256 + 0xA5) % 256) (range_from 0 size))

abbrev pub chunk : ℕ
chunk = udp_pkt - udp_hdr

pub record Sender : Type 0 where
  pub counters : Counters
  -- The next sequence number for each destination, an atomic u64.
  pub seqs : List ℕ
  -- The packet buffer.
  pub pkt : List ℕ

-- What one round of the inner loop meets: is the test cancelled, and does `send_to` succeed?
pub record Poll : Type 0 where
  pub cancelled : Bool
  pub sent : Bool

-- What the inner loop leaves: the datagrams that `send_to` took, the sender, `offset` and
-- `write_ok`.
pub record Pass : Type 0 where
  pub wire : List (List ℕ)
  pub sender : Sender
  pub offset : ℕ
  pub write_ok : Bool

-- One payload, from one worker to one destination; `handle` is the destination's statistics.
module _ (payload : List ℕ) (dest_id self_id : ℕ) (handle : Option ℕ) where
  -- `seqs.get(dest_id).map(fetch_add).unwrap_or(0)`, and the new value.
  abbrev pub next_seq : Sender → ℕ
  next_seq s = get_or s.seqs dest_id 0

  -- The datagram of the bytes from `offset` on; `none` is a panic of a slice.
  unfoldable pub fill_packet : Sender → ℕ → Option (Sender × List ℕ)
  fill_packet s offset =
      let n = min (length payload - offset) chunk in
      do
        pkt ← write_hdr s.pkt self_id (next_seq s) (n % u32_mod)
        pkt' ← copy_at pkt udp_hdr (slice offset (offset + n) payload)
        some (
          record s { seqs = set s.seqs dest_id ((next_seq s + 1) % u64_mod); pkt = pkt' },
          take (udp_hdr + n) pkt',
        )

  abbrev pub drop_one : Sender → Sender
  drop_one s = record s {
    counters = on_peer handle (add_drop 1) (on_total (add_drop 1) s.counters);
  }

  -- The loop `while offset < payload.len()`, from round `k` on. `none` is a panic, or fuel that ran
  -- out.
  unfoldable pub send_chunks : ℕ → (ℕ → Poll) → ℕ → Sender → ℕ → Option Pass
  send_chunks zero polls k s offset =
      if ltb offset (length payload)
      then none
      else some (record { wire = []; sender = s; offset = offset; write_ok = true })
  send_chunks (suc fuel) polls k s offset = elim (ltb offset (length payload)) [
    | false ↦ some (record { wire = []; sender = s; offset = offset; write_ok = true })
    | true ↦ elim ((polls k).cancelled) [
      | true ↦ some (record { wire = []; sender = s; offset = offset; write_ok = false })
      | false ↦ do
        (s', datagram) ← fill_packet s offset
        elim ((polls k).sent) [
          | false ↦
              some (record { wire = []; sender = drop_one s'; offset = offset; write_ok = false })
          | true ↦ do
            pass ← send_chunks fuel polls (suc k) s' (offset + min (length payload - offset) chunk)
            some (record pass { wire = datagram ∷ pass.wire })
        ]
    ]
  ]

  -- The number of datagrams of a payload, `payload.len().div_ceil(chunk)`.
  abbrev pub packets : ℕ
  packets = (length payload + (chunk - 1)) / chunk

  abbrev pub count_payload : Sender → Sender
  count_payload s = record s {
    counters =
        on_peer handle (add_sent (length payload) (max packets 1))
          (on_total (add_sent (length payload) (max packets 1)) s.counters);
  }

  -- One round of the outer loop. Each round of the inner one sends a byte at least, so
  -- `length payload` is fuel enough.
  unfoldable pub send_payload : (ℕ → Poll) → Sender → Option Pass
  unfolding send_chunks
  send_payload polls s = do
    pass ← send_chunks (length payload) polls 0 s 0
    some (
        if pass.write_ok && pass.offset == length payload
        then record pass { sender = count_payload pass.sender }
        else pass)

  -- The outer loop, over what its rounds meet: the cancellation, or the polls of one payload. The
  -- datagrams that were sent, and the sender.
  unfoldable pub udp_send_loop : List (Option (ℕ → Poll)) → Sender → Option (List (List ℕ) × Sender)
  unfolding send_payload
  udp_send_loop [] s = some ([], s)
  udp_send_loop (none ∷ rounds) s = some ([], s)
  udp_send_loop (some polls ∷ rounds) s = do
    pass ← send_payload polls s
    (wire, s') ← udp_send_loop rounds pass.sender
    some (pass.wire ++ wire, s')

-- What `write_all` meets.
pub data WriteEvent : Type 0 where
  cancelled : WriteEvent
  written : WriteEvent
  -- An error, with what `is_cancelled` says then.
  failed : Bool → WriteEvent

-- The loop of `tcp_send_loop` behind a connect, with its result: is it an error?
unfoldable pub tcp_send_loop : ℕ → Option ℕ → Counters → List WriteEvent → Counters × Bool
unfolding on_total on_peer
tcp_send_loop n handle c [] = (c, false)
tcp_send_loop n handle c (WriteEvent.cancelled ∷ events) = (c, false)
tcp_send_loop n handle c (written ∷ events) =
    tcp_send_loop n handle (on_peer handle (add_sent n 1) (on_total (add_sent n 1) c)) events
tcp_send_loop n handle c (failed true ∷ events) = (c, false)
tcp_send_loop n handle c (failed false ∷ events) =
    (on_peer handle (add_drop 1) (on_total (add_drop 1) c), true)
