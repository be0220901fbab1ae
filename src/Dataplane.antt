-- ===== src/Dataplane.antt =====
-- src/dataplane.rs: the datagrams, their headers and sequence numbers, and the two ends of a test.
pub mod Bytes
pub mod Header
pub mod Sequence
pub mod Receive
pub mod Send
pub mod Delivery
pub mod Accept
pub mod Peers
pub mod Spawn
pub mod SenderCounts
pub mod Senders
mod Tests
use tperf.Common.{
  ◌>>=◌, ℕ, zero, suc, ◌+◌, ◌-◌, ◌*◌, ◌/◌, ◌%◌, ◌<◌, Bool, List, [], ◌∷◌, ◌++◌, Option, none, some,
  length, take, drop, ltb, leb, ◌==◌, if◌then◌else◌, saturating_add,
}

abbrev pub udp_hdr : ℕ
udp_hdr = 20

abbrev pub udp_pkt : ℕ
udp_pkt = 8192

abbrev pub udp_magic : ℕ
udp_magic = 0x5446_5031

-- The `k` bytes of a big-endian integer, and back.
unfoldable pub to_be_bytes : ℕ → ℕ → List ℕ
to_be_bytes zero n = []
to_be_bytes (suc k) n = to_be_bytes k (n / 256) ++ (n % 256) ∷ []

unfoldable pub from_be_bytes : ℕ → List ℕ → ℕ
from_be_bytes acc [] = acc
from_be_bytes acc (b ∷ bs) = from_be_bytes (acc * 256 + b) bs

-- `buf[at..at + src.len()].copy_from_slice(src)`, which panics (`none`) beyond the end.
unfoldable pub copy_at : List ℕ → ℕ → List ℕ → Option (List ℕ)
copy_at buf at src =
    if leb (at + length src) (length buf)
    then some (take at buf ++ (src ++ drop (at + length src) buf))
    else none

-- `buf[from..to]`, used where it is in range.
abbrev pub slice : ℕ → ℕ → List ℕ → List ℕ
slice from to buf = take (to - from) (drop from buf)

unfoldable pub write_hdr : List ℕ → ℕ → ℕ → ℕ → Option (List ℕ)
write_hdr buf sender_id seq len = do
  b ← copy_at buf 0 (to_be_bytes 4 udp_magic)
  b' ← copy_at b 4 (to_be_bytes 4 sender_id)
  b'' ← copy_at b' 8 (to_be_bytes 8 seq)
  copy_at b'' 16 (to_be_bytes 4 len)

unfoldable pub read_hdr : List ℕ → Option (ℕ × ℕ × ℕ)
read_hdr buf =
    if ltb (length buf) udp_hdr
    then none
    else if from_be_bytes 0 (slice 0 4 buf) == udp_magic
    then some (
      from_be_bytes 0 (slice 4 8 buf),
      from_be_bytes 0 (slice 8 16 buf),
      from_be_bytes 0 (slice 16 20 buf),
    )
    else none

-- The slot's new value, and the number of datagrams that are missing before this one.
unfoldable pub note_seq : Option ℕ → ℕ → Option ℕ × ℕ
note_seq none seq = (some (saturating_add seq 1), 0)
note_seq (some exp) seq =
    if seq == exp
    then (some (saturating_add exp 1), 0)
    else if ltb exp seq
    then (some (saturating_add seq 1), seq - exp)
    else (some exp, 0)
