-- ===== src/Proto.antt =====
-- src/proto.rs: the messages of the control socket, and their frames. What a `Msg` carries as its
-- window is a parameter: a `MetricWindow`, or what a model of one side keeps of it.
pub mod Frames
pub mod Tests
use tperf.Common.{
  ℕ, zero, suc, ◌+◌, ◌*◌, List, Text, [], ◌∷◌, ◌++◌, Option, none, some, ltb, ◌==◌, ◌||◌,
  if◌then◌else◌, length, take, drop, Result, ok, err,
}
use tperf.Config.{Config}
use tperf.Dataplane.{to_be_bytes, from_be_bytes}

pub record Target : Type 0 where
  pub name : Text
  pub id : ℕ
  pub addr : Text

pub record Assignment : Type 0 where
  pub self_name : Text
  pub self_id : ℕ
  pub bind : Text
  pub targets : List Target

pub record PeerMetrics : Type 0 where
  pub peer : Text
  pub bytes_sent : ℕ
  pub bytes_recv : ℕ
  pub packets_sent : ℕ
  pub packets_recv : ℕ
  pub packets_dropped : ℕ

-- `F` stands for f64.
pub record MetricWindow (F : Type 0) : Type 0 where
  pub server : Text
  pub wall_start_ns : ℕ
  pub wall_end_ns : ℕ
  pub duration_ns : ℕ
  pub bytes_sent : ℕ
  pub bytes_recv : ℕ
  pub send_bps : F
  pub recv_bps : F
  pub packets_sent : ℕ
  pub packets_recv : ℕ
  pub packets_dropped : ℕ
  pub cpu_pct : F
  pub memory_bytes : ℕ
  pub peers : List PeerMetrics

pub data Msg (W : Type 0) : Type 0 where
  start : Config → Assignment → Msg W
  stop : Msg W
  ack : Text → Msg W
  metrics : W → Msg W
  error : Text → Msg W

-- serde_json's codec for a type of messages, on bytes.
pub record Codec (M : Type 0) : Type 0 where
  pub to_vec : M → Option (List ℕ)
  pub from_slice : List ℕ → Option M

pub data FrameError : Type 0 where
  serialize : FrameError
  too_large : ℕ → FrameError
  -- The stream ended inside a frame.
  eof : FrameError
  invalid_length : ℕ → FrameError
  deserialize : FrameError

abbrev pub max_frame : ℕ
max_frame = 16 * 1024 * 1024

-- The bytes that `write_frame` puts on the stream.
unfoldable pub write_frame : {M : Type 0} → Codec M → M → Result FrameError (List ℕ)
unfolding to_be_bytes
write_frame codec msg = elim (Codec.to_vec codec msg) [
  | none ↦ err serialize
  | some data' ↦
      if ltb max_frame (length data')
      then err (too_large (length data'))
      else ok (to_be_bytes 4 (length data') ++ data')
]

-- A message and the bytes behind its frame, of a stream that ends behind the given bytes.
unfoldable pub read_frame : {M : Type 0} → Codec M → List ℕ → Result FrameError (M × List ℕ)
unfolding from_be_bytes
read_frame codec bytes =
    if ltb (length bytes) 4
    then err eof
    else let len = from_be_bytes 0 (take 4 bytes) in
      let rest = drop 4 bytes in
      if len == 0 || ltb max_frame len
      then err (invalid_length len)
      else if ltb (length rest) len
      then err eof
      else elim (Codec.from_slice codec (take len rest)) [
        | none ↦ err deserialize
        | some msg ↦ ok (msg, drop len rest)
      ]

-- Successive calls of `write_frame`, and of `read_frame`.
unfoldable pub write_frames : {M : Type 0} → Codec M → List M → Result FrameError (List ℕ)
unfolding write_frame
write_frames codec [] = ok []
write_frames codec (m ∷ ms) = elim (write_frame codec m) [
  | err e ↦ err e
  | ok bytes ↦ elim (write_frames codec ms) [ err e ↦ err e | ok rest ↦ ok (bytes ++ rest) ]
]

unfoldable pub read_frames :
    {M : Type 0} → Codec M → ℕ → List ℕ → Result FrameError (List M × List ℕ)
unfolding read_frame
read_frames codec zero bytes = ok ([], bytes)
read_frames codec (suc n) bytes = elim (read_frame codec bytes) [
  | err e ↦ err e
  | ok (m, rest) ↦ elim (read_frames codec n rest) [
    | err e ↦ err e
    | ok (ms, after) ↦ ok (m ∷ ms, after)
  ]
]
