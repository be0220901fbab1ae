-- ===== src/Proto/Tests.antt =====
-- The theorem on frames, with bytes for messages.
use tperf.Common.{ℕ, List, [], ◌∷◌, ◌++◌, Option, none, some, ok, ◌≡◌, refl, arith}
use tperf.Proto.{Codec, write_frames, read_frames}
use tperf.Proto.Frames.{IsFaithful, read_frames-write_frames}

abbrev one_byte : Codec ℕ
one_byte = record { to_vec = to_vec; from_slice = from_slice }
  where
    to_vec : ℕ → Option (List ℕ)
    to_vec n = some (n ∷ [])

    from_slice : List ℕ → Option ℕ
    from_slice [] = none
    from_slice (n ∷ ns) = some n

one_byte-IsFaithful : IsFaithful one_byte
one_byte-IsFaithful m bytes e = (ground arith, ground arith)

abbrev stream : List ℕ
stream = 0 ∷ 0 ∷ 0 ∷ 1 ∷ 7 ∷ 0 ∷ 0 ∷ 0 ∷ 1 ∷ 9 ∷ []

written : write_frames one_byte (7 ∷ 9 ∷ []) ≡ ok stream
unfolding write_frames
written = refl

read_frames-write_frames_example :
    read_frames one_byte 2 (stream ++ 5 ∷ []) ≡ ok (7 ∷ 9 ∷ [], 5 ∷ [])
read_frames-write_frames_example =
    read_frames-write_frames one_byte (7 ∷ 9 ∷ []) stream (5 ∷ []) one_byte-IsFaithful written
