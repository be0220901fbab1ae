-- ===== src/Proto/Frames.antt =====
-- What `write_frame` writes, `read_frame` reads back.
use tperf.Common.{
  ℕ, ◌+◌, ◌≤◌, List, [], ◌∷◌, ◌++◌, some, ok, ◌≡◌, refl, sym, ap, ◌∙◌, subst, arith, ltb, length,
  length-append, take, drop, take_prefix, drop_prefix, append_assoc, Option-cases, Result-cases,
  Bool-cases, inl, inr,
}
use tperf.Proto.{Codec, max_frame, write_frame, read_frame, write_frames, read_frames}
use tperf.Dataplane.Bytes.{length-to_be_bytes, from-to}
use tperf.Dataplane.{to_be_bytes, from_be_bytes}

-- What serde_json promises: a serialized message is some text, and it is read back.
abbrev pub IsFaithful : {M : Type 0} → Codec M → Type 0
IsFaithful {M} codec =
    (m : M) (data' : List ℕ)
    → Codec.to_vec codec m ≡ some data'
    → (1 ≤ length data') × (Codec.from_slice codec data' ≡ some m)

read_step :
    {M : Type 0} (codec : Codec M) (bytes data' after : List ℕ) (m : M)
    → (4 ≤ length bytes)
    → from_be_bytes 0 (take 4 bytes) ≡ length data'
    → drop 4 bytes ≡ data' ++ after
    → 1 ≤ length data'
    → length data' ≤ max_frame
    → Codec.from_slice codec data' ≡ some m
    → read_frame codec bytes ≡ ok (m, after)
unfolding read_frame
read_step codec bytes data' after m h len rest low high e =
    let body : take (from_be_bytes 0 (take 4 bytes)) (drop 4 bytes) ≡ data' =
      rw (len, rest) (take_prefix (length data') data' after refl) in
    let behind : drop (from_be_bytes 0 (take 4 bytes)) (drop 4 bytes) ≡ after =
      rw (len, rest) (drop_prefix (length data') data' after refl) in
    let size : length (drop 4 bytes) ≡ length data' + length after =
      rw rest (length-append data' after) in
    let read : Codec.from_slice codec (take (from_be_bytes 0 (take 4 bytes)) (drop 4 bytes))
        ≡ some m =
      rw body e in
    ground arith

frame_back :
    {M : Type 0} (codec : Codec M) (m : M) (data' after : List ℕ)
    → 1 ≤ length data'
    → length data' ≤ max_frame
    → Codec.from_slice codec data' ≡ some m
    → read_frame codec (to_be_bytes 4 (length data') ++ data' ++ after) ≡ ok (m, after)
frame_back codec m data' after low high e =
    let hd = length-to_be_bytes 4 (length data') in
    let assoc = append_assoc (to_be_bytes 4 (length data')) data' after in
    let whole = length-append (to_be_bytes 4 (length data')) (data' ++ after) in
    subst (λ b. read_frame codec b ≡ ok (m, after)) (sym assoc)
      (read_step codec (to_be_bytes 4 (length data') ++ (data' ++ after)) data' after m
        (omega arith)
        (ap (from_be_bytes 0) (take_prefix 4 _ (data' ++ after) hd)
          ∙ from-to 4 (length data') (omega arith))
        (drop_prefix 4 _ (data' ++ after) hd) low high e)

-- A written message is read back, and what stands behind its frame is left on the stream.
read_frame-write_frame :
    {M : Type 0} (codec : Codec M) (m : M) (bytes after : List ℕ)
    → IsFaithful codec
    → write_frame codec m ≡ ok bytes
    → read_frame codec (bytes ++ after) ≡ ok (m, after)
unfolding write_frame
read_frame-write_frame codec m bytes after h e = elim (Option-cases (Codec.to_vec codec m)) [
  | inl q ↦ absurd (ground arith)
  | inr (data', q) ↦ elim (Bool-cases (ltb max_frame (length data'))) [
    | inl t ↦ absurd (ground arith)
    | inr f ↦
        let same : to_be_bytes 4 (length data') ++ data' ≡ bytes = ground arith in
        let high : length data' ≤ max_frame = ground arith in
        let (low, back) = h m data' q in
        subst (λ b. read_frame codec (b ++ after) ≡ ok (m, after)) same
          (frame_back codec m data' after low high back)
  ]
]

-- The messages of successive `write_frame` calls are those of as many `read_frame` calls, in order,
-- on a stream that goes on in any way; the codec reads back what it serializes.
pub read_frames-write_frames :
    {M : Type 0} (codec : Codec M) (ms : List M) (bytes after : List ℕ)
    → IsFaithful codec
    → write_frames codec ms ≡ ok bytes
    → read_frames codec (length ms) (bytes ++ after) ≡ ok (ms, after)
unfolding write_frames read_frames
read_frames-write_frames codec [] bytes after h e =
    let q : [] ≡ bytes = ground arith in rw (sym q) refl
read_frames-write_frames codec (m ∷ ms) bytes after h e =
    elim (Result-cases (write_frame codec m)) [
      | inr (x, q) ↦ absurd (ground arith)
      | inl (first, q) ↦ elim (Result-cases (write_frames codec ms)) [
        | inr (x, r) ↦ absurd (ground arith)
        | inl (others, r) ↦
            let same : first ++ others ≡ bytes = ground arith in
            let one = read_frame-write_frame codec m first (others ++ after) h q in
            let more = read_frames-write_frames codec ms others after h r in
            let split : read_frame codec (bytes ++ after) ≡ ok (m, others ++ after) =
              ap (λ b. read_frame codec (b ++ after)) (sym same)
              ∙ ap (read_frame codec) (append_assoc first others after)
              ∙ one in
            ground arith
      ]
    ]
