-- ===== src/Dataplane/Header.antt =====
-- `write_hdr` and `read_hdr`.
use tperf.Common.{
  ℕ, ◌+◌, ◌^◌, ◌<◌, ◌≤◌, ◌≡◌, refl, sym, ap, ◌∙◌, List, [], ◌++◌, append_assoc, some, arith, length,
  take, drop, length-append, length-drop, length-take, take_prefix, drop_prefix, drop-drop, All,
  All-take, All-drop, take-append-drop, le→leb,
}
use tperf.Dataplane.{
  udp_hdr, udp_magic, to_be_bytes, from_be_bytes, copy_at, slice, write_hdr, read_hdr,
}
use tperf.Dataplane.Bytes.{length-to_be_bytes, from-to, to-from}

-- The twenty bytes in front of a payload.
pub header : ℕ → ℕ → ℕ → List ℕ
header sender_id seq len =
    to_be_bytes 4 udp_magic ++ (to_be_bytes 4 sender_id ++ (to_be_bytes 8 seq ++ to_be_bytes 4 len))

pub length-header : (s q l : ℕ) → length (header s q l) ≡ 20
unfolding header
length-header s q l = omega (
  arith,
  length-append (to_be_bytes 4 udp_magic) (to_be_bytes 4 s ++ (to_be_bytes 8 q ++ to_be_bytes 4 l)),
  length-append (to_be_bytes 4 s) (to_be_bytes 8 q ++ to_be_bytes 4 l),
  length-append (to_be_bytes 8 q) (to_be_bytes 4 l),
  length-to_be_bytes,
)

-- A field written behind what is already written.
pub copy_behind :
    (done buf src : List ℕ) (at to : ℕ)
    → length done ≡ at
    → at + length src ≡ to
    → to ≤ length buf
    → copy_at (done ++ drop at buf) at src ≡ some ((done ++ src) ++ drop to buf)
unfolding copy_at
copy_behind done buf src at to e e' h =
    let room : at + length src ≤ length (done ++ drop at buf) =
      omega (arith, length-append done (drop at buf), length-drop at buf) in
    rw
      (
        le→leb _ _ room,
        take_prefix at done (drop at buf) e,
        sym (drop-drop at (length src) (done ++ drop at buf)),
        drop_prefix at done (drop at buf) e,
        drop-drop at (length src) buf,
        e',
      )
      (ap some (sym (append_assoc done src (drop to buf))))

-- On a buffer with room for a header, `write_hdr` does not panic, and changes its first twenty
-- bytes.
pub write_hdr-header :
    (buf : List ℕ) (s q l : ℕ)
    → 20 ≤ length buf
    → write_hdr buf s q l ≡ some (header s q l ++ drop 20 buf)
unfolding write_hdr header
write_hdr-header buf s q l h =
    let m = to_be_bytes 4 udp_magic in
    let ms = m ++ to_be_bytes 4 s in
    let msq = ms ++ to_be_bytes 8 q in
    rw
      (
        copy_behind [] buf m 0 4 refl (omega (arith, length-to_be_bytes)) (omega arith),
        copy_behind m buf (to_be_bytes 4 s) 4 8 (length-to_be_bytes 4 udp_magic)
            (omega (arith, length-to_be_bytes)) (omega arith),
        copy_behind ms buf (to_be_bytes 8 q) 8 16
            (omega (arith, length-append m (to_be_bytes 4 s), length-to_be_bytes))
            (omega (arith, length-to_be_bytes)) (omega arith),
        copy_behind msq buf (to_be_bytes 4 l) 16 20
            (omega (
              arith,
              length-append m (to_be_bytes 4 s),
              length-append ms (to_be_bytes 8 q),
              length-to_be_bytes,
            ))
            (omega (arith, length-to_be_bytes)) h,
      )
      (simp append_assoc)

-- The four fields of a text that begins with a header.
module _ (s q l : ℕ) (rest : List ℕ) where
  fields :
      (slice 0 4 (header s q l ++ rest) ≡ to_be_bytes 4 udp_magic)
      × (slice 4 8 (header s q l ++ rest) ≡ to_be_bytes 4 s)
      × (slice 8 16 (header s q l ++ rest) ≡ to_be_bytes 8 q)
      × (slice 16 20 (header s q l ++ rest) ≡ to_be_bytes 4 l)
  unfolding header to_be_bytes
  fields = (refl, refl, refl, refl)

pub read_hdr-header :
    (s q l : ℕ) (rest : List ℕ)
    → s < 2 ^ 32
    → q < 2 ^ 64
    → l < 2 ^ 32
    → read_hdr (header s q l ++ rest) ≡ some (s, q, l)
unfolding read_hdr
read_hdr-header s q l rest hs hq hl =
    let (em, es, eq, el) = fields s q l rest in
    let long : udp_hdr ≤ length (header s q l ++ rest) =
      omega (arith, length-append (header s q l) rest, length-header s q l) in
    rw
      (
        em,
        es,
        eq,
        el,
        from-to 4 udp_magic (omega arith),
        from-to 4 s hs,
        from-to 8 q hq,
        from-to 4 l hl,
      )
      (ground arith)

-- What `write_hdr` puts into a buffer with room for it is what `read_hdr` reads there, if the
-- fields are in the range of their types; the rest of the buffer stays.
pub read_hdr-write_hdr :
    (buf : List ℕ) (s q l : ℕ)
    → 20 ≤ length buf
    → s < 2 ^ 32
    → q < 2 ^ 64
    → l < 2 ^ 32
    → (buf' : List ℕ) × (write_hdr buf s q l ≡ some buf')
      × (read_hdr buf' ≡ some (s, q, l))
      × (length buf' ≡ length buf)
      × (drop 20 buf' ≡ drop 20 buf)
read_hdr-write_hdr buf s q l h hs hq hl = (
  header s q l ++ drop 20 buf,
  write_hdr-header buf s q l h,
  read_hdr-header s q l (drop 20 buf) hs hq hl,
  omega
      (arith, length-append (header s q l) (drop 20 buf), length-header s q l, length-drop 20 buf),
  drop_prefix 20 (header s q l) (drop 20 buf) (length-header s q l),
)

-- The header that was read, where the first twenty bytes are bytes.
cut_fields :
    (buf : List ℕ)
    → 20 ≤ length buf
    → All (λ b. b < 256) buf
    → header
        (from_be_bytes 0 (slice 4 8 buf))
        (from_be_bytes 0 (slice 8 16 buf))
        (from_be_bytes 0 (slice 16 20 buf))
      ≡ to_be_bytes 4 udp_magic ++ (slice 4 8 buf ++ (slice 8 16 buf ++ slice 16 20 buf))
unfolding header
cut_fields buf h bytes =
    let part =
      λ (n m : ℕ). All-take (λ b. b < 256) m (drop n buf) (All-drop (λ b. b < 256) n buf bytes) in
    let size = λ (n m : ℕ). length-take m (drop n buf) in
    rw (
      to-from 4 (slice 4 8 buf) (omega (arith, size 4 4, length-drop 4 buf)) (part 4 4),
      to-from 8 (slice 8 16 buf) (omega (arith, size 8 8, length-drop 8 buf)) (part 8 8),
      to-from 4 (slice 16 20 buf) (omega (arith, size 16 4, length-drop 16 buf)) (part 16 4),
    )

read_hdr_parts :
    (buf : List ℕ) {s q l : ℕ}
    → read_hdr buf ≡ some (s, q, l)
    → (20 ≤ length buf)
      × (from_be_bytes 0 (slice 0 4 buf) ≡ udp_magic)
      × (from_be_bytes 0 (slice 4 8 buf) ≡ s)
      × (from_be_bytes 0 (slice 8 16 buf) ≡ q)
      × (from_be_bytes 0 (slice 16 20 buf) ≡ l)
unfolding read_hdr
read_hdr_parts buf e = ground arith

pub join : (n m : ℕ) (buf : List ℕ) → take m (drop n buf) ++ drop (n + m) buf ≡ drop n buf
join n m buf = rw (sym (drop-drop n m buf)) (take-append-drop m (drop n buf))

-- The only texts that `read_hdr` accepts are a header with the fields that it returns, and a
-- payload.
pub read_hdr_sound :
    (buf : List ℕ) {s q l : ℕ}
    → All (λ b. b < 256) buf
    → read_hdr buf ≡ some (s, q, l)
    → buf ≡ header s q l ++ drop 20 buf
read_hdr_sound buf {s} {q} {l} bytes e =
    let (long, em, es, eq, el) = read_hdr_parts buf e in
    let magic : to_be_bytes 4 udp_magic ≡ slice 0 4 buf =
      ap (to_be_bytes 4) (sym em)
      ∙ to-from 4 (slice 0 4 buf) (omega (arith, length-take 4 (drop 0 buf)))
          (All-take (λ b. b < 256) 4 (drop 0 buf) bytes) in
    let whole : (slice 0 4 buf ++ (slice 4 8 buf ++ (slice 8 16 buf ++ slice 16 20 buf)))
          ++ drop 20 buf
        ≡ buf =
      simp append_assoc (rw (join 16 4 buf, join 8 8 buf, join 4 4 buf) (take-append-drop 4 buf)) in
    let cut = cut_fields buf long bytes in
    sym (
      ap (λ t. t ++ drop 20 buf)
        (rw (sym es, sym eq, sym el) cut
          ∙ ap (λ t. t ++ (slice 4 8 buf ++ (slice 8 16 buf ++ slice 16 20 buf))) magic)
      ∙ whole)
