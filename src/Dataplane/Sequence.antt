-- ===== src/Dataplane/Sequence.antt =====
-- `note_seq`: what the gaps between sequence numbers add up to.
use tperf.Common.{
  ℕ, zero, suc, ◌+◌, ◌<◌, ◌≤◌, ◌≡◌, refl, List, [], ◌∷◌, Option, some, arith, All, range_from,
  u64_max, max, leb, if◌then◌else◌,
}
use tperf.Dataplane.{note_seq}

-- The calls for the datagrams of one sender, in the order of their arrival: the last value of the
-- slot, and the sum of what the calls return.
unfoldable pub note_all : Option ℕ → List ℕ → Option ℕ × ℕ
unfolding note_seq
note_all slot [] = (slot, 0)
note_all slot (s ∷ ss) =
    let (slot', d) = note_seq slot s in let (slot'', ds) = note_all slot' ss in (slot'', d + ds)

-- One more than the highest sequence number, from `exp` on.
unfoldable pub high : ℕ → List ℕ → ℕ
high exp [] = exp
high exp (s ∷ ss) = high (max exp (s + 1)) ss

-- How many of the datagrams are not behind one that came before.
unfoldable pub advances : ℕ → List ℕ → ℕ
advances exp [] = 0
advances exp (s ∷ ss) = (if leb exp s then 1 else 0) + advances (max exp (s + 1)) ss

step_slot :
    (exp s : ℕ)
    → s < u64_max
    → exp ≤ u64_max
    → ((note_seq (some exp) s).0 ≡ some (max exp (s + 1)))
      × ((note_seq (some exp) s).1 + (if leb exp s then 1 else 0) + exp ≡ max exp (s + 1))
unfolding note_seq
step_slot exp s h k = ground arith

-- Below the end of u64 the slot is always one past the highest number seen, and the numbers between
-- its first and its last value are either counted as dropped or belong to a datagram that arrived
-- ahead of all before it. So a datagram that comes late stays counted as dropped.
pub note_all-high :
    (ss : List ℕ) (exp : ℕ)
    → exp ≤ u64_max
    → All (λ s. s < u64_max) ss
    → ((note_all (some exp) ss).0 ≡ some (high exp ss))
      × ((note_all (some exp) ss).1 + advances exp ss + exp ≡ high exp ss)
unfolding note_all high advances
note_all-high [] exp h k = (refl, omega arith)
note_all-high (s ∷ ss) exp h (k, ks) =
    let (e, d) = step_slot exp s k h in
    let (ih, ds) = note_all-high ss (max exp (s + 1)) (omega arith) ks in
    (rw e ih, rw e (omega arith))

-- Datagrams that arrive in order with none missing: nothing is counted as dropped.
pub note_all-range :
    (n exp : ℕ) → exp + n ≤ u64_max → note_all (some exp) (range_from exp n) ≡ (some (exp + n), 0)
unfolding note_all note_seq
note_all-range zero exp h = ground arith
note_all-range (suc n) exp h = ground (arith, note_all-range n (suc exp) (omega arith))
