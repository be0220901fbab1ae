-- ===== src/Server/Wait.antt =====
-- The wait for the mark of a window.
use tperf.Common.{
  ℕ, ◌-◌, ◌≤◌, ◌<◌, List, [], ◌∷◌, ◌++◌, false, ◌≡◌, refl, ap, arith, ltb, leb, All, Bool-cases,
  inl, inr,
}
use tperf.Server.{Tick, reached, spin, wait_until_mono, window_spin_ns}

-- The ticks of a wait that ends at the mark: one at or past the deadline, and before it only ones
-- that are neither there yet nor cancelled.
abbrev pub IsReached : ℕ → List Tick → Type 0
IsReached deadline_ns ts =
    (before : List Tick) × (t : Tick) × (after : List Tick) × (ts ≡ before ++ t ∷ after)
    × (deadline_ns ≤ t.now)
    × All (λ u. (u.now < deadline_ns) × (u.cancelled ≡ false)) before

IsReached-later :
    (d : ℕ) (u : Tick) (ts : List Tick)
    → u.now < d
    → u.cancelled ≡ false
    → IsReached d ts
    → IsReached d (u ∷ ts)
IsReached-later d u ts lt c (before, t, after, e, le, h) =
    (u ∷ before, t, after, ap (◌∷◌ u) e, le, ((lt, c), h))

spin-IsReached : (d : ℕ) (ts : List Tick) → spin d ts ≡ reached → IsReached d ts
unfolding spin
spin-IsReached d [] e = absurd (ground arith)
spin-IsReached d (t ∷ ts) e = elim (Bool-cases (leb d t.now)) [
  | inl h ↦ ([], t, ts, refl, ground arith, tt)
  | inr h ↦ elim (Bool-cases t.cancelled) [
    | inl c ↦ absurd (ground arith)
    | inr c ↦
        let e' : spin d ts ≡ reached = ground arith in
        IsReached-later d t ts (ground arith) c (spin-IsReached d ts e')
  ]
]

-- `wait_until_mono` reports that the mark is reached only at a reading of the clock at or past it,
-- when every reading before was short of it and none found the test cancelled: so no window is
-- emitted early, or behind a cancellation that was seen.
pub wait_until_mono-IsReached :
    (d : ℕ) (ts : List Tick) → wait_until_mono d ts ≡ reached → IsReached d ts
unfolding wait_until_mono
wait_until_mono-IsReached d [] e = absurd (ground arith)
wait_until_mono-IsReached d (t ∷ ts) e = elim (Bool-cases (leb d t.now)) [
  | inl h ↦ ([], t, ts, refl, ground arith, tt)
  | inr h ↦ elim (Bool-cases t.cancelled) [
    | inl c ↦ absurd (ground arith)
    | inr c ↦ elim (Bool-cases (ltb window_spin_ns (d - t.now))) [
      | inl far ↦ elim (Bool-cases t.woken) [
        | inl w ↦ absurd (ground arith)
        | inr w ↦
            let e' : wait_until_mono d ts ≡ reached = ground arith in
            IsReached-later d t ts (ground arith) c (wait_until_mono-IsReached d ts e')
      ]
      | inr near ↦
          let e' : spin d ts ≡ reached = ground arith in
          IsReached-later d t ts (ground arith) c (spin-IsReached d ts e')
    ]
  ]
]
