-- ===== src/Analyze/Totals.antt =====
-- What the loop of `from_samples` leaves: extremes that are rates of samples, and the sums.
use mathlib.Core.List.{Memᴰ}
use tperf.Common.{
  ℕ, [], ◌∷◌, false, true, Bool, ◌≡◌, ◌⊎◌, refl, ◌∙◌, arith, if◌then◌else◌, Float, inl, inr, min,
  ◌+◌, ◌≤◌, u64_max,
}
use tperf.Metrics.Window.{bps}
use tperf.Analyze.{u128_max, Samples, Extremes, widen, widen_all}

module _ {F : Type 0} (float : Float F) where
  -- One of two numbers, and which.
  picked : (c : Bool) (r x : F) → ((if c then r else x) ≡ r) ⊎ ((if c then r else x) ≡ x)
  picked true r x = inl refl
  picked false r x = inr refl

  -- `x` is the rate of one of the samples, or still the value that the loop started with.
  abbrev pub IsAttained : F → F → Samples → Type 0
  IsAttained start x xs =
      (x ≡ start) ⊎ ((s : ℕ × ℕ) × Memᴰ {A = ℕ × ℕ} s xs × (x ≡ bps float s.0 s.1))

  IsAttained-more :
      (start x y : F) (s : ℕ × ℕ) (xs : Samples)
      → (x ≡ bps float s.0 s.1) ⊎ (x ≡ start)
      → IsAttained x y xs
      → IsAttained start y (s ∷ xs)
  IsAttained-more start x y s xs (inl p) (inl q) = inr (s, Memᴰ.head refl, q ∙ p)
  IsAttained-more start x y s xs (inr p) (inl q) = inl (q ∙ p)
  IsAttained-more start x y s xs p (inr (t, m, q)) = inr (t, Memᴰ.tail m, q)

  pub widen_all-IsAttained :
      (xs : Samples) (e : Extremes float)
      → IsAttained e.min_bps (Extremes.min_bps (widen_all float xs e)) xs
        × IsAttained e.max_bps (Extremes.max_bps (widen_all float xs e)) xs
  unfolding widen_all widen
  widen_all-IsAttained [] e = (inl refl, inl refl)
  widen_all-IsAttained ((b, d) ∷ xs) e =
      let r = bps float b d in
      let last = widen_all float xs (widen float (b, d) e) in
      let (least, most) = widen_all-IsAttained xs (widen float (b, d) e) in
      (
        IsAttained-more e.min_bps _ last.min_bps (b, d) xs
            (picked (Float.lt float r e.min_bps) r e.min_bps) least,
        IsAttained-more e.max_bps _ last.max_bps (b, d) xs
            (picked (Float.lt float e.max_bps r) r e.max_bps) most,
      )

  -- What all samples took together.
  abbrev pub total_bytes : Samples → ℕ
  total_bytes [] = 0
  total_bytes ((b, d) ∷ xs) = b + total_bytes xs

  abbrev pub total_ns : Samples → ℕ
  total_ns [] = 0
  total_ns ((b, d) ∷ xs) = d + total_ns xs

  min_add : (a b s top : ℕ) → min (min (a + b) top + s) top ≡ min (a + (b + s)) top
  min_add a b s top = ground arith

  pub widen_all-totals :
      (xs : Samples) (e : Extremes float)
      → e.bytes ≤ u64_max
      → e.duration_ns ≤ u128_max
      → (Extremes.bytes (widen_all float xs e) ≡ min (e.bytes + total_bytes xs) u64_max)
        × (Extremes.duration_ns (widen_all float xs e) ≡ min (e.duration_ns + total_ns xs) u128_max)
  unfolding widen_all widen
  widen_all-totals [] e h k = (ground arith, ground arith)
  widen_all-totals ((b, d) ∷ xs) e h k =
      let (bytes, time) =
        widen_all-totals xs (widen float (b, d) e) (ground arith) (ground arith) in
      (
        bytes ∙ min_add e.bytes b (total_bytes xs) u64_max,
        time ∙ min_add e.duration_ns d (total_ns xs) u128_max,
      )

  -- The rate of all samples together.
  abbrev pub overall : Samples → F
  overall xs = bps float (min (total_bytes xs) u64_max) (min (total_ns xs) u128_max)

  -- What the loop leaves is the rate of the bytes and the time of all samples.
  pub avg-overall :
      (xs : Samples) (bytes duration_ns : ℕ)
      → bytes ≡ min (0 + total_bytes xs) u64_max
      → duration_ns ≡ min (0 + total_ns xs) u128_max
      → bps float bytes duration_ns ≡ overall xs
  avg-overall xs b d p q =
      let same : b ≡ min (total_bytes xs) u64_max = p ∙ ground arith in
      let long : d ≡ min (total_ns xs) u128_max = q ∙ ground arith in rw (same, long) refl
