-- ===== src/Analyze/Rates.antt =====
-- The statistics of samples.
use tperf.Common.{
  ℕ, zero, suc, [], ◌∷◌, none, some, false, ◌≡◌, refl, arith, if◌then◌else◌, ◌==◌, Float, IsOrdered,
  All, Bool-cases, inl, inr, length,
}
use tperf.Metrics.Window.{bps}
use tperf.Analyze.Totals.{IsAttained, widen_all-IsAttained, widen_all-totals, overall, avg-overall}
use tperf.Analyze.{Samples, RateStats, Extremes, widen, widen_all, from_samples}

module _ {F : Type 0} (float : Float F) (laws : IsOrdered float) where
  abbrev pub IsRate : F → Type 0
  IsRate = IsOrdered.IsRate laws

  -- `a <= b`, of rates.
  abbrev pub Le : F → F → Type 0
  Le a b = Float.lt float b a ≡ false

  abbrev pub Between : F → F → ℕ × ℕ → Type 0
  Between lo hi s = Le lo (bps float s.0 s.1) × Le (bps float s.0 s.1) hi

  bps-IsRate : (bytes duration_ns : ℕ) → IsRate (bps float bytes duration_ns)
  unfolding bps
  bps-IsRate bytes zero = IsOrdered.from_rate laws 0
  bps-IsRate bytes (suc d) =
      let nonzero : (suc d == 0) ≡ false = ground arith in
      rw nonzero (
        IsOrdered.over_rate laws _ (suc d)
          (IsOrdered.times_rate laws _ 1_000_000_000
            (IsOrdered.times_rate laws _ 8 (IsOrdered.from_rate laws bytes) (omega arith))
            (omega arith))
          (omega arith))

  -- What one sample does to the extremes.
  abbrev pub Widened : Extremes float → ℕ × ℕ → Extremes float → Type 0
  Widened e s e' =
      IsRate e'.min_bps
      × IsRate e'.max_bps
      × Le e'.min_bps e.min_bps
      × Le e.max_bps e'.max_bps
      × Between e'.min_bps e'.max_bps s

  Le_refl : (x : F) → IsRate x → Le x x
  Le_refl x r = IsOrdered.lt_irrefl laws x r

  lesser :
      (r x : F)
      → IsRate r
      → IsRate x
      → let y = if Float.lt float r x then r else x in IsRate y × Le y x × Le y r
  lesser r x hr hx = elim (Bool-cases (Float.lt float r x)) [
    | inl t ↦ rw t (hr, IsOrdered.lt_asymm laws r x hr hx t, Le_refl r hr)
    | inr f ↦ rw f (hx, Le_refl x hx, f)
  ]

  greater :
      (r x : F)
      → IsRate r
      → IsRate x
      → let y = if Float.lt float x r then r else x in IsRate y × Le x y × Le r y
  greater r x hr hx = elim (Bool-cases (Float.lt float x r)) [
    | inl t ↦ rw t (hr, IsOrdered.lt_asymm laws x r hx hr t, Le_refl r hr)
    | inr f ↦ rw f (hx, Le_refl x hx, f)
  ]

  widen-Widened :
      (e : Extremes float) (s : ℕ × ℕ)
      → IsRate e.min_bps
      → IsRate e.max_bps
      → Widened e s (widen float s e)
  unfolding widen
  widen-Widened e (b, d) lo hi =
      let r = bps-IsRate b d in
      let (x, y, z) = lesser (bps float b d) e.min_bps r lo in
      let (u, v, w) = greater (bps float b d) e.max_bps r hi in (x, u, y, v, (z, w))

  trans : (x y z : F) → IsRate x → IsRate y → IsRate z → Le x y → Le y z → Le x z
  trans x y z a b c h k = IsOrdered.le_trans laws x y z a b c h k

  Between-more :
      (lo lo' hi hi' : F) (xs : Samples)
      → IsRate lo
      → IsRate lo'
      → IsRate hi
      → IsRate hi'
      → Le lo' lo
      → Le hi hi'
      → All (Between lo hi) xs
      → All (Between lo' hi') xs
  Between-more lo lo' hi hi' [] a b c d h k all = tt
  Between-more lo lo' hi hi' ((n, m) ∷ xs) a b c d h k ((p, q), all) =
      let r = bps-IsRate n m in
      (
        (trans lo' lo _ b a r h p, trans _ hi hi' r c d q k),
        Between-more lo lo' hi hi' xs a b c d h k all,
      )

  -- The extremes after all samples.
  abbrev pub AllWidened : Extremes float → Samples → Extremes float → Type 0
  AllWidened e xs e' =
      IsRate e'.min_bps
      × IsRate e'.max_bps
      × Le e'.min_bps e.min_bps
      × Le e.max_bps e'.max_bps
      × All (Between e'.min_bps e'.max_bps) xs

  widen_all-AllWidened :
      (xs : Samples) (e : Extremes float)
      → IsRate e.min_bps
      → IsRate e.max_bps
      → AllWidened e xs (widen_all float xs e)
  unfolding widen_all
  widen_all-AllWidened [] e lo hi = (lo, hi, Le_refl _ lo, Le_refl _ hi, tt)
  widen_all-AllWidened (s ∷ xs) e lo hi =
      let one = widen float s e in
      let last = widen_all float xs one in
      let (lo1, hi1, down, up, (p, q)) = widen-Widened e s lo hi in
      let (lo2, hi2, down2, up2, all) = widen_all-AllWidened xs one lo1 hi1 in
      let r = bps-IsRate s.0 s.1 in
      (
        lo2,
        hi2,
        trans last.min_bps one.min_bps e.min_bps lo2 lo1 lo down2 down,
        trans e.max_bps one.max_bps last.max_bps hi hi1 hi2 up up2,
        (
          (
            trans last.min_bps one.min_bps _ lo2 lo1 r down2 p,
            trans _ one.max_bps last.max_bps r hi1 hi2 q up2,
          ),
          all,
        ),
      )

  avg-IsRate :
      (bytes duration_ns : ℕ)
      → IsRate (
          if duration_ns == 0
          then Float.from float 0
          else Float.over float
              (Float.times float
                (Float.times float (Float.from float bytes) (Float.from float 8))
                (Float.from float 1_000_000_000))
              (Float.from float duration_ns))
  unfolding bps
  avg-IsRate bytes d = bps-IsRate bytes d

  -- The statistics of samples exist exactly if there is a sample; they count the samples; each
  -- sample's rate lies between their least and their greatest rate, which are rates of samples
  -- themselves (or, where no rate is below infinity, infinity, and where none is above 0, 0); their
  -- average is the rate of the sum of the bytes over the sum of the times, each sum held at the end
  -- of its type; and the three rates are numbers that are not negative. (For an arithmetic of
  -- floating-point numbers with the laws of `IsOrdered`.)
  pub from_samples-Between :
      (s : ℕ × ℕ) (xs : Samples)
      → (from_samples float [] ≡ none)
        × ((stats : RateStats F) × (from_samples float (s ∷ xs) ≡ some stats)
            × (stats.windows ≡ suc (length xs))
            × All (Between stats.min_bps stats.max_bps) (s ∷ xs)
            × IsAttained float (Float.infinity float) stats.min_bps (s ∷ xs)
            × IsAttained float (Float.from float 0) stats.max_bps (s ∷ xs)
            × (stats.avg_bps ≡ overall float (s ∷ xs))
            × IsRate stats.min_bps
            × IsRate stats.max_bps
            × IsRate stats.avg_bps)
  unfolding from_samples bps
  from_samples-Between s xs =
      let start : Extremes float = record {
        min_bps = Float.infinity float;
        max_bps = Float.from float 0;
        bytes = 0;
        duration_ns = 0;
      } in
      let last = widen_all float (s ∷ xs) start in
      let (lo, hi, down, up, all) =
        widen_all-AllWidened (s ∷ xs) start (IsOrdered.infinity_rate laws)
          (IsOrdered.from_rate laws 0) in
      let (least, most) = widen_all-IsAttained float (s ∷ xs) start in
      let (bytes, time) = widen_all-totals float (s ∷ xs) start (ground arith) (ground arith) in
      let avg = avg-overall float (s ∷ xs) last.bytes last.duration_ns bytes time in
      (refl, (_, refl, refl, all, least, most, avg, lo, hi, avg-IsRate last.bytes last.duration_ns))
