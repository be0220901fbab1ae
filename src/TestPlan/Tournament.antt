-- ===== src/TestPlan/Tournament.antt =====
-- The rounds that `round_robin_rounds` returns, as a tournament: how many, who plays, who meets
-- whom.
use mathlib.Core.List.{Nodup}
use tperf.Common.{
  ℕ, suc, ◌+◌, ◌-◌, ◌/◌, ◌%◌, ◌<◌, ◌≤◌, ◌≡◌, ◌≢◌, ap, ◌∙◌, subst, List, some, Text, arith, length,
  get_elem?, range_from, get_elem?-map_range, length-map, length-range_from, lt-get_elem?,
}
use tperf.TestPlan.{round_robin_rounds}
use tperf.TestPlan.Schedule.{seats, fixtures, schedule, round_robin_rounds-schedule}
use tperf.TestPlan.Seats.{round_of, round_of-lt}
use tperf.TestPlan.Players.{fixtures-Nodup, length-fixtures}
use tperf.TestPlan.Coverage.{Meets, players, Meets-in, Meets-only}

module _ (hosts : List Text) (two : 2 ≤ length hosts) {rounds : List (List (Text × Text))}
    (run : round_robin_rounds hosts ≡ some rounds) where
  rounds-eq : rounds ≡ schedule hosts
  rounds-eq = ground (arith, round_robin_rounds-schedule hosts)

  rounds-seats : length rounds ≡ seats hosts - 1
  unfolding schedule
  rounds-seats =
      ap length rounds-eq
      ∙ length-map (range_from 0 (seats hosts - 1)) (fixtures hosts)
      ∙ length-range_from 0 (seats hosts - 1)

  round_at : (r : ℕ) → suc r < seats hosts → get_elem? rounds r ≡ some (fixtures hosts r)
  unfolding schedule
  round_at r h = rw rounds-eq (
      get_elem?-map_range (fixtures hosts) 0 (seats hosts - 1) r (omega arith)
      ∙ ap (λ (m : ℕ). some (fixtures hosts m)) (omega arith))

  round_late :
      (r : ℕ) {pairs : List (Text × Text)} → get_elem? rounds r ≡ some pairs → suc r < seats hosts
  round_late r e = omega (arith, rounds-seats, lt-get_elem? rounds r e)

  pub round_fixtures :
      (r : ℕ) {pairs : List (Text × Text)}
      → get_elem? rounds r ≡ some pairs
      → pairs ≡ fixtures hosts r
  round_fixtures r e = ground (arith, e, round_at r (round_late r e))

  -- Every two hosts meet in exactly one of the rounds, if no host is listed twice.
  pub meet_once :
      Nodup hosts
      → {a b : ℕ} {x y : Text} → get_elem? hosts a ≡ some x
      → get_elem? hosts b ≡ some y
      → a ≢ b
      → (r : ℕ) × (pairs : List (Text × Text)) × (get_elem? rounds r ≡ some pairs)
        × Meets x y pairs
        × ((r' : ℕ) (pairs' : List (Text × Text))
            → get_elem? rounds r' ≡ some pairs'
            → Meets x y pairs'
            → r' ≡ r)
  meet_once d {a} {b} {x} {y} p q differ = (
    round_of (seats hosts) a b,
    fixtures hosts (round_of (seats hosts) a b),
    round_at _ (round_of-lt (seats hosts) a b (omega arith) (at a p) (at b q) differ),
    Meets-in hosts p q differ,
    λ r' pairs' e m.
        Meets-only hosts p q differ r' d (round_late r' e)
          (subst (Meets x y) (round_fixtures r' e) m),
  )
    where
      at : (i : ℕ) {z : Text} → get_elem? hosts i ≡ some z → i < seats hosts
      at i e = omega (arith, lt-get_elem? hosts i e)

  -- In each round no host plays twice.
  pub play_once :
      Nodup hosts
      → (r : ℕ) {pairs : List (Text × Text)} → get_elem? rounds r ≡ some pairs
      → Nodup (players pairs)
  play_once d r e = rw (round_fixtures r e) (fixtures-Nodup hosts d r (round_late r e))

  -- n hosts play n - 1 rounds if n is even, and n rounds if it is odd, of ⌊n / 2⌋ pairs each.
  pub round_sizes :
      (length rounds ≡ length hosts - 1 + length hosts % 2)
      × ((r : ℕ) (pairs : List (Text × Text))
          → get_elem? rounds r ≡ some pairs
          → length pairs ≡ length hosts / 2)
  round_sizes = (
    omega (arith, rounds-seats),
    λ r pairs e. rw (round_fixtures r e) (length-fixtures hosts r (round_late r e)),
  )
