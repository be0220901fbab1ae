-- ===== src/TestPlan/Seats.antt =====
-- The arithmetic of the circle: where a host sits, and the one round in which two hosts meet.
use tperf.Common.{ℕ, suc, ◌+◌, ◌-◌, ◌*◌, ◌/◌, ◌%◌, ◌<◌, ◌≡◌, ◌≢◌, arith, ltb, ◌==◌, if◌then◌else◌}
use tperf.TestPlan.Schedule.{seat}

-- The seat of host `a` in round `r`.
pub seat_of : ℕ → ℕ → ℕ → ℕ
seat_of n r a = if a == 0 then 0 else if ltb (a + r) n then a + r else a + r - (n - 1)

-- The round in which the hosts `a` and `b` face one another.
pub round_of : ℕ → ℕ → ℕ → ℕ
round_of n a b =
    if a == 0
    then n - 1 - b
    else if b == 0
    then n - 1 - a
    else if (a + b) % 2 == 0
    then n - 1 - (a + b) / 2
    else if ltb (a + b) n
    then (n - 1 - (a + b)) / 2
    else (3 * (n - 1) - (a + b)) / 2

module _ (n r : ℕ) (even : n % 2 ≡ 0) (late : suc r < n) where
  pub seat-seat_of : (a : ℕ) → a < n → seat n r (seat_of n r a) ≡ a
  unfolding seat seat_of
  seat-seat_of a h = ground arith

  pub seat_of-lt : (a : ℕ) → a < n → seat_of n r a < n
  unfolding seat_of
  seat_of-lt a h = ground arith

  pub seat_of-seat : (i : ℕ) → i < n → seat_of n r (seat n r i) ≡ i
  unfolding seat seat_of
  seat_of-seat i h = ground arith

  pub seat-inj : (i j : ℕ) → i < n → j < n → seat n r i ≡ seat n r j → i ≡ j
  unfolding seat
  seat-inj i j hi hj e = ground arith

  pub round_of_unique :
      (i a b : ℕ) → i < n / 2 → seat n r i ≡ a → seat n r (n - 1 - i) ≡ b → r ≡ round_of n a b
  unfolding seat round_of
  round_of_unique i a b h p q = ground arith

module _ (n a b : ℕ) (even : n % 2 ≡ 0) (ha : a < n) (hb : b < n) (differ : a ≢ b) where
  pub round_of-lt : suc (round_of n a b) < n
  unfolding round_of
  round_of-lt = ground arith

  pub round_of_comm : round_of n a b ≡ round_of n b a
  unfolding round_of
  round_of_comm = ground arith

  -- In that round they sit opposite one another.
  pub seat_of-opposite : seat_of n (round_of n a b) a + seat_of n (round_of n a b) b ≡ n - 1
  unfolding round_of seat_of
  seat_of-opposite = ground arith
