-- ===== src/TestPlan/Coverage.antt =====
-- Who meets whom, and how often: the schedule of `round_robin_rounds` as a tournament.
use mathlib.Core.List.{Nodup, Nodup-cons, Mem, mem-cons_self, mem-cons_of_mem}
use mathlib.Core.List.{Memᴰ}
use native.Mathlib.Decide.{dec_lt}
use tperf.Common.{
  ℕ, zero, suc, ◌+◌, ◌-◌, ◌/◌, ◌%◌, ◌<◌, ◌≡◌, ◌≢◌, refl, sym, ap, ◌∙◌, ◌⊎◌, inl, inr, List, [], ◌∷◌,
  lt-get_elem?, some, Text, arith, get_elem?, round_of_mem, mem_of_round,
}
use tperf.TestPlan.Schedule.{seats, seat, match_up, fixtures}
use tperf.TestPlan.Seats.{
  seat_of, round_of, seat-seat_of, round_of_unique, round_of-lt, round_of_comm, seat_of-opposite,
}

-- `x` and `y` play one another among `pairs`.
abbrev pub Meets : Text → Text → List (Text × Text) → Type 0
Meets x y pairs = Memᴰ (x, y) pairs ⊎ Memᴰ (y, x) pairs

-- Everyone who plays among `pairs`.
abbrev pub players : List (Text × Text) → List Text
players [] = []
players ((x, y) ∷ pairs) = x ∷ y ∷ players pairs

mem_of_elem {ℓ} : {A : Type ℓ} (xs : List A) (i : ℕ) {x : A} → get_elem? xs i ≡ some x → Mem x xs
mem_of_elem [] i e = ground arith
mem_of_elem (y ∷ xs) zero {x} e = let q : y ≡ x = ground arith in rw q mem-cons_self
mem_of_elem (y ∷ xs) (suc i) e = mem-cons_of_mem y (mem_of_elem xs i e)

-- Distinct hosts stand at distinct positions.
pub position-inj {ℓ} :
    {A : Type ℓ} (xs : List A) (i j : ℕ) {x : A}
    → Nodup xs
    → get_elem? xs i ≡ some x
    → get_elem? xs j ≡ some x
    → i ≡ j
position-inj [] i j d p q = ground arith
position-inj (y ∷ xs) zero zero d p q = refl
position-inj (y ∷ xs) zero (suc j) {x} d p q =
    let e : y ≡ x = ground arith in absurd ((Nodup-cons.0 d).0 (rw e (mem_of_elem xs j q)))
position-inj (y ∷ xs) (suc i) zero {x} d p q =
    let e : y ≡ x = ground arith in absurd ((Nodup-cons.0 d).0 (rw e (mem_of_elem xs i p)))
position-inj (y ∷ xs) (suc i) (suc j) d p q = ap suc (position-inj xs i j (Nodup-cons.0 d).1 p q)

module _ (hosts : List Text) where
  pub match_up-some :
      (r i : ℕ) {x y : Text}
      → match_up hosts r i ≡ some (x, y)
      → (get_elem? hosts (seat (seats hosts) r i) ≡ some x)
        × (get_elem? hosts (seat (seats hosts) r (seats hosts - 1 - i)) ≡ some y)
  unfolding match_up
  match_up-some r i e = ground arith

  match_up_of :
      (r i : ℕ) {a b : ℕ} {x y : Text}
      → seat (seats hosts) r i ≡ a
      → seat (seats hosts) r (seats hosts - 1 - i) ≡ b
      → get_elem? hosts a ≡ some x
      → get_elem? hosts b ≡ some y
      → match_up hosts r i ≡ some (x, y)
  unfolding match_up
  match_up_of r i sa sb p q = rw (sa, sb, p, q)

  pub seats_even : seats hosts % 2 ≡ 0
  seats_even = omega arith

  -- Two hosts that sit opposite one another play.
  play :
      (r i j : ℕ) {a b : ℕ} {x y : Text}
      → i < seats hosts / 2
      → i + j ≡ seats hosts - 1
      → seat (seats hosts) r i ≡ a
      → seat (seats hosts) r j ≡ b
      → get_elem? hosts a ≡ some x
      → get_elem? hosts b ≡ some y
      → Memᴰ (x, y) (fixtures hosts r)
  unfolding fixtures
  play r i j h e sa sb p q =
      let j' : seats hosts - 1 - i ≡ j = omega arith in
      mem_of_round (match_up hosts r) 0 (seats hosts / 2) i (omega arith) (omega arith)
        (match_up_of r i sa (ap (seat (seats hosts) r) j' ∙ sb) p q)

  module _ {a b : ℕ} {x y : Text} (p : get_elem? hosts a ≡ some x) (q : get_elem? hosts b ≡ some y)
      (differ : a ≢ b) where
    a_seat : a < seats hosts
    a_seat = omega (arith, lt-get_elem? hosts a p)

    b_seat : b < seats hosts
    b_seat = omega (arith, lt-get_elem? hosts b q)

    -- They meet in the round that `round_of` computes,
    pub Meets-in : Meets x y (fixtures hosts (round_of (seats hosts) a b))
    Meets-in =
        let n = seats hosts in
        let r = round_of n a b in
        let late : suc r < n = round_of-lt n a b seats_even a_seat b_seat differ in
        let e = seat_of-opposite n a b seats_even a_seat b_seat differ in
        let sa = seat-seat_of n r seats_even late a a_seat in
        let sb = seat-seat_of n r seats_even late b b_seat in
        elim (dec_lt (seat_of n r a) (n / 2)) [
          | yes h ↦ inl (play r (seat_of n r a) (seat_of n r b) h e sa sb p q)
          | no h ↦
              inr (play r (seat_of n r b) (seat_of n r a) (omega arith) (omega arith) sb sa q p)
        ]

    faced :
        (r : ℕ)
        → Nodup hosts
        → suc r < seats hosts
        → Memᴰ (x, y) (fixtures hosts r)
        → r ≡ round_of (seats hosts) a b
    unfolding fixtures
    faced r d late m =
        let (i, _, h, e) = round_of_mem (match_up hosts r) 0 (seats hosts / 2) m in
        let (ea, eb) = match_up-some r i e in
        round_of_unique (seats hosts) r seats_even late i a b (omega arith)
          (position-inj hosts _ a d ea p) (position-inj hosts _ b d eb q)

  -- and in no other.
  pub Meets-only :
      {a b : ℕ} {x y : Text} (p : get_elem? hosts a ≡ some x) (q : get_elem? hosts b ≡ some y)
      → a ≢ b
      → (r : ℕ) → Nodup hosts
      → suc r < seats hosts
      → Meets x y (fixtures hosts r)
      → r ≡ round_of (seats hosts) a b
  Meets-only p q differ r d late (inl m) = faced p q differ r d late m
  Meets-only {a} {b} p q differ r d late (inr m) =
      faced q p (λ e. differ (sym e)) r d late m
      ∙ round_of_comm (seats hosts) b a seats_even (b_seat p q differ) (a_seat p q differ)
          (λ e. differ (sym e))
