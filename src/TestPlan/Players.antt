-- ===== src/TestPlan/Players.antt =====
-- Who plays in one round of the schedule, and how many pairs there are.
use mathlib.Core.List.{
  Nodup, Nodup-cons, Nodup-nil, Mem, mem-cons, filter_map, filter_map-cons-none,
  filter_map-cons-some,
}
use mathlib.Core.List.{Memᴰ}
use mathlib.Core.List.Memᴰ
use mathlib.Core.Logic.{∥∥₁_elim}
use mathlib.Core.HLevel.{⊥_prop}
use mathlib.Core.Logic.Or
use native.Mathlib.Decide.{dec_lt, ℕ_discrete}
use tperf.Common.{
  ℕ, zero, suc, ◌+◌, ◌-◌, ◌/◌, ◌%◌, ◌<◌, ◌≤◌, ◌≡◌, ◌≢◌, refl, sym, ap, ◌∙◌, ◌⊎◌, inl, inr, List, [],
  ◌∷◌, none, some, Text, arith, length, get_elem?, range_from, round_of_mem, Option-cases,
  length-filter_map-all, length-filter_map-but_one, get_elem?-none,
}
use tperf.TestPlan.Schedule.{seats, seat, seat-lt, match_up, fixtures}
use tperf.TestPlan.Seats.{seat_of, seat-seat_of, seat_of-lt, seat_of-seat, seat-inj}
use tperf.TestPlan.Coverage.{players, position-inj, match_up-some, seats_even}

-- A player plays in one of the pairs.
pair_of :
    {z : Text} (pairs : List (Text × Text))
    → Memᴰ z (players pairs)
    → (p : Text × Text) × Memᴰ p pairs × ((p.0 ≡ z) ⊎ (p.1 ≡ z))
pair_of [] m = absurd (Memᴰ.not-nil m)
pair_of ((x, y) ∷ pairs) m = elim (Memᴰ.cases_cons m) [
  | inl e ↦ ((x, y), Memᴰ.head refl, inl (sym e))
  | inr m' ↦ elim (Memᴰ.cases_cons m') [
    | inl e ↦ ((x, y), Memᴰ.head refl, inr (sym e))
    | inr m'' ↦ let (p, at, e) = pair_of pairs m'' in (p, Memᴰ.tail at, e)
  ]
]

module _ (hosts : List Text) (distinct : Nodup hosts) (r : ℕ) (late : suc r < seats hosts) where
  -- A host on seat `s` plays in the pair of no other round of the loop.
  same_seat :
      (s j : ℕ) {z : Text}
      → s < seats hosts
      → j < seats hosts
      → get_elem? hosts (seat (seats hosts) r s) ≡ some z
      → get_elem? hosts (seat (seats hosts) r j) ≡ some z
      → s ≡ j
  same_seat s j hs hj p q =
      seat-inj (seats hosts) r (seats_even hosts) late s j hs hj
        (position-inj hosts _ _ distinct p q)

  module _ (i k s : ℕ) {z : Text} (in_loop : i + k ≤ seats hosts / 2) (hs : s < seats hosts)
      (apart : (s < i) ⊎ (seats hosts - 1 - i < s))
      (sits : get_elem? hosts (seat (seats hosts) r s) ≡ some z) where
    absent' : Memᴰ z (players (filter_map (match_up hosts r) (range_from i k))) → ⊥
    absent' m =
        let (p, at, e) = pair_of _ m in
        let (j, lo, hi, q) = round_of_mem (match_up hosts r) i k at in
        let (ex, ey) = match_up-some hosts r j q in
        elim e [
          | inl ez ↦ absurd (omega (arith, same_seat s j hs (omega arith) sits (ex ∙ ap some ez)))
          | inr ez ↦ absurd (
              omega
                (arith, same_seat s (seats hosts - 1 - j) hs (omega arith) sits (ey ∙ ap some ez)))
        ]

    -- The host on a seat that later rounds of the loop do not read plays in none of them.
    absent : ¬ (Mem z (players (filter_map (match_up hosts r) (range_from i k))))
    absent m = ∥∥₁_elim m ⊥_prop absent'

  players-Nodup' :
      (i k : ℕ)
      → i + k ≤ seats hosts / 2
      → Nodup (players (filter_map (match_up hosts r) (range_from i k)))
  players-Nodup' i zero h = unfold filter_map in Nodup-nil
  players-Nodup' i (suc k) h = elim (Option-cases (match_up hosts r i)) [
    | inl e ↦
        rw (filter_map-cons-none (match_up hosts r) i _ e) (players-Nodup' (suc i) k (omega arith))
    | inr ((x, y), e) ↦
        let (ex, ey) = match_up-some hosts r i e in
        rw (filter_map-cons-some (match_up hosts r) i _ e) (
          Nodup-cons.1 (
            λ m.
                Or.elim ⊥_prop (mem-cons.0 m)
                  (λ q. absurd (
                    omega (
                      arith,
                      same_seat i (seats hosts - 1 - i) (omega arith) (omega arith) ex
                          (ey ∙ ap some (sym q)),
                    )))
                  (absent (suc i) k i (omega arith) (omega arith) (omega arith) ex),
            Nodup-cons.1 (
              absent (suc i) k (seats hosts - 1 - i) (omega arith) (omega arith) (omega arith) ey,
              players-Nodup' (suc i) k (omega arith),
            ),
          ))
  ]

  pub fixtures-Nodup : Nodup (players (fixtures hosts r))
  unfolding fixtures
  fixtures-Nodup = players-Nodup' 0 (seats hosts / 2) (omega arith)

none-le {ℓ} : {A : Type ℓ} (xs : List A) (i : ℕ) → get_elem? xs i ≡ none → length xs ≤ i
none-le [] i e = omega arith
none-le (x ∷ xs) zero e = ground arith
none-le (x ∷ xs) (suc i) e = omega (arith, none-le xs i e)

module _ (hosts : List Text) (r : ℕ) (late : suc r < seats hosts) where
  -- A round of the loop collects no pair only at the seat of the bye.
  idle :
      (j : ℕ)
      → match_up hosts r j ≡ none
      → (length hosts ≤ seat (seats hosts) r j)
        ⊎ (length hosts ≤ seat (seats hosts) r (seats hosts - 1 - j))
  unfolding match_up
  idle j e = ground (
    arith,
    none-le hosts (seat (seats hosts) r j),
    none-le hosts (seat (seats hosts) r (seats hosts - 1 - j)),
  )

  bye : (j : ℕ) → length hosts ≤ seat (seats hosts) r j → match_up hosts r j ≡ none
  unfolding match_up
  bye j h = rw (get_elem?-none hosts (seat (seats hosts) r j) h)

  bye_opposite :
      (j : ℕ)
      → length hosts ≤ seat (seats hosts) r (seats hosts - 1 - j)
      → match_up hosts r j ≡ none
  unfolding match_up
  bye_opposite j h =
      ground (arith, get_elem?-none hosts (seat (seats hosts) r (seats hosts - 1 - j)) h)

  -- The seat of the bye.
  bye_seat : ℕ
  bye_seat = seat_of (seats hosts) r (length hosts)

  at_bye : (j : ℕ) → j < seats hosts → length hosts ≤ seat (seats hosts) r j → j ≡ bye_seat
  unfolding bye_seat
  at_bye j hj h =
      let e : seat (seats hosts) r j ≡ length hosts =
        omega (arith, seat-lt (seats hosts) r j hj (omega arith)) in
      sym (seat_of-seat (seats hosts) r (seats_even hosts) late j hj)
      ∙ ap (seat_of (seats hosts) r) e

  length-fixtures_even : length hosts % 2 ≡ 0 → length (fixtures hosts r) ≡ length hosts / 2
  unfolding fixtures
  length-fixtures_even even =
      length-filter_map-all (match_up hosts r) 0 (seats hosts / 2) full ∙ omega arith
    where
      full : (j : ℕ) → 0 ≤ j → j < 0 + seats hosts / 2 → match_up hosts r j ≢ none
      full j _ h e =
          let below = seat-lt (seats hosts) r j (omega arith) (omega arith) in
          let below' = seat-lt (seats hosts) r (seats hosts - 1 - j) (omega arith) (omega arith) in
          elim (idle j e) [ inl p ↦ omega arith | inr p ↦ omega arith ]

  length-fixtures_odd :
      (o : ℕ)
      → length hosts % 2 ≡ 1
      → o < seats hosts / 2
      → match_up hosts r o ≡ none
      → (o ≡ bye_seat) ⊎ (seats hosts - 1 - o ≡ bye_seat)
      → length (fixtures hosts r) ≡ length hosts / 2
  unfolding fixtures
  length-fixtures_odd o odd ho e sits = omega (
    arith,
    length-filter_map-but_one (match_up hosts r) 0 (seats hosts / 2) o (omega arith) (omega arith) e
        full,
  )
    where
      full : (j : ℕ) → 0 ≤ j → j < 0 + seats hosts / 2 → j ≢ o → match_up hosts r j ≢ none
      full j _ h other q = elim (idle j q) [
        | inl p ↦ omega (arith, at_bye j (omega arith) p)
        | inr p ↦ omega (arith, at_bye (seats hosts - 1 - j) (omega arith) p)
      ]

  -- Every round has as many pairs as the hosts allow.
  pub length-fixtures : length (fixtures hosts r) ≡ length hosts / 2
  unfolding bye_seat
  length-fixtures = elim (ℕ_discrete (length hosts % 2) 0) [
    | yes even ↦ length-fixtures_even even
    | no odd ↦
        let top : length hosts < seats hosts = omega arith in
        let sits = seat-seat_of (seats hosts) r (seats_even hosts) late (length hosts) top in
        let t = seat_of-lt (seats hosts) r (seats_even hosts) late (length hosts) top in
        elim (dec_lt bye_seat (seats hosts / 2)) [
          | yes low ↦
              length-fixtures_odd bye_seat (omega arith) low (bye bye_seat (omega arith)) (inl refl)
          | no high ↦
              let e : seats hosts - 1 - (seats hosts - 1 - bye_seat) ≡ bye_seat = omega arith in
              length-fixtures_odd (seats hosts - 1 - bye_seat) (omega arith) (omega arith)
                (bye_opposite (seats hosts - 1 - bye_seat) (rw e (omega arith))) (inr e)
        ]
  ]
