-- ===== src/TestPlan/Schedule.antt =====
-- The circle method in closed form: who sits where in each round, with no table that turns.
-- `round_robin_rounds` is shown to compute it.
use mathlib.Core.List.{filter_map}
use tperf.Common.{
  ◌>>=◌, ℕ, zero, suc, ◌+◌, ◌-◌, ◌/◌, ◌%◌, ◌<◌, ◌≤◌, ◌≡◌, refl, sym, ap, ◌∙◌, List, [], ◌∷◌, ◌++◌,
  map, Option, none, some, Text, arith, length, get_elem?, range_from, length-append, length-map,
  ltb, ◌==◌, if◌then◌else◌, Bool-cases, inl, inr,
}
use tperf.TestPlan.{Slots, pair_loop, rotate, round_loop, slots, round_robin_rounds}
use tperf.TestPlan.Rotate.{prev, rotate-Turns}

-- The number of seats: that of the hosts, rounded up to an even number.
abbrev pub seats : List Text → ℕ
seats hosts = length hosts + length hosts % 2

-- The host on seat `j` in round `r`, at a table of `n`: seat 0 stays, the others move on by one.
unfoldable pub seat : ℕ → ℕ → ℕ → ℕ
seat n r j = if j == 0 then 0 else if ltb r j then j - r else j + (n - 1) - r

-- The pair of seats `i` and `n - 1 - i`, none if one of them has the bye.
unfoldable pub match_up : List Text → ℕ → ℕ → Option (Text × Text)
match_up hosts r i = do
  a ← get_elem? hosts (seat (seats hosts) r i)
  b ← get_elem? hosts (seat (seats hosts) r (seats hosts - 1 - i))
  some (a, b)

unfoldable pub fixtures : List Text → ℕ → List (Text × Text)
unfolding filter_map
fixtures hosts r = filter_map (match_up hosts r) (range_from 0 (seats hosts / 2))

unfoldable pub schedule : List Text → List (List (Text × Text))
schedule hosts = map (fixtures hosts) (range_from 0 (seats hosts - 1))

pub seat-lt : (n r j : ℕ) → j < n → r < n → seat n r j < n
unfolding seat
seat-lt n r j h k = ground arith

seat-suc : (n r j : ℕ) → j < n → suc r < n → seat n (suc r) j ≡ seat n r (prev n j)
unfolding seat
seat-suc n r zero h k = refl
seat-suc n r (suc zero) h k = ground arith
seat-suc n r (suc (suc j)) h k = ground arith

seat_two : (n r j : ℕ) → n ≤ 2 → j < n → suc r < n → seat n r j ≡ seat n (suc r) j
unfolding seat
seat_two n r j two h k = ground arith

prev-lt : (n j : ℕ) → j < n → prev n j < n
prev-lt n zero h = h
prev-lt n (suc zero) h = omega arith
prev-lt n (suc (suc j)) h = omega arith

-- The table `arr` seats the hosts as round `r` wants it.
record Seated (hosts : List Text) (r : ℕ) (arr : Slots) : Type 0 where
  size : length arr ≡ seats hosts
  holds :
      (j : ℕ) → j < seats hosts → get_elem? arr j ≡ some (get_elem? hosts (seat (seats hosts) r j))

module _ (hosts : List Text) where
  pair_loop-fixtures :
      (r : ℕ) (arr : Slots) (i k : ℕ)
      → Seated hosts r arr
      → i + k ≤ seats hosts / 2
      → pair_loop arr (seats hosts) i k ≡ some (filter_map (match_up hosts r) (range_from i k))
  unfolding pair_loop filter_map match_up
  pair_loop-fixtures r arr i zero s h = refl
  pair_loop-fixtures r arr i (suc k) s h = ground (
    arith,
    s.holds i (omega arith),
    s.holds (seats hosts - 1 - i) (omega arith),
    pair_loop-fixtures r arr (suc i) k s (omega arith),
  )

  turn :
      (r : ℕ) (arr : Slots)
      → Seated hosts r arr
      → 2 ≤ seats hosts
      → suc r < seats hosts
      → (arr' : Slots) × (rotate arr ≡ some arr') × Seated hosts (suc r) arr'
  turn r arr s two h =
      let (arr', e, l, f) = rotate-Turns arr (omega (arith, s.size)) in
      (
        arr',
        e,
        record {
          size = l ∙ s.size;
          holds = λ j q.
              f j (omega (arith, s.size))
              ∙ ap (λ (m : ℕ). get_elem? arr (prev m j)) s.size
              ∙ s.holds (prev (seats hosts) j) (prev-lt (seats hosts) j q)
              ∙ ap (λ (m : ℕ). some (get_elem? hosts m)) (sym (seat-suc (seats hosts) r j q h));
        },
      )

  -- The table of the next round. Two hosts need no turn.
  next_table :
      (r : ℕ) (arr : Slots)
      → Seated hosts r arr
      → 2 ≤ seats hosts
      → suc r < seats hosts
      → (arr' : Slots) × ((if ltb 2 (seats hosts) then rotate arr else some arr) ≡ some arr')
        × Seated hosts (suc r) arr'
  next_table r arr s two h = elim (Bool-cases (ltb 2 (seats hosts))) [
    | inl more ↦ rw more (turn r arr s two h)
    | inr pair ↦ rw pair (
      arr,
      refl,
      record {
        size = s.size;
        holds = λ j q.
            s.holds j q
            ∙ ap (λ (m : ℕ). some (get_elem? hosts m))
                (seat_two (seats hosts) r j (ground arith) q h);
      },
    )
  ]

  round_loop-schedule :
      (k r : ℕ) (arr : Slots)
      → Seated hosts r arr
      → 2 ≤ seats hosts
      → r + k < seats hosts
      → round_loop (seats hosts) k arr ≡ some (map (fixtures hosts) (range_from r k))
  unfolding round_loop fixtures
  round_loop-schedule zero r arr s two h = refl
  round_loop-schedule (suc k) r arr s two h =
      let (arr', e, s') = next_table r arr s two (omega arith) in
      rw (
        pair_loop-fixtures r arr 0 (seats hosts / 2) s (omega arith),
        e,
        round_loop-schedule k (suc r) arr' s' two (omega arith),
      )

get_elem?-map-some :
    (hosts : List Text) (j : ℕ)
    → j < length hosts
    → get_elem? (map some hosts) j ≡ some (get_elem? hosts j)
get_elem?-map-some [] j h = elim h [ ]
get_elem?-map-some (x ∷ hosts) zero h = refl
get_elem?-map-some (x ∷ hosts) (suc j) h = get_elem?-map-some hosts j (omega arith)

get_elem?-bye :
    (hosts : List Text) (j : ℕ)
    → j < suc (length hosts)
    → get_elem? (map some hosts ++ none ∷ []) j ≡ some (get_elem? hosts j)
get_elem?-bye [] zero h = refl
get_elem?-bye [] (suc j) h = absurd (omega arith)
get_elem?-bye (x ∷ hosts) zero h = refl
get_elem?-bye (x ∷ hosts) (suc j) h = get_elem?-bye hosts j (omega arith)

seat_first : (n j : ℕ) → seat n 0 j ≡ j
unfolding seat
seat_first n j = ground arith

slots-Seated : (hosts : List Text) → Seated hosts 0 (slots hosts)
unfolding slots
slots-Seated hosts = elim (Bool-cases (length hosts % 2 == 1)) [
  | inl odd ↦ rw odd (record {
    size = ground (
      arith,
      length-append (map some hosts) (none ∷ []),
      length-map {B = Option Text} hosts some,
    );
    holds = λ j q. rw seat_first (get_elem?-bye hosts j (ground arith));
  })
  | inr even ↦ rw even (record {
    size = ground (arith, length-map {B = Option Text} hosts some);
    holds = λ j q. rw seat_first (get_elem?-map-some hosts j (ground arith));
  })
]

-- The code neither panics nor strays from the closed form: for two hosts or more it returns exactly
-- the rounds of the circle method, and for fewer it returns none.
pub round_robin_rounds-schedule :
    (hosts : List Text)
    → round_robin_rounds hosts ≡ some (if ltb (length hosts) 2 then [] else schedule hosts)
unfolding round_robin_rounds schedule
round_robin_rounds-schedule hosts = elim (Bool-cases (ltb (length hosts) 2)) [
  | inl few ↦ rw few
  | inr many ↦
      rw (many, (slots-Seated hosts).size)
        (round_loop-schedule hosts (seats hosts - 1) 0 (slots hosts) (slots-Seated hosts)
          (ground arith) (ground arith))
]
