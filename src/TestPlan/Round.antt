-- ===== src/TestPlan/Round.antt =====
-- The assignments of the rounds that the client plays.
use mathlib.Core.List.{Nodup}
use mathlib.Core.List.{Memᴰ}
use tperf.Common.{
  ℕ, zero, suc, ◌≤◌, ◌≡◌, ◌≢◌, ◌/◌, List, [], ◌∷◌, some, none, Text, arith, length, get_elem?, map,
  enumerate, All-of_mem, round_of_mem, text_eq_refl,
}
use tperf.TestPlan.{round_robin_rounds, assignments_for_pairs, assignment, target, position}
use tperf.TestPlan.Schedule.{seats, match_up, fixtures}
use tperf.TestPlan.Coverage.{match_up-some}
use tperf.TestPlan.Pairs.{
  rank, opponents, Listed, assignments_for_pairs-opponents, opponents_mutual,
}
use tperf.TestPlan.Tournament.{play_once, round_fixtures}

position-ne-none :
    (hosts : List Text) (i : ℕ) {x : Text} → get_elem? hosts i ≡ some x → position x hosts ≢ none
unfolding position
position-ne-none [] i e = ground arith
position-ne-none (h ∷ hosts) zero {x} e = ground (arith, text_eq_refl x)
position-ne-none (h ∷ hosts) (suc i) {x} e = ground (arith, position-ne-none hosts i e)

pub fixtures-Listed : (hosts : List Text) (r : ℕ) → Listed hosts (fixtures hosts r)
unfolding fixtures
fixtures-Listed hosts r = All-of_mem _ (fixtures hosts r) λ p m.
    let (i, _, _, e) = round_of_mem (match_up hosts r) 0 (seats hosts / 2) m in
    let (ex, ey) = match_up-some hosts r i e in
    (position-ne-none hosts _ ex, position-ne-none hosts _ ey)

-- For each round that `round_robin_rounds` returns, `assignments_for_pairs` does not panic if no
-- host is listed twice; each host gets the targets that the pairs name, and the two hosts of a pair
-- have one another as their only target.
pub round_assignments :
    (hosts : List Text)
    → 2 ≤ length hosts
    → Nodup hosts
    → {rounds : List (List (Text × Text))} → round_robin_rounds hosts ≡ some rounds
    → (r : ℕ) {pairs : List (Text × Text)} → get_elem? rounds r ≡ some pairs
    → (assignments_for_pairs hosts pairs
        ≡ some (map (λ p. assignment p (opponents hosts p.1 pairs)) (enumerate 0 hosts)))
      × ((x y : Text)
          → Memᴰ (x, y) pairs
          → (opponents hosts x pairs ≡ target (rank y hosts, y) ∷ [])
            × (opponents hosts y pairs ≡ target (rank x hosts, x) ∷ []))
round_assignments hosts two d run r {pairs} e = (
  assignments_for_pairs-opponents hosts pairs d
      (rw (round_fixtures hosts two run r e) (fixtures-Listed hosts r)),
  λ x y m. opponents_mutual hosts pairs (play_once hosts two run d r e) m,
)
