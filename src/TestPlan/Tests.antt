-- ===== src/TestPlan/Tests.antt =====
-- The functions of src/testplan.rs on small lists of hosts, and the theorems at such lists.
use mathlib.Core.List.{Nodup, Nodup-cons, Nodup-nil, mem-cons, not-mem-nil, Mem}
use mathlib.Core.Logic.Or
use mathlib.Core.HLevel.{⊥_prop}
use mathlib.Core.List.{Memᴰ}
use tperf.Common.{
  ℕ, ◌+◌, ◌-◌, ◌/◌, ◌%◌, ◌≡◌, ◌≢◌, refl, List, [], ◌∷◌, map, some, Text, codes, arith, length,
  get_elem?, enumerate, text_eq, text_eq_iff, All,
}
use mathlib.Core.Bool.{Bool}
use tperf.Proto.{Assignment, Target}
use tperf.TestPlan.{
  round_robin_rounds, pair_loop, round_loop, rotate, pop, insert, slots, assignments_for_pairs,
  assignments_mesh, assignment, target, fill_resolved,
}
use tperf.TestPlan.Schedule.{schedule, round_robin_rounds-schedule}
use tperf.TestPlan.Coverage.{Meets, players}
use tperf.TestPlan.Tournament.{meet_once, play_once, round_sizes}
use tperf.TestPlan.Mesh.{mesh_targets}
use tperf.TestPlan.Pairs.{rank, opponents}
use tperf.TestPlan.Round.{round_assignments}
use tperf.TestPlan.Addresses.{IsAddressOf, IsFilled, labels, fill_resolved-IsFilled, dial-bind}

abbrev pub s1 : Text
s1 = codes "srv1"

abbrev pub s2 : Text
s2 = codes "srv2"

abbrev pub s3 : Text
s3 = codes "srv3"

abbrev pub s4 : Text
s4 = codes "srv4"

abbrev pub four : List Text
four = s1 ∷ s2 ∷ s3 ∷ s4 ∷ []

abbrev pub four_rounds : List (List (Text × Text))
four_rounds =
    ((s1, s4) ∷ (s2, s3) ∷ []) ∷ ((s1, s3) ∷ (s4, s2) ∷ []) ∷ ((s1, s2) ∷ (s3, s4) ∷ []) ∷ []

pub four_schedule : round_robin_rounds four ≡ some four_rounds
unfolding round_robin_rounds pair_loop round_loop rotate pop insert slots
four_schedule = refl

-- With an odd host one sits out.
three_schedule :
    round_robin_rounds (s1 ∷ s2 ∷ s3 ∷ [])
    ≡ some (((s2, s3) ∷ []) ∷ ((s1, s3) ∷ []) ∷ ((s1, s2) ∷ []) ∷ [])
unfolding round_robin_rounds pair_loop round_loop rotate pop insert slots
three_schedule = refl

apart : (s t : Text) → text_eq s t ≡ Bool.false → s ≢ t
apart s t e = ground (arith, text_eq_iff s t)

not-mem : (x : Text) (ys : List Text) → All (λ y. text_eq x y ≡ Bool.false) ys → ¬ (Mem x ys)
not-mem x [] h m = not-mem-nil m
not-mem x (y ∷ ys) (e, h) m = Or.elim ⊥_prop (mem-cons.0 m) (apart x y e) (not-mem x ys h)

pub four-Nodup : Nodup four
unfolding text_eq
four-Nodup = Nodup-cons.1 (
  not-mem s1 _ (refl, (refl, (refl, tt))),
  Nodup-cons.1 (
    not-mem s2 _ (refl, (refl, tt)),
    Nodup-cons.1 (not-mem s3 _ (refl, tt), Nodup-cons.1 (not-mem-nil, Nodup-nil)),
  ),
)

round_robin_rounds-schedule_example : round_robin_rounds four ≡ some (schedule four)
round_robin_rounds-schedule_example = round_robin_rounds-schedule four

meet_once_example :
    (r : ℕ) × (pairs : List (Text × Text)) × (get_elem? four_rounds r ≡ some pairs)
    × Meets s2 s4 pairs
    × ((r' : ℕ) (pairs' : List (Text × Text))
        → get_elem? four_rounds r' ≡ some pairs'
        → Meets s2 s4 pairs'
        → r' ≡ r)
meet_once_example =
    meet_once four (omega arith) four_schedule four-Nodup {a = 1} {b = 3} refl refl (omega arith)

play_once_example : Nodup (players ((s1, s3) ∷ (s4, s2) ∷ []))
play_once_example = play_once four (omega arith) four_schedule four-Nodup 1 refl

round_sizes_example :
    (◌≡◌ {A = ℕ} 3 (4 - 1 + 4 % 2))
    × ((r : ℕ) (pairs : List (Text × Text))
        → get_elem? four_rounds r ≡ some pairs
        → length pairs ≡ 4 / 2)
round_sizes_example = round_sizes four (omega arith) four_schedule

mesh_targets_example :
    get_elem? (assignments_mesh (s1 ∷ s2 ∷ s3 ∷ [])) 1
    ≡ some (record {
      self_name = s2;
      self_id = 1;
      bind = [];
      targets = target (0, s1) ∷ target (2, s3) ∷ [];
    })
mesh_targets_example = mesh_targets (s1 ∷ []) (s3 ∷ []) s2

round_assignments_example :
    (assignments_for_pairs four ((s1, s4) ∷ (s2, s3) ∷ [])
      ≡ some (
          map
            (λ p. assignment p (opponents four p.1 ((s1, s4) ∷ (s2, s3) ∷ [])))
            (enumerate 0 four)))
    × ((x y : Text)
        → Memᴰ {A = Text × Text} (x, y) ((s1, s4) ∷ (s2, s3) ∷ [])
        → (opponents four x ((s1, s4) ∷ (s2, s3) ∷ []) ≡ target (rank y four, y) ∷ [])
          × (opponents four y ((s1, s4) ∷ (s2, s3) ∷ []) ≡ target (rank x four, x) ∷ []))
round_assignments_example =
    round_assignments four (omega arith) four-Nodup four_schedule 0
      {pairs = (s1, s4) ∷ (s2, s3) ∷ []} refl

-- Two hosts that send to one another, and their addresses.
abbrev two_hosts : List Assignment
two_hosts = assignment (0, s1) (target (1, s2) ∷ []) ∷ assignment (1, s2) (target (0, s1) ∷ []) ∷ []

abbrev addresses : List Text
addresses = codes "10.0.0.1:9100" ∷ codes "10.0.0.2:9100" ∷ []

fill_resolved-IsFilled_example :
    (asg' : List Assignment) × (fill_resolved (λ a. a) two_hosts addresses ≡ some asg')
    × (map labels asg' ≡ map labels two_hosts)
    × All (IsFilled (λ a. a) addresses) asg'
fill_resolved-IsFilled_example = fill_resolved-IsFilled (λ a. a) addresses two_hosts (omega arith)

dial-bind_example :
    (asg' : List Assignment) × (fill_resolved (λ a. a) two_hosts addresses ≡ some asg')
    × ((a b : Assignment) (t : Target)
        → Memᴰ a asg'
        → Memᴰ t a.targets
        → Memᴰ b asg'
        → t.id ≡ b.self_id
        → (t.addr ≡ b.bind) × IsAddressOf (λ a. a) addresses b.self_id b.bind)
dial-bind_example = dial-bind (λ a. a) addresses two_hosts (omega arith)
