-- ===== src/TestPlan.antt =====
-- src/testplan.rs: the schedule of a pairs test and the assignments that the client sends.
mod Rotate
pub mod Schedule
pub mod Seats
pub mod Coverage
pub mod Players
pub mod Tournament
pub mod Mesh
pub mod MeshRows
pub mod Pairs
pub mod Addresses
pub mod Round
pub mod Ids
pub mod Tests
use tperf.Common.{
  ◌>>=◌, ℕ, zero, suc, ◌+◌, ◌-◌, ◌/◌, ◌%◌, not, List, [], ◌∷◌, ◌++◌, map, Option, none, some, Text,
  u32_mod, true, false, length, get_elem?, set, enumerate, keep, ltb, ◌==◌, if◌then◌else◌, text_eq,
}
use tperf.Proto.{Target, Assignment}

-- A seat of the table, `None` for the bye.
abbrev pub Slots : Type 0
Slots = List (Option Text)

-- The result `none` of the functions below is a panic: an index out of bounds or an `expect`.

-- `Vec::pop`: the elements before the last one, and the last one.
pop {ℓ} : {A : Type ℓ} → List A → Option (List A × A)
pop [] = none
pop (x ∷ xs) = elim (pop xs) [ none ↦ some ([], x) | some (ys, l) ↦ some (x ∷ ys, l) ]

-- `Vec::insert`, which panics beyond the end.
insert {ℓ} : {A : Type ℓ} → List A → ℕ → A → Option (List A)
insert xs zero v = some (v ∷ xs)
insert [] (suc i) v = none
insert (x ∷ xs) (suc i) v = do ys ← insert xs i v; some (x ∷ ys)

-- `if let (Some(a), Some(b)) = … { pairs.push(…) }`, before the pairs of the later rounds.
abbrev pub push_both : Option Text → Option Text → List (Text × Text) → List (Text × Text)
push_both none b rest = rest
push_both (some x) none rest = rest
push_both (some x) (some y) rest = (x, y) ∷ rest

-- The loop `for i in 0..(n / 2)`, with `k` rounds left.
pub pair_loop : Slots → ℕ → ℕ → ℕ → Option (List (Text × Text))
pair_loop arr n i zero = some []
pair_loop arr n i (suc k) = do
  a ← get_elem? arr i
  b ← get_elem? arr (n - 1 - i)
  rest ← pair_loop arr n (suc i) k
  some (push_both a b rest)

-- Keep `arr[0]` fixed; the last element goes behind it.
pub rotate : Slots → Option Slots
rotate arr = do (rest, last) ← pop arr; insert rest 1 last

-- The loop `for _ in 0..(n - 1)`, with `k` rounds left.
pub round_loop : ℕ → ℕ → Slots → Option (List (List (Text × Text)))
round_loop n zero arr = some []
round_loop n (suc k) arr = do
  pairs ← pair_loop arr n 0 (n / 2)
  arr' ← if ltb 2 n then rotate arr else some arr
  rest ← round_loop n k arr'
  some (pairs ∷ rest)

-- Every host, and a bye behind an odd number of them.
pub slots : List Text → Slots
slots hosts = if length hosts % 2 == 1 then map some hosts ++ none ∷ [] else map some hosts

pub round_robin_rounds : List Text → Option (List (List (Text × Text)))
round_robin_rounds hosts =
    if ltb (length hosts) 2
    then some []
    else round_loop (length (slots hosts)) (length (slots hosts) - 1) (slots hosts)

abbrev pub target : ℕ × Text → Target
target (j, n) = record { name = n; id = j % u32_mod; addr = [] }

abbrev pub assignment : ℕ × Text → List Target → Assignment
assignment (i, name) targets = record {
  self_name = name;
  self_id = i % u32_mod;
  bind = [];
  targets = targets;
}

unfoldable pub assignments_mesh : List Text → List Assignment
assignments_mesh hosts =
    map (λ p. assignment p (map target (keep (λ q. not (q.0 == p.0)) (enumerate 0 hosts))))
      (enumerate 0 hosts)

-- `hosts.iter().position(|h| h == a)`.
pub position : Text → List Text → Option ℕ
position a [] = none
position a (h ∷ hs) = elim (text_eq h a) [
  | true ↦ some 0
  | false ↦ elim (position a hs) [ none ↦ none | some i ↦ some (suc i) ]
]

-- `out[i].targets.push(t)`.
pub push_target : List Assignment → ℕ → Target → Option (List Assignment)
push_target out i t = do
  a ← get_elem? out i
  some (set out i (record a { targets = a.targets ++ t ∷ [] }))

pub assign_pairs : List Text → List (Text × Text) → List Assignment → Option (List Assignment)
assign_pairs hosts [] out = some out
assign_pairs hosts ((a, b) ∷ pairs) out = do
  ia ← position a hosts
  ib ← position b hosts
  out' ← push_target out ia (target (ib, b))
  out'' ← push_target out' ib (target (ia, a))
  assign_pairs hosts pairs out''

pub assignments_for_pairs : List Text → List (Text × Text) → Option (List Assignment)
assignments_for_pairs hosts pairs =
    assign_pairs hosts pairs (map (λ p. assignment p []) (enumerate 0 hosts))

-- `to_string` of a socket address is the standard library's.
module _ {Addr : Type 0} (to_string : Addr → Text) where
  unfoldable fill_targets : List Target → List Addr → Option (List Target)
  fill_targets [] resolved = some []
  fill_targets (t ∷ ts) resolved = do
    addr ← get_elem? resolved t.id
    rest ← fill_targets ts resolved
    some (record t { addr = to_string addr } ∷ rest)

  unfoldable pub fill_resolved : List Assignment → List Addr → Option (List Assignment)
  unfolding fill_targets
  fill_resolved [] resolved = some []
  fill_resolved (a ∷ asg) resolved = do
    own ← get_elem? resolved a.self_id
    targets ← fill_targets a.targets resolved
    rest ← fill_resolved asg resolved
    some (record a { bind = to_string own; targets = targets } ∷ rest)
