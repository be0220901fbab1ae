-- ===== src/Client/Rounds.antt =====
-- A tournament: the rounds of the schedule, each with its starts.
use tperf.Common.{
  ℕ, suc, ◌≤◌, List, [], ◌∷◌, map, enumerate, some, Bool, true, false, ◌≡◌, refl, ap, arith, Text,
  length, All, length-map,
}
use mathlib.Core.List.{Nodup}
use tperf.Config.{Config}
use tperf.Proto.{Msg, Assignment}
use tperf.TestPlan.{round_robin_rounds, assignments_for_pairs, assignment}
use tperf.TestPlan.Pairs.{opponents, Listed, assignments_for_pairs-opponents}
use tperf.TestPlan.Addresses.{IsFilled, labels, fill_resolved-IsFilled}
use tperf.TestPlan.Ids.{ids-InRange, rows-InRange, rounds-Listed}
use tperf.Client.{RoundPoll, play_round, tournament}
use tperf.Client.Starts.{IsStarts, send_starts-IsStarts}

length-enumerate : (i : ℕ) (xs : List Text) → length (enumerate i xs) ≡ length xs
length-enumerate i [] = refl
length-enumerate i (x ∷ xs) = ap suc (length-enumerate (suc i) xs)

module _ {Addr : Type 0} (to_string : Addr → Text) (cfg : Config) (resolved : List Addr) where
  -- The starts of a round: the assignments of its pairs, with the addresses that were resolved.
  abbrev pub IsRound : List (Text × Text) → List (Text × Msg (Unit {0})) → Type 0
  IsRound pairs sent =
      (asg : List Assignment) × (asg' : List Assignment) × (assignments_for_pairs cfg.hostlist pairs
        ≡ some asg)
      × (map labels asg' ≡ map labels asg)
      × All (IsFilled to_string resolved) asg'
      × IsStarts cfg asg' 0 cfg.hostlist sent

  abbrev pub AreRounds : List (List (Text × Text)) → List (List (Text × Msg (Unit {0}))) → Type 0
  AreRounds [] [] = Unit
  AreRounds [] (sent ∷ more) = ⊥
  AreRounds (pairs ∷ rounds) [] = ⊥
  AreRounds (pairs ∷ rounds) (sent ∷ more) = IsRound pairs sent × AreRounds rounds more

  play_round-IsRound :
      (pairs : List (Text × Text)) (written : ℕ → Bool)
      → Nodup cfg.hostlist
      → length cfg.hostlist ≤ length resolved
      → Listed cfg.hostlist pairs
      → ((j : ℕ) → written j ≡ true)
      → (sent : List (Text × Msg (Unit {0}))) × (play_round to_string cfg cfg.hostlist resolved
            pairs written
          ≡ some (sent, true))
        × IsRound pairs sent
  unfolding play_round
  play_round-IsRound pairs written d h l w =
      let hosts = cfg.hostlist in
      let asg = map (λ p. assignment p (opponents hosts p.1 pairs)) (enumerate 0 hosts) in
      let e = assignments_for_pairs-opponents hosts pairs d l in
      let ranged =
        rows-InRange to_string resolved (λ x. opponents hosts x pairs) 0 hosts (omega arith)
          (λ x. ids-InRange to_string resolved hosts x pairs h l) in
      let (asg', f, same, filled) = fill_resolved-IsFilled to_string resolved asg ranged in
      let size : length hosts ≤ length asg' = omega (
        arith,
        length-map asg' labels,
        length-map asg labels,
        ap length same,
        length-enumerate 0 hosts,
        length-map (enumerate 0 hosts) (λ p. assignment p (opponents hosts p.1 pairs)),
      ) in
      let (sent, r, starts) = send_starts-IsStarts cfg hosts asg' written size w in
      (sent, rw (e, f, r) refl, (asg, asg', e, same, filled, starts))

  tournament_on :
      (rounds : List (List (Text × Text))) (polls : ℕ → RoundPoll) (k : ℕ)
      → Nodup cfg.hostlist
      → length cfg.hostlist ≤ length resolved
      → All (Listed cfg.hostlist) rounds
      → ((j : ℕ) → (polls j).cancelled ≡ false)
      → ((j i : ℕ) → (polls j).written i ≡ true)
      → (sents : List (List (Text × Msg (Unit {0})))) × (tournament to_string cfg cfg.hostlist
            resolved rounds polls k
          ≡ some (sents, true))
        × AreRounds rounds sents
  unfolding tournament
  tournament_on [] polls k d h l c w = ([], refl, tt)
  tournament_on (pairs ∷ rounds) polls k d h (lp, l) c w =
      let (sent, e, one) = play_round-IsRound pairs ((polls k).written) d h lp (w k) in
      let (more, r, all) = tournament_on rounds polls (suc k) d h l c w in
      let go = c k in (sent ∷ more, ground arith, (one, all))

  -- A tournament that is not cancelled and whose writes succeed: with two hosts or more, none of
  -- them twice, and an address for each, no round panics, and each round of the schedule sends
  -- every server, in order, the start with its own assignment of that round, filled in with the
  -- resolved addresses.
  pub tournament-AreRounds :
      (rounds : List (List (Text × Text))) (polls : ℕ → RoundPoll)
      → 2 ≤ length cfg.hostlist
      → Nodup cfg.hostlist
      → length cfg.hostlist ≤ length resolved
      → round_robin_rounds cfg.hostlist ≡ some rounds
      → ((j : ℕ) → (polls j).cancelled ≡ false)
      → ((j i : ℕ) → (polls j).written i ≡ true)
      → (sents : List (List (Text × Msg (Unit {0})))) × (tournament to_string cfg cfg.hostlist
            resolved rounds polls 0
          ≡ some (sents, true))
        × AreRounds rounds sents
  tournament-AreRounds rounds polls two d h run c w =
      tournament_on rounds polls 0 d h (rounds-Listed cfg.hostlist two run) c w
