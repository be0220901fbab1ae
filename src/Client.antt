-- ===== src/Client.antt =====
-- src/client.rs: what the client reads from a server and the starts that it sends. What
-- `read_frame` and `write_frame` give is explicit: an error of reading is `none`.
pub mod Pump
pub mod Starts
pub mod Rounds
pub mod Readers
pub mod Apart
pub mod Plan
pub mod Tests
use tperf.Common.{
  ◌>>=◌, ℕ, zero, suc, ◌+◌, ◌%◌, List, [], ◌∷◌, ◌++◌, Option, none, some, Bool, true, false, Text,
  codes, text_eq, if◌then◌else◌, u64_mod, get_elem?,
}
use tperf.Config.{Config}
use tperf.TestPlan.{round_robin_rounds, assignments_for_pairs, fill_resolved}
use tperf.Proto.{Msg, start, stop, ack, metrics, error, Assignment}

-- The state of `pump_server`, with the counter that all servers share and the windows for the
-- database.
pub record PumpState (W : Type 0) : Type 0 where
  pub got_start : Bool
  pub start_acks : ℕ
  pub inserted : List W

-- Does the pump read on, is it over, or over with an error?
pub data PumpEnd : Type 0 where
  reading : PumpEnd
  finished : PumpEnd
  bailed : Text → PumpEnd

unfoldable pub pump_message : {W : Type 0} → PumpState W → Msg W → PumpState W × PumpEnd
unfolding text_eq
pump_message p (ack cmd) =
    if text_eq cmd (codes "start")
    then (record p { got_start = true; start_acks = (p.start_acks + 1) % u64_mod }, reading)
    else if text_eq cmd (codes "stop")
    then (p, finished)
    else (p, reading)
pump_message p (metrics window) = (record p { inserted = p.inserted ++ window ∷ [] }, reading)
pump_message p (error text) = (p, if p.got_start then reading else bailed text)
pump_message p (start config assignment) = (p, reading)
pump_message p stop = (p, reading)

unfoldable pub pump_loop :
    {W : Type 0} → PumpState W → List (Option (Msg W)) → PumpState W × PumpEnd
unfolding pump_message
pump_loop p [] = (p, reading)
pump_loop p (none ∷ ms) = (p, finished)
pump_loop p (some m ∷ ms) =
    let (p', end) = pump_message p m in
    elim end [
      | reading ↦ pump_loop p' ms
      | finished ↦ (p', finished)
      | bailed text ↦ (p', bailed text)
    ]

-- `start_acks` is what the pumps of the other servers left there.
unfoldable pub pump_server : {W : Type 0} → ℕ → List (Option (Msg W)) → PumpState W × PumpEnd
unfolding pump_loop
pump_server start_acks ms =
    pump_loop (record { got_start = false; start_acks = start_acks; inserted = [] }) ms

-- The loop of `send_starts` from writer `i` on: the messages that were written, with the host of
-- each, and whether all were; `none` is a panic, an index out of bounds.
unfoldable pub start_loop :
    Config
    → List Assignment
    → (ℕ → Bool)
    → ℕ
    → List Text
    → Option (List (Text × Msg (Unit {0})) × Bool)
start_loop cfg asg written i [] = some ([], true)
start_loop cfg asg written i (host ∷ writers) = elim (get_elem? asg i) [
  | none ↦ none
  | some a ↦
      let rest = start_loop cfg asg written (suc i) writers in
      elim (written i) [
        | false ↦ some ([], false)
        | true ↦ elim rest [
          | none ↦ none
          | some (sent, fine) ↦ some ((host, start cfg a) ∷ sent, fine)
        ]
      ]
]

-- The counter is set to 0 first.
unfoldable pub send_starts :
    Config
    → List Text
    → List Assignment
    → (ℕ → Bool)
    → Option (ℕ × List (Text × Msg (Unit {0})) × Bool)
unfolding start_loop
send_starts cfg writers asg written = elim (start_loop cfg asg written 0 writers) [
  | none ↦ none
  | some (sent, fine) ↦ some (0, sent, fine)
]

-- What a round meets: a cancellation before it, and the results of its writes.
pub record RoundPoll : Type 0 where
  pub cancelled : Bool
  pub written : ℕ → Bool

-- `wait_round` changes nothing but the time, and stands in no state here. `to_string` of a socket
-- address is the standard library's.
module _ {Addr : Type 0} (to_string : Addr → Text) (cfg : Config) (writers : List Text)
    (resolved : List Addr) where
  -- A round: what it sends, and whether all was written.
  unfoldable pub play_round :
      List (Text × Text) → (ℕ → Bool) → Option (List (Text × Msg (Unit {0})) × Bool)
  unfolding send_starts
  play_round pairs written = do
    asg ← assignments_for_pairs cfg.hostlist pairs
    asg' ← fill_resolved to_string asg resolved
    (acks, sent, fine) ← send_starts cfg writers asg' written
    some (sent, fine)

  -- The loop over the rounds, which a cancellation leaves: the messages of each round, and whether
  -- no write failed; `none` is a panic.
  unfoldable pub tournament :
      List (List (Text × Text))
      → (ℕ → RoundPoll)
      → ℕ
      → Option (List (List (Text × Msg (Unit {0}))) × Bool)
  unfolding play_round
  tournament [] polls k = some ([], true)
  tournament (pairs ∷ rounds) polls k =
      let rest = tournament rounds polls (suc k) in
      if (polls k).cancelled then some ([], true) else elim (play_round pairs ((polls k).written)) [
        | none ↦ none
        | some (sent, false) ↦ some (sent ∷ [], false)
        | some (sent, true) ↦ elim rest [
          | none ↦ none
          | some (more, fine) ↦ some (sent ∷ more, fine)
        ]
      ]

  -- The outer loop, over the polls of each tournament: `none` is the cancellation before it.
  unfoldable pub play_tournaments :
      List (List (Text × Text))
      → List (Option (ℕ → RoundPoll))
      → Option (List (List (Text × Msg (Unit {0}))) × Bool)
  unfolding tournament
  play_tournaments rounds [] = some ([], true)
  play_tournaments rounds (none ∷ more) = some ([], true)
  play_tournaments rounds (some polls ∷ more) =
      let rest = play_tournaments rounds more in
      elim (tournament rounds polls 0) [
        | none ↦ none
        | some (sent, false) ↦ some (sent, false)
        | some (sent, true) ↦ elim rest [
          | none ↦ none
          | some (later, fine) ↦ some (sent ++ later, fine)
        ]
      ]

  unfoldable pub run_pair_rounds :
      List (Option (ℕ → RoundPoll)) → Option (List (List (Text × Msg (Unit {0}))) × Bool)
  unfolding play_tournaments
  run_pair_rounds polls = do rounds ← round_robin_rounds cfg.hostlist; play_tournaments rounds polls
