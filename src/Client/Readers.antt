-- ===== src/Client/Readers.antt =====
-- The pumps of all servers at once, which src/client.rs spawns as one task each: they share the
-- counter of answers and the queue of the database. An event is what the pump of a server reads
-- next, in any order among the servers.
use tperf.Common.{ℕ, ◌==◌, List, [], ◌∷◌, Option, some, none, Bool, false, if◌then◌else◌}
use tperf.Proto.{Msg}
use tperf.Client.{PumpState, PumpEnd, reading, finished, bailed, pump_message}

-- A variable of each task: `f` with the value `v` for task `i`.
abbrev pub put {ℓ} : {A : Type ℓ} → (ℕ → A) → ℕ → A → ℕ → A
put f i v j = if j == i then v else f j

pub record Readers (W : Type 0) : Type 0 where
  pub got_start : ℕ → Bool
  pub ends : ℕ → PumpEnd
  pub start_acks : ℕ
  pub inserted : List W

-- One `read_frame` of a pump: `none` is an error.
unfoldable pub pump_read : {W : Type 0} → PumpState W → Option (Msg W) → PumpState W × PumpEnd
unfolding pump_message
pump_read p none = (p, finished)
pump_read p (some m) = pump_message p m

-- What task `i` sees of the state.
abbrev pub view : {W : Type 0} → Readers W → ℕ → PumpState W
view r i = record { got_start = r.got_start i; start_acks = r.start_acks; inserted = r.inserted }

unfoldable pub read_by : {W : Type 0} → Readers W → ℕ → Option (Msg W) → Readers W
unfolding pump_read
read_by r i m =
    let (p, end) = pump_read (view r i) m in
    elim (r.ends i) [
      | reading ↦ record {
        got_start = put r.got_start i p.got_start;
        ends = put r.ends i end;
        start_acks = p.start_acks;
        inserted = p.inserted;
      }
      | finished ↦ r
      | bailed text ↦ r
    ]

unfoldable pub read_all : {W : Type 0} → Readers W → List (ℕ × Option (Msg W)) → Readers W
unfolding read_by
read_all r [] = r
read_all r ((i, m) ∷ events) = read_all (read_by r i m) events

unfoldable pub pump_servers : {W : Type 0} → List (ℕ × Option (Msg W)) → Readers W
unfolding read_all
pump_servers events =
    read_all (record { got_start = λ i. false; ends = λ i. reading; start_acks = 0; inserted = [] })
      events
