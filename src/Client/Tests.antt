-- ===== src/Client/Tests.antt =====
-- The theorems on the client, at concrete messages.
use tperf.Common.{
  ℕ, ◌<◌, ◌≤◌, ◌%◌, ◌+◌, List, [], ◌∷◌, ◌++◌, map, Option, none, some, Bool, true, false, ◌≡◌, refl,
  codes, Text, arith, inl, u64_mod, length,
}
use tperf.Common.{◌≢◌, get_elem?, whole, ok}
use tperf.Config.{Config, tcp, pairs, validate}
use tperf.Config.Hosts.{extend_all, expand_pattern}
use tperf.Config.Load.{Table, string, from_toml}
use tperf.Config.Tests.{names_only, whole_rounding, many}
use tperf.Config.File.{GivesHosts}
use tperf.Client.Plan.{from_toml-rounds}
use tperf.TestPlan.{round_robin_rounds}
use tperf.TestPlan.Coverage.{Meets}
use tperf.Proto.{Msg, ack, metrics, Assignment}
use tperf.Client.{PumpState, pump_loop, send_starts, RoundPoll, tournament}
use tperf.Client.{pump_server}
use tperf.Client.Readers.{pump_servers}
use tperf.Client.Apart.{windows_of, messages_of, pump_servers-apart}
use tperf.Client.Pump.{Passes, windows, starts, pump_loop-windows}
use tperf.Client.Starts.{IsStarts, send_starts-IsStarts}
use tperf.Client.Rounds.{AreRounds, tournament-AreRounds}
use tperf.TestPlan.Tests.{four, four_rounds, four_schedule, four-Nodup}

abbrev fresh : PumpState ℕ
fresh = record { got_start = false; start_acks = 3; inserted = [] }

-- Windows are numbers here.
abbrev messages : List (Msg ℕ)
messages = ack (codes "start") ∷ metrics 5 ∷ metrics 7 ∷ []

messages-Passes : Passes false messages
unfolding tperf.Common.text_eq
messages-Passes = inl (refl, tt)

pump_loop-windows_example :
    (p' : PumpState ℕ) × (pump_loop fresh (map some messages ++ none ∷ [])
      ≡ pump_loop p' (none ∷ []))
    × (p'.inserted ≡ [] ++ windows messages)
    × (p'.start_acks ≡ (3 + starts messages) % u64_mod)
pump_loop-windows_example =
    pump_loop-windows fresh messages (none ∷ []) (omega arith) messages-Passes

abbrev config : Config
config = record {
  client_addr = codes "a:7777";
  test_addr = codes "b:7788";
  network = tcp;
  payload_size = 1000;
  workers = 1;
  test_type = pairs;
  hostlist = codes "s1" ∷ codes "s2" ∷ [];
  hostlist_raw = [];
  tag = codes "t";
}

abbrev task : ℕ → Text → Assignment
task i name = record { self_name = name; self_id = i; bind = []; targets = [] }

abbrev asg : List Assignment
asg = task 0 (codes "s1") ∷ task 1 (codes "s2") ∷ []

send_starts-IsStarts_example :
    (sent : List (Text × Msg (Unit {0}))) × (send_starts config
        (codes "s1" ∷ codes "s2" ∷ [])
        asg
        (λ j. true)
      ≡ some (0, sent, true))
    × IsStarts config asg 0 (codes "s1" ∷ codes "s2" ∷ []) sent
send_starts-IsStarts_example =
    send_starts-IsStarts config (codes "s1" ∷ codes "s2" ∷ []) asg (λ j. true) (omega arith)
      (λ j. refl)

abbrev four_config : Config
four_config = record config { hostlist = four }

-- Addresses are numbers here, with one text each.
abbrev show : ℕ → Text
show n = n ∷ []

abbrev addresses : List ℕ
addresses = 1 ∷ 2 ∷ 3 ∷ 4 ∷ []

abbrev calm : ℕ → RoundPoll
calm k = record { cancelled = false; written = λ i. true }

tournament-AreRounds_example :
    (sents : List (List (Text × Msg (Unit {0})))) × (tournament show four_config four addresses
        four_rounds calm 0
      ≡ some (sents, true))
    × AreRounds show four_config addresses four_rounds sents
tournament-AreRounds_example =
    tournament-AreRounds show four_config addresses four_rounds calm (omega arith) four-Nodup
      (omega arith) four_schedule (λ j. refl) (λ j i. refl)

-- A file of two hosts, with the defaults for what it leaves out.
abbrev pub table : Table
table =
    (codes "test_addr", string (codes "lab:7788"))
    ∷ (codes "hostlist", string (codes "node{1..2}"))
    ∷ (codes "payload_size", string (codes "1000"))
    ∷ (codes "tag", string (codes "rack"))
    ∷ []

abbrev pub toml : Text → Option Table
toml text = some table

abbrev pub loaded_config : Config
loaded_config = record {
  client_addr = codes "0.0.0.0:7777";
  test_addr = codes "lab:7788";
  network = tcp;
  payload_size = 1000;
  workers = 10;
  test_type = pairs;
  hostlist = codes "node1" ∷ codes "node2" ∷ [];
  hostlist_raw = codes "node{1..2}" ∷ [];
  tag = codes "rack";
}

pub loaded : from_toml whole whole_rounding many names_only toml [] ≡ ok loaded_config
unfolding from_toml tperf.Strings.rsplit_once tperf.Strings.parse_uint tperf.Strings.split_once
loaded = refl

from_toml-rounds_example :
    (validate names_only loaded_config ≡ ok tt)
    × ((t : Table) × (some table ≡ some t) × GivesHosts t loaded_config.hostlist_raw)
    × (extend_all (expand_pattern many) loaded_config.hostlist_raw ≡ ok loaded_config.hostlist)
    × ((rounds : List (List (Text × Text))) × (round_robin_rounds loaded_config.hostlist
          ≡ some rounds)
        × ((a b : ℕ) (x y : Text)
            → get_elem? loaded_config.hostlist a ≡ some x
            → get_elem? loaded_config.hostlist b ≡ some y
            → a ≢ b
            → (r : ℕ) × (pairs : List (Text × Text)) × (get_elem? rounds r ≡ some pairs)
              × Meets x y pairs
              × ((r' : ℕ) (pairs' : List (Text × Text))
                  → get_elem? rounds r' ≡ some pairs'
                  → Meets x y pairs'
                  → r' ≡ r)))
from_toml-rounds_example =
    from_toml-rounds whole whole_rounding many names_only toml [] loaded_config loaded

-- Two servers, whose windows are their own number and a count; the first one disconnects.
abbrev reads : List (ℕ × Option (Msg (ℕ × ℕ)))
reads =
    (0, some (ack (codes "start")))
    ∷ (1, some (metrics (1, 5)))
    ∷ (0, some (metrics (0, 6)))
    ∷ (0, none)
    ∷ (1, some (metrics (1, 7)))
    ∷ (0, some (metrics (0, 8)))
    ∷ []

pump_servers-apart_example :
    (windows_of (λ w. w.0) 0 (pump_servers reads).inserted
      ≡ (pump_server 0 (messages_of 0 reads)).0.inserted)
    × ((pump_servers reads).ends 0 ≡ (pump_server 0 (messages_of 0 reads)).1)
pump_servers-apart_example =
    pump_servers-apart (λ w. w.0) reads 0 (tt, (refl, (refl, (tt, (refl, (refl, tt))))))
