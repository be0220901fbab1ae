-- ===== src/Client/Plan.antt =====
-- From a configuration file to the rounds of its hosts.
use tperf.Common.{ℕ, List, Option, some, Text, ◌≡◌, ◌≢◌, ok, Float, get_elem?}
use tperf.NetUtil.{IpAddrs}
use tperf.Config.{Config, validate}
use tperf.Config.Hosts.{extend_all, expand_pattern}
use tperf.Config.Size.{Rounding}
use tperf.Config.Load.{Table, from_toml}
use tperf.Config.File.{GivesHosts, from_toml_sound}
use tperf.TestPlan.{round_robin_rounds}
use tperf.TestPlan.Coverage.{Meets}
use tperf.TestPlan.Schedule.{round_robin_rounds-schedule}
use tperf.TestPlan.Tournament.{meet_once}

-- A configuration that `from_toml` gives is valid. Its patterns are those of the key `hostlist` of
-- the file, what stands between the commas of a string or of each string of an array in turn, and
-- its hosts are those of all these patterns in order. Its schedule is made without a panic, and
-- every two of its hosts meet in exactly one of the rounds.
pub from_toml-rounds :
    {F : Type 0} (float : Float F) (rounding : Rounding F) (room : ℕ) (std : IpAddrs)
    (toml : Text → Option Table) (text : Text) (cfg : Config)
    → from_toml float rounding room std toml text ≡ ok cfg
    → (validate std cfg ≡ ok tt)
      × ((table : Table) × (toml text ≡ some table) × GivesHosts table cfg.hostlist_raw)
      × (extend_all (expand_pattern room) cfg.hostlist_raw ≡ ok cfg.hostlist)
      × ((rounds : List (List (Text × Text))) × (round_robin_rounds cfg.hostlist ≡ some rounds)
          × ((a b : ℕ) (x y : Text)
              → get_elem? cfg.hostlist a ≡ some x
              → get_elem? cfg.hostlist b ≡ some y
              → a ≢ b
              → (r : ℕ) × (pairs : List (Text × Text)) × (get_elem? rounds r ≡ some pairs)
                × Meets x y pairs
                × ((r' : ℕ) (pairs' : List (Text × Text))
                    → get_elem? rounds r' ≡ some pairs'
                    → Meets x y pairs'
                    → r' ≡ r)))
from_toml-rounds float rounding room std toml text cfg e =
    let (valid, (tag, workers, payload, two), fits, given, names, expanded, distinct) =
      from_toml_sound float rounding room std toml text cfg e in
    let run = round_robin_rounds-schedule cfg.hostlist in
    (
      valid,
      given,
      expanded,
      (_, run, λ a b x y p q differ. meet_once cfg.hostlist two run distinct p q differ),
    )
