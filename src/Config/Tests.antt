-- ===== src/Config/Tests.antt =====
-- The theorems on configurations, at a concrete one.
use tperf.Common.{ℕ, ◌≤◌, ◌∷◌, [], List, Text, codes, ◌≡◌, ◌≢◌, err, refl, false, ok, none}
use tperf.Common.{map, ◌++◌, ◌^◌, ◌-◌, Option, some, Bool, true, whole, u64_max, arith}
use mathlib.Core.List.{Nodup}
use tperf.Strings.{parse_uint, to_string, is_whitespace}
use tperf.Strings.Decimal.{parse_uint-to_string}
use tperf.NetUtil.{to_ascii_lowercase}
use tperf.Config.Size.{Rounding, parse_size}
use tperf.Config.Units.{IsExact, mib, parse_size-unit}
use tperf.NetUtil.{IpAddrs, AddrFamily, from_host, is_unspecified_host, u16_max}
use tperf.Config.{Config, tcp, pairs, validate, control_port, test_port, test_family}
use tperf.Config.Hosts.{expand_hostlist, extend_all, expand_pattern, out_of_fuel, panicked}
use tperf.Config.Expansion.{expand_pattern-no_fuel}
use tperf.Config.Hostlist.{expand_hostlist_sound}
use tperf.Config.Validation.{IsValid, validate_sound}

-- What a vector of `i64` holds at most.
abbrev pub many : ℕ
many = 2 ^ 60 - 1

abbrev items : List Text
items = codes "node{9..10}" ∷ codes "storage" ∷ []

abbrev hosts : List Text
hosts = codes "node9" ∷ codes "node10" ∷ codes "storage" ∷ []

expanded : expand_hostlist many items ≡ ok hosts
unfolding expand_hostlist tperf.Strings.split_once
expanded = refl

expand_hostlist_sound_example : Nodup hosts × (extend_all (expand_pattern many) items ≡ ok hosts)
expand_hostlist_sound_example = expand_hostlist_sound many items hosts expanded

-- No text is an IP address here.
abbrev pub names_only : IpAddrs
names_only = record {
  IpAddr = AddrFamily;
  parse = λ s. none;
  family = λ ip. ip;
  is_unspecified = λ ip. false;
  is_loopback = λ ip. false;
}

abbrev three_hosts : Config
three_hosts = record {
  client_addr = codes "0.0.0.0:7777";
  test_addr = codes "lab:7788";
  network = tcp;
  payload_size = 1000;
  workers = 10;
  test_type = pairs;
  hostlist = hosts;
  hostlist_raw = items;
  tag = codes "rack";
}

validated : validate names_only three_hosts ≡ ok tt
unfolding validate tperf.Strings.rsplit_once tperf.Strings.parse_uint
validated = refl

validate_sound_example :
    IsValid three_hosts
    × ((p : ℕ) × (control_port three_hosts ≡ ok p) × (1 ≤ p) × (p ≤ u16_max))
    × ((q : ℕ) × (test_port three_hosts ≡ ok q) × (1 ≤ q) × (q ≤ u16_max))
    × ((host : Text) × (test_family names_only three_hosts ≡ ok (from_host names_only host))
        × (is_unspecified_host names_only host ≡ false))
validate_sound_example = validate_sound names_only three_hosts validated

expand_pattern-no_fuel_example :
    expand_pattern many (codes "rack{1..2}-node{01..08}") ≢ err out_of_fuel
expand_pattern-no_fuel_example = expand_pattern-no_fuel many (codes "rack{1..2}-node{01..08}")

-- Whole numbers in place of `f64`.
abbrev pub is_some : Option ℕ → Bool
is_some (some n) = true
is_some none = false

abbrev pub number_or_zero : Option ℕ → ℕ
number_or_zero (some n) = n
number_or_zero none = 0

abbrev pub parse_whole : Text → Option (Option ℕ)
parse_whole s = elim (parse_uint u64_max s) [ some n ↦ some (some n) | none ↦ none ]

abbrev pub whole_rounding : Rounding (Option ℕ)
whole_rounding = record { parse = parse_whole; is_finite = is_some; round_u64 = number_or_zero }

parse_whole-to_string : (n : ℕ) → n ≤ 2 ^ 53 → parse_whole (to_string n) ≡ some (some n)
parse_whole-to_string n h = rw (parse_uint-to_string u64_max n (omega arith), parse_whole) refl

whole-IsExact : IsExact whole whole_rounding
whole-IsExact = record {
  parsed = parse_whole-to_string;
  product = λ a c h. refl;
  finite = λ n h. refl;
  not_negative = λ n. ground arith;
  in_range = λ n h. ground arith;
  rounded = λ n h. refl;
}

lowered : map to_ascii_lowercase (codes "MiB") ≡ codes "mib"
unfolding to_ascii_lowercase
lowered = refl

blank : is_whitespace b' ' ≡ true
unfolding is_whitespace
blank = refl

parse_size-unit_example :
    parse_size whole whole_rounding (to_string 100 ++ (codes " " ++ codes "MiB")) ≡ ok 104_857_600
parse_size-unit_example =
    parse_size-unit whole whole_rounding whole-IsExact 100 mib (codes " ") (codes "MiB") (blank, tt)
      lowered (omega arith)

-- A range that is collected before its numbers are counted.
no_room : expand_pattern many (codes "{0..9223372036854775807}") ≡ err panicked
unfolding expand_pattern tperf.Config.Hosts.expand_on tperf.Config.Hosts.find_range
    tperf.Config.Hosts.instances tperf.Strings.split_once
no_room = refl
