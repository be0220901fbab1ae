-- ===== src/Config.antt =====
-- src/config.rs: the configuration, its validation, the reading of its file behind the TOML parser,
-- and the expansion of the host list.
pub mod Hosts
pub mod Hostlist
pub mod Expansion
pub mod Validation
pub mod Size
pub mod Letters
pub mod Units
pub mod Load
pub mod Names
pub mod File
pub mod Tests
use tperf.Common.{
  ℕ, zero, suc, ◌+◌, ◌-◌, ◌*◌, ◌∷◌, [], List, Bool, true, false, ◌&&◌, ◌||◌, not, Option, none,
  some, ◌++◌, map, Text, codes, text_eq, ◌==◌, ltb, leb, if◌then◌else◌, length, replicate,
  range_from, Result, ok, err,
}
use mathlib.Core.List.{reverse}
use tperf.Strings.{trim, is_ascii_digit, contains, split_once, split_dots, parse_uint, to_string}
use tperf.NetUtil.{
  HostPortError, parse_host_port, starts_with, is_empty, IpAddrs, AddrFamily, from_host,
  is_unspecified_host,
}

pub data Network : Type 0 where
  tcp : Network
  udp : Network

pub data TestType : Type 0 where
  pairs : TestType
  mesh : TestType

pub record Config : Type 0 where
  pub client_addr : Text
  pub test_addr : Text
  pub network : Network
  pub payload_size : ℕ
  pub workers : ℕ
  pub test_type : TestType
  pub hostlist : List Text
  pub hostlist_raw : List Text
  pub tag : Text

-- `s.split(',')`, of which there is always a first piece.
unfoldable pub split_commas : Text → Text × List Text
split_commas [] = ([], [])
split_commas (c ∷ s) =
    let (first, others) = split_commas s in
    if c == b',' then ([], first ∷ others) else (c ∷ first, others)

unfoldable pub keep_names : List Text → List Text
unfolding is_empty
keep_names [] = []
keep_names (x ∷ xs) = if is_empty x then keep_names xs else x ∷ keep_names xs

unfoldable pub split_hosts : Text → List Text
unfolding split_commas keep_names trim
split_hosts s = let (first, others) = split_commas s in keep_names (map trim (first ∷ others))

pub data ConfigError : Type 0 where
  invalid_tag : ConfigError
  no_workers : ConfigError
  no_payload : ConfigError
  empty_hostlist : ConfigError
  one_host : ConfigError
  client_addr_error : HostPortError → ConfigError
  client_port_zero : ConfigError
  test_addr_error : HostPortError → ConfigError
  test_host_empty : ConfigError
  test_port_zero : ConfigError
  test_host_unspecified : ConfigError

unfoldable pub is_bad_tag : Text → Bool
unfolding is_empty contains text_eq
is_bad_tag tag =
    is_empty tag
    || contains tag b'/'
    || contains tag b'\\'
    || contains tag 0
    || text_eq tag (codes ".")
    || text_eq tag (codes "..")

-- The end of `validate`, on what the two addresses parse to.
unfoldable pub validate_addrs :
    IpAddrs
    → Result HostPortError (Text × ℕ)
    → Result HostPortError (Text × ℕ)
    → Result {0, 0} ConfigError Unit
unfolding is_unspecified_host is_empty
validate_addrs std (err e) test = err (client_addr_error e)
validate_addrs std (ok (c_host, c_port)) (err e) =
    if c_port == 0 then err client_port_zero else err (test_addr_error e)
validate_addrs std (ok (c_host, c_port)) (ok (t_host, t_port)) =
    if c_port == 0
    then err client_port_zero
    else if is_empty t_host
    then err test_host_empty
    else if t_port == 0
    then err test_port_zero
    else if is_unspecified_host std t_host
    then err test_host_unspecified
    else ok tt

unfoldable pub validate : IpAddrs → Config → Result {0, 0} ConfigError Unit
unfolding is_bad_tag validate_addrs parse_host_port
validate std self =
    if is_bad_tag (Config.tag self)
    then err invalid_tag
    else if Config.workers self == 0
    then err no_workers
    else if Config.payload_size self == 0
    then err no_payload
    else if length (Config.hostlist self) == 0
    then err empty_hostlist
    else if ltb (length (Config.hostlist self)) 2
    then err one_host
    else validate_addrs std (parse_host_port (Config.client_addr self))
        (parse_host_port (Config.test_addr self))

unfoldable pub port_of : Result HostPortError (Text × ℕ) → Result HostPortError ℕ
port_of (ok (host, port)) = ok port
port_of (err e) = err e

unfoldable pub control_port : Config → Result HostPortError ℕ
unfolding port_of
control_port self = port_of (parse_host_port (Config.client_addr self))

unfoldable pub test_port : Config → Result HostPortError ℕ
unfolding port_of
test_port self = port_of (parse_host_port (Config.test_addr self))

unfoldable pub test_family : IpAddrs → Config → Result HostPortError (Option AddrFamily)
unfolding from_host
test_family std self = elim (parse_host_port (Config.test_addr self)) [
  | err e ↦ err e
  | ok (host, port) ↦ ok (from_host std host)
]

-- `s.strip_suffix(suffix)`.
unfoldable pub strip_suffix : Text → Text → Option Text
unfolding text_eq
strip_suffix suffix [] = if text_eq [] suffix then some [] else none
strip_suffix suffix (c ∷ s) = elim (text_eq (c ∷ s) suffix) [
  | true ↦ some []
  | false ↦ elim (strip_suffix suffix s) [ none ↦ none | some stem ↦ some (c ∷ stem) ]
]

unfoldable pub db_filename : Text → Text
unfolding strip_suffix
db_filename tag = elim (strip_suffix (codes ".db") tag) [
  | some stem ↦ stem ++ codes ".db"
  | none ↦ elim (strip_suffix (codes ".DB") tag) [
    | some stem ↦ stem ++ codes ".db"
    | none ↦ tag ++ codes ".db"
  ]
]
