-- ===== src/Config/Load.antt =====
-- src/config.rs: the configuration file. The reader of TOML is a parameter that gives a table of
-- values; serde's derived reading of the fields, with their defaults, stands here.
use tperf.Common.{
  ◌>>=◌, ℕ, ◌∷◌, [], List, Option, none, some, ◌++◌, Text, codes, text_eq, leb, if◌then◌else◌,
  Result, ok, err, Float, ℤ, pos, negsuc,
}
use tperf.NetUtil.{IpAddrs}
use tperf.Config.{
  Config, Network, tcp, udp, TestType, pairs, mesh, split_hosts, ConfigError, validate,
}
use tperf.Config.Hosts.{PatternError, expand_hostlist}
use tperf.Config.Size.{Rounding, parse_size}

abbrev pub default_client_addr : Text
default_client_addr = codes "0.0.0.0:7777"

abbrev pub default_payload_size : ℕ
default_payload_size = 104_857_600

abbrev pub default_workers : ℕ
default_workers = 10

abbrev pub u32_max : ℕ
u32_max = 0xFFFF_FFFF

-- A value of TOML; `array` has `none` for an element that is no string, and `other` is what no
-- field takes.
pub data Value : Type 0 where
  string : Text → Value
  integer : ℤ → Value
  array : List (Option Text) → Value
  other : Value

abbrev pub Table : Type 0
Table = List (Text × Value)

unfoldable pub get : Table → Text → Option Value
unfolding text_eq
get [] key = none
get ((k, v) ∷ table) key = if text_eq k key then some v else get table key

-- A field: its default where the key is missing (`none` for a field that has to be there), and else
-- what the value is read as, if it can be.
unfoldable pub field : {A : Type 0} → Option A → (Value → Option A) → Option Value → Option A
field default read none = default
field default read (some v) = read v

unfoldable pub to_text : Value → Option Text
to_text (string s) = some s
to_text (integer n) = none
to_text (array xs) = none
to_text other = none

-- A `u32`, of which the range is checked.
unfoldable pub to_u32 : Value → Option ℕ
to_u32 (integer (pos n)) = if leb n u32_max then some n else none
to_u32 (integer (negsuc n)) = none
to_u32 (string s) = none
to_u32 (array xs) = none
to_u32 other = none

unfoldable pub to_network : Value → Option Network
unfolding text_eq
to_network (string s) =
    if text_eq s (codes "tcp") then some tcp else if text_eq s (codes "udp") then some udp else none
to_network (integer n) = none
to_network (array xs) = none
to_network other = none

unfoldable pub to_test_type : Value → Option TestType
unfolding text_eq
to_test_type (string s) =
    if text_eq s (codes "pairs")
    then some pairs
    else if text_eq s (codes "mesh")
    then some mesh
    else none
to_test_type (integer n) = none
to_test_type (array xs) = none
to_test_type other = none

-- `visit_seq`.
unfoldable pub split_all : List (Option Text) → Option (List Text)
unfolding split_hosts
split_all [] = some []
split_all (none ∷ xs) = none
split_all (some s ∷ xs) = elim (split_all xs) [
  | none ↦ none
  | some out ↦ some (split_hosts s ++ out)
]

unfoldable pub deser_hostlist : Value → Option (List Text)
unfolding split_hosts split_all
deser_hostlist (string s) = some (split_hosts s)
deser_hostlist (array xs) = split_all xs
deser_hostlist (integer n) = none
deser_hostlist other = none

pub record ConfigFile : Type 0 where
  pub client_addr : Text
  pub test_addr : Text
  pub network : Network
  pub payload_size : ℕ
  pub workers : ℕ
  pub test_type : TestType
  pub hostlist : List Text
  pub tag : Text

-- The record of all fields, if each can be read.
unfoldable pub all_fields :
    Option Text
    → Option Text
    → Option Network
    → Option ℕ
    → Option ℕ
    → Option TestType
    → Option (List Text)
    → Option Text
    → Option ConfigFile
all_fields r_client_addr r_test_addr r_network r_payload_size r_workers r_test_type r_hostlist
      r_tag =
    do
      client_addr ← r_client_addr
      test_addr ← r_test_addr
      network ← r_network
      payload_size ← r_payload_size
      workers ← r_workers
      test_type ← r_test_type
      hostlist ← r_hostlist
      tag ← r_tag
      some (record {
        client_addr = client_addr;
        test_addr = test_addr;
        network = network;
        payload_size = payload_size;
        workers = workers;
        test_type = test_type;
        hostlist = hostlist;
        tag = tag;
      })

pub data LoadError : Type 0 where
  unreadable : LoadError
  bad_toml : LoadError
  bad_hosts : PatternError → LoadError
  bad_config : ConfigError → LoadError

module _ {F : Type 0} (float : Float F) (rounding : Rounding F) where
  unfoldable pub deser_payload : Value → Option ℕ
  unfolding parse_size
  deser_payload (integer (pos n)) = some n
  deser_payload (integer (negsuc n)) = none
  deser_payload (string s) = elim (parse_size float rounding s) [ err e ↦ none | ok n ↦ some n ]
  deser_payload (array xs) = none
  deser_payload other = none

  unfoldable pub config_file : Table → Option ConfigFile
  unfolding all_fields get field to_text to_u32 to_network to_test_type deser_hostlist deser_payload
  config_file t =
      all_fields (field (some default_client_addr) to_text (get t (codes "client_addr")))
        (field none to_text (get t (codes "test_addr")))
        (field (some tcp) to_network (get t (codes "network")))
        (field (some default_payload_size) deser_payload (get t (codes "payload_size")))
        (field (some default_workers) to_u32 (get t (codes "workers")))
        (field (some pairs) to_test_type (get t (codes "type")))
        (field none deser_hostlist (get t (codes "hostlist")))
        (field none to_text (get t (codes "tag")))

  abbrev pub config_of : ConfigFile → List Text → Config
  config_of f hostlist = record {
    client_addr = f.client_addr;
    test_addr = f.test_addr;
    network = f.network;
    payload_size = f.payload_size;
    workers = f.workers;
    test_type = f.test_type;
    hostlist = hostlist;
    hostlist_raw = f.hostlist;
    tag = f.tag;
  }

  unfoldable pub from_toml :
      ℕ → IpAddrs → (Text → Option Table) → Text → Result {0, 0} LoadError Config
  unfolding config_file expand_hostlist validate
  from_toml room std toml text = elim (toml text) [
    | none ↦ err bad_toml
    | some table ↦ elim (config_file table) [
      | none ↦ err bad_toml
      | some f ↦ elim (expand_hostlist room f.hostlist) [
        | err e ↦ err (bad_hosts e)
        | ok hostlist ↦ elim (validate std (config_of f hostlist)) [
          | err e ↦ err (bad_config e)
          | ok u ↦ ok (config_of f hostlist)
        ]
      ]
    ]
  ]

  -- The reading of the file is the system's; `none` is an error.
  unfoldable pub load :
      ℕ
      → IpAddrs
      → (Text → Option Table)
      → (Text → Option Text)
      → Text
      → Result {0, 0} LoadError Config
  unfolding from_toml
  load room std toml read path = elim (read path) [
    | none ↦ err unreadable
    | some text ↦ from_toml room std toml text
  ]
