-- ===== src/Main.antt =====
-- src/main.rs: the command line, and the address that src/server.rs binds.
pub mod Ports
pub mod Tests
use tperf.Common.{
  List, [], ◌∷◌, Option, none, some, Bool, true, false, Text, codes, text_eq, if◌then◌else◌, Result,
  ok, err, Float, ℕ,
}
use tperf.NetUtil.{IpAddrs, SocketAddr, parse_host_port, HostPortError}
use tperf.NetUtil.Retry.{resolve_one}
use tperf.Config.{Config}
use tperf.Config.Size.{Rounding}
use tperf.Config.Load.{Table, LoadError, load, default_client_addr}

-- What the arguments behind the name of the program ask for.
pub data Command : Type 0 where
  client_command : Text → Command
  server_command : Option Text → Command
  analyze_command : List Text → Command
  usage : Command
  unknown : Text → Command

abbrev pub default_path : Text
default_path = codes "tperf.toml"

abbrev pub first_or : Text → List Text → Text
first_or path [] = path
first_or path (a ∷ args) = a

abbrev pub first : List Text → Option Text
first [] = none
first (a ∷ args) = some a

unfoldable pub command_of : List Text → Command
unfolding text_eq
command_of [] = usage
command_of (cmd ∷ args) =
    if text_eq cmd (codes "client")
    then client_command (first_or default_path args)
    else if text_eq cmd (codes "server")
    then server_command (first args)
    else if text_eq cmd (codes "analyze")
    then analyze_command args
    else if text_eq cmd (codes "help")
    then usage
    else if text_eq cmd []
    then usage
    else unknown cmd

module _ {F : Type 0} (float : Float F) (rounding : Rounding F) where
  abbrev pub addr_of : Result {0, 0} LoadError Config → Result {0, 0} LoadError Text
  addr_of (err e) = err e
  addr_of (ok cfg) = ok cfg.client_addr

  unfoldable pub load_client_addr :
      ℕ
      → IpAddrs
      → (Text → Option Table)
      → (Text → Option Text)
      → (Text → Bool)
      → Option Text
      → Result {0, 0} LoadError Text
  unfolding load
  load_client_addr room std toml read exists (some path) =
      addr_of (load float rounding room std toml read path)
  load_client_addr room std toml read exists none =
      if exists default_path
      then addr_of (load float rounding room std toml read default_path)
      else ok default_client_addr

module _ (std : IpAddrs) where
  -- The address that the server listens on; `none` is an error.
  unfoldable pub control_bind :
      (Text → Option (List (SocketAddr std))) → Text → Option (SocketAddr std)
  unfolding resolve_one
  control_bind lookup_host client_addr = elim (parse_host_port client_addr) [
    | err e ↦ none
    | ok (host, port) ↦ elim (IpAddrs.parse std host) [
      | some ip ↦ some (ip, port)
      | none ↦ resolve_one std lookup_host host port none
    ]
  ]
