-- ===== src/Lib.antt =====
-- tperf measures the network between many hosts: a client reads a configuration, has a server run
-- on each host, starts pair or mesh tests on them, and collects a metric window a second from
-- each.
--
-- The parts, and the modules that model them (paths from the root of the repository):
-- * src/config.rs, Config: the configuration with `validate`; Config.Hosts has the expansion of
--   host patterns (`find_range`, `expand_pattern`, `expand_hostlist`), Config.Names what a file
--   names as hosts, Config.Load the reading of
--   a file (`from_toml`), Config.Size the sizes (`parse_size`). The client sends the
--   configuration to the servers, and makes the schedule of the expanded hosts.
-- * src/testplan.rs, TestPlan: `round_robin_rounds`, the assignments of both test types, and
--   `fill_resolved`. TestPlan.Schedule has the closed form of the schedule, from which
--   TestPlan.Coverage, Players and Tournament draw; Pairs, Round, Mesh, MeshRows and Addresses
--   are about the assignments.
-- * src/proto.rs, Proto: the messages and their frames.
-- * src/server.rs, Server: the session that starts and stops tests for a client (`handle_conn`),
--   and the loop that reports windows (`metrics_loop`, `wait_until_mono`, `emit_window`).
-- * src/dataplane.rs, Dataplane: the UDP header, the sequence numbers, and the loops that send
--   and receive (Dataplane.Send and Dataplane.Receive), the peers known by their addresses
--   (Dataplane.Accept), and the tasks of a test (Dataplane.Spawn). The loops count into the
--   counters of
-- * src/metrics.rs, Metrics: `AtomStats`, `Counters`, and the differences of snapshots;
--   Metrics.Window has the rates and `build_window`, Metrics.Proc the samples of the process.
-- * src/client.rs, Client: the rounds that the client plays (`run_pair_rounds`, `send_starts`),
--   and what it keeps of a server's messages (`pump_server`), of all servers at once in
--   Client.Readers.
-- * src/db.rs, Db: the file of a run, which a thread writes from a queue (`create`, `insert`,
--   `shutdown`).
-- * src/analyze.rs, Analyze: the arguments of the analysis (Analyze.Options), what `load` reads of the file, the
--   statistics, and the worst pairs of the report.
-- * src/netutil.rs, NetUtil: address texts, and the choice among resolved addresses;
--   NetUtil.Retry has the loops that resolve and connect again until a deadline.
-- * src/main.rs, Main: the command line, with the address that a server binds (`run` of
--   src/server.rs).
-- * Strings has what these use of the standard library's `str`; Common has the shared notation
--   and lemmas.
--
-- How the code is modelled. Texts are lists of code points, and bytes are numbers. A machine
-- integer is a native number with its wrapping or saturation written out. A result of `none`,
-- where the code returns no Option, is a panic. Errors keep their kind and drop their text. What
-- sockets, clocks and cancellation give is an explicit list of events, over which a loop recurs;
-- the end of the list is a prefix of a run. The shared counters are passed as state, and each
-- loop is modelled alone on them.
--
-- Fuel: `expand_pattern` has one more than the opening braces of its pattern, of which each
-- expansion takes one; `to_string` has one more than its number; the sender of a payload has the
-- bytes of it, of which each datagram takes one at least.
--
-- Parameters: `IpAddr` with its parser and tests (NetUtil.IpAddrs), `to_string` of a socket
-- address, the codec of serde_json (Proto.Codec and Db.Json), of which only round trips are
-- assumed, SQLite and the file system (Db.System: which of their calls succeed), what a machine
-- answers to a test (Dataplane.Spawn.Host), how many numbers a vector has room for (Config.Hosts:
-- a range beyond it is a panic, not one of the errors), what `sysconf` gives, the parser of TOML, and the arithmetic of `f64`
-- (Common.Floats: the operations, and the laws of the order on what is neither NaN nor negative,
-- which whole numbers meet; for sizes, that it is exact on whole numbers up to 2 ^ 53).
--
-- Not modelled: sockets and their options, DNS, threads and clocks themselves; the formatting of
-- numbers, and what is printed; the parser of TOML; and of src/client.rs the connections, the
-- waiting for a round and the shutdown.
pub mod Common
pub mod Strings
pub mod Proto
pub mod Config
pub mod NetUtil
pub mod TestPlan
pub mod Metrics
pub mod Dataplane
pub mod Server
pub mod Client
pub mod Db
pub mod Analyze
pub mod Main
