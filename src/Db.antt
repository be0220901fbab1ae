-- ===== src/Db.antt =====
-- src/db.rs: the database of a run, which a thread writes from a queue. SQLite is what its tables
-- hold and which of its calls fail; serde_json is a parameter.
pub mod Writer
pub mod Files
pub mod Plain
pub mod Tests
use tperf.Common.{
  ℕ, zero, suc, List, [], ◌∷◌, ◌++◌, Option, none, some, Bool, true, false, Text, codes, text_eq,
  if◌then◌else◌, Result, ok, err, ℤ, as_i64,
}
use tperf.Strings.{rsplit_once}
use tperf.NetUtil.{is_empty}
use tperf.Config.{Config}
use tperf.Proto.{MetricWindow, PeerMetrics}

-- serde_json, for what the database keeps as text.
pub record Json : Type 0 where
  pub config_to : Config → Option Text
  pub hosts_to : List Text → Option Text
  pub hosts_from : Text → Option (List Text)
  pub peers_to : List PeerMetrics → Option Text
  pub peers_from : Text → Option (List PeerMetrics)

pub record ConfigRow : Type 0 where
  pub tag : Text
  pub json : Text
  pub hostlist : Text
  pub hostlist_raw : Text
  pub saved_at_ns : ℤ

pub record MetricRow (F : Type 0) : Type 0 where
  pub tag : Text
  pub server : Text
  pub wall_start_ns : ℤ
  pub wall_end_ns : ℤ
  pub duration_ns : ℤ
  pub bytes_sent : ℤ
  pub bytes_recv : ℤ
  pub send_bps : F
  pub recv_bps : F
  pub packets_sent : ℤ
  pub packets_recv : ℤ
  pub packets_dropped : ℤ
  pub cpu_pct : F
  pub memory_bytes : ℤ
  pub peers_json : Text

-- The tables, `metrics` in the order of its ids.
pub record Tables (F : Type 0) : Type 0 where
  pub config : List ConfigRow
  pub metrics : List (MetricRow F)

pub data DbError : Type 0 where
  bad_extension : DbError
  remove_failed : Text → DbError
  serialize_failed : DbError
  open_failed : DbError
  schema_failed : DbError
  insert_failed : DbError

-- What `remove_file` does with a file.
pub data Removal : Type 0 where
  removed : Removal
  not_found : Removal
  failed : Removal

-- The calls of SQLite and of the file system: which of them succeed. `inserted k` is about row `k`.
pub record System : Type 0 where
  pub removal : Text → Removal
  pub opened : Bool
  pub schema_made : Bool
  pub config_inserted : Bool
  pub now_ns : ℕ
  pub inserted : ℕ → Bool

-- `path.extension()` of a file name.
unfoldable pub extension : Text → Option Text
unfolding rsplit_once is_empty text_eq
extension name = elim (rsplit_once name b'.') [
  | none ↦ none
  | some (before, after) ↦
      if is_empty before then none else if text_eq name (codes "..") then none else some after
]

unfoldable pub sidecar : Text → Text → Text
sidecar path suffix = path ++ suffix

unfoldable pub remove_each : System → List Text → Result {0, 0} DbError Unit
remove_each sys [] = ok tt
remove_each sys (p ∷ ps) = elim (System.removal sys p) [
  | removed ↦ remove_each sys ps
  | not_found ↦ remove_each sys ps
  | failed ↦ err (remove_failed p)
]

unfoldable pub remove_db_files : System → Text → Result {0, 0} DbError Unit
unfolding remove_each sidecar
remove_db_files sys path =
    remove_each sys (path ∷ sidecar path (codes "-wal") ∷ sidecar path (codes "-shm") ∷ [])

pub data Event (F : Type 0) : Type 0 where
  metric : MetricWindow F → Event F
  shutdown_event : Event F

-- `Db`: what the thread is given, and its queue.
pub record Db (F : Type 0) : Type 0 where
  pub tag : Text
  pub config_row : ConfigRow
  pub queue : List (Event F)

unfoldable pub db_texts : Json → Config → Option (Text × Text × Text)
db_texts json cfg = elim (Json.config_to json cfg) [
  | none ↦ none
  | some cfg_json ↦ elim (Json.hosts_to json cfg.hostlist) [
    | none ↦ none
    | some hosts_json ↦ elim (Json.hosts_to json cfg.hostlist_raw) [
      | none ↦ none
      | some raw_json ↦ some (cfg_json, hosts_json, raw_json)
    ]
  ]
]

-- `path.extension() == Some("db")`.
unfoldable pub is_db_path : Text → Bool
unfolding extension text_eq
is_db_path path = elim (extension path) [ none ↦ false | some e ↦ text_eq e (codes "db") ]

module _ {F : Type 0} (json : Json) where
  -- The row of `insert_metric`.
  unfoldable pub metric_row : Text → MetricWindow F → Option (MetricRow F)
  unfolding as_i64
  metric_row tag w = elim (Json.peers_to json w.peers) [
    | none ↦ none
    | some peers ↦ some (record {
      tag = tag;
      server = w.server;
      wall_start_ns = as_i64 w.wall_start_ns;
      wall_end_ns = as_i64 w.wall_end_ns;
      duration_ns = as_i64 w.duration_ns;
      bytes_sent = as_i64 w.bytes_sent;
      bytes_recv = as_i64 w.bytes_recv;
      send_bps = w.send_bps;
      recv_bps = w.recv_bps;
      packets_sent = as_i64 w.packets_sent;
      packets_recv = as_i64 w.packets_recv;
      packets_dropped = as_i64 w.packets_dropped;
      cpu_pct = w.cpu_pct;
      memory_bytes = as_i64 w.memory_bytes;
      peers_json = peers;
    })
  ]

module _ {F : Type 0} (json : Json) (sys : System) where
  -- The loop of the thread: it ends at a shutdown, when no sender is left (the end of the queue),
  -- or with the first error.
  unfoldable pub writer_loop :
      Text → ℕ → Tables F → List (Event F) → Tables F × Result {0, 0} DbError Unit
  unfolding metric_row
  writer_loop tag k tables [] = (tables, ok tt)
  writer_loop tag k tables (shutdown_event ∷ events) = (tables, ok tt)
  writer_loop tag k tables (metric w ∷ events) = elim (metric_row json tag w) [
    | none ↦ (tables, err serialize_failed)
    | some row ↦
        let rest =
          writer_loop tag (suc k) (record tables { metrics = tables.metrics ++ row ∷ [] }) events in
        elim (System.inserted sys k) [ false ↦ (tables, err insert_failed) | true ↦ rest ]
  ]

  -- The thread, on a new file.
  unfoldable pub run_writer : Db F → Tables F × Result {0, 0} DbError Unit
  unfolding writer_loop
  run_writer db =
      let empty : Tables F = record { config = []; metrics = [] } in
      if System.opened sys
      then (if System.schema_made sys
          then (if System.config_inserted sys
              then writer_loop db.tag 0 (record { config = db.config_row ∷ []; metrics = [] })
                  db.queue
              else (empty, err insert_failed))
          else (empty, err schema_failed))
      else (empty, err open_failed)

  -- The thread is spawned without an error; what fails in it shows at the shutdown.
  unfoldable pub create : Text → Config → Result {0, 0} DbError (Db F)
  unfolding is_db_path remove_db_files db_texts
  create path cfg =
      if is_db_path path
      then elim (remove_db_files sys path) [
        | err e ↦ err e
        | ok u ↦ elim (db_texts json cfg) [
          | none ↦ err serialize_failed
          | some (cfg_json, hosts_json, raw_json) ↦ ok (record {
            tag = cfg.tag;
            config_row = record {
              tag = cfg.tag;
              json = cfg_json;
              hostlist = hosts_json;
              hostlist_raw = raw_json;
              saved_at_ns = as_i64 (System.now_ns sys);
            };
            queue = [];
          })
        ]
      ]
      else err bad_extension

  -- `DbHandle::insert`, which drops the error of a thread that is gone.
  unfoldable pub insert : Db F → MetricWindow F → Db F
  insert db w = record db { queue = db.queue ++ metric w ∷ [] }

  unfoldable pub insert_all : Db F → List (MetricWindow F) → Db F
  unfolding insert
  insert_all db [] = db
  insert_all db (w ∷ ws) = insert_all (insert db w) ws

  -- The join: what the thread leaves in the file, and its result.
  unfoldable pub shutdown : Db F → Tables F × Result {0, 0} DbError Unit
  unfolding run_writer
  shutdown db = run_writer (record db { queue = db.queue ++ shutdown_event ∷ [] })
