-- ===== src/Db/Tests.antt =====
-- The theorems on the database, with a concrete codec and a disk on which the third row cannot be
-- inserted.
use tperf.Common.{
  ℕ, [], ◌∷◌, Option, some, true, false, ltb, refl, ◌≡◌, ◌⊎◌, ◌↔◌, codes, as_i64, err, pos,
}
use tperf.Config.{Config, tcp, pairs, db_filename, is_bad_tag}
use tperf.Proto.{MetricWindow}
use tperf.Db.{
  System, removed, MetricRow, Db, bad_extension, create, insert_all, shutdown, metric_row,
}
use tperf.Db.Plain.{plain}
use tperf.Db.Writer.{IsOutcome, shutdown-IsOutcome}
use tperf.Db.Files.{create-bad_extension}

abbrev disk : System
disk = record {
  removal = λ path. removed;
  opened = true;
  schema_made = true;
  config_inserted = true;
  now_ns = 7;
  inserted = λ k. ltb k 2;
}

abbrev window : ℕ → MetricWindow (Option ℕ)
window n = record {
  server = codes "s1";
  wall_start_ns = n;
  wall_end_ns = n;
  duration_ns = 50_000_000;
  bytes_sent = n;
  bytes_recv = 0;
  send_bps = some n;
  recv_bps = some 0;
  packets_sent = 1;
  packets_recv = 0;
  packets_dropped = 0;
  cpu_pct = some 1;
  memory_bytes = 4096;
  peers = [];
}

abbrev row : ℕ → MetricRow (Option ℕ)
row n = record {
  tag = codes "t";
  server = codes "s1";
  wall_start_ns = pos n;
  wall_end_ns = pos n;
  duration_ns = pos 50_000_000;
  bytes_sent = pos n;
  bytes_recv = pos 0;
  send_bps = some n;
  recv_bps = some 0;
  packets_sent = pos 1;
  packets_recv = pos 0;
  packets_dropped = pos 0;
  cpu_pct = some 1;
  memory_bytes = pos 4096;
  peers_json = 0 ∷ [];
}

abbrev db : Db (Option ℕ)
db = record {
  tag = codes "t";
  config_row = record {
    tag = codes "t";
    json = [];
    hostlist = [];
    hostlist_raw = [];
    saved_at_ns = pos 7;
  };
  queue = [];
}

row1 : metric_row plain (codes "t") (window 1) ≡ some (row 1)
unfolding metric_row as_i64
row1 = refl

row2 : metric_row plain (codes "t") (window 2) ≡ some (row 2)
unfolding metric_row as_i64
row2 = refl

row3 : metric_row plain (codes "t") (window 3) ≡ some (row 3)
unfolding metric_row as_i64
row3 = refl

-- Of three windows, two are stored.
shutdown-IsOutcome_example :
    IsOutcome plain disk
      (record { config = db.config_row ∷ []; metrics = [] })
      (row 1 ∷ row 2 ∷ [])
      (row 1 ∷ row 2 ∷ row 3 ∷ [])
      (shutdown plain disk (insert_all plain disk db (window 1 ∷ window 2 ∷ window 3 ∷ [])))
shutdown-IsOutcome_example =
    shutdown-IsOutcome plain disk db (window 1 ∷ window 2 ∷ window 3 ∷ [])
      (row 1 ∷ row 2 ∷ row 3 ∷ []) refl refl refl refl (row1, (row2, (row3, tt)))

abbrev config : Config
config = record {
  client_addr = codes "a:7777";
  test_addr = codes "b:7788";
  network = tcp;
  payload_size = 1000;
  workers = 1;
  test_type = pairs;
  hostlist = codes "s1" ∷ codes "s2" ∷ [];
  hostlist_raw = [];
  tag = codes ".db";
}

accepted : is_bad_tag (codes ".db") ≡ false
unfolding is_bad_tag
accepted = refl

create-bad_extension_example :
    (create {F = Option ℕ} plain disk (db_filename (codes ".db")) config ≡ err bad_extension)
    ↔ ((codes ".db" ≡ codes ".db") ⊎ (codes ".db" ≡ codes ".DB"))
create-bad_extension_example = create-bad_extension plain disk config accepted
