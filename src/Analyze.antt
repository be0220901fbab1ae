-- ===== src/Analyze.antt =====
-- src/analyze.rs: the samples that `tperf analyze` reads off the rows of a
-- database, and its report. SQLite's answers are the rows; printing is not modelled.
pub mod Options
pub mod Arguments
pub mod Totals
pub mod Rates
pub mod Rows
pub mod Samples
pub mod Worst
pub mod Tests
use tperf.Common.{
  ℕ, zero, suc, ◌+◌, ◌*◌, ◌/◌, ◌-◌, min, List, [], ◌∷◌, ◌++◌, Option, none, some, Bool, true, false,
  ◌&&◌, ◌||◌, not, Text, codes, text_eq, ◌==◌, ltb, leb, if◌then◌else◌, Result, ok, err, ℤ, as_u64,
  Float, length, take, text_order, pair_order, number_order, upsert, saturating_add, u64_max, drop,
}
use tperf.NetUtil.{is_empty}
use tperf.Proto.{PeerMetrics}
use tperf.Metrics.Window.{bps}
use tperf.Db.{Json, MetricRow}

abbrev pub min_window_ns : ℕ
min_window_ns = 50_000_000

-- What the file system says of a path.
pub data PathKind : Type 0 where
  directory : PathKind
  missing : PathKind
  file : PathKind
  other : PathKind

pub data FileError : Type 0 where
  no_path : FileError
  is_directory : FileError
  file_missing : FileError
  not_a_file : FileError

unfoldable pub require_db_file : (Text → PathKind) → Text → Result {0, 0} FileError Unit
unfolding is_empty
require_db_file kind path = if is_empty path then err no_path else elim (kind path) [
  | directory ↦ err is_directory
  | missing ↦ err file_missing
  | other ↦ err not_a_file
  | file ↦ ok tt
]

abbrev pub u128_max : ℕ
u128_max = 0xFFFF_FFFF_FFFF_FFFF_FFFF_FFFF_FFFF_FFFF

pub record RateStats (F : Type 0) : Type 0 where
  pub min_bps : F
  pub max_bps : F
  pub avg_bps : F
  pub windows : ℕ

pub record PairStats (F : Type 0) : Type 0 where
  pub src : Text
  pub dst : Text
  pub stats : RateStats F

pub record RawRow (F : Type 0) : Type 0 where
  pub server : Text
  pub wall_start_ns : ℕ
  pub duration_ns : ℕ
  pub bytes_sent : ℕ
  pub send_bps : F
  pub peers_json : Text

abbrev pub Samples : Type 0
Samples = List (ℕ × ℕ)

-- `BTreeMap<(String, String), Vec<(u64, u64)>>`.
abbrev pub PairSamples : Type 0
PairSamples = List ((Text × Text) × Samples)

-- The loop over the peers of a row.
unfoldable pub add_peers : Text → ℕ → List PeerMetrics → PairSamples → PairSamples
unfolding text_eq
add_peers server duration_ns [] m = m
add_peers server duration_ns (p ∷ peers) m =
    let skip = text_eq p.peer server || p.bytes_sent == 0 || ltb duration_ns min_window_ns in
    add_peers server duration_ns peers (
      if skip
      then m
      else upsert (pair_order text_order) (server, p.peer) []
          (λ xs. xs ++ (p.bytes_sent, duration_ns) ∷ []) m)

module _ {F : Type 0} where
  -- A row of the table `metrics`, as `load` reads it.
  unfoldable pub raw_row : MetricRow F → RawRow F
  unfolding as_u64
  raw_row r = record {
    server = r.server;
    wall_start_ns = as_u64 r.wall_start_ns;
    duration_ns = as_u64 r.duration_ns;
    bytes_sent = as_u64 r.bytes_sent;
    send_bps = r.send_bps;
    peers_json = r.peers_json;
  }

-- What `load` collects: the samples of each pair, the rate of each second, and all samples.
pub record Collected (F : Type 0) : Type 0 where
  pub pair_samples : PairSamples
  pub bucket_bps : List (ℕ × F)
  pub total_samples : Samples

pub data LoadError : Type 0 where
  bad_file : FileError → LoadError
  no_config : LoadError
  bad_row : LoadError
  bad_peers : Text → LoadError
  no_rows : LoadError

module _ {F : Type 0} (float : Float F) where
  -- The state of the loop of `from_samples`.
  pub record Extremes : Type 0 where
    pub min_bps : F
    pub max_bps : F
    pub bytes : ℕ
    pub duration_ns : ℕ

  unfoldable pub widen : ℕ × ℕ → Extremes → Extremes
  unfolding bps
  widen (b, d) e =
      let r = bps float b d in
      record {
        min_bps = if Float.lt float r e.min_bps then r else e.min_bps;
        max_bps = if Float.lt float e.max_bps r then r else e.max_bps;
        bytes = saturating_add e.bytes b;
        duration_ns = min (e.duration_ns + d) u128_max;
      }

  unfoldable pub widen_all : Samples → Extremes → Extremes
  unfolding widen
  widen_all [] e = e
  widen_all (x ∷ xs) e = widen_all xs (widen x e)

  unfoldable pub from_samples : Samples → Option (RateStats F)
  unfolding widen_all
  from_samples [] = none
  from_samples (x ∷ xs) =
      let e = widen_all (x ∷ xs) (record {
        min_bps = Float.infinity float;
        max_bps = Float.from float 0;
        bytes = 0;
        duration_ns = 0;
      }) in
      some (record {
        min_bps = e.min_bps;
        max_bps = e.max_bps;
        avg_bps =
            if e.duration_ns == 0
            then Float.from float 0
            else Float.over float
                (Float.times float
                  (Float.times float (Float.from float e.bytes) (Float.from float 8))
                  (Float.from float 1_000_000_000))
                (Float.from float e.duration_ns);
        windows = length (x ∷ xs);
      })

  -- The rest of the loop over the rows.
  unfoldable pub add_total : RawRow F → Collected F → Collected F
  add_total row c =
      if leb min_window_ns row.duration_ns && ltb 0 row.bytes_sent
      then (record c {
        bucket_bps =
            upsert number_order (row.wall_start_ns / 1_000_000_000) (Float.from float 0)
              (λ x. Float.plus float x row.send_bps) c.bucket_bps;
        total_samples = c.total_samples ++ (row.bytes_sent, row.duration_ns) ∷ [];
      })
      else c

  -- The loop over the rows; `none` is a row that cannot be read.
  unfoldable pub load_rows :
      Json → List (Option (RawRow F)) → Collected F → Result LoadError (Collected F)
  unfolding add_peers add_total
  load_rows json [] c = ok c
  load_rows json (none ∷ rows) c = err bad_row
  load_rows json (some row ∷ rows) c = elim (Json.peers_from json row.peers_json) [
    | none ↦ err (bad_peers row.server)
    | some peers ↦ load_rows json rows (
        add_total row
          (record c { pair_samples = add_peers row.server row.duration_ns peers c.pair_samples }))
  ]

  unfoldable pub pair_stats : PairSamples → List (PairStats F)
  unfolding from_samples
  pair_stats [] = []
  pair_stats (((src, dst), samples) ∷ m) = elim (from_samples samples) [
    | none ↦ pair_stats m
    | some stats ↦ record { src = src; dst = dst; stats = stats } ∷ pair_stats m
  ]

  -- `f64::min` and `f64::max` of numbers, where the second is kept only if the first is not the
  -- better.
  abbrev pub float_min : F → F → F
  float_min x y = if Float.lt float y x then y else x

  abbrev pub float_max : F → F → F
  float_max x y = if Float.lt float x y then y else x

  unfoldable pub fold_values : (F → F → F) → F → List (ℕ × F) → F
  fold_values f x [] = x
  fold_values f x ((k, v) ∷ m) = fold_values f (f x v) m

  -- The totals over the seconds, in place of those over the samples.
  unfoldable pub bucket_totals : List (ℕ × F) → RateStats F → RateStats F
  unfolding fold_values
  bucket_totals [] total = total
  bucket_totals (b ∷ m) total = record {
    min_bps = fold_values float_min (Float.infinity float) (b ∷ m);
    max_bps = fold_values float_max (Float.from float 0) (b ∷ m);
    avg_bps =
        Float.over float (fold_values (Float.plus float) (Float.from float 0) (b ∷ m))
          (Float.from float (length (b ∷ m)));
    windows = length (b ∷ m);
  }

  -- What is printed, without the path.
  pub record Report : Type 0 where
    pub tag : Text
    pub hosts : List Text
    pub pairs : List (PairStats F)
    pub total : RateStats F

  unfoldable pub report : Text → List Text → Collected F → Result LoadError Report
  unfolding from_samples pair_stats bucket_totals
  report tag hosts c = elim (from_samples c.total_samples) [
    | none ↦ err no_rows
    | some total ↦ ok (record {
      tag = tag;
      hosts = hosts;
      pairs = pair_stats c.pair_samples;
      total = bucket_totals c.bucket_bps total;
    })
  ]

  abbrev pub hosts_or_none : Option (List Text) → List Text
  hosts_or_none none = []
  hosts_or_none (some hosts) = hosts

  -- `load`: what the file system says, the row of the table `config` (`none` where it cannot be
  -- read, the file cannot be opened or the query cannot be prepared), and the rows of `metrics` in
  -- the order of the query.
  unfoldable pub load :
      Json
      → (Text → PathKind)
      → Text
      → Option (Text × Text)
      → List (Option (RawRow F))
      → Result LoadError Report
  unfolding require_db_file load_rows report
  load json kind path config rows = elim (require_db_file kind path) [
    | err e ↦ err (bad_file e)
    | ok u ↦ elim config [
      | none ↦ err no_config
      | some (tag, hosts_json) ↦
          elim (load_rows json rows
            (record { pair_samples = []; bucket_bps = []; total_samples = [] })) [
              | err e ↦ err e
              | ok c ↦ report tag (hosts_or_none (Json.hosts_from json hosts_json)) c
            ]
    ]
  ]

  -- The comparison of `sort_by`: is it `Less`? `partial_cmp` gives neither order where it fails.
  abbrev pub is_less : PairStats F → PairStats F → Bool
  is_less a b =
      Float.lt float a.stats.avg_bps b.stats.avg_bps
      || not (Float.lt float b.stats.avg_bps a.stats.avg_bps)
        && Float.lt float a.stats.min_bps b.stats.min_bps

  -- A stable sort, as `sort_by` is: an element stays in front of those behind it that are not less.
  unfoldable pub insert_pair : PairStats F → List (PairStats F) → List (PairStats F)
  insert_pair x [] = x ∷ []
  insert_pair x (y ∷ ys) = elim (is_less y x) [ true ↦ y ∷ insert_pair x ys | false ↦ x ∷ y ∷ ys ]

  unfoldable pub sort_pairs : List (PairStats F) → List (PairStats F)
  unfolding insert_pair
  sort_pairs [] = []
  sort_pairs (x ∷ xs) = insert_pair x (sort_pairs xs)

  unfoldable pub worst_pairs : List (PairStats F) → List (PairStats F)
  unfolding sort_pairs
  worst_pairs pairs = take 5 (sort_pairs pairs)

-- `(observed, expected)` directed pairs of `print_report`.
unfoldable pub expected_pairs : ℕ → ℕ
expected_pairs n = min (n * (n - 1)) u64_max
