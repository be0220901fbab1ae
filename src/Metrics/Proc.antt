-- ===== src/Metrics/Proc.antt =====
-- src/metrics.rs: the samples of the process, from the texts of /proc.
use tperf.Common.{
  ℕ, List, [], ◌∷◌, Option, none, some, true, false, Text, if◌then◌else◌, u64_max, saturating_mul,
  get_elem?, ltb,
}
use tperf.Strings.{is_whitespace, parse_uint, rsplit_once}
use tperf.Metrics.Window.{ProcSample, page_size}

-- The fields of `split_whitespace`; the first one is what stands before the first blank, if
-- anything.
unfoldable pub split_fields : Text → Text × List Text
unfolding is_whitespace
split_fields [] = ([], [])
split_fields (c ∷ s) =
    let (first, others) = split_fields s in
    elim (is_whitespace c) [
      | false ↦ (c ∷ first, others)
      | true ↦ ([], elim first [ [] ↦ others | d ∷ word ↦ (d ∷ word) ∷ others ])
    ]

unfoldable pub split_whitespace : Text → List Text
unfolding split_fields
split_whitespace s = elim ((split_fields s).0) [
  | [] ↦ (split_fields s).1
  | c ∷ word ↦ (c ∷ word) ∷ (split_fields s).1
]

-- The two values behind eleven fields.
unfoldable pub cpu_fields : List Text → Option (ℕ × ℕ)
unfolding parse_uint
cpu_fields fields = elim (get_elem? fields 11) [
  | none ↦ none
  | some u ↦ elim (parse_uint u64_max u) [
    | none ↦ none
    | some utime ↦ elim (get_elem? fields 12) [
      | none ↦ none
      | some s ↦ elim (parse_uint u64_max s) [ none ↦ none | some stime ↦ some (utime, stime) ]
    ]
  ]
]

-- Behind the last `)` and one byte more: `stat.get` fails where the text ends at the `)`, or goes
-- on with a character of several bytes.
unfoldable pub parse_stat_cpu : Text → Option (ℕ × ℕ)
unfolding rsplit_once split_whitespace cpu_fields
parse_stat_cpu stat = elim (rsplit_once stat b')') [
  | none ↦ none
  | some (before, []) ↦ none
  | some (before, c ∷ rest) ↦ if ltb c 128 then cpu_fields (split_whitespace rest) else none
]

-- The texts are those of /proc/self/stat and /proc/self/statm, where reading them succeeds.
unfoldable pub sample_proc : ℕ → Option Text → Option Text → Option ProcSample
unfolding parse_stat_cpu page_size
sample_proc sysconf none statm = none
sample_proc sysconf (some stat) statm = elim (parse_stat_cpu stat) [
  | none ↦ none
  | some (utime, stime) ↦ elim statm [
    | none ↦ none
    | some pages ↦
        let rss_pages : ℕ = elim (get_elem? (split_whitespace pages) 1) [
          | none ↦ 0
          | some s ↦ elim (parse_uint u64_max s) [ none ↦ 0 | some n ↦ n ]
        ] in
        some (record {
          utime_ticks = utime;
          stime_ticks = stime;
          rss_bytes = saturating_mul rss_pages (page_size sysconf);
        })
  ]
]
