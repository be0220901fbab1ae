-- ===== src/Config/File.antt =====
-- What a configuration file that is accepted gives.
use tperf.Common.{
  ℕ, ◌≤◌, ◌∷◌, [], List, false, Option, none, some, ◌++◌, Text, ◌≡◌, refl, subst, arith, ok, Float,
  All, All-append, Bool-cases, Option-cases, Result-cases, inl, inr, map,
}
use mathlib.Core.List.{Nodup}
use tperf.Strings.{trim}
use tperf.NetUtil.{IpAddrs, is_empty}
use tperf.Config.{Config, split_commas, keep_names, split_hosts, validate}
use tperf.Config.Hosts.{expand_hostlist, extend_all, expand_pattern}
use tperf.Config.Hostlist.{expand_hostlist_sound}
use tperf.Config.Validation.{IsValid, validate_sound}
use tperf.Config.Names.{AreGiven, deser_hostlist-AreGiven}
use tperf.Config.Size.{Rounding}
use tperf.Config.Load.{
  Value, string, integer, array, other, Table, get, field, to_text, to_u32, to_network,
  to_test_type, split_all, deser_hostlist, deser_payload, u32_max, ConfigFile, all_fields,
  config_file, config_of, from_toml, default_client_addr, default_payload_size, default_workers,
}
use tperf.Config.{Network, TestType, tcp, pairs}
use tperf.Common.{codes, pos, negsuc}

-- A name of the list is not empty.
abbrev pub IsName : Text → Type 0
IsName s = is_empty s ≡ false

keep_names-IsName : (xs : List Text) → All IsName (keep_names xs)
unfolding keep_names
keep_names-IsName [] = tt
keep_names-IsName (x ∷ xs) = elim (Bool-cases (is_empty x)) [
  | inl t ↦ rw (t, keep_names) (keep_names-IsName xs)
  | inr f ↦ rw (f, keep_names) (f, keep_names-IsName xs)
]

split_hosts-IsName : (s : Text) → All IsName (split_hosts s)
unfolding split_hosts
split_hosts-IsName s = keep_names-IsName (map trim ((split_commas s).0 ∷ (split_commas s).1))

split_all-IsName :
    (xs : List (Option Text)) (out : List Text) → split_all xs ≡ some out → All IsName out
unfolding split_all
split_all-IsName [] out e = subst (All IsName) {x = []} {y = out} (ground arith) tt
split_all-IsName (none ∷ xs) out e = absurd (ground arith)
split_all-IsName (some s ∷ xs) out e = elim (Option-cases (split_all xs)) [
  | inl n ↦ absurd (ground arith)
  | inr (later, q) ↦
      let w : split_hosts s ++ later ≡ out = ground arith in
      subst (All IsName) w (
        All-append IsName (split_hosts s) later (split_hosts-IsName s)
          (split_all-IsName xs later q))
]

deser_hostlist-IsName : (v : Value) (out : List Text) → deser_hostlist v ≡ some out → All IsName out
unfolding deser_hostlist
deser_hostlist-IsName (string s) out e =
    let w : split_hosts s ≡ out = ground arith in subst (All IsName) w (split_hosts-IsName s)
deser_hostlist-IsName (array xs) out e = split_all-IsName xs out e
deser_hostlist-IsName (integer n) out e = absurd (ground arith)
deser_hostlist-IsName other out e = absurd (ground arith)

to_u32-range : (v : Value) (n : ℕ) → to_u32 v ≡ some n → n ≤ u32_max
unfolding to_u32
to_u32-range (integer (pos m)) n e = ground arith
to_u32-range (integer (negsuc m)) n e = absurd (ground arith)
to_u32-range (string s) n e = absurd (ground arith)
to_u32-range (array xs) n e = absurd (ground arith)
to_u32-range other n e = absurd (ground arith)

-- A field holds its default, or what its value is read as.
field-All :
    {A : Type 0} (P : A → Type 0) (default : Option A) (read : Value → Option A) (v : Option Value)
    (a : A)
    → ((b : A) → default ≡ some b → P b)
    → ((w : Value) (b : A) → read w ≡ some b → P b)
    → field default read v ≡ some a
    → P a
unfolding field
field-All P default read none a d r e = d a e
field-All P default read (some w) a d r e = r w a e

-- A field without a default is there, and its value can be read.
field-given :
    {A : Type 0} (read : Value → Option A) (v : Option Value) (a : A)
    → field none read v ≡ some a
    → (w : Value) × (v ≡ some w) × (read w ≡ some a)
unfolding field
field-given read none a e = absurd (ground arith)
field-given read (some w) a e = (w, refl, e)

-- The table of the file gives these patterns for its key `hostlist`.
abbrev pub GivesHosts : Table → List Text → Type 0
GivesHosts table patterns =
    (v : Value) × (get table (codes "hostlist") ≡ some v) × AreGiven v patterns

all_fields_sound :
    (a b : Option Text) (c : Option Network) (d e : Option ℕ) (t : Option TestType)
    (g : Option (List Text)) (h : Option Text) (f : ConfigFile)
    → all_fields a b c d e t g h ≡ some f
    → (e ≡ some f.workers) × (g ≡ some f.hostlist)
unfolding all_fields
all_fields_sound none b c d e t g h f q = absurd (ground arith)
all_fields_sound (some a) none c d e t g h f q = absurd (ground arith)
all_fields_sound (some a) (some b) none d e t g h f q = absurd (ground arith)
all_fields_sound (some a) (some b) (some c) none e t g h f q = absurd (ground arith)
all_fields_sound (some a) (some b) (some c) (some d) none t g h f q = absurd (ground arith)
all_fields_sound (some a) (some b) (some c) (some d) (some e) none g h f q = absurd (ground arith)
all_fields_sound (some a) (some b) (some c) (some d) (some e) (some t) none h f q =
    absurd (ground arith)
all_fields_sound (some a) (some b) (some c) (some d) (some e) (some t) (some g) none f q =
    absurd (ground arith)
all_fields_sound (some a) (some b) (some c) (some d) (some e) (some t) (some g) (some h) f q =
    (ground arith, ground arith)

module _ {F : Type 0} (float : Float F) (rounding : Rounding F) where
  config_file_sound :
      (t : Table) (f : ConfigFile)
      → config_file float rounding t ≡ some f
      → GivesHosts t f.hostlist × All IsName f.hostlist × (f.workers ≤ u32_max)
  unfolding config_file
  config_file_sound t f e =
      let (workers, hosts) =
        all_fields_sound (field (some default_client_addr) to_text (get t (codes "client_addr")))
          (field none to_text (get t (codes "test_addr")))
          (field (some tcp) to_network (get t (codes "network")))
          (field (some default_payload_size) (deser_payload float rounding)
            (get t (codes "payload_size")))
          (field (some default_workers) to_u32 (get t (codes "workers")))
          (field (some pairs) to_test_type (get t (codes "type")))
          (field none deser_hostlist (get t (codes "hostlist")))
          (field none to_text (get t (codes "tag"))) f e in
      let (v, there, read) =
        field-given deser_hostlist (get t (codes "hostlist")) f.hostlist hosts in
      (
        (v, there, deser_hostlist-AreGiven v f.hostlist read),
        field-All (All IsName) none deser_hostlist (get t (codes "hostlist")) f.hostlist
            (λ b n. absurd (ground arith)) deser_hostlist-IsName hosts,
        field-All (λ n. n ≤ u32_max) (some default_workers) to_u32 (get t (codes "workers"))
            f.workers (λ b n. ground arith) to_u32-range workers,
      )

  -- A configuration that `from_toml` gives is valid, and its workers fit a u32; its patterns are
  -- those that the file gives, none of which is empty; and its host list is their expansion, and
  -- holds no host twice.
  pub from_toml_sound :
      (room : ℕ) (std : IpAddrs) (toml : Text → Option Table) (text : Text) (cfg : Config)
      → from_toml float rounding room std toml text ≡ ok cfg
      → (validate std cfg ≡ ok tt)
        × IsValid cfg
        × (cfg.workers ≤ u32_max)
        × ((table : Table) × (toml text ≡ some table) × GivesHosts table cfg.hostlist_raw)
        × All IsName cfg.hostlist_raw
        × (extend_all (expand_pattern room) cfg.hostlist_raw ≡ ok cfg.hostlist)
        × Nodup cfg.hostlist
  unfolding from_toml
  from_toml_sound room std toml text cfg e = elim (Option-cases (toml text)) [
    | inl n ↦ absurd (ground arith)
    | inr (table, p) ↦ elim (Option-cases (config_file float rounding table)) [
      | inl n ↦ absurd (ground arith)
      | inr (f, q) ↦ elim (Result-cases (expand_hostlist room f.hostlist)) [
        | inr (x, r) ↦ absurd (ground arith)
        | inl (hosts, r) ↦ elim (Result-cases (validate std (config_of float rounding f hosts))) [
          | inr (x, v) ↦ absurd (ground arith)
          | inl (u, v) ↦
              let same : config_of float rounding f hosts ≡ cfg = ground arith in
              let (given, names, workers) = config_file_sound table f q in
              let (distinct, expanded) = expand_hostlist_sound room f.hostlist hosts r in
              subst
                (λ c.
                  (validate std c ≡ ok tt)
                  × IsValid c
                  × (c.workers ≤ u32_max)
                  × ((t : Table) × (toml text ≡ some t) × GivesHosts t c.hostlist_raw)
                  × All IsName c.hostlist_raw
                  × (extend_all (expand_pattern room) c.hostlist_raw ≡ ok c.hostlist)
                  × Nodup c.hostlist)
                same
                (
                  v,
                  (validate_sound std (config_of float rounding f hosts) v).0,
                  workers,
                  (table, p, given),
                  names,
                  expanded,
                  distinct,
                )
        ]
      ]
    ]
  ]
