-- ===== src/Config/Validation.antt =====
-- What a validated configuration promises.
use tperf.Common.{
  ℕ, ◌≤◌, false, length, some, Text, codes, text_eq, text_eq→eq, text_eq_refl, length-append, ok,
  ◌≡◌, ap, sym, ◌∙◌, arith, Bool-cases, inl, inr, Option-cases, Result-cases, ◌++◌, ◌∷◌, [], ◌≢◌,
  All, true,
}
use tperf.Strings.{contains}
use tperf.NetUtil.{is_empty, parse_host_port, IpAddrs, from_host, is_unspecified_host, u16_max}
use tperf.NetUtil.Addresses.{parse_host_port_sound}
use tperf.Config.{
  Config, is_bad_tag, validate, validate_addrs, port_of, control_port, test_port, test_family,
  strip_suffix, db_filename,
}

-- A tag that names a file in the directory that it is put into: it has no separator and no NUL, and
-- is not empty, `.` or `..`.
abbrev pub IsPlain : Text → Type 0
IsPlain tag =
    (tag ≢ [])
    × All (λ c. (c ≢ b'/') × (c ≢ b'\\') × (c ≢ 0)) tag
    × (tag ≢ codes ".")
    × (tag ≢ codes "..")

abbrev pub IsValid : Config → Type 0
IsValid cfg =
    IsPlain (Config.tag cfg)
    × (1 ≤ Config.workers cfg)
    × (1 ≤ Config.payload_size cfg)
    × (2 ≤ length (Config.hostlist cfg))

no_separator :
    (s : Text)
    → contains s b'/' ≡ false
    → contains s b'\\' ≡ false
    → contains s 0 ≡ false
    → All (λ c. (c ≢ b'/') × (c ≢ b'\\') × (c ≢ 0)) s
unfolding contains
no_separator [] h k l = tt
no_separator (c ∷ s) h k l = (
  (λ e. ground (arith), λ e. ground (arith), λ e. ground (arith)),
  no_separator s (ground arith) (ground arith) (ground arith),
)

other_text : (s t : Text) → text_eq s t ≡ false → s ≢ t
other_text s t h e =
    let same : text_eq s t ≡ true = ap (λ u. text_eq s u) (sym e) ∙ text_eq_refl s in ground arith

is_bad_tag-IsPlain : (tag : Text) → is_bad_tag tag ≡ false → IsPlain tag
unfolding is_bad_tag is_empty
is_bad_tag-IsPlain tag h = elim (Bool-cases (is_empty tag)) [
  | inl t ↦ absurd (ground arith)
  | inr f ↦ (
    λ e. let empty : is_empty tag ≡ true = ap is_empty e in ground arith,
    no_separator tag (ground arith) (ground arith) (ground arith),
    other_text tag (codes ".") (ground arith),
    other_text tag (codes "..") (ground arith),
  )
]

-- The parts of a configuration that `validate` checks on its own.
validate-IsValid : (std : IpAddrs) (cfg : Config) → validate std cfg ≡ ok tt → IsValid cfg
unfolding validate
validate-IsValid std cfg e =
    let plain : is_bad_tag (Config.tag cfg) ≡ false = ground arith in
    (is_bad_tag-IsPlain (Config.tag cfg) plain, ground arith, ground arith, ground arith)

validate-addrs :
    (std : IpAddrs) (cfg : Config)
    → validate std cfg ≡ ok tt
    → validate_addrs std
        (parse_host_port (Config.client_addr cfg))
        (parse_host_port (Config.test_addr cfg))
      ≡ ok tt
unfolding validate
validate-addrs std cfg e = ground arith

addrs_step :
    (std : IpAddrs) (c_host t_host : Text) (c_port t_port : ℕ)
    → validate_addrs std (ok (c_host, c_port)) (ok (t_host, t_port)) ≡ ok tt
    → (1 ≤ c_port) × (1 ≤ t_port) × (is_unspecified_host std t_host ≡ false)
unfolding validate_addrs
addrs_step std c_host t_host c_port t_port e = ground arith

-- A configuration that `validate` accepts has a plain tag (`IsPlain`), a worker, a payload and two
-- hosts; its `control_port` and `test_port` are ports other than 0; and `test_family` is that of a
-- test host that is not an unspecified address. So none of these three fails behind `validate`.
pub validate_sound :
    (std : IpAddrs) (cfg : Config)
    → validate std cfg ≡ ok tt
    → IsValid cfg
      × ((p : ℕ) × (control_port cfg ≡ ok p) × (1 ≤ p) × (p ≤ u16_max))
      × ((q : ℕ) × (test_port cfg ≡ ok q) × (1 ≤ q) × (q ≤ u16_max))
      × ((host : Text) × (test_family std cfg ≡ ok (from_host std host))
          × (is_unspecified_host std host ≡ false))
unfolding validate_addrs control_port test_port test_family
validate_sound std cfg e =
    let addrs = validate-addrs std cfg e in
    elim (Result-cases (parse_host_port (Config.client_addr cfg))) [
      | inr (c, p) ↦ absurd (ground arith)
      | inl ((c_host, c_port), p) ↦ elim (Result-cases (parse_host_port (Config.test_addr cfg))) [
        | inr (c, q) ↦ absurd (ground arith)
        | inl ((t_host, t_port), q) ↦
            let small = parse_host_port_sound _ c_host c_port p in
            let small' = parse_host_port_sound _ t_host t_port q in
            let kept : validate_addrs std (ok (c_host, c_port)) (ok (t_host, t_port)) ≡ ok tt =
              sym (ap (λ c. validate_addrs std c (ok (t_host, t_port))) p)
              ∙ sym (ap (validate_addrs std (parse_host_port (Config.client_addr cfg))) q)
              ∙ addrs in
            let (positive, positive', named) = addrs_step std c_host t_host c_port t_port kept in
            (
              validate-IsValid std cfg e,
              (c_port, ap port_of p, positive, small.1),
              (t_port, ap port_of q, positive', small'.1),
              (t_host, ground arith, named),
            )
      ]
    ]

longer_ne : (c : ℕ) (stem suffix : Text) → text_eq (c ∷ stem ++ suffix) suffix ≡ false
longer_ne c stem suffix = elim (Bool-cases (text_eq (c ∷ stem ++ suffix) suffix)) [
  | inl t ↦
      let e = ap length (text_eq→eq (c ∷ stem ++ suffix) suffix t) in
      let k = length-append (c ∷ stem) suffix in absurd (omega arith)
  | inr f ↦ f
]

strip_suffix-append : (d : ℕ) (ds stem : Text) → strip_suffix (d ∷ ds) (stem ++ d ∷ ds) ≡ some stem
unfolding strip_suffix
strip_suffix-append d ds [] = rw (text_eq_refl (d ∷ ds), strip_suffix)
strip_suffix-append d ds (c ∷ stem) =
    ground (arith, longer_ne c stem (d ∷ ds), strip_suffix-append d ds stem)

db_filename_stem : (stem : Text) → db_filename (stem ++ codes ".db") ≡ stem ++ codes ".db"
unfolding db_filename
db_filename_stem stem = rw (strip_suffix-append b'.' (codes "db") stem, db_filename)

db_filename-ends : (tag : Text) → (stem : Text) × (db_filename tag ≡ stem ++ codes ".db")
unfolding db_filename
db_filename-ends tag = elim (Option-cases (strip_suffix (codes ".db") tag)) [
  | inr (stem, p) ↦ (stem, rw (p, db_filename))
  | inl p ↦ elim (Option-cases (strip_suffix (codes ".DB") tag)) [
    | inr (stem, q) ↦ (stem, rw (p, q, db_filename))
    | inl q ↦ (tag, rw (p, q, db_filename))
  ]
]

-- `db_filename` gives a name that it leaves as it is: `.db` is added once, and never doubled.
pub db_filename-idempotent : (tag : Text) → db_filename (db_filename tag) ≡ db_filename tag
db_filename-idempotent tag =
    let (stem, e) = db_filename-ends tag in ap db_filename e ∙ db_filename_stem stem ∙ sym e
