-- ===== src/NetUtil/Addresses.antt =====
-- Reading back the texts of addresses.
use tperf.Common.{
  ℕ, ◌+◌, ◌*◌, ◌-◌, ◌∷◌, [], true, false, none, some, ◌++◌, Text, ok, ◌≡◌, ◌≢◌, ◌≤◌, refl, sym, ap,
  ◌∙◌, arith, All, Bool-cases, Option-cases, inl, inr, append_assoc,
}
use mathlib.Core.List.{reverse, reverse-append, reverse-reverse}
use tperf.Strings.{
  trim, trim_start, is_whitespace, contains, split_once, rsplit_once, parse_uint, parse_digits,
  to_string,
}
use tperf.Strings.Decimal.{IsDigit, to_string-IsDigit, to_string-last, parse_uint-to_string}
use tperf.NetUtil.{
  parse_host_port, parse_trimmed, parse_bracketed, parse_plain, join_host_port, starts_with,
  u16_max, is_empty,
}

pub trim_start-tight : (c : ℕ) (xs : Text) → is_whitespace c ≡ false → trim_start (c ∷ xs) ≡ c ∷ xs
unfolding trim_start
trim_start-tight c xs h = rw (h, trim_start)

-- A text whose first and last characters are not blank is its own trim.
pub trim-tight :
    (c : ℕ) (xs ys : Text) (d : ℕ)
    → is_whitespace c ≡ false
    → is_whitespace d ≡ false
    → c ∷ xs ≡ ys ++ d ∷ []
    → trim (c ∷ xs) ≡ c ∷ xs
unfolding trim
trim-tight c xs ys d h k e =
    let back : reverse (c ∷ xs) ≡ d ∷ reverse ys = ap reverse e ∙ reverse-append ys (d ∷ []) in
    ap (λ s. reverse (trim_start (reverse s))) (trim_start-tight c xs h)
    ∙ ap (λ s. reverse (trim_start s)) back
    ∙ ap reverse (trim_start-tight d (reverse ys) k)
    ∙ ap reverse (sym back)
    ∙ reverse-reverse (c ∷ xs)

split_once-append :
    (s t : Text) (c : ℕ) → contains s c ≡ false → split_once (s ++ c ∷ t) c ≡ some (s, t)
unfolding split_once contains
split_once-append [] t c h = ground arith
split_once-append (d ∷ s) t c h =
    let r : contains s c ≡ false = ground arith in ground (arith, split_once-append s t c r)

rsplit_once-none : (t : Text) (c : ℕ) → contains t c ≡ false → rsplit_once t c ≡ none
unfolding rsplit_once contains
rsplit_once-none [] c h = refl
rsplit_once-none (d ∷ t) c h =
    let r : contains t c ≡ false = ground arith in ground (arith, rsplit_once-none t c r)

pub rsplit_once-append :
    (s t : Text) (c : ℕ) → contains t c ≡ false → rsplit_once (s ++ c ∷ t) c ≡ some (s, t)
unfolding rsplit_once
rsplit_once-append [] t c h = ground (arith, rsplit_once-none t c h)
rsplit_once-append (d ∷ s) t c h = ground (arith, rsplit_once-append s t c h)

pub digits-no_colon : (s : Text) → All IsDigit s → contains s b':' ≡ false
unfolding contains
digits-no_colon [] h = refl
digits-no_colon (c ∷ s) (p, h) = ground (arith, digits-no_colon s h)

-- What `parse_host_port` reads back: a name that neither the trimming nor the brackets change.
abbrev pub IsHost : Text → Type 0
IsHost [] = ⊥
IsHost (c ∷ host) = (is_whitespace c ≡ false) × (c ≢ b'[') × (contains (c ∷ host) b']' ≡ false)

pub digit-visible : (c : ℕ) → IsDigit c → is_whitespace c ≡ false
unfolding is_whitespace
digit-visible c (lo, hi) = ground arith

-- A text that starts with a visible character and ends with a port is its own trim.
trim-port :
    (c : ℕ) (xs : Text) (port : ℕ)
    → is_whitespace c ≡ false
    → trim (c ∷ xs ++ to_string port) ≡ c ∷ xs ++ to_string port
trim-port c xs port h =
    let (ys, d, e, p) = to_string-last port in
    trim-tight c (xs ++ to_string port) (c ∷ xs ++ ys) d h (digit-visible d p)
      (ap (λ s. c ∷ xs ++ s) e ∙ sym (append_assoc (c ∷ xs) ys (d ∷ [])))

snoc-some : (ys : Text) (d : ℕ) → is_empty (ys ++ d ∷ []) ≡ false
unfolding is_empty
snoc-some [] d = refl
snoc-some (y ∷ ys) d = refl

port-some : (port : ℕ) → is_empty (to_string port) ≡ false
unfolding is_empty
port-some port = let (ys, d, e, p) = to_string-last port in rw e (snoc-some ys d)

bracketed_step :
    (rest host port_str : Text) (port : ℕ)
    → split_once rest b']' ≡ some (host, b':' ∷ port_str)
    → parse_uint u16_max port_str ≡ some port
    → is_empty host ≡ false
    → parse_bracketed rest ≡ ok (host, port)
unfolding parse_bracketed
bracketed_step rest host port_str port e p h = ground arith

plain_step :
    (s host port_str : Text) (port : ℕ)
    → rsplit_once s b':' ≡ some (host, port_str)
    → parse_uint u16_max port_str ≡ some port
    → is_empty host ≡ false
    → is_empty port_str ≡ false
    → contains host b':' ≡ false
    → parse_plain s ≡ ok (host, port)
unfolding parse_plain
plain_step s host port_str port e p h k q = ground arith

join-brackets :
    (host : Text) (port : ℕ)
    → contains host b':' ≡ true
    → starts_with host b'[' ≡ false
    → join_host_port host port ≡ b'[' ∷ host ++ b']' ∷ b':' ∷ to_string port
unfolding join_host_port
join-brackets host port h k = ground arith

join-plain :
    (host : Text) (port : ℕ)
    → contains host b':' ≡ false
    → join_host_port host port ≡ host ++ b':' ∷ to_string port
unfolding join_host_port
join-plain host port h = ground arith

not_bracket : (c : ℕ) (host : Text) → c ≢ b'[' → starts_with (c ∷ host) b'[' ≡ false
unfolding starts_with
not_bracket c host h = ground arith

trimmed-plain : (c : ℕ) (rest : Text) → c ≢ b'[' → parse_trimmed (c ∷ rest) ≡ parse_plain (c ∷ rest)
unfolding parse_trimmed
trimmed-plain c rest h = ground arith

-- An address that `join_host_port` writes is read back by `parse_host_port` with the same host and
-- port, where the host starts with a character that is neither blank nor `[` and holds no `]`, and
-- the port is a `u16`; so names, IPv4 addresses and (in brackets) IPv6 addresses all survive.
pub parse_host_port-join_host_port :
    (host : Text) (port : ℕ)
    → IsHost host
    → port ≤ u16_max
    → parse_host_port (join_host_port host port) ≡ ok (host, port)
unfolding parse_host_port parse_trimmed is_empty is_whitespace
parse_host_port-join_host_port [] port h le = absurd h
parse_host_port-join_host_port (c ∷ host) port (blank, bracket, close) le =
    elim (Bool-cases (contains (c ∷ host) b':')) [
      | inl six ↦
          let text = append_assoc (b'[' ∷ c ∷ host) (b']' ∷ b':' ∷ []) (to_string port) in
          ap parse_host_port
            (join-brackets (c ∷ host) port six (not_bracket c host bracket) ∙ sym text)
          ∙ ap parse_trimmed (trim-port b'[' (c ∷ (host ++ b']' ∷ b':' ∷ [])) port refl ∙ text)
          ∙ bracketed_step _ (c ∷ host) (to_string port) port
              (split_once-append (c ∷ host) (b':' ∷ to_string port) b']' close)
              (parse_uint-to_string u16_max port le) refl
      | inr other ↦
          let text = append_assoc (c ∷ host) (b':' ∷ []) (to_string port) in
          ap parse_host_port (join-plain (c ∷ host) port other ∙ sym text)
          ∙ ap parse_trimmed (trim-port c (host ++ b':' ∷ []) port blank ∙ text)
          ∙ trimmed-plain c _ bracket
          ∙ plain_step _ (c ∷ host) (to_string port) port
              (rsplit_once-append (c ∷ host) (to_string port) b':'
                (digits-no_colon _ (to_string-IsDigit port)))
              (parse_uint-to_string u16_max port le) refl (port-some port) other
    ]

parse_digits-le : (max n : ℕ) (s : Text) (m : ℕ) → n ≤ max → parse_digits max n s ≡ some m → m ≤ max
unfolding parse_digits
parse_digits-le max n [] m h e = ground arith
parse_digits-le max n (c ∷ s) m h e = ground (arith, parse_digits-le max (n * 10 + (c - b'0')) s m)

parse_uint-le : (max : ℕ) (s : Text) (m : ℕ) → parse_uint max s ≡ some m → m ≤ max
unfolding parse_uint
parse_uint-le max [] m e = ground arith
parse_uint-le max (c ∷ []) m e = parse_digits-le max 0 (c ∷ []) m (omega arith) e
parse_uint-le max (c ∷ d ∷ s) m e = ground (
  arith,
  parse_digits-le max 0 (d ∷ s) m (omega arith),
  parse_digits-le max 0 (c ∷ d ∷ s) m (omega arith),
)

parse_plain_sound :
    (s host : Text) (port : ℕ)
    → parse_plain s ≡ ok (host, port)
    → (is_empty host ≡ false) × (port ≤ u16_max)
unfolding parse_plain
parse_plain_sound s host port e = elim (Option-cases (rsplit_once s b':')) [
  | inl q ↦ ground arith
  | inr ((before, behind), q) ↦ elim (Option-cases (parse_uint u16_max behind)) [
    | inl r ↦ ground arith
    | inr (n, r) ↦ let le = parse_uint-le u16_max behind n r in ground arith
  ]
]

parse_bracketed_sound :
    (s host : Text) (port : ℕ)
    → parse_bracketed s ≡ ok (host, port)
    → (is_empty host ≡ false) × (port ≤ u16_max)
unfolding parse_bracketed
parse_bracketed_sound s host port e = elim (Option-cases (split_once s b']')) [
  | inl q ↦ ground arith
  | inr ((before, []), q) ↦ ground arith
  | inr ((before, c ∷ behind), q) ↦ elim (Option-cases (parse_uint u16_max behind)) [
    | inl r ↦ ground arith
    | inr (n, r) ↦ let le = parse_uint-le u16_max behind n r in ground arith
  ]
]

parse_trimmed_sound :
    (s host : Text) (port : ℕ)
    → parse_trimmed s ≡ ok (host, port)
    → (is_empty host ≡ false) × (port ≤ u16_max)
unfolding parse_trimmed
parse_trimmed_sound [] host port e = ground arith
parse_trimmed_sound (c ∷ s) host port e =
    ground (arith, parse_plain_sound (c ∷ s) host port, parse_bracketed_sound s host port)

-- Whatever `parse_host_port` accepts has a host that is not empty, and a port that is a `u16`.
pub parse_host_port_sound :
    (s host : Text) (port : ℕ)
    → parse_host_port s ≡ ok (host, port)
    → (is_empty host ≡ false) × (port ≤ u16_max)
unfolding parse_host_port
parse_host_port_sound s host port e = parse_trimmed_sound (trim s) host port e
