-- ===== src/NetUtil.antt =====
-- src/netutil.rs: addresses as texts and the choice among resolved ones. The sockets of that file
-- are the system's. `IpAddr` with its parser and its tests is the standard library's: a parameter.
pub mod Addresses
pub mod Choice
pub mod Retry
pub mod Backoff
pub mod Tests
use tperf.Common.{
  ℕ, ◌+◌, ◌∷◌, [], List, Bool, true, false, ◌&&◌, ◌||◌, not, Option, none, some, ◌++◌, Text, codes,
  text_eq, ◌==◌, ltb, leb, if◌then◌else◌, keep, Result, ok, err,
}
use tperf.Strings.{trim, contains, split_once, rsplit_once, parse_uint, to_string}

pub data HostPortError : Type 0 where
  empty_address : HostPortError
  missing_bracket : HostPortError
  missing_port : HostPortError
  invalid_port : HostPortError
  empty_host : HostPortError
  not_host_port : HostPortError

abbrev pub u16_max : ℕ
u16_max = 0xFFFF

unfoldable pub is_empty : Text → Bool
is_empty [] = true
is_empty (c ∷ s) = false

-- Behind a leading `[`.
unfoldable pub parse_bracketed : Text → Result HostPortError (Text × ℕ)
unfolding is_empty
parse_bracketed rest = elim (split_once rest b']') [
  | none ↦ err missing_bracket
  | some (host, []) ↦ err missing_port
  | some (host, c ∷ port_str) ↦ elim (c == b':') [
    | false ↦ err missing_port
    | true ↦ elim (parse_uint u16_max port_str) [
      | none ↦ err invalid_port
      | some port ↦ if is_empty host then err empty_host else ok (host, port)
    ]
  ]
]

unfoldable pub parse_plain : Text → Result HostPortError (Text × ℕ)
unfolding is_empty
parse_plain s = elim (rsplit_once s b':') [
  | none ↦ err not_host_port
  | some (host, port_str) ↦
      elim (not (is_empty host) && not (is_empty port_str) && not (contains host b':')) [
        | false ↦ err not_host_port
        | true ↦ elim (parse_uint u16_max port_str) [
          | none ↦ err invalid_port
          | some port ↦ ok (host, port)
        ]
      ]
]

unfoldable pub parse_trimmed : Text → Result HostPortError (Text × ℕ)
unfolding parse_bracketed parse_plain
parse_trimmed [] = err empty_address
parse_trimmed (c ∷ rest) = if c == b'[' then parse_bracketed rest else parse_plain (c ∷ rest)

unfoldable pub parse_host_port : Text → Result HostPortError (Text × ℕ)
unfolding parse_trimmed trim
parse_host_port s = parse_trimmed (trim s)

unfoldable pub starts_with : Text → ℕ → Bool
starts_with [] d = false
starts_with (c ∷ s) d = c == d

unfoldable pub join_host_port : Text → ℕ → Text
unfolding starts_with contains to_string
join_host_port host port =
    if contains host b':' && not (starts_with host b'[')
    then b'[' ∷ host ++ b']' ∷ b':' ∷ to_string port
    else host ++ b':' ∷ to_string port

pub data AddrFamily : Type 0 where
  v4 : AddrFamily
  v6 : AddrFamily

-- `eq_ignore_ascii_case`.
unfoldable pub to_ascii_lowercase : ℕ → ℕ
to_ascii_lowercase c = if leb b'A' c && leb c b'Z' then c + 32 else c

unfoldable pub eq_ignore_ascii_case : Text → Text → Bool
unfolding to_ascii_lowercase
eq_ignore_ascii_case [] [] = true
eq_ignore_ascii_case [] (d ∷ t) = false
eq_ignore_ascii_case (c ∷ s) [] = false
eq_ignore_ascii_case (c ∷ s) (d ∷ t) =
    to_ascii_lowercase c == to_ascii_lowercase d && eq_ignore_ascii_case s t

-- `IpAddr`, as the standard library offers it.
pub record IpAddrs : Type 1 where
  pub IpAddr : Type 0
  pub parse : Text → Option IpAddr
  pub family : IpAddr → AddrFamily
  pub is_unspecified : IpAddr → Bool
  pub is_loopback : IpAddr → Bool

-- `SocketAddr`: an address and a port.
abbrev pub SocketAddr : IpAddrs → Type 0
SocketAddr std = IpAddrs.IpAddr std × ℕ

module _ (std : IpAddrs) where
  unfoldable pub from_host : Text → Option AddrFamily
  from_host host = elim (IpAddrs.parse std host) [
    | some ip ↦ some (IpAddrs.family std ip)
    | none ↦ none
  ]

  unfoldable pub is_ipv4 : SocketAddr std → Bool
  is_ipv4 (ip, port) = elim (IpAddrs.family std ip) [ v4 ↦ true | v6 ↦ false ]

  unfoldable pub is_ipv6 : SocketAddr std → Bool
  is_ipv6 (ip, port) = elim (IpAddrs.family std ip) [ v4 ↦ false | v6 ↦ true ]

  unfoldable pub matches : AddrFamily → SocketAddr std → Bool
  unfolding is_ipv4 is_ipv6
  matches v4 addr = is_ipv4 addr
  matches v6 addr = is_ipv6 addr

  unfoldable pub is_unspecified_host : Text → Bool
  unfolding eq_ignore_ascii_case text_eq
  is_unspecified_host host = elim (IpAddrs.parse std host) [
    | some ip ↦ IpAddrs.is_unspecified std ip
    | none ↦ text_eq host (codes "*") || eq_ignore_ascii_case host (codes "unspecified")
  ]

  unfoldable pub is_loopback_host : Text → Bool
  unfolding eq_ignore_ascii_case
  is_loopback_host host =
      eq_ignore_ascii_case host (codes "localhost")
      || elim (IpAddrs.parse std host) [ some ip ↦ IpAddrs.is_loopback std ip | none ↦ false ]

  unfoldable pub find : (SocketAddr std → Bool) → List (SocketAddr std) → Option (SocketAddr std)
  find p [] = none
  find p (a ∷ xs) = elim (p a) [ true ↦ some a | false ↦ find p xs ]

  unfoldable pub remote : SocketAddr std → Bool
  remote (ip, port) = not (IpAddrs.is_loopback std ip)

  -- The order of preference among the addresses of the wanted family.
  unfoldable pub prefer : List (SocketAddr std) → Option (SocketAddr std)
  unfolding find remote is_ipv4 is_ipv6
  prefer [] = none
  prefer (first ∷ others) = elim (find (λ a. is_ipv4 a && remote a) (first ∷ others)) [
    | some a ↦ some a
    | none ↦ elim (find (λ a. is_ipv6 a && remote a) (first ∷ others)) [
      | some a ↦ some a
      | none ↦ elim (find is_ipv4 (first ∷ others)) [ some a ↦ some a | none ↦ some first ]
    ]
  ]

  -- `none` is the error "no matching addresses".
  unfoldable pub pick_addr : List (SocketAddr std) → Option AddrFamily → Option (SocketAddr std)
  unfolding prefer matches
  pick_addr addrs none = prefer addrs
  pick_addr addrs (some fam) = prefer (keep (matches fam) addrs)
