-- ===== src/Main/Tests.antt =====
-- The theorem on ports, with a resolver that reads the port behind the last colon.
use mathlib.Core.List.{Memᴰ}
use mathlib.Core.List.Memᴰ
use mathlib.Core.Option.{some-injective}
use tperf.Common.{
  ℕ, subst, ◌≤◌, List, [], ◌∷◌, ◌++◌, Option, none, some, true, ◌≡◌, refl, sym, ap, ◌∙◌, Text, ok,
  whole, Bool-cases, inl, inr, not, ◌&&◌, append_assoc,
}
use tperf.Strings.{rsplit_once, parse_uint, to_string, contains}
use tperf.Strings.Decimal.{to_string-IsDigit, parse_uint-to_string}
use tperf.NetUtil.{SocketAddr, v4, join_host_port, starts_with, u16_max}
use tperf.NetUtil.Addresses.{rsplit_once-append, digits-no_colon}
use tperf.NetUtil.Retry.{resolve_one}
use tperf.Config.{control_port}
use tperf.Config.Load.{load}
use tperf.Config.Tests.{names_only, whole_rounding, many}
use tperf.Client.Tests.{toml, loaded_config, loaded}
use tperf.Main.{load_client_addr, control_bind}
use tperf.Main.Ports.{KeepsPort, load_client_addr-port}

abbrev port_behind : Option (Text × Text) → Option (List (SocketAddr names_only))
port_behind none = none
port_behind (some (host, port)) = elim (parse_uint u16_max port) [
  | none ↦ none
  | some p ↦ some ((v4, p) ∷ [])
]

abbrev lookup_host : Text → Option (List (SocketAddr names_only))
lookup_host query = port_behind (rsplit_once query b':')

lookup-port :
    (before : Text) (port : ℕ)
    → port ≤ u16_max
    → lookup_host (before ++ b':' ∷ to_string port) ≡ some ((v4, port) ∷ [])
lookup-port before port h =
    ap port_behind (
      rsplit_once-append before (to_string port) b':'
        (digits-no_colon (to_string port) (to_string-IsDigit port)))
    ∙ rw (parse_uint-to_string u16_max port h, port_behind) refl

lookup-join :
    (host : Text) (port : ℕ)
    → port ≤ u16_max
    → lookup_host (join_host_port host port) ≡ some ((v4, port) ∷ [])
unfolding join_host_port
lookup-join host port h = elim (Bool-cases (contains host b':' && not (starts_with host b'['))) [
  | inr f ↦ rw f (lookup-port host port h)
  | inl t ↦ rw t (
      ap lookup_host (sym (append_assoc (b'[' ∷ host) (b']' ∷ []) (b':' ∷ to_string port)))
      ∙ lookup-port ((b'[' ∷ host) ++ b']' ∷ []) port h)
]

lookup_host-KeepsPort : KeepsPort names_only lookup_host
lookup_host-KeepsPort host port addrs a h e m =
    let same : (v4, port) ∷ [] ≡ addrs = some-injective _ _ (sym (lookup-join host port h) ∙ e) in
    elim (Memᴰ.cases_cons (subst (Memᴰ a) (sym same) m)) [
      | inl q ↦ ap (λ (x : SocketAddr names_only). x.1) q
      | inr k ↦ absurd (Memᴰ.not-nil k)
    ]

loaded_file : load whole whole_rounding many names_only toml some [] ≡ ok loaded_config
unfolding load
loaded_file = loaded

bound : control_bind names_only lookup_host loaded_config.client_addr ≡ some (v4, 7777)
unfolding control_bind tperf.Strings.rsplit_once tperf.Strings.parse_uint
    tperf.NetUtil.parse_host_port tperf.NetUtil.pick_addr tperf.NetUtil.join_host_port
    tperf.NetUtil.Retry.resolve_one
bound = refl

load_client_addr-port_example :
    (load_client_addr whole whole_rounding many names_only toml some (λ path. true) (some [])
      ≡ ok loaded_config.client_addr)
    × (control_port loaded_config ≡ ok 7777)
    × (1 ≤ 7777)
load_client_addr-port_example =
    load_client_addr-port whole whole_rounding many names_only lookup_host toml some (λ path. true)
      [] loaded_config (v4, 7777) lookup_host-KeepsPort loaded_file bound
