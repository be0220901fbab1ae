-- ===== src/Main/Ports.antt =====
-- The port of a server, and the one that a client with the same file connects to.
use mathlib.Core.List.{Memᴰ}
use tperf.Common.{
  ℕ, ◌≤◌, List, Option, none, some, Bool, Text, ◌≡◌, sym, ap, subst, arith, ok, Float, Option-cases,
  Result-cases, inl, inr,
}
use tperf.NetUtil.{IpAddrs, SocketAddr, join_host_port, parse_host_port, pick_addr, u16_max}
use tperf.NetUtil.Addresses.{parse_host_port_sound}
use tperf.NetUtil.Choice.{pick_addr-best}
use tperf.NetUtil.Retry.{resolve_one}
use tperf.Config.{Config, control_port}
use tperf.Config.Validation.{validate_sound}
use tperf.Config.Size.{Rounding}
use tperf.Config.Load.{Table, from_toml, load}
use tperf.Config.File.{from_toml_sound}
use tperf.Main.{load_client_addr, control_bind, addr_of}

module _ (std : IpAddrs) (lookup_host : Text → Option (List (SocketAddr std))) where
  -- What `lookup_host` promises: the addresses that it gives have the port that it is asked for.
  abbrev pub KeepsPort : Type 0
  KeepsPort =
      (host : Text) (port : ℕ) (addrs : List (SocketAddr std)) (a : SocketAddr std)
      → port ≤ u16_max
      → lookup_host (join_host_port host port) ≡ some addrs
      → Memᴰ a addrs
      → a.1 ≡ port

  resolve_one-port :
      KeepsPort
      → (host : Text) (port : ℕ) (a : SocketAddr std) → port ≤ u16_max
      → resolve_one std lookup_host host port none ≡ some a
      → a.1 ≡ port
  unfolding resolve_one
  resolve_one-port keeps host port a small e =
      elim (Option-cases (lookup_host (join_host_port host port))) [
        | inl n ↦ absurd (ground arith)
        | inr (addrs, q) ↦
            let picked : pick_addr std addrs none ≡ some a = ground arith in
            keeps host port addrs a small q ((pick_addr-best std addrs none a picked).0)
      ]

  control_bind-port :
      KeepsPort
      → (cfg : Config) (a : SocketAddr std) → control_bind std lookup_host cfg.client_addr ≡ some a
      → control_port cfg ≡ ok (a.1)
  unfolding control_bind control_port
  control_bind-port keeps cfg a e = elim (Result-cases (parse_host_port cfg.client_addr)) [
    | inr (x, p) ↦ absurd (ground arith)
    | inl ((host, port), p) ↦ elim (Option-cases (IpAddrs.parse std host)) [
      | inr (ip, q) ↦ let same : port ≡ a.1 = ground arith in rw p (ap ok same)
      | inl q ↦
          let found : resolve_one std lookup_host host port none ≡ some a = ground arith in
          rw p (
            ap ok (
              sym (
                resolve_one-port keeps host port a ((parse_host_port_sound _ host port p).1)
                  found)))
    ]
  ]

-- A server and a client that are given the same file agree: the address that the server loads is
-- that of the client's configuration, and where the server can listen on it, its port is the one
-- that the client connects to, which is not 0.
pub load_client_addr-port :
    {F : Type 0} (float : Float F) (rounding : Rounding F) (room : ℕ) (std : IpAddrs)
    (lookup_host : Text → Option (List (SocketAddr std))) (toml : Text → Option Table)
    (read : Text → Option Text) (exists : Text → Bool) (path : Text) (cfg : Config)
    (a : SocketAddr std)
    → KeepsPort std lookup_host
    → load float rounding room std toml read path ≡ ok cfg
    → control_bind std lookup_host cfg.client_addr ≡ some a
    → (load_client_addr float rounding room std toml read exists (some path) ≡ ok cfg.client_addr)
      × (control_port cfg ≡ ok (a.1))
      × (1 ≤ a.1)
unfolding load_client_addr load
load_client_addr-port float rounding room std lookup_host toml read exists path cfg a keeps e b =
    elim (Option-cases (read path)) [
      | inl n ↦ absurd (ground arith)
      | inr (text, q) ↦
          let f : from_toml float rounding room std toml text ≡ ok cfg = ground arith in
          let (valid, plain, workers, given, names, expanded, distinct) =
            from_toml_sound float rounding room std toml text cfg f in
          let (checked, (p, dialled, one, most), test, family) = validate_sound std cfg valid in
          let bound = control_bind-port std lookup_host keeps cfg a b in
          let same : p ≡ a.1 = ground arith in
          (ap (addr_of float rounding) e, bound, subst (λ n. 1 ≤ n) same one)
    ]
