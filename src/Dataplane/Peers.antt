-- ===== src/Dataplane/Peers.antt =====
-- Which host a connection is counted for.
use tperf.Common.{
  ℕ, zero, suc, ◌+◌, ◌^◌, ◌%◌, ◌≤◌, ◌<◌, ◌&&◌, ◌∷◌, [], List, Bool, true, false, Option, none, some,
  Text, if◌then◌else◌, ◌≡◌, refl, sym, ap, ◌∙◌, subst, arith, All, length, get_elem?, drop,
  Bool-cases, Option-cases, inl, inr, ◌⊎◌, length-map, lt-get_elem?,
}
use tperf.NetUtil.{IpAddrs, AddrFamily, SocketAddr, join_host_port}
use tperf.Metrics.{new_counters, peer, zeros}
use tperf.Dataplane.Accept.{
  IpMap, is_wanted, insert_addrs, ip_map_loop, build_ip_map, id_of, AcceptEvent, accepted, failed,
  cancelled, tcp_accept_loop,
}

peer-some :
    (hosts : List Text) (i : ℕ) (h : Text)
    → get_elem? hosts i ≡ some h
    → peer (new_counters hosts) i ≡ some i
unfolding peer new_counters
peer-some hosts i h e =
    let in_range = lt-get_elem? hosts i e in
    let size = length-map hosts (λ _. zeros) in ground arith

module _ (std : IpAddrs) (eq : IpAddrs.IpAddr std → IpAddrs.IpAddr std → Bool)
    (lookup_host : Text → Option (List (SocketAddr std))) (port : ℕ)
    (family : Option AddrFamily) where
  -- Is the address among these, in the wanted family?
  abbrev pub among : IpAddrs.IpAddr std → List (SocketAddr std) → Bool
  among ip [] = false
  among ip (a ∷ addrs) = if is_wanted std family a && eq (a.0) ip then true else among ip addrs

  -- Does the host have this address?
  abbrev pub answers : IpAddrs.IpAddr std → Text → Bool
  answers ip host = elim (lookup_host (join_host_port host port)) [
    | none ↦ false
    | some addrs ↦ among ip addrs
  ]

  -- `Some(i)` is the last host with the address, and `None` says that no host has it.
  abbrev pub IsLast : IpAddrs.IpAddr std → List Text → Option ℕ → Type 0
  IsLast ip hosts none = All (λ h. answers ip h ≡ false) hosts
  IsLast ip hosts (some i) =
      (h : Text) × (get_elem? hosts i ≡ some h)
      × (answers ip h ≡ true)
      × All (λ g. answers ip g ≡ false) (drop (suc i) hosts)

  id_of-insert_addrs :
      (ip : IpAddrs.IpAddr std) (id : ℕ) (addrs : List (SocketAddr std)) (ids : IpMap std)
      → id_of std eq (insert_addrs std family id addrs ids) ip
        ≡ (if among ip addrs then some (id % 2 ^ 32) else id_of std eq ids ip)
  unfolding insert_addrs id_of
  id_of-insert_addrs ip id [] ids = refl
  id_of-insert_addrs ip id (a ∷ addrs) ids =
      let later =
        id_of-insert_addrs ip id addrs
          (if is_wanted std family a then (a.0, id % 2 ^ 32) ∷ ids else ids) in
      ground arith

  abbrev after_host : ℕ → Text → IpMap std → IpMap std
  after_host id host ids = elim (lookup_host (join_host_port host port)) [
    | none ↦ ids
    | some addrs ↦ insert_addrs std family id addrs ids
  ]

  id_of-after_host :
      (ip : IpAddrs.IpAddr std) (id : ℕ) (host : Text) (ids : IpMap std)
      → id_of std eq (after_host id host ids) ip
        ≡ (if answers ip host then some (id % 2 ^ 32) else id_of std eq ids ip)
  id_of-after_host ip id host ids = elim (Option-cases (lookup_host (join_host_port host port))) [
    | inl n ↦ rw (n, after_host, answers) refl
    | inr (addrs, q) ↦ rw (q, after_host, answers) (id_of-insert_addrs ip id addrs ids)
  ]

  hit :
      (ip : IpAddrs.IpAddr std) (id : ℕ) (host : Text) (ids : IpMap std)
      → id < 2 ^ 32
      → answers ip host ≡ true
      → id_of std eq (after_host id host ids) ip ≡ some id
  hit ip id host ids small t =
      let same : id % 2 ^ 32 ≡ id = omega arith in
      id_of-after_host ip id host ids ∙ rw t (ap some same)

  miss :
      (ip : IpAddrs.IpAddr std) (id : ℕ) (host : Text) (ids : IpMap std)
      → answers ip host ≡ false
      → id_of std eq (after_host id host ids) ip ≡ id_of std eq ids ip
  miss ip id host ids f = id_of-after_host ip id host ids ∙ rw f refl

  -- What the ids holds behind these hosts: what it held, or the last of them with the address.
  abbrev Held : IpAddrs.IpAddr std → ℕ → List Text → IpMap std → Option ℕ → Type 0
  Held ip id hosts ids r =
      (All (λ h. answers ip h ≡ false) hosts × (r ≡ id_of std eq ids ip))
      ⊎ ((i : ℕ) × IsLast ip hosts (some i) × (r ≡ some (id + i)))

  one_host :
      (ip : IpAddrs.IpAddr std) (id : ℕ) (h : Text) (hs : List Text) (ids : IpMap std)
      (r : Option ℕ)
      → id < 2 ^ 32
      → Held ip (suc id) hs (after_host id h ids) r
      → Held ip id (h ∷ hs) ids r
  one_host ip id h hs ids r small (inr (i, last, e)) =
      let sum : suc id + i ≡ id + suc i = omega arith in inr (suc i, last, e ∙ ap some sum)
  one_host ip id h hs ids r small (inl (all, e)) = elim (Bool-cases (answers ip h)) [
    | inl t ↦
        let sum : id ≡ id + 0 = omega arith in
        inr (zero, (h, refl, t, all), e ∙ hit ip id h ids small t ∙ ap some sum)
    | inr f ↦ inl ((f, all), e ∙ miss ip id h ids f)
  ]

  ip_map_loop-Held :
      (ip : IpAddrs.IpAddr std) (id : ℕ) (hosts : List Text) (ids : IpMap std)
      → id + length hosts ≤ 2 ^ 32
      → Held ip id hosts ids
          (id_of std eq (ip_map_loop std lookup_host port family id hosts ids) ip)
  unfolding ip_map_loop
  ip_map_loop-Held ip id [] ids h = inl (tt, refl)
  ip_map_loop-Held ip id (host ∷ hosts) ids h =
      one_host ip id host hosts ids _ (omega arith)
        (ip_map_loop-Held ip (suc id) hosts (after_host id host ids) (omega arith))

  build_ip_map-IsLast :
      (ip : IpAddrs.IpAddr std) (hosts : List Text)
      → length hosts ≤ 2 ^ 32
      → IsLast ip hosts (id_of std eq (build_ip_map std lookup_host hosts port family) ip)
  unfolding build_ip_map id_of
  build_ip_map-IsLast ip hosts h = elim (ip_map_loop-Held ip 0 hosts [] (omega arith)) [
    | inl (all, e) ↦ subst (IsLast ip hosts) (sym e) all
    | inr (i, last, e) ↦
        let sum : i ≡ 0 + i = omega arith in
        subst (IsLast ip hosts) (sym (e ∙ ap some (sym sum))) last
  ]

  handle-IsLast :
      (ip : IpAddrs.IpAddr std) (hosts : List Text) (r : Option ℕ)
      → IsLast ip hosts r
      → IsLast ip hosts (elim r [ none ↦ none | some id ↦ peer (new_counters hosts) id ])
  handle-IsLast ip hosts none h = h
  handle-IsLast ip hosts (some i) (h, e, hits, last) =
      subst (IsLast ip hosts) (sym (peer-some hosts i h e)) (h, e, hits, last)

  -- One handle for each connection, up to the end of the loop.
  abbrev pub AreHandles : List Text → List (AcceptEvent std) → List (Option ℕ) → Type 0
  AreHandles hosts [] rs = rs ≡ []
  AreHandles hosts (cancelled ∷ es) rs = rs ≡ []
  AreHandles hosts (failed true ∷ es) rs = rs ≡ []
  AreHandles hosts (failed false ∷ es) rs = AreHandles hosts es rs
  AreHandles hosts (accepted (ip, p) ∷ es) [] = ⊥
  AreHandles hosts (accepted (ip, p) ∷ es) (r ∷ rs) = IsLast ip hosts r × AreHandles hosts es rs

  -- Each connection, until the loop ends, is received for the peer that is the last host of the
  -- list with the address that it comes from, and for none where no host has it; among at most 2 ^
  -- 32 hosts.
  pub tcp_accept_loop-AreHandles :
      (hosts : List Text) (events : List (AcceptEvent std))
      → length hosts ≤ 2 ^ 32
      → AreHandles hosts events (
          tcp_accept_loop std eq
            (new_counters hosts)
            (build_ip_map std lookup_host hosts port family)
            events)
  unfolding tcp_accept_loop
  tcp_accept_loop-AreHandles hosts [] h = refl
  tcp_accept_loop-AreHandles hosts (cancelled ∷ es) h = refl
  tcp_accept_loop-AreHandles hosts (failed true ∷ es) h = refl
  tcp_accept_loop-AreHandles hosts (failed false ∷ es) h = tcp_accept_loop-AreHandles hosts es h
  tcp_accept_loop-AreHandles hosts (accepted (ip, p) ∷ es) h = (
    handle-IsLast ip hosts _ (build_ip_map-IsLast ip hosts h),
    tcp_accept_loop-AreHandles hosts es h,
  )
