-- ===== src/NetUtil/Choice.antt =====
-- The choice among resolved addresses.
use tperf.Common.{
  ℕ, ◌≤◌, if◌then◌else◌, not, Option-cases, List, [], ◌∷◌, ◌≡◌, refl, sym, subst, Bool, true, false,
  ◌&&◌, Option, none, some, keep, Bool-cases, inl, inr, arith,
}
use mathlib.Core.List.Memᴰ
use mathlib.Core.List.{Memᴰ}
use tperf.NetUtil.{
  IpAddrs, SocketAddr, AddrFamily, v4, v6, matches, find, remote, prefer, pick_addr, is_ipv4,
  is_ipv6,
}

module _ (std : IpAddrs) where
  -- What `find` finds is in the list and passes the test; what it misses passes none.
  find_sound :
      (p : SocketAddr std → Bool) (xs : List (SocketAddr std)) {a : SocketAddr std}
      → find std p xs ≡ some a
      → Memᴰ a xs × (p a ≡ true)
  unfolding find
  find_sound p [] e = ground arith
  find_sound p (x ∷ xs) {a} e = elim (Bool-cases (p x)) [
    | inl t ↦ let q : x ≡ a = ground arith in (Memᴰ.head (sym q), subst (λ y. p y ≡ true) q t)
    | inr f ↦
        let e' : find std p xs ≡ some a = ground arith in
        let (m, q) = find_sound p xs e' in (Memᴰ.tail m, q)
  ]

  find_complete :
      (p : SocketAddr std → Bool) (xs : List (SocketAddr std)) (a : SocketAddr std)
      → find std p xs ≡ none
      → Memᴰ a xs
      → p a ≡ false
  unfolding find
  find_complete p [] a e m = absurd (Memᴰ.not-nil m)
  find_complete p (x ∷ xs) a e m = elim (Bool-cases (p x)) [
    | inl t ↦ ground arith
    | inr f ↦
        let e' : find std p xs ≡ none = ground arith in
        elim (Memᴰ.cases_cons m) [
          | inl q ↦ subst (λ y. p y ≡ false) (sym q) f
          | inr rest ↦ find_complete p xs a e' rest
        ]
  ]

  keep_yes :
      (p : SocketAddr std → Bool) (x : SocketAddr std) (xs : List (SocketAddr std))
      → p x ≡ true
      → keep p (x ∷ xs) ≡ x ∷ keep p xs
  keep_yes p x xs t = ground arith

  keep_no :
      (p : SocketAddr std → Bool) (x : SocketAddr std) (xs : List (SocketAddr std))
      → p x ≡ false
      → keep p (x ∷ xs) ≡ keep p xs
  keep_no p x xs t = ground arith

  -- The preference: remote IPv4, remote IPv6, local IPv4, the rest.
  abbrev pub rank : SocketAddr std → ℕ
  rank a =
      if remote std a then (if is_ipv4 std a then 0 else 1) else (if is_ipv4 std a then 2 else 3)

  abbrev pub wanted : Option AddrFamily → SocketAddr std → Bool
  wanted none a = true
  wanted (some fam) a = matches std fam a

  abbrev four : SocketAddr std → Bool
  four a = is_ipv4 std a && remote std a

  abbrev six : SocketAddr std → Bool
  six a = is_ipv6 std a && remote std a

  one_family : (a : SocketAddr std) → is_ipv6 std a ≡ not (is_ipv4 std a)
  unfolding is_ipv4 is_ipv6
  one_family (ip, port) = by_family (IpAddrs.family std ip)
    where
      by_family :
          (f : AddrFamily)
          → elim f [ v4 ↦ false | v6 ↦ true ] ≡ not (elim f [ v4 ↦ true | v6 ↦ false ])
      by_family v4 = refl
      by_family v6 = refl

  rank-four : (a : SocketAddr std) → four a ≡ true → rank a ≡ 0
  rank-four a h = ground arith

  rank-not_four : (a : SocketAddr std) → four a ≡ false → 1 ≤ rank a
  rank-not_four a h = ground arith

  rank-six : (a : SocketAddr std) → six a ≡ true → rank a ≡ 1
  rank-six a h = ground (arith, one_family a)

  rank-not_remote : (a : SocketAddr std) → four a ≡ false → six a ≡ false → 2 ≤ rank a
  rank-not_remote a h k = ground (arith, one_family a)

  rank_local_four : (a : SocketAddr std) → is_ipv4 std a ≡ true → rank a ≤ 2
  rank_local_four a h = ground arith

  rank-other : (a : SocketAddr std) → is_ipv4 std a ≡ false → six a ≡ false → 3 ≤ rank a
  rank-other a h k = ground (arith, one_family a)

  rank-le : (a : SocketAddr std) → rank a ≤ 3
  rank-le a = ground arith

  abbrev pub IsBest : SocketAddr std → List (SocketAddr std) → Type 0
  IsBest a xs = Memᴰ a xs × ((b : SocketAddr std) → Memᴰ b xs → rank a ≤ rank b)

  prefer-IsBest :
      (xs : List (SocketAddr std)) (a : SocketAddr std) → prefer std xs ≡ some a → IsBest a xs
  unfolding prefer
  prefer-IsBest [] a e = ground arith
  prefer-IsBest (x ∷ xs) a e = elim (Option-cases (find std four (x ∷ xs))) [
    | inr (c, p) ↦
        let q : c ≡ a = ground arith in
        let (m, t) = find_sound four (x ∷ xs) p in
        let low = rank-four c t in subst (λ y. IsBest y (x ∷ xs)) q (m, λ b m'. omega arith)
    | inl p ↦ elim (Option-cases (find std six (x ∷ xs))) [
      | inr (c, q) ↦
          let r : c ≡ a = ground arith in
          let (m, t) = find_sound six (x ∷ xs) q in
          let low = rank-six c t in
          subst (λ y. IsBest y (x ∷ xs)) r
            (
              m,
              λ b m'.
                  let high = rank-not_four b (find_complete four (x ∷ xs) b p m') in omega arith,
            )
      | inl q ↦ elim (Option-cases (find std (is_ipv4 std) (x ∷ xs))) [
        | inr (c, r) ↦
            let w : c ≡ a = ground arith in
            let (m, t) = find_sound (is_ipv4 std) (x ∷ xs) r in
            let low = rank_local_four c t in
            subst (λ y. IsBest y (x ∷ xs)) w
              (
                m,
                λ b m'.
                    let high =
                      rank-not_remote b (find_complete four (x ∷ xs) b p m')
                        (find_complete six (x ∷ xs) b q m') in
                    omega arith,
              )
        | inl r ↦
            let w : x ≡ a = ground arith in
            let low = rank-le x in
            subst (λ y. IsBest y (x ∷ xs)) w
              (
                Memᴰ.head refl,
                λ b m'.
                    let high =
                      rank-other b (find_complete (is_ipv4 std) (x ∷ xs) b r m')
                        (find_complete six (x ∷ xs) b q m') in
                    omega arith,
              )
      ]
    ]
  ]

  mem-keep :
      (p : SocketAddr std → Bool) (xs : List (SocketAddr std)) {a : SocketAddr std}
      → Memᴰ a (keep p xs)
      → Memᴰ a xs × (p a ≡ true)
  mem-keep p [] m = absurd (Memᴰ.not-nil m)
  mem-keep p (x ∷ xs) {a} m = elim (Bool-cases (p x)) [
    | inl t ↦
        let m' : Memᴰ a (x ∷ keep p xs) = subst (Memᴰ a) (keep_yes p x xs t) m in
        elim (Memᴰ.cases_cons m') [
          | inl q ↦ (Memᴰ.head q, subst (λ y. p y ≡ true) (sym q) t)
          | inr rest ↦ let (k, t') = mem-keep p xs rest in (Memᴰ.tail k, t')
        ]
    | inr f ↦ let (k, t') = mem-keep p xs (subst (Memᴰ a) (keep_no p x xs f) m) in (Memᴰ.tail k, t')
  ]

  keep-mem :
      (p : SocketAddr std → Bool) (xs : List (SocketAddr std)) {a : SocketAddr std}
      → Memᴰ a xs
      → p a ≡ true
      → Memᴰ a (keep p xs)
  keep-mem p [] m t = absurd (Memᴰ.not-nil m)
  keep-mem p (x ∷ xs) {a} m t = elim (Memᴰ.cases_cons m) [
    | inl q ↦ subst (Memᴰ a) (sym (keep_yes p x xs (subst (λ y. p y ≡ true) q t))) (Memᴰ.head q)
    | inr rest ↦ elim (Bool-cases (p x)) [
      | inl u ↦ subst (Memᴰ a) (sym (keep_yes p x xs u)) (Memᴰ.tail (keep-mem p xs rest t))
      | inr u ↦ subst (Memᴰ a) (sym (keep_no p x xs u)) (keep-mem p xs rest t)
    ]
  ]

  -- The address that `pick_addr` picks is one of the given ones, is of the wanted family, and no
  -- given address of that family comes before it in the order of preference `rank`.
  pub pick_addr-best :
      (addrs : List (SocketAddr std)) (family : Option AddrFamily) (a : SocketAddr std)
      → pick_addr std addrs family ≡ some a
      → Memᴰ a addrs
        × (wanted family a ≡ true)
        × ((b : SocketAddr std) → Memᴰ b addrs → wanted family b ≡ true → rank a ≤ rank b)
  unfolding pick_addr
  pick_addr-best addrs none a e =
      let (m, h) = prefer-IsBest addrs a e in (m, refl, λ b m' t. h b m')
  pick_addr-best addrs (some fam) a e =
      let (m, h) = prefer-IsBest (keep (matches std fam) addrs) a e in
      let (k, t) = mem-keep (matches std fam) addrs m in
      (k, t, λ b m' t'. h b (keep-mem (matches std fam) addrs m' t'))
