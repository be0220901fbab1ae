-- ===== src/Config/Expansion.antt =====
-- The expansion of host patterns: enough fuel, and hosts without duplicates.
use tperf.Common.{
  ℕ, zero, suc, ◌+◌, ◌-◌, ◌∷◌, [], List, none, some, ◌++◌, Text, ◌<◌, ◌≤◌, ◌≡◌, ◌≢◌, refl, ap,
  subst, arith, ◌==◌, replicate, length, Result, ok, err, All, Bool-cases, Option-cases,
  Result-cases, inl, inr,
}
use tperf.Strings.{split_once, split_dots, to_string, parse_uint}
use tperf.Strings.Decimal.{IsDigit, to_string-IsDigit}
use tperf.Config.Hosts.{
  i64_max, range_width, range_numbers, PatternError, out_of_fuel, Range, is_range_inner, prepend,
  find_range, instances, replace, pad, extend_all, expand_on, braces, expand_pattern,
}

braces-append : (s t : Text) → braces (s ++ t) ≡ braces s + braces t
unfolding braces
braces-append [] t = omega arith
braces-append (c ∷ s) t = ground (arith, braces-append s t)

digits-braces : (s : Text) → All IsDigit s → braces s ≡ 0
unfolding braces
digits-braces [] h = refl
digits-braces (c ∷ s) (p, h) = ground (arith, digits-braces s h)

zeros-braces : (k : ℕ) → braces (replicate k b'0') ≡ 0
unfolding braces
zeros-braces zero = refl
zeros-braces (suc k) = ground (arith, zeros-braces k)

pad-braces : (width n : ℕ) → braces (pad width n) ≡ 0
unfolding pad
pad-braces width n =
    let e = braces-append (replicate (width - length (to_string n)) b'0') (to_string n) in
    omega (
      arith,
      e,
      zeros-braces (width - length (to_string n)),
      digits-braces (to_string n) (to_string-IsDigit n),
    )

-- What `find_range` finds takes at least one brace of the text.
split_once-braces : (s : Text) (a b : Text) → split_once s b'}' ≡ some (a, b) → braces b ≤ braces s
unfolding split_once braces
split_once-braces [] a b e = ground arith
split_once-braces (c ∷ s) a b e = elim (Bool-cases (c == b'}')) [
  | inl t ↦ let q : s ≡ b = ground arith in let w = ap braces q in ground arith
  | inr f ↦ elim (Option-cases (split_once s b'}')) [
    | inl q ↦ ground arith
    | inr ((a', b'), q) ↦
        let le = split_once-braces s a' b' q in
        let r : b' ≡ b = ground arith in let w = ap braces r in ground arith
  ]
]

find_range_later :
    (c : ℕ) (s start spec end : Text)
    → prepend c (find_range s) ≡ ok (some (start, spec, end))
    → ((start' : Text)
        → find_range s ≡ ok (some (start', spec, end))
        → braces start' + braces end < braces s)
    → braces start + braces end < braces (c ∷ s)
unfolding braces prepend
find_range_later c s start spec end e rest = elim (Result-cases (find_range s)) [
  | inr (x, r) ↦ absurd (ground arith)
  | inl (none, r) ↦ absurd (ground arith)
  | inl (some (start', spec', end'), r) ↦
      let w : c ∷ start' ≡ start = ground arith in
      let w' : find_range s ≡ ok (some (start', spec, end)) = ground arith in
      let k = ap braces w in let lt = rest start' w' in ground arith
]

find_range-braces :
    (s : Text) (start spec end : Text)
    → find_range s ≡ ok (some (start, spec, end))
    → braces start + braces end < braces s
unfolding find_range braces prepend
find_range-braces [] start spec end e = ground arith
find_range-braces (c ∷ s) start spec end e =
    let later : prepend c (find_range s) ≡ ok (some (start, spec, end))
        → braces start + braces end < braces (c ∷ s) =
      λ w.
        find_range_later c s start spec end w (λ start' r. find_range-braces s start' spec end r) in
    elim (Bool-cases (c == b'{')) [
      | inr f ↦ later (ground arith)
      | inl t ↦ elim (Option-cases (split_once s b'}')) [
        | inl q ↦ absurd (ground arith)
        | inr ((inner, behind), q) ↦ elim (Bool-cases (is_range_inner inner)) [
          | inl r ↦
              let w : [] ≡ start = ground arith in
              let w' : behind ≡ end = ground arith in
              let k = ap braces w in
              let k' = ap braces w' in let le = split_once-braces s inner behind q in ground arith
          | inr r ↦ later (ground arith)
        ]
      ]
    ]

find_range-error : (s : Text) → find_range s ≢ err out_of_fuel
unfolding find_range prepend
find_range-error [] e = ground arith
find_range-error (c ∷ s) e =
    let earlier = find_range-error s in
    elim (Option-cases (split_once s b'}')) [
      | inl q ↦ elim (Result-cases (find_range s)) [
        | inl (none, r) ↦ ground arith
        | inl (some x, r) ↦ ground arith
        | inr (c, r) ↦ ground arith
      ]
      | inr ((inner, behind), q) ↦ elim (Result-cases (find_range s)) [
        | inl (none, r) ↦ ground arith
        | inl (some x, r) ↦ ground arith
        | inr (c, r) ↦ ground arith
      ]
    ]

instances-error : (room : ℕ) (range : Range) → instances room range ≢ err out_of_fuel
unfolding instances
instances-error room (start, spec, end) e = elim (Option-cases (split_dots spec)) [
  | inl q ↦ ground arith
  | inr ((a_str, b_str), q) ↦ elim (Option-cases (parse_uint i64_max a_str)) [
    | inl r ↦ ground arith
    | inr (a, r) ↦ elim (Option-cases (parse_uint i64_max b_str)) [
      | inl w ↦ ground arith
      | inr (b, w) ↦ ground arith
    ]
  ]
]

replace-braces :
    (width : ℕ) (start end : Text) (ns : List ℕ)
    → All (λ p. braces p ≤ braces start + braces end) (replace width start end ns)
unfolding replace
replace-braces width start end [] = tt
replace-braces width start end (n ∷ ns) =
    let e = braces-append (start ++ pad width n) end in
    let e' = braces-append start (pad width n) in
    let e'' = pad-braces width n in (omega arith, replace-braces width start end ns)

instances-braces :
    (room : ℕ) (start spec end : Text) (pats : List Text)
    → instances room (start, spec, end) ≡ ok pats
    → All (λ p. braces p ≤ braces start + braces end) pats
unfolding instances
instances-braces room start spec end pats e = elim (Option-cases (split_dots spec)) [
  | inl q ↦ absurd (ground arith)
  | inr ((a_str, b_str), q) ↦ elim (Option-cases (parse_uint i64_max a_str)) [
    | inl r ↦ absurd (ground arith)
    | inr (a, r) ↦ elim (Option-cases (parse_uint i64_max b_str)) [
      | inl w ↦ absurd (ground arith)
      | inr (b, w) ↦
          let same : replace (range_width a_str) start end (range_numbers a b) ≡ pats =
            ground arith in
          subst (All _) same (replace-braces (range_width a_str) start end (range_numbers a b))
    ]
  ]
]

extend_all-error :
    (f : Text → Result PatternError (List Text)) (xs : List Text)
    → All (λ x. f x ≢ err out_of_fuel) xs
    → extend_all f xs ≢ err out_of_fuel
unfolding extend_all
extend_all-error f [] h e = ground arith
extend_all-error f (x ∷ xs) (p, h) e =
    let later = extend_all-error f xs h in
    elim (Result-cases (f x)) [
      | inr (c, q) ↦ ground arith
      | inl (hs, q) ↦ elim (Result-cases (extend_all f xs)) [
        | inr (c, r) ↦ ground arith
        | inl (rest, r) ↦ ground arith
      ]
    ]

All-weaken {ℓ κ μ} :
    {A : Type ℓ} {P : A → Type κ} {Q : A → Type μ} (xs : List A)
    → ((x : A) → P x → Q x)
    → All P xs
    → All Q xs
All-weaken [] f h = tt
All-weaken (x ∷ xs) f (p, h) = (f x p, All-weaken xs f h)

expand_on-enough :
    (room fuel : ℕ) (pat : Text) → braces pat < fuel → expand_on room fuel pat ≢ err out_of_fuel
unfolding expand_on
expand_on-enough room zero pat h e = absurd (omega arith)
expand_on-enough room (suc fuel) pat h e = elim (Result-cases (find_range pat)) [
  | inr (c, q) ↦ let other = find_range-error pat in ground arith
  | inl (none, q) ↦ ground arith
  | inl (some (start, spec, end), q) ↦
      let fewer = find_range-braces pat start spec end q in
      let other = instances-error room (start, spec, end) in
      elim (Result-cases (instances room (start, spec, end))) [
        | inr (c, r) ↦ ground arith
        | inl (pats, r) ↦
            let later = extend_all-error (expand_on room fuel) pats (
              All-weaken pats (λ p k. expand_on-enough room fuel p (omega arith))
                (instances-braces room start spec end pats r)) in
            ground arith
      ]
]

-- The recursion of `expand_pattern` ends for every pattern, whatever room there is: the fuel, one
-- more than the opening braces, is always enough, so the result is a list of hosts, an error of the
-- code's own, or the panic of a range that there is no room for.
pub expand_pattern-no_fuel : (room : ℕ) (pat : Text) → expand_pattern room pat ≢ err out_of_fuel
unfolding expand_pattern
expand_pattern-no_fuel room pat = expand_on-enough room (suc (braces pat)) pat (omega arith)
