-- ===== src/Strings/Decimal.antt =====
-- Reading what `to_string` prints.
use tperf.Common.{
  ℕ, zero, suc, ◌+◌, ◌-◌, ◌*◌, ◌/◌, ◌%◌, ◌<◌, ◌≤◌, ◌≡◌, ◌≢◌, refl, sym, ap, ◌∙◌, false, ◌&&◌, [],
  ◌∷◌, ◌++◌, some, Text, arith, ltb, leb, ltb→lt, ◌==◌, All, All-append, Bool-cases, inl, inr,
}
use tperf.Strings.{is_ascii_digit, parse_digits, parse_uint, decimal, to_string}

abbrev pub IsDigit : ℕ → Type 0
IsDigit c = (b'0' ≤ c) × (c ≤ b'9')

parse_digits-append :
    (max n : ℕ) (xs : Text) (c : ℕ) {m : ℕ}
    → parse_digits max n xs ≡ some m
    → parse_digits max n (xs ++ c ∷ []) ≡ parse_digits max m (c ∷ [])
unfolding parse_digits
parse_digits-append max n [] c {m} e = let q : n ≡ m = ground arith in rw q
parse_digits-append max n (d ∷ xs) c {m} e =
    let later = parse_digits-append max (n * 10 + (d - b'0')) xs c {m = m} in
    elim (Bool-cases (is_ascii_digit d && leb (n * 10 + (d - b'0')) max)) [
      | inl t ↦ ground (arith, later)
      | inr f ↦ ground arith
    ]

one_digit :
    (max m d : ℕ)
    → d < 10
    → m * 10 + d ≤ max
    → parse_digits max m ((b'0' + d) ∷ []) ≡ some (m * 10 + d)
unfolding parse_digits is_ascii_digit
one_digit max m d h k = ground arith

parse-decimal : (max fuel n : ℕ) → n < fuel → n ≤ max → parse_digits max 0 (decimal fuel n) ≡ some n
unfolding decimal
parse-decimal max zero n h k = absurd (omega arith)
parse-decimal max (suc fuel) n h k = elim (Bool-cases (ltb n 10)) [
  | inl small ↦
      let e : 0 * 10 + n ≡ n = omega arith in
      rw (small, decimal) (one_digit max 0 n (ltb→lt n 10 small) (omega arith) ∙ ap some e)
  | inr large ↦
      let high = parse-decimal max fuel (n / 10) (ground arith) (omega arith) in
      let last = one_digit max (n / 10) (n % 10) (omega arith) (omega arith) in
      rw (large, decimal) (parse_digits-append max 0 _ _ high ∙ last ∙ ap some (omega arith))
]

-- A printed number is digits, at least one of them.
pub decimal-IsDigit : (fuel n : ℕ) → All IsDigit (decimal fuel n)
unfolding decimal
decimal-IsDigit zero n = tt
decimal-IsDigit (suc fuel) n = elim (Bool-cases (ltb n 10)) [
  | inl small ↦ let lt = ltb→lt n 10 small in rw (small, decimal) ((omega arith, omega arith), tt)
  | inr large ↦
      rw (large, decimal)
        (All-append IsDigit _ _ (decimal-IsDigit fuel (n / 10)) ((omega arith, omega arith), tt))
]

pub to_string-IsDigit : (n : ℕ) → All IsDigit (to_string n)
unfolding to_string
to_string-IsDigit n = decimal-IsDigit (suc n) n

-- Its last digit.
decimal-last :
    (fuel n : ℕ) → n < fuel → (xs : Text) × (c : ℕ) × (decimal fuel n ≡ xs ++ c ∷ []) × IsDigit c
unfolding decimal
decimal-last zero n h = absurd (omega arith)
decimal-last (suc fuel) n h = elim (Bool-cases (ltb n 10)) [
  | inl small ↦
      let lt = ltb→lt n 10 small in ([], b'0' + n, rw (small, decimal), (omega arith, omega arith))
  | inr large ↦
      (decimal fuel (n / 10), b'0' + n % 10, rw (large, decimal), (omega arith, omega arith))
]

pub to_string-last : (n : ℕ) → (xs : Text) × (c : ℕ) × (to_string n ≡ xs ++ c ∷ []) × IsDigit c
unfolding to_string
to_string-last n = decimal-last (suc n) n (omega arith)

snoc_not_nil : (xs : Text) (c : ℕ) → xs ++ c ∷ [] ≢ []
snoc_not_nil [] c e = ground arith
snoc_not_nil (x ∷ xs) c e = ground arith

parse_digits_first :
    (max : ℕ) (s : Text) → All IsDigit s → s ≢ [] → parse_uint max s ≡ parse_digits max 0 s
unfolding parse_uint
parse_digits_first max [] h e = absurd (e refl)
parse_digits_first max (c ∷ []) h e = refl
parse_digits_first max (c ∷ d ∷ s) (p, h) e =
    let not_plus : (c == b'+') ≡ false = ground arith in rw not_plus

pub parse_uint-to_string : (max n : ℕ) → n ≤ max → parse_uint max (to_string n) ≡ some n
unfolding to_string
parse_uint-to_string max n h =
    let (xs, c, e, p) = to_string-last n in
    let some_digit : to_string n ≢ [] = λ q. snoc_not_nil xs c (sym e ∙ q) in
    parse_digits_first max (to_string n) (to_string-IsDigit n) some_digit
    ∙ parse-decimal max (suc n) n (omega arith) h
