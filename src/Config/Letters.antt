-- ===== src/Config/Letters.antt =====
-- The text of a size: its digits, blanks and letters.
use tperf.Common.{
  ℕ, ◌+◌, ◌-◌, ◌*◌, ◌∷◌, [], true, false, none, ◌++◌, map, Text, ◌≡◌, ◌≢◌, refl, sym, ap, ◌∙◌,
  arith, All, append_assoc,
}
use mathlib.Core.List.{reverse}
use tperf.Strings.{
  trim, trim_start, is_whitespace, is_ascii_digit, parse_uint, parse_digits, to_string,
}
use tperf.Strings.Decimal.{IsDigit, to_string-last}
use tperf.NetUtil.{is_empty, to_ascii_lowercase}
use tperf.NetUtil.Addresses.{trim-tight, trim_start-tight, digit-visible}
use tperf.Config.Size.{is_number_char, split_number}

-- A letter of a unit is neither blank nor a part of a number, in either case.
abbrev pub IsLetter : ℕ → Type 0
IsLetter c = (is_whitespace c ≡ false) × (is_number_char c ≡ false)

IsLetter-lower : (c : ℕ) → IsLetter (to_ascii_lowercase c) → IsLetter c
unfolding to_ascii_lowercase is_whitespace is_number_char is_ascii_digit
IsLetter-lower c (p, q) = (ground arith, ground arith)

pub letters_lower : (u : Text) → All IsLetter (map to_ascii_lowercase u) → All IsLetter u
letters_lower [] h = tt
letters_lower (c ∷ u) (p, h) = (IsLetter-lower c p, letters_lower u h)

-- The last character of a text of letters.
last-IsLetter :
    (c : ℕ) (u : Text)
    → All IsLetter (c ∷ u)
    → (xs : Text) × (d : ℕ) × (c ∷ u ≡ xs ++ d ∷ []) × IsLetter d
last-IsLetter c [] (p, h) = ([], c, refl, p)
last-IsLetter c (d ∷ u) (p, h) =
    let (xs, z, e, q) = last-IsLetter d u h in (c ∷ xs, z, ap (◌∷◌ c) e, q)

-- Between the number and the unit there may be blanks.
abbrev pub IsBlank : ℕ → Type 0
IsBlank c = is_whitespace c ≡ true

blank_not_number : (c : ℕ) → IsBlank c → is_number_char c ≡ false
unfolding is_whitespace is_number_char is_ascii_digit
blank_not_number c h = ground arith

digit_number :
    (c : ℕ) → IsDigit c → (is_number_char c ≡ true) × (is_ascii_digit c ≡ true) × (c ≢ b'+')
unfolding is_number_char is_ascii_digit
digit_number c (lo, hi) = (ground arith, ground arith, λ e. omega arith)

pub not_digit : (c : ℕ) → is_number_char c ≡ false → is_ascii_digit c ≡ false
unfolding is_number_char
not_digit c h = ground arith

-- Behind the number stands something that is no part of a number.
pub behind :
    (gap u : Text)
    → All IsBlank gap
    → All IsLetter u
    → u ≢ []
    → (z : ℕ) × (w : Text) × (gap ++ u ≡ z ∷ w) × (is_number_char z ≡ false)
behind [] [] h k some' = absurd (some' refl)
behind [] (c ∷ u) h ((p, q), k) some' = (c, u, refl, q)
behind (c ∷ gap) u (p, h) k some' = (c, gap ++ u, refl, blank_not_number c p)

trim_start-gap :
    (gap : Text) (c : ℕ) (u : Text)
    → All IsBlank gap
    → is_whitespace c ≡ false
    → trim_start (gap ++ c ∷ u) ≡ c ∷ u
unfolding trim_start
trim_start-gap [] c u h k = trim_start-tight c u k
trim_start-gap (d ∷ gap) c u (p, h) k = rw (p, trim_start) (trim_start-gap gap c u h k)

pub trim-gap : (gap u : Text) → All IsBlank gap → All IsLetter u → u ≢ [] → trim (gap ++ u) ≡ u
unfolding trim
trim-gap gap [] h k some' = absurd (some' refl)
trim-gap gap (c ∷ u) h ((p, q), k) some' =
    let (xs, d, e, (r, t)) = last-IsLetter c u ((p, q), k) in
    ap (λ s. reverse (trim_start (reverse s)))
      (trim_start-gap gap c u h p ∙ sym (trim_start-tight c u p))
    ∙ trim-tight c u xs d p r e

pub split_number-append :
    (s : Text) (z : ℕ) (w : Text)
    → All IsDigit s
    → is_number_char z ≡ false
    → split_number (s ++ z ∷ w) ≡ (s, z ∷ w)
unfolding split_number
split_number-append [] z w h k = rw (k, split_number) refl
split_number-append (c ∷ s) z w (p, h) k =
    let (num, dig, plus) = digit_number c p in
    rw (num, split_number) (ap (λ r. (c ∷ r.0, r.1)) (split_number-append s z w h k))

parse_digits-stray :
    (max n : ℕ) (s : Text) (z : ℕ) (w : Text)
    → is_ascii_digit z ≡ false
    → parse_digits max n (s ++ z ∷ w) ≡ none
unfolding parse_digits
parse_digits-stray max n [] z w h = ground arith
parse_digits-stray max n (c ∷ s) z w h =
    ground (arith, parse_digits-stray max (n * 10 + (c - b'0')) s z w h)

pub parse_uint-stray :
    (max : ℕ) (s : Text) (z : ℕ) (w : Text)
    → s ≢ []
    → All IsDigit s
    → is_ascii_digit z ≡ false
    → parse_uint max (s ++ z ∷ w) ≡ none
unfolding parse_uint
parse_uint-stray max [] z w some' h k = absurd (some' refl)
parse_uint-stray max (c ∷ []) z w some' (p, h) k =
    let (num, dig, plus) = digit_number c p in
    ground (arith, parse_digits-stray max 0 (c ∷ []) z w k)
parse_uint-stray max (c ∷ d ∷ s) z w some' (p, h) k =
    let (num, dig, plus) = digit_number c p in
    ground (arith, parse_digits-stray max 0 (c ∷ d ∷ s) z w k)

-- A number with a text of letters behind it is its own trim.
pub trim-number :
    (s t : Text) (xs : Text) (d : ℕ)
    → All IsDigit s
    → s ≢ []
    → t ≡ xs ++ d ∷ []
    → is_whitespace d ≡ false
    → trim (s ++ t) ≡ s ++ t
trim-number [] t xs d h some' e q = absurd (some' refl)
trim-number (c ∷ s) t xs d (p, h) some' e q =
    trim-tight c (s ++ t) (c ∷ s ++ xs) d (digit-visible c p) q
      (ap (λ x. c ∷ s ++ x) e ∙ sym (append_assoc (c ∷ s) xs (d ∷ [])))

pub last_of :
    (u : Text)
    → All IsLetter u
    → u ≢ []
    → (xs : Text) × (d : ℕ) × (u ≡ xs ++ d ∷ []) × (is_whitespace d ≡ false)
last_of [] h some' = absurd (some' refl)
last_of (c ∷ u) h some' = let (xs, d, e, (p, q)) = last-IsLetter c u h in (xs, d, e, p)

pub not_empty : (s t : Text) → s ≢ [] → (is_empty s ≡ false) × (is_empty (s ++ t) ≡ false)
unfolding is_empty
not_empty [] t some' = absurd (some' refl)
not_empty (c ∷ s) t some' = (refl, refl)

pub to_string-some : (n : ℕ) → to_string n ≢ []
to_string-some n q = let (xs, d, e, p) = to_string-last n in snoc xs d (sym e ∙ q)
  where
    snoc : (xs : Text) (d : ℕ) → xs ++ d ∷ [] ≢ []
    snoc [] d e = ground arith
    snoc (x ∷ xs) d e = ground arith
