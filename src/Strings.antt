-- ===== src/Strings.antt =====
-- What src/ uses of the standard library's `str`: trimming, searching, splitting, and the decimal
-- notation of unsigned integers.
pub mod Decimal
use tperf.Common.{
  ℕ, zero, suc, ◌+◌, ◌-◌, ◌*◌, ◌/◌, ◌%◌, Bool, true, false, ◌&&◌, ◌||◌, List, [], ◌∷◌, ◌++◌, Option,
  none, some, Text, ltb, leb, ◌==◌, if◌then◌else◌,
}
use mathlib.Core.List.{reverse}

-- Unicode's White_Space, as `char::is_whitespace`.
unfoldable pub is_whitespace : ℕ → Bool
is_whitespace c =
    leb 9 c && leb c 13
    || c == 32
    || c == 0x85
    || c == 0xA0
    || c == 0x1680
    || leb 0x2000 c && leb c 0x200A
    || c == 0x2028
    || c == 0x2029
    || c == 0x202F
    || c == 0x205F
    || c == 0x3000

unfoldable pub trim_start : Text → Text
unfolding is_whitespace
trim_start [] = []
trim_start (c ∷ s) = elim (is_whitespace c) [ true ↦ trim_start s | false ↦ c ∷ s ]

unfoldable pub trim : Text → Text
unfolding trim_start
trim s = reverse (trim_start (reverse (trim_start s)))

unfoldable pub is_ascii_digit : ℕ → Bool
is_ascii_digit c = leb b'0' c && leb c b'9'

unfoldable pub contains : Text → ℕ → Bool
contains [] c = false
contains (d ∷ s) c = d == c || contains s c

-- `s.split_once(c)`: the texts before and behind the first `c`.
unfoldable pub split_once : Text → ℕ → Option (Text × Text)
split_once [] c = none
split_once (d ∷ s) c = elim (d == c) [
  | true ↦ some ([], s)
  | false ↦ elim (split_once s c) [ none ↦ none | some (a, b) ↦ some (d ∷ a, b) ]
]

-- `s.rsplit_once(c)`: those before and behind the last `c`.
unfoldable pub rsplit_once : Text → ℕ → Option (Text × Text)
rsplit_once [] c = none
rsplit_once (d ∷ s) c = elim (rsplit_once s c) [
  | some (a, b) ↦ some (d ∷ a, b)
  | none ↦ elim (d == c) [ true ↦ some ([], s) | false ↦ none ]
]

-- `s.split_once("..")`.
unfoldable pub split_dots : Text → Option (Text × Text)
split_dots [] = none
split_dots (c ∷ []) = none
split_dots (c ∷ d ∷ s) = elim (c == b'.' && d == b'.') [
  | true ↦ some ([], s)
  | false ↦ elim (split_dots (d ∷ s)) [ none ↦ none | some (a, b) ↦ some (c ∷ a, b) ]
]

-- The digits of an integer below `max + 1`, read behind the value `n`.
unfoldable pub parse_digits : ℕ → ℕ → Text → Option ℕ
unfolding is_ascii_digit
parse_digits max n [] = some n
parse_digits max n (c ∷ s) =
    let m = n * 10 + (c - b'0') in
    let rest = parse_digits max m s in
    elim (is_ascii_digit c && leb m max) [ true ↦ rest | false ↦ none ]

-- `s.parse()` to an unsigned type with this maximum: an optional `+`, and at least one digit.
unfoldable pub parse_uint : ℕ → Text → Option ℕ
unfolding parse_digits
parse_uint max [] = none
parse_uint max (c ∷ []) = parse_digits max 0 (c ∷ [])
parse_uint max (c ∷ d ∷ s) =
    if c == b'+' then parse_digits max 0 (d ∷ s) else parse_digits max 0 (c ∷ d ∷ s)

-- `n.to_string()`, on fuel of which `suc n` is enough.
unfoldable pub decimal : ℕ → ℕ → Text
decimal zero n = []
decimal (suc fuel) n = elim (ltb n 10) [
  | true ↦ (b'0' + n) ∷ []
  | false ↦ decimal fuel (n / 10) ++ (b'0' + n % 10) ∷ []
]

unfoldable pub to_string : ℕ → Text
unfolding decimal
to_string n = decimal (suc n) n
