-- ===== src/Config/Size.antt =====
-- src/config.rs: `parse_size`, over the floating-point numbers and their parser.
use tperf.Common.{
  ℕ, ◌∷◌, [], Bool, true, false, ◌||◌, not, Option, none, some, map, Text, codes, text_eq, ◌==◌,
  if◌then◌else◌, Result, ok, err, Float, u64_max,
}
use tperf.Strings.{trim, is_ascii_digit, parse_uint}
use tperf.NetUtil.{is_empty, to_ascii_lowercase}

pub data SizeError : Type 0 where
  empty_size : SizeError
  invalid_size : SizeError
  invalid_number : SizeError
  negative_size : SizeError
  unknown_unit : SizeError
  out_of_range : SizeError

-- What `parse_size` uses of `f64` besides its arithmetic: `parse`, `is_finite`, and `round() as
-- u64`.
pub record Rounding (F : Type 0) : Type 0 where
  pub parse : Text → Option F
  pub is_finite : F → Bool
  pub round_u64 : F → ℕ

unfoldable pub is_number_char : ℕ → Bool
unfolding is_ascii_digit
is_number_char c = is_ascii_digit c || c == b'.'

-- `s[..i]` and `s[i..]`, behind the loop over `i`.
unfoldable pub split_number : Text → Text × Text
unfolding is_number_char
split_number [] = ([], [])
split_number (c ∷ s) =
    let (number, unit) = split_number s in
    elim (is_number_char c) [ true ↦ (c ∷ number, unit) | false ↦ ([], c ∷ s) ]

module _ {F : Type 0} (float : Float F) (std : Rounding F) where
  abbrev whole_number : ℕ → F
  whole_number = Float.from float

  abbrev square : ℕ → F
  square n = Float.times float (whole_number n) (whole_number n)

  -- The factor of a unit in lower case.
  unfoldable pub unit_factor : Text → Option F
  unfolding text_eq
  unit_factor unit =
      if text_eq unit [] || text_eq unit (codes "b")
      then some (whole_number 1)
      else if text_eq unit (codes "k") || text_eq unit (codes "kb")
      then some (whole_number 1000)
      else if text_eq unit (codes "ki") || text_eq unit (codes "kib")
      then some (whole_number 1024)
      else if text_eq unit (codes "m") || text_eq unit (codes "mb")
      then some (square 1000)
      else if text_eq unit (codes "mi") || text_eq unit (codes "mib")
      then some (square 1024)
      else if text_eq unit (codes "g") || text_eq unit (codes "gb")
      then some (Float.times float (square 1000) (whole_number 1000))
      else if text_eq unit (codes "gi") || text_eq unit (codes "gib")
      then some (Float.times float (square 1024) (whole_number 1024))
      else none

  -- The size of a number and a unit that are read.
  unfoldable pub scaled : F → F → Result {0, 0} SizeError ℕ
  scaled num mul =
      let v = Float.times float num mul in
      if not (Rounding.is_finite std v) || Float.lt float (whole_number u64_max) v
      then err out_of_range
      else ok (Rounding.round_u64 std v)

  unfoldable pub parse_scaled : Text × Text → Result {0, 0} SizeError ℕ
  unfolding is_empty trim to_ascii_lowercase unit_factor scaled
  parse_scaled (number, unit) =
      if is_empty number then err invalid_size else elim (Rounding.parse std number) [
        | none ↦ err invalid_number
        | some num ↦
            if Float.lt float num (whole_number 0)
            then err negative_size
            else elim (unit_factor (map to_ascii_lowercase (trim unit))) [
              | none ↦ err unknown_unit
              | some mul ↦ scaled num mul
            ]
      ]

  unfoldable pub parse_trimmed_size : Text → Result {0, 0} SizeError ℕ
  unfolding is_empty parse_uint split_number parse_scaled
  parse_trimmed_size s =
      if is_empty s
      then err empty_size
      else elim (parse_uint u64_max s) [ some n ↦ ok n | none ↦ parse_scaled (split_number s) ]

  unfoldable pub parse_size : Text → Result {0, 0} SizeError ℕ
  unfolding trim parse_trimmed_size
  parse_size s = parse_trimmed_size (trim s)
