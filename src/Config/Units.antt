-- ===== src/Config/Units.antt =====
-- Sizes with a unit.
use tperf.Common.{
  ℕ, ◌≤◌, ◌*◌, ◌^◌, ◌∷◌, [], true, false, ◌||◌, not, none, some, ◌++◌, map, Text, codes, text_eq,
  ◌≡◌, ◌≢◌, refl, sym, ap, ◌∙◌, subst, arith, ok, err, Float, u64_max, All, if◌then◌else◌,
  append_assoc,
}
use tperf.Strings.{trim, is_whitespace, is_ascii_digit, parse_uint, to_string}
use tperf.Strings.Decimal.{to_string-IsDigit}
use tperf.NetUtil.{is_empty, to_ascii_lowercase}
use tperf.Config.Size.{
  out_of_range, Rounding, is_number_char, split_number, unit_factor, scaled, parse_scaled,
  parse_trimmed_size, parse_size,
}
use tperf.Config.Letters.{
  IsLetter, letters_lower, IsBlank, not_digit, behind, trim-gap, split_number-append,
  parse_uint-stray, trim-number, last_of, not_empty, to_string-some,
}

-- The spellings of the units, and what each stands for.
pub data SizeUnit : Type 0 where
  bytes : SizeUnit
  kilo : SizeUnit
  kb : SizeUnit
  ki : SizeUnit
  kib : SizeUnit
  mega : SizeUnit
  mb : SizeUnit
  mi : SizeUnit
  mib : SizeUnit
  giga : SizeUnit
  gb : SizeUnit
  gi : SizeUnit
  gib : SizeUnit

abbrev pub spelling : SizeUnit → Text
spelling bytes = codes "b"
spelling kilo = codes "k"
spelling kb = codes "kb"
spelling ki = codes "ki"
spelling kib = codes "kib"
spelling mega = codes "m"
spelling mb = codes "mb"
spelling mi = codes "mi"
spelling mib = codes "mib"
spelling giga = codes "g"
spelling gb = codes "gb"
spelling gi = codes "gi"
spelling gib = codes "gib"

abbrev pub bytes_of : SizeUnit → ℕ
bytes_of bytes = 1
bytes_of kilo = 1000
bytes_of kb = 1000
bytes_of ki = 1024
bytes_of kib = 1024
bytes_of mega = 1_000_000
bytes_of mb = 1_000_000
bytes_of mi = 1_048_576
bytes_of mib = 1_048_576
bytes_of giga = 1_000_000_000
bytes_of gb = 1_000_000_000
bytes_of gi = 1_073_741_824
bytes_of gib = 1_073_741_824

-- What IEEE 754 promises of whole numbers up to 2 ^ 53: they are read, multiplied and rounded
-- exactly.
pub record IsExact {F : Type 0} (float : Float F) (std : Rounding F) : Type 0 where
  pub parsed : (n : ℕ) → n ≤ 2 ^ 53 → Rounding.parse std (to_string n) ≡ some (Float.from float n)
  pub product :
      (a c : ℕ)
      → a * c ≤ 2 ^ 53
      → Float.times float (Float.from float a) (Float.from float c) ≡ Float.from float (a * c)
  pub finite : (n : ℕ) → n ≤ 2 ^ 53 → Rounding.is_finite std (Float.from float n) ≡ true
  pub not_negative : (n : ℕ) → Float.lt float (Float.from float n) (Float.from float 0) ≡ false
  pub in_range :
      (n : ℕ) → n ≤ 2 ^ 53 → Float.lt float (Float.from float u64_max) (Float.from float n) ≡ false
  pub rounded : (n : ℕ) → n ≤ 2 ^ 53 → Rounding.round_u64 std (Float.from float n) ≡ n

spelling-IsLetter : (unit : SizeUnit) → All IsLetter (spelling unit)
unfolding is_whitespace is_number_char is_ascii_digit
spelling-IsLetter bytes = ((refl, refl), tt)
spelling-IsLetter kilo = ((refl, refl), tt)
spelling-IsLetter kb = ((refl, refl), ((refl, refl), tt))
spelling-IsLetter ki = ((refl, refl), ((refl, refl), tt))
spelling-IsLetter kib = ((refl, refl), ((refl, refl), ((refl, refl), tt)))
spelling-IsLetter mega = ((refl, refl), tt)
spelling-IsLetter mb = ((refl, refl), ((refl, refl), tt))
spelling-IsLetter mi = ((refl, refl), ((refl, refl), tt))
spelling-IsLetter mib = ((refl, refl), ((refl, refl), ((refl, refl), tt)))
spelling-IsLetter giga = ((refl, refl), tt)
spelling-IsLetter gb = ((refl, refl), ((refl, refl), tt))
spelling-IsLetter gi = ((refl, refl), ((refl, refl), tt))
spelling-IsLetter gib = ((refl, refl), ((refl, refl), ((refl, refl), tt)))

spelling-some : (unit : SizeUnit) → spelling unit ≢ []
spelling-some bytes e = ground arith
spelling-some kilo e = ground arith
spelling-some kb e = ground arith
spelling-some ki e = ground arith
spelling-some kib e = ground arith
spelling-some mega e = ground arith
spelling-some mb e = ground arith
spelling-some mi e = ground arith
spelling-some mib e = ground arith
spelling-some giga e = ground arith
spelling-some gb e = ground arith
spelling-some gi e = ground arith
spelling-some gib e = ground arith

le_bytes : (unit : SizeUnit) (n : ℕ) → n ≤ n * bytes_of unit
le_bytes bytes n = omega arith
le_bytes kilo n = omega arith
le_bytes kb n = omega arith
le_bytes ki n = omega arith
le_bytes kib n = omega arith
le_bytes mega n = omega arith
le_bytes mb n = omega arith
le_bytes mi n = omega arith
le_bytes mib n = omega arith
le_bytes giga n = omega arith
le_bytes gb n = omega arith
le_bytes gi n = omega arith
le_bytes gib n = omega arith

module _ {F : Type 0} (float : Float F) (std : Rounding F) (exact : IsExact float std) where
  unit_factor-bytes_of :
      (unit : SizeUnit)
      → unit_factor float std (spelling unit) ≡ some (Float.from float (bytes_of unit))
  unfolding unit_factor text_eq
  unit_factor-bytes_of bytes = refl
  unit_factor-bytes_of kilo = refl
  unit_factor-bytes_of kb = refl
  unit_factor-bytes_of ki = refl
  unit_factor-bytes_of kib = refl
  unit_factor-bytes_of mega = ap some (IsExact.product exact 1000 1000 (omega arith))
  unit_factor-bytes_of mb = ap some (IsExact.product exact 1000 1000 (omega arith))
  unit_factor-bytes_of mi = ap some (IsExact.product exact 1024 1024 (omega arith))
  unit_factor-bytes_of mib = ap some (IsExact.product exact 1024 1024 (omega arith))
  unit_factor-bytes_of giga = ap some (
      ap (λ x. Float.times float x (Float.from float 1000))
        (IsExact.product exact 1000 1000 (omega arith))
      ∙ IsExact.product exact 1000000 1000 (omega arith))
  unit_factor-bytes_of gb = ap some (
      ap (λ x. Float.times float x (Float.from float 1000))
        (IsExact.product exact 1000 1000 (omega arith))
      ∙ IsExact.product exact 1000000 1000 (omega arith))
  unit_factor-bytes_of gi = ap some (
      ap (λ x. Float.times float x (Float.from float 1024))
        (IsExact.product exact 1024 1024 (omega arith))
      ∙ IsExact.product exact 1048576 1024 (omega arith))
  unit_factor-bytes_of gib = ap some (
      ap (λ x. Float.times float x (Float.from float 1024))
        (IsExact.product exact 1024 1024 (omega arith))
      ∙ IsExact.product exact 1048576 1024 (omega arith))

  scaled-exact :
      (n c : ℕ)
      → n * c ≤ 2 ^ 53
      → scaled float std (Float.from float n) (Float.from float c) ≡ ok (n * c)
  unfolding scaled
  scaled-exact n c h =
      ap
        (λ v.
          if not (Rounding.is_finite std v) || Float.lt float (Float.from float u64_max) v
          then err out_of_range
          else ok (Rounding.round_u64 std v))
        (IsExact.product exact n c h)
      ∙ rw (IsExact.finite exact (n * c) h, IsExact.in_range exact (n * c) h)
          (ap ok (IsExact.rounded exact (n * c) h))

  parse_scaled_step :
      (number unit : Text) (num mul : F)
      → is_empty number ≡ false
      → Rounding.parse std number ≡ some num
      → Float.lt float num (Float.from float 0) ≡ false
      → unit_factor float std (map to_ascii_lowercase (trim unit)) ≡ some mul
      → parse_scaled float std (number, unit) ≡ scaled float std num mul
  unfolding parse_scaled
  parse_scaled_step number unit num mul e p q r =
      rw (e, parse_scaled) (rw (p, parse_scaled) (rw (q, parse_scaled) (rw (r, parse_scaled) refl)))

  parse_size_step :
      (s : Text)
      → trim s ≡ s
      → is_empty s ≡ false
      → parse_uint u64_max s ≡ none
      → parse_size float std s ≡ parse_scaled float std (split_number s)
  unfolding parse_size parse_trimmed_size
  parse_size_step s t e p =
      ap (parse_trimmed_size float std) t
      ∙ (rw (e, parse_trimmed_size) (rw (p, parse_trimmed_size) refl))

  -- A whole number with a unit behind it, in any case, and with blanks or none between them, is
  -- read as that many times the bytes of the unit, where the product is 2 ^ 53 at most; on a
  -- floating-point arithmetic that is exact on such numbers.
  pub parse_size-unit :
      (n : ℕ) (unit : SizeUnit) (gap u : Text)
      → All IsBlank gap
      → map to_ascii_lowercase u ≡ spelling unit
      → n * bytes_of unit ≤ 2 ^ 53
      → parse_size float std (to_string n ++ (gap ++ u)) ≡ ok (n * bytes_of unit)
  parse_size-unit n unit gap u blank e h =
      let letters : All IsLetter u =
        letters_lower u (subst (All IsLetter) (sym e) (spelling-IsLetter unit)) in
      let some_u : u ≢ [] = λ q. spelling-some unit (sym e ∙ ap (map to_ascii_lowercase) q) in
      let digits = to_string-IsDigit n in
      let number = to_string-some n in
      let (z, w, tail, stray) = behind gap u blank letters some_u in
      let (xs, d, end, visible) = last_of u letters some_u in
      let whole = not_empty (to_string n) (gap ++ u) number in
      let smaller = le_bytes unit n in
      let end' : gap ++ u ≡ (gap ++ xs) ++ d ∷ [] =
        ap (λ t. gap ++ t) end ∙ sym (append_assoc gap xs (d ∷ [])) in
      let text : to_string n ++ (gap ++ u) ≡ to_string n ++ z ∷ w =
        ap (λ t. to_string n ++ t) tail in
      let small : n ≤ 2 ^ 53 = omega arith in
      parse_size_step (to_string n ++ (gap ++ u))
        (trim-number (to_string n) (gap ++ u) (gap ++ xs) d digits number end' visible) (whole.1)
        (ap (parse_uint u64_max) text
          ∙ parse_uint-stray u64_max (to_string n) z w number digits (not_digit z stray))
      ∙ ap (λ t. parse_scaled float std (split_number t)) text
      ∙ ap (parse_scaled float std) (
          split_number-append (to_string n) z w digits stray
          ∙ ap (λ t. (to_string n, t)) (sym tail))
      ∙ parse_scaled_step (to_string n) (gap ++ u) (Float.from float n)
          (Float.from float (bytes_of unit)) (whole.0) (IsExact.parsed exact n small)
          (IsExact.not_negative exact n)
          (ap (λ t. unit_factor float std (map to_ascii_lowercase t))
              (trim-gap gap u blank letters some_u)
            ∙ ap (unit_factor float std) e
            ∙ unit_factor-bytes_of unit)
      ∙ scaled-exact n (bytes_of unit) h
