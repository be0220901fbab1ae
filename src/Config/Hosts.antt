-- ===== src/Config/Hosts.antt =====
-- src/config.rs: the expansion of the host list. The indices that `find_range` returns stand here
-- as the text between them.
use tperf.Common.{
  ℕ, zero, suc, ◌-◌, ◌∷◌, [], List, Bool, true, false, ◌&&◌, ◌||◌, Option, none, some, ◌++◌, Text,
  text_eq, ◌==◌, ltb, leb, if◌then◌else◌, length, replicate, range_from, Result, ok, err,
}
use mathlib.Core.List.{reverse}
use tperf.Strings.{is_ascii_digit, split_once, split_dots, parse_uint, to_string}
use tperf.NetUtil.{starts_with, is_empty}

-- The errors of the expansion, with two results that are none: `panicked` is the end of the process
-- in a `collect` that has no room, which nothing catches, so it is handed on as `?` does with an
-- error; and `out_of_fuel` is the model's own.
pub data PatternError : Type 0 where
  unterminated : PatternError
  invalid_ellipsis : PatternError
  ellipsis_start : PatternError
  ellipsis_end : PatternError
  too_many : ℕ → PatternError
  duplicate : Text → PatternError
  panicked : PatternError
  out_of_fuel : PatternError

unfoldable pub all_digits : Text → Bool
unfolding is_ascii_digit
all_digits [] = true
all_digits (c ∷ s) = is_ascii_digit c && all_digits s

unfoldable pub is_range_inner : Text → Bool
unfolding all_digits split_dots is_empty
is_range_inner inner = elim (split_dots inner) [
  | none ↦ false
  | some (a, b) ↦ if is_empty a || is_empty b then false else all_digits a && all_digits b
]

-- A range as the texts before, between and behind its braces.
abbrev pub Range : Type 0
Range = Text × Text × Text

unfoldable pub prepend : ℕ → Result PatternError (Option Range) → Result PatternError (Option Range)
prepend c (err e) = err e
prepend c (ok none) = ok none
prepend c (ok (some (start, spec, end))) = ok (some (c ∷ start, spec, end))

unfoldable pub find_range : Text → Result PatternError (Option Range)
unfolding is_range_inner prepend
find_range [] = ok none
find_range (c ∷ s) =
    let later = prepend c (find_range s) in
    elim (c == b'{') [
      | false ↦ later
      | true ↦ elim (split_once s b'}') [
        | none ↦ err unterminated
        | some (inner, end) ↦ if is_range_inner inner then ok (some ([], inner, end)) else later
      ]
    ]

abbrev pub i64_max : ℕ
i64_max = 0x7FFF_FFFF_FFFF_FFFF

-- `(a..=b)`, or `(b..=a).rev()`.
unfoldable pub range_numbers : ℕ → ℕ → List ℕ
range_numbers a b = if leb a b then range_from a (suc b - a) else reverse (range_from b (suc a - b))

-- The length of that range.
unfoldable pub range_count : ℕ → ℕ → ℕ
range_count a b = if leb a b then suc b - a else suc a - b

unfoldable pub range_width : Text → ℕ
unfolding starts_with
range_width a_str = if ltb 1 (length a_str) && starts_with a_str b'0' then length a_str else 0

-- `{n:0width$}` for a positive width, and `to_string` for 0.
unfoldable pub pad : ℕ → ℕ → Text
unfolding to_string
pad width n = replicate (width - length (to_string n)) b'0' ++ to_string n

unfoldable pub replace : ℕ → Text → Text → List ℕ → List Text
unfolding pad
replace width start end [] = []
replace width start end (n ∷ ns) = (start ++ pad width n ++ end) ∷ replace width start end ns

-- `out.extend(f(x)?)` for each `x`.
unfoldable pub extend_all :
    (Text → Result PatternError (List Text)) → List Text → Result PatternError (List Text)
extend_all f [] = ok []
extend_all f (x ∷ xs) = elim (f x) [
  | err e ↦ err e
  | ok hs ↦ elim (extend_all f xs) [ err e ↦ err e | ok rest ↦ ok (hs ++ rest) ]
]

-- How many opening braces a pattern has; each expansion takes one away.
unfoldable pub braces : Text → ℕ
braces [] = 0
braces (c ∷ s) = if c == b'{' then suc (braces s) else braces s

unfoldable pub has : List Text → Text → Bool
unfolding text_eq
has [] h = false
has (x ∷ xs) h = text_eq x h || has xs h

-- The hosts so far, which stand both in `seen` and in `out`.
unfoldable pub add_hosts :
    List Text → List Text → List Text → Result PatternError (List Text × List Text)
unfolding has
add_hosts seen out [] = ok (seen, out)
add_hosts seen out (h ∷ hs) =
    let rest = add_hosts (h ∷ seen) (out ++ h ∷ []) hs in
    if has seen h then err (duplicate h) else rest

-- `room` is how many `i64` a vector of the machine can hold, at most `isize::MAX / 8`.
module _ (room : ℕ) where
  -- The patterns that stand for one with a range: one for each number. All numbers are collected
  -- before they are counted, which panics, or aborts the process, if there is no room for so many.
  unfoldable pub instances : Range → Result PatternError (List Text)
  unfolding range_count range_numbers range_width replace parse_uint split_dots
  instances (start, spec, end) = elim (split_dots spec) [
    | none ↦ err invalid_ellipsis
    | some (a_str, b_str) ↦ elim (parse_uint i64_max a_str) [
      | none ↦ err ellipsis_start
      | some a ↦ elim (parse_uint i64_max b_str) [
        | none ↦ err ellipsis_end
        | some b ↦
            if ltb room (range_count a b)
            then err panicked
            else if ltb 10000 (range_count a b)
            then err (too_many (range_count a b))
            else ok (replace (range_width a_str) start end (range_numbers a b))
      ]
    ]
  ]

  -- The recursion of `expand_pattern`, on fuel.
  unfoldable pub expand_on : ℕ → Text → Result PatternError (List Text)
  unfolding find_range instances extend_all
  expand_on zero pat = err out_of_fuel
  expand_on (suc fuel) pat = elim (find_range pat) [
    | err e ↦ err e
    | ok none ↦ ok (pat ∷ [])
    | ok (some range) ↦ elim (instances range) [
      | err e ↦ err e
      | ok pats ↦ extend_all (expand_on fuel) pats
    ]
  ]

  unfoldable pub expand_pattern : Text → Result PatternError (List Text)
  unfolding expand_on braces
  expand_pattern pat = expand_on (suc (braces pat)) pat

  unfoldable pub expand_items : List Text → List Text → List Text → Result PatternError (List Text)
  unfolding expand_pattern add_hosts
  expand_items seen out [] = ok out
  expand_items seen out (item ∷ items) = elim (expand_pattern item) [
    | err e ↦ err e
    | ok hs ↦ elim (add_hosts seen out hs) [
      | err e ↦ err e
      | ok (seen', out') ↦ expand_items seen' out' items
    ]
  ]

  unfoldable pub expand_hostlist : List Text → Result PatternError (List Text)
  unfolding expand_items
  expand_hostlist items = expand_items [] [] items
