-- ===== src/Metrics/Stat.antt =====
-- The line of /proc/self/stat, whatever the name of the program is.
use tperf.Common.{
  ℕ, ◌+◌, ◌≤◌, List, [], ◌∷◌, ◌++◌, some, true, false, ◌≡◌, ◌≢◌, refl, sym, ap, ◌∙◌, subst, arith,
  Text, All, u64_max, get_elem?, get_elem?-append_right, length,
}
use tperf.Strings.{is_whitespace, contains, parse_uint, rsplit_once, to_string}
use tperf.Strings.Decimal.{IsDigit, to_string-IsDigit, to_string-last, parse_uint-to_string}
use tperf.NetUtil.Addresses.{rsplit_once-append, digit-visible}
use tperf.Metrics.Proc.{split_fields, split_whitespace, cpu_fields, parse_stat_cpu}

-- A field: a character at least, none of them blank or a `)`.
abbrev pub IsField : Text → Type 0
IsField w = (w ≢ []) × All (λ c. (is_whitespace c ≡ false) × (c ≢ b')')) w

-- Fields with a blank behind each, and what follows.
unfoldable pub join : List Text → Text → Text
join [] rest = rest
join (w ∷ ws) rest = w ++ b' ' ∷ join ws rest

blank : is_whitespace b' ' ≡ true
unfolding is_whitespace
blank = refl

split_fields-word :
    (w rest : Text)
    → All (λ c. (is_whitespace c ≡ false) × (c ≢ b')')) w
    → split_fields (w ++ b' ' ∷ rest) ≡ (w, split_whitespace rest)
unfolding split_fields split_whitespace is_whitespace
split_fields-word [] rest h = refl
split_fields-word (c ∷ w) rest ((p, q), h) =
    let later = split_fields-word w rest h in
    rw (p, split_fields) (ap (λ (r : Text × List Text). (c ∷ r.0, r.1)) later)

split_whitespace-word :
    (w rest : Text) → IsField w → split_whitespace (w ++ b' ' ∷ rest) ≡ w ∷ split_whitespace rest
unfolding split_whitespace
split_whitespace-word [] rest (some', h) = absurd (some' refl)
split_whitespace-word (c ∷ w) rest (some', h) =
    let e = split_fields-word (c ∷ w) rest h in
    rw (e, split_whitespace) (ap (λ (r : Text × List Text). (c ∷ w) ∷ r.1) e)

split_whitespace-join :
    (ws : List Text) (rest : Text)
    → All IsField ws
    → split_whitespace (join ws rest) ≡ ws ++ split_whitespace rest
unfolding join
split_whitespace-join [] rest h = refl
split_whitespace-join (w ∷ ws) rest (p, h) =
    split_whitespace-word w (join ws rest) p ∙ ap (◌∷◌ w) (split_whitespace-join ws rest h)

contains-append :
    (s t : Text) (c : ℕ) → contains s c ≡ false → contains t c ≡ false → contains (s ++ t) c ≡ false
unfolding contains
contains-append [] t c h k = k
contains-append (d ∷ s) t c h k = ground (arith, contains-append s t c)

field-no_paren :
    (w : Text) → All (λ c. (is_whitespace c ≡ false) × (c ≢ b')')) w → contains w b')' ≡ false
unfolding contains
field-no_paren [] h = refl
field-no_paren (c ∷ w) ((p, q), h) = ground (arith, field-no_paren w h)

join-no_paren :
    (ws : List Text) (rest : Text)
    → All IsField ws
    → contains rest b')' ≡ false
    → contains (join ws rest) b')' ≡ false
unfolding join contains
join-no_paren [] rest h k = k
join-no_paren (w ∷ ws) rest ((s, p), h) k =
    contains-append w (b' ' ∷ join ws rest) b')' (field-no_paren w p)
      (ground (arith, join-no_paren ws rest h k))

digits-IsField : (n : ℕ) → IsField (to_string n)
digits-IsField n =
    let (xs, c, e, d) = to_string-last n in
    (λ q. snoc xs c (sym e ∙ q), visible (to_string n) (to_string-IsDigit n))
  where
    snoc : (xs : Text) (c : ℕ) → xs ++ c ∷ [] ≢ []
    snoc [] c e = ground arith
    snoc (x ∷ xs) c e = ground arith

    visible : (s : Text) → All IsDigit s → All (λ c. (is_whitespace c ≡ false) × (c ≢ b')')) s
    visible [] h = tt
    visible (c ∷ s) ((lo, hi), h) = ((digit-visible c (lo, hi), omega arith), visible s h)

line_step :
    (stat before rest : Text)
    → rsplit_once stat b')' ≡ some (before, b' ' ∷ rest)
    → parse_stat_cpu stat ≡ cpu_fields (split_whitespace rest)
unfolding parse_stat_cpu
line_step stat before rest e = rw (e, parse_stat_cpu) refl

cpu_step :
    (fs : List Text) (u s : Text) (utime stime : ℕ)
    → get_elem? fs 11 ≡ some u
    → parse_uint u64_max u ≡ some utime
    → get_elem? fs 12 ≡ some s
    → parse_uint u64_max s ≡ some stime
    → cpu_fields fs ≡ some (utime, stime)
unfolding cpu_fields
cpu_step fs u s utime stime a b c d = rw (a, b, c, d, cpu_fields) refl

-- The line of a process with any name at all, also one with blanks and parentheses in it, is read
-- as its two times: they stand behind the last `)` and eleven fields, and what follows them has no
-- `)`.
pub parse_stat_cpu-line :
    (name : Text) (fields : List Text) (utime stime : ℕ) (rest : Text)
    → length fields ≡ 11
    → All IsField fields
    → utime ≤ u64_max
    → stime ≤ u64_max
    → contains rest b')' ≡ false
    → parse_stat_cpu
        (name ++ b')' ∷ b' ' ∷ join fields (join (to_string utime ∷ to_string stime ∷ []) rest))
      ≡ some (utime, stime)
unfolding contains
parse_stat_cpu-line name fields utime stime rest len h hu hs k =
    let two : List Text = to_string utime ∷ to_string stime ∷ [] in
    let digits : All IsField two = (digits-IsField utime, (digits-IsField stime, tt)) in
    let tail = join fields (join two rest) in
    let no_paren : contains (b' ' ∷ tail) b')' ≡ false =
      contains-append (b' ' ∷ []) tail b')' refl
        (join-no_paren fields (join two rest) h (join-no_paren two rest digits k)) in
    let words = two ++ split_whitespace rest in
    let all : split_whitespace tail ≡ fields ++ words =
      split_whitespace-join fields (join two rest) h
      ∙ ap (λ ws. fields ++ ws) (split_whitespace-join two rest digits) in
    let at : (i : ℕ) → get_elem? (fields ++ words) (11 + i) ≡ get_elem? words i = λ i.
      subst (λ n. get_elem? (fields ++ words) (n + i) ≡ get_elem? words i) len
        (get_elem?-append_right fields words i) in
    line_step _ name tail (rsplit_once-append name (b' ' ∷ tail) b')' no_paren)
    ∙ ap cpu_fields all
    ∙ cpu_step (fields ++ words) (to_string utime) (to_string stime) utime stime (at 0)
        (parse_uint-to_string u64_max utime hu) (at 1) (parse_uint-to_string u64_max stime hs)
