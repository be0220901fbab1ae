-- ===== src/Config/Names.antt =====
-- The host patterns that a value of the configuration file gives, described without the code.
use mathlib.Core.Path.{ap₂}
use tperf.Common.{
  ◌∷◌, [], List, false, not, Option, none, some, ◌++◌, Text, ◌≡◌, refl, ap, ◌∙◌, subst, arith, All,
  Bool-cases, Option-cases, inl, inr, map, keep, ◌==◌,
}
use tperf.Strings.{trim, contains}
use tperf.NetUtil.{is_empty}
use tperf.Config.{split_commas, keep_names, split_hosts}
use tperf.Config.Load.{Value, string, integer, array, other, split_all, deser_hostlist}

-- The text of pieces with a comma between each two of them.
abbrev pub join_commas : Text → List Text → Text
join_commas piece [] = piece
join_commas piece (next ∷ pieces) = piece ++ b',' ∷ join_commas next pieces

-- The patterns of a string: what is left of the pieces between its commas when the blanks around
-- them are taken away, but for what is empty then.
abbrev pub ArePatterns : Text → List Text → Type 0
ArePatterns s out =
    (piece : Text) × (pieces : List Text) × (join_commas piece pieces ≡ s)
    × All (λ p. contains p b',' ≡ false) (piece ∷ pieces)
    × (out ≡ keep (λ p. not (is_empty p)) (map trim (piece ∷ pieces)))

-- Those of an array: the patterns of its strings, one behind the other.
abbrev pub AreAllPatterns : List (Option Text) → List Text → Type 0
AreAllPatterns [] out = out ≡ []
AreAllPatterns (none ∷ xs) out = ⊥
AreAllPatterns (some s ∷ xs) out =
    (here : List Text) × (later : List Text) × ArePatterns s here
    × AreAllPatterns xs later
    × (out ≡ here ++ later)

-- Those of the key `hostlist`, which is a string or an array of strings.
abbrev pub AreGiven : Value → List Text → Type 0
AreGiven (string s) out = ArePatterns s out
AreGiven (array xs) out = AreAllPatterns xs out
AreGiven (integer n) out = ⊥
AreGiven other out = ⊥

join_commas-cons :
    (c : _) (piece : Text) (pieces : List Text)
    → join_commas (c ∷ piece) pieces ≡ c ∷ join_commas piece pieces
join_commas-cons c piece [] = refl
join_commas-cons c piece (next ∷ pieces) = refl

split_commas-join :
    (s : Text)
    → (join_commas ((split_commas s).0) ((split_commas s).1) ≡ s)
      × All (λ p. contains p b',' ≡ false) ((split_commas s).0 ∷ (split_commas s).1)
unfolding split_commas contains
split_commas-join [] = (refl, (refl, tt))
split_commas-join (c ∷ s) =
    let (joined, (first, others)) = split_commas-join s in
    elim (Bool-cases (c == b',')) [
      | inl t ↦
          let same : b',' ≡ c = ground arith in
          rw (t, split_commas) (ap₂ (λ d r. d ∷ r) same joined, (refl, (first, others)))
      | inr f ↦
          let plain : contains (c ∷ (split_commas s).0) b',' ≡ false = ground arith in
          rw (f, split_commas)
            (
              join_commas-cons c ((split_commas s).0) ((split_commas s).1) ∙ ap (λ r. c ∷ r) joined,
              (plain, others),
            )
    ]

keep_names-keep : (xs : List Text) → keep_names xs ≡ keep (λ p. not (is_empty p)) xs
unfolding keep_names
keep_names-keep [] = refl
keep_names-keep (x ∷ xs) = ground (arith, keep_names-keep xs)

split_hosts-ArePatterns : (s : Text) → ArePatterns s (split_hosts s)
unfolding split_hosts
split_hosts-ArePatterns s =
    let (joined, plain) = split_commas-join s in
    (
      (split_commas s).0,
      (split_commas s).1,
      joined,
      plain,
      keep_names-keep (map trim ((split_commas s).0 ∷ (split_commas s).1)),
    )

split_all-AreAllPatterns :
    (xs : List (Option Text)) (out : List Text) → split_all xs ≡ some out → AreAllPatterns xs out
unfolding split_all
split_all-AreAllPatterns [] out e = ground arith
split_all-AreAllPatterns (none ∷ xs) out e = absurd (ground arith)
split_all-AreAllPatterns (some s ∷ xs) out e = elim (Option-cases (split_all xs)) [
  | inl n ↦ absurd (ground arith)
  | inr (later, q) ↦ (
    split_hosts s,
    later,
    split_hosts-ArePatterns s,
    split_all-AreAllPatterns xs later q,
    ground arith,
  )
]

pub deser_hostlist-AreGiven :
    (v : Value) (out : List Text) → deser_hostlist v ≡ some out → AreGiven v out
unfolding deser_hostlist
deser_hostlist-AreGiven (string s) out e =
    let w : split_hosts s ≡ out = ground arith in
    subst (ArePatterns s) w (split_hosts-ArePatterns s)
deser_hostlist-AreGiven (array xs) out e = split_all-AreAllPatterns xs out e
deser_hostlist-AreGiven (integer n) out e = absurd (ground arith)
deser_hostlist-AreGiven other out e = absurd (ground arith)
