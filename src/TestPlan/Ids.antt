-- ===== src/TestPlan/Ids.antt =====
-- The ids in the assignments of a round are in the range of the resolved addresses.
use tperf.Common.{
  ℕ, suc, ◌+◌, ◌≤◌, ◌<◌, List, [], ◌∷◌, map, enumerate, Option, none, some, Bool, true, false, ◌≡◌,
  ◌≢◌, refl, sym, subst, arith, Text, length, get_elem?, All, All-append, Option-cases, Bool-cases,
  inl, inr, text_eq, if◌then◌else◌,
}
use tperf.Proto.{Target}
use tperf.TestPlan.{round_robin_rounds, assignment, target, position}
use tperf.TestPlan.Pairs.{rank, opponents, Listed}
use tperf.TestPlan.Addresses.{InRange}
use tperf.TestPlan.Round.{fixtures-Listed}
use tperf.TestPlan.Tournament.{round_fixtures}

some-ne : (o : Option ℕ) {i : ℕ} → o ≡ some i → o ≢ none
some-ne o e h = ground arith

pub position-lt :
    (a : Text) (hosts : List Text) → position a hosts ≢ none → rank a hosts < length hosts
unfolding position rank
position-lt a [] h = absurd (h refl)
position-lt a (x ∷ hosts) h = elim (Bool-cases (text_eq x a)) [
  | inl t ↦ ground arith
  | inr f ↦ elim (Option-cases (position a hosts)) [
    | inl q ↦ absurd (h (rw (f, q, position) refl))
    | inr (i, q) ↦ let later = position-lt a hosts (some-ne (position a hosts) q) in ground arith
  ]
]

module _ {Addr : Type 0} (to_string : Addr → Text) (resolved : List Addr) where
  one :
      (c : Bool) (t : Target)
      → t.id < length resolved
      → All (λ u. u.id < length resolved) (if c then t ∷ [] else [])
  one true t h = (h, tt)
  one false t h = tt

  pub ids-InRange :
      (hosts : List Text) (x : Text) (pairs : List (Text × Text))
      → length hosts ≤ length resolved
      → Listed hosts pairs
      → All (λ t. t.id < length resolved) (opponents hosts x pairs)
  unfolding opponents
  ids-InRange hosts x [] h l = tt
  ids-InRange hosts x ((a, b) ∷ pairs) h ((la, lb), l) =
      let rest = ids-InRange hosts x pairs h l in
      let ra = position-lt a hosts la in
      let rb = position-lt b hosts lb in
      All-append _ (if text_eq x a then target (rank b hosts, b) ∷ [] else []) _
        (one (text_eq x a) _ (omega arith))
        (All-append _ (if text_eq x b then target (rank a hosts, a) ∷ [] else []) _
          (one (text_eq x b) _ (omega arith)) rest)

  pub rows-InRange :
      (f : Text → List Target) (i : ℕ) (hosts : List Text)
      → i + length hosts ≤ length resolved
      → ((x : Text) → All (λ t. t.id < length resolved) (f x))
      → All (InRange to_string resolved) (map (λ p. assignment p (f p.1)) (enumerate i hosts))
  rows-InRange f i [] h k = tt
  rows-InRange f i (x ∷ hosts) h k =
      ((omega arith, k x), rows-InRange f (suc i) hosts (omega arith) k)

All-of_get {ℓ κ} :
    {A : Type ℓ} (P : A → Type κ) (xs : List A)
    → ((i : ℕ) (x : A) → get_elem? xs i ≡ some x → P x)
    → All P xs
All-of_get P [] h = tt
All-of_get P (x ∷ xs) h = (h 0 x refl, All-of_get P xs (λ i y e. h (suc i) y e))

-- The rounds pair hosts of the list.
pub rounds-Listed :
    (hosts : List Text)
    → 2 ≤ length hosts
    → {rounds : List (List (Text × Text))} → round_robin_rounds hosts ≡ some rounds
    → All (Listed hosts) rounds
rounds-Listed hosts two {rounds} run = All-of_get _ rounds λ r pairs e.
    subst (Listed hosts) (sym (round_fixtures hosts two run r e)) (fixtures-Listed hosts r)
