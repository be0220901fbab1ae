-- ===== src/Common/Ranges.antt =====
-- What a loop over a range of indices collects.
use mathlib.Core.List.{filter_map, filter_map-cons-none, filter_map-cons-some, map, List, [], ◌∷◌}
use mathlib.Core.List.Memᴰ
use mathlib.Core.List.{Memᴰ}
use Prim.Native.Nat.{ℕ, zero, suc, ◌+◌, ◌≤◌, ◌<◌}
use mathlib.Core.Path.{◌≡◌, refl, ap, subst}
use mathlib.Core.Logic.{inl, inr, ◌≢◌}
use mathlib.Core.Option.{Option, none, some}
use native.Mathlib.Omega.{arith}
use native.Mathlib.Decide.{ℕ_discrete}
use tperf.Common.Tests.{Option-cases}
use tperf.Common.Lists.{length, get_elem?, range_from, All}

pub length-range_from : (i k : ℕ) → length (range_from i k) ≡ k
length-range_from i zero = refl
length-range_from i (suc k) = ap suc (length-range_from (suc i) k)

module _ {ℓ} {B : Type ℓ} where
  pub get_elem?-map_range :
      (f : ℕ → B) (i k j : ℕ) → j < k → get_elem? (map f (range_from i k)) j ≡ some (f (i + j))
  get_elem?-map_range f i zero j h = elim h [ ]
  get_elem?-map_range f i (suc k) zero h = let e : i + 0 ≡ i = omega arith in rw e
  get_elem?-map_range f i (suc k) (suc j) h =
      let e : i + suc j ≡ suc i + j = omega arith in
      rw e (get_elem?-map_range f (suc i) k j (omega arith))

  -- What the loop collects comes from one of its rounds.
  pub round_of_mem :
      (f : ℕ → Option B) (i k : ℕ) {b : B}
      → Memᴰ b (filter_map f (range_from i k))
      → (j : ℕ) × (i ≤ j) × (j < i + k) × (f j ≡ some b)
  round_of_mem f i zero m = unfold filter_map in absurd (Memᴰ.not-nil m)
  round_of_mem f i (suc k) m = elim (Option-cases (f i)) [
    | inl e ↦
        let (j, lo, hi, p) =
          round_of_mem f (suc i) k (subst (Memᴰ _) (filter_map-cons-none f i _ e) m) in
        (j, omega arith, omega arith, p)
    | inr (c, e) ↦ elim (Memᴰ.cases_cons (subst (Memᴰ _) (filter_map-cons-some f i _ e) m)) [
      | inl q ↦ (i, omega arith, omega arith, rw q e)
      | inr rest ↦
          let (j, lo, hi, p) = round_of_mem f (suc i) k rest in (j, omega arith, omega arith, p)
    ]
  ]

  pub mem_of_round :
      (f : ℕ → Option B) (i k j : ℕ) {b : B}
      → i ≤ j
      → j < i + k
      → f j ≡ some b
      → Memᴰ b (filter_map f (range_from i k))
  mem_of_round f i zero j lo hi e = absurd (omega arith)
  mem_of_round f i (suc k) j {b} lo hi e = elim (ℕ_discrete i j) [
    | yes here ↦ rw (filter_map-cons-some f i _ {b = b} (rw here e)) (Memᴰ.head refl)
    | no other ↦
        let later = mem_of_round f (suc i) k j (omega arith) (omega arith) e in
        elim (Option-cases (f i)) [
          | inl q ↦ rw (filter_map-cons-none f i _ q) later
          | inr (c, q) ↦ rw (filter_map-cons-some f i _ q) (Memᴰ.tail later)
        ]
  ]

  -- A loop each of whose rounds collects something.
  pub length-filter_map-all :
      (f : ℕ → Option B) (i k : ℕ)
      → ((j : ℕ) → i ≤ j → j < i + k → f j ≢ none)
      → length (filter_map f (range_from i k)) ≡ k
  length-filter_map-all f i zero h = unfold filter_map in refl
  length-filter_map-all f i (suc k) h = elim (Option-cases (f i)) [
    | inl q ↦ absurd (h i (omega arith) (omega arith) q)
    | inr (c, q) ↦
        rw (filter_map-cons-some f i _ q)
          (ap suc (length-filter_map-all f (suc i) k (λ j lo hi. h j (omega arith) (omega arith))))
  ]

  -- A loop of which one round collects nothing.
  pub length-filter_map-but_one :
      (f : ℕ → Option B) (i k o : ℕ)
      → i ≤ o
      → o < i + k
      → f o ≡ none
      → ((j : ℕ) → i ≤ j → j < i + k → j ≢ o → f j ≢ none)
      → suc (length (filter_map f (range_from i k))) ≡ k
  length-filter_map-but_one f i zero o lo hi e h = absurd (omega arith)
  length-filter_map-but_one f i (suc k) o lo hi e h = elim (ℕ_discrete i o) [
    | yes here ↦ rw (filter_map-cons-none f i _ (rw here e)) (
        ap suc (
          length-filter_map-all f (suc i) k
            (λ j lo' hi'. h j (omega arith) (omega arith) (omega arith))))
    | no other ↦ elim (Option-cases (f i)) [
      | inl q ↦ absurd (h i (omega arith) (omega arith) other q)
      | inr (c, q) ↦ rw (filter_map-cons-some f i _ q) (
          ap suc (
            length-filter_map-but_one f (suc i) k o (omega arith) (omega arith) e
              (λ j lo' hi'. h j (omega arith) (omega arith))))
    ]
  ]

pub All-mem {ℓ κ} :
    {A : Type ℓ} (P : A → Type κ) (xs : List A) → All P xs → {x : A} → Memᴰ x xs → P x
All-mem P [] h m = absurd (Memᴰ.not-nil m)
All-mem P (y ∷ xs) (p, h) m = elim (Memᴰ.cases_cons m) [
  | inl e ↦ rw e p
  | inr rest ↦ All-mem P xs h rest
]

pub All-of_mem {ℓ κ} :
    {A : Type ℓ} (P : A → Type κ) (xs : List A) → ((x : A) → Memᴰ x xs → P x) → All P xs
All-of_mem P [] h = tt
All-of_mem P (x ∷ xs) h = (h x (Memᴰ.head refl), All-of_mem P xs (λ y m. h y (Memᴰ.tail m)))
