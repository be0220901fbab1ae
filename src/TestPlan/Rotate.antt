-- ===== src/TestPlan/Rotate.antt =====
-- The table of a round by its seats: what one turn of the table does to each seat.
use tperf.Common.{
  ℕ, zero, suc, ◌+◌, ◌-◌, ◌<◌, ◌≤◌, ◌≡◌, refl, sym, subst, List, [], ◌∷◌, ◌++◌, Option, some, Text,
  arith, length, get_elem?, length-append, split_last, get_elem?-append_left,
  get_elem?-append_right,
}
use tperf.TestPlan.{Slots, pop, insert, rotate}

pop-append {ℓ} : {A : Type ℓ} (xs : List A) (l : A) → pop (xs ++ l ∷ []) ≡ some (xs, l)
unfolding pop
pop-append [] l = refl
pop-append (x ∷ xs) l = rw (pop-append xs l, pop)

-- The seat from which a turn fills seat `j`, at a table of `n`.
abbrev pub prev : ℕ → ℕ → ℕ
prev n zero = 0
prev n (suc zero) = n - 1
prev n (suc (suc j)) = suc j

rotate_parts :
    (x : Option Text) (ys : Slots) (l : Option Text)
    → rotate (x ∷ (ys ++ l ∷ [])) ≡ some (x ∷ l ∷ ys)
unfolding rotate insert
rotate_parts x ys l = rw (pop-append (x ∷ ys) l)

-- The turn does not panic, and fills every seat from `prev`.
abbrev pub Turns : Slots → Type 0
Turns arr =
    (arr' : Slots) × (rotate arr ≡ some arr')
    × (length arr' ≡ length arr)
    × ((j : ℕ) → j < length arr → get_elem? arr' j ≡ get_elem? arr (prev (length arr) j))

seat_turned :
    (x : Option Text) (ys : Slots) (l : Option Text) (j : ℕ)
    → j < length (x ∷ (ys ++ l ∷ []))
    → get_elem? (x ∷ l ∷ ys) j
      ≡ get_elem? (x ∷ (ys ++ l ∷ [])) (prev (length (x ∷ (ys ++ l ∷ []))) j)
seat_turned x ys l zero h = refl
seat_turned x ys l (suc zero) h =
    let e : length (x ∷ (ys ++ l ∷ [])) - 1 ≡ suc (length ys + 0) =
      omega (arith, length-append ys (l ∷ [])) in
    rw e (rw (get_elem?-append_right ys (l ∷ []) 0))
seat_turned x ys l (suc (suc j)) h =
    sym (get_elem?-append_left ys (l ∷ []) j (omega (arith, length-append ys (l ∷ []))))

-- A turn of a table of two seats or more.
pub rotate-Turns : (arr : Slots) → 2 ≤ length arr → Turns arr
rotate-Turns [] h = absurd (omega arith)
rotate-Turns (x ∷ []) h = absurd (omega arith)
rotate-Turns (x ∷ y ∷ xs) h =
    let (ys, l, e) = split_last y xs in
    subst (λ t. Turns (x ∷ t)) (sym e)
      (
        x ∷ l ∷ ys,
        rotate_parts x ys l,
        omega (arith, length-append ys (l ∷ [])),
        seat_turned x ys l,
      )
