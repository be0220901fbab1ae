-- ===== src/Analyze/Worst.antt =====
-- The worst pairs of a report.
use mathlib.Core.List.{Perm}
use mathlib.Core.List.Perm
use tperf.Common.{
  ℕ, zero, suc, min, List, [], ◌∷◌, ◌++◌, true, false, ◌≡◌, refl, sym, ap, ◌∙◌, subst, arith, Float,
  IsOrdered, All, Bool-cases, inl, inr, take, drop, All-take, All-drop, take-append-drop, length,
  length-take,
}
use tperf.Analyze.{PairStats, is_less, insert_pair, sort_pairs, worst_pairs}

module _ {F : Type 0} (float : Float F) (laws : IsOrdered float) where
  -- The rates that are compared are numbers that are not negative.
  abbrev pub HasRates : PairStats F → Type 0
  HasRates p = IsOrdered.IsRate laws p.stats.avg_bps × IsOrdered.IsRate laws p.stats.min_bps

  -- `a` is at least as bad as `b`: its average rate is not above that of `b`, and where neither
  -- average is below the other, its least rate is not above that of `b`.
  abbrev pub Before : PairStats F → PairStats F → Type 0
  Before a b =
      (Float.lt float b.stats.avg_bps a.stats.avg_bps ≡ false)
      × (Float.lt float a.stats.avg_bps b.stats.avg_bps ≡ false
          → Float.lt float b.stats.min_bps a.stats.min_bps ≡ false)

  abbrev pub IsSorted : List (PairStats F) → Type 0
  IsSorted [] = Unit
  IsSorted (x ∷ xs) = All (Before x) xs × IsSorted xs

  Before-trans :
      (a b c : PairStats F)
      → HasRates a
      → HasRates b
      → HasRates c
      → Before a b
      → Before b c
      → Before a c
  Before-trans a b c (ra, ma) (rb, mb) (rc, mc) h k =
      let avg = IsOrdered.le_trans laws a.stats.avg_bps b.stats.avg_bps c.stats.avg_bps ra rb rc in
      let back = IsOrdered.le_trans laws b.stats.avg_bps c.stats.avg_bps a.stats.avg_bps rb rc ra in
      let over = IsOrdered.le_trans laws c.stats.avg_bps a.stats.avg_bps b.stats.avg_bps rc ra rb in
      let low = IsOrdered.le_trans laws a.stats.min_bps b.stats.min_bps c.stats.min_bps ma mb mc in
      ground arith

  Before-not_less :
      (a b : PairStats F) → HasRates a → HasRates b → is_less float b a ≡ false → Before a b
  Before-not_less a b (ra, ma) (rb, mb) h =
      let avg = IsOrdered.lt_asymm laws a.stats.avg_bps b.stats.avg_bps ra rb in ground arith

  Before-less :
      (a b : PairStats F) → HasRates a → HasRates b → is_less float b a ≡ true → Before b a
  Before-less a b (ra, ma) (rb, mb) h =
      let avg = IsOrdered.lt_asymm laws b.stats.avg_bps a.stats.avg_bps rb ra in
      let low = IsOrdered.lt_asymm laws b.stats.min_bps a.stats.min_bps mb ma in ground arith

  All-Before :
      (x y : PairStats F) (ys : List (PairStats F))
      → HasRates x
      → HasRates y
      → All HasRates ys
      → Before x y
      → All (Before y) ys
      → All (Before x) ys
  All-Before x y [] hx hy h b all = tt
  All-Before x y (z ∷ ys) hx hy (hz, h) b (p, all) =
      (Before-trans x y z hx hy hz b p, All-Before x y ys hx hy h b all)

  insert_pair-All :
      (P : PairStats F → Type 0) (x : PairStats F) (ys : List (PairStats F))
      → P x
      → All P ys
      → All P (insert_pair float x ys)
  unfolding insert_pair
  insert_pair-All P x [] p h = (p, tt)
  insert_pair-All P x (y ∷ ys) p (q, h) = elim (Bool-cases (is_less float y x)) [
    | inl t ↦ rw (t, insert_pair) (q, insert_pair-All P x ys p h)
    | inr f ↦ rw (f, insert_pair) (p, (q, h))
  ]

  insert_pair-IsSorted :
      (x : PairStats F) (ys : List (PairStats F))
      → HasRates x
      → All HasRates ys
      → IsSorted ys
      → IsSorted (insert_pair float x ys)
  unfolding insert_pair
  insert_pair-IsSorted x [] hx h s = (tt, tt)
  insert_pair-IsSorted x (y ∷ ys) hx (hy, h) (b, s) = elim (Bool-cases (is_less float y x)) [
    | inl t ↦
        rw (t, insert_pair)
          (
            insert_pair-All (Before y) x ys (Before-less x y hx hy t) b,
            insert_pair-IsSorted x ys hx h s,
          )
    | inr f ↦
        rw (f, insert_pair)
          (let first = Before-not_less x y hx hy f in
            ((first, All-Before x y ys hx hy h first b), (b, s)))
  ]

  insert_pair-Perm :
      (x : PairStats F) (ys : List (PairStats F)) → Perm (insert_pair float x ys) (x ∷ ys)
  unfolding insert_pair
  insert_pair-Perm x [] = Perm.refl (x ∷ [])
  insert_pair-Perm x (y ∷ ys) = elim (Bool-cases (is_less float y x)) [
    | inl t ↦
        rw (t, insert_pair) (Perm.trans (Perm.cons y (insert_pair-Perm x ys)) (Perm.swap x y ys))
    | inr f ↦ rw (f, insert_pair) (Perm.refl (x ∷ y ∷ ys))
  ]

  sort_pairs-All :
      (P : PairStats F → Type 0) (xs : List (PairStats F)) → All P xs → All P (sort_pairs float xs)
  unfolding sort_pairs
  sort_pairs-All P [] h = tt
  sort_pairs-All P (x ∷ xs) (p, h) =
      insert_pair-All P x (sort_pairs float xs) p (sort_pairs-All P xs h)

  sort_pairs-IsSorted : (xs : List (PairStats F)) → All HasRates xs → IsSorted (sort_pairs float xs)
  unfolding sort_pairs
  sort_pairs-IsSorted [] h = tt
  sort_pairs-IsSorted (x ∷ xs) (p, h) =
      insert_pair-IsSorted x (sort_pairs float xs) p (sort_pairs-All HasRates xs h)
        (sort_pairs-IsSorted xs h)

  sort_pairs-Perm : (xs : List (PairStats F)) → Perm (sort_pairs float xs) xs
  unfolding sort_pairs
  sort_pairs-Perm [] = Perm.refl []
  sort_pairs-Perm (x ∷ xs) =
      Perm.trans (insert_pair-Perm x (sort_pairs float xs)) (Perm.cons x (sort_pairs-Perm xs))

  -- Each element of a sorted list stands before all that are behind the first `n`.
  cut-Before :
      (n : ℕ) (xs : List (PairStats F))
      → IsSorted xs
      → All (λ w. All (Before w) (drop n xs)) (take n xs) × IsSorted (take n xs)
  cut-Before zero xs h = (tt, tt)
  cut-Before (suc n) [] h = (tt, tt)
  cut-Before (suc n) (x ∷ xs) (b, h) =
      let (later, sorted) = cut-Before n xs h in
      ((All-drop (Before x) n xs b, later), (All-take (Before x) n xs b, sorted))

  length-insert_pair :
      (x : PairStats F) (ys : List (PairStats F))
      → length (insert_pair float x ys) ≡ suc (length ys)
  unfolding insert_pair
  length-insert_pair x [] = refl
  length-insert_pair x (y ∷ ys) = elim (Bool-cases (is_less float y x)) [
    | inl t ↦ rw (t, insert_pair) (ap suc (length-insert_pair x ys))
    | inr f ↦ rw (f, insert_pair) refl
  ]

  length-sort_pairs : (xs : List (PairStats F)) → length (sort_pairs float xs) ≡ length xs
  unfolding sort_pairs
  length-sort_pairs [] = refl
  length-sort_pairs (x ∷ xs) =
      length-insert_pair x (sort_pairs float xs) ∙ ap suc (length-sort_pairs xs)

  -- The worst pairs, together with the others, are the pairs of the report; they are five, or all
  -- of fewer; they are sorted by their average and least rates, and no other pair is less than one
  -- of them.
  pub worst_pairs-IsSorted :
      (pairs : List (PairStats F))
      → All HasRates pairs
      → (others : List (PairStats F)) × Perm (worst_pairs float pairs ++ others) pairs
        × (length (worst_pairs float pairs) ≡ min 5 (length pairs))
        × IsSorted (worst_pairs float pairs)
        × All (λ w. All (Before w) others) (worst_pairs float pairs)
  unfolding worst_pairs
  worst_pairs-IsSorted pairs h =
      let sorted = sort_pairs float pairs in
      let (apart, first) = cut-Before 5 sorted (sort_pairs-IsSorted pairs h) in
      (
        drop 5 sorted,
        subst (λ xs. Perm xs pairs) (sym (take-append-drop 5 sorted)) (sort_pairs-Perm pairs),
        length-take 5 sorted ∙ ap (min 5) (length-sort_pairs pairs),
        first,
        apart,
      )
