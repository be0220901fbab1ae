-- ===== src/Common/Orders.antt =====
-- Ordered keys, and `BTreeMap`: a list of entries in the order of their keys.
use Prim.Native.Nat.{ℕ}
use mathlib.Core.Path.{◌≡◌, refl, sym, subst}
use mathlib.Core.Logic.{inl, inr}
use mathlib.Core.Bool.{Bool, true, false, ◌&&◌, ◌||◌}
use mathlib.Core.Option.{Option, none, some}
use mathlib.Core.List.{List, [], ◌∷◌}
use native.Mathlib.Omega.{arith}
use tperf.Common.Tests.{ltb, ◌==◌, Bool-cases, ==_refl}
use tperf.Common.Texts.{Text, text_eq, text_eq→eq, text_eq_refl}
use tperf.Common.Lists.{All}

-- The code's `Ord` of a key type, as its two tests.
pub record Order {ℓ} (K : Type ℓ) : Type ℓ where
  pub eq : K → K → Bool
  pub lt : K → K → Bool
  pub eq_sound : (a b : K) → eq a b ≡ true → a ≡ b
  pub eq_refl : (a : K) → eq a a ≡ true
  pub lt_trans : (a b c : K) → lt a b ≡ true → lt b c ≡ true → lt a c ≡ true
  pub lt_irrefl : (a : K) → lt a a ≡ false
  pub lt_total : (a b : K) → eq a b ≡ false → lt a b ≡ false → lt b a ≡ true

module _ {ℓ} {K : Type ℓ} (order : Order K) where
  eq_false : (j k : K) → Order.lt order k j ≡ true → Order.eq order j k ≡ false
  eq_false j k h = elim (Bool-cases (Order.eq order j k)) [
    | inr f ↦ f
    | inl t ↦
        let e = Order.eq_sound order j k t in
        let same : Order.lt order k k ≡ true = subst (λ x. Order.lt order k x ≡ true) e h in
        let never = Order.lt_irrefl order k in cc
  ]

  neq : (a b : K) → Order.eq order b a ≡ false → Order.eq order a b ≡ false
  neq a b h = elim (Bool-cases (Order.eq order a b)) [
    | inr f ↦ f
    | inl t ↦
        let e = Order.eq_sound order a b t in
        let same : Order.eq order b b ≡ false = subst (λ x. Order.eq order b x ≡ false) e h in
        let always = Order.eq_refl order b in cc
  ]

module _ {ℓ κ} {K : Type ℓ} {V : Type κ} (order : Order K) where
  -- `m.get(k)`.
  abbrev pub lookup : List (K × V) → K → Option V
  lookup [] k = none
  lookup ((j, v) ∷ m) k = elim (Order.eq order j k) [ true ↦ some v | false ↦ lookup m k ]

  -- `f(m.entry(k).or_insert(d))`.
  abbrev pub upsert : K → V → (V → V) → List (K × V) → List (K × V)
  upsert k d f [] = (k, f d) ∷ []
  upsert k d f ((j, v) ∷ m) = elim (Order.eq order j k) [
    | true ↦ (j, f v) ∷ m
    | false ↦ elim (Order.lt order k j) [
      | true ↦ (k, f d) ∷ (j, v) ∷ m
      | false ↦ (j, v) ∷ upsert k d f m
    ]
  ]

  -- The keys rise.
  abbrev pub IsAbove : K → List (K × V) → Type 0
  IsAbove k m = All (λ e. Order.lt order k e.0 ≡ true) m

  abbrev pub IsMap : List (K × V) → Type 0
  IsMap [] = Unit
  IsMap ((k, v) ∷ m) = IsAbove k m × IsMap m

  abbrev pub unwrap_or : V → Option V → V
  unwrap_or d none = d
  unwrap_or d (some v) = v

  lookup-above : (k : K) (m : List (K × V)) → IsAbove k m → lookup m k ≡ none
  lookup-above k [] h = refl
  lookup-above k ((j, v) ∷ m) (p, h) =
      let q = eq_false order j k p in ground (arith, lookup-above k m h)

  IsAbove-trans :
      (j k : K) (m : List (K × V)) → Order.lt order j k ≡ true → IsAbove k m → IsAbove j m
  IsAbove-trans j k [] lt h = tt
  IsAbove-trans j k ((i, v) ∷ m) lt (p, h) =
      (Order.lt_trans order j k i lt p, IsAbove-trans j k m lt h)

  upsert-IsAbove :
      (j k : K) (d : V) (f : V → V) (m : List (K × V))
      → Order.lt order j k ≡ true
      → IsAbove j m
      → IsAbove j (upsert k d f m)
  upsert-IsAbove j k d f [] lt h = (lt, tt)
  upsert-IsAbove j k d f ((i, v) ∷ m) lt (p, h) = elim (Bool-cases (Order.eq order i k)) [
    | inl t ↦ rw (t, upsert) (p, h)
    | inr n ↦ elim (Bool-cases (Order.lt order k i)) [
      | inl t ↦ rw (n, upsert) (rw (t, upsert) (lt, (p, h)))
      | inr w ↦ rw (n, upsert) (rw (w, upsert) (p, upsert-IsAbove j k d f m lt h))
    ]
  ]

  pub upsert-IsMap :
      (k : K) (d : V) (f : V → V) (m : List (K × V)) → IsMap m → IsMap (upsert k d f m)
  upsert-IsMap k d f [] h = (tt, tt)
  upsert-IsMap k d f ((i, v) ∷ m) (above, h) = elim (Bool-cases (Order.eq order i k)) [
    | inl t ↦ rw (t, upsert) (above, h)
    | inr n ↦ elim (Bool-cases (Order.lt order k i)) [
      | inl t ↦ rw (n, upsert) (rw (t, upsert) ((t, IsAbove-trans k i m t above), (above, h)))
      | inr w ↦
          rw (n, upsert)
            (rw (w, upsert)
              (
                upsert-IsAbove i k d f m (Order.lt_total order k i (neq order k i n) w) above,
                upsert-IsMap k d f m h,
              ))
    ]
  ]

  pub lookup-upsert_self :
      (k : K) (d : V) (f : V → V) (m : List (K × V))
      → IsMap m
      → lookup (upsert k d f m) k ≡ some (f (unwrap_or d (lookup m k)))
  lookup-upsert_self k d f [] h = let same = Order.eq_refl order k in ground arith
  lookup-upsert_self k d f ((i, v) ∷ m) (above, h) = elim (Bool-cases (Order.eq order i k)) [
    | inl t ↦ ground arith
    | inr n ↦ elim (Bool-cases (Order.lt order k i)) [
      | inl t ↦
          let same = Order.eq_refl order k in
          let missing = lookup-above k m (IsAbove-trans k i m t above) in ground arith
      | inr w ↦ let later = lookup-upsert_self k d f m h in ground arith
    ]
  ]

  pub lookup-upsert_ne :
      (k l : K) (d : V) (f : V → V) (m : List (K × V))
      → Order.eq order k l ≡ false
      → lookup (upsert k d f m) l ≡ lookup m l
  lookup-upsert_ne k l d f [] h = ground arith
  lookup-upsert_ne k l d f ((i, v) ∷ m) h = elim (Bool-cases (Order.eq order i k)) [
    | inl t ↦
        let e = Order.eq_sound order i k t in
        let other : Order.eq order i l ≡ false =
          subst (λ x. Order.eq order x l ≡ false) (sym e) h in
        ground arith
    | inr n ↦ elim (Bool-cases (Order.lt order k i)) [
      | inl t ↦ ground arith
      | inr w ↦ let later = lookup-upsert_ne k l d f m h in ground arith
    ]
  ]

pub number_eq_sound : (a b : ℕ) → (a == b) ≡ true → a ≡ b
number_eq_sound a b h = ground arith

pub number_lt_trans : (a b c : ℕ) → ltb a b ≡ true → ltb b c ≡ true → ltb a c ≡ true
number_lt_trans a b c h k = ground arith

pub number_lt_irrefl : (a : ℕ) → ltb a a ≡ false
number_lt_irrefl a = ground arith

pub number_lt_total : (a b : ℕ) → (a == b) ≡ false → ltb a b ≡ false → ltb b a ≡ true
number_lt_total a b h k = ground arith

abbrev pub number_order : Order ℕ
number_order = record {
  eq = ◌==◌;
  lt = ltb;
  eq_sound = number_eq_sound;
  eq_refl = ==_refl;
  lt_trans = number_lt_trans;
  lt_irrefl = number_lt_irrefl;
  lt_total = number_lt_total;
}

-- `Ord` of `String`: the order of UTF-8 is that of the code points.
unfoldable pub text_lt : Text → Text → Bool
text_lt [] [] = false
text_lt [] (d ∷ t) = true
text_lt (c ∷ s) [] = false
text_lt (c ∷ s) (d ∷ t) = ltb c d || c == d && text_lt s t

pub text_lt_trans : (a b c : Text) → text_lt a b ≡ true → text_lt b c ≡ true → text_lt a c ≡ true
unfolding text_lt
text_lt_trans [] [] c h k = ground arith
text_lt_trans [] (y ∷ b) [] h k = ground arith
text_lt_trans [] (y ∷ b) (z ∷ c) h k = refl
text_lt_trans (x ∷ a) [] c h k = ground arith
text_lt_trans (x ∷ a) (y ∷ b) [] h k = ground arith
text_lt_trans (x ∷ a) (y ∷ b) (z ∷ c) h k = ground (arith, text_lt_trans a b c)

pub text_lt_irrefl : (a : Text) → text_lt a a ≡ false
unfolding text_lt
text_lt_irrefl [] = refl
text_lt_irrefl (x ∷ a) = ground (arith, text_lt_irrefl a)

pub text_lt_total : (a b : Text) → text_eq a b ≡ false → text_lt a b ≡ false → text_lt b a ≡ true
unfolding text_lt text_eq
text_lt_total [] [] h k = ground arith
text_lt_total [] (y ∷ b) h k = ground arith
text_lt_total (x ∷ a) [] h k = refl
text_lt_total (x ∷ a) (y ∷ b) h k = ground (arith, text_lt_total a b)

abbrev pub text_order : Order Text
text_order = record {
  eq = text_eq;
  lt = text_lt;
  eq_sound = text_eq→eq;
  eq_refl = text_eq_refl;
  lt_trans = text_lt_trans;
  lt_irrefl = text_lt_irrefl;
  lt_total = text_lt_total;
}

-- `Ord` of a pair.
module _ {ℓ} {K : Type ℓ} (o : Order K) where
  abbrev pub pair_eq : K × K → K × K → Bool
  pair_eq (a, b) (c, d) = Order.eq o a c && Order.eq o b d

  abbrev pub pair_lt : K × K → K × K → Bool
  pair_lt (a, b) (c, d) = Order.lt o a c || Order.eq o a c && Order.lt o b d

  pub pair_sound : (p q : K × K) → pair_eq p q ≡ true → p ≡ q
  pair_sound (a, b) (c, d) h =
      let first = Order.eq_sound o a c in
      let second = Order.eq_sound o b d in ground (arith, first, second)

  pub pair_refl : (p : K × K) → pair_eq p p ≡ true
  pair_refl (a, b) = let first = Order.eq_refl o a in let second = Order.eq_refl o b in ground arith

  pub pair_irrefl : (p : K × K) → pair_lt p p ≡ false
  pair_irrefl (a, b) =
      let first = Order.lt_irrefl o a in let second = Order.lt_irrefl o b in ground arith

  pub pair_total : (p q : K × K) → pair_eq p q ≡ false → pair_lt p q ≡ false → pair_lt q p ≡ true
  pair_total (a, b) (c, d) h k = elim (Bool-cases (Order.eq o a c)) [
    | inl t ↦
        let e = Order.eq_sound o a c t in
        let same : Order.eq o c a ≡ true =
          subst (λ x. Order.eq o x a ≡ true) e (Order.eq_refl o a) in
        let other : Order.eq o b d ≡ false = ground arith in
        let not_below : Order.lt o b d ≡ false = ground arith in
        let below = Order.lt_total o b d other not_below in ground arith
    | inr f ↦
        let not_below : Order.lt o a c ≡ false = ground arith in
        let below = Order.lt_total o a c f not_below in ground arith
  ]

  pub pair_trans : (p q r : K × K) → pair_lt p q ≡ true → pair_lt q r ≡ true → pair_lt p r ≡ true
  pair_trans (a, b) (c, d) (e, f) h k = elim (Bool-cases (Order.lt o a c)) [
    | inl x ↦ elim (Bool-cases (Order.lt o c e)) [
      | inl y ↦ let z = Order.lt_trans o a c e x y in ground arith
      | inr y ↦
          let q : Order.eq o c e ≡ true = ground arith in
          let z : Order.lt o a e ≡ true =
            subst (λ u. Order.lt o a u ≡ true) (Order.eq_sound o c e q) x in
          ground arith
    ]
    | inr x ↦
        let p : Order.eq o a c ≡ true = ground arith in
        let s : a ≡ c = Order.eq_sound o a c p in
        let first : Order.lt o b d ≡ true = ground arith in
        elim (Bool-cases (Order.lt o c e)) [
          | inl y ↦
              let z : Order.lt o a e ≡ true = subst (λ u. Order.lt o u e ≡ true) (sym s) y in
              ground arith
          | inr y ↦
              let q : Order.eq o c e ≡ true = ground arith in
              let z : Order.eq o a e ≡ true = subst (λ u. Order.eq o u e ≡ true) (sym s) q in
              let second : Order.lt o d f ≡ true = ground arith in
              let both = Order.lt_trans o b d f first second in ground arith
        ]
  ]

  abbrev pub pair_order : Order (K × K)
  pair_order = record {
    eq = pair_eq;
    lt = pair_lt;
    eq_sound = pair_sound;
    eq_refl = pair_refl;
    lt_trans = pair_trans;
    lt_irrefl = pair_irrefl;
    lt_total = pair_total;
  }
