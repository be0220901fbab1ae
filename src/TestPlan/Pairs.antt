-- ===== src/TestPlan/Pairs.antt =====
-- `assignments_for_pairs`: the two hosts of a pair send to one another.
use mathlib.Core.List.{Nodup, Nodup-cons, Mem, mem-cons_self, mem-cons_of_mem}
use mathlib.Core.List.{Memᴰ}
use mathlib.Core.List.Memᴰ
use tperf.Common.{
  ℕ, suc, ◌≡◌, ◌≢◌, refl, sym, ap, ◌∙◌, List, [], ◌∷◌, ◌++◌, map, none, some, Text, arith,
  enumerate, true, false, Bool, text_eq, text_eq_iff, text_eq_refl, if◌then◌else◌, append_assoc,
  append-nil, All, Bool-cases, inl, inr,
}
use tperf.Proto.{Target, Assignment}
use tperf.TestPlan.{target, assignment, position, push_target, assign_pairs, assignments_for_pairs}
use tperf.TestPlan.Coverage.{players}

-- The id of a host: where it stands in the list.
unfoldable pub rank : Text → List Text → ℕ
rank a hosts = elim (position a hosts) [ none ↦ 0 | some i ↦ i ]

-- The targets of host `x`, read off the pairs.
unfoldable pub opponents : List Text → Text → List (Text × Text) → List Target
opponents hosts x [] = []
opponents hosts x ((a, b) ∷ pairs) =
    (if text_eq x a then target (rank b hosts, b) ∷ [] else [])
    ++ ((if text_eq x b then target (rank a hosts, a) ∷ [] else []) ++ opponents hosts x pairs)

-- One assignment for each host, with targets by its name.
abbrev rows : ℕ → List Text → (Text → List Target) → List Assignment
rows s hosts f = map (λ p. assignment p (f p.1)) (enumerate s hosts)

abbrev add : (Text → List Target) → Text → Target → Text → List Target
add f a t x = if text_eq x a then f x ++ t ∷ [] else f x

rows-ext :
    (s : ℕ) (hosts : List Text) {f g : Text → List Target}
    → ((x : Text) → Mem x hosts → f x ≡ g x)
    → rows s hosts f ≡ rows s hosts g
rows-ext s [] h = refl
rows-ext s (x ∷ hosts) h =
    rw (h x mem-cons_self, rows-ext (suc s) hosts (λ y m. h y (mem-cons_of_mem x m)))

eq_false : (x a : Text) → x ≢ a → text_eq x a ≡ false
eq_false x a h = ground (arith, text_eq_iff x a)

push_cons :
    (r : Assignment) (out : List Assignment) (i : ℕ) (t : Target) {out' : List Assignment}
    → push_target out i t ≡ some out'
    → push_target (r ∷ out) (suc i) t ≡ some (r ∷ out')
unfolding push_target
push_cons r out i t e = ground arith

position_hit :
    (a x : Text) (hosts : List Text) → text_eq x a ≡ true → position a (x ∷ hosts) ≡ some 0
unfolding position
position_hit a x hosts h = ground arith

position_miss :
    (a x : Text) (hosts : List Text) {i : ℕ}
    → text_eq x a ≡ false
    → position a (x ∷ hosts) ≡ some i
    → (j : ℕ) × (position a hosts ≡ some j) × (i ≡ suc j)
unfolding position
position_miss a x hosts h e = ground arith

push_rows :
    (s : ℕ) (hosts : List Text) (f : Text → List Target) (a : Text) (t : Target) (i : ℕ)
    → Nodup hosts
    → position a hosts ≡ some i
    → push_target (rows s hosts f) i t ≡ some (rows s hosts (add f a t))
unfolding push_target
push_rows s [] f a t i d e = unfold position in ground arith
push_rows s (x ∷ hosts) f a t i d e = elim (Bool-cases (text_eq x a)) [
  | inl hit ↦
      let first : i ≡ 0 = ground (arith, position_hit a x hosts hit) in
      let same = (text_eq_iff x a).0 hit in
      rw (first, hit, push_target)
        (ap (λ rest. some (assignment (s, x) (f x ++ t ∷ []) ∷ rest))
          (rows-ext (suc s) hosts {f = f} {g = add f a t}
            λ y m. rw (eq_false y a (λ q. (Nodup-cons.0 d).0 (rw (same ∙ sym q) m)))))
  | inr miss ↦
      let (j, q, later) = position_miss a x hosts miss e in
      rw (later, miss) (push_cons _ _ j t (push_rows (suc s) hosts f a t j (Nodup-cons.0 d).1 q))
]

-- Every player is a host.
abbrev pub Listed : List Text → List (Text × Text) → Type 0
Listed hosts pairs = All (λ p. (position p.0 hosts ≢ none) × (position p.1 hosts ≢ none)) pairs

rank_at :
    (a : Text) (hosts : List Text)
    → position a hosts ≢ none
    → position a hosts ≡ some (rank a hosts)
unfolding rank
rank_at a hosts h = ground (arith, h)

abbrev with_pair : List Text → (Text → List Target) → Text × Text → Text → List Target
with_pair hosts f (a, b) = add (add f a (target (rank b hosts, b))) b (target (rank a hosts, a))

regroup :
    (p q : Bool) (xs rest : List Target) (t u : Target)
    → (if q then (if p then xs ++ t ∷ [] else xs) ++ u ∷ [] else (if p then xs ++ t ∷ [] else xs))
        ++ rest
      ≡ xs ++ ((if p then t ∷ [] else []) ++ ((if q then u ∷ [] else []) ++ rest))
regroup true true xs rest t u = simp append_assoc
regroup true false xs rest t u = simp append_assoc
regroup false true xs rest t u = simp append_assoc
regroup false false xs rest t u = refl

assign_pairs-rows :
    (hosts : List Text) (pairs : List (Text × Text)) (f : Text → List Target)
    → Nodup hosts
    → Listed hosts pairs
    → assign_pairs hosts pairs (rows 0 hosts f)
      ≡ some (rows 0 hosts (λ x. f x ++ opponents hosts x pairs))
unfolding assign_pairs opponents
assign_pairs-rows hosts [] f d l = ap some (rows-ext 0 hosts (λ x m. sym (append-nil (f x))))
assign_pairs-rows hosts ((a, b) ∷ pairs) f d ((la, lb), ls) =
    let g = add f a (target (rank b hosts, b)) in
    rw
      (
        rank_at a hosts la,
        rank_at b hosts lb,
        push_rows 0 hosts f a (target (rank b hosts, b)) (rank a hosts) d (rank_at a hosts la),
        push_rows 0 hosts g b (target (rank a hosts, a)) (rank b hosts) d (rank_at b hosts lb),
        assign_pairs-rows hosts pairs (with_pair hosts f (a, b)) d ls,
      )
      (ap some (
        rows-ext 0 hosts (λ x m.
          regroup (text_eq x a) (text_eq x b) (f x) (opponents hosts x pairs)
            (target (rank b hosts, b)) (target (rank a hosts, a)))))

-- If no host is listed twice and every player is a host, the code does not panic: every host gets
-- its own name and position, and sends exactly to those whom the pairs set against it.
pub assignments_for_pairs-opponents :
    (hosts : List Text) (pairs : List (Text × Text))
    → Nodup hosts
    → Listed hosts pairs
    → assignments_for_pairs hosts pairs
      ≡ some (map (λ p. assignment p (opponents hosts p.1 pairs)) (enumerate 0 hosts))
unfolding assignments_for_pairs
assignments_for_pairs-opponents hosts pairs d l = assign_pairs-rows hosts pairs (λ _. []) d l

module _ (hosts : List Text) where
  opponents_none :
      (pairs : List (Text × Text)) (x : Text)
      → ¬ (Mem x (players pairs))
      → opponents hosts x pairs ≡ []
  unfolding opponents
  opponents_none [] x h = refl
  opponents_none ((a, b) ∷ pairs) x h = rw (
    eq_false x a (λ e. h (rw e mem-cons_self)),
    eq_false x b (λ e. h (rw e (mem-cons_of_mem a mem-cons_self))),
    opponents_none pairs x (λ m. h (mem-cons_of_mem a (mem-cons_of_mem b m))),
  )

  -- A pair in front whose hosts do not play again.
  module _ (a b : Text) (pairs : List (Text × Text)) (d : Nodup (players ((a, b) ∷ pairs))) where
    front :
        (opponents hosts a ((a, b) ∷ pairs) ≡ target (rank b hosts, b) ∷ [])
        × (opponents hosts b ((a, b) ∷ pairs) ≡ target (rank a hosts, a) ∷ [])
    unfolding opponents
    front =
        let (a_once, d') = Nodup-cons.0 d in
        let (b_once, _) = Nodup-cons.0 d' in
        let differ : a ≢ b = λ e. a_once (rw e mem-cons_self) in
        (
          rw (
            text_eq_refl a,
            eq_false a b differ,
            opponents_none pairs a (λ m. a_once (mem-cons_of_mem b m)),
          ),
          rw (text_eq_refl b, eq_false b a (λ e. differ (sym e)), opponents_none pairs b b_once),
        )

    behind :
        (x : Text)
        → Mem x (players pairs)
        → opponents hosts x ((a, b) ∷ pairs) ≡ opponents hosts x pairs
    unfolding opponents
    behind x m =
        let (a_once, d') = Nodup-cons.0 d in
        let (b_once, _) = Nodup-cons.0 d' in
        rw (
          eq_false x a (λ e. a_once (rw (sym e) (mem-cons_of_mem b m))),
          eq_false x b (λ e. b_once (rw (sym e) m)),
        )

  plays :
      (pairs : List (Text × Text)) {x y : Text}
      → Memᴰ (x, y) pairs
      → Mem x (players pairs) × Mem y (players pairs)
  plays [] m = absurd (Memᴰ.not-nil m)
  plays ((a, b) ∷ pairs) {x} {y} m = elim (Memᴰ.cases_cons m) [
    | inl e ↦
        let ea : x ≡ a = ap (λ p. p.0) e in
        let eb : y ≡ b = ap (λ p. p.1) e in
        (rw ea mem-cons_self, rw eb (mem-cons_of_mem a mem-cons_self))
    | inr rest ↦
        let (p, q) = plays pairs rest in
        (mem-cons_of_mem a (mem-cons_of_mem b p), mem-cons_of_mem a (mem-cons_of_mem b q))
  ]

  -- In a round in which no host plays twice, the two hosts of a pair have one another as their only
  -- target, and a host that does not play has none.
  pub opponents_mutual :
      (pairs : List (Text × Text))
      → Nodup (players pairs)
      → {x y : Text} → Memᴰ (x, y) pairs
      → (opponents hosts x pairs ≡ target (rank y hosts, y) ∷ [])
        × (opponents hosts y pairs ≡ target (rank x hosts, x) ∷ [])
  opponents_mutual [] d m = absurd (Memᴰ.not-nil m)
  opponents_mutual ((a, b) ∷ pairs) d {x} {y} m = elim (Memᴰ.cases_cons m) [
    | inl e ↦
        let ea : x ≡ a = ap (λ p. p.0) e in
        let eb : y ≡ b = ap (λ p. p.1) e in rw (ea, eb) (front a b pairs d)
    | inr rest ↦
        let (p, q) = plays pairs rest in
        rw (behind a b pairs d x p, behind a b pairs d y q)
          (opponents_mutual pairs (Nodup-cons.0 (Nodup-cons.0 d).1).1 rest)
  ]
