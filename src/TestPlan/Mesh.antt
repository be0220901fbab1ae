-- ===== src/TestPlan/Mesh.antt =====
-- `assignments_mesh`: every host sends to every other.
use tperf.Common.{
  ℕ, suc, ◌+◌, ◌%◌, ◌≤◌, ◌<◌, ◌≡◌, refl, ap, ◌∙◌, List, [], ◌∷◌, ◌++◌, map, some, Text, arith, not,
  length, get_elem?, enumerate, keep, ◌==◌, u32_mod, Bool,
}
use tperf.TestPlan.{target, assignment, assignments_mesh}

enumerate-append {ℓ} :
    {A : Type ℓ} (s : ℕ) (xs ys : List A)
    → enumerate s (xs ++ ys) ≡ enumerate s xs ++ enumerate (s + length xs) ys
enumerate-append s [] ys = let e : s + 0 ≡ s = omega arith in rw e
enumerate-append s (x ∷ xs) ys =
    let e : s + suc (length xs) ≡ suc s + length xs = omega arith in
    rw (enumerate-append (suc s) xs ys, e)

abbrev others : ℕ → ℕ × Text → Bool
others i q = not (q.0 == i)

keep-append {ℓ} :
    {A : Type ℓ} (p : A → Bool) (xs ys : List A) → keep p (xs ++ ys) ≡ keep p xs ++ keep p ys
keep-append p [] ys = refl
keep-append p (x ∷ xs) ys = ground (arith, keep-append p xs ys)

keep_before :
    (i s : ℕ) (xs : List Text)
    → s + length xs ≤ i
    → keep (others i) (enumerate s xs) ≡ enumerate s xs
keep_before i s [] h = refl
keep_before i s (x ∷ xs) h = ground (arith, keep_before i (suc s) xs (omega arith))

keep_after : (i s : ℕ) (xs : List Text) → i < s → keep (others i) (enumerate s xs) ≡ enumerate s xs
keep_after i s [] h = refl
keep_after i s (x ∷ xs) h = ground (arith, keep_after i (suc s) xs (omega arith))

get_elem?-enumerate {ℓ κ} :
    {A : Type ℓ} {B : Type κ} (f : ℕ × A → B) (s : ℕ) (xs ys : List A) (x : A)
    → get_elem? (map f (enumerate s (xs ++ x ∷ ys))) (length xs) ≡ some (f (s + length xs, x))
get_elem?-enumerate f s [] ys x = let e : s + 0 ≡ s = omega arith in rw e
get_elem?-enumerate f s (z ∷ xs) ys x =
    let e : s + suc (length xs) ≡ suc s + length xs = omega arith in
    rw e (get_elem?-enumerate f (suc s) xs ys x)

keep-others :
    (pre post : List Text) (x : Text)
    → keep (others (length pre)) (enumerate 0 (pre ++ x ∷ post))
      ≡ enumerate 0 pre ++ enumerate (suc (length pre)) post
keep-others pre post x =
    rw
      (
        enumerate-append 0 pre (x ∷ post),
        keep-append (others (length pre)) (enumerate 0 pre) (enumerate (0 + length pre) (x ∷ post)),
        keep_before (length pre) 0 pre (omega arith),
      )
      (ground (arith, keep_after (length pre) (suc (0 + length pre)) post (omega arith)))

-- The host at a position is told to send to all hosts before it and all behind it, in order, each
-- under its own position, and not to itself.
pub mesh_targets :
    (pre post : List Text) (x : Text)
    → get_elem? (assignments_mesh (pre ++ x ∷ post)) (length pre)
      ≡ some (record {
        self_name = x;
        self_id = length pre % u32_mod;
        bind = [];
        targets = map target (enumerate 0 pre ++ enumerate (suc (length pre)) post);
      })
unfolding assignments_mesh
mesh_targets pre post x =
    get_elem?-enumerate
      (λ p. assignment p (map target (keep (others p.0) (enumerate 0 (pre ++ x ∷ post))))) 0 pre
      post x
    ∙ ap
        (λ (i : ℕ).
          some (assignment (i, x) (map target (keep (others i) (enumerate 0 (pre ++ x ∷ post))))))
        (omega arith)
    ∙ ap (λ ts. some (assignment (length pre, x) (map target ts))) (keep-others pre post x)
