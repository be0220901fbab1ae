-- ===== src/TestPlan/MeshRows.antt =====
-- `fill_resolved` on the assignments of `assignments_mesh`: what the host at a position is sent.
use mathlib.Core.Option.{some-injective}
use tperf.Common.{
  ℕ, zero, suc, ◌+◌, ◌≤◌, ◌<◌, ◌≡◌, sym, ap, ◌∙◌, subst, List, [], ◌∷◌, ◌++◌, map, some, Bool, Text,
  arith, not, length, get_elem?, enumerate, keep, ◌==◌, All, Bool-cases, inl, inr,
}
use tperf.Proto.{Target, Assignment}
use tperf.TestPlan.{target, assignment, assignments_mesh, fill_resolved}
use tperf.TestPlan.Mesh.{mesh_targets}
use tperf.TestPlan.Addresses.{label, labels, IsAddressOf, IsFilled, InRange, fill_resolved-IsFilled}

All_at {ℓ κ} :
    {A : Type ℓ} (P : A → Type κ) (xs : List A) (i : ℕ) {x : A}
    → All P xs
    → get_elem? xs i ≡ some x
    → P x
All_at P [] i h e = absurd (ground arith)
All_at P (y ∷ xs) zero (p, h) e = subst P (some-injective _ _ e) p
All_at P (y ∷ xs) (suc i) (p, h) e = All_at P xs i h e

get_elem?-map {ℓ κ} :
    {A : Type ℓ} {B : Type κ} (f : A → B) (xs : List A) (i : ℕ) {x : A}
    → get_elem? xs i ≡ some x
    → get_elem? (map f xs) i ≡ some (f x)
get_elem?-map f [] i e = absurd (ground arith)
get_elem?-map f (y ∷ xs) zero e = ap some (ap f (some-injective _ _ e))
get_elem?-map f (y ∷ xs) (suc i) e = get_elem?-map f xs i e

module _ {Addr : Type 0} (to_string : Addr → Text) (resolved : List Addr) where
  targets-InRange :
      (p : ℕ × Text → Bool) (i : ℕ) (hosts : List Text)
      → i + length hosts ≤ length resolved
      → All (λ t. t.id < length resolved) (map target (keep p (enumerate i hosts)))
  targets-InRange p i [] h = tt
  targets-InRange p i (x ∷ hosts) h =
      let rest = targets-InRange p (suc i) hosts (omega arith) in
      elim (Bool-cases (p (i, x))) [ inl t ↦ rw t (omega arith, rest) | inr f ↦ rw f rest ]

  rows-InRange :
      (f : ℕ × Text → List Target) (i : ℕ) (hosts : List Text)
      → i + length hosts ≤ length resolved
      → ((q : ℕ × Text) → All (λ t. t.id < length resolved) (f q))
      → All (InRange to_string resolved) (map (λ q. assignment q (f q)) (enumerate i hosts))
  rows-InRange f i [] h k = tt
  rows-InRange f i (x ∷ hosts) h k =
      ((omega arith, k (i, x)), rows-InRange f (suc i) hosts (omega arith) k)

  mesh-InRange :
      (hosts : List Text)
      → length hosts ≤ length resolved
      → All (InRange to_string resolved) (assignments_mesh hosts)
  unfolding assignments_mesh
  mesh-InRange hosts h =
      rows-InRange (λ q. map target (keep (λ r. not (r.0 == q.0)) (enumerate 0 hosts))) 0 hosts
        (omega arith) (λ q. targets-InRange (λ r. not (r.0 == q.0)) 0 hosts (omega arith))

  -- The host at a position is given all others, by name and id, each with its resolved address.
  pub mesh_row :
      (hosts pre post : List Text) (x : Text) (asg' : List Assignment) (a : Assignment)
      → hosts ≡ pre ++ x ∷ post
      → length resolved ≡ length hosts
      → fill_resolved to_string (assignments_mesh hosts) resolved ≡ some asg'
      → get_elem? asg' (length pre) ≡ some a
      → (map label a.targets
          ≡ map label (map target (enumerate 0 pre ++ enumerate (suc (length pre)) post)))
        × All (λ t. IsAddressOf to_string resolved t.id t.addr) a.targets
  mesh_row hosts pre post x asg' a split each fill at =
      let (filled, e, same, all) =
        fill_resolved-IsFilled to_string resolved (assignments_mesh hosts)
          (mesh-InRange hosts (omega arith)) in
      let given : filled ≡ asg' = some-injective _ _ (sym e ∙ fill) in
      let here = get_elem?-map labels asg' (length pre) at in
      let there =
        get_elem?-map labels (assignments_mesh hosts) (length pre) (
          ap (λ hs. get_elem? (assignments_mesh hs) (length pre)) split
          ∙ mesh_targets pre post x) in
      let row = some-injective _ _ (
        sym here
        ∙ ap (λ ls. get_elem? ls (length pre)) (ap (map labels) (sym given) ∙ same)
        ∙ there) in
      (
        ap (λ l. l.2) row,
        (All_at (IsFilled to_string resolved) asg' (length pre)
            (subst (All (IsFilled to_string resolved)) given all) at).1,
      )
