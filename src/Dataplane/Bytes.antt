-- ===== src/Dataplane/Bytes.antt =====
-- Big-endian integers: their bytes, and back.
use native.Mathlib.Nat.{pow-suc}
use tperf.Common.{
  ℕ, zero, suc, ◌+◌, ◌*◌, ◌/◌, ◌%◌, ◌^◌, ◌<◌, ◌≡◌, refl, ap, ◌∙◌, List, [], ◌∷◌, ◌++◌, arith,
  length, length-append, All, All-append_left, All-append_right, split_last, subst,
}
use tperf.Dataplane.{to_be_bytes, from_be_bytes}

pub length-to_be_bytes : (k n : ℕ) → length (to_be_bytes k n) ≡ k
unfolding to_be_bytes
length-to_be_bytes zero n = refl
length-to_be_bytes (suc k) n = omega (
  arith,
  length-append (to_be_bytes k (n / 256)) ((n % 256) ∷ []),
  length-to_be_bytes k (n / 256),
)

from_be_bytes-append :
    (acc : ℕ) (xs ys : List ℕ)
    → from_be_bytes acc (xs ++ ys) ≡ from_be_bytes (from_be_bytes acc xs) ys
unfolding from_be_bytes
from_be_bytes-append acc [] ys = refl
from_be_bytes-append acc (x ∷ xs) ys = from_be_bytes-append (acc * 256 + x) xs ys

pub from-to : (k n : ℕ) → n < 256 ^ k → from_be_bytes 0 (to_be_bytes k n) ≡ n
unfolding to_be_bytes from_be_bytes
from-to zero n h = omega arith
from-to (suc k) n h =
    from_be_bytes-append 0 (to_be_bytes k (n / 256)) ((n % 256) ∷ [])
    ∙ ap (λ (m : ℕ). m * 256 + n % 256) (from-to k (n / 256) (omega (arith, pow-suc 256 k)))
    ∙ omega arith

last_byte :
    (k : ℕ) (ys : List ℕ) (l : ℕ)
    → l < 256
    → to_be_bytes k (from_be_bytes 0 ys) ≡ ys
    → to_be_bytes (suc k) (from_be_bytes 0 (ys ++ l ∷ [])) ≡ ys ++ l ∷ []
unfolding to_be_bytes from_be_bytes
last_byte k ys l h ih =
    let whole = from_be_bytes-append 0 ys (l ∷ []) in
    let high : from_be_bytes 0 (ys ++ l ∷ []) / 256 ≡ from_be_bytes 0 ys = omega (arith, whole) in
    let low : from_be_bytes 0 (ys ++ l ∷ []) % 256 ≡ l = omega (arith, whole) in rw (high, low, ih)

-- Reading `k` bytes and writing them again gives them back.
pub to-from :
    (k : ℕ) (bs : List ℕ)
    → length bs ≡ k
    → All (λ b. b < 256) bs
    → to_be_bytes k (from_be_bytes 0 bs) ≡ bs
to-from zero [] e h = unfold to_be_bytes in refl
to-from zero (b ∷ bs) e h = absurd (omega arith)
to-from (suc k) [] e h = absurd (omega arith)
to-from (suc k) (b ∷ bs) e h =
    let (ys, l, q) = split_last b bs in
    let ks : length ys ≡ k = omega (arith, ap length q, length-append ys (l ∷ [])) in
    let hs : All (λ c. c < 256) (ys ++ l ∷ []) = subst (All (λ c. c < 256)) q h in
    rw q (
      last_byte k ys l (All-append_right _ ys (l ∷ []) hs).0
        (to-from k ys ks (All-append_left _ ys (l ∷ []) hs)))
