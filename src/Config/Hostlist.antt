-- ===== src/Config/Hostlist.antt =====
-- The hosts of an expanded list: all expansions in order, and no host twice.
use tperf.Common.{
  ℕ, ◌∷◌, [], List, true, false, ◌++◌, Text, ◌≡◌, ◌≢◌, refl, sym, ap, ◌∙◌, subst, arith, text_eq,
  text_eq_refl, ok, Bool-cases, Result-cases, inl, inr, append_assoc, append-nil,
}
use mathlib.Core.HLevel.{⊥_prop}
use mathlib.Core.Logic.Or
use mathlib.Core.List.{
  Nodup, Nodup-nil, Nodup-concat, concat, Mem, mem-append, not-mem-nil, mem-cons,
}
use tperf.Config.Hosts.{has, add_hosts, expand_items, expand_hostlist, extend_all, expand_pattern}

-- What `seen` misses is not among the hosts.
abbrev Covers : List Text → List Text → Type 0
Covers seen out = (h : Text) → has seen h ≡ false → ¬ (Mem h out)

true_ne_false : true ≢ false
true_ne_false e = ground arith

Covers-snoc :
    (seen out : List Text) (x : Text) → Covers seen out → Covers (x ∷ seen) (out ++ x ∷ [])
unfolding has
Covers-snoc seen out x c h e m =
    let other : has seen h ≡ false = ground arith in
    let apart : text_eq x h ≡ false = ground arith in
    Or.elim ⊥_prop (mem-append.0 m) (c h other) (λ k.
      Or.elim ⊥_prop (mem-cons.0 k)
        (λ q. true_ne_false (sym (text_eq_refl x) ∙ ap (text_eq x) (sym q) ∙ apart)) not-mem-nil)

snoc-concat : (out : List Text) (x : Text) → concat out x ≡ out ++ x ∷ []
unfolding concat
snoc-concat [] x = refl
snoc-concat (y ∷ out) x = ap (◌∷◌ y) (snoc-concat out x)

add_hosts_sound :
    (seen out hs seen' out' : List Text)
    → Covers seen out
    → Nodup out
    → add_hosts seen out hs ≡ ok (seen', out')
    → Covers seen' out' × Nodup out' × (out' ≡ out ++ hs)
unfolding add_hosts
add_hosts_sound seen out [] seen' out' c d e =
    let p : seen ≡ seen' = ground arith in
    let q : out ≡ out' = ground arith in
    (
      subst (λ o. Covers seen' o) q (subst (λ s. Covers s out) p c),
      subst Nodup q d,
      sym q ∙ sym (append-nil out),
    )
add_hosts_sound seen out (h ∷ hs) seen' out' c d e = elim (Bool-cases (has seen h)) [
  | inl t ↦ absurd (ground arith)
  | inr f ↦
      let e' : add_hosts (h ∷ seen) (out ++ h ∷ []) hs ≡ ok (seen', out') = ground arith in
      let d' = subst Nodup (snoc-concat out h) ((Nodup-concat out h).1 (c h f, d)) in
      let (c2, d2, q) =
        add_hosts_sound (h ∷ seen) (out ++ h ∷ []) hs seen' out' (Covers-snoc seen out h c) d' e' in
      (c2, d2, q ∙ append_assoc out (h ∷ []) hs)
]

expand_items_sound :
    (room : ℕ) (seen out items hosts : List Text)
    → Covers seen out
    → Nodup out
    → expand_items room seen out items ≡ ok hosts
    → Nodup hosts
      × (added : List Text) × (hosts ≡ out ++ added)
      × (extend_all (expand_pattern room) items ≡ ok added)
unfolding expand_items extend_all
expand_items_sound room seen out [] hosts c d e =
    let q : out ≡ hosts = ground arith in (subst Nodup q d, [], sym q ∙ sym (append-nil out), refl)
expand_items_sound room seen out (item ∷ items) hosts c d e =
    elim (Result-cases (expand_pattern room item)) [
      | inr (x, q) ↦ absurd (ground arith)
      | inl (hs, q) ↦ elim (Result-cases (add_hosts seen out hs)) [
        | inr (x, r) ↦ absurd (ground arith)
        | inl ((seen', out'), r) ↦
            let (c', d', p) = add_hosts_sound seen out hs seen' out' c d r in
            let e' : expand_items room seen' out' items ≡ ok hosts = ground arith in
            let (d2, added, w, all) = expand_items_sound room seen' out' items hosts c' d' e' in
            (d2, hs ++ added, w ∙ ap (λ o. o ++ added) p ∙ append_assoc out hs added, ground arith)
      ]
    ]

-- The host list that the expansion accepts holds each host once, and is that of all the items'
-- expansions one behind the other.
pub expand_hostlist_sound :
    (room : ℕ) (items hosts : List Text)
    → expand_hostlist room items ≡ ok hosts
    → Nodup hosts × (extend_all (expand_pattern room) items ≡ ok hosts)
unfolding expand_hostlist
expand_hostlist_sound room items hosts e =
    let (d, added, p, q) =
      expand_items_sound room [] [] items hosts (λ h f. not-mem-nil) Nodup-nil e in
    (d, q ∙ ap ok (sym p))
