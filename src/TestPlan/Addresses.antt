-- ===== src/TestPlan/Addresses.antt =====
-- `fill_resolved`: the addresses that the client puts into the assignments.
use mathlib.Core.Path.{ap₂}
use mathlib.Core.List.{Memᴰ}
use tperf.Common.{
  ℕ, ◌<◌, ◌≡◌, refl, sym, ap, ◌∙◌, map, All-mem, List, [], ◌∷◌, some, Text, length, get_elem?, All,
  get_elem?-lt,
}
use tperf.Proto.{Target, Assignment}
use tperf.TestPlan.{fill_targets, fill_resolved}

-- What `fill_resolved` leaves as it is.
abbrev pub label : Target → Text × ℕ
label t = (t.name, t.id)

abbrev pub labels : Assignment → Text × ℕ × List (Text × ℕ)
labels a = (a.self_name, a.self_id, map label a.targets)

module _ {Addr : Type 0} (to_string : Addr → Text) (resolved : List Addr) where
  -- `text` is the address of the host with this id.
  abbrev pub IsAddressOf : ℕ → Text → Type 0
  IsAddressOf id text = (a : Addr) × (get_elem? resolved id ≡ some a) × (text ≡ to_string a)

  abbrev pub IsFilled : Assignment → Type 0
  IsFilled a = IsAddressOf a.self_id a.bind × All (λ t. IsAddressOf t.id t.addr) a.targets

  -- All ids name resolved hosts.
  abbrev pub InRange : Assignment → Type 0
  InRange a = (a.self_id < length resolved) × All (λ t. t.id < length resolved) a.targets

  fill_targets-All :
      (ts : List Target)
      → All (λ t. t.id < length resolved) ts
      → (ts' : List Target) × (fill_targets to_string ts resolved ≡ some ts')
        × (map label ts' ≡ map label ts)
        × All (λ t. IsAddressOf t.id t.addr) ts'
  unfolding fill_targets
  fill_targets-All [] h = ([], refl, refl, tt)
  fill_targets-All (t ∷ ts) (h, hs) =
      let (a, e) = get_elem?-lt resolved t.id h in
      let (ts', e', same, f) = fill_targets-All ts hs in
      (
        record t { addr = to_string a } ∷ ts',
        rw (e, e'),
        ap (◌∷◌ (label t)) same,
        ((a, e, refl), f),
      )

  -- No index is out of bounds if all ids name resolved hosts. Every server is then told to bind,
  -- and every sender to dial, the address that was resolved for the host in question; names and ids
  -- stay.
  pub fill_resolved-IsFilled :
      (asg : List Assignment)
      → All InRange asg
      → (asg' : List Assignment) × (fill_resolved to_string asg resolved ≡ some asg')
        × (map labels asg' ≡ map labels asg)
        × All IsFilled asg'
  unfolding fill_resolved
  fill_resolved-IsFilled [] h = ([], refl, refl, tt)
  fill_resolved-IsFilled (x ∷ asg) ((own, ids), hs) =
      let (a, e) = get_elem?-lt resolved x.self_id own in
      let (ts', e', same, f) = fill_targets-All x.targets ids in
      let (asg', e'', sames, fs) = fill_resolved-IsFilled asg hs in
      (
        record x { bind = to_string a; targets = ts' } ∷ asg',
        rw (e, e', e''),
        ap₂ (λ ls rest. (x.self_name, x.self_id, ls) ∷ rest) same sames,
        (((a, e, refl), f), fs),
      )

  agree : (i j : ℕ) (u v : Text) → IsAddressOf i u → IsAddressOf j v → i ≡ j → u ≡ v
  agree i j u v (a, e, p) (b, e', q) h =
      let same : some a ≡ some b = sym e ∙ ap (get_elem? resolved) h ∙ e' in cc

  -- In the assignments that `fill_resolved` returns, each target's address is the one that the host
  -- of that id is told to bind, and it is the address that was resolved for that host. They are
  -- returned if all ids name resolved hosts.
  pub dial-bind :
      (asg : List Assignment)
      → All InRange asg
      → (asg' : List Assignment) × (fill_resolved to_string asg resolved ≡ some asg')
        × ((a b : Assignment) (t : Target)
            → Memᴰ a asg'
            → Memᴰ t a.targets
            → Memᴰ b asg'
            → t.id ≡ b.self_id
            → (t.addr ≡ b.bind) × IsAddressOf b.self_id b.bind)
  dial-bind asg h =
      let (asg', e, same, f) = fill_resolved-IsFilled asg h in
      (
        asg',
        e,
        λ a b t ma mt mb ids.
            let own = (All-mem _ asg' f mb).0 in
            (
              agree t.id b.self_id t.addr b.bind (All-mem _ a.targets (All-mem _ asg' f ma).1 mt)
                  own ids,
              own,
            ),
      )
