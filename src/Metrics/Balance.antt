-- ===== src/Metrics/Balance.antt =====
-- The total of a server against the statistics of its peers.
use tperf.Common.{
  ℕ, zero, suc, ◌+◌, ◌%◌, ◌<◌, ◌≡◌, refl, List, [], ◌∷◌, Option, none, some, arith, length,
  get_elem?, set, u64_mod, length-set, Option-cases, inl, inr, ap,
}
use tperf.Metrics.{AtomStats, Counters, add_sent, add_recv, add_drop, update, on_total, on_peer}

abbrev pub sum_of : (AtomStats → ℕ) → List AtomStats → ℕ
sum_of g [] = 0
sum_of g (s ∷ ps) = g s + sum_of g ps

sum_of-set :
    (g : AtomStats → ℕ) (ps : List AtomStats) (i : ℕ) {s : AtomStats} (s' : AtomStats)
    → get_elem? ps i ≡ some s
    → sum_of g (set ps i s') + g s ≡ sum_of g ps + g s'
sum_of-set g [] i s' e = ground arith
sum_of-set g (x ∷ ps) zero {s} s' e = let same : g x ≡ g s = ap g (ground arith) in omega arith
sum_of-set g (x ∷ ps) (suc i) s' e = omega (arith, sum_of-set g ps i s' e)

-- What was sent and what was lost is counted for a peer each time it is counted in total. (What
-- was received is not: a datagram of a stranger has no peer.)
pub record Balanced (c : Counters) : Type 0 where
  pub sent : c.total.bytes_sent ≡ sum_of (λ s. s.bytes_sent) c.peers % u64_mod
  pub packets : c.total.packets_sent ≡ sum_of (λ s. s.packets_sent) c.peers % u64_mod
  pub dropped : c.total.packets_dropped ≡ sum_of (λ s. s.packets_dropped) c.peers % u64_mod

pub update-some :
    (f : AtomStats → AtomStats) (ps : List AtomStats) (i : ℕ) {s : AtomStats}
    → get_elem? ps i ≡ some s
    → update ps i f ≡ set ps i (f s)
update-some f ps i e = ground arith

update-none :
    (f : AtomStats → AtomStats) (ps : List AtomStats) (i : ℕ)
    → get_elem? ps i ≡ none
    → update ps i f ≡ ps
update-none f ps i e = ground arith

sum_of-update :
    (g : AtomStats → ℕ) (f : AtomStats → AtomStats) (ps : List AtomStats) (i : ℕ) {s : AtomStats}
    → get_elem? ps i ≡ some s
    → sum_of g (update ps i f) + g s ≡ sum_of g ps + g (f s)
sum_of-update g f ps i {s} e = rw (update-some f ps i e) (sum_of-set g ps i (f s) e)

pub length-update :
    (f : AtomStats → AtomStats) (ps : List AtomStats) (i : ℕ) → length (update ps i f) ≡ length ps
length-update f ps i = elim (Option-cases (get_elem? ps i)) [
  | inl e ↦ rw (update-none f ps i e)
  | inr (s, e) ↦ rw (update-some f ps i e) (length-set ps i (f s))
]

-- A sum that follows the total.
abbrev Follows : (AtomStats → ℕ) → Counters → Type 0
Follows g c = g c.total ≡ sum_of g c.peers % u64_mod

-- An update that adds the same number to a field of the total and of one peer.
follow :
    (g : AtomStats → ℕ) (f : AtomStats → AtomStats) (n : ℕ) (c : Counters) (i : ℕ) {s : AtomStats}
    → ((t : AtomStats) → g (f t) % u64_mod ≡ (g t + n) % u64_mod)
    → g (f c.total) < u64_mod
    → get_elem? c.peers i ≡ some s
    → Follows g c
    → Follows g (on_peer (some i) f (on_total f c))
unfolding on_peer on_total
follow g f n c i {s} adds fits e h =
    omega (arith, sum_of-update g f c.peers i e, adds c.total, adds s)

module _ (c : Counters) (i : ℕ) {s : AtomStats} (at : get_elem? c.peers i ≡ some s)
    (b : Balanced c) where
  pub add_sent-Balanced :
      (n k : ℕ) → Balanced (on_peer (some i) (add_sent n k) (on_total (add_sent n k) c))
  unfolding add_sent
  add_sent-Balanced n k = record {
    sent =
        follow (λ t. t.bytes_sent) (add_sent n k) n c i (λ t. ground arith) (ground (arith, b.sent))
          at b.sent;
    packets =
        follow (λ t. t.packets_sent) (add_sent n k) k c i (λ t. ground arith)
          (ground (arith, b.packets)) at b.packets;
    dropped =
        follow (λ t. t.packets_dropped) (add_sent n k) 0 c i (λ t. omega arith)
          (omega (arith, b.dropped)) at b.dropped;
  }

  pub add_drop-Balanced :
      (n : ℕ) → Balanced (on_peer (some i) (add_drop n) (on_total (add_drop n) c))
  unfolding add_drop
  add_drop-Balanced n = record {
    sent =
        follow (λ t. t.bytes_sent) (add_drop n) 0 c i (λ t. omega arith) (omega (arith, b.sent)) at
          b.sent;
    packets =
        follow (λ t. t.packets_sent) (add_drop n) 0 c i (λ t. omega arith)
          (omega (arith, b.packets)) at b.packets;
    dropped =
        follow (λ t. t.packets_dropped) (add_drop n) n c i (λ t. ground arith)
          (ground (arith, b.dropped)) at b.dropped;
  }

module _ (c : Counters) (b : Balanced c) (n k : ℕ) where
  pub total_recv-Balanced : Balanced (on_total (add_recv n k) c)
  unfolding on_total add_recv
  total_recv-Balanced = record { sent = b.sent; packets = b.packets; dropped = b.dropped }

  recv_sum :
      (g : AtomStats → ℕ) (i : ℕ)
      → ((t : AtomStats) → g (add_recv n k t) ≡ g t)
      → sum_of g (update c.peers i (add_recv n k)) ≡ sum_of g c.peers
  recv_sum g i same = elim (Option-cases (get_elem? c.peers i)) [
    | inl e ↦ rw (update-none (add_recv n k) c.peers i e)
    | inr (s, e) ↦ omega (arith, sum_of-update g (add_recv n k) c.peers i e, same s)
  ]

  -- What a peer receives changes none of the sums.
  pub peer_recv-Balanced : (handle : Option ℕ) → Balanced (on_peer handle (add_recv n k) c)
  unfolding on_peer add_recv
  peer_recv-Balanced none = b
  peer_recv-Balanced (some i) = record {
    sent = omega (arith, b.sent, recv_sum (λ t. t.bytes_sent) i (λ t. refl));
    packets = omega (arith, b.packets, recv_sum (λ t. t.packets_sent) i (λ t. refl));
    dropped = omega (arith, b.dropped, recv_sum (λ t. t.packets_dropped) i (λ t. refl));
  }
