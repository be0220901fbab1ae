-- ===== src/Metrics/Peers.antt =====
-- The peers of a window.
use tperf.Common.{
  ℕ, ◌+◌, ◌≤◌, List, [], ◌∷◌, true, false, ◌≡◌, arith, Text, length, Bool-cases, inl, inr, All,
}
use tperf.Proto.{PeerMetrics}
use tperf.Metrics.{Snap}
use tperf.Metrics.Window.{is_active, peer_metrics}

abbrev pub sum_by {ℓ} : {A : Type ℓ} → (A → ℕ) → List A → ℕ
sum_by f [] = 0
sum_by f (x ∷ xs) = f x + sum_by f xs

-- The five counts of the peers add up to those of the snapshots.
abbrev pub SameSums : List PeerMetrics → List Snap → Type 0
SameSums peers snaps =
    (sum_by PeerMetrics.bytes_sent peers ≡ sum_by Snap.bytes_sent snaps)
    × (sum_by PeerMetrics.bytes_recv peers ≡ sum_by Snap.bytes_recv snaps)
    × (sum_by PeerMetrics.packets_sent peers ≡ sum_by Snap.packets_sent snaps)
    × (sum_by PeerMetrics.packets_recv peers ≡ sum_by Snap.packets_recv snaps)
    × (sum_by PeerMetrics.packets_dropped peers ≡ sum_by Snap.packets_dropped snaps)

abbrev pub IsShown : PeerMetrics → Type 0
IsShown p = 1 ≤ p.bytes_sent + p.bytes_recv + p.packets_sent + p.packets_recv + p.packets_dropped

active :
    (s : Snap)
    → is_active s ≡ true
    → 1 ≤ s.bytes_sent + s.bytes_recv + s.packets_sent + s.packets_recv + s.packets_dropped
unfolding is_active
active s h = ground arith

idle :
    (s : Snap)
    → is_active s ≡ false
    → s.bytes_sent + s.bytes_recv + s.packets_sent + s.packets_recv + s.packets_dropped ≡ 0
unfolding is_active
idle s h = ground arith

-- A window leaves nothing out that a peer counted, and lists no peer that counted nothing, where
-- there is a name for each snapshot.
pub peer_metrics-SameSums :
    (names : List Text) (snaps : List Snap)
    → length snaps ≤ length names
    → SameSums (peer_metrics names snaps) snaps × All IsShown (peer_metrics names snaps)
unfolding peer_metrics
peer_metrics-SameSums [] [] h = ground arith
peer_metrics-SameSums [] (s ∷ snaps) h = absurd (omega arith)
peer_metrics-SameSums (n ∷ names) [] h = ground arith
peer_metrics-SameSums (n ∷ names) (s ∷ snaps) h =
    let (sums, shown) = peer_metrics-SameSums names snaps (omega arith) in
    elim (Bool-cases (is_active s)) [
      | inl t ↦
          let one : 1
              ≤ s.bytes_sent + s.bytes_recv + s.packets_sent + s.packets_recv + s.packets_dropped =
            active s t in
          rw (t, peer_metrics) (ground arith, (one, shown))
      | inr f ↦ let zero' = idle s f in rw (f, peer_metrics) (ground arith, shown)
    ]
