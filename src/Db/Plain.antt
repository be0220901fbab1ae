-- ===== src/Db/Plain.antt =====
-- A codec that keeps the promise of serde_json: numbers as they are, and a name behind its length.
use tperf.Common.{
  ℕ, zero, suc, List, [], ◌∷◌, ◌++◌, Option, none, some, ◌≡◌, refl, sym, ap, ◌∙◌, Text, length,
  take, drop, take_prefix, drop_prefix,
}
use tperf.Proto.{PeerMetrics}
use tperf.Db.{Json}
use mathlib.Core.Option.{some-injective}
use tperf.Analyze.Rows.{IsFaithful}

abbrev counts_of : PeerMetrics → Text → Text
counts_of p rest =
    p.bytes_sent ∷ p.bytes_recv ∷ p.packets_sent ∷ p.packets_recv ∷ p.packets_dropped ∷ rest

abbrev write_peers : List PeerMetrics → Text
write_peers [] = []
write_peers (p ∷ ps) = length p.peer ∷ (p.peer ++ counts_of p (write_peers ps))

abbrev named : Text → Text → Option (PeerMetrics × Text)
named name (a ∷ b ∷ c ∷ d ∷ e ∷ rest) = some (
  record {
    peer = name;
    bytes_sent = a;
    bytes_recv = b;
    packets_sent = c;
    packets_recv = d;
    packets_dropped = e;
  },
  rest,
)
named name other = none

abbrev read_peers : ℕ → Text → Option (List PeerMetrics)
read_peers zero s = some []
read_peers (suc k) [] = none
read_peers (suc k) (n ∷ s) = elim (named (take n s) (drop n s)) [
  | none ↦ none
  | some (p, rest) ↦ elim (read_peers k rest) [ none ↦ none | some ps ↦ some (p ∷ ps) ]
]

abbrev read_counted : Text → Option (List PeerMetrics)
read_counted [] = none
read_counted (k ∷ s) = read_peers k s

read_step :
    (k n : ℕ) (s : Text) (p : PeerMetrics) (rest : Text) (ps : List PeerMetrics)
    → named (take n s) (drop n s) ≡ some (p, rest)
    → read_peers k rest ≡ some ps
    → read_peers (suc k) (n ∷ s) ≡ some (p ∷ ps)
read_step k n s p rest ps e q = rw (e, read_peers) (rw (q, read_peers) refl)

read_peers-write_peers : (ps : List PeerMetrics) → read_peers (length ps) (write_peers ps) ≡ some ps
read_peers-write_peers [] = refl
read_peers-write_peers (p ∷ ps) =
    let rest = counts_of p (write_peers ps) in
    let name = take_prefix (length p.peer) p.peer rest refl in
    let after = drop_prefix (length p.peer) p.peer rest refl in
    read_step (length ps) (length p.peer) (p.peer ++ rest) p (write_peers ps) ps
      (ap (λ n. named n (drop (length p.peer) (p.peer ++ rest))) name ∙ ap (named p.peer) after)
      (read_peers-write_peers ps)

abbrev pub plain : Json
plain = record {
  config_to = λ cfg. some [];
  hosts_to = λ hosts. some [];
  hosts_from = λ s. some [];
  peers_to = λ ps. some (length ps ∷ write_peers ps);
  peers_from = read_counted;
}

pub plain-IsFaithful : IsFaithful plain
plain-IsFaithful peers text e =
    let written : length peers ∷ write_peers peers ≡ text = some-injective _ _ e in
    ap read_counted (sym written) ∙ read_peers-write_peers peers
