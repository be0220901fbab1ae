-- ===== src/Dataplane/SenderCounts.antt =====
-- The senders among the tasks of a test over TCP, counted by the hosts that they count for.
use tperf.Common.{
  ℕ, zero, suc, ◌+◌, ◌%◌, ◌≤◌, ◌<◌, ◌∷◌, [], ◌++◌, List, Bool, false, Option, none, some, Text,
  if◌then◌else◌, map, replicate, length, length-append, ◌≡◌, refl, sym, ap, ◌∙◌, arith, ◌==◌, ltb,
  leb, ◌&&◌, enumerate, u32_mod, append_assoc,
}
use mathlib.Core.List.{map-append}
use mathlib.Core.Path.{ap₂}
use tperf.NetUtil.{IpAddrs}
use tperf.Proto.{Target}
use tperf.Metrics.{Counters, peer}
use tperf.TestPlan.{target}
use tperf.TestPlan.Addresses.{label}
use tperf.Dataplane.Spawn.{
  Task, accept_task, tcp_send_task, udp_recv_task, udp_send_task, tcp_send_tasks,
}

module _ (std : IpAddrs) where
  -- Is the task a sender that counts for this peer?
  abbrev pub sends_to : ℕ → Task std → Bool
  sends_to j (tcp_send_task name addr (some i)) = i == j
  sends_to j (tcp_send_task name addr none) = false
  sends_to j accept_task = false
  sends_to j (udp_recv_task n i) = false
  sends_to j (udp_send_task dest id self_id handle) = false

  abbrev pub senders_to : ℕ → List (Task std) → ℕ
  senders_to j [] = 0
  senders_to j (t ∷ ts) = if sends_to j t then suc (senders_to j ts) else senders_to j ts

  senders_to-append :
      (j : ℕ) (xs ys : List (Task std))
      → senders_to j (xs ++ ys) ≡ senders_to j xs + senders_to j ys
  senders_to-append j [] ys = omega arith
  senders_to-append j (x ∷ xs) ys = ground (arith, senders_to-append j xs ys)

  senders_to-replicate :
      (j n : ℕ) (t : Task std) → senders_to j (replicate n t) ≡ (if sends_to j t then n else 0)
  senders_to-replicate j zero t = ground arith
  senders_to-replicate j (suc n) t = ground (arith, senders_to-replicate j n t)

  -- A run of targets with ids that follow one another has one target for each id.
  in_run : ℕ → ℕ → List Text → ℕ → ℕ
  in_run j s xs workers = if leb s j && ltb j (s + length xs) then workers else 0

  peer-in_range :
      (c : Counters) (s : ℕ) → s < length c.peers → s < u32_mod → peer c (s % u32_mod) ≡ some s
  unfolding peer
  peer-in_range c s h k = let same : s % u32_mod ≡ s = omega arith in rw same (ground arith)

  tcp_send_tasks-append :
      (c : Counters) (workers : ℕ) (ts us : List Target)
      → tcp_send_tasks std c workers (ts ++ us)
        ≡ tcp_send_tasks std c workers ts ++ tcp_send_tasks std c workers us
  unfolding tcp_send_tasks
  tcp_send_tasks-append c workers [] us = refl
  tcp_send_tasks-append c workers (t ∷ ts) us =
      let here = replicate workers (tcp_send_task t.name t.addr (peer c t.id)) in
      ap (λ r. here ++ r) (tcp_send_tasks-append c workers ts us)
      ∙ sym (append_assoc here (tcp_send_tasks std c workers ts) (tcp_send_tasks std c workers us))

  one_target :
      (j : ℕ) (c : Counters) (workers s : ℕ) (x : Text) (ts : List Target)
      → s < length c.peers
      → s < u32_mod
      → senders_to j (tcp_send_tasks std c workers (target (s, x) ∷ ts))
        ≡ (if s == j then workers else 0) + senders_to j (tcp_send_tasks std c workers ts)
  unfolding tcp_send_tasks
  one_target j c workers s x ts h k =
      senders_to-append j (replicate workers (tcp_send_task x [] (peer c (s % u32_mod))))
        (tcp_send_tasks std c workers ts)
      ∙ ap (λ n. n + senders_to j (tcp_send_tasks std c workers ts))
          (senders_to-replicate j workers (tcp_send_task x [] (peer c (s % u32_mod)))
            ∙ ap (λ r. if sends_to j (tcp_send_task x [] r) then workers else 0)
                (peer-in_range c s h k))

  senders_to-run :
      (j : ℕ) (c : Counters) (workers s : ℕ) (xs : List Text)
      → s + length xs ≤ length c.peers
      → s + length xs ≤ u32_mod
      → senders_to j (tcp_send_tasks std c workers (map target (enumerate s xs)))
        ≡ in_run j s xs workers
  unfolding in_run tcp_send_tasks
  senders_to-run j c workers s [] h k = ground arith
  senders_to-run j c workers s (x ∷ xs) h k =
      let first =
        one_target j c workers s x (map target (enumerate (suc s) xs)) (omega arith)
          (omega arith) in
      let later = senders_to-run j c workers (suc s) xs (omega arith) (omega arith) in
      first ∙ ap (λ n. (if s == j then workers else 0) + n) later ∙ ground arith

  pub mesh_senders :
      (j : ℕ) (c : Counters) (workers : ℕ) (pre post : List Text) (x : Text)
      → length c.peers ≡ length (pre ++ x ∷ post)
      → length (pre ++ x ∷ post) ≤ u32_mod
      → j < length (pre ++ x ∷ post)
      → senders_to j (
          tcp_send_tasks std c workers
            (map target (enumerate 0 pre ++ enumerate (suc (length pre)) post)))
        ≡ (if j == length pre then 0 else workers)
  unfolding in_run
  mesh_senders j c workers pre post x h k l =
      let size = length-append pre (x ∷ post) in
      let before = senders_to-run j c workers 0 pre (omega arith) (omega arith) in
      let behind = senders_to-run j c workers (suc (length pre)) post (omega arith) (omega arith) in
      ap (λ ts. senders_to j (tcp_send_tasks std c workers ts))
        (map-append target (enumerate 0 pre) (enumerate (suc (length pre)) post))
      ∙ ap (senders_to j) (
          tcp_send_tasks-append c workers (map target (enumerate 0 pre))
            (map target (enumerate (suc (length pre)) post)))
      ∙ senders_to-append j (tcp_send_tasks std c workers (map target (enumerate 0 pre)))
          (tcp_send_tasks std c workers (map target (enumerate (suc (length pre)) post)))
      ∙ ap
          (λ n.
            n
            + senders_to j
                (tcp_send_tasks std c workers (map target (enumerate (suc (length pre)) post))))
          before
      ∙ ap (λ n. in_run j 0 pre workers + n) behind
      ∙ ground arith

  -- The number of senders depends on the ids of the targets, not on their addresses.
  pub senders_by : ℕ → Counters → ℕ → List (Text × ℕ) → ℕ
  senders_by j c workers [] = 0
  senders_by j c workers ((name, id) ∷ ls) =
      (if sends_to j (tcp_send_task name [] (peer c id)) then workers else 0)
      + senders_by j c workers ls

  any_address :
      (j : ℕ) (name u v : Text) (h : Option ℕ)
      → sends_to j (tcp_send_task name u h) ≡ sends_to j (tcp_send_task name v h)
  any_address j name u v none = refl
  any_address j name u v (some i) = refl

  pub senders_to-senders_by :
      (j : ℕ) (c : Counters) (workers : ℕ) (ts : List Target)
      → senders_to j (tcp_send_tasks std c workers ts) ≡ senders_by j c workers (map label ts)
  unfolding tcp_send_tasks senders_by
  senders_to-senders_by j c workers [] = refl
  senders_to-senders_by j c workers (t ∷ ts) =
      let task = tcp_send_task t.name t.addr (peer c t.id) in
      senders_to-append j (replicate workers task) (tcp_send_tasks std c workers ts)
      ∙ ap₂ (λ m n. m + n)
          (senders_to-replicate j workers task
            ∙ ap (λ b. if b then workers else 0) (any_address j t.name t.addr [] (peer c t.id)))
          (senders_to-senders_by j c workers ts)
