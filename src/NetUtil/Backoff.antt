-- ===== src/NetUtil/Backoff.antt =====
-- The end of resolving and connecting.
use tperf.Common.{
  ℕ, zero, suc, ◌+◌, ◌*◌, ◌^◌, ◌≤◌, ◌<◌, List, [], ◌∷◌, Option, none, some, true, false, min, leb,
  if◌then◌else◌, ◌≡◌, ◌⊎◌, refl, sym, ap, subst, arith, length, Bool-cases, Option-cases, inl, inr,
  All, take, get_elem?,
}
use tperf.NetUtil.{IpAddrs, AddrFamily, SocketAddr, pick_addr}
use tperf.NetUtil.Retry.{
  Turn, RetryEnd, done, was_cancelled, gave_up, unfinished, retry_loop, connect_tcp_dest,
  resolve_retry,
}

-- The delay before turn `i + 1`: it doubles, up to 400 ms.
abbrev pub delay_at : ℕ → ℕ
delay_at i = min (20 * 2 ^ i) 400

abbrev pub AreDelays : ℕ → List ℕ → Type 0
AreDelays i [] = Unit
AreDelays i (d ∷ ds) = (d ≡ delay_at i) × AreDelays (suc i) ds

next_delay : (i : ℕ) → min (delay_at i * 2) 400 ≡ delay_at (suc i)
next_delay i = omega arith

least_delay : (i : ℕ) → 20 ≤ delay_at i
least_delay i = let p = one_le_pow i in omega arith
  where
    one_le_pow : (i : ℕ) → 1 ≤ 2 ^ i
    one_le_pow zero = omega arith
    one_le_pow (suc i) = let q = one_le_pow i in omega arith

module _ {A S : Type 0} (accept : A → Option S) (deadline : ℕ) where
  -- What the turn's answer gives, if anything.
  abbrev pub accepted : Turn A → Option S
  accepted t = elim t.answer [ none ↦ none | some a ↦ accept a ]

  -- The clock does not run backward, and a sleep takes its time.
  abbrev pub Ticks : ℕ → ℕ → List (Turn A) → Type 0
  Ticks now i [] = Unit
  Ticks now i (t ∷ ts) = (now ≤ t.elapsed) × Ticks (t.elapsed + delay_at i) (suc i) ts

  -- Why the loop ends with a turn.
  abbrev pub Ends : Turn A → RetryEnd S → Type 0
  Ends t (done s) = accepted t ≡ some s
  Ends t was_cancelled = (t.cancelled ≡ true) ⊎ (t.interrupted ≡ true)
  Ends t gave_up = (accepted t ≡ none) × (deadline ≤ t.elapsed)
  Ends t unfinished = ⊥

  -- A turn after which the loop goes on.
  abbrev pub Fails : Turn A → Type 0
  Fails t = (accepted t ≡ none) × (t.elapsed < deadline)

  -- There is one turn more than sleeps: the last one ends the loop, and all before it failed.
  abbrev pub IsEnd : ℕ → List (Turn A) → List ℕ × RetryEnd S → Type 0
  IsEnd i ts out =
      AreDelays i (out.0)
      × ((t : Turn A) × (get_elem? ts (length (out.0)) ≡ some t) × Ends t (out.1))
      × All Fails (take (length (out.0)) ts)

  cancelled_step :
      (d : ℕ) (t : Turn A) (ts : List (Turn A))
      → t.cancelled ≡ true
      → retry_loop accept deadline d (t ∷ ts) ≡ ([], was_cancelled)
  unfolding retry_loop
  cancelled_step d t ts c = rw (c, retry_loop) refl

  done_step :
      (d : ℕ) (t : Turn A) (ts : List (Turn A)) (s : S)
      → t.cancelled ≡ false
      → accepted t ≡ some s
      → retry_loop accept deadline d (t ∷ ts) ≡ ([], done s)
  unfolding retry_loop
  done_step d t ts s c e = elim (Option-cases t.answer) [
    | inl n ↦ absurd (ground arith)
    | inr (a, q) ↦
        let r : accept a ≡ some s = ground arith in
        rw (c, retry_loop) (rw (q, retry_loop) (rw (r, retry_loop) refl))
  ]

  abbrev after_failure : ℕ → Turn A → List (Turn A) → List ℕ × RetryEnd S
  after_failure d t ts =
      let rest = retry_loop accept deadline (min (d * 2) 400) ts in
      if leb deadline t.elapsed
      then ([], gave_up)
      else if t.interrupted
      then ([], was_cancelled)
      else (d ∷ rest.0, rest.1)

  failure_step :
      (d : ℕ) (t : Turn A) (ts : List (Turn A))
      → t.cancelled ≡ false
      → accepted t ≡ none
      → retry_loop accept deadline d (t ∷ ts) ≡ after_failure d t ts
  unfolding retry_loop
  failure_step d t ts c e = elim (Option-cases t.answer) [
    | inl n ↦ rw (c, retry_loop) (rw (n, retry_loop) refl)
    | inr (a, q) ↦
        let r : accept a ≡ none = ground arith in
        rw (c, retry_loop) (rw (q, retry_loop) (rw (r, retry_loop) refl))
  ]

  late_step :
      (d : ℕ) (t : Turn A) (ts : List (Turn A))
      → deadline ≤ t.elapsed
      → after_failure d t ts ≡ ([], gave_up)
  late_step d t ts h = let late : leb deadline t.elapsed ≡ true = ground arith in rw late refl

  interrupted_step :
      (d : ℕ) (t : Turn A) (ts : List (Turn A))
      → t.elapsed < deadline
      → t.interrupted ≡ true
      → after_failure d t ts ≡ ([], was_cancelled)
  interrupted_step d t ts h k =
      let early : leb deadline t.elapsed ≡ false = ground arith in rw (early, k) refl

  sleep_step :
      (i : ℕ) (t : Turn A) (ts : List (Turn A))
      → t.elapsed < deadline
      → t.interrupted ≡ false
      → after_failure (delay_at i) t ts ≡ (
          let rest = retry_loop accept deadline (delay_at (suc i)) ts in
          (delay_at i ∷ rest.0, rest.1))
  sleep_step i t ts h k =
      let early : leb deadline t.elapsed ≡ false = ground arith in
      rw (early, k)
        (ap (λ d. let rest = retry_loop accept deadline d ts in (delay_at i ∷ rest.0, rest.1))
          (next_delay i))

  one_sleep :
      (i : ℕ) (t : Turn A) (ts : List (Turn A)) (rest : List ℕ × RetryEnd S)
      → Fails t
      → IsEnd (suc i) ts rest
      → IsEnd i (t ∷ ts) (delay_at i ∷ rest.0, rest.1)
  one_sleep i t ts rest f (ds, last, fs) = ((refl, ds), last, (f, fs))

  -- One turn, where the turns behind it are at hand if it fails before the deadline.
  turn-IsEnd :
      (i : ℕ) (t : Turn A) (ts : List (Turn A))
      → (t.elapsed < deadline → IsEnd (suc i) ts (retry_loop accept deadline (delay_at (suc i)) ts))
      → IsEnd i (t ∷ ts) (retry_loop accept deadline (delay_at i) (t ∷ ts))
  turn-IsEnd i t ts later = elim (Bool-cases t.cancelled) [
    | inl c ↦
        subst (IsEnd i (t ∷ ts)) (sym (cancelled_step (delay_at i) t ts c))
          (tt, (t, refl, inl c), tt)
    | inr c ↦ elim (Option-cases (accepted t)) [
      | inr (s, e) ↦
          subst (IsEnd i (t ∷ ts)) (sym (done_step (delay_at i) t ts s c e)) (tt, (t, refl, e), tt)
      | inl e ↦
          subst (IsEnd i (t ∷ ts)) (sym (failure_step (delay_at i) t ts c e))
            (elim (Bool-cases (leb deadline t.elapsed)) [
              | inl late ↦
                  let h : deadline ≤ t.elapsed = ground arith in
                  subst (IsEnd i (t ∷ ts)) (sym (late_step (delay_at i) t ts h))
                    (tt, (t, refl, (e, h)), tt)
              | inr early ↦
                  let h : t.elapsed < deadline = ground arith in
                  elim (Bool-cases t.interrupted) [
                    | inl k ↦
                        subst (IsEnd i (t ∷ ts)) (sym (interrupted_step (delay_at i) t ts h k))
                          (tt, (t, refl, inr k), tt)
                    | inr k ↦ subst (IsEnd i (t ∷ ts)) (sym (sleep_step i t ts h k)) (
                        one_sleep i t ts (retry_loop accept deadline (delay_at (suc i)) ts) (e, h)
                          (later h))
                  ]
            ])
    ]
  ]

  retry_loop-IsEnd :
      (now i : ℕ) (t : Turn A) (ts : List (Turn A))
      → Ticks now i (t ∷ ts)
      → deadline ≤ now + 20 * length ts
      → IsEnd i (t ∷ ts) (retry_loop accept deadline (delay_at i) (t ∷ ts))
  retry_loop-IsEnd now i t [] (tick, ticks) long = turn-IsEnd i t [] (λ early. absurd (omega arith))
  retry_loop-IsEnd now i t (u ∷ us) (tick, ticks) long =
      let step = least_delay i in
      turn-IsEnd i t (u ∷ us)
        (λ early. retry_loop-IsEnd (t.elapsed + delay_at i) (suc i) u us ticks (omega arith))

-- Resolving and connecting end: with one turn for each 20 ms of the deadline and one more, on a
-- clock that goes on by what is slept, the loop of either ends with an answer, with a cancellation,
-- or, at the deadline and not before, with giving up; it has slept after each turn before, all of
-- which failed, for 20 ms at first and then twice as long each time, up to 400 ms.
pub resolve_retry-IsEnd :
    (std : IpAddrs) {S : Type 0} (family : Option AddrFamily) (deadline : ℕ)
    (t : Turn (List (SocketAddr std))) (ts : List (Turn (List (SocketAddr std)))) (u : Turn S)
    (us : List (Turn S))
    → Ticks (λ addrs. pick_addr std addrs family) deadline 0 0 (t ∷ ts)
    → deadline ≤ 20 * length ts
    → Ticks some deadline 0 0 (u ∷ us)
    → deadline ≤ 20 * length us
    → IsEnd
        (λ addrs. pick_addr std addrs family)
        deadline
        0
        (t ∷ ts)
        (resolve_retry std family deadline (t ∷ ts))
      × IsEnd some deadline 0 (u ∷ us) (connect_tcp_dest deadline (u ∷ us))
unfolding resolve_retry connect_tcp_dest
resolve_retry-IsEnd std family deadline t ts u us h k h' k' = (
  retry_loop-IsEnd (λ addrs. pick_addr std addrs family) deadline 0 0 t ts h (omega arith),
  retry_loop-IsEnd some deadline 0 0 u us h' (omega arith),
)
