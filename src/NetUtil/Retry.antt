-- ===== src/NetUtil/Retry.antt =====
-- src/netutil.rs: resolving and connecting again and again, until a deadline. The turns of the loop
-- are explicit: what each meets of the cancellation, of the network, and of the clock, in
-- milliseconds.
use tperf.Common.{ℕ, ◌*◌, List, [], ◌∷◌, Option, none, some, Bool, min, leb, if◌then◌else◌, Text}
use tperf.NetUtil.{IpAddrs, AddrFamily, SocketAddr, join_host_port, pick_addr}

pub record Turn (A : Type 0) : Type 0 where
  pub cancelled : Bool
  pub answer : Option A
  pub elapsed : ℕ
  pub interrupted : Bool

-- `unfinished` is a prefix of a run: no turn is left.
pub data RetryEnd (S : Type 0) : Type 0 where
  done : S → RetryEnd S
  was_cancelled : RetryEnd S
  gave_up : RetryEnd S
  unfinished : RetryEnd S

module _ {A S : Type 0} where
  -- What is slept between the turns, and the end.
  unfoldable pub retry_loop : (A → Option S) → ℕ → ℕ → List (Turn A) → List ℕ × RetryEnd S
  retry_loop accept deadline delay [] = ([], unfinished)
  retry_loop accept deadline delay (t ∷ ts) =
      let rest = retry_loop accept deadline (min (delay * 2) 400) ts in
      let failed : List ℕ × RetryEnd S =
        if leb deadline t.elapsed
        then ([], gave_up)
        else if t.interrupted
        then ([], was_cancelled)
        else (delay ∷ rest.0, rest.1) in
      if t.cancelled then ([], was_cancelled) else elim t.answer [
        | none ↦ failed
        | some a ↦ elim (accept a) [ some s ↦ ([], done s) | none ↦ failed ]
      ]

-- A stream is what `connect` gives; the answer of a turn is that of `TcpStream::connect`.
unfoldable pub connect_tcp_dest : {S : Type 0} → ℕ → List (Turn S) → List ℕ × RetryEnd S
unfolding retry_loop
connect_tcp_dest deadline turns = retry_loop some deadline 20 turns

module _ (std : IpAddrs) where
  -- `lookup_host` is the system's; `none` is an error.
  unfoldable pub resolve_one :
      (Text → Option (List (SocketAddr std)))
      → Text
      → ℕ
      → Option AddrFamily
      → Option (SocketAddr std)
  unfolding join_host_port pick_addr
  resolve_one lookup_host host port family = elim (lookup_host (join_host_port host port)) [
    | none ↦ none
    | some addrs ↦ pick_addr std addrs family
  ]

  -- The answer of a turn is that of `lookup_host`.
  unfoldable pub resolve_retry :
      Option AddrFamily
      → ℕ
      → List (Turn (List (SocketAddr std)))
      → List ℕ × RetryEnd (SocketAddr std)
  unfolding retry_loop pick_addr
  resolve_retry family deadline turns =
      retry_loop (λ addrs. pick_addr std addrs family) deadline 20 turns
