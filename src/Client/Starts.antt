-- ===== src/Client/Starts.antt =====
-- The starts that the client sends.
use tperf.Common.{
  ℕ, suc, ◌+◌, ◌≤◌, List, [], ◌∷◌, some, Bool, true, ◌≡◌, refl, arith, Text, length, get_elem?,
  get_elem?-lt,
}
use tperf.Config.{Config}
use tperf.Proto.{Msg, start, Assignment}
use tperf.Client.{start_loop, send_starts}

-- Each writer in turn, with its own assignment.
unfoldable pub IsStarts :
    Config → List Assignment → ℕ → List Text → List (Text × Msg (Unit {0})) → Type 0
IsStarts cfg asg i [] [] = Unit
IsStarts cfg asg i [] (m ∷ sent) = ⊥
IsStarts cfg asg i (host ∷ writers) [] = ⊥
IsStarts cfg asg i (host ∷ writers) (m ∷ sent) =
    ((a : Assignment) × (get_elem? asg i ≡ some a) × (m ≡ (host, start cfg a)))
    × IsStarts cfg asg (suc i) writers sent

start_loop-IsStarts :
    (cfg : Config) (asg : List Assignment) (written : ℕ → Bool) (i : ℕ) (writers : List Text)
    → i + length writers ≤ length asg
    → ((j : ℕ) → written j ≡ true)
    → (sent : List (Text × Msg (Unit {0}))) × (start_loop cfg asg written i writers
        ≡ some (sent, true))
      × IsStarts cfg asg i writers sent
unfolding start_loop IsStarts
start_loop-IsStarts cfg asg written i [] h w = ([], refl, tt)
start_loop-IsStarts cfg asg written i (host ∷ writers) h w =
    let (a, e) = get_elem?-lt asg i (omega arith) in
    let (sent, r, f) = start_loop-IsStarts cfg asg written (suc i) writers (omega arith) w in
    let ok = w i in ((host, start cfg a) ∷ sent, ground arith, ((a, e, refl), f))

-- With an assignment for each writer and no error of a write, `send_starts` does not panic, sets
-- the count of answers to 0, and sends each server, in order, a start with its own assignment and
-- no other message.
pub send_starts-IsStarts :
    (cfg : Config) (writers : List Text) (asg : List Assignment) (written : ℕ → Bool)
    → length writers ≤ length asg
    → ((j : ℕ) → written j ≡ true)
    → (sent : List (Text × Msg (Unit {0}))) × (send_starts cfg writers asg written
        ≡ some (0, sent, true))
      × IsStarts cfg asg 0 writers sent
unfolding send_starts
send_starts-IsStarts cfg writers asg written h w =
    let (sent, r, f) = start_loop-IsStarts cfg asg written 0 writers (omega arith) w in
    (sent, rw (r, send_starts) refl, f)
