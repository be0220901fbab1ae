-- ===== src/Server/Lifecycle.antt =====
-- One test at a time, and none behind the end of the session.
use tperf.Common.{
  ℕ, List, [], ◌∷◌, ◌++◌, Option, none, some, Bool, true, false, ◌≡◌, refl, sym, ap, ◌∙◌, arith,
  ◌==◌, if◌then◌else◌, ◌⊎◌, subst, Bool-cases, inl, inr, ==_refl,
}
use tperf.NetUtil.{IpAddrs}
use tperf.Proto.{start, stop, ack, metrics, error}
use tperf.Server.{
  Action, spawned, stopped, replied, Incoming, failed, message, Session, Status, waiting, ended,
  stop_test, start_test, handle_start, handle_message, handle_loop, handle_conn,
}

-- The tests that run behind the given actions, where one is running or none; `none` where a test is
-- spawned while another runs, or another is stopped than the one that runs.
unfoldable pub replay : Option ℕ → List Action → Option (Option ℕ)
replay test [] = some test
replay none (spawned t ∷ acts) = replay (some t) acts
replay (some u) (spawned t ∷ acts) = none
replay none (stopped t ∷ acts) = none
replay (some u) (stopped t ∷ acts) = let rest = replay none acts in if u == t then rest else none
replay test (replied m ∷ acts) = replay test acts

-- What a session still runs.
abbrev pub running : Status → Option ℕ
running (waiting s) = Session.test s
running (ended fine) = none

replay-append :
    (test : Option ℕ) (xs ys : List Action) (after : Option ℕ)
    → replay test xs ≡ some after
    → replay test (xs ++ ys) ≡ replay after ys
unfolding replay
replay-append test [] ys after e = let q : test ≡ after = ground arith in rw q
replay-append none (spawned t ∷ xs) ys after e = replay-append (some t) xs ys after e
replay-append (some u) (spawned t ∷ xs) ys after e = absurd (ground arith)
replay-append none (stopped t ∷ xs) ys after e = absurd (ground arith)
replay-append (some u) (stopped t ∷ xs) ys after e = elim (Bool-cases (u == t)) [
  | inl same ↦
      let e' : replay none xs ≡ some after = ground arith in
      let rest = replay-append none xs ys after e' in ground arith
  | inr other ↦ absurd (ground arith)
]
replay-append none (replied m ∷ xs) ys after e = replay-append none xs ys after e
replay-append (some u) (replied m ∷ xs) ys after e = replay-append (some u) xs ys after e

stop_test-replay : (test : Option ℕ) → replay test (stop_test test) ≡ some none
unfolding replay stop_test
stop_test-replay none = refl
stop_test-replay (some t) = let q = ==_refl t in ground arith

handle_start-replay :
    (fine written : Bool) (next : ℕ)
    → replay none (handle_start fine next written).0
      ≡ some (running (handle_start fine next written).1)
unfolding replay handle_start
handle_start-replay false written next = refl
handle_start-replay true true next = refl
handle_start-replay true false next = let q = ==_refl next in ground arith

handle_message-replay :
    (std : IpAddrs) (s : Session) (m : Incoming)
    → replay (Session.test s) (handle_message std s m).0 ≡ some (running (handle_message std s m).1)
unfolding handle_message replay
handle_message-replay std s failed = stop_test-replay (Session.test s)
handle_message-replay std s (message (start config assignment) plane written) =
    replay-append (Session.test s) (stop_test (Session.test s)) _ none
      (stop_test-replay (Session.test s))
    ∙ handle_start-replay (start_test std config plane) written (Session.next s)
handle_message-replay std s (message stop plane true) =
    replay-append (Session.test s) (stop_test (Session.test s)) _ none
      (stop_test-replay (Session.test s))
handle_message-replay std s (message stop plane false) =
    replay-append (Session.test s) (stop_test (Session.test s)) _ none
      (stop_test-replay (Session.test s))
handle_message-replay std s (message (ack cmd) plane written) = refl
handle_message-replay std s (message (metrics window) plane written) = refl
handle_message-replay std s (message (error text) plane written) = refl

Status-cases :
    (status : Status)
    → ((fine : Bool) × (status ≡ ended fine)) ⊎ ((s : Session) × (status ≡ waiting s))
Status-cases (ended fine) = inl (fine, refl)
Status-cases (waiting s) = inr (s, refl)

handle_loop-ended :
    (std : IpAddrs) (s : Session) (m : Incoming) (ms : List Incoming) (fine : Bool)
    → (handle_message std s m).1 ≡ ended fine
    → handle_loop std s (m ∷ ms) ≡ ((handle_message std s m).0, ended fine)
unfolding handle_loop
handle_loop-ended std s m ms fine e = rw (e, handle_loop) refl

handle_loop-waiting :
    (std : IpAddrs) (s : Session) (m : Incoming) (ms : List Incoming) (s' : Session)
    → (handle_message std s m).1 ≡ waiting s'
    → handle_loop std s (m ∷ ms)
      ≡ ((handle_message std s m).0 ++ (handle_loop std s' ms).0, (handle_loop std s' ms).1)
unfolding handle_loop
handle_loop-waiting std s m ms s' e = rw (e, handle_loop) refl

Kept : Option ℕ → List Action × Status → Type 0
Kept test r = replay test r.0 ≡ some (running r.1)

handle_loop-replay :
    (std : IpAddrs) (s : Session) (ms : List Incoming)
    → Kept (Session.test s) (handle_loop std s ms)
unfolding handle_loop replay Kept
handle_loop-replay std s [] = refl
handle_loop-replay std s (m ∷ ms) =
    let one = handle_message-replay std s m in
    elim (Status-cases (handle_message std s m).1) [
      | inl (fine, e) ↦
          subst (Kept (Session.test s)) (sym (handle_loop-ended std s m ms fine e))
            (one ∙ ap (λ t. some (running t)) e)
      | inr (s', e) ↦ subst (Kept (Session.test s)) (sym (handle_loop-waiting std s m ms s' e)) (
          replay-append (Session.test s) (handle_message std s m).0 (handle_loop std s' ms).0 _
            (one ∙ ap (λ t. some (running t)) e)
          ∙ handle_loop-replay std s' ms)
    ]

-- Whatever a client sends, a session runs one test at a time: it spawns a test only when none runs,
-- stops only the one that runs, and when the session is over, with or without an error, none runs.
pub handle_conn-replay :
    (std : IpAddrs) (ms : List Incoming)
    → replay none (handle_conn std ms).0 ≡ some (running (handle_conn std ms).1)
unfolding handle_conn Kept
handle_conn-replay std ms = handle_loop-replay std _ ms
