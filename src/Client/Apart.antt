-- ===== src/Client/Apart.antt =====
-- The pumps do not disturb one another.
use tperf.Common.{
  ℕ, ◌==◌, List, [], ◌∷◌, ◌++◌, Option, some, none, true, false, if◌then◌else◌, ◌≡◌, ◌≢◌, ◌⊎◌, refl,
  sym, ap, ◌∙◌, subst, arith, codes, text_eq, All, Bool-cases, inl, inr, append-nil, keep,
}
use tperf.Proto.{Msg, start, stop, ack, metrics, error}
use tperf.Client.{
  PumpState, PumpEnd, reading, finished, bailed, pump_message, pump_loop, pump_server,
}
use tperf.Client.Readers.{put, Readers, pump_read, view, read_by, read_all, pump_servers}

module _ {W : Type 0} where
  -- What a message adds to the queue.
  abbrev adds : Option (Msg W) → List W
  adds none = []
  adds (some (metrics window)) = window ∷ []
  adds (some (ack cmd)) = []
  adds (some (error text)) = []
  adds (some (start config assignment)) = []
  adds (some stop) = []

  read-inserted :
      (p : PumpState W) (m : Option (Msg W)) → (pump_read p m).0.inserted ≡ p.inserted ++ adds m
  unfolding pump_read pump_message
  read-inserted p none = sym (append-nil p.inserted)
  read-inserted p (some (metrics window)) = refl
  read-inserted p (some (error text)) = sym (append-nil p.inserted)
  read-inserted p (some (start config assignment)) = sym (append-nil p.inserted)
  read-inserted p (some stop) = sym (append-nil p.inserted)
  read-inserted p (some (ack cmd)) = elim (Bool-cases (text_eq cmd (codes "start"))) [
    | inl t ↦ rw t (sym (append-nil p.inserted))
    | inr f ↦ elim (Bool-cases (text_eq cmd (codes "stop"))) [
      | inl t ↦ rw (f, t) (sym (append-nil p.inserted))
      | inr g ↦ rw (f, g) (sym (append-nil p.inserted))
    ]
  ]

  read-same :
      (p q : PumpState W) (m : Option (Msg W))
      → p.got_start ≡ q.got_start
      → ((pump_read p m).0.got_start ≡ (pump_read q m).0.got_start)
        × ((pump_read p m).1 ≡ (pump_read q m).1)
  unfolding pump_read pump_message
  read-same p q none h = (h, refl)
  read-same p q (some (metrics window)) h = (h, refl)
  read-same p q (some (error text)) h = (h, ap (λ b. if b then reading else bailed text) h)
  read-same p q (some (start config assignment)) h = (h, refl)
  read-same p q (some stop) h = (h, refl)
  read-same p q (some (ack cmd)) h = elim (Bool-cases (text_eq cmd (codes "start"))) [
    | inl t ↦ rw t (refl, refl)
    | inr f ↦ elim (Bool-cases (text_eq cmd (codes "stop"))) [
      | inl t ↦ rw (f, t) (h, refl)
      | inr g ↦ rw (f, g) (h, refl)
    ]
  ]

  -- What the pump of a server reads, in order.
  unfoldable pub messages_of : ℕ → List (ℕ × Option (Msg W)) → List (Option (Msg W))
  messages_of i [] = []
  messages_of i ((j, m) ∷ events) =
      if i == j then m ∷ messages_of i events else messages_of i events

PumpEnd-cases : (e : PumpEnd) → (e ≡ reading) ⊎ (e ≢ reading)
PumpEnd-cases reading = inl refl
PumpEnd-cases finished = inr (λ e. ground arith)
PumpEnd-cases (bailed text) = inr (λ e. ground arith)

put_self {ℓ} : {A : Type ℓ} (f : ℕ → A) (i : ℕ) (v : A) → put f i v i ≡ v
put_self f i v = let t : (i == i) ≡ true = ground arith in rw t refl

put_other {ℓ} : {A : Type ℓ} (f : ℕ → A) (i j : ℕ) (v : A) → (i == j) ≡ false → put f j v i ≡ f i
put_other f i j v h = rw h refl

module _ {W : Type 0} where
  abbrev after_read : Readers W → ℕ → Option (Msg W) → Readers W
  after_read r i m =
      let (p, end) = pump_read (view r i) m in
      record {
        got_start = put r.got_start i p.got_start;
        ends = put r.ends i end;
        start_acks = p.start_acks;
        inserted = p.inserted;
      }

  by_reading :
      (r : Readers W) (i : ℕ) (m : Option (Msg W))
      → r.ends i ≡ reading
      → read_by r i m ≡ after_read r i m
  unfolding read_by
  by_reading r i m h = rw (h, read_by) refl

  by_over : (r : Readers W) (i : ℕ) (m : Option (Msg W)) → r.ends i ≢ reading → read_by r i m ≡ r
  unfolding read_by
  by_over r i m h = over (r.ends i) refl h
    where
      over : (e : PumpEnd) → r.ends i ≡ e → e ≢ reading → read_by r i m ≡ r
      over reading q k = absurd (k refl)
      over finished q k = rw (q, read_by) refl
      over (bailed text) q k = rw (q, read_by) refl

  loop_on :
      (p : PumpState W) (m : Option (Msg W)) (ms : List (Option (Msg W)))
      → (pump_read p m).1 ≡ reading
      → pump_loop p (m ∷ ms) ≡ pump_loop ((pump_read p m).0) ms
  unfolding pump_loop pump_read
  loop_on p none ms h = absurd (ground arith)
  loop_on p (some m) ms h = rw (h, pump_loop) refl

  loop_over :
      (p : PumpState W) (m : Option (Msg W)) (ms : List (Option (Msg W)))
      → (pump_read p m).1 ≢ reading
      → pump_loop p (m ∷ ms) ≡ pump_read p m
  unfolding pump_loop pump_read
  loop_over p none ms h = refl
  loop_over p (some m) ms h = over ((pump_message p m).1) refl h
    where
      over :
          (e : PumpEnd)
          → (pump_message p m).1 ≡ e
          → e ≢ reading
          → pump_loop p (some m ∷ ms) ≡ pump_message p m
      over reading q k = absurd (k refl)
      over finished q k = rw (q, pump_loop) (ap (λ e. ((pump_message p m).0, e)) (sym q))
      over (bailed text) q k = rw (q, pump_loop) (ap (λ e. ((pump_message p m).0, e)) (sym q))

module _ {W : Type 0} (origin : W → ℕ) where
  -- A window names the server that it comes from.
  abbrev pub IsStamped : ℕ × Option (Msg W) → Type 0
  IsStamped (i, none) = Unit
  IsStamped (i, some (metrics window)) = origin window ≡ i
  IsStamped (i, some (ack cmd)) = Unit
  IsStamped (i, some (error text)) = Unit
  IsStamped (i, some (start config assignment)) = Unit
  IsStamped (i, some stop) = Unit

  -- The windows of a server.
  abbrev pub windows_of : ℕ → List W → List W
  windows_of i ws = keep (λ w. i == origin w) ws

  windows_of-append :
      (i : ℕ) (xs ys : List W) → windows_of i (xs ++ ys) ≡ windows_of i xs ++ windows_of i ys
  windows_of-append i [] ys = refl
  windows_of-append i (x ∷ xs) ys = ground (arith, windows_of-append i xs ys)

  own : (i : ℕ) (m : Option (Msg W)) → IsStamped (i, m) → windows_of i (adds m) ≡ adds m
  own i none h = refl
  own i (some (metrics window)) h =
      let t : (i == origin window) ≡ true = ground arith in rw (t, keep) refl
  own i (some (error text)) h = refl
  own i (some (start config assignment)) h = refl
  own i (some stop) h = refl
  own i (some (ack cmd)) h = refl

  foreign :
      (i j : ℕ) (m : Option (Msg W))
      → IsStamped (j, m)
      → (i == j) ≡ false
      → windows_of i (adds m) ≡ []
  foreign i j none h k = refl
  foreign i j (some (metrics window)) h k =
      let f : (i == origin window) ≡ false = ground arith in rw (f, keep) refl
  foreign i j (some (error text)) h k = refl
  foreign i j (some (start config assignment)) h k = refl
  foreign i j (some stop) h k = refl
  foreign i j (some (ack cmd)) h k = refl

  -- What the step of a server changes for another one: nothing.
  other_step :
      (r : Readers W) (i j : ℕ) (m : Option (Msg W))
      → (i == j) ≡ false
      → IsStamped (j, m)
      → ((read_by r j m).ends i ≡ r.ends i)
        × ((read_by r j m).got_start i ≡ r.got_start i)
        × (windows_of i (read_by r j m).inserted ≡ windows_of i r.inserted)
  other_step r i j m k h = elim (PumpEnd-cases (r.ends j)) [
    | inr over ↦
        let e = by_over r j m over in
        (
          ap (λ (x : Readers W). x.ends i) e,
          ap (λ (x : Readers W). x.got_start i) e,
          ap (λ (x : Readers W). windows_of i x.inserted) e,
        )
    | inl on ↦
        let e = by_reading r j m on in
        let (p, end) = pump_read (view r j) m in
        (
          ap (λ (x : Readers W). x.ends i) e ∙ put_other r.ends i j end k,
          ap (λ (x : Readers W). x.got_start i) e ∙ put_other r.got_start i j p.got_start k,
          ap (λ (x : Readers W). windows_of i x.inserted) e
              ∙ ap (windows_of i) (read-inserted (view r j) m)
              ∙ windows_of-append i r.inserted (adds m)
              ∙ ap (λ ws. windows_of i r.inserted ++ ws) (foreign i j m h k)
              ∙ append-nil (windows_of i r.inserted),
        )
  ]

  over-All :
      (events : List (ℕ × Option (Msg W))) (r : Readers W) (i : ℕ)
      → All IsStamped events
      → r.ends i ≢ reading
      → ((read_all r events).ends i ≡ r.ends i)
        × (windows_of i (read_all r events).inserted ≡ windows_of i r.inserted)
  unfolding read_all
  over-All [] r i h k = (refl, refl)
  over-All ((j, m) ∷ events) r i (p, h) k = elim (Bool-cases (i == j)) [
    | inr f ↦
        let (e, g, w) = other_step r i j m f p in
        let (e', w') = over-All events (read_by r j m) i h (λ q. k (sym e ∙ q)) in (e' ∙ e, w' ∙ w)
    | inl t ↦
        let same : i ≡ j = ground arith in
        let stays = by_over r j m (λ q. k (ap r.ends same ∙ q)) in
        let (e', w') = over-All events r i h k in
        (
          ap (λ (x : Readers W). (read_all x events).ends i) stays ∙ e',
          ap (λ (x : Readers W). windows_of i (read_all x events).inserted) stays ∙ w',
        )
  ]

  -- The state of a server that reads on, beside that of a pump alone.
  abbrev Agrees : ℕ → Readers W → PumpState W → Type 0
  Agrees i r p =
      (r.ends i ≡ reading) × (r.got_start i ≡ p.got_start) × (windows_of i r.inserted ≡ p.inserted)

  own_step :
      (r : Readers W) (i : ℕ) (m : Option (Msg W)) (p : PumpState W)
      → IsStamped (i, m)
      → Agrees i r p
      → ((read_by r i m).ends i ≡ (pump_read p m).1)
        × ((read_by r i m).got_start i ≡ (pump_read p m).0.got_start)
        × (windows_of i (read_by r i m).inserted ≡ (pump_read p m).0.inserted)
  own_step r i m p h (on, got, ws) =
      let e = by_reading r i m on in
      let (same_got, same_end) = read-same (view r i) p m got in
      (
        ap (λ (x : Readers W). x.ends i) e
            ∙ put_self r.ends i ((pump_read (view r i) m).1)
            ∙ same_end,
        ap (λ (x : Readers W). x.got_start i) e
            ∙ put_self r.got_start i ((pump_read (view r i) m).0.got_start)
            ∙ same_got,
        ap (λ (x : Readers W). windows_of i x.inserted) e
            ∙ ap (windows_of i) (read-inserted (view r i) m)
            ∙ windows_of-append i r.inserted (adds m)
            ∙ ap (λ xs. windows_of i r.inserted ++ xs) (own i m h)
            ∙ ap (λ xs. xs ++ adds m) ws
            ∙ sym (read-inserted p m),
      )

  abbrev Result : ℕ → Readers W → PumpState W × PumpEnd → Type 0
  Result i r out = (windows_of i r.inserted ≡ out.0.inserted) × (r.ends i ≡ out.1)

  read_all-Result :
      (events : List (ℕ × Option (Msg W))) (r : Readers W) (i : ℕ) (p : PumpState W)
      → All IsStamped events
      → Agrees i r p
      → Result i (read_all r events) (pump_loop p (messages_of i events))
  unfolding read_all messages_of pump_loop
  read_all-Result [] r i p h (on, got, ws) = (ws, on)
  read_all-Result ((j, m) ∷ events) r i p (q, h) (on, got, ws) = elim (Bool-cases (i == j)) [
    | inr f ↦
        let (e, g, w) = other_step r i j m f q in
        rw (f, messages_of) (read_all-Result events (read_by r j m) i p h (e ∙ on, g ∙ got, w ∙ ws))
    | inl t ↦
        let same : j ≡ i = ground arith in
        let (e, g, w) = own_step r i m p (subst (λ k. IsStamped (k, m)) same q) (on, got, ws) in
        rw (t, messages_of)
          (subst
            (λ k.
              Result i (read_all (read_by r k m) events) (pump_loop p (m ∷ messages_of i events)))
            (sym same)
            (elim (PumpEnd-cases ((pump_read p m).1)) [
              | inl go ↦
                  subst (Result i (read_all (read_by r i m) events))
                    (sym (loop_on p m (messages_of i events) go))
                    (read_all-Result events (read_by r i m) i ((pump_read p m).0) h (e ∙ go, g, w))
              | inr over ↦
                  let (e', w') = over-All events (read_by r i m) i h (λ x. over (sym e ∙ x)) in
                  subst (Result i (read_all (read_by r i m) events))
                    (sym (loop_over p m (messages_of i events) over)) (w' ∙ w, e' ∙ e)
            ]))
  ]

  -- In whatever order the pumps of the servers read, where each window names the server that it
  -- comes from: among the windows that are inserted, those of a server are the ones that its pump
  -- alone inserts of what it reads, in the same order, and its pump ends in the same way.
  pub pump_servers-apart :
      (events : List (ℕ × Option (Msg W))) (i : ℕ)
      → All IsStamped events
      → (windows_of i (pump_servers events).inserted
          ≡ (pump_server 0 (messages_of i events)).0.inserted)
        × ((pump_servers events).ends i ≡ (pump_server 0 (messages_of i events)).1)
  unfolding pump_servers pump_server
  pump_servers-apart events i h = read_all-Result events _ i _ h (refl, refl, refl)
