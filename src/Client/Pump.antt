-- ===== src/Client/Pump.antt =====
-- What the client keeps of a server's messages.
use tperf.Common.{
  ℕ, suc, ◌+◌, ◌%◌, ◌<◌, ◌⊎◌, List, [], ◌∷◌, ◌++◌, map, Option, some, Bool, true, false, ◌≡◌, refl,
  sym, ap, ◌∙◌, arith, codes, text_eq, if◌then◌else◌, u64_mod, append_assoc, append-nil, inl, inr,
}
use tperf.Proto.{Msg, start, stop, ack, metrics, error}
use tperf.Client.{PumpState, PumpEnd, reading, pump_message, pump_loop}

module _ {W : Type 0} where
  -- Messages that the pump reads past: no answer to a stop, and no error before the first start.
  abbrev pub Passes : Bool → List (Msg W) → Type 0
  Passes got [] = Unit
  Passes got (ack cmd ∷ ms) =
      ((text_eq cmd (codes "start") ≡ true) × Passes true ms)
      ⊎ ((text_eq cmd (codes "start") ≡ false)
          × (text_eq cmd (codes "stop") ≡ false)
          × Passes got ms)
  Passes got (error text ∷ ms) = (got ≡ true) × Passes got ms
  Passes got (metrics window ∷ ms) = Passes got ms
  Passes got (start config assignment ∷ ms) = Passes got ms
  Passes got (stop ∷ ms) = Passes got ms

  -- The windows among the messages.
  unfoldable pub windows : List (Msg W) → List W
  windows [] = []
  windows (metrics window ∷ ms) = window ∷ windows ms
  windows (ack cmd ∷ ms) = windows ms
  windows (error text ∷ ms) = windows ms
  windows (start config assignment ∷ ms) = windows ms
  windows (stop ∷ ms) = windows ms

  -- The number of answers to a start.
  unfoldable pub starts : List (Msg W) → ℕ
  unfolding text_eq
  starts [] = 0
  starts (ack cmd ∷ ms) = if text_eq cmd (codes "start") then suc (starts ms) else starts ms
  starts (metrics window ∷ ms) = starts ms
  starts (error text ∷ ms) = starts ms
  starts (start config assignment ∷ ms) = starts ms
  starts (stop ∷ ms) = starts ms

  pump_past :
      (p p' : PumpState W) (m : Msg W) (ms : List (Option (Msg W)))
      → pump_message p m ≡ (p', reading)
      → pump_loop p (some m ∷ ms) ≡ pump_loop p' ms
  unfolding pump_loop
  pump_past p p' m ms e = rw (e, pump_loop) (ap (λ (q : PumpState W × PumpEnd). pump_loop q.0 ms) e)

  abbrev Kept : PumpState W → List (Msg W) → List (Option (Msg W)) → Type 0
  Kept p ms rest =
      (p' : PumpState W) × (pump_loop p (map some ms ++ rest) ≡ pump_loop p' rest)
      × (p'.inserted ≡ p.inserted ++ windows ms)
      × (p'.start_acks ≡ (p.start_acks + starts ms) % u64_mod)

  -- Past messages that neither end the pump nor are errors before the first start, the pump has
  -- handed over every window, in order, and counted every answer to a start, and reads on whatever
  -- comes next.
  pub pump_loop-windows :
      (p : PumpState W) (ms : List (Msg W)) (rest : List (Option (Msg W)))
      → p.start_acks < u64_mod
      → Passes p.got_start ms
      → Kept p ms rest
  unfolding windows starts pump_message
  pump_loop-windows p [] rest b h = (p, refl, sym (append-nil p.inserted), omega arith)
  pump_loop-windows p (metrics window ∷ ms) rest b h =
      let p1 = record p { inserted = p.inserted ++ window ∷ [] } in
      let (p', e, w, a) = pump_loop-windows p1 ms rest b h in
      (
        p',
        pump_past p p1 (metrics window) _ refl ∙ e,
        w ∙ append_assoc p.inserted (window ∷ []) (windows ms),
        a,
      )
  pump_loop-windows p (start config assignment ∷ ms) rest b h =
      let (p', e, w, a) = pump_loop-windows p ms rest b h in
      (p', pump_past p p (start config assignment) _ refl ∙ e, w, a)
  pump_loop-windows p (stop ∷ ms) rest b h =
      let (p', e, w, a) = pump_loop-windows p ms rest b h in
      (p', pump_past p p stop _ refl ∙ e, w, a)
  pump_loop-windows p (error text ∷ ms) rest b (got, h) =
      let (p', e, w, a) = pump_loop-windows p ms rest b h in
      (p', pump_past p p (error text) _ (ground arith) ∙ e, w, a)
  pump_loop-windows p (ack cmd ∷ ms) rest b (inl (t, h)) =
      let p1 = record p { got_start = true; start_acks = (p.start_acks + 1) % u64_mod } in
      let (p', e, w, a) = pump_loop-windows p1 ms rest (omega arith) h in
      (p', pump_past p p1 (ack cmd) _ (ground arith) ∙ e, w, ground arith)
  pump_loop-windows p (ack cmd ∷ ms) rest b (inr (f, g, h)) =
      let (p', e, w, a) = pump_loop-windows p ms rest b h in
      (p', pump_past p p (ack cmd) _ (ground arith) ∙ e, w, ground arith)
