-- ===== src/Db/Writer.antt =====
-- What the thread has written when it is joined.
use tperf.Common.{
  ℕ, suc, List, [], ◌∷◌, ◌++◌, some, Bool, true, false, ◌≡◌, ◌↔◌, refl, sym, ap, ◌∙◌, subst, arith,
  Text, Result, ok, err, append_assoc, append-nil, map, Bool-cases, inl, inr,
}
use mathlib.Core.List.{tail-eq_of_cons-eq}
use tperf.Proto.{MetricWindow}
use tperf.Db.{
  Json, System, MetricRow, Tables, DbError, insert_failed, Event, metric, shutdown_event, Db,
  metric_row, writer_loop, run_writer, insert_all, insert, shutdown,
}

module _ {F : Type 0} (json : Json) (sys : System) where
  -- The rows of the windows, in order.
  abbrev pub AreRows : Text → List (MetricWindow F) → List (MetricRow F) → Type 0
  AreRows tag [] [] = Unit
  AreRows tag [] (r ∷ rows) = ⊥
  AreRows tag (w ∷ ws) [] = ⊥
  AreRows tag (w ∷ ws) (r ∷ rows) = (metric_row json tag w ≡ some r) × AreRows tag ws rows

  -- How many rows are inserted before the first failure.
  abbrev pub stored : (ℕ → Bool) → ℕ → List (MetricRow F) → List (MetricRow F)
  stored inserted k [] = []
  stored inserted k (r ∷ rows) = elim (inserted k) [
    | true ↦ r ∷ stored inserted (suc k) rows
    | false ↦ []
  ]

  -- All that precedes is kept, the rows behind it are the stored ones, and the result is `Ok` if
  -- none is missing.
  abbrev pub IsOutcome :
      Tables F
      → List (MetricRow F)
      → List (MetricRow F)
      → Tables F × Result {0, 0} DbError Unit
      → Type 0
  IsOutcome tables kept rows r =
      (r.0.config ≡ tables.config)
      × (r.0.metrics ≡ tables.metrics ++ kept)
      × ((r.1 ≡ ok tt) ↔ (kept ≡ rows))

  queued : List (MetricWindow F) → List (Event F)
  queued ws = map metric ws ++ shutdown_event ∷ []

  loop-stop :
      (tag : Text) (k : ℕ) (tables : Tables F) (w : MetricWindow F) (r : MetricRow F)
      (es : List (Event F))
      → metric_row json tag w ≡ some r
      → System.inserted sys k ≡ false
      → writer_loop json sys tag k tables (metric w ∷ es) ≡ (tables, err insert_failed)
  unfolding writer_loop
  loop-stop tag k tables w r es e f = rw (e, writer_loop) (rw (f, writer_loop) refl)

  loop-go :
      (tag : Text) (k : ℕ) (tables : Tables F) (w : MetricWindow F) (r : MetricRow F)
      (es : List (Event F))
      → metric_row json tag w ≡ some r
      → System.inserted sys k ≡ true
      → writer_loop json sys tag k tables (metric w ∷ es)
        ≡ writer_loop json sys tag (suc k) (record tables { metrics = tables.metrics ++ r ∷ [] }) es
  unfolding writer_loop
  loop-go tag k tables w r es e t = rw (e, writer_loop) (rw (t, writer_loop) refl)

  stored-stop :
      (k : ℕ) (r : MetricRow F) (rows : List (MetricRow F))
      → System.inserted sys k ≡ false
      → stored (System.inserted sys) k (r ∷ rows) ≡ []
  stored-stop k r rows f = rw (f, stored) refl

  stored-go :
      (k : ℕ) (r : MetricRow F) (rows : List (MetricRow F))
      → System.inserted sys k ≡ true
      → stored (System.inserted sys) k (r ∷ rows) ≡ r ∷ stored (System.inserted sys) (suc k) rows
  stored-go k r rows t = rw (t, stored) refl

  one_more :
      (tables : Tables F) (r : MetricRow F) (kept rows : List (MetricRow F))
      (out : Tables F × Result {0, 0} DbError Unit)
      → IsOutcome (record tables { metrics = tables.metrics ++ r ∷ [] }) kept rows out
      → IsOutcome tables (r ∷ kept) (r ∷ rows) out
  one_more tables r kept rows out (c, m, (f, g)) = (
    c,
    m ∙ append_assoc tables.metrics (r ∷ []) kept,
    (λ e. ap (◌∷◌ r) (f e), λ e. g (tail-eq_of_cons-eq e)),
  )

  writer_loop-IsOutcome :
      (tag : Text) (k : ℕ) (tables : Tables F) (ws : List (MetricWindow F))
      (rows : List (MetricRow F))
      → AreRows tag ws rows
      → IsOutcome tables
          (stored (System.inserted sys) k rows)
          rows
          (writer_loop json sys tag k tables (queued ws))
  unfolding writer_loop queued
  writer_loop-IsOutcome tag k tables [] [] h = (refl, sym (append-nil _), (λ e. refl, λ e. refl))
  writer_loop-IsOutcome tag k tables [] (r ∷ rows) h = absurd h
  writer_loop-IsOutcome tag k tables (w ∷ ws) [] h = absurd h
  writer_loop-IsOutcome tag k tables (w ∷ ws) (r ∷ rows) (e, h) =
      elim (Bool-cases (System.inserted sys k)) [
        | inr f ↦
            subst
              (λ out. IsOutcome tables (stored (System.inserted sys) k (r ∷ rows)) (r ∷ rows) out)
              (sym (loop-stop tag k tables w r (queued ws) e f))
              (subst (λ kept. IsOutcome tables kept (r ∷ rows) (tables, err insert_failed))
                (sym (stored-stop k r rows f))
                (refl, sym (append-nil _), (λ q. ground arith, λ q. ground arith)))
        | inl t ↦
            let later =
              writer_loop-IsOutcome tag (suc k)
                (record tables { metrics = tables.metrics ++ r ∷ [] }) ws rows h in
            subst
              (λ out. IsOutcome tables (stored (System.inserted sys) k (r ∷ rows)) (r ∷ rows) out)
              (sym (loop-go tag k tables w r (queued ws) e t))
              (subst
                (λ kept. IsOutcome tables kept (r ∷ rows) (
                  writer_loop json sys tag (suc k)
                    (record tables { metrics = tables.metrics ++ r ∷ [] }) (queued ws)))
                (sym (stored-go k r rows t)) (one_more tables r _ rows _ later))
      ]

  insert_all-queue :
      (db : Db F) (ws : List (MetricWindow F))
      → (insert_all json sys db ws).queue ++ shutdown_event ∷ [] ≡ db.queue ++ queued ws
  unfolding insert_all queued
  insert_all-queue db [] = refl
  insert_all-queue db (w ∷ ws) =
      insert_all-queue (insert json sys db w) ws ∙ append_assoc db.queue (metric w ∷ []) (queued ws)

  insert_all-tag :
      (db : Db F) (ws : List (MetricWindow F)) → (insert_all json sys db ws).tag ≡ db.tag
  unfolding insert_all
  insert_all-tag db [] = refl
  insert_all-tag db (w ∷ ws) = insert_all-tag (insert json sys db w) ws

  insert_all-row :
      (db : Db F) (ws : List (MetricWindow F))
      → (insert_all json sys db ws).config_row ≡ db.config_row
  unfolding insert_all
  insert_all-row db [] = refl
  insert_all-row db (w ∷ ws) = insert_all-row (insert json sys db w) ws

  run_writer-loop :
      (db : Db F)
      → System.opened sys ≡ true
      → System.schema_made sys ≡ true
      → System.config_inserted sys ≡ true
      → run_writer json sys db
        ≡ writer_loop json sys db.tag 0
            (record { config = db.config_row ∷ []; metrics = [] })
            db.queue
  unfolding run_writer
  run_writer-loop db a b c = rw (a, b, c) refl

  -- A database on which the file and its tables can be made: the windows inserted before the
  -- shutdown are in the file in their order, all of them up to the first insertion that fails,
  -- behind the one row of the configuration; and the shutdown reports `Ok` exactly if none is
  -- missing.
  pub shutdown-IsOutcome :
      (db : Db F) (ws : List (MetricWindow F)) (rows : List (MetricRow F))
      → db.queue ≡ []
      → System.opened sys ≡ true
      → System.schema_made sys ≡ true
      → System.config_inserted sys ≡ true
      → AreRows db.tag ws rows
      → IsOutcome
          (record { config = db.config_row ∷ []; metrics = [] })
          (stored (System.inserted sys) 0 rows)
          rows
          (shutdown json sys (insert_all json sys db ws))
  unfolding shutdown
  shutdown-IsOutcome db ws rows empty a b c h =
      let all = insert_all json sys db ws in
      let start : Tables F = record { config = db.config_row ∷ []; metrics = [] } in
      let queue : all.queue ++ shutdown_event ∷ [] ≡ queued ws =
        insert_all-queue db ws ∙ ap (λ q. q ++ queued ws) empty in
      let run : shutdown json sys all ≡ writer_loop json sys db.tag 0 start (queued ws) =
        run_writer-loop (record all { queue = all.queue ++ shutdown_event ∷ [] }) a b c
        ∙ ap
            (λ t.
              writer_loop json sys t 0 (record { config = all.config_row ∷ []; metrics = [] })
                (all.queue ++ shutdown_event ∷ []))
            (insert_all-tag db ws)
        ∙ ap
            (λ r.
              writer_loop json sys db.tag 0 (record { config = r ∷ []; metrics = [] })
                (all.queue ++ shutdown_event ∷ []))
            (insert_all-row db ws)
        ∙ ap (writer_loop json sys db.tag 0 start) queue in
      subst (IsOutcome start (stored (System.inserted sys) 0 rows) rows) (sym run)
        (writer_loop-IsOutcome db.tag 0 start ws rows h)
