-- ===== src/Analyze/Rows.antt =====
-- From a window to the row of the database, and back to what `load` reads.
use tperf.Common.{
  ◌<◌, ◌≡◌, sym, ap, ◌∙◌, arith, some, Option-cases, inl, inr, List, Text, u64_mod, as_i64, as_u64,
  as_u64-as_i64,
}
use tperf.Proto.{MetricWindow, PeerMetrics}
use tperf.Db.{Json, MetricRow, metric_row}
use tperf.Analyze.{raw_row}

-- What serde_json promises: it reads back the peers that it wrote.
abbrev pub IsFaithful : Json → Type 0
IsFaithful json =
    (peers : List PeerMetrics) (text : Text)
    → Json.peers_to json peers ≡ some text
    → Json.peers_from json text ≡ some peers

module _ {F : Type 0} where
  -- What `load` reads of a window's row is what the window held: the casts to the signed integers
  -- of the database and back lose nothing of a u64, also of one past the greatest i64, and the
  -- peers are those of the window.
  pub raw_row-metric_row :
      (json : Json) (tag : Text) (w : MetricWindow F) (r : MetricRow F)
      → IsFaithful json
      → w.wall_start_ns < u64_mod
      → w.duration_ns < u64_mod
      → w.bytes_sent < u64_mod
      → metric_row json tag w ≡ some r
      → ((raw_row r).server ≡ w.server)
        × ((raw_row r).wall_start_ns ≡ w.wall_start_ns)
        × ((raw_row r).duration_ns ≡ w.duration_ns)
        × ((raw_row r).bytes_sent ≡ w.bytes_sent)
        × ((raw_row r).send_bps ≡ w.send_bps)
        × (Json.peers_from json (raw_row r).peers_json ≡ some w.peers)
  unfolding raw_row metric_row
  raw_row-metric_row json tag w r faithful a b c e =
      elim (Option-cases (Json.peers_to json w.peers)) [
        | inl n ↦ absurd (ground arith)
        | inr (text, q) ↦
            let back = faithful w.peers text q in
            let server : r.server ≡ w.server = ground arith in
            let start : r.wall_start_ns ≡ as_i64 w.wall_start_ns = ground arith in
            let duration : r.duration_ns ≡ as_i64 w.duration_ns = ground arith in
            let bytes : r.bytes_sent ≡ as_i64 w.bytes_sent = ground arith in
            let rate : r.send_bps ≡ w.send_bps = ground arith in
            let peers : text ≡ r.peers_json = ground arith in
            (
              server,
              ap as_u64 start ∙ as_u64-as_i64 w.wall_start_ns a,
              ap as_u64 duration ∙ as_u64-as_i64 w.duration_ns b,
              ap as_u64 bytes ∙ as_u64-as_i64 w.bytes_sent c,
              rate,
              ap (Json.peers_from json) (sym peers) ∙ back,
            )
      ]
