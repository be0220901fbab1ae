-- ===== src/Analyze/Samples.antt =====
-- The samples of each pair of hosts.
use tperf.Common.{
  All, ℕ, List, [], ◌∷◌, ◌++◌, Option, none, some, Bool, true, false, ◌&&◌, ◌||◌, not, ◌≡◌, refl,
  sym, ap, ◌∙◌, subst, arith, Text, text_eq, text_eq→eq, text_eq_refl, if◌then◌else◌, ◌==◌, ltb,
  leb, append_assoc, append-nil, Bool-cases, Option-cases, inl, inr, ok, Float, lookup, upsert,
  unwrap_or, IsMap, upsert-IsMap, lookup-upsert_self, lookup-upsert_ne, Order, pair_order,
  text_order,
}
use tperf.Proto.{PeerMetrics}
use tperf.Db.{Json}
use tperf.Analyze.{
  Samples, PairSamples, min_window_ns, add_peers, add_total, load_rows, RawRow, Collected,
}

-- Does a peer of a row stand for a sample of the pair of `src` and `dst`: bytes that the server
-- `src` sent to another host `dst`, in a window that is long enough?
unfoldable pub is_sample : Text → Text → Text → ℕ → PeerMetrics → Bool
unfolding text_eq
is_sample src dst server duration_ns p =
    not (text_eq src dst)
    && text_eq server src
    && text_eq p.peer dst
    && ltb 0 p.bytes_sent
    && leb min_window_ns duration_ns

unfoldable pub peer_samples : Text → Text → Text → ℕ → List PeerMetrics → Samples
unfolding is_sample
peer_samples src dst server duration_ns [] = []
peer_samples src dst server duration_ns (p ∷ peers) =
    let rest = peer_samples src dst server duration_ns peers in
    if is_sample src dst server duration_ns p then (p.bytes_sent, duration_ns) ∷ rest else rest

abbrev pub key_order : Order (Text × Text)
key_order = pair_order text_order

-- The samples of a pair, none where it has no entry.
abbrev pub samples_at : PairSamples → Text → Text → Samples
samples_at m src dst = unwrap_or key_order [] (lookup key_order m (src, dst))

abbrev sample_of : Text → Text → Text → ℕ → PeerMetrics → Samples
sample_of src dst server d p = if is_sample src dst server d p then (p.bytes_sent, d) ∷ [] else []

abbrev skips : Text → ℕ → PeerMetrics → Bool
skips server d p = text_eq p.peer server || p.bytes_sent == 0 || ltb d min_window_ns

text_ne_sym : (s t : Text) → text_eq s t ≡ false → text_eq t s ≡ false
text_ne_sym s t h = elim (Bool-cases (text_eq t s)) [
  | inr f ↦ f
  | inl e ↦
      let same : text_eq t t ≡ false =
        subst (λ x. text_eq x t ≡ false) (sym (text_eq→eq t s e)) h in
      let always = text_eq_refl t in cc
]

is_sample-skipped :
    (src dst server : Text) (d : ℕ) (p : PeerMetrics)
    → skips server d p ≡ true
    → is_sample src dst server d p ≡ false
unfolding is_sample
is_sample-skipped src dst server d p h = elim (Bool-cases (is_sample src dst server d p)) [
  | inr f ↦ f
  | inl t ↦
      let s : text_eq server src ≡ true = ground arith in
      let r : text_eq p.peer dst ≡ true = ground arith in
      let n : text_eq src dst ≡ false = ground arith in
      let w : text_eq p.peer server ≡ true = ground arith in
      let other : text_eq dst src ≡ false = text_ne_sym src dst n in
      let w' : text_eq dst src ≡ true =
        subst (λ x. text_eq x src ≡ true) (text_eq→eq p.peer dst r)
          (subst (λ x. text_eq p.peer x ≡ true) (text_eq→eq server src s) w) in
      cc
]

sample_of-yes :
    (src dst server : Text) (d : ℕ) (p : PeerMetrics)
    → is_sample src dst server d p ≡ true
    → sample_of src dst server d p ≡ (p.bytes_sent, d) ∷ []
sample_of-yes src dst server d p c = rw c

sample_of-no :
    (src dst server : Text) (d : ℕ) (p : PeerMetrics)
    → is_sample src dst server d p ≡ false
    → sample_of src dst server d p ≡ []
sample_of-no src dst server d p c = rw c

entry :
    (m : PairSamples) (src dst server : Text) (d : ℕ) (p : PeerMetrics)
    → IsMap key_order m
    → skips server d p ≡ false
    → samples_at
        (upsert key_order (server, p.peer) [] (λ xs. xs ++ (p.bytes_sent, d) ∷ []) m)
        src
        dst
      ≡ samples_at m src dst ++ sample_of src dst server d p
unfolding is_sample
entry m src dst server d p h k = elim (Bool-cases (text_eq server src && text_eq p.peer dst)) [
  | inl t ↦
      let s : server ≡ src = text_eq→eq server src (ground arith) in
      let r : p.peer ≡ dst = text_eq→eq p.peer dst (ground arith) in
      let apart : text_eq p.peer server ≡ false = ground arith in
      let n : text_eq src dst ≡ false =
        text_ne_sym dst src
          (subst (λ x. text_eq x src ≡ false) r (subst (λ x. text_eq p.peer x ≡ false) s apart)) in
      let c : is_sample src dst server d p ≡ true = ground arith in
      let key : (server, p.peer) ≡ (src, dst) = λ i. (s i, r i) in
      let at =
        lookup-upsert_self key_order (server, p.peer) [] (λ xs. xs ++ (p.bytes_sent, d) ∷ []) m h in
      subst
        (λ q.
          unwrap_or key_order [] (
            lookup key_order
              (upsert key_order (server, p.peer) [] (λ xs. xs ++ (p.bytes_sent, d) ∷ []) m) q)
          ≡ unwrap_or key_order [] (lookup key_order m q) ++ (p.bytes_sent, d) ∷ [])
        key (ap (unwrap_or key_order []) at)
      ∙ ap (λ xs. samples_at m src dst ++ xs) (sym (sample_of-yes src dst server d p c))
  | inr f ↦
      let c : is_sample src dst server d p ≡ false = ground arith in
      ap (unwrap_or key_order []) (
        lookup-upsert_ne key_order (server, p.peer) (src, dst) []
          (λ xs. xs ++ (p.bytes_sent, d) ∷ []) m f)
      ∙ sym (append-nil _)
      ∙ ap (λ xs. samples_at m src dst ++ xs) (sym (sample_of-no src dst server d p c))
]

abbrev next_map : PairSamples → Text → ℕ → PeerMetrics → PairSamples
next_map m server d p =
    if skips server d p
    then m
    else upsert key_order (server, p.peer) [] (λ xs. xs ++ (p.bytes_sent, d) ∷ []) m

one_peer :
    (m : PairSamples) (src dst server : Text) (d : ℕ) (p : PeerMetrics)
    → IsMap key_order m
    → (samples_at (next_map m server d p) src dst
        ≡ samples_at m src dst ++ sample_of src dst server d p)
      × IsMap key_order (next_map m server d p)
one_peer m src dst server d p h = elim (Bool-cases (skips server d p)) [
  | inl t ↦ rw t (
    sym (append-nil _)
        ∙ ap (λ xs. samples_at m src dst ++ xs)
            (sym (sample_of-no src dst server d p (is_sample-skipped src dst server d p t))),
    h,
  )
  | inr f ↦ rw f (
    entry m src dst server d p h f,
    upsert-IsMap key_order (server, p.peer) [] (λ xs. xs ++ (p.bytes_sent, d) ∷ []) m h,
  )
]

peer_samples-cons :
    (src dst server : Text) (d : ℕ) (p : PeerMetrics) (peers : List PeerMetrics)
    → sample_of src dst server d p ++ peer_samples src dst server d peers
      ≡ peer_samples src dst server d (p ∷ peers)
unfolding peer_samples
peer_samples-cons src dst server d p peers = elim (Bool-cases (is_sample src dst server d p)) [
  | inl t ↦ rw t
  | inr f ↦ rw f
]

add_peers-samples :
    (src dst server : Text) (d : ℕ) (peers : List PeerMetrics) (m : PairSamples)
    → IsMap key_order m
    → (samples_at (add_peers server d peers m) src dst
        ≡ samples_at m src dst ++ peer_samples src dst server d peers)
      × IsMap key_order (add_peers server d peers m)
unfolding add_peers peer_samples
add_peers-samples src dst server d [] m h = (sym (append-nil _), h)
add_peers-samples src dst server d (p ∷ peers) m h =
    let (step, h') = one_peer m src dst server d p h in
    let (rest, h'') = add_peers-samples src dst server d peers (next_map m server d p) h' in
    (
      rest
          ∙ ap (λ xs. xs ++ peer_samples src dst server d peers) step
          ∙ append_assoc (samples_at m src dst) (sample_of src dst server d p)
              (peer_samples src dst server d peers)
          ∙ ap (λ xs. samples_at m src dst ++ xs) (peer_samples-cons src dst server d p peers),
      h'',
    )

module _ {F : Type 0} (float : Float F) where
  -- The samples of a pair that the rows hold, each row's peers read from its text.
  unfoldable pub row_samples : Json → Text → Text → List (Option (RawRow F)) → Samples
  unfolding peer_samples
  row_samples json src dst [] = []
  row_samples json src dst (none ∷ rows) = row_samples json src dst rows
  row_samples json src dst (some row ∷ rows) = elim (Json.peers_from json row.peers_json) [
    | none ↦ row_samples json src dst rows
    | some peers ↦
        peer_samples src dst row.server row.duration_ns peers ++ row_samples json src dst rows
  ]

  add_total-pairs :
      (row : RawRow F) (c : Collected F) → (add_total float row c).pair_samples ≡ c.pair_samples
  unfolding add_total
  add_total-pairs row c =
      elim (Bool-cases (leb min_window_ns row.duration_ns && ltb 0 row.bytes_sent)) [
        | inl t ↦ rw t
        | inr f ↦ rw f
      ]

  row_samples-cons :
      (json : Json) (src dst : Text) (row : RawRow F) (rows : List (Option (RawRow F)))
      (peers : List PeerMetrics)
      → Json.peers_from json row.peers_json ≡ some peers
      → peer_samples src dst row.server row.duration_ns peers ++ row_samples json src dst rows
        ≡ row_samples json src dst (some row ∷ rows)
  unfolding row_samples
  row_samples-cons json src dst row rows peers q = rw (q, row_samples) refl

  load_rows-pairs :
      (json : Json) (src dst : Text) (rows : List (Option (RawRow F))) (c c' : Collected F)
      → IsMap key_order c.pair_samples
      → load_rows float json rows c ≡ ok c'
      → (samples_at c'.pair_samples src dst
          ≡ samples_at c.pair_samples src dst ++ row_samples json src dst rows)
        × IsMap key_order c'.pair_samples
  unfolding load_rows row_samples
  load_rows-pairs json src dst [] c c' h e =
      let q : c ≡ c' = ground arith in
      subst
        (λ x.
          (samples_at x.pair_samples src dst ≡ samples_at c.pair_samples src dst ++ [])
          × IsMap key_order x.pair_samples)
        q (sym (append-nil _), h)
  load_rows-pairs json src dst (none ∷ rows) c c' h e = absurd (ground arith)
  load_rows-pairs json src dst (some row ∷ rows) c c' h e =
      elim (Option-cases (Json.peers_from json row.peers_json)) [
        | inl n ↦ absurd (ground arith)
        | inr (peers, q) ↦
            let m1 = add_peers row.server row.duration_ns peers c.pair_samples in
            let c1 = add_total float row (record c { pair_samples = m1 }) in
            let (s1, h1) =
              add_peers-samples src dst row.server row.duration_ns peers c.pair_samples h in
            let same : c1.pair_samples ≡ m1 =
              add_total-pairs row (record c { pair_samples = m1 }) in
            let e' : load_rows float json rows c1 ≡ ok c' = ground arith in
            let (rest, h2) =
              load_rows-pairs json src dst rows c1 c' (subst (IsMap key_order) (sym same) h1) e' in
            (
              rest
                  ∙ ap (λ m. samples_at m src dst ++ row_samples json src dst rows) same
                  ∙ ap (λ xs. xs ++ row_samples json src dst rows) s1
                  ∙ append_assoc (samples_at c.pair_samples src dst)
                      (peer_samples src dst row.server row.duration_ns peers)
                      (row_samples json src dst rows)
                  ∙ ap (λ xs. samples_at c.pair_samples src dst ++ xs)
                      (row_samples-cons json src dst row rows peers q),
              h2,
            )
      ]

  abbrev pub nothing : Collected F
  nothing = record { pair_samples = []; bucket_bps = []; total_samples = [] }

  -- A row that is there, with a text of peers that serde_json reads.
  abbrev pub IsReadable : Json → Option (RawRow F) → Type 0
  IsReadable json none = ⊥
  IsReadable json (some row) =
      (peers : List PeerMetrics) × (Json.peers_from json row.peers_json ≡ some peers)

  load_rows_step :
      (json : Json) (row : RawRow F) (rows : List (Option (RawRow F))) (c : Collected F)
      (peers : List PeerMetrics)
      → Json.peers_from json row.peers_json ≡ some peers
      → load_rows float json (some row ∷ rows) c
        ≡ load_rows float json rows (
            add_total float row (record c {
              pair_samples = add_peers row.server row.duration_ns peers c.pair_samples;
            }))
  unfolding load_rows
  load_rows_step json row rows c peers q = rw (q, load_rows) refl

  load_rows-IsReadable :
      (json : Json) (rows : List (Option (RawRow F))) (c : Collected F)
      → All (IsReadable json) rows
      → (c' : Collected F) × (load_rows float json rows c ≡ ok c')
  unfolding load_rows
  load_rows-IsReadable json [] c h = (c, refl)
  load_rows-IsReadable json (none ∷ rows) c (p, h) = absurd p
  load_rows-IsReadable json (some row ∷ rows) c ((peers, q), h) =
      let (c', e) =
        load_rows-IsReadable json rows
          (add_total float row
            (record c { pair_samples = add_peers row.server row.duration_ns peers c.pair_samples }))
          h in
      (c', load_rows_step json row rows c peers q ∙ e)

  -- Where each row can be read, with its peers, `load` collects them. The map that it builds is
  -- sorted by its keys, and it holds for each pair of hosts exactly the samples that the rows have
  -- for it, in the order of the rows: what the source sent to that peer, of another name, in
  -- windows of 50 ms at least.
  pub load_rows-samples :
      (json : Json) (rows : List (Option (RawRow F)))
      → All (IsReadable json) rows
      → (c : Collected F) × (load_rows float json rows nothing ≡ ok c)
        × IsMap key_order c.pair_samples
        × ((src dst : Text) → samples_at c.pair_samples src dst ≡ row_samples json src dst rows)
  load_rows-samples json rows h =
      let (c, e) = load_rows-IsReadable json rows nothing h in
      (
        c,
        e,
        (load_rows-pairs json [] [] rows nothing c tt e).1,
        λ src dst. (load_rows-pairs json src dst rows nothing c tt e).0,
      )
