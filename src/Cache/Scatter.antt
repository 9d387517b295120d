-- ===== src/Cache/Scatter.antt =====
-- How src/hf_cache_bridge.py splits the batch after the forward pass.
use mathlib.Core.Path.{ap₂}
use probe_guided_inference.Base.{
  ℕ, zero, suc, ◌+◌, ◌-◌, some, List, [], ◌∷◌, ◌++◌, map, ◌≡◌, ◌≢◌, refl, ap, ◌∙◌, arith, ok,
  length, get_elem?, drop, replicate, All, length-append, length-replicate, append_assoc,
  drop-append, slice_at,
}
use probe_guided_inference.Base.Dict
use probe_guided_inference.Base.Dict.{get-insert}
use probe_guided_inference.Backend.{Backend, Tensor, Past}
use probe_guided_inference.Model.{SeqRows, single, IsRow, HasLength, append_columns}
use probe_guided_inference.Cache.{
  BatchedSequenceCache, SeqCache, split_row, last_columns, slice_batch, scatter_from, seq_len,
}
use probe_guided_inference.Cache.Padding.{pad, padded}
use probe_guided_inference.Cache.Build.{Held, Stores}

module _ {C : Type 0} where
  trimmed :
      (z : C) (p n : ℕ) (row : List C) (c : C)
      → length row ≡ n
      → drop (length (pad z p row ++ c ∷ []) - (n + 1)) (pad z p row ++ c ∷ []) ≡ row ++ c ∷ []
  trimmed z p n row c h =
      let size : length (pad z p row ++ c ∷ []) - (n + 1) ≡ p = omega (
        arith,
        length-append (pad z p row) (c ∷ []),
        length-append (replicate p z) row,
        length-replicate p z,
      ) in
      rw (size, append_assoc) (drop-append p (replicate p z) (row ++ c ∷ []) (length-replicate p z))

  split_row_lem :
      (z : C) (p n i : ℕ) (past : Past C) (rows : SeqRows C) (columns : List (C × C))
      → HasLength n rows
      → IsRow i past (append_columns (padded z p rows) columns)
      → split_row i (n + 1) past ≡ single (append_columns rows columns)
  split_row_lem z p n i [] [] columns l r = refl
  split_row_lem z p n i [] (row ∷ rows) [] l r = refl
  split_row_lem z p n i [] (row ∷ rows) (c ∷ columns) l r = absurd r
  split_row_lem z p n i (layer ∷ past) [] columns l r = absurd r
  split_row_lem z p n i (layer ∷ past) (row ∷ rows) [] l r = absurd r
  split_row_lem z p n i ((k, v) ∷ past) ((kr, vr) ∷ rows) ((ck, cv) ∷ columns) l r =
      ap₂ (λ (here : Tensor C × Tensor C) (rest : Past C). here ∷ rest)
        (ap₂ (λ (x y : Tensor C). (x, y)) (cut k kr ck r.0 l.0.0) (cut v vr cv r.1 l.0.1))
        (split_row_lem z p n i past rows columns l.1 r.2)
    where
      cut :
          (t : Tensor C) (row : List C) (c : C)
          → get_elem? t i ≡ some (pad z p row ++ c ∷ [])
          → length row ≡ n
          → last_columns (n + 1) (slice_batch i t) ≡ (row ++ c ∷ []) ∷ []
      cut t row c at e = rw (slice_at i t at, trimmed z p n row c e)

  append_columns-HasLength :
      (n : ℕ) (rows : SeqRows C) (columns : List (C × C))
      → HasLength n rows
      → HasLength (n + 1) (append_columns rows columns)
  append_columns-HasLength n [] columns l = tt
  append_columns-HasLength n (row ∷ rows) [] l = tt
  append_columns-HasLength n ((k, v) ∷ rows) ((ck, cv) ∷ columns) l = (
    (
      omega (arith, length-append k (ck ∷ []), l.0.0),
      omega (arith, length-append v (cv ∷ []), l.0.1),
    ),
    append_columns-HasLength n rows columns l.1,
  )

  length-append_columns :
      (m : ℕ) (rows : SeqRows C) (columns : List (C × C))
      → length rows ≡ m
      → length columns ≡ m
      → length (append_columns rows columns) ≡ m
  length-append_columns m [] columns h k = h
  length-append_columns m (row ∷ rows) [] h k = absurd (omega arith)
  length-append_columns zero (row ∷ rows) (c ∷ columns) h k = absurd (omega arith)
  length-append_columns (suc m) (row ∷ rows) (c ∷ columns) h k =
      ap suc (length-append_columns m rows columns (omega arith) (omega arith))

abbrev pub Distinct : List ℕ → Type 0
Distinct [] = Unit
Distinct (n ∷ ns) = All (λ m. m ≢ n) ns × Distinct ns

module _ {b : Backend} where
  -- A sequence after a step that computed these columns for it.
  abbrev pub grown : Held b → List (b.Column × b.Column) → Held b
  grown s columns = record s { n = s.n + 1; rows = append_columns s.rows columns }

  abbrev pub ids_of : List (Held b) → List ℕ
  ids_of ss = map (λ s. s.id) ss

  -- The columns of each sequence, from row `i` of the batch on.
  abbrev pub Computed :
      ℕ → ℕ → ℕ → SeqCache b → List (Held b) → (Held b → List (b.Column × b.Column)) → Type 0
  Computed n_layers max_len i past [] columns = Unit
  Computed n_layers max_len i past (s ∷ ss) columns =
      IsRow i past (append_columns (padded b.zeros (max_len - s.n) s.rows) (columns s))
      × (length (columns s) ≡ n_layers)
      × Computed n_layers max_len (suc i) past ss columns

  -- The entries of the sequences that were not in the batch are those of before.
  pub record Untouched (ids : List ℕ) (c c' : BatchedSequenceCache b) : Type 0 where
    pub cache_same : (k : ℕ) → All (λ m. m ≢ k) ids → Dict.get k c'.cache ≡ Dict.get k c.cache
    pub lengths_same : (k : ℕ) → All (λ m. m ≢ k) ids → Dict.get k c'.lengths ≡ Dict.get k c.lengths

  abbrev pub written : ℕ → ℕ → SeqCache b → BatchedSequenceCache b → BatchedSequenceCache b
  written id n past c = record {
    cache = Dict.insert id past c.cache;
    lengths = Dict.insert id n c.lengths;
  }

  Stores-written :
      (c : BatchedSequenceCache b) (n_layers id n : ℕ) (past : SeqCache b) (ss : List (Held b))
      → All (λ m. m ≢ id) (ids_of ss)
      → All (Stores c n_layers) ss
      → All (Stores (written id n past c) n_layers) ss
  Stores-written c n_layers id n past [] d all = tt
  Stores-written c n_layers id n past (s ∷ ss) d (st, all) = (
    record {
      length_at = ground (arith, get-insert id s.id n c.lengths, st.length_at);
      cache_at = ground (arith, get-insert id s.id past c.cache, st.cache_at);
      columns = st.columns;
      layers = st.layers;
    },
    Stores-written c n_layers id n past ss d.1 all,
  )

  -- If the updated batch holds for each sequence of the batch its padded rows with one new
  -- column, splitting it stores for each sequence its own rows with its own column and no
  -- padding, with a length one greater, and leaves every other entry of the cache alone.
  pub scatter_from_lem :
      (n_layers max_len i : ℕ) (past : SeqCache b) (columns : Held b → List (b.Column × b.Column))
      (ss : List (Held b)) (c : BatchedSequenceCache b)
      → Distinct (ids_of ss)
      → All (Stores c n_layers) ss
      → Computed n_layers max_len i past ss columns
      → (c' : BatchedSequenceCache b) × (scatter_from i (ids_of ss) past c ≡ ok c')
        × All (λ s. Stores c' n_layers (grown s (columns s))) ss
        × Untouched (ids_of ss) c c'
  unfolding scatter_from seq_len
  scatter_from_lem n_layers max_len i past columns [] c d all k =
      (c, refl, tt, record { cache_same = λ k h. refl; lengths_same = λ k h. refl })
  scatter_from_lem n_layers max_len i past columns (s ∷ ss) c (d, ds) (st, all) (r, l, k) =
      let cut = split_row_lem b.zeros (max_len - s.n) s.n i past s.rows (columns s) st.columns r in
      let c₁ = written s.id (s.n + 1) (split_row i (s.n + 1) past) c in
      let stored = Stores-written c n_layers s.id (s.n + 1) (split_row i (s.n + 1) past) ss d all in
      let (c', e, grew, same) =
        scatter_from_lem n_layers max_len (suc i) past columns ss c₁ ds stored k in
      (
        c',
        rw st.length_at e,
        (
          record {
            length_at =
                same.lengths_same s.id d ∙ get-insert s.id s.id (s.n + 1) c.lengths ∙ ground arith;
            cache_at =
                same.cache_same s.id d
                ∙ get-insert s.id s.id (split_row i (s.n + 1) past) c.cache
                ∙ ground (arith, cut);
            columns = append_columns-HasLength s.n s.rows (columns s) st.columns;
            layers = length-append_columns n_layers s.rows (columns s) st.layers l;
          },
          grew,
        ),
        record {
          cache_same = λ j h.
              same.cache_same j h.1
              ∙ get-insert s.id j (split_row i (s.n + 1) past) c.cache
              ∙ ground (arith, h.0);
          lengths_same = λ j h.
              same.lengths_same j h.1 ∙ get-insert s.id j (s.n + 1) c.lengths ∙ ground (arith, h.0);
        },
      )
