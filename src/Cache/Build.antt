-- ===== src/Cache/Build.antt =====
-- The batch that src/hf_cache_bridge.py builds out of the sequences that it holds.
use probe_guided_inference.Base.{
  ℕ, zero, suc, ◌+◌, ◌-◌, ◌≤◌, ◌<◌, max, some, List, [], ◌∷◌, map, ◌≡◌, refl, ap, ◌∙◌, arith, ok,
  traverse, length, get_elem?, drop, replicate, All, length-append, length-replicate, All-map,
  length-map, get_elem?-map, drop-get_or, drop_all,
}
use probe_guided_inference.Backend.{Backend, Tensor}
use probe_guided_inference.Model.{SeqRows, single, IsRow, IsTensor, HasLength}
use probe_guided_inference.Cache.{
  BatchedSequenceCache, SeqCache, padded_rows, batched_layers, mask_row, maximum, seq_len, Built,
  build_batch,
}
use probe_guided_inference.Base.Dict
use probe_guided_inference.Cache.Padding.{
  pad, padded, pad_left_row, cat_batch_rows, layer_at, layer_at-single, layer_length,
}

-- A sequence that the cache holds: its identifier, its length and its rows, with the newest token,
-- whose columns are not in the cache yet.
pub record Held (b : Backend) : Type 0 where
  pub id : ℕ
  pub n : ℕ
  pub rows : SeqRows b.Column
  pub token : ℕ

module _ {b : Backend} where
  pub record Stores (c : BatchedSequenceCache b) (n_layers : ℕ) (s : Held b) : Type 0 where
    pub length_at : Dict.get s.id c.lengths ≡ some s.n
    pub cache_at : Dict.get s.id c.cache ≡ some (single s.rows)
    pub columns : HasLength s.n s.rows
    pub layers : length s.rows ≡ n_layers

  abbrev pub key_row : ℕ → ℕ → Held b → List b.Column
  key_row max_len j s = pad b.zeros (max_len - s.n) (layer_at j s.rows).0

  abbrev pub value_row : ℕ → ℕ → Held b → List b.Column
  value_row max_len j s = pad b.zeros (max_len - s.n) (layer_at j s.rows).1

  padded_rows_lem :
      (c : BatchedSequenceCache b) (max_len n_layers j : ℕ) (ss : List (Held b))
      → j < n_layers
      → All (Stores c n_layers) ss
      → padded_rows c max_len j (map (λ s. s.id) ss) (map (λ s. s.n) ss)
        ≡ ok (
          map (λ r. r ∷ []) (map (key_row max_len j) ss),
          map (λ r. r ∷ []) (map (value_row max_len j) ss),
        )
  unfolding padded_rows
  padded_rows_lem c max_len n_layers j [] h all = refl
  padded_rows_lem c max_len n_layers j (s ∷ ss) h (st, all) =
      rw (st.cache_at, layer_at-single j s.rows (omega (arith, st.layers)))
        (rw (
          pad_left_row b.zeros (max_len - s.n) (layer_at j s.rows).0,
          pad_left_row b.zeros (max_len - s.n) (layer_at j s.rows).1,
          padded_rows_lem c max_len n_layers j ss h all,
        ))

  -- The rows of layer `j` in the batch.
  abbrev pub batch_layer : ℕ → List (Held b) → ℕ → Tensor b.Column × Tensor b.Column
  batch_layer max_len ss j = (map (key_row max_len j) ss, map (value_row max_len j) ss)

  abbrev pub batch_from : ℕ → List (Held b) → ℕ → ℕ → SeqCache b
  batch_from max_len ss zero j = []
  batch_from max_len ss (suc todo) j = batch_layer max_len ss j ∷ batch_from max_len ss todo (suc j)

  -- All rows of a layer have the length of the longest sequence.
  rows_aligned :
      (c : BatchedSequenceCache b) (max_len n_layers j : ℕ) (ss : List (Held b))
      → j < n_layers
      → All (Stores c n_layers) ss
      → All (λ s. s.n ≤ max_len) ss
      → All (λ r. length r ≡ max_len) (map (key_row max_len j) ss)
        × All (λ r. length r ≡ max_len) (map (value_row max_len j) ss)
  rows_aligned c max_len n_layers j [] h all low = (tt, tt)
  rows_aligned c max_len n_layers j (s ∷ ss) h (st, all) (le, low) =
      let (ks, vs) = rows_aligned c max_len n_layers j ss h all low in
      let (kl, vl) = layer_length s.n j s.rows (omega (arith, st.layers)) st.columns in
      let len = λ (r : List b.Column) (e : length r ≡ s.n).
        length-append (replicate (max_len - s.n) b.zeros) r in
      (
        (omega (arith, len (layer_at j s.rows).0 kl, length-replicate (max_len - s.n) b.zeros), ks),
        (omega (arith, len (layer_at j s.rows).1 vl, length-replicate (max_len - s.n) b.zeros), vs),
      )

  batched_layers_lem :
      (c : BatchedSequenceCache b) (max_len n_layers : ℕ) (ss : List (Held b)) (todo j : ℕ)
      → j + todo ≡ n_layers
      → All (Stores c n_layers) ss
      → All (λ s. s.n ≤ max_len) ss
      → batched_layers c max_len (map (λ s. s.id) ss) (map (λ s. s.n) ss) todo j
        ≡ ok (batch_from max_len ss todo j)
  unfolding batched_layers
  batched_layers_lem c max_len n_layers ss zero j h all low = refl
  batched_layers_lem c max_len n_layers ss (suc todo) j h all low =
      let (ks, vs) = rows_aligned c max_len n_layers j ss (omega arith) all low in
      rw (padded_rows_lem c max_len n_layers j ss (omega arith) all) (
        rw (
          cat_batch_rows max_len (map (key_row max_len j) ss) ks,
          cat_batch_rows max_len (map (value_row max_len j) ss) vs,
          batched_layers_lem c max_len n_layers ss todo (suc j) (omega arith) all low,
        ))

  -- The shape of the batch.
  pub batch_from-columns :
      (c : BatchedSequenceCache b) (max_len n_layers : ℕ) (ss : List (Held b)) (todo j : ℕ)
      → j + todo ≡ n_layers
      → All (Stores c n_layers) ss
      → All (λ s. s.n ≤ max_len) ss
      → (length (batch_from max_len ss todo j) ≡ todo)
        × All
            (λ (l : Tensor b.Column × Tensor b.Column).
              IsTensor (length ss) max_len l.0 × IsTensor (length ss) max_len l.1)
            (batch_from max_len ss todo j)
  batch_from-columns c max_len n_layers ss zero j h all low = (refl, tt)
  batch_from-columns c max_len n_layers ss (suc todo) j h all low =
      let (ks, vs) = rows_aligned c max_len n_layers j ss (omega arith) all low in
      let (size, later) =
        batch_from-columns c max_len n_layers ss todo (suc j) (omega arith) all low in
      (
        ap suc size,
        (
          ((length-map (key_row max_len j) ss, ks), (length-map (value_row max_len j) ss, vs)),
          later,
        ),
      )

  -- Row `i` of the batch is the padded cache of sequence `i`.
  pub batch_from-IsRow :
      (max_len n_layers : ℕ) (ss : List (Held b)) (todo j i : ℕ) {s : Held b}
      → j + todo ≡ n_layers
      → get_elem? ss i ≡ some s
      → length s.rows ≡ n_layers
      → IsRow i (batch_from max_len ss todo j) (padded b.zeros (max_len - s.n) (drop j s.rows))
  batch_from-IsRow max_len n_layers ss zero j i {s} h at e = rw (drop_all j s.rows (omega arith)) tt
  batch_from-IsRow max_len n_layers ss (suc todo) j i {s} h at e =
      rw (drop-get_or j s.rows ([], []) (omega arith)) (
        get_elem?-map (key_row max_len j) ss i at,
        get_elem?-map (value_row max_len j) ss i at,
        batch_from-IsRow max_len n_layers ss todo (suc j) i (omega arith) at e,
      )

maximum_lem :
    (n : ℕ) (ns : List ℕ) → (m : ℕ) × (maximum (n ∷ ns) ≡ ok m) × All (λ k. k ≤ m) (n ∷ ns)
unfolding maximum
maximum_lem n [] = (n, refl, (omega arith, tt))
maximum_lem n (k ∷ ns) =
    let (m, e, low) = maximum_lem k ns in
    (max n m, rw e, (omega arith, All-map (λ j (h : j ≤ m). omega arith) (k ∷ ns) low))

module _ {b : Backend} where
  lengths_lem :
      (c : BatchedSequenceCache b) (n_layers : ℕ) (ss : List (Held b))
      → All (Stores c n_layers) ss
      → traverse (λ s. seq_len s c) (map (λ s. s.id) ss) ≡ ok (map (λ s. s.n) ss)
  unfolding seq_len
  lengths_lem c n_layers [] all = refl
  lengths_lem c n_layers (s ∷ ss) (st, all) = rw (st.length_at, lengths_lem c n_layers ss all)

  All-unmap :
      (m : ℕ) (ss : List (Held b)) → All (λ k. k ≤ m) (map (λ s. s.n) ss) → All (λ s. s.n ≤ m) ss
  All-unmap m [] h = tt
  All-unmap m (s ∷ ss) h = (h.0, All-unmap m ss h.1)

  abbrev pub built : ℕ → ℕ → List (Held b) → Built b
  built n_layers max_len ss = record {
    batched = batch_from max_len ss n_layers 0;
    attention_mask = map (mask_row max_len) (map (λ s. s.n) ss);
    position_ids = map (λ s. s.n) ss;
    max_len = max_len;
  }

  -- For a non-empty list of held sequences of any lengths a batch is built: its layers are the
  -- padded rows of the sequences in order, its mask and positions those of their lengths, and
  -- its maximal length bounds every length.
  pub build_batch_lem :
      (c : BatchedSequenceCache b) (n_layers : ℕ) (s : Held b) (ss : List (Held b))
      → 0 < n_layers
      → All (Stores c n_layers) (s ∷ ss)
      → (max_len : ℕ) × (build_batch (map (λ s. s.id) (s ∷ ss)) c
          ≡ ok (built n_layers max_len (s ∷ ss)))
        × All (λ s. s.n ≤ max_len) (s ∷ ss)
  unfolding build_batch
  build_batch_lem c n_layers s ss some_layer all =
      let (m, e, low) = maximum_lem s.n (map (λ s. s.n) ss) in
      let fits = All-unmap m (s ∷ ss) low in
      let sample = layer_at-single 0 s.rows (omega (arith, all.0.layers)) in
      let size : length (single s.rows) ≡ n_layers = length-map _ s.rows ∙ all.0.layers in
      (
        m,
        rw (lengths_lem c n_layers (s ∷ ss) all) (
            rw (e, all.0.cache_at)
              (rw (sample, size)
                (rw (batched_layers_lem c m n_layers (s ∷ ss) n_layers 0 (omega arith) all fits)))),
        fits,
      )
