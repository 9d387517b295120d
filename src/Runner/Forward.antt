-- ===== src/Runner/Forward.antt =====
-- The forward pass of a batch through the cache bridge of src/hf_cache_bridge.py, against the
-- model on each sequence alone.
use native.Mathlib.Nat.{zero-add, add-zero, add-suc, suc-add}
use probe_guided_inference.Base.{
  sym, ℕ, zero, suc, ◌-◌, ◌≤◌, some, List, [], ◌∷◌, map, ◌≡◌, refl, ◌∙◌, arith, index_error, ok,
  or_raise, traverse, get_elem?, get_last?, All, All₂, get_elem?-map, subst, ◌+◌, length,
  length-map,
}
use probe_guided_inference.Backend.{Backend, Batch, Output, Tensor}
use probe_guided_inference.Model.{IsRowWise, IsBatch, IsTensor, RowOutput, IsRow, append_columns}
use probe_guided_inference.Queue.{GenerationRequest}
use probe_guided_inference.Cache.{BatchedSequenceCache, scatter_updated_batch, mask_row}
use probe_guided_inference.Cache.Padding.{padded, visible-padded, mask_row-new, length-mask_row}
use probe_guided_inference.Cache.Build.{
  Held, Stores, batch_from, batch_from-IsRow, batch_from-columns, built, build_batch_lem,
}
use probe_guided_inference.Cache.Scatter.{
  Distinct, Computed, Untouched, grown, ids_of, scatter_from_lem,
}
use probe_guided_inference.Runner.{forward}

module _ {b : Backend} (w : IsRowWise b) where
  -- What the model computes for a sequence alone.
  abbrev pub alone : Held b → RowOutput b
  alone s = w.row s.rows s.token s.n

  -- The request is the sequence's, and its last token the newest one.
  abbrev pub Matches : GenerationRequest b → Held b → Type 0
  Matches r s = (r.request_id ≡ s.id) × (get_last? r.generated_ids ≡ some s.token)

  abbrev batch_of : ℕ → List (Held b) → Batch b.Column
  batch_of max_len ss = record {
    input_ids = map (λ s. s.token) ss;
    attention_mask = (built w.n_layers max_len ss).attention_mask;
    position_ids = (built w.n_layers max_len ss).position_ids;
    past = (built w.n_layers max_len ss).batched;
  }

  masks_of :
      (max_len : ℕ) (ns : List ℕ)
      → All (λ mask. length mask ≡ max_len + 1) (map (mask_row max_len) ns)
  masks_of max_len [] = tt
  masks_of max_len (n ∷ ns) = (length-mask_row max_len n, masks_of max_len ns)

  abbrev IsShaped : ℕ → List (Held b) → Type 0
  IsShaped max_len ss = IsBatch w.n_layers max_len (batch_of max_len ss)

  batch_of-IsBatch :
      (c : BatchedSequenceCache b) (max_len : ℕ) (ss : List (Held b))
      → All (λ s. s.n ≤ max_len) ss
      → All (Stores c w.n_layers) ss
      → IsShaped max_len ss
  batch_of-IsBatch c max_len ss low st =
      let tokens = length-map (λ (s : Held b). s.token) ss in
      let lengths = length-map (λ (s : Held b). s.n) ss in
      let (layers, columns) =
        batch_from-columns c max_len w.n_layers ss w.n_layers 0 (omega arith) st low in
      record {
        positions = lengths ∙ sym tokens;
        masks = (
          length-map (mask_row max_len) (map (λ s. s.n) ss) ∙ lengths ∙ sym tokens,
          masks_of max_len (map (λ s. s.n) ss),
        );
        layers = layers;
        columns =
            subst
              (λ n.
                All
                  (λ (l : Tensor b.Column × Tensor b.Column).
                    IsTensor n max_len l.0 × IsTensor n max_len l.1)
                  (batch_from max_len ss w.n_layers 0))
              (sym tokens) columns;
      }

  decode-alone :
      (c : BatchedSequenceCache b) (max_len i : ℕ) (ss : List (Held b)) (s : Held b)
      → get_elem? ss i ≡ some s
      → s.n ≤ max_len
      → IsShaped max_len ss
      → Stores c w.n_layers s
      → let out = b.decode (batch_of max_len ss) in
        (get_elem? out.logits i ≡ some (alone s).logits)
        × (get_elem? out.hidden i ≡ some (alone s).hidden)
        × IsRow i out.past_key_values
            (append_columns (padded b.zeros (max_len - s.n) s.rows) (alone s).columns)
  decode-alone c max_len i ss s at fits shaped st =
      subst Answers (visible-padded b.zeros max_len s.n s.rows fits st.columns) (
        w.decode_row (batch_of max_len ss) max_len i s.token s.n (mask_row max_len s.n)
          (padded b.zeros (max_len - s.n) s.rows) shaped (mask_row-new max_len s.n fits)
          (get_elem?-map (λ s. s.token) ss i at) lengths
          (get_elem?-map (mask_row max_len) (map (λ s. s.n) ss) i lengths)
          (batch_from-IsRow max_len w.n_layers ss w.n_layers 0 i (omega arith) at st.layers))
    where
      lengths : get_elem? (map (λ (s : Held b). s.n) ss) i ≡ some s.n
      lengths = get_elem?-map (λ s. s.n) ss i at

      Answers : List (List b.Column × List b.Column) → Type 0
      Answers rows =
          let out = b.decode (batch_of max_len ss) in
          let answer = w.row rows s.token s.n in
          (get_elem? out.logits i ≡ some answer.logits)
          × (get_elem? out.hidden i ≡ some answer.hidden)
          × IsRow i out.past_key_values
              (append_columns (padded b.zeros (max_len - s.n) s.rows) answer.columns)

  tokens_lem :
      (rs : List (GenerationRequest b)) (ss : List (Held b))
      → All₂ Matches rs ss
      → traverse (λ (r : GenerationRequest b). or_raise index_error (get_last? r.generated_ids)) rs
        ≡ ok (map (λ s. s.token) ss)
  tokens_lem [] [] m = refl
  tokens_lem [] (s ∷ ss) m = absurd m
  tokens_lem (r ∷ rs) [] m = absurd m
  tokens_lem (r ∷ rs) (s ∷ ss) m = rw (m.0.1, tokens_lem rs ss m.1)

  ids_lem :
      (rs : List (GenerationRequest b)) (ss : List (Held b))
      → All₂ Matches rs ss
      → map (λ (r : GenerationRequest b). r.request_id) rs ≡ ids_of ss
  ids_lem [] [] m = refl
  ids_lem [] (s ∷ ss) m = absurd m
  ids_lem (r ∷ rs) [] m = absurd m
  ids_lem (r ∷ rs) (s ∷ ss) m = rw (m.0.0, ids_lem rs ss m.1)

  Computed-forward :
      (c : BatchedSequenceCache b) (max_len : ℕ) (all rest : List (Held b)) (i : ℕ)
      → ((j : ℕ) (s : Held b) → get_elem? rest j ≡ some s → get_elem? all (i + j) ≡ some s)
      → IsShaped max_len all
      → All (λ s. s.n ≤ max_len) rest
      → All (Stores c w.n_layers) rest
      → Computed w.n_layers max_len i
          (b.decode (batch_of max_len all)).past_key_values
          rest
          (λ s. (alone s).columns)
  Computed-forward c max_len all [] i at shaped low st = tt
  Computed-forward c max_len all (s ∷ rest) i at shaped low st =
      let here : get_elem? all i ≡ some s =
        subst (λ k. get_elem? all k ≡ some s) (add-zero i) (at 0 s refl) in
      (
        (decode-alone c max_len i all s here low.0 shaped st.0).2,
        w.row_layers s.rows s.token s.n st.0.layers,
        Computed-forward c max_len all rest (suc i)
            (λ j t e.
              subst (λ k. get_elem? all k ≡ some t) (add-suc i j ∙ sym (suc-add i j))
                (at (suc j) t e))
            shaped low.1 st.1,
      )

  answers_from :
      (c : BatchedSequenceCache b) (max_len i : ℕ) (ss : List (Held b)) (s : Held b)
      → get_elem? ss i ≡ some s
      → All (λ s. s.n ≤ max_len) ss
      → All (Stores c w.n_layers) ss
      → let out = b.decode (batch_of max_len ss) in
        (get_elem? out.logits i ≡ some (alone s).logits)
        × (get_elem? out.hidden i ≡ some (alone s).hidden)
  answers_from c max_len i ss s at low st =
      let (le, stored) = pick ss i at low st in
      let answers =
        decode-alone c max_len i ss s at le (batch_of-IsBatch c max_len ss low st) stored in
      (answers.0, answers.1)
    where
      pick :
          (ts : List (Held b)) (j : ℕ)
          → get_elem? ts j ≡ some s
          → All (λ s. s.n ≤ max_len) ts
          → All (Stores c w.n_layers) ts
          → (s.n ≤ max_len) × Stores c w.n_layers s
      pick [] j e l t = cc
      pick (x ∷ ts) zero e l t =
          let same : x ≡ s = cc in
          subst (λ (y : Held b). (y.n ≤ max_len) × Stores c w.n_layers y) same (l.0, t.0)
      pick (x ∷ ts) (suc j) e l t = pick ts j e l.1 t.1

  -- What `forward` returns: for each request the answer of the model to its sequence alone, and a
  -- cache in which each sequence has grown by its own column.
  pub record Answered (rs : List (GenerationRequest b)) (ss : List (Held b))
      (c : BatchedSequenceCache b) : Type 0 where
    pub cache : BatchedSequenceCache b
    pub out : Output b.Column b.Logits b.Hidden
    pub returned : forward rs c ≡ ok (cache, out)
    pub logits_at :
        (i : ℕ) (s : Held b)
        → get_elem? ss i ≡ some s
        → get_elem? out.logits i ≡ some (alone s).logits
    pub hidden_at :
        (i : ℕ) (s : Held b)
        → get_elem? ss i ≡ some s
        → get_elem? out.hidden i ≡ some (alone s).hidden
    pub grew : All (λ s. Stores cache w.n_layers (grown s (alone s).columns)) ss
    pub untouched : Untouched (ids_of ss) c cache

  -- For a model that reads a batch of the documented shape row by row, ignores masked columns
  -- and is shown the new token, in exact arithmetic, the batched forward pass through the cache
  -- bridge succeeds on any non-empty batch of held sequences with distinct identifiers, returns
  -- for each of them the logits and the hidden state that the model computes for that sequence
  -- alone, stores each with its own new column, and leaves the other entries of the cache
  -- alone.
  pub forward-alone :
      (rs : List (GenerationRequest b)) (s : Held b) (ss : List (Held b))
      (c : BatchedSequenceCache b)
      → All₂ Matches rs (s ∷ ss)
      → Distinct (ids_of (s ∷ ss))
      → All (Stores c w.n_layers) (s ∷ ss)
      → Answered rs (s ∷ ss) c
  unfolding forward scatter_updated_batch
  forward-alone rs s ss c m d st =
      let (max_len, e, low) = build_batch_lem c w.n_layers s ss w.some_layer st in
      let computed =
        Computed-forward c max_len (s ∷ ss) (s ∷ ss) 0
          (λ j t at. subst (λ k. get_elem? (s ∷ ss) k ≡ some t) (sym (zero-add j)) at)
          (batch_of-IsBatch c max_len (s ∷ ss) low st) low st in
      let (c', f, grew, untouched) =
        scatter_from_lem w.n_layers max_len 0 (b.decode (batch_of max_len (s ∷ ss))).past_key_values
          (λ s. (alone s).columns) (s ∷ ss) c d st computed in
      record {
        cache = c';
        out = b.decode (batch_of max_len (s ∷ ss));
        returned = rw (tokens_lem rs (s ∷ ss) m, ids_lem rs (s ∷ ss) m) (rw e (rw f));
        logits_at = λ i t at. (answers_from c max_len i (s ∷ ss) t at low st).0;
        hidden_at = λ i t at. (answers_from c max_len i (s ∷ ss) t at low st).1;
        grew = grew;
        untouched = untouched;
      }
