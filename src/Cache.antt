-- ===== src/Cache.antt =====
-- src/hf_cache_bridge.py: one key-value cache for each sequence, joined to a left-padded batch
-- for a decoding step and split again after it.
pub mod Padding
pub mod Build
pub mod Scatter
use probe_guided_inference.Base.{
  ℕ, zero, suc, ◌+◌, ◌-◌, max, Bool, true, false, ◌&&◌, Option, none, some, List, [], ◌∷◌, ◌++◌,
  map, value_error, key_error, index_error, runtime_error, Result, ok, raise, or_raise, ◌>>=◌, ◌>>◌,
  traverse, ◌==◌, ltb, leb, length, get_elem?, take, drop, replicate, if◌then◌else◌,
}
use probe_guided_inference.Base.Dict
use probe_guided_inference.Base.Dict.{Dict, keys}
use probe_guided_inference.Backend.{Backend, Tensor, Past}

-- The operations on tensors that the module uses, along the batch and the sequence dimension.
module _ {C : Type 0} where
  -- All rows of a tensor have one length. `torch.cat(rows, dim=0)` refuses tensors of different
  -- lengths.
  abbrev pub uniform : ℕ → Tensor C → Bool
  uniform width [] = true
  uniform width (row ∷ rows) = (length row == width) && uniform width rows

  abbrev pub stack : List (Tensor C) → Tensor C
  stack [] = []
  stack (t ∷ ts) = t ++ stack ts

  unfoldable pub cat_batch : List (Tensor C) → Result (Tensor C)
  cat_batch ts = elim (stack ts) [
    | [] ↦ ok []
    | row ∷ rows ↦ if uniform (length row) rows then ok (row ∷ rows) else raise runtime_error
  ]

  -- `torch.cat([t, u], dim=2)`: the batch sizes must agree.
  unfoldable pub cat_sequence : Tensor C → Tensor C → Result (Tensor C)
  cat_sequence [] [] = ok []
  cat_sequence (r ∷ t) (s ∷ u) = cat_sequence t u >>= λ rest. ok ((r ++ s) ∷ rest)
  cat_sequence _ _ = raise runtime_error

  -- `t[i:i + 1]`
  abbrev pub slice_batch : ℕ → Tensor C → Tensor C
  slice_batch i t = take 1 (drop i t)

  -- `t[:, :, -n:, :]` for a positive `n`.
  abbrev pub last_columns : ℕ → Tensor C → Tensor C
  last_columns n t = map (λ row. drop (length row - n) row) t

  -- The zeros of shape (1, n_kv_heads, pad_amount, head_dim) in front of the tensor.
  unfoldable pub pad_left : C → ℕ → Tensor C → Result (Tensor C)
  unfolding cat_sequence
  pad_left zero_column pad_amount t =
      if ltb 0 pad_amount then cat_sequence (replicate pad_amount zero_column ∷ []) t else ok t

  -- Of each layer the row of one sequence, without its padding.
  abbrev pub split_row : ℕ → ℕ → Past C → Past C
  split_row i new_len updated =
      map
        (λ (layer : Tensor C × Tensor C). (
          last_columns new_len (slice_batch i layer.0),
          last_columns new_len (slice_batch i layer.1),
        ))
        updated

-- `mask[i, start:] = 1` on a row of zeros: `index` is the position of the row's first entry.
pub fill_from : ℕ → ℕ → List Bool → List Bool
fill_from start index [] = []
fill_from start index (bit ∷ row) =
    (if leb start index then true else bit) ∷ fill_from start (suc index) row

unfoldable pub mask_row : ℕ → ℕ → List Bool
unfolding fill_from
mask_row max_len length_i = fill_from (max_len - length_i) 0 (replicate (max_len + 1) false)

-- `max(lengths)`
unfoldable pub maximum : List ℕ → Result ℕ
maximum [] = raise value_error
maximum (n ∷ []) = ok n
maximum (n ∷ m ∷ rest) = maximum (m ∷ rest) >>= λ top. ok (max n top)

abbrev pub SeqCache : Backend → Type 0
SeqCache b = Past b.Column

pub record BatchedSequenceCache (b : Backend) : Type 0 where
  pub cache : Dict (SeqCache b)
  pub lengths : Dict ℕ

pub record Built (b : Backend) : Type 0 where
  pub batched : SeqCache b
  pub attention_mask : List (List Bool)
  pub position_ids : List ℕ
  pub max_len : ℕ

unfoldable pub empty : (b : Backend) → BatchedSequenceCache b
empty b = record { cache = []; lengths = [] }

module _ {b : Backend} where
  unfoldable pub store_prefill :
      ℕ → SeqCache b → ℕ → BatchedSequenceCache b → BatchedSequenceCache b
  store_prefill seq_id past_key_values n c = record {
    cache = Dict.insert seq_id past_key_values c.cache;
    lengths = Dict.insert seq_id n c.lengths;
  }

  unfoldable pub seq_len : ℕ → BatchedSequenceCache b → Result ℕ
  seq_len seq_id c = or_raise key_error (Dict.get seq_id c.lengths)

  unfoldable pub evict : ℕ → BatchedSequenceCache b → BatchedSequenceCache b
  evict seq_id c = record { cache = Dict.pop seq_id c.cache; lengths = Dict.pop seq_id c.lengths }

  unfoldable pub active_ids : BatchedSequenceCache b → List ℕ
  active_ids c = keys c.cache

  abbrev pub seq_cache : ℕ → BatchedSequenceCache b → Result (SeqCache b)
  seq_cache seq_id c = or_raise key_error (Dict.get seq_id c.cache)

  -- The inner loop: the padded keys and values of each sequence at one layer.
  unfoldable pub padded_rows :
      BatchedSequenceCache b
      → ℕ
      → ℕ
      → List ℕ
      → List ℕ
      → Result (List (Tensor b.Column) × List (Tensor b.Column))
  unfolding pad_left
  padded_rows c max_len layer_idx (seq_id ∷ seq_ids) (n ∷ ns) = do
    layers ← seq_cache seq_id c
    layer ← or_raise index_error (get_elem? layers layer_idx)
    k ← pad_left b.zeros (max_len - n) layer.0
    v ← pad_left b.zeros (max_len - n) layer.1
    rest ← padded_rows c max_len layer_idx seq_ids ns
    ok (k ∷ rest.0, v ∷ rest.1)
  padded_rows c max_len layer_idx _ _ = ok ([], [])

  -- The loop over the layers: `todo` layers from `layer_idx` on.
  unfoldable pub batched_layers :
      BatchedSequenceCache b → ℕ → List ℕ → List ℕ → ℕ → ℕ → Result (SeqCache b)
  unfolding padded_rows cat_batch
  batched_layers c max_len seq_ids ns zero layer_idx = ok []
  batched_layers c max_len seq_ids ns (suc todo) layer_idx = do
    rows ← padded_rows c max_len layer_idx seq_ids ns
    k ← cat_batch rows.0
    v ← cat_batch rows.1
    rest ← batched_layers c max_len seq_ids ns todo (suc layer_idx)
    ok ((k, v) ∷ rest)

  unfoldable pub build_batch : List ℕ → BatchedSequenceCache b → Result (Built b)
  unfolding batched_layers mask_row maximum seq_len
  build_batch seq_ids c = do
    ns ← traverse (λ s. seq_len s c) seq_ids
    max_len ← maximum ns
    first ← or_raise index_error (get_elem? seq_ids 0)
    layers ← seq_cache first c
    sample ← or_raise index_error (get_elem? layers 0)
    batched ← batched_layers c max_len seq_ids ns (length layers) 0
    ok (record {
      batched = batched;
      attention_mask = map (mask_row max_len) ns;
      position_ids = ns;
      max_len = max_len;
    })

  -- The loop over `enumerate(seq_ids)` from index `i`.
  unfoldable pub scatter_from :
      ℕ → List ℕ → SeqCache b → BatchedSequenceCache b → Result (BatchedSequenceCache b)
  unfolding seq_len
  scatter_from i [] updated c = ok c
  scatter_from i (seq_id ∷ seq_ids) updated c = do
    n ← seq_len seq_id c
    scatter_from (suc i) seq_ids updated (record {
      cache = Dict.insert seq_id (split_row i (n + 1) updated) c.cache;
      lengths = Dict.insert seq_id (n + 1) c.lengths;
    })

  unfoldable pub scatter_updated_batch :
      List ℕ → SeqCache b → BatchedSequenceCache b → Result (BatchedSequenceCache b)
  unfolding scatter_from
  scatter_updated_batch seq_ids updated c = scatter_from 0 seq_ids updated c
