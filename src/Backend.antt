-- ===== src/Backend.antt =====
-- What the program takes from torch, transformers, scikit-learn and the float arithmetic of Python:
-- types and operations that no file of the repository defines. Every module takes a value of this
-- record as a parameter.
use probe_guided_inference.Base.{ℕ, Bool, List, String}

-- A key or value tensor of shape (batch, n_kv_heads, seq_len, head_dim), as its rows along the
-- batch dimension, each the list of its columns along the sequence dimension.
abbrev pub Tensor : Type 0 → Type 0
Tensor C = List (List C)

-- One (keys, values) pair for each layer.
abbrev pub Past : Type 0 → Type 0
Past C = List (Tensor C × Tensor C)

-- What a forward pass returns: the new cache, and of the logits and of the hooked layer's output
-- the last position of each row.
pub record Output (C L H : Type 0) : Type 0 where
  pub past_key_values : Past C
  pub logits : List L
  pub hidden : List H

-- The arguments of the decoding forward pass, one entry of each list for each row of the batch.
pub record Batch (C : Type 0) : Type 0 where
  pub input_ids : List ℕ
  pub attention_mask : List (List Bool)
  pub position_ids : List ℕ
  pub past : Past C

pub record Backend : Type 1 where
  -- floats: `gt a b` is `a > b`, `complement p` is `1.0 - p`, `np_maximum` is numpy's maximum
  pub Score : Type 0
  pub gt : Score → Score → Bool
  pub half : Score
  pub complement : Score → Score
  pub np_maximum : Score → Score → Score
  -- hidden-state vectors: `dim v` is `v.shape[-1]`
  pub Hidden : Type 0
  pub dim : Hidden → ℕ
  -- one column (n_kv_heads, head_dim) of a cache tensor, and the column of zeros
  pub Column : Type 0
  pub zeros : Column
  pub Logits : Type 0
  pub argmax : Logits → ℕ
  -- the model on one whole prompt, and on a padded batch with one new token in each row
  pub prefill : List ℕ → Output Column Logits Hidden
  pub decode : Batch Column → Output Column Logits Hidden
  -- tokenizer.decode
  pub detokenize : List ℕ → String
