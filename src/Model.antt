-- ===== src/Model.antt =====
-- What the program relies on of the language model: it reads a batch of the right shape row by row,
-- ignores the columns of the cache that the attention mask hides, and sees the new token where
-- the mask shows it. None of the model's code is part of the repository; `IsRowWise` states these
-- properties as hypotheses. They are about exact arithmetic: a kernel that rounds differently with
-- the size of the batch has them only up to that.
use probe_guided_inference.Base.{
  ℕ, ◌+◌, ◌≤◌, ◌<◌, Bool, true, false, some, ◌≡◌, List, [], ◌∷◌, ◌++◌, map, length, get_elem?, All,
}
use probe_guided_inference.Backend.{Backend, Batch, Past, Tensor}

-- The cache of one sequence without a batch dimension: for each layer its key and value columns.
abbrev pub SeqRows : Type 0 → Type 0
SeqRows C = List (List C × List C)

module _ {C : Type 0} where
  -- The cache of a batch of one.
  abbrev pub single : SeqRows C → Past C
  single rows = map (λ (l : List C × List C). (l.0 ∷ [], l.1 ∷ [])) rows

  -- Row `i` of each layer of a batched cache.
  abbrev pub IsRow : ℕ → Past C → SeqRows C → Type 0
  IsRow i [] [] = Unit
  IsRow i ((k, v) ∷ past) ((kr, vr) ∷ rows) =
      (get_elem? k i ≡ some kr) × (get_elem? v i ≡ some vr) × IsRow i past rows
  IsRow i _ _ = ⊥

  abbrev pub HasLength : ℕ → SeqRows C → Type 0
  HasLength n rows = All (λ (l : List C × List C). (length l.0 ≡ n) × (length l.1 ≡ n)) rows

  -- The columns that the mask shows; its last entry, for the new token, has no column.
  abbrev pub shown : List Bool → List C → List C
  shown [] columns = []
  shown (bit ∷ mask) [] = []
  shown (true ∷ mask) (c ∷ columns) = c ∷ shown mask columns
  shown (false ∷ mask) (c ∷ columns) = shown mask columns

  abbrev pub visible : List Bool → SeqRows C → SeqRows C
  visible mask rows = map (λ (l : List C × List C). (shown mask l.0, shown mask l.1)) rows

  -- Each layer gets one new column.
  abbrev pub append_columns : SeqRows C → List (C × C) → SeqRows C
  append_columns [] columns = []
  append_columns (l ∷ rows) [] = []
  append_columns ((k, v) ∷ rows) ((ck, cv) ∷ columns) =
      (k ++ ck ∷ [], v ++ cv ∷ []) ∷ append_columns rows columns

  -- A tensor of `n` rows of `m` columns.
  abbrev pub IsTensor : ℕ → ℕ → Tensor C → Type 0
  IsTensor n m t = (length t ≡ n) × All (λ row. length row ≡ m) t

  -- Tokens, positions and masks for as many rows as the cache has, which holds `m` columns of each
  -- row in each of its layers; a mask covers them and the new token.
  pub record IsBatch (n_layers m : ℕ) (batch : Batch C) : Type 0 where
    pub positions : length batch.position_ids ≡ length batch.input_ids
    pub masks :
        (length batch.attention_mask ≡ length batch.input_ids)
        × All (λ mask. length mask ≡ m + 1) batch.attention_mask
    pub layers : length batch.past ≡ n_layers
    pub columns :
        All
          (λ (l : Tensor C × Tensor C).
            IsTensor (length batch.input_ids) m l.0 × IsTensor (length batch.input_ids) m l.1)
          batch.past

-- What the model computes for one sequence and its new token.
pub record RowOutput (b : Backend) : Type 0 where
  pub columns : List (b.Column × b.Column)
  pub logits : b.Logits
  pub hidden : b.Hidden

pub record IsRowWise (b : Backend) : Type 0 where
  pub n_layers : ℕ
  pub some_layer : 0 < n_layers
  -- the model on one sequence alone
  pub prompt_rows : List ℕ → SeqRows b.Column
  pub prompt_logits : List ℕ → b.Logits
  pub row : SeqRows b.Column → ℕ → ℕ → RowOutput b
  -- a prompt with a token fills one column of each layer for each of its tokens
  pub prefill_past :
      (prompt : List ℕ)
      → 1 ≤ length prompt
      → (b.prefill prompt).past_key_values ≡ single (prompt_rows prompt)
  pub prefill_logits :
      (prompt : List ℕ)
      → 1 ≤ length prompt
      → get_elem? (b.prefill prompt).logits 0 ≡ some (prompt_logits prompt)
  pub prefill_layers :
      (prompt : List ℕ) → 1 ≤ length prompt → length (prompt_rows prompt) ≡ n_layers
  pub prefill_length :
      (prompt : List ℕ) → 1 ≤ length prompt → HasLength (length prompt) (prompt_rows prompt)
  pub row_layers :
      (rows : SeqRows b.Column) (token position : ℕ)
      → length rows ≡ n_layers
      → length (row rows token position).columns ≡ n_layers
  -- row `i` of a batch depends on row `i` alone, and in it on what the mask shows, if it shows
  -- the new token, whose entry is the one behind the `m` columns
  pub decode_row :
      (batch : Batch b.Column) (m i token position : ℕ) (mask : List Bool) (rows : SeqRows b.Column)
      → IsBatch n_layers m batch
      → get_elem? mask m ≡ some true
      → get_elem? batch.input_ids i ≡ some token
      → get_elem? batch.position_ids i ≡ some position
      → get_elem? batch.attention_mask i ≡ some mask
      → IsRow i batch.past rows
      → let out = row (visible mask rows) token position in
        (get_elem? (b.decode batch).logits i ≡ some out.logits)
        × (get_elem? (b.decode batch).hidden i ≡ some out.hidden)
        × IsRow i (b.decode batch).past_key_values (append_columns rows out.columns)
