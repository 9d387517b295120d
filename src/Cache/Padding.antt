-- ===== src/Cache/Padding.antt =====
-- The padding of the batch that src/hf_cache_bridge.py builds, and the mask over it.
use mathlib.Core.Path.{ap₂}
use probe_guided_inference.Base.{
  ℕ, zero, suc, ◌+◌, ◌-◌, ◌≤◌, ◌<◌, true, false, some, List, [], ◌∷◌, ◌++◌, map, ◌≡◌, refl, ap,
  arith, ok, length, get_elem?, get_or, replicate, All, get_elem?-get_or, get_elem?-map,
  replicate-add, length-replicate, ◌∙◌, Bool,
}
use probe_guided_inference.Model.{SeqRows, single, HasLength, shown, visible}
use probe_guided_inference.Cache.{cat_batch, pad_left, uniform, stack, fill_from, mask_row}

module _ {C : Type 0} where
  abbrev pub pad : C → ℕ → List C → List C
  pad z p columns = replicate p z ++ columns

  abbrev pub padded : C → ℕ → SeqRows C → SeqRows C
  padded z p rows = map (λ (l : List C × List C). (pad z p l.0, pad z p l.1)) rows

  pub pad_left_row :
      (z : C) (p : ℕ) (row : List C) → pad_left z p (row ∷ []) ≡ ok (pad z p row ∷ [])
  unfolding pad_left
  pad_left_row z zero row = refl
  pad_left_row z (suc p) row = ground arith

  stack_rows : (rows : List (List C)) → stack (map (λ r. r ∷ []) rows) ≡ rows
  stack_rows [] = refl
  stack_rows (r ∷ rows) = ap (◌∷◌ r) (stack_rows rows)

  uniform_rows :
      (n : ℕ) (rows : List (List C)) → All (λ r. length r ≡ n) rows → uniform n rows ≡ true
  uniform_rows n [] h = refl
  uniform_rows n (r ∷ rows) h = ground (arith, uniform_rows n rows)

  pub cat_batch_rows :
      (n : ℕ) (rows : List (List C))
      → All (λ r. length r ≡ n) rows
      → cat_batch (map (λ r. r ∷ []) rows) ≡ ok rows
  unfolding cat_batch
  cat_batch_rows n [] h = refl
  cat_batch_rows n (r ∷ rows) h =
      rw (stack_rows rows) (ground (arith, uniform_rows (length r) rows))

  shown_all : (m : ℕ) (row : List C) → length row ≤ m → shown (replicate m true) row ≡ row
  shown_all zero [] h = refl
  shown_all zero (c ∷ row) h = absurd (omega arith)
  shown_all (suc m) [] h = refl
  shown_all (suc m) (c ∷ row) h = ap (◌∷◌ c) (shown_all m row (omega arith))

  -- Of a padded row the mask shows what was there before the padding.
  shown_padded :
      (z : C) (p m : ℕ) (row : List C)
      → length row ≤ m
      → shown (replicate p false ++ replicate m true) (pad z p row) ≡ row
  shown_padded z zero m row h = shown_all m row h
  shown_padded z (suc p) m row h = shown_padded z p m row h

fill_from_shown :
    (start index r : ℕ)
    → start ≤ index
    → fill_from start index (replicate r false) ≡ replicate r true
unfolding fill_from
fill_from_shown start index zero h = refl
fill_from_shown start index (suc r) h = ground (arith, fill_from_shown start (suc index) r)

fill_from_hidden :
    (start index p r : ℕ)
    → start ≡ index + p
    → fill_from start index (replicate p false ++ replicate r false)
      ≡ replicate p false ++ replicate r true
unfolding fill_from
fill_from_hidden start index zero r h = fill_from_shown start index r (omega arith)
fill_from_hidden start index (suc p) r h = ground (arith, fill_from_hidden start (suc index) p r)

-- The mask of a row hides its padding, and shows its history and the new token.
pub mask_row_lem :
    (max_len n : ℕ)
    → n ≤ max_len
    → mask_row max_len n ≡ replicate (max_len - n) false ++ replicate (n + 1) true
unfolding mask_row
mask_row_lem max_len n h =
    let size : max_len + 1 ≡ (max_len - n) + (n + 1) = omega arith in
    rw (size, replicate-add (max_len - n) (n + 1) false)
      (fill_from_hidden (max_len - n) 0 (max_len - n) (n + 1) (omega arith))

get_elem?-replicate :
    (p n i : ℕ)
    → p ≤ i
    → i < p + n
    → get_elem? (replicate p false ++ replicate n true) i ≡ some true
get_elem?-replicate zero zero i h l = absurd (omega arith)
get_elem?-replicate zero (suc n) zero h l = refl
get_elem?-replicate zero (suc n) (suc i) h l =
    get_elem?-replicate zero n i (omega arith) (omega arith)
get_elem?-replicate (suc p) n zero h l = absurd (omega arith)
get_elem?-replicate (suc p) n (suc i) h l = get_elem?-replicate p n i (omega arith) (omega arith)

-- The mask of the batch shows the new token of each row.
pub mask_row-new :
    (max_len n : ℕ) → n ≤ max_len → get_elem? (mask_row max_len n) max_len ≡ some true
mask_row-new max_len n h =
    ap (λ mask. get_elem? mask max_len) (mask_row_lem max_len n h)
    ∙ get_elem?-replicate (max_len - n) (n + 1) max_len (omega arith) (omega arith)

length-fill_from :
    (start index : ℕ) (row : List Bool) → length (fill_from start index row) ≡ length row
unfolding fill_from
length-fill_from start index [] = refl
length-fill_from start index (bit ∷ row) = ap suc (length-fill_from start (suc index) row)

pub length-mask_row : (max_len n : ℕ) → length (mask_row max_len n) ≡ max_len + 1
unfolding mask_row
length-mask_row max_len n =
    length-fill_from (max_len - n) 0 (replicate (max_len + 1) false)
    ∙ length-replicate (max_len + 1) false

-- Of a sequence that is padded on the left up to a greater or equal length, the mask of the
-- batch shows exactly the unpadded columns of every layer.
pub visible-padded :
    {C : Type 0} (z : C) (max_len n : ℕ) (rows : SeqRows C)
    → n ≤ max_len
    → HasLength n rows
    → visible (mask_row max_len n) (padded z (max_len - n) rows) ≡ rows
visible-padded z max_len n [] h l = refl
visible-padded {C} z max_len n ((k, v) ∷ rows) h l =
    ap₂ (λ (here : List C × List C) (rest : SeqRows C). here ∷ rest)
      (ap₂ (λ (x y : List C). (x, y)) (shows k l.0.0) (shows v l.0.1))
      (visible-padded z max_len n rows h l.1)
  where
    shows :
        (row : List C) → length row ≡ n → shown (mask_row max_len n) (pad z (max_len - n) row) ≡ row
    shows row e =
        rw (mask_row_lem max_len n h) (shown_padded z (max_len - n) (n + 1) row (omega arith))

module _ {C : Type 0} where
  abbrev pub layer_at : ℕ → SeqRows C → List C × List C
  layer_at j rows = get_or rows j ([], [])

  pub layer_at-single :
      (j : ℕ) (rows : SeqRows C)
      → j < length rows
      → get_elem? (single rows) j ≡ some ((layer_at j rows).0 ∷ [], (layer_at j rows).1 ∷ [])
  layer_at-single j rows h =
      get_elem?-map (λ (l : List C × List C). (l.0 ∷ [], l.1 ∷ [])) rows j
        (get_elem?-get_or rows j ([], []) h)

  pub layer_length :
      (n j : ℕ) (rows : SeqRows C)
      → j < length rows
      → HasLength n rows
      → (length (layer_at j rows).0 ≡ n) × (length (layer_at j rows).1 ≡ n)
  layer_length n j [] h l = absurd (omega arith)
  layer_length n zero (r ∷ rows) h l = l.0
  layer_length n (suc j) (r ∷ rows) h l = layer_length n j rows (omega arith) l.1
