-- ===== src/Tests/Caches.antt =====
-- Runs of the cache bridge of src/hf_cache_bridge.py: two sequences of two lengths in one batch.
use probe_guided_inference.Base.{
  ℕ, ◌≡◌, ◌≤◌, refl, List, [], ◌∷◌, ok, arith, All, map, true, false, ◌-◌,
}
use probe_guided_inference.Base.Dict
use probe_guided_inference.Model.{visible}
use probe_guided_inference.Cache.{BatchedSequenceCache, build_batch, scatter_from, mask_row}
use probe_guided_inference.Cache.Padding.{visible-padded, padded}
use probe_guided_inference.Cache.Build.{Held, Stores, built, build_batch_lem}
use probe_guided_inference.Cache.Scatter.{Untouched, grown, ids_of, scatter_from_lem, Distinct}
use probe_guided_inference.Tests.Toy.{toy}

abbrev pub long : Held toy
long = record { id = 1; n = 3; rows = (1 ∷ 2 ∷ 3 ∷ [], 4 ∷ 5 ∷ 6 ∷ []) ∷ []; token = 7 }

abbrev pub short : Held toy
short = record { id = 2; n = 1; rows = (8 ∷ [], 9 ∷ []) ∷ []; token = 10 }

abbrev pub two : BatchedSequenceCache toy
two = record {
  cache =
      (1, ((1 ∷ 2 ∷ 3 ∷ []) ∷ [], (4 ∷ 5 ∷ 6 ∷ []) ∷ []) ∷ [])
      ∷ (2, ((8 ∷ []) ∷ [], (9 ∷ []) ∷ []) ∷ [])
      ∷ [];
  lengths = (1, 3) ∷ (2, 1) ∷ [];
}

pub two-Stores : All (Stores two 1) (long ∷ short ∷ [])
unfolding Dict.get
two-Stores = (
  record { length_at = refl; cache_at = refl; columns = ((refl, refl), tt); layers = refl },
  (record { length_at = refl; cache_at = refl; columns = ((refl, refl), tt); layers = refl }, tt),
)

pub two-Distinct : Distinct (ids_of (long ∷ short ∷ []))
two-Distinct = ((λ e. omega arith, tt), (tt, tt))

-- The batch of the two: the shorter sequence behind two columns of padding, which its mask hides.
built_two :
    build_batch (1 ∷ 2 ∷ []) two
    ≡ ok (record {
      batched =
          ((1 ∷ 2 ∷ 3 ∷ []) ∷ (0 ∷ 0 ∷ 8 ∷ []) ∷ [], (4 ∷ 5 ∷ 6 ∷ []) ∷ (0 ∷ 0 ∷ 9 ∷ []) ∷ []) ∷ [];
      attention_mask = (true ∷ true ∷ true ∷ true ∷ []) ∷ (false ∷ false ∷ true ∷ true ∷ []) ∷ [];
      position_ids = 3 ∷ 1 ∷ [];
      max_len = 3;
    })
unfolding build_batch Dict.get
built_two = refl

visible-padded_example : visible (mask_row 3 1) (padded 0 (3 - 1) short.rows) ≡ short.rows
visible-padded_example = visible-padded 0 3 1 short.rows (omega arith) ((refl, refl), tt)

build_batch_lem_example :
    (max_len : ℕ) × (build_batch (map (λ s. s.id) (long ∷ short ∷ [])) two
      ≡ ok (built 1 max_len (long ∷ short ∷ [])))
    × All (λ s. s.n ≤ max_len) (long ∷ short ∷ [])
build_batch_lem_example = build_batch_lem two 1 long (short ∷ []) (omega arith) two-Stores

-- The batch after a step, in which both rows have got a column of their token.
abbrev updated : List (List (List ℕ) × List (List ℕ))
updated =
    (
      (1 ∷ 2 ∷ 3 ∷ 7 ∷ []) ∷ (0 ∷ 0 ∷ 8 ∷ 10 ∷ []) ∷ [],
      (4 ∷ 5 ∷ 6 ∷ 7 ∷ []) ∷ (0 ∷ 0 ∷ 9 ∷ 10 ∷ []) ∷ [],
    )
    ∷ []

abbrev token_columns : Held toy → List (ℕ × ℕ)
token_columns s = (s.token, s.token) ∷ []

scatter_from_lem_example :
    (c' : BatchedSequenceCache toy) × (scatter_from 0 (1 ∷ 2 ∷ []) updated two ≡ ok c')
    × All (λ s. Stores c' 1 (grown s (token_columns s))) (long ∷ short ∷ [])
    × Untouched (1 ∷ 2 ∷ []) two c'
scatter_from_lem_example =
    scatter_from_lem 1 3 0 updated token_columns (long ∷ short ∷ []) two two-Distinct two-Stores
      ((refl, refl, tt), refl, ((refl, refl, tt), refl, tt))
