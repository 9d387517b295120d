-- ===== src/Training.antt =====
-- scripts/train_probe.py: the probe is fitted on the activations of a checkpoint and stored.
pub mod Samples
pub mod Folds
pub mod Inputs
pub mod Gathered
pub mod Served
use probe_guided_inference.Base.{
  ℕ, zero, suc, Bool, true, false, ◌||◌, ◌&&◌, Option, none, some, List, [], ◌∷◌, map, value_error,
  key_error, index_error, attribute_error, file_not_found, Result, ok, raise, or_raise, ◌>>=◌,
  traverse, ◌==◌, ltb, length, get_elem?, select, if◌then◌else◌,
}
use probe_guided_inference.Base.Dict.{Dict, get}
use probe_guided_inference.Backend.{Backend}
use probe_guided_inference.Probe.{ProbeArtifact, py_max}
use probe_guided_inference.Scheduler.Loop.{contains}

pub record TrainingRecord : Type 0 where
  pub converged : Bool

-- The two files below `checkpoints`. The activations stand below the checkpoint and the index of
-- the record; of a tensor of shape (1, hidden_dim) there is its row.
pub record EarlyDetection (b : Backend) : Type 0 where
  pub records : Option (List TrainingRecord)
  pub acts : Option (Dict (Dict (Option b.Hidden)))

-- A two-dimensional array: `shape[1]` and its rows.
pub record Matrix (b : Backend) : Type 0 where
  pub hidden_dim : ℕ
  pub rows : List b.Hidden

-- What numpy and scikit-learn compute. A fitted scaler is its `transform`, and a fitted classifier or
-- pipeline its `predict_proba`. `split` is that of a StratifiedKFold for the given number of folds.
-- `is_finite` is `np.isfinite` of all values of a row, and `is_number` of a score.
pub record Sklearn (b : Backend) : Type 0 where
  pub is_finite : b.Hidden → Bool
  pub is_number : b.Score → Bool
  pub split : ℕ → List b.Hidden → List ℕ → Result (List (List ℕ × List ℕ))
  pub fit_scaler : List b.Hidden → List b.Hidden → List b.Hidden
  pub fit_classifier : List b.Hidden → List ℕ → Result (List b.Hidden → List (b.Score × b.Score))
  pub fit_pipeline : List b.Hidden → List ℕ → Result (List b.Hidden → List (b.Score × b.Score))
  pub roc_auc_score : List ℕ → List b.Score → Result b.Score
  pub mean : List b.Score → b.Score
  pub std : List b.Score → b.Score

-- `range(i, i + n)`
abbrev pub range_from : ℕ → ℕ → List ℕ
range_from i zero = []
range_from i (suc n) = i ∷ range_from (suc i) n

abbrev pub label_of_record : TrainingRecord → ℕ
label_of_record r = if r.converged then 1 else 0

-- `np.unique`, of which only the length is read.
abbrev pub unique : List ℕ → List ℕ
unique [] = []
unique (y ∷ ys) = if contains y ys then unique ys else y ∷ unique ys

-- An array subscripted with an array of indices.
abbrev pub pick {ℓ} : {A : Type ℓ} → List A → List ℕ → Result (List A)
pick xs idx = traverse (λ i. or_raise index_error (get_elem? xs i)) idx

-- The labels of the samples.
abbrev pub labels_of : List TrainingRecord → List ℕ → Result (List ℕ)
labels_of records valid_idx =
    traverse (λ i. or_raise index_error (get_elem? (map label_of_record records) i)) valid_idx

module _ {H : Type 0} where
  abbrev pub has_activation : Dict (Option H) → ℕ → Bool
  has_activation cp_acts i = elim (get i cp_acts) [
    | none ↦ false
    | some none ↦ false
    | some (some v) ↦ true
  ]

  -- `cp_acts[i].squeeze(0).numpy()`
  abbrev pub vector_of : Dict (Option H) → ℕ → Result H
  vector_of cp_acts i = or_raise key_error (get i cp_acts) >>= or_raise attribute_error

  abbrev pub activations_at : ℕ → Dict (Dict (Option H)) → Dict (Option H)
  activations_at checkpoint all_acts = elim (get checkpoint all_acts) [ none ↦ [] | some a ↦ a ]

module _ (b : Backend) where
  abbrev pub all_of_dim : ℕ → List b.Hidden → Bool
  all_of_dim d [] = true
  all_of_dim d (v ∷ vs) = (b.dim v == d) && all_of_dim d vs

  -- `np.stack`: arrays of one shape, and at least one.
  abbrev pub stack : List b.Hidden → Result (Matrix b)
  stack [] = raise value_error
  stack (v ∷ vs) =
      if all_of_dim (b.dim v) vs
      then ok (record { hidden_dim = b.dim v; rows = v ∷ vs })
      else raise value_error

module _ {b : Backend} where
  -- What `load_activations` does with the two files.
  unfoldable pub read_samples :
      List TrainingRecord → Dict (Option b.Hidden) → Result (Matrix b × List ℕ)
  read_samples records cp_acts =
      let valid_idx = select (has_activation cp_acts) (range_from 0 (length records)) in
      let arrays = (do
        vectors ← traverse (vector_of cp_acts) valid_idx
        x ← stack b vectors
        y ← labels_of records valid_idx
        ok (x, y)) in
      if ltb (length valid_idx) 20 then raise value_error else arrays

  unfoldable pub load_activations : EarlyDetection b → ℕ → Result (Matrix b × List ℕ)
  unfolding read_samples
  load_activations dir checkpoint = elim dir.records as (λ _. Result (Matrix b × List ℕ)) [
    | none ↦ raise file_not_found
    | some records ↦ elim dir.acts [
      | none ↦ raise file_not_found
      | some all_acts ↦ read_samples records (activations_at checkpoint all_acts)
    ]
  ]

module _ {b : Backend} (sk : Sklearn b) where
  abbrev pub scored : List b.Hidden → List b.Hidden → List ℕ → List ℕ → Result (Option b.Score)
  scored x_train x_test y_train y_test = do
    let scale = sk.fit_scaler x_train
    clf ← sk.fit_classifier (scale x_train) y_train
    auc ← sk.roc_auc_score y_test (map (λ (row : b.Score × b.Score). row.1) (clf (scale x_test)))
    ok (some (py_max b auc (b.complement auc)))

  -- One fold; `none` if it is skipped.
  unfoldable pub fold_auc : List b.Hidden → List ℕ → List ℕ × List ℕ → Result (Option b.Score)
  fold_auc x y (train_idx, test_idx) = do
    x_train ← pick x train_idx
    x_test ← pick x test_idx
    y_train ← pick y train_idx
    y_test ← pick y test_idx
    let score = scored x_train x_test y_train y_test
    if ltb (length (unique y_train)) 2 || ltb (length (unique y_test)) 2 then ok none else score

  unfoldable pub fold_aucs : List b.Hidden → List ℕ → List (List ℕ × List ℕ) → Result (List b.Score)
  unfolding fold_auc
  fold_aucs x y [] = ok []
  fold_aucs x y (fold ∷ folds) = do
    auc ← fold_auc x y fold
    aucs ← fold_aucs x y folds
    ok (elim auc [ none ↦ aucs | some a ↦ a ∷ aucs ])

  unfoldable pub cross_validated_auc : List b.Hidden → List ℕ → ℕ → Result (b.Score × b.Score)
  unfolding fold_aucs
  cross_validated_auc x y n_splits = do
    folds ← sk.split n_splits x y
    aucs ← fold_aucs x y folds
    ok (sk.mean aucs, sk.std aucs)

  -- `main`: the bundle, which is what the file holds afterwards.
  unfoldable pub train : EarlyDetection b → ℕ → ℕ → Result (ProbeArtifact b)
  unfolding load_activations cross_validated_auc
  train dir checkpoint layer = do
    samples ← load_activations dir checkpoint
    cv_auc ← cross_validated_auc samples.0.rows samples.1 5
    pipeline ← sk.fit_pipeline samples.0.rows samples.1
    ok (record {
      predict_proba = pipeline;
      trained_layer = layer;
      trained_checkpoint = checkpoint;
      expected_hidden_dim = samples.0.hidden_dim;
      n_train_samples = length samples.0.rows;
      train_auc = cv_auc.0;
    })
