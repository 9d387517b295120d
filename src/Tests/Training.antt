-- ===== src/Tests/Training.antt =====
-- Runs of the training script, with a pipeline that reads the score off an activation.
use probe_guided_inference.Base.{
  ℕ, zero, suc, ◌+◌, ◌-◌, ◌≤◌, ◌<◌, ◌≡◌, ◌↔◌, refl, Bool, true, false, not, Option, none, some,
  List, [], ◌∷◌, map, value_error, Result, ok, raise, ◌>>=◌, or_raise, file_not_found, arith, ltb,
  length, length-map, if◌then◌else◌, All, After,
}
use probe_guided_inference.Base.Dict.{Dict, get}
use probe_guided_inference.Probe.{ProbeArtifact}
use probe_guided_inference.Training.{
  TrainingRecord, EarlyDetection, Sklearn, cross_validated_auc, fold_aucs, fold_auc, range_from,
  unique, load_activations, read_samples, train,
}
use probe_guided_inference.Training.Samples.{
  samples_of, samples_at, vectors, gathered, load_activations_lem,
}
use probe_guided_inference.Training.Folds.{IsArray, IsFitted, IsSklearn}
use probe_guided_inference.Training.Gathered.{IsTrainable}
use probe_guided_inference.Training.Served.{IsServed, train_iff}
use probe_guided_inference.Tests.Toy.{toy}

abbrev scores : List ℕ → List (ℕ × ℕ)
scores = map (λ h. (100 - h, h))

abbrev fit : List ℕ → List ℕ → Result (List ℕ → List (ℕ × ℕ))
fit x y = if ltb (length (unique y)) 2 then raise value_error else ok scores

abbrev toy_sklearn : Sklearn toy
toy_sklearn = record {
  is_finite = λ h. true;
  is_number = λ s. true;
  split = λ n x y. ok ((range_from 0 (length y), range_from 0 (length y)) ∷ []);
  fit_scaler = λ x rows. rows;
  fit_classifier = fit;
  fit_pipeline = fit;
  roc_auc_score = λ y values. ok 60;
  mean = λ aucs. length aucs;
  std = λ aucs. 0;
}

range_lem : (i n whole : ℕ) → i + n ≤ whole → All (λ k. k < whole) (range_from i n)
range_lem i zero whole h = tt
range_lem i (suc n) whole h = (omega arith, range_lem (suc i) n whole (omega arith))

all_numbers : (rows : List (ℕ × ℕ)) → All (λ row. toy_sklearn.is_number row.1 ≡ true) rows
all_numbers [] = tt
all_numbers (row ∷ rows) = (refl, all_numbers rows)

fit_lem :
    (d : ℕ) (x y : List ℕ) → 2 ≤ length (unique y) → After ⊥ (fit x y) (IsFitted toy_sklearn d)
fit_lem d x y two =
    let many : ltb (length (unique y)) 2 ≡ false = ground arith in
    rw many (λ rows array. (length-map (λ h. (100 - h, h)) rows, all_numbers (scores rows)))

-- No row of the toy model has width zero.
no_width : (x : List ℕ) → {A : Type 0} → 1 ≤ length x → IsArray toy 0 x → A
no_width [] some_row h = absurd (omega arith)
no_width (v ∷ vs) some_row (h, hs) = absurd (omega (arith, h))

toy_sklearn-IsSklearn : IsSklearn toy_sklearn
toy_sklearn-IsSklearn = record {
  splits = λ n d x y c two array same enough. (
    (
      range_lem 0 (length y) (length y) (omega arith),
      range_lem 0 (length y) (length y) (omega arith),
    ),
    tt,
  );
  scales = λ d x rows array array'. (refl, array');
  classifies = λ d x y array same two. fit_lem d x y two;
  pipelines = λ d x y array same two. fit_lem d x y two;
  rejects_row = λ x y i v found infinite. cc;
  rejects_width = λ x y some_row empty. no_width x some_row empty;
  rejects_class =
      λ x y one. let few : ltb (length (unique y)) 2 ≡ true = ground arith in rw few refl;
  measures = λ y values binary same numbers two. tt;
}

-- Records that converge and diverge in turns, of which all but the first have an activation.
abbrev alternating : ℕ → Bool → List TrainingRecord
alternating zero converged = []
alternating (suc n) converged = record { converged = converged } ∷ alternating n (not converged)

abbrev rows_for : ℕ → ℕ → Dict (Option ℕ)
rows_for zero i = []
rows_for (suc n) i = (i, some (30 + i)) ∷ rows_for n (suc i)

abbrev early_detection : EarlyDetection toy
early_detection = record {
  records = some (alternating 21 true);
  acts = some ((2, (0, none) ∷ rows_for 20 1) ∷ []);
}

load_activations_lem_example :
    load_activations early_detection 2
    ≡ (or_raise file_not_found (samples_of early_detection 2) >>= gathered)
load_activations_lem_example = load_activations_lem early_detection 2

abbrev Trained : Type 0
Trained =
    (artifact : ProbeArtifact toy) × (samples : List (ℕ × ℕ)) × (train toy_sklearn early_detection 2
        0
      ≡ ok artifact)
    × (samples_of early_detection 2 ≡ some samples)
    × IsServed 0 2 samples artifact

abbrev Trainable : Type 0
Trainable =
    (samples : List (ℕ × ℕ)) × (samples_of early_detection 2 ≡ some samples)
    × IsTrainable toy_sklearn samples

train_iff_example : Trained ↔ Trainable
train_iff_example = train_iff toy_sklearn toy_sklearn-IsSklearn early_detection 2 0

all_four : (xs : List ℕ) → All (λ v. (toy.dim v ≡ 4) × (toy_sklearn.is_finite v ≡ true)) xs
all_four [] = tt
all_four (x ∷ xs) = ((refl, refl), all_four xs)

-- This directory is fit for training.
early_detection-Trainable : Trainable
unfolding get
early_detection-Trainable = (
  _,
  refl,
  record {
    enough = omega arith;
    width = (
      4,
      (
        omega arith,
        all_four
            (vectors (samples_at (alternating 21 true) ((2, (0, none) ∷ rows_for 20 1) ∷ []) 2)),
      ),
    );
    converged = refl;
    diverged = refl;
  },
)

-- A checkpoint without activations.
missing_lem : load_activations early_detection 3 ≡ raise value_error
unfolding load_activations read_samples get
missing_lem = refl

abbrev size_and_auc : ProbeArtifact toy → Result (ℕ × ℕ)
size_and_auc a = ok (a.n_train_samples, a.train_auc)

-- There are twenty samples, and one fold is counted.
trained_lem : (train toy_sklearn early_detection 2 0 >>= size_and_auc) ≡ ok (20, 1)
unfolding train load_activations read_samples get cross_validated_auc fold_aucs fold_auc
trained_lem = refl
