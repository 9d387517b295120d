-- ===== src/Probe.antt =====
-- src/probe.py: the fitted probe, its checks at load time, and the forward hook that keeps the
-- last hidden states of the hooked layer.
pub mod Loading
use probe_guided_inference.Base.{
  ℕ, Bool, true, false, Option, none, some, List, [], ◌∷◌, map, value_error, index_error,
  attribute_error, probe_not_trained, Result, ok, raise, or_raise, ◌>>=◌, ◌==◌, ltb, get_elem?,
  if◌then◌else◌,
}
use probe_guided_inference.Backend.{Backend}

pub data Label : Type 0 where
  convergent divergent : Label

-- `predict_proba` is that of the fitted scikit-learn pipeline: a row (P(divergent),
-- P(convergent)) for each row of the matrix.
pub record ProbeArtifact (b : Backend) : Type 0 where
  pub predict_proba : List b.Hidden → List (b.Score × b.Score)
  pub trained_layer : ℕ
  pub trained_checkpoint : ℕ
  pub expected_hidden_dim : ℕ
  pub n_train_samples : ℕ
  pub train_auc : b.Score

module _ (b : Backend) where
  open b use {Score, Hidden, gt, half, complement, np_maximum}

  -- Python's `max(x, y)`: the second only if it is greater.
  abbrev pub py_max : Score → Score → Score
  py_max x y = if gt y x then y else x

  unfoldable pub label_of : Score → Label
  label_of p = if gt p half then convergent else divergent

  unfoldable pub predict : ProbeArtifact b → Hidden → Result (Label × Score)
  unfolding label_of
  predict probe hidden_vec = do
    row ← or_raise index_error (get_elem? (probe.predict_proba (hidden_vec ∷ [])) 0)
    let prob_convergent = row.1
    ok (label_of prob_convergent, py_max prob_convergent (complement prob_convergent))

  -- The labels and the confidences, as two arrays.
  unfoldable pub predict_batch : ProbeArtifact b → List Hidden → List Label × List Score
  unfolding label_of
  predict_batch probe hidden_mat =
      let prob_convergent = map (λ (row : Score × Score). row.1) (probe.predict_proba hidden_mat) in
      (map label_of prob_convergent, map (λ p. np_maximum p (complement p)) prob_convergent)

-- `file` is what the path holds, `none` if it does not exist.
unfoldable pub load_probe :
    {b : Backend} → Option (ProbeArtifact b) → ℕ → ℕ → Result (ProbeArtifact b)
load_probe none expected_layer expected_checkpoint = raise probe_not_trained
load_probe (some artifact) expected_layer expected_checkpoint =
    if artifact.trained_layer == expected_layer
    then (if artifact.trained_checkpoint == expected_checkpoint
        then ok artifact
        else raise value_error)
    else raise value_error

-- `attached` says that the hook's handle has not been removed. Of a layer's output the last
-- position of each row is kept, the only one that the program reads.
pub record LayerActivationCapture (b : Backend) : Type 0 where
  pub layer_idx : ℕ
  pub last : Option (List b.Hidden)
  pub attached : Bool

-- `model.model.layers[layer_idx]`: `layers` is the number of decoder blocks, `none` for a model
-- with another module tree.
unfoldable pub resolve_layer : Option ℕ → ℕ → Result ℕ
resolve_layer none layer_idx = raise attribute_error
resolve_layer (some n) layer_idx = if ltb layer_idx n then ok layer_idx else raise index_error

unfoldable pub make_capture : (b : Backend) → Option ℕ → ℕ → Result (LayerActivationCapture b)
unfolding resolve_layer
make_capture b layers layer_idx = do
  target ← resolve_layer layers layer_idx
  ok (record { layer_idx = target; last = none; attached = true })

module _ {b : Backend} where
  -- torch calls the hook after a forward pass of the layer, while the hook is registered.
  unfoldable pub hook_fn : List b.Hidden → LayerActivationCapture b → LayerActivationCapture b
  hook_fn hidden capture =
      if capture.attached then record capture { last = some hidden } else capture

  unfoldable pub remove : LayerActivationCapture b → LayerActivationCapture b
  remove capture = if capture.attached then record capture { attached = false } else capture
