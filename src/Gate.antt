-- ===== src/Gate.antt =====
-- src/gate.py: a hidden state at the checkpoint becomes a routing decision.
pub mod Batches
use probe_guided_inference.Base.{
  ℕ, Bool, true, false, List, [], ◌∷◌, value_error, index_error, Result, ok, raise, ◌>>=◌, ◌==◌,
  leb, if◌then◌else◌,
}
use probe_guided_inference.Backend.{Backend}
use probe_guided_inference.Probe.{
  Label, convergent, divergent, ProbeArtifact, predict, predict_batch,
}

pub record RoutingDecision (b : Backend) : Type 0 where
  pub label : Label
  pub confidence : b.Score
  pub checkpoint_position : ℕ

module _ {b : Backend} where
  unfoldable pub is_divergent : RoutingDecision b → Bool
  is_divergent d = elim d.label [ divergent ↦ true | convergent ↦ false ]

pub record ClassificationGate (b : Backend) : Type 0 where
  pub probe : ProbeArtifact b
  pub checkpoint_position : ℕ

module _ {b : Backend} where
  unfoldable pub make_gate : ProbeArtifact b → ClassificationGate b
  make_gate probe = record { probe = probe; checkpoint_position = probe.trained_checkpoint }

  unfoldable pub ready_at : ClassificationGate b → ℕ → Bool
  ready_at gate n_generated = leb gate.checkpoint_position n_generated

  unfoldable pub classify : ClassificationGate b → b.Hidden → Result (RoutingDecision b)
  classify gate hidden_vec =
      if b.dim hidden_vec == gate.probe.expected_hidden_dim
      then (do
        prediction ← predict b gate.probe hidden_vec
        ok (record {
          label = prediction.0;
          confidence = prediction.1;
          checkpoint_position = gate.checkpoint_position;
        }))
      else raise value_error

  -- The loop over `range(hidden_mat.shape[0])`, which reads `labels[i]` and `confidences[i]`.
  unfoldable pub collect :
      ClassificationGate b
      → List b.Hidden
      → List Label
      → List b.Score
      → Result (List (RoutingDecision b))
  collect gate [] labels confidences = ok []
  collect gate (row ∷ rows) (label ∷ labels) (confidence ∷ confidences) = do
    rest ← collect gate rows labels confidences
    ok (
        record {
          label = label;
          confidence = confidence;
          checkpoint_position = gate.checkpoint_position;
        }
        ∷ rest)
  collect gate (row ∷ rows) _ _ = raise index_error

  -- A matrix is its rows with their common width `hidden_mat.shape[-1]`.
  unfoldable pub classify_batch :
      ClassificationGate b → ℕ → List b.Hidden → Result (List (RoutingDecision b))
  unfolding collect
  classify_batch gate width rows =
      if width == gate.probe.expected_hidden_dim
      then (let predictions = predict_batch b gate.probe rows in
          collect gate rows predictions.0 predictions.1)
      else raise value_error
