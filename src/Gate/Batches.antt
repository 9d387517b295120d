-- ===== src/Gate/Batches.antt =====
-- `classify_batch` of src/gate.py against `classify`.
use probe_guided_inference.Base.{
  ℕ, true, false, ◌≡◌, refl, sym, ◌∙◌, inl, inr, List, [], ◌∷◌, map, arith, All, All-map, ok,
  traverse, Bool-cases, ◌==◌,
}
use probe_guided_inference.Backend.{Backend}
use probe_guided_inference.Probe.{ProbeArtifact, py_max, label_of, predict, predict_batch}
use probe_guided_inference.Gate.{
  RoutingDecision, ClassificationGate, classify, classify_batch, collect,
}

module _ {b : Backend} where
  -- The pipeline scores each row by itself.
  pub record IsPointwise (probe : ProbeArtifact b) : Type 0 where
    pub scores : b.Hidden → b.Score × b.Score
    pub row_by_row : (rows : List b.Hidden) → probe.predict_proba rows ≡ map scores rows

  decided : (gate : ClassificationGate b) → IsPointwise gate.probe → b.Hidden → RoutingDecision b
  decided gate pointwise h =
      let p = (pointwise.scores h).1 in
      record {
        label = label_of b p;
        confidence = py_max b p (b.complement p);
        checkpoint_position = gate.checkpoint_position;
      }

  classify_one :
      (gate : ClassificationGate b) (pointwise : IsPointwise gate.probe) (h : b.Hidden)
      → b.dim h ≡ gate.probe.expected_hidden_dim
      → classify gate h ≡ ok (decided gate pointwise h)
  unfolding classify predict decided
  classify_one gate pointwise h e =
      let same : b.dim h == gate.probe.expected_hidden_dim ≡ true = ground arith in
      rw same (rw (pointwise.row_by_row (h ∷ [])) refl)

  classify_all :
      (gate : ClassificationGate b) (pointwise : IsPointwise gate.probe) (hs : List b.Hidden)
      → All (λ h. b.dim h ≡ gate.probe.expected_hidden_dim) hs
      → traverse (classify gate) hs ≡ ok (map (decided gate pointwise) hs)
  classify_all gate pointwise [] e = refl
  classify_all gate pointwise (h ∷ hs) (e, es) =
      rw (classify_one gate pointwise h e, classify_all gate pointwise hs es) refl

  collect_all :
      (gate : ClassificationGate b) (pointwise : IsPointwise gate.probe) (hs : List b.Hidden)
      → ((x y : b.Score) → b.np_maximum x y ≡ py_max b x y)
      → let ps = map (λ (row : b.Score × b.Score). row.1) (map pointwise.scores hs) in
        collect gate hs (map (label_of b) ps) (map (λ p. b.np_maximum p (b.complement p)) ps)
        ≡ ok (map (decided gate pointwise) hs)
  unfolding collect decided
  collect_all gate pointwise [] same = refl
  collect_all gate pointwise (h ∷ hs) same =
      rw
        (
          collect_all gate pointwise hs same,
          same (pointwise.scores h).1 (b.complement (pointwise.scores h).1),
        )
        refl

  -- If the pipeline scores each row by itself and numpy's maximum of two scores is Python's,
  -- the batched classification of one or more rows of a common width is the same as classifying
  -- each row in turn, the error on a wrong width included.
  pub classify_batch-eq-traverse :
      (gate : ClassificationGate b) (width : ℕ) (h : b.Hidden) (hs : List b.Hidden)
      → IsPointwise gate.probe
      → ((x y : b.Score) → b.np_maximum x y ≡ py_max b x y)
      → All (λ v. b.dim v ≡ width) (h ∷ hs)
      → classify_batch gate width (h ∷ hs) ≡ traverse (classify gate) (h ∷ hs)
  unfolding classify_batch predict_batch classify
  classify_batch-eq-traverse gate width h hs pointwise same e =
      elim (Bool-cases (width == gate.probe.expected_hidden_dim)) [
        | inl fits ↦
            let w : width ≡ gate.probe.expected_hidden_dim = ground arith in
            rw (fits, pointwise.row_by_row (h ∷ hs))
              (collect_all gate pointwise (h ∷ hs) same
                ∙ sym (
                    classify_all gate pointwise (h ∷ hs)
                      (All-map (λ v (d : b.dim v ≡ width). d ∙ w) (h ∷ hs) e)))
        | inr other ↦
            let bad : b.dim h == gate.probe.expected_hidden_dim ≡ false = ground arith in
            rw (other, bad) refl
      ]
