-- ===== src/Training/Served.antt =====
-- When scripts/train_probe.py stores a probe, and what the server does with it.
use probe_guided_inference.Base.{
  ℕ, ◌≤◌, ◌≡◌, ◌↔◌, refl, ap, sym, ◌∙◌, inl, inr, true, Option, none, some, List, [], ◌∷◌,
  file_not_found, ok, >>=-eq-ok, or_raise, arith, ◌==◌, ltb, length, length-map, get_elem?,
  ok-injective, All, After-exists, Bool-cases, subst,
}
use probe_guided_inference.Backend.{Backend}
use probe_guided_inference.Probe.{ProbeArtifact, load_probe, predict, py_max, label_of}
use probe_guided_inference.Probe.Loading.{load_probe_iff}
use probe_guided_inference.Gate.{RoutingDecision, make_gate, classify}
use probe_guided_inference.Training.{
  EarlyDetection, Matrix, Sklearn, unique, cross_validated_auc, load_activations, train,
}
use probe_guided_inference.Training.Samples.{
  samples_of, gathered, vectors, labels, load_activations_lem,
}
use probe_guided_inference.Training.Folds.{
  IsBinary, IsArray, IsInput, IsFitted, IsSklearn, cross_validated_auc_total,
}
use probe_guided_inference.Training.Inputs.{rows_count, same_width, fit_pipeline-IsInput}
use probe_guided_inference.Training.Gathered.{
  IsTrainable, both_iff, samples_of-IsBinary, gathered-ok, gathered_total,
}

module _ {b : Backend} where
  -- The server loads the probe, and its gate takes the activations that the probe was trained on.
  pub record IsServed (layer checkpoint : ℕ) (samples : List (b.Hidden × ℕ))
      (artifact : ProbeArtifact b) : Type 0 where
    pub loads : load_probe (some artifact) layer checkpoint ≡ ok artifact
    pub size : artifact.n_train_samples ≡ length samples
    pub accepts :
        All (λ s. (d : RoutingDecision b) × (classify (make_gate artifact) s.0 ≡ ok d)) samples

  accepts_all :
      (sk : Sklearn b) (artifact : ProbeArtifact b) (samples : List (b.Hidden × ℕ))
      → IsFitted sk artifact.expected_hidden_dim artifact.predict_proba
      → IsInput sk artifact.expected_hidden_dim (vectors samples)
      → All (λ s. (d : RoutingDecision b) × (classify (make_gate artifact) s.0 ≡ ok d)) samples
  unfolding classify make_gate predict
  accepts_all sk artifact [] fitted array = tt
  accepts_all sk artifact (s ∷ samples) fitted (some_width, ((here, finite), array)) =
      let fits : b.dim s.0 == artifact.expected_hidden_dim ≡ true = ground (arith, here) in
      let (row, e) =
        first (artifact.predict_proba (s.0 ∷ []))
          (fitted (s.0 ∷ []) (some_width, ((here, finite), tt))).0 in
      let p = row.1 in
      (
        (
          record {
            label = label_of b p;
            confidence = py_max b p (b.complement p);
            checkpoint_position = artifact.trained_checkpoint;
          },
          rw fits (rw e refl),
        ),
        accepts_all sk artifact samples fitted (some_width, array),
      )
    where
      first :
          (rows : List (b.Score × b.Score))
          → length rows ≡ 1
          → (row : b.Score × b.Score) × (get_elem? rows 0 ≡ some row)
      first [] one = absurd (omega arith)
      first (row ∷ rows) one = (row, refl)

module _ {b : Backend} (sk : Sklearn b) where
  -- The bundle that is stored.
  abbrev bundle :
      ℕ → ℕ → Matrix b → b.Score → (List b.Hidden → List (b.Score × b.Score)) → ProbeArtifact b
  bundle checkpoint layer x auc pipeline = record {
    predict_proba = pipeline;
    trained_layer = layer;
    trained_checkpoint = checkpoint;
    expected_hidden_dim = x.hidden_dim;
    n_train_samples = length x.rows;
    train_auc = auc;
  }

  train_assembled :
      (dir : EarlyDetection b) (checkpoint layer : ℕ) (s : Matrix b × List ℕ)
      (auc : b.Score × b.Score) (pipeline : List b.Hidden → List (b.Score × b.Score))
      → load_activations dir checkpoint ≡ ok s
      → cross_validated_auc sk s.0.rows s.1 5 ≡ ok auc
      → sk.fit_pipeline s.0.rows s.1 ≡ ok pipeline
      → train sk dir checkpoint layer ≡ ok (bundle checkpoint layer s.0 auc.0 pipeline)
  unfolding train
  train_assembled dir checkpoint layer s auc pipeline loaded scored fitted =
      rw loaded (rw scored (rw fitted refl))

  train_parts :
      (dir : EarlyDetection b) (checkpoint layer : ℕ) (artifact : ProbeArtifact b)
      → train sk dir checkpoint layer ≡ ok artifact
      → (s : Matrix b × List ℕ) × (pipeline : List b.Hidden → List (b.Score × b.Score))
        × (load_activations dir checkpoint ≡ ok s)
        × (sk.fit_pipeline s.0.rows s.1 ≡ ok pipeline)
  unfolding train
  train_parts dir checkpoint layer artifact e =
      let (s, loaded, later) = >>=-eq-ok (load_activations dir checkpoint) _ e in
      let (auc, scored, last) = >>=-eq-ok (cross_validated_auc sk s.0.rows s.1 5) _ later in
      let (pipeline, fitted, same) = >>=-eq-ok (sk.fit_pipeline s.0.rows s.1) _ last in
      (s, pipeline, loaded, fitted)

module _ {b : Backend} (sk : Sklearn b) (documented : IsSklearn sk) where
  trainable :
      (dir : EarlyDetection b) (checkpoint layer : ℕ) (artifact : ProbeArtifact b)
      → train sk dir checkpoint layer ≡ ok artifact
      → (samples : List (b.Hidden × ℕ)) × (samples_of dir checkpoint ≡ some samples)
        × IsTrainable sk samples
  trainable dir checkpoint layer artifact e =
      let (s, pipeline, loaded, fitted) = train_parts sk dir checkpoint layer artifact e in
      let (samples, found, built) =
        >>=-eq-ok (or_raise file_not_found (samples_of dir checkpoint)) gathered
          (sym (load_activations_lem dir checkpoint) ∙ loaded) in
      let held = read (samples_of dir checkpoint) samples found in
      let g = gathered-ok samples s built in
      let binary = samples_of-IsBinary dir checkpoint samples held in
      let two : 2 ≤ length (unique s.1) = elim (Bool-cases (ltb (length (unique s.1)) 2)) [
        | inl few ↦ let raised = documented.rejects_class s.0.rows s.1 (ground arith) in absurd cc
        | inr many ↦ ground arith
      ] in
      let (diverged, converged) =
        (both_iff (labels samples) binary).0 (subst (λ y. 2 ≤ length (unique y)) g.labelled two) in
      (
        samples,
        held,
        record {
          enough = g.enough;
          width = (
            s.0.hidden_dim,
            subst (λ x. IsInput sk s.0.hidden_dim x) g.rows
                (fit_pipeline-IsInput sk documented s.0.hidden_dim s.0.rows s.1 pipeline fitted
                  (subst (λ x. IsArray b s.0.hidden_dim x) (sym g.rows) g.array)
                  (omega (
                    arith,
                    g.enough,
                    ap (λ (l : List b.Hidden). length l) g.rows,
                    rows_count samples,
                  ))),
          );
          converged = converged;
          diverged = diverged;
        },
      )
    where
      read :
          (m : Option (List (b.Hidden × ℕ))) (samples : List (b.Hidden × ℕ))
          → or_raise file_not_found m ≡ ok samples
          → m ≡ some samples
      read none samples e = absurd cc
      read (some l) samples e = ap some (ok-injective e)

  trained :
      (dir : EarlyDetection b) (checkpoint layer : ℕ) (samples : List (b.Hidden × ℕ))
      → samples_of dir checkpoint ≡ some samples
      → IsTrainable sk samples
      → (artifact : ProbeArtifact b) × (train sk dir checkpoint layer ≡ ok artifact)
        × IsServed layer checkpoint samples artifact
  trained dir checkpoint layer samples held t =
      let (s, built, g) = gathered_total sk samples t in
      let x = s.0.rows in
      let y = s.1 in
      let d = s.0.hidden_dim in
      let loaded : load_activations dir checkpoint ≡ ok s =
        load_activations_lem dir checkpoint ∙ rw held built in
      let input =
        same_width sk d (vectors samples) t.width g.array
          (omega (arith, rows_count samples, t.enough)) in
      let array : IsInput sk d x = subst (λ l. IsInput sk d l) (sym g.rows) input in
      let size : length x ≡ length samples =
        ap (λ (l : List b.Hidden). length l) g.rows
        ∙ length-map (λ (s : b.Hidden × ℕ). s.0) samples in
      let labelled : length y ≡ length samples =
        ap (λ (l : List ℕ). length l) g.labelled ∙ length-map (λ (s : b.Hidden × ℕ). s.1) samples in
      let binary : IsBinary y =
        subst (λ l. IsBinary l) (sym g.labelled)
          (samples_of-IsBinary dir checkpoint samples held) in
      let two : 2 ≤ length (unique y) =
        subst (λ l. 2 ≤ length (unique l)) (sym g.labelled)
          ((both_iff (labels samples) (samples_of-IsBinary dir checkpoint samples held)).1
            (t.diverged, t.converged)) in
      let (auc, scored, known) =
        After-exists (λ _. Unit {0}) (cross_validated_auc sk x y 5)
          (cross_validated_auc_total sk documented d x y array (size ∙ sym labelled) binary
            (omega (arith, labelled, t.enough))) in
      let (pipeline, fit, fitted) =
        After-exists (IsFitted sk d) (sk.fit_pipeline x y)
          (documented.pipelines d x y array (size ∙ sym labelled) two) in
      let artifact = bundle sk checkpoint layer s.0 auc.0 pipeline in
      (
        artifact,
        train_assembled sk dir checkpoint layer s auc pipeline loaded scored fit,
        record {
          loads = (load_probe_iff (some artifact) layer checkpoint artifact).1 (refl, refl, refl);
          size = size;
          accepts = accepts_all sk artifact samples fitted input;
        },
      )

  -- For scikit-learn as documented, where a fit on rows that are not finite, that have width
  -- zero, or whose labels are of one class raises a value error, the training script stores a
  -- probe, which the server then loads at the same layer and checkpoint and whose gate
  -- classifies every activation that it was trained on without an error, with their number as
  -- n_train_samples, exactly if both files are there and hold at least 20 samples for the
  -- checkpoint, all finite and of one width that is not zero, of which some converged and some
  -- did not.
  pub train_iff :
      (dir : EarlyDetection b) (checkpoint layer : ℕ)
      → ((artifact : ProbeArtifact b) × (samples : List (b.Hidden × ℕ)) × (train sk dir checkpoint
              layer
            ≡ ok artifact)
          × (samples_of dir checkpoint ≡ some samples)
          × IsServed layer checkpoint samples artifact)
        ↔ ((samples : List (b.Hidden × ℕ)) × (samples_of dir checkpoint ≡ some samples)
            × IsTrainable sk samples)
  train_iff dir checkpoint layer = (
    λ e. trainable dir checkpoint layer e.0 e.2,
    λ e.
        let (artifact, made, served) = trained dir checkpoint layer e.0 e.1 e.2 in
        (artifact, e.0, made, e.1, served),
  )
