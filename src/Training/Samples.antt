-- ===== src/Training/Samples.antt =====
-- What `load_activations` of scripts/train_probe.py reads, against one pass over the records.
use probe_guided_inference.Base.{
  ℕ, zero, suc, ◌+◌, ◌≡◌, refl, ap, ◌∙◌, inl, inr, Option, none, some, List, [], ◌∷◌, map,
  value_error, file_not_found, Result, ok, raise, ◌>>=◌, or_raise, arith, traverse, ltb, length,
  get_elem?, select, if◌then◌else◌, Option-cases,
}
use probe_guided_inference.Base.Dict.{Dict, get}
use probe_guided_inference.Backend.{Backend}
use probe_guided_inference.Training.{
  TrainingRecord, EarlyDetection, Matrix, range_from, label_of_record, has_activation, vector_of,
  labels_of, activations_at, stack, read_samples, load_activations,
}

module _ {H : Type 0} where
  -- The activations that are there, each with the label of its record.
  abbrev pub samples_from : Dict (Option H) → ℕ → List TrainingRecord → List (H × ℕ)
  samples_from acts i [] = []
  samples_from acts i (r ∷ rs) = elim (get i acts) [
    | none ↦ samples_from acts (suc i) rs
    | some none ↦ samples_from acts (suc i) rs
    | some (some v) ↦ (v, label_of_record r) ∷ samples_from acts (suc i) rs
  ]

  abbrev pub vectors : List (H × ℕ) → List H
  vectors = map (λ s. s.0)

  abbrev pub labels : List (H × ℕ) → List ℕ
  labels = map (λ s. s.1)

  abbrev valid : Dict (Option H) → ℕ → List TrainingRecord → List ℕ
  valid acts i rs = select (has_activation acts) (range_from i (length rs))

  -- From record `i` on, the indices that are kept are those of the samples.
  record AreRead (acts : Dict (Option H)) (whole rs : List TrainingRecord) (i : ℕ) : Type 0 where
    count : length (valid acts i rs) ≡ length (samples_from acts i rs)
    rows : traverse (vector_of acts) (valid acts i rs) ≡ ok (vectors (samples_from acts i rs))
    labelled : labels_of whole (valid acts i rs) ≡ ok (labels (samples_from acts i rs))

  samples-AreRead :
      (acts : Dict (Option H)) (whole rs : List TrainingRecord) (i : ℕ)
      → ((k : ℕ)
          → get_elem? (map label_of_record whole) (i + k) ≡ get_elem? (map label_of_record rs) k)
      → AreRead acts whole rs i
  samples-AreRead acts whole [] i at = record { count = refl; rows = refl; labelled = refl }
  samples-AreRead acts whole (r ∷ rs) i at =
      let later =
        samples-AreRead acts whole rs (suc i)
          (λ k. ap (get_elem? (map label_of_record whole)) (omega arith) ∙ at (suc k)) in
      let here : get_elem? (map label_of_record whole) i ≡ some (label_of_record r) =
        ap (get_elem? (map label_of_record whole)) (omega arith) ∙ at zero in
      elim (Option-cases (get i acts)) [
        | inl e ↦ record {
          count = ground (arith, e, later.count);
          rows = ground (arith, e, later.rows);
          labelled = ground (arith, e, later.labelled);
        }
        | inr (none, e) ↦ record {
          count = ground (arith, e, later.count);
          rows = ground (arith, e, later.rows);
          labelled = ground (arith, e, later.labelled);
        }
        | inr (some v, e) ↦ record {
          count = ground (arith, e, later.count);
          rows = ground (arith, e, later.rows);
          labelled = ground (arith, e, here, later.labelled);
        }
      ]

abbrev pub samples_at :
    {H : Type 0} → List TrainingRecord → Dict (Dict (Option H)) → ℕ → List (H × ℕ)
samples_at records all_acts checkpoint = samples_from (activations_at checkpoint all_acts) 0 records

module _ {b : Backend} where
  -- The array of the samples with their labels, if there are enough.
  abbrev pub gathered : List (b.Hidden × ℕ) → Result (Matrix b × List ℕ)
  gathered samples =
      if ltb (length samples) 20
      then raise value_error
      else stack b (vectors samples) >>= λ x. ok (x, labels samples)

  read_samples_lem :
      (records : List TrainingRecord) (cp_acts : Dict (Option b.Hidden))
      → read_samples records cp_acts ≡ gathered (samples_from cp_acts 0 records)
  unfolding read_samples
  read_samples_lem records cp_acts =
      let r =
        samples-AreRead cp_acts records records 0
          (λ k. ap (get_elem? (map label_of_record records)) (omega arith)) in
      rw (r.rows, r.labelled, r.count) refl

  -- What the two files hold for the checkpoint, `none` if one of them is missing.
  abbrev pub samples_of : EarlyDetection b → ℕ → Option (List (b.Hidden × ℕ))
  samples_of dir checkpoint = elim dir.records as (λ _. Option (List (b.Hidden × ℕ))) [
    | none ↦ none
    | some records ↦ elim dir.acts [
      | none ↦ none
      | some all_acts ↦ some (samples_at records all_acts checkpoint)
    ]
  ]

  -- Whatever the files hold, load_activations does what one pass over the records does that
  -- pairs each stored activation with the label of its own record: it raises that a file is
  -- missing, or a value error for fewer than 20 pairs or pairs of unequal width, or returns the
  -- activations as an array and the labels, in the same order.
  pub load_activations_lem :
      (dir : EarlyDetection b) (checkpoint : ℕ)
      → load_activations dir checkpoint
        ≡ (or_raise file_not_found (samples_of dir checkpoint) >>= gathered)
  unfolding load_activations
  load_activations_lem dir checkpoint = cases dir.records dir.acts
    where
      cases :
          (records : Option (List TrainingRecord)) (acts : Option (Dict (Dict (Option b.Hidden))))
          → elim records as (λ _. Result (Matrix b × List ℕ)) [
            | none ↦ raise file_not_found
            | some records ↦ elim acts [
              | none ↦ raise file_not_found
              | some all_acts ↦ read_samples records (activations_at checkpoint all_acts)
            ]
          ]
            ≡ (or_raise file_not_found (elim records as (λ _. Option (List (b.Hidden × ℕ))) [
              | none ↦ none
              | some records ↦ elim acts [
                | none ↦ none
                | some all_acts ↦ some (samples_at records all_acts checkpoint)
              ]
            ])
                >>= gathered)
      cases none acts = refl
      cases (some records) none = refl
      cases (some records) (some all_acts) =
          read_samples_lem records (activations_at checkpoint all_acts)
