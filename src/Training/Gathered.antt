-- ===== src/Training/Gathered.antt =====
-- When scripts/train_probe.py gets an array of the activations that it reads.
use probe_guided_inference.Base.{
  ℕ, zero, suc, ◌+◌, ◌≤◌, ◌≡◌, ◌↔◌, refl, ap, ◌∙◌, true, false, Option, none, some, List, [], ◌∷◌,
  Result, All-map, ok, >>=-eq-ok, arith, ltb, length, length-map, ok-injective, if_ind, subst,
}
use probe_guided_inference.Base.Dict.{Dict}
use probe_guided_inference.Backend.{Backend}
use probe_guided_inference.Scheduler.Loop.{contains}
use probe_guided_inference.Scheduler.Places.{one_if}
use probe_guided_inference.Training.{
  TrainingRecord, EarlyDetection, Matrix, Sklearn, unique, all_of_dim, stack, activations_at,
}
use probe_guided_inference.Training.Samples.{
  samples_from, samples_of, samples_at, gathered, vectors, labels,
}
use probe_guided_inference.Training.Folds.{IsBinary, IsArray, IsInput}

-- The labels that are found are those that `np.unique` counts.
length-unique :
    (ys : List ℕ)
    → IsBinary ys
    → length (unique ys) ≡ one_if (contains 0 ys) + one_if (contains 1 ys)
length-unique [] h = refl
length-unique (zero ∷ ys) (less, rest) = ground (arith, length-unique ys rest)
length-unique (suc zero ∷ ys) (less, rest) = ground (arith, length-unique ys rest)
length-unique (suc (suc y) ∷ ys) (less, rest) = absurd (omega arith)

pub both_iff :
    (ys : List ℕ)
    → IsBinary ys
    → (2 ≤ length (unique ys)) ↔ ((contains 0 ys ≡ true) × (contains 1 ys ≡ true))
both_iff ys h =
    let size = length-unique ys h in
    (λ two. (ground (arith, size), ground (arith, size)), λ e. ground (arith, size, e.0, e.1))

module _ (b : Backend) where
  all_of_dim_iff : (d : ℕ) (vs : List b.Hidden) → (all_of_dim b d vs ≡ true) ↔ IsArray b d vs
  all_of_dim_iff d [] = (λ e. tt, λ h. refl)
  all_of_dim_iff d (v ∷ vs) =
      let later = all_of_dim_iff d vs in
      (
        λ e. (ground arith, later.0 (ground arith)),
        λ h. let rest = later.1 h.1 in ground (arith, h.0, rest),
      )

module _ {b : Backend} (sk : Sklearn b) where
  -- Enough samples, finite and of one width that is not zero, and some of each class.
  pub record IsTrainable (samples : List (b.Hidden × ℕ)) : Type 0 where
    pub enough : 20 ≤ length samples
    pub width : (d : ℕ) × IsInput sk d (vectors samples)
    pub converged : contains 1 (labels samples) ≡ true
    pub diverged : contains 0 (labels samples) ≡ true

  pub IsInput-IsArray : (d : ℕ) (x : List b.Hidden) → IsInput sk d x → IsArray b d x
  IsInput-IsArray d x (some_width, h) = All-map (λ v k. k.0) x h

-- The labels are those of the records.
samples_from-IsBinary :
    {H : Type 0} (acts : Dict (Option H)) (i : ℕ) (rs : List TrainingRecord)
    → IsBinary (labels (samples_from acts i rs))
samples_from-IsBinary acts i [] = tt
samples_from-IsBinary acts i (r ∷ rs) = ground (arith, samples_from-IsBinary acts (suc i) rs)

module _ {b : Backend} where
  pub samples_of-IsBinary :
      (dir : EarlyDetection b) (checkpoint : ℕ) (samples : List (b.Hidden × ℕ))
      → samples_of dir checkpoint ≡ some samples
      → IsBinary (labels samples)
  samples_of-IsBinary dir checkpoint samples = cases dir.records dir.acts
    where
      cases :
          (records : Option (List TrainingRecord)) (acts : Option (Dict (Dict (Option b.Hidden))))
          → elim records as (λ _. Option (List (b.Hidden × ℕ))) [
            | none ↦ none
            | some records ↦ elim acts [
              | none ↦ none
              | some all_acts ↦ some (samples_at records all_acts checkpoint)
            ]
          ]
            ≡ some samples
          → IsBinary (labels samples)
      cases none acts e = absurd cc
      cases (some records) none e = absurd cc
      cases (some records) (some all_acts) e =
          let same : samples_at records all_acts checkpoint ≡ samples = cc in
          subst (λ (l : List (b.Hidden × ℕ)). IsBinary (labels l)) same
            (samples_from-IsBinary (activations_at checkpoint all_acts) 0 records)

  -- The array that is built of samples.
  pub record IsGathered (samples : List (b.Hidden × ℕ)) (x : Matrix b) (y : List ℕ) : Type 0 where
    pub rows : x.rows ≡ vectors samples
    pub labelled : y ≡ labels samples
    pub array : IsArray b x.hidden_dim (vectors samples)
    pub enough : 20 ≤ length samples

  stack-ok :
      (vs : List b.Hidden) (x : Matrix b)
      → stack b vs ≡ ok x
      → (x.rows ≡ vs) × IsArray b x.hidden_dim vs
  stack-ok [] x e = absurd cc
  stack-ok (v ∷ vs) x e =
      if_ind
        (λ (m : Result (Matrix b)). m ≡ ok x → (x.rows ≡ v ∷ vs) × IsArray b x.hidden_dim (v ∷ vs))
        (all_of_dim b (b.dim v) vs)
        (λ same e.
          subst (λ (x : Matrix b). (x.rows ≡ v ∷ vs) × IsArray b x.hidden_dim (v ∷ vs))
            (ok-injective e) (refl, (refl, (all_of_dim_iff b (b.dim v) vs).0 same)))
        (λ differs e. absurd cc) e

  stack_total :
      (vs : List b.Hidden) (d : ℕ)
      → 1 ≤ length vs
      → IsArray b d vs
      → (x : Matrix b) × (stack b vs ≡ ok x)
  stack_total [] d some_one h = absurd (omega arith)
  stack_total (v ∷ vs) d some_one (h, hs) =
      let same : all_of_dim b (b.dim v) vs ≡ true =
        ap (λ n. all_of_dim b n vs) h ∙ (all_of_dim_iff b d vs).1 hs in
      (record { hidden_dim = b.dim v; rows = v ∷ vs }, rw same refl)

  pub gathered-ok :
      (samples : List (b.Hidden × ℕ)) (s : Matrix b × List ℕ)
      → gathered samples ≡ ok s
      → IsGathered samples s.0 s.1
  gathered-ok samples s =
      if_ind (λ (m : Result (Matrix b × List ℕ)). m ≡ ok s → IsGathered samples s.0 s.1)
        (ltb (length samples) 20) (λ few e. absurd cc)
        (λ many e.
          let (x, stacked, same) =
            >>=-eq-ok (stack b (vectors samples)) (λ x. ok (x, labels samples)) e in
          let (rows, array) = stack-ok (vectors samples) x stacked in
          subst (λ (s : Matrix b × List ℕ). IsGathered samples s.0 s.1) (ok-injective same)
            (record { rows = rows; labelled = refl; array = array; enough = ground arith }))

  pub gathered_total :
      (sk : Sklearn b) (samples : List (b.Hidden × ℕ))
      → IsTrainable sk samples
      → (s : Matrix b × List ℕ) × (gathered samples ≡ ok s) × IsGathered samples s.0 s.1
  gathered_total sk samples t =
      let count = length-map (λ (s : b.Hidden × ℕ). s.0) samples in
      let many : ltb (length samples) 20 ≡ false = ground (arith, t.enough) in
      let (x, e) =
        stack_total (vectors samples) t.width.0 (omega (arith, count, t.enough))
          (IsInput-IsArray sk t.width.0 (vectors samples) t.width.1) in
      let whole : gathered samples ≡ ok (x, labels samples) = rw (many, e) refl in
      ((x, labels samples), whole, gathered-ok samples (x, labels samples) whole)
