-- ===== src/Training/Folds.antt =====
-- The cross-validation of scripts/train_probe.py, from what scikit-learn documents.
use probe_guided_inference.Base.{
  true, false, ℕ, zero, suc, ◌+◌, ◌≤◌, ◌<◌, ◌≡◌, refl, ap, sym, ◌∙◌, inl, inr, ◌||◌, Option, some,
  List, [], ◌∷◌, map, value_error, Result, ok, raise, arith, ◌==◌, ltb, length, length-map,
  get_elem?, select, if_ind, All, After, subst, Bool-cases, After-bind,
}
use probe_guided_inference.Backend.{Backend}
use probe_guided_inference.Training.{
  Sklearn, pick, unique, scored, fold_auc, fold_aucs, cross_validated_auc,
}

abbrev pub count : ℕ → List ℕ → ℕ
count c ys = length (select (λ y. y == c) ys)

abbrev pub IsBinary : List ℕ → Type 0
IsBinary = All (λ y. y ≤ 1)

-- Of binary labels one is found at least half the time.
count_binary : (ys : List ℕ) → IsBinary ys → length ys ≡ count 0 ys + count 1 ys
count_binary [] h = refl
count_binary (y ∷ ys) (less, rest) = ground (arith, count_binary ys rest)

-- Rows of one width.
abbrev pub IsArray : (b : Backend) → ℕ → List b.Hidden → Type 0
IsArray b d = All (λ v. b.dim v ≡ d)

module _ {b : Backend} (sk : Sklearn b) where
  -- Rows without NaN and infinity, of one width that is not zero.
  abbrev pub IsInput : ℕ → List b.Hidden → Type 0
  IsInput d x = (1 ≤ d) × All (λ v. (b.dim v ≡ d) × (sk.is_finite v ≡ true)) x

  -- A score for each row, and the scores are numbers.
  abbrev pub IsFitted : ℕ → (List b.Hidden → List (b.Score × b.Score)) → Type 0
  IsFitted d predict_proba =
      (rows : List b.Hidden)
      → IsInput d rows
      → (length (predict_proba rows) ≡ length rows)
        × All (λ (row : b.Score × b.Score). sk.is_number row.1 ≡ true) (predict_proba rows)

abbrev IsFold : ℕ → List ℕ × List ℕ → Type 0
IsFold n (train_idx, test_idx) = All (λ i. i < n) train_idx × All (λ i. i < n) test_idx

module _ {b : Backend} where
  -- Folds exist if some class has as many members as there are folds; a scaler keeps the shape
  -- and what is finite; a fit raises nothing for finite rows of a width that is not zero if there
  -- are two classes and as many labels as rows; it raises a value error if there is one class, if a
  -- value is not finite or if the width is zero; the area under the curve exists for binary labels
  -- of both classes and scores that are numbers.
  pub record IsSklearn (sk : Sklearn b) : Type 0 where
    pub splits :
        (n d : ℕ) (x : List b.Hidden) (y : List ℕ) (c : ℕ)
        → 2 ≤ n
        → IsInput sk d x
        → length x ≡ length y
        → n ≤ count c y
        → After ⊥ (sk.split n x y) (All (IsFold (length y)))
    pub scales :
        (d : ℕ) (x rows : List b.Hidden)
        → IsInput sk d x
        → IsInput sk d rows
        → (length (sk.fit_scaler x rows) ≡ length rows) × IsInput sk d (sk.fit_scaler x rows)
    pub classifies :
        (d : ℕ) (x : List b.Hidden) (y : List ℕ)
        → IsInput sk d x
        → length x ≡ length y
        → 2 ≤ length (unique y)
        → After ⊥ (sk.fit_classifier x y) (IsFitted sk d)
    pub pipelines :
        (d : ℕ) (x : List b.Hidden) (y : List ℕ)
        → IsInput sk d x
        → length x ≡ length y
        → 2 ≤ length (unique y)
        → After ⊥ (sk.fit_pipeline x y) (IsFitted sk d)
    pub rejects_class :
        (x : List b.Hidden) (y : List ℕ)
        → length (unique y) < 2
        → sk.fit_pipeline x y ≡ raise value_error
    pub rejects_width :
        (x : List b.Hidden) (y : List ℕ)
        → 1 ≤ length x
        → IsArray b 0 x
        → sk.fit_pipeline x y ≡ raise value_error
    pub rejects_row :
        (x : List b.Hidden) (y : List ℕ) (i : ℕ) (v : b.Hidden)
        → get_elem? x i ≡ some v
        → sk.is_finite v ≡ false
        → sk.fit_pipeline x y ≡ raise value_error
    pub measures :
        (y : List ℕ) (scores : List b.Score)
        → IsBinary y
        → length scores ≡ length y
        → All (λ s. sk.is_number s ≡ true) scores
        → 2 ≤ length (unique y)
        → After ⊥ (sk.roc_auc_score y scores) (λ _. Unit {0})

get_elem?_total :
    {A : Type 0} (P : A → Type 0) (xs : List A) (i : ℕ)
    → All P xs
    → i < length xs
    → (a : A) × (get_elem? xs i ≡ some a) × P a
get_elem?_total P [] i h less = absurd (omega arith)
get_elem?_total P (x ∷ xs) zero (h, hs) less = (x, refl, h)
get_elem?_total P (x ∷ xs) (suc i) (h, hs) less = get_elem?_total P xs i hs (omega arith)

pick_total :
    {A : Type 0} (P : A → Type 0) (xs : List A) (idx : List ℕ)
    → All P xs
    → All (λ i. i < length xs) idx
    → After ⊥ (pick xs idx) (λ r. (length r ≡ length idx) × All P r)
pick_total P xs [] h less = (refl, tt)
pick_total P xs (i ∷ idx) h (less, rest) =
    let (a, e, p) = get_elem?_total P xs i h less in
    rw e (
      After-bind ⊥ (λ r. (length r ≡ length idx) × All P r)
        (λ r. (length r ≡ suc (length idx)) × All P r) (pick xs idx) (λ ys. ok (a ∷ ys))
        (pick_total P xs idx h rest) (λ ys f k. (ap suc k.0, (p, k.1))))

module _ {b : Backend} (sk : Sklearn b) (documented : IsSklearn sk) (d : ℕ) where
  scores_all :
      (rows : List (b.Score × b.Score))
      → All (λ (row : b.Score × b.Score). sk.is_number row.1 ≡ true) rows
      → All (λ s. sk.is_number s ≡ true) (map (λ (row : b.Score × b.Score). row.1) rows)
  scores_all [] h = tt
  scores_all (row ∷ rows) (h, hs) = (h, scores_all rows hs)

  scored_total :
      (x_train x_test : List b.Hidden) (y_train y_test : List ℕ)
      → IsInput sk d x_train
      → IsInput sk d x_test
      → length x_train ≡ length y_train
      → length x_test ≡ length y_test
      → IsBinary y_test
      → 2 ≤ length (unique y_train)
      → 2 ≤ length (unique y_test)
      → After ⊥ (scored sk x_train x_test y_train y_test) (λ _. Unit {0})
  scored_total x_train x_test y_train y_test train test same_train same_test binary two_train
        two_test =
      let scale = sk.fit_scaler x_train in
      let (kept, array) = documented.scales d x_train x_train train train in
      let (kept_test, array_test) = documented.scales d x_train x_test train test in
      After-bind ⊥ (IsFitted sk d) (λ _. Unit {0}) (sk.fit_classifier (scale x_train) y_train) _
        (documented.classifies d (scale x_train) y_train array (kept ∙ same_train) two_train)
        (λ clf e fitted.
          let scores = map (λ (row : b.Score × b.Score). row.1) (clf (scale x_test)) in
          After-bind ⊥ (λ _. Unit {0}) (λ _. Unit {0}) (sk.roc_auc_score y_test scores) _
            (documented.measures y_test scores binary
              (length-map (λ (row : b.Score × b.Score). row.1) (clf (scale x_test))
                ∙ (fitted (scale x_test) array_test).0
                ∙ kept_test
                ∙ same_test)
              (scores_all (clf (scale x_test)) (fitted (scale x_test) array_test).1) two_test)
            (λ auc f k. tt))

  fold_auc_total :
      (x : List b.Hidden) (y : List ℕ) (fold : List ℕ × List ℕ)
      → IsInput sk d x
      → length x ≡ length y
      → IsBinary y
      → IsFold (length y) fold
      → After ⊥ (fold_auc sk x y fold) (λ _. Unit {0})
  unfolding fold_auc
  fold_auc_total x y (train_idx, test_idx) array same binary (train, test) =
      let inside =
        ap (λ n. (All (λ i. i < n) train_idx) × (All (λ i. i < n) test_idx)) (sym same) in
      let (train_x, test_x) = subst (λ T. T) inside (train, test) in
      After-bind ⊥ _ (λ _. Unit {0}) (pick x train_idx) _
        (pick_total (λ v. (b.dim v ≡ d) × (sk.is_finite v ≡ true)) x train_idx array.1 train_x)
        (λ x_train e1 k1.
          After-bind ⊥ _ (λ _. Unit {0}) (pick x test_idx) _
            (pick_total (λ v. (b.dim v ≡ d) × (sk.is_finite v ≡ true)) x test_idx array.1 test_x)
            (λ x_test e2 k2.
              After-bind ⊥ _ (λ _. Unit {0}) (pick y train_idx) _
                (pick_total (λ k. k ≤ 1) y train_idx binary train)
                (λ y_train e3 k3.
                  After-bind ⊥ _ (λ _. Unit {0}) (pick y test_idx) _
                    (pick_total (λ k. k ≤ 1) y test_idx binary test)
                    (λ y_test e4 k4.
                      if_ind (λ (m : Result (Option b.Score)). After ⊥ m (λ _. Unit {0}))
                        (ltb (length (unique y_train)) 2 || ltb (length (unique y_test)) 2)
                        (λ skipped. tt)
                        (λ counted.
                          scored_total x_train x_test y_train y_test (array.0, k1.1) (array.0, k2.1)
                            (k1.0 ∙ sym k3.0) (k2.0 ∙ sym k4.0) k4.1 (ground arith)
                            (ground arith))))))

  fold_aucs_total :
      (x : List b.Hidden) (y : List ℕ) (folds : List (List ℕ × List ℕ))
      → IsInput sk d x
      → length x ≡ length y
      → IsBinary y
      → All (IsFold (length y)) folds
      → After ⊥ (fold_aucs sk x y folds) (λ _. Unit {0})
  unfolding fold_aucs
  fold_aucs_total x y [] array same binary h = tt
  fold_aucs_total x y (fold ∷ folds) array same binary (h, hs) =
      After-bind ⊥ (λ _. Unit {0}) (λ _. Unit {0}) (fold_auc sk x y fold) _
        (fold_auc_total x y fold array same binary h)
        (λ auc e k.
          After-bind ⊥ (λ _. Unit {0}) (λ _. Unit {0}) (fold_aucs sk x y folds) _
            (fold_aucs_total x y folds array same binary hs) (λ aucs f l. tt))

  pub cross_validated_auc_total :
      (x : List b.Hidden) (y : List ℕ)
      → IsInput sk d x
      → length x ≡ length y
      → IsBinary y
      → 10 ≤ length y
      → After ⊥ (cross_validated_auc sk x y 5) (λ _. Unit {0})
  unfolding cross_validated_auc
  cross_validated_auc_total x y array same binary enough =
      let size = count_binary y binary in
      let found : (c : ℕ) × (5 ≤ count c y) = elim (Bool-cases (ltb (count 0 y) 5)) [
        | inl few ↦ (1, ground (arith, size))
        | inr many ↦ (0, ground arith)
      ] in
      After-bind ⊥ (All (IsFold (length y))) (λ _. Unit {0}) (sk.split 5 x y) _
        (documented.splits 5 d x y found.0 (omega arith) array same found.1)
        (λ folds e h.
          After-bind ⊥ (λ _. Unit {0}) (λ _. Unit {0}) (fold_aucs sk x y folds) _
            (fold_aucs_total x y folds array same binary h) (λ aucs f l. tt))
