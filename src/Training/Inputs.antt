-- ===== src/Training/Inputs.antt =====
-- What scripts/train_probe.py gives to scikit-learn.
use probe_guided_inference.Base.{
  ℕ, zero, suc, ◌≤◌, ◌≡◌, ◌≢◌, refl, sym, ◌∙◌, inl, inr, true, false, List, [], ◌∷◌, some, ok,
  arith, length, length-map, get_elem?, All, Bool-cases, subst,
}
use probe_guided_inference.Backend.{Backend}
use probe_guided_inference.Training.{Sklearn}
use probe_guided_inference.Training.Samples.{vectors}
use probe_guided_inference.Training.Folds.{IsArray, IsInput, IsSklearn}

All-both :
    {A : Type 0} (P Q : A → Type 0) (xs : List A) → All P xs → All Q xs → All (λ x. P x × Q x) xs
All-both P Q [] h k = tt
All-both P Q (x ∷ xs) (h, hs) (k, ks) = ((h, k), All-both P Q xs hs ks)

pub rows_count : {H : Type 0} (samples : List (H × ℕ)) → length (vectors samples) ≡ length samples
rows_count {H} samples = length-map (λ (s : H × ℕ). s.0) samples

module _ {b : Backend} (sk : Sklearn b) where
  pub same_width :
      (d : ℕ) (x : List b.Hidden)
      → (k : ℕ) × IsInput sk k x
      → IsArray b d x
      → 1 ≤ length x
      → IsInput sk d x
  same_width d [] input array some_row = absurd (omega arith)
  same_width d (v ∷ vs) (k, (some_width, ((here, finite), rest))) (there, array) some_row =
      subst (λ n. IsInput sk n (v ∷ vs)) (sym here ∙ there) (some_width, ((here, finite), rest))

  -- A row at which a fit is not refused is finite.
  all_finite :
      (xs : List b.Hidden)
      → ((i : ℕ) (v : b.Hidden) → get_elem? xs i ≡ some v → sk.is_finite v ≢ false)
      → All (λ v. sk.is_finite v ≡ true) xs
  all_finite [] h = tt
  all_finite (x ∷ xs) h = (
    elim (Bool-cases (sk.is_finite x)) [
      | inl finite ↦ finite
      | inr infinite ↦ absurd (h 0 x refl infinite)
    ],
    all_finite xs (λ i. h (suc i)),
  )

module _ {b : Backend} (sk : Sklearn b) (documented : IsSklearn sk) where
  -- A fit that is not refused was given finite rows of a width that is not zero.
  pub fit_pipeline-IsInput :
      (d : ℕ) (x : List b.Hidden) (y : List ℕ) (pipeline : List b.Hidden → List (b.Score × b.Score))
      → sk.fit_pipeline x y ≡ ok pipeline
      → IsArray b d x
      → 1 ≤ length x
      → IsInput sk d x
  fit_pipeline-IsInput zero x y pipeline fit array some_row =
      let refused = documented.rejects_width x y some_row array in absurd cc
  fit_pipeline-IsInput (suc d) x y pipeline fit array some_row = (
    omega arith,
    All-both _ _ x array (
        all_finite sk x (λ i v found infinite.
          let refused = documented.rejects_row x y i v found infinite in cc)),
  )
