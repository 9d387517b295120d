-- ===== src/Report/Guards.antt =====
-- That the divisions and means of benchmark/report.py are guarded.
use probe_guided_inference.Base.{
  ℕ, zero, suc, ◌≤◌, ◌≡◌, refl, ◌∙◌, List, [], ◌∷◌, arith, ok, true, false, inl, inr, Bool-cases,
  ltb,
}
use probe_guided_inference.Report.{Floats, rate, throughput, div_of, mean_of}

module _ (F : Floats) where
  -- A fraction of the way from 0 to n, truncated, is at most n.
  abbrev pub IsFraction : F.Float → Type 0
  IsFraction pct = (n : ℕ) → F.truncate (F.mul (F.of_nat n) pct) ≤ n

  -- What the reports rely on: a positive number is not zero, and the two percentiles are fractions.
  pub record IsNumeric : Type 0 where
    pub counts : (n : ℕ) → F.is_zero (F.of_nat (suc n)) ≡ false
    pub positive : (x : F.Float) → F.lt (F.of_nat 0) x ≡ true → F.is_zero x ≡ false
    pub half : IsFraction F.half
    pub most : IsFraction F.most

  pub div_of_total : (x y : F.Float) → F.is_zero y ≡ false → (z : F.Float) × (div_of F x y ≡ ok z)
  div_of_total x y h = (F.div x y, rw h refl)

  pub rate_pos :
      (part n : ℕ) (otherwise : F.Float)
      → rate F part (suc n) otherwise ≡ div_of F (F.of_nat part) (F.of_nat (suc n))
  unfolding rate
  rate_pos part n otherwise =
      let some_count : ltb 0 (suc n) ≡ true = ground arith in rw some_count refl

  pub no_rate : rate F 0 0 F.nan ≡ ok F.nan
  unfolding rate
  no_rate = refl

  pub rate_total :
      (part n : ℕ) (otherwise : F.Float)
      → IsNumeric
      → (x : F.Float) × (rate F part n otherwise ≡ ok x)
  unfolding rate
  rate_total part zero otherwise i = (otherwise, refl)
  rate_total part (suc n) otherwise i =
      let (x, e) = div_of_total (F.of_nat part) (F.of_nat (suc n)) (i.counts n) in
      (x, rate_pos part n otherwise ∙ e)

  pub throughput_total :
      (n : ℕ) (s : F.Float) → IsNumeric → (x : F.Float) × (throughput F n s ≡ ok x)
  unfolding throughput
  throughput_total n s i = elim (Bool-cases (F.lt (F.of_nat 0) s)) [
    | inl running ↦
        let (x, e) = div_of_total (F.of_nat n) s (i.positive s running) in (x, rw running e)
    | inr still ↦ (F.of_nat 0, rw still refl)
  ]

  pub mean_of_total : (xs : List F.Float) → (x : F.Float) × (mean_of F xs ≡ ok x)
  unfolding mean_of
  mean_of_total [] = (F.nan, refl)
  mean_of_total (x ∷ xs) = (F.mean (x ∷ xs), refl)
