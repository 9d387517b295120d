-- ===== src/Report/Matched.antt =====
-- Which record of the baseline `false_termination_rate` in benchmark/report.py reads for an index.
use probe_guided_inference.Base.{
  ℕ, Bool, true, false, ◌≡◌, refl, ◌∙◌, List, [], ◌∷◌, arith, select, ◌==◌, if◌then◌else◌,
}
use probe_guided_inference.Base.Dict
use probe_guided_inference.Base.Dict.{Dict}
use probe_guided_inference.Report.{Floats, Record, by_idx, converged_at, false_terms}

select-cong :
    {A : Type 0} (p q : A → Bool) (xs : List A) → ((x : A) → p x ≡ q x) → select p xs ≡ select q xs
select-cong p q [] same = refl
select-cong p q (x ∷ xs) same = ground (arith, same x, select-cong p q xs same)

module _ (F : Floats) where
  abbrev has_idx : ℕ → List (Record F) → Bool
  has_idx idx [] = false
  has_idx idx (r ∷ rs) = if r.aime_idx == idx then true else has_idx idx rs

  -- Whether the last of these records that has the index converged.
  abbrev pub would_converge : List (Record F) → ℕ → Bool
  would_converge [] idx = false
  would_converge (r ∷ rs) idx =
      if has_idx idx rs
      then would_converge rs idx
      else if r.aime_idx == idx
      then r.converged
      else false

  converged_at-by_idx :
      (rs : List (Record F)) (d : Dict (Record F)) (idx : ℕ)
      → converged_at F (by_idx F rs d) idx
        ≡ (if has_idx idx rs then would_converge rs idx else converged_at F d idx)
  unfolding by_idx
  converged_at-by_idx [] d idx = refl
  converged_at-by_idx (r ∷ rs) d idx = ground (
    arith,
    converged_at-by_idx rs (Dict.insert r.aime_idx r d) idx,
    Dict.get-insert r.aime_idx idx r d,
  )

  would_converge_lem :
      (rs : List (Record F)) (idx : ℕ)
      → (if has_idx idx rs then would_converge rs idx else false) ≡ would_converge rs idx
  would_converge_lem [] idx = refl
  would_converge_lem (r ∷ rs) idx = ground (arith, would_converge_lem rs idx)

  -- A terminated request counts as false exactly if the baseline's last record of it converged.
  pub false_terms-eq :
      (base rs : List (Record F))
      → false_terms F base rs ≡ select (λ r. would_converge base r.aime_idx) rs
  unfolding Dict.get
  false_terms-eq base rs =
      select-cong _ _ rs
        (λ r. converged_at-by_idx base [] r.aime_idx ∙ would_converge_lem base r.aime_idx)
