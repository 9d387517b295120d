-- ===== src/SetupChecks/Parity.antt =====
-- The two parity checks of scripts/verify_setup.py, against what `generate` does.
use probe_guided_inference.Base.{
  ℕ, zero, suc, ◌+◌, ◌-◌, ◌≤◌, true, ◌≡◌, ◌≢◌, ◌↔◌, ◌⊎◌, inl, inr, refl, ap, sym, ◌∙◌, List, [],
  ◌∷◌, ◌++◌, arith, All, length, length-append, take, subst,
}
use mathlib.Core.Path.{ap₂}
use native.Mathlib.Decide.{ℕ_discrete}
use probe_guided_inference.Backend.{Backend}
use probe_guided_inference.Model.{IsRowWise}
use probe_guided_inference.Runner.Greedy.{greedy, length-greedy}
use probe_guided_inference.Evaluation.{same_text}
use probe_guided_inference.Evaluation.Tokens.{greedy-extends, All-last}

-- Python's list comparison.
same_text_refl : (xs : List ℕ) → same_text xs xs ≡ true
same_text_refl [] = refl
same_text_refl (x ∷ xs) = ground (arith, same_text_refl xs)

same_text-eq : (xs ys : List ℕ) → same_text xs ys ≡ true → xs ≡ ys
same_text-eq [] [] h = refl
same_text-eq [] (y ∷ ys) h = cc
same_text-eq (x ∷ xs) [] h = cc
same_text-eq (x ∷ xs) (y ∷ ys) h = ground (arith, same_text-eq xs ys)

take_all : (n : ℕ) (xs : List ℕ) → length xs ≤ n → take n xs ≡ xs
take_all zero [] h = refl
take_all zero (x ∷ xs) h = absurd (omega arith)
take_all (suc n) [] h = refl
take_all (suc n) (x ∷ xs) h = ap (◌∷◌ x) (take_all n xs (omega arith))

take_front : (xs rest : List ℕ) → take (length xs) (xs ++ rest) ≡ xs
take_front [] rest = refl
take_front (x ∷ xs) rest = ap (◌∷◌ x) (take_front xs rest)

All-take_front :
    (P : ℕ → Type 0) (n : ℕ) (xs rest : List ℕ)
    → length xs ≤ n
    → All P (take n (xs ++ rest))
    → All P xs
All-take_front P n [] rest h a = tt
All-take_front P zero (x ∷ xs) rest h a = absurd (omega arith)
All-take_front P (suc n) (x ∷ xs) rest h a = (a.0, All-take_front P n xs rest (omega arith) a.1)

module _ {b : Backend} (w : IsRowWise b) (eos_token_id : ℕ) where
  -- What transformers documents of `generate` without sampling: the greedy tokens, up to the first
  -- end-of-sequence token or the given number.
  abbrev pub IsGenerate : (List ℕ → ℕ → List ℕ) → Type 0
  IsGenerate generate =
      (ids : List ℕ) (n : ℕ)
      → 1 ≤ n
      → (steps : ℕ) × (before : List ℕ) × (newest : ℕ) × (generate ids n
          ≡ (greedy w ids steps).tokens)
        × (generate ids n ≡ before ++ newest ∷ [])
        × (length (generate ids n) ≤ n)
        × All (λ k. k ≢ eos_token_id) before
        × ((length (generate ids n) ≡ n) ⊎ (newest ≡ eos_token_id))

  -- Of the first `n` greedy tokens none but the last is an end-of-sequence token.
  abbrev pub RunsFor : ℕ → List ℕ → Type 0
  RunsFor n ids = All (λ k. k ≢ eos_token_id) (take (n - 1) (greedy w ids (n - 1)).tokens)

  module _ (generate : List ℕ → ℕ → List ℕ) (generates : IsGenerate generate) (n : ℕ) (ids : List ℕ)
      (positive : 1 ≤ n) where
    full : length (greedy w ids (n - 1)).tokens ≡ n
    full = omega (arith, length-greedy w ids (n - 1))

    full-RunsFor : length (generate ids n) ≡ n → RunsFor n ids
    full-RunsFor long =
        let (steps, before, newest, e, f, bound, no_eos, why) = generates ids n positive in
        let count : length (generate ids n) ≡ steps + 1 =
          ap (λ (l : List ℕ). length l) e ∙ length-greedy w ids steps in
        let last : n - 1 ≡ steps = omega arith in
        let short : length before ≡ n - 1 =
          omega (arith, ap (λ (l : List ℕ). length l) f, length-append {0} before (newest ∷ [])) in
        let whole : (greedy w ids (n - 1)).tokens ≡ before ++ newest ∷ [] =
          ap (λ k. (greedy w ids k).tokens) last ∙ sym e ∙ f in
        let front : take (n - 1) (greedy w ids (n - 1)).tokens ≡ before =
          ap (take (n - 1)) whole
          ∙ ap (λ k. take k (before ++ newest ∷ [])) (sym short)
          ∙ take_front before (newest ∷ []) in
        subst (All (λ k. k ≢ eos_token_id)) (sym front) no_eos

    RunsFor-full : RunsFor n ids → length (generate ids n) ≡ n
    RunsFor-full runs =
        let (steps, before, newest, e, f, bound, no_eos, why) = generates ids n positive in
        elim why [
          | inl long ↦ long
          | inr at_eos ↦ elim (ℕ_discrete (length (generate ids n)) n) [
            | yes long ↦ long
            | no short ↦
                let count : length (generate ids n) ≡ steps + 1 =
                  ap (λ (l : List ℕ). length l) e ∙ length-greedy w ids steps in
                let (rest, g) = greedy-extends w ids steps (n - 1) (omega arith) in
                let whole : (greedy w ids (n - 1)).tokens ≡ (before ++ newest ∷ []) ++ rest =
                  g ∙ ap (λ (l : List ℕ). l ++ rest) (sym e ∙ f) in
                let none_here : All (λ k. k ≢ eos_token_id) (before ++ newest ∷ []) =
                  All-take_front (λ k. k ≢ eos_token_id) (n - 1) (before ++ newest ∷ []) rest
                    (omega (arith, ap (λ (l : List ℕ). length l) f))
                    (subst (λ l. All (λ k. k ≢ eos_token_id) (take (n - 1) l)) whole runs) in
                absurd (All-last (λ k. k ≢ eos_token_id) before newest none_here at_eos)
          ]
        ]

    -- The comparison succeeds exactly if the model runs for `n` tokens.
    pub same_iff :
        (same_text
            (take n (greedy w ids (n - 1)).tokens)
            (take (length (take n (greedy w ids (n - 1)).tokens)) (generate ids n))
          ≡ true)
        ↔ RunsFor n ids
    same_iff =
        let (steps, before, newest, e, f, bound, no_eos, why) = generates ids n positive in
        let count : length (generate ids n) ≡ steps + 1 =
          ap (λ (l : List ℕ). length l) e ∙ length-greedy w ids steps in
        let long = full in
        let all = take_all n (greedy w ids (n - 1)).tokens (omega arith) in
        let ref : take (length (take n (greedy w ids (n - 1)).tokens)) (generate ids n)
            ≡ generate ids n =
          ap (λ (l : List ℕ). take (length l) (generate ids n)) all
          ∙ ap (λ k. take k (generate ids n)) long
          ∙ take_all n (generate ids n) bound in
        (
          λ h.
              let same =
                same_text-eq (greedy w ids (n - 1)).tokens (generate ids n)
                  (sym (ap₂ same_text all ref) ∙ h) in
              full-RunsFor (sym (ap (λ (l : List ℕ). length l) same) ∙ long),
          λ runs.
              let last : steps ≡ n - 1 = omega (arith, RunsFor-full runs) in
              let same : generate ids n ≡ (greedy w ids (n - 1)).tokens =
                e ∙ ap (λ k. (greedy w ids k).tokens) last in
              ap₂ same_text all (ref ∙ same) ∙ same_text_refl (greedy w ids (n - 1)).tokens,
        )
