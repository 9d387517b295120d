-- ===== src/Tests/Checks.antt =====
-- The setup checks on the toy model, with a `generate` that stops at the end-of-sequence token.
use probe_guided_inference.Base.{
  ℕ, zero, suc, ◌+◌, ◌-◌, ◌≤◌, ◌≡◌, ◌≢◌, ◌↔◌, ◌⊎◌, inl, inr, refl, false, some, List, [], ◌∷◌, ◌++◌,
  arith, All, All-append, length, if_ind, if◌then◌else◌, ◌==◌, ok, subst,
}
use probe_guided_inference.Backend.{Backend}
use probe_guided_inference.Model.{IsRowWise}
use probe_guided_inference.Runner.Greedy.{greedy, length-greedy}
use probe_guided_inference.Answers.{codes}
use probe_guided_inference.SetupChecks.{CheckError, Installation, verify_setup}
use probe_guided_inference.SetupChecks.Parity.{IsGenerate}
use probe_guided_inference.SetupChecks.Passing.{IsReady, verify_setup-IsReady}
use probe_guided_inference.Tests.Toy.{toy, toy-IsRowWise}
use probe_guided_inference.Tests.Setup.{probe}

module _ {b : Backend} (w : IsRowWise b) (eos_token_id : ℕ) (ids : List ℕ) where
  -- From the tokens after some steps on, at most `fuel` further ones.
  unfoldable generate_from : ℕ → ℕ → List ℕ
  generate_from zero steps = (greedy w ids steps).tokens
  generate_from (suc fuel) steps =
      let rest = generate_from fuel (suc steps) in
      if (greedy w ids steps).newest == eos_token_id then (greedy w ids steps).tokens else rest

  abbrev Stops : List ℕ → ℕ → Type 0
  Stops tokens n =
      (steps : ℕ) × (before : List ℕ) × (newest : ℕ) × (tokens ≡ (greedy w ids steps).tokens)
      × (tokens ≡ before ++ newest ∷ [])
      × (length tokens ≤ n)
      × All (λ k. k ≢ eos_token_id) before
      × ((length tokens ≡ n) ⊎ (newest ≡ eos_token_id))

  generate_from-Stops :
      (fuel steps : ℕ) (before : List ℕ)
      → (greedy w ids steps).tokens ≡ before ++ (greedy w ids steps).newest ∷ []
      → All (λ k. k ≢ eos_token_id) before
      → Stops (generate_from fuel steps) (steps + 1 + fuel)
  unfolding generate_from
  generate_from-Stops zero steps before e no_eos = (
    steps,
    before,
    (greedy w ids steps).newest,
    refl,
    e,
    omega (arith, length-greedy w ids steps),
    no_eos,
    inl (omega (arith, length-greedy w ids steps)),
  )
  generate_from-Stops (suc fuel) steps before e no_eos =
      if_ind (λ l. Stops l (steps + 1 + suc fuel)) ((greedy w ids steps).newest == eos_token_id)
        (λ at_eos. (
          steps,
          before,
          (greedy w ids steps).newest,
          refl,
          e,
          omega (arith, length-greedy w ids steps),
          no_eos,
          inr (ground arith),
        ))
        (λ other.
          let still : All (λ k. k ≢ eos_token_id) (greedy w ids steps).tokens = rw e (
            All-append (λ k. k ≢ eos_token_id) before ((greedy w ids steps).newest ∷ []) no_eos
              (ground arith, tt)) in
          subst (Stops (generate_from fuel (suc steps))) (omega arith)
            (generate_from-Stops fuel (suc steps) (greedy w ids steps).tokens (grows steps) still))
    where
      grows :
          (n : ℕ)
          → (greedy w ids (suc n)).tokens
            ≡ (greedy w ids n).tokens ++ (greedy w ids (suc n)).newest ∷ []
      grows n = unfold greedy in refl

abbrev generate : List ℕ → ℕ → List ℕ
generate ids n = generate_from toy-IsRowWise 2 ids (n - 1) 0

generate-IsGenerate : IsGenerate toy-IsRowWise 2 generate
generate-IsGenerate ids n positive =
    subst (Stops toy-IsRowWise 2 ids (generate ids n)) (omega arith)
      (generate_from-Stops toy-IsRowWise 2 ids (n - 1) 0 [] (unfold greedy in refl) tt)

abbrev installation : Installation toy
installation = record {
  setup = record { generate = generate; layers = some 1; probe_layer = 0; eos_token_id = 2 };
  vram_high = false;
  start_tok = codes "<think>";
  end_tok = codes "</think>";
  file = some probe;
  checkpoint_position = 2;
  hidden_size = 4;
  prompt_text = codes "<think>";
  single = record { text = "one"; ids = 3 ∷ [] };
  several =
      record { text = "two"; ids = 3 ∷ [] } ∷ record { text = "three"; ids = 5 ∷ 6 ∷ [] } ∷ [];
}

verify_setup-IsReady_example :
    (errors : List CheckError) × (verify_setup 0 installation ≡ ok errors)
    × ((errors ≡ []) ↔ IsReady toy-IsRowWise installation)
verify_setup-IsReady_example =
    verify_setup-IsReady toy-IsRowWise 0 installation generate-IsGenerate (1, refl, omega arith)
      (omega arith) (omega arith, (omega arith, tt))
