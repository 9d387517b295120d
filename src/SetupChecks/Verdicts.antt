-- ===== src/SetupChecks/Verdicts.antt =====
-- When the parity checks of scripts/verify_setup.py report an error.
use probe_guided_inference.Base.{
  ℕ, suc, ◌+◌, ◌-◌, ◌≤◌, ◌<◌, true, ◌≡◌, ◌↔◌, refl, ap, ◌∙◌, Option, none, some, List, [], ◌∷◌,
  arith, All, All₂, length, if◌then◌else◌, ltb, leb, ok, map, Bool-cases, After-exists, inl, inr,
}
use probe_guided_inference.Backend.{Backend}
use probe_guided_inference.Model.{IsRowWise}
use probe_guided_inference.Probe.{LayerActivationCapture, make_capture, resolve_layer}
use probe_guided_inference.Queue.{GenerationRequest, make_request, n_generated}
use probe_guided_inference.Cache
use probe_guided_inference.Cache.{BatchedSequenceCache}
use probe_guided_inference.Runner.{Prefilled, run_prefill}
use probe_guided_inference.Runner.Greedy.{greedy, length-greedy}
use probe_guided_inference.Scheduler.Places.{occurrences, occurrences-All₂, one_if}
use probe_guided_inference.Scheduler.Flags.{OneEach}
use probe_guided_inference.Scheduler.Parity.{IsAsking, IsExact, IsStarted, run_prefill_total}
use probe_guided_inference.SetupChecks.{
  Prompt, Setup, CheckError, single_parity, request_for, requests_for, limits_of, matches,
  compare_all, single_loop, multi_loop, prefill_all, check_single, check_multi,
}
use probe_guided_inference.SetupChecks.Written.{SamePrompt}
use probe_guided_inference.SetupChecks.Stepping.{Done, single_loop-Done, multi_loop-Done}
use probe_guided_inference.SetupChecks.Prefilling.{Prefixed, first_token, prefill_all-Prefixed}
use probe_guided_inference.SetupChecks.Parity.{IsGenerate, RunsFor, same_iff}

-- The model has the layer of the probe.
abbrev pub HasLayer : {b : Backend} → Setup b → Type 0
HasLayer setup = (layers : ℕ) × (setup.layers ≡ some layers) × (setup.probe_layer < layers)

module _ {b : Backend} (setup : Setup b) (w : IsRowWise b)
    (generates : IsGenerate w setup.eos_token_id setup.generate) (n : ℕ) (positive : 1 ≤ n) where
  -- A request that has got `n` greedy tokens matches exactly if the model runs for them.
  matches_iff :
      (r : GenerationRequest b) (ids : List ℕ)
      → r.prompt_ids ≡ ids
      → n_generated r ≡ n
      → IsExact w r.prompt_ids r.generated_ids
      → (matches setup n (setup.generate ids n) r ≡ true) ↔ RunsFor w setup.eos_token_id n ids
  matches_iff r ids prompt size (steps, e) =
      let count = ap (λ (l : List ℕ). length l) e ∙ length-greedy w r.prompt_ids steps in
      let last : steps ≡ n - 1 = omega (arith, count, size) in
      let tokens : r.generated_ids ≡ (greedy w ids (n - 1)).tokens =
        e ∙ ap (λ l. (greedy w l steps).tokens) prompt ∙ ap (λ k. (greedy w ids k).tokens) last in
      rw tokens (same_iff w setup.eos_token_id setup.generate generates n ids positive)

  compare_all_iff :
      (i : ℕ) (prompts : List Prompt) (rs : List (GenerationRequest b))
      → All₂ (λ (p : Prompt) r. r.prompt_ids ≡ p.ids) prompts rs
      → All (λ r. n_generated r ≡ n) rs
      → All (λ r. IsExact w r.prompt_ids r.generated_ids) rs
      → (compare_all setup n i rs (map (λ (p : Prompt). setup.generate p.ids n) prompts) ≡ [])
        ↔ All (λ (p : Prompt). RunsFor w setup.eos_token_id n p.ids) prompts
  compare_all_iff i [] [] s z x = (λ e. tt, λ e. refl)
  compare_all_iff i [] (r ∷ rs) s z x = absurd s
  compare_all_iff i (p ∷ prompts) [] s z x = absurd s
  compare_all_iff i (p ∷ prompts) (r ∷ rs) (s, ss) (z, zs) (x, xs) =
      let here = matches_iff r p.ids s z x in
      let later = compare_all_iff (suc i) prompts rs ss zs xs in
      elim (Bool-cases (matches setup n (setup.generate p.ids n) r)) [
        | inl same ↦ rw same ((λ e. (here.0 same, later.0 e)), (λ e. later.1 e.1))
        | inr differs ↦ rw differs ((λ e. absurd cc), (λ e. let never = here.1 e.0 in absurd cc))
      ]

  capture_total :
      HasLayer setup
      → (capture : LayerActivationCapture b) × (make_capture b setup.layers setup.probe_layer
          ≡ ok capture)
  unfolding make_capture resolve_layer
  capture_total (layers, e, less) =
      let found : ltb setup.probe_layer layers ≡ true = ground arith in
      (record { layer_idx = setup.probe_layer; last = none; attached = true }, rw e (rw found refl))

  alone-OneEach : (r : GenerationRequest b) → OneEach (r ∷ [])
  alone-OneEach r k = ground arith

  abbrev single_errors : Prompt → GenerationRequest b → List CheckError
  single_errors prompt r =
      if matches setup n (setup.generate prompt.ids n) r then [] else single_parity ∷ []

  -- The checks, from what their parts return.
  single_assembled :
      (request_id now : ℕ) (prompt : Prompt) (capture : LayerActivationCapture b) (p : Prefilled b)
      (r : GenerationRequest b)
      → make_capture b setup.layers setup.probe_layer ≡ ok capture
      → run_prefill
          (limits_of setup n)
          (Cache.empty b)
          (some capture)
          (request_for request_id now n prompt)
        ≡ ok p
      → single_loop (n - 1) (limits_of setup n) n now p.cache p.capture p.req ≡ ok r
      → check_single setup request_id now n prompt ≡ ok (single_errors prompt r)
  unfolding check_single
  single_assembled request_id now prompt capture p r made ran looped =
      rw made (rw ran (rw looped refl))

  single_errors_iff :
      (prompt : Prompt) (r : GenerationRequest b)
      → (matches setup n (setup.generate prompt.ids n) r ≡ true)
        ↔ RunsFor w setup.eos_token_id n prompt.ids
      → (single_errors prompt r ≡ []) ↔ RunsFor w setup.eos_token_id n prompt.ids
  single_errors_iff prompt r verdict =
      elim (Bool-cases (matches setup n (setup.generate prompt.ids n) r)) [
        | inl same ↦ rw same ((λ e. verdict.0 same), (λ e. refl))
        | inr differs ↦ rw differs ((λ e. absurd cc), (λ e. let never = verdict.1 e in absurd cc))
      ]

  -- The verdict on the prompts, from what the loops leave.
  pub check_single_iff :
      (request_id now : ℕ) (prompt : Prompt)
      → 1 ≤ length prompt.ids
      → HasLayer setup
      → (errors : List CheckError) × (check_single setup request_id now n prompt ≡ ok errors)
        × ((errors ≡ []) ↔ RunsFor w setup.eos_token_id n prompt.ids)
  unfolding make_request
  check_single_iff request_id now prompt some_token layer =
      let (capture, made) = capture_total layer in
      let limits = limits_of setup n in
      let r : GenerationRequest b = request_for request_id now n prompt in
      let (p, ran, i) =
        After-exists (IsStarted w (Cache.empty b) none r)
          (run_prefill limits (Cache.empty b) (some capture) r)
          (run_prefill_total w limits none (Cache.empty b) (some capture) r some_token
            (λ g e. absurd cc)) in
      let (ready, sized) = first_token w limits now n (Cache.empty b) r p (refl, some_token) i in
      let (r', looped, done) =
        After-exists (λ r'. Done w limits now n (p.req ∷ []) (r' ∷ []))
          (single_loop (n - 1) limits n now p.cache p.capture p.req)
          (single_loop-Done w limits now n (n - 1) 1 p.cache p.capture p.req (omega arith)
            (record { faithful = (ready, tt); sized = (sized, tt); one = alone-OneEach p.req })) in
      let prompt_same : r'.prompt_ids ≡ prompt.ids = done.0.1.0 ∙ i.same_prompt in
      let verdict = matches_iff r' prompt.ids prompt_same done.1.0 done.2.0 in
      (
        single_errors prompt r',
        single_assembled request_id now prompt capture p r' made ran looped,
        single_errors_iff prompt r' verdict,
      )

  requests-occurrences :
      (k request_id now : ℕ) (prompts : List Prompt)
      → occurrences k (requests_for setup request_id now n prompts) ≤ one_if (leb request_id k)
  unfolding make_request
  requests-occurrences k request_id now [] = ground arith
  requests-occurrences k request_id now (p ∷ prompts) =
      ground (arith, requests-occurrences k (request_id + 1) now prompts)

  requests-IsAsking :
      (request_id now : ℕ) (prompts : List Prompt)
      → All (λ (p : Prompt). 1 ≤ length p.ids) prompts
      → All IsAsking (requests_for setup request_id now n prompts)
  unfolding make_request
  requests-IsAsking request_id now [] h = tt
  requests-IsAsking request_id now (p ∷ prompts) (some_token, h) =
      ((refl, some_token), requests-IsAsking (request_id + 1) now prompts h)

  requests-prompts :
      (request_id now : ℕ) (prompts : List Prompt) (rs rs' : List (GenerationRequest b))
      → All₂ SamePrompt (requests_for setup request_id now n prompts) rs
      → All₂ SamePrompt rs rs'
      → All₂ (λ (p : Prompt) r. r.prompt_ids ≡ p.ids) prompts rs'
  unfolding make_request
  requests-prompts request_id now [] [] [] h k = tt
  requests-prompts request_id now [] [] (r' ∷ rs') h k = absurd k
  requests-prompts request_id now [] (r ∷ rs) rs' h k = absurd h
  requests-prompts request_id now (p ∷ prompts) [] rs' h k = absurd h
  requests-prompts request_id now (p ∷ prompts) (r ∷ rs) [] h k = absurd k
  requests-prompts request_id now (p ∷ prompts) (r ∷ rs) (r' ∷ rs') (h, hs) (k, ks) =
      (k ∙ h, requests-prompts (request_id + 1) now prompts rs rs' hs ks)

  multi_assembled :
      (request_id now : ℕ) (prompts : List Prompt) (capture : LayerActivationCapture b)
      (rs : List (GenerationRequest b)) (cache : BatchedSequenceCache b)
      (seen : Option (LayerActivationCapture b)) (rs' : List (GenerationRequest b))
      → make_capture b setup.layers setup.probe_layer ≡ ok capture
      → prefill_all
          (limits_of setup n)
          (Cache.empty b)
          (some capture)
          (requests_for setup request_id now n prompts)
        ≡ ok (rs, cache, seen)
      → multi_loop (n - 1) (limits_of setup n) n now cache seen rs ≡ ok rs'
      → check_multi setup request_id now n prompts
        ≡ ok (compare_all setup n 0 rs' (map (λ (p : Prompt). setup.generate p.ids n) prompts))
  unfolding check_multi
  multi_assembled request_id now prompts capture rs cache seen rs' made ran looped =
      rw made (rw ran (rw looped refl))

  -- The verdict on the prompts, from what the loops leave.
  pub check_multi_iff :
      (request_id now : ℕ) (prompts : List Prompt)
      → All (λ (p : Prompt). 1 ≤ length p.ids) prompts
      → HasLayer setup
      → (errors : List CheckError) × (check_multi setup request_id now n prompts ≡ ok errors)
        × ((errors ≡ []) ↔ All (λ (p : Prompt). RunsFor w setup.eos_token_id n p.ids) prompts)
  check_multi_iff request_id now prompts some_tokens layer =
      let (capture, made) = capture_total layer in
      let limits = limits_of setup n in
      let rs = requests_for setup request_id now n prompts in
      let one : OneEach rs = λ k. ground (arith, requests-occurrences k request_id now prompts) in
      let (s, ran, known) =
        After-exists (Prefixed w limits now n [] rs)
          (prefill_all limits (Cache.empty b) (some capture) rs)
          (prefill_all-Prefixed w limits now n (Cache.empty b) (some capture) [] rs tt tt one
            (requests-IsAsking request_id now prompts some_tokens)) in
      let once : OneEach s.0 = λ k. omega (arith, one k, occurrences-All₂ k rs s.0 known.3.0) in
      let (rs', looped, done) =
        After-exists (Done w limits now n s.0) (multi_loop (n - 1) limits n now s.1 s.2 s.0) (
          multi_loop-Done w limits now n (n - 1) 1 s.1 s.2 s.0 (omega arith)
            (record { faithful = known.1; sized = known.2; one = once })) in
      (
        compare_all setup n 0 rs' (map (λ (p : Prompt). setup.generate p.ids n) prompts),
        multi_assembled request_id now prompts capture s.0 s.1 s.2 rs' made ran looped,
        compare_all_iff 0 prompts rs'
            (requests-prompts request_id now prompts s.0 rs' known.3.1 done.0.1) done.1 done.2,
      )
