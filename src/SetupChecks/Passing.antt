-- ===== src/SetupChecks/Passing.antt =====
-- When scripts/verify_setup.py as a whole reports no error.
use probe_guided_inference.Base.{
  ℕ, ◌≤◌, length, Bool, true, false, not, ◌≡◌, ◌↔◌, refl, Option, none, some, List, [], ◌∷◌, ◌++◌,
  arith, All, ◌==◌, ok, raise, Result, subst,
}
use probe_guided_inference.Backend.{Backend}
use probe_guided_inference.Model.{IsRowWise}
use probe_guided_inference.Probe.{ProbeArtifact, load_probe}
use probe_guided_inference.Probe.Loading.{load_probe_iff}
use probe_guided_inference.Answers.{codes}
use probe_guided_inference.SetupChecks.{
  CheckError, Prompt, Installation, error_unless, is_within, check_probe, check_single, check_multi,
  verify_setup, vram_usage, think_start, think_end, chat_template, hidden_dim, probe_failed,
}
use probe_guided_inference.SetupChecks.Parity.{IsGenerate, RunsFor}
use probe_guided_inference.SetupChecks.Verdicts.{HasLayer, check_single_iff, check_multi_iff}

no_errors : (xs ys : List CheckError) → (xs ++ ys ≡ []) ↔ ((xs ≡ []) × (ys ≡ []))
no_errors [] ys = (λ e. (refl, e), λ e. e.1)
no_errors (x ∷ xs) ys = (λ e. absurd cc, λ e. let never = e.0 in absurd cc)

error_unless_iff : (good : Bool) (e : CheckError) → (error_unless good e ≡ []) ↔ (good ≡ true)
error_unless_iff true e = (λ h. refl, λ h. refl)
error_unless_iff false e = (λ h. absurd cc, λ h. absurd cc)

module _ {b : Backend} where
  -- There is no probe yet, or one for this layer, this checkpoint and this model.
  abbrev pub ProbeFits : Installation b → Type 0
  ProbeFits i =
      (artifact : ProbeArtifact b)
      → i.file ≡ some artifact
      → (artifact.trained_layer ≡ i.setup.probe_layer)
        × (artifact.trained_checkpoint ≡ i.checkpoint_position)
        × (artifact.expected_hidden_dim ≡ i.hidden_size)

  abbrev Fits : Option (ProbeArtifact b) → ℕ → ℕ → ℕ → Type 0
  Fits file layer checkpoint hidden_size =
      (artifact : ProbeArtifact b)
      → file ≡ some artifact
      → (artifact.trained_layer ≡ layer)
        × (artifact.trained_checkpoint ≡ checkpoint)
        × (artifact.expected_hidden_dim ≡ hidden_size)

  loaded_iff :
      (a : ProbeArtifact b) (layer checkpoint hidden_size : ℕ) (m : Result (ProbeArtifact b))
      → load_probe (some a) layer checkpoint ≡ m
      → (elim m as (λ _. List CheckError) [
        | raise e ↦ probe_failed ∷ []
        | ok probe ↦ error_unless (probe.expected_hidden_dim == hidden_size) hidden_dim
      ]
          ≡ [])
        ↔ Fits (some a) layer checkpoint hidden_size
  loaded_iff a layer checkpoint hidden_size (raise x) e = (
    λ h. absurd cc,
    λ fits.
        let (l, c, d) = fits a refl in
        let loads = (load_probe_iff (some a) layer checkpoint a).1 (refl, l, c) in absurd cc,
  )
  loaded_iff a layer checkpoint hidden_size (ok p) e =
      let (same, l, c) = (load_probe_iff (some a) layer checkpoint p).0 e in
      let verdict = error_unless_iff (p.expected_hidden_dim == hidden_size) hidden_dim in
      (
        λ h artifact f.
            let good = verdict.0 h in
            let size : p.expected_hidden_dim ≡ hidden_size = ground arith in
            let one : p ≡ artifact = cc in
            subst
              (λ (q : ProbeArtifact b).
                (q.trained_layer ≡ layer)
                × (q.trained_checkpoint ≡ checkpoint)
                × (q.expected_hidden_dim ≡ hidden_size))
              one (l, c, size),
        λ fits. let (l', c', d') = fits p same in verdict.1 (ground arith),
      )

  check_probe_iff : (i : Installation b) → (check_probe i ≡ []) ↔ ProbeFits i
  unfolding check_probe
  check_probe_iff i = cases i.file
    where
      cases :
          (file : Option (ProbeArtifact b))
          → (elim file as (λ _. List CheckError) [
            | none ↦ []
            | some artifact ↦
                elim (load_probe (some artifact) i.setup.probe_layer i.checkpoint_position) [
                  | raise e ↦ probe_failed ∷ []
                  | ok probe ↦ error_unless (probe.expected_hidden_dim == i.hidden_size) hidden_dim
                ]
          ]
              ≡ [])
            ↔ Fits file i.setup.probe_layer i.checkpoint_position i.hidden_size
      cases none = (λ h artifact f. absurd cc, λ h. refl)
      cases (some a) =
          loaded_iff a i.setup.probe_layer i.checkpoint_position i.hidden_size
            (load_probe (some a) i.setup.probe_layer i.checkpoint_position) refl

  -- What the script is to find.
  pub record IsReady (w : IsRowWise b) (i : Installation b) : Type 0 where
    pub vram : i.vram_high ≡ false
    pub starts : is_within (codes "<think>") i.start_tok ≡ true
    pub ends : is_within (codes "</think>") i.end_tok ≡ true
    pub probe : ProbeFits i
    pub template : is_within (codes "<think>") i.prompt_text ≡ true
    pub single : RunsFor w i.setup.eos_token_id 15 i.single.ids
    pub several : All (λ (p : Prompt). RunsFor w i.setup.eos_token_id 12 p.ids) i.several

  abbrev errors_before : Installation b → List CheckError
  errors_before i =
      error_unless (not i.vram_high) vram_usage
      ++ (error_unless (is_within (codes "<think>") i.start_tok) think_start
          ++ (error_unless (is_within (codes "</think>") i.end_tok) think_end
              ++ (check_probe i
                  ++ error_unless (is_within (codes "<think>") i.prompt_text) chat_template)))

  verify_assembled :
      (now : ℕ) (i : Installation b) (single multi : List CheckError)
      → check_single i.setup 1 now 15 i.single ≡ ok single
      → check_multi i.setup 2 now 12 i.several ≡ ok multi
      → verify_setup now i ≡ ok (errors_before i ++ (single ++ multi))
  unfolding verify_setup
  verify_assembled now i single multi e f = rw e (rw f refl)

  -- For a model that reads a batch of the documented shape row by row, ignores masked columns
  -- and is shown the new token, in exact arithmetic, and that has the layer of the probe,
  -- prompts that have a token, and a generate that returns the greedy tokens and stops only at
  -- the end-of-sequence token or at its bound, the checks of the setup script raise no
  -- exception, and they report no error exactly if the memory in use is not high, the two think
  -- tokens contain their marks, there is no probe or one for this layer, this checkpoint and
  -- this hidden size, the template contains its mark, and the model emits no end-of-sequence
  -- token too early, that is before its 15th token on the single prompt and before its 12th on
  -- each of the several prompts.
  pub verify_setup-IsReady :
      (w : IsRowWise b) (now : ℕ) (i : Installation b)
      → IsGenerate w i.setup.eos_token_id i.setup.generate
      → HasLayer i.setup
      → 1 ≤ length i.single.ids
      → All (λ (p : Prompt). 1 ≤ length p.ids) i.several
      → (errors : List CheckError) × (verify_setup now i ≡ ok errors)
        × ((errors ≡ []) ↔ IsReady w i)
  verify_setup-IsReady w now i generates layer some_token some_tokens =
      let (single, e, single_iff) =
        check_single_iff i.setup w generates 15 (omega arith) 1 now i.single some_token layer in
      let (multi, f, multi_iff) =
        check_multi_iff i.setup w generates 12 (omega arith) 2 now i.several some_tokens layer in
      (
        errors_before i ++ (single ++ multi),
        verify_assembled now i single multi e f,
        (
          (λ h.
              let (before, after) = (no_errors (errors_before i) (single ++ multi)).0 h in
              let (one, several) = (no_errors single multi).0 after in
              let (vram, rest) =
                (no_errors (error_unless (not i.vram_high) vram_usage) _).0 before in
              let (starts, rest') =
                (no_errors (error_unless (is_within (codes "<think>") i.start_tok) think_start) _).0
                  rest in
              let (ends, rest'') =
                (no_errors (error_unless (is_within (codes "</think>") i.end_tok) think_end) _).0
                  rest' in
              let (probe, template) = (no_errors (check_probe i) _).0 rest'' in
              let low = (error_unless_iff (not i.vram_high) vram_usage).0 vram in
              record {
                vram = ground (arith, low);
                starts =
                    (error_unless_iff (is_within (codes "<think>") i.start_tok) think_start).0
                      starts;
                ends = (error_unless_iff (is_within (codes "</think>") i.end_tok) think_end).0 ends;
                probe = (check_probe_iff i).0 probe;
                template =
                    (error_unless_iff (is_within (codes "<think>") i.prompt_text) chat_template).0
                      template;
                single = single_iff.0 one;
                several = multi_iff.0 several;
              }),
          (λ r.
              let low : not i.vram_high ≡ true = ground (arith, r.vram) in
              rw
                (
                  low,
                  r.starts,
                  r.ends,
                  (check_probe_iff i).1 r.probe,
                  r.template,
                  single_iff.1 r.single,
                  multi_iff.1 r.several,
                )
                refl),
        ),
      )
