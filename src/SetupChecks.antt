-- ===== src/SetupChecks.antt =====
-- scripts/verify_setup.py: the checks of the batched cache bridge against the model's own generation.
pub mod Written
pub mod Stepping
pub mod Prefilling
pub mod Parity
pub mod Verdicts
pub mod Passing
use probe_guided_inference.Base.{
  ℕ, zero, suc, ◌+◌, ◌-◌, Bool, true, false, ◌&&◌, not, String, Option, none, some, List, [], ◌∷◌,
  ◌++◌, map, take, type_error, index_error, Result, ok, raise, or_raise, ◌>>=◌, ◌==◌, ltb, leb,
  length, get_elem?, select, if◌then◌else◌,
}
use probe_guided_inference.Backend.{Backend}
use probe_guided_inference.Probe.{ProbeArtifact, LayerActivationCapture, make_capture, load_probe}
use probe_guided_inference.Queue.{GenerationRequest, Submission, make_request, n_generated}
use probe_guided_inference.Cache
use probe_guided_inference.Cache.{BatchedSequenceCache}
use probe_guided_inference.Runner.{Limits, Prefilled, Decoded, run_prefill, run_decode_step}
use probe_guided_inference.Scheduler.State.{get_active}
use probe_guided_inference.Answers.{Text, codes, after_literal}
use probe_guided_inference.Evaluation.{same_text}

-- A prompt that is checked: the text and its tokens.
pub record Prompt : Type 0 where
  pub text : String
  pub ids : List ℕ

pub data CheckError : Type 0 where
  vram_usage think_start think_end hidden_dim probe_failed chat_template : CheckError
  single_parity : CheckError
  multi_parity : ℕ → CheckError

-- `generate ids n` are the new tokens of `model.generate`, at most `n`, without sampling.
pub record Setup (b : Backend) : Type 0 where
  pub generate : List ℕ → ℕ → List ℕ
  pub layers : Option ℕ
  pub probe_layer : ℕ
  pub eos_token_id : ℕ

abbrev pub request_for : {b : Backend} → ℕ → ℕ → ℕ → Prompt → GenerationRequest b
request_for request_id now n_tokens prompt = make_request request_id now (record {
  prompt = prompt.text;
  max_tokens = n_tokens;
  prompt_ids = prompt.ids;
  stream = false;
  metadata = none;
})

module _ {b : Backend} where
  -- The requests are changed in place: what the step returns replaces those that it was given.
  abbrev pub replacement : List (GenerationRequest b) → GenerationRequest b → GenerationRequest b
  replacement updated r = elim (get_active r.request_id updated) [ none ↦ r | some r' ↦ r' ]

  abbrev pub write_back :
      List (GenerationRequest b) → List (GenerationRequest b) → List (GenerationRequest b)
  write_back updated [] = []
  write_back updated (r ∷ rs) = replacement updated r ∷ write_back updated rs

  -- `for _ in range(n_tokens - 1)` with the one request.
  unfoldable pub single_loop :
      ℕ
      → Limits
      → ℕ
      → ℕ
      → BatchedSequenceCache b
      → Option (LayerActivationCapture b)
      → GenerationRequest b
      → Result (GenerationRequest b)
  single_loop zero limits n_tokens now cache capture req = ok req
  single_loop (suc k) limits n_tokens now cache capture req =
      let rest = run_decode_step limits none now (req ∷ []) cache capture >>= λ d.
      or_raise index_error (get_elem? d.active_reqs 0) >>= λ req'.
      single_loop k limits n_tokens now d.cache d.capture req' in
      if leb n_tokens (n_generated req) then ok req else rest

  abbrev pub unfinished : ℕ → List (GenerationRequest b) → List (GenerationRequest b)
  unfinished n_tokens reqs = select (λ (r : GenerationRequest b). ltb (n_generated r) n_tokens) reqs

  -- The same for several requests, of which those with fewer than `n_tokens` tokens are decoded.
  unfoldable pub multi_loop :
      ℕ
      → Limits
      → ℕ
      → ℕ
      → BatchedSequenceCache b
      → Option (LayerActivationCapture b)
      → List (GenerationRequest b)
      → Result (List (GenerationRequest b))
  multi_loop zero limits n_tokens now cache capture reqs = ok reqs
  multi_loop (suc k) limits n_tokens now cache capture reqs =
      let active = unfinished n_tokens reqs in
      let rest = run_decode_step limits none now active cache capture >>= λ d.
      multi_loop k limits n_tokens now d.cache d.capture (write_back d.active_reqs reqs) in
      elim active [ [] ↦ ok reqs | r ∷ rs ↦ rest ]

  -- `for req in reqs: run_prefill(...)`: the requests, the cache and the capture afterwards.
  unfoldable pub prefill_all :
      Limits
      → BatchedSequenceCache b
      → Option (LayerActivationCapture b)
      → List (GenerationRequest b)
      → Result
          (List (GenerationRequest b) × BatchedSequenceCache b × Option (LayerActivationCapture b))
  prefill_all limits cache capture [] = ok ([], cache, capture)
  prefill_all limits cache capture (r ∷ rs) = do
    p ← run_prefill limits cache capture r
    rest ← prefill_all limits p.cache p.capture rs
    ok (p.req ∷ rest.0, rest.1, rest.2)

module _ {b : Backend} (setup : Setup b) where
  abbrev pub limits_of : ℕ → Limits
  limits_of n_tokens = record { eos_token_id = setup.eos_token_id; max_tokens_cap = n_tokens }

  -- `bridge_tokens == ref_tokens[:len(bridge_tokens)]`
  abbrev pub matches : ℕ → List ℕ → GenerationRequest b → Bool
  matches n_tokens ref_tokens req =
      let bridge_tokens = take n_tokens req.generated_ids in
      same_text bridge_tokens (take (length bridge_tokens) ref_tokens)

  unfoldable pub check_single : ℕ → ℕ → ℕ → Prompt → Result (List CheckError)
  unfolding single_loop
  check_single request_id now n_tokens prompt = do
    let ref_tokens = setup.generate prompt.ids n_tokens
    capture ← make_capture b setup.layers setup.probe_layer
    p ←
        run_prefill (limits_of n_tokens) (Cache.empty b) (some capture)
          (request_for request_id now n_tokens prompt)
    req ← single_loop (n_tokens - 1) (limits_of n_tokens) n_tokens now p.cache p.capture p.req
    ok (if matches n_tokens ref_tokens req then [] else single_parity ∷ [])

  abbrev pub requests_for : ℕ → ℕ → ℕ → List Prompt → List (GenerationRequest b)
  requests_for request_id now n_tokens [] = []
  requests_for request_id now n_tokens (p ∷ ps) =
      request_for request_id now n_tokens p ∷ requests_for (request_id + 1) now n_tokens ps

  -- The last loop, from prompt `i` on.
  abbrev pub compare_all : ℕ → ℕ → List (GenerationRequest b) → List (List ℕ) → List CheckError
  compare_all n_tokens i (r ∷ rs) (ref ∷ refs) =
      (if matches n_tokens ref r then [] else multi_parity i ∷ [])
      ++ compare_all n_tokens (suc i) rs refs
  compare_all n_tokens i _ _ = []

  unfoldable pub check_multi : ℕ → ℕ → ℕ → List Prompt → Result (List CheckError)
  unfolding multi_loop prefill_all
  check_multi request_id now n_tokens prompts = do
    let refs = map (λ (p : Prompt). setup.generate p.ids n_tokens) prompts
    capture ← make_capture b setup.layers setup.probe_layer
    s ←
        prefill_all (limits_of n_tokens) (Cache.empty b) (some capture)
          (requests_for request_id now n_tokens prompts)
    reqs ← multi_loop (n_tokens - 1) (limits_of n_tokens) n_tokens now s.1 s.2 s.0
    ok (compare_all n_tokens 0 reqs refs)

-- `part in text`
abbrev pub is_within : Text → Text → Bool
is_within part [] = elim (after_literal part []) [ none ↦ false | some rest ↦ true ]
is_within part (c ∷ cs) = elim (after_literal part (c ∷ cs)) [
  | none ↦ is_within part cs
  | some rest ↦ true
]

-- What `main` reads: whether more than 20 GB are in use, the two added tokens, the file of the probe,
-- the model's hidden size, the template applied to a question, and the prompts of the parity checks.
pub record Installation (b : Backend) : Type 0 where
  pub setup : Setup b
  pub vram_high : Bool
  pub start_tok : Text
  pub end_tok : Text
  pub file : Option (ProbeArtifact b)
  pub checkpoint_position : ℕ
  pub hidden_size : ℕ
  pub prompt_text : Text
  pub single : Prompt
  pub several : List Prompt

abbrev pub error_unless : Bool → CheckError → List CheckError
error_unless good error = if good then [] else error ∷ []

module _ {b : Backend} where
  -- A probe is optional, but one that is there must load and fit the model.
  unfoldable pub check_probe : Installation b → List CheckError
  check_probe i = elim i.file [
    | none ↦ []
    | some artifact ↦ elim (load_probe (some artifact) i.setup.probe_layer i.checkpoint_position) [
      | raise e ↦ probe_failed ∷ []
      | ok probe ↦ error_unless (probe.expected_hidden_dim == i.hidden_size) hidden_dim
    ]
  ]

  -- `main` up to the exit code, which is 1 if there is an error. The identifiers count from 1.
  unfoldable pub verify_setup : ℕ → Installation b → Result (List CheckError)
  unfolding check_probe check_single check_multi
  verify_setup now i = do
    let before =
        error_unless (not i.vram_high) vram_usage
        ++ (error_unless (is_within (codes "<think>") i.start_tok) think_start
            ++ (error_unless (is_within (codes "</think>") i.end_tok) think_end
                ++ (check_probe i
                    ++ error_unless (is_within (codes "<think>") i.prompt_text) chat_template)))
    single ← check_single i.setup 1 now 15 i.single
    multi ← check_multi i.setup 2 now 12 i.several
    ok (before ++ (single ++ multi))
