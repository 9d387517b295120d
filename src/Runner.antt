-- ===== src/Runner.antt =====
-- src/model_runner.py: the seam between the scheduler and the model. `now` is the reading of the
-- clock during the call.
pub mod Steps
pub mod Forward
pub mod Greedy
use probe_guided_inference.Base.{
  ℕ, suc, ◌+◌, min, Bool, true, false, ◌||◌, Option, none, some, List, [], ◌∷◌, ◌++◌, map,
  index_error, type_error, Result, ok, raise, or_raise, ◌>>=◌, traverse, ◌==◌, leb, length,
  get_elem?, get_last?, if◌then◌else◌,
}
use probe_guided_inference.Backend.{Backend, Batch, Output}
use probe_guided_inference.Probe.{LayerActivationCapture, hook_fn}
use probe_guided_inference.Gate.{ClassificationGate, RoutingDecision, ready_at, classify}
use probe_guided_inference.Queue.{
  GenerationRequest, FinishReason, eos, max_tokens, n_generated, put_nowait,
}
use probe_guided_inference.Cache.{
  BatchedSequenceCache, Built, store_prefill, build_batch, scatter_updated_batch,
}

pub record Limits : Type 0 where
  pub eos_token_id : ℕ
  pub max_tokens_cap : ℕ

abbrev pub reason : Limits → ℕ → FinishReason
reason limits nid = if nid == limits.eos_token_id then eos else max_tokens

module _ {b : Backend} where
  -- The forward pass runs the hook of the capture, if there is one.
  abbrev pub captured :
      List b.Hidden → Option (LayerActivationCapture b) → Option (LayerActivationCapture b)
  captured hidden none = none
  captured hidden (some capture) = some (hook_fn hidden capture)

  -- `nid == eos_token_id or req.n_generated >= min(req.max_tokens, max_tokens_cap)`
  abbrev pub is_finished : Limits → ℕ → GenerationRequest b → Bool
  is_finished limits nid req =
      (nid == limits.eos_token_id)
      || leb (min req.max_tokens limits.max_tokens_cap) (n_generated req)

  -- The end of both functions: the reason is set on a request that is finished.
  abbrev pub set_reason : Limits → ℕ → GenerationRequest b → GenerationRequest b
  set_reason limits nid req =
      if is_finished limits nid req
      then record req { finish_reason = some (reason limits nid) }
      else req

  -- A new token is recorded and streamed.
  abbrev pub append_token : ℕ → ℕ → GenerationRequest b → GenerationRequest b
  append_token nid position req =
      put_nowait (some nid)
        (record req { generated_ids = req.generated_ids ++ nid ∷ []; position = position })

pub record Prefilled (b : Backend) : Type 0 where
  pub cache : BatchedSequenceCache b
  pub capture : Option (LayerActivationCapture b)
  pub req : GenerationRequest b
  pub finished : Bool

pub record Decoded (b : Backend) : Type 0 where
  pub cache : BatchedSequenceCache b
  pub capture : Option (LayerActivationCapture b)
  pub active_reqs : List (GenerationRequest b)
  pub finished_ids : List ℕ

module _ {b : Backend} where
  unfoldable pub run_prefill :
      Limits
      → BatchedSequenceCache b
      → Option (LayerActivationCapture b)
      → GenerationRequest b
      → Result (Prefilled b)
  run_prefill limits cache capture req = do
    let outputs = b.prefill req.prompt_ids
    let seq_len = length req.prompt_ids
    logits ← or_raise index_error (get_elem? outputs.logits 0)
    let next_id = b.argmax logits
    let req' = append_token next_id seq_len req
    ok (record {
      cache = store_prefill req.request_id outputs.past_key_values seq_len cache;
      capture = captured outputs.hidden capture;
      req = set_reason limits next_id req';
      finished = is_finished limits next_id req';
    })

  -- `capture.last` is `none` where there is no capture, and then it must not be subscripted.
  unfoldable pub row_hidden : Option (LayerActivationCapture b) → ℕ → Result b.Hidden
  row_hidden none i = raise type_error
  row_hidden (some capture) i = do
    last ← or_raise type_error capture.last
    or_raise index_error (get_elem? last i)

  -- The gate is asked once for each request, when it is ready: `decision` is the request's.
  unfoldable pub ask_gate :
      ClassificationGate b
      → Option (LayerActivationCapture b)
      → ℕ
      → ℕ
      → Option (RoutingDecision b)
      → GenerationRequest b
      → Result (GenerationRequest b)
  unfolding row_hidden
  ask_gate gate capture now i (some decision) req = ok req
  ask_gate gate capture now i none req =
      if ready_at gate (n_generated req)
      then (do
        hidden_vec ← row_hidden capture i
        decision ← classify gate hidden_vec
        ok (record req { routing_decision = some decision; checkpoint_hit_time = some now }))
      else ok req

  unfoldable pub fire_gate :
      Option (ClassificationGate b)
      → Option (LayerActivationCapture b)
      → ℕ
      → ℕ
      → GenerationRequest b
      → Result (GenerationRequest b)
  unfolding ask_gate
  fire_gate none capture now i req = ok req
  fire_gate (some gate) capture now i req = ask_gate gate capture now i req.routing_decision req

  -- The loop over `enumerate(active_reqs)` from index `i`.
  unfoldable pub advance_from :
      Limits
      → Option (ClassificationGate b)
      → Option (LayerActivationCapture b)
      → ℕ
      → List ℕ
      → ℕ
      → List (GenerationRequest b)
      → Result (List (GenerationRequest b) × List ℕ)
  unfolding fire_gate
  advance_from limits gate capture now next_ids i [] = ok ([], [])
  advance_from limits gate capture now next_ids i (req ∷ reqs) = do
    nid ← or_raise index_error (get_elem? next_ids i)
    req' ← fire_gate gate capture now i (append_token nid (req.position + 1) req)
    rest ← advance_from limits gate capture now next_ids (suc i) reqs
    ok (
      set_reason limits nid req' ∷ rest.0,
      if is_finished limits nid req' then req.request_id ∷ rest.1 else rest.1,
    )

  -- The first half of `run_decode_step`: the batch is built, run and split again.
  unfoldable pub forward :
      List (GenerationRequest b)
      → BatchedSequenceCache b
      → Result (BatchedSequenceCache b × Output b.Column b.Logits b.Hidden)
  forward active_reqs cache = do
    let seq_ids = map (λ (r : GenerationRequest b). r.request_id) active_reqs
    next_tokens ←
        traverse (λ (r : GenerationRequest b). or_raise index_error (get_last? r.generated_ids))
          active_reqs
    built ← build_batch seq_ids cache
    let outputs = b.decode (record {
      input_ids = next_tokens;
      attention_mask = built.attention_mask;
      position_ids = built.position_ids;
      past = built.batched;
    })
    cache' ← scatter_updated_batch seq_ids outputs.past_key_values cache
    ok (cache', outputs)

  unfoldable pub run_decode_step :
      Limits
      → Option (ClassificationGate b)
      → ℕ
      → List (GenerationRequest b)
      → BatchedSequenceCache b
      → Option (LayerActivationCapture b)
      → Result (Decoded b)
  unfolding forward advance_from
  run_decode_step limits gate now active_reqs cache capture = do
    forwarded ← forward active_reqs cache
    let outputs = forwarded.1
    let next_ids = map b.argmax outputs.logits
    let capture' = captured outputs.hidden capture
    advanced ← advance_from limits gate capture' now next_ids 0 active_reqs
    ok (record {
      cache = forwarded.0;
      capture = capture';
      active_reqs = advanced.0;
      finished_ids = advanced.1;
    })
