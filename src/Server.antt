-- ===== src/Server.antt =====
-- src/server.py: the handlers of /generate, /stream, /health and /metrics around the queue and the batcher.
-- What `/generate` does before and after it awaits the result are two functions.
pub mod Answers
pub mod Startup
pub mod Counts
use probe_guided_inference.Base.{
  Elapsed, elapsed_between, ℕ, ◌-◌, Bool, true, false, String, Option, none, some, List, [], ◌∷◌,
  length, map, select, ◌==◌,
}
use probe_guided_inference.Backend.{Backend}
use probe_guided_inference.Probe.{Label}
use probe_guided_inference.Gate.{RoutingDecision}
use probe_guided_inference.Queue.{
  GenerationRequest, RequestQueue, FinishReason, Submission, submit, len,
}
use probe_guided_inference.Scheduler.State.{Batcher, RoutingStrategy}

-- `template` is `apply_chat_template` on a message of the user, `encode` the tokenizer on the text.
pub record Tokenizer : Type 0 where
  pub template : String → String
  pub encode : String → List ℕ

pub record GenerateRequest : Type 0 where
  pub prompt : String
  pub max_tokens : ℕ

pub record GenerateResponse (b : Backend) : Type 0 where
  pub text : String
  pub latency_s : Elapsed
  pub finish_reason : Option FinishReason
  pub routing_label : Option Label
  pub routing_confidence : Option b.Score

-- The arguments of `queue.submit`.
abbrev pub asked_for : Tokenizer → GenerateRequest → Bool → Submission
asked_for tokenizer req stream =
    let prompt_text = tokenizer.template req.prompt in
    record {
      prompt = prompt_text;
      max_tokens = req.max_tokens;
      prompt_ids = tokenizer.encode prompt_text;
      stream = stream;
      metadata = none;
    }

-- What the stream yields; the times are left out but for the first.
pub data Chunk : Type 0 where
  ttft_ms : ℕ → Chunk
  token : String → Chunk
  done : Chunk

pub record Health : Type 0 where
  pub strategy : RoutingStrategy
  pub active_sequences : ℕ
  pub queued : ℕ
  pub total_admitted : ℕ
  pub total_finished : ℕ
  pub total_probe_terminated : ℕ
  pub total_preemptions : ℕ

-- The last two are `none` without a GPU.
pub record Metrics : Type 0 where
  pub strategy : RoutingStrategy
  pub active_sequences : ℕ
  pub queued : ℕ
  pub active_deprioritized : ℕ
  pub total_admitted : ℕ
  pub total_finished : ℕ
  pub total_probe_terminated : ℕ
  pub total_preemptions : ℕ
  pub gpu_current_bytes_allocated : Option ℕ
  pub gpu_peak_bytes_allocated : Option ℕ

module _ {b : Backend} where
  unfoldable pub accept :
      Tokenizer
      → GenerateRequest
      → Bool
      → ℕ
      → ℕ
      → RequestQueue b
      → GenerationRequest b × RequestQueue b
  accept tokenizer req stream request_id now queue =
      submit request_id now (asked_for tokenizer req stream) queue

  abbrev pub label_of_decision : Option (RoutingDecision b) → Option Label
  label_of_decision none = none
  label_of_decision (some d) = some d.label

  abbrev pub confidence_of_decision : Option (RoutingDecision b) → Option b.Score
  confidence_of_decision none = none
  confidence_of_decision (some d) = some d.confidence

  abbrev pub response : ℕ → ℕ → GenerationRequest b → String → GenerateResponse b
  response start now gen_req text = record {
    text = text;
    latency_s = elapsed_between start now;
    finish_reason = gen_req.finish_reason;
    routing_label = label_of_decision gen_req.routing_decision;
    routing_confidence = confidence_of_decision gen_req.routing_decision;
  }

  -- `none` while the result is awaited.
  unfoldable pub respond : ℕ → ℕ → GenerationRequest b → Option (GenerateResponse b)
  respond start now gen_req = elim gen_req.result [
    | none ↦ none
    | some text ↦ some (response start now gen_req text)
  ]

  unfoldable pub health : Batcher b → Health
  health s = record {
    strategy = s.strategy;
    active_sequences = length s.active;
    queued = len s.queue;
    total_admitted = s.total_admitted;
    total_finished = s.total_finished;
    total_probe_terminated = s.total_probe_terminated;
    total_preemptions = s.total_preemptions;
  }

  -- `gpu` are the current and the peak bytes of `torch.cuda`, `none` if it is not available.
  unfoldable pub metrics : Option (ℕ × ℕ) → Batcher b → Metrics
  metrics gpu s =
      let active_priorities = map (λ (r : GenerationRequest b). r.priority) s.active in
      record {
        strategy = s.strategy;
        active_sequences = length s.active;
        queued = len s.queue;
        active_deprioritized = length (select (λ p. p == 1) active_priorities);
        total_admitted = s.total_admitted;
        total_finished = s.total_finished;
        total_probe_terminated = s.total_probe_terminated;
        total_preemptions = s.total_preemptions;
        gpu_current_bytes_allocated = elim gpu [ none ↦ none | some bytes ↦ some bytes.0 ];
        gpu_peak_bytes_allocated = elim gpu [ none ↦ none | some bytes ↦ some bytes.1 ];
      }

module _ (b : Backend) where
  -- The loop of `token_generator` on the items of the queue, until it waits for another item or
  -- ends. `elapsed` is the time to the first token.
  unfoldable pub token_generator : ℕ → Bool → List (Option ℕ) → List Chunk
  token_generator elapsed first_token_sent [] = []
  token_generator elapsed first_token_sent (none ∷ items) = done ∷ []
  token_generator elapsed true (some token_id ∷ items) =
      token (b.detokenize (token_id ∷ [])) ∷ token_generator elapsed true items
  token_generator elapsed false (some token_id ∷ items) =
      ttft_ms elapsed ∷ token (b.detokenize (token_id ∷ [])) ∷ token_generator elapsed true items
