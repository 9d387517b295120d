-- ===== src/Evaluation.antt =====
-- benchmark/routing_eval.py: the problems of the benchmark are run under each routing strategy in
-- turn. Identifiers count from 1 in each run, while in one Python process they go on; nothing here
-- computes with them. Printing, the release of memory and the output file are left out.
pub mod Submitted
pub mod Awaited
pub mod Outcomes
pub mod Started
pub mod Complete
pub mod Tokens
pub mod Counterfactual
use probe_guided_inference.Base.{
  Elapsed, elapsed_between, ℕ, zero, suc, ◌+◌, ◌-◌, min, Bool, true, false, ◌&&◌, String, Option,
  none, some, List, [], ◌∷◌, ◌++◌, map, take, key_error, zero_division_error, Result, ok, raise,
  or_raise, traverse, ◌>>=◌, ◌==◌, length, select, if◌then◌else◌,
}
use probe_guided_inference.Backend.{Backend}
use probe_guided_inference.Probe.{ProbeArtifact, Label}
use probe_guided_inference.Queue.{
  GenerationRequest, FinishReason, Metadata, Submission, n_generated,
}
use probe_guided_inference.Runner.{Limits}
use probe_guided_inference.Scheduler.State.{
  Batcher, RoutingStrategy, baseline, probe_terminate, probe_deprioritize, get_active,
}
use probe_guided_inference.Scheduler.Loop.{Process, submits, rounds, step, stop, close, contains}
use probe_guided_inference.Server.{Tokenizer, label_of_decision, confidence_of_decision}
use probe_guided_inference.Server.Startup.{Settings, startup}
use probe_guided_inference.Answers.{Text, Strings, extract_answer, normalize_answer}

pub record Sample : Type 0 where
  pub question : String
  pub answer : Text

-- `load_aime_samples`, of the dataset once it is shuffled.
abbrev pub load_aime_samples : ℕ → List Sample → List Sample
load_aime_samples n_samples ds = take (min n_samples (length ds)) ds

-- What the clock reads: at each submission, before and after the results are awaited, and in each
-- round of the batcher while they are.
pub record Clock : Type 0 where
  pub arrivals : ℕ → ℕ
  pub t0 : ℕ
  pub t1 : ℕ
  pub times : List ℕ

-- `decode` keeps the special tokens.
pub record Bench (b : Backend) : Type 0 where
  pub tokenizer : Tokenizer
  pub decode : List ℕ → Text
  pub strings : Strings
  pub eos_token_id : ℕ
  pub think_end_token_id : ℕ
  pub probe_layer : ℕ
  pub checkpoint_position : ℕ
  pub terminate_confidence_threshold : b.Score
  pub file : Option (ProbeArtifact b)
  pub layers : Option ℕ

pub record Outcome (b : Backend) : Type 0 where
  pub aime_idx : ℕ
  pub n_generated : ℕ
  pub converged : Bool
  pub correct : Bool
  pub finish_reason : Option FinishReason
  pub terminated_by_probe : Bool
  pub routing_label : Option Label
  pub routing_confidence : Option b.Score
  pub checkpoint_hit_time : Option ℕ
  pub arrival_time : ℕ
  pub completion_time : Option ℕ
  pub latency_s : Option Elapsed

pub record BatcherStats : Type 0 where
  pub total_admitted : ℕ
  pub total_finished : ℕ
  pub total_probe_terminated : ℕ
  pub total_preemptions : ℕ

pub record StrategyResult (b : Backend) : Type 0 where
  pub strategy : RoutingStrategy
  pub n_requests : ℕ
  pub max_batch_size : ℕ
  pub wall_clock_s : Elapsed
  pub total_tokens_generated : ℕ
  pub batcher_stats : BatcherStats
  pub records : List (Outcome b)

abbrev pub same_text : Text → Text → Bool
same_text [] [] = true
same_text (c ∷ cs) (d ∷ ds) = (c == d) && same_text cs ds
same_text _ _ = false

abbrev pub same_answer : Option Text → Option Text → Bool
same_answer none none = true
same_answer (some a) (some b) = same_text a b
same_answer _ _ = false

-- `(completion - arrival) if completion else None`
abbrev pub latency : Option ℕ → ℕ → Option Elapsed
latency none arrival = none
latency (some zero) arrival = none
latency (some (suc t)) arrival = some (elapsed_between arrival (suc t))

abbrev pub is_done : Option String → Bool
is_done none = false
is_done (some text) = true

module _ {b : Backend} where
  -- All requests that anyone refers to.
  abbrev pub everyone : Batcher b → List (GenerationRequest b)
  everyone s = s.queue.pending ++ (s.active ++ s.finished)

  unfoldable pub all_done : List ℕ → List (GenerationRequest b) → Bool
  all_done [] requests = true
  all_done (rid ∷ rids) requests =
      elim (get_active rid requests) [ none ↦ false | some req ↦ is_done req.result ]
      && all_done rids requests

  -- `await asyncio.gather(...)` of the results, while the task of the batcher makes its rounds:
  -- `none` if it still waits at the end of `times`. An exception ends that task only, and then the
  -- results are awaited forever.
  unfoldable pub await_all : List ℕ → List ℕ → Process b → Option (Process b)
  unfolding all_done
  await_all rids [] p = if all_done rids (everyone p.batcher) then some p else none
  await_all rids (now ∷ times) p =
      if all_done rids (everyone p.batcher)
      then some p
      else elim (step p (now, rounds)) [ raise e ↦ none | ok q ↦ await_all rids times q ]

  abbrev pub total_tokens : List (Outcome b) → ℕ
  total_tokens [] = 0
  total_tokens (r ∷ rs) = r.n_generated + total_tokens rs

  -- `n_correct/len(result["records"])` in what is printed after a run.
  abbrev pub print_accuracy : StrategyResult b → Result ℕ
  print_accuracy result = elim result.records [
    | [] ↦ raise zero_division_error
    | r ∷ rs ↦ ok (length (select (λ (o : Outcome b). o.correct) (r ∷ rs)))
  ]

module _ {b : Backend} (bench : Bench b) where
  abbrev pub settings_of : RoutingStrategy → ℕ → ℕ → Settings b
  settings_of strategy max_batch_size max_tokens = record {
    strategy = strategy;
    probe_layer = bench.probe_layer;
    checkpoint_position = bench.checkpoint_position;
    max_batch_size = max_batch_size;
    limits = record { eos_token_id = bench.eos_token_id; max_tokens_cap = max_tokens };
    terminate_confidence_threshold = bench.terminate_confidence_threshold;
  }

  -- The arguments of `queue.submit` for sample `i`.
  abbrev pub submission : ℕ → ℕ → Sample → Submission
  submission max_tokens i sample =
      let prompt_text = bench.tokenizer.template sample.question in
      record {
        prompt = prompt_text;
        max_tokens = max_tokens;
        prompt_ids = bench.tokenizer.encode prompt_text;
        stream = false;
        metadata = some (record { aime_idx = i; expected_answer = sample.answer });
      }

  -- The loop over the samples from sample `i` on, and the identifiers of the requests.
  unfoldable pub submit_all :
      ℕ → (ℕ → ℕ) → ℕ → List Sample → Process b → Result (Process b × List ℕ)
  submit_all max_tokens arrivals i [] p = ok (p, [])
  submit_all max_tokens arrivals i (sample ∷ samples) p = do
    q ← step p (arrivals i, submits (submission max_tokens i sample))
    rest ← submit_all max_tokens arrivals (suc i) samples q
    ok (rest.0, p.next_id ∷ rest.1)

  -- The entries of a record, of the metadata of the request.
  abbrev pub outcome_of : GenerationRequest b → Metadata → Outcome b
  outcome_of req metadata =
      let extracted = extract_answer (bench.decode req.generated_ids) in
      record {
        aime_idx = metadata.aime_idx;
        n_generated = n_generated req;
        converged = contains bench.think_end_token_id req.generated_ids;
        correct =
            same_answer (normalize_answer bench.strings extracted)
              (normalize_answer bench.strings (some metadata.expected_answer));
        finish_reason = req.finish_reason;
        terminated_by_probe = req.terminated_by_probe;
        routing_label = label_of_decision req.routing_decision;
        routing_confidence = confidence_of_decision req.routing_decision;
        checkpoint_hit_time = req.checkpoint_hit_time;
        arrival_time = req.arrival_time;
        completion_time = req.completion_time;
        latency_s = latency req.completion_time req.arrival_time;
      }

  unfoldable pub record_of : GenerationRequest b → Result (Outcome b)
  record_of req = do metadata ← or_raise key_error req.metadata; ok (outcome_of req metadata)

  -- The records of the requests with these identifiers, in their order.
  unfoldable pub records_of : List ℕ → List (GenerationRequest b) → Result (List (Outcome b))
  unfolding record_of
  records_of rids requests =
      traverse (λ rid. or_raise key_error (get_active rid requests) >>= record_of) rids

  -- What `run_strategy` does once the results are there.
  unfoldable pub conclude :
      RoutingStrategy → ℕ → Elapsed → List ℕ → Process b → Result (StrategyResult b)
  unfolding records_of
  conclude strategy max_batch_size wall_clock_s rids p = do
    let batcher = close (stop p.batcher)
    records ← records_of rids (everyone batcher)
    ok (record {
      strategy = strategy;
      n_requests = length rids;
      max_batch_size = max_batch_size;
      wall_clock_s = wall_clock_s;
      total_tokens_generated = total_tokens records;
      batcher_stats = record {
        total_admitted = batcher.total_admitted;
        total_finished = batcher.total_finished;
        total_probe_terminated = batcher.total_probe_terminated;
        total_preemptions = batcher.total_preemptions;
      };
      records = records;
    })

  -- `ok none` while the results are awaited.
  unfoldable pub awaited :
      RoutingStrategy
      → ℕ
      → Elapsed
      → List ℕ
      → Option (Process b)
      → Result (Option (StrategyResult b))
  unfolding conclude
  awaited strategy max_batch_size wall_clock_s rids none = ok none
  awaited strategy max_batch_size wall_clock_s rids (some p) =
      conclude strategy max_batch_size wall_clock_s rids p >>= λ r. ok (some r)

  unfoldable pub run_strategy :
      RoutingStrategy → ℕ → ℕ → List Sample → Clock → Result (Option (StrategyResult b))
  unfolding submit_all await_all awaited
  run_strategy strategy max_batch_size max_tokens samples clock = do
    p ← startup (settings_of strategy max_batch_size max_tokens) bench.file bench.layers
    submitted ← submit_all max_tokens clock.arrivals 0 samples p
    awaited strategy max_batch_size (elapsed_between clock.t0 clock.t1) submitted.1
        (await_all submitted.1 clock.times submitted.0)

  -- The loop of `main_async` over the strategies: the results in their order, `ok none` while one
  -- is awaited.
  unfoldable pub evaluate :
      ℕ
      → ℕ
      → List Sample
      → List (RoutingStrategy × Clock)
      → Result (Option (List (StrategyResult b)))
  unfolding run_strategy
  evaluate max_batch_size max_tokens samples [] = ok (some [])
  evaluate max_batch_size max_tokens samples ((strategy, clock) ∷ strategies) = do
    result ← run_strategy strategy max_batch_size max_tokens samples clock
    elim result [
      | none ↦ ok none
      | some r ↦ do
        accuracy ← print_accuracy r
        rest ← evaluate max_batch_size max_tokens samples strategies
        ok (elim rest [ none ↦ none | some rs ↦ some (r ∷ rs) ])
    ]
