-- ===== src/Tests/Reports.antt =====
-- Runs of the reports and of the server's answers.
use probe_guided_inference.Base.{
  ℕ, ◌+◌, ◌-◌, ◌≤◌, ◌≡◌, inl, refl, Bool, true, false, Option, none, some, List, [], ◌∷◌, ◌++◌,
  arith, ltb, ok, length, ◌==◌, select, if◌then◌else◌,
}
use probe_guided_inference.Probe.{convergent, divergent}
use probe_guided_inference.Queue.{GenerationRequest, eos, make_request}
use probe_guided_inference.Scheduler.State.{
  RoutingStrategy, baseline, probe_terminate, probe_deprioritize,
}
use probe_guided_inference.Scheduler.Endings.{IsEnded}
use probe_guided_inference.Scheduler.Streams.{IsStreamed, IsRetried}
use probe_guided_inference.Report.{
  Floats, Record, RunResult, Results, Summary, FalseTerminations, Breakdown, percentile, rate,
  summarize_strategy, false_termination_rate, deprioritize_latency_breakdown,
}
use probe_guided_inference.Report.Guards.{IsFraction, IsNumeric}
use probe_guided_inference.Report.Matched.{would_converge}
use probe_guided_inference.Report.Totals.{percentile_total, reports-agree, breakdown_total}
use probe_guided_inference.Server.{token_generator, respond, GenerateResponse}
use probe_guided_inference.Server.Answers.{chunks_of, stream-chunks, respond-IsEnded, IsReported}
use probe_guided_inference.Tests.Toy.{toy, toy-IsRowWise}
use probe_guided_inference.Scheduler.Parity.Replays.{IsReplay}
use probe_guided_inference.Tests.Queues.{waiting}
use probe_guided_inference.Tests.Setup.{config}

-- Whole numbers in the place of floats; a fraction is 0 for none of the way and 1 for all of it.
abbrev whole : Floats
whole = record {
  Float = ℕ;
  nan = 999;
  of_nat = λ n. n;
  add = λ x y. x + y;
  sub = λ x y. x - y;
  mul = λ x y. if y == 0 then 0 else x;
  div = λ x y. x - y;
  lt = ltb;
  is_zero = λ x. x == 0;
  truncate = λ x. x;
  mean = λ xs. 0;
  half = 0;
  most = 1;
}

fraction : (pct : ℕ) → IsFraction whole pct
fraction pct n = ground arith

whole-IsNumeric : IsNumeric whole
whole-IsNumeric = record {
  counts = λ n. ground arith;
  positive = λ x e. ground arith;
  half = fraction 0;
  most = fraction 1;
}

percentile_total_example : (p : ℕ) × (percentile whole (5 ∷ 3 ∷ 9 ∷ []) 1 ≡ ok p)
percentile_total_example = percentile_total whole (5 ∷ 3 ∷ 9 ∷ []) 1 (fraction 1)

lowest : percentile whole (5 ∷ 3 ∷ 9 ∷ []) 0 ≡ ok 3
unfolding percentile
lowest = refl

abbrev recorded : ℕ → Bool → Bool → Record whole
recorded idx terminated converges = record {
  aime_idx = idx;
  terminated_by_probe = terminated;
  correct = converges;
  converged = converges;
  latency_s = some 7;
  routing_label = if converges then some convergent else some divergent;
}

abbrev ran : RoutingStrategy → RunResult whole
ran strategy = record {
  strategy = strategy;
  records = recorded 1 false true ∷ recorded 2 true false ∷ recorded 3 true true ∷ [];
  wall_clock_s = 20;
  total_tokens_generated = 100;
}

abbrev all_ran : Results whole
all_ran strategy = some (ran strategy)

reports-agree_example :
    (t : FalseTerminations whole) × (s : Summary whole) × (false_termination_rate whole all_ran
      ≡ ok (some t))
    × (summarize_strategy whole (ran probe_terminate) ≡ ok s)
    × (t.n_terminated ≡ s.n_terminated)
    × (t.n_false_terminations
        ≡ length (
            select
              (λ r. would_converge whole (ran baseline).records r.aime_idx)
              (select (λ r. r.terminated_by_probe) (ran probe_terminate).records)))
    × (rate whole t.n_false_terminations t.n_terminated 999 ≡ ok t.false_termination_rate)
    × (s.n_completed + s.n_terminated ≡ length (ran probe_terminate).records)
reports-agree_example =
    reports-agree whole all_ran (ran baseline) (ran probe_terminate) refl refl whole-IsNumeric

breakdown_total_example :
    (d : Breakdown whole) × (deprioritize_latency_breakdown whole all_ran ≡ ok (some d))
    × (d.n_convergent + d.n_divergent ≤ length (ran probe_deprioritize).records)
breakdown_total_example = breakdown_total whole all_ran (ran probe_deprioritize) refl (fraction 0)

abbrev finished_request : GenerationRequest toy
finished_request = record (waiting 1 0) {
  generated_ids = 8 ∷ 2 ∷ [];
  token_queue = some (some 8 ∷ some 2 ∷ none ∷ []);
  result = some "text";
  completion_time = some 9;
  finish_reason = some eos;
}

finished-IsStreamed : IsStreamed (config probe_terminate) (IsReplay toy-IsRowWise) finished_request
unfolding make_request
finished-IsStreamed = record { before = []; retried = inl refl; tried = ([], refl); items = refl }

stream-chunks_example :
    (before : List ℕ) × (items : List (Option ℕ)) × IsRetried (config probe_terminate) before
    × IsReplay toy-IsRowWise finished_request.prompt_ids before
    × (finished_request.token_queue ≡ some items)
    × (token_generator toy 30 false items
        ≡ chunks_of toy 30 (before ++ finished_request.generated_ids))
unfolding make_request
stream-chunks_example =
    stream-chunks (config probe_terminate) (IsReplay toy-IsRowWise) finished_request 30
      finished-IsStreamed refl

finished-IsEnded : IsEnded (config probe_terminate) finished_request
unfolding make_request
finished-IsEnded = record {
  answered = refl;
  time = 9;
  timed = refl;
  some_token = omega arith;
  bound = omega arith;
  prior = (8 ∷ [], 2, refl, (λ e. omega arith, tt));
  ending = inl (inl (refl, refl, 8 ∷ [], refl, (λ e. omega arith, tt)));
}

respond-IsEnded_example :
    (a : GenerateResponse toy) × (respond 3 9 finished_request ≡ some a)
    × IsReported (config probe_terminate) finished_request a
respond-IsEnded_example =
    respond-IsEnded (config probe_terminate) finished_request 3 9 finished-IsEnded
