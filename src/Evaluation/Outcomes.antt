-- ===== src/Evaluation/Outcomes.antt =====
-- The record that `run_strategy` in benchmark/routing_eval.py makes of a request.
use probe_guided_inference.Base.{
  ℕ, ◌≤◌, max, Bool, true, ◌≡◌, ◌⊎◌, inl, inr, refl, Option, none, some, List, arith, ok, length,
  subst,
}
use probe_guided_inference.Backend.{Backend}
use probe_guided_inference.Model.{IsRowWise}
use probe_guided_inference.Gate.{ClassificationGate}
use probe_guided_inference.Queue.{GenerationRequest, probe_terminated, FinishReason}
use probe_guided_inference.Scheduler.State.{Config, RoutingStrategy, probe_terminate}
use probe_guided_inference.Scheduler.Loop.{contains}
use probe_guided_inference.Scheduler.Endings.{HasPrior, IsEos, IsFull, IsEnded, limit}
use probe_guided_inference.Scheduler.Origins.{origin}
use probe_guided_inference.Scheduler.Parity.{IsExact}
use probe_guided_inference.Server.Startup.{config_of}
use probe_guided_inference.Answers.{extract_answer, normalize_answer}
use probe_guided_inference.Evaluation.{
  Sample, Bench, Outcome, settings_of, submission, record_of, outcome_of, same_answer,
}
use probe_guided_inference.Evaluation.Submitted.{IsFor}

-- The configuration of a run. What a record says depends on its token limits alone.
abbrev pub bench_config :
    {b : Backend} → Bench b → RoutingStrategy → ℕ → ℕ → Option (ClassificationGate b) → Config b
bench_config bench strategy max_batch_size max_tokens gate =
    config_of (settings_of bench strategy max_batch_size max_tokens) gate

module _ {b : Backend} (bench : Bench b) (w : IsRowWise b) (max_tokens : ℕ) (arrivals : ℕ → ℕ)
    (strategy : RoutingStrategy) where
  abbrev limits_only : Config b
  limits_only = bench_config bench strategy 1 max_tokens none

  -- Ended on its first end-of-sequence token, or at the limit without one.
  abbrev pub EndsNaturally : Option FinishReason → Bool → List ℕ → Type 0
  EndsNaturally finish_reason terminated tokens =
      IsEos limits_only finish_reason terminated tokens
      ⊎ IsFull limits_only finish_reason terminated tokens max_tokens

  abbrev pub EndsCut : Option FinishReason → Bool → Type 0
  EndsCut finish_reason terminated =
      (terminated ≡ true) × (finish_reason ≡ some probe_terminated) × (strategy ≡ probe_terminate)

  -- The record tells of sample `i`, and of tokens that greedy generation gives it alone.
  pub record IsOutcome (i : ℕ) (s : Sample) (o : Outcome b) : Type 0 where
    pub tokens : List ℕ
    pub exact : IsExact w (submission bench max_tokens i s).prompt_ids tokens
    pub prior : HasPrior limits_only tokens
    pub bound : length tokens ≤ max 1 max_tokens
    pub ending :
        EndsNaturally o.finish_reason o.terminated_by_probe tokens
        ⊎ EndsCut o.finish_reason o.terminated_by_probe
    pub index : o.aime_idx ≡ i
    pub counted : o.n_generated ≡ length tokens
    pub converged : o.converged ≡ contains bench.think_end_token_id tokens
    pub correct :
        o.correct
        ≡ same_answer
            (normalize_answer bench.strings (extract_answer (bench.decode tokens)))
            (normalize_answer bench.strings (some s.answer))
    pub arrived : o.arrival_time ≡ arrivals i
    pub timed : (time : ℕ) × (o.completion_time ≡ some time)

module _ {b : Backend} (bench : Bench b) (w : IsRowWise b) (max_tokens : ℕ) (arrivals : ℕ → ℕ)
    (strategy : RoutingStrategy) (max_batch_size : ℕ) (gate : Option (ClassificationGate b)) where
  abbrev config : Config b
  config = bench_config bench strategy max_batch_size max_tokens gate

  ending_of :
      (r : GenerationRequest b)
      → r.max_tokens ≡ max_tokens
      → IsEnded config r
      → EndsNaturally bench w max_tokens arrivals strategy r.finish_reason r.terminated_by_probe
          r.generated_ids
        ⊎ EndsCut bench w max_tokens arrivals strategy r.finish_reason r.terminated_by_probe
  ending_of r most e =
      let limited : limit config r ≡ max_tokens = omega (arith, most) in
      elim e.ending [
        | inl (inl at_eos) ↦ inl (inl at_eos)
        | inl (inr full) ↦ inl (
            inr (
              subst (λ n. IsFull config r.finish_reason r.terminated_by_probe r.generated_ids n)
                limited full))
        | inr (finish, flag, is, decision, d, divergent, confident) ↦ inr (flag, finish, is)
      ]

  pub record_of-IsOutcome :
      (i : ℕ) (s : Sample) (r : GenerationRequest b)
      → IsEnded config r
      → IsExact w r.prompt_ids r.generated_ids
      → IsFor bench max_tokens arrivals i s (origin r)
      → (o : Outcome b) × (record_of bench r ≡ ok o)
        × IsOutcome bench w max_tokens arrivals strategy i s o
  unfolding record_of
  record_of-IsOutcome i s r e x (prompt, most, arrival, metadata) =
      let limited : limit config r ≡ max_tokens = omega (arith, most) in
      (
        outcome_of bench r (record { aime_idx = i; expected_answer = s.answer }),
        rw metadata refl,
        record {
          tokens = r.generated_ids;
          exact = subst (λ ids. IsExact w ids r.generated_ids) prompt x;
          prior = e.prior;
          bound = omega (arith, e.bound);
          ending = ending_of r most e;
          index = refl;
          counted = refl;
          converged = refl;
          correct = refl;
          arrived = arrival;
          timed = (e.time, e.timed);
        },
      )
