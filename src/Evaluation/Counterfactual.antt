-- ===== src/Evaluation/Counterfactual.antt =====
-- The same sample in two runs of benchmark/routing_eval.py, as `false_termination_rate` in
-- benchmark/report.py compares them.
use probe_guided_inference.Base.{
  ℕ, suc, ◌+◌, ◌≤◌, true, false, ◌≡◌, ◌≢◌, inl, inr, refl, ap, sym, ◌∙◌, some, List, [], ◌∷◌, ◌++◌,
  arith, ◌*◌, ok, All, All₂, length, length-append, subst,
}
use probe_guided_inference.Backend.{Backend}
use probe_guided_inference.Model.{IsRowWise}
use probe_guided_inference.Runner.Greedy.{greedy}
use probe_guided_inference.Scheduler.State.{RoutingStrategy, probe_terminate}
use probe_guided_inference.Scheduler.Loop.{Process, contains}
use probe_guided_inference.Scheduler.Parity.{Accepts}
use probe_guided_inference.Server.Startup.{startup}
use probe_guided_inference.Answers.{extract_answer, normalize_answer}
use probe_guided_inference.Evaluation.{
  Sample, Bench, Clock, Outcome, StrategyResult, settings_of, same_answer, run_strategy,
}
use probe_guided_inference.Evaluation.Started.{Prompted}
use probe_guided_inference.Evaluation.Outcomes.{IsOutcome, EndsNaturally}
use probe_guided_inference.Evaluation.Complete.{HaveOutcomes, run_strategy-IsComplete}
use probe_guided_inference.Evaluation.Tokens.{
  greedy-extends, stops-before, All-last, contains-append,
}

-- What the second record says of the sample, compared with the first, of a run that ended by itself.
abbrev pub Agrees : {b : Backend} → Outcome b → Outcome b → Type 0
Agrees o o' =
    (o'.aime_idx ≡ o.aime_idx)
    × (o'.n_generated ≤ o.n_generated)
    × (o'.converged ≡ true → o.converged ≡ true)
    × (o'.terminated_by_probe ≡ false
        → (o'.n_generated ≡ o.n_generated)
          × (o'.converged ≡ o.converged)
          × (o'.correct ≡ o.correct)
          × (o'.finish_reason ≡ o.finish_reason))

module _ {b : Backend} (bench : Bench b) (w : IsRowWise b) (max_tokens : ℕ) (s : Sample)
    (i : ℕ) where
  natural :
      (arrivals : ℕ → ℕ) (strategy : RoutingStrategy) (o : Outcome b)
      (t : IsOutcome bench w max_tokens arrivals strategy i s o)
      → o.terminated_by_probe ≡ false
      → EndsNaturally bench w max_tokens arrivals strategy o.finish_reason o.terminated_by_probe
          t.tokens
  natural arrivals strategy o t going = elim t.ending [
    | inl ends ↦ ends
    | inr (flag, reason, is) ↦ absurd cc
  ]

  -- One reason for the same tokens.
  same_reason :
      (arrivals arrivals' : ℕ → ℕ) (strategy strategy' : RoutingStrategy) (o o' : Outcome b)
      (tokens tokens' : List ℕ)
      → tokens' ≡ tokens
      → EndsNaturally bench w max_tokens arrivals strategy o.finish_reason o.terminated_by_probe
          tokens
      → EndsNaturally bench w max_tokens arrivals' strategy' o'.finish_reason o'.terminated_by_probe
          tokens'
      → o'.finish_reason ≡ o.finish_reason
  same_reason arrivals arrivals' strategy strategy' o o' tokens tokens' same
        (inl (r, f, front, at_eos, none_before)) (inl (r', f', front', at_eos', none_before')) =
      r' ∙ sym r
  same_reason arrivals arrivals' strategy strategy' o o' tokens tokens' same
        (inl (r, f, front, at_eos, none_before)) (inr (r', f', full', none_all')) =
      absurd (
        All-last (λ k. k ≢ bench.eos_token_id) front bench.eos_token_id
          (subst (All (λ k. k ≢ bench.eos_token_id)) (same ∙ at_eos) none_all') refl)
  same_reason arrivals arrivals' strategy strategy' o o' tokens tokens' same
        (inr (r, f, full, none_all)) (inl (r', f', front', at_eos', none_before')) =
      absurd (
        All-last (λ k. k ≢ bench.eos_token_id) front' bench.eos_token_id
          (subst (All (λ k. k ≢ bench.eos_token_id)) (sym same ∙ at_eos') none_all) refl)
  same_reason arrivals arrivals' strategy strategy' o o' tokens tokens' same
        (inr (r, f, full, none_all)) (inr (r', f', full', none_all')) =
      r' ∙ sym r

  outcomes-agree :
      (arrivals arrivals' : ℕ → ℕ) (strategy strategy' : RoutingStrategy) (o o' : Outcome b)
      → IsOutcome bench w max_tokens arrivals strategy i s o
      → IsOutcome bench w max_tokens arrivals' strategy' i s o'
      → o.terminated_by_probe ≡ false
      → Agrees o o'
  outcomes-agree arrivals arrivals' strategy strategy' o o' t t' whole =
      let prompt = bench.tokenizer.encode (bench.tokenizer.template s.question) in
      let ends = natural arrivals strategy o t whole in
      let le =
        stops-before bench w max_tokens s i arrivals arrivals' strategy strategy' o o' t t' ends in
      let (rest, e) = greedy-extends w prompt t'.exact.0 t.exact.0 le in
      let longer : t.tokens ≡ t'.tokens ++ rest =
        t.exact.1 ∙ e ∙ ap (λ (l : List ℕ). l ++ rest) (sym t'.exact.1) in
      (
        t'.index ∙ sym t.index,
        omega (
          arith,
          t.counted,
          t'.counted,
          ap (λ (l : List ℕ). length l) longer,
          length-append {0} t'.tokens rest,
        ),
        λ found.
            t.converged
            ∙ ap (contains bench.think_end_token_id) longer
            ∙ contains-append bench.think_end_token_id t'.tokens rest (sym t'.converged ∙ found),
        λ going.
            let ends' = natural arrivals' strategy' o' t' going in
            let ge =
              stops-before bench w max_tokens s i arrivals' arrivals strategy' strategy o' o t' t
                ends' in
            let steps : t'.exact.0 ≡ t.exact.0 = omega arith in
            let same : t'.tokens ≡ t.tokens =
              t'.exact.1 ∙ ap (λ k. (greedy w prompt k).tokens) steps ∙ sym t.exact.1 in
            (
              t'.counted ∙ ap (λ (l : List ℕ). length l) same ∙ sym t.counted,
              t'.converged ∙ ap (contains bench.think_end_token_id) same ∙ sym t.converged,
              t'.correct
                  ∙ ap
                      (λ (l : List ℕ).
                        same_answer
                          (normalize_answer bench.strings (extract_answer (bench.decode l)))
                          (normalize_answer bench.strings (some s.answer)))
                      same
                  ∙ sym t.correct,
              same_reason arrivals arrivals' strategy strategy' o o' t.tokens t'.tokens same ends
                  ends',
            ),
      )

  never_cut :
      (arrivals : ℕ → ℕ) (strategy : RoutingStrategy) (o : Outcome b)
      → strategy ≢ probe_terminate
      → IsOutcome bench w max_tokens arrivals strategy i s o
      → o.terminated_by_probe ≡ false
  never_cut arrivals strategy o other t = elim t.ending [
    | inl (inl (reason, flag, front, at_eos, none_before)) ↦ flag
    | inl (inr (reason, flag, full, none_all)) ↦ flag
    | inr (flag, reason, is) ↦ absurd (other is)
  ]

module _ {b : Backend} (bench : Bench b) (w : IsRowWise b) (max_tokens : ℕ)
    (arrivals arrivals' : ℕ → ℕ) (strategy strategy' : RoutingStrategy)
    (other : strategy ≢ probe_terminate) where
  records-agree :
      (i : ℕ) (samples : List Sample) (os os' : List (Outcome b))
      → HaveOutcomes bench w max_tokens arrivals strategy i samples os
      → HaveOutcomes bench w max_tokens arrivals' strategy' i samples os'
      → All₂ Agrees os os'
  records-agree i [] [] [] h h' = tt
  records-agree i [] (o ∷ os) os' h h' = absurd h
  records-agree i [] [] (o' ∷ os') h h' = absurd h'
  records-agree i (s ∷ samples) [] os' h h' = absurd h
  records-agree i (s ∷ samples) (o ∷ os) [] h h' = absurd h'
  records-agree i (s ∷ samples) (o ∷ os) (o' ∷ os') (h, hs) (h', hs') = (
    outcomes-agree bench w max_tokens s i arrivals arrivals' strategy strategy' o o' h h'
        (never_cut bench w max_tokens s i arrivals strategy o other h),
    records-agree (suc i) samples os os' hs hs',
  )

module _ {b : Backend} (bench : Bench b) (w : IsRowWise b) (max_batch_size max_tokens : ℕ)
    (samples : List Sample) where
  -- For a model that reads a batch of the documented shape row by row, ignores masked columns
  -- and is shown the new token, in exact arithmetic (under rounding that depends on the batch
  -- this does not hold, and the recorded runs differ): if both runs of the benchmark start
  -- without an exception, the prompt of each sample has a token, their gates, if they have one,
  -- classify every hidden state, the batch size is one or more, and each run is given as many
  -- rounds as (2 * max_tokens + 1) times the samples, then both runs of run_strategy return a
  -- result, and if the first strategy is not probe_terminate, the records agree sample by
  -- sample: the second has the same index, no more tokens, and has converged only if the first
  -- has; and if the second was not terminated by the probe, both have the same number of
  -- tokens, the same finish reason, and are alike converged and correct.
  pub runs-agree :
      (strategy strategy' : RoutingStrategy) (clock clock' : Clock) (p p' : Process b)
      → strategy ≢ probe_terminate
      → startup (settings_of bench strategy max_batch_size max_tokens) bench.file bench.layers
        ≡ ok p
      → startup (settings_of bench strategy' max_batch_size max_tokens) bench.file bench.layers
        ≡ ok p'
      → Accepts p.batcher.gate
      → Accepts p'.batcher.gate
      → Prompted bench samples
      → 1 ≤ max_batch_size
      → (max_tokens + 1 + max_tokens) * length samples ≤ length clock.times
      → (max_tokens + 1 + max_tokens) * length samples ≤ length clock'.times
      → (r r' : StrategyResult b) × (run_strategy bench strategy max_batch_size max_tokens samples
            clock
          ≡ ok (some r))
        × (run_strategy bench strategy' max_batch_size max_tokens samples clock' ≡ ok (some r'))
        × All₂ Agrees r.records r'.records
  runs-agree strategy strategy' clock clock' p p' other e e' accepts accepts' prompted positive
        enough enough' =
      let (r, run, is, n, sum, have) =
        run_strategy-IsComplete bench w strategy max_batch_size max_tokens samples clock p e accepts
          prompted positive enough in
      let (r', run', is', n', sum', have') =
        run_strategy-IsComplete bench w strategy' max_batch_size max_tokens samples clock' p' e'
          accepts' prompted positive enough' in
      (
        r,
        r',
        run,
        run',
        records-agree bench w max_tokens clock.arrivals clock'.arrivals strategy strategy' other 0
            samples r.records r'.records have have',
      )
