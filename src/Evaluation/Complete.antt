-- ===== src/Evaluation/Complete.antt =====
-- Whole runs of `run_strategy` in benchmark/routing_eval.py.
use probe_guided_inference.Base.{
  elapsed_between, ℕ, zero, suc, ◌+◌, ◌*◌, ◌≤◌, true, ◌≡◌, refl, ap, ◌∙◌, Option, some, List, [],
  ◌∷◌, arith, ok, All, length, get_elem?, subst, After-ok,
}
use probe_guided_inference.Backend.{Backend}
use probe_guided_inference.Model.{IsRowWise}
use probe_guided_inference.Gate.{ClassificationGate}
use probe_guided_inference.Queue.{GenerationRequest}
use probe_guided_inference.Scheduler.State.{Config, RoutingStrategy, get_active}
use probe_guided_inference.Scheduler.Loop.{Process}
use probe_guided_inference.Scheduler.Places.{get_active_lem}
use probe_guided_inference.Scheduler.Each.{All-get_active}
use probe_guided_inference.Scheduler.Parity.{Accepts}
use probe_guided_inference.Server.Startup.{IsStart, IsFresh, startup, startup-IsStart}
use probe_guided_inference.Evaluation.{
  Sample, Bench, Clock, Outcome, StrategyResult, settings_of, everyone, is_done, records_of,
  conclude, awaited, run_strategy, total_tokens, submit_all, await_all,
}
use probe_guided_inference.Evaluation.Submitted.{ids_from, submit_all_lem, IsAsked}
use probe_guided_inference.Evaluation.Awaited.{
  IsFinal, work_of, everyone-IsFinal, all_done-get_active, await_all-IsRunning,
}
use probe_guided_inference.Evaluation.Outcomes.{bench_config, IsOutcome, record_of-IsOutcome}
use probe_guided_inference.Evaluation.Started.{Waiting, Prompted, waiting-IsRunning, waiting-work}

length-ids_from : (first n : ℕ) → length (ids_from first n) ≡ n
length-ids_from first zero = refl
length-ids_from first (suc n) = ap suc (length-ids_from (first + 1) n)

module _ {b : Backend} (bench : Bench b) (w : IsRowWise b) (max_tokens : ℕ) (arrivals : ℕ → ℕ)
    (strategy : RoutingStrategy) where
  -- One record for each sample, in the order of the samples, of which the first is sample `i`.
  abbrev pub HaveOutcomes : ℕ → List Sample → List (Outcome b) → Type 0
  HaveOutcomes i [] [] = Unit
  HaveOutcomes i (s ∷ samples) (o ∷ os) =
      IsOutcome bench w max_tokens arrivals strategy i s o × HaveOutcomes (suc i) samples os
  HaveOutcomes i _ _ = ⊥

module _ {b : Backend} (bench : Bench b) (w : IsRowWise b) (max_tokens : ℕ) (arrivals : ℕ → ℕ)
    (strategy : RoutingStrategy) (max_batch_size : ℕ) (gate : Option (ClassificationGate b)) where
  abbrev config : Config b
  config = bench_config bench strategy max_batch_size max_tokens gate

  abbrev Known : List Sample → GenerationRequest b → Type 0
  Known samples r =
      is_done r.result ≡ true → IsFinal w config (IsAsked bench max_tokens arrivals samples) r

  records_of-HaveOutcomes :
      (whole : List Sample) (rs : List (GenerationRequest b)) (i : ℕ) (samples : List Sample)
      → ((k : ℕ) → get_elem? whole (i + k) ≡ get_elem? samples k)
      → All (Known whole) rs
      → All
          (λ k. (r : GenerationRequest b) × (get_active k rs ≡ some r) × (is_done r.result ≡ true))
          (ids_from (i + 1) (length samples))
      → (os : List (Outcome b)) × (records_of bench (ids_from (i + 1) (length samples)) rs ≡ ok os)
        × HaveOutcomes bench w max_tokens arrivals strategy i samples os
  unfolding records_of
  records_of-HaveOutcomes whole rs i [] same known here = ([], refl, tt)
  records_of-HaveOutcomes whole rs i (s ∷ samples) same known ((r, found, done), here) =
      let (ended, exact, is_asked) = All-get_active (Known whole) (i + 1) rs known found done in
      let named = (get_active_lem (i + 1) rs r found).0 in
      let at : get_elem? whole i ≡ some s = ap (get_elem? whole) (plus i) ∙ same 0 in
      let (o, e, told) =
        record_of-IsOutcome bench w max_tokens arrivals strategy max_batch_size gate i s r ended
          exact (is_asked i s at named) in
      let (os, f, rest) =
        records_of-HaveOutcomes whole rs (suc i) samples
          (λ k. ap (get_elem? whole) (omega arith) ∙ same (suc k)) known
          (subst
            (λ n.
              All
                (λ k.
                  (r : GenerationRequest b) × (get_active k rs ≡ some r)
                  × (is_done r.result ≡ true))
                (ids_from n (length samples)))
            (later i) here) in
      let f' : records_of bench (ids_from (i + 1 + 1) (length samples)) rs ≡ ok os =
        ap (λ n. records_of bench (ids_from n (length samples)) rs) (later i) ∙ f in
      (o ∷ os, rw found (rw e (rw f' refl)), (told, rest))
    where
      plus : (n : ℕ) → n ≡ n + 0
      plus n = omega arith

      later : (n : ℕ) → n + 1 + 1 ≡ suc n + 1
      later n = omega arith

module _ {b : Backend} (bench : Bench b) (w : IsRowWise b) (strategy : RoutingStrategy)
    (max_batch_size max_tokens : ℕ) (samples : List Sample) (clock : Clock) where
  -- The records exist, one for each sample.
  abbrev pub IsComplete : Type 0
  IsComplete =
      (r : StrategyResult b) × (run_strategy bench strategy max_batch_size max_tokens samples clock
        ≡ ok (some r))
      × (r.strategy ≡ strategy)
      × (r.n_requests ≡ length samples)
      × (r.total_tokens_generated ≡ total_tokens r.records)
      × HaveOutcomes bench w max_tokens clock.arrivals strategy 0 samples r.records

  abbrev result_of : Process b → List ℕ → List (Outcome b) → StrategyResult b
  result_of q rids os = record {
    strategy = strategy;
    n_requests = length rids;
    max_batch_size = max_batch_size;
    wall_clock_s = elapsed_between clock.t0 clock.t1;
    total_tokens_generated = total_tokens os;
    batcher_stats = record {
      total_admitted = q.batcher.total_admitted;
      total_finished = q.batcher.total_finished;
      total_probe_terminated = q.batcher.total_probe_terminated;
      total_preemptions = q.batcher.total_preemptions;
    };
    records = os;
  }

  -- A run, from what its parts return.
  assembled :
      (p start q : Process b) (rids : List ℕ) (os : List (Outcome b))
      → startup (settings_of bench strategy max_batch_size max_tokens) bench.file bench.layers
        ≡ ok p
      → submit_all bench max_tokens clock.arrivals 0 samples p ≡ ok (start, rids)
      → await_all rids clock.times start ≡ some q
      → records_of bench rids (everyone q.batcher) ≡ ok os
      → run_strategy bench strategy max_batch_size max_tokens samples clock
        ≡ ok (some (result_of q rids os))
  unfolding run_strategy awaited conclude
  assembled p start q rids os e submitted wait told = rw e (rw submitted (rw wait (rw told refl)))

  fresh-IsComplete :
      (p : Process b) (gate : Option (ClassificationGate b))
      → p.next_id ≡ 1
      → IsFresh (bench_config bench strategy max_batch_size max_tokens gate) p.batcher
      → Accepts gate
      → Prompted bench samples
      → 1 ≤ max_batch_size
      → (max_tokens + 1 + max_tokens) * length samples ≤ length clock.times
      → startup (settings_of bench strategy max_batch_size max_tokens) bench.file bench.layers
        ≡ ok p
      → IsComplete
  fresh-IsComplete p gate first fresh accepts prompted positive enough e =
      let arrivals = clock.arrivals in
      let config = bench_config bench strategy max_batch_size max_tokens gate in
      let n = length samples in
      let P = IsAsked bench max_tokens arrivals samples in
      let start = Waiting bench w max_tokens arrivals strategy max_batch_size gate samples p in
      let submitted = submit_all_lem bench max_tokens arrivals p 0 samples first in
      let running =
        waiting-IsRunning bench w max_tokens arrivals strategy max_batch_size gate p samples first
          fresh accepts prompted in
      let spent = waiting-work bench w max_tokens arrivals strategy max_batch_size gate samples 0 in
      let bound : work_of w config P start ≤ length clock.times =
        rw (fresh.no_pending, fresh.no_active) (omega arith) in
      let (q, wait, i, done) =
        await_all-IsRunning w config P n clock.times start accepts positive running (omega arith)
          bound in
      let (os, told, have) =
        records_of-HaveOutcomes bench w max_tokens arrivals strategy max_batch_size gate samples
          (everyone q.batcher) 0 samples (λ k. ap (get_elem? samples) (omega arith))
          (everyone-IsFinal w config P q i)
          (all_done-get_active (ids_from 1 n) (everyone q.batcher) done) in
      (
        result_of q (ids_from 1 n) os,
        assembled p start q (ids_from 1 n) os e submitted wait told,
        refl,
        length-ids_from 1 n,
        refl,
        have,
      )

  -- If the run starts without an exception, the prompt of each sample has a token, its gate, if
  -- it has one, classifies every hidden state of a model that reads a batch of the documented
  -- shape row by row, ignores masked columns and is shown the new token, in exact arithmetic,
  -- the batch size is one or more, and there are as many rounds as (2 * max_tokens + 1) times
  -- the samples, then run_strategy returns a result of the strategy with as many requests as
  -- samples and one record for each sample in order: the record has the index of the sample,
  -- the number of tokens, the think-end mark and the correctness of tokens that greedy
  -- generation gives the prompt of the sample, at most max(1, max_tokens) of them and no end-
  -- of-sequence token before the last; it has the arrival time of its submission and a
  -- completion time, and it ended on the end-of-sequence token, at the limit, or, under
  -- probe_terminate only, by the probe; and the total of tokens is the sum over the records.
  pub run_strategy-IsComplete :
      (p : Process b)
      → startup (settings_of bench strategy max_batch_size max_tokens) bench.file bench.layers
        ≡ ok p
      → Accepts p.batcher.gate
      → Prompted bench samples
      → 1 ≤ max_batch_size
      → (max_tokens + 1 + max_tokens) * length samples ≤ length clock.times
      → IsComplete
  run_strategy-IsComplete p e accepts prompted positive enough =
      let settings = settings_of bench strategy max_batch_size max_tokens in
      let i =
        After-ok Unit (IsStart settings) (startup settings bench.file bench.layers)
          (startup-IsStart settings bench.file bench.layers) e in
      let same : p.batcher.gate ≡ i.gate = ap (λ (c : Config b). c.gate) i.fresh.configured in
      fresh-IsComplete p i.gate i.first i.fresh (subst Accepts same accepts) prompted positive
        enough e
