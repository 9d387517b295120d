-- ===== src/Evaluation/Started.antt =====
-- A run of `run_strategy` in benchmark/routing_eval.py once all samples are submitted.
use probe_guided_inference.Base.{
  ℕ, suc, ◌+◌, ◌*◌, ◌≤◌, ◌≡◌, ap, sym, ◌∙◌, Option, List, [], ◌∷◌, arith, All, length, get_elem?,
  subst, ok-injective,
}
use native.Mathlib.Nat.{mul-suc}
use probe_guided_inference.Backend.{Backend}
use probe_guided_inference.Model.{IsRowWise}
use probe_guided_inference.Gate.{ClassificationGate}
use probe_guided_inference.Queue.{make_request}
use probe_guided_inference.Scheduler.State.{Config, RoutingStrategy}
use probe_guided_inference.Scheduler.Loop.{Process}
use probe_guided_inference.Scheduler.Requests.{run-IsKept}
use probe_guided_inference.Scheduler.Endings.Life.{endings}
use probe_guided_inference.Scheduler.History.{IsConserved}
use probe_guided_inference.Scheduler.Parity.{Accepts}
use probe_guided_inference.Scheduler.Parity.Histories.{IsServing, IsServed, run-IsServing}
use probe_guided_inference.Scheduler.Work.{sum, waiting_work}
use probe_guided_inference.Scheduler.Work.Draining.{Kept}
use probe_guided_inference.Server.Startup.{IsFresh, fresh-IsSound, fresh-IsServing}
use probe_guided_inference.Evaluation.{Sample, Bench}
use probe_guided_inference.Evaluation.Submitted.{
  asked, submissions, queued, run-submissions, IsAsked, asked_all,
}
use probe_guided_inference.Evaluation.Awaited.{IsRunning}
use probe_guided_inference.Evaluation.Outcomes.{bench_config}

-- Each sample's prompt has a token.
abbrev pub Prompted : {b : Backend} → Bench b → List Sample → Type 0
Prompted bench samples =
    All (λ (s : Sample). 1 ≤ length (bench.tokenizer.encode (bench.tokenizer.template s.question)))
      samples

module _ {b : Backend} (bench : Bench b) (w : IsRowWise b) (max_tokens : ℕ) (arrivals : ℕ → ℕ)
    (strategy : RoutingStrategy) (max_batch_size : ℕ) (gate : Option (ClassificationGate b)) where
  abbrev config : Config b
  config = bench_config bench strategy max_batch_size max_tokens gate

  abbrev pub Waiting : List Sample → Process b → Process b
  Waiting samples p =
      queued bench max_tokens arrivals p (asked bench max_tokens arrivals 0 samples)
        (0 + 1 + length samples)

  start-IsConserved : (p : Process b) → p.next_id ≡ 1 → IsFresh config p.batcher → IsConserved p
  start-IsConserved p first fresh =
      subst IsConserved (ap (λ n. record { batcher = p.batcher; next_id = n }) (sym first))
        (fresh-IsSound config p.batcher fresh).conserved

  start-IsServing :
      (p : Process b) → p.next_id ≡ 1 → IsFresh config p.batcher → IsServing w config p
  start-IsServing p first fresh =
      let serves = fresh-IsServing w config p.batcher fresh in
      record {
        same_config = fresh.configured;
        conserved = start-IsConserved p first fresh;
        waiting = serves.waiting;
        active = serves.active;
        finished = serves.finished;
        hooked = serves.hooked;
      }

  start-Kept : (p : Process b) → p.next_id ≡ 1 → IsFresh config p.batcher → Kept config p
  start-Kept p first fresh = record {
    same_config = fresh.configured;
    conserved = start-IsConserved p first fresh;
    waiting = rw fresh.no_pending tt;
    active = rw fresh.no_active tt;
    finished = rw fresh.no_finished tt;
  }

  submissions-IsServed :
      (i : ℕ) (samples : List Sample)
      → Prompted bench samples
      → All (λ e. IsServed e.1) (submissions bench max_tokens arrivals i samples)
  submissions-IsServed i [] h = tt
  submissions-IsServed i (s ∷ samples) (some_token, h) =
      (some_token, submissions-IsServed (suc i) samples h)

  pub waiting-IsRunning :
      (p : Process b) (samples : List Sample)
      → p.next_id ≡ 1
      → IsFresh config p.batcher
      → Accepts gate
      → Prompted bench samples
      → IsRunning w config (IsAsked bench max_tokens arrivals samples) (Waiting samples p)
  waiting-IsRunning p samples first fresh accepts prompted =
      let e = run-submissions bench max_tokens arrivals p 0 samples first in
      let (q, f, serves) =
        run-IsServing w config p (submissions bench max_tokens arrivals 0 samples) accepts
          (submissions-IsServed 0 samples prompted) (start-IsServing p first fresh) in
      let kept =
        run-IsKept (endings config) p (Waiting samples p)
          (submissions bench max_tokens arrivals 0 samples) (start-Kept p first fresh) e in
      record {
        serving = subst (IsServing w config) (ok-injective (sym f ∙ e)) serves;
        kept = kept;
        going = fresh.going;
        rooted = record {
          same_config = kept.same_config;
          conserved = kept.conserved;
          waiting = rw fresh.no_pending (
              asked_all bench max_tokens arrivals samples 0 samples
                (λ k. ap (get_elem? samples) (omega arith)));
          active = rw fresh.no_active tt;
          finished = rw fresh.no_finished tt;
        };
      }

  pub waiting-work :
      (samples : List Sample) (i : ℕ)
      → sum (waiting_work max_tokens) (asked bench max_tokens arrivals i samples)
        ≤ (max_tokens + 1 + max_tokens) * length samples
  unfolding make_request
  waiting-work [] i = omega arith
  waiting-work (s ∷ samples) i =
      let later = waiting-work samples (suc i) in
      omega (arith, later, mul-suc (max_tokens + 1 + max_tokens) (length samples))
