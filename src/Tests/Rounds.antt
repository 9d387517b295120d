-- ===== src/Tests/Rounds.antt =====
-- Rounds of the scheduler until nothing is left, from two requests that wait.
use probe_guided_inference.Base.{ℕ, ◌≡◌, refl, true, none, [], ◌∷◌, ok, arith, All, replicate}
use probe_guided_inference.Queue.{make_request}
use probe_guided_inference.Scheduler.State.{probe_deprioritize}
use probe_guided_inference.Scheduler.Loop.{Process, run}
use probe_guided_inference.Scheduler.Places.{occurrences}
use probe_guided_inference.Scheduler.History.{issued}
use probe_guided_inference.Scheduler.Endings.{IsEnded}
use probe_guided_inference.Scheduler.Parity.{IsExact}
use probe_guided_inference.Scheduler.Parity.Histories.{IsServing}
use probe_guided_inference.Scheduler.Work.Draining.{rounds_at, Kept, rounds-IsDrained}
use probe_guided_inference.Tests.Toy.{toy, toy-IsRowWise}
use probe_guided_inference.Tests.Queues.{asked}
use probe_guided_inference.Tests.Setup.{config, start}
use probe_guided_inference.Tests.Runs.{accepts}

abbrev asking : Process toy
asking =
    let p = start probe_deprioritize in
    record {
      batcher = record p.batcher {
        queue = record {
          pending = make_request 1 0 (asked 4 3) ∷ make_request 2 0 (asked 4 1) ∷ [];
        };
      };
      next_id = 3;
    }

asking-IsServing : IsServing toy-IsRowWise (config probe_deprioritize) asking
unfolding make_request
asking-IsServing = record {
  same_config = refl;
  conserved = record { started = omega arith; places = λ k. ground arith };
  waiting = ((refl, omega arith), ((refl, omega arith), tt));
  active = tt;
  finished = tt;
  hooked = λ g e. (record { layer_idx = 0; last = none; attached = true }, refl, refl);
}

asking-Kept : Kept (config probe_deprioritize) asking
unfolding make_request
asking-Kept = record {
  same_config = refl;
  conserved = record { started = omega arith; places = λ k. ground arith };
  waiting = (
    record { unanswered = refl; no_reason = refl; not_terminated = refl; no_tokens = refl },
    (record { unanswered = refl; no_reason = refl; not_terminated = refl; no_tokens = refl }, tt),
  );
  active = tt;
  finished = tt;
}

rounds-IsDrained_example :
    (q : Process toy) × (run asking (rounds_at (replicate 26 7)) ≡ ok q)
    × (q.batcher.queue.pending ≡ [])
    × (q.batcher.active ≡ [])
    × ((k : ℕ) → occurrences k q.batcher.finished ≡ issued asking.next_id k)
    × All (IsEnded (config probe_deprioritize)) q.batcher.finished
    × All (λ r. IsExact toy-IsRowWise r.prompt_ids r.generated_ids) q.batcher.finished
unfolding make_request
rounds-IsDrained_example =
    rounds-IsDrained (config probe_deprioritize) toy-IsRowWise asking (replicate 26 7) accepts
      (omega arith) asking-IsServing asking-Kept refl (omega arith)
