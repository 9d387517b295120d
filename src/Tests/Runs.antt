-- ===== src/Tests/Runs.antt =====
-- What the theorems on batches and histories say of the run in Setup.
use probe_guided_inference.Base.{All, ℕ, ◌≡◌, refl, true, none, [], ◌∷◌, ok, arith}
use probe_guided_inference.Probe.{label_of, predict}
use probe_guided_inference.Gate.{make_gate, classify}
use probe_guided_inference.Queue.{GenerationRequest, make_request}
use probe_guided_inference.Runner.Forward.{Answered, forward-alone}
use probe_guided_inference.Scheduler.State.{probe_deprioritize}
use probe_guided_inference.Scheduler.Loop.{Process, run}
use probe_guided_inference.Scheduler.History.{IsSound, run-IsSound}
use probe_guided_inference.Scheduler.History.{IsConserved}
use probe_guided_inference.Scheduler.Requests.{IsKept}
use probe_guided_inference.Scheduler.Endings.{IsUnstarted, IsLive, IsEnded}
use probe_guided_inference.Scheduler.Endings.Life.{run-Endings}
use probe_guided_inference.Scheduler.Gating.{IsUnasked, IsGated, run-IsGated}
use probe_guided_inference.Scheduler.Parity.Replays.{IsRelayed, run-IsRelayed}
use probe_guided_inference.Gate.{RoutingDecision, classify}
use probe_guided_inference.Probe.{predict, label_of}
use probe_guided_inference.Scheduler.Parity.{Accepts}
use probe_guided_inference.Scheduler.Parity.Histories.{IsServing, IsServed, run-IsServing}
use probe_guided_inference.Base.{subst}
use probe_guided_inference.Scheduler.Preemptions.{count_normal, run-IsPaid}
use probe_guided_inference.Base.{◌+◌, ◌≤◌}
use probe_guided_inference.Tests.Toy.{toy, toy-IsRowWise}
use probe_guided_inference.Tests.Queues.{waiting}
use probe_guided_inference.Tests.Caches.{long, short, two, two-Stores, two-Distinct}
use probe_guided_inference.Tests.Setup.{
  probe, config, start, history, ended, ended_lem, start-IsSound,
}

abbrev asks : ℕ → ℕ → GenerationRequest toy
asks id token = record (waiting id 0) { generated_ids = token ∷ [] }

run-IsSound_example : IsSound ended
run-IsSound_example = run-IsSound (start probe_deprioritize) ended history start-IsSound ended_lem

forward-alone_example : Answered toy-IsRowWise (asks 1 7 ∷ asks 2 10 ∷ []) (long ∷ short ∷ []) two
unfolding make_request
forward-alone_example =
    forward-alone toy-IsRowWise (asks 1 7 ∷ asks 2 10 ∷ []) long (short ∷ []) two
      ((refl, refl), ((refl, refl), tt)) two-Distinct two-Stores

start-IsConserved : IsConserved (start probe_deprioritize)
start-IsConserved = record { started = omega arith; places = λ k. ground arith }

start-IsKept :
    (W A F : GenerationRequest toy → Type 0)
    → IsKept (config probe_deprioritize) W A F (start probe_deprioritize)
start-IsKept W A F = record {
  same_config = refl;
  conserved = start-IsConserved;
  waiting = tt;
  active = tt;
  finished = tt;
}

run-Endings_example :
    All (IsUnstarted (config probe_deprioritize)) ended.batcher.queue.pending
    × All (IsLive (config probe_deprioritize)) ended.batcher.active
    × All (IsEnded (config probe_deprioritize)) ended.batcher.finished
run-Endings_example =
    run-Endings (config probe_deprioritize) (start probe_deprioritize) ended history
      (start-IsKept (IsUnstarted (config probe_deprioritize)) (IsLive (config probe_deprioritize))
        (IsEnded (config probe_deprioritize)))
      ended_lem

run-IsGated_example :
    All (IsUnasked (config probe_deprioritize)) ended.batcher.queue.pending
    × All (IsGated (config probe_deprioritize)) ended.batcher.active
    × All (IsGated (config probe_deprioritize)) ended.batcher.finished
run-IsGated_example =
    run-IsGated (config probe_deprioritize) (start probe_deprioritize) ended history
      (start-IsKept (IsUnasked (config probe_deprioritize)) (IsGated (config probe_deprioritize))
        (IsGated (config probe_deprioritize)))
      ended_lem

pub accepts : Accepts (config probe_deprioritize).gate
unfolding make_gate classify predict label_of
accepts g e hidden =
    let one : make_gate probe ≡ g = cc in
    subst (λ k. (d : RoutingDecision toy) × (classify k hidden ≡ ok d)) one (_, refl)

start-IsServing : IsServing toy-IsRowWise (config probe_deprioritize) (start probe_deprioritize)
start-IsServing = record {
  same_config = refl;
  conserved = start-IsConserved;
  waiting = tt;
  active = tt;
  finished = tt;
  hooked = λ g e. (record { layer_idx = 0; last = none; attached = true }, refl, refl);
}

asked_tokens : All (λ e. IsServed e.1) history
asked_tokens = (
  omega arith,
  (omega arith, (tt, (omega arith, (tt, (tt, (omega arith, (tt, (tt, (tt, tt))))))))),
)

run-IsServing_example :
    (q : Process toy) × (run (start probe_deprioritize) history ≡ ok q)
    × IsServing toy-IsRowWise (config probe_deprioritize) q
run-IsServing_example =
    run-IsServing toy-IsRowWise (config probe_deprioritize) (start probe_deprioritize) history
      accepts asked_tokens start-IsServing

run-IsRelayed_example :
    (q : Process toy) × (run (start probe_deprioritize) history ≡ ok q)
    × IsRelayed toy-IsRowWise (config probe_deprioritize) q
run-IsRelayed_example =
    run-IsRelayed toy-IsRowWise (config probe_deprioritize) (start probe_deprioritize) history
      accepts asked_tokens
      (record { serving = start-IsServing; waiting = tt; active = tt; finished = tt })

run-IsPaid_example :
    ended.batcher.total_preemptions + count_normal ended.batcher.queue.pending + 1 ≤ ended.next_id
run-IsPaid_example = run-IsPaid (start probe_deprioritize) ended history (omega arith) ended_lem
