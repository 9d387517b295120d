-- ===== src/Tests/Admissions.antt =====
-- A run of the admission: three requests wait for a batch of two.
use probe_guided_inference.Base.{◌≡◌, refl, [], ◌∷◌, ok, raise, Result}
use probe_guided_inference.Base.Dict
use probe_guided_inference.Probe.{hook_fn}
use probe_guided_inference.Queue.{popleft, peek, make_request}
use probe_guided_inference.Cache.{store_prefill}
use probe_guided_inference.Runner.{run_prefill}
use probe_guided_inference.Scheduler.State.{Batcher, probe_deprioritize, put_active}
use probe_guided_inference.Scheduler.Admit.{
  try_admit, admit_while_room, admit_one, place, preempt_while_full, find_deprioritize_victim,
}
use probe_guided_inference.Scheduler.Admission.{IsTried, try_admit-IsTried}
use probe_guided_inference.Tests.Toy.{toy}
use probe_guided_inference.Tests.Queues.{waiting}
use probe_guided_inference.Tests.Setup.{start}

abbrev crowded : Batcher toy
crowded = record ((start probe_deprioritize).batcher) {
  queue = record { pending = waiting 1 0 ∷ waiting 2 0 ∷ waiting 3 0 ∷ [] };
}

abbrev batcher_of : Result (Batcher toy) → Batcher toy
batcher_of (ok s) = s
batcher_of (raise e) = crowded

abbrev tried : Batcher toy
tried = batcher_of (try_admit 1 crowded)

tried_lem : try_admit 1 crowded ≡ ok tried
unfolding try_admit admit_while_room admit_one popleft peek run_prefill store_prefill hook_fn place
    put_active preempt_while_full find_deprioritize_victim make_request Dict.insert
tried_lem = refl

try_admit-IsTried_example : IsTried crowded tried
try_admit-IsTried_example = try_admit-IsTried 1 crowded tried tried_lem
