-- ===== src/Tests/Pools.antt =====
-- Histories of the toy model as moves of the pool.
use probe_guided_inference.Base.{◌≡◌, refl, none, ◌+◌, ◌≤◌, ◌⊎◌}
use probe_guided_inference.Scheduler.State.{probe_deprioritize, probe_terminate}
use probe_guided_inference.Scheduler.Pool.{Reach, pool_of}
use probe_guided_inference.Scheduler.Pool.Refinement.{IsFifo, run-Reach, run-IsFifo}
use probe_guided_inference.Server.{metrics}
use probe_guided_inference.Server.Counts.{metrics-IsSound}
use probe_guided_inference.Tests.Setup.{
  start, history, ended, ended_lem, in_order, in_order_lem, any_start-IsSound, start-IsSound,
}

run-Reach_example : Reach probe_deprioritize 2 (pool_of (start probe_deprioritize)) (pool_of ended)
run-Reach_example =
    run-Reach (start probe_deprioritize) ended history start-IsSound (tt, tt) ended_lem

run-IsFifo_example : IsFifo (pool_of in_order)
run-IsFifo_example =
    run-IsFifo (start probe_terminate) in_order history (any_start-IsSound probe_terminate) (tt, tt)
      (λ e. cc) (1, 0, refl, refl) in_order_lem

metrics-IsSound_example :
    let m = metrics none ended.batcher in
    (m.queued + m.active_sequences + m.total_finished + 1 ≡ ended.next_id)
    × (m.total_admitted ≡ m.total_finished + m.active_sequences + m.total_preemptions)
    × (m.active_sequences ≤ ended.batcher.max_batch_size)
    × (m.active_deprioritized ≤ m.active_sequences)
    × ((probe_deprioritize ≡ probe_deprioritize) ⊎ (m.active_deprioritized ≡ 0))
metrics-IsSound_example =
    metrics-IsSound (start probe_deprioritize) ended history none start-IsSound (tt, tt) refl
      ended_lem
