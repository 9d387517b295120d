-- ===== src/Tests/Setup.antt =====
-- Runs of the scheduler of src/scheduler.py: four requests in a batch of two, with a gate that finds the
-- first token's hidden state divergent.
use probe_guided_inference.Base.{
  ℕ, ◌≡◌, refl, true, false, Option, none, some, List, [], ◌∷◌, ok, raise, Result, arith, map,
}
use probe_guided_inference.Base.Dict
use probe_guided_inference.Probe.{ProbeArtifact, hook_fn, label_of, predict}
use probe_guided_inference.Gate.{make_gate, ready_at, classify, is_divergent}
use probe_guided_inference.Queue.{
  submit, make_request, popleft, peek, after_last_normal, skip_deprioritized,
  push_front_priority_aware,
}
use probe_guided_inference.Runner.{
  forward, run_prefill, run_decode_step, advance_from, ask_gate, fire_gate, row_hidden,
}
use probe_guided_inference.Scheduler.State.{
  Config, RoutingStrategy, probe_deprioritize, probe_terminate, baseline, complete, finish,
  get_active, pop_active, put_active,
}
use probe_guided_inference.Scheduler.Loop.{
  Process, Event, submits, rounds, run, step, tick, decode_and_route, finish_all,
}
use probe_guided_inference.Scheduler.History.{IsSound}
use probe_guided_inference.Cache.{
  build_batch, store_prefill, scatter_updated_batch, batched_layers, cat_batch, cat_sequence, evict,
  mask_row, maximum, pad_left, padded_rows, scatter_from, seq_len,
}
use probe_guided_inference.Scheduler.Admit.{
  try_admit, admit_while_room, admit_one, preempt_while_full, find_deprioritize_victim,
  least_progress, place, preempt,
}
use probe_guided_inference.Scheduler.Route.{apply_routing, react, route, route_all, route_decided}
use probe_guided_inference.Gate.{classify}
use probe_guided_inference.Probe.{predict, label_of}
use probe_guided_inference.Tests.Toy.{toy}
use probe_guided_inference.Tests.Queues.{asked}

abbrev pub probe : ProbeArtifact toy
probe = record {
  predict_proba = map (λ (h : ℕ). (100, h));
  trained_layer = 0;
  trained_checkpoint = 2;
  expected_hidden_dim = 4;
  n_train_samples = 10;
  train_auc = 80;
}

abbrev pub config : RoutingStrategy → Config toy
config strategy = record {
  strategy = strategy;
  gate = some (make_gate probe);
  max_batch_size = 2;
  limits = record { eos_token_id = 2; max_tokens_cap = 6 };
  terminate_confidence_threshold = 60;
}

abbrev pub start : RoutingStrategy → Process toy
start strategy = record {
  batcher = record {
    config = config strategy;
    queue = record { pending = [] };
    cache = record { cache = []; lengths = [] };
    capture = some (record { layer_idx = 0; last = none; attached = true });
    active = [];
    finished = [];
    stopped = false;
    total_admitted = 0;
    total_finished = 0;
    total_probe_terminated = 0;
    total_preemptions = 0;
  };
  next_id = 1;
}

abbrev pub history : List (ℕ × Event)
history =
    (0, submits (asked 4 3))
    ∷ (1, submits (asked 4 1))
    ∷ (2, rounds)
    ∷ (3, submits (asked 6 0))
    ∷ (4, rounds)
    ∷ (5, rounds)
    ∷ (6, submits (asked 6 0))
    ∷ (7, rounds)
    ∷ (8, rounds)
    ∷ (9, rounds)
    ∷ []

abbrev pub counters : Result (Process toy) → Option (ℕ × ℕ × ℕ × ℕ)
counters (ok p) = some (
  p.batcher.total_admitted, p.batcher.total_finished, p.batcher.total_probe_terminated,
  p.batcher.total_preemptions,
)
counters (raise e) = none

abbrev pub after : Result (Process toy) → Process toy
after (ok p) = p
after (raise e) = start baseline

abbrev pub ended : Process toy
ended = after (run (start probe_deprioritize) history)

abbrev pub in_order : Process toy
in_order = after (run (start probe_terminate) history)

-- The runs are without an exception, and two requests are preempted in the first.
runs_lem :
    (run (start probe_deprioritize) history ≡ ok ended)
    × (run (start probe_terminate) history ≡ ok in_order)
    × (counters (run (start probe_deprioritize) history) ≡ some (5, 2, 0, 2))
unfolding submit make_request popleft peek after_last_normal skip_deprioritized
    push_front_priority_aware build_batch store_prefill scatter_updated_batch batched_layers
    cat_batch cat_sequence evict mask_row maximum pad_left padded_rows scatter_from seq_len ready_at
    make_gate classify is_divergent hook_fn label_of predict run_prefill run_decode_step
    advance_from ask_gate fire_gate forward row_hidden try_admit admit_while_room admit_one
    preempt_while_full find_deprioritize_victim least_progress place preempt apply_routing react
    route route_all route_decided complete finish get_active pop_active put_active run step tick
    decode_and_route finish_all Dict.get Dict.insert Dict.pop
runs_lem = (refl, refl, refl)

pub ended_lem : run (start probe_deprioritize) history ≡ ok ended
ended_lem = runs_lem.0

pub in_order_lem : run (start probe_terminate) history ≡ ok in_order
in_order_lem = runs_lem.1

pub any_start-IsSound : (strategy : RoutingStrategy) → IsSound (start strategy)
any_start-IsSound strategy = record {
  conserved = record { started = omega arith; places = λ k. ground arith };
  counted = record {
    capacity = omega arith;
    finished_count = refl;
    terminated_count = refl;
    admitted_count = refl;
  };
}

pub start-IsSound : IsSound (start probe_deprioritize)
start-IsSound = any_start-IsSound probe_deprioritize
