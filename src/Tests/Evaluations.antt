-- ===== src/Tests/Evaluations.antt =====
-- A benchmark of two samples on the toy model.
use probe_guided_inference.Base.{
  ◌≡◌, refl, true, false, some, none, List, [], ◌∷◌, ok, arith, All₂, replicate,
}
use probe_guided_inference.Base.{subst}
use probe_guided_inference.Probe.{predict, label_of, load_probe, make_capture, resolve_layer}
use probe_guided_inference.Gate.{make_gate, classify, RoutingDecision}
use probe_guided_inference.Scheduler.State.{
  RoutingStrategy, baseline, probe_terminate, make_batcher,
}
use probe_guided_inference.Scheduler.Loop.{Process}
use probe_guided_inference.Scheduler.Parity.{Accepts}
use probe_guided_inference.Server.Startup.{startup, gate_for}
use probe_guided_inference.Cache
use probe_guided_inference.Answers.{codes}
use probe_guided_inference.Evaluation.{
  Bench, Sample, Clock, StrategyResult, settings_of, run_strategy,
}
use probe_guided_inference.Evaluation.Started.{Prompted}
use probe_guided_inference.Evaluation.Complete.{IsComplete, run_strategy-IsComplete}
use probe_guided_inference.Evaluation.Counterfactual.{Agrees, runs-agree}
use probe_guided_inference.Tests.Toy.{toy, toy-IsRowWise}
use probe_guided_inference.Tests.Setup.{probe}

abbrev bench : Bench toy
bench = record {
  tokenizer = record { template = λ question. question; encode = λ text. 3 ∷ 5 ∷ [] };
  decode = λ ids. codes "\\boxed{7}";
  strings = record { float_text = λ text. none; lower = λ text. text };
  eos_token_id = 2;
  think_end_token_id = 8;
  probe_layer = 0;
  checkpoint_position = 2;
  terminate_confidence_threshold = 60;
  file = some probe;
  layers = some 1;
}

abbrev samples : List Sample
samples =
    record { question = "one"; answer = codes "7" }
    ∷ record { question = "two"; answer = codes "8" }
    ∷ []

abbrev clock : Clock
clock = record { arrivals = λ i. i; t0 = 2; t1 = 90; times = replicate 30 9 }

abbrev made : RoutingStrategy → Process toy
made strategy = record {
  batcher = record {
    config = record {
      strategy = strategy;
      gate = elim strategy [ baseline ↦ none | _ ↦ some (make_gate probe) ];
      max_batch_size = 1;
      limits = record { eos_token_id = 2; max_tokens_cap = 5 };
      terminate_confidence_threshold = 60;
    };
    queue = record { pending = [] };
    cache = record { cache = []; lengths = [] };
    capture = elim strategy [
      | baseline ↦ none
      | _ ↦ some (record { layer_idx = 0; last = none; attached = true })
    ];
    active = [];
    finished = [];
    stopped = false;
    total_admitted = 0;
    total_finished = 0;
    total_probe_terminated = 0;
    total_preemptions = 0;
  };
  next_id = 1;
}

starts :
    startup (settings_of bench probe_terminate 1 5) bench.file bench.layers
    ≡ ok (made probe_terminate)
unfolding startup gate_for load_probe make_gate make_batcher make_capture resolve_layer Cache.empty
starts = refl

starts_baseline :
    startup (settings_of bench baseline 1 5) bench.file bench.layers ≡ ok (made baseline)
unfolding startup gate_for make_batcher Cache.empty
starts_baseline = refl

gate-Accepts : Accepts (made probe_terminate).batcher.gate
unfolding make_gate classify predict label_of
gate-Accepts g e hidden =
    let one : make_gate probe ≡ g = cc in
    subst (λ k. (d : RoutingDecision toy) × (classify k hidden ≡ ok d)) one (_, refl)

none-Accepts : Accepts (made baseline).batcher.gate
none-Accepts g e = let bad = e in absurd cc

prompted : Prompted bench samples
prompted = ground arith

run_strategy-IsComplete_example : IsComplete bench toy-IsRowWise probe_terminate 1 5 samples clock
run_strategy-IsComplete_example =
    run_strategy-IsComplete bench toy-IsRowWise probe_terminate 1 5 samples clock
      (made probe_terminate) starts gate-Accepts prompted (omega arith) (omega arith)

runs-agree_example :
    (r r' : StrategyResult toy) × (run_strategy bench baseline 1 5 samples clock ≡ ok (some r))
    × (run_strategy bench probe_terminate 1 5 samples clock ≡ ok (some r'))
    × All₂ Agrees r.records r'.records
runs-agree_example =
    runs-agree bench toy-IsRowWise 1 5 samples baseline probe_terminate clock clock (made baseline)
      (made probe_terminate) (λ e. cc) starts_baseline starts none-Accepts gate-Accepts prompted
      (omega arith) (omega arith) (omega arith)
