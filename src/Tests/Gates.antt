-- ===== src/Tests/Gates.antt =====
-- Runs of the probe and of the gate.
use probe_guided_inference.Base.{ℕ, ◌≡◌, refl, arith, some, [], ◌∷◌, ok, traverse, max}
use probe_guided_inference.Probe.{py_max, load_probe}
use probe_guided_inference.Probe.Loading.{load_probe_iff}
use probe_guided_inference.Gate.{make_gate, classify, classify_batch}
use probe_guided_inference.Gate.Batches.{IsPointwise, classify_batch-eq-traverse}
use probe_guided_inference.Scheduler.State.{probe_terminate, make_batcher}
use probe_guided_inference.Scheduler.Loop.{Process}
use probe_guided_inference.Probe.{make_capture, resolve_layer}
use probe_guided_inference.Server.Startup.{
  Settings, IsReady, startup, gate_for, config_of, startup-IsReady,
}
use probe_guided_inference.Cache.{empty}
use probe_guided_inference.Tests.Toy.{toy}
use probe_guided_inference.Tests.Setup.{probe, start}

probe-IsPointwise : IsPointwise (make_gate probe).probe
unfolding make_gate
probe-IsPointwise = record { scores = λ h. (100, h); row_by_row = λ rows. refl }

same_max : (x y : ℕ) → max x y ≡ py_max toy x y
same_max x y = ground arith

classify_batch-eq-traverse_example :
    classify_batch (make_gate probe) 4 (30 ∷ 80 ∷ [])
    ≡ traverse (classify (make_gate probe)) (30 ∷ 80 ∷ [])
classify_batch-eq-traverse_example =
    classify_batch-eq-traverse (make_gate probe) 4 30 (80 ∷ []) probe-IsPointwise same_max
      (refl, (refl, tt))

load_probe_iff_example :
    (load_probe (some probe) 0 2 ≡ ok probe
      → (some probe ≡ some probe) × (probe.trained_layer ≡ 0) × (probe.trained_checkpoint ≡ 2))
    × ((some probe ≡ some probe) × (probe.trained_layer ≡ 0) × (probe.trained_checkpoint ≡ 2)
        → load_probe (some probe) 0 2 ≡ ok probe)
load_probe_iff_example = load_probe_iff (some probe) 0 2 probe

abbrev settings : Settings toy
settings = record {
  strategy = probe_terminate;
  probe_layer = 0;
  checkpoint_position = 2;
  max_batch_size = 2;
  limits = record { eos_token_id = 2; max_tokens_cap = 6 };
  terminate_confidence_threshold = 60;
}

abbrev started : Process toy
started = record {
  batcher = record (start probe_terminate).batcher {
    config = config_of settings (some (make_gate probe));
  };
  next_id = 1;
}

started_lem : startup settings (some probe) (some 4) ≡ ok started
unfolding startup gate_for load_probe make_batcher make_capture resolve_layer make_gate empty
started_lem = refl

startup-IsReady_example : IsReady started
startup-IsReady_example = startup-IsReady settings (some probe) (some 4) started started_lem
