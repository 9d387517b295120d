-- ===== src/Scheduler/State.antt =====
-- src/scheduler.py: the state of the batcher, the dict `self.active`, and `_finish`. `now` is the
-- reading of the clock during a tick.
use probe_guided_inference.Base.{
  String, ℕ, ◌+◌, Bool, false, Option, none, some, List, [], ◌∷◌, ◌++◌, value_error, Result, ok,
  raise, ◌>>=◌, ◌==◌, if◌then◌else◌,
}
use probe_guided_inference.Backend.{Backend}
use probe_guided_inference.Probe.{LayerActivationCapture, make_capture}
use probe_guided_inference.Gate.{ClassificationGate}
use probe_guided_inference.Queue.{GenerationRequest, RequestQueue, put_nowait}
use probe_guided_inference.Cache
use probe_guided_inference.Cache.{BatchedSequenceCache, evict}
use probe_guided_inference.Runner.{Limits}

pub data RoutingStrategy : Type 0 where
  baseline probe_terminate probe_deprioritize : RoutingStrategy

pub record Config (b : Backend) : Type 0 where
  pub strategy : RoutingStrategy
  pub gate : Option (ClassificationGate b)
  pub max_batch_size : ℕ
  pub limits : Limits
  pub terminate_confidence_threshold : b.Score

-- `active` holds the values of the dict, whose keys are their request_id, in its order. `finished`
-- holds the requests that only their submitters refer to any more, in the order in which they
-- finished.
pub record Batcher (b : Backend) : Type 0 where
  pub config : Config b
  pub open config use *
  pub queue : RequestQueue b
  pub cache : BatchedSequenceCache b
  pub capture : Option (LayerActivationCapture b)
  pub active : List (GenerationRequest b)
  pub finished : List (GenerationRequest b)
  pub stopped : Bool
  pub total_admitted : ℕ
  pub total_finished : ℕ
  pub total_probe_terminated : ℕ
  pub total_preemptions : ℕ

-- `layers` is the number of decoder blocks of the model, for the hook of the capture.
unfoldable pub make_batcher :
    {b : Backend} → Option ℕ → RequestQueue b → Config b → Result (Batcher b)
make_batcher {b} layers queue config = elim config.gate [
  | none ↦ elim config.strategy [ baseline ↦ ok (start none) | _ ↦ raise value_error ]
  | some gate ↦ do
    capture ← make_capture b layers gate.probe.trained_layer
    ok (start (some capture))
]
  where
    start : Option (LayerActivationCapture b) → Batcher b
    start capture = record {
      config = config;
      queue = queue;
      cache = Cache.empty b;
      capture = capture;
      active = [];
      finished = [];
      stopped = false;
      total_admitted = 0;
      total_finished = 0;
      total_probe_terminated = 0;
      total_preemptions = 0;
    }

-- `if not req.result.done(): req.result.set_result(text)`
abbrev pub set_result : String → Option String → Option String
set_result text none = some text
set_result text (some done) = some done

module _ {b : Backend} where
  -- The dict `self.active`: `active[req.request_id] = req`, `pop(rid, None)`, `active[rid]`.
  unfoldable pub put_active :
      GenerationRequest b → List (GenerationRequest b) → List (GenerationRequest b)
  put_active req [] = req ∷ []
  put_active req (r ∷ rs) =
      if r.request_id == req.request_id then req ∷ rs else r ∷ put_active req rs

  unfoldable pub pop_active : ℕ → List (GenerationRequest b) → List (GenerationRequest b)
  pop_active rid [] = []
  pop_active rid (r ∷ rs) = if r.request_id == rid then rs else r ∷ pop_active rid rs

  unfoldable pub get_active : ℕ → List (GenerationRequest b) → Option (GenerationRequest b)
  get_active rid [] = none
  get_active rid (r ∷ rs) = if r.request_id == rid then some r else get_active rid rs

  -- `_finish`, on the request itself: the time, the end of the stream, and the result.
  unfoldable pub complete : ℕ → GenerationRequest b → GenerationRequest b
  complete now req = put_nowait none (record req {
    completion_time = some now;
    result = set_result (b.detokenize req.generated_ids) req.result;
  })

  unfoldable pub finish : ℕ → GenerationRequest b → Batcher b → Batcher b
  unfolding complete pop_active
  finish now req s = record s {
    cache = evict req.request_id s.cache;
    active = pop_active req.request_id s.active;
    finished = s.finished ++ complete now req ∷ [];
    total_finished = s.total_finished + 1;
    total_probe_terminated =
        if req.terminated_by_probe then s.total_probe_terminated + 1 else s.total_probe_terminated;
  }
