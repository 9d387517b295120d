-- ===== src/Server/Startup.antt =====
-- `startup` of src/server.py: the gate, the queue and the batcher. The settings, the file of the probe
-- and the number of layers of the model are arguments.
use probe_guided_inference.Base.{
  ℕ, true, false, ap, sym, subst, ◌≡◌, refl, Option, none, some, [], arith, Result, ok, ◌>>=◌,
  After, After-bind, After-unit, After-ok, if_ind, ltb,
}
use probe_guided_inference.Backend.{Backend}
use probe_guided_inference.Model.{IsRowWise}
use probe_guided_inference.Probe.{
  ProbeArtifact, LayerActivationCapture, load_probe, make_capture, resolve_layer,
}
use probe_guided_inference.Gate.{ClassificationGate, make_gate}
use probe_guided_inference.Runner.{Limits}
use probe_guided_inference.Scheduler.State.{
  RoutingStrategy, baseline, probe_terminate, probe_deprioritize, Config, Batcher, make_batcher,
}
use probe_guided_inference.Scheduler.Loop.{Process}
use probe_guided_inference.Scheduler.History.{IsSound}
use probe_guided_inference.Scheduler.Parity.{IsHooked}
use probe_guided_inference.Scheduler.Parity.Histories.{IsServing}

pub record Settings (b : Backend) : Type 0 where
  pub strategy : RoutingStrategy
  pub probe_layer : ℕ
  pub checkpoint_position : ℕ
  pub max_batch_size : ℕ
  pub limits : Limits
  pub terminate_confidence_threshold : b.Score

make_capture-attached :
    (b : Backend) (layers : Option ℕ) (layer : ℕ)
    → After Unit (make_capture b layers layer) (λ c. c.attached ≡ true)
unfolding make_capture resolve_layer
make_capture-attached b none layer = tt
make_capture-attached b (some n) layer =
    if_ind
      (λ m.
        After Unit
          (m >>= λ target. ok (record { layer_idx = target; last = none; attached = true }))
          (λ (c : LayerActivationCapture b). c.attached ≡ true))
      (ltb layer n) (λ _. refl) (λ _. tt)

module _ {b : Backend} where
  -- The baseline has no gate.
  unfoldable pub gate_for :
      Settings b → Option (ProbeArtifact b) → Result (Option (ClassificationGate b))
  gate_for settings file = elim settings.strategy [
    | baseline ↦ ok none
    | _ ↦ load_probe file settings.probe_layer settings.checkpoint_position >>= λ probe.
        ok (some (make_gate probe))
  ]

  abbrev pub config_of : Settings b → Option (ClassificationGate b) → Config b
  config_of settings gate = record {
    strategy = settings.strategy;
    gate = gate;
    max_batch_size = settings.max_batch_size;
    limits = settings.limits;
    terminate_confidence_threshold = settings.terminate_confidence_threshold;
  }

  unfoldable pub startup : Settings b → Option (ProbeArtifact b) → Option ℕ → Result (Process b)
  unfolding gate_for
  startup settings file layers = do
    gate ← gate_for settings file
    batcher ← make_batcher layers (record { pending = [] }) (config_of settings gate)
    ok (record { batcher = batcher; next_id = 1 })

  -- A batcher that has not run.
  pub record IsFresh (config : Config b) (s : Batcher b) : Type 0 where
    pub configured : s.config ≡ config
    pub going : s.stopped ≡ false
    pub no_pending : s.queue.pending ≡ []
    pub no_active : s.active ≡ []
    pub no_finished : s.finished ≡ []
    pub no_admitted : s.total_admitted ≡ 0
    pub no_total_finished : s.total_finished ≡ 0
    pub no_terminated : s.total_probe_terminated ≡ 0
    pub no_preemptions : s.total_preemptions ≡ 0
    pub hooked : IsHooked s.gate s.capture

  make_batcher-IsFresh :
      (layers : Option ℕ) (config : Config b)
      → After Unit (make_batcher layers (record { pending = [] }) config) (IsFresh config)
  unfolding make_batcher
  make_batcher-IsFresh layers config = cases config.gate config.strategy
    where
      fresh :
          {c : Config b} {s : Batcher b}
          → s.config ≡ c
          → s.stopped ≡ false
          → s.queue.pending ≡ []
          → s.active ≡ []
          → s.finished ≡ []
          → IsHooked s.gate s.capture
          → (s.total_admitted ≡ 0)
            × (s.total_finished ≡ 0)
            × (s.total_probe_terminated ≡ 0)
            × (s.total_preemptions ≡ 0)
          → IsFresh c s
      fresh c g p a f h (n, m, k, l) = record {
        configured = c;
        going = g;
        no_pending = p;
        no_active = a;
        no_finished = f;
        no_admitted = n;
        no_total_finished = m;
        no_terminated = k;
        no_preemptions = l;
        hooked = h;
      }

      cases :
          (gate : Option (ClassificationGate b)) (strategy : RoutingStrategy)
          → After Unit
              (make_batcher layers
                (record { pending = [] })
                (record config { gate = gate; strategy = strategy }))
              (IsFresh (record config { gate = gate; strategy = strategy }))
      cases none baseline = fresh refl refl refl refl refl (λ g e. cc) (refl, refl, refl, refl)
      cases none probe_terminate = tt
      cases none probe_deprioritize = tt
      cases (some g) strategy =
          After-bind Unit (λ (c : LayerActivationCapture b). c.attached ≡ true)
            (IsFresh (record config { gate = some g; strategy = strategy }))
            (make_capture b layers g.probe.trained_layer) _
            (make_capture-attached b layers g.probe.trained_layer)
            (λ c _ on.
              fresh refl refl refl refl refl (λ h e. (c, refl, on)) (refl, refl, refl, refl))

  -- What every history can start from.
  abbrev pub IsReady : Process b → Type 0
  IsReady p = IsSound p × ((w : IsRowWise b) → IsServing w p.batcher.config p)

  pub fresh-IsSound :
      (config : Config b) (s : Batcher b)
      → IsFresh config s
      → IsSound (record { batcher = s; next_id = 1 })
  fresh-IsSound config s f = record {
    conserved = record {
      started = omega arith;
      places = λ k. rw (f.no_pending, f.no_active, f.no_finished) (ground arith);
    };
    counted = record {
      capacity = rw f.no_active (omega arith);
      finished_count = rw (f.no_finished, f.no_total_finished) refl;
      terminated_count = rw (f.no_finished, f.no_terminated) refl;
      admitted_count = rw (f.no_active, f.no_admitted, f.no_total_finished, f.no_preemptions) refl;
    };
  }

  pub fresh-IsServing :
      (w : IsRowWise b) (config : Config b) (s : Batcher b)
      → IsFresh config s
      → IsServing w s.config (record { batcher = s; next_id = 1 })
  fresh-IsServing w config s f = record {
    same_config = refl;
    conserved = (fresh-IsSound config s f).conserved;
    waiting = rw f.no_pending tt;
    active = rw f.no_active tt;
    finished = rw f.no_finished tt;
    hooked = f.hooked;
  }

  -- What the start gives: a fresh batcher with these settings.
  pub record IsStart (settings : Settings b) (p : Process b) : Type 0 where
    pub gate : Option (ClassificationGate b)
    pub fresh : IsFresh (config_of settings gate) p.batcher
    pub first : p.next_id ≡ 1

  pub startup-IsStart :
      (settings : Settings b) (file : Option (ProbeArtifact b)) (layers : Option ℕ)
      → After Unit (startup settings file layers) (IsStart settings)
  unfolding startup
  startup-IsStart settings file layers =
      After-bind Unit (λ _. Unit) (IsStart settings) (gate_for settings file) _
        (After-unit (gate_for settings file))
        (λ gate _ _.
          After-bind Unit (IsFresh (config_of settings gate)) (IsStart settings)
            (make_batcher layers (record { pending = [] }) (config_of settings gate)) _
            (make_batcher-IsFresh layers (config_of settings gate))
            (λ s _ fresh. record { gate = gate; fresh = fresh; first = refl }))

  start-IsReady : (settings : Settings b) (p : Process b) → IsStart settings p → IsReady p
  start-IsReady settings p i =
      let config = config_of settings i.gate in
      subst IsReady (ap (λ n. record { batcher = p.batcher; next_id = n }) (sym i.first))
        (fresh-IsSound config p.batcher i.fresh, λ w. fresh-IsServing w config p.batcher i.fresh)

  -- The process that the server starts with, whatever the settings, the probe file and the
  -- model are, if the start raises no exception, is sound in the sense of run-IsSound and
  -- serving in the sense of run-IsServing for every model of which IsRowWise holds: the
  -- histories of those theorems can start from it.
  pub startup-IsReady :
      (settings : Settings b) (file : Option (ProbeArtifact b)) (layers : Option ℕ) (p : Process b)
      → startup settings file layers ≡ ok p
      → IsReady p
  startup-IsReady settings file layers p e = start-IsReady settings p (
      After-ok Unit (IsStart settings) (startup settings file layers)
        (startup-IsStart settings file layers) e)
