-- ===== src/Scheduler/Requests.antt =====
-- What holds of each request alone, over whole histories.
use probe_guided_inference.Base.{
  ℕ, ◌≡◌, List, [], ◌∷◌, ok, All, All-append, After-map, After-ok, After-bind, if_ind, After,
}
use probe_guided_inference.Backend.{Backend}
use probe_guided_inference.Queue.{GenerationRequest, Submission, submit, make_request}
use probe_guided_inference.Scheduler.State.{Config}
use probe_guided_inference.Scheduler.Loop.{Process, Event, rounds, step, run, tick}
use probe_guided_inference.Scheduler.Rule.{tick_ind}
use probe_guided_inference.Scheduler.History.{
  EventRule, IsConserved, issued, issued_once, run_ind, submitted-IsConserved,
}
use probe_guided_inference.Scheduler.Local.{LocalRule}
use probe_guided_inference.Scheduler.Local.Finishing.{locally}

-- `W` is to hold of the requests that wait, `A` of the active, and `F` of the finished ones, from
-- the submission on.
pub record Lifecycle {b : Backend} (config : Config b) (W A F : GenerationRequest b → Type 0)
    : Type 0 where
  pub fresh : (id now : ℕ) (s : Submission) → W (make_request id now s)
  pub rounds_keep : (now : ℕ) → LocalRule now config W A F

pub record IsKept {b : Backend} (config : Config b) (W A F : GenerationRequest b → Type 0)
    (p : Process b) : Type 0 where
  pub same_config : p.batcher.config ≡ config
  pub conserved : IsConserved p
  pub waiting : All W p.batcher.queue.pending
  pub active : All A p.batcher.active
  pub finished : All F p.batcher.finished

module _ {b : Backend} {config : Config b} {W A F : GenerationRequest b → Type 0} where
  tick-IsKept :
      (now : ℕ)
      → LocalRule now config W A F
      → (p : Process b) → IsKept config W A F p
      → After Unit (tick now p.batcher) (λ s. IsKept config W A F (record p { batcher = s }))
  tick-IsKept now rule p k =
      After-map Unit (tick now p.batcher)
        (tick_ind (locally now config (issued p.next_id) (issued_once p.next_id) rule) p.batcher
          (record {
            conserved = record { same_config = k.same_config; places = k.conserved.places };
            waiting = k.waiting;
            active = k.active;
            finished = k.finished;
          }))
        (λ s e. record {
          same_config = e.conserved.same_config;
          conserved = record { started = k.conserved.started; places = e.conserved.places };
          waiting = e.waiting;
          active = e.active;
          finished = e.finished;
        })

  -- One round of the loop, stopped or not.
  pub round-IsKept :
      (now : ℕ)
      → LocalRule now config W A F
      → (p q : Process b) → IsKept config W A F p
      → step p (now, rounds) ≡ ok q
      → IsKept config W A F q
  unfolding step
  round-IsKept now rule p q k e =
      After-ok Unit (IsKept config W A F) (step p (now, rounds))
        (if_ind (λ m. After Unit m (IsKept config W A F)) p.batcher.stopped (λ _. k)
          λ _.
            After-bind Unit (λ s. IsKept config W A F (record p { batcher = s }))
              (IsKept config W A F) (tick now p.batcher) (λ s. ok (record p { batcher = s }))
              (tick-IsKept now rule p k) (λ s _ kept. kept))
        e

module _ {b : Backend} {config : Config b} {W A F : GenerationRequest b → Type 0}
    (life : Lifecycle config W A F) where
  Lifecycle-EventRule : EventRule Unit (IsKept config W A F)
  unfolding step submit
  Lifecycle-EventRule = record {
    submitted = λ p now s k. record {
      same_config = k.same_config;
      conserved = submitted-IsConserved p now s k.conserved;
      waiting =
          All-append W p.batcher.queue.pending (make_request p.next_id now s ∷ []) k.waiting
            (life.fresh p.next_id now s, tt);
      active = k.active;
      finished = k.finished;
    };
    ticked = λ p now k. tick-IsKept now (life.rounds_keep now) p k;
    stopped = λ p k. record {
      same_config = k.same_config;
      conserved = record { started = k.conserved.started; places = k.conserved.places };
      waiting = k.waiting;
      active = k.active;
      finished = k.finished;
    };
    closed = λ p k. record {
      same_config = k.same_config;
      conserved = record { started = k.conserved.started; places = k.conserved.places };
      waiting = k.waiting;
      active = k.active;
      finished = k.finished;
    };
  }

  -- What a life cycle says of each request holds after each history.
  pub run-IsKept :
      (p q : Process b) (es : List (ℕ × Event))
      → IsKept config W A F p
      → run p es ≡ ok q
      → IsKept config W A F q
  run-IsKept p q es k e =
      After-ok Unit (IsKept config W A F) (run p es) (run_ind Lifecycle-EventRule p es k) e
