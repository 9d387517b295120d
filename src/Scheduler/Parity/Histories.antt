-- ===== src/Scheduler/Parity/Histories.antt =====
-- Whole histories of src/scheduler.py against the reference.
use probe_guided_inference.Base.{
  ℕ, ◌≤◌, length, ◌≡◌, refl, List, [], ◌∷◌, ok, All, All-append, After, After-bind, After-map,
  After-exists, if_ind,
}
use probe_guided_inference.Backend.{Backend}
use probe_guided_inference.Model.{IsRowWise}
use probe_guided_inference.Queue.{submit, make_request}
use probe_guided_inference.Scheduler.State.{Config}
use probe_guided_inference.Scheduler.Loop.{
  Process, Event, submits, rounds, stops, closes, step, run, tick,
}
use probe_guided_inference.Scheduler.Rule.{tick_ind}
use probe_guided_inference.Scheduler.History.{
  IsConserved, issued, issued_once, submitted-IsConserved,
}
use probe_guided_inference.Scheduler.Parity.{IsExact, IsFaithful, IsAsking, Accepts, IsHooked}
use probe_guided_inference.Scheduler.Parity.Rounds.{serves}

-- A prompt that is submitted has a token, and the hook is not removed.
abbrev pub IsServed : Event → Type 0
IsServed (submits s) = 1 ≤ length s.prompt_ids
IsServed rounds = Unit
IsServed stops = Unit
IsServed closes = ⊥

module _ {b : Backend} (w : IsRowWise b) (config : Config b) where
  pub record IsServing (p : Process b) : Type 0 where
    pub same_config : p.batcher.config ≡ config
    pub conserved : IsConserved p
    pub waiting : All IsAsking p.batcher.queue.pending
    pub active : All (IsFaithful w p.batcher.cache) p.batcher.active
    pub finished : All (λ r. IsExact w r.prompt_ids r.generated_ids) p.batcher.finished
    pub hooked : IsHooked p.batcher.gate p.batcher.capture

  tick-IsServing :
      (p : Process b) (now : ℕ)
      → Accepts config.gate
      → IsServing p
      → After ⊥ (tick now p.batcher) (λ s. IsServing (record p { batcher = s }))
  tick-IsServing p now accepts k =
      After-map ⊥ (tick now p.batcher)
        (tick_ind (serves w now config (issued p.next_id) (issued_once p.next_id) accepts) p.batcher
          (record {
            conserved = record { same_config = k.same_config; places = k.conserved.places };
            waiting = k.waiting;
            active = k.active;
            finished = k.finished;
            hooked = k.hooked;
          }))
        (λ s e. record {
          same_config = e.conserved.same_config;
          conserved = record { started = k.conserved.started; places = e.conserved.places };
          waiting = e.waiting;
          active = e.active;
          finished = e.finished;
          hooked = e.hooked;
        })

  pub step-IsServing :
      (p : Process b) (now : ℕ) (e : Event)
      → Accepts config.gate
      → IsServed e
      → IsServing p
      → After ⊥ (step p (now, e)) IsServing
  unfolding step submit make_request
  step-IsServing p now (submits s) accepts h k = record {
    same_config = k.same_config;
    conserved = submitted-IsConserved p now s k.conserved;
    waiting =
        All-append IsAsking p.batcher.queue.pending (make_request p.next_id now s ∷ []) k.waiting
          ((refl, h), tt);
    active = k.active;
    finished = k.finished;
    hooked = k.hooked;
  }
  step-IsServing p now rounds accepts h k =
      if_ind (λ m. After ⊥ m IsServing) p.batcher.stopped (λ _. k)
        λ _.
          After-bind ⊥ (λ s. IsServing (record p { batcher = s })) IsServing (tick now p.batcher)
            (λ s. ok (record p { batcher = s })) (tick-IsServing p now accepts k) (λ s _ kept. kept)
  step-IsServing p now stops accepts h k = record {
    same_config = k.same_config;
    conserved = record { started = k.conserved.started; places = k.conserved.places };
    waiting = k.waiting;
    active = k.active;
    finished = k.finished;
    hooked = k.hooked;
  }
  step-IsServing p now closes accepts h k = absurd h

  run-After :
      (p : Process b) (es : List (ℕ × Event))
      → Accepts config.gate
      → All (λ e. IsServed e.1) es
      → IsServing p
      → After ⊥ (run p es) IsServing
  unfolding run
  run-After p [] accepts h k = k
  run-After p ((now, e) ∷ es) accepts (h, hs) k =
      After-bind ⊥ IsServing IsServing (step p (now, e)) (λ q. run q es)
        (step-IsServing p now e accepts h k) (λ q _ j. run-After q es accepts hs j)

  -- For a model that reads a batch of the documented shape row by row, ignores masked columns
  -- and is shown the new token, in exact arithmetic, and a gate, if there is one, that
  -- classifies every hidden state: from a process that is serving, any history of rounds, stops
  -- and submissions of prompts that have a token, in which the hook is not removed, runs
  -- without an exception, and serves at its end. Serving means that every request is in one
  -- place, those that wait have no generated tokens and a prompt with a token, those that are
  -- active or finished have the tokens that greedy generation gives their prompt alone after
  -- some number of steps, whatever was batched, preempted or routed in between, the cache holds
  -- for each active request exactly the columns of that generation, and the hook is in place if
  -- there is a gate.
  pub run-IsServing :
      (p : Process b) (es : List (ℕ × Event))
      → Accepts config.gate
      → All (λ e. IsServed e.1) es
      → IsServing p
      → (q : Process b) × (run p es ≡ ok q) × IsServing q
  run-IsServing p es accepts h k = After-exists IsServing (run p es) (run-After p es accepts h k)
