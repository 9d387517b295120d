-- ===== src/Scheduler/History.antt =====
-- Whole histories of src/scheduler.py: any submissions, rounds and stops, in any order.
use probe_guided_inference.Base.{
  ℕ, ◌+◌, ◌≤◌, ◌&&◌, ◌≡◌, refl, List, [], ◌∷◌, arith, ltb, leb, if_ind, ok, After, After-bind,
  After-map, After-ok,
}
use probe_guided_inference.Backend.{Backend}
use probe_guided_inference.Queue.{Submission, submit, make_request}
use probe_guided_inference.Scheduler.Loop.{
  Process, Event, submits, rounds, stops, closes, step, run, tick, stop, close,
}
use probe_guided_inference.Scheduler.Rule.{tick_ind}
use probe_guided_inference.Scheduler.Places.{one_if, held, occurrences-append}
use probe_guided_inference.Scheduler.Counters.{IsCounted, counts}

-- What to show of the events, so that an invariant of the process holds after each history.
pub record EventRule {b : Backend} (E : Type 0) (I : Process b → Type 0) : Type 0 where
  pub submitted :
      (p : Process b) (now : ℕ) (s : Submission) → I p → After E (step p (now, submits s)) I
  pub ticked :
      (p : Process b) (now : ℕ)
      → I p
      → After E (tick now p.batcher) (λ s. I (record p { batcher = s }))
  pub stopped : (p : Process b) → I p → I (record p { batcher = stop p.batcher })
  pub closed : (p : Process b) → I p → I (record p { batcher = close p.batcher })

module _ {b : Backend} {E : Type 0} {I : Process b → Type 0} (rule : EventRule E I) where
  open rule use {submitted, ticked, stopped, closed}

  step_ind : (p : Process b) (now : ℕ) (e : Event) → I p → After E (step p (now, e)) I
  unfolding step
  step_ind p now (submits s) i = submitted p now s i
  step_ind p now rounds i =
      if_ind (λ m. After E m I) p.batcher.stopped (λ _. i)
        λ _.
          After-bind E (λ s. I (record p { batcher = s })) I (tick now p.batcher)
            (λ s. ok (record p { batcher = s })) (ticked p now i) (λ s _ kept. kept)
  step_ind p now stops i = stopped p i
  step_ind p now closes i = closed p i

  pub run_ind : (p : Process b) (es : List (ℕ × Event)) → I p → After E (run p es) I
  unfolding run
  run_ind p [] i = i
  run_ind p ((now, e) ∷ es) i =
      After-bind E I I (step p (now, e)) (λ q. run q es) (step_ind p now e i)
        (λ q _ j. run_ind q es j)

-- The identifiers that were given out are 1 up to `next_id`.
abbrev pub issued : ℕ → ℕ → ℕ
issued next_id k = one_if (leb 1 k && ltb k next_id)

pub issued_once : (next_id k : ℕ) → issued next_id k ≤ 1
issued_once next_id k = ground arith

module _ {b : Backend} where
  -- Every request that was submitted is held in one place, and there is no other.
  pub record IsConserved (p : Process b) : Type 0 where
    pub started : 1 ≤ p.next_id
    pub places : (k : ℕ) → held k p.batcher ≡ issued p.next_id k

  pub record IsSound (p : Process b) : Type 0 where
    pub conserved : IsConserved p
    pub counted : IsCounted p.batcher

  submit-places :
      (p : Process b) (now : ℕ) (s : Submission)
      → IsConserved p
      → (k : ℕ)
      → held k (record p.batcher { queue = (submit p.next_id now s p.batcher.queue).1 })
        ≡ issued (p.next_id + 1) k
  unfolding submit make_request
  submit-places p now s c k = ground (
    arith,
    c.places k,
    c.started,
    occurrences-append k p.batcher.queue.pending (make_request p.next_id now s ∷ []),
  )

  pub submitted-IsConserved :
      (p : Process b) (now : ℕ) (s : Submission)
      → IsConserved p
      → IsConserved (record {
        batcher = record p.batcher { queue = (submit p.next_id now s p.batcher.queue).1 };
        next_id = p.next_id + 1;
      })
  submitted-IsConserved p now s c = record {
    started = omega (arith, c.started);
    places = submit-places p now s c;
  }

  sound : EventRule Unit IsSound
  unfolding step submit
  sound = record {
    submitted = λ p now s i. record {
      conserved = submitted-IsConserved p now s i.conserved;
      counted = ground (arith, i.counted);
    };
    ticked = λ p now i.
        After-map Unit (tick now p.batcher)
          (tick_ind (counts now p.batcher.config (issued p.next_id) (issued_once p.next_id))
            p.batcher
            (record {
              conserved = record { same_config = refl; places = i.conserved.places };
              counted = i.counted;
            }))
          (λ s kept. record {
            conserved = record { started = i.conserved.started; places = kept.conserved.places };
            counted = kept.counted;
          });
    stopped = λ p i. record {
      conserved = record { started = i.conserved.started; places = i.conserved.places };
      counted = ground (arith, i.counted);
    };
    closed = λ p i. record {
      conserved = record { started = i.conserved.started; places = i.conserved.places };
      counted = ground (arith, i.counted);
    };
  }

  -- After any history of submissions, rounds, stops and closes that raises no exception, every
  -- request that was submitted is in the queue, in the batch or finished, in exactly one place
  -- and once, and no other is; the batch is within its size; and the counters for finished,
  -- terminated and admitted requests agree with what is held, if all of this held before.
  pub run-IsSound :
      (p q : Process b) (es : List (ℕ × Event)) → IsSound p → run p es ≡ ok q → IsSound q
  run-IsSound p q es i e = After-ok Unit IsSound (run p es) (run_ind sound p es i) e
