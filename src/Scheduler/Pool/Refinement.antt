-- ===== src/Scheduler/Pool/Refinement.antt =====
-- Whole histories of src/scheduler.py as moves of the pool.
use probe_guided_inference.Base.{
  ℕ, zero, suc, sym, ◌≢◌, ◌+◌, ◌≡◌, refl, ap, ok, List, [], ◌∷◌, ◌++◌, After-map, After-ok, arith,
  ◌∙◌,
}
use probe_guided_inference.Backend.{Backend}
use probe_guided_inference.Queue.{submit, make_request}
use probe_guided_inference.Scheduler.State.{Config, RoutingStrategy, probe_deprioritize}
use probe_guided_inference.Scheduler.Loop.{Process, Event, step, run, tick}
use probe_guided_inference.Scheduler.Rule.{tick_ind}
use probe_guided_inference.Scheduler.History.{
  EventRule, IsSound, issued, issued_once, run_ind, submitted-IsConserved,
}
use probe_guided_inference.Scheduler.Pool.{
  Pool, Move, Reach, IsLow, pool_of, arrives, admits, passes, demotes, preempts, finishes, here,
  after,
}
use probe_guided_inference.Scheduler.Pool.Jobs.{jobs-append}
use probe_guided_inference.Scheduler.Pool.Changes.{same_pool}
use probe_guided_inference.Scheduler.Pool.Following.{follows}

module _ {b : Backend} (config : Config b) (start : Pool) (low : IsLow start) where
  record IsFollowing (p : Process b) : Type 0 where
    sound : IsSound p
    same_config : p.batcher.config ≡ config
    reached : Reach config.strategy config.max_batch_size start (pool_of p)

  following : EventRule Unit IsFollowing
  unfolding step submit make_request
  following = record {
    submitted = λ p now s f. record {
      sound = record {
        conserved = submitted-IsConserved p now s f.sound.conserved;
        counted = ground (arith, f.sound.counted);
      };
      same_config = f.same_config;
      reached = after f.reached (
          arrives (
            same_pool (p.next_id + 1)
              (jobs-append p.batcher.queue.pending (make_request p.next_id now s ∷ [])) refl refl));
    };
    ticked = λ p now f.
        After-map Unit (tick now p.batcher)
          (tick_ind
            (follows now config (issued p.next_id) (issued_once p.next_id) p.next_id start low)
            p.batcher
            (record {
              counted = record {
                conserved = record {
                  same_config = f.same_config;
                  places = f.sound.conserved.places;
                };
                counted = f.sound.counted;
              };
              reached = f.reached;
            }))
          (λ s kept. record {
            sound = record {
              conserved = record {
                started = f.sound.conserved.started;
                places = kept.counted.conserved.places;
              };
              counted = kept.counted.counted;
            };
            same_config = kept.counted.conserved.same_config;
            reached = kept.reached;
          });
    stopped = λ p f. record {
      sound = record {
        conserved = record {
          started = f.sound.conserved.started;
          places = f.sound.conserved.places;
        };
        counted = ground (arith, f.sound.counted);
      };
      same_config = f.same_config;
      reached = f.reached;
    };
    closed = λ p f. record {
      sound = record {
        conserved = record {
          started = f.sound.conserved.started;
          places = f.sound.conserved.places;
        };
        counted = ground (arith, f.sound.counted);
      };
      same_config = f.same_config;
      reached = f.reached;
    };
  }

module _ {b : Backend} where
  -- Any history that raises no exception, from a process that is sound in the sense of run-
  -- IsSound and whose priorities are 0 and 1, is a sequence of moves of the abstract pool: a
  -- new job comes to the end of the queue with the next identifier; the job at the head enters
  -- a batch that has room, at its end, or is finished at once; under probe_deprioritize only,
  -- an active job gets priority 1, and one of priority 1 leaves a full batch for the end of the
  -- queue if a job of priority 0 is at its head; an active job is finished. All other jobs keep
  -- their places and their order.
  pub run-Reach :
      (p q : Process b) (es : List (ℕ × Event))
      → IsSound p
      → IsLow (pool_of p)
      → run p es ≡ ok q
      → Reach p.batcher.strategy p.batcher.max_batch_size (pool_of p) (pool_of q)
  run-Reach p q es sound low e =
      let start : IsFollowing p.batcher.config (pool_of p) low p = record {
        sound = sound;
        same_config = refl;
        reached = here;
      } in
      let ended =
        After-ok Unit (IsFollowing p.batcher.config (pool_of p) low) (run p es)
          (run_ind (following p.batcher.config (pool_of p) low) p es start) e in
      ended.reached

-- New jobs, in the order of submission.
abbrev pub consecutive : ℕ → ℕ → List (ℕ × ℕ)
consecutive n zero = []
consecutive n (suc m) = (n, 0) ∷ consecutive (suc n) m

-- The jobs that wait are the last that came, in their order.
abbrev pub IsFifo : Pool → Type 0
IsFifo t = (n : ℕ) × (m : ℕ) × (n + m ≡ t.next_id) × (t.waiting ≡ consecutive n m)

consecutive-append : (n m : ℕ) → consecutive n m ++ (n + m, 0) ∷ [] ≡ consecutive n (suc m)
consecutive-append n zero = ap (λ k. (k, 0) ∷ []) (omega arith)
consecutive-append n (suc m) =
    let shift : n + suc m ≡ suc n + m = omega arith in
    ap (◌∷◌ (n, 0))
      (ap (λ k. consecutive (suc n) m ++ (k, 0) ∷ []) shift ∙ consecutive-append (suc n) m)

taken :
    (n m : ℕ) {j : ℕ × ℕ} {rest : List (ℕ × ℕ)} {next_id : ℕ}
    → n + m ≡ next_id
    → j ∷ rest ≡ consecutive n m
    → (n' : ℕ) × (m' : ℕ) × (n' + m' ≡ next_id) × (rest ≡ consecutive n' m')
taken n zero size e = absurd cc
taken n (suc m) size e = (suc n, m, omega arith, cc)

module _ {strategy : RoutingStrategy} {capacity : ℕ} (never : strategy ≢ probe_deprioritize) where
  Move-IsFifo : {t u : Pool} → Move strategy capacity t u → IsFifo t → IsFifo u
  Move-IsFifo {t} {u} (arrives e) (n, m, size, f) = rw e (
    n,
    suc m,
    omega (arith, size),
    ap (λ l. l ++ (t.next_id, 0) ∷ []) f
        ∙ ap (λ k. consecutive n m ++ (k, 0) ∷ []) (sym size)
        ∙ consecutive-append n m,
  )
  Move-IsFifo {t} {u} (admits j rest g less e) (n, m, size, f) = rw e (taken n m size (sym g ∙ f))
  Move-IsFifo {t} {u} (passes j rest g less e) (n, m, size, f) = rw e (taken n m size (sym g ∙ f))
  Move-IsFifo {t} {u} (demotes xs j ys d g e) h = absurd (never d)
  Move-IsFifo {t} {u} (preempts k rest xs j ys d g full f e) h = absurd (never d)
  Move-IsFifo {t} {u} (finishes xs j ys g e) h = rw e h

  Reach-IsFifo : {s t : Pool} → Reach strategy capacity s t → IsFifo s → IsFifo t
  Reach-IsFifo here h = h
  Reach-IsFifo (after r m) h = Move-IsFifo m (Reach-IsFifo r h)

module _ {b : Backend} where
  -- If the strategy is not probe_deprioritize, then after any history that raises no exception,
  -- from a process that is sound in the sense of run-IsSound and whose priorities are 0 and 1,
  -- the requests that wait are exactly the last that were submitted, in the order of
  -- submission, if it held before: no request is admitted before one that was submitted
  -- earlier.
  pub run-IsFifo :
      (p q : Process b) (es : List (ℕ × Event))
      → IsSound p
      → IsLow (pool_of p)
      → p.batcher.strategy ≢ probe_deprioritize
      → IsFifo (pool_of p)
      → run p es ≡ ok q
      → IsFifo (pool_of q)
  run-IsFifo p q es sound low never fifo e = Reach-IsFifo never (run-Reach p q es sound low e) fifo
