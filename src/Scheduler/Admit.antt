-- ===== src/Scheduler/Admit.antt =====
-- src/scheduler.py, ADMIT: requests enter the batch, and deprioritized ones leave it for others.
use probe_guided_inference.Base.{
  ℕ, zero, suc, ◌+◌, Bool, false, ◌&&◌, Option, none, some, List, [], ◌∷◌, Result, ok, ◌>>=◌, ◌==◌,
  ltb, leb, length, select, if◌then◌else◌,
}
use probe_guided_inference.Backend.{Backend}
use probe_guided_inference.Queue.{
  GenerationRequest, RequestQueue, n_generated, peek, popleft, push_front_priority_aware, len,
}
use probe_guided_inference.Cache.{evict}
use probe_guided_inference.Runner.{Prefilled, run_prefill}
use probe_guided_inference.Scheduler.State.{
  probe_deprioritize, Batcher, put_active, pop_active, finish,
}

module _ {b : Backend} where
  -- What `_admit_one` does with the request once its prompt has been run.
  unfoldable pub place : ℕ → Batcher b → Prefilled b → Batcher b
  unfolding finish put_active
  place now s p =
      let admitted = record s {
        cache = p.cache;
        capture = p.capture;
        total_admitted = s.total_admitted + 1;
      } in
      if p.finished
      then finish now p.req admitted
      else record admitted { active = put_active p.req s.active }

  unfoldable pub admit_one : ℕ → Batcher b → Result (Batcher b)
  unfolding place
  admit_one now s = do
    popped ← popleft s.queue
    p ← run_prefill s.limits s.cache s.capture popped.0
    ok (place now (record s { queue = popped.1 }) p)

  -- `min(candidates, key=n_generated)`: the first of the least.
  unfoldable pub least_progress :
      GenerationRequest b → List (GenerationRequest b) → GenerationRequest b
  least_progress best [] = best
  least_progress best (r ∷ rs) =
      least_progress (if ltb (n_generated r) (n_generated best) then r else best) rs

  unfoldable pub find_deprioritize_victim :
      List (GenerationRequest b) → Option (GenerationRequest b)
  unfolding least_progress
  find_deprioritize_victim active =
      elim (select (λ (r : GenerationRequest b). r.priority == 1) active) [
        | [] ↦ none
        | r ∷ rs ↦ some (least_progress r rs)
      ]

  abbrev pub reset : GenerationRequest b → GenerationRequest b
  reset victim = record victim {
    generated_ids = [];
    position = 0;
    routing_decision = none;
    routed = false;
  }

  unfoldable pub preempt : GenerationRequest b → Batcher b → Batcher b
  unfolding pop_active
  preempt victim s = record s {
    cache = evict victim.request_id s.cache;
    active = pop_active victim.request_id s.active;
    total_preemptions = s.total_preemptions + 1;
    queue = push_front_priority_aware (reset victim) s.queue;
  }

  -- `while len(self.active) < self.max_batch_size and len(self.queue) > 0`. Each round takes a
  -- request from the queue, so its length bounds the rounds.
  unfoldable pub admit_while_room : ℕ → ℕ → Batcher b → Result (Batcher b)
  admit_while_room zero now s = ok s
  admit_while_room (suc fuel) now s =
      let rest = admit_one now s >>= admit_while_room fuel now in
      if ltb (length s.active) s.max_batch_size && ltb 0 (len s.queue) then rest else ok s

  abbrev pub normal_waits : RequestQueue b → Bool
  normal_waits q = elim (peek q) [ none ↦ false | some req ↦ req.priority == 0 ]

  -- The second loop: `attempts` counts down from `max_batch_size`.
  unfoldable pub preempt_while_full : ℕ → ℕ → Batcher b → Result (Batcher b)
  preempt_while_full zero now s = ok s
  preempt_while_full (suc attempts) now s =
      let next = λ (victim : GenerationRequest b).
        admit_one now (preempt victim s) >>= preempt_while_full attempts now in
      if leb s.max_batch_size (length s.active) && ltb 0 (len s.queue) && normal_waits s.queue
      then elim (find_deprioritize_victim s.active) [ none ↦ ok s | some victim ↦ next victim ]
      else ok s

  unfoldable pub try_admit : ℕ → Batcher b → Result (Batcher b)
  try_admit now s = do
    s' ← admit_while_room (len s.queue) now s
    elim s'.strategy [
      | probe_deprioritize ↦ preempt_while_full s'.max_batch_size now s'
      | _ ↦ ok s'
    ]
