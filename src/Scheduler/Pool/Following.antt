-- ===== src/Scheduler/Pool/Following.antt =====
-- The rounds of src/scheduler.py as moves of the pool.
use probe_guided_inference.Base.{
  ℕ, ◌≤◌, ◌<◌, true, ◌≡◌, refl, ap, subst, ◌∙◌, inl, inr, some, List, [], ◌∷◌, ◌++◌, arith, if_ind,
  length, length-map, After, After-map, After-pair, Option-cases, ok, or_raise, key_error, Result,
  raise, After-ok,
}
use probe_guided_inference.Backend.{Backend}
use probe_guided_inference.Queue.{GenerationRequest}
use probe_guided_inference.Queue.Order.{requeue-eq-append}
use probe_guided_inference.Runner.{Prefilled, run_prefill, run_decode_step}
use probe_guided_inference.Runner.Steps.{run_prefill_lem, run_decode_step_lem}
use probe_guided_inference.Scheduler.State.{
  Config, Batcher, probe_deprioritize, get_active, finish, complete,
}
use probe_guided_inference.Scheduler.Admit.{
  admit_one, place, preempt, reset, find_deprioritize_victim,
}
use probe_guided_inference.Scheduler.Route.{apply_routing}
use probe_guided_inference.Scheduler.Rule.{Rule, is_contended, to_finish}
use probe_guided_inference.Scheduler.Steps.{with_queue, admit_one_ind}
use probe_guided_inference.Scheduler.Places.{occurrences, pop_active_absent}
use probe_guided_inference.Scheduler.Conserve.{
  Conserved, taken_once, preempt-Conserved, Advances-SameId,
}
use probe_guided_inference.Scheduler.Counters.{Counted, counts, preempt-IsCounted}
use probe_guided_inference.Scheduler.Flags.{OneEach, Ticked, Ticked_lem}
use probe_guided_inference.Scheduler.Each.{All-get_active, victim_ind}
use probe_guided_inference.Scheduler.Preemptions.{HeadIsNormal, contended_head}
use probe_guided_inference.Scheduler.Pool.{
  Pool, Reach, IsLow, Reach-IsLow, job, jobs, ids, pool_at, admits, passes, preempts, finishes,
  after,
}
use probe_guided_inference.Scheduler.Pool.Jobs.{
  IsPlaced, All-IsPlaced, jobs-append, put_active_absent, jobs-pop_active, demoted-Reach,
}
use probe_guided_inference.Scheduler.Pool.Changes.{
  ids-append, low_requests, Ticked-IsDemoted, prefilled_job, same_pool,
}

-- `start` is the pool from which the moves are counted.
module _ {b : Backend} (now : ℕ) (config : Config b) (total : ℕ → ℕ) (once : (k : ℕ) → total k ≤ 1)
    (next_id : ℕ) (start : Pool) (low : IsLow start) where
  abbrev pub Reached : Batcher b → Type 0
  Reached s = Reach config.strategy config.max_batch_size start (pool_at next_id s)

  pub record Follows (s : Batcher b) : Type 0 where
    pub counted : Counted now config total once s
    pub reached : Reached s

  finished_ids :
      (s : Batcher b) (r : GenerationRequest b) (k : ℕ)
      → r.request_id ≡ k
      → ids (s.finished ++ complete now r ∷ []) ≡ ids s.finished ++ k ∷ []
  unfolding complete
  finished_ids s r k e =
      ids-append s.finished (complete now r ∷ []) ∙ ap (λ j. ids s.finished ++ j ∷ []) e

  place-Reached :
      (s : Batcher b) (req : GenerationRequest b) (rest : List (GenerationRequest b))
      (p : Prefilled b)
      → s.queue.pending ≡ req ∷ rest
      → Counted now config total once s
      → length s.active < s.max_batch_size
      → job p.req ≡ job req
      → Reached s
      → Reached (place now (with_queue rest s) p)
  unfolding place finish
  place-Reached s req rest p e c room kept reached =
      let same : p.req.request_id ≡ req.request_id = ap (λ (j : ℕ × ℕ). j.0) kept in
      let once_held = (taken_once now config total once s req rest e c.conserved 0).1 in
      let absent : occurrences p.req.request_id s.active ≡ 0 = rw same once_held in
      let size : s.max_batch_size ≡ config.max_batch_size =
        ap (λ (c : Config b). c.max_batch_size) c.conserved.same_config in
      let fits : length (jobs s.active) < config.max_batch_size =
        omega (arith, length-map job s.active, size) in
      let queue : jobs s.queue.pending ≡ job req ∷ jobs rest = ap (λ l. jobs l) e in
      if_ind Reached p.finished
        (λ done. after reached (
          passes (job req) (jobs rest) queue fits (
            same_pool next_id refl
              (ap (λ l. jobs l) (pop_active_absent p.req.request_id s.active absent))
              (finished_ids s p.req req.request_id same))))
        (λ running. after reached (
          admits (job req) (jobs rest) queue fits (
            same_pool next_id refl
              (ap (λ l. jobs l) (put_active_absent p.req s.active absent)
                ∙ jobs-append s.active (p.req ∷ [])
                ∙ ap (λ j. jobs s.active ++ j ∷ []) kept)
              refl)))

  admit_one-Reached :
      (s : Batcher b)
      → Counted now config total once s
      → length s.active < s.max_batch_size
      → Reached s
      → After Unit (admit_one now s) Reached
  admit_one-Reached s c room reached =
      admit_one_ind now Unit Reached s (λ _. tt)
        λ req rest e.
          After-map Unit (run_prefill s.limits s.cache s.capture req)
            (run_prefill_lem s.limits s.cache s.capture req)
            (λ p prefilled.
              place-Reached s req rest p e c room (prefilled_job s.limits req p prefilled) reached)

  one_each : (s : Batcher b) → Conserved now config total once s → OneEach s.active
  one_each s c k = omega (arith, c.places k, once k)

  head_job :
      (pending : List (GenerationRequest b))
      → HeadIsNormal pending
      → (k : ℕ) × (rest : List (ℕ × ℕ)) × (jobs pending ≡ (k, 0) ∷ rest)
  head_job [] h = absurd h
  head_job (r ∷ rs) h = (r.request_id, jobs rs, ap (λ p. (r.request_id, p) ∷ jobs rs) h)

  preempt-Reached :
      (s : Batcher b) (victim : GenerationRequest b)
      → Counted now config total once s
      → config.strategy ≡ probe_deprioritize
      → is_contended s ≡ true
      → find_deprioritize_victim s.active ≡ some victim
      → Reached s
      → Reached (preempt victim s)
  unfolding preempt
  preempt-Reached s victim c strategy contended found reached =
      let size : s.max_batch_size ≡ config.max_batch_size =
        ap (λ (c : Config b). c.max_batch_size) c.conserved.same_config in
      let full : s.max_batch_size ≤ length s.active = ground (arith, contended) in
      let (k, rest, head) = head_job s.queue.pending (contended_head s contended) in
      let (placed, one) =
        victim_ind (IsPlaced s.active) s.active victim (All-IsPlaced s.active) found in
      let (xs, ys, split, left) = jobs-pop_active s.active victim (one_each s c.conserved) placed in
      let demoted : job victim ≡ (victim.request_id, 1) = ap (λ p. (victim.request_id, p)) one in
      let waiting =
        requeue-eq-append (reset victim) s.queue (λ zero. omega (arith, one, zero))
          (low_requests s.queue.pending (Reach-IsLow reached low).0) in
      after reached (
        preempts k rest xs victim.request_id ys strategy head
          (omega (arith, length-map job s.active, size, full))
          (split ∙ ap (λ j. xs ++ j ∷ ys) demoted)
          (same_pool next_id
            (ap (λ l. jobs l) waiting
              ∙ jobs-append s.queue.pending (reset victim ∷ [])
              ∙ ap (λ j. jobs s.queue.pending ++ j ∷ []) demoted)
            left refl))

  finish-Reached :
      (rid : ℕ) (s : Batcher b) (req : GenerationRequest b)
      → Counted now config total once s
      → get_active rid s.active ≡ some req
      → Reached s
      → Reached (finish now req s)
  unfolding finish
  finish-Reached rid s req c found reached =
      let placed = All-get_active (IsPlaced s.active) rid s.active (All-IsPlaced s.active) found in
      let (xs, ys, split, left) = jobs-pop_active s.active req (one_each s c.conserved) placed in
      after reached (
        finishes xs (job req) ys split
          (same_pool next_id refl left (finished_ids s req req.request_id refl)))

  pub follows : Rule now config Unit Follows (λ _. Follows)
  unfolding preempt
  follows = record {
    same_config = λ s f. f.counted.conserved.same_config;
    admits = λ s f room.
        pair (admit_one now s) (counted_rule.admits s f.counted room)
          (admit_one-Reached s f.counted (ground (arith, room)) f.reached);
    swaps = λ s victim f strategy contended found.
        let (counted, freed) =
          preempt-IsCounted now config total once s victim f.counted.counted found in
        let c : Counted now config total once (preempt victim s) = record {
          conserved = preempt-Conserved now config total once s victim f.counted.conserved found;
          counted = counted;
        } in
        pair (admit_one now (preempt victim s))
          (counted_rule.swaps s victim f.counted strategy contended found)
          (admit_one-Reached (preempt victim s) c freed
            (preempt-Reached s victim f.counted strategy contended found f.reached));
    decodes = λ s f some_active.
        let steps = run_decode_step s.limits s.gate now s.active s.cache s.capture in
        After-map Unit steps
          (After-pair Unit _ _ steps (counted_rule.decodes s f.counted some_active)
            (run_decode_step_lem s.limits s.gate now s.active s.cache s.capture))
          (λ d known.
            let out = (apply_routing s.config d.active_reqs).0 in
            let same_ids =
              Advances-SameId s.limits s.gate now s.active d.active_reqs d.finished_ids known.1 in
            let ticked =
              Ticked_lem s.limits s.config now s.active d.active_reqs d.finished_ids
                (one_each s f.counted.conserved) same_ids known.1 in
            record {
              counted = known.0;
              reached =
                  demoted-Reach config.strategy config.max_batch_size start (pool_at next_id s) []
                    s.active out
                    (Ticked-IsDemoted now config (to_finish s d) s.active out (
                      subst (λ (k : Config b). Ticked k.limits k now (to_finish s d) s.active out)
                        f.counted.conserved.same_config ticked))
                    f.reached;
            });
    finishes = λ rid rids s f. elim (Option-cases (get_active rid s.active)) [
      | inl absent ↦ rw absent tt
      | inr (req, found) ↦
          let c =
            After-ok Unit _ (or_raise key_error (get_active rid s.active))
              (counted_rule.finishes rid rids s f.counted) (ap (or_raise key_error) found) in
          rw found
            (record { counted = c; reached = finish-Reached rid s req f.counted found f.reached })
    ];
    settles = λ s f. f;
  }
    where
      counted_rule :
          Rule now config Unit (Counted now config total once) (λ _. Counted now config total once)
      counted_rule = counts now config total once

      pair :
          (m : Result (Batcher b))
          → After Unit m (Counted now config total once)
          → After Unit m Reached
          → After Unit m Follows
      pair (ok s) c r = record { counted = c; reached = r }
      pair (raise e) c r = tt
