-- ===== src/Scheduler/Parity/Rounds.antt =====
-- A round of src/scheduler.py on requests that are faithful to the reference.
use probe_guided_inference.Base.{
  ℕ, ◌≤◌, ◌≡◌, ◌≢◌, refl, ap, sym, some, List, [], ◌∷◌, arith, length, All, All-append, subst,
  if_ind, After, After-map, After-both,
}
use probe_guided_inference.Backend.{Backend}
use probe_guided_inference.Model.{IsRowWise}
use probe_guided_inference.Queue.{GenerationRequest}
use probe_guided_inference.Runner.{Prefilled, Decoded, run_prefill, run_decode_step}
use probe_guided_inference.Runner.Steps.{Advances, run_decode_step_lem}
use probe_guided_inference.Scheduler.State.{
  Config, Batcher, finish, complete, get_active, pop_active,
}
use probe_guided_inference.Scheduler.Admit.{
  admit_one, place, preempt, reset, find_deprioritize_victim,
}
use probe_guided_inference.Scheduler.Route.{apply_routing}
use probe_guided_inference.Scheduler.Rule.{Rule, routed, to_finish}
use probe_guided_inference.Scheduler.Steps.{with_queue, admit_one_ind}
use probe_guided_inference.Scheduler.Places.{
  occurrences, get_active_lem, occurrences-pop_active, occurrences-requeue, occurrences-All₂,
}
use probe_guided_inference.Scheduler.Conserve.{
  Conserved, taken_once, place-Conserved, preempt-Conserved, finish-Conserved, decoded-Conserved,
  Advances-SameId, apply_routing-SameId,
}
use probe_guided_inference.Scheduler.Identifiers.{count}
use probe_guided_inference.Scheduler.Flags.{OneEach, Ticked-count}
use probe_guided_inference.Scheduler.Each.{
  All-put_active, All-pop_active, All-get_active, All-requeue, victim_ind,
}
use probe_guided_inference.Scheduler.Local.{All-others}
use probe_guided_inference.Scheduler.Parity.{
  IsExact, IsFaithful, IsAsking, Accepts, IsHooked, IsStarted, prefilled-Faithful,
  run_prefill_total,
}
use probe_guided_inference.Scheduler.Parity.Decoding.{Steps, decode_total}
use probe_guided_inference.Scheduler.Parity.Others.{
  absent_all, get_active-some, apply_routing-SameTokens, insert_all, evict_all, tokens_all,
}

module _ {b : Backend} (w : IsRowWise b) (now : ℕ) (config : Config b) (total : ℕ → ℕ)
    (once : (k : ℕ) → total k ≤ 1) where
  pub record Serving (s : Batcher b) : Type 0 where
    pub conserved : Conserved now config total once s
    pub waiting : All IsAsking s.queue.pending
    pub active : All (IsFaithful w s.cache) s.active
    pub finished : All (λ r. IsExact w r.prompt_ids r.generated_ids) s.finished
    pub hooked : IsHooked s.gate s.capture

  -- Those that are still to be finished are in the batch.
  pub record Draining (rids : List ℕ) (s : Batcher b) : Type 0 where
    pub serving : Serving s
    pub listed : (k : ℕ) → count k rids ≤ occurrences k s.active

  one_of_each : (s : Batcher b) → Conserved now config total once s → OneEach s.active
  one_of_each s c k = omega (arith, c.places k, once k)

  started-Faithful :
      (s : Batcher b) (req : GenerationRequest b) (p : Prefilled b)
      → IsAsking req
      → IsStarted w s.cache s.gate req p
      → IsFaithful w p.cache p.req
  started-Faithful s req p (fresh, some_token) i =
      rw (i.cached, i.same_id, i.same_prompt, i.first, fresh)
        (prefilled-Faithful w s.cache req.request_id req.prompt_ids some_token)

  place-Serving :
      (s : Batcher b) (req : GenerationRequest b) (rest : List (GenerationRequest b))
      (p : Prefilled b)
      → s.queue.pending ≡ req ∷ rest
      → Serving s
      → IsStarted w s.cache s.gate req p
      → Serving (place now (with_queue rest s) p)
  unfolding place finish complete
  place-Serving s req rest p e c i =
      let waits = subst (All (λ (r : GenerationRequest b). IsAsking r)) e c.waiting in
      let gone = (taken_once now config total once s req rest e c.conserved req.request_id).1 in
      let others = absent_all req.request_id s.active gone in
      let kept : All (IsFaithful w p.cache) s.active = rw i.cached (
        insert_all w s.cache req.request_id (length req.prompt_ids)
          (b.prefill req.prompt_ids).past_key_values s.active others c.active) in
      let others' = absent_all p.req.request_id s.active (rw i.same_id gone) in
      let (some_token, steps, exact, st) = started-Faithful s req p waits.0 i in
      if_ind (λ t. Conserved now config total once t → Serving t) p.finished
        (λ done conserved. record {
          conserved = conserved;
          waiting = waits.1;
          active =
              evict_all w p.cache p.req.request_id (pop_active p.req.request_id s.active)
                (All-pop_active (λ r. r.request_id ≢ p.req.request_id) p.req.request_id s.active
                  others')
                (All-pop_active (IsFaithful w p.cache) p.req.request_id s.active kept);
          finished =
              All-append (λ r. IsExact w r.prompt_ids r.generated_ids) s.finished
                (complete now p.req ∷ []) c.finished ((steps, exact), tt);
          hooked = i.hooked;
        })
        (λ running conserved. record {
          conserved = conserved;
          waiting = waits.1;
          active =
              All-put_active (IsFaithful w p.cache) p.req s.active (some_token, steps, exact, st)
                kept;
          finished = c.finished;
          hooked = i.hooked;
        })
        (place-Conserved now config total once s req rest p e c.conserved i.same_id)

  admit_one-Serving :
      (s : Batcher b) → Serving s → s.queue.pending ≢ [] → After ⊥ (admit_one now s) Serving
  admit_one-Serving s c some_waits = admit_one_ind now ⊥ Serving s some_waits λ req rest e.
      After-map ⊥ (run_prefill s.limits s.cache s.capture req)
        (run_prefill_total w s.limits s.gate s.cache s.capture req
          (subst (All (λ (r : GenerationRequest b). IsAsking r)) e c.waiting).0.1 c.hooked)
        (λ p i. place-Serving s req rest p e c i)

  preempt-Serving :
      (s : Batcher b) (victim : GenerationRequest b)
      → Serving s
      → find_deprioritize_victim s.active ≡ some victim
      → Serving (preempt victim s)
  unfolding preempt
  preempt-Serving s victim c found = record {
    conserved = preempt-Conserved now config total once s victim c.conserved found;
    waiting =
        All-requeue IsAsking (reset victim) s.queue
          (refl, (victim_ind (IsFaithful w s.cache) s.active victim c.active found).0.0) c.waiting;
    active =
        evict_all w s.cache victim.request_id (pop_active victim.request_id s.active)
          (All-others victim.request_id s.active (one_of_each s c.conserved))
          (All-pop_active (IsFaithful w s.cache) victim.request_id s.active c.active);
    finished = c.finished;
    hooked = c.hooked;
  }

  preempt_waits :
      (s : Batcher b) (victim : GenerationRequest b) → (preempt victim s).queue.pending ≢ []
  unfolding preempt
  preempt_waits s victim e = ground (
    arith,
    occurrences-requeue victim.request_id (reset victim) s.queue,
    ap (occurrences victim.request_id) e,
  )

  decoded-Draining :
      (s : Batcher b) (d : Decoded b)
      → Serving s
      → Steps w s.gate d
      → Advances s.limits s.gate now s.active d.active_reqs d.finished_ids
      → Draining (to_finish s d) (routed s d)
  decoded-Draining s d c (faithful, hooked) advances =
      let same =
        Advances-SameId s.limits s.gate now s.active d.active_reqs d.finished_ids advances in
      record {
        serving = record {
          conserved = decoded-Conserved now config total once s d c.conserved advances;
          waiting = c.waiting;
          active =
              tokens_all w d.cache d.active_reqs (apply_routing s.config d.active_reqs).0
                (apply_routing-SameTokens s.config d.active_reqs) faithful;
          finished = c.finished;
          hooked = hooked;
        };
        listed = λ k. omega (
          arith,
          Ticked-count s.limits s.config now k s.active d.active_reqs d.finished_ids same advances,
          occurrences-All₂ k s.active d.active_reqs same,
          occurrences-All₂ k d.active_reqs (apply_routing s.config d.active_reqs).0
              (apply_routing-SameId s.config d.active_reqs),
        );
      }

  finish-Draining :
      (rid : ℕ) (rids : List ℕ) (s : Batcher b) (req : GenerationRequest b)
      → Draining (rid ∷ rids) s
      → get_active rid s.active ≡ some req
      → Draining rids (finish now req s)
  unfolding finish complete
  finish-Draining rid rids s req d found =
      let c = d.serving in
      let named : req.request_id ≡ rid = (get_active_lem rid s.active req found).0 in
      let (some_token, steps, exact, st) =
        All-get_active (IsFaithful w s.cache) rid s.active c.active found in
      record {
        serving = record {
          conserved = finish-Conserved now config total once rid s req c.conserved found;
          waiting = c.waiting;
          active =
              evict_all w s.cache req.request_id (pop_active req.request_id s.active)
                (All-others req.request_id s.active (one_of_each s c.conserved))
                (All-pop_active (IsFaithful w s.cache) req.request_id s.active c.active);
          finished =
              All-append (λ r. IsExact w r.prompt_ids r.generated_ids) s.finished
                (complete now req ∷ []) c.finished ((steps, exact), tt);
          hooked = c.hooked;
        };
        listed = λ k.
            ground (arith, d.listed k, occurrences-pop_active k req.request_id s.active, named);
      }

  -- A round raises nothing and keeps all requests faithful.
  pub serves : Accepts config.gate → Rule now config ⊥ Serving Draining
  serves accepts = record {
    same_config = λ s c. c.conserved.same_config;
    admits = λ s c room.
        admit_one-Serving s c
          (λ e. ground (arith, ap (λ (l : List (GenerationRequest b)). length l) e));
    swaps = λ s victim c strategy contended found.
        admit_one-Serving (preempt victim s) (preempt-Serving s victim c found)
          (preempt_waits s victim);
    decodes = λ s c some_active.
        After-map ⊥ (run_decode_step s.limits s.gate now s.active s.cache s.capture)
          (After-both (Steps w s.gate)
            (λ d. Advances s.limits s.gate now s.active d.active_reqs d.finished_ids)
            (run_decode_step s.limits s.gate now s.active s.cache s.capture)
            (decode_total w s.limits s.gate now s.active s.cache s.capture some_active c.active
              (one_of_each s c.conserved)
              (subst (λ (k : Config b). Accepts k.gate) (sym c.conserved.same_config) accepts)
              c.hooked)
            (run_decode_step_lem s.limits s.gate now s.active s.cache s.capture))
          (λ d known. decoded-Draining s d c known.0 known.1);
    finishes = λ rid rids s d.
        let (req, found) = get_active-some rid s.active (ground (arith, d.listed rid)) in
        rw found (finish-Draining rid rids s req d found);
    settles = λ s d. d.serving;
  }
