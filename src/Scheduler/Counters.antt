-- ===== src/Scheduler/Counters.antt =====
-- The size of the batch of src/scheduler.py, and the counters that /health shows.
use probe_guided_inference.Base.{
  ℕ, ◌+◌, ◌≤◌, ◌<◌, true, ◌≡◌, inl, inr, some, List, [], ◌∷◌, ◌++◌, arith, if_ind, Option-cases,
  After, After-map, length, length-append,
}
use probe_guided_inference.Backend.{Backend}
use probe_guided_inference.Queue.{GenerationRequest}
use probe_guided_inference.Runner.{Prefilled, run_prefill, run_decode_step}
use probe_guided_inference.Runner.Steps.{run_prefill_lem, run_decode_step_lem}
use probe_guided_inference.Scheduler.State.{Config, Batcher, get_active, finish, complete}
use probe_guided_inference.Scheduler.Admit.{admit_one, place, preempt, find_deprioritize_victim}
use probe_guided_inference.Scheduler.Route.{apply_routing}
use probe_guided_inference.Scheduler.Rule.{Rule, has_room}
use probe_guided_inference.Scheduler.Steps.{with_queue, admit_one_ind}
use probe_guided_inference.Scheduler.Places.{
  one_if, occurrences, get_active_lem, length-put_active, length-pop_active, pop_active_absent,
  length-All₂,
}
use probe_guided_inference.Scheduler.Conserve.{
  Conserved, taken_once, place-Conserved, preempt-Conserved, finish-Conserved, victim-occurs,
  Advances-SameId, apply_routing-SameId, decoded-Conserved,
}

module _ {b : Backend} where
  abbrev pub count_terminated : List (GenerationRequest b) → ℕ
  count_terminated [] = 0
  count_terminated (r ∷ rs) = one_if r.terminated_by_probe + count_terminated rs

  count_terminated-append :
      (rs ts : List (GenerationRequest b))
      → count_terminated (rs ++ ts) ≡ count_terminated rs + count_terminated ts
  count_terminated-append [] ts = omega arith
  count_terminated-append (r ∷ rs) ts = omega (arith, count_terminated-append rs ts)

  pub record IsCounted (s : Batcher b) : Type 0 where
    pub capacity : length s.active ≤ s.max_batch_size
    pub finished_count : s.total_finished ≡ length s.finished
    pub terminated_count : s.total_probe_terminated ≡ count_terminated s.finished
    pub admitted_count : s.total_admitted ≡ s.total_finished + length s.active + s.total_preemptions

module _ {b : Backend} (now : ℕ) (config : Config b) (total : ℕ → ℕ)
    (once : (k : ℕ) → total k ≤ 1) where
  pub record Counted (s : Batcher b) : Type 0 where
    pub conserved : Conserved now config total once s
    pub counted : IsCounted s

  place-IsCounted :
      (s : Batcher b) (req : GenerationRequest b) (rest : List (GenerationRequest b))
      (p : Prefilled b)
      → s.queue.pending ≡ req ∷ rest
      → Counted s
      → length s.active < s.max_batch_size
      → p.req.request_id ≡ req.request_id
      → IsCounted (place now (with_queue rest s) p)
  unfolding place finish complete
  place-IsCounted s req rest p e c room same =
      let once_held = (taken_once now config total once s req rest e c.conserved 0).1 in
      let absent : occurrences p.req.request_id s.active ≡ 0 = rw same once_held in
      if_ind IsCounted p.finished
        (λ done. ground (
          arith,
          pop_active_absent p.req.request_id s.active absent,
          length-append s.finished (complete now p.req ∷ []),
          count_terminated-append s.finished (complete now p.req ∷ []),
        ))
        (λ running. ground (arith, length-put_active p.req s.active absent))

  pub preempt-IsCounted :
      (s : Batcher b) (victim : GenerationRequest b)
      → IsCounted s
      → find_deprioritize_victim s.active ≡ some victim
      → IsCounted (preempt victim s) × (length (preempt victim s).active < s.max_batch_size)
  unfolding preempt
  preempt-IsCounted s victim c found =
      ground
        (arith, length-pop_active victim.request_id s.active (victim-occurs s.active victim found))

  finish-IsCounted :
      (rid : ℕ) (s : Batcher b) (req : GenerationRequest b)
      → IsCounted s
      → get_active rid s.active ≡ some req
      → IsCounted (finish now req s)
  unfolding finish complete
  finish-IsCounted rid s req c found = ground (
    arith,
    get_active_lem rid s.active req found,
    length-pop_active req.request_id s.active,
    length-append s.finished (complete now req ∷ []),
    count_terminated-append s.finished (complete now req ∷ []),
  )

  admit_one-Counted :
      (s : Batcher b)
      → Counted s
      → length s.active < s.max_batch_size
      → After Unit (admit_one now s) Counted
  admit_one-Counted s c room =
      admit_one_ind now Unit Counted s (λ _. tt)
        λ req rest e.
          After-map Unit (run_prefill s.limits s.cache s.capture req)
            (run_prefill_lem s.limits s.cache s.capture req)
            λ p (nid, f, g).
              let same : p.req.request_id ≡ req.request_id = ground arith in
              record {
                conserved = place-Conserved now config total once s req rest p e c.conserved same;
                counted = place-IsCounted s req rest p e c room same;
              }

  room : (s : Batcher b) → has_room s ≡ true → length s.active < s.max_batch_size
  room s h = ground arith

  pub counts : Rule now config Unit Counted (λ _. Counted)
  unfolding preempt
  counts = record {
    same_config = λ s c. c.conserved.same_config;
    admits = λ s c h. admit_one-Counted s c (room s h);
    swaps = λ s victim c strategy contended found.
        let (counted, freed) = preempt-IsCounted s victim c.counted found in
        admit_one-Counted (preempt victim s)
          (record {
            conserved = preempt-Conserved now config total once s victim c.conserved found;
            counted = counted;
          })
          freed;
    decodes = λ s c some_active.
        After-map Unit (run_decode_step s.limits s.gate now s.active s.cache s.capture)
          (run_decode_step_lem s.limits s.gate now s.active s.cache s.capture)
          λ d advances.
            let same = length-All₂ s.active d.active_reqs (
              Advances-SameId s.limits s.gate now s.active d.active_reqs d.finished_ids advances) in
            let kept =
              length-All₂ d.active_reqs (apply_routing s.config d.active_reqs).0
                (apply_routing-SameId s.config d.active_reqs) in
            record {
              conserved = decoded-Conserved now config total once s d c.conserved advances;
              counted = record {
                capacity = omega (arith, c.counted.capacity);
                finished_count = c.counted.finished_count;
                terminated_count = c.counted.terminated_count;
                admitted_count = omega (arith, c.counted.admitted_count);
              };
            };
    finishes = λ rid rids s c. elim (Option-cases (get_active rid s.active)) [
      | inl absent ↦ rw absent tt
      | inr (req, found) ↦ rw found (record {
        conserved = finish-Conserved now config total once rid s req c.conserved found;
        counted = finish-IsCounted rid s req c.counted found;
      })
    ];
    settles = λ s c. c;
  }
