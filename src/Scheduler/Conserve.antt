-- ===== src/Scheduler/Conserve.antt =====
-- The requests in the queue, the batch and the finished ones of src/scheduler.py, counted by
-- identifier.
use probe_guided_inference.Base.{
  ℕ, ◌+◌, ◌≤◌, Bool, ◌≡◌, refl, inl, inr, Option, none, some, List, [], ◌∷◌, arith, ◌==◌,
  Bool-cases, Option-cases, All₂, ap, After, After-map, if◌then◌else◌, select, ltb,
}
use probe_guided_inference.Backend.{Backend}
use probe_guided_inference.Queue.{GenerationRequest, n_generated}
use probe_guided_inference.Gate.{ClassificationGate, is_divergent}
use probe_guided_inference.Runner.{Limits, Prefilled, Decoded, run_prefill, run_decode_step}
use probe_guided_inference.Runner.Steps.{run_prefill_lem, Advances, run_decode_step_lem}
use probe_guided_inference.Scheduler.State.{Config, Batcher, get_active, finish, complete}
use probe_guided_inference.Scheduler.Admit.{
  admit_one, place, preempt, reset, find_deprioritize_victim, least_progress,
}
use probe_guided_inference.Scheduler.Route.{route_all, apply_routing}
use probe_guided_inference.Scheduler.Rule.{Rule, routed}
use probe_guided_inference.Scheduler.Steps.{with_queue, admit_one_ind}
use probe_guided_inference.Scheduler.Places.{
  one_if, occurrences, held, SameId, occurrences-append, occurrences-put_active,
  occurrences-pop_active, get_active_lem, occurrences-requeue, occurrences-All₂,
}

module _ {b : Backend} where
  pub Advances-SameId :
      (limits : Limits) (gate : Option (ClassificationGate b)) (now : ℕ)
      (rs rs' : List (GenerationRequest b)) (ids : List ℕ)
      → Advances limits gate now rs rs' ids
      → All₂ SameId rs rs'
  Advances-SameId limits gate now [] [] ids h = tt
  Advances-SameId limits gate now [] (r' ∷ rs') ids h = absurd h
  Advances-SameId limits gate now (r ∷ rs) [] ids h = absurd h
  Advances-SameId limits gate now (r ∷ rs) (r' ∷ rs') ids
        (done, rest, (nid, r'', fired, e, f), h, g) =
      (ground arith, Advances-SameId limits gate now rs rs' rest h)

  route_all-SameId :
      (config : Config b) (rs : List (GenerationRequest b)) → All₂ SameId rs (route_all config rs).0
  unfolding route_all is_divergent
  route_all-SameId config [] = tt
  route_all-SameId config (r ∷ rs) = (ground arith, route_all-SameId config rs)

  pub apply_routing-SameId :
      (config : Config b) (rs : List (GenerationRequest b))
      → All₂ SameId rs (apply_routing config rs).0
  unfolding apply_routing
  apply_routing-SameId config rs = cases config.gate
    where
      same : (ts : List (GenerationRequest b)) → All₂ SameId ts ts
      same [] = tt
      same (t ∷ ts) = (refl, same ts)

      cases :
          (gate : Option (ClassificationGate b))
          → All₂ SameId rs
              (elim gate as (λ _. List (GenerationRequest b) × List ℕ) [
                | none ↦ (rs, [])
                | some g ↦ route_all config rs
              ]).0
      cases none = same rs
      cases (some g) = route_all-SameId config rs

  -- The victim is one of the active requests, and has priority 1.
  least_progress-occurs :
      (k : ℕ) (best : GenerationRequest b) (rs : List (GenerationRequest b))
      → (least_progress best rs).request_id ≡ k
      → 1 ≤ one_if (best.request_id == k) + occurrences k rs
  unfolding least_progress
  least_progress-occurs k best [] h = ground arith
  least_progress-occurs k best (r ∷ rs) h = ground (
    arith,
    least_progress-occurs k (if ltb (n_generated r) (n_generated best) then r else best) rs h,
  )

  occurrences-select :
      (k : ℕ) (keep : GenerationRequest b → Bool) (rs : List (GenerationRequest b))
      → occurrences k (select keep rs) ≤ occurrences k rs
  occurrences-select k keep [] = omega arith
  occurrences-select k keep (r ∷ rs) = ground (arith, occurrences-select k keep rs)

  pub victim-occurs :
      (rs : List (GenerationRequest b)) (victim : GenerationRequest b)
      → find_deprioritize_victim rs ≡ some victim
      → 1 ≤ occurrences victim.request_id rs
  unfolding find_deprioritize_victim
  victim-occurs rs victim e =
      cases (select (λ (r : GenerationRequest b). r.priority == 1) rs) refl e
    where
      cases :
          (candidates : List (GenerationRequest b))
          → select (λ (r : GenerationRequest b). r.priority == 1) rs ≡ candidates
          → elim candidates [ [] ↦ none | r ∷ rest ↦ some (least_progress r rest) ] ≡ some victim
          → 1 ≤ occurrences victim.request_id rs
      cases [] f e = cc
      cases (r ∷ rest) f e = omega (
        arith,
        least_progress-occurs victim.request_id r rest (ground arith),
        occurrences-select victim.request_id (λ (r : GenerationRequest b). r.priority == 1) rs,
        ap (occurrences victim.request_id) f,
      )

-- `total k` is the number of places for the identifier `k`, at most one.
module _ {b : Backend} (now : ℕ) (config : Config b) (total : ℕ → ℕ)
    (once : (k : ℕ) → total k ≤ 1) where
  pub record Conserved (s : Batcher b) : Type 0 where
    pub same_config : s.config ≡ config
    pub places : (k : ℕ) → held k s ≡ total k

  -- What is known when `req` is taken from the queue.
  pub taken_once :
      (s : Batcher b) (req : GenerationRequest b) (rest : List (GenerationRequest b))
      → s.queue.pending ≡ req ∷ rest
      → Conserved s
      → (k : ℕ)
      → (one_if (req.request_id == k)
            + occurrences k rest
            + occurrences k s.active
            + occurrences k s.finished
          ≡ total k)
        × (occurrences req.request_id s.active ≡ 0)
  taken_once s req rest e c k = (
    omega (arith, c.places k, ap (occurrences k) e),
    ground (arith, c.places req.request_id, once req.request_id, ap (occurrences req.request_id) e),
  )

  pub place-Conserved :
      (s : Batcher b) (req : GenerationRequest b) (rest : List (GenerationRequest b))
      (p : Prefilled b)
      → s.queue.pending ≡ req ∷ rest
      → Conserved s
      → p.req.request_id ≡ req.request_id
      → Conserved (place now (with_queue rest s) p)
  unfolding place finish complete
  place-Conserved s req rest p e c same = elim (Bool-cases p.finished) [
    | inl done ↦ rw done (record {
      same_config = c.same_config;
      places = λ k.
          let known = taken_once s req rest e c k in
          ground (
            arith,
            occurrences-pop_active k p.req.request_id s.active,
            occurrences-append k s.finished (complete now p.req ∷ []),
          );
    })
    | inr running ↦ rw running (record {
      same_config = c.same_config;
      places = λ k.
          let known = taken_once s req rest e c k in
          ground (arith, occurrences-put_active k p.req s.active);
    })
  ]

  pub preempt-Conserved :
      (s : Batcher b) (victim : GenerationRequest b)
      → Conserved s
      → find_deprioritize_victim s.active ≡ some victim
      → Conserved (preempt victim s)
  unfolding preempt
  preempt-Conserved s victim c found = record {
    same_config = c.same_config;
    places = λ k. ground (
      arith,
      c.places k,
      c.places victim.request_id,
      victim-occurs s.active victim found,
      occurrences-pop_active k victim.request_id s.active,
      occurrences-requeue k (reset victim) s.queue,
    );
  }

  pub finish-Conserved :
      (rid : ℕ) (s : Batcher b) (req : GenerationRequest b)
      → Conserved s
      → get_active rid s.active ≡ some req
      → Conserved (finish now req s)
  unfolding finish complete
  finish-Conserved rid s req c found = record {
    same_config = c.same_config;
    places = λ k. ground (
      arith,
      c.places k,
      get_active_lem rid s.active req found,
      occurrences-pop_active k req.request_id s.active,
      occurrences-append k s.finished (complete now req ∷ []),
    );
  }

  admit_one-Conserved : (s : Batcher b) → Conserved s → After Unit (admit_one now s) Conserved
  admit_one-Conserved s c =
      admit_one_ind now Unit Conserved s (λ _. tt)
        λ req rest e.
          let prefilled = run_prefill_lem s.limits s.cache s.capture req in
          After-map Unit (run_prefill s.limits s.cache s.capture req) prefilled
            (λ p (nid, f, g). place-Conserved s req rest p e c (ground arith))

  -- A decoding step and the routing after it leave every request where it is.
  pub decoded-Conserved :
      (s : Batcher b) (d : Decoded b)
      → Conserved s
      → Advances s.limits s.gate now s.active d.active_reqs d.finished_ids
      → Conserved (routed s d)
  decoded-Conserved s d c advances = record {
    same_config = c.same_config;
    places = λ k. omega (
      arith,
      c.places k,
      occurrences-All₂ k s.active d.active_reqs
          (Advances-SameId s.limits s.gate now s.active d.active_reqs d.finished_ids advances),
      occurrences-All₂ k d.active_reqs (apply_routing s.config d.active_reqs).0
          (apply_routing-SameId s.config d.active_reqs),
    );
  }

  pub conserves : Rule now config Unit Conserved (λ _. Conserved)
  conserves = record {
    same_config = λ s c. c.same_config;
    admits = λ s c room. admit_one-Conserved s c;
    swaps = λ s victim c strategy contended found.
        admit_one-Conserved (preempt victim s) (preempt-Conserved s victim c found);
    decodes = λ s c some_active.
        After-map Unit (run_decode_step s.limits s.gate now s.active s.cache s.capture)
          (run_decode_step_lem s.limits s.gate now s.active s.cache s.capture)
          (λ d. decoded-Conserved s d c);
    finishes = λ rid rids s c. elim (Option-cases (get_active rid s.active)) [
      | inl absent ↦ rw absent tt
      | inr (req, found) ↦ rw found (finish-Conserved rid s req c found)
    ];
    settles = λ s c. c;
  }
