-- ===== src/Scheduler/Preemptions.antt =====
-- How often src/scheduler.py preempts, counted against the submissions.
use probe_guided_inference.Base.{
  ℕ, zero, suc, ◌+◌, ◌≤◌, Bool, true, ◌≡◌, ◌≢◌, refl, ap, sym, ◌∙◌, some, List, [], ◌∷◌, ◌++◌,
  arith, ok, After, After-map, After-ok, After-unit, All, if_ind, length, ltb, leb, ◌&&◌, take,
  drop, take-append-drop, ◌==◌, subst, or_raise, key_error,
}
use probe_guided_inference.Backend.{Backend}
use probe_guided_inference.Queue.{GenerationRequest, submit, make_request, peek, len}
use probe_guided_inference.Queue.Order.{requeue_split}
use probe_guided_inference.Runner.{Prefilled, run_prefill, run_decode_step}
use probe_guided_inference.Scheduler.State.{Config, Batcher, finish, get_active}
use probe_guided_inference.Scheduler.Admit.{
  admit_one, place, preempt, reset, find_deprioritize_victim, normal_waits,
}
use probe_guided_inference.Scheduler.Rule.{Rule, tick_ind, is_contended}
use probe_guided_inference.Scheduler.Steps.{with_queue, admit_one_ind}
use probe_guided_inference.Scheduler.Places.{one_if}
use probe_guided_inference.Scheduler.Each.{victim_ind}
use probe_guided_inference.Scheduler.Loop.{Process, Event, step, run, tick}
use probe_guided_inference.Scheduler.History.{EventRule, run_ind}

module _ {b : Backend} where
  abbrev pub count_normal : List (GenerationRequest b) → ℕ
  count_normal [] = 0
  count_normal (r ∷ rs) = one_if (r.priority == 0) + count_normal rs

  count_normal-append :
      (rs ts : List (GenerationRequest b))
      → count_normal (rs ++ ts) ≡ count_normal rs + count_normal ts
  count_normal-append [] ts = omega arith
  count_normal-append (r ∷ rs) ts = omega (arith, count_normal-append rs ts)

  any : (rs : List (GenerationRequest b)) → All (λ r. Unit {0}) rs
  any [] = tt
  any (r ∷ rs) = (tt, any rs)

  abbrev pub HeadIsNormal : List (GenerationRequest b) → Type 0
  HeadIsNormal [] = ⊥
  HeadIsNormal (r ∷ rs) = r.priority ≡ 0

  -- A deprioritized request goes behind a normal one at the head.
  pub requeue_head :
      (r : GenerationRequest b) (n : ℕ) (pending : List (GenerationRequest b))
      → HeadIsNormal pending
      → All (λ t. t.priority ≢ 0) (drop n pending)
      → HeadIsNormal (take n pending ++ r ∷ drop n pending)
  requeue_head r n [] h d = absurd h
  requeue_head r zero (t ∷ ts) h d = absurd (d.0 h)
  requeue_head r (suc n) (t ∷ ts) h d = h

  requeue-count :
      (r : GenerationRequest b) (n : ℕ) (pending : List (GenerationRequest b))
      → r.priority ≡ 1
      → count_normal (take n pending ++ r ∷ drop n pending) ≡ count_normal pending
  requeue-count r n pending one = ground (
    arith,
    count_normal-append (take n pending) (r ∷ drop n pending),
    count_normal-append (take n pending) (drop n pending),
    ap count_normal (take-append-drop n pending),
  )

  pub contended_head : (s : Batcher b) → is_contended s ≡ true → HeadIsNormal s.queue.pending
  unfolding peek
  contended_head s h =
      cases (leb s.max_batch_size (length s.active)) (ltb 0 (len s.queue)) s.queue.pending h
    where
      cases :
          (x y : Bool) (pending : List (GenerationRequest b))
          → x && y && normal_waits (record { pending = pending }) ≡ true
          → HeadIsNormal pending
      cases x y [] e = absurd (ground arith)
      cases x y (r ∷ rs) e = ground arith

  -- What was preempted, and what may still be the reason for a preemption.
  abbrev pub spent : Batcher b → ℕ
  spent s = s.total_preemptions + count_normal s.queue.pending

module _ {b : Backend} (now : ℕ) (config : Config b) (most : ℕ) where
  pub record IsBounded (s : Batcher b) : Type 0 where
    pub same_config : s.config ≡ config
    pub bounded : spent s ≤ most

  place-IsBounded :
      (s : Batcher b) (req : GenerationRequest b) (rest : List (GenerationRequest b))
      (p : Prefilled b)
      → s.config ≡ config
      → s.total_preemptions + count_normal rest ≤ most
      → IsBounded (place now (with_queue rest s) p)
  unfolding place finish
  place-IsBounded s req rest p c h =
      if_ind IsBounded p.finished (λ _. record { same_config = c; bounded = h })
        (λ _. record { same_config = c; bounded = h })

  admit_one-IsBounded : (s : Batcher b) → IsBounded s → After Unit (admit_one now s) IsBounded
  admit_one-IsBounded s i =
      admit_one_ind now Unit IsBounded s (λ _. tt)
        λ req rest e.
          After-map Unit (run_prefill s.limits s.cache s.capture req)
            (After-unit (run_prefill s.limits s.cache s.capture req))
            (λ p _.
              place-IsBounded s req rest p i.same_config
                (ground (arith, i.bounded, ap count_normal e)))

  swap-IsBounded :
      (s : Batcher b) (victim : GenerationRequest b)
      → IsBounded s
      → HeadIsNormal s.queue.pending
      → find_deprioritize_victim s.active ≡ some victim
      → After Unit (admit_one now (preempt victim s)) IsBounded
  unfolding preempt
  swap-IsBounded s victim i head found =
      let (u, one) = victim_ind (λ r. Unit {0}) s.active victim (any s.active) found in
      let (n, e, behind, differs) = requeue_split (reset victim) s.queue (λ z. omega arith) in
      admit_one_ind now Unit IsBounded (preempt victim s) (λ _. tt)
        λ req rest f.
          let split = sym e ∙ f in
          let normal : req.priority ≡ 0 =
            subst HeadIsNormal split (requeue_head (reset victim) n s.queue.pending head behind) in
          After-map Unit (run_prefill s.limits (preempt victim s).cache s.capture req)
            (After-unit (run_prefill s.limits (preempt victim s).cache s.capture req))
            (λ p _. place-IsBounded (preempt victim s) req rest p i.same_config (
              ground (
                arith,
                i.bounded,
                requeue-count (reset victim) n s.queue.pending one,
                ap count_normal split,
              )))

  -- `finish` leaves the queue and the number of preemptions alone.
  finish-IsBounded :
      (req : GenerationRequest b) (s : Batcher b) → IsBounded s → IsBounded (finish now req s)
  unfolding finish
  finish-IsBounded req s i = record { same_config = i.same_config; bounded = i.bounded }

  bounds : Rule now config Unit IsBounded (λ _. IsBounded)
  bounds = record {
    same_config = λ s i. i.same_config;
    admits = λ s i room. admit_one-IsBounded s i;
    swaps = λ s victim i strategy contended found.
        swap-IsBounded s victim i (contended_head s contended) found;
    decodes = λ s i some_active.
        After-map Unit (run_decode_step s.limits s.gate now s.active s.cache s.capture)
          (After-unit (run_decode_step s.limits s.gate now s.active s.cache s.capture))
          (λ d _. record { same_config = i.same_config; bounded = i.bounded });
    finishes = λ rid rids s i.
        After-map Unit (or_raise key_error (get_active rid s.active))
          (After-unit (or_raise key_error (get_active rid s.active)))
          (λ req _. finish-IsBounded req s i);
    settles = λ s i. i;
  }

module _ {b : Backend} where
  -- Preemptions and normal requests that wait are together at most the submissions.
  abbrev pub IsPaid : Process b → Type 0
  IsPaid p = spent p.batcher + 1 ≤ p.next_id

  paid : EventRule Unit IsPaid
  unfolding step submit make_request
  paid = record {
    submitted = λ p now s i.
        omega
          (arith, count_normal-append p.batcher.queue.pending (make_request p.next_id now s ∷ []));
    ticked = λ p now i.
        After-map Unit (tick now p.batcher)
          (tick_ind (bounds now p.batcher.config (spent p.batcher)) p.batcher
            (record { same_config = refl; bounded = omega arith }))
          (λ s kept. omega (arith, kept.bounded));
    stopped = λ p i. i;
    closed = λ p i. i;
  }

  -- After any history that raises no exception, the preemptions that were made and the requests
  -- of priority 0 that wait are together fewer than the next request identifier, that is at
  -- most the number of submissions, if it held before: each preemption lets in a normal request
  -- that waited at the head of the queue, and a request that was preempted never counts as
  -- normal again.
  pub run-IsPaid :
      (p q : Process b) (es : List (ℕ × Event))
      → IsPaid p
      → run p es ≡ ok q
      → q.batcher.total_preemptions + count_normal q.batcher.queue.pending + 1 ≤ q.next_id
  run-IsPaid p q es i e = After-ok Unit IsPaid (run p es) (run_ind paid p es i) e
