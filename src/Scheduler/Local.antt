-- ===== src/Scheduler/Local.antt =====
-- A proof rule for what holds of each request alone: what to show of the three ways in which the
-- scheduler changes a request, so that it holds of all that wait, are active, or are finished.
pub mod Finishing
use probe_guided_inference.Base.{
  or_raise, key_error, ℕ, ◌≤◌, Bool, true, false, ◌≡◌, ◌≢◌, refl, ap, sym, ◌∙◌, inl, inr, Option,
  none, some, List, [], ◌∷◌, arith, ◌==◌, if_ind, Option-cases, All, All-append, After, After-map,
  length, subst,
}
use probe_guided_inference.Backend.{Backend}
use probe_guided_inference.Gate.{ClassificationGate, is_divergent}
use probe_guided_inference.Queue.{GenerationRequest}
use probe_guided_inference.Runner.{
  Limits, Prefilled, run_prefill, run_decode_step, append_token, set_reason, is_finished,
}
use probe_guided_inference.Runner.Steps.{IsPrefilled, run_prefill_lem, run_decode_step_lem}
use probe_guided_inference.Scheduler.State.{
  Config, Batcher, get_active, pop_active, finish, complete,
}
use probe_guided_inference.Scheduler.Admit.{
  admit_one, place, preempt, reset, find_deprioritize_victim,
}
use probe_guided_inference.Scheduler.Route.{route, apply_routing}
use probe_guided_inference.Scheduler.Loop.{contains}
use probe_guided_inference.Scheduler.Rule.{Rule, routed, to_finish}
use probe_guided_inference.Scheduler.Steps.{with_queue, admit_one_ind}
use probe_guided_inference.Scheduler.Places.{SameId, occurrences, get_active_lem}
use probe_guided_inference.Scheduler.Conserve.{
  Conserved, place-Conserved, preempt-Conserved, finish-Conserved, decoded-Conserved,
  Advances-SameId,
}
use probe_guided_inference.Scheduler.Flags.{
  OneEach, OneEach-tail, OneEach-head, IsTicked, Ticked, Ticked_lem, outcome, route_one,
}
use probe_guided_inference.Scheduler.Each.{
  All-put_active, All-pop_active, All-get_active, All-requeue, victim_ind,
}

-- `W` is to hold of the requests that wait, `A` of the active, and `F` of the finished ones.
pub record LocalRule {b : Backend} (now : ℕ) (config : Config b)
    (W A F : GenerationRequest b → Type 0) : Type 0 where
  pub resets : (r : GenerationRequest b) → A r → r.priority ≡ 1 → W (reset r)
  pub prefills :
      (r : GenerationRequest b) (nid : ℕ)
      → W r
      → let r' = append_token nid (length r.prompt_ids) r in
        (is_finished config.limits nid r' ≡ true
          → F (complete now (set_reason config.limits nid r')))
        × (is_finished config.limits nid r' ≡ false → A (set_reason config.limits nid r'))
  pub ticks :
      (r r' : GenerationRequest b) (finishing : Bool)
      → A r
      → IsTicked config.limits config now r r' finishing
      → (finishing ≡ true → F (complete now r')) × (finishing ≡ false → A r')

module _ {b : Backend} where
  outcome-SameId : (config : Config b) (r : GenerationRequest b) → SameId r (outcome config r).0
  outcome-SameId config r = cases config.gate
    where
      cases : (g : Option (ClassificationGate b)) → SameId r (route_one g config r).0
      cases none = refl
      cases (some g) = unfold route is_divergent in ground arith

  pub IsTicked-SameId :
      (limits : Limits) (config : Config b) (now : ℕ) (r r'' : GenerationRequest b) (fin : Bool)
      → IsTicked limits config now r r'' fin
      → SameId r r''
  IsTicked-SameId limits config now r r'' fin (r', done, (nid, s, fired, e, f), g, h) =
      ground (arith, outcome-SameId config r')

  -- What is left in the batch once a request has been taken out of it has other identifiers.
  pub All-others :
      (rid : ℕ) (rs : List (GenerationRequest b))
      → OneEach rs
      → All (λ r. r.request_id ≢ rid) (pop_active rid rs)
  unfolding pop_active
  All-others rid [] one = tt
  All-others rid (r ∷ rs) one =
      if_ind (All (λ r. r.request_id ≢ rid)) (r.request_id == rid)
        (λ here.
          others rs (ground (arith, OneEach-head r rs one, ap (λ k. occurrences k rs) (same here))))
        (λ there. (ground arith, All-others rid rs (OneEach-tail r rs one)))
    where
      same : r.request_id == rid ≡ true → r.request_id ≡ rid
      same h = ground arith

      others :
          (ts : List (GenerationRequest b))
          → occurrences rid ts ≡ 0
          → All (λ r. r.request_id ≢ rid) ts
      others [] o = tt
      others (t ∷ ts) o = (ground arith, others ts (omega arith))

-- The same, where `X` is known of the requests that are preempted.
pub record KnowingRule {b : Backend} (now : ℕ) (config : Config b)
    (X W A F : GenerationRequest b → Type 0) : Type 0 where
  pub resets : (r : GenerationRequest b) → X r → A r → r.priority ≡ 1 → W (reset r)
  pub prefills :
      (r : GenerationRequest b) (nid : ℕ)
      → W r
      → let r' = append_token nid (length r.prompt_ids) r in
        (is_finished config.limits nid r' ≡ true
          → F (complete now (set_reason config.limits nid r')))
        × (is_finished config.limits nid r' ≡ false → A (set_reason config.limits nid r'))
  pub ticks :
      (r r' : GenerationRequest b) (finishing : Bool)
      → A r
      → IsTicked config.limits config now r r' finishing
      → (finishing ≡ true → F (complete now r')) × (finishing ≡ false → A r')

abbrev pub knowing :
    {b : Backend} {now : ℕ} {config : Config b} {W A F : GenerationRequest b → Type 0}
    → LocalRule now config W A F
    → KnowingRule now config (λ _. Unit {0}) W A F
knowing rule = record {
  resets = λ r x a one. rule.resets r a one;
  prefills = rule.prefills;
  ticks = rule.ticks;
}

module _ {b : Backend} (now : ℕ) (config : Config b) (total : ℕ → ℕ) (once : (k : ℕ) → total k ≤ 1)
    {X W A F : GenerationRequest b → Type 0} (rule : KnowingRule now config X W A F) where
  pub record Everywhere (s : Batcher b) : Type 0 where
    pub conserved : Conserved now config total once s
    pub waiting : All W s.queue.pending
    pub active : All A s.active
    pub finished : All F s.finished

  place-Everywhere :
      (s : Batcher b) (req : GenerationRequest b) (rest : List (GenerationRequest b))
      (p : Prefilled b)
      → s.queue.pending ≡ req ∷ rest
      → Everywhere s
      → IsPrefilled s.limits req p
      → Everywhere (place now (with_queue rest s) p)
  unfolding place finish
  place-Everywhere s req rest p e c (nid, f, g) =
      let waits = subst (All W) e c.waiting in
      let lim : s.limits ≡ config.limits =
        ap (λ (k : Config b). k.limits) c.conserved.same_config in
      let r' = append_token nid (length req.prompt_ids) req in
      let f' : p.req ≡ set_reason config.limits nid r' =
        f ∙ ap (λ (l : Limits). set_reason l nid r') lim in
      let g' : p.finished ≡ is_finished config.limits nid r' =
        g ∙ ap (λ (l : Limits). is_finished l nid r') lim in
      let (ends, goes_on) = rule.prefills req nid waits.0 in
      if_ind (λ t. Conserved now config total once t → Everywhere t) p.finished
        (λ done kept. record {
          conserved = kept;
          waiting = waits.1;
          active = All-pop_active A p.req.request_id s.active c.active;
          finished =
              All-append F s.finished (complete now p.req ∷ []) c.finished
                (subst (λ r. F (complete now r)) (sym f') (ends (sym g' ∙ done)), tt);
        })
        (λ running kept. record {
          conserved = kept;
          waiting = waits.1;
          active =
              All-put_active A p.req s.active (subst A (sym f') (goes_on (sym g' ∙ running)))
                c.active;
          finished = c.finished;
        })
        (place-Conserved now config total once s req rest p e c.conserved (ground arith))

  pub admit_one-Everywhere :
      (s : Batcher b) → Everywhere s → After Unit (admit_one now s) Everywhere
  admit_one-Everywhere s c =
      admit_one_ind now Unit Everywhere s (λ _. tt)
        λ req rest e.
          After-map Unit (run_prefill s.limits s.cache s.capture req)
            (run_prefill_lem s.limits s.cache s.capture req)
            (λ p known. place-Everywhere s req rest p e c known)

  pub preempt-Everywhere :
      (s : Batcher b) (victim : GenerationRequest b)
      → X victim
      → Everywhere s
      → find_deprioritize_victim s.active ≡ some victim
      → Everywhere (preempt victim s)
  unfolding preempt
  preempt-Everywhere s victim x c found =
      let (a, one) = victim_ind A s.active victim c.active found in
      record {
        conserved = preempt-Conserved now config total once s victim c.conserved found;
        waiting = All-requeue W (reset victim) s.queue (rule.resets victim x a one) c.waiting;
        active = All-pop_active A victim.request_id s.active c.active;
        finished = c.finished;
      }
