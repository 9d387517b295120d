-- ===== src/Scheduler/Admission.antt =====
-- The loops of `_try_admit` in src/scheduler.py: in which states they end.
use probe_guided_inference.Base.{
  ℕ, zero, suc, ◌+◌, ◌≤◌, false, ◌≡◌, ◌≢◌, ◌⊎◌, inl, inr, refl, ap, sym, ◌∙◌, none, List, ◌∷◌,
  arith, ok, After, After-bind, After-map, After-ok, After-unit, Bool-cases, Option-cases, if_ind,
  length, subst,
}
use probe_guided_inference.Backend.{Backend}
use probe_guided_inference.Queue.{GenerationRequest, len}
use probe_guided_inference.Runner.{Prefilled, run_prefill}
use probe_guided_inference.Scheduler.State.{
  Config, Batcher, RoutingStrategy, baseline, probe_terminate, probe_deprioritize, finish,
}
use probe_guided_inference.Scheduler.Admit.{
  admit_one, place, preempt, admit_while_room, preempt_while_full, try_admit,
  find_deprioritize_victim,
}
use probe_guided_inference.Scheduler.Rule.{has_room, is_contended}
use probe_guided_inference.Scheduler.Steps.{with_queue, admit_one_ind}

module _ {b : Backend} where
  pub record IsAdmitted (s t : Batcher b) : Type 0 where
    pub shorter : len t.queue + 1 ≡ len s.queue
    pub same_config : t.config ≡ s.config
    pub same_preemptions : t.total_preemptions ≡ s.total_preemptions

  place-IsAdmitted :
      (now : ℕ) (s : Batcher b) (req : GenerationRequest b) (rest : List (GenerationRequest b))
      (p : Prefilled b)
      → s.queue.pending ≡ req ∷ rest
      → IsAdmitted s (place now (with_queue rest s) p)
  unfolding place finish
  place-IsAdmitted now s req rest p e =
      let one_less : length rest + 1 ≡ length s.queue.pending =
        omega (arith, ap (λ (l : List (GenerationRequest b)). length l) e) in
      if_ind (IsAdmitted s) p.finished
        (λ _. record { shorter = one_less; same_config = refl; same_preemptions = refl })
        (λ _. record { shorter = one_less; same_config = refl; same_preemptions = refl })

  admit_one-IsAdmitted : (now : ℕ) (s : Batcher b) → After Unit (admit_one now s) (IsAdmitted s)
  admit_one-IsAdmitted now s =
      admit_one_ind now Unit (IsAdmitted s) s (λ _. tt)
        λ req rest e.
          After-map Unit (run_prefill s.limits s.cache s.capture req)
            (After-unit (run_prefill s.limits s.cache s.capture req))
            (λ p _. place-IsAdmitted now s req rest p e)

  -- With as much fuel as there are requests in the queue, the first loop ends by its own test.
  abbrev pub IsFilled : Config b → ℕ → Batcher b → Type 0
  IsFilled config preemptions t =
      (has_room t ≡ false) × (t.config ≡ config) × (t.total_preemptions ≡ preemptions)

  pub admit_while_room-IsFilled :
      (fuel now : ℕ) (s : Batcher b)
      → len s.queue ≤ fuel
      → After Unit (admit_while_room fuel now s) (IsFilled s.config s.total_preemptions)
  unfolding admit_while_room
  admit_while_room-IsFilled zero now s enough = (ground arith, refl, refl)
  admit_while_room-IsFilled (suc fuel) now s enough = elim (Bool-cases (has_room s)) [
    | inl room ↦ rw room (
        After-bind Unit (IsAdmitted s) (IsFilled s.config s.total_preemptions) (admit_one now s)
          (admit_while_room fuel now) (admit_one-IsAdmitted now s)
          (λ t _ a.
            After-map Unit (admit_while_room fuel now t)
              (admit_while_room-IsFilled fuel now t (omega (arith, a.shorter)))
              (λ u (full, same, preempted).
                (full, same ∙ a.same_config, preempted ∙ a.same_preemptions))))
    | inr full ↦ rw full (full, refl, refl)
  ]

  -- The ways in which the second loop ends.
  abbrev pub IsCalm : ℕ → Batcher b → Type 0
  IsCalm most t =
      (is_contended t ≡ false)
      ⊎ (find_deprioritize_victim t.active ≡ none)
      ⊎ (t.total_preemptions ≡ most)

  preempt_while_full-IsCalm :
      (attempts now : ℕ) (s : Batcher b)
      → After Unit (preempt_while_full attempts now s) (IsCalm (s.total_preemptions + attempts))
  unfolding preempt_while_full preempt
  preempt_while_full-IsCalm zero now s = inr (inr (omega arith))
  preempt_while_full-IsCalm (suc attempts) now s = elim (Bool-cases (is_contended s)) [
    | inr calm ↦ rw calm (inl calm)
    | inl contended ↦ rw contended (elim (Option-cases (find_deprioritize_victim s.active)) [
      | inl absent ↦ rw absent (inr (inl absent))
      | inr (victim, found) ↦ rw found (
          After-bind Unit (IsAdmitted (preempt victim s))
            (IsCalm (s.total_preemptions + suc attempts)) (admit_one now (preempt victim s))
            (preempt_while_full attempts now) (admit_one-IsAdmitted now (preempt victim s))
            (λ t _ a.
              let more : t.total_preemptions + attempts ≡ s.total_preemptions + suc attempts =
                omega (arith, a.same_preemptions) in
              subst (λ n. After Unit (preempt_while_full attempts now t) (IsCalm n)) more
                (preempt_while_full-IsCalm attempts now t)))
    ])
  ]

  abbrev pub IsTried : Batcher b → Batcher b → Type 0
  IsTried s t =
      (s.strategy ≢ probe_deprioritize → has_room t ≡ false)
      × (s.strategy ≡ probe_deprioritize → IsCalm (s.total_preemptions + s.max_batch_size) t)

  strategy_cases :
      (now : ℕ) (s u : Batcher b) (strategy : RoutingStrategy)
      → u.strategy ≡ strategy
      → IsFilled s.config s.total_preemptions u
      → After Unit
          (elim strategy [
            | probe_deprioritize ↦ preempt_while_full u.max_batch_size now u
            | _ ↦ ok u
          ])
          (IsTried s)
  strategy_cases now s u baseline e (full, same, preempted) =
      (λ other. full, λ is. let k = ap (λ (c : Config b). c.strategy) same in absurd cc)
  strategy_cases now s u probe_terminate e (full, same, preempted) =
      (λ other. full, λ is. let k = ap (λ (c : Config b). c.strategy) same in absurd cc)
  strategy_cases now s u probe_deprioritize e (full, same, preempted) =
      After-map Unit (preempt_while_full u.max_batch_size now u)
        (preempt_while_full-IsCalm u.max_batch_size now u)
        (λ t calm. (
          λ other. absurd (other (ap (λ (c : Config b). c.strategy) (sym same) ∙ e)),
          λ is.
              let size : u.max_batch_size ≡ s.max_batch_size =
                ap (λ (c : Config b). c.max_batch_size) same in
              subst (λ n. IsCalm n t) (omega arith) calm,
        ))

  -- An admission that raises no exception ends by the code's own tests and not for want of
  -- fuel: under the strategies that do not preempt no slot of the batch is free while a request
  -- waits; under probe_deprioritize the batch is not full, or the queue is empty or has no
  -- request of priority 0 at its head, or no active request has priority 1, or exactly
  -- max_batch_size requests have been preempted.
  pub try_admit-IsTried : (now : ℕ) (s t : Batcher b) → try_admit now s ≡ ok t → IsTried s t
  unfolding try_admit
  try_admit-IsTried now s t e =
      After-ok Unit (IsTried s) (try_admit now s)
        (After-bind Unit (IsFilled s.config s.total_preemptions) (IsTried s)
          (admit_while_room (len s.queue) now s) _
          (admit_while_room-IsFilled (len s.queue) now s (omega arith))
          (λ u _ filled. strategy_cases now s u u.strategy refl filled))
        e
