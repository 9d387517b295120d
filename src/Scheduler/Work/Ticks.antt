-- ===== src/Scheduler/Work/Ticks.antt =====
-- A whole tick of src/scheduler.py, and the work that it takes off.
use probe_guided_inference.Base.{
  ℕ, ◌+◌, ◌-◌, ◌≤◌, false, ◌≡◌, inl, inr, refl, ap, sym, ◌∙◌, List, [], ◌∷◌, arith, length, ok,
  subst, After, After-bind, After-map, After-pair, ◌≢◌,
}
use probe_guided_inference.Backend.{Backend}
use probe_guided_inference.Queue.{GenerationRequest, len}
use probe_guided_inference.Runner.{run_decode_step}
use probe_guided_inference.Scheduler.State.{Config, Batcher}
use probe_guided_inference.Scheduler.Admit.{admit_while_room, try_admit}
use probe_guided_inference.Scheduler.Loop.{tick, decode_and_route, finish_all}
use probe_guided_inference.Scheduler.Rule.{
  has_room, admit_while_room_ind, strategy_cases, finish_all_ind, routed, to_finish,
}
use probe_guided_inference.Scheduler.Admission.{IsFilled, admit_while_room-IsFilled}
use probe_guided_inference.Scheduler.Work.{sum, waiting_work, active_work, work}
use probe_guided_inference.Scheduler.Work.Spending.{Progress, Lively, Departing, spends, cap}

module _ {b : Backend} (now : ℕ) (config : Config b) (total : ℕ → ℕ)
    (once : (k : ℕ) → total k ≤ 1) where
  abbrev Spent : Batcher b → Type 0 → Batcher b → Type 0
  Spent start X t = Lively now config total once t × Progress (cap now config total once) start X t

  -- Once the first loop has ended nothing waits for a free slot, if nothing was done.
  filled-Spent :
      (start t : Batcher b) (n : ℕ)
      → Spent start Unit t
      → IsFilled start.config n t
      → Spent start (has_room start ≡ false) t
  filled-Spent start t n (lively, inl less) filled = (lively, inl less)
  filled-Spent start t n (lively, inr (same, u)) filled =
      (lively, inr (same, ap has_room (sym same) ∙ filled.0))

  try_admit-Spent :
      (start : Batcher b)
      → Lively now config total once start
      → After Unit (try_admit now start) (Spent start (has_room start ≡ false))
  unfolding try_admit
  try_admit-Spent start lively =
      let full = has_room start ≡ false in
      After-bind Unit (Spent start full) (Spent start full)
        (admit_while_room (len start.queue) now start) _
        (After-map Unit (admit_while_room (len start.queue) now start)
          (After-pair Unit (Spent start Unit) (IsFilled start.config start.total_preemptions)
            (admit_while_room (len start.queue) now start)
            (admit_while_room_ind (spends now config total once start Unit) (len start.queue) start
              (lively, inr (refl, tt)))
            (admit_while_room-IsFilled (len start.queue) now start (omega arith)))
          (λ t known. filled-Spent start t start.total_preemptions known.0 known.1))
        (λ t e i.
          strategy_cases (spends now config total once start full) t t.strategy
            (ap (λ (c : Config b). c.strategy) (sym i.0.conserved.same_config)) i)

  -- In a state in which nothing was to do.
  idle :
      (start : Batcher b) (n : ℕ)
      → 1 ≤ start.max_batch_size
      → has_room start ≡ false
      → start.active ≡ []
      → work n start ≡ 0
  idle start n positive full none_active = cases start.queue.pending start.active refl refl
    where
      cases :
          (pending active : List (GenerationRequest b))
          → start.queue.pending ≡ pending
          → start.active ≡ active
          → sum (waiting_work n) pending + sum (active_work n) active ≡ 0
      cases [] [] e f = refl
      cases [] (r ∷ rs) e f = cc
      cases (r ∷ rs) active e f = ground (
        arith,
        full,
        positive,
        ap (λ (l : List (GenerationRequest b)). length l) e,
        ap (λ (l : List (GenerationRequest b)). length l) none_active,
      )

  -- Where a request is active the work has become less.
  decode_and_route-work :
      (start t : Batcher b) (X : Type 0)
      → Spent start X t
      → t.active ≢ []
      → After Unit
          (decode_and_route now t)
          (λ u. work config.limits.max_tokens_cap u + 1 ≤ work config.limits.max_tokens_cap start)
  unfolding decode_and_route
  decode_and_route-work start t X i some_active =
      let n = config.limits.max_tokens_cap in
      After-bind Unit
        (λ d.
          Departing now config total once (to_finish t d) (routed t d)
          × (work n (routed t d) + 1 ≤ work n start))
        (λ u. work n u + 1 ≤ work n start)
        (run_decode_step t.limits t.gate now t.active t.cache t.capture) _
        ((spends now config total once start X).decodes t i some_active)
        (λ d e j.
          After-map Unit (finish_all now (to_finish t d) (routed t d))
            (finish_all_ind (spends now config total once start ⊥) (to_finish t d) (routed t d) j)
            (λ u known. elim known.1 [ inl less ↦ less | inr (same, never) ↦ absurd never ]))

  -- A tick takes something off the work, as long as there is some.
  pub tick-work :
      (start : Batcher b)
      → 1 ≤ config.max_batch_size
      → Lively now config total once start
      → After Unit
          (tick now start)
          (λ t. work config.limits.max_tokens_cap t ≤ work config.limits.max_tokens_cap start - 1)
  unfolding tick
  tick-work start positive lively =
      let n = config.limits.max_tokens_cap in
      let full = has_room start ≡ false in
      After-bind Unit (Spent start full) (λ t. work n t ≤ work n start - 1) (try_admit now start) _
        (try_admit-Spent start lively) (λ t e i. active_cases t t.active refl i)
    where
      idles :
          (t : Batcher b)
          → t.active ≡ []
          → Spent start (has_room start ≡ false) t
          → work config.limits.max_tokens_cap t ≤ work config.limits.max_tokens_cap start - 1
      idles t e (l, inl less) = omega arith
      idles t e (l, inr (same, full)) =
          let nothing =
            idle start config.limits.max_tokens_cap
              (subst (λ (c : Config b). 1 ≤ c.max_batch_size) (sym lively.conserved.same_config)
                positive)
              full (ap (λ (s : Batcher b). s.active) (sym same) ∙ e) in
          omega (arith, nothing, ap (work config.limits.max_tokens_cap) same)

      active_cases :
          (t : Batcher b) (active : List (GenerationRequest b))
          → t.active ≡ active
          → Spent start (has_room start ≡ false) t
          → After Unit
              (elim active [ [] ↦ ok t | req ∷ reqs ↦ decode_and_route now t ])
              (λ u.
                work config.limits.max_tokens_cap u ≤ work config.limits.max_tokens_cap start - 1)
      active_cases t [] e i = idles t e i
      active_cases t (req ∷ reqs) e i =
          After-map Unit (decode_and_route now t)
            (decode_and_route-work start t (has_room start ≡ false) i (λ none_left. cc))
            (λ u less. omega arith)
