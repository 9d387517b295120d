-- ===== src/Server/Counts.antt =====
-- The numbers of /metrics in src/server.py after a history of the scheduler.
use probe_guided_inference.Base.{
  ℕ, ◌+◌, ◌≤◌, ◌≡◌, ◌≢◌, ◌⊎◌, inl, inr, refl, ap, Option, List, [], ◌∷◌, map, arith, All, length,
  length-append, length-map, select, ◌==◌, ok,
}
use probe_guided_inference.Backend.{Backend}
use probe_guided_inference.Queue.{GenerationRequest}
use probe_guided_inference.Scheduler.State.{
  RoutingStrategy, baseline, probe_terminate, probe_deprioritize,
}
use probe_guided_inference.Scheduler.Loop.{Process, Event, run}
use probe_guided_inference.Scheduler.History.{IsSound, run-IsSound}
use probe_guided_inference.Scheduler.Pool.{
  Pool, Move, Reach, Ranks, Reach-Ranks, job, jobs, pool_of, arrives, admits, passes, demotes,
  preempts, finishes, here, after,
}
use probe_guided_inference.Scheduler.Pool.Refinement.{run-Reach}
use probe_guided_inference.Server.{metrics}

-- Each job that came is held in one of the lists.
abbrev pub IsWhole : Pool → Type 0
IsWhole t = length t.waiting + length t.active + length t.finished + 1 ≡ t.next_id

module _ {strategy : RoutingStrategy} {capacity : ℕ} where
  Move-IsWhole : {t u : Pool} → Move strategy capacity t u → IsWhole t → IsWhole u
  Move-IsWhole {t} {u} (arrives e) h =
      rw e (omega (arith, h, length-append t.waiting ((t.next_id, 0) ∷ [])))
  Move-IsWhole {t} {u} (admits j rest g less e) h =
      rw e
        (omega (arith, h, ap (λ (l : List (ℕ × ℕ)). length l) g, length-append t.active (j ∷ [])))
  Move-IsWhole {t} {u} (passes j rest g less e) h =
      rw e (
        omega
          (arith, h, ap (λ (l : List (ℕ × ℕ)). length l) g, length-append t.finished (j.0 ∷ [])))
  Move-IsWhole {t} {u} (demotes xs j ys d g e) h = rw e (
      omega (
        arith,
        h,
        ap (λ (l : List (ℕ × ℕ)). length l) g,
        length-append xs (j ∷ ys),
        length-append xs ((j.0, 1) ∷ ys),
      ))
  Move-IsWhole {t} {u} (preempts k rest xs j ys d g full f e) h = rw e (
      omega (
        arith,
        h,
        ap (λ (l : List (ℕ × ℕ)). length l) f,
        length-append xs ((j, 1) ∷ ys),
        length-append xs ys,
        length-append t.waiting ((j, 1) ∷ []),
      ))
  Move-IsWhole {t} {u} (finishes xs j ys g e) h = rw e (
      omega (
        arith,
        h,
        ap (λ (l : List (ℕ × ℕ)). length l) g,
        length-append xs (j ∷ ys),
        length-append xs ys,
        length-append t.finished (j.0 ∷ []),
      ))

  Reach-IsWhole : {s t : Pool} → Reach strategy capacity s t → IsWhole s → IsWhole t
  Reach-IsWhole here h = h
  Reach-IsWhole (after r m) h = Move-IsWhole m (Reach-IsWhole r h)

below_two : (js : List (ℕ × ℕ)) → All (λ (j : ℕ × ℕ). j.1 ≡ 0) js → All (λ (j : ℕ × ℕ). j.1 ≤ 1) js
below_two [] h = tt
below_two (j ∷ js) (h, hs) = (omega (arith, h), below_two js hs)

strategy_cases :
    (strategy : RoutingStrategy) → (strategy ≡ probe_deprioritize) ⊎ (strategy ≢ probe_deprioritize)
strategy_cases baseline = inr (λ e. cc)
strategy_cases probe_terminate = inr (λ e. cc)
strategy_cases probe_deprioritize = inl refl

module _ {b : Backend} where
  abbrev count_deprioritized : List (GenerationRequest b) → ℕ
  count_deprioritized rs =
      length (select (λ p. p == 1) (map (λ (r : GenerationRequest b). r.priority) rs))

  deprioritized-le : (rs : List (GenerationRequest b)) → count_deprioritized rs ≤ length rs
  deprioritized-le [] = omega arith
  deprioritized-le (r ∷ rs) = ground (arith, deprioritized-le rs)

  none_deprioritized :
      (rs : List (GenerationRequest b))
      → All (λ (j : ℕ × ℕ). j.1 ≡ 0) (jobs rs)
      → count_deprioritized rs ≡ 0
  none_deprioritized [] h = refl
  none_deprioritized (r ∷ rs) (h, hs) = ground (arith, none_deprioritized rs hs)

  -- After any history that raises no exception, from a process that is sound in the sense of
  -- run-IsSound, whose priorities are all 0, and which holds as many requests as identifiers
  -- were given out, /metrics reports queued, active and finished requests that are together all
  -- that were submitted, as admitted the sum of the finished, the active and the preempted, no
  -- more active sequences than the batch size, no more deprioritized than active ones, and,
  -- unless the strategy is probe_deprioritize, no deprioritized one.
  pub metrics-IsSound :
      (p q : Process b) (es : List (ℕ × Event)) (gpu : Option (ℕ × ℕ))
      → IsSound p
      → Ranks (λ k. k ≡ 0) (pool_of p)
      → IsWhole (pool_of p)
      → run p es ≡ ok q
      → let m = metrics gpu q.batcher in
        (m.queued + m.active_sequences + m.total_finished + 1 ≡ q.next_id)
        × (m.total_admitted ≡ m.total_finished + m.active_sequences + m.total_preemptions)
        × (m.active_sequences ≤ q.batcher.max_batch_size)
        × (m.active_deprioritized ≤ m.active_sequences)
        × ((p.batcher.strategy ≡ probe_deprioritize) ⊎ (m.active_deprioritized ≡ 0))
  unfolding metrics
  metrics-IsSound p q es gpu sound normal whole e =
      let ended = run-IsSound p q es sound e in
      let reached = run-Reach p q es sound (below_two _ normal.0, below_two _ normal.1) e in
      let held = Reach-IsWhole reached whole in
      (
        omega (
          arith,
          held,
          ended.counted.finished_count,
          length-map job q.batcher.queue.pending,
          length-map job q.batcher.active,
          length-map (λ (r : GenerationRequest b). r.request_id) q.batcher.finished,
        ),
        ended.counted.admitted_count,
        ended.counted.capacity,
        deprioritized-le q.batcher.active,
        elim (strategy_cases p.batcher.strategy) [
          | inl d ↦ inl d
          | inr never ↦ inr (
              none_deprioritized q.batcher.active
                (Reach-Ranks (λ k. k ≡ 0) refl (λ d. absurd (never d)) reached normal).1)
        ],
      )
