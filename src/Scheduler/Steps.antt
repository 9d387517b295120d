-- ===== src/Scheduler/Steps.antt =====
-- The steps of the scheduler taken apart: what each does to one request, and what an admission
-- does with the one that it takes from the queue.
use probe_guided_inference.Base.{
  ℕ, ◌≡◌, refl, List, [], ◌∷◌, Result, ok, raise, index_error, ◌>>=◌, After, After-bind,
}
use probe_guided_inference.Backend.{Backend}
use probe_guided_inference.Queue.{GenerationRequest, RequestQueue, popleft}
use probe_guided_inference.Runner.{run_prefill}
use probe_guided_inference.Scheduler.State.{Batcher}
use probe_guided_inference.Scheduler.Admit.{admit_one, place}

module _ {b : Backend} where
  abbrev pub with_queue : List (GenerationRequest b) → Batcher b → Batcher b
  with_queue pending s = record s { queue = record { pending = pending } }

module _ {b : Backend} (now : ℕ) (E : Type 0) (Q : Batcher b → Type 0) where
  pub admit_one_ind :
      (s : Batcher b)
      → (s.queue.pending ≡ [] → E)
      → ((req : GenerationRequest b) (rest : List (GenerationRequest b))
          → s.queue.pending ≡ req ∷ rest
          → After E
              (run_prefill s.limits s.cache s.capture req)
              (λ p. Q (place now (with_queue rest s) p)))
      → After E (admit_one now s) Q
  unfolding admit_one popleft
  admit_one_ind s none_waits first = cases s.queue.pending refl
    where
      cases :
          (pending : List (GenerationRequest b))
          → s.queue.pending ≡ pending
          → After E
              (do
                popped ← elim pending as (λ _. Result (GenerationRequest b × RequestQueue b)) [
                  | [] ↦ raise index_error
                  | req ∷ rest ↦ ok (req, record { pending = rest })
                ]
                p ← run_prefill s.limits s.cache s.capture popped.0
                ok (place now (record s { queue = popped.1 }) p))
              Q
      cases [] e = none_waits e
      cases (req ∷ rest) e =
          After-bind E (λ p. Q (place now (with_queue rest s) p)) Q
            (run_prefill s.limits s.cache s.capture req) (λ p. ok (place now (with_queue rest s) p))
            (first req rest e) (λ p _ q. q)
