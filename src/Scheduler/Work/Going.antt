-- ===== src/Scheduler/Work/Going.antt =====
-- src/scheduler.py: what a tick does to the flag `_stopped`.
use probe_guided_inference.Base.{
  ℕ, false, ◌≡◌, List, After, After-map, After-unit, or_raise, key_error, if_ind,
}
use probe_guided_inference.Backend.{Backend}
use probe_guided_inference.Queue.{GenerationRequest}
use probe_guided_inference.Runner.{Prefilled, run_prefill, run_decode_step}
use probe_guided_inference.Scheduler.State.{Config, Batcher, finish, get_active}
use probe_guided_inference.Scheduler.Admit.{admit_one, place, preempt}
use probe_guided_inference.Scheduler.Loop.{tick}
use probe_guided_inference.Scheduler.Rule.{Rule, tick_ind}
use probe_guided_inference.Scheduler.Steps.{with_queue, admit_one_ind}

module _ {b : Backend} (now : ℕ) (config : Config b) where
  IsGoing : Batcher b → Type 0
  IsGoing s = (s.config ≡ config) × (s.stopped ≡ false)

  place-IsGoing :
      (s : Batcher b) (rest : List (GenerationRequest b)) (p : Prefilled b)
      → IsGoing s
      → IsGoing (place now (with_queue rest s) p)
  unfolding place finish IsGoing
  place-IsGoing s rest p i = if_ind IsGoing p.finished (λ _. i) (λ _. i)

  admit_one-IsGoing : (s : Batcher b) → IsGoing s → After Unit (admit_one now s) IsGoing
  admit_one-IsGoing s i =
      admit_one_ind now Unit IsGoing s (λ _. tt)
        λ req rest e.
          After-map Unit (run_prefill s.limits s.cache s.capture req)
            (After-unit (run_prefill s.limits s.cache s.capture req))
            (λ p _. place-IsGoing s rest p i)

  goes_on : Rule now config Unit IsGoing (λ _. IsGoing)
  unfolding preempt finish IsGoing
  goes_on = record {
    same_config = λ s i. i.0;
    admits = λ s i room. admit_one-IsGoing s i;
    swaps = λ s victim i strategy contended found. admit_one-IsGoing (preempt victim s) i;
    decodes = λ s i some_active.
        After-map Unit (run_decode_step s.limits s.gate now s.active s.cache s.capture)
          (After-unit (run_decode_step s.limits s.gate now s.active s.cache s.capture)) (λ d _. i);
    finishes = λ rid rids s i.
        After-map Unit (or_raise key_error (get_active rid s.active))
          (After-unit (or_raise key_error (get_active rid s.active))) (λ req _. i);
    settles = λ s i. i;
  }

  pub tick-stopped :
      (s : Batcher b)
      → s.config ≡ config
      → s.stopped ≡ false
      → After Unit (tick now s) (λ t. t.stopped ≡ false)
  unfolding IsGoing
  tick-stopped s same going =
      After-map Unit (tick now s) (tick_ind goes_on s (same, going)) (λ t i. i.1)
