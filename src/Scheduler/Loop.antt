-- ===== src/Scheduler/Loop.antt =====
-- src/scheduler.py: the tick of `run_forever`, and runs of it with the calls from outside that come
-- between two ticks.
use probe_guided_inference.Base.{
  ℕ, ◌+◌, Bool, true, false, not, Option, none, some, List, [], ◌∷◌, ◌++◌, key_error, Result, ok,
  or_raise, ◌>>=◌, ◌==◌, select, if◌then◌else◌,
}
use probe_guided_inference.Backend.{Backend}
use probe_guided_inference.Probe.{LayerActivationCapture, remove}
use probe_guided_inference.Queue.{Submission, submit}
use probe_guided_inference.Runner.{run_decode_step}
use probe_guided_inference.Scheduler.State.{Batcher, get_active, finish}
use probe_guided_inference.Scheduler.Admit.{try_admit}
use probe_guided_inference.Scheduler.Route.{apply_routing}

abbrev pub contains : ℕ → List ℕ → Bool
contains n [] = false
contains n (m ∷ ms) = if m == n then true else contains n ms

-- `set(finished_ids) | set(terminated_ids)`, in one of the orders in which the set may come.
abbrev pub union : List ℕ → List ℕ → List ℕ
union xs ys = xs ++ select (λ y. not (contains y xs)) ys

module _ {b : Backend} where
  unfoldable pub finish_all : ℕ → List ℕ → Batcher b → Result (Batcher b)
  finish_all now [] s = ok s
  finish_all now (rid ∷ rids) s = do
    req ← or_raise key_error (get_active rid s.active)
    finish_all now rids (finish now req s)

  unfoldable pub decode_and_route : ℕ → Batcher b → Result (Batcher b)
  unfolding apply_routing
  decode_and_route now s = do
    d ← run_decode_step s.limits s.gate now s.active s.cache s.capture
    let routed = apply_routing s.config d.active_reqs
    finish_all now (union d.finished_ids routed.1)
        (record s { cache = d.cache; capture = d.capture; active = routed.0 })

  -- One round of the loop in `run_forever`.
  unfoldable pub tick : ℕ → Batcher b → Result (Batcher b)
  unfolding decode_and_route
  tick now s = do
    s' ← try_admit now s
    elim s'.active [ [] ↦ ok s' | req ∷ reqs ↦ decode_and_route now s' ]

  abbrev pub stop : Batcher b → Batcher b
  stop s = record s { stopped = true }

  -- `if self.capture is not None: self.capture.remove()`
  abbrev pub released : Option (LayerActivationCapture b) → Option (LayerActivationCapture b)
  released none = none
  released (some capture) = some (remove capture)

  abbrev pub close : Batcher b → Batcher b
  close s = record s { capture = released s.capture }

-- The process: the batcher, and the counter of request identifiers, which starts at 1.
pub record Process (b : Backend) : Type 0 where
  pub batcher : Batcher b
  pub next_id : ℕ

-- The loop sleeps after each round; submitters and `stop` run then.
pub data Event : Type 0 where
  submits : Submission → Event
  rounds stops closes : Event

module _ {b : Backend} where
  -- Once `stop` was called the loop makes no further round.
  unfoldable pub step : Process b → ℕ × Event → Result (Process b)
  step p (now, submits s) =
      let (req, queue) = submit p.next_id now s p.batcher.queue in
      ok (record { batcher = record p.batcher { queue = queue }; next_id = p.next_id + 1 })
  step p (now, rounds) =
      if p.batcher.stopped
      then ok p
      else (tick now p.batcher >>= λ s. ok (record p { batcher = s }))
  step p (now, stops) = ok (record p { batcher = stop p.batcher })
  step p (now, closes) = ok (record p { batcher = close p.batcher })

  unfoldable pub run : Process b → List (ℕ × Event) → Result (Process b)
  unfolding step
  run p [] = ok p
  run p (e ∷ es) = step p e >>= λ p'. run p' es
