-- ===== src/Scheduler/Rule.antt =====
-- A proof rule for the tick: what to show of the steps of the scheduler, so that an invariant
-- holds after each round.
use probe_guided_inference.Base.{
  ℕ, zero, suc, Bool, true, ◌&&◌, ◌≡◌, ◌≢◌, refl, inl, inr, some, List, [], ◌∷◌, ok, or_raise,
  key_error, After, After-bind, Bool-cases, Option-cases, ltb, leb, length,
}
use probe_guided_inference.Backend.{Backend}
use probe_guided_inference.Queue.{GenerationRequest, len}
use probe_guided_inference.Runner.{Decoded, run_decode_step}
use probe_guided_inference.Scheduler.State.{
  Config, Batcher, RoutingStrategy, baseline, probe_terminate, probe_deprioritize, get_active,
  finish,
}
use probe_guided_inference.Scheduler.Admit.{
  admit_one, preempt, admit_while_room, preempt_while_full, try_admit, find_deprioritize_victim,
  normal_waits,
}
use probe_guided_inference.Scheduler.Route.{apply_routing}
use probe_guided_inference.Scheduler.Loop.{union, finish_all, decode_and_route, tick}

module _ {b : Backend} where
  abbrev pub has_room : Batcher b → Bool
  has_room s = ltb (length s.active) s.max_batch_size && ltb 0 (len s.queue)

  abbrev pub is_contended : Batcher b → Bool
  is_contended s =
      leb s.max_batch_size (length s.active) && ltb 0 (len s.queue) && normal_waits s.queue

  -- The state between the decoding step and the loop that finishes requests.
  abbrev pub routed : Batcher b → Decoded b → Batcher b
  routed s d = record s {
    cache = d.cache;
    capture = d.capture;
    active = (apply_routing s.config d.active_reqs).0;
  }

  abbrev pub to_finish : Batcher b → Decoded b → List ℕ
  to_finish s d = union d.finished_ids (apply_routing s.config d.active_reqs).1

-- `E` is what holds if an exception is raised, `I` the invariant between the steps, `J` the one of
-- the loop that finishes the requests that are still listed.
pub record Rule {b : Backend} (now : ℕ) (config : Config b) (E : Type 0) (I : Batcher b → Type 0)
    (J : List ℕ → Batcher b → Type 0) : Type 0 where
  pub same_config : (s : Batcher b) → I s → s.config ≡ config
  pub admits : (s : Batcher b) → I s → has_room s ≡ true → After E (admit_one now s) I
  pub swaps :
      (s : Batcher b) (victim : GenerationRequest b)
      → I s
      → config.strategy ≡ probe_deprioritize
      → is_contended s ≡ true
      → find_deprioritize_victim s.active ≡ some victim
      → After E (admit_one now (preempt victim s)) I
  pub decodes :
      (s : Batcher b)
      → I s
      → s.active ≢ []
      → After E
          (run_decode_step s.limits s.gate now s.active s.cache s.capture)
          (λ d. J (to_finish s d) (routed s d))
  pub finishes :
      (rid : ℕ) (rids : List ℕ) (s : Batcher b)
      → J (rid ∷ rids) s
      → After E (or_raise key_error (get_active rid s.active)) (λ req. J rids (finish now req s))
  pub settles : (s : Batcher b) → J [] s → I s

module _ {b : Backend} {now : ℕ} {config : Config b} {E : Type 0} {I : Batcher b → Type 0}
    {J : List ℕ → Batcher b → Type 0} (rule : Rule now config E I J) where
  open rule use {same_config, admits, swaps, decodes, finishes, settles}

  pub admit_while_room_ind :
      (fuel : ℕ) (s : Batcher b) → I s → After E (admit_while_room fuel now s) I
  unfolding admit_while_room
  admit_while_room_ind zero s i = i
  admit_while_room_ind (suc fuel) s i = elim (Bool-cases (has_room s)) [
    | inl room ↦ rw room (
        After-bind E I I (admit_one now s) (admit_while_room fuel now) (admits s i room)
          (λ t e j. admit_while_room_ind fuel t j))
    | inr full ↦ rw full i
  ]

  preempt_while_full_ind :
      (attempts : ℕ) (s : Batcher b)
      → config.strategy ≡ probe_deprioritize
      → I s
      → After E (preempt_while_full attempts now s) I
  unfolding preempt_while_full
  preempt_while_full_ind zero s d i = i
  preempt_while_full_ind (suc attempts) s d i = elim (Bool-cases (is_contended s)) [
    | inr calm ↦ rw calm i
    | inl contended ↦ rw contended (elim (Option-cases (find_deprioritize_victim s.active)) [
      | inl absent ↦ rw absent i
      | inr (victim, found) ↦ rw found (
          After-bind E I I (admit_one now (preempt victim s)) (preempt_while_full attempts now)
            (swaps s victim i d contended found) (λ t e j. preempt_while_full_ind attempts t d j))
    ])
  ]

  pub strategy_cases :
      (s : Batcher b) (strategy : RoutingStrategy)
      → config.strategy ≡ strategy
      → I s
      → After E
          (elim strategy [
            | probe_deprioritize ↦ preempt_while_full s.max_batch_size now s
            | _ ↦ ok s
          ])
          I
  strategy_cases s probe_deprioritize e i = preempt_while_full_ind s.max_batch_size s e i
  strategy_cases s baseline e i = i
  strategy_cases s probe_terminate e i = i

  try_admit_ind : (s : Batcher b) → I s → After E (try_admit now s) I
  unfolding try_admit
  try_admit_ind s i =
      After-bind E I I (admit_while_room (len s.queue) now s) _
        (admit_while_room_ind (len s.queue) s i)
        (λ t e j. strategy_cases t t.strategy (rw (same_config t j)) j)

  pub finish_all_ind :
      (rids : List ℕ) (s : Batcher b) → J rids s → After E (finish_all now rids s) I
  unfolding finish_all
  finish_all_ind [] s j = settles s j
  finish_all_ind (rid ∷ rids) s j =
      After-bind E (λ req. J rids (finish now req s)) I
        (or_raise key_error (get_active rid s.active))
        (λ req. finish_all now rids (finish now req s)) (finishes rid rids s j)
        (λ req e k. finish_all_ind rids (finish now req s) k)

  decode_and_route_ind : (s : Batcher b) → I s → s.active ≢ [] → After E (decode_and_route now s) I
  unfolding decode_and_route
  decode_and_route_ind s i some_active =
      After-bind E (λ d. J (to_finish s d) (routed s d)) I
        (run_decode_step s.limits s.gate now s.active s.cache s.capture)
        (λ d. finish_all now (to_finish s d) (routed s d)) (decodes s i some_active)
        (λ d e j. finish_all_ind (to_finish s d) (routed s d) j)

  -- A round keeps the invariant.
  pub tick_ind : (s : Batcher b) → I s → After E (tick now s) I
  unfolding tick
  tick_ind s i =
      After-bind E I I (try_admit now s) _ (try_admit_ind s i)
        λ t e j. active_cases t t.active refl j
    where
      active_cases :
          (t : Batcher b) (active : List (GenerationRequest b))
          → t.active ≡ active
          → I t
          → After E (elim active [ [] ↦ ok t | req ∷ reqs ↦ decode_and_route now t ]) I
      active_cases t [] e j = j
      active_cases t (req ∷ reqs) e j = decode_and_route_ind t j (λ none_left. cc)
