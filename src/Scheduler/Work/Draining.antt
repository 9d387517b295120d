-- ===== src/Scheduler/Work/Draining.antt =====
-- The rounds of src/scheduler.py while nothing else happens, until its requests have ended.
use probe_guided_inference.Base.{
  ℕ, ◌-◌, ◌≤◌, false, ◌≡◌, refl, ap, ◌∙◌, List, [], ◌∷◌, arith, length, ok, subst, All, After-ok,
  >>=-eq-ok, ok-injective, if_ind,
}
use probe_guided_inference.Backend.{Backend}
use probe_guided_inference.Model.{IsRowWise}
use probe_guided_inference.Queue.{GenerationRequest}
use probe_guided_inference.Scheduler.State.{Config, Batcher}
use probe_guided_inference.Scheduler.Loop.{Process, Event, rounds, step, run, tick}
use probe_guided_inference.Scheduler.Places.{occurrences}
use probe_guided_inference.Scheduler.History.{issued, issued_once}
use probe_guided_inference.Scheduler.Requests.{IsKept, run-IsKept}
use probe_guided_inference.Scheduler.Endings.{IsUnstarted, IsLive, IsEnded}
use probe_guided_inference.Scheduler.Endings.Life.{endings}
use probe_guided_inference.Scheduler.Parity.{IsExact, Accepts}
use probe_guided_inference.Scheduler.Parity.Histories.{IsServing, run-IsServing, IsServed}
use probe_guided_inference.Scheduler.Work.{sum, waiting_work, active_work, work}
use probe_guided_inference.Scheduler.Work.Going.{tick-stopped}
use probe_guided_inference.Scheduler.Work.Ticks.{tick-work}

-- `n` rounds, at these times.
abbrev pub rounds_at : List ℕ → List (ℕ × Event)
rounds_at [] = []
rounds_at (now ∷ times) = (now, rounds) ∷ rounds_at times

rounds_keep_hook : (times : List ℕ) → All (λ e. IsServed e.1) (rounds_at times)
rounds_keep_hook [] = tt
rounds_keep_hook (now ∷ times) = (tt, rounds_keep_hook times)

module _ {b : Backend} (config : Config b) where
  abbrev pub Kept : Process b → Type 0
  Kept = IsKept config (IsUnstarted config) (IsLive config) (IsEnded config)

  -- A round of a loop that is not stopped.
  round_lem :
      (p q : Process b) (now : ℕ)
      → p.batcher.stopped ≡ false
      → step p (now, rounds) ≡ ok q
      → (s : Batcher b) × (tick now p.batcher ≡ ok s) × (record p { batcher = s } ≡ q)
  unfolding step
  round_lem p q now going e =
      if_ind
        (λ m.
          m ≡ ok q → (s : Batcher b) × (tick now p.batcher ≡ ok s) × (record p { batcher = s } ≡ q))
        p.batcher.stopped (λ stopped f. cc)
        (λ _ f.
          let (s, ticked, same) =
            >>=-eq-ok (tick now p.batcher) (λ s. ok (record p { batcher = s })) f in
          (s, ticked, ok-injective same))
        e

  pub one_round :
      (p q : Process b) (now : ℕ) → step p (now, rounds) ≡ ok q → run p ((now, rounds) ∷ []) ≡ ok q
  unfolding run
  one_round p q now e = rw e refl

  pub round-work :
      (p q : Process b) (now : ℕ)
      → 1 ≤ config.max_batch_size
      → Kept p
      → p.batcher.stopped ≡ false
      → step p (now, rounds) ≡ ok q
      → (q.batcher.stopped ≡ false)
        × (q.next_id ≡ p.next_id)
        × (work config.limits.max_tokens_cap q.batcher
            ≤ work config.limits.max_tokens_cap p.batcher - 1)
  round-work p q now positive kept going e =
      let n = config.limits.max_tokens_cap in
      let (s, ticked, same) = round_lem p q now going e in
      let on =
        After-ok Unit (λ t. t.stopped ≡ false) (tick now p.batcher)
          (tick-stopped now config p.batcher kept.same_config going) ticked in
      let less =
        After-ok Unit (λ t. work n t ≤ work n p.batcher - 1) (tick now p.batcher)
          (tick-work now config (issued p.next_id) (issued_once p.next_id) p.batcher positive
            (record {
              conserved = record { same_config = kept.same_config; places = kept.conserved.places };
              waiting = kept.waiting;
              active = kept.active;
              finished = kept.finished;
            }))
          ticked in
      subst
        (λ (r : Process b).
          (r.batcher.stopped ≡ false)
          × (r.next_id ≡ p.next_id)
          × (work n r.batcher ≤ work n p.batcher - 1))
        same (on, refl, less)

  rounds-work :
      (p q : Process b) (times : List ℕ)
      → 1 ≤ config.max_batch_size
      → Kept p
      → p.batcher.stopped ≡ false
      → run p (rounds_at times) ≡ ok q
      → (q.batcher.stopped ≡ false)
        × (q.next_id ≡ p.next_id)
        × (work config.limits.max_tokens_cap q.batcher
            ≤ work config.limits.max_tokens_cap p.batcher - length times)
  unfolding run
  rounds-work p q [] positive kept going e =
      let same = ok-injective e in
      subst
        (λ (r : Process b).
          (r.batcher.stopped ≡ false)
          × (r.next_id ≡ p.next_id)
          × (work config.limits.max_tokens_cap r.batcher
              ≤ work config.limits.max_tokens_cap p.batcher - 0))
        same (going, refl, omega arith)
  rounds-work p q (now ∷ times) positive kept going e =
      let (r, first, later) = >>=-eq-ok (step p (now, rounds)) (λ r. run r (rounds_at times)) e in
      let (on, id, less) = round-work p r now positive kept going first in
      let kept' =
        run-IsKept (endings config) p r ((now, rounds) ∷ []) kept (one_round p r now first) in
      let (on', id', less') = rounds-work r q times positive kept' on later in
      (on', id' ∙ id, omega arith)

  -- Where no work is left no request is.
  pub nothing_waits :
      (n : ℕ) (rs : List (GenerationRequest b)) → sum (waiting_work n) rs ≡ 0 → rs ≡ []
  nothing_waits n [] e = refl
  nothing_waits n (r ∷ rs) e = absurd (omega arith)

  pub nothing_active :
      (rs : List (GenerationRequest b))
      → All (IsLive config) rs
      → sum (active_work config.limits.max_tokens_cap) rs ≡ 0
      → rs ≡ []
  nothing_active [] l e = refl
  nothing_active (r ∷ rs) (l, ls) e = absurd (ground (arith, l.below))

  -- For a model that reads a batch of the documented shape row by row, ignores masked columns
  -- and is shown the new token, in exact arithmetic, a gate, if there is one, that classifies
  -- every hidden state, and a batch size of one or more: from a process that is serving in the
  -- sense of run-IsServing, whose requests live as run-Endings says, and that is not stopped,
  -- rounds that are at least as many as the work that is left raise no exception and leave no
  -- request waiting or active: every identifier that was issued is finished exactly once, each
  -- finished request has ended as run-Endings says, and it has the tokens that greedy
  -- generation gives its prompt alone. The work is, with the cap on tokens: cap + 1 for each
  -- waiting request and cap more if its priority is 0, and for each active one cap + 1 less the
  -- tokens it has. This holds for each of the three strategies.
  pub rounds-IsDrained :
      (w : IsRowWise b) (p : Process b) (times : List ℕ)
      → Accepts config.gate
      → 1 ≤ config.max_batch_size
      → IsServing w config p
      → Kept p
      → p.batcher.stopped ≡ false
      → work config.limits.max_tokens_cap p.batcher ≤ length times
      → (q : Process b) × (run p (rounds_at times) ≡ ok q)
        × (q.batcher.queue.pending ≡ [])
        × (q.batcher.active ≡ [])
        × ((k : ℕ) → occurrences k q.batcher.finished ≡ issued p.next_id k)
        × All (IsEnded config) q.batcher.finished
        × All (λ r. IsExact w r.prompt_ids r.generated_ids) q.batcher.finished
  rounds-IsDrained w p times accepts positive serving kept going enough =
      let (q, e, serves) =
        run-IsServing w config p (rounds_at times) accepts (rounds_keep_hook times) serving in
      let kept' = run-IsKept (endings config) p q (rounds_at times) kept e in
      let (on, id, less) = rounds-work p q times positive kept going e in
      let waits =
        nothing_waits config.limits.max_tokens_cap q.batcher.queue.pending (omega arith) in
      let active = nothing_active q.batcher.active kept'.active (omega arith) in
      (
        q,
        e,
        waits,
        active,
        λ k. ground (
          arith,
          kept'.conserved.places k,
          ap (occurrences k) waits,
          ap (occurrences k) active,
          ap (λ i. issued i k) id,
        ),
        kept'.finished,
        serves.finished,
      )
