-- ===== src/Scheduler/Work.antt =====
-- The work that src/scheduler.py has left: what its requests may still cost it, in ticks.
pub mod Spending
pub mod Ticks
pub mod Going
pub mod Draining
use probe_guided_inference.Base.{
  ℕ, suc, ◌+◌, ◌-◌, ◌*◌, ◌≤◌, ◌≡◌, ◌≢◌, refl, ap, List, [], ◌∷◌, ◌++◌, arith, ◌==◌, take, drop, All,
  All-map, take-append-drop, Option, if◌then◌else◌, if_ind, length, All₂, length-append,
}
use native.Mathlib.Decide.{ℕ_discrete}
use probe_guided_inference.Backend.{Backend}
use probe_guided_inference.Gate.{ClassificationGate}
use probe_guided_inference.Queue.{
  GenerationRequest, RequestQueue, n_generated, push_front_priority_aware,
}
use probe_guided_inference.Queue.Order.{requeue_split, requeue_normal}
use probe_guided_inference.Runner.{Limits}
use probe_guided_inference.Runner.Steps.{Advances, IsFired}
use probe_guided_inference.Scheduler.State.{Batcher, put_active, pop_active}
use probe_guided_inference.Scheduler.Places.{occurrences}
use probe_guided_inference.Scheduler.Flags.{OneEach, OneEach-head, OneEach-tail}
use probe_guided_inference.Scheduler.Parity.Advancing.{SameTokens}
use probe_guided_inference.Scheduler.Parity.Others.{absent_all}

module _ {b : Backend} where
  abbrev pub sum : (GenerationRequest b → ℕ) → List (GenerationRequest b) → ℕ
  sum f [] = 0
  sum f (r ∷ rs) = f r + sum f rs

  -- A request that waits may be decoded up to the cap, and one of priority 0 may besides send
  -- another one back to the start.
  abbrev pub waiting_work : ℕ → GenerationRequest b → ℕ
  waiting_work cap r = cap + 1 + (if r.priority == 0 then cap else 0)

  abbrev pub active_work : ℕ → GenerationRequest b → ℕ
  active_work cap r = cap + 1 - n_generated r

  abbrev pub work : ℕ → Batcher b → ℕ
  work cap s = sum (waiting_work cap) s.queue.pending + sum (active_work cap) s.active

  sum-append :
      (f : GenerationRequest b → ℕ) (rs ts : List (GenerationRequest b))
      → sum f (rs ++ ts) ≡ sum f rs + sum f ts
  sum-append f [] ts = omega arith
  sum-append f (r ∷ rs) ts = omega (arith, sum-append f rs ts)

  pub sum-requeue :
      (f : GenerationRequest b → ℕ) (r : GenerationRequest b) (q : RequestQueue b)
      → sum f (push_front_priority_aware r q).pending ≡ f r + sum f q.pending
  sum-requeue f r q = elim (ℕ_discrete r.priority 0) [
    | yes normal ↦ rw (requeue_normal r q normal)
    | no other ↦
        let (n, e, all, differs) = requeue_split r q other in
        rw e (
          omega (
            arith,
            sum-append f (take n q.pending) (r ∷ drop n q.pending),
            sum-append f (take n q.pending) (drop n q.pending),
            ap (sum f) (take-append-drop n q.pending),
          ))
  ]

  pub sum-put_active :
      (f : GenerationRequest b → ℕ) (r : GenerationRequest b) (rs : List (GenerationRequest b))
      → sum f (put_active r rs) ≤ f r + sum f rs
  unfolding put_active
  sum-put_active f r [] = omega arith
  sum-put_active f r (x ∷ rs) = ground (arith, sum-put_active f r rs)

  pub sum-pop_active :
      (f : GenerationRequest b → ℕ) (rid : ℕ) (rs : List (GenerationRequest b))
      → sum f (pop_active rid rs) ≤ sum f rs
  unfolding pop_active
  sum-pop_active f rid [] = omega arith
  sum-pop_active f rid (x ∷ rs) = ground (arith, sum-pop_active f rid rs)

  -- What is taken out of the batch takes its own work with it.
  pub sum-pop_each :
      (f : GenerationRequest b → ℕ) (rs : List (GenerationRequest b))
      → OneEach rs
      → All (λ r. f r + sum f (pop_active r.request_id rs) ≤ sum f rs) rs
  unfolding pop_active
  sum-pop_each f [] one = tt
  sum-pop_each f (x ∷ rs) one = (
    ground arith,
    both rs (absent_all x.request_id rs (OneEach-head x rs one))
        (sum-pop_each f rs (OneEach-tail x rs one)),
  )
    where
      both :
          (ts : List (GenerationRequest b))
          → All (λ r. r.request_id ≢ x.request_id) ts
          → All (λ r. f r + sum f (pop_active r.request_id rs) ≤ sum f rs) ts
          → All (λ r. f r + sum f (pop_active r.request_id (x ∷ rs)) ≤ sum f (x ∷ rs)) ts
      both [] o p = tt
      both (t ∷ ts) (o, os) (p, ps) = (ground arith, both ts os ps)

  -- Decoding takes one off the work of each active request.
  pub Advances-sum :
      (cap : ℕ) (limits : Limits) (gate : Option (ClassificationGate b)) (now : ℕ)
      (rs rs' rs'' : List (GenerationRequest b)) (ids : List ℕ)
      → All (λ r. n_generated r ≤ cap) rs
      → Advances limits gate now rs rs' ids
      → All₂ SameTokens rs' rs''
      → sum (active_work cap) rs'' + length rs ≡ sum (active_work cap) rs
  Advances-sum cap limits gate now [] [] [] ids n a s = refl
  Advances-sum cap limits gate now [] [] (r'' ∷ rs'') ids n a s = absurd s
  Advances-sum cap limits gate now [] (r' ∷ rs') rs'' ids n a s = absurd a
  Advances-sum cap limits gate now (r ∷ rs) [] rs'' ids n a s = absurd a
  Advances-sum cap limits gate now (r ∷ rs) (r' ∷ rs') [] ids n a s = absurd s
  Advances-sum cap limits gate now (r ∷ rs) (r' ∷ rs') (r'' ∷ rs'') ids (n, ns)
        (done, rest, (nid, t, fired, e, f), a, g) ((i, p, same), ss) =
      let later = Advances-sum cap limits gate now rs rs' rs'' rest ns a ss in
      let more : n_generated r' ≡ n_generated r + 1 =
        ground (arith, length-append r.generated_ids (nid ∷ [])) in
      let kept : n_generated r'' ≡ n_generated r' = ap (λ (l : List ℕ). length l) same in
      omega arith
