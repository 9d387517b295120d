-- ===== src/Scheduler/Each.antt =====
-- What holds of each request of a list, under the operations of the queue and of `self.active`.
use probe_guided_inference.Base.{
  ℕ, Bool, true, ◌≡◌, inl, inr, none, some, List, [], ◌∷◌, arith, ◌==◌, if_ind, Bool-cases, All,
  All-append, All-drop, All-take, ltb, take, drop, select, if◌then◌else◌, subst,
}
use native.Mathlib.Decide.{ℕ_discrete}
use probe_guided_inference.Backend.{Backend}
use probe_guided_inference.Queue.{
  GenerationRequest, RequestQueue, push_front_priority_aware, n_generated,
}
use probe_guided_inference.Queue.Order.{requeue_split, requeue_normal}
use probe_guided_inference.Scheduler.State.{get_active, put_active, pop_active}
use probe_guided_inference.Scheduler.Admit.{find_deprioritize_victim, least_progress}

module _ {b : Backend} (P : GenerationRequest b → Type 0) where
  pub All-put_active :
      (r : GenerationRequest b) (rs : List (GenerationRequest b))
      → P r
      → All P rs
      → All P (put_active r rs)
  unfolding put_active
  All-put_active r [] p h = (p, tt)
  All-put_active r (x ∷ rs) p h =
      if_ind (All P) (x.request_id == r.request_id) (λ _. (p, h.1))
        (λ _. (h.0, All-put_active r rs p h.1))

  pub All-pop_active :
      (rid : ℕ) (rs : List (GenerationRequest b)) → All P rs → All P (pop_active rid rs)
  unfolding pop_active
  All-pop_active rid [] h = tt
  All-pop_active rid (x ∷ rs) h =
      if_ind (All P) (x.request_id == rid) (λ _. h.1) (λ _. (h.0, All-pop_active rid rs h.1))

  pub All-get_active :
      (rid : ℕ) (rs : List (GenerationRequest b)) {r : GenerationRequest b}
      → All P rs
      → get_active rid rs ≡ some r
      → P r
  unfolding get_active
  All-get_active rid [] h e = cc
  All-get_active rid (x ∷ rs) {r} h e = elim (Bool-cases (x.request_id == rid)) [
    | inl here ↦ let same : x ≡ r = ground arith in subst P same h.0
    | inr there ↦ All-get_active rid rs h.1 (ground arith)
  ]

  pub All-requeue :
      (r : GenerationRequest b) (q : RequestQueue b)
      → P r
      → All P q.pending
      → All P (push_front_priority_aware r q).pending
  All-requeue r q p h = elim (ℕ_discrete r.priority 0) [
    | yes normal ↦ rw (requeue_normal r q normal) (p, h)
    | no other ↦
        let (n, e, all, differs) = requeue_split r q other in
        rw e (
          All-append P (take n q.pending) (r ∷ drop n q.pending) (All-take P n q.pending h)
            (p, All-drop P n q.pending h))
  ]

  least_progress_ind :
      (best : GenerationRequest b) (rs : List (GenerationRequest b))
      → P best
      → All P rs
      → P (least_progress best rs)
  unfolding least_progress
  least_progress_ind best [] p h = p
  least_progress_ind best (r ∷ rs) p h =
      least_progress_ind (if ltb (n_generated r) (n_generated best) then r else best) rs
        (if_ind P (ltb (n_generated r) (n_generated best)) (λ _. h.0) (λ _. p)) h.1

module _ {b : Backend} (P : GenerationRequest b → Type 0) where
  All-select :
      (keep : GenerationRequest b → Bool) (rs : List (GenerationRequest b))
      → All P rs
      → All (λ r. P r × (keep r ≡ true)) (select keep rs)
  All-select keep [] h = tt
  All-select keep (r ∷ rs) h =
      if_ind (All (λ r. P r × (keep r ≡ true))) (keep r)
        (λ kept. ((h.0, kept), All-select keep rs h.1)) (λ _. All-select keep rs h.1)

  -- The victim of a preemption is an active request of priority 1.
  pub victim_ind :
      (rs : List (GenerationRequest b)) (victim : GenerationRequest b)
      → All P rs
      → find_deprioritize_victim rs ≡ some victim
      → P victim × (victim.priority ≡ 1)
  unfolding find_deprioritize_victim
  victim_ind rs victim h e =
      cases (select (λ (r : GenerationRequest b). r.priority == 1) rs)
        (All-select (λ r. r.priority == 1) rs h) e
    where
      cases :
          (candidates : List (GenerationRequest b))
          → All (λ r. P r × (r.priority == 1 ≡ true)) candidates
          → elim candidates [ [] ↦ none | r ∷ rest ↦ some (least_progress r rest) ] ≡ some victim
          → P victim × (victim.priority ≡ 1)
      cases [] all f = cc
      cases (r ∷ rest) all f =
          let found = least_progress_ind (λ r. P r × (r.priority == 1 ≡ true)) r rest all.0 all.1 in
          let same : least_progress r rest ≡ victim = cc in
          (subst P same found.0, subst (λ r. r.priority ≡ 1) same (ground arith))
