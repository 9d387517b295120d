-- ===== src/Scheduler/Pool/Changes.antt =====
-- What the parts of a round of src/scheduler.py do to the jobs of requests.
use probe_guided_inference.Base.{
  ℕ, ◌≤◌, ◌≡◌, refl, ap, ◌∙◌, inl, inr, List, [], ◌∷◌, ◌++◌, arith, All, All₂,
}
use probe_guided_inference.Backend.{Backend}
use probe_guided_inference.Queue.{GenerationRequest}
use probe_guided_inference.Runner.{Prefilled, Limits}
use probe_guided_inference.Runner.Steps.{IsPrefilled, IsFired}
use probe_guided_inference.Scheduler.State.{Config}
use probe_guided_inference.Scheduler.Flags.{IsTicked, Ticked, outcome}
use probe_guided_inference.Scheduler.Routed.{outcome-IsRouted}
use probe_guided_inference.Scheduler.Pool.{Pool, job, jobs, ids}
use probe_guided_inference.Scheduler.Pool.Jobs.{IsDemoted}

module _ {b : Backend} where
  pub ids-append : (rs ts : List (GenerationRequest b)) → ids (rs ++ ts) ≡ ids rs ++ ids ts
  ids-append [] ts = refl
  ids-append (r ∷ rs) ts = ap (◌∷◌ r.request_id) (ids-append rs ts)

  pub low_requests :
      (rs : List (GenerationRequest b))
      → All (λ (j : ℕ × ℕ). j.1 ≤ 1) (jobs rs)
      → All (λ (r : GenerationRequest b). r.priority ≤ 1) rs
  low_requests [] h = tt
  low_requests (r ∷ rs) (h, hs) = (h, low_requests rs hs)

  IsFired-kept :
      (now : ℕ) (config : Config b) (r r' : GenerationRequest b)
      → IsFired config.gate now r r'
      → job r' ≡ job r
  IsFired-kept now config r r' (inl (same, unready)) = ap job same
  IsFired-kept now config r r' (inr (g, hidden, d, e, f, ready, answer, same)) = ap job same

  routed-IsDemoted :
      (config : Config b) (r : GenerationRequest b)
      → IsDemoted config.strategy r (outcome config r).0
  routed-IsDemoted config r = elim (outcome-IsRouted config r) [
    | inl (flag, (routed, priority, e, kind)) ↦ rw e (refl, kind)
    | inr (flag, (strategy, decision, d, divergent, confident, e)) ↦ rw e (refl, inl refl)
  ]

  ticked-IsDemoted :
      (now : ℕ) (config : Config b) (r r'' : GenerationRequest b) (finishing : _)
      → IsTicked config.limits config now r r'' finishing
      → IsDemoted config.strategy r r''
  ticked-IsDemoted now config r r'' finishing (r', done, (nid, s, fired, e, f), g, h) =
      let kept = IsFired-kept now config _ s fired in
      let id : r'.request_id ≡ r.request_id = ground (arith, ap (λ (j : ℕ × ℕ). j.0) kept) in
      let priority : r'.priority ≡ r.priority = ground (arith, ap (λ (j : ℕ × ℕ). j.1) kept) in
      let (same, kind) = routed-IsDemoted config r' in
      rw g (same ∙ id, elim kind [ inl k ↦ inl (k ∙ priority) | inr k ↦ inr k ])

  pub Ticked-IsDemoted :
      (now : ℕ) (config : Config b) (rids : List ℕ) (rs rs'' : List (GenerationRequest b))
      → Ticked config.limits config now rids rs rs''
      → All₂ (IsDemoted config.strategy) rs rs''
  Ticked-IsDemoted now config rids [] [] h = tt
  Ticked-IsDemoted now config rids [] (r'' ∷ rs'') h = absurd h
  Ticked-IsDemoted now config rids (r ∷ rs) [] h = absurd h
  Ticked-IsDemoted now config rids (r ∷ rs) (r'' ∷ rs'') (h, hs) =
      (ticked-IsDemoted now config r r'' _ h, Ticked-IsDemoted now config rids rs rs'' hs)

  pub prefilled_job :
      (limits : Limits) (r : GenerationRequest b) (p : Prefilled b)
      → IsPrefilled limits r p
      → job p.req ≡ job r
  prefilled_job limits r p (nid, e, f) =
      let id : p.req.request_id ≡ r.request_id = ground (arith, e) in
      let priority : p.req.priority ≡ r.priority = ground (arith, e) in ground (arith, id, priority)

abbrev pub pool_with : ℕ → List (ℕ × ℕ) → List (ℕ × ℕ) → List ℕ → Pool
pool_with next_id w a f = record { next_id = next_id; waiting = w; active = a; finished = f }

pub same_pool :
    (next_id : ℕ) {w w' a a' : List (ℕ × ℕ)} {f f' : List ℕ}
    → w ≡ w'
    → a ≡ a'
    → f ≡ f'
    → pool_with next_id w a f ≡ pool_with next_id w' a' f'
same_pool next_id e g h = cc
