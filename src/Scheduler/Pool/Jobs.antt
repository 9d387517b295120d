-- ===== src/Scheduler/Pool/Jobs.antt =====
-- The lists of requests of src/scheduler.py as lists of jobs.
use probe_guided_inference.Base.{
  ℕ, ◌+◌, ◌≡◌, refl, ap, subst, sym, ◌∙◌, ◌⊎◌, inl, inr, List, [], ◌∷◌, ◌++◌, arith, All, All₂,
  append_assoc,
}
use probe_guided_inference.Backend.{Backend}
use probe_guided_inference.Queue.{GenerationRequest}
use probe_guided_inference.Scheduler.State.{
  RoutingStrategy, probe_deprioritize, put_active, pop_active,
}
use probe_guided_inference.Scheduler.Places.{occurrences, occurrences-append}
use probe_guided_inference.Scheduler.Flags.{OneEach}
use probe_guided_inference.Scheduler.Pool.{Pool, Reach, job, jobs, demotes, after}

module _ {b : Backend} where
  pub jobs-append : (rs ts : List (GenerationRequest b)) → jobs (rs ++ ts) ≡ jobs rs ++ jobs ts
  jobs-append [] ts = refl
  jobs-append (r ∷ rs) ts = ap (◌∷◌ (job r)) (jobs-append rs ts)

  pub put_active_absent :
      (r : GenerationRequest b) (rs : List (GenerationRequest b))
      → occurrences r.request_id rs ≡ 0
      → put_active r rs ≡ rs ++ r ∷ []
  unfolding put_active
  put_active_absent r [] h = refl
  put_active_absent r (x ∷ rs) h = ground (arith, put_active_absent r rs)

  -- The request has a place in the list.
  abbrev pub IsPlaced : List (GenerationRequest b) → GenerationRequest b → Type 0
  IsPlaced rs r =
      (xs : List (GenerationRequest b)) × (ys : List (GenerationRequest b)) × (rs ≡ xs ++ r ∷ ys)

  every_place : (before rs : List (GenerationRequest b)) → All (IsPlaced (before ++ rs)) rs
  every_place before [] = tt
  every_place before (r ∷ rs) =
      let moved : (before ++ r ∷ []) ++ rs ≡ before ++ r ∷ rs = append_assoc before (r ∷ []) rs in
      (
        (before, rs, refl),
        subst (λ l. All (IsPlaced l) rs) moved (every_place (before ++ r ∷ []) rs),
      )

  pub All-IsPlaced : (rs : List (GenerationRequest b)) → All (IsPlaced rs) rs
  All-IsPlaced rs = every_place [] rs

  pop_active_split :
      (xs : List (GenerationRequest b)) (r : GenerationRequest b) (ys : List (GenerationRequest b))
      → occurrences r.request_id xs ≡ 0
      → pop_active r.request_id (xs ++ r ∷ ys) ≡ xs ++ ys
  unfolding pop_active
  pop_active_split [] r ys h = ground arith
  pop_active_split (x ∷ xs) r ys h = ground (arith, pop_active_split xs r ys)

  -- Taking a request out leaves the other jobs in their order.
  pub jobs-pop_active :
      (rs : List (GenerationRequest b)) (r : GenerationRequest b)
      → OneEach rs
      → IsPlaced rs r
      → (xs : List (ℕ × ℕ)) × (ys : List (ℕ × ℕ)) × (jobs rs ≡ xs ++ job r ∷ ys)
        × (jobs (pop_active r.request_id rs) ≡ xs ++ ys)
  jobs-pop_active rs r one (xs, ys, e) =
      let count : occurrences r.request_id rs
          ≡ occurrences r.request_id xs + occurrences r.request_id (r ∷ ys) =
        ap (occurrences r.request_id) e ∙ occurrences-append r.request_id xs (r ∷ ys) in
      let first : occurrences r.request_id xs ≡ 0 = ground (arith, one r.request_id) in
      (
        jobs xs,
        jobs ys,
        ap (λ l. jobs l) e ∙ jobs-append xs (r ∷ ys),
        ap (λ l. jobs (pop_active r.request_id l)) e
            ∙ ap (λ l. jobs l) (pop_active_split xs r ys first)
            ∙ jobs-append xs ys,
      )

  -- A round of decoding and routing keeps a request or demotes it.
  abbrev pub IsDemoted : RoutingStrategy → GenerationRequest b → GenerationRequest b → Type 0
  IsDemoted strategy r r' =
      (r'.request_id ≡ r.request_id)
      × ((r'.priority ≡ r.priority) ⊎ ((r'.priority ≡ 1) × (strategy ≡ probe_deprioritize)))

  pub demoted-Reach :
      (strategy : RoutingStrategy) (capacity : ℕ) (s t : Pool) (before : List (ℕ × ℕ))
      (rs rs' : List (GenerationRequest b))
      → All₂ (IsDemoted strategy) rs rs'
      → Reach strategy capacity s (record t { active = before ++ jobs rs })
      → Reach strategy capacity s (record t { active = before ++ jobs rs' })
  demoted-Reach strategy capacity s t before [] [] h reached = reached
  demoted-Reach strategy capacity s t before [] (r' ∷ rs') h reached = absurd h
  demoted-Reach strategy capacity s t before (r ∷ rs) [] h reached = absurd h
  demoted-Reach strategy capacity s t before (r ∷ rs) (r' ∷ rs') ((same, kind), h) reached =
      let at : List (ℕ × ℕ) → Pool = λ l. record t { active = l } in
      let moved = λ (l : List (ℕ × ℕ)). append_assoc before (job r' ∷ []) l in
      let one : Reach strategy capacity s (at (before ++ job r' ∷ jobs rs)) = elim kind [
        | inl kept ↦
            let j : job r ≡ job r' = ground arith in
            subst (λ j. Reach strategy capacity s (at (before ++ j ∷ jobs rs))) j reached
        | inr (demoted, d) ↦
            let j : (r.request_id, 1) ≡ job r' = ground arith in
            subst (λ j. Reach strategy capacity s (at (before ++ j ∷ jobs rs))) j
              (after reached (demotes before (job r) (jobs rs) d refl refl))
      ] in
      subst (λ l. Reach strategy capacity s (at l)) (moved (jobs rs'))
        (demoted-Reach strategy capacity s t (before ++ job r' ∷ []) rs rs' h
          (subst (λ l. Reach strategy capacity s (at l)) (sym (moved (jobs rs))) one))
