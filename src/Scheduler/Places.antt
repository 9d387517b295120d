-- ===== src/Scheduler/Places.antt =====
-- How often an identifier occurs among the requests of the queue, of the batch and of the finished.
use probe_guided_inference.Base.{
  ℕ, suc, ◌+◌, ◌-◌, ◌≤◌, Bool, true, false, ◌≡◌, refl, some, List, [], ◌∷◌, ◌++◌, arith, ◌==◌, take,
  drop, take-append-drop, All₂, ap, length,
}
use native.Mathlib.Decide.{ℕ_discrete}
use probe_guided_inference.Backend.{Backend}
use probe_guided_inference.Queue.{GenerationRequest, RequestQueue, push_front_priority_aware}
use probe_guided_inference.Queue.Order.{requeue_split, requeue_normal}
use probe_guided_inference.Scheduler.State.{Batcher, put_active, pop_active, get_active}

abbrev pub one_if : Bool → ℕ
one_if true = 1
one_if false = 0

module _ {b : Backend} where
  abbrev pub occurrences : ℕ → List (GenerationRequest b) → ℕ
  occurrences k [] = 0
  occurrences k (r ∷ rs) = one_if (r.request_id == k) + occurrences k rs

  -- The number of places in which the request `k` is held.
  abbrev pub held : ℕ → Batcher b → ℕ
  held k s = occurrences k s.queue.pending + occurrences k s.active + occurrences k s.finished

  abbrev pub SameId : GenerationRequest b → GenerationRequest b → Type 0
  SameId r r' = r'.request_id ≡ r.request_id

  pub occurrences-append :
      (k : ℕ) (rs ts : List (GenerationRequest b))
      → occurrences k (rs ++ ts) ≡ occurrences k rs + occurrences k ts
  occurrences-append k [] ts = omega arith
  occurrences-append k (r ∷ rs) ts = omega (arith, occurrences-append k rs ts)

  pub occurrences-put_active :
      (k : ℕ) (r : GenerationRequest b) (rs : List (GenerationRequest b))
      → occurrences r.request_id rs ≡ 0
      → occurrences k (put_active r rs) ≡ occurrences k rs + one_if (r.request_id == k)
  unfolding put_active
  occurrences-put_active k r [] h = omega arith
  occurrences-put_active k r (x ∷ rs) h = ground (arith, occurrences-put_active k r rs)

  pub occurrences-pop_active :
      (k rid : ℕ) (rs : List (GenerationRequest b))
      → occurrences k (pop_active rid rs) ≡ occurrences k rs - one_if (rid == k)
  unfolding pop_active
  occurrences-pop_active k rid [] = omega arith
  occurrences-pop_active k rid (x ∷ rs) = ground (arith, occurrences-pop_active k rid rs)

  pub get_active_lem :
      (rid : ℕ) (rs : List (GenerationRequest b)) (r : GenerationRequest b)
      → get_active rid rs ≡ some r
      → (r.request_id ≡ rid) × (1 ≤ occurrences rid rs)
  unfolding get_active
  get_active_lem rid [] r h = cc
  get_active_lem rid (x ∷ rs) r h = ground (arith, get_active_lem rid rs r)

  pub occurrences-requeue :
      (k : ℕ) (r : GenerationRequest b) (q : RequestQueue b)
      → occurrences k (push_front_priority_aware r q).pending
        ≡ one_if (r.request_id == k) + occurrences k q.pending
  occurrences-requeue k r q = elim (ℕ_discrete r.priority 0) [
    | yes normal ↦ rw (requeue_normal r q normal)
    | no other ↦
        let (n, e, all, differs) = requeue_split r q other in
        rw e (
          omega (
            arith,
            occurrences-append k (take n q.pending) (r ∷ drop n q.pending),
            occurrences-append k (take n q.pending) (drop n q.pending),
            ap (occurrences k) (take-append-drop n q.pending),
          ))
  ]

  pub occurrences-All₂ :
      (k : ℕ) (rs ts : List (GenerationRequest b))
      → All₂ SameId rs ts
      → occurrences k ts ≡ occurrences k rs
  occurrences-All₂ k [] [] h = refl
  occurrences-All₂ k [] (t ∷ ts) h = absurd h
  occurrences-All₂ k (r ∷ rs) [] h = absurd h
  occurrences-All₂ k (r ∷ rs) (t ∷ ts) h = ground (arith, occurrences-All₂ k rs ts)

  pub length-put_active :
      (r : GenerationRequest b) (rs : List (GenerationRequest b))
      → occurrences r.request_id rs ≡ 0
      → length (put_active r rs) ≡ length rs + 1
  unfolding put_active
  length-put_active r [] h = omega arith
  length-put_active r (x ∷ rs) h = ground (arith, length-put_active r rs)

  pub length-pop_active :
      (rid : ℕ) (rs : List (GenerationRequest b))
      → 1 ≤ occurrences rid rs
      → length (pop_active rid rs) + 1 ≡ length rs
  unfolding pop_active
  length-pop_active rid [] h = absurd (omega arith)
  length-pop_active rid (x ∷ rs) h = ground (arith, length-pop_active rid rs)

  pub pop_active_absent :
      (rid : ℕ) (rs : List (GenerationRequest b)) → occurrences rid rs ≡ 0 → pop_active rid rs ≡ rs
  unfolding pop_active
  pop_active_absent rid [] h = refl
  pop_active_absent rid (x ∷ rs) h = ground (arith, pop_active_absent rid rs)

  pub length-All₂ : (rs ts : List (GenerationRequest b)) → All₂ SameId rs ts → length ts ≡ length rs
  length-All₂ [] [] h = refl
  length-All₂ [] (t ∷ ts) h = absurd h
  length-All₂ (r ∷ rs) [] h = absurd h
  length-All₂ (r ∷ rs) (t ∷ ts) h = ap suc (length-All₂ rs ts h.1)
