-- ===== src/Scheduler/Pool.antt =====
-- What the batcher of src/scheduler.py promises of the places of its requests, as moves of jobs
-- between a queue, a batch and the list of what is finished, without caches, tokens and times.
pub mod Jobs
pub mod Changes
pub mod Following
pub mod Refinement
use probe_guided_inference.Base.{
  ℕ, ◌+◌, ◌≤◌, ◌<◌, ◌≡◌, refl, List, [], ◌∷◌, ◌++◌, map, length, All, All-append, arith, ap, subst,
  sym, ◌∙◌,
}
use probe_guided_inference.Backend.{Backend}
use probe_guided_inference.Queue.{GenerationRequest}
use probe_guided_inference.Scheduler.State.{Batcher, RoutingStrategy, probe_deprioritize}
use probe_guided_inference.Scheduler.Loop.{Process}

-- A job is an identifier with a priority; `next_id` is the next identifier.
pub record Pool : Type 0 where
  pub next_id : ℕ
  pub waiting : List (ℕ × ℕ)
  pub active : List (ℕ × ℕ)
  pub finished : List ℕ

-- `capacity` is the size of the batch.
pub data Move (strategy : RoutingStrategy) (capacity : ℕ) (t u : Pool) : Type 0 where
  -- a new job of priority 0, at the end of the queue
  arrives :
      u ≡ record t { next_id = t.next_id + 1; waiting = t.waiting ++ (t.next_id, 0) ∷ [] }
      → Move strategy capacity t u
  -- the job at the head of the queue, into a batch that has room
  admits :
      (j : ℕ × ℕ) (rest : List (ℕ × ℕ))
      → t.waiting ≡ j ∷ rest
      → length t.active < capacity
      → u ≡ record t { waiting = rest; active = t.active ++ j ∷ [] }
      → Move strategy capacity t u
  -- the same for a job that ends with its first token
  passes :
      (j : ℕ × ℕ) (rest : List (ℕ × ℕ))
      → t.waiting ≡ j ∷ rest
      → length t.active < capacity
      → u ≡ record t { waiting = rest; finished = t.finished ++ j.0 ∷ [] }
      → Move strategy capacity t u
  demotes :
      (xs : List (ℕ × ℕ)) (j : ℕ × ℕ) (ys : List (ℕ × ℕ))
      → strategy ≡ probe_deprioritize
      → t.active ≡ xs ++ j ∷ ys
      → u ≡ record t { active = xs ++ (j.0, 1) ∷ ys }
      → Move strategy capacity t u
  -- a demoted job leaves a full batch for the end of the queue, if a job of priority 0 is at its head
  preempts :
      (head : ℕ) (rest xs : List (ℕ × ℕ)) (k : ℕ) (ys : List (ℕ × ℕ))
      → strategy ≡ probe_deprioritize
      → t.waiting ≡ (head, 0) ∷ rest
      → capacity ≤ length t.active
      → t.active ≡ xs ++ (k, 1) ∷ ys
      → u ≡ record t { waiting = t.waiting ++ (k, 1) ∷ []; active = xs ++ ys }
      → Move strategy capacity t u
  finishes :
      (xs : List (ℕ × ℕ)) (j : ℕ × ℕ) (ys : List (ℕ × ℕ))
      → t.active ≡ xs ++ j ∷ ys
      → u ≡ record t { active = xs ++ ys; finished = t.finished ++ j.0 ∷ [] }
      → Move strategy capacity t u

pub data Reach (strategy : RoutingStrategy) (capacity : ℕ) (s : Pool) : Pool → Type 0 where
  here : Reach strategy capacity s s
  after :
      {t u : Pool}
      → Reach strategy capacity s t
      → Move strategy capacity t u
      → Reach strategy capacity s u

-- Of the priority of each job that waits or is active.
abbrev pub Ranks : (ℕ → Type 0) → Pool → Type 0
Ranks P t = All (λ (j : ℕ × ℕ). P j.1) t.waiting × All (λ (j : ℕ × ℕ). P j.1) t.active

-- Priorities are 0 and 1.
abbrev pub IsLow : Pool → Type 0
IsLow = Ranks (λ k. k ≤ 1)

All-before : {A : Type 0} (P : A → Type 0) (xs ys : List A) → All P (xs ++ ys) → All P xs × All P ys
All-before P [] ys h = (tt, h)
All-before P (x ∷ xs) ys (h, hs) = let (a, b) = All-before P xs ys hs in ((h, a), b)

module _ {strategy : RoutingStrategy} {capacity : ℕ} (P : ℕ → Type 0) (zeroth : P 0)
    (demoted : strategy ≡ probe_deprioritize → P 1) where
  Move-Ranks : {t u : Pool} → Move strategy capacity t u → Ranks P t → Ranks P u
  Move-Ranks {t} {u} (arrives e) (w, a) =
      rw e (All-append (λ (j : ℕ × ℕ). P j.1) t.waiting ((t.next_id, 0) ∷ []) w (zeroth, tt), a)
  Move-Ranks {t} {u} (admits j rest f less e) (w, a) =
      let (h, hs) = subst (λ l. All (λ (j : ℕ × ℕ). P j.1) l) f w in
      rw e (hs, All-append (λ (j : ℕ × ℕ). P j.1) t.active (j ∷ []) a (h, tt))
  Move-Ranks {t} {u} (passes j rest f less e) (w, a) =
      let (h, hs) = subst (λ l. All (λ (j : ℕ × ℕ). P j.1) l) f w in rw e (hs, a)
  Move-Ranks {t} {u} (demotes xs j ys d f e) (w, a) =
      let (x, y) =
        All-before (λ (j : ℕ × ℕ). P j.1) xs (j ∷ ys)
          (subst (λ l. All (λ (j : ℕ × ℕ). P j.1) l) f a) in
      rw e (w, All-append (λ (j : ℕ × ℕ). P j.1) xs ((j.0, 1) ∷ ys) x (demoted d, y.1))
  Move-Ranks {t} {u} (preempts head rest xs k ys d g full f e) (w, a) =
      let (x, y) =
        All-before (λ (j : ℕ × ℕ). P j.1) xs ((k, 1) ∷ ys)
          (subst (λ l. All (λ (j : ℕ × ℕ). P j.1) l) f a) in
      rw e (
        All-append (λ (j : ℕ × ℕ). P j.1) t.waiting ((k, 1) ∷ []) w (demoted d, tt),
        All-append (λ (j : ℕ × ℕ). P j.1) xs ys x y.1,
      )
  Move-Ranks {t} {u} (finishes xs j ys f e) (w, a) =
      let (x, y) =
        All-before (λ (j : ℕ × ℕ). P j.1) xs (j ∷ ys)
          (subst (λ l. All (λ (j : ℕ × ℕ). P j.1) l) f a) in
      rw e (w, All-append (λ (j : ℕ × ℕ). P j.1) xs ys x y.1)

  pub Reach-Ranks : {s t : Pool} → Reach strategy capacity s t → Ranks P s → Ranks P t
  Reach-Ranks here h = h
  Reach-Ranks (after r m) h = Move-Ranks m (Reach-Ranks r h)

module _ {strategy : RoutingStrategy} {capacity : ℕ} where
  pub Reach-IsLow : {s t : Pool} → Reach strategy capacity s t → IsLow s → IsLow t
  Reach-IsLow r h = Reach-Ranks (λ k. k ≤ 1) (omega arith) (λ d. omega arith) r h

  pub Reach-trans :
      {s t u : Pool}
      → Reach strategy capacity s t
      → Reach strategy capacity t u
      → Reach strategy capacity s u
  Reach-trans r here = r
  Reach-trans r (after q m) = after (Reach-trans r q) m

module _ {b : Backend} where
  abbrev pub job : GenerationRequest b → ℕ × ℕ
  job r = (r.request_id, r.priority)

  abbrev pub jobs : List (GenerationRequest b) → List (ℕ × ℕ)
  jobs = map job

  abbrev pub ids : List (GenerationRequest b) → List ℕ
  ids = map (λ (r : GenerationRequest b). r.request_id)

  abbrev pub pool_at : ℕ → Batcher b → Pool
  pool_at next_id s = record {
    next_id = next_id;
    waiting = jobs s.queue.pending;
    active = jobs s.active;
    finished = ids s.finished;
  }

  abbrev pub pool_of : Process b → Pool
  pool_of p = pool_at p.next_id p.batcher
