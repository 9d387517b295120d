-- ===== src/Scheduler/Parity/Others.antt =====
-- What an operation of src/scheduler.py on one request leaves of the others, for requests that are
-- faithful to the reference.
use probe_guided_inference.Base.{
  ℕ, ◌≤◌, ◌≡◌, ◌≢◌, refl, Option, none, some, List, [], ◌∷◌, arith, All, All₂, if_ind, ◌==◌,
}
use probe_guided_inference.Backend.{Backend}
use probe_guided_inference.Model.{IsRowWise}
use probe_guided_inference.Gate.{ClassificationGate, is_divergent}
use probe_guided_inference.Queue.{GenerationRequest}
use probe_guided_inference.Cache.{BatchedSequenceCache, SeqCache, store_prefill, evict}
use probe_guided_inference.Scheduler.State.{Config, get_active}
use probe_guided_inference.Scheduler.Route.{route_all, apply_routing}
use probe_guided_inference.Scheduler.Places.{occurrences}
use probe_guided_inference.Scheduler.Parity.{IsFaithful, insert-Faithful, evict-Faithful}
use probe_guided_inference.Scheduler.Parity.Advancing.{SameTokens}

module _ {b : Backend} where
  pub absent_all :
      (k : ℕ) (rs : List (GenerationRequest b))
      → occurrences k rs ≡ 0
      → All (λ r. r.request_id ≢ k) rs
  absent_all k [] o = tt
  absent_all k (r ∷ rs) o = (ground arith, absent_all k rs (omega arith))

  pub get_active-some :
      (rid : ℕ) (rs : List (GenerationRequest b))
      → 1 ≤ occurrences rid rs
      → (r : GenerationRequest b) × (get_active rid rs ≡ some r)
  unfolding get_active
  get_active-some rid [] h = absurd (omega arith)
  get_active-some rid (x ∷ rs) h =
      if_ind (λ t. (r : GenerationRequest b) × (t ≡ some r)) (x.request_id == rid) (λ _. (x, refl))
        (λ other. get_active-some rid rs (ground arith))

  route_all-SameTokens :
      (config : Config b) (rs : List (GenerationRequest b))
      → All₂ SameTokens rs (route_all config rs).0
  unfolding route_all is_divergent
  route_all-SameTokens config [] = tt
  route_all-SameTokens config (r ∷ rs) =
      ((ground arith, ground arith, ground arith), route_all-SameTokens config rs)

  pub apply_routing-SameTokens :
      (config : Config b) (rs : List (GenerationRequest b))
      → All₂ SameTokens rs (apply_routing config rs).0
  unfolding apply_routing
  apply_routing-SameTokens config rs = cases config.gate
    where
      same : (ts : List (GenerationRequest b)) → All₂ SameTokens ts ts
      same [] = tt
      same (t ∷ ts) = ((refl, refl, refl), same ts)

      cases :
          (gate : Option (ClassificationGate b))
          → All₂ SameTokens rs
              (elim gate as (λ _. List (GenerationRequest b) × List ℕ) [
                | none ↦ (rs, [])
                | some g ↦ route_all config rs
              ]).0
      cases none = same rs
      cases (some g) = route_all-SameTokens config rs

module _ {b : Backend} (w : IsRowWise b) where
  pub insert_all :
      (c : BatchedSequenceCache b) (k n : ℕ) (past : SeqCache b) (rs : List (GenerationRequest b))
      → All (λ r. r.request_id ≢ k) rs
      → All (IsFaithful w c) rs
      → All (IsFaithful w (store_prefill k past n c)) rs
  insert_all c k n past [] other f = tt
  insert_all c k n past (r ∷ rs) (other, others) (f, fs) = (
    insert-Faithful w c k n r.request_id past r.prompt_ids r.generated_ids other f,
    insert_all c k n past rs others fs,
  )

  pub evict_all :
      (c : BatchedSequenceCache b) (k : ℕ) (rs : List (GenerationRequest b))
      → All (λ r. r.request_id ≢ k) rs
      → All (IsFaithful w c) rs
      → All (IsFaithful w (evict k c)) rs
  evict_all c k [] other f = tt
  evict_all c k (r ∷ rs) (other, others) (f, fs) = (
    evict-Faithful w c k r.request_id r.prompt_ids r.generated_ids other f,
    evict_all c k rs others fs,
  )

  pub tokens_all :
      (c : BatchedSequenceCache b) (rs rs' : List (GenerationRequest b))
      → All₂ SameTokens rs rs'
      → All (IsFaithful w c) rs
      → All (IsFaithful w c) rs'
  tokens_all c [] [] s f = tt
  tokens_all c [] (r' ∷ rs') s f = absurd s
  tokens_all c (r ∷ rs) [] s f = absurd s
  tokens_all c (r ∷ rs) (r' ∷ rs') ((i, p, t), s) (f, fs) =
      (rw (i, p, t) f, tokens_all c rs rs' s fs)
