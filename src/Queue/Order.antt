-- ===== src/Queue/Order.antt =====
-- Where src/queue.py puts a request that goes back to the queue.
use mathlib.Core.List.Perm
use mathlib.Core.List.{Perm, perm_middle}
use native.Mathlib.Decide.{ℕ_discrete}
use mathlib.Core.Path.{ap₂}
use probe_guided_inference.Base.{
  sym, subst, ℕ, suc, ◌+◌, ◌≤◌, ◌≡◌, ◌≢◌, refl, ap, ◌∙◌, ◌⊎◌, inl, inr, Bool-cases, List, [], ◌∷◌,
  ◌++◌, append-nil, arith, length, take, drop, take-append-drop, drop-drop, All, All-drop, ◌==◌,
}
use probe_guided_inference.Backend.{Backend}
use probe_guided_inference.Queue.{
  GenerationRequest, RequestQueue, after_last_normal, skip_deprioritized, push_front_priority_aware,
}

module _ {b : Backend} where
  abbrev pub IsDeprioritized : GenerationRequest b → Type 0
  IsDeprioritized req = req.priority ≢ 0

  -- The request at the front of the list, if there is one, has another priority than 1.
  abbrev pub HeadDiffers : List (GenerationRequest b) → Type 0
  HeadDiffers [] = Unit {0}
  HeadDiffers (req ∷ rest) = req.priority ≢ 1

  after_last_normal_lem :
      (xs : List (GenerationRequest b)) (i next : ℕ)
      → ((after_last_normal xs i next ≡ next) × All IsDeprioritized xs)
        ⊎ ((k : ℕ) × (after_last_normal xs i next ≡ i + k)
            × (k ≤ length xs)
            × All IsDeprioritized (drop k xs))
  unfolding after_last_normal
  after_last_normal_lem [] i next = inl (refl, tt)
  after_last_normal_lem (x ∷ xs) i next = elim (Bool-cases (x.priority == 0)) [
    | inl normal ↦ rw normal (elim (after_last_normal_lem xs (suc i) (suc i)) [
      | inl (e, all) ↦ inr (1, omega arith, omega arith, all)
      | inr (k, e, le, all) ↦ inr (suc k, omega arith, omega arith, all)
    ])
    | inr other ↦ rw other (elim (after_last_normal_lem xs (suc i) next) [
      | inl (e, all) ↦ inl (e, (λ z. ground arith, all))
      | inr (k, e, le, all) ↦ inr (suc k, omega arith, omega arith, all)
    ])
  ]

  skip_deprioritized_lem :
      (xs : List (GenerationRequest b)) (idx : ℕ)
      → (m : ℕ) × (skip_deprioritized xs idx ≡ idx + m) × (m ≤ length xs) × HeadDiffers (drop m xs)
  unfolding skip_deprioritized
  skip_deprioritized_lem [] idx = (0, omega arith, omega arith, tt)
  skip_deprioritized_lem (x ∷ xs) idx = elim (Bool-cases (x.priority == 1)) [
    | inl same ↦
        let (m, e, le, differs) = skip_deprioritized_lem xs (suc idx) in
        rw same (suc m, omega arith, omega arith, differs)
    | inr other ↦ rw other (0, omega arith, omega arith, λ z. ground arith)
  ]

  start_lem :
      (xs : List (GenerationRequest b))
      → (k : ℕ) × (after_last_normal xs 0 0 ≡ k) × All IsDeprioritized (drop k xs)
  start_lem xs = elim (after_last_normal_lem xs 0 0) [
    | inl (e, all) ↦ (0, e, all)
    | inr (k, e, le, all) ↦ (k, omega arith, all)
  ]

  -- A request that is not of priority 0 is inserted at a place behind which no request has
  -- priority 0, and the request right behind it, if there is one, is not of priority 1; all
  -- others keep their order.
  pub requeue_split :
      (req : GenerationRequest b) (q : RequestQueue b)
      → IsDeprioritized req
      → (n : ℕ) × ((push_front_priority_aware req q).pending
          ≡ take n q.pending ++ req ∷ drop n q.pending)
        × All IsDeprioritized (drop n q.pending)
        × HeadDiffers (drop n q.pending)
  unfolding push_front_priority_aware
  requeue_split req q h = elim (Bool-cases (req.priority == 0)) [
    | inl normal ↦ absurd (h (ground arith))
    | inr other ↦
        let (k, e, all) = start_lem q.pending in
        let (m, f, le, differs) = skip_deprioritized_lem (drop k q.pending) k in
        let shift = drop-drop k m q.pending in
        (
          k + m,
          rw (other, e, f),
          rw (← shift) (All-drop IsDeprioritized m (drop k q.pending) all),
          rw (← shift) differs,
        )
  ]

  All-below_two :
      (xs : List (GenerationRequest b))
      → All IsDeprioritized xs
      → All (λ r. r.priority ≤ 1) xs
      → HeadDiffers xs
      → xs ≡ []
  All-below_two [] d l h = refl
  All-below_two (x ∷ xs) d l h = absurd (h (ground arith))

  -- In a queue whose priorities are 0 and 1, a request that is not of priority 0 is put back at
  -- the end of the queue.
  pub requeue-eq-append :
      (req : GenerationRequest b) (q : RequestQueue b)
      → IsDeprioritized req
      → All (λ r. r.priority ≤ 1) q.pending
      → (push_front_priority_aware req q).pending ≡ q.pending ++ req ∷ []
  requeue-eq-append req q h low =
      let (n, e, all, differs) = requeue_split req q h in
      let none_left =
        All-below_two (drop n q.pending) all (All-drop (λ r. r.priority ≤ 1) n q.pending low)
          differs in
      let whole : take n q.pending ≡ q.pending =
        sym (append-nil (take n q.pending))
        ∙ ap (λ (l : List (GenerationRequest b)). take n q.pending ++ l) (sym none_left)
        ∙ take-append-drop n q.pending in
      e ∙ ap₂ (λ (l r : List (GenerationRequest b)). l ++ req ∷ r) whole none_left

  -- A request of normal priority goes to the front.
  pub requeue_normal :
      (req : GenerationRequest b) (q : RequestQueue b)
      → req.priority ≡ 0
      → (push_front_priority_aware req q).pending ≡ req ∷ q.pending
  unfolding push_front_priority_aware
  requeue_normal req q h = ground arith

  -- Putting a request back to the queue adds this request and neither loses nor repeats
  -- another, whatever the priorities are.
  pub requeue-perm :
      (req : GenerationRequest b) (q : RequestQueue b)
      → Perm (push_front_priority_aware req q).pending (req ∷ q.pending)
  requeue-perm req q = elim (ℕ_discrete req.priority 0) [
    | yes normal ↦ rw (requeue_normal req q normal) (Perm.refl (req ∷ q.pending))
    | no other ↦
        let (n, e, all, differs) = requeue_split req q other in
        rw e (
          subst (λ l. Perm (take n q.pending ++ req ∷ drop n q.pending) (req ∷ l))
            (take-append-drop n q.pending) (perm_middle (take n q.pending) (drop n q.pending)))
  ]
