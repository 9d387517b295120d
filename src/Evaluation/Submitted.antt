-- ===== src/Evaluation/Submitted.antt =====
-- The submissions of `run_strategy` in benchmark/routing_eval.py.
use probe_guided_inference.Base.{
  ℕ, zero, suc, ◌>>=◌, ◌+◌, ◌≡◌, refl, ap, sym, ◌∙◌, some, List, [], ◌∷◌, ◌++◌, append_assoc,
  append-nil, arith, ok, All, length, get_elem?, subst,
}
use probe_guided_inference.Backend.{Backend}
use probe_guided_inference.Queue.{GenerationRequest, make_request, submit}
use probe_guided_inference.Scheduler.Loop.{Process, Event, submits, step, run}
use probe_guided_inference.Scheduler.Origins.{Origin, origin}
use probe_guided_inference.Evaluation.{Sample, Bench, submission, submit_all}

-- `n` identifiers from `first` on.
abbrev pub ids_from : ℕ → ℕ → List ℕ
ids_from first zero = []
ids_from first (suc n) = first ∷ ids_from (first + 1) n

module _ {b : Backend} (bench : Bench b) (max_tokens : ℕ) (arrivals : ℕ → ℕ) where
  -- The requests for these samples, of which the first is sample `i`.
  abbrev pub asked : ℕ → List Sample → List (GenerationRequest b)
  asked i [] = []
  asked i (s ∷ samples) =
      make_request (i + 1) (arrivals i) (submission bench max_tokens i s) ∷ asked (suc i) samples

  abbrev pub submissions : ℕ → List Sample → List (ℕ × Event)
  submissions i [] = []
  submissions i (s ∷ samples) =
      (arrivals i, submits (submission bench max_tokens i s)) ∷ submissions (suc i) samples

  -- The process with these requests at the end of its queue.
  abbrev pub queued : Process b → List (GenerationRequest b) → ℕ → Process b
  queued p requests next_id = record {
    batcher = record p.batcher { queue = record { pending = p.batcher.queue.pending ++ requests } };
    next_id = next_id;
  }

  queued_cons :
      (p : Process b) (r : GenerationRequest b) (rs : List (GenerationRequest b)) (n m k : ℕ)
      → n ≡ k
      → queued (queued p (r ∷ []) m) rs n ≡ queued p (r ∷ rs) k
  queued_cons p r rs n m k e =
      ap
        (λ (l : List (GenerationRequest b)). record {
          batcher = record p.batcher { queue = record { pending = l } };
          next_id = n;
        })
        (append_assoc p.batcher.queue.pending (r ∷ []) rs)
      ∙ ap (queued p (r ∷ rs)) e

  queued_nil : (p : Process b) (n : ℕ) → p.next_id ≡ n → p ≡ queued p [] n
  queued_nil p n e =
      ap
        (λ (l : List (GenerationRequest b)). record {
          batcher = record p.batcher { queue = record { pending = l } };
          next_id = p.next_id;
        })
        (sym (append-nil p.batcher.queue.pending))
      ∙ ap (queued p []) e

  -- The process after the submission of sample `i` under the identifier `n`.
  abbrev next : Process b → ℕ → Sample → ℕ → Process b
  next p i s n =
      queued p (make_request n (arrivals i) (submission bench max_tokens i s) ∷ []) (n + 1)

  pub run-submissions :
      (p : Process b) (i : ℕ) (samples : List Sample)
      → p.next_id ≡ i + 1
      → run p (submissions i samples) ≡ ok (queued p (asked i samples) (i + 1 + length samples))
  unfolding run step submit
  run-submissions p i [] e = ap ok (queued_nil p (i + 1 + 0) (omega (arith, e)))
  run-submissions p i (s ∷ samples) e =
      let r = make_request (i + 1) (arrivals i) (submission bench max_tokens i s) in
      ap (λ n. run (next p i s n) (submissions (suc i) samples)) e
      ∙ run-submissions (next p i s (i + 1)) (suc i) samples (omega arith)
      ∙ ap ok (queued_cons p r (asked (suc i) samples) _ (i + 1 + 1) _ (omega arith))

  later : (i : ℕ) → suc i + 1 ≡ i + 1 + 1
  later i = omega arith

  pub submit_all_lem :
      (p : Process b) (i : ℕ) (samples : List Sample)
      → p.next_id ≡ i + 1
      → submit_all bench max_tokens arrivals i samples p
        ≡ ok
            (queued p (asked i samples) (i + 1 + length samples), ids_from (i + 1) (length samples))
  unfolding submit_all step submit
  submit_all_lem p i [] e = ap (λ q. ok (q, [])) (queued_nil p (i + 1 + 0) (omega (arith, e)))
  submit_all_lem p i (s ∷ samples) e =
      let r = make_request (i + 1) (arrivals i) (submission bench max_tokens i s) in
      ap
        (λ n. submit_all bench max_tokens arrivals (suc i) samples (next p i s n) >>= λ rest.
          ok (rest.0, n ∷ rest.1))
        e
      ∙ ap (λ m. m >>= λ rest. ok (rest.0, (i + 1) ∷ rest.1))
          (submit_all_lem (next p i s (i + 1)) (suc i) samples (omega arith))
      ∙ ap
          (λ k. ok (
            queued (next p i s (i + 1)) (asked (suc i) samples) (suc i + 1 + length samples),
            (i + 1) ∷ ids_from k (length samples),
          ))
          (later i)
      ∙ ap (λ q. ok (q, (i + 1) ∷ ids_from (i + 1 + 1) (length samples)))
          (queued_cons p r (asked (suc i) samples) _ (i + 1 + 1) _ (omega arith))

  -- What the request of sample `i` is, whatever has happened to it.
  abbrev pub IsFor : ℕ → Sample → Origin → Type 0
  IsFor i s o =
      (o.prompt_ids ≡ (submission bench max_tokens i s).prompt_ids)
      × (o.max_tokens ≡ max_tokens)
      × (o.arrival_time ≡ arrivals i)
      × (o.metadata ≡ (submission bench max_tokens i s).metadata)

  -- The request `j + 1` is the one of sample `j`.
  abbrev pub IsAsked : List Sample → Origin → Type 0
  IsAsked samples o =
      (j : ℕ) (s : Sample) → get_elem? samples j ≡ some s → o.request_id ≡ j + 1 → IsFor j s o

  pub asked_all :
      (whole : List Sample) (i : ℕ) (samples : List Sample)
      → ((k : ℕ) → get_elem? whole (i + k) ≡ get_elem? samples k)
      → All (λ r. IsAsked whole (origin r)) (asked i samples)
  unfolding make_request
  asked_all whole i [] same = tt
  asked_all whole i (s ∷ samples) same = (
    λ j t e f.
        let r : GenerationRequest b =
          make_request (i + 1) (arrivals i) (submission bench max_tokens i s) in
        let here : i ≡ j = omega (arith, f) in
        let known : get_elem? whole i ≡ some s = ap (get_elem? whole) (plus i) ∙ same 0 in
        let asked_here : get_elem? whole i ≡ some t = ap (get_elem? whole) here ∙ e in
        let one : s ≡ t = cc in
        subst (λ k. IsFor k t (origin r)) here
          (subst (λ u. IsFor i u (origin r)) one (refl, refl, refl, refl)),
    asked_all whole (suc i) samples (λ k. ap (get_elem? whole) (omega arith) ∙ same (suc k)),
  )
    where
      plus : (n : ℕ) → n ≡ n + 0
      plus n = omega arith
