-- ===== src/Tests/Queues.antt =====
-- Runs of the queue of src/queue.py.
use probe_guided_inference.Base.{ℕ, true, none, ◌≡◌, [], ◌∷◌, ◌++◌, arith, All}
use mathlib.Core.List.{Perm}
use probe_guided_inference.Queue.{
  GenerationRequest, RequestQueue, Submission, make_request, push_front_priority_aware,
}
use probe_guided_inference.Queue.Order.{
  IsDeprioritized, HeadDiffers, requeue_split, requeue-eq-append, requeue-perm,
}
use probe_guided_inference.Base.{take, drop}
use probe_guided_inference.Tests.Toy.{toy}

abbrev pub asked : ℕ → ℕ → Submission
asked most token = record {
  prompt = "prompt";
  max_tokens = most;
  prompt_ids = token ∷ 5 ∷ [];
  stream = true;
  metadata = none;
}

abbrev pub waiting : ℕ → ℕ → GenerationRequest toy
waiting id priority = record (make_request {b = toy} id 0 (asked 4 3)) { priority = priority }

abbrev mixed : RequestQueue toy
mixed = record { pending = waiting 1 0 ∷ waiting 2 1 ∷ waiting 3 0 ∷ [] }

requeue_split_example :
    (n : ℕ) × ((push_front_priority_aware (waiting 4 1) mixed).pending
      ≡ take n mixed.pending ++ waiting 4 1 ∷ drop n mixed.pending)
    × All IsDeprioritized (drop n mixed.pending)
    × HeadDiffers (drop n mixed.pending)
requeue_split_example = requeue_split (waiting 4 1) mixed (λ e. omega arith)

requeue-eq-append_example :
    (push_front_priority_aware (waiting 4 1) mixed).pending ≡ mixed.pending ++ waiting 4 1 ∷ []
requeue-eq-append_example =
    requeue-eq-append (waiting 4 1) mixed (λ e. omega arith)
      (omega arith, (omega arith, (omega arith, tt)))

requeue-perm_example :
    Perm (push_front_priority_aware (waiting 4 1) mixed).pending (waiting 4 1 ∷ mixed.pending)
requeue-perm_example = requeue-perm (waiting 4 1) mixed
