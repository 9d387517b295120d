-- ===== src/Evaluation/Awaited.antt =====
-- The wait of `run_strategy` in benchmark/routing_eval.py for the results of all requests.
use probe_guided_inference.Base.{
  ℕ, zero, suc, ◌+◌, ◌-◌, ◌≤◌, Bool, true, false, ◌&&◌, ◌≡◌, inl, inr, refl, ap, sym, ◌∙◌, Option,
  none, some, List, [], ◌∷◌, ◌++◌, arith, ok, raise, Result, ◌>>=◌, All, All-append, All-map,
  Bool-cases, length,
}
use probe_guided_inference.Backend.{Backend}
use probe_guided_inference.Model.{IsRowWise}
use probe_guided_inference.Queue.{GenerationRequest}
use probe_guided_inference.Scheduler.State.{Config, get_active}
use probe_guided_inference.Scheduler.Loop.{Process, rounds, step, run}
use probe_guided_inference.Scheduler.Places.{occurrences}
use probe_guided_inference.Scheduler.Each.{All-get_active}
use probe_guided_inference.Scheduler.Requests.{IsKept, round-IsKept}
use probe_guided_inference.Scheduler.Endings.{IsEnded}
use probe_guided_inference.Scheduler.Endings.Life.{endings}
use probe_guided_inference.Scheduler.Origins.{Origin, origin, origins}
use probe_guided_inference.Scheduler.Parity.{IsExact, Accepts}
use probe_guided_inference.Scheduler.Parity.Others.{get_active-some}
use probe_guided_inference.Scheduler.Parity.Histories.{IsServing, run-IsServing}
use probe_guided_inference.Scheduler.Work.{work}
use probe_guided_inference.Scheduler.Work.Draining.{Kept, round-work, nothing_waits, nothing_active}
use probe_guided_inference.Evaluation.{everyone, all_done, is_done, await_all}
use probe_guided_inference.Evaluation.Submitted.{ids_from}

module _ {b : Backend} (w : IsRowWise b) (config : Config b) (P : Origin → Type 0) where
  -- A process that makes rounds, in which `P` holds of the origin of each request.
  pub record IsRunning (p : Process b) : Type 0 where
    pub serving : IsServing w config p
    pub kept : Kept config p
    pub going : p.batcher.stopped ≡ false
    pub rooted : IsKept config (λ r. P (origin r)) (λ r. P (origin r)) (λ r. P (origin r)) p

  abbrev pub work_of : Process b → ℕ
  work_of p = work config.limits.max_tokens_cap p.batcher

  one_step :
      (p q : Process b) (now : ℕ) → run p ((now, rounds) ∷ []) ≡ ok q → step p (now, rounds) ≡ ok q
  unfolding run
  one_step p q now e = cases (step p (now, rounds)) e
    where
      cases : (m : Result (Process b)) → (m >>= λ r. ok r) ≡ ok q → m ≡ ok q
      cases (ok r) f = f
      cases (raise x) f = cc

  -- A round succeeds, goes on, and takes something off the work.
  round-IsRunning :
      (p : Process b) (now : ℕ)
      → Accepts config.gate
      → 1 ≤ config.max_batch_size
      → IsRunning p
      → (q : Process b) × (step p (now, rounds) ≡ ok q)
        × IsRunning q
        × (q.next_id ≡ p.next_id)
        × (work_of q ≤ work_of p - 1)
  round-IsRunning p now accepts positive i =
      let (q, e, serves) =
        run-IsServing w config p ((now, rounds) ∷ []) accepts (tt, tt) i.serving in
      let s = one_step p q now e in
      let (on, id, less) = round-work config p q now positive i.kept i.going s in
      (
        q,
        s,
        record {
          serving = serves;
          kept = round-IsKept now ((endings config).rounds_keep now) p q i.kept s;
          going = on;
          rooted = round-IsKept now (origins now config P) p q i.rooted s;
        },
        id,
        less,
      )

  -- What is known of a request whose result is there.
  abbrev pub IsFinal : GenerationRequest b → Type 0
  IsFinal r = IsEnded config r × IsExact w r.prompt_ids r.generated_ids × P (origin r)

  unanswered :
      (rs : List (GenerationRequest b))
      → All (λ r. r.result ≡ none) rs
      → All (λ r. is_done r.result ≡ true → IsFinal r) rs
  unanswered [] h = tt
  unanswered (r ∷ rs) (h, hs) =
      (λ done. let never : false ≡ true = ap is_done (sym h) ∙ done in absurd cc, unanswered rs hs)

  answered-IsFinal :
      (rs : List (GenerationRequest b))
      → All (IsEnded config) rs
      → All (λ r. IsExact w r.prompt_ids r.generated_ids) rs
      → All (λ r. P (origin r)) rs
      → All (λ r. is_done r.result ≡ true → IsFinal r) rs
  answered-IsFinal [] e x o = tt
  answered-IsFinal (r ∷ rs) (e, es) (x, xs) (o, os) = (λ _. (e, x, o), answered-IsFinal rs es xs os)

  pub everyone-IsFinal :
      (p : Process b)
      → IsRunning p
      → All (λ r. is_done r.result ≡ true → IsFinal r) (everyone p.batcher)
  everyone-IsFinal p i =
      let Q : GenerationRequest b → Type 0 = λ r. is_done r.result ≡ true → IsFinal r in
      All-append Q p.batcher.queue.pending (p.batcher.active ++ p.batcher.finished)
        (unanswered p.batcher.queue.pending
          (All-map (λ r u. u.unanswered) p.batcher.queue.pending i.kept.waiting))
        (All-append Q p.batcher.active p.batcher.finished
          (unanswered p.batcher.active
            (All-map (λ r u. u.unanswered) p.batcher.active i.kept.active))
          (answered-IsFinal p.batcher.finished i.kept.finished i.serving.finished
            i.rooted.finished))

module _ {b : Backend} where
  done_all :
      (rids : List ℕ) (rs : List (GenerationRequest b))
      → All (λ r. is_done r.result ≡ true) rs
      → All (λ k. 1 ≤ occurrences k rs) rids
      → all_done rids rs ≡ true
  unfolding all_done
  done_all [] rs done here = refl
  done_all (rid ∷ rids) rs done (one, here) =
      let (r, found) = get_active-some rid rs one in
      rw found (
        rw (All-get_active (λ r. is_done r.result ≡ true) rid rs done found)
          (done_all rids rs done here))

  ended-done :
      (config : Config b) (rs : List (GenerationRequest b))
      → All (IsEnded config) rs
      → All (λ r. is_done r.result ≡ true) rs
  ended-done config rs ended = All-map (λ r e. ap is_done e.answered) rs ended

  -- Of the requests that are awaited each has its result.
  pub all_done-get_active :
      (rids : List ℕ) (rs : List (GenerationRequest b))
      → all_done rids rs ≡ true
      → All
          (λ k. (r : GenerationRequest b) × (get_active k rs ≡ some r) × (is_done r.result ≡ true))
          rids
  unfolding all_done
  all_done-get_active [] rs e = tt
  all_done-get_active (rid ∷ rids) rs e =
      let (one, rest) = both _ (all_done rids rs) e in
      (first (get_active rid rs) refl one, all_done-get_active rids rs rest)
    where
      both : (x y : Bool) → x && y ≡ true → (x ≡ true) × (y ≡ true)
      both true y h = (refl, h)
      both false y h = cc

      first :
          (o : Option (GenerationRequest b))
          → get_active rid rs ≡ o
          → elim o as (λ _. Bool) [ none ↦ false | some req ↦ is_done req.result ] ≡ true
          → (r : GenerationRequest b) × (get_active rid rs ≡ some r) × (is_done r.result ≡ true)
      first none f g = cc
      first (some r) f g = (r, f, g)

ids_all :
    (Q : ℕ → Type 0) (first n : ℕ)
    → ((k : ℕ) → first ≤ k → k + 1 ≤ first + n → Q k)
    → All Q (ids_from first n)
ids_all Q first zero h = tt
ids_all Q first (suc n) h = (
  h first (omega arith) (omega arith),
  ids_all Q (first + 1) n (λ k l m. h k (omega arith) (omega arith)),
)

module _ {b : Backend} (w : IsRowWise b) (config : Config b) (P : Origin → Type 0) (n : ℕ) where
  idle_done :
      (p : Process b)
      → IsRunning w config P p
      → p.next_id ≡ n + 1
      → work_of w config P p ≤ 0
      → all_done (ids_from 1 n) (everyone p.batcher) ≡ true
  idle_done p i id idle =
      let waits =
        nothing_waits config config.limits.max_tokens_cap p.batcher.queue.pending (omega arith) in
      let active = nothing_active config p.batcher.active i.kept.active (omega arith) in
      let all : everyone p.batcher ≡ p.batcher.finished = rw (waits, active) refl in
      rw all (
        done_all (ids_from 1 n) p.batcher.finished
          (ended-done config p.batcher.finished i.kept.finished)
          (ids_all (λ k. 1 ≤ occurrences k p.batcher.finished) 1 n
            (λ k low high. ground (
              arith,
              i.kept.conserved.places k,
              ap (occurrences k) waits,
              ap (occurrences k) active,
              id,
            ))))

  -- With as many rounds as there is work, the wait ends.
  pub await_all-IsRunning :
      (times : List ℕ) (p : Process b)
      → Accepts config.gate
      → 1 ≤ config.max_batch_size
      → IsRunning w config P p
      → p.next_id ≡ n + 1
      → work_of w config P p ≤ length times
      → (q : Process b) × (await_all (ids_from 1 n) times p ≡ some q)
        × IsRunning w config P q
        × (all_done (ids_from 1 n) (everyone q.batcher) ≡ true)
  unfolding await_all
  await_all-IsRunning [] p accepts positive i id enough =
      let done = idle_done p i id enough in (p, rw done refl, i, done)
  await_all-IsRunning (now ∷ times) p accepts positive i id enough =
      elim (Bool-cases (all_done (ids_from 1 n) (everyone p.batcher))) [
        | inl done ↦ (p, rw done refl, i, done)
        | inr not_yet ↦
            let (r, e, j, same, less) = round-IsRunning w config P p now accepts positive i in
            let (q, f, k, done) =
              await_all-IsRunning times r accepts positive j (same ∙ id) (omega arith) in
            (q, rw (not_yet, e) f, k, done)
      ]
