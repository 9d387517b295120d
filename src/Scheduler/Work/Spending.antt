-- ===== src/Scheduler/Work/Spending.antt =====
-- What each step of a tick of src/scheduler.py takes off the work that is left.
use probe_guided_inference.Base.{
  ℕ, ◌+◌, ◌≤◌, true, ◌≡◌, ◌≢◌, ◌⊎◌, inl, inr, refl, ap, sym, ◌∙◌, some, List, [], ◌∷◌, arith,
  length-append, All, All-map, length, or_raise, key_error, subst, After, After-map, After-pair,
  After-unit, Bool-cases,
}
use probe_guided_inference.Backend.{Backend}
use probe_guided_inference.Queue.{GenerationRequest, n_generated}
use probe_guided_inference.Runner.{Prefilled, Decoded, run_prefill, run_decode_step}
use probe_guided_inference.Runner.Steps.{
  IsPrefilled, Advances, run_prefill_lem, run_decode_step_lem,
}
use probe_guided_inference.Scheduler.State.{Config, Batcher, finish, get_active, pop_active}
use probe_guided_inference.Scheduler.Admit.{
  admit_one, place, preempt, reset, find_deprioritize_victim,
}
use probe_guided_inference.Scheduler.Route.{apply_routing}
use probe_guided_inference.Scheduler.Rule.{Rule, is_contended, routed, to_finish}
use probe_guided_inference.Scheduler.Steps.{with_queue, admit_one_ind}
use probe_guided_inference.Scheduler.Places.{occurrences}
use probe_guided_inference.Scheduler.Each.{victim_ind}
use probe_guided_inference.Scheduler.Local.{Everywhere, knowing}
use probe_guided_inference.Scheduler.Local.Finishing.{Finishing, locally}
use probe_guided_inference.Scheduler.Endings.{IsLive}
use probe_guided_inference.Scheduler.Endings.Life.{endings}
use probe_guided_inference.Scheduler.Preemptions.{HeadIsNormal, requeue_head, contended_head}
use probe_guided_inference.Queue.Order.{requeue_split}
use probe_guided_inference.Scheduler.Parity.Others.{apply_routing-SameTokens}
use probe_guided_inference.Scheduler.Work.{
  sum, waiting_work, active_work, work, sum-requeue, sum-put_active, sum-pop_active, sum-pop_each,
  Advances-sum,
}

module _ {ℓ} {A : Type ℓ} where
  All-both : (P Q : A → Type 0) (xs : List A) → All P xs → All Q xs → All (λ x. P x × Q x) xs
  All-both P Q [] p q = tt
  All-both P Q (x ∷ xs) p q = ((p.0, q.0), All-both P Q xs p.1 q.1)

  length_pos : (xs : List A) → xs ≢ [] → 1 ≤ length xs
  length_pos [] h = absurd (h refl)
  length_pos (x ∷ xs) h = omega arith

module _ {b : Backend} (now cap : ℕ) where
  place-work :
      (s : Batcher b) (req : GenerationRequest b) (rest : List (GenerationRequest b))
      (p : Prefilled b)
      → s.queue.pending ≡ req ∷ rest
      → IsPrefilled s.limits req p
      → work cap (place now (with_queue rest s) p) + waiting_work cap req ≤ work cap s + cap
  unfolding place finish
  place-work s req rest p e (nid, f, g) =
      let one : 1 ≤ n_generated p.req =
        ground (arith, length-append req.generated_ids (nid ∷ [])) in
      let split = ap (sum (waiting_work cap)) e in
      elim (Bool-cases p.finished) [
        | inl done ↦
            rw done (omega (arith, sum-pop_active (active_work cap) p.req.request_id s.active))
        | inr running ↦ rw running (omega (arith, sum-put_active (active_work cap) p.req s.active))
      ]

  -- An admission costs at most the cap, and spends what the request at the head is worth.
  admit_one-work :
      (s : Batcher b) (price : ℕ)
      → ((req : GenerationRequest b) (rest : List (GenerationRequest b))
          → s.queue.pending ≡ req ∷ rest
          → price ≤ waiting_work cap req)
      → After Unit (admit_one now s) (λ t. work cap t + price ≤ work cap s + cap)
  admit_one-work s price worth =
      admit_one_ind now Unit (λ t. work cap t + price ≤ work cap s + cap) s (λ _. tt)
        λ req rest e.
          After-map Unit (run_prefill s.limits s.cache s.capture req)
            (run_prefill_lem s.limits s.cache s.capture req)
            (λ p known. omega (arith, place-work s req rest p e known, worth req rest e))

  -- A preemption and the admission that follows take something off: the victim starts again, but
  -- the request that takes its place will not do this to another.
  swap-work :
      (s : Batcher b) (victim : GenerationRequest b)
      → All (λ r. n_generated r ≤ cap) s.active
      → ((k : ℕ) → occurrences k s.active ≤ 1)
      → is_contended s ≡ true
      → find_deprioritize_victim s.active ≡ some victim
      → After Unit (admit_one now (preempt victim s)) (λ t. work cap t + 1 ≤ work cap s)
  unfolding preempt
  swap-work s victim small one contended found =
      let f = active_work cap in
      let IsSmall : GenerationRequest b → Type 0 = λ r. n_generated r ≤ cap in
      let IsHeavy : GenerationRequest b → Type 0 =
        λ r. f r + sum f (pop_active r.request_id s.active) ≤ sum f s.active in
      let ((n, gone), low) =
        victim_ind (λ r. IsSmall r × IsHeavy r) s.active victim
          (All-both IsSmall IsHeavy s.active small (sum-pop_each f s.active one)) found in
      let (m, e, behind, differs) = requeue_split (reset victim) s.queue (λ z. omega arith) in
      let head =
        requeue_head (reset victim) m s.queue.pending (contended_head s contended) behind in
      After-map Unit (admit_one now (preempt victim s))
        (admit_one-work (preempt victim s) (cap + 1 + cap) (λ req rest g.
          let normal : req.priority ≡ 0 = subst HeadIsNormal (sym e ∙ g) head in ground arith))
        (λ t spent. ground (arith, sum-requeue (waiting_work cap) (reset victim) s.queue))

  finish-work :
      (req : GenerationRequest b) (s : Batcher b) → work cap (finish now req s) ≤ work cap s
  unfolding finish
  finish-work req s = omega (arith, sum-pop_active (active_work cap) req.request_id s.active)

  decoded-work :
      (s : Batcher b) (d : Decoded b)
      → All (λ r. n_generated r ≤ cap) s.active
      → s.active ≢ []
      → Advances s.limits s.gate now s.active d.active_reqs d.finished_ids
      → work cap (routed s d) + 1 ≤ work cap s
  decoded-work s d small some_active advances =
      let spent =
        Advances-sum cap s.limits s.gate now s.active d.active_reqs
          (apply_routing s.config d.active_reqs).0 d.finished_ids small advances
          (apply_routing-SameTokens s.config d.active_reqs) in
      let some_one : 1 ≤ length s.active = length_pos s.active some_active in omega arith

-- Between the steps of a tick that started at `start`: something was spent, or nothing was done yet
-- and `X` is known of the start.
abbrev pub Progress : {b : Backend} → ℕ → Batcher b → Type 0 → Batcher b → Type 0
Progress cap start X s = (work cap s + 1 ≤ work cap start) ⊎ ((s ≡ start) × X)

module _ {b : Backend} (now : ℕ) (config : Config b) (total : ℕ → ℕ)
    (once : (k : ℕ) → total k ≤ 1) where
  abbrev pub cap : ℕ
  cap = config.limits.max_tokens_cap

  abbrev pub Lively : Batcher b → Type 0
  Lively = Everywhere now config total once (knowing ((endings config).rounds_keep now))

  abbrev pub Departing : List ℕ → Batcher b → Type 0
  Departing = Finishing now config total once (knowing ((endings config).rounds_keep now))

  pub small_all :
      (rs : List (GenerationRequest b)) → All (IsLive config) rs → All (λ r. n_generated r ≤ cap) rs
  small_all rs live = All-map (λ r l. ground (arith, l.below)) rs live

  since :
      (start s t : Batcher b) (X : Type 0)
      → Progress cap start X s
      → work cap t + 1 ≤ work cap s
      → work cap t + 1 ≤ work cap start
  since start s t X (inl less) h = omega arith
  since start s t X (inr (same, x)) h = omega (arith, ap (work cap) same)

  pub spends :
      (start : Batcher b) (X : Type 0)
      → Rule now config Unit
          (λ s. Lively s × Progress cap start X s)
          (λ rids s. Departing rids s × (work cap s + 1 ≤ work cap start))
  spends start X =
      let rule = locally now config total once ((endings config).rounds_keep now) in
      record {
        same_config = λ s i. i.0.conserved.same_config;
        admits = λ s i room.
            After-map Unit (admit_one now s)
              (After-pair Unit Lively (λ t. work cap t + (cap + 1) ≤ work cap s + cap)
                (admit_one now s) (rule.admits s i.0 room)
                (admit_one-work now cap s (cap + 1) (λ req rest e. ground arith)))
              (λ t known. (known.0, inl (since start s t X i.1 (omega (arith, known.1)))));
        swaps = λ s victim i strategy contended found.
            After-map Unit (admit_one now (preempt victim s))
              (After-pair Unit Lively (λ t. work cap t + 1 ≤ work cap s)
                (admit_one now (preempt victim s))
                (rule.swaps s victim i.0 strategy contended found)
                (swap-work now cap s victim (small_all s.active i.0.active)
                  (λ k. omega (arith, i.0.conserved.places k, once k)) contended found))
              (λ t known. (known.0, inl (since start s t X i.1 known.1)));
        decodes = λ s i some_active.
            After-map Unit (run_decode_step s.limits s.gate now s.active s.cache s.capture)
              (After-pair Unit (λ d. Departing (to_finish s d) (routed s d))
                (λ d. Advances s.limits s.gate now s.active d.active_reqs d.finished_ids)
                (run_decode_step s.limits s.gate now s.active s.cache s.capture)
                (rule.decodes s i.0 some_active)
                (run_decode_step_lem s.limits s.gate now s.active s.cache s.capture))
              (λ d known. (
                known.0,
                since start s (routed s d) X i.1
                    (decoded-work now cap s d (small_all s.active i.0.active) some_active known.1),
              ));
        finishes = λ rid rids s i.
            After-map Unit (or_raise key_error (get_active rid s.active))
              (After-pair Unit (λ req. Departing rids (finish now req s)) (λ req. Unit)
                (or_raise key_error (get_active rid s.active)) (rule.finishes rid rids s i.0)
                (After-unit (or_raise key_error (get_active rid s.active))))
              (λ req known. (known.0, omega (arith, i.1, finish-work now cap req s)));
        settles = λ s i. (rule.settles s i.0, inl i.1);
      }
