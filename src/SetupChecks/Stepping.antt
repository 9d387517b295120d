-- ===== src/SetupChecks/Stepping.antt =====
-- The loops of scripts/verify_setup.py, which call the model runner without a scheduler.
use probe_guided_inference.Base.{
  ◌>>=◌, get_elem?, or_raise, index_error, ℕ, zero, suc, ◌+◌, ◌≡◌, ◌≢◌, refl, sym, ◌∙◌, Option,
  none, List, [], ◌∷◌, arith, All, All₂, All-map, if_ind, leb, subst, ok, Result, After, After-bind,
  After-map, After-both,
}
use probe_guided_inference.Backend.{Backend}
use probe_guided_inference.Model.{IsRowWise}
use probe_guided_inference.Probe.{LayerActivationCapture}
use probe_guided_inference.Queue.{GenerationRequest, n_generated}
use probe_guided_inference.Cache.{BatchedSequenceCache}
use probe_guided_inference.Runner.{Limits, Decoded, run_decode_step}
use probe_guided_inference.Runner.Steps.{Advances, run_decode_step_lem}
use probe_guided_inference.Scheduler.Places.{occurrences-All₂, SameId}
use probe_guided_inference.Scheduler.Conserve.{Advances-SameId}
use probe_guided_inference.Scheduler.Flags.{OneEach}
use probe_guided_inference.Scheduler.Parity.{IsFaithful, IsExact}
use probe_guided_inference.Scheduler.Parity.Decoding.{Steps, decode_total}
use probe_guided_inference.SetupChecks.{write_back, single_loop, multi_loop}
use probe_guided_inference.SetupChecks.Written.{
  SamePrompt, Advances-SamePrompt, Advances-n_generated, write_back_all, unfinished_all,
}

module _ {b : Backend} (w : IsRowWise b) (limits : Limits) (now n : ℕ) where
  -- Requests that have got `k` tokens each, and have their caches.
  pub record InStep (k : ℕ) (c : BatchedSequenceCache b) (rs : List (GenerationRequest b))
      : Type 0 where
    pub faithful : All (IsFaithful w c) rs
    pub sized : All (λ r. n_generated r ≡ k) rs
    pub one : OneEach rs

  abbrev pub Same : List (GenerationRequest b) → List (GenerationRequest b) → Type 0
  Same rs rs' = All₂ SameId rs rs' × All₂ SamePrompt rs rs'

  Same-refl : (rs : List (GenerationRequest b)) → Same rs rs
  Same-refl [] = (tt, tt)
  Same-refl (r ∷ rs) = let (i, p) = Same-refl rs in ((refl, i), (refl, p))

  Same-trans : (rs ts us : List (GenerationRequest b)) → Same rs ts → Same ts us → Same rs us
  Same-trans [] [] [] h k = (tt, tt)
  Same-trans [] [] (u ∷ us) h k = absurd k.0
  Same-trans [] (t ∷ ts) us h k = absurd h.0
  Same-trans (r ∷ rs) [] us h k = absurd h.0
  Same-trans (r ∷ rs) (t ∷ ts) [] h k = absurd k.0
  Same-trans (r ∷ rs) (t ∷ ts) (u ∷ us) ((i, is), (p, ps)) ((j, js), (q, qs)) =
      let (is', ps') = Same-trans rs ts us (is, ps) (js, qs) in ((j ∙ i, is'), (q ∙ p, ps'))

  -- A decoding step takes all of them one token further.
  pub step-InStep :
      (k : ℕ) (c : BatchedSequenceCache b) (capture : Option (LayerActivationCapture b))
      (rs : List (GenerationRequest b))
      → rs ≢ []
      → InStep k c rs
      → After ⊥
          (run_decode_step limits none now rs c capture)
          (λ d. InStep (k + 1) d.cache d.active_reqs × Same rs d.active_reqs)
  step-InStep k c capture rs some_one i =
      After-map ⊥ (run_decode_step limits none now rs c capture)
        (After-both (Steps w none) (λ d. Advances limits none now rs d.active_reqs d.finished_ids)
          (run_decode_step limits none now rs c capture)
          (decode_total w limits none now rs c capture some_one i.faithful i.one (λ g e. absurd cc)
            (λ g e. absurd cc))
          (run_decode_step_lem limits none now rs c capture))
        (λ d known.
          let ids = Advances-SameId limits none now rs d.active_reqs d.finished_ids known.1 in
          (
            record {
              faithful = known.0.0;
              sized =
                  Advances-n_generated limits none now k rs d.active_reqs d.finished_ids known.1
                    i.sized;
              one = λ j. omega (arith, i.one j, occurrences-All₂ j rs d.active_reqs ids);
            },
            (ids, Advances-SamePrompt limits none now rs d.active_reqs d.finished_ids known.1),
          ))

  -- Once the loop has ended all requests have `n` tokens.
  abbrev pub Done : List (GenerationRequest b) → List (GenerationRequest b) → Type 0
  Done rs rs' =
      Same rs rs'
      × All (λ r. n_generated r ≡ n) rs'
      × All (λ r. IsExact w r.prompt_ids r.generated_ids) rs'

  IsExact-all :
      (c : BatchedSequenceCache b) (rs : List (GenerationRequest b))
      → All (IsFaithful w c) rs
      → All (λ r. IsExact w r.prompt_ids r.generated_ids) rs
  IsExact-all c rs f = All-map (λ r (some_token, steps, e, st). (steps, e)) rs f

  Done-now :
      (k : ℕ) (c : BatchedSequenceCache b) (rs : List (GenerationRequest b))
      → InStep k c rs
      → k ≡ n
      → Done rs rs
  Done-now k c rs i e = (
    Same-refl rs,
    subst (λ m. All (λ r. n_generated r ≡ m) rs) e i.sized,
    IsExact-all c rs i.faithful,
  )

  pub multi_loop-Done :
      (fuel k : ℕ) (c : BatchedSequenceCache b) (capture : Option (LayerActivationCapture b))
      (rs : List (GenerationRequest b))
      → k + fuel ≡ n
      → InStep k c rs
      → After ⊥ (multi_loop fuel limits n now c capture rs) (Done rs)
  unfolding multi_loop
  multi_loop-Done zero k c capture rs e i = Done-now k c rs i (omega (arith, e))
  multi_loop-Done (suc fuel) k c capture [] e i = ((tt, tt), tt, tt)
  multi_loop-Done (suc fuel) k c capture (r ∷ rs) e i =
      subst
        (λ (active : List (GenerationRequest b)).
          After ⊥
            (elim active as (λ _. Result (List (GenerationRequest b))) [
              | [] ↦ ok (r ∷ rs)
              | q ∷ qs ↦ run_decode_step limits none now active c capture >>= λ d.
                  multi_loop fuel limits n now d.cache d.capture (write_back d.active_reqs (r ∷ rs))
            ])
            (Done (r ∷ rs)))
        (sym (unfinished_all n k (r ∷ rs) (omega (arith, e)) i.sized))
        (After-bind ⊥ (λ d. InStep (k + 1) d.cache d.active_reqs × Same (r ∷ rs) d.active_reqs)
          (Done (r ∷ rs)) (run_decode_step limits none now (r ∷ rs) c capture) _
          (step-InStep k c capture (r ∷ rs) (λ none_left. cc) i)
          (λ d f known.
            let whole = write_back_all (r ∷ rs) d.active_reqs i.one known.1.0 in
            After-map ⊥
              (multi_loop fuel limits n now d.cache d.capture (write_back d.active_reqs (r ∷ rs)))
              (subst
                (λ us.
                  After ⊥ (multi_loop fuel limits n now d.cache d.capture us) (Done d.active_reqs))
                (sym whole)
                (multi_loop-Done fuel (k + 1) d.cache d.capture d.active_reqs (omega (arith, e))
                  known.0))
              (λ us done. (Same-trans (r ∷ rs) d.active_reqs us known.1 done.0, done.1, done.2))))

  pub single_loop-Done :
      (fuel k : ℕ) (c : BatchedSequenceCache b) (capture : Option (LayerActivationCapture b))
      (r : GenerationRequest b)
      → k + fuel ≡ n
      → InStep k c (r ∷ [])
      → After ⊥ (single_loop fuel limits n now c capture r) (λ r'. Done (r ∷ []) (r' ∷ []))
  unfolding single_loop
  single_loop-Done zero k c capture r e i = Done-now k c (r ∷ []) i (omega (arith, e))
  single_loop-Done (suc fuel) k c capture r e i =
      if_ind (λ m. After ⊥ m (λ r'. Done (r ∷ []) (r' ∷ []))) (leb n (n_generated r))
        (λ enough. absurd (ground (arith, i.sized.0, e)))
        (λ _.
          After-bind ⊥ (λ d. InStep (k + 1) d.cache d.active_reqs × Same (r ∷ []) d.active_reqs)
            (λ r'. Done (r ∷ []) (r' ∷ [])) (run_decode_step limits none now (r ∷ []) c capture) _
            (step-InStep k c capture (r ∷ []) (λ none_left. cc) i)
            (λ d f known.
              next d d.active_reqs refl known.0 known.1
                (λ u j. single_loop-Done fuel (k + 1) d.cache d.capture u (omega (arith, e)) j)))
    where
      next :
          (d : Decoded b) (us : List (GenerationRequest b))
          → d.active_reqs ≡ us
          → InStep (k + 1) d.cache us
          → Same (r ∷ []) us
          → ((u : GenerationRequest b)
              → InStep (k + 1) d.cache (u ∷ [])
              → After ⊥
                  (single_loop fuel limits n now d.cache d.capture u)
                  (λ r'. Done (u ∷ []) (r' ∷ [])))
          → After ⊥
              (or_raise index_error (get_elem? us 0) >>= λ req'.
                single_loop fuel limits n now d.cache d.capture req')
              (λ r'. Done (r ∷ []) (r' ∷ []))
      next d [] f j same again = absurd same.0
      next d (u ∷ []) f j same again =
          After-map ⊥ (single_loop fuel limits n now d.cache d.capture u) (again u j)
            (λ r' done. (Same-trans (r ∷ []) (u ∷ []) (r' ∷ []) same done.0, done.1, done.2))
      next d (u ∷ v ∷ us) f j same again = absurd same.0.1
