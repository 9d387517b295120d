-- ===== src/SetupChecks/Prefilling.antt =====
-- The prefills of scripts/verify_setup.py, one after the other.
use probe_guided_inference.Base.{
  ℕ, ◌≡◌, refl, Option, none, List, [], ◌∷◌, arith, All, All-map, length, After, After-bind,
}
use probe_guided_inference.Backend.{Backend}
use probe_guided_inference.Model.{IsRowWise}
use probe_guided_inference.Probe.{LayerActivationCapture}
use probe_guided_inference.Queue.{GenerationRequest, n_generated}
use probe_guided_inference.Cache.{BatchedSequenceCache}
use probe_guided_inference.Runner.{Limits, Prefilled, run_prefill}
use probe_guided_inference.Scheduler.Places.{occurrences}
use probe_guided_inference.Scheduler.Flags.{OneEach, OneEach-head, OneEach-tail}
use probe_guided_inference.Scheduler.Parity.{
  IsAsking, IsFaithful, IsStarted, run_prefill_total, prefilled-Faithful,
}
use probe_guided_inference.Scheduler.Parity.Others.{insert_all}
use probe_guided_inference.SetupChecks.{prefill_all}
use probe_guided_inference.SetupChecks.Stepping.{Same}

module _ {b : Backend} (w : IsRowWise b) (limits : Limits) (now n : ℕ) where
  -- What is known once all prompts have been run: `ts` are those before.
  abbrev pub Prefixed :
      List (GenerationRequest b)
      → List (GenerationRequest b)
      → List (GenerationRequest b) × BatchedSequenceCache b × Option (LayerActivationCapture b)
      → Type 0
  Prefixed ts rs s =
      All (IsFaithful w s.1) ts
      × All (IsFaithful w s.1) s.0
      × All (λ r. n_generated r ≡ 1) s.0
      × Same w limits now n rs s.0

  pub first_token :
      (c : BatchedSequenceCache b) (r : GenerationRequest b) (p : Prefilled b)
      → IsAsking r
      → IsStarted w c none r p
      → IsFaithful w p.cache p.req × (n_generated p.req ≡ 1)
  first_token c r p (fresh, some_token) i = (
    rw (i.cached, i.same_id, i.same_prompt, i.first, fresh)
        (prefilled-Faithful w c r.request_id r.prompt_ids some_token),
    rw (i.first, fresh) refl,
  )

  pub prefill_all-Prefixed :
      (c : BatchedSequenceCache b) (capture : Option (LayerActivationCapture b))
      (ts rs : List (GenerationRequest b))
      → All (IsFaithful w c) ts
      → All (λ t. occurrences t.request_id rs ≡ 0) ts
      → OneEach rs
      → All IsAsking rs
      → After ⊥ (prefill_all limits c capture rs) (Prefixed ts rs)
  unfolding prefill_all
  prefill_all-Prefixed c capture ts [] f o one fresh = (f, tt, tt, (tt, tt))
  prefill_all-Prefixed c capture ts (r ∷ rs) f o one (fresh, later) =
      After-bind ⊥ (IsStarted w c none r) (Prefixed ts (r ∷ rs)) (run_prefill limits c capture r) _
        (run_prefill_total w limits none c capture r fresh.1 (λ g e. absurd cc))
        (λ p e i.
          let kept : All (IsFaithful w p.cache) ts = rw i.cached (
            insert_all w c r.request_id (length r.prompt_ids)
              (b.prefill r.prompt_ids).past_key_values ts (All-map (λ t z. ground (arith, z)) ts o)
              f) in
          let (ready, sized) = first_token c r p fresh i in
          let alone : occurrences p.req.request_id rs ≡ 0 = rw i.same_id (OneEach-head r rs one) in
          After-bind ⊥ (Prefixed (p.req ∷ ts) rs) (Prefixed ts (r ∷ rs))
            (prefill_all limits p.cache p.capture rs) _
            (prefill_all-Prefixed p.cache p.capture (p.req ∷ ts) rs (ready, kept)
              (alone, All-map (λ t z. ground (arith, z)) ts o) (OneEach-tail r rs one) later)
            (λ s g known. (
              known.0.1,
              (known.0.0, known.1),
              (sized, known.2),
              ((i.same_id, known.3.0), (i.same_prompt, known.3.1)),
            )))
