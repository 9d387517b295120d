-- ===== src/Scheduler/Endings.antt =====
-- How the requests of src/scheduler.py end: with eos, at their limit, or by the probe.
pub mod Life
use probe_guided_inference.Base.{
  ℕ, suc, ◌+◌, ◌≤◌, ◌<◌, min, max, Bool, true, false, ◌||◌, ◌≡◌, ◌≢◌, ◌⊎◌, inl, inr, refl, ap, sym,
  ◌∙◌, Option, none, some, List, [], ◌∷◌, ◌++◌, arith, All, All-append, length, length-append,
  Bool-cases, ok, subst, if_ind, if◌then◌else◌, leb, ◌==◌,
}
use probe_guided_inference.Backend.{Backend}
use probe_guided_inference.Gate.{ClassificationGate, RoutingDecision, is_divergent}
use probe_guided_inference.Queue.{
  GenerationRequest, FinishReason, eos, max_tokens, probe_terminated, n_generated, make_request,
}
use probe_guided_inference.Runner.{Limits, is_finished, set_reason, append_token, reason}
use probe_guided_inference.Runner.Steps.{IsAdvanced, IsFired}
use probe_guided_inference.Scheduler.State.{
  Config, RoutingStrategy, baseline, probe_terminate, probe_deprioritize, complete,
}
use probe_guided_inference.Scheduler.Admit.{reset}
use probe_guided_inference.Scheduler.Route.{route, route_decided, react}
use probe_guided_inference.Scheduler.Flags.{IsTicked, outcome, route_one}
use probe_guided_inference.Scheduler.Local.{LocalRule}
use probe_guided_inference.Scheduler.Routed.{IsPassed, IsCut, outcome-IsRouted}
use probe_guided_inference.Scheduler.Requests.{Lifecycle}

module _ {b : Backend} (config : Config b) where
  abbrev pub limit : GenerationRequest b → ℕ
  limit r = min r.max_tokens config.limits.max_tokens_cap

  pub record IsUnstarted (r : GenerationRequest b) : Type 0 where
    pub unanswered : r.result ≡ none
    pub no_reason : r.finish_reason ≡ none
    pub not_terminated : r.terminated_by_probe ≡ false
    pub no_tokens : r.generated_ids ≡ []

  pub record IsLive (r : GenerationRequest b) : Type 0 where
    pub unanswered : r.result ≡ none
    pub no_reason : r.finish_reason ≡ none
    pub not_terminated : r.terminated_by_probe ≡ false
    pub some_token : 1 ≤ n_generated r
    pub below : n_generated r < limit r
    pub no_eos : All (λ t. t ≢ config.limits.eos_token_id) r.generated_ids
    pub placed : r.position + 1 ≡ length r.prompt_ids + n_generated r

  -- Without an end-of-sequence token.
  abbrev pub HasNoEos : List ℕ → Type 0
  HasNoEos ids = All (λ t. t ≢ config.limits.eos_token_id) ids

  -- There is a last token, and no end-of-sequence token before it.
  abbrev pub HasPrior : List ℕ → Type 0
  HasPrior ids = (before : List ℕ) × (newest : ℕ) × (ids ≡ before ++ newest ∷ []) × HasNoEos before

  -- The last token is the first end-of-sequence token.
  abbrev pub IsEos : Option FinishReason → Bool → List ℕ → Type 0
  IsEos finish_reason terminated ids =
      (finish_reason ≡ some eos)
      × (terminated ≡ false)
      × (before : List ℕ) × (ids ≡ before ++ config.limits.eos_token_id ∷ [])
      × HasNoEos before

  -- There is no end-of-sequence token, and there are as many tokens as are allowed.
  abbrev pub IsFull : Option FinishReason → Bool → List ℕ → ℕ → Type 0
  IsFull finish_reason terminated ids most =
      (finish_reason ≡ some max_tokens)
      × (terminated ≡ false)
      × (length ids ≡ max 1 most)
      × HasNoEos ids

  -- The strategy ended it, on a divergent decision with a confidence above the threshold.
  abbrev pub IsTerminated : Option FinishReason → Bool → Option (RoutingDecision b) → Type 0
  IsTerminated finish_reason terminated routing_decision =
      (finish_reason ≡ some probe_terminated)
      × (terminated ≡ true)
      × (config.strategy ≡ probe_terminate)
      × (decision : RoutingDecision b) × (routing_decision ≡ some decision)
      × (is_divergent decision ≡ true)
      × (b.gt decision.confidence config.terminate_confidence_threshold ≡ true)

  abbrev pub Natural : GenerationRequest b → Type 0
  Natural r =
      IsEos r.finish_reason r.terminated_by_probe r.generated_ids
      ⊎ IsFull r.finish_reason r.terminated_by_probe r.generated_ids (limit r)

  abbrev pub Ending : GenerationRequest b → Type 0
  Ending r = Natural r ⊎ IsTerminated r.finish_reason r.terminated_by_probe r.routing_decision

  pub record IsDue (r : GenerationRequest b) : Type 0 where
    pub unanswered : r.result ≡ none
    pub some_token : 1 ≤ n_generated r
    pub bound : n_generated r ≤ max 1 (limit r)
    pub prior : HasPrior r.generated_ids
    pub ending : Ending r

  pub record IsEnded (r : GenerationRequest b) : Type 0 where
    pub answered : r.result ≡ some (b.detokenize r.generated_ids)
    pub time : ℕ
    pub timed : r.completion_time ≡ some time
    pub some_token : 1 ≤ n_generated r
    pub bound : n_generated r ≤ max 1 (limit r)
    pub prior : HasPrior r.generated_ids
    pub ending : Ending r

  pub complete-IsEnded : (now : ℕ) (r : GenerationRequest b) → IsDue r → IsEnded (complete now r)
  unfolding complete
  complete-IsEnded now r d = record {
    answered = rw d.unanswered refl;
    time = now;
    timed = refl;
    some_token = d.some_token;
    bound = d.bound;
    prior = d.prior;
    ending = d.ending;
  }

  -- A request with a new token, whatever the gate answered, before the reason is set.
  pub record IsGrown (nid : ℕ) (r : GenerationRequest b) : Type 0 where
    pub unanswered : r.result ≡ none
    pub no_reason : r.finish_reason ≡ none
    pub not_terminated : r.terminated_by_probe ≡ false
    pub older : List ℕ
    pub ids : r.generated_ids ≡ older ++ nid ∷ []
    pub room : (length older ≡ 0) ⊎ (length older < limit r)
    pub no_eos : HasNoEos older
    pub placed : r.position + 1 ≡ length r.prompt_ids + n_generated r

  pub size :
      (nid : ℕ) (r : GenerationRequest b) (g : IsGrown nid r) → n_generated r ≡ length g.older + 1
  size nid r g = ap length g.ids ∙ length-append g.older (nid ∷ [])

  finished-Natural :
      (nid : ℕ) (r : GenerationRequest b)
      → IsGrown nid r
      → is_finished config.limits nid r ≡ true
      → Natural (record r { finish_reason = some (reason config.limits nid) })
  finished-Natural nid r g done = elim (Bool-cases (nid == config.limits.eos_token_id)) [
    | inl at_eos ↦
        let same : nid ≡ config.limits.eos_token_id = ground arith in
        inl (
          ap some (rw at_eos refl),
          g.not_terminated,
          g.older,
          subst (λ n. r.generated_ids ≡ g.older ++ n ∷ []) same g.ids,
          g.no_eos,
        )
    | inr other ↦ inr (
      ap some (rw other refl),
      g.not_terminated,
      ground (arith, size nid r g, g.room),
      rw g.ids (
          All-append (λ t. t ≢ config.limits.eos_token_id) g.older (nid ∷ []) g.no_eos
            (ground arith, tt)),
    )
  ]

  -- Of a request that is to be finished, before routing.
  pub record IsSettled (r : GenerationRequest b) : Type 0 where
    pub unanswered : r.result ≡ none
    pub some_token : 1 ≤ n_generated r
    pub bound : n_generated r ≤ max 1 (limit r)
    pub prior : HasPrior r.generated_ids
    pub natural : Natural r

  pub finished-IsSettled :
      (nid : ℕ) (r : GenerationRequest b)
      → IsGrown nid r
      → is_finished config.limits nid r ≡ true
      → IsSettled (set_reason config.limits nid r)
  finished-IsSettled nid r g done = rw done (record {
    unanswered = g.unanswered;
    some_token = omega (arith, size nid r g);
    bound = ground (arith, size nid r g, g.room);
    prior = (g.older, nid, g.ids, g.no_eos);
    natural = finished-Natural nid r g done;
  })

  pub set_reason-prior :
      (nid : ℕ) (r : GenerationRequest b)
      → IsGrown nid r
      → HasPrior (set_reason config.limits nid r).generated_ids
  set_reason-prior nid r g =
      if_ind (λ (t : GenerationRequest b). HasPrior t.generated_ids)
        (is_finished config.limits nid r) (λ _. (g.older, nid, g.ids, g.no_eos))
        (λ _. (g.older, nid, g.ids, g.no_eos))

  pub settled-IsDue : (r : GenerationRequest b) → IsSettled r → IsDue r
  settled-IsDue r d = record {
    unanswered = d.unanswered;
    some_token = d.some_token;
    bound = d.bound;
    prior = d.prior;
    ending = inl d.natural;
  }

  pub running-IsLive :
      (nid : ℕ) (r : GenerationRequest b)
      → IsGrown nid r
      → is_finished config.limits nid r ≡ false
      → IsLive (set_reason config.limits nid r)
  running-IsLive nid r g more = rw more (record {
    unanswered = g.unanswered;
    no_reason = g.no_reason;
    not_terminated = g.not_terminated;
    some_token = omega (arith, size nid r g);
    below = ground (arith, size nid r g);
    no_eos = rw g.ids (
        All-append (λ t. t ≢ config.limits.eos_token_id) g.older (nid ∷ []) g.no_eos
          (ground arith, tt));
    placed = g.placed;
  })

  pub prefilled-IsGrown :
      (nid : ℕ) (r : GenerationRequest b)
      → IsUnstarted r
      → IsGrown nid (append_token nid (length r.prompt_ids) r)
  prefilled-IsGrown nid r u = record {
    unanswered = u.unanswered;
    no_reason = u.no_reason;
    not_terminated = u.not_terminated;
    older = [];
    ids = rw u.no_tokens refl;
    room = inl refl;
    no_eos = tt;
    placed = rw u.no_tokens refl;
  }

  pub advanced-IsGrown :
      (now nid : ℕ) (r r' : GenerationRequest b)
      → IsLive r
      → IsFired config.gate now (append_token nid (r.position + 1) r) r'
      → IsGrown nid r'
  advanced-IsGrown now nid r r' l (inl (same, unready)) = rw same (record {
    unanswered = l.unanswered;
    no_reason = l.no_reason;
    not_terminated = l.not_terminated;
    older = r.generated_ids;
    ids = refl;
    room = inr l.below;
    no_eos = l.no_eos;
    placed = omega (arith, l.placed, length-append r.generated_ids (nid ∷ []));
  })
  advanced-IsGrown now nid r r' l (inr (g, hidden, d, h, k, i, j, e)) = rw e (record {
    unanswered = l.unanswered;
    no_reason = l.no_reason;
    not_terminated = l.not_terminated;
    older = r.generated_ids;
    ids = refl;
    room = inr l.below;
    no_eos = l.no_eos;
    placed = omega (arith, l.placed, length-append r.generated_ids (nid ∷ []));
  })
