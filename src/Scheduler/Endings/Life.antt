-- ===== src/Scheduler/Endings/Life.antt =====
-- The life of a request: what src/scheduler.py does to it keeps what Endings says of it.
use probe_guided_inference.Base.{
  ℕ, ◌≤◌, max, Bool, true, false, ◌≡◌, inl, inr, refl, sym, ◌∙◌, none, List, arith, All, length,
  Bool-cases, ok, subst,
}
use probe_guided_inference.Backend.{Backend}
use probe_guided_inference.Queue.{GenerationRequest, n_generated, make_request}
use probe_guided_inference.Runner.{set_reason, append_token}
use probe_guided_inference.Scheduler.State.{Config}
use probe_guided_inference.Scheduler.Flags.{IsTicked}
use probe_guided_inference.Scheduler.Routed.{IsPassed, IsCut, outcome-IsRouted}
use probe_guided_inference.Scheduler.Requests.{Lifecycle}
use probe_guided_inference.Scheduler.Endings.{
  IsSettled, IsLive, IsDue, IsEnded, IsUnstarted, limit, finished-IsSettled, running-IsLive,
  settled-IsDue, prefilled-IsGrown, advanced-IsGrown, complete-IsEnded, size, HasPrior,
  set_reason-prior,
}
use probe_guided_inference.Scheduler.Loop.{Process, Event, run}
use probe_guided_inference.Scheduler.Requests.{IsKept, run-IsKept}

module _ {b : Backend} (config : Config b) where
  passed-IsSettled :
      (r r'' : GenerationRequest b)
      → IsPassed config r r''
      → IsSettled config r
      → IsSettled config r''
  passed-IsSettled r r'' (routed, priority, e, why) d = rw e (record {
    unanswered = d.unanswered;
    some_token = d.some_token;
    bound = d.bound;
    prior = d.prior;
    natural = d.natural;
  })

  passed-IsLive :
      (r r'' : GenerationRequest b) → IsPassed config r r'' → IsLive config r → IsLive config r''
  passed-IsLive r r'' (routed, priority, e, why) l = rw e (record {
    unanswered = l.unanswered;
    no_reason = l.no_reason;
    not_terminated = l.not_terminated;
    some_token = l.some_token;
    below = l.below;
    no_eos = l.no_eos;
    placed = l.placed;
  })

  cut-IsDue :
      (r r'' : GenerationRequest b)
      → IsCut config r r''
      → r.result ≡ none
      → 1 ≤ n_generated r
      → n_generated r ≤ max 1 (limit config r)
      → HasPrior config r.generated_ids
      → IsDue config r''
  cut-IsDue r r'' (strategy, decision, d, divergent, confident, e) u some_token bound prior =
      rw e (record {
        unanswered = u;
        some_token = some_token;
        bound = bound;
        prior = prior;
        ending = inr (refl, refl, strategy, decision, d, divergent, confident);
      })

  -- The two outcomes of a tick for an active request.
  ticked-IsDue :
      (now : ℕ) (r r'' : GenerationRequest b) (finishing : Bool)
      → IsLive config r
      → IsTicked config.limits config now r r'' finishing
      → (finishing ≡ true → IsDue config r'') × (finishing ≡ false → IsLive config r'')
  ticked-IsDue now r r'' finishing l (r', done, (nid, s, fired, e, f), g, h) =
      let grown = advanced-IsGrown config now nid r s l fired in
      let n = size config nid s grown in
      let prior =
        subst (λ (t : GenerationRequest b). HasPrior config t.generated_ids) (sym e)
          (set_reason-prior config nid s grown) in
      let settles : done ≡ true → IsSettled config r' = λ is_done.
        subst (IsSettled config) (sym e)
          (finished-IsSettled config nid s grown (sym f ∙ is_done)) in
      let lives : done ≡ false → IsLive config r' = λ goes_on.
        subst (IsLive config) (sym e) (running-IsLive config nid s grown (sym f ∙ goes_on)) in
      elim (outcome-IsRouted config r') [
        | inl (flag, passes) ↦
            let passes' = subst (IsPassed config r') (sym g) passes in
            (
              λ ends.
                  settled-IsDue config r''
                    (passed-IsSettled r' r'' passes' (settles (ground arith))),
              λ goes_on. passed-IsLive r' r'' passes' (lives (ground arith)),
            )
        | inr (flag, cut) ↦
            let cut' = subst (IsCut config r') (sym g) cut in
            (
              λ ends. elim (Bool-cases done) [
                | inl is_done ↦
                    let d = settles is_done in
                    cut-IsDue r' r'' cut' d.unanswered d.some_token d.bound prior
                | inr goes_on ↦
                    let d = lives goes_on in
                    cut-IsDue r' r'' cut' d.unanswered d.some_token (ground (arith, d.below)) prior
              ],
              λ goes_on. absurd (ground arith),
            )
      ]

  -- Each request lives from its submission to its end as the records above say.
  pub endings : Lifecycle config (IsUnstarted config) (IsLive config) (IsEnded config)
  unfolding make_request
  endings = record {
    fresh = λ id now s. record {
      unanswered = refl;
      no_reason = refl;
      not_terminated = refl;
      no_tokens = refl;
    };
    rounds_keep = λ now. record {
      resets = λ r l one. record {
        unanswered = l.unanswered;
        no_reason = l.no_reason;
        not_terminated = l.not_terminated;
        no_tokens = refl;
      };
      prefills = λ r nid u.
          let grown = prefilled-IsGrown config nid r u in
          let r' = append_token nid (length r.prompt_ids) r in
          (
            λ done. complete-IsEnded config now (set_reason config.limits nid r') (
                settled-IsDue config (set_reason config.limits nid r')
                  (finished-IsSettled config nid r' grown done)),
            λ goes_on. running-IsLive config nid r' grown goes_on,
          );
      ticks = λ r r'' finishing l t.
          let (ends, goes_on) = ticked-IsDue now r r'' finishing l t in
          (λ f. complete-IsEnded config now r'' (ends f), goes_on);
    };
  }

  -- After any history that raises no exception, if it held before: a waiting request has no
  -- tokens, no result and no reason; an active one has one token or more, fewer than its limit
  -- min(max_tokens, cap), no end-of-sequence token, and position + 1 equal to its prompt length
  -- plus its number of tokens; a finished one has been answered with the decoding of exactly
  -- its tokens, has a completion time, one token or more and at most max(1, limit), no end-of-
  -- sequence token before the last, and ended in one of three ways: on its first end-of-
  -- sequence token with reason eos, at exactly max(1, limit) tokens without one with reason
  -- max_tokens, or under probe_terminate on a divergent decision with a confidence above the
  -- threshold with reason probe_terminated, and only then it is marked as terminated.
  pub run-Endings :
      (p q : Process b) (es : List (ℕ × Event))
      → IsKept config (IsUnstarted config) (IsLive config) (IsEnded config) p
      → run p es ≡ ok q
      → All (IsUnstarted config) q.batcher.queue.pending
        × All (IsLive config) q.batcher.active
        × All (IsEnded config) q.batcher.finished
  run-Endings p q es k e =
      let kept = run-IsKept endings p q es k e in (kept.waiting, kept.active, kept.finished)
