-- ===== src/Scheduler/Gating.antt =====
-- When the gate is asked in src/model_runner.py, and whom the strategies of src/scheduler.py demote.
use probe_guided_inference.Base.{
  ℕ, ◌+◌, ◌≤◌, ◌<◌, max, Bool, ◌≡◌, ◌⊎◌, inl, inr, refl, Option, none, some, List, [], ◌∷◌, ◌++◌,
  arith, All, length, length-append, ok, subst, if_ind,
}
use probe_guided_inference.Backend.{Backend}
use probe_guided_inference.Gate.{ClassificationGate, RoutingDecision, classify, ready_at}
use probe_guided_inference.Queue.{GenerationRequest, n_generated, make_request}
use probe_guided_inference.Runner.{set_reason, append_token, is_finished}
use probe_guided_inference.Runner.Steps.{IsFired}
use probe_guided_inference.Scheduler.State.{Config, probe_deprioritize, complete}
use probe_guided_inference.Scheduler.Flags.{IsTicked, outcome}
use probe_guided_inference.Scheduler.Routed.{outcome-IsRouted}
use probe_guided_inference.Scheduler.Loop.{Process, Event, run}
use probe_guided_inference.Scheduler.Requests.{Lifecycle, IsKept, run-IsKept}

module _ {b : Backend} (config : Config b) where
  -- A priority other than 0 is 1, and the strategy is the one that gives it.
  abbrev pub IsRanked : ℕ → Type 0
  IsRanked priority = (priority ≡ 0) ⊎ ((priority ≡ 1) × (config.strategy ≡ probe_deprioritize))

  -- With `n` tokens. The gate is asked after each decoding step, the first of which makes the
  -- second token, from the checkpoint on, and never again once it has answered.
  abbrev pub IsAsked : ℕ → Option (RoutingDecision b) → Type 0
  IsAsked n decision =
      (config.gate ≡ none → decision ≡ none)
      × ((g : ClassificationGate b)
          → config.gate ≡ some g
          → ((decision ≡ none) × (n < max 2 g.checkpoint_position))
            ⊎ ((d : RoutingDecision b) × (hidden : b.Hidden) × (decision ≡ some d)
                × (classify g hidden ≡ ok d)
                × (max 2 g.checkpoint_position ≤ n)))

  pub record IsUnasked (r : GenerationRequest b) : Type 0 where
    pub ranked : IsRanked r.priority
    pub undecided : r.routing_decision ≡ none
    pub no_tokens : r.generated_ids ≡ []

  pub record IsGated (r : GenerationRequest b) : Type 0 where
    pub ranked : IsRanked r.priority
    pub some_token : 1 ≤ n_generated r
    pub asked : IsAsked (n_generated r) r.routing_decision

  fresh-IsAsked :
      (nid : ℕ) (r : GenerationRequest b)
      → IsUnasked r
      → IsGated (append_token nid (length r.prompt_ids) r)
  fresh-IsAsked nid r u = record {
    ranked = u.ranked;
    some_token = rw u.no_tokens (omega arith);
    asked = rw u.no_tokens (λ _. u.undecided, λ g e. inl (u.undecided, omega arith));
  }

  reason-IsGated :
      (nid : ℕ) (r : GenerationRequest b) → IsGated r → IsGated (set_reason config.limits nid r)
  reason-IsGated nid r g =
      if_ind IsGated (is_finished config.limits nid r)
        (λ _. record { ranked = g.ranked; some_token = g.some_token; asked = g.asked }) (λ _. g)

  fired-IsGated :
      (now nid position : ℕ) (r r' : GenerationRequest b)
      → IsGated r
      → IsFired config.gate now (append_token nid position r) r'
      → IsGated r'
  unfolding ready_at
  fired-IsGated now nid position r r' a (inl (same, unready)) = rw same (record {
    ranked = a.ranked;
    some_token = ground (arith, size);
    asked = (
      a.asked.0,
      λ g e. elim (a.asked.1 g e) [
        | inl (open_still, few) ↦
            inl (open_still, ground (arith, size, early g e open_still, a.some_token))
        | inr (d, hidden, decided, answer, many) ↦
            inr (d, hidden, decided, answer, omega (arith, size))
      ],
    );
  })
    where
      size : length (r.generated_ids ++ nid ∷ []) ≡ length r.generated_ids + 1
      size = length-append r.generated_ids (nid ∷ [])

      early :
          (g : ClassificationGate b)
          → config.gate ≡ some g
          → r.routing_decision ≡ none
          → length (r.generated_ids ++ nid ∷ []) < g.checkpoint_position
      early g e open_still = ground (arith, unready g e open_still)
  fired-IsGated now nid position r r' a (inr (g, hidden, d, e, open_still, ready, answer, same)) =
      rw same (record {
        ranked = a.ranked;
        some_token = ground (arith, size);
        asked = (
          λ no_gate. absurd cc,
          λ h f.
              let one : g ≡ h = cc in
              inr (
                d,
                hidden,
                refl,
                subst (λ k. classify k hidden ≡ ok d) one answer,
                subst
                    (λ (k : ClassificationGate b).
                      max 2 k.checkpoint_position ≤ length (r.generated_ids ++ nid ∷ []))
                    one late,
              ),
        );
      })
    where
      size : length (r.generated_ids ++ nid ∷ []) ≡ length r.generated_ids + 1
      size = length-append r.generated_ids (nid ∷ [])

      late : max 2 g.checkpoint_position ≤ length (r.generated_ids ++ nid ∷ [])
      late = ground (arith, ready, size, a.some_token)

  complete-IsGated : (now : ℕ) (r : GenerationRequest b) → IsGated r → IsGated (complete now r)
  unfolding complete
  complete-IsGated now r g = record {
    ranked = g.ranked;
    some_token = g.some_token;
    asked = g.asked;
  }

  routed-IsGated : (r : GenerationRequest b) → IsGated r → IsGated (outcome config r).0
  routed-IsGated r g = elim (outcome-IsRouted config r) [
    | inl (flag, (routed, priority, e, inl same)) ↦
        rw e (record { ranked = rw same g.ranked; some_token = g.some_token; asked = g.asked })
    | inl (flag, (routed, priority, e, inr demoted)) ↦
        rw e (record { ranked = inr demoted; some_token = g.some_token; asked = g.asked })
    | inr (flag, (strategy, decision, d, divergent, confident, e)) ↦
        rw e (record { ranked = g.ranked; some_token = g.some_token; asked = g.asked })
  ]

  ticked-IsGated :
      (now : ℕ) (r r'' : GenerationRequest b) (finishing : Bool)
      → IsGated r
      → IsTicked config.limits config now r r'' finishing
      → IsGated r''
  ticked-IsGated now r r'' finishing a (r', done, (nid, s, fired, e, f), g, h) = rw g (
      routed-IsGated r'
        (rw e (reason-IsGated nid s (fired-IsGated now nid (r.position + 1) r s a fired))))

  gating : Lifecycle config IsUnasked IsGated IsGated
  unfolding make_request
  gating = record {
    fresh = λ id now s. record { ranked = inl refl; undecided = refl; no_tokens = refl };
    rounds_keep = λ now. record {
      resets = λ r a one. record { ranked = a.ranked; undecided = refl; no_tokens = refl };
      prefills = λ r nid u.
          let gated =
            reason-IsGated nid (append_token nid (length r.prompt_ids) r) (fresh-IsAsked nid r u) in
          (
            λ done.
                complete-IsGated now
                  (set_reason config.limits nid (append_token nid (length r.prompt_ids) r)) gated,
            λ goes_on. gated,
          );
      ticks = λ r r'' finishing a t.
          let gated = ticked-IsGated now r r'' finishing a t in
          (λ ends. complete-IsGated now r'' gated, λ goes_on. gated);
    };
  }

  -- After any history that raises no exception, if it held before: priorities are 0, or 1 and
  -- then the strategy is probe_deprioritize; a waiting request has no decision; an active or
  -- finished one has no decision if there is no gate, and if there is one, it has none as long
  -- as it has fewer than max(2, checkpoint) tokens, and from then on has one that the gate gave
  -- for some hidden state.
  pub run-IsGated :
      (p q : Process b) (es : List (ℕ × Event))
      → IsKept config IsUnasked IsGated IsGated p
      → run p es ≡ ok q
      → All IsUnasked q.batcher.queue.pending
        × All IsGated q.batcher.active
        × All IsGated q.batcher.finished
  run-IsGated p q es k e =
      let kept = run-IsKept gating p q es k e in (kept.waiting, kept.active, kept.finished)
