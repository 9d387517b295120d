-- ===== src/Scheduler/Routed.antt =====
-- What the routing phase of src/scheduler.py can do to a request.
use probe_guided_inference.Base.{
  ℕ, Bool, true, false, ◌≡◌, ◌⊎◌, inl, inr, refl, Option, none, some, if_ind, if◌then◌else◌,
}
use probe_guided_inference.Backend.{Backend}
use probe_guided_inference.Gate.{ClassificationGate, RoutingDecision, is_divergent}
use probe_guided_inference.Queue.{GenerationRequest, probe_terminated}
use probe_guided_inference.Scheduler.State.{
  Config, RoutingStrategy, baseline, probe_terminate, probe_deprioritize,
}
use probe_guided_inference.Scheduler.Route.{route, route_decided, react}
use probe_guided_inference.Scheduler.Flags.{outcome, route_one}

module _ {b : Backend} (config : Config b) where
  -- It goes on, perhaps with a lower priority.
  abbrev pub IsPassed : GenerationRequest b → GenerationRequest b → Type 0
  IsPassed r r'' =
      (routed : Bool) × (priority : ℕ) × (r'' ≡ record r { routed = routed; priority = priority })
      × ((priority ≡ r.priority) ⊎ ((priority ≡ 1) × (config.strategy ≡ probe_deprioritize)))

  -- It is terminated, for the reasons that the strategy asks for.
  abbrev pub IsCut : GenerationRequest b → GenerationRequest b → Type 0
  IsCut r r'' =
      (config.strategy ≡ probe_terminate)
      × (decision : RoutingDecision b) × (r.routing_decision ≡ some decision)
      × (is_divergent decision ≡ true)
      × (b.gt decision.confidence config.terminate_confidence_threshold ≡ true)
      × (r'' ≡ record r {
        routed = true;
        terminated_by_probe = true;
        finish_reason = some probe_terminated;
      })

  abbrev pub IsRouted : GenerationRequest b → GenerationRequest b × Bool → Type 0
  IsRouted r out = ((out.1 ≡ false) × IsPassed r out.0) ⊎ ((out.1 ≡ true) × IsCut r out.0)

  passed :
      (r : GenerationRequest b) (routed : Bool) → IsRouted r (record r { routed = routed }, false)
  passed r routed = inl (refl, (routed, r.priority, refl, inl refl))

  by_strategy :
      (strategy : RoutingStrategy) (decision : RoutingDecision b) (r : GenerationRequest b)
      → config.strategy ≡ strategy
      → r.routing_decision ≡ some decision
      → is_divergent decision ≡ true
      → IsRouted r (elim strategy as (λ _. GenerationRequest b × Bool) [
        | baseline ↦ (record r { routed = true }, false)
        | probe_terminate ↦
            if b.gt decision.confidence config.terminate_confidence_threshold
            then (
              record r {
                routed = true;
                terminated_by_probe = true;
                finish_reason = some probe_terminated;
              },
              true,
            )
            else (record r { routed = true }, false)
        | probe_deprioritize ↦ (record r { routed = true; priority = 1 }, false)
      ])
  by_strategy baseline decision r e d divergent = passed r true
  by_strategy probe_terminate decision r e d divergent =
      if_ind (IsRouted r) (b.gt decision.confidence config.terminate_confidence_threshold)
        (λ confident. inr (refl, (e, decision, d, divergent, confident, refl))) (λ _. passed r true)
  by_strategy probe_deprioritize decision r e d divergent =
      inl (refl, (true, 1, refl, inr (refl, e)))

  react-IsRouted :
      (decision : RoutingDecision b) (r : GenerationRequest b)
      → r.routing_decision ≡ some decision
      → IsRouted r (react config decision r)
  unfolding react
  react-IsRouted decision r d =
      if_ind (IsRouted r) (is_divergent decision)
        (λ divergent. by_strategy config.strategy decision r refl d divergent) (λ _. passed r true)

  decided-IsRouted :
      (decision : Option (RoutingDecision b)) (r : GenerationRequest b)
      → r.routing_decision ≡ decision
      → IsRouted r (route_decided config decision r)
  unfolding route_decided
  decided-IsRouted none r d = passed r r.routed
  decided-IsRouted (some decision) r d =
      if_ind (IsRouted r) r.routed (λ _. passed r r.routed) (λ _. react-IsRouted decision r d)

  -- The routing phase leaves a request's generation alone: it lets it go on or terminates it.
  pub outcome-IsRouted : (r : GenerationRequest b) → IsRouted r (outcome config r)
  unfolding route
  outcome-IsRouted r = cases config.gate
    where
      cases : (g : Option (ClassificationGate b)) → IsRouted r (route_one g config r)
      cases none = passed r r.routed
      cases (some g) = decided-IsRouted r.routing_decision r refl
