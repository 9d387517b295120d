-- ===== src/Scheduler/Route.antt =====
-- src/scheduler.py, ROUTE: what each strategy does with a routing decision.
use probe_guided_inference.Base.{
  ℕ, Bool, true, false, Option, none, some, List, [], ◌∷◌, if◌then◌else◌,
}
use probe_guided_inference.Backend.{Backend}
use probe_guided_inference.Gate.{RoutingDecision, is_divergent}
use probe_guided_inference.Queue.{GenerationRequest, probe_terminated}
use probe_guided_inference.Scheduler.State.{baseline, probe_terminate, probe_deprioritize, Config}

module _ {b : Backend} where
  -- The body of the loop over the newly routed requests: the request, and whether its identifier
  -- is returned.
  unfoldable pub react :
      Config b → RoutingDecision b → GenerationRequest b → GenerationRequest b × Bool
  react config decision req =
      let seen = record req { routed = true } in
      if is_divergent decision
      then elim config.strategy [
        | baseline ↦ (seen, false)
        | probe_terminate ↦
            if b.gt decision.confidence config.terminate_confidence_threshold
            then (
              record seen { terminated_by_probe = true; finish_reason = some probe_terminated },
              true,
            )
            else (seen, false)
        | probe_deprioritize ↦ (record seen { priority = 1 }, false)
      ]
      else (seen, false)

  -- `decision` is the request's `routing_decision`.
  unfoldable pub route_decided :
      Config b → Option (RoutingDecision b) → GenerationRequest b → GenerationRequest b × Bool
  unfolding react
  route_decided config none req = (req, false)
  route_decided config (some decision) req =
      if req.routed then (req, false) else react config decision req

  unfoldable pub route : Config b → GenerationRequest b → GenerationRequest b × Bool
  unfolding route_decided
  route config req = route_decided config req.routing_decision req

  unfoldable pub route_all :
      Config b → List (GenerationRequest b) → List (GenerationRequest b) × List ℕ
  unfolding route
  route_all config [] = ([], [])
  route_all config (req ∷ reqs) =
      let here = route config req in
      let rest = route_all config reqs in
      (here.0 ∷ rest.0, if here.1 then req.request_id ∷ rest.1 else rest.1)

  unfoldable pub apply_routing :
      Config b → List (GenerationRequest b) → List (GenerationRequest b) × List ℕ
  unfolding route_all
  apply_routing config active = elim config.gate [
    | none ↦ (active, [])
    | some gate ↦ route_all config active
  ]
