-- ===== src/Scheduler/Flags.antt =====
-- Which requests a tick finishes: the identifiers that decoding and routing return, read request
-- by request.
use mathlib.Core.Path.{ap₂}
use probe_guided_inference.Base.{
  ℕ, ◌≤◌, Bool, false, ◌||◌, ◌≡◌, ◌≢◌, refl, ap, sym, ◌∙◌, Option, none, some, List, [], ◌∷◌, arith,
  Bool-cases, All₂, if◌then◌else◌,
}
use probe_guided_inference.Backend.{Backend}
use probe_guided_inference.Gate.{ClassificationGate}
use probe_guided_inference.Queue.{GenerationRequest}
use probe_guided_inference.Runner.{Limits}
use probe_guided_inference.Runner.Steps.{IsAdvanced, Advances}
use probe_guided_inference.Scheduler.State.{Config}
use probe_guided_inference.Scheduler.Route.{route, route_all, apply_routing}
use probe_guided_inference.Scheduler.Loop.{contains, union}
use probe_guided_inference.Scheduler.Places.{occurrences, SameId, occurrences-All₂}
use probe_guided_inference.Scheduler.Identifiers.{
  count, contains-union, count-union-le, contains-if_self, contains-if_ne,
}

module _ {b : Backend} where
  abbrev pub OneEach : List (GenerationRequest b) → Type 0
  OneEach rs = (k : ℕ) → occurrences k rs ≤ 1

  pub OneEach-tail :
      (r : GenerationRequest b) (rs : List (GenerationRequest b)) → OneEach (r ∷ rs) → OneEach rs
  OneEach-tail r rs h k = omega (arith, h k)

  pub OneEach-head :
      (r : GenerationRequest b) (rs : List (GenerationRequest b))
      → OneEach (r ∷ rs)
      → occurrences r.request_id rs ≡ 0
  OneEach-head r rs h = ground (arith, h r.request_id)

  -- The identifiers that decoding returns are among those of the batch.
  pub Advances-count :
      (limits : Limits) (gate : Option (ClassificationGate b)) (now k : ℕ)
      (rs rs' : List (GenerationRequest b)) (ids : List ℕ)
      → Advances limits gate now rs rs' ids
      → count k ids ≤ occurrences k rs
  Advances-count limits gate now k [] [] ids h = ground arith
  Advances-count limits gate now k [] (r' ∷ rs') ids h = absurd h
  Advances-count limits gate now k (r ∷ rs) [] ids h = absurd h
  Advances-count limits gate now k (r ∷ rs) (r' ∷ rs') ids (done, rest, a, h, e) =
      ground (arith, Advances-count limits gate now k rs rs' rest h)

  Advances-absent :
      (limits : Limits) (gate : Option (ClassificationGate b)) (now k : ℕ)
      (rs rs' : List (GenerationRequest b)) (ids : List ℕ)
      → Advances limits gate now rs rs' ids
      → occurrences k rs ≡ 0
      → contains k ids ≡ false
  Advances-absent limits gate now k [] [] ids h o = ground arith
  Advances-absent limits gate now k [] (r' ∷ rs') ids h o = absurd h
  Advances-absent limits gate now k (r ∷ rs) [] ids h o = absurd h
  Advances-absent limits gate now k (r ∷ rs) (r' ∷ rs') ids (done, rest, a, h, e) o =
      ground (arith, Advances-absent limits gate now k rs rs' rest h)

  -- One request under the routing phase: nothing happens where there is no gate.
  abbrev pub route_one :
      Option (ClassificationGate b) → Config b → GenerationRequest b → GenerationRequest b × Bool
  route_one none config r = (r, false)
  route_one (some g) config r = route config r

  abbrev pub outcome : Config b → GenerationRequest b → GenerationRequest b × Bool
  outcome config r = route_one config.gate config r

  -- A tick takes an active request through one row of decoding and through the routing phase, and
  -- finishes it if either says so.
  abbrev pub IsTicked :
      Limits → Config b → ℕ → GenerationRequest b → GenerationRequest b → Bool → Type 0
  IsTicked limits config now r r'' finishing =
      (r' : GenerationRequest b) × (done : Bool) × IsAdvanced limits config.gate now r r' done
      × (r'' ≡ (outcome config r').0)
      × (finishing ≡ (done || (outcome config r').1))

  -- The identifiers are read off request by request.
  abbrev pub Ticked :
      Limits
      → Config b
      → ℕ
      → List ℕ
      → List (GenerationRequest b)
      → List (GenerationRequest b)
      → Type 0
  Ticked limits config now ids rs rs'' =
      All₂ (λ r r''. IsTicked limits config now r r'' (contains r.request_id ids)) rs rs''

  route_each :
      Option (ClassificationGate b)
      → Config b
      → List (GenerationRequest b)
      → List (GenerationRequest b) × List ℕ
  route_each g config [] = ([], [])
  route_each g config (r ∷ rs) =
      let here = route_one g config r in
      let rest = route_each g config rs in
      (here.0 ∷ rest.0, if here.1 then r.request_id ∷ rest.1 else rest.1)

  route_each-none :
      (config : Config b) (rs : List (GenerationRequest b)) → route_each none config rs ≡ (rs, [])
  unfolding route_each
  route_each-none config [] = refl
  route_each-none config (r ∷ rs) = rw (route_each-none config rs)

  route_each-some :
      (g : ClassificationGate b) (config : Config b) (rs : List (GenerationRequest b))
      → route_each (some g) config rs ≡ route_all config rs
  unfolding route_each route_all
  route_each-some g config [] = refl
  route_each-some g config (r ∷ rs) = rw (route_each-some g config rs)

  apply_routing-eq-each :
      (config : Config b) (rs : List (GenerationRequest b))
      → apply_routing config rs ≡ route_each config.gate config rs
  unfolding apply_routing
  apply_routing-eq-each config rs = cases config.gate
    where
      cases :
          (gate : Option (ClassificationGate b))
          → elim gate as (λ _. List (GenerationRequest b) × List ℕ) [
            | none ↦ (rs, [])
            | some g ↦ route_all config rs
          ]
            ≡ route_each gate config rs
      cases none = sym (route_each-none config rs)
      cases (some g) = sym (route_each-some g config rs)

  route_each-count :
      (g : Option (ClassificationGate b)) (config : Config b) (k : ℕ)
      (rs : List (GenerationRequest b))
      → count k (route_each g config rs).1 ≤ occurrences k rs
  unfolding route_each
  route_each-count g config k [] = omega arith
  route_each-count g config k (r ∷ rs) =
      let rest = route_each-count g config k rs in
      let fired = Bool-cases (route_one g config r).1 in ground arith

  route_each-absent :
      (g : Option (ClassificationGate b)) (config : Config b) (k : ℕ)
      (rs : List (GenerationRequest b))
      → occurrences k rs ≡ 0
      → contains k (route_each g config rs).1 ≡ false
  unfolding route_each
  route_each-absent g config k [] o = refl
  route_each-absent g config k (r ∷ rs) o =
      let rest = route_each-absent g config k rs in
      let fired = Bool-cases (route_one g config r).1 in ground arith

  ticked_lem :
      (limits : Limits) (config : Config b) (now : ℕ) (ids : List ℕ)
      (rs rs' : List (GenerationRequest b)) (fin : List ℕ)
      → OneEach rs
      → All₂ SameId rs rs'
      → Advances limits config.gate now rs rs' fin
      → ((k : ℕ)
          → 1 ≤ occurrences k rs
          → contains k ids ≡ (contains k fin || contains k (route_each config.gate config rs').1))
      → Ticked limits config now ids rs (route_each config.gate config rs').0
  unfolding route_each
  ticked_lem limits config now ids [] [] fin one ss a known = tt
  ticked_lem limits config now ids [] (r' ∷ rs') fin one ss a known = absurd a
  ticked_lem limits config now ids (r ∷ rs) [] fin one ss a known = absurd a
  ticked_lem limits config now ids (r ∷ rs) (r' ∷ rs') fin one ss (done, rest, adv, a, e) known =
      let alone = OneEach-head r rs one in
      let gone = Advances-absent limits config.gate now r.request_id rs rs' rest a alone in
      let still =
        route_each-absent config.gate config r.request_id rs'
          (occurrences-All₂ r.request_id rs rs' ss.1 ∙ alone) in
      (
        (
          r',
          done,
          adv,
          refl,
          known r.request_id (ground arith)
              ∙ ap₂ ◌||◌
                  (ap (contains r.request_id) e
                    ∙ contains-if_self done r.request_id r.request_id rest refl gone)
                  (contains-if_self (outcome config r').1 r.request_id r'.request_id _ ss.0 still),
        ),
        ticked_lem limits config now ids rs rs' rest (OneEach-tail r rs one) ss.1 a (λ k here.
            let other : r.request_id ≢ k =
              λ same. ground (arith, ap (λ j. occurrences j rs) same) in
            let other' : r'.request_id ≢ k = λ same. other (sym ss.0 ∙ same) in
            known k (omega arith)
            ∙ ap₂ ◌||◌ (ap (contains k) e ∙ contains-if_ne done k r.request_id rest other)
                (contains-if_ne (outcome config r').1 k r'.request_id _ other')),
      )

  -- After decoding and routing, in terms of the functions of the scheduler.
  pub Ticked_lem :
      (limits : Limits) (config : Config b) (now : ℕ) (rs rs' : List (GenerationRequest b))
      (fin : List ℕ)
      → OneEach rs
      → All₂ SameId rs rs'
      → Advances limits config.gate now rs rs' fin
      → Ticked limits config now
          (union fin (apply_routing config rs').1)
          rs
          (apply_routing config rs').0
  Ticked_lem limits config now rs rs' fin one ss a = rw (apply_routing-eq-each config rs') (
      ticked_lem limits config now (union fin (route_each config.gate config rs').1) rs rs' fin one
        ss a (λ k _. contains-union k fin (route_each config.gate config rs').1))

  -- No identifier is finished more often than it is in the batch.
  pub Ticked-count :
      (limits : Limits) (config : Config b) (now k : ℕ) (rs rs' : List (GenerationRequest b))
      (fin : List ℕ)
      → All₂ SameId rs rs'
      → Advances limits config.gate now rs rs' fin
      → count k (union fin (apply_routing config rs').1) ≤ occurrences k rs
  Ticked-count limits config now k rs rs' fin ss a = rw (apply_routing-eq-each config rs') (
      count-union-le k (occurrences k rs) fin (route_each config.gate config rs').1
        (Advances-count limits config.gate now k rs rs' fin a)
        (omega (arith, route_each-count config.gate config k rs', occurrences-All₂ k rs rs' ss)))
