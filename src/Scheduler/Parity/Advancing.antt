-- ===== src/Scheduler/Parity/Advancing.antt =====
-- The loop of `run_decode_step` in src/model_runner.py on rows that the model has answered.
use probe_guided_inference.Base.{
  ℕ, suc, ◌+◌, ◌≡◌, refl, ◌∙◌, Option, none, some, List, [], ◌∷◌, ◌++◌, arith, length, get_elem?,
  ok, After, After-bind, Bool-cases, inl, inr,
}
use probe_guided_inference.Backend.{Backend}
use probe_guided_inference.Probe.{LayerActivationCapture}
use probe_guided_inference.Gate.{ClassificationGate, RoutingDecision, ready_at}
use probe_guided_inference.Queue.{GenerationRequest, n_generated}
use probe_guided_inference.Runner.{
  Limits, row_hidden, ask_gate, fire_gate, advance_from, append_token,
}
use probe_guided_inference.Scheduler.Parity.{Accepts, reasoned-fields}

module _ {b : Backend} where
  abbrev pub SameTokens : GenerationRequest b → GenerationRequest b → Type 0
  SameTokens r r' =
      (r'.request_id ≡ r.request_id)
      × (r'.prompt_ids ≡ r.prompt_ids)
      × (r'.generated_ids ≡ r.generated_ids)

  abbrev pub HasGrown : ℕ → GenerationRequest b → GenerationRequest b → Type 0
  HasGrown nid r r' =
      (r'.request_id ≡ r.request_id)
      × (r'.prompt_ids ≡ r.prompt_ids)
      × (r'.generated_ids ≡ r.generated_ids ++ nid ∷ [])

  -- Each request has got its token of the list.
  abbrev pub HaveGrown : List ℕ → List (GenerationRequest b) → List (GenerationRequest b) → Type 0
  HaveGrown [] [] [] = Unit
  HaveGrown (n ∷ ns) (r ∷ rs) (r' ∷ rs') = HasGrown n r r' × HaveGrown ns rs rs'
  HaveGrown _ _ _ = ⊥

  -- There is a hidden state for row `i`, if the gate needs one.
  abbrev pub IsSeen : Option (ClassificationGate b) → Option (LayerActivationCapture b) → ℕ → Type 0
  IsSeen gate capture i =
      (g : ClassificationGate b)
      → gate ≡ some g
      → (hidden : b.Hidden) × (row_hidden capture i ≡ ok hidden)

  ask_gate_total :
      (g : ClassificationGate b) (capture : Option (LayerActivationCapture b)) (now i : ℕ)
      (decision : Option (RoutingDecision b)) (r : GenerationRequest b)
      → Accepts (some g)
      → IsSeen (some g) capture i
      → After ⊥ (ask_gate g capture now i decision r) (SameTokens r)
  unfolding ask_gate
  ask_gate_total g capture now i (some d) r accepts seen = (refl, refl, refl)
  ask_gate_total g capture now i none r accepts seen =
      let (hidden, e) = seen g refl in
      let (d, f) = accepts g refl hidden in
      elim (Bool-cases (ready_at g (n_generated r))) [
        | inl ready ↦ rw ready (rw e (rw f (refl, refl, refl)))
        | inr early ↦ rw early (refl, refl, refl)
      ]

  fire_gate_total :
      (gate : Option (ClassificationGate b)) (capture : Option (LayerActivationCapture b))
      (now i : ℕ) (r : GenerationRequest b)
      → Accepts gate
      → IsSeen gate capture i
      → After ⊥ (fire_gate gate capture now i r) (SameTokens r)
  unfolding fire_gate
  fire_gate_total none capture now i r accepts seen = (refl, refl, refl)
  fire_gate_total (some g) capture now i r accepts seen =
      ask_gate_total g capture now i r.routing_decision r accepts seen

  -- The rows from `i` on have a token and, if it is needed, a hidden state.
  abbrev pub AreAnswered :
      Option (ClassificationGate b)
      → Option (LayerActivationCapture b)
      → List ℕ
      → ℕ
      → List ℕ
      → Type 0
  AreAnswered gate capture next_ids i [] = Unit
  AreAnswered gate capture next_ids i (n ∷ ns) =
      (get_elem? next_ids i ≡ some n)
      × IsSeen gate capture i
      × AreAnswered gate capture next_ids (suc i) ns

  pub advance_total :
      (limits : Limits) (gate : Option (ClassificationGate b))
      (capture : Option (LayerActivationCapture b)) (now : ℕ) (next_ids : List ℕ) (i : ℕ)
      (ns : List ℕ) (rs : List (GenerationRequest b))
      → Accepts gate
      → length ns ≡ length rs
      → AreAnswered gate capture next_ids i ns
      → After ⊥ (advance_from limits gate capture now next_ids i rs) (λ out. HaveGrown ns rs out.0)
  unfolding advance_from
  advance_total limits gate capture now next_ids i [] [] accepts size answers = tt
  advance_total limits gate capture now next_ids i [] (r ∷ rs) accepts size answers =
      absurd (omega arith)
  advance_total limits gate capture now next_ids i (n ∷ ns) [] accepts size answers =
      absurd (omega arith)
  advance_total limits gate capture now next_ids i (n ∷ ns) (r ∷ rs) accepts size
        (at, seen, answers) =
      rw at (
        After-bind ⊥ (SameTokens (append_token n (r.position + 1) r))
          (λ out. HaveGrown (n ∷ ns) (r ∷ rs) out.0)
          (fire_gate gate capture now i (append_token n (r.position + 1) r)) _
          (fire_gate_total gate capture now i (append_token n (r.position + 1) r) accepts seen)
          λ r' _ same.
            After-bind ⊥ (λ out. HaveGrown ns rs out.0) (λ out. HaveGrown (n ∷ ns) (r ∷ rs) out.0)
              (advance_from limits gate capture now next_ids (suc i) rs) _
              (advance_total limits gate capture now next_ids (suc i) ns rs accepts (omega arith)
                answers)
              λ rest _ grew.
                let fields = reasoned-fields limits n r' in
                ((fields.0 ∙ same.0, fields.1 ∙ same.1, fields.2 ∙ same.2), grew))
