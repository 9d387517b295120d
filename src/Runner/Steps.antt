-- ===== src/Runner/Steps.antt =====
-- What src/model_runner.py does to one request, whatever the model answers.
use probe_guided_inference.Base.{
  ℕ, suc, ◌+◌, Bool, true, false, subst, ◌≡◌, refl, ◌⊎◌, inl, inr, Option, none, some, List, [],
  ◌∷◌, map, ok, or_raise, index_error, After, After-bind, After-unit, Bool-cases, Option-cases,
  get_elem?, length, if◌then◌else◌,
}
use probe_guided_inference.Backend.{Backend}
use probe_guided_inference.Probe.{LayerActivationCapture}
use probe_guided_inference.Gate.{ClassificationGate, RoutingDecision, ready_at, classify}
use probe_guided_inference.Queue.{GenerationRequest, n_generated}
use probe_guided_inference.Cache.{BatchedSequenceCache}
use probe_guided_inference.Runner.{
  Limits, Prefilled, Decoded, run_prefill, run_decode_step, forward, advance_from, ask_gate,
  fire_gate, append_token, set_reason, captured, is_finished, row_hidden,
}

module _ {b : Backend} where
  -- A prefill appends one token, whatever it is.
  abbrev pub IsPrefilled : Limits → GenerationRequest b → Prefilled b → Type 0
  IsPrefilled limits req p =
      (nid : ℕ) × (p.req ≡ set_reason limits nid (append_token nid (length req.prompt_ids) req))
      × (p.finished ≡ is_finished limits nid (append_token nid (length req.prompt_ids) req))

  pub run_prefill_lem :
      (limits : Limits) (cache : BatchedSequenceCache b)
      (capture : Option (LayerActivationCapture b)) (req : GenerationRequest b)
      → After Unit (run_prefill limits cache capture req) (IsPrefilled limits req)
  unfolding run_prefill
  run_prefill_lem limits cache capture req =
      elim (Option-cases (get_elem? (b.prefill req.prompt_ids).logits 0)) [
        | inl e ↦ rw e tt
        | inr (logits, e) ↦ rw e (b.argmax logits, refl, refl)
      ]

  -- The gate is not ready for the request, or there is none, or it has a decision.
  abbrev pub IsUnready : Option (ClassificationGate b) → GenerationRequest b → Type 0
  IsUnready gate r =
      (g : ClassificationGate b)
      → gate ≡ some g
      → r.routing_decision ≡ none
      → ready_at g (n_generated r) ≡ false

  -- The gate was not asked, or it was ready and its answer is recorded.
  abbrev pub IsFired :
      Option (ClassificationGate b) → ℕ → GenerationRequest b → GenerationRequest b → Type 0
  IsFired gate now r r' =
      ((r' ≡ r) × IsUnready gate r)
      ⊎ ((g : ClassificationGate b) × (hidden : b.Hidden) × (d : RoutingDecision b) × (gate
            ≡ some g)
          × (r.routing_decision ≡ none)
          × (ready_at g (n_generated r) ≡ true)
          × (classify g hidden ≡ ok d)
          × (r' ≡ record r { routing_decision = some d; checkpoint_hit_time = some now }))

  -- One row of the decoding loop: one token, the gate, and the reason if the request is finished.
  abbrev pub IsAdvanced :
      Limits
      → Option (ClassificationGate b)
      → ℕ
      → GenerationRequest b
      → GenerationRequest b
      → Bool
      → Type 0
  IsAdvanced limits gate now req req' done =
      (nid : ℕ) × (r : GenerationRequest b) × IsFired gate now
        (append_token nid (req.position + 1) req) r
      × (req' ≡ set_reason limits nid r)
      × (done ≡ is_finished limits nid r)

  -- The requests in turn, and the identifiers of those that are finished.
  abbrev pub Advances :
      Limits
      → Option (ClassificationGate b)
      → ℕ
      → List (GenerationRequest b)
      → List (GenerationRequest b)
      → List ℕ
      → Type 0
  Advances limits gate now [] [] ids = ids ≡ []
  Advances limits gate now (r ∷ rs) (r' ∷ rs') ids =
      (done : Bool) × (rest : List ℕ) × IsAdvanced limits gate now r r' done
      × Advances limits gate now rs rs' rest
      × (ids ≡ (if done then r.request_id ∷ rest else rest))
  Advances limits gate now _ _ ids = ⊥

  ask_gate_lem :
      (g : ClassificationGate b) (capture : Option (LayerActivationCapture b)) (now i : ℕ)
      (decision : Option (RoutingDecision b)) (r : GenerationRequest b)
      → r.routing_decision ≡ decision
      → After Unit (ask_gate g capture now i decision r) (IsFired (some g) now r)
  unfolding ask_gate
  ask_gate_lem g capture now i (some d) r e = inl (refl, λ g' same open_still. cc)
  ask_gate_lem g capture now i none r e = elim (Bool-cases (ready_at g (n_generated r))) [
    | inr early ↦ rw early (
        inl (
          refl,
          λ g' same open_still.
              let one : g ≡ g' = cc in subst (λ h. ready_at h (n_generated r) ≡ false) one early,
        ))
    | inl ready ↦ rw ready (
        After-bind Unit (λ _. Unit) (IsFired (some g) now r) (row_hidden capture i) _
          (After-unit (row_hidden capture i))
          (λ hidden _ _.
            After-bind Unit (λ _. Unit) (IsFired (some g) now r) (classify g hidden) _
              (After-unit (classify g hidden))
              (λ d answered _. inr (g, hidden, d, refl, e, ready, answered, refl))))
  ]

  fire_gate_lem :
      (gate : Option (ClassificationGate b)) (capture : Option (LayerActivationCapture b))
      (now i : ℕ) (r : GenerationRequest b)
      → After Unit (fire_gate gate capture now i r) (IsFired gate now r)
  unfolding fire_gate
  fire_gate_lem none capture now i r = inl (refl, λ g' same open_still. cc)
  fire_gate_lem (some g) capture now i r = ask_gate_lem g capture now i r.routing_decision r refl

  advance_from_lem :
      (limits : Limits) (gate : Option (ClassificationGate b))
      (capture : Option (LayerActivationCapture b)) (now : ℕ) (next_ids : List ℕ) (i : ℕ)
      (rs : List (GenerationRequest b))
      → After Unit
          (advance_from limits gate capture now next_ids i rs)
          (λ r. Advances limits gate now rs r.0 r.1)
  unfolding advance_from
  advance_from_lem limits gate capture now next_ids i [] = refl
  advance_from_lem limits gate capture now next_ids i (r ∷ rs) =
      After-bind Unit (λ _. Unit) (λ p. Advances limits gate now (r ∷ rs) p.0 p.1)
        (or_raise index_error (get_elem? next_ids i)) _
        (After-unit (or_raise index_error (get_elem? next_ids i)))
        λ nid _ _.
          After-bind Unit (IsFired gate now (append_token nid (r.position + 1) r))
            (λ p. Advances limits gate now (r ∷ rs) p.0 p.1)
            (fire_gate gate capture now i (append_token nid (r.position + 1) r)) _
            (fire_gate_lem gate capture now i (append_token nid (r.position + 1) r))
            λ r' _ fired.
              After-bind Unit (λ p. Advances limits gate now rs p.0 p.1)
                (λ p. Advances limits gate now (r ∷ rs) p.0 p.1)
                (advance_from limits gate capture now next_ids (suc i) rs) _
                (advance_from_lem limits gate capture now next_ids (suc i) rs)
                λ rest _ advances.
                  (is_finished limits nid r', rest.1, (nid, r', fired, refl, refl), advances, refl)

  -- A decoding step that returns has advanced each request by one token.
  pub run_decode_step_lem :
      (limits : Limits) (gate : Option (ClassificationGate b)) (now : ℕ)
      (rs : List (GenerationRequest b)) (cache : BatchedSequenceCache b)
      (capture : Option (LayerActivationCapture b))
      → After Unit
          (run_decode_step limits gate now rs cache capture)
          (λ d. Advances limits gate now rs d.active_reqs d.finished_ids)
  unfolding run_decode_step
  run_decode_step_lem limits gate now rs cache capture =
      After-bind Unit (λ _. Unit) Post (forward rs cache) _ (After-unit (forward rs cache))
        λ forwarded _ _.
          let next_ids = map b.argmax forwarded.1.logits in
          let capture' = captured forwarded.1.hidden capture in
          After-bind Unit (λ r. Advances limits gate now rs r.0 r.1) Post
            (advance_from limits gate capture' now next_ids 0 rs) _
            (advance_from_lem limits gate capture' now next_ids 0 rs) (λ r _ advances. advances)
    where
      Post : Decoded b → Type 0
      Post d = Advances limits gate now rs d.active_reqs d.finished_ids
