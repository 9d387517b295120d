-- ===== src/Scheduler/Parity/Decoding.antt =====
-- A decoding step of src/model_runner.py on requests that are faithful to the reference.
use native.Mathlib.Nat.{zero-add, add-zero, add-suc, suc-add}
use probe_guided_inference.Base.{
  ℕ, suc, ◌+◌, ◌≤◌, ◌≡◌, ◌≢◌, refl, ap, sym, ◌∙◌, Option, some, List, [], ◌∷◌, ◌++◌, map, arith,
  length, get_last?, get_elem?, get_elem?-map, All, All₂, subst, After, After-bind,
}
use probe_guided_inference.Backend.{Backend, Output}
use probe_guided_inference.Model.{IsRowWise, HasLength}
use probe_guided_inference.Probe.{LayerActivationCapture}
use probe_guided_inference.Gate.{ClassificationGate}
use probe_guided_inference.Queue.{GenerationRequest}
use probe_guided_inference.Cache.{BatchedSequenceCache}
use probe_guided_inference.Cache.Build.{Held, Stores}
use probe_guided_inference.Cache.Scatter.{Distinct, ids_of, grown}
use probe_guided_inference.Runner.{
  Limits, Decoded, row_hidden, advance_from, run_decode_step, captured,
}
use probe_guided_inference.Runner.Forward.{Matches, Answered, alone, forward-alone}
use probe_guided_inference.Runner.Greedy.{greedy, newest-get_last?}
use probe_guided_inference.Scheduler.Places.{occurrences}
use probe_guided_inference.Scheduler.Flags.{OneEach, OneEach-head, OneEach-tail}
use probe_guided_inference.Scheduler.Parity.{
  Faithful, IsFaithful, Accepts, IsHooked, state_of, captured-IsHooked, keeps-IsHooked,
}
use probe_guided_inference.Scheduler.Parity.Advancing.{HaveGrown, AreAnswered, advance_total}

module _ {b : Backend} (w : IsRowWise b) where
  -- The sequences of the requests, and the tokens that the model gives each of them alone.
  abbrev pub states :
      (c : BatchedSequenceCache b) (rs : List (GenerationRequest b))
      → All (IsFaithful w c) rs
      → List (Held b)
  states c [] f = []
  states c (r ∷ rs) ((some_token, steps, e, st), f) =
      state_of w r.request_id r.prompt_ids steps ∷ states c rs f

  abbrev pub next_of : List (Held b) → List ℕ
  next_of ss = map (λ s. b.argmax (alone w s).logits) ss

  states-Matches :
      (c : BatchedSequenceCache b) (rs : List (GenerationRequest b)) (f : All (IsFaithful w c) rs)
      → All₂ (Matches w) rs (states c rs f)
  states-Matches c [] f = tt
  states-Matches c (r ∷ rs) ((some_token, steps, e, st), f) =
      ((refl, ap get_last? e ∙ newest-get_last? w r.prompt_ids steps), states-Matches c rs f)

  states-Stores :
      (c : BatchedSequenceCache b) (rs : List (GenerationRequest b)) (f : All (IsFaithful w c) rs)
      → All (Stores c w.n_layers) (states c rs f)
  states-Stores c [] f = tt
  states-Stores c (r ∷ rs) ((some_token, steps, e, st), f) = (st, states-Stores c rs f)

  length-states :
      (c : BatchedSequenceCache b) (rs : List (GenerationRequest b)) (f : All (IsFaithful w c) rs)
      → length (next_of (states c rs f)) ≡ length rs
  length-states c [] f = refl
  length-states c (r ∷ rs) ((some_token, steps, e, st), f) = ap suc (length-states c rs f)

  -- The model's outputs, read from row `i` on.
  outputs-AreAnswered :
      (gate : Option (ClassificationGate b)) (capture : Option (LayerActivationCapture b))
      (out : Output b.Column b.Logits b.Hidden) (i : ℕ) (ss : List (Held b))
      → IsHooked gate capture
      → ((j : ℕ) (s : Held b)
          → get_elem? ss j ≡ some s
          → (get_elem? out.logits (i + j) ≡ some (alone w s).logits)
            × (get_elem? out.hidden (i + j) ≡ some (alone w s).hidden))
      → AreAnswered gate (captured out.hidden capture) (map b.argmax out.logits) i (next_of ss)
  unfolding row_hidden
  outputs-AreAnswered gate capture out i [] h at = tt
  outputs-AreAnswered gate capture out i (s ∷ ss) h at =
      let (l, v) = at 0 s refl in
      let l' = subst (λ k. get_elem? out.logits k ≡ some (alone w s).logits) (add-zero i) l in
      let v' = subst (λ k. get_elem? out.hidden k ≡ some (alone w s).hidden) (add-zero i) v in
      (
        get_elem?-map b.argmax out.logits i l',
        λ g e.
            let (hook, same, on, last) = captured-IsHooked gate out.hidden capture h g e in
            ((alone w s).hidden, rw same (rw last (rw v' refl))),
        outputs-AreAnswered gate capture out (suc i) ss h (λ j t e.
            subst
              (λ k.
                (get_elem? out.logits k ≡ some (alone w t).logits)
                × (get_elem? out.hidden k ≡ some (alone w t).hidden))
              (add-suc i j ∙ sym (suc-add i j)) (at (suc j) t e)),
      )

  absent-ids :
      (c : BatchedSequenceCache b) (k : ℕ) (rs : List (GenerationRequest b))
      (f : All (IsFaithful w c) rs)
      → occurrences k rs ≡ 0
      → All (λ m. m ≢ k) (ids_of (states c rs f))
  absent-ids c k [] f o = tt
  absent-ids c k (r ∷ rs) ((some_token, steps, e, st), f) o =
      (ground arith, absent-ids c k rs f (omega arith))

  states-Distinct :
      (c : BatchedSequenceCache b) (rs : List (GenerationRequest b)) (f : All (IsFaithful w c) rs)
      → OneEach rs
      → Distinct (ids_of (states c rs f))
  states-Distinct c [] f one = tt
  states-Distinct c (r ∷ rs) ((some_token, steps, e, st), f) one = (
    absent-ids c r.request_id rs f (OneEach-head r rs one),
    states-Distinct c rs f (OneEach-tail r rs one),
  )

  -- With its new token and its new column a request is faithful again, a step further.
  grown-Faithful :
      (c : BatchedSequenceCache b) (id steps : ℕ) (prompt ids : List ℕ)
      → 1 ≤ length prompt
      → ids ≡ (greedy w prompt steps).tokens
      → let s = state_of w id prompt steps in
        Stores c w.n_layers (grown s (alone w s).columns)
        → Faithful w c id prompt (ids ++ b.argmax (alone w s).logits ∷ [])
  unfolding greedy
  grown-Faithful c id steps prompt ids some_token e st =
      let further : length prompt + steps + 1 ≡ length prompt + suc steps = omega arith in
      (
        some_token,
        suc steps,
        ap (λ l. l ++ b.argmax (alone w (state_of w id prompt steps)).logits ∷ []) e,
        record {
          length_at = st.length_at ∙ ap some further;
          cache_at = st.cache_at;
          columns = subst (λ n. HasLength n (greedy w prompt (suc steps)).rows) further st.columns;
          layers = st.layers;
        },
      )

  grown_all :
      (c c' : BatchedSequenceCache b) (rs rs' : List (GenerationRequest b))
      (f : All (IsFaithful w c) rs)
      → HaveGrown (next_of (states c rs f)) rs rs'
      → All (λ s. Stores c' w.n_layers (grown s (alone w s).columns)) (states c rs f)
      → All (IsFaithful w c') rs'
  grown_all c c' [] [] f g st = tt
  grown_all c c' [] (r' ∷ rs') f g st = absurd g
  grown_all c c' (r ∷ rs) [] f g st = absurd g
  grown_all c c' (r ∷ rs) (r' ∷ rs') ((some_token, steps, e, old), f) ((i, p, t), g) (st, rest) = (
    rw (i, p, t)
        (grown-Faithful c' r.request_id steps r.prompt_ids r.generated_ids some_token e st),
    grown_all c c' rs rs' f g rest,
  )

  abbrev pub Steps : Option (ClassificationGate b) → Decoded b → Type 0
  Steps gate d = All (IsFaithful w d.cache) d.active_reqs × IsHooked gate d.capture

  -- A decoding step does not fail, and all requests are faithful after it.
  pub decode_total :
      (limits : Limits) (gate : Option (ClassificationGate b)) (now : ℕ)
      (rs : List (GenerationRequest b)) (c : BatchedSequenceCache b)
      (capture : Option (LayerActivationCapture b))
      → rs ≢ []
      → All (IsFaithful w c) rs
      → OneEach rs
      → Accepts gate
      → IsHooked gate capture
      → After ⊥ (run_decode_step limits gate now rs c capture) (Steps gate)
  unfolding run_decode_step
  decode_total limits gate now [] c capture some_active f one accepts h = absurd (some_active refl)
  decode_total limits gate now (r ∷ rs) c capture some_active f one accepts h =
      let ss = states c (r ∷ rs) f in
      let answered : Answered w (r ∷ rs) ss c =
        forward-alone w (r ∷ rs) (state_of w r.request_id r.prompt_ids f.0.1) (states c rs f.1) c
          (states-Matches c (r ∷ rs) f) (states-Distinct c (r ∷ rs) f one)
          (states-Stores c (r ∷ rs) f) in
      let out = answered.out in
      let answers = outputs-AreAnswered gate capture out 0 ss h (λ j s e.
        subst
          (λ k.
            (get_elem? out.logits k ≡ some (alone w s).logits)
            × (get_elem? out.hidden k ≡ some (alone w s).hidden))
          (sym (zero-add j)) (answered.logits_at j s e, answered.hidden_at j s e)) in
      rw answered.returned (
        After-bind ⊥ (λ a. HaveGrown (next_of ss) (r ∷ rs) a.0) (Steps gate)
          (advance_from limits gate (captured out.hidden capture) now (map b.argmax out.logits) 0
            (r ∷ rs))
          _
          (advance_total limits gate (captured out.hidden capture) now (map b.argmax out.logits) 0
            (next_of ss) (r ∷ rs) accepts (length-states c (r ∷ rs) f) answers)
          λ a _ grew. (
            grown_all c answered.cache (r ∷ rs) a.0 f grew answered.grew,
            keeps-IsHooked gate out.hidden capture h,
          ))
