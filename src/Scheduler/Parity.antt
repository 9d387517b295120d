-- ===== src/Scheduler/Parity.antt =====
-- The requests of src/scheduler.py against the reference of Runner/Greedy.antt: what is to hold of a
-- request, its cache and the hook so that it gets the tokens that its prompt would get alone.
pub mod Advancing
pub mod Decoding
pub mod Others
pub mod Rounds
pub mod Histories
pub mod Replays
use probe_guided_inference.Base.{
  ℕ, suc, ◌+◌, ◌≤◌, Bool, true, ◌≡◌, ◌≢◌, refl, ap, sym, ◌∙◌, Option, none, some, List, [], ◌∷◌,
  ◌++◌, arith, length, get_last?, All, All₂, ok, raise, Result, ◌==◌, if◌then◌else◌, subst,
  get_elem?, or_raise, index_error, After, if_ind,
}
use probe_guided_inference.Base.Dict
use probe_guided_inference.Base.Dict.{get-insert, get-pop}
use probe_guided_inference.Backend.{Backend}
use probe_guided_inference.Model.{IsRowWise, single, HasLength}
use probe_guided_inference.Probe.{LayerActivationCapture, hook_fn}
use probe_guided_inference.Gate.{ClassificationGate, RoutingDecision, classify}
use probe_guided_inference.Queue.{GenerationRequest}
use probe_guided_inference.Cache.{BatchedSequenceCache, SeqCache, store_prefill, evict}
use probe_guided_inference.Cache.Build.{Held, Stores}
use probe_guided_inference.Runner.{
  Prefilled, run_prefill, captured, Limits, set_reason, append_token, is_finished,
}
use probe_guided_inference.Runner.Greedy.{greedy, newest-get_last?}
use probe_guided_inference.Runner.Forward.{Matches}

module _ {b : Backend} where
  -- The gate accepts the model's hidden states, which have the dimension of the probe.
  abbrev pub Accepts : Option (ClassificationGate b) → Type 0
  Accepts gate =
      (g : ClassificationGate b)
      → gate ≡ some g
      → (hidden : b.Hidden) → (d : RoutingDecision b) × (classify g hidden ≡ ok d)

  -- A request that waits: its prompt has a token, and it has generated none.
  abbrev pub IsAsking : GenerationRequest b → Type 0
  IsAsking r = (r.generated_ids ≡ []) × (1 ≤ length r.prompt_ids)

  -- With a gate there is a hook, and it has not been removed.
  abbrev pub IsHooked : Option (ClassificationGate b) → Option (LayerActivationCapture b) → Type 0
  IsHooked gate capture =
      (g : ClassificationGate b)
      → gate ≡ some g
      → (hook : LayerActivationCapture b) × (capture ≡ some hook) × (hook.attached ≡ true)

  pub captured-IsHooked :
      (gate : Option (ClassificationGate b)) (hidden : List b.Hidden)
      (capture : Option (LayerActivationCapture b))
      → IsHooked gate capture
      → (g : ClassificationGate b) → gate ≡ some g
      → (hook : LayerActivationCapture b) × (captured hidden capture ≡ some hook)
        × (hook.attached ≡ true)
        × (hook.last ≡ some hidden)
  unfolding hook_fn
  captured-IsHooked gate hidden none h g e = let bad = (h g e).1 in absurd cc
  captured-IsHooked gate hidden (some hook) h g e =
      let (hook', same, on) = h g e in
      let attached : hook.attached ≡ true =
        let one : hook ≡ hook' = cc in
        subst (λ (k : LayerActivationCapture b). k.attached ≡ true) (sym one) on in
      (record hook { last = some hidden }, rw attached refl, attached, refl)

  pub keeps-IsHooked :
      (gate : Option (ClassificationGate b)) (hidden : List b.Hidden)
      (capture : Option (LayerActivationCapture b))
      → IsHooked gate capture
      → IsHooked gate (captured hidden capture)
  keeps-IsHooked gate hidden capture h g e =
      let (hook, same, on, last) = captured-IsHooked gate hidden capture h g e in (hook, same, on)

  pub reasoned-fields :
      (limits : Limits) (nid : ℕ) (r : GenerationRequest b)
      → ((set_reason limits nid r).request_id ≡ r.request_id)
        × ((set_reason limits nid r).prompt_ids ≡ r.prompt_ids)
        × ((set_reason limits nid r).generated_ids ≡ r.generated_ids)
  reasoned-fields limits nid r =
      if_ind
        (λ (t : GenerationRequest b).
          (t.request_id ≡ r.request_id)
          × (t.prompt_ids ≡ r.prompt_ids)
          × (t.generated_ids ≡ r.generated_ids))
        (is_finished limits nid r) (λ _. (refl, refl, refl)) (λ _. (refl, refl, refl))

module _ {b : Backend} (w : IsRowWise b) where
  -- The tokens of the reference after some number of steps.
  abbrev pub IsExact : List ℕ → List ℕ → Type 0
  IsExact prompt_ids generated_ids =
      (steps : ℕ) × (generated_ids ≡ (greedy w prompt_ids steps).tokens)

  -- The sequence of a request after some number of steps of the reference.
  abbrev pub state_of : ℕ → List ℕ → ℕ → Held b
  state_of id prompt_ids steps = record {
    id = id;
    n = length prompt_ids + steps;
    rows = (greedy w prompt_ids steps).rows;
    token = (greedy w prompt_ids steps).newest;
  }

  -- The prompt has a token, the request those of the reference, and the cache its columns.
  abbrev pub Faithful : BatchedSequenceCache b → ℕ → List ℕ → List ℕ → Type 0
  Faithful c id prompt_ids generated_ids =
      (1 ≤ length prompt_ids)
      × (steps : ℕ) × (generated_ids ≡ (greedy w prompt_ids steps).tokens)
      × Stores c w.n_layers (state_of id prompt_ids steps)

  abbrev pub IsFaithful : BatchedSequenceCache b → GenerationRequest b → Type 0
  IsFaithful c r = Faithful c r.request_id r.prompt_ids r.generated_ids

  -- Other sequences do not matter to what is stored of one.
  pub insert-Faithful :
      (c : BatchedSequenceCache b) (k n id : ℕ) (past : SeqCache b) (prompt ids : List ℕ)
      → id ≢ k
      → Faithful c id prompt ids
      → Faithful (store_prefill k past n c) id prompt ids
  unfolding store_prefill
  insert-Faithful c k n id past prompt ids other (some_token, steps, e, st) = (
    some_token,
    steps,
    e,
    record {
      length_at = ground (arith, get-insert k id n c.lengths, st.length_at);
      cache_at = ground (arith, get-insert k id past c.cache, st.cache_at);
      columns = st.columns;
      layers = st.layers;
    },
  )

  pub evict-Faithful :
      (c : BatchedSequenceCache b) (k id : ℕ) (prompt ids : List ℕ)
      → id ≢ k
      → Faithful c id prompt ids
      → Faithful (evict k c) id prompt ids
  unfolding evict
  evict-Faithful c k id prompt ids other (some_token, steps, e, st) = (
    some_token,
    steps,
    e,
    record {
      length_at = ground (arith, get-pop k id c.lengths, st.length_at);
      cache_at = ground (arith, get-pop k id c.cache, st.cache_at);
      columns = st.columns;
      layers = st.layers;
    },
  )

  -- What a prefill stores and generates.
  pub prefilled-Faithful :
      (c : BatchedSequenceCache b) (id : ℕ) (prompt : List ℕ)
      → 1 ≤ length prompt
      → Faithful
          (store_prefill id (b.prefill prompt).past_key_values (length prompt) c)
          id
          prompt
          (b.argmax (w.prompt_logits prompt) ∷ [])
  unfolding store_prefill greedy
  prefilled-Faithful c id prompt some_token = (
    some_token,
    0,
    refl,
    record {
      length_at = ground (arith, get-insert id id (length prompt) c.lengths);
      cache_at =
          get-insert id id (b.prefill prompt).past_key_values c.cache
          ∙ ground (arith, w.prefill_past prompt some_token);
      columns =
          subst (λ n. HasLength n (w.prompt_rows prompt)) (omega arith)
            (w.prefill_length prompt some_token);
      layers = w.prefill_layers prompt some_token;
    },
  )

  -- A prefill that does not fail: the first token of the reference, and what is known of the rest.
  pub record IsStarted (c : BatchedSequenceCache b) (gate : Option (ClassificationGate b))
      (req : GenerationRequest b) (p : Prefilled b) : Type 0 where
    pub same_id : p.req.request_id ≡ req.request_id
    pub same_prompt : p.req.prompt_ids ≡ req.prompt_ids
    pub cached :
        p.cache
        ≡ store_prefill req.request_id
            (b.prefill req.prompt_ids).past_key_values
            (length req.prompt_ids)
            c
    pub first :
        p.req.generated_ids ≡ req.generated_ids ++ b.argmax (w.prompt_logits req.prompt_ids) ∷ []
    pub hooked : IsHooked gate p.capture

  pub run_prefill_total :
      (limits : Limits) (gate : Option (ClassificationGate b)) (c : BatchedSequenceCache b)
      (capture : Option (LayerActivationCapture b)) (req : GenerationRequest b)
      → 1 ≤ length req.prompt_ids
      → IsHooked gate capture
      → After ⊥ (run_prefill limits c capture req) (IsStarted c gate req)
  unfolding run_prefill
  run_prefill_total limits gate c capture req some_token h =
      let nid = b.argmax (w.prompt_logits req.prompt_ids) in
      let fields = reasoned-fields limits nid (append_token nid (length req.prompt_ids) req) in
      rw (w.prefill_logits req.prompt_ids some_token) (record {
        same_id = fields.0;
        same_prompt = fields.1;
        cached = refl;
        first = fields.2;
        hooked = keeps-IsHooked gate (b.prefill req.prompt_ids).hidden capture h;
      })
