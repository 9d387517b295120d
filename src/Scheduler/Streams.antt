-- ===== src/Scheduler/Streams.antt =====
-- What a client reads from the token queue that src/model_runner.py and src/scheduler.py fill.
use probe_guided_inference.Base.{
  ℕ, ◌+◌, Bool, true, false, ◌≡◌, ◌⊎◌, inl, inr, refl, ap, sym, ◌∙◌, Option, none, some, List, [],
  ◌∷◌, ◌++◌, map, append_assoc, append-nil, length, if_ind, if◌then◌else◌,
}
use probe_guided_inference.Backend.{Backend}
use probe_guided_inference.Queue.{GenerationRequest, Submission, make_request, put_item}
use probe_guided_inference.Runner.{set_reason, append_token, is_finished}
use probe_guided_inference.Runner.Steps.{IsFired}
use probe_guided_inference.Scheduler.State.{Config, probe_deprioritize, complete}
use probe_guided_inference.Scheduler.Flags.{IsTicked, outcome}
use probe_guided_inference.Scheduler.Routed.{outcome-IsRouted}
use probe_guided_inference.Scheduler.Local.{KnowingRule}

-- The queue of a request: only one that streams has one.
abbrev pub streamed : Bool → List (Option ℕ) → Option (List (Option ℕ))
streamed true items = some items
streamed false items = none

put_item-streamed :
    (stream : Bool) (item : Option ℕ) (items : List (Option ℕ))
    → put_item stream item (streamed stream items) ≡ streamed stream (items ++ item ∷ [])
put_item-streamed true item items = refl
put_item-streamed false item items = refl

abbrev pub tokens : List ℕ → List (Option ℕ)
tokens ids = map some ids

tokens-append : (xs ys : List ℕ) → tokens (xs ++ ys) ≡ tokens xs ++ tokens ys
tokens-append [] ys = refl
tokens-append (x ∷ xs) ys = ap (◌∷◌ (some x)) (tokens-append xs ys)

module _ {b : Backend} (config : Config b) where
  -- Tokens of attempts that were preempted come first; there are none unless the strategy
  -- preempts.
  abbrev pub IsRetried : List ℕ → Type 0
  IsRetried before = (before ≡ []) ⊎ (config.strategy ≡ probe_deprioritize)

  abbrev pub IsOrdinary : ℕ → Type 0
  IsOrdinary priority = (priority ≡ 0) ⊎ (config.strategy ≡ probe_deprioritize)

-- `Tried` is to hold of a prompt and the tokens of its preempted attempts.
module _ {b : Backend} (config : Config b) (Tried : List ℕ → List ℕ → Type 0) where
  -- The queue of a request that has not ended holds the tokens in the order of generation.
  pub record IsStreaming (r : GenerationRequest b) : Type 0 where
    pub before : List ℕ
    pub retried : IsRetried config before
    pub tried : Tried r.prompt_ids before
    pub ordinary : IsOrdinary config r.priority
    pub items : r.token_queue ≡ streamed r.stream (tokens (before ++ r.generated_ids))

  pub record IsQueued (r : GenerationRequest b) : Type 0 where
    pub streaming : IsStreaming r
    pub no_tokens : r.generated_ids ≡ []

  -- The end of the stream is behind the last token, once.
  pub record IsStreamed (r : GenerationRequest b) : Type 0 where
    pub before : List ℕ
    pub retried : IsRetried config before
    pub tried : Tried r.prompt_ids before
    pub items : r.token_queue ≡ streamed r.stream (tokens (before ++ r.generated_ids) ++ none ∷ [])

  append-items :
      (stream : Bool) (nid : ℕ) (before ids : List ℕ) (queue : Option (List (Option ℕ)))
      → queue ≡ streamed stream (tokens (before ++ ids))
      → put_item stream (some nid) queue ≡ streamed stream (tokens (before ++ (ids ++ nid ∷ [])))
  append-items stream nid before ids queue e =
      ap (put_item stream (some nid)) e
      ∙ put_item-streamed stream (some nid) (tokens (before ++ ids))
      ∙ ap (streamed stream) (
          sym (tokens-append (before ++ ids) (nid ∷ []))
          ∙ ap tokens (append_assoc before ids (nid ∷ [])))

  appended :
      (nid position : ℕ) (r : GenerationRequest b)
      → IsStreaming r
      → IsStreaming (append_token nid position r)
  appended nid position r s = record {
    before = s.before;
    retried = s.retried;
    tried = s.tried;
    ordinary = s.ordinary;
    items = append-items r.stream nid s.before r.generated_ids r.token_queue s.items;
  }

  reasoned :
      (nid : ℕ) (r : GenerationRequest b)
      → IsStreaming r
      → IsStreaming (set_reason config.limits nid r)
  reasoned nid r s =
      if_ind IsStreaming (is_finished config.limits nid r)
        (λ _. record {
          before = s.before;
          retried = s.retried;
          tried = s.tried;
          ordinary = s.ordinary;
          items = s.items;
        })
        (λ _. s)

  fired-IsStreaming :
      (now : ℕ) (r r' : GenerationRequest b)
      → IsStreaming r
      → IsFired config.gate now r r'
      → IsStreaming r'
  fired-IsStreaming now r r' s (inl (same, unready)) = rw same s
  fired-IsStreaming now r r' s (inr (g, hidden, d, e, open_still, ready, answer, same)) =
      rw same (record {
        before = s.before;
        retried = s.retried;
        tried = s.tried;
        ordinary = s.ordinary;
        items = s.items;
      })

  routed-IsStreaming : (r : GenerationRequest b) → IsStreaming r → IsStreaming (outcome config r).0
  routed-IsStreaming r s = elim (outcome-IsRouted config r) [
    | inl (flag, (routed, priority, e, inl same)) ↦ rw e (record {
      before = s.before;
      retried = s.retried;
      tried = s.tried;
      ordinary = rw same s.ordinary;
      items = s.items;
    })
    | inl (flag, (routed, priority, e, inr demoted)) ↦ rw e (record {
      before = s.before;
      retried = s.retried;
      tried = s.tried;
      ordinary = inr demoted.1;
      items = s.items;
    })
    | inr (flag, (strategy, decision, d, divergent, confident, e)) ↦ rw e (record {
      before = s.before;
      retried = s.retried;
      tried = s.tried;
      ordinary = s.ordinary;
      items = s.items;
    })
  ]

  complete-IsStreamed :
      (now : ℕ) (r : GenerationRequest b) → IsStreaming r → IsStreamed (complete now r)
  unfolding complete
  complete-IsStreamed now r s = record {
    before = s.before;
    retried = s.retried;
    tried = s.tried;
    items =
        ap (put_item r.stream none) s.items
        ∙ put_item-streamed r.stream none (tokens (s.before ++ r.generated_ids));
  }

  reset-IsRetried :
      (before ids : List ℕ) (priority : ℕ)
      → IsOrdinary config priority
      → priority ≡ 1
      → IsRetried config (before ++ ids)
  reset-IsRetried before ids priority (inl normal) one = absurd cc
  reset-IsRetried before ids priority (inr strategy) one = inr strategy

  ticked-IsStreaming :
      (now : ℕ) (r r'' : GenerationRequest b) (finishing : Bool)
      → IsStreaming r
      → IsTicked config.limits config now r r'' finishing
      → IsStreaming r''
  ticked-IsStreaming now r r'' finishing s (r', done, (nid, t, fired, e, f), g, h) = rw g (
      routed-IsStreaming r' (
        rw e (
          reasoned nid t (
            fired-IsStreaming now (append_token nid (r.position + 1) r) t
              (appended nid (r.position + 1) r s) fired))))

  fresh_items : (stream : Bool) → (if stream then some [] else none) ≡ streamed stream []
  fresh_items true = refl
  fresh_items false = refl

  -- `Known` is what is known of the prompt and the tokens of a request that is preempted.
  module _ (Known : List ℕ → List ℕ → Type 0) (fresh : (prompt : List ℕ) → Tried prompt [])
      (grows : (prompt before ids : List ℕ)
        → Known prompt ids
        → Tried prompt before
        → Tried prompt (before ++ ids)) where
    pub make_request-IsQueued : (id now : ℕ) (s : Submission) → IsQueued (make_request id now s)
    unfolding make_request
    make_request-IsQueued id now s = record {
      streaming = record {
        before = [];
        retried = inl refl;
        tried = fresh s.prompt_ids;
        ordinary = inl refl;
        items = fresh_items s.stream;
      };
      no_tokens = refl;
    }

    pub streams :
        (now : ℕ)
        → KnowingRule now config
            (λ r. Known r.prompt_ids r.generated_ids)
            IsQueued
            IsStreaming
            IsStreamed
    streams now = record {
      resets = λ r known s one. record {
        streaming = record {
          before = s.before ++ r.generated_ids;
          retried = reset-IsRetried s.before r.generated_ids r.priority s.ordinary one;
          tried = grows r.prompt_ids s.before r.generated_ids known s.tried;
          ordinary = s.ordinary;
          items =
              s.items
              ∙ ap (λ l. streamed r.stream (tokens l))
                  (sym (append-nil (s.before ++ r.generated_ids)));
        };
        no_tokens = refl;
      };
      prefills = λ r nid q.
          let s =
            reasoned nid (append_token nid (length r.prompt_ids) r)
              (appended nid (length r.prompt_ids) r q.streaming) in
          (
            λ done.
                complete-IsStreamed now
                  (set_reason config.limits nid (append_token nid (length r.prompt_ids) r)) s,
            λ goes_on. s,
          );
      ticks = λ r r'' finishing s t.
          let s' = ticked-IsStreaming now r r'' finishing s t in
          (λ ends. complete-IsStreamed now r'' s', λ goes_on. s');
    }
