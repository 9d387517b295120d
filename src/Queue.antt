-- ===== src/Queue.antt =====
-- src/queue.py: a request and the queue between the submitters and the scheduler.
pub mod Order
use probe_guided_inference.Base.{
  ℕ, suc, ◌+◌, Bool, true, false, String, Option, none, some, List, [], ◌∷◌, ◌++◌, index_error,
  Result, ok, raise, ◌==◌, length, take, drop, if◌then◌else◌,
}
use probe_guided_inference.Backend.{Backend}
use probe_guided_inference.Gate.{RoutingDecision}

pub data FinishReason : Type 0 where
  eos max_tokens probe_terminated : FinishReason

-- The dict `metadata`: the two keys that benchmark/routing_eval.py sets; `none` is the empty dict.
pub record Metadata : Type 0 where
  pub aime_idx : ℕ
  pub expected_answer : List ℕ

-- `result` is what the future was set to; `token_queue` holds all that was put, `none` in it for
-- the end of the stream. Times are readings of the clock as numbers.
pub record GenerationRequest (b : Backend) : Type 0 where
  pub prompt : String
  pub max_tokens : ℕ
  pub prompt_ids : List ℕ
  pub arrival_time : ℕ
  pub request_id : ℕ
  pub result : Option String
  pub stream : Bool
  pub token_queue : Option (List (Option ℕ))
  pub generated_ids : List ℕ
  pub position : ℕ
  pub routing_decision : Option (RoutingDecision b)
  pub routed : Bool
  pub priority : ℕ
  pub terminated_by_probe : Bool
  pub finish_reason : Option FinishReason
  pub checkpoint_hit_time : Option ℕ
  pub completion_time : Option ℕ
  pub metadata : Option Metadata

pub record RequestQueue (b : Backend) : Type 0 where
  pub pending : List (GenerationRequest b)

pub record Submission : Type 0 where
  pub prompt : String
  pub max_tokens : ℕ
  pub prompt_ids : List ℕ
  pub stream : Bool
  pub metadata : Option Metadata

-- `if req.stream and req.token_queue is not None: req.token_queue.put_nowait(item)`, on the
-- request's queue.
abbrev pub put_item : Bool → Option ℕ → Option (List (Option ℕ)) → Option (List (Option ℕ))
put_item true item (some items) = some (items ++ item ∷ [])
put_item _ item token_queue = token_queue

module _ {b : Backend} where
  abbrev pub n_generated : GenerationRequest b → ℕ
  n_generated req = length req.generated_ids

  abbrev pub put_nowait : Option ℕ → GenerationRequest b → GenerationRequest b
  put_nowait item req = record req { token_queue = put_item req.stream item req.token_queue }

module _ {b : Backend} where
  -- The fields' defaults. The identifier and the time come from the counter and the clock.
  unfoldable pub make_request : ℕ → ℕ → Submission → GenerationRequest b
  make_request request_id now s = record {
    prompt = s.prompt;
    max_tokens = s.max_tokens;
    prompt_ids = s.prompt_ids;
    arrival_time = now;
    request_id = request_id;
    result = none;
    stream = s.stream;
    token_queue = if s.stream then some [] else none;
    generated_ids = [];
    position = 0;
    routing_decision = none;
    routed = false;
    priority = 0;
    terminated_by_probe = false;
    finish_reason = none;
    checkpoint_hit_time = none;
    completion_time = none;
    metadata = s.metadata;
  }

  unfoldable pub submit : ℕ → ℕ → Submission → RequestQueue b → GenerationRequest b × RequestQueue b
  unfolding make_request
  submit request_id now s q =
      let req = make_request request_id now s in (req, record { pending = q.pending ++ req ∷ [] })

  unfoldable pub peek : RequestQueue b → Option (GenerationRequest b)
  peek q = elim q.pending [ [] ↦ none | req ∷ rest ↦ some req ]

  unfoldable pub popleft : RequestQueue b → Result (GenerationRequest b × RequestQueue b)
  popleft q = elim q.pending [
    | [] ↦ raise index_error
    | req ∷ rest ↦ ok (req, record { pending = rest })
  ]

  unfoldable pub push_front : GenerationRequest b → RequestQueue b → RequestQueue b
  push_front req q = record { pending = req ∷ q.pending }

  -- The `for` loop over `enumerate(self._pending)` from index `i`. `next` is
  -- `last_priority0_idx + 1`, which starts at `-1 + 1`.
  unfoldable pub after_last_normal : List (GenerationRequest b) → ℕ → ℕ → ℕ
  after_last_normal [] i next = next
  after_last_normal (other ∷ rest) i next =
      after_last_normal rest (suc i) (if other.priority == 0 then suc i else next)

  -- The `while` loop, from index `idx` on; the list is `self._pending[idx:]`.
  unfoldable pub skip_deprioritized : List (GenerationRequest b) → ℕ → ℕ
  skip_deprioritized [] idx = idx
  skip_deprioritized (other ∷ rest) idx =
      let next = skip_deprioritized rest (suc idx) in if other.priority == 1 then next else idx

  -- `deque.insert(idx, req)`
  abbrev pub insert_at :
      ℕ → GenerationRequest b → List (GenerationRequest b) → List (GenerationRequest b)
  insert_at idx req pending = take idx pending ++ req ∷ drop idx pending

  unfoldable pub push_front_priority_aware : GenerationRequest b → RequestQueue b → RequestQueue b
  unfolding after_last_normal skip_deprioritized
  push_front_priority_aware req q =
      if req.priority == 0
      then record { pending = req ∷ q.pending }
      else (let start = after_last_normal q.pending 0 0 in
          let idx = skip_deprioritized (drop start q.pending) start in
          record { pending = insert_at idx req q.pending })

  abbrev pub len : RequestQueue b → ℕ
  len q = length q.pending
